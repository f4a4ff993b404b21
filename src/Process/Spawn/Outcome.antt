-- ===== src/Process/Spawn/Outcome.antt =====
-- io.cpp: each spawn gives back what it took, on every branch.
use kyte.Process.System.{System, ◌>>=◌, ◌>>◌, KyteString, to_cstr, free_cstr}
use kyte.Process.Args.{build_argv, parse_env, text_of}
use kyte.Process.Child.{Pipes, spawn_child, spawn_ex_child, iso_child_entry}
use kyte.Process.Spawn.{
  Answers, open_pipes, fork_child, with_pipes, spawn_copied, process_spawn, Strings, Copies,
  copy_strings, free_strings, spawn_ex_copied, process_spawn_ex, CloneFlag, clone_flags,
  clone_child, Isolation, child_args, isolated_copied, process_spawn_isolated,
}
use kyte.Process.Spawn.Frees.{
  Copied, taken, c_string, AreFresh, to_cstr-taken, Releases, free_all-Releases,
}
use kyte.Process.Spawn.Ends.{AreNew}
use kyte.Process.Spawn.Balance.{
  outcome, iso_outcome, with_strings, IsSettled, fork_child-outcome, clone_child-outcome,
  with_pipes-outcome,
}
use kyte.Prelude.{
  ℕ, ◌≡◌, refl, sym, ap, ◌∙◌, subst, Bool, true, false, ◌&&◌, Option, none, some, List, [], ◌∷◌,
  ◌++◌, append_assoc,
}

abbrev pub two_copies : Answers → KyteString → KyteString → List Copied
two_copies k cmd args_str = (cmd, k.block_cmd) ∷ (args_str, k.block_args) ∷ []

-- A spawn without a child leaves the parent as it was: its descriptors, blocks, mappings and children.
-- A spawn with a child leaves it the context, the write end of the child's input and the read end of
-- its output, and the child to wait for. No descriptor is closed and no block freed twice. The kernel's
-- descriptors and the allocator's blocks are to be new.
pub process_spawn-outcome :
    (k : Answers) (cmd args_str : KyteString) (s : System)
    → AreNew k.in_pipe k.out_pipe
    → AreFresh (two_copies k cmd args_str)
    → IsSettled outcome s (process_spawn k cmd args_str s)
unfolding process_spawn spawn_copied
process_spawn-outcome k cmd args_str s new fresh =
    let cs = two_copies k cmd args_str in
    let c1 = c_string (cmd, k.block_cmd) in
    let c2 = c_string (args_str, k.block_args) in
    let release = free_cstr cmd c1 >> free_cstr args_str c2 in
    let run = λ (p : Pipes). fork_child k p release (spawn_child p k.execs (build_argv c1 c2)) in
    let releases : Releases release cs = λ u rest e. free_all-Releases cs fresh u rest e in
    let first = to_cstr-taken (cmd, k.block_cmd) s in
    let second =
      to_cstr-taken (args_str, k.block_args)
        (record s { blocks = taken (cmd, k.block_cmd) ++ s.blocks }) in
    let whole =
      ap (λ r. (to_cstr args_str k.block_args >>= λ c. spawn_copied k cmd args_str r.0 c) r.1) first
      ∙ ap (λ r. spawn_copied k cmd args_str c1 r.0 r.1) second
      ∙ ap (λ b. spawn_copied k cmd args_str c1 c2 (record s { blocks = b }))
          (sym
            (append_assoc (taken (args_str, k.block_args)) (taken (cmd, k.block_cmd)) s.blocks)) in
    let main = with_pipes-outcome k cs release releases run outcome s new refl (λ p apart.
      fork_child-outcome k cs release releases p (spawn_child p k.execs (build_argv c1 c2)) s
        apart) in
    subst (IsSettled outcome s) (sym whole) main

abbrev pub four_copies : Answers → Strings → List Copied
four_copies k t =
    (t.cmd, k.block_cmd)
    ∷ (t.args_str, k.block_args)
    ∷ (t.third, k.block_third)
    ∷ (t.fourth, k.block_fourth)
    ∷ []

abbrev copies_of : Answers → Strings → Copies
copies_of k t = record {
  c_cmd = c_string (t.cmd, k.block_cmd);
  c_args = c_string (t.args_str, k.block_args);
  c_third = c_string (t.third, k.block_third);
  c_fourth = c_string (t.fourth, k.block_fourth);
}

regroup : (a b c d rest : List ℕ) → d ++ (c ++ (b ++ (a ++ rest))) ≡ (((d ++ c) ++ b) ++ a) ++ rest
regroup a b c d rest = simp append_assoc

copy_strings-copies :
    (k : Answers) (t : Strings) (s : System)
    → copy_strings k t s ≡ (copies_of k t, with_strings (four_copies k t) s)
unfolding copy_strings
copy_strings-copies k t s =
    let a = taken (t.cmd, k.block_cmd) in
    let b = taken (t.args_str, k.block_args) in
    let c = taken (t.third, k.block_third) in
    let d = taken (t.fourth, k.block_fourth) in
    let s1 = record s { blocks = a ++ s.blocks } in
    let s2 = record s1 { blocks = b ++ s1.blocks } in
    let s3 = record s2 { blocks = c ++ s2.blocks } in
    rw
      (
        to_cstr-taken (t.cmd, k.block_cmd) s,
        to_cstr-taken (t.args_str, k.block_args) s1,
        to_cstr-taken (t.third, k.block_third) s2,
        to_cstr-taken (t.fourth, k.block_fourth) s3,
      )
      (ap (λ l. (copies_of k t, record s { blocks = l })) (regroup a b c d s.blocks))

free_strings-Releases :
    (k : Answers) (t : Strings)
    → AreFresh (four_copies k t)
    → Releases (free_strings t (copies_of k t)) (four_copies k t)
unfolding free_strings
free_strings-Releases k t fresh s rest e = free_all-Releases (four_copies k t) fresh s rest e

-- `kyte_process_spawn_ex` leaves the parent as `kyte_process_spawn` does: as it was without a child, and
-- with two ends of the pipes, the context and a child otherwise.
pub process_spawn_ex-outcome :
    (k : Answers) (t : Strings) (s : System)
    → AreNew k.in_pipe k.out_pipe
    → AreFresh (four_copies k t)
    → IsSettled outcome s (process_spawn_ex k t s)
unfolding process_spawn_ex spawn_ex_copied
process_spawn_ex-outcome k t s new fresh =
    let c = copies_of k t in
    let release = free_strings t c in
    let run = λ (p : Pipes). fork_child k p release (
      spawn_ex_child p (text_of c.c_fourth) k.enters (parse_env c.c_third) k.execs
        (build_argv c.c_cmd c.c_args)) in
    let releases = free_strings-Releases k t fresh in
    let whole = ap (λ r. spawn_ex_copied k t r.0 r.1) (copy_strings-copies k t s) in
    let main =
      with_pipes-outcome k (four_copies k t) release releases run outcome s new refl (λ p apart.
        fork_child-outcome k (four_copies k t) release releases p
          (spawn_ex_child p (text_of c.c_fourth) k.enters (parse_env c.c_third) k.execs
            (build_argv c.c_cmd c.c_args))
          s apart) in
    subst (IsSettled outcome s) (sym whole) main

-- `kyte_process_spawn_isolated` does so too, but with a child the stack that it mapped for `clone` stays
-- mapped in the parent.
pub process_spawn_isolated-outcome :
    (kernel_clone : List CloneFlag → Option ℕ) (k : Answers) (o : Isolation) (t : Strings)
    (s : System)
    → AreNew k.in_pipe k.out_pipe
    → AreFresh (four_copies k t)
    → IsSettled (iso_outcome k.stack) s (process_spawn_isolated kernel_clone k o t s)
unfolding process_spawn_isolated isolated_copied
process_spawn_isolated-outcome kernel_clone k o t s new fresh =
    let c = copies_of k t in
    let release = free_strings t c in
    let cloned = kernel_clone (clone_flags o.ns_flags) in
    let run =
      λ (p : Pipes). clone_child k p release cloned (iso_child_entry (child_args o p c) k.iso) in
    let releases = free_strings-Releases k t fresh in
    let whole = ap (λ r. isolated_copied kernel_clone k o t r.0 r.1) (copy_strings-copies k t s) in
    let main =
      with_pipes-outcome k (four_copies k t) release releases run (iso_outcome k.stack) s new refl
        (λ p apart.
          clone_child-outcome k (four_copies k t) release releases p cloned
            (iso_child_entry (child_args o p c) k.iso) s apart) in
    subst (IsSettled (iso_outcome k.stack) s) (sym whole) main

abbrev pub given {ℓ} : {A : Type ℓ} → Option A → Bool
given none = false
given (some a) = true

-- A spawn has a child exactly if both pipes can be opened and the child made; an isolated one wants a
-- stack too.
pub spawns-given :
    (kernel_clone : List CloneFlag → Option ℕ) (k : Answers) (o : Isolation)
    (cmd args_str : KyteString) (t : Strings) (s : System)
    → let pipes = given k.in_pipe && given k.out_pipe in
      (given (process_spawn k cmd args_str s).0.0 ≡ pipes && given k.process)
      × (given (process_spawn_ex k t s).0.0 ≡ pipes && given k.process)
      × (given (process_spawn_isolated kernel_clone k o t s).0.0
          ≡ pipes && given k.stack && given (kernel_clone (clone_flags o.ns_flags)))
unfolding process_spawn spawn_copied process_spawn_ex spawn_ex_copied process_spawn_isolated
    isolated_copied with_pipes fork_child clone_child open_pipes
spawns-given kernel_clone k o cmd args_str t s =
    split k.in_pipe k.out_pipe k.process k.stack (kernel_clone (clone_flags o.ns_flags))
  where
    split :
        (i u : Option (ℕ × ℕ)) (p st cl : Option ℕ)
        → let k' = record k { in_pipe = i; out_pipe = u; process = p; stack = st } in
          let pipes = given i && given u in
          (given (process_spawn k' cmd args_str s).0.0 ≡ pipes && given p)
          × (given (process_spawn_ex k' t s).0.0 ≡ pipes && given p)
          × (given (process_spawn_isolated (λ _. cl) k' o t s).0.0 ≡ pipes && given st && given cl)
    split none u p st cl = (refl, refl, refl)
    split (some i) none p st cl = (refl, refl, refl)
    split (some i) (some u) none none cl = (refl, refl, refl)
    split (some i) (some u) none (some st) none = (refl, refl, refl)
    split (some i) (some u) none (some st) (some c) = (refl, refl, refl)
    split (some i) (some u) (some p) none cl = (refl, refl, refl)
    split (some i) (some u) (some p) (some st) none = (refl, refl, refl)
    split (some i) (some u) (some p) (some st) (some c) = (refl, refl, refl)
