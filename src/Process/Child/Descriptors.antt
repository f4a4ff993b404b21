-- ===== src/Process/Child/Descriptors.antt =====
-- io.cpp: the descriptors of a new child. A table says which open file a descriptor stands for;
-- `dup2` and `close` change it as POSIX says.
use kyte.Process.Child.{
  Pipes, Call, exec_or_exit, connect_pipes, spawn_child, set_entries, spawn_ex_child, dup2, close,
  chdir, setenv, sethostname, mount, mkdir_old_root, pivot_root, umount_old_root, rmdir_old_root,
  set_no_new_privs, drop_bounding, capset_none, install_seccomp, execvp, exit,
}
use kyte.Prelude.{
  ℕ, ◌<◌, ◌≡◌, refl, ap, ◌∙◌, Bool, true, false, ◌&&◌, ◌||◌, Option, none, some, List, [], ◌∷◌,
  arith, ◌==◌, if◌then◌else◌,
}

abbrev pub Table : Type 0
Table = ℕ → Option ℕ

abbrev pub update : Table → ℕ → Option ℕ → Table
update t fd file other = if other == fd then file else t other

abbrev pub copy : Table → ℕ → ℕ → Table
copy t from to = elim (t from) [ none ↦ t | some file ↦ update t to (some file) ]

abbrev pub apply_call : Call → Table → Table
apply_call (dup2 from to) t = if from == to then t else copy t from to
apply_call (close fd) t = update t fd none
apply_call other t = t

abbrev pub after : List Call → Table → Table
after [] t = t
after (c ∷ cs) t = after cs (apply_call c t)

abbrev pub is_quiet : Call → Bool
is_quiet (dup2 from to) = false
is_quiet (close fd) = false
is_quiet other = true

abbrev pub all_quiet : List Call → Bool
all_quiet [] = true
all_quiet (c ∷ cs) = is_quiet c && all_quiet cs

pub after-quiet : (cs : List Call) (t : Table) → all_quiet cs ≡ true → after cs t ≡ t
after-quiet [] t h = refl
after-quiet (dup2 from to ∷ cs) t h = ground arith
after-quiet (close fd ∷ cs) t h = ground arith
after-quiet (chdir d ∷ cs) t h = after-quiet cs t h
after-quiet (setenv k v ∷ cs) t h = after-quiet cs t h
after-quiet (sethostname n ∷ cs) t h = after-quiet cs t h
after-quiet (mount m ∷ cs) t h = after-quiet cs t h
after-quiet (mkdir_old_root ∷ cs) t h = after-quiet cs t h
after-quiet (pivot_root ∷ cs) t h = after-quiet cs t h
after-quiet (umount_old_root ∷ cs) t h = after-quiet cs t h
after-quiet (rmdir_old_root ∷ cs) t h = after-quiet cs t h
after-quiet (set_no_new_privs ∷ cs) t h = after-quiet cs t h
after-quiet (drop_bounding c ∷ cs) t h = after-quiet cs t h
after-quiet (capset_none ∷ cs) t h = after-quiet cs t h
after-quiet (install_seccomp ∷ cs) t h = after-quiet cs t h
after-quiet (execvp argv ∷ cs) t h = after-quiet cs t h
after-quiet (exit n ∷ cs) t h = after-quiet cs t h

pub exec_or_exit-quiet :
    (execs : Bool) (argv : List (List ℕ)) → all_quiet (exec_or_exit execs argv) ≡ true
unfolding exec_or_exit
exec_or_exit-quiet true argv = refl
exec_or_exit-quiet false argv = refl

set_entries-quiet :
    (env : List (List ℕ × List ℕ)) (rest : List Call)
    → all_quiet rest ≡ true
    → all_quiet (set_entries env rest) ≡ true
unfolding set_entries
set_entries-quiet [] rest h = h
set_entries-quiet ((key, value) ∷ env) rest h = set_entries-quiet env rest h

-- No end of the pipes is descriptor 0 or 1.
pub record AreHigh (p : Pipes) : Type 0 where
  pub in_read_high : 1 < p.in_read
  pub in_write_high : 1 < p.in_write
  pub out_read_high : 1 < p.out_read
  pub out_write_high : 1 < p.out_write

-- The table that a child ought to have: its input and output are the pipes, none of their ends is left,
-- and all else is as it was.
abbrev pub connected : Pipes → Table → Table
connected p t fd =
    if fd == 0
    then t p.in_read
    else if fd == 1
    then t p.out_write
    else if fd == p.in_read || fd == p.in_write || fd == p.out_read || fd == p.out_write
    then none
    else t fd

connect_pipes-connected :
    (p : Pipes) (rest : List Call) (t : Table) (f g fd : ℕ)
    → AreHigh p
    → t p.in_read ≡ some f
    → t p.out_write ≡ some g
    → all_quiet rest ≡ true
    → after (connect_pipes p rest) t fd ≡ connected p t fd
unfolding connect_pipes
connect_pipes-connected p rest t f g fd high hf hg quiet =
    let t1 = apply_call (dup2 p.in_read 0) t in
    let t2 = apply_call (dup2 p.out_write 1) t1 in
    let t3 = update (update t2 p.in_read none) p.in_write none in
    let t4 = update (update t3 p.out_read none) p.out_write none in
    ap (λ (u : Table). u fd) (after-quiet rest t4 quiet) ∙ ground arith

spawn_ex_child-connect :
    (p : Pipes) (cwd : List ℕ) (enters : Bool) (env : List (List ℕ × List ℕ)) (execs : Bool)
    (argv : List (List ℕ))
    → (rest : List Call) × (spawn_ex_child p cwd enters env execs argv ≡ connect_pipes p rest)
      × (all_quiet rest ≡ true)
unfolding spawn_ex_child
spawn_ex_child-connect p [] enters env execs argv =
    let rest = exec_or_exit execs argv in
    (set_entries env rest, refl, set_entries-quiet env rest (exec_or_exit-quiet execs argv))
spawn_ex_child-connect p (c ∷ cs) true env execs argv =
    let rest = exec_or_exit execs argv in
    (
      chdir (c ∷ cs) ∷ set_entries env rest,
      refl,
      set_entries-quiet env rest (exec_or_exit-quiet execs argv),
    )
spawn_ex_child-connect p (c ∷ cs) false env execs argv =
    (chdir (c ∷ cs) ∷ exit 127 ∷ [], refl, refl)

-- If no end of the pipes is descriptor 0 or 1, then a child of `kyte_process_spawn` or
-- `kyte_process_spawn_ex` has the pipes as its input and output, no other end of them, and every
-- other descriptor of its parent, on every branch.
pub spawn_children-connected :
    (p : Pipes) (cwd : List ℕ) (enters : Bool) (env : List (List ℕ × List ℕ)) (execs : Bool)
    (argv : List (List ℕ)) (t : Table) (f g fd : ℕ)
    → AreHigh p
    → t p.in_read ≡ some f
    → t p.out_write ≡ some g
    → (after (spawn_child p execs argv) t fd ≡ connected p t fd)
      × (after (spawn_ex_child p cwd enters env execs argv) t fd ≡ connected p t fd)
unfolding spawn_child
spawn_children-connected p cwd enters env execs argv t f g fd high hf hg =
    let (rest, same, quiet) = spawn_ex_child-connect p cwd enters env execs argv in
    (
      connect_pipes-connected p (exec_or_exit execs argv) t f g fd high hf hg
          (exec_or_exit-quiet execs argv),
      rw same (connect_pipes-connected p rest t f g fd high hf hg quiet),
    )

-- If the parent has no standard input, a pipe's end may get its number; the child then closes it.
pub spawn_child-lost_stdin :
    (p : Pipes) (execs : Bool) (argv : List (List ℕ)) (t : Table)
    → p.in_read ≡ 0
    → 0 < p.in_write
    → 0 < p.out_read
    → 0 < p.out_write
    → after (spawn_child p execs argv) t 0 ≡ none
unfolding spawn_child connect_pipes
spawn_child-lost_stdin p execs argv t zero_read write read out =
    let t1 = apply_call (dup2 p.in_read 0) t in
    let t2 = apply_call (dup2 p.out_write 1) t1 in
    let t3 = update (update t2 p.in_read none) p.in_write none in
    let t4 = update (update t3 p.out_read none) p.out_write none in
    ap (λ (u : Table). u 0)
      (after-quiet (exec_or_exit execs argv) t4 (exec_or_exit-quiet execs argv))
    ∙ ground arith
