-- ===== src/Process/Spawn/Balance.antt =====
-- io.cpp: what a parent holds after a spawn, and after a child was waited for and its context freed.
use kyte.Process.System.{System, Os, pure, ◌>>◌}
use kyte.Process.Context.{ProcessContext}
use kyte.Process.Child.{Pipes, Call}
use kyte.Process.Spawn.{
  Answers, Spawned, close_pipes, add_child, new_context, keep_ends, fork_child, with_pipes,
  map_stack, unmap_stack, clone_child,
}
use kyte.Process.Spawn.Frees.{Copied, stacked, Releases}
use kyte.Process.Spawn.Ends.{
  all_distinct, AreNew, ends, after_pipes, HasNewEnds, open_pipes-after, close_pipes-ends,
  kept_ends,
}
use kyte.Prelude.{
  ℕ, ◌≡◌, refl, sym, ap, ◌∙◌, subst, true, false, Option, none, some, List, [], ◌∷◌, ◌++◌, arith,
  ◌==◌, pos,
}

abbrev pub held : Option ℕ → List ℕ
held none = []
held (some x) = x ∷ []

-- With a context the parent holds two ends of the pipes, the context and a child; without one, nothing
-- more than before.
abbrev pub outcome : System → Option ProcessContext → System
outcome s none = s
outcome s (some ctx) = record s {
  fds = held ctx.out_fd ++ (held ctx.in_fd ++ s.fds);
  blocks = ctx.address ∷ s.blocks;
  children = ctx.pid ∷ s.children;
}

-- On Linux an isolated child's stack is still mapped in the parent.
abbrev pub iso_outcome : Option ℕ → System → Option ProcessContext → System
iso_outcome stack s none = s
iso_outcome stack s (some ctx) = record (outcome s (some ctx)) { stacks = held stack ++ s.stacks }

abbrev context_of : Answers → Pipes → ℕ → ProcessContext
context_of k p pid = record {
  address = k.context;
  pid = pid;
  in_fd = some p.in_write;
  out_fd = some p.out_read;
  exit_code = pos 0;
  reaped = false;
}

-- The ends and the block of a context.
abbrev with_context : ProcessContext → System → System
with_context ctx s = record s {
  fds = held ctx.out_fd ++ (held ctx.in_fd ++ s.fds);
  blocks = ctx.address ∷ s.blocks;
}

abbrev pub with_strings : List Copied → System → System
with_strings cs s = record s { blocks = stacked cs ++ s.blocks }

abbrev pub with_ends : Pipes → System → System
with_ends p s = record s { fds = ends p ++ s.fds }

-- A context from a spawn has both ends, which differ, and was not waited for.
abbrev pub IsSpawned : Option ProcessContext → Type 0
IsSpawned none = Unit
IsSpawned (some ctx) =
    (input : ℕ) × (output : ℕ) × (ctx.in_fd ≡ some input)
    × (ctx.out_fd ≡ some output)
    × ((input == output) ≡ false)
    × (ctx.reaped ≡ false)

abbrev pub IsSettled :
    (System → Option ProcessContext → System) → System → Spawned × System → Type 0
IsSettled goal before r = (r.1 ≡ goal before r.0.0) × IsSpawned r.0.0

abbrev pub Settles :
    Os Spawned → (System → Option ProcessContext → System) → System → System → Type 0
Settles run goal before s = IsSettled goal before (run s)

map_stack-unmap_stack : (p : ℕ) (s : System) → (map_stack p >> unmap_stack p) s ≡ (tt, s)
unfolding map_stack unmap_stack
map_stack-unmap_stack p s = ground arith

ends_differ : (p : Pipes) → all_distinct (ends p) ≡ true → (p.in_write == p.out_read) ≡ false
ends_differ p new = ground arith

module _ (k : Answers) (cs : List Copied) (release : Os Unit) (releases : Releases release cs) where
  failed_spawn :
      (p : Pipes) (s : System)
      → all_distinct (ends p) ≡ true
      → (close_pipes p >> release) (with_ends p (with_strings cs s)) ≡ (tt, s)
  failed_spawn p s new =
      ap (λ r. release r.1) (close_pipes-ends p s.fds (with_ends p (with_strings cs s)) new refl)
      ∙ releases (with_strings cs s) s.blocks refl

  keep_ends-context :
      (p : Pipes) (pid : ℕ) (s : System)
      → all_distinct (ends p) ≡ true
      → keep_ends k p pid release (with_ends p (with_strings cs s))
        ≡ (context_of k p pid, with_context (context_of k p pid) s)
  unfolding keep_ends new_context
  keep_ends-context p pid s new =
      let before = with_ends p (with_strings cs s) in
      let kept = record (with_strings cs s) { fds = p.out_read ∷ p.in_write ∷ s.fds } in
      ap (λ r. (release >> new_context k p pid) r.1) (kept_ends p s.fds before new refl)
      ∙ ap (λ r. new_context k p pid r.1) (releases kept s.blocks refl)

  pub fork_child-outcome :
      (p : Pipes) (child : List Call) (s : System)
      → all_distinct (ends p) ≡ true
      → Settles (fork_child k p release child) outcome s (with_ends p (with_strings cs s))
  unfolding fork_child add_child keep_ends new_context
  fork_child-outcome p child s new = split k.process
    where
      split :
          (process : Option ℕ)
          → Settles
              (fork_child (record k { process = process }) p release child)
              outcome
              s
              (with_ends p (with_strings cs s))
      split none = (ap (λ r. r.1) (failed_spawn p s new), tt)
      split (some pid) =
          let start = record s { children = pid ∷ s.children } in
          let kept = keep_ends-context p pid start new in
          subst (λ r. IsSettled outcome s ((some r.0, child), r.1)) (sym kept)
            (refl, (p.in_write, p.out_read, refl, refl, ends_differ p new, refl))

  pub clone_child-outcome :
      (p : Pipes) (cloned : Option ℕ) (child : List Call) (s : System)
      → all_distinct (ends p) ≡ true
      → Settles
          (clone_child k p release cloned child)
          (iso_outcome k.stack)
          s
          (with_ends p (with_strings cs s))
  unfolding clone_child add_child map_stack keep_ends new_context
  clone_child-outcome p cloned child s new = split k.stack cloned
    where
      split :
          (stack cloned : Option ℕ)
          → Settles
              (clone_child (record k { stack = stack }) p release cloned child)
              (iso_outcome stack)
              s
              (with_ends p (with_strings cs s))
      split none cloned = (ap (λ r. r.1) (failed_spawn p s new), tt)
      split (some stack) none = (
        ap (λ r. ((close_pipes p >> release) r.1).1)
              (map_stack-unmap_stack stack (with_ends p (with_strings cs s)))
            ∙ ap (λ r. r.1) (failed_spawn p s new),
        tt,
      )
      split (some stack) (some pid) =
          let start = record s { children = pid ∷ s.children; stacks = stack ∷ s.stacks } in
          let kept = keep_ends-context p pid start new in
          subst (λ r. IsSettled (iso_outcome (some stack)) s ((some r.0, child), r.1)) (sym kept)
            (refl, (p.in_write, p.out_read, refl, refl, ends_differ p new, refl))

  pub with_pipes-outcome :
      (run : Pipes → Os Spawned) (goal : System → Option ProcessContext → System) (s : System)
      → AreNew k.in_pipe k.out_pipe
      → goal s none ≡ s
      → ((p : Pipes)
          → all_distinct (ends p) ≡ true
          → Settles (run p) goal s (with_ends p (with_strings cs s)))
      → Settles (with_pipes k release run) goal s (with_strings cs s)
  unfolding with_pipes
  with_pipes-outcome run goal s new nothing settles =
      let (opened, same, apart) = open_pipes-after k (with_strings cs s) new in
      let next : Option Pipes → Os Spawned =
        λ o. elim o as (λ _. Os Spawned) [ none ↦ do release; pure (none, []) | some p ↦ run p ] in
      let whole = ap (λ r. next r.0 r.1) same in
      subst (IsSettled goal s) (sym whole) (split opened apart)
    where
      split :
          (o : Option Pipes)
          → HasNewEnds o
          → (let next : Option Pipes → Os Spawned = λ o. elim o as (λ _. Os Spawned) [
            | none ↦ do release; pure (none, [])
            | some p ↦ run p
          ] in
              IsSettled goal s (next o (after_pipes o (with_strings cs s))))
      split none apart =
          (ap (λ r. r.1) (releases (with_strings cs s) s.blocks refl) ∙ sym nothing, tt)
      split (some p) apart = settles p apart
