-- ===== src/Process/Lifetime.antt =====
-- io.cpp: a child from its spawn to the release of its context.
use kyte.Process.System.{System, Os, pure, ◌>>=◌, ◌>>◌, KyteString}
use kyte.Process.Context.{
  ProcessContext, Waited, waitpid_loop, exit_code_of, close_if_open, reap, settle, finish_wait,
  process_wait, process_try_wait, process_kill, process_free, interrupted, ended,
  waitpid_loop-replicate,
}
use kyte.Process.Spawn.{Answers, process_spawn}
use kyte.Process.Spawn.Frees.{AreFresh}
use kyte.Process.Spawn.Ends.{AreNew}
use kyte.Process.Spawn.Balance.{outcome, IsSpawned}
use kyte.Process.Spawn.Outcome.{two_copies, process_spawn-outcome}
use kyte.Prelude.{
  ℕ, ◌<◌, ◌≡◌, refl, ap, ◌∙◌, subst, ◌≢◌, false, Option, none, some, List, ◌∷◌, ◌++◌, arith, ◌==◌,
  ℤ, replicate,
}

-- `kyte_process_wait` and then `kyte_process_free`.
abbrev pub wait_and_free : ProcessContext → List Waited → Waited → Os (Option ℤ)
wait_and_free ctx answers last = do
  reply ← process_wait ctx answers
  process_free (some reply.1) last
  pure reply.0

-- A context whose ends are written out.
abbrev opened : ProcessContext → ℕ → ℕ → ProcessContext
opened ctx input output = record ctx { in_fd = some input; out_fd = some output; reaped = false }

waited :
    (ctx : ProcessContext) (input output status : ℕ) (answers : List Waited) (s : System)
    → (input == output) ≡ false
    → waitpid_loop answers ≡ some (ended status)
    → process_wait (opened ctx input output) answers (outcome s (some (opened ctx input output)))
      ≡ (
        (
          some (exit_code_of status),
          settle (record (opened ctx input output) { in_fd = none }) status,
        ),
        record s { fds = output ∷ s.fds; blocks = ctx.address ∷ s.blocks },
      )
unfolding process_wait close_if_open finish_wait reap
waited ctx input output status answers s differ w = ground arith

freed :
    (ctx : ProcessContext) (output status : ℕ) (last : Waited) (s : System)
    → process_free
        (some (settle (record ctx { in_fd = none; out_fd = some output }) status))
        last
        (record s { fds = output ∷ s.fds; blocks = ctx.address ∷ s.blocks })
      ≡ (tt, s)
unfolding process_free close_if_open settle
freed ctx output status last s = ground arith

wait_and_free-outcome :
    (ctx : ProcessContext) (answers : List Waited) (status : ℕ) (last : Waited) (s : System)
    → IsSpawned (some ctx)
    → waitpid_loop answers ≡ some (ended status)
    → wait_and_free ctx answers last (outcome s (some ctx)) ≡ (some (exit_code_of status), s)
wait_and_free-outcome ctx answers status last s (input, output, is_in, is_out, differ, fresh) w =
    let same : ctx ≡ opened ctx input output = ground arith in
    let next = λ (r : (Option ℤ × ProcessContext) × System).
      (process_free (some r.0.1) last >> pure r.0.0) r.1 in
    ap (λ c. wait_and_free c answers last (outcome s (some c))) same
    ∙ ap next (waited ctx input output status answers s differ w)
    ∙ ap (λ r. (some (exit_code_of status), r.1))
        (freed (record ctx { reaped = false }) output status last s)

-- A child that was spawned, waited for and released leaves its parent as it was before: no
-- descriptor, block, mapping or child is left over and nothing is released twice. Any number of
-- interrupted calls of `waitpid` may come before the one that says how the child ended, and its code is
-- returned.
pub spawn-wait_and_free :
    (k : Answers) (cmd args_str : KyteString) (ctx : ProcessContext) (interruptions status : ℕ)
    (answers : List Waited) (last : Waited) (s : System)
    → AreNew k.in_pipe k.out_pipe
    → AreFresh (two_copies k cmd args_str)
    → (process_spawn k cmd args_str s).0.0 ≡ some ctx
    → wait_and_free ctx
        (replicate interruptions interrupted ++ (ended status ∷ answers))
        last
        (process_spawn k cmd args_str s).1
      ≡ (some (exit_code_of status), s)
spawn-wait_and_free k cmd args_str ctx interruptions status answers last s new fresh e =
    let all = replicate interruptions interrupted ++ (ended status ∷ answers) in
    let (balance, spawned) = process_spawn-outcome k cmd args_str s new fresh in
    ap (λ u. wait_and_free ctx all last u) (balance ∙ ap (outcome s) e)
    ∙ wait_and_free-outcome ctx all status last s (subst IsSpawned e spawned)
        (waitpid_loop-replicate interruptions (ended status) answers ended-ne_interrupted)
  where
    ended-ne_interrupted : ended status ≢ interrupted
    ended-ne_interrupted h = cc

-- Once a child was waited for, both ways to wait return its code again and change nothing.
pub wait-settled :
    (ctx : ProcessContext) (status : ℕ) (answers : List Waited) (s : System)
    → let done = settle ctx status in
      (process_wait done answers s ≡ ((some (exit_code_of status), done), s))
      × (process_try_wait done answers s ≡ ((some (exit_code_of status), done), s))
unfolding process_wait process_try_wait settle
wait-settled ctx status answers s = (refl, refl)

-- A signal is still sent to the number of a child that was waited for, which may be another process by
-- then.
pub process_kill-settled :
    (ctx : ProcessContext) (status : ℕ)
    → 0 < ctx.pid
    → process_kill (some (settle ctx status)) ≡ some ctx.pid
unfolding process_kill settle
process_kill-settled ctx status h = ground arith
