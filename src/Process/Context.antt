-- ===== src/Process/Context.antt =====
-- io.cpp: `ProcessContext`, the parent's side of a child process, and the operations on it. A process
-- identifier of a context is not negative; descriptors of a context are numbers or none (-1).
use kyte.Process.System.{Os, pure, ◌>>◌, close_fd, free_block, remove}
use kyte.Prelude.{
  ℕ, zero, suc, ◌+◌, ◌*◌, ◌/◌, ◌%◌, ◌<◌, ◌≡◌, refl, ◌≢◌, Bool, true, not, ◌&&◌, ◌||◌, Option, none,
  some, List, [], ◌∷◌, ◌++◌, arith, ltb, ◌==◌, if◌then◌else◌, ℤ, pos, negsuc, pos_part, ltb_ℤ,
  replicate,
}

pub record ProcessContext : Type 0 where
  pub address : ℕ
  pub pid : ℕ
  pub in_fd : Option ℕ
  pub out_fd : Option ℕ
  pub exit_code : ℤ
  pub reaped : Bool

-- What a call of `waitpid` says: EINTR, another error, zero, or the status of the child.
pub data Waited : Type 0 where
  interrupted : Waited
  failed : Waited
  running : Waited
  ended : ℕ → Waited

-- `do r = waitpid(...) while (r < 0 && errno == EINTR)`, given the answers of the calls; `none` is a
-- call that has not returned.
unfoldable pub waitpid_loop : List Waited → Option Waited
waitpid_loop [] = none
waitpid_loop (interrupted ∷ answers) = waitpid_loop answers
waitpid_loop (failed ∷ answers) = some failed
waitpid_loop (running ∷ answers) = some running
waitpid_loop (ended status ∷ answers) = some (ended status)

-- `WIFEXITED`, `WEXITSTATUS`, `WIFSIGNALED` and `WTERMSIG`.
unfoldable pub exit_code_of : ℕ → ℤ
exit_code_of status =
    if status % 128 == 0
    then pos (status / 256 % 256)
    else (if ltb (status % 128) 127 then pos (128 + status % 128) else negsuc 0)

unfoldable pub close_if_open : Option ℕ → Os Unit
close_if_open none = pure tt
close_if_open (some fd) = close_fd fd

unfoldable pub reap : ℕ → Os Unit
reap pid s = (tt, record s { children = remove pid s.children })

unfoldable pub settle : ProcessContext → ℕ → ProcessContext
settle ctx status = record ctx { exit_code = exit_code_of status; reaped = true }

-- The result and the context afterwards; no result means that the call is still waiting.
abbrev pub Reply : Type 0
Reply = Option ℤ × ProcessContext

unfoldable pub finish_wait : ProcessContext → Option Waited → Os Reply
finish_wait ctx none = pure (none, ctx)
finish_wait ctx (some interrupted) = pure (some (negsuc 0), ctx)
finish_wait ctx (some failed) = pure (some (negsuc 0), ctx)
finish_wait ctx (some running) = pure (some (exit_code_of 0), settle ctx 0)
finish_wait ctx (some (ended status)) = do
  reap ctx.pid
  pure (some (exit_code_of status), settle ctx status)

-- For a context that is not null.
unfoldable pub process_wait : ProcessContext → List Waited → Os Reply
process_wait ctx answers = if ctx.reaped then pure (some ctx.exit_code, ctx) else (do
  close_if_open ctx.in_fd
  finish_wait (record ctx { in_fd = none }) (waitpid_loop answers))

unfoldable pub finish_try : ProcessContext → Option Waited → Os Reply
finish_try ctx none = pure (none, ctx)
finish_try ctx (some interrupted) = pure (some (negsuc 0), ctx)
finish_try ctx (some failed) = pure (some (negsuc 0), ctx)
finish_try ctx (some running) = pure (some (negsuc 1), ctx)
finish_try ctx (some (ended status)) = do
  reap ctx.pid
  pure (some (exit_code_of status), settle ctx status)

unfoldable pub process_try_wait : ProcessContext → List Waited → Os Reply
process_try_wait ctx answers =
    if ctx.reaped
    then pure (some ctx.exit_code, ctx)
    else (if ctx.pid == 0
        then pure (some (negsuc 0), ctx)
        else finish_try ctx (waitpid_loop answers))

-- The process that a signal is sent to, if one is sent.
unfoldable pub process_kill : Option ProcessContext → Option ℕ
process_kill none = none
process_kill (some ctx) = if ctx.pid == 0 then none else some ctx.pid

unfoldable pub reap_if_ended : ProcessContext → Waited → Os Unit
reap_if_ended ctx (ended status) = reap ctx.pid
reap_if_ended ctx other = pure tt

-- The last argument is the answer of the one `waitpid` that does not block.
unfoldable pub process_free : Option ProcessContext → Waited → Os Unit
process_free none answer = pure tt
process_free (some ctx) answer = do
  close_if_open ctx.in_fd
  close_if_open ctx.out_fd
  (if not ctx.reaped && not (ctx.pid == 0) then reap_if_ended ctx answer else pure tt)
  free_block ctx.address

-- The length that `kyte_process_write_stdin` hands to `write`: that of the header, unless it is
-- negative or above 64 MiB, when it is the length up to a zero.
unfoldable pub write_length : ℤ → ℕ → ℕ
write_length header strlen =
    if ltb_ℤ header (pos 0) || ltb_ℤ (pos 67108864) header then strlen else pos_part header

-- The descriptor and the length of the call of `write`, for a string that is not null.
unfoldable pub process_write_stdin : Option ProcessContext → ℤ → ℕ → Option (ℕ × ℕ)
process_write_stdin none header strlen = none
process_write_stdin (some ctx) header strlen = elim (ctx.in_fd) [
  | none ↦ none
  | some fd ↦ some (fd, write_length header strlen)
]

-- The descriptor and the room of the call of `read`, for a buffer that is not null.
unfoldable pub process_read_stdout : Option ProcessContext → ℤ → Option (ℕ × ℕ)
process_read_stdout none max_len = none
process_read_stdout (some ctx) max_len =
    if ltb_ℤ (pos 0) max_len
    then elim (ctx.out_fd) [ none ↦ none | some fd ↦ some (fd, pos_part max_len) ]
    else none

-- Signals that interrupt the call are overcome: the answer after them decides.
pub waitpid_loop-replicate :
    (n : ℕ) (w : Waited) (answers : List Waited)
    → w ≢ interrupted
    → waitpid_loop (replicate n interrupted ++ (w ∷ answers)) ≡ some w
unfolding waitpid_loop
waitpid_loop-replicate zero interrupted answers h = absurd (h refl)
waitpid_loop-replicate zero failed answers h = refl
waitpid_loop-replicate zero running answers h = refl
waitpid_loop-replicate zero (ended status) answers h = refl
waitpid_loop-replicate (suc n) w answers h = waitpid_loop-replicate n w answers h

-- A process that ended by itself has its code, and one that a signal ended has 128 and the signal's
-- number; a code is at most 255 for the first and between 129 and 254 for the second.
exit_code_of-exited : (code : ℕ) → code < 256 → exit_code_of (code * 256) ≡ pos code
unfolding exit_code_of
exit_code_of-exited code h = ground arith

exit_code_of-signaled :
    (signal core : ℕ)
    → 0 < signal
    → signal < 127
    → core < 2
    → exit_code_of (signal + 128 * core) ≡ pos (128 + signal)
unfolding exit_code_of
exit_code_of-signaled signal core h k c = ground arith
