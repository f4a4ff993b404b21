-- ===== src/Reactor/Awaiting.antt =====
-- concurrency.cpp: a coroutine that awaits another one, until that finishes.
use kyte.Prelude.{ℕ, Bool, true, false, ◌||◌, List, [], ◌∷◌, ◌==◌, if◌then◌else◌, ℤ, drop}
use kyte.Reactor.{
  Reactor, update, register_waiter, await_future, hold_arg, when_any_deadline, cancel_timer,
  when_any, set_timer, batch_begin, schedule, schedule_detached, coro_release, finish,
}

-- What the coroutines of a thread and its loop call: every operation of the scheduler. `completed` is
-- the end of a coroutine's code, after which the loop finishes it; `taken` takes the first coroutine off
-- the run queue, and `entered` is the first step of `kyte_reactor_resume`, the rest of which Resuming
-- shows to be a sequence of these.
pub data Call : Type 0 where
  registered : ℕ → ℕ → Call
  awaited : ℕ → ℕ → Call
  held_arg : ℕ → ℕ → ℕ → Call
  awaited_any : List ℕ → ℕ → Call
  scheduled : ℕ → Call
  detached_start : ℕ → Call
  frame_released : ℕ → Call
  batch_started : Call
  timer_set : ℕ → ℤ → Call
  completed : ℕ → Call
  awaited_until : List ℕ → ℤ → ℕ → ℤ → ℤ → Call
  timer_cancelled : ℕ → Call
  taken : Call
  entered : Call

unfoldable pub complete : Reactor → ℕ → Reactor
complete r h = finish (record r { done = update r.done h true }) h

unfoldable pub call : Reactor → Call → Reactor
call r (registered c p) = register_waiter r c p
call r (awaited f w) = (await_future r f w).1
call r (held_arg c p d) = hold_arg r c p d
call r (awaited_any hs self) = (when_any r hs self).1
call r (scheduled h) = schedule r h
call r (detached_start h) = schedule_detached r h
call r (frame_released h) = coro_release r h
call r batch_started = batch_begin r
call r (timer_set h ms) = set_timer r h ms
call r (completed h) = complete r h
call r (awaited_until hs ms self now later) = (when_any_deadline r hs ms self now later).1
call r (timer_cancelled h) = cancel_timer r h
call r taken = record r { rq = drop 1 r.rq }
call r entered = if r.rq_made then r else record r { rq_made = true; reactor_mode = true }

unfoldable pub calls : Reactor → List Call → Reactor
calls r [] = r
calls r (c ∷ cs) = calls (call r c) cs

abbrev pub occurs : ℕ → List ℕ → Bool
occurs f [] = false
occurs f (h ∷ hs) = (h == f) || occurs f hs

-- A call that registers a waiter of `f`, or completes it.
abbrev pub concerns : ℕ → Call → Bool
concerns f (registered c p) = c == f
concerns f (awaited g w) = g == f
concerns f (held_arg c p d) = false
concerns f (awaited_any hs self) = occurs f hs
concerns f (scheduled h) = false
concerns f (detached_start h) = false
concerns f (frame_released h) = false
concerns f batch_started = false
concerns f (timer_set h ms) = false
concerns f (completed h) = h == f
concerns f (awaited_until hs ms self now later) = occurs f hs
concerns f (timer_cancelled h) = false
concerns f taken = false
concerns f entered = false

abbrev pub any_concerns : ℕ → List Call → Bool
any_concerns f [] = false
any_concerns f (c ∷ cs) = concerns f c || any_concerns f cs
