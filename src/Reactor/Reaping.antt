-- ===== src/Reactor/Reaping.antt =====
-- concurrency.cpp: frames that are destroyed, and events for them that are still in the same batch.
use kyte.Prelude.{ℕ, ◌≡◌, Bool, true, false, ◌||◌, List, [], ◌∷◌, ◌==◌}
use kyte.Reactor.{Reactor}
use kyte.Reactor.Awaiting.{
  Call, registered, awaited, held_arg, awaited_any, scheduled, detached_start, frame_released,
  batch_started, timer_set, completed, awaited_until, timer_cancelled, taken, entered,
}

-- A new batch, or a new coroutine at the same address.
abbrev pub renews : ℕ → Call → Bool
renews f (registered c p) = false
renews f (awaited g w) = false
renews f (held_arg c p d) = false
renews f (awaited_any hs self) = false
renews f (scheduled h) = false
renews f (detached_start h) = h == f
renews f (frame_released h) = false
renews f batch_started = true
renews f (timer_set h ms) = false
renews f (completed h) = false
renews f (awaited_until hs ms self now later) = false
renews f (timer_cancelled h) = false
renews f taken = false
renews f entered = false

abbrev pub any_renews : ℕ → List Call → Bool
any_renews f [] = false
any_renews f (c ∷ cs) = renews f c || any_renews f cs

-- A coroutine whose frame was destroyed in this batch.
abbrev pub IsReaped : Reactor → ℕ → Type 0
IsReaped r f = (r.batch_reaped f ≡ true) × (r.rq_made ≡ true)
