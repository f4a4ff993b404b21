-- ===== src/Reactor.antt =====
-- src/runtime/concurrency.cpp: the scheduler of one reactor thread: its run queue, the coroutines that
-- await others, and the frames that it destroys. A coroutine is the address of its frame.
pub mod Awaiting
pub mod WhenAny
pub mod Reaping
pub mod Resuming
mod Tests
use kyte.Prelude.{
  ℕ, zero, suc, ◌+◌, ◌-◌, ◌*◌, ◌/◌, ◌%◌, ◌^◌, ◌≤◌, ◌<◌, min, max, ◌≡◌, refl, sym, ap, ◌∙◌, subst,
  ◌≢◌, ◌↔◌, ◌⊎◌, inl, inr, Bool, true, false, not, ◌&&◌, ◌||◌, xor, Option, none, some, List, [],
  ◌∷◌, ◌++◌, map, append_assoc, append-nil, arith, ltb, leb, ◌==◌, if◌then◌else◌, ltb→lt, lt→ltb,
  leb→le, ==_iff, Bool-cases, Option-cases, ℤ, pos, negsuc, pos_part, neg_part, sub_ℕ, ltb_ℤ, ◌+ℤ◌,
  ◌-ℤ◌, ◌≤ℤ◌, int_laws, eq_of_parts, length, length-append, get_elem?, set, get_or, take, drop,
  replicate,
}
use mathlib.Core.Option

-- The thread's globals. `waiters` is 0 where there is no entry; `done` says that a frame's first word
-- is null; `released`, `destroyed`, `armed` and `cancelled` list the calls of `kyte_release`, of the
-- frames' destroy functions and of the timers, the oldest first.
pub record Reactor : Type 0 where
  pub rq : List ℕ
  pub reactor_mode : Bool
  pub rq_made : Bool
  pub waiters : ℕ → ℕ
  pub held : ℕ → List (ℕ × ℕ)
  pub detached : ℕ → Bool
  pub batch_reaped : ℕ → Bool
  pub deadline_active : Bool
  pub deadlines : ℕ → Option ℤ
  pub current_kq : ℤ
  pub done : ℕ → Bool
  pub released : List (ℕ × ℕ)
  pub destroyed : List ℕ
  pub armed : List (ℕ × ℤ)
  pub cancelled : List ℕ

abbrev pub update {ℓ} : {A : Type ℓ} → (ℕ → A) → ℕ → A → ℕ → A
update f a v x = if x == a then v else f x

unfoldable pub release_held : Reactor → ℕ → Reactor
release_held r coro = record r {
  held = update r.held coro [];
  released = r.released ++ r.held coro;
}

unfoldable pub take_waiter : Reactor → ℕ → ℕ × Reactor
take_waiter r child = (r.waiters child, record r { waiters = update r.waiters child 0 })

unfoldable pub register_waiter : Reactor → ℕ → ℕ → Reactor
register_waiter r child parent =
    if (child == 0) || (parent == 0)
    then r
    else record r { waiters = update r.waiters child parent }

-- True if the future is done; else the waiter is registered, unless it is null.
unfoldable pub await_future : Reactor → ℕ → ℕ → Bool × Reactor
await_future r future waiter =
    if (future == 0) || r.done future
    then (true, r)
    else (false, if waiter == 0 then r else record r { waiters = update r.waiters future waiter })

unfoldable pub hold_arg : Reactor → ℕ → ℕ → ℕ → Reactor
hold_arg r coro ptr dtor =
    if (coro == 0) || (ptr == 0)
    then r
    else record r { held = update r.held coro (r.held coro ++ ((ptr, dtor) ∷ [])) }

-- The index of the first coroutine that is done.
unfoldable pub first_done : (ℕ → Bool) → List ℕ → Option ℕ
first_done done [] = none
first_done done (h ∷ hs) =
    if not (h == 0) && done h then some 0 else Option.map suc (first_done done hs)

-- The loop that erases the entries of `self`.
unfoldable pub disarm : (ℕ → ℕ) → List ℕ → ℕ → ℕ → ℕ
disarm waiters [] self = waiters
disarm waiters (h ∷ hs) self =
    disarm (if waiters h == self then update waiters h 0 else waiters) hs self

-- The loop that registers `self`.
unfoldable pub enlist : (ℕ → ℕ) → List ℕ → ℕ → ℕ → ℕ
enlist waiters [] self = waiters
enlist waiters (h ∷ hs) self = enlist (if h == 0 then waiters else update waiters h self) hs self

-- The index of a coroutine that is done, or none for -1.
unfoldable pub when_any : Reactor → List ℕ → ℕ → Option ℕ × Reactor
when_any r hs self = elim (first_done r.done hs) [
  | some i ↦ (some i, record r { waiters = disarm r.waiters hs self })
  | none ↦ (none, record r { waiters = enlist r.waiters hs self })
]

unfoldable pub set_timer : Reactor → ℕ → ℤ → Reactor
set_timer r handle ms =
    if handle == 0
    then r
    else record r { deadline_active = true; armed = r.armed ++ ((handle, ms) ∷ []) }

unfoldable pub cancel_timer : Reactor → ℕ → Reactor
cancel_timer r handle =
    if handle == 0 then r else record r { cancelled = r.cancelled ++ (handle ∷ []) }

-- An index, -1 and -2.
pub data Awaited : Type 0 where
  found : ℕ → Awaited
  pending : Awaited
  timed_out : Awaited

abbrev pub at_least_zero : ℤ → ℤ
at_least_zero n = if ltb_ℤ n (pos 0) then pos 0 else n

-- The deadline is stored and the timer armed, the first time; later the timer is armed again for the
-- time that is left.
unfoldable pub arm_deadline : Reactor → ℤ → ℕ → ℤ → Reactor
arm_deadline r ms self now = elim (r.deadlines self) [
  | none ↦
      set_timer (record r { deadlines = update r.deadlines self (some (now +ℤ at_least_zero ms)) })
        self (at_least_zero ms)
  | some d ↦ set_timer r self (at_least_zero (d -ℤ now))
]

abbrev pub is_over : Option ℤ → ℤ → Bool
is_over none now = false
is_over (some d) now = not (ltb_ℤ now d)

-- `now` and `later` are two readings of the clock.
unfoldable pub when_any_deadline : Reactor → List ℕ → ℤ → ℕ → ℤ → ℤ → Awaited × Reactor
when_any_deadline r hs ms self now later =
    let idle = record r {
      waiters = disarm r.waiters hs self;
      deadlines = update r.deadlines self none;
    } in
    elim (first_done r.done hs) [
      | some i ↦ (
        found i,
        if (pos_part r.current_kq == 0) && (neg_part r.current_kq == 0)
            then idle
            else cancel_timer idle self,
      )
      | none ↦ if is_over (r.deadlines self) now then (timed_out, idle) else (
        pending,
        arm_deadline (record r { waiters = enlist r.waiters hs self }) ms self later,
      )
    ]

unfoldable pub batch_begin : Reactor → Reactor
batch_begin r = record r { batch_reaped = λ h. false; deadline_active = false }

unfoldable pub mark_reaped : Reactor → ℕ → Reactor
mark_reaped r h =
    if r.reactor_mode && r.deadline_active
    then record r { batch_reaped = update r.batch_reaped h true }
    else r

-- A recycled frame address loses its mark.
unfoldable pub detach : Reactor → ℕ → Reactor
detach r h = record r {
  detached = update r.detached h true;
  batch_reaped = update r.batch_reaped h false;
}

unfoldable pub schedule : Reactor → ℕ → Reactor
schedule r h =
    if (h == 0) || r.done h then r else record r { rq_made = true; rq = r.rq ++ (h ∷ []) }

unfoldable pub destroy_frame : Reactor → ℕ → Reactor
destroy_frame r h = record r { destroyed = r.destroyed ++ (h ∷ []) }

unfoldable pub schedule_detached : Reactor → ℕ → Reactor
schedule_detached r h =
    if h == 0 then r else if r.done h then destroy_frame r h else schedule (detach r h) h

unfoldable pub coro_release : Reactor → ℕ → Reactor
coro_release r h = if h == 0 then r else destroy_frame (mark_reaped r h) h

-- A coroutine has finished: its waiter is scheduled, or, if it is detached, it is reaped.
unfoldable pub finish : Reactor → ℕ → Reactor
finish r h =
    let (w, r1) = take_waiter (release_held r h) h in
    if not (w == 0)
    then record r1 { rq = r1.rq ++ (w ∷ []) }
    else if r1.detached h
    then destroy_frame (mark_reaped (record r1 { detached = update r1.detached h false }) h) h
    else r1

-- `resume` is the compiled code of the coroutines: it runs one up to its next suspension, and may
-- call every function of the runtime.
unfoldable pub resume_one : (Reactor → ℕ → Reactor) → Reactor → ℕ → Reactor
resume_one resume r h = let r1 = resume r h in if r1.done h then finish r1 h else r1

-- `fuel` bounds the rounds of a queue that coroutines can keep filling.
unfoldable pub pump : (Reactor → ℕ → Reactor) → ℕ → Reactor → Reactor
pump resume zero r = r
pump resume (suc fuel) r = elim r.rq [
  | [] ↦ r
  | h ∷ rest ↦
      let popped = record r { rq = rest } in
      pump resume fuel (if popped.done h then popped else resume_one resume popped h)
]

-- True if the coroutine has finished.
unfoldable pub reactor_resume : (Reactor → ℕ → Reactor) → ℕ → Reactor → ℕ → Bool × Reactor
reactor_resume resume fuel r h =
    let ready = if r.rq_made then r else record r { rq_made = true; reactor_mode = true } in
    let resumed = resume_one resume ready h in
    if ready.batch_reaped h
    then (true, ready)
    else if (h == 0) || ready.done h
    then (true, ready)
    else (resumed.done h, pump resume fuel resumed)
