-- ===== src/Channel/Async.antt =====
-- concurrency.cpp: coroutines that use one `KyteChan`. A receiver that finds no value waits; a send
-- schedules the one that has waited longest, which then calls `kyte_chan_recv` again.
pub mod Served
use kyte.Prelude.{
  ℕ, zero, suc, ◌+◌, ◌-◌, ◌*◌, ◌/◌, ◌%◌, ◌^◌, ◌≤◌, ◌<◌, min, max, ◌≡◌, refl, sym, ap, ◌∙◌, subst,
  ◌≢◌, ◌↔◌, ◌⊎◌, inl, inr, Bool, true, false, not, ◌&&◌, ◌||◌, xor, Option, none, some, List, [],
  ◌∷◌, ◌++◌, map, append_assoc, append-nil, arith, ltb, leb, ◌==◌, if◌then◌else◌, ltb→lt, lt→ltb,
  leb→le, ==_iff, Bool-cases, Option-cases, ℤ, pos, negsuc, pos_part, neg_part, sub_ℕ, ltb_ℤ, ◌+ℤ◌,
  ◌-ℤ◌, ◌≤ℤ◌, int_laws, eq_of_parts, length, length-append, length-take, length-drop, length-map,
  length-replicate, take-append-drop, take_all, get_elem?, set, get_or, take, drop, replicate,
}
use kyte.Channel.{KyteChan, chan_new, chan_send, chan_recv}

-- `woken` are the coroutines that were scheduled by a send and have not yet tried again; `done` says
-- that a frame's first word is null. Two histories are kept beside them, and `in_turn`: no coroutine
-- has yet called, or come to its end, while it waited, was woken, or was done.
pub record Async : Type 0 where
  pub chan : KyteChan
  pub woken : List ℕ
  pub done : ℕ → Bool
  pub pushed : List ℤ
  pub popped : List ℤ
  pub in_turn : Bool

abbrev pub start : ℤ → Async
start capacity = record {
  chan = chan_new capacity;
  woken = [];
  done = λ c. false;
  pushed = [];
  popped = [];
  in_turn = true;
}

-- `kyte_sched_schedule(waiter)`, which drops a coroutine that is done.
unfoldable pub schedule : (ℕ → Bool) → List ℕ → ℕ → List ℕ
schedule done ws waiter = if (waiter == 0) || done waiter then ws else ws ++ (waiter ∷ [])

abbrev pub note : List ℤ → Option ℤ → List ℤ
note vs none = vs
note vs (some v) = vs ++ (v ∷ [])

abbrev pub occurrences : ℕ → List ℕ → ℕ
occurrences c [] = 0
occurrences c (w ∷ ws) = (if w == c then 1 else 0) + occurrences c ws

-- How often a coroutine waits or has been woken, and one more if it is done.
abbrev pub places : Async → ℕ → ℕ
places s c = occurrences c s.woken + occurrences c s.chan.recv_waiters + (if s.done c then 1 else 0)

-- A send, and a receive by any coroutine, 0 for a call that does not wait.
unfoldable pub send : Async → ℤ → Async
send s val =
    let (waiter, c) = chan_send s.chan val in
    record s { chan = c; woken = schedule s.done s.woken waiter; pushed = s.pushed ++ (val ∷ []) }

unfoldable pub receive : Async → ℕ → Async
receive s self =
    let (got, c) = chan_recv s.chan self in
    record s {
      chan = c;
      popped = note s.popped got;
      in_turn = s.in_turn && ((self == 0) || (places s self == 0));
    }

abbrev pub set_done : Async → ℕ → Bool → Async
set_done s self b = record s { done = λ c. if c == self then b else s.done c }

unfoldable pub end : Async → ℕ → Async
end s self = record (set_done s self true) { in_turn = s.in_turn && (places s self == 0) }

-- A woken coroutine tries again, in whatever order the woken ones are resumed; but one that is done by
-- then is skipped by `reactor_pump`. A coroutine can call
-- and come to its end at any time, since an event of a timer can resume it while it waits; a new one
-- can start at the address of one that is done.
pub data Step (s : Async) : Async → Type 0 where
  sends : (val : ℤ) → Step s (send s val)
  receives : (self : ℕ) → Step s (receive s self)
  retries :
      (before after : List ℕ) (self : ℕ)
      → s.woken ≡ before ++ (self ∷ after)
      → s.done self ≡ false
      → Step s (receive (record s { woken = before ++ after }) self)
  skips :
      (before after : List ℕ) (self : ℕ)
      → s.woken ≡ before ++ (self ∷ after)
      → s.done self ≡ true
      → Step s (record s { woken = before ++ after })
  ends : (self : ℕ) → Step s (end s self)
  starts : (self : ℕ) → Step s (set_done s self false)

pub data Reaches (s : Async) : Async → Type 0 where
  here : Reaches s s
  then_step : {t u : Async} → Reaches s t → Step t u → Reaches s u

abbrev pub none_null : List ℕ → Bool
none_null [] = true
none_null (w ∷ ws) = not (w == 0) && none_null ws

-- Every coroutine waits or is woken once at most, and not if it is done; and while one waits, there
-- are as many woken ones as values at least.
pub record IsAwake (s : Async) : Type 0 where
  pub once : (c : ℕ) → places s c ≤ 1
  pub enough : 0 < length s.chan.recv_waiters → length s.chan.values ≤ length s.woken

-- Nothing is lost and no order changes.
pub record IsServed (s : Async) : Type 0 where
  pub order : s.pushed ≡ s.popped ++ s.chan.values
  pub nonnull : none_null s.chan.recv_waiters ≡ true
  pub awake : s.in_turn ≡ true → IsAwake s
