-- ===== src/Channel.antt =====
-- src/runtime/concurrency.cpp: the two channels, `Channel`, which blocks its thread, and `KyteChan`,
-- which suspends its coroutine. A null handle does nothing and is left out.
pub mod Blocking
pub mod LostWakeup
pub mod Async
mod Tests
use kyte.Prelude.{
  ℕ, zero, suc, ◌+◌, ◌-◌, ◌*◌, ◌/◌, ◌%◌, ◌^◌, ◌≤◌, ◌<◌, min, max, ◌≡◌, refl, sym, ap, ◌∙◌, subst,
  ◌≢◌, ◌↔◌, ◌⊎◌, inl, inr, Bool, true, false, not, ◌&&◌, ◌||◌, xor, Option, none, some, List, [],
  ◌∷◌, ◌++◌, map, append_assoc, append-nil, arith, ltb, leb, ◌==◌, if◌then◌else◌, ltb→lt, lt→ltb,
  leb→le, ==_iff, Bool-cases, Option-cases, ℤ, pos, negsuc, pos_part, neg_part, sub_ℕ, ltb_ℤ, ◌+ℤ◌,
  ◌-ℤ◌, ◌≤ℤ◌, int_laws, eq_of_parts, length, length-append, get_elem?, set, get_or, take, drop,
  replicate,
}

-- `struct Channel` without its lock.
pub record Channel : Type 0 where
  pub q : List ℤ
  pub capacity : ℕ

unfoldable pub channel_create : ℤ → Channel
channel_create capacity = record {
  q = [];
  capacity = (if ltb_ℤ (pos 0) capacity then pos_part capacity else 1);
}

-- What `kyte_channel_send` waits for.
unfoldable pub can_send : Channel → Bool
can_send c = ltb (length c.q) c.capacity

unfoldable pub push : Channel → ℤ → Channel
push c val = record c { q = c.q ++ (val ∷ []) }

-- The front of the queue and the rest; none where `kyte_channel_recv` waits.
unfoldable pub pop : Channel → Option (ℤ × Channel)
pop c = elim c.q [ [] ↦ none | val ∷ rest ↦ some (val, record c { q = rest }) ]

-- `struct KyteChan` without its lock.
pub record KyteChan : Type 0 where
  pub values : List ℤ
  pub recv_waiters : List ℕ

unfoldable pub chan_new : ℤ → KyteChan
chan_new capacity = record { values = []; recv_waiters = [] }

-- The channel after a send, and the coroutine to schedule, 0 for none.
unfoldable pub chan_send : KyteChan → ℤ → ℕ × KyteChan
chan_send c val = elim c.recv_waiters [
  | [] ↦ (0, record c { values = c.values ++ (val ∷ []) })
  | waiter ∷ rest ↦ (waiter, record { values = c.values ++ (val ∷ []); recv_waiters = rest })
]

-- The value received, if there is one; if not, the coroutine `self` waits, unless it is null.
unfoldable pub chan_recv : KyteChan → ℕ → Option ℤ × KyteChan
chan_recv c self = elim c.values [
  | val ∷ rest ↦ (some val, record c { values = rest })
  | [] ↦ (none, if self == 0 then c else record c { recv_waiters = c.recv_waiters ++ (self ∷ []) })
]
