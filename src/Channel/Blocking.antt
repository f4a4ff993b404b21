-- ===== src/Channel/Blocking.antt =====
-- concurrency.cpp: threads that call `kyte_channel_send` and `kyte_channel_recv` on one channel. A
-- thread holds the lock for one step; the condition variable is the set of threads that wait on it,
-- and `notify_one` wakes any one of them.
use kyte.Prelude.{
  ℕ, ◌≤◌, ◌<◌, ◌≡◌, refl, sym, ap, ◌∙◌, Bool, true, false, none, some, List, [], ◌∷◌, ◌++◌,
  append_assoc, arith, ltb→lt, ℤ, pos, negsuc, length, length-append, get_elem?, set,
}
use mathlib.Core.Option.{some-injective}
use kyte.Channel.{Channel, channel_create, can_send, push, pop}

-- A thread in one call: it wants the lock, waits on the condition variable, or has returned.
pub data Thread : Type 0 where
  sending : ℤ → Thread
  send_waiting : ℤ → Thread
  sent : Thread
  receiving : Thread
  recv_waiting : Thread
  received : ℤ → Thread

abbrev pub is_waiting : Thread → Bool
is_waiting (sending v) = false
is_waiting (send_waiting v) = true
is_waiting sent = false
is_waiting receiving = false
is_waiting recv_waiting = true
is_waiting (received v) = false

-- A thread that wakes up tests its condition again.
abbrev pub wake : Thread → Thread
wake (sending v) = sending v
wake (send_waiting v) = sending v
wake sent = sent
wake receiving = receiving
wake recv_waiting = receiving
wake (received v) = received v

-- `pushed` and `popped` record the values sent and received so far, the oldest first.
pub record System : Type 0 where
  pub chan : Channel
  pub threads : List Thread
  pub pushed : List ℤ
  pub popped : List ℤ

-- `notify_one`.
pub data Notified (ts : List Thread) : List Thread → Type 0 where
  nobody : ((j : ℕ) (t : Thread) → get_elem? ts j ≡ some t → is_waiting t ≡ false) → Notified ts ts
  one :
      (j : ℕ) (t : Thread)
      → get_elem? ts j ≡ some t
      → is_waiting t ≡ true
      → Notified ts (set ts j (wake t))

-- What a thread that gets the lock does.
pub data Step (s : System) : System → Type 0 where
  send_done :
      (i : ℕ) (v : ℤ) (ts : List Thread)
      → get_elem? s.threads i ≡ some (sending v)
      → can_send s.chan ≡ true
      → Notified (set s.threads i sent) ts
      → Step s (record s { chan = push s.chan v; threads = ts; pushed = s.pushed ++ (v ∷ []) })
  send_wait :
      (i : ℕ) (v : ℤ)
      → get_elem? s.threads i ≡ some (sending v)
      → can_send s.chan ≡ false
      → Step s (record s { threads = set s.threads i (send_waiting v) })
  recv_done :
      (i : ℕ) (v : ℤ) (c : Channel) (ts : List Thread)
      → get_elem? s.threads i ≡ some receiving
      → pop s.chan ≡ some (v, c)
      → Notified (set s.threads i (received v)) ts
      → Step s (record s { chan = c; threads = ts; popped = s.popped ++ (v ∷ []) })
  recv_wait :
      (i : ℕ)
      → get_elem? s.threads i ≡ some receiving
      → pop s.chan ≡ none
      → Step s (record s { threads = set s.threads i recv_waiting })

-- The states that are reached from `s`; a thread may also wake up with no notification.
pub data Reaches (s : System) : System → Type 0 where
  here : Reaches s s
  then_step : {t u : System} → Reaches s t → Step t u → Reaches s u
  then_spurious :
      {t : System} (i : ℕ) (w : Thread)
      → Reaches s t
      → get_elem? t.threads i ≡ some w
      → is_waiting w ≡ true
      → Reaches s (record t { threads = set t.threads i (wake w) })

-- A new channel and the threads that will use it.
abbrev pub start : ℤ → List Thread → System
start capacity ts = record {
  chan = channel_create capacity;
  threads = ts;
  pushed = [];
  popped = [];
}

-- Values are received in the order in which they are sent, each once, and the buffer never exceeds
-- the capacity of the channel.
pub record IsFifo (capacity : ℕ) (s : System) : Type 0 where
  pub order : s.pushed ≡ s.popped ++ s.chan.q
  pub bound : length s.chan.q ≤ s.chan.capacity
  pub fixed : s.chan.capacity ≡ capacity

push-bound : (c : Channel) (v : ℤ) → can_send c ≡ true → length (push c v).q ≤ c.capacity
unfolding can_send push
push-bound c v h = grind (arith, length-append c.q (v ∷ []), ltb→lt (length c.q) c.capacity h)

uncons_parts :
    (q : List ℤ) (n : ℕ) (v : ℤ) (d : Channel)
    → pop (record { q = q; capacity = n }) ≡ some (v, d)
    → (q ≡ v ∷ d.q) × (d.capacity ≡ n)
unfolding pop
uncons_parts [] n v d h = absurd cc
uncons_parts (x ∷ rest) n v d h =
    let same = some-injective (x, record { q = rest; capacity = n }) (v, d) h in
    let head = ap (λ (p : ℤ × Channel). p.0) same in
    let tail = ap (λ (p : ℤ × Channel). p.1) same in
    (rw head (ap (λ (c : Channel). v ∷ c.q) tail), ap (λ (c : Channel). c.capacity) (sym tail))

pop_parts :
    (c : Channel) (v : ℤ) (d : Channel)
    → pop c ≡ some (v, d)
    → (c.q ≡ v ∷ d.q) × (d.capacity ≡ c.capacity)
pop_parts c v d h = uncons_parts c.q c.capacity v d h

Step-IsFifo : (n : ℕ) (s t : System) → IsFifo n s → Step s t → IsFifo n t
unfolding push
Step-IsFifo n s t f (send_done i v ts at room woken) = record {
  order = ap (λ (l : List ℤ). l ++ (v ∷ [])) f.order ∙ append_assoc s.popped s.chan.q (v ∷ []);
  bound = push-bound s.chan v room;
  fixed = f.fixed;
}
Step-IsFifo n s t f (send_wait i v at full) = record {
  order = f.order;
  bound = f.bound;
  fixed = f.fixed;
}
Step-IsFifo n s t f (recv_done i v c ts at some_value woken) =
    let (front, same) = pop_parts s.chan v c some_value in
    record {
      order =
          f.order
          ∙ ap (λ (l : List ℤ). s.popped ++ l) front
          ∙ sym (append_assoc s.popped (v ∷ []) c.q);
      bound = rw same (shorter s.chan.q v c.q s.chan.capacity front f.bound);
      fixed = same ∙ f.fixed;
    }
  where
    shorter :
        (q : List ℤ) (v : ℤ) (rest : List ℤ) (n : ℕ) → q ≡ v ∷ rest → length q ≤ n → length rest ≤ n
    shorter q v rest n e h = omega (arith, rw e at h)
Step-IsFifo n s t f (recv_wait i at empty) = record {
  order = f.order;
  bound = f.bound;
  fixed = f.fixed;
}

Reaches-IsFifo : (n : ℕ) (s t : System) → IsFifo n s → Reaches s t → IsFifo n t
Reaches-IsFifo n s t f here = f
Reaches-IsFifo n s t f (then_step {t = m} r step) =
    Step-IsFifo n m t (Reaches-IsFifo n s m f r) step
Reaches-IsFifo n s t f (then_spurious {t = m} i w r at asleep) =
    let g = Reaches-IsFifo n s m f r in record { order = g.order; bound = g.bound; fixed = g.fixed }

create-capacity : (capacity : ℤ) → 0 < (channel_create capacity).capacity
unfolding channel_create
create-capacity (pos n) = ground arith
create-capacity (negsuc n) = ground arith

start-IsFifo :
    (capacity : ℤ) (ts : List Thread)
    → IsFifo (channel_create capacity).capacity (start capacity ts)
unfolding channel_create
start-IsFifo capacity ts = record { order = refl; bound = omega arith; fixed = refl }

-- However any number of threads interleave on a new channel, and whichever of them are woken, the
-- values received so far and those in the buffer are the values sent so far, in order, and the
-- buffer holds at most as many as the capacity, which is at least one.
pub channel-IsFifo :
    (capacity : ℤ) (ts : List Thread) (s : System)
    → Reaches (start capacity ts) s
    → IsFifo (channel_create capacity).capacity s × (0 < (channel_create capacity).capacity)
channel-IsFifo capacity ts s r =
    let n = (channel_create capacity).capacity in
    let room = create-capacity capacity in
    (Reaches-IsFifo n (start capacity ts) s (start-IsFifo capacity ts) r, room)
