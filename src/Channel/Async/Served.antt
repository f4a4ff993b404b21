-- ===== src/Channel/Async/Served.antt =====
-- concurrency.cpp: what holds of a `KyteChan` whatever its coroutines do.
use kyte.Prelude.{
  ℕ, ◌+◌, ◌≤◌, ◌<◌, ◌≡◌, refl, sym, ap, ◌∙◌, inl, inr, Bool, true, false, ◌&&◌, List, [], ◌∷◌, ◌++◌,
  append_assoc, arith, ◌==◌, Bool-cases, ℤ, length, length-append,
}
use kyte.Channel.{chan_new, chan_send, chan_recv}
use kyte.Channel.Async.{
  Async, start, schedule, occurrences, places, send, receive, set_done, end, Step, sends, receives,
  retries, skips, ends, starts, Reaches, here, then_step, none_null, IsAwake, IsServed,
}

left_true : (a b : Bool) → (a && b) ≡ true → a ≡ true
left_true true b e = refl
left_true false b e = e

right_true : (a b : Bool) → (a && b) ≡ true → b ≡ true
right_true true b e = e
right_true false b e = absurd cc

occurrences-append :
    (c : ℕ) (xs ys : List ℕ) → occurrences c (xs ++ ys) ≡ occurrences c xs + occurrences c ys
occurrences-append c [] ys = omega arith
occurrences-append c (x ∷ xs) ys = omega (arith, occurrences-append c xs ys)

none_null-append :
    (ws : List ℕ) (w : ℕ)
    → none_null ws ≡ true
    → (w == 0) ≡ false
    → none_null (ws ++ (w ∷ [])) ≡ true
none_null-append [] w h nz = rw nz refl
none_null-append (x ∷ ws) w h nz = ground (arith, none_null-append ws w)

none_null-head :
    (w : ℕ) (ws : List ℕ) → none_null (w ∷ ws) ≡ true → ((w == 0) ≡ false) × (none_null ws ≡ true)
none_null-head w ws h = ground arith

abbrev state : List ℤ → List ℕ → List ℕ → (ℕ → Bool) → List ℤ → List ℤ → Bool → Async
state values waiters woken done pushed popped in_turn = record {
  chan = record { values = values; recv_waiters = waiters };
  woken = woken;
  done = done;
  pushed = pushed;
  popped = popped;
  in_turn = in_turn;
}

module _ (pushed popped : List ℤ) (done : ℕ → Bool) (in_turn : Bool) where
  send-IsAwake :
      (values : List ℤ) (w : ℕ) (ws woken : List ℕ) (val : ℤ)
      → (w == 0) ≡ false
      → IsAwake (state values (w ∷ ws) woken done pushed popped in_turn)
      → IsAwake (send (state values (w ∷ ws) woken done pushed popped in_turn) val)
  unfolding send chan_send schedule
  send-IsAwake values w ws woken val nz h =
      let enough = h.enough (omega arith) in
      rw (nz, alive (h.once w))
        (record {
          once = λ c. omega (arith, h.once c, occurrences-append c woken (w ∷ []));
          enough = λ p.
              omega (arith, enough, length-append values (val ∷ []), length-append woken (w ∷ []));
        })
    where
      alive : places (state values (w ∷ ws) woken done pushed popped in_turn) w ≤ 1 → done w ≡ false
      alive h = ground arith

  send-IsServed :
      (values : List ℤ) (waiters woken : List ℕ) (val : ℤ)
      → IsServed (state values waiters woken done pushed popped in_turn)
      → IsServed (send (state values waiters woken done pushed popped in_turn) val)
  unfolding send chan_send schedule
  send-IsServed values [] woken val h = record {
    order = ap (λ (l : List ℤ). l ++ (val ∷ [])) h.order ∙ append_assoc popped values (val ∷ []);
    nonnull = refl;
    awake = λ t. record { once = (h.awake t).once; enough = λ p. absurd (omega arith) };
  }
  send-IsServed values (w ∷ ws) woken val h =
      let (nz, rest) = none_null-head w ws h.nonnull in
      record {
        order =
            ap (λ (l : List ℤ). l ++ (val ∷ [])) h.order ∙ append_assoc popped values (val ∷ []);
        nonnull = rest;
        awake = λ t. send-IsAwake values w ws woken val nz (h.awake t);
      }

  receive-IsServed :
      (values : List ℤ) (waiters woken : List ℕ) (self : ℕ)
      → pushed ≡ popped ++ values
      → none_null waiters ≡ true
      → (in_turn ≡ true
          → ((c : ℕ) → places (state values waiters woken done pushed popped in_turn) c ≤ 1)
            × (0 < length waiters → length values ≤ length woken + 1))
      → IsServed (receive (state values waiters woken done pushed popped in_turn) self)
  unfolding receive chan_recv
  receive-IsServed (v ∷ rest) waiters woken self order nn awake = record {
    order = order ∙ sym (append_assoc popped (v ∷ []) rest);
    nonnull = nn;
    awake = λ t.
        let (once, enough) = awake (left_true _ _ t) in
        record { once = once; enough = λ p. omega (arith, enough p) };
  }
  receive-IsServed [] waiters woken self order nn awake = elim (Bool-cases (self == 0)) [
    | inl null ↦ rw null (record {
      order = order;
      nonnull = nn;
      awake = λ t. record { once = (awake (left_true _ _ t)).0; enough = λ p. omega arith };
    })
    | inr waits ↦ rw waits (record {
      order = order;
      nonnull = none_null-append waiters self nn waits;
      awake = λ t. record {
        once = λ c. enlisted c ((awake (left_true _ _ t)).0 c) (right_true _ _ t);
        enough = λ p. omega arith;
      };
    })
  ]
    where
      enlisted :
          (c : ℕ)
          → places (state [] waiters woken done pushed popped in_turn) c ≤ 1
          → (places (state [] waiters woken done pushed popped in_turn) self == 0) ≡ true
          → places (state [] (waiters ++ (self ∷ [])) woken done pushed popped in_turn) c ≤ 1
      enlisted c h free = ground (arith, occurrences-append c waiters (self ∷ []))

retried :
    (woken before after : List ℕ) (self : ℕ)
    → woken ≡ before ++ (self ∷ after)
    → length woken ≡ length (before ++ after) + 1
retried woken before after self e =
    rw e (omega (arith, length-append before (self ∷ after), length-append before after))

taken_out :
    (c : ℕ) (woken before after : List ℕ) (self : ℕ)
    → woken ≡ before ++ (self ∷ after)
    → occurrences c (before ++ after) ≤ occurrences c woken
taken_out c woken before after self e =
    rw e
      (omega (arith, occurrences-append c before (self ∷ after), occurrences-append c before after))

-- A coroutine that is woken once and not done is not skipped.
not_skipped :
    (s : Async) (before after : List ℕ) (self : ℕ)
    → s.woken ≡ before ++ (self ∷ after)
    → s.done self ≡ true
    → ¬ (places s self ≤ 1)
not_skipped s before after self e over once =
    ground (arith, rw e at once, occurrences-append self before (self ∷ after), over)

end-once :
    (s : Async) (self c : ℕ)
    → places s c ≤ 1
    → (places s self == 0) ≡ true
    → places (end s self) c ≤ 1
unfolding end
end-once s self c h free = ground arith

start-once : (s : Async) (self c : ℕ) → places s c ≤ 1 → places (set_done s self false) c ≤ 1
start-once s self c h = ground arith

Step-IsServed : (s t : Async) → IsServed s → Step s t → IsServed t
unfolding end
Step-IsServed s t h (sends val) =
    send-IsServed s.pushed s.popped s.done s.in_turn s.chan.values s.chan.recv_waiters s.woken val h
Step-IsServed s t h (receives self) =
    receive-IsServed s.pushed s.popped s.done s.in_turn s.chan.values s.chan.recv_waiters s.woken
      self h.order h.nonnull (λ t. ((h.awake t).once, λ p. omega (arith, (h.awake t).enough p)))
Step-IsServed s t h (retries before after self e alive) =
    receive-IsServed s.pushed s.popped s.done s.in_turn s.chan.values s.chan.recv_waiters
      (before ++ after) self h.order h.nonnull
      (λ t. (
        λ c. omega (arith, (h.awake t).once c, taken_out c s.woken before after self e),
        λ p. omega (arith, (h.awake t).enough p, retried s.woken before after self e),
      ))
Step-IsServed s t h (skips before after self e over) = record {
  order = h.order;
  nonnull = h.nonnull;
  awake = λ t. absurd (not_skipped s before after self e over ((h.awake t).once self));
}
Step-IsServed s t h (ends self) = record {
  order = h.order;
  nonnull = h.nonnull;
  awake = λ t. record {
    once = λ c. end-once s self c ((h.awake (left_true _ _ t)).once c) (right_true _ _ t);
    enough = (h.awake (left_true _ _ t)).enough;
  };
}
Step-IsServed s t h (starts self) = record {
  order = h.order;
  nonnull = h.nonnull;
  awake = λ t. record {
    once = λ c. start-once s self c ((h.awake t).once c);
    enough = (h.awake t).enough;
  };
}

-- However sends, receives, retries, ends and starts of coroutines interleave on a new channel, the values
-- received so far and those in it are the values sent so far, in order, and no null coroutine waits.
-- If moreover no coroutine has called or ended while it waited, was woken, or was done, then every
-- coroutine waits or is woken once at most, and not if it is done; and while one waits, at least as
-- many different coroutines have been woken and not yet tried again as there are values in the
-- channel.
pub chan-IsServed : (capacity : ℤ) (s : Async) → Reaches (start capacity) s → IsServed s
unfolding chan_new
chan-IsServed capacity s here = record {
  order = refl;
  nonnull = refl;
  awake = λ t. record { once = λ c. omega arith; enough = λ p. absurd (omega arith) };
}
chan-IsServed capacity s (then_step {t = m} r step) =
    Step-IsServed m s (chan-IsServed capacity m r) step
