-- ===== src/Channel/LostWakeup.antt =====
-- concurrency.cpp: senders and receivers of `Channel` wait on one condition variable, and each call
-- of `notify_one` may wake a thread of either kind.
use kyte.Prelude.{ℕ, zero, suc, ◌≡◌, refl, ◌≢◌, some, List, [], ◌∷◌, ℤ, pos, get_elem?}
use kyte.Channel.{channel_create, can_send, push, pop}
use kyte.Channel.Blocking.{
  Thread, sending, send_waiting, sent, receiving, recv_waiting, received, System, one, Step,
  send_done, send_wait, recv_done, recv_wait, start,
}

-- No thread can go on by itself.
abbrev pub IsStuck : System → Type 0
IsStuck s = (t : System) → ¬ Step s t

-- What steps of the threads alone reach: without spurious wake-ups, which `Blocking.Reaches` has.
pub data Steps (s : System) : System → Type 0 where
  none_yet : Steps s s
  one_more : {t u : System} → Steps s t → Step t u → Steps s u

module _ (v w : ℤ) where
  abbrev pub threads : List Thread
  threads = receiving ∷ receiving ∷ sending v ∷ sending w ∷ []

  -- Both receivers wait.
  abbrev waiting : System
  waiting = record (start (pos 1) threads) {
    threads = recv_waiting ∷ recv_waiting ∷ sending v ∷ sending w ∷ [];
  }

  -- The first value has woken the first receiver, and the second sender has come before it.
  abbrev full : System
  full = record {
    chan = record { q = v ∷ []; capacity = 1 };
    threads = receiving ∷ recv_waiting ∷ sent ∷ send_waiting w ∷ [];
    pushed = v ∷ [];
    popped = [];
  }

  -- The first receiver has woken the second one instead of the sender.
  abbrev asleep : System
  asleep = record {
    chan = record { q = []; capacity = 1 };
    threads = received v ∷ recv_waiting ∷ sent ∷ send_waiting w ∷ [];
    pushed = v ∷ [];
    popped = v ∷ [];
  }

  Steps-asleep : Steps (start (pos 1) threads) asleep
  unfolding channel_create can_send push pop
  Steps-asleep =
      one_more
        (one_more
          (one_more
            (one_more (one_more (one_more none_yet (recv_wait 0 refl refl)) (recv_wait 1 refl refl))
              (send_done 2 v (receiving ∷ recv_waiting ∷ sent ∷ sending w ∷ []) refl refl
                (one 0 recv_waiting refl refl)))
            (send_wait 3 w refl refl))
          (recv_done 0 v (record { q = []; capacity = 1 })
            (received v ∷ receiving ∷ sent ∷ send_waiting w ∷ []) refl refl
            (one 1 recv_waiting refl refl)))
        (recv_wait 1 refl refl)

  not_sending : (i : ℕ) (x : ℤ) → get_elem? asleep.threads i ≢ some (sending x)
  not_sending zero x e = cc
  not_sending (suc zero) x e = cc
  not_sending (suc (suc zero)) x e = cc
  not_sending (suc (suc (suc zero))) x e = cc
  not_sending (suc (suc (suc (suc i)))) x e = cc

  not_receiving : (i : ℕ) → get_elem? asleep.threads i ≢ some receiving
  not_receiving zero e = cc
  not_receiving (suc zero) e = cc
  not_receiving (suc (suc zero)) e = cc
  not_receiving (suc (suc (suc zero))) e = cc
  not_receiving (suc (suc (suc (suc i)))) e = cc

  asleep-IsStuck : IsStuck asleep
  asleep-IsStuck t (send_done i x ts at room woken) = not_sending i x at
  asleep-IsStuck t (send_wait i x at no_room) = not_sending i x at
  asleep-IsStuck t (recv_done i x c ts at found woken) = not_receiving i at
  asleep-IsStuck t (recv_wait i at empty) = not_receiving i at

  -- A wake-up can be lost: with capacity 1, two receivers and two senders of any values, a state is
  -- reached without spurious wake-ups in which no thread can go on, although the buffer is empty and
  -- the second sender waits for room in it, and the second receiver for a value.
  pub channel-IsStuck :
      (s : System) × Steps (start (pos 1) threads) s
      × IsStuck s
      × (s.chan.q ≡ [])
      × (get_elem? s.threads 3 ≡ some (send_waiting w))
      × (get_elem? s.threads 1 ≡ some recv_waiting)
  channel-IsStuck = (asleep, Steps-asleep, asleep-IsStuck, refl, refl, refl)
