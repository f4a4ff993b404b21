-- ===== src/Uring/Tests.antt =====
-- Instances of the theorems on a ring of four entries whose positions wrap.
use mathlib.Core.Option.{some-injective, none-ne-some}
use kyte.Prelude.{
  ℕ, zero, suc, ◌+◌, ◌%◌, ◌≤◌, ◌<◌, ◌≡◌, refl, true, some, [], ◌∷◌, arith, ◌==◌, if◌then◌else◌, pos,
  negsuc, length, get_elem?, drop,
}
use kyte.Uring.{Sqe, Cqe, KyteUring, prep, submit, cq_ready, peek, advance}
use kyte.Uring.Slots.{IsEntries}
use kyte.Uring.Submit.{IsStaged, prep-IsStaged, submit-IsStaged}
use kyte.Uring.Complete.{IsPosted, completions-IsPosted}

abbrev receive : Sqe
receive = record {
  opcode = 27;
  fd = pos 5;
  addr = 4096;
  len = 64;
  off = 0;
  poll32_events = 0;
  user_data = 9;
}

abbrev completion : ℕ → Cqe
completion u = record { user_data = u; res = pos 64; flags = 0 }

-- One operation is staged at the last position before the wrap, and two completions are posted.
abbrev ring : KyteUring
ring = record {
  sq_head = 4294967295;
  sq_tail = 4294967295;
  sq_local_tail = 0;
  sq_entries = 4;
  sq_array = λ i. i;
  sqes = λ i. receive;
  cq_head = 4294967295;
  cq_tail = 1;
  cq_entries = 4;
  cqes = λ i. if i == 3 then completion 9 else completion 10;
}

four : IsEntries 4
four = record { positive = omega arith; divides = refl }

receive-at : (j : ℕ) (x : Sqe) → get_elem? (receive ∷ []) j ≡ some x → receive ≡ x
receive-at zero x e = some-injective receive x e
receive-at (suc j) x e = absurd (none-ne-some x e)

ring-IsStaged : IsStaged ring 4294967295 (receive ∷ []) 1
ring-IsStaged = record {
  entries = four;
  small = omega arith;
  head = refl;
  local = refl;
  fresh_le = omega arith;
  published = refl;
  array = λ j lt. refl;
  slots = record { room = omega arith; at = receive-at };
}

posted-at :
    (j : ℕ) (x : Cqe)
    → get_elem? (completion 9 ∷ completion 10 ∷ []) j ≡ some x
    → ring.cqes ((4294967295 + j) % 4) ≡ x
posted-at zero x e = some-injective (completion 9) x e
posted-at (suc zero) x e = some-injective (completion 10) x e
posted-at (suc (suc j)) x e = absurd (none-ne-some x e)

ring-IsPosted : IsPosted ring 4294967295 (completion 9 ∷ completion 10 ∷ [])
ring-IsPosted = record {
  entries = four;
  small = omega arith;
  head = refl;
  tail = refl;
  slots = record { room = omega arith; at = posted-at };
}

prep-IsStaged_example :
    (length (receive ∷ []) < ring.sq_entries
      → ((prep ring receive).0 ≡ pos 0)
        × IsStaged (prep ring receive).1 4294967295 (receive ∷ receive ∷ []) 2)
    × (length (receive ∷ []) ≡ ring.sq_entries → prep ring receive ≡ (negsuc 0, ring))
prep-IsStaged_example = prep-IsStaged ring 4294967295 1 (receive ∷ []) receive ring-IsStaged

submit-IsStaged_example :
    IsStaged (submit ring (pos 1)).1 4294967295 (receive ∷ []) 0
    × ((submit ring (pos 1)).0
        ≡ some (record { to_submit = 1; min_complete = 1; getevents = true }))
submit-IsStaged_example = submit-IsStaged ring 4294967295 1 (receive ∷ []) (pos 1) ring-IsStaged

completions-IsPosted_example :
    (let q = completion 9 ∷ completion 10 ∷ [] in
      (cq_ready ring ≡ 2)
      × ((i : ℕ) → i < 2 → get_elem? q i ≡ some (peek ring i))
      × ((n : ℕ) → n ≤ 2 → IsPosted (advance ring (pos n)) (4294967295 + n) (drop n q)))
completions-IsPosted_example =
    completions-IsPosted ring 4294967295 (completion 9 ∷ completion 10 ∷ []) ring-IsPosted
