-- ===== src/Uring/Complete.antt =====
-- uring.cpp: `kyte_uring_cq_ready`, `kyte_uring_peek` and `kyte_uring_advance` read a queue of
-- completions.
use kyte.Prelude.{
  ℕ, zero, suc, ◌+◌, ◌-◌, ◌%◌, ◌≤◌, ◌<◌, ◌≡◌, refl, sym, ap, ◌∙◌, true, false, some, List, [], ◌∷◌,
  arith, ltb, pos, ltb_ℤ, length, get_elem?, drop,
}
use kyte.Prelude.{length-drop}
use kyte.Uring.{Cqe, KyteUring, u32, sub32, cq_ready, peek, advance}
use kyte.Uring.Slots.{IsEntries, Holds, index_wrap, sub32-distance, Holds-drop}

-- The completions that the kernel has posted and nobody has consumed are `q`, the first of them at
-- the unwrapped position `start`.
pub record IsPosted (r : KyteUring) (start : ℕ) (q : List Cqe) : Type 0 where
  pub entries : IsEntries r.cq_entries
  pub small : r.cq_entries < u32
  pub head : r.cq_head ≡ start % u32
  pub tail : r.cq_tail ≡ (start + length q) % u32
  pub slots : Holds r.cq_entries r.cqes start q

posted-count :
    (r : KyteUring) (start : ℕ) (q : List Cqe)
    → IsPosted r start q
    → sub32 r.cq_tail r.cq_head ≡ length q
posted-count r start q h =
    let room = h.slots.room in
    rw (h.head, h.tail) (sub32-distance start (length q) (omega (arith, h.small)))

get_elem?-some :
    {A : Type 0} (q : List A) (i : ℕ) → i < length q → (x : A) × (get_elem? q i ≡ some x)
get_elem?-some [] i lt = absurd (omega arith)
get_elem?-some (x ∷ q) zero lt = (x, refl)
get_elem?-some (x ∷ q) (suc i) lt = get_elem?-some q i (omega arith)

peek_slot :
    (r : KyteUring) (start i : ℕ) (q : List Cqe)
    → IsPosted r start q
    → peek r i ≡ r.cqes ((start + i) % r.cq_entries)
unfolding peek
peek_slot r start i q h =
    rw (h.head, wrapped start i, index_wrap r.cq_entries (start + i) h.entries) refl
  where
    wrapped : (a b : ℕ) → (a % u32 + b) % u32 ≡ (a + b) % u32
    wrapped a b = omega arith

advance-IsPosted :
    (r : KyteUring) (start n : ℕ) (q : List Cqe)
    → IsPosted r start q
    → n ≤ length q
    → IsPosted (advance r (pos n)) (start + n) (drop n q)
unfolding advance
advance-IsPosted r start zero q h le = rw (nowhere start) h
  where
    nowhere : (a : ℕ) → a + 0 ≡ a
    nowhere a = omega arith
advance-IsPosted r start (suc n) q h le = rw (some_consumed n) (moved (suc n) le)
  where
    some_consumed : (n : ℕ) → ltb_ℤ (pos 0) (pos (suc n)) ≡ true
    some_consumed n = ground arith

    moved :
        (n : ℕ)
        → n ≤ length q
        → IsPosted (record r { cq_head = (r.cq_head + n) % u32 }) (start + n) (drop n q)
    moved n le =
        let left = length-drop n q in
        record {
          entries = h.entries;
          small = h.small;
          head = omega (arith, h.head);
          tail = omega (arith, h.tail);
          slots = Holds-drop r.cq_entries start n r.cqes q h.slots;
        }

-- The count of ready completions is the number of those posted and not consumed, `peek` gives each
-- of them at its place, and consuming `n` of them leaves the others. Positions may wrap at 2^32.
pub completions-IsPosted :
    (r : KyteUring) (start : ℕ) (q : List Cqe)
    → IsPosted r start q
    → (cq_ready r ≡ length q)
      × ((i : ℕ) → i < length q → get_elem? q i ≡ some (peek r i))
      × ((n : ℕ) → n ≤ length q → IsPosted (advance r (pos n)) (start + n) (drop n q))
unfolding cq_ready
completions-IsPosted r start q h = (ready, at, λ n le. advance-IsPosted r start n q h le)
  where
    within : (n k : ℕ) → k ≤ n → ltb n k ≡ false
    within n k le = ground arith

    ready : cq_ready r ≡ length q
    ready = rw (posted-count r start q h, within r.cq_entries (length q) h.slots.room) refl

    at : (i : ℕ) → i < length q → get_elem? q i ≡ some (peek r i)
    at i lt =
        let (x, e) = get_elem?-some q i lt in
        e ∙ ap some (sym (peek_slot r start i q h ∙ h.slots.at i x e))

overrun-count :
    (start len n : ℕ)
    → len < n
    → n < len + u32
    → sub32 ((start + len) % u32) ((start % u32 + n) % u32) ≡ u32 - (n - len)
unfolding sub32
overrun-count start len n over bound = omega arith

-- If more completions are consumed than are ready, by less than 2^32 less the size of the ring, then
-- none is reported as ready, and no slot that the kernel has not written is read.
pub cq_ready_overrun :
    (r : KyteUring) (start n : ℕ) (q : List Cqe)
    → IsPosted r start q
    → length q < n
    → n < length q + (u32 - r.cq_entries)
    → cq_ready (advance r (pos n)) ≡ 0
unfolding cq_ready advance
cq_ready_overrun r start n q h over bound =
    let room = h.slots.room in
    rw
      (
        consumed n (length q) over,
        h.head,
        h.tail,
        overrun-count start (length q) n over (omega arith),
        too_many r.cq_entries (length q) n over bound,
      )
      refl
  where
    consumed : (n k : ℕ) → k < n → ltb_ℤ (pos 0) (pos n) ≡ true
    consumed n k lt = ground arith

    too_many : (e k n : ℕ) → k < n → n < k + (u32 - e) → ltb e (u32 - (n - k)) ≡ true
    too_many e k n over bound = ground arith
