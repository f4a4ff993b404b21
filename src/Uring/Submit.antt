-- ===== src/Uring/Submit.antt =====
-- uring.cpp: `kyte_uring_prep` and `kyte_uring_submit_and_wait` refine a queue of staged operations.
use kyte.Prelude.{
  ℕ, ◌+◌, ◌-◌, ◌%◌, ◌≤◌, ◌<◌, ◌≡◌, refl, sym, ap, ◌≢◌, inl, inr, Bool, true, false, not, ◌&&◌, none,
  some, List, [], ◌∷◌, ◌++◌, arith, leb, ◌==◌, if◌then◌else◌, ==_iff, Bool-cases, ℤ, pos, negsuc,
  pos_part, ltb_ℤ, length, length-append, drop,
}
use kyte.Prelude.{length-drop}
use kyte.Uring.{Sqe, KyteUring, u32, sub32, write, prep, submit}
use kyte.Uring.Slots.{IsEntries, Holds, index_wrap, sub32-distance, Holds-push, Holds-drop}

-- The operations staged and not yet taken by the kernel are `q`, the first of them at the unwrapped
-- position `start`; all but the last `fresh` ones are published. The kernel finds an operation
-- through `sq_array`.
pub record IsStaged (r : KyteUring) (start : ℕ) (q : List Sqe) (fresh : ℕ) : Type 0 where
  pub entries : IsEntries r.sq_entries
  pub small : r.sq_entries < u32
  pub head : r.sq_head ≡ start % u32
  pub local : r.sq_local_tail ≡ (start + length q) % u32
  pub fresh_le : fresh ≤ length q
  pub published : r.sq_tail ≡ (start + (length q - fresh)) % u32
  pub array :
      (j : ℕ) → j < length q → r.sq_array ((start + j) % r.sq_entries) ≡ (start + j) % r.sq_entries
  pub slots : Holds r.sq_entries r.sqes start q

-- The number of operations staged, as the code computes it.
staged-count :
    (r : KyteUring) (start fresh : ℕ) (q : List Sqe)
    → IsStaged r start q fresh
    → sub32 r.sq_local_tail r.sq_head ≡ length q
staged-count r start fresh q h =
    let room = h.slots.room in
    rw (h.head, h.local) (sub32-distance start (length q) (omega (arith, h.small)))

write-index :
    (array : ℕ → ℕ) (index i : ℕ) → (i ≢ index → array i ≡ i) → write array index index i ≡ i
write-index array index i h = elim (Bool-cases (i == index)) [
  | inl same ↦ rw same (sym ((==_iff i index).0 same))
  | inr other ↦ rw other (h (ground arith))
]

next_tail : (start k : ℕ) → ((start + k) % u32 + 1) % u32 ≡ (start + (k + 1)) % u32
next_tail start k = omega arith

-- With room in the ring, `kyte_uring_prep` stages one more operation at the end, which is not yet
-- published, and returns 0; when the ring is full it returns -1 and changes nothing. Positions may
-- wrap at 2^32.
pub prep-IsStaged :
    (r : KyteUring) (start fresh : ℕ) (q : List Sqe) (x : Sqe)
    → IsStaged r start q fresh
    → (length q < r.sq_entries
        → ((prep r x).0 ≡ pos 0) × IsStaged (prep r x).1 start (q ++ (x ∷ [])) (fresh + 1))
      × (length q ≡ r.sq_entries → prep r x ≡ (negsuc 0, r))
unfolding prep
prep-IsStaged r start fresh q x h = (room, full)
  where
    more : length (q ++ (x ∷ [])) ≡ length q + 1
    more = length-append q (x ∷ [])

    index : r.sq_local_tail % r.sq_entries ≡ (start + length q) % r.sq_entries
    index = rw h.local (index_wrap r.sq_entries (start + length q) h.entries)

    fits : (n k : ℕ) → k < n → leb n k ≡ false
    fits n k lt = ground arith

    over : (n k : ℕ) → k ≡ n → leb n k ≡ true
    over n k e = ground arith

    inner :
        (j : ℕ)
        → j < length (q ++ (x ∷ []))
        → (start + j) % r.sq_entries ≢ (start + length q) % r.sq_entries
        → j < length q
    inner j below ne = elim (Bool-cases (j == length q)) [
      | inl last ↦
          absurd (ne (ap (λ (k : ℕ). (start + k) % r.sq_entries) ((==_iff j (length q)).0 last)))
      | inr earlier ↦ ground (arith, more)
    ]

    staged :
        length q < r.sq_entries
        → IsStaged
            (record r {
              sqes = write r.sqes ((start + length q) % r.sq_entries) x;
              sq_array =
                  write r.sq_array
                    ((start + length q) % r.sq_entries)
                    ((start + length q) % r.sq_entries);
              sq_local_tail = (r.sq_local_tail + 1) % u32;
            })
            start
            (q ++ (x ∷ []))
            (fresh + 1)
    staged lt = record {
      entries = h.entries;
      small = h.small;
      head = h.head;
      local = rw (h.local, more) (next_tail start (length q));
      fresh_le = omega (arith, more, h.fresh_le);
      published = rw more (omega (arith, h.published));
      array = λ j below. write-index r.sq_array _ _ (λ ne. h.array j (inner j below ne));
      slots = Holds-push r.sq_entries start r.sqes q x h.entries.positive lt h.slots;
    }

    room :
        length q < r.sq_entries
        → ((prep r x).0 ≡ pos 0) × IsStaged (prep r x).1 start (q ++ (x ∷ [])) (fresh + 1)
    room lt =
        rw (staged-count r start fresh q h, fits r.sq_entries (length q) lt, index)
          (refl, staged lt)

    full : length q ≡ r.sq_entries → prep r x ≡ (negsuc 0, r)
    full e = rw (staged-count r start fresh q h, over r.sq_entries (length q) e) refl

new-count :
    (r : KyteUring) (start fresh : ℕ) (q : List Sqe)
    → IsStaged r start q fresh
    → sub32 r.sq_local_tail r.sq_tail ≡ fresh
new-count r start fresh q h =
    let room = h.slots.room in
    let small = h.small in
    let le = h.fresh_le in
    let whole : start + length q ≡ start + (length q - fresh) + fresh = omega arith in
    rw (h.published, h.local, whole)
      (sub32-distance (start + (length q - fresh)) fresh (omega arith))

all_published :
    (r : KyteUring) (start fresh : ℕ) (q : List Sqe)
    → IsStaged r start q fresh
    → IsStaged (record r { sq_tail = r.sq_local_tail }) start q 0
all_published r start fresh q h = record {
  entries = h.entries;
  small = h.small;
  head = h.head;
  local = h.local;
  fresh_le = omega arith;
  published = omega (arith, h.local);
  array = h.array;
  slots = h.slots;
}

abbrev idle : ℕ → ℤ → Bool
idle fresh wait_nr = (fresh == 0) && (not (ltb_ℤ (pos 0) wait_nr) && not (ltb_ℤ wait_nr (pos 0)))

-- `kyte_uring_submit_and_wait` publishes every staged operation. It asks the kernel to take those
-- that were not published before, and to wait for as many completions as a positive `wait_nr` says;
-- with nothing to submit and no wait it does not call the kernel.
pub submit-IsStaged :
    (r : KyteUring) (start fresh : ℕ) (q : List Sqe) (wait_nr : ℤ)
    → IsStaged r start q fresh
    → let waits = ltb_ℤ (pos 0) wait_nr in
      IsStaged (submit r wait_nr).1 start q 0
      × ((submit r wait_nr).0 ≡ (
          if (fresh == 0) && (not waits && not (ltb_ℤ wait_nr (pos 0)))
          then none
          else some (record {
            to_submit = fresh;
            min_complete = (if waits then pos_part wait_nr else 0);
            getevents = waits;
          })))
unfolding submit
submit-IsStaged r start fresh q wait_nr h =
    rw (new-count r start fresh q h) (elim (Bool-cases (idle fresh wait_nr)) [
      | inl idle ↦ rw idle (all_published r start fresh q h, refl)
      | inr busy ↦ rw busy (all_published r start fresh q h, refl)
    ])

-- The kernel takes published operations from the front, which moves `sq_head`; those that stay are
-- staged as before.
pub consume-IsStaged :
    (r : KyteUring) (start fresh k : ℕ) (q : List Sqe)
    → IsStaged r start q fresh
    → k ≤ length q - fresh
    → IsStaged (record r { sq_head = (r.sq_head + k) % u32 }) (start + k) (drop k q) fresh
consume-IsStaged r start fresh k q h le =
    let left = length-drop k q in
    let enough = h.fresh_le in
    record {
      entries = h.entries;
      small = h.small;
      head = omega (arith, h.head);
      local = omega (arith, h.local);
      fresh_le = omega arith;
      published = omega (arith, h.published);
      array = λ j below. rw (shift start k j) (h.array (k + j) (omega arith));
      slots = Holds-drop r.sq_entries start k r.sqes q h.slots;
    }
  where
    shift : (a b c : ℕ) → a + b + c ≡ a + (b + c)
    shift a b c = omega arith
