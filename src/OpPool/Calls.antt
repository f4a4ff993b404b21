-- ===== src/OpPool/Calls.antt =====
-- core.cpp: a thread that calls `kyte_op_alloc` and `kyte_op_free`, always with the same size.
use kyte.OpPool.Handing.{IsHanded, op_alloc-IsHanded, op_free-IsOwned}
use kyte.OpPool.{OpPool, op_pool_max, store, free_known, resize, new_record, op_alloc, op_free}
use kyte.OpPool.Owners.{
  occurrences, is_block, IsOwned, IsSized, occurrences-append, stored_none, occurs_head,
  resize-IsSized,
}
use kyte.Prelude.{
  ℕ, ◌≡◌, refl, sym, ap, ◌∙◌, subst, ◌≢◌, ◌⊎◌, inl, inr, false, Option, none, some, List, [], ◌∷◌,
  ◌++◌, arith, ltb, ◌==◌, if◌then◌else◌, Bool-cases, length, length-append,
}

op_free-IsSized :
    (op : ℕ) (p : OpPool) → IsSized p → IsSized (op_free op p) × ((op_free op p).size ≡ p.size)
unfolding op_free
op_free-IsSized op p sized = elim (Bool-cases (op == 0)) [
  | inl null ↦ rw null (sized, refl)
  | inr some_record ↦ elim (Bool-cases (ltb (length p.records) op_pool_max)) [
    | inl space ↦ rw (some_record, space) (sized, refl)
    | inr full ↦ rw (some_record, full) (dropped (p.heap op))
  ]
]
  where
    dropped : (o : Option ℕ) → IsSized (free_known o op p) × ((free_known o op p).size ≡ p.size)
    dropped none = (sized, refl)
    dropped (some n) = (
      (λ a. elim (stored_none p.heap op a) [
        | inl e ↦ inl e
        | inr e ↦ subst (λ (o : Option ℕ). (o ≡ none) ⊎ (o ≡ some p.size)) (sym e) (sized a)
      ]),
      refl,
    )

stored_size :
    (heap : ℕ → Option ℕ) (r n m a : ℕ)
    → n ≡ m
    → (heap a ≡ none) ⊎ (heap a ≡ some m)
    → (store heap r (some n) a ≡ none) ⊎ (store heap r (some n) a ≡ some m)
stored_size heap r n m a e sized = elim (Bool-cases (a == r)) [
  | inl same ↦ inr (rw same (ap some e))
  | inr other ↦ rw other sized
]

op_alloc-IsSized :
    (answer size : ℕ) (p : OpPool) (held : List ℕ)
    → IsOwned p held
    → IsSized p
    → (size ≡ p.size) ⊎ (held ≡ [])
    → let (a, q) = op_alloc answer size p in IsSized q × (q.size ≡ size)
unfolding op_alloc new_record
op_alloc-IsSized answer size p held h sized change =
    let r = resize size p in
    let (same, now) = resize-IsSized size p held h sized change in
    elim (Bool-cases (ltb 0 (length r.records))) [
      | inl pooled ↦ rw pooled (same, now)
      | inr empty ↦ elim (Bool-cases (answer == 0)) [
        | inl null ↦ rw (empty, null) (same, now)
        | inr some_record ↦
            rw (empty, some_record)
              (λ a. stored_size r.heap answer size r.size a (sym now) (same a), now)
      ]
    ]

-- What a thread begins with.
abbrev pub empty_pool : OpPool
empty_pool = record { records = []; size = 0; heap = λ _. none; faults = 0 }

abbrev pub with_new : ℕ → List ℕ → List ℕ
with_new a held = if a == 0 then held else a ∷ held

-- The states that calls with one size lead to, with the records that the callers have. `malloc` answers
-- with 0 or with what is no block; a caller gives back what it has.
pub data Reached (size : ℕ) : OpPool → List ℕ → Type 0 where
  start : Reached size empty_pool []
  allocated :
      (answer : ℕ) (p : OpPool) (held : List ℕ)
      → Reached size p held
      → (resize size p).heap answer ≡ none
      → Reached size (op_alloc answer size p).1 (with_new (op_alloc answer size p).0 held)
  freed :
      (op : ℕ) (p : OpPool) (before after : List ℕ)
      → Reached size p (before ++ (op ∷ after))
      → Reached size (op_free op p) (before ++ after)

handed-IsOwned :
    (a : ℕ) (held : List ℕ) (r : OpPool) → IsHanded a held r → IsOwned r (with_new a held)
handed-IsOwned a held r (inl (null, owned)) =
    subst (λ (b : ℕ). IsOwned r (with_new b held)) (sym null) owned
handed-IsOwned a held r (inr (some_record, fresh, owned)) = rw (not_null a some_record) owned
  where
    not_null : (a : ℕ) → a ≢ 0 → (a == 0) ≡ false
    not_null a h = ground arith

taken_out :
    (p : OpPool) (op : ℕ) (before after : List ℕ)
    → IsOwned p (before ++ (op ∷ after))
    → IsOwned p (op ∷ (before ++ after))
taken_out p op before after h = record {
  owned = λ a. omega (
    arith,
    h.owned a,
    occurrences-append a before (op ∷ after),
    occurrences-append a before after,
  );
  no_null = h.no_null;
  room = h.room;
  no_faults = h.no_faults;
}

some_held : (op : ℕ) (before after : List ℕ) → before ++ (op ∷ after) ≢ []
some_held op before after e = absurd (omega (arith, ap length e, length-append before (op ∷ after)))

-- The blocks are owned, and all of one size once there is one.
reached-IsOwned :
    (size : ℕ) (p : OpPool) (held : List ℕ)
    → Reached size p held
    → IsOwned p held × IsSized p × ((size ≡ p.size) ⊎ (held ≡ []))
reached-IsOwned size _ _ start = (
  record { owned = λ a. refl; no_null = refl; room = omega arith; no_faults = refl },
  (λ a. inl refl),
  inr refl,
)
reached-IsOwned size _ _ (allocated answer p held before fresh) =
    let (owned, sized, change) = reached-IsOwned size p held before in
    let (now, same) = op_alloc-IsSized answer size p held owned sized change in
    let r = op_alloc answer size p in
    (
      handed-IsOwned r.0 held r.1 (op_alloc-IsHanded answer size p held owned fresh),
      now,
      inl (sym same),
    )
reached-IsOwned size _ _ (freed op p before after reached) =
    let (owned, sized, change) = reached-IsOwned size p (before ++ (op ∷ after)) reached in
    let (now, same) = op_free-IsSized op p sized in
    (
      op_free-IsOwned op p (before ++ after) (taken_out p op before after owned),
      now,
      elim change [ inl e ↦ inl (e ∙ sym same) | inr e ↦ absurd (some_held op before after e) ],
    )

handed_size :
    (a size : ℕ) (held : List ℕ) (r : OpPool)
    → IsHanded a held r
    → IsSized r
    → r.size ≡ size
    → (a ≡ 0) ⊎ ((occurrences a held ≡ 0) × (r.heap a ≡ some size))
handed_size a size held r (inl (null, owned)) sized e = inl null
handed_size a size held r (inr (some_record, fresh, owned)) sized e = inr (
  fresh,
  elim (sized a) [
    | inl no_block ↦ absurd (omega (arith, owned.owned a, occurs_head a held, ap is_block no_block))
    | inr block ↦ block ∙ ap some e
  ],
)

-- Whatever calls with one size a thread made, in which every caller gives back only what it has: no call
-- of `free` was wrong, every block is in the pool or with one caller, the pool holds 256 at most, and the
-- next call gets 0 or a block of that size that no caller has.
pub reached-op_alloc :
    (size answer : ℕ) (p : OpPool) (held : List ℕ)
    → Reached size p held
    → (resize size p).heap answer ≡ none
    → IsOwned p held
      × (let (a, r) = op_alloc answer size p in
          (a ≡ 0) ⊎ ((occurrences a held ≡ 0) × (r.heap a ≡ some size)))
reached-op_alloc size answer p held reached fresh =
    let (owned, sized, change) = reached-IsOwned size p held reached in
    let (now, same) = op_alloc-IsSized answer size p held owned sized change in
    let r = op_alloc answer size p in
    (
      owned,
      handed_size r.0 size held r.1 (op_alloc-IsHanded answer size p held owned fresh) now same,
    )
