-- ===== src/OpPool/Handing.antt =====
-- core.cpp: what `kyte_op_alloc` hands out and `kyte_op_free` takes back.
use kyte.OpPool.{OpPool, op_pool_max, store, resize, new_record, op_alloc, op_free}
use kyte.OpPool.Owners.{
  occurrences, is_block, IsOwned, occurrences-append, a_block, std_free_block, freed_once,
  still_null, occurs_head, resize-IsOwned,
}
use kyte.Prelude.{
  ℕ, zero, suc, ◌+◌, ◌-◌, ◌≤◌, ◌≡◌, refl, sym, ap, ◌∙◌, subst, ◌≢◌, ◌⊎◌, inl, inr, Bool, false,
  Option, none, some, List, [], ◌∷◌, ◌++◌, arith, ltb, ◌==◌, if◌then◌else◌, ltb→lt, ==_iff,
  Bool-cases, length, length-append, length-take, get_or, take,
}

-- Nothing was handed out, or a record that no caller has.
abbrev pub IsHanded : ℕ → List ℕ → OpPool → Type 0
IsHanded a held r =
    ((a ≡ 0) × IsOwned r held) ⊎ ((a ≢ 0) × (occurrences a held ≡ 0) × IsOwned r (a ∷ held))

last_apart : (n : ℕ) (xs : List ℕ) → length xs ≡ suc n → take n xs ++ (get_or xs n 0 ∷ []) ≡ xs
last_apart n [] e = absurd (omega arith)
last_apart zero (x ∷ []) e = refl
last_apart zero (x ∷ y ∷ ys) e = absurd (omega arith)
last_apart (suc n) (x ∷ xs) e = ap (λ (t : List ℕ). x ∷ t) (last_apart n xs (omega arith))

no_more : (o : Option ℕ) → is_block o ≤ 1
no_more none = omega arith
no_more (some n) = omega arith

pop-IsHanded :
    (r : OpPool) (held : List ℕ) (n : ℕ)
    → length r.records ≡ suc n
    → IsOwned r held
    → IsHanded (get_or r.records n 0) held (record r { records = take n r.records })
pop-IsHanded r held n e h =
    let a = get_or r.records n 0 in
    let split = λ (b : ℕ).
      ap (occurrences b) (sym (last_apart n r.records e))
      ∙ occurrences-append b (take n r.records) (a ∷ []) in
    let once = itself a in
    inr (
      λ null. absurd (omega (arith, h.owned a, ap is_block (ap r.heap null ∙ h.no_null), split a)),
      omega (arith, h.owned a, split a, no_more (r.heap a)),
      record {
        owned = λ b. omega (arith, h.owned b, split b);
        no_null = h.no_null;
        room = omega (arith, h.room, length-take n r.records);
        no_faults = h.no_faults;
      },
    )
  where
    one : Bool → ℕ
    one b = if b then 1 else 0

    itself : (a : ℕ) → one (a == a) ≡ 1
    itself a = ap one ((==_iff a a).1 refl)

-- A block that is added was not there.
added :
    (heap : ℕ → Option ℕ) (r n a x y : ℕ)
    → heap r ≡ none
    → x + y ≡ is_block (heap a)
    → x + ((if a == r then 1 else 0) + y) ≡ is_block (store heap r (some n) a)
added heap r n a x y fresh owned = elim (Bool-cases (a == r)) [
  | inl same ↦
      let zero_there = ap is_block (ap heap ((==_iff a r).0 same) ∙ fresh) in rw same (ground arith)
  | inr other ↦ rw other (ground arith)
]

elsewhere :
    (heap : ℕ → Option ℕ) (r : ℕ) (v : Option ℕ) → (r == 0) ≡ false → store heap r v 0 ≡ heap 0
elsewhere heap r v h = rw (flipped r h) refl
  where
    flipped : (r : ℕ) → (r == 0) ≡ false → (0 == r) ≡ false
    flipped r h = ground arith

new-IsHanded :
    (answer size : ℕ) (r : OpPool) (held : List ℕ)
    → IsOwned r held
    → r.heap answer ≡ none
    → let (a, q) = new_record answer size r in IsHanded a held q
unfolding new_record
new-IsHanded answer size r held h fresh = elim (Bool-cases (answer == 0)) [
  | inl null ↦ rw null (inl (refl, h))
  | inr some_record ↦ rw some_record (
      inr (
        λ null. absurd (ground arith),
        omega (arith, h.owned answer, ap is_block fresh),
        record {
          owned = λ b.
              added r.heap answer size b (occurrences b r.records) (occurrences b held) fresh
                (h.owned b);
          no_null = elsewhere r.heap answer (some size) some_record ∙ h.no_null;
          room = h.room;
          no_faults = h.no_faults;
        },
      ))
]

pub op_alloc-IsHanded :
    (answer size : ℕ) (p : OpPool) (held : List ℕ)
    → IsOwned p held
    → (resize size p).heap answer ≡ none
    → let (a, q) = op_alloc answer size p in IsHanded a held q
unfolding op_alloc
op_alloc-IsHanded answer size p held h fresh =
    let r = resize size p in
    let owned = resize-IsOwned size p held h in
    elim (Bool-cases (ltb 0 (length r.records))) [
      | inl pooled ↦ rw pooled (pop-IsHanded r held (length r.records - 1) (ground arith) owned)
      | inr empty ↦ rw empty (new-IsHanded answer size r held owned fresh)
    ]

-- A caller gives back one of its records: it is kept or freed, and no caller has it any more.
pub op_free-IsOwned :
    (op : ℕ) (p : OpPool) (held : List ℕ) → IsOwned p (op ∷ held) → IsOwned (op_free op p) held
unfolding op_free
op_free-IsOwned op p held h =
    let there : 1 ≤ is_block (p.heap op) = omega (arith, h.owned op, occurs_head op held) in
    let (n, block) = a_block (p.heap op) there in
    elim (Bool-cases (op == 0)) [
      | inl null ↦
          absurd (omega (arith, there, ap is_block (ap p.heap ((==_iff op 0).0 null) ∙ h.no_null)))
      | inr some_record ↦ elim (Bool-cases (ltb (length p.records) op_pool_max)) [
        | inl space ↦
            let lt = ltb→lt (length p.records) op_pool_max space in
            rw (some_record, space)
              (record {
                owned = λ a. omega (arith, h.owned a, occurrences-append a p.records (op ∷ []));
                no_null = h.no_null;
                room = omega (arith, length-append p.records (op ∷ []));
                no_faults = h.no_faults;
              })
        | inr full ↦
            rw (some_record, full)
              (subst (λ (q : OpPool). IsOwned q held) (sym (std_free_block op n p block))
                (record {
                  owned = λ a.
                      freed_once p.heap op n a (occurrences a p.records) (occurrences a held) block
                        (omega (arith, h.owned a));
                  no_null = still_null p.heap op h.no_null;
                  room = h.room;
                  no_faults = h.no_faults;
                }))
      ]
    ]
