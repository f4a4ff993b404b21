-- ===== src/OpPool/Owners.antt =====
-- core.cpp: each record is in the pool, or one caller has it.
use kyte.OpPool.{OpPool, op_pool_max, store, free_known, std_free, free_all, resize}
use kyte.Prelude.{
  ℕ, ◌+◌, ◌≤◌, ◌≡◌, refl, sym, ap, ◌∙◌, subst, ◌⊎◌, inl, inr, false, Option, none, some, List, [],
  ◌∷◌, ◌++◌, arith, ◌==◌, if◌then◌else◌, ==_iff, Bool-cases, length,
}

abbrev pub occurrences : ℕ → List ℕ → ℕ
occurrences a [] = 0
occurrences a (b ∷ bs) = (if a == b then 1 else 0) + occurrences a bs

abbrev pub is_block : Option ℕ → ℕ
is_block none = 0
is_block (some n) = 1

-- Every block is in the pool or with a caller, once, and nothing else is; no call of `free` failed.
pub record IsOwned (p : OpPool) (held : List ℕ) : Type 0 where
  pub owned : (a : ℕ) → occurrences a p.records + occurrences a held ≡ is_block (p.heap a)
  pub no_null : p.heap 0 ≡ none
  pub room : length p.records ≤ op_pool_max
  pub no_faults : p.faults ≡ 0

-- Every block has the size of the pool.
abbrev pub IsSized : OpPool → Type 0
IsSized p = (a : ℕ) → (p.heap a ≡ none) ⊎ (p.heap a ≡ some p.size)

pub occurrences-append :
    (a : ℕ) (xs ys : List ℕ) → occurrences a (xs ++ ys) ≡ occurrences a xs + occurrences a ys
occurrences-append a [] ys = omega arith
occurrences-append a (x ∷ xs) ys = omega (arith, occurrences-append a xs ys)

pub occurs_head : (a : ℕ) (xs : List ℕ) → 1 ≤ occurrences a (a ∷ xs)
occurs_head a xs = ground arith

pub a_block : (o : Option ℕ) → 1 ≤ is_block o → (n : ℕ) × (o ≡ some n)
a_block none h = absurd (omega arith)
a_block (some n) h = (n, refl)

-- `free` of a block.
pub std_free_block :
    (a n : ℕ) (p : OpPool)
    → p.heap a ≡ some n
    → std_free a p ≡ record p { heap = store p.heap a none }
std_free_block a n p e = ap (λ (o : Option ℕ). free_known o a p) e

pub stored_block :
    (heap : ℕ → Option ℕ) (a b : ℕ) (v : Option ℕ)
    → is_block (store heap a v b) ≡ (if b == a then is_block v else is_block (heap b))
stored_block heap a b v = elim (Bool-cases (b == a)) [
  | inl same ↦ rw same refl
  | inr other ↦ rw other refl
]

pub stored_none :
    (heap : ℕ → Option ℕ) (a b : ℕ) → (store heap a none b ≡ none) ⊎ (store heap a none b ≡ heap b)
stored_none heap a b = elim (Bool-cases (b == a)) [
  | inl same ↦ inl (rw same refl)
  | inr other ↦ inr (rw other refl)
]

pub still_null : (heap : ℕ → Option ℕ) (r : ℕ) → heap 0 ≡ none → store heap r none 0 ≡ none
still_null heap r h = elim (stored_none heap r 0) [ inl e ↦ e | inr e ↦ e ∙ h ]

-- A block that is freed was there once.
pub freed_once :
    (heap : ℕ → Option ℕ) (r n a x y : ℕ)
    → heap r ≡ some n
    → (if a == r then 1 else 0) + x + y ≡ is_block (heap a)
    → x + y ≡ is_block (store heap r none a)
freed_once heap r n a x y block owned = elim (Bool-cases (a == r)) [
  | inl same ↦
      let one = ap is_block (ap heap ((==_iff a r).0 same) ∙ block) in rw same (ground arith)
  | inr other ↦ rw other (ground arith)
]

-- What is left when the records of the loop are freed.
pub record IsFreed (p r : OpPool) (held : List ℕ) : Type 0 where
  pub left : (a : ℕ) → occurrences a held ≡ is_block (r.heap a)
  pub null : r.heap 0 ≡ none
  pub sound : r.faults ≡ 0
  pub shrunk : (a : ℕ) → (r.heap a ≡ none) ⊎ (r.heap a ≡ p.heap a)

free_all-IsFreed :
    (rs held : List ℕ) (p : OpPool)
    → ((a : ℕ) → occurrences a rs + occurrences a held ≡ is_block (p.heap a))
    → p.heap 0 ≡ none
    → p.faults ≡ 0
    → IsFreed p (free_all rs p) held
unfolding free_all
free_all-IsFreed [] held p owned null sound = record {
  left = λ a. omega (arith, owned a);
  null = null;
  sound = sound;
  shrunk = λ a. inr refl;
}
free_all-IsFreed (r ∷ rs) held p owned null sound =
    let (n, block) = a_block (p.heap r) (omega (arith, owned r, occurs_head r rs)) in
    let q = record p { heap = store p.heap r none } in
    let rest =
      free_all-IsFreed rs held q
        (λ a. freed_once p.heap r n a (occurrences a rs) (occurrences a held) block (owned a))
        (still_null p.heap r null) sound in
    subst (λ (x : OpPool). IsFreed p (free_all rs x) held) (sym (std_free_block r n p block))
      (record {
        left = rest.left;
        null = rest.null;
        sound = rest.sound;
        shrunk = λ a. smaller (rest.shrunk a) (stored_none p.heap r a);
      })
  where
    smaller :
        {o s h : Option ℕ} → (o ≡ none) ⊎ (o ≡ s) → (s ≡ none) ⊎ (s ≡ h) → (o ≡ none) ⊎ (o ≡ h)
    smaller (inl e) k = inl e
    smaller (inr e) (inl k) = inl (e ∙ k)
    smaller (inr e) (inr k) = inr (e ∙ k)

-- After `resize` the pool is as before, or empty with the new size.
pub resize-IsOwned :
    (size : ℕ) (p : OpPool) (held : List ℕ) → IsOwned p held → IsOwned (resize size p) held
unfolding resize
resize-IsOwned size p held h = elim (Bool-cases (size == p.size)) [
  | inl same ↦ rw same h
  | inr other ↦
      let freed = free_all-IsFreed p.records held p h.owned h.no_null h.no_faults in
      rw other (record {
        owned = λ a. omega (arith, freed.left a);
        no_null = freed.null;
        room = omega arith;
        no_faults = freed.sound;
      })
]

nothing_held :
    (p : OpPool) (size : ℕ)
    → ((a : ℕ) → 0 ≡ is_block (p.heap a))
    → (a : ℕ) → (p.heap a ≡ none) ⊎ (p.heap a ≡ some size)
nothing_held p size h a = inl (empty (p.heap a) (h a))
  where
    empty : (o : Option ℕ) → 0 ≡ is_block o → o ≡ none
    empty none e = refl
    empty (some n) e = absurd (omega arith)

-- The sizes agree afterwards if they agreed, or if no caller has a record.
pub resize-IsSized :
    (size : ℕ) (p : OpPool) (held : List ℕ)
    → IsOwned p held
    → IsSized p
    → (size ≡ p.size) ⊎ (held ≡ [])
    → IsSized (resize size p) × ((resize size p).size ≡ size)
unfolding resize
resize-IsSized size p held h sized change = elim (Bool-cases (size == p.size)) [
  | inl same ↦ rw same (sized, sym ((==_iff size p.size).0 same))
  | inr other ↦
      let freed = free_all-IsFreed p.records held p h.owned h.no_null h.no_faults in
      rw other (
        nothing_held (free_all p.records p) size
            (λ a. none_held held change other a ∙ freed.left a),
        refl,
      )
]
  where
    none_held :
        (held : List ℕ)
        → (size ≡ p.size) ⊎ (held ≡ [])
        → (size == p.size) ≡ false
        → (a : ℕ) → 0 ≡ occurrences a held
    none_held held (inl e) other a = absurd (ground arith)
    none_held held (inr e) other a = ap (occurrences a) (sym e)
