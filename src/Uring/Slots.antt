-- ===== src/Uring/Slots.antt =====
-- Positions of a ring of uring.cpp that wrap at 2^32, and the slots of a queue.
use kyte.Prelude.{
  ℕ, ◌+◌, ◌*◌, ◌/◌, ◌%◌, ◌≤◌, ◌<◌, ◌≡◌, sym, ◌∙◌, ◌≢◌, inl, inr, false, some, List, [], ◌∷◌, ◌++◌,
  arith, ltb, ◌==◌, ltb→lt, ==_iff, Bool-cases, length, length-append, get_elem?, drop,
}
use native.Mathlib.Nat.{mod-mod_of_dvd, dvd_of_mod-eq-zero, div-add-mod}
use mathlib.Core.Option.{some-injective}
use kyte.Prelude.{
  length-drop, get_elem?-drop, get_elem?-lt, get_elem?-append_left, get_elem?-append_last,
}
use kyte.Uring.{u32, sub32, write}

-- A number of entries, as the kernel makes it.
pub record IsEntries (n : ℕ) : Type 0 where
  pub positive : 0 < n
  pub divides : u32 % n ≡ 0

-- The queue `q` stands in the slots from the position `start` on, each at its position modulo the
-- number of entries.
pub record Holds {ℓ} {A : Type ℓ} (n : ℕ) (slots : ℕ → A) (start : ℕ) (q : List A) : Type ℓ where
  pub room : length q ≤ n
  pub at : (j : ℕ) (x : A) → get_elem? q j ≡ some x → slots ((start + j) % n) ≡ x

pub index_wrap : (n p : ℕ) → IsEntries n → p % u32 % n ≡ p % n
index_wrap n p h = mod-mod_of_dvd n p (dvd_of_mod-eq-zero n h.divides)

-- The distance of two positions survives the wrap.
pub sub32-distance : (start k : ℕ) → k < u32 → sub32 ((start + k) % u32) (start % u32) ≡ k
unfolding sub32
sub32-distance start k h = omega arith

rounds_apart : (n p q r : ℕ) → n * p + r < n * q + r → n * p + n ≤ n * q
rounds_apart n p q r lt = elim (Bool-cases (ltb p q)) [
  | inl less ↦ let h = ltb→lt p q less in grind arith
  | inr not_less ↦ let h = not_lt p q not_less in absurd (no_less n p q r h lt)
]
  where
    not_lt : (p q : ℕ) → ltb p q ≡ false → q ≤ p
    not_lt p q e = ground arith

    no_less : (n p q r : ℕ) → q ≤ p → ¬ (n * p + r < n * q + r)
    no_less n p q r h lt = grind arith

-- Two positions less than a round apart have different slots.
pub slots_differ : (n a b : ℕ) → 0 < n → a < b → b < a + n → a % n ≢ b % n
slots_differ n a b pos_n lt near same =
    let low = div-add-mod a n in
    let high = div-add-mod b n in
    let gap = rounds_apart n (a / n) (b / n) (b % n) (omega arith) in omega arith

module _ {ℓ} {A : Type ℓ} where
  write-same : (f : ℕ → A) (i : ℕ) (v : A) → write f i v i ≡ v
  write-same f i v = ground arith

  write-other : (f : ℕ → A) (i j : ℕ) (v : A) → j ≢ i → write f i v j ≡ f j
  write-other f i j v ne = ground arith

  -- A write at the end position appends.
  pub Holds-push :
      (n start : ℕ) (slots : ℕ → A) (q : List A) (v : A)
      → 0 < n
      → length q < n
      → Holds n slots start q
      → Holds n (write slots ((start + length q) % n) v) start (q ++ (v ∷ []))
  Holds-push n start slots q v pos_n room h = record {
    room = omega (arith, length-append q (v ∷ []));
    at = λ j x e. elim (Bool-cases (j == length q)) [
      | inl last ↦
          let same = (==_iff j (length q)).0 last in
          let value = some-injective v x (sym (get_elem?-append_last q v) ∙ rw same at e) in
          rw (same, write-same slots ((start + length q) % n) v) value
      | inr inner ↦
          let lt = below j (get_elem?-lt (q ++ (v ∷ [])) j x e) inner in
          let ne =
            slots_differ n (start + j) (start + length q) pos_n (omega arith) (omega arith) in
          write-other slots _ _ v ne ∙ h.at j x (sym (get_elem?-append_left q (v ∷ []) j lt) ∙ e)
    ];
  }
    where
      below : (j : ℕ) → j < length (q ++ (v ∷ [])) → (j == length q) ≡ false → j < length q
      below j lt ne = ground (arith, length-append q (v ∷ []))

  -- The front is dropped by moving the start.
  pub Holds-drop :
      (n start k : ℕ) (slots : ℕ → A) (q : List A)
      → Holds n slots start q
      → Holds n slots (start + k) (drop k q)
  Holds-drop n start k slots q h = record {
    room = omega (arith, length-drop k q, h.room);
    at = λ j x e. rw (shift start k j) (h.at (k + j) x (get_elem?-drop k q j ∙ e));
  }
    where
      shift : (a b c : ℕ) → a + b + c ≡ a + (b + c)
      shift a b c = omega arith
