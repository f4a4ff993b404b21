-- ===== src/Decimal/Strings/Placing.antt =====
-- decimal.cpp: where `kyte_decimal_to_string` puts the point and the zeros.
use kyte.Decimal.Strings.{with_point, placed}
use kyte.Decimal.Strings.Numeral.{belongs, is_numeral, numeral_value, digit_count, fraction_count}
use kyte.Decimal.Strings.Exponents.{all_digits}
use kyte.Decimal.Strings.Printing.{
  numeral_value-append, digit_count-append, is_numeral-append, before_point, after_point,
  zeros-digits, digits-append, value-zeros,
}
use kyte.Prelude.{
  ℕ, zero, suc, ◌+◌, ◌-◌, ◌*◌, ◌^◌, ◌≤◌, ◌<◌, ◌≡◌, refl, sym, ap, ◌∙◌, inl, inr, Bool, true, false,
  ◌&&◌, List, [], ◌∷◌, ◌++◌, append-nil, arith, leb, ◌==◌, if◌then◌else◌, leb→le, Bool-cases, ℤ,
  pos, negsuc, pos_part, neg_part, length, length-append, length-take, length-drop,
  length-replicate, take-append-drop, take, drop, replicate,
}

-- The loop with a point puts it after `point` digits if more follow.
after_the_point :
    (emitted point : ℕ) (ds : List ℕ) → point ≤ emitted → with_point emitted point ds ≡ ds
unfolding with_point
after_the_point emitted point [] h = refl
after_the_point emitted point (d ∷ ds) h =
    rw (passed emitted point h, after_the_point (emitted + 1) point ds (omega arith)) refl
  where
    passed : (e p : ℕ) → p ≤ e → (e + 1 == p) ≡ false
    passed e p h = ground arith

with_point-split :
    (emitted point k : ℕ) (ds : List ℕ)
    → point ≡ emitted + suc k
    → suc k < length ds
    → with_point emitted point ds ≡ take (suc k) ds ++ (46 ∷ drop (suc k) ds)
unfolding with_point
with_point-split emitted point k [] e h = absurd (omega arith)
with_point-split emitted point k (d ∷ []) e h = absurd (omega arith)
with_point-split emitted point zero (d ∷ c ∷ ds) e h =
    rw (here emitted point e)
      (ap (λ (t : List ℕ). d ∷ 46 ∷ t) (after_the_point (emitted + 1) point (c ∷ ds) (omega arith)))
  where
    here : (m p : ℕ) → p ≡ m + 1 → (m + 1 == p) ≡ true
    here m p e = ground arith
with_point-split emitted point (suc k) (d ∷ c ∷ ds) e h = rw (before emitted point k e) (
    ap (λ (t : List ℕ). d ∷ t)
      (with_point-split (emitted + 1) point k (c ∷ ds) (omega arith) (omega arith)))
  where
    before : (m p k : ℕ) → p ≡ m + suc (suc k) → (m + 1 == p) ≡ false
    before m p k e = ground arith

-- What a text without sign and exponent denotes.
pub record IsText (t : List ℕ) (v f n : ℕ) : Type 0 where
  pub numeral : is_numeral false t ≡ true
  pub value : numeral_value 0 t ≡ v
  pub fraction : fraction_count false 0 t ≡ f
  pub count : digit_count 0 t ≡ n

digits_numeral : (seen : Bool) (ds : List ℕ) → all_digits ds ≡ true → is_numeral seen ds ≡ true
digits_numeral seen ds h =
    ap (is_numeral seen) (sym (append-nil ds)) ∙ is_numeral-append seen ds [] h

digits_count : (n : ℕ) (ds : List ℕ) → all_digits ds ≡ true → digit_count n ds ≡ n + length ds
digits_count n ds h = ap (digit_count n) (sym (append-nil ds)) ∙ digit_count-append n ds [] h

no_fraction : (ds : List ℕ) → all_digits ds ≡ true → fraction_count false 0 ds ≡ 0
no_fraction ds h = ap (fraction_count false 0) (sym (append-nil ds)) ∙ before_point 0 ds [] h

point_belongs : belongs false 46 ≡ true
unfolding belongs
point_belongs = refl

-- Digits, a point, and digits.
pointed-IsText :
    (a b : List ℕ) (v : ℕ)
    → all_digits a ≡ true
    → all_digits b ≡ true
    → numeral_value 0 (a ++ b) ≡ v
    → IsText (a ++ (46 ∷ b)) v (length b) (length a + length b)
pointed-IsText a b v ha hb e = record {
  numeral =
      is_numeral-append false a (46 ∷ b) ha
      ∙ ap (λ (s : Bool). s && is_numeral true b) point_belongs
      ∙ digits_numeral true b hb;
  value = numeral_value-append 0 a (46 ∷ b) ∙ sym (numeral_value-append 0 a b) ∙ e;
  fraction = before_point 0 a (46 ∷ b) ha ∙ after_point 0 b hb ∙ omega arith;
  count = digit_count-append 0 a (46 ∷ b) ha ∙ digits_count (0 + length a) b hb ∙ omega arith;
}

-- How many digits are written for `nd` digits and an exponent.
abbrev pub count_of : ℕ → ℤ → ℕ
count_of nd (pos e) = nd + e
count_of nd (negsuc e) = if leb nd (e + 1) then e + 2 else nd

all_digits-parts :
    (k : ℕ) (ds : List ℕ)
    → all_digits ds ≡ true
    → (all_digits (take k ds) ≡ true) × (all_digits (drop k ds) ≡ true)
all_digits-parts zero ds h = (refl, h)
all_digits-parts (suc k) [] h = (refl, refl)
all_digits-parts (suc k) (d ∷ ds) h =
    let (front, back) = all_digits-parts k ds (ground arith) in (ground arith, back)

retext :
    (t u : List ℕ) (v w f g n m : ℕ)
    → IsText t v f n
    → t ≡ u
    → v ≡ w
    → f ≡ g
    → n ≡ m
    → IsText u w g m
retext t u v w f g n m h et ev ef en = record {
  numeral = rw (sym et) h.numeral;
  value = rw (sym et) h.value ∙ ev;
  fraction = rw (sym et) h.fraction ∙ ef;
  count = rw (sym et) h.count ∙ en;
}

small-IsText :
    (e c : ℕ) (ds : List ℕ)
    → all_digits ds ≡ true
    → numeral_value 0 ds ≡ c
    → length ds ≤ e + 1
    → IsText (48 ∷ 46 ∷ (replicate (e + 1 - length ds) 48 ++ ds)) c (e + 1) (e + 2)
small-IsText e c ds h value le =
    let z = e + 1 - length ds in
    let b = replicate z 48 ++ ds in
    let total : length b ≡ e + 1 =
      omega (arith, length-append (replicate z 48) ds, length-replicate {A = ℕ} z 48) in
    retext _ _ c c (length b) (e + 1) (1 + length b) (e + 2)
      (pointed-IsText (48 ∷ []) b c refl (digits-append (replicate z 48) ds (zeros-digits z) h) (
        numeral_value-append 0 (replicate z 48) ds
        ∙ ap (λ (v : ℕ). numeral_value v ds) (value-zeros 0 z ∙ nought (10 ^ z))
        ∙ value))
      refl refl total (omega arith)
  where
    nought : (p : ℕ) → 0 * p ≡ 0
    nought p = omega arith

large-IsText :
    (e c : ℕ) (ds : List ℕ)
    → all_digits ds ≡ true
    → numeral_value 0 ds ≡ c
    → e + 1 < length ds
    → IsText (with_point 0 (length ds - (e + 1)) ds) c (e + 1) (length ds)
large-IsText e c ds h value lt =
    let k = length ds - (e + 1) - 1 in
    let p = length ds - (e + 1) in
    let (front, back) = all_digits-parts (suc k) ds h in
    let before = length-take (suc k) ds in
    let behind = length-drop (suc k) ds in
    retext _ _ c c (length (drop (suc k) ds)) (e + 1)
      (length (take (suc k) ds) + length (drop (suc k) ds)) (length ds)
      (pointed-IsText (take (suc k) ds) (drop (suc k) ds) c front back
        (ap (numeral_value 0) (take-append-drop (suc k) ds) ∙ value))
      (sym (with_point-split 0 p k ds (omega arith) (omega arith))) refl (omega arith) (omega arith)

pub placed-IsText :
    (ds : List ℕ) (e : ℤ) (c : ℕ)
    → all_digits ds ≡ true
    → numeral_value 0 ds ≡ c
    → IsText (placed ds e) (c * 10 ^ pos_part e) (neg_part e) (count_of (length ds) e)
unfolding placed
placed-IsText ds (pos e) c h value =
    let text = ds ++ replicate e 48 in
    let digits = digits-append ds (replicate e 48) h (zeros-digits e) in
    record {
      numeral = digits_numeral false text digits;
      value =
          numeral_value-append 0 ds (replicate e 48)
          ∙ value-zeros (numeral_value 0 ds) e
          ∙ ap (λ (v : ℕ). v * 10 ^ e) value;
      fraction = no_fraction text digits;
      count =
          digits_count 0 text digits
          ∙ omega (arith, length-append ds (replicate e 48), length-replicate {A = ℕ} e 48);
    }
placed-IsText ds (negsuc e) c h value = elim (Bool-cases (leb (length ds) (e + 1))) [
  | inl small ↦ rw small (
      retext _ _ c (c * 1) (e + 1) (suc e) (e + 2) (e + 2)
        (small-IsText e c ds h value (leb→le (length ds) (e + 1) small)) refl (omega arith)
        (omega arith) refl)
  | inr large ↦ rw large (
      retext _ _ c (c * 1) (e + 1) (suc e) (length ds) (length ds)
        (large-IsText e c ds h value (ground arith)) refl (omega arith) (omega arith) refl)
]
