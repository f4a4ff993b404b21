-- ===== src/Decimal/Strings/Printing.antt =====
-- decimal.cpp: the number that the text of `kyte_decimal_to_string` denotes.
use native.Mathlib.Nat.{pow-suc, pow-zero, mul_assoc}
use kyte.Decimal.Strings.{is_digit, coeff_digits, digs, from_last, minus_sign}
use kyte.Decimal.Strings.Numeral.{
  belongs, is_numeral, next_value, next_count, numeral_value, digit_count, fraction_count,
}
use kyte.Decimal.Strings.Exponents.{all_digits}
use kyte.Prelude.{
  ℕ, zero, suc, ◌+◌, ◌-◌, ◌*◌, ◌/◌, ◌%◌, ◌^◌, ◌≤◌, ◌<◌, ◌≡◌, refl, sym, ap, ◌∙◌, subst, ◌⊎◌, inl,
  inr, Bool, true, false, ◌&&◌, ◌||◌, List, [], ◌∷◌, ◌++◌, arith, ◌==◌, if◌then◌else◌, ==_iff,
  Bool-cases, length, length-append, get_or, replicate,
}

first_digit :
    (c : ℕ) (cs : List ℕ)
    → all_digits (c ∷ cs) ≡ true
    → (is_digit c ≡ true) × (all_digits cs ≡ true)
first_digit c cs h = ground arith

-- What digits before a text add to it.
pub numeral_value-append :
    (v : ℕ) (ds t : List ℕ) → numeral_value v (ds ++ t) ≡ numeral_value (numeral_value v ds) t
numeral_value-append v [] t = refl
numeral_value-append v (d ∷ ds) t = numeral_value-append (next_value v d) ds t

pub digit_count-append :
    (n : ℕ) (ds t : List ℕ)
    → all_digits ds ≡ true
    → digit_count n (ds ++ t) ≡ digit_count (n + length ds) t
digit_count-append n [] t h = ap (λ (m : ℕ). digit_count m t) {x = n} {y = n + 0} (omega arith)
digit_count-append n (d ∷ ds) t h =
    let (digit, rest) = first_digit d ds h in
    ap (λ (m : ℕ). digit_count m (ds ++ t)) (counted n d digit)
    ∙ digit_count-append (n + 1) ds t rest
    ∙ ap (λ (m : ℕ). digit_count m t) {x = n + 1 + length ds} {y = n + suc (length ds)}
        (omega arith)
  where
    counted : (n d : ℕ) → is_digit d ≡ true → next_count n d ≡ n + 1
    counted n d h = rw h refl

no_point : (c : ℕ) (seen : Bool) → is_digit c ≡ true → (seen || (c == 46)) ≡ seen
no_point c true h = refl
no_point c false h = ground arith

digit_belongs : (c : ℕ) (seen : Bool) → is_digit c ≡ true → belongs seen c ≡ true
unfolding belongs
digit_belongs c seen h = ground arith

pub is_numeral-append :
    (seen : Bool) (ds t : List ℕ)
    → all_digits ds ≡ true
    → is_numeral seen (ds ++ t) ≡ is_numeral seen t
is_numeral-append seen [] t h = refl
is_numeral-append seen (d ∷ ds) t h =
    let (digit, rest) = first_digit d ds h in
    rw (digit_belongs d seen digit, no_point d seen digit) (is_numeral-append seen ds t rest)

pub before_point :
    (f : ℕ) (ds t : List ℕ)
    → all_digits ds ≡ true
    → fraction_count false f (ds ++ t) ≡ fraction_count false f t
before_point f [] t h = refl
before_point f (d ∷ ds) t h =
    let (digit, rest) = first_digit d ds h in
    ap (λ (b : Bool). fraction_count b f (ds ++ t)) (no_point d false digit)
    ∙ before_point f ds t rest

pub after_point :
    (f : ℕ) (ds : List ℕ) → all_digits ds ≡ true → fraction_count true f ds ≡ f + length ds
after_point f [] h = omega arith
after_point f (d ∷ ds) h =
    let (digit, rest) = first_digit d ds h in rw digit (omega (arith, after_point (f + 1) ds rest))

pub digits-append :
    (ds ts : List ℕ) → all_digits ds ≡ true → all_digits ts ≡ true → all_digits (ds ++ ts) ≡ true
digits-append [] ts h k = k
digits-append (d ∷ ds) ts h k = ground (arith, digits-append ds ts)

pub zeros-digits : (k : ℕ) → all_digits (replicate k 48) ≡ true
zeros-digits zero = refl
zeros-digits (suc k) = zeros-digits k

pub value-zeros : (v k : ℕ) → numeral_value v (replicate k 48) ≡ v * 10 ^ k
value-zeros v zero = rw (pow-zero 10) (omega arith)
value-zeros v (suc k) =
    value-zeros (v * 10 + 0) k
    ∙ ap (λ (m : ℕ). m * 10 ^ k) {x = v * 10 + 0} {y = v * 10} (omega arith)
    ∙ mul_assoc v 10 (10 ^ k)
    ∙ ap (λ (m : ℕ). v * m) (omega (arith, pow-suc 10 k))

-- The digits of a coefficient.
low_first : List ℕ → ℕ
low_first [] = 0
low_first (d ∷ ds) = low_first ds * 10 + (d - 48)

pub from_last-digits : (ds : List ℕ) → all_digits ds ≡ true → all_digits (from_last ds) ≡ true
unfolding from_last
from_last-digits [] h = refl
from_last-digits (d ∷ ds) h =
    let (digit, rest) = first_digit d ds h in
    digits-append (from_last ds) (d ∷ []) (from_last-digits ds rest) (ground arith)

pub length-from_last : (ds : List ℕ) → length (from_last ds) ≡ length ds
unfolding from_last
length-from_last [] = refl
length-from_last (d ∷ ds) =
    omega (arith, length-append (from_last ds) (d ∷ []), length-from_last ds)

from_last-value :
    (ds : List ℕ) → all_digits ds ≡ true → numeral_value 0 (from_last ds) ≡ low_first ds
unfolding from_last low_first
from_last-value [] h = refl
from_last-value (d ∷ ds) h =
    let (digit, rest) = first_digit d ds h in
    numeral_value-append 0 (from_last ds) (d ∷ [])
    ∙ rw digit (ap (λ (v : ℕ). v * 10 + (d - 48)) (from_last-value ds rest))

coeff_digits-value :
    (fuel c : ℕ)
    → c < 10 ^ fuel
    → (low_first (coeff_digits fuel c) ≡ c) × (all_digits (coeff_digits fuel c) ≡ true)
unfolding coeff_digits low_first
coeff_digits-value zero c h = (omega arith, refl)
coeff_digits-value (suc fuel) c h =
    let (value, digits) = coeff_digits-value fuel (c / 10) (omega (arith, pow-suc 10 fuel)) in
    ground arith

digs_zero : digs 0 ≡ 48 ∷ []
unfolding digs
digs_zero = refl

digs_some : (c : ℕ) → (c == 0) ≡ false → digs c ≡ coeff_digits 40 c
unfolding digs
digs_some c h = rw h refl

-- The digits of `c` denote `c`.
abbrev Denotes : ℕ → List ℕ → Type 0
Denotes c ds = (numeral_value 0 (from_last ds) ≡ c) × (all_digits (from_last ds) ≡ true)

zero-Denotes : Denotes 0 (48 ∷ [])
unfolding from_last
zero-Denotes = (refl, refl)

pub digs-value : (c : ℕ) → c < 10 ^ 34 → Denotes c (digs c)
digs-value c h = elim (Bool-cases (c == 0)) [
  | inl zero_c ↦
      subst (λ (n : ℕ). Denotes n (digs n)) (sym ((==_iff c 0).0 zero_c))
        (subst (Denotes 0) (sym digs_zero) zero-Denotes)
  | inr some_c ↦
      let (value, digits) = coeff_digits-value 40 c (omega arith) in
      subst (Denotes c) (sym (digs_some c some_c)) (
        from_last-value (coeff_digits 40 c) digits ∙ value,
        from_last-digits (coeff_digits 40 c) digits,
      )
]

-- A number below a power of ten has no more digits than that.
length-coeff_digits : (fuel c k : ℕ) → c < 10 ^ k → length (coeff_digits fuel c) ≤ k
unfolding coeff_digits
length-coeff_digits zero c k h = omega arith
length-coeff_digits (suc fuel) c zero h = ground arith
length-coeff_digits (suc fuel) c (suc k) h =
    ground (arith, length-coeff_digits fuel (c / 10) k (omega (arith, pow-suc 10 k)))

some_digit : (fuel c : ℕ) → (c == 0) ≡ false → 1 ≤ length (coeff_digits (suc fuel) c)
unfolding coeff_digits
some_digit fuel c h = ground arith

pub length-digs : (c : ℕ) → c < 10 ^ 34 → (1 ≤ length (digs c)) × (length (digs c) ≤ 34)
length-digs c h = elim (Bool-cases (c == 0)) [
  | inl zero_c ↦
      let one = ap length (ap digs ((==_iff c 0).0 zero_c) ∙ digs_zero) in
      (omega arith, omega arith)
  | inr some_c ↦
      let same = ap length (digs_some c some_c) in
      (omega (arith, some_digit 39 c some_c), omega (arith, length-coeff_digits 40 c 34 h))
]

coeff_digits_cons :
    (fuel c : ℕ)
    → (c == 0) ≡ false
    → coeff_digits (suc fuel) c ≡ (48 + c % 10) ∷ coeff_digits fuel (c / 10)
unfolding coeff_digits
coeff_digits_cons fuel c h = ground arith

-- Only the digits of zero are a single `0`.
abbrev zero_text : List ℕ → Bool
zero_text ds = length ds == 1 && get_or ds 0 0 == 48

single_zero : (c : ℕ) → (c == 0) ≡ false → zero_text (digs c) ≡ false
single_zero c h =
    ap zero_text (digs_some c h ∙ coeff_digits_cons 39 c h) ∙ elim (Bool-cases (c / 10 == 0)) [
      | inl last ↦ other_digit (coeff_digits 39 (c / 10)) c h last
      | inr more ↦ longer (coeff_digits 39 (c / 10)) c (some_digit 38 (c / 10) more)
    ]
  where
    other_digit :
        (rest : List ℕ) (c : ℕ)
        → (c == 0) ≡ false
        → (c / 10 == 0) ≡ true
        → zero_text ((48 + c % 10) ∷ rest) ≡ false
    other_digit rest c h last = ground arith

    longer : (rest : List ℕ) (c : ℕ) → 1 ≤ length rest → zero_text ((48 + c % 10) ∷ rest) ≡ false
    longer rest c h = ground arith

pub minus_sign-digs :
    (sign : Bool) (c : ℕ)
    → (sign ≡ false) ⊎ (0 < c)
    → minus_sign sign (digs c) ≡ (if sign then 45 ∷ [] else [])
unfolding minus_sign
minus_sign-digs false c h = refl
minus_sign-digs true c (inl h) = ground arith
minus_sign-digs true c (inr h) = rw (single_zero c (ground arith)) refl
