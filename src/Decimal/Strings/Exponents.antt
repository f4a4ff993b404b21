-- ===== src/Decimal/Strings/Exponents.antt =====
-- decimal.cpp: the exponent of a text, and the `int`s that it is added to.
use kyte.Decimal.Word.{bias, pack}
use kyte.Decimal.Strings.{
  is_digit, parse_sign, int_max, exponent_digits, int_sum, signed_exponent, add_exponent, pack_int,
}
use kyte.Decimal.Strings.Numeral.{next_value, numeral_value}
use kyte.Prelude.{
  ℕ, ◌+◌, ◌-◌, ◌*◌, ◌^◌, ◌≤◌, ◌≡◌, refl, ap, subst, Bool, true, false, ◌&&◌, ◌||◌, Option, none,
  some, List, [], ◌∷◌, arith, ltb, if◌then◌else◌, ℤ, pos, negsuc, ltb_ℤ, ◌+ℤ◌, ◌-ℤ◌, ◌≤ℤ◌, int_laws,
}

abbrev pub all_digits : List ℕ → Bool
all_digits [] = true
all_digits (c ∷ cs) = is_digit c && all_digits cs

abbrev pub with_sign : Bool → List ℕ → List ℕ
with_sign negative cs = if negative then 45 ∷ cs else cs

-- An exponent, or none: its sign and its digits.
abbrev pub exponent_text : Option (Bool × List ℕ) → List ℕ
exponent_text none = []
exponent_text (some (negative, ds)) = 101 ∷ with_sign negative ds

abbrev pub exponent_value : Option (Bool × List ℕ) → ℤ
exponent_value none = pos 0
exponent_value (some (negative, ds)) =
    if negative then pos 0 -ℤ pos (numeral_value 0 ds) else pos (numeral_value 0 ds)

-- The digits are digits, and the number is not too large for an `int`.
abbrev pub IsExponent : Option (Bool × List ℕ) → Type 0
IsExponent none = Unit
IsExponent (some (negative, ds)) = (all_digits ds ≡ true) × (numeral_value 0 ds ≤ 2 ^ 30)

value-le : (v : ℕ) (ds : List ℕ) → all_digits ds ≡ true → v ≤ numeral_value v ds
value-le v [] h = omega arith
value-le v (c ∷ cs) h =
    let step = next_value-le v c in omega (arith, value-le (next_value v c) cs (ground arith))
  where
    next_value-le : (v c : ℕ) → v ≤ next_value v c
    next_value-le v c = ground arith

exponent_digits-value :
    (ev : ℕ) (ds : List ℕ)
    → all_digits ds ≡ true
    → numeral_value ev ds ≤ int_max
    → exponent_digits ev ds ≡ some (numeral_value ev ds)
unfolding exponent_digits
exponent_digits-value ev [] h le = refl
exponent_digits-value ev (c ∷ cs) h le =
    let (digit, rest) = first_digit c cs h in
    let next = value-le (next_value ev c) cs rest in
    let same : next_value ev c ≡ ev * 10 + (c - 48) = rw digit refl in
    let small : ltb int_max (ev * 10 + (c - 48)) ≡ false = ground arith in
    rw (digit, small)
      (subst (λ (v : ℕ). exponent_digits v cs ≡ some (numeral_value v cs)) same
        (exponent_digits-value (next_value ev c) cs rest le))
  where
    first_digit :
        (c : ℕ) (cs : List ℕ)
        → all_digits (c ∷ cs) ≡ true
        → (is_digit c ≡ true) × (all_digits cs ≡ true)
    first_digit c cs h = ground arith

parse_sign-with_sign :
    (negative : Bool) (ds : List ℕ)
    → all_digits ds ≡ true
    → parse_sign (with_sign negative ds) ≡ (negative, ds)
unfolding parse_sign
parse_sign-with_sign true ds h = refl
parse_sign-with_sign false [] h = refl
parse_sign-with_sign false (c ∷ cs) h = ground arith

abbrev pub IsWithin : ℕ → ℤ → Type 0
IsWithin m a = (negsuc m ≤ℤ a) × (a ≤ℤ pos m)

int_sum-exact : (a b : ℤ) → IsWithin int_max (a +ℤ b) → int_sum a b ≡ some (a +ℤ b)
unfolding int_sum
int_sum-exact a b (low, high) = rw (no_overflow (a +ℤ b) low high) refl
  where
    no_overflow :
        (z : ℤ)
        → negsuc int_max ≤ℤ z
        → z ≤ℤ pos int_max
        → (ltb_ℤ (pos int_max) z || ltb_ℤ z (negsuc int_max)) ≡ false
    no_overflow z low high = ground arith

pub sum-IsWithin : (m n : ℕ) (a b : ℤ) → IsWithin m a → IsWithin n b → IsWithin (m + n + 1) (a +ℤ b)
sum-IsWithin m n a b (la, ha) (lb, hb) = (omega int_laws, omega int_laws)

pub exponent_value-IsWithin :
    (x : Option (Bool × List ℕ)) → IsExponent x → IsWithin (2 ^ 30) (exponent_value x)
exponent_value-IsWithin none h = (omega arith, omega arith)
exponent_value-IsWithin (some (true, ds)) (digits, le) = (omega int_laws, omega int_laws)
exponent_value-IsWithin (some (false, ds)) (digits, le) = (omega int_laws, omega int_laws)

+ℤ_nought : (e : ℤ) → e ≡ e +ℤ pos 0
+ℤ_nought e = omega int_laws

pub add_exponent-value :
    (e : ℤ) (x : Option (Bool × List ℕ))
    → IsExponent x
    → IsWithin (2 ^ 29) e
    → add_exponent e (exponent_text x) ≡ some (e +ℤ exponent_value x)
unfolding add_exponent signed_exponent
add_exponent-value e none h within = ap some (+ℤ_nought e)
add_exponent-value e (some (negative, ds)) (digits, le) within =
    let (low, high) =
      sum-IsWithin (2 ^ 29) (2 ^ 30) e (exponent_value (some (negative, ds))) within
        (exponent_value-IsWithin (some (negative, ds)) (digits, le)) in
    rw (parse_sign-with_sign negative ds digits, exponent_digits-value 0 ds digits (omega arith))
      (int_sum-exact e (exponent_value (some (negative, ds))) (omega arith, omega arith))

pub pack_int-exact :
    (sign : Bool) (q : ℕ) (e : ℤ)
    → IsWithin (2 ^ 29 + 2 ^ 30 + 1) e
    → pack_int sign q e ≡ some (pack sign q e)
unfolding pack_int
pack_int-exact sign q e (low, high) =
    rw (int_sum-exact e (pos bias) (omega int_laws, omega int_laws)) refl
