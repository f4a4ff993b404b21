-- ===== src/Decimal/Strings/Parsing.antt =====
-- decimal.cpp: `dec_parse_bounded` on spaces, a sign, digits with a point, and an exponent.
use kyte.Decimal.Word.{pack}
use kyte.Decimal.Strings.{
  skip_spaces, parse_sign, scan_start, scan_body, round_scan, int_sum, add_exponent, pack_int,
  parse_unsigned, parse_bounded,
}
use kyte.Decimal.Strings.Exponents.{
  with_sign, exponent_text, exponent_value, IsExponent, IsWithin, sum-IsWithin,
  exponent_value-IsWithin, add_exponent-value, pack_int-exact,
}
use kyte.Decimal.Strings.Numeral.{
  belongs, is_numeral, next_count, numeral_value, digit_count, fraction_count,
}
use kyte.Decimal.Strings.Scanning.{Ends, scan_body-Reads}
use kyte.Decimal.Strings.Rounding.{IsRounded, start-Reads, round_scan-IsRounded}
use kyte.Prelude.{
  ℕ, zero, suc, ◌+◌, ◌-◌, ◌^◌, ◌≤◌, ◌≡◌, refl, sym, ap, ◌∙◌, subst, ◌⊎◌, Bool, true, false, not,
  ◌&&◌, ◌||◌, Option, none, some, List, [], ◌∷◌, ◌++◌, arith, ◌==◌, ℤ, pos, ◌+ℤ◌, ◌-ℤ◌, int_laws,
  replicate,
}

fraction_count-le :
    (seen : Bool) (f n : ℕ) (cs : List ℕ) → f ≤ n → fraction_count seen f cs ≤ digit_count n cs
fraction_count-le seen f n [] le = le
fraction_count-le true f n (c ∷ cs) le =
    fraction_count-le true (next_count f c) (next_count n c) cs (ground arith)
fraction_count-le false f n (c ∷ cs) le =
    fraction_count-le (c == 46) f (next_count n c) cs (ground arith)

IsRounded-IsWithin :
    (v f n q : ℕ) (e : ℤ) → IsRounded v f n q e → f ≤ n → n ≤ 2 ^ 28 → IsWithin (2 ^ 29) e
IsRounded-IsWithin v f n q e h fn small =
    subst (IsWithin (2 ^ 29)) (sym h.exponent)
      (bounded h.dropped f (few_dropped h.few) (omega arith))
  where
    few_dropped :
        (h.dropped ≡ n - 34) ⊎ ((h.dropped ≡ n - 34 + 1) × (q ≡ 10 ^ 33)) → h.dropped ≤ 2 ^ 28 + 1
    few_dropped few = ground arith

    bounded : (k f : ℕ) → k ≤ 2 ^ 28 + 1 → f ≤ 2 ^ 28 → IsWithin (2 ^ 29) (pos k -ℤ pos f)
    bounded k f hk hf = (omega int_laws, omega int_laws)

exponent_text-Ends : (x : Option (Bool × List ℕ)) → Ends (exponent_text x)
exponent_text-Ends none = tt
exponent_text-Ends (some (negative, ds)) = refl

parse_unsigned-IsRounded :
    (sign : Bool) (body : List ℕ) (x : Option (Bool × List ℕ))
    → is_numeral false body ≡ true
    → digit_count 0 body ≤ 2 ^ 28
    → IsExponent x
    → (q : ℕ) × (e : ℤ) × IsRounded
        (numeral_value 0 body)
        (fraction_count false 0 body)
        (digit_count 0 body)
        q
        e
      × (parse_unsigned sign (body ++ exponent_text x) ≡ some (pack sign q (e +ℤ exponent_value x)))
unfolding parse_unsigned
parse_unsigned-IsRounded sign body x numeral short exponent =
    let (r, after, scanned, reads) =
      scan_body-Reads body (exponent_text x) 0 0 0 scan_start false start-Reads numeral
        (exponent_text-Ends x) in
    let (q, e) = round_scan r.round_digit r in
    let rounded = round_scan-IsRounded r after _ _ _ reads r.round_digit refl in
    let within =
      IsRounded-IsWithin _ _ _ q e rounded (fraction_count-le false 0 0 body (omega arith)) short in
    (
      q,
      e,
      rounded,
      rw (scanned, add_exponent-value e x exponent within)
          (pack_int-exact sign q (e +ℤ exponent_value x) (
            sum-IsWithin (2 ^ 29) (2 ^ 30) e (exponent_value x) within
              (exponent_value-IsWithin x exponent))),
    )

-- Neither a space nor a sign comes first.
abbrev starts_number : List ℕ → Bool
starts_number [] = true
starts_number (c ∷ cs) = not (c == 32 || c == 43 || c == 45)

belongs_first : (c : ℕ) → belongs false c ≡ true → not (c == 32 || c == 43 || c == 45) ≡ true
unfolding belongs
belongs_first c h = ground arith

left : (a b : Bool) → (a && b) ≡ true → a ≡ true
left a b h = ground arith

numeral_starts :
    (body : List ℕ) (x : Option (Bool × List ℕ))
    → is_numeral false body ≡ true
    → starts_number (body ++ exponent_text x) ≡ true
numeral_starts [] none h = refl
numeral_starts [] (some (negative, ds)) h = refl
numeral_starts (c ∷ cs) x h = belongs_first c (left (belongs false c) _ h)

skip_spaces-replicate :
    (k : ℕ) (negative : Bool) (cs : List ℕ)
    → starts_number cs ≡ true
    → skip_spaces (replicate k 32 ++ with_sign negative cs) ≡ with_sign negative cs
unfolding skip_spaces
skip_spaces-replicate zero true cs h = refl
skip_spaces-replicate zero false [] h = refl
skip_spaces-replicate zero false (c ∷ cs) h = ground arith
skip_spaces-replicate (suc k) negative cs h = skip_spaces-replicate k negative cs h

parse_sign-starts :
    (negative : Bool) (cs : List ℕ)
    → starts_number cs ≡ true
    → parse_sign (with_sign negative cs) ≡ (negative, cs)
unfolding parse_sign
parse_sign-starts true cs h = refl
parse_sign-starts false [] h = refl
parse_sign-starts false (c ∷ cs) h = ground arith

empty_text :
    some (pack false 0 (pos 0))
    ≡ (let (sign, rest) = parse_sign (skip_spaces []) in parse_unsigned sign rest)
unfolding skip_spaces parse_sign parse_unsigned scan_body round_scan add_exponent pack_int int_sum
    ◌+ℤ◌ ◌-ℤ◌
empty_text = refl

parse_bounded_any :
    (s : List ℕ)
    → parse_bounded s ≡ (let (sign, rest) = parse_sign (skip_spaces s) in parse_unsigned sign rest)
unfolding parse_bounded
parse_bounded_any [] = empty_text
parse_bounded_any (c ∷ cs) = refl

-- The word, before it is decoded.
pub parse_bounded-pack :
    (spaces : ℕ) (sign : Bool) (body : List ℕ) (x : Option (Bool × List ℕ))
    → is_numeral false body ≡ true
    → digit_count 0 body ≤ 2 ^ 28
    → IsExponent x
    → (q : ℕ) × (e : ℤ) × IsRounded
        (numeral_value 0 body)
        (fraction_count false 0 body)
        (digit_count 0 body)
        q
        e
      × (parse_bounded (replicate spaces 32 ++ with_sign sign (body ++ exponent_text x))
          ≡ some (pack sign q (e +ℤ exponent_value x)))
parse_bounded-pack spaces sign body x numeral short exponent =
    let text = body ++ exponent_text x in
    let starts = numeral_starts body x numeral in
    let (q, e, rounded, parsed) = parse_unsigned-IsRounded sign body x numeral short exponent in
    (
      q,
      e,
      rounded,
      parse_bounded_any (replicate spaces 32 ++ with_sign sign text)
          ∙ ap (λ (r : List ℕ). let (s, rest) = parse_sign r in parse_unsigned s rest)
              (skip_spaces-replicate spaces sign text starts)
          ∙ ap (λ (r : Bool × List ℕ). parse_unsigned r.0 r.1) (parse_sign-starts sign text starts)
          ∙ parsed,
    )
