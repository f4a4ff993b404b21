-- ===== src/Decimal/Arith/Remainder.antt =====
-- `kyte_decimal_mod`, and what aligning does to an operand that is far below the other.
use kyte.Prelude.{
  ℕ, ◌%◌, ◌≤◌, ◌<◌, ◌≡◌, refl, Bool, true, false, arith, ◌==◌, ℤ, pos, pos_part, ltb_ℤ, ◌+ℤ◌, ◌-ℤ◌,
  ◌≤ℤ◌, int_laws,
}
use kyte.Decimal.Word.{KyteDec, decode}
use kyte.Decimal.Digits.{u128, round_drop, num_digits-HasDigits, round_drop-IsHalfEven, ten_pos}
use kyte.Decimal.Encode.{encode}
use kyte.Decimal.Arith.{
  min_ℤ, common_exp, rescale, align, ok, undefined, encode_outcome, remainder, decimal_mod,
  decimal_add, sum_fields, sum_aligned,
}
use kyte.Decimal.Arith.Align.{
  decode-coeff-lt, common_exp-fits, IsClose, common_exp-IsClose, rescale_up, rescale-fields,
}
use kyte.Decimal.Arith.Sum.{or_false, min-le, min-fits, add_signed_finite, encode_zero_coeff}
use kyte.Decimal.Arith.Compare.{at_exp, at_exp-zero}

-- The first exponent is so far above the second that aligning drops 39 digits or more.
abbrev pub IsFarAbove : KyteDec → KyteDec → Type 0
IsFarAbove x y = y.exp +ℤ pos 75 ≤ℤ x.exp

common_exp-high : (x y : KyteDec) → x.coeff < u128 → x.exp +ℤ pos 1 ≤ℤ common_exp x y +ℤ pos 37
common_exp-high x y h =
    let digits = num_digits-HasDigits x.coeff h in
    omega (int_laws, common_exp-fits x y, digits.positive)

round_drop-far : (c k : ℕ) → 39 ≤ k → round_drop c k ≡ 0
unfolding round_drop
round_drop-far c k h = ground arith

far_drop :
    (x e y : ℤ)
    → x +ℤ pos 1 ≤ℤ e +ℤ pos 37
    → y +ℤ pos 75 ≤ℤ x
    → (ltb_ℤ e y ≡ false) × (ltb_ℤ y e ≡ true) × (39 ≤ pos_part (e -ℤ y))
unfolding ◌+ℤ◌ ◌-ℤ◌
far_drop x e y h far = ground arith

rescale-far :
    (x y : KyteDec) → x.coeff < u128 → IsFarAbove x y → (rescale y (common_exp x y)).coeff ≡ 0
unfolding rescale
rescale-far x y h far =
    let (a, b, k) = far_drop x.exp (common_exp x y) y.exp (common_exp-high x y h) far in
    rw (a, b) (round_drop-far y.coeff _ k)

pub ne_zero : (c : ℕ) → 0 < c → (c == 0) ≡ false
ne_zero c h = ground arith

round_drop_zero : (k : ℕ) → round_drop 0 k ≡ 0
round_drop_zero k = grind (arith, round_drop-IsHalfEven 0 k (omega arith), ten_pos k)

rescale_zero : (d : KyteDec) (e : ℤ) → d.coeff ≡ 0 → (rescale d e).coeff ≡ 0
unfolding rescale
rescale_zero d e z = rw z (ground (arith, round_drop_zero (pos_part (e -ℤ d.exp))))

zero_fields : (s t : Bool) → (sum_fields s t 0 0).1 ≡ 0
unfolding sum_fields
zero_fields true true = refl
zero_fields true false = refl
zero_fields false true = refl
zero_fields false false = refl

sum_aligned_zero :
    (x y : KyteDec)
    → (rescale x (common_exp x y)).coeff ≡ 0
    → (rescale y (common_exp x y)).coeff ≡ 0
    → (sum_aligned (align x y)).coeff ≡ 0
unfolding sum_aligned align
sum_aligned_zero x y hx hy = rw (hx, hy) (zero_fields _ _)

-- If the exponent of the dividend is 75 or more above that of a divisor that is not zero, both
-- finite, then the remainder divides by zero: the alignment rounds the divisor to zero after the
-- test.
pub decimal_mod_undefined :
    (a b : ℕ)
    → (decode a).special ≡ false
    → (decode b).special ≡ false
    → 0 < (decode b).coeff
    → IsFarAbove (decode a) (decode b)
    → decimal_mod a b ≡ undefined
unfolding decimal_mod align remainder encode_outcome
decimal_mod_undefined a b ha hb nonzero far =
    rw
      (
        or_false (decode a).special (decode b).special ha hb,
        ne_zero (decode b).coeff nonzero,
        rescale-far (decode a) (decode b) (omega (arith, decode-coeff-lt a)) far,
      )
      refl

-- If a finite zero has an exponent 75 or more above that of another finite word, then their sum is
-- zero, whatever the other word is.
pub decimal_add_swallows :
    (a b : ℕ)
    → (decode a).special ≡ false
    → (decode b).special ≡ false
    → (decode a).coeff ≡ 0
    → IsFarAbove (decode a) (decode b)
    → (decode (decimal_add a b)).coeff ≡ 0
unfolding decimal_add
decimal_add_swallows a b ha hb zero_a far =
    let x = decode a in
    let y = decode b in
    rw (add_signed_finite x y ha hb)
      (encode_zero_coeff (sum_aligned (align x y)) (
        sum_aligned_zero x y (rescale_zero x (common_exp x y) zero_a)
          (rescale-far x y (omega (arith, decode-coeff-lt a)) far))).0

-- The remainder of two finite words, where the divisor is not zero and the lower exponent is at
-- most 37 below the end of the higher leading digit: the word of the remainder of the coefficients
-- scaled to the lower exponent, with the sign of the dividend.
pub decimal_mod-exact :
    (a b : ℕ)
    → let x = decode a in
      let y = decode b in
      x.special ≡ false
      → y.special ≡ false
      → 0 < y.coeff
      → IsClose x y
      → let m = min_ℤ x.exp y.exp in
        decimal_mod a b
        ≡ ok (
            encode
              (record { sign = x.sign; coeff = at_exp x m % at_exp y m; exp = m; special = false }))
unfolding decimal_mod align remainder encode_outcome
decimal_mod-exact a b hx hy nonzero close =
    let x = decode a in
    let y = decode b in
    let m = min_ℤ x.exp y.exp in
    let (low_x, low_y) = min-le x.exp y.exp in
    let (fits_x, fits_y) = min-fits x y close in
    let (up_x, _) = rescale_up x m (omega (arith, decode-coeff-lt a)) low_x fits_x in
    let (up_y, _) = rescale_up y m (omega (arith, decode-coeff-lt b)) low_y fits_y in
    rw
      (
        or_false x.special y.special hx hy,
        ne_zero y.coeff nonzero,
        common_exp-IsClose x y close,
        up_y,
        ne_zero (at_exp y m) ((at_exp-zero y m).1 nonzero),
        up_x,
        (rescale-fields x m).0,
        (rescale-fields x m).1,
      )
      refl
