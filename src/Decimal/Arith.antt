-- ===== src/Decimal/Arith.antt =====
-- decimal.cpp: `dec_align` and the arithmetic on words.
pub mod Align
pub mod Sum
pub mod Compare
pub mod Quotient
pub mod Product
pub mod Remainder
use kyte.Prelude.{
  ℕ, zero, suc, ◌+◌, ◌-◌, ◌*◌, ◌/◌, ◌%◌, ◌^◌, ◌≤◌, ◌<◌, min, max, ◌≡◌, refl, sym, ap, ◌∙◌, subst,
  ◌≢◌, ◌↔◌, ◌⊎◌, inl, inr, Bool, true, false, not, ◌&&◌, ◌||◌, xor, Option, none, some, List, [],
  ◌∷◌, ◌++◌, map, append_assoc, append-nil, arith, ltb, leb, ◌==◌, if◌then◌else◌, ltb→lt, lt→ltb,
  leb→le, ==_iff, Bool-cases, Option-cases, ℤ, pos, negsuc, pos_part, neg_part, sub_ℕ, ltb_ℤ, ◌+ℤ◌,
  ◌-ℤ◌, ◌≤ℤ◌, int_laws, eq_of_parts, length, length-append, get_elem?, set, get_or, take, drop,
  replicate,
}
use kyte.Decimal.Word.{KyteDec, bias, max_digits, pack, decode}
use kyte.Decimal.Digits.{u128, num_digits, pow10, round_drop}
use kyte.Decimal.Encode.{encode}

abbrev pub min_ℤ : ℤ → ℤ → ℤ
min_ℤ a b = if ltb_ℤ a b then a else b

abbrev pub max_ℤ : ℤ → ℤ → ℤ
max_ℤ a b = if ltb_ℤ b a then a else b

-- `exp + dec_num_digits(coeff)`: one above the exponent of the leading digit.
abbrev pub msd : KyteDec → ℤ
msd d = d.exp +ℤ pos (num_digits d.coeff)

-- The common exponent: the smaller one, but at most 37 digits below the leading one.
unfoldable pub common_exp : KyteDec → KyteDec → ℤ
common_exp a b =
    let lowest = min_ℤ a.exp b.exp in
    let min_exp = max_ℤ (msd a) (msd b) -ℤ pos 37 in
    if ltb_ℤ lowest min_exp then min_exp else lowest

-- One operand brought to the common exponent.
unfoldable pub rescale : KyteDec → ℤ → KyteDec
rescale d e =
    if ltb_ℤ e d.exp
    then record d { coeff = d.coeff * pow10 (pos_part (d.exp -ℤ e)) % u128; exp = e }
    else if ltb_ℤ d.exp e
    then record d { coeff = round_drop d.coeff (pos_part (e -ℤ d.exp)); exp = e }
    else d

unfoldable pub align : KyteDec → KyteDec → KyteDec × KyteDec
align a b = let e = common_exp a b in (rescale a e, rescale b e)

-- Sign and coefficient of a sum.
unfoldable pub sum_fields : Bool → Bool → ℕ → ℕ → Bool × ℕ
sum_fields s t m n =
    if not (xor s t) then (s, (m + n) % u128) else if leb n m then (s, m - n) else (t, n - m)

-- The sum of two aligned operands, before it is encoded.
unfoldable pub sum_aligned : KyteDec × KyteDec → KyteDec
sum_aligned (a, b) =
    let (sign, coeff) = sum_fields a.sign b.sign a.coeff b.coeff in
    record { sign = sign; coeff = coeff; exp = a.exp; special = false }

unfoldable pub dec_zero : ℕ
dec_zero = pack false 0 (pos 0)

unfoldable pub add_signed : KyteDec → KyteDec → ℕ
add_signed a b = if a.special || b.special then dec_zero else encode (sum_aligned (align a b))

unfoldable pub decimal_add : ℕ → ℕ → ℕ
decimal_add a b = add_signed (decode a) (decode b)

unfoldable pub decimal_sub : ℕ → ℕ → ℕ
decimal_sub a b = let bb = decode b in add_signed (decode a) (record bb { sign = not bb.sign })

-- An operation returns a word, stops with a message, or divides by zero, which is undefined.
pub data Outcome {ℓ} (A : Type ℓ) : Type ℓ where
  ok : A → Outcome A
  panic : Outcome A
  undefined : Outcome A

-- The loop of `kyte_decimal_mul`: the longer coefficient loses a digit until the product fits.
-- Each round drops a digit; 80 rounds are more than two 128-bit coefficients have.
unfoldable pub trim : ℕ → KyteDec → KyteDec → KyteDec × KyteDec
trim zero x y = (x, y)
trim (suc fuel) x y =
    let dx = num_digits x.coeff in
    let dy = num_digits y.coeff in
    let drop_x = trim fuel (record x { coeff = round_drop x.coeff 1; exp = x.exp +ℤ pos 1 }) y in
    let drop_y = trim fuel x (record y { coeff = round_drop y.coeff 1; exp = y.exp +ℤ pos 1 }) in
    if not (x.coeff == 0) && (not (y.coeff == 0) && ltb max_digits (dx + dy))
    then (if leb dy dx then drop_x else drop_y)
    else (x, y)

-- The product of two trimmed operands, before it is encoded.
unfoldable pub product : KyteDec × KyteDec → KyteDec
product (x, y) = record {
  sign = xor x.sign y.sign;
  coeff = x.coeff * y.coeff % u128;
  exp = x.exp +ℤ y.exp;
  special = false;
}

unfoldable pub decimal_mul : ℕ → ℕ → ℕ
decimal_mul a b =
    let x = decode a in
    let y = decode b in if x.special || y.special then dec_zero else encode (product (trim 80 x y))

-- `dec_strip_to`: trailing zeros go until the exponent is the preferred one. A 128-bit
-- coefficient has fewer than 39 of them.
unfoldable pub strip_to : ℕ → KyteDec → ℤ → KyteDec
strip_to zero d pref_exp = d
strip_to (suc fuel) d pref_exp =
    let shorter =
      strip_to fuel (record d { coeff = d.coeff / 10; exp = d.exp +ℤ pos 1 }) pref_exp in
    if ltb_ℤ d.exp pref_exp && (not (d.coeff == 0) && (d.coeff % 10 == 0)) then shorter else d

-- A quotient rounded half to even.
unfoldable pub round_quotient : ℕ → ℕ → ℕ
round_quotient num den =
    let q = num / den in
    let twice = num % den * 2 % u128 in
    if ltb den twice then q + 1 else if (twice == den) && (q % 2 == 1) then q + 1 else q

-- `P`: how far the dividend is scaled up. Its coefficient has at most 35 digits, so that
-- neither bound is negative here.
unfoldable pub scale_up : ℕ → ℕ
scale_up digits = min (35 - digits) (38 - digits)

-- The quotient before trailing zeros are stripped and it is encoded.
unfoldable pub quotient : KyteDec → KyteDec → KyteDec
quotient x y =
    let p = scale_up (num_digits x.coeff) in
    record {
      sign = xor x.sign y.sign;
      coeff = round_quotient (x.coeff * pow10 p % u128) y.coeff;
      exp = x.exp -ℤ y.exp -ℤ pos p;
      special = false;
    }

unfoldable pub decimal_div : ℕ → ℕ → Outcome ℕ
decimal_div a b =
    let x = decode a in
    let y = decode b in
    if x.special || y.special
    then ok dec_zero
    else if y.coeff == 0
    then panic
    else if x.coeff == 0
    then ok dec_zero
    else ok (encode (strip_to 39 (quotient x y) (x.exp -ℤ y.exp)))

-- The remainder of two aligned operands. The test for zero stands before the alignment, which can
-- round the divisor to zero; `%` by zero is undefined.
unfoldable pub remainder : KyteDec × KyteDec → Outcome KyteDec
remainder (x, y) =
    if y.coeff == 0
    then undefined
    else ok (record { sign = x.sign; coeff = x.coeff % y.coeff; exp = x.exp; special = false })

unfoldable pub encode_outcome : Outcome KyteDec → Outcome ℕ
encode_outcome (ok r) = ok (encode r)
encode_outcome panic = panic
encode_outcome undefined = undefined

unfoldable pub decimal_mod : ℕ → ℕ → Outcome ℕ
decimal_mod a b =
    let x = decode a in
    let y = decode b in
    if x.special || y.special
    then ok dec_zero
    else if y.coeff == 0
    then panic
    else encode_outcome (remainder (align x y))

-- -1, 0 or 1 for a coefficient that is less, equal or greater.
abbrev pub compare_coeff : ℕ → ℕ → ℤ
compare_coeff a b = if ltb a b then negsuc 0 else if ltb b a then pos 1 else pos 0

abbrev pub sign_of : KyteDec → ℤ
sign_of d = if d.coeff == 0 then pos 0 else if d.sign then negsuc 0 else pos 1

unfoldable pub compare_aligned : ℤ → KyteDec × KyteDec → ℤ
compare_aligned s (x, y) =
    let mag = compare_coeff x.coeff y.coeff in if ltb_ℤ s (pos 0) then pos 0 -ℤ mag else mag

unfoldable pub decimal_cmp : ℕ → ℕ → ℤ
decimal_cmp a b =
    let x = decode a in
    let y = decode b in
    if x.special || y.special
    then pos 0
    else if (x.coeff == 0) && (y.coeff == 0)
    then pos 0
    else if ltb_ℤ (sign_of x) (sign_of y)
    then negsuc 0
    else if ltb_ℤ (sign_of y) (sign_of x)
    then pos 1
    else compare_aligned (sign_of x) (align x y)
