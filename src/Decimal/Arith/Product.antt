-- ===== src/Decimal/Arith/Product.antt =====
-- `kyte_decimal_mul`: the loop that trims the operands ends, and the product does not overflow.
use native.Mathlib.Nat.{mod-eq_of_lt, pow-le-pow_right}
use kyte.Prelude.{
  ℕ, zero, suc, ◌+◌, ◌-◌, ◌*◌, ◌^◌, ◌≤◌, ◌<◌, ◌≡◌, refl, inl, inr, Bool, true, false, not, ◌&&◌,
  ◌||◌, xor, arith, ltb, leb, ◌==◌, if◌then◌else◌, leb→le, Bool-cases, ◌+ℤ◌,
}
use kyte.Decimal.Word.{KyteDec, decode, max_digits, InRange}
use kyte.Decimal.Digits.{
  u128, num_digits, round_drop, pow-pred, num_digits-HasDigits, num_digits-le,
  round_drop-IsHalfEven, ten_pos, pow_add,
}
use kyte.Decimal.Encode.{encode, IsCanonical, encode-IsCanonical, decode-encode_small}
use kyte.Decimal.Arith.{trim, product, decimal_mul}
use kyte.Decimal.Arith.Align.{decode-coeff-lt}
use kyte.Decimal.Arith.Sum.{or_false, dec_zero-IsCanonical}

-- The loop's test.
abbrev is_long : KyteDec → KyteDec → Bool
is_long x y =
    not (x.coeff == 0)
    && (not (y.coeff == 0) && ltb max_digits (num_digits x.coeff + num_digits y.coeff))

drop_one : (c n : ℕ) → c < u128 → c ≤ 10 ^ n → 0 < n → round_drop c 1 ≤ 10 ^ (n - 1)
drop_one c n h le pos_n =
    let half = round_drop-IsHalfEven c 1 h in
    let split : 10 ^ n ≡ 10 ^ (n - 1) * 10 = pow-pred 10 n pos_n in omega (arith, half.low)

wide : (c n : ℕ) → c ≤ 10 ^ n → c < u128 → num_digits c ≤ n + 1
wide c n le h = num_digits-le c (n + 1) h (omega (arith, pow_add n 1, ten_pos n)) (omega arith)

below_35 : (c n : ℕ) → c ≤ 10 ^ n → n ≤ 35 → c ≤ 10 ^ 35
below_35 c n le h =
    let big = pow-le-pow_right {n = 10} (omega arith) {i = n} {j = 35} h in omega arith

is_long-digits :
    (x y : KyteDec) → is_long x y ≡ true → max_digits < num_digits x.coeff + num_digits y.coeff
is_long-digits x y h = ground arith

-- The operand that loses a digit has more than one.
exponent_pos :
    (c n d : ℕ) → c ≤ 10 ^ n → n ≤ 35 → d ≤ num_digits c → max_digits < num_digits c + d → 0 < n
exponent_pos c n d le h longer sum = omega (arith, wide c n le (omega (arith, below_35 c n le h)))

-- Bounds on both operands that fall with each round.
trim-ends :
    (fuel n m : ℕ) (x y : KyteDec)
    → x.coeff ≤ 10 ^ n
    → y.coeff ≤ 10 ^ m
    → n ≤ 35
    → m ≤ 35
    → n + m < fuel
    → let r = trim fuel x y in
      (is_long r.0 r.1 ≡ false) × (r.0.coeff ≤ 10 ^ 35) × (r.1.coeff ≤ 10 ^ 35)
unfolding trim
trim-ends zero n m x y hx hy hn hm lt = absurd (omega arith)
trim-ends (suc fuel) n m x y hx hy hn hm lt = elim (Bool-cases (is_long x y)) [
  | inr done ↦ rw done (done, below_35 x.coeff n hx hn, below_35 y.coeff m hy hm)
  | inl long ↦
      let over = is_long-digits x y long in
      let cx = below_35 x.coeff n hx hn in
      let cy = below_35 y.coeff m hy hm in
      elim (Bool-cases (leb (num_digits y.coeff) (num_digits x.coeff))) [
        | inl from_x ↦
            let pos_n =
              exponent_pos x.coeff n (num_digits y.coeff) hx hn (leb→le _ _ from_x) over in
            let smaller = drop_one x.coeff n (omega arith) hx pos_n in
            rw (long, from_x)
              (trim-ends fuel (n - 1) m _ y smaller hy (omega arith) hm (omega arith))
        | inr from_y ↦
            let pos_m =
              exponent_pos y.coeff m (num_digits x.coeff) hy hm (ground arith) (omega arith) in
            let smaller = drop_one y.coeff m (omega arith) hy pos_m in
            rw (long, from_y)
              (trim-ends fuel n (m - 1) x _ hx smaller hn (omega arith) (omega arith))
      ]
]

zero_factor_lt : (a b : ℕ) → ((a == 0) || (b == 0)) ≡ true → a * b < 10 ^ 34
zero_factor_lt zero b h = omega arith
zero_factor_lt (suc a) zero h = omega arith
zero_factor_lt (suc a) (suc b) h = ground arith

mul_lt : (a b m n : ℕ) → a < m → b < n → a * b < m * n
mul_lt a b m n h k = grind arith

product_fits :
    (x y : KyteDec)
    → x.coeff ≤ 10 ^ 35
    → y.coeff ≤ 10 ^ 35
    → is_long x y ≡ false
    → x.coeff * y.coeff < 10 ^ 34
product_fits x y hx hy done = elim (Bool-cases ((x.coeff == 0) || (y.coeff == 0))) [
  | inl zero_factor ↦ zero_factor_lt x.coeff y.coeff zero_factor
  | inr nonzero ↦
      let dx = num_digits-HasDigits x.coeff (omega arith) in
      let dy = num_digits-HasDigits y.coeff (omega arith) in
      let few : num_digits x.coeff + num_digits y.coeff ≤ 34 = ground arith in
      let big =
        pow-le-pow_right {n = 10} (omega arith) {i = num_digits x.coeff + num_digits y.coeff}
          {j = 34} few in
      let below = mul_lt x.coeff y.coeff _ _ dx.below dy.below in
      omega (arith, pow_add (num_digits x.coeff) (num_digits y.coeff))
]

trimmed_product :
    (x y : KyteDec) → x.coeff < 2 ^ 113 → y.coeff < 2 ^ 113 → (product (trim 80 x y)).coeff < u128
unfolding product
trimmed_product x y hx hy =
    let (done, lx, ly) =
      trim-ends 80 35 35 x y (omega arith) (omega arith) (omega arith) (omega arith)
        (omega arith) in
    let fits = product_fits (trim 80 x y).0 (trim 80 x y).1 lx ly done in omega arith

trim_short : (fuel : ℕ) (x y : KyteDec) → is_long x y ≡ false → trim (suc fuel) x y ≡ (x, y)
unfolding trim
trim_short fuel x y done = rw done refl

short : (x y : KyteDec) → num_digits x.coeff + num_digits y.coeff ≤ 34 → is_long x y ≡ false
short x y h = ground arith

-- Whatever the two words, their product is a canonical word: below 2^128, finite, with a
-- coefficient of at most 34 digits and no negative zero.
pub decimal_mul-IsCanonical : (a b : ℕ) → IsCanonical (decimal_mul a b)
unfolding decimal_mul
decimal_mul-IsCanonical a b = elim (Bool-cases ((decode a).special || (decode b).special)) [
  | inl sp ↦ rw sp dec_zero-IsCanonical
  | inr fin ↦ rw fin (
      encode-IsCanonical _
        (trimmed_product (decode a) (decode b) (decode-coeff-lt a) (decode-coeff-lt b)))
]

exact_product :
    (x y : KyteDec)
    → x.coeff * y.coeff < 10 ^ 34
    → InRange (x.exp +ℤ y.exp)
    → decode (encode (product (x, y))) ≡ record {
      sign = (if x.coeff * y.coeff == 0 then false else xor x.sign y.sign);
      coeff = x.coeff * y.coeff;
      exp = x.exp +ℤ y.exp;
      special = false;
    }
unfolding product
exact_product x y fits range =
    rw (mod-eq_of_lt {n = x.coeff * y.coeff} {m = u128} (omega arith))
      (decode-encode_small (xor x.sign y.sign) (x.coeff * y.coeff) (x.exp +ℤ y.exp) fits range)

-- The product of two finite words is exact where the digits of the coefficients add up to 34 at
-- most and the sum of the exponents is in range; a zero product has no sign.
pub decimal_mul-exact :
    (a b : ℕ)
    → let x = decode a in
      let y = decode b in
      x.special ≡ false
      → y.special ≡ false
      → num_digits x.coeff + num_digits y.coeff ≤ 34
      → InRange (x.exp +ℤ y.exp)
      → decode (decimal_mul a b) ≡ record {
        sign = (if x.coeff * y.coeff == 0 then false else xor x.sign y.sign);
        coeff = x.coeff * y.coeff;
        exp = x.exp +ℤ y.exp;
        special = false;
      }
unfolding decimal_mul
decimal_mul-exact a b hx hy few range =
    let x = decode a in
    let y = decode b in
    let s = short x y few in
    let fits =
      product_fits x y (omega (arith, decode-coeff-lt a)) (omega (arith, decode-coeff-lt b)) s in
    rw (or_false x.special y.special hx hy, trim_short 79 x y s) (exact_product x y fits range)
