-- ===== src/Decimal/Tests.antt =====
-- Runs of the decimal operations on concrete words, and instances of the theorems.
use kyte.Prelude.{
  ℕ, ◌+◌, ◌*◌, ◌^◌, ◌≤◌, ◌<◌, ◌≡◌, refl, true, false, xor, arith, ◌==◌, if◌then◌else◌, pos, negsuc,
  ◌+ℤ◌, ◌-ℤ◌,
}
use kyte.Decimal.Word.{KyteDec, pack, decode, biased_exponent, InRange}
use kyte.Decimal.Digits.{num_digits, count_digits, pow10, round_drop}
use kyte.Decimal.Encode.{normalize, encode, IsCanonical, encode-IsCanonical}
use kyte.Decimal.Returned.{IsReturned}
use kyte.Decimal.Arith.{decimal_add, decimal_mul, decimal_mod, decimal_cmp, ok, undefined, min_ℤ}
use kyte.Decimal.Arith.Sum.{IsSum, signed, decimal_add-IsSum}
use kyte.Decimal.Arith.Align.{IsClose}
use kyte.Decimal.Arith.Compare.{at_exp, compare_ℤ, decimal_cmp-exact}
use kyte.Decimal.Arith.Product.{decimal_mul-exact}
use kyte.Decimal.Arith.Remainder.{IsFarAbove, decimal_mod_undefined}
use kyte.Decimal.Convert.{decimal_to_int, decimal_to_int-exact, truncated, checked}

-- 19.99
abbrev price : KyteDec
price = record { sign = false; coeff = 1999; exp = negsuc 1; special = false }

-- -0.3
abbrev rebate : KyteDec
rebate = record { sign = true; coeff = 3; exp = negsuc 0; special = false }

-- 0e6000 and 5
abbrev large_zero : KyteDec
large_zero = record { sign = false; coeff = 0; exp = pos 6000; special = false }

abbrev five : KyteDec
five = record { sign = false; coeff = 5; exp = pos 0; special = false }

abbrev word : KyteDec → ℕ
word d = pack d.sign d.coeff d.exp

-- 35 nines, which round to a one with 34 zeros.
abbrev nines : KyteDec
nines = record {
  sign = true;
  coeff = 99999999999999999999999999999999999;
  exp = pos 2;
  special = false;
}

decode-price : decode (word price) ≡ price
unfolding decode pack biased_exponent ◌+ℤ◌ ◌-ℤ◌
decode-price = refl

decode-rebate : decode (word rebate) ≡ rebate
unfolding decode pack biased_exponent ◌+ℤ◌ ◌-ℤ◌
decode-rebate = refl

decode-large_zero : decode (word large_zero) ≡ large_zero
unfolding decode pack biased_exponent ◌+ℤ◌ ◌-ℤ◌
decode-large_zero = refl

decode-five : decode (word five) ≡ five
unfolding decode pack biased_exponent ◌+ℤ◌ ◌-ℤ◌
decode-five = refl

price-finite : (decode (word price)).special ≡ false
price-finite = rw decode-price refl

rebate-finite : (decode (word rebate)).special ≡ false
rebate-finite = rw decode-rebate refl

five-finite : (decode (word five)).special ≡ false
five-finite = rw decode-five refl

large_zero-finite : (decode (word large_zero)).special ≡ false
large_zero-finite = rw decode-large_zero refl

digits_price : num_digits 1999 ≡ 4
unfolding num_digits count_digits
digits_price = refl

digits_rebate : num_digits 3 ≡ 1
unfolding num_digits count_digits
digits_rebate = refl

close : IsClose (decode (word price)) (decode (word rebate))
unfolding ◌+ℤ◌ ◌-ℤ◌
close = rw (decode-price, decode-rebate, digits_price, digits_rebate) (omega arith)

far : IsFarAbove (decode (word large_zero)) (decode (word five))
unfolding ◌+ℤ◌
far = rw (decode-large_zero, decode-five) (omega arith)

IsCanonical-price : IsCanonical (encode price)
IsCanonical-price = encode-IsCanonical price (omega arith)

nines-normal : normalize nines ≡ record nines { coeff = 10 ^ 33; exp = pos 4 }
unfolding normalize num_digits count_digits round_drop pow10 ◌+ℤ◌
nines-normal = refl

decimal_cmp-exact_example : decimal_cmp (word price) (word rebate) ≡ (
    let x = decode (word price) in
    let y = decode (word rebate) in
    let m = min_ℤ x.exp y.exp in
    compare_ℤ (signed x.sign (at_exp x m)) (signed y.sign (at_exp y m)))
decimal_cmp-exact_example = decimal_cmp-exact (word price) (word rebate) price-finite rebate-finite

decimal_add-IsSum_example :
    (let x = decode (word price) in
      let y = decode (word rebate) in
      (s : KyteDec) × (k : ℕ) × IsSum x y s
      × IsReturned s (decode (decimal_add (word price) (word rebate))) k)
decimal_add-IsSum_example =
    decimal_add-IsSum (word price) (word rebate) price-finite rebate-finite close

few_digits : num_digits (decode (word price)).coeff + num_digits (decode (word rebate)).coeff ≤ 34
few_digits = rw (decode-price, decode-rebate, digits_price, digits_rebate) (omega arith)

product-InRange : InRange ((decode (word price)).exp +ℤ (decode (word rebate)).exp)
unfolding ◌+ℤ◌
product-InRange =
    rw (decode-price, decode-rebate) (record { low = omega arith; high = omega arith })

decimal_mul-exact_example :
    (let x = decode (word price) in
      let y = decode (word rebate) in
      decode (decimal_mul (word price) (word rebate)) ≡ record {
        sign = (if x.coeff * y.coeff == 0 then false else xor x.sign y.sign);
        coeff = x.coeff * y.coeff;
        exp = x.exp +ℤ y.exp;
        special = false;
      })
decimal_mul-exact_example =
    decimal_mul-exact (word price) (word rebate) price-finite rebate-finite few_digits
      product-InRange

nines-InRange : InRange (normalize nines).exp
nines-InRange = rw nines-normal (record { low = omega arith; high = omega arith })

decimal_to_int-exact_example : decimal_to_int (word price) ≡ (
    let d = decode (word price) in
    if d.special then ok (pos 0) else checked (signed d.sign (truncated d.coeff d.exp)))
decimal_to_int-exact_example = decimal_to_int-exact (word price)

five-nonzero : 0 < (decode (word five)).coeff
five-nonzero = rw decode-five (omega arith)

large_zero-zero : (decode (word large_zero)).coeff ≡ 0
large_zero-zero = rw decode-large_zero refl

decimal_mod_undefined_example : decimal_mod (word large_zero) (word five) ≡ undefined
decimal_mod_undefined_example =
    decimal_mod_undefined (word large_zero) (word five) large_zero-finite five-finite five-nonzero
      far
