-- ===== src/Decimal/Returned.antt =====
-- decimal.cpp: what the operations return, read back from the word that `dec_encode` makes.
use kyte.Prelude.{
  ℕ, ◌^◌, ◌≤◌, ◌<◌, ◌≡◌, refl, ap, ◌∙◌, false, arith, ◌==◌, if◌then◌else◌, ℤ, pos, negsuc, ltb_ℤ,
  ◌+ℤ◌, ◌-ℤ◌,
}
use kyte.Decimal.Word.{KyteDec, decode, bias, biased_exponent, decode-pack_clamped}
use kyte.Decimal.Digits.{u128, IsHalfEven}
use kyte.Decimal.Encode.{encode, normalize, normalize-Rounds, sign-normalize}

-- The exponents of decimal128 go from -6176 to 6111.
abbrev pub clamped : ℤ → ℤ
clamped e =
    if ltb_ℤ e (negsuc 6175) then negsuc 6175 else if ltb_ℤ (pos 6111) e then pos 6111 else e

-- `r` is `d` with `k` digits rounded away half to even: none if 34 digits hold the coefficient, and else
-- as few as leave 34. It has the sign of `d`, but a zero has none; and its exponent is clamped.
pub record IsReturned (d r : KyteDec) (k : ℕ) : Type 0 where
  pub finite : r.special ≡ false
  pub sign : r.sign ≡ (if r.coeff == 0 then false else d.sign)
  pub exponent : r.exp ≡ clamped (d.exp +ℤ pos k)
  pub small : r.coeff < 10 ^ 34
  pub rounded : IsHalfEven d.coeff (10 ^ k) r.coeff
  pub exact : d.coeff < 10 ^ 34 → k ≡ 0
  pub full : 0 < k → 10 ^ 33 ≤ r.coeff

pub unbiased : (e : ℤ) → pos (biased_exponent e) -ℤ pos bias ≡ clamped e
unfolding biased_exponent ◌+ℤ◌ ◌-ℤ◌
unbiased e = ground arith

pub encode-IsReturned :
    (d : KyteDec) → d.coeff < u128 → (k : ℕ) × IsReturned d (decode (encode d)) k
unfolding encode
encode-IsReturned d h =
    let (k, n) = normalize-Rounds d h in
    let r = normalize d in
    (
      k,
      rw (decode-pack_clamped r.sign r.coeff r.exp (omega (arith, n.small))) (record {
        finite = refl;
        sign = sign-normalize d;
        exponent = unbiased r.exp ∙ ap clamped n.exponent;
        small = n.small;
        rounded = n.rounded;
        exact = n.exact;
        full = n.full;
      }),
    )
