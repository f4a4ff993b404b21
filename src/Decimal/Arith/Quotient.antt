-- ===== src/Decimal/Arith/Quotient.antt =====
-- `kyte_decimal_div`: the quotient is rounded half to even at its own exponent, and stripping
-- trailing zeros keeps its value.
use native.Mathlib.Nat.{div-add-mod, mod-lt}
use kyte.Prelude.{
  ℕ, ◌+◌, ◌*◌, ◌/◌, ◌%◌, ◌^◌, ◌≤◌, ◌<◌, ◌≡◌, sym, ◌↔◌, inl, inr, Bool, false, not, ◌&&◌, xor, arith,
  ltb, ◌==◌, if◌then◌else◌, Bool-cases, ℤ, pos, ltb_ℤ, ◌+ℤ◌, ◌-ℤ◌,
}
use kyte.Decimal.Word.{KyteDec, decode}
use kyte.Decimal.Digits.{u128, IsHalfEven}
use kyte.Decimal.Arith.{round_quotient, decimal_div, panic}

quotient_parts :
    (n d q r : ℕ)
    → n ≡ d * q + r
    → r < d
    → d < 2 ^ 113
    → IsHalfEven n d (
        let twice = r * 2 % u128 in
        if ltb d twice then q + 1 else if (twice == d) && (q % 2 == 1) then q + 1 else q)
quotient_parts n d q r e lt small = elim (Bool-cases (ltb d (r * 2 % u128))) [
  | inl up ↦ rw up (ground arith)
  | inr rest ↦ elim (Bool-cases ((r * 2 % u128 == d) && (q % 2 == 1))) [
    | inl tie ↦ rw (rest, tie) (ground arith)
    | inr down ↦ rw (rest, down) (ground arith)
  ]
]

-- Twice the remainder does not wrap, so the quotient is rounded half to even.
pub round_quotient-IsHalfEven :
    (n d : ℕ) → 0 < d → d < 2 ^ 113 → IsHalfEven n d (round_quotient n d)
unfolding round_quotient
round_quotient-IsHalfEven n d pos_d lt =
    quotient_parts n d (n / d) (n % d) (sym (div-add-mod n d)) (mod-lt n pos_d) lt

-- `r` is `d` without `k` trailing zeros.
pub record Stripped (d r : KyteDec) (k : ℕ) : Type 0 where
  pub value : d.coeff ≡ r.coeff * 10 ^ k
  pub exponent : r.exp ≡ d.exp +ℤ pos k
  pub same_sign : r.sign ≡ d.sign

-- Why the loop of `dec_strip_to` goes on.
abbrev pub strippable : KyteDec → ℤ → Bool
strippable d e = ltb_ℤ d.exp e && (not (d.coeff == 0) && (d.coeff % 10 == 0))

-- Division panics exactly where both words are finite and the coefficient of the divisor is zero.
pub decimal_div-panic_iff :
    (a b : ℕ)
    → (decimal_div a b ≡ panic)
      ↔ (((decode a).special ≡ false) × ((decode b).special ≡ false) × ((decode b).coeff ≡ 0))
unfolding decimal_div
decimal_div-panic_iff a b = (λ h. ground arith, λ h. ground arith)

-- A value is the quotient of two that are not zero: the dividend, scaled up to 35 digits by `p`
-- zeros, is divided by the divisor and rounded half to even, and `k` trailing zeros are dropped, until
-- the exponent is the difference of the operands' exponents or a digit other than zero comes last.
pub record IsQuotient (x y s : KyteDec) (p k : ℕ) : Type 0 where
  pub low : 10 ^ 34 ≤ x.coeff * 10 ^ p
  pub high : x.coeff * 10 ^ p < 10 ^ 35
  pub rounded : IsHalfEven (x.coeff * 10 ^ p) y.coeff (s.coeff * 10 ^ k)
  pub exponent : s.exp ≡ x.exp -ℤ y.exp -ℤ pos p +ℤ pos k
  pub sign : s.sign ≡ xor x.sign y.sign
  pub stripped : strippable s (x.exp -ℤ y.exp) ≡ false
