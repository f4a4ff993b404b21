-- ===== src/Prelude/Bits.antt =====
-- Bitwise operations: the law for the lowest digit, and for numbers that are put together from two parts.
use Prim.Native.Nat.{
  ℕ, zero, suc, ◌+◌, ◌*◌, ◌/◌, ◌%◌, ◌^◌, ◌≤◌, ◌<◌, min, max, differ, digits, bitwise, bit_and,
  bit_or, bit_xor, bit_and-bitwise, bit_or-bitwise, bit_xor-bitwise,
}
use mathlib.Core.Path.{◌≡◌, refl, sym, ap, ◌∙◌}
use native.Mathlib.Nat.{pow-suc, mul_assoc}
use native.Mathlib.Omega.{arith}
use mathlib.Core.Bool.{false}
use mathlib.Core.Logic.{inl, inr}
use kyte.Prelude.Tests.{leb, leb→le, Bool-cases}

-- The laws that the three operations share: `z` is the operation at 0, `f` the one on digits.
module _ (z : ℕ → ℕ) (f : ℕ → ℕ → ℕ) where
  -- One round more than the first number needs changes nothing.
  extra_round : (n a b : ℕ) → a ≤ n → digits z f (suc n) a b ≡ digits z f n a b
  extra_round n zero b h = at_zero n b
    where
      at_zero : (n b : ℕ) → digits z f (suc n) 0 b ≡ digits z f n 0 b
      at_zero zero b = refl
      at_zero (suc n) b = refl
  extra_round zero (suc a) b h = absurd (omega arith)
  extra_round (suc n) (suc a) b h =
      ap (λ (d : ℕ). d * 2 + f (suc a % 2) (b % 2))
        (extra_round n (suc a / 2) (b / 2) (omega arith))

  rounds_enough : (n a b : ℕ) → a ≤ n → digits z f n a b ≡ bitwise z f a b
  rounds_enough zero a b h = ap (λ (x : ℕ). digits z f x a b) {x = 0} {y = a} (omega arith)
  rounds_enough (suc n) a b h = elim (Bool-cases (leb a n)) [
    | inl le ↦ extra_round n a b (leb→le a n le) ∙ rounds_enough n a b (leb→le a n le)
    | inr gt ↦ ap (λ (x : ℕ). digits z f x a b) {x = suc n} {y = a} (top n a h gt)
  ]
    where
      top : (n a : ℕ) → a ≤ suc n → leb a n ≡ false → suc n ≡ a
      top n a h k = ground arith

  -- Any operation that agrees with `bitwise` has the law for the lowest digit.
  digit_law :
      (op : ℕ → ℕ → ℕ)
      → ((a b : ℕ) → op a b ≡ bitwise z f a b)
      → ((b : ℕ) → z b ≡ z (b / 2) * 2 + f 0 (b % 2))
      → (a b : ℕ) → op a b ≡ op (a / 2) (b / 2) * 2 + f (a % 2) (b % 2)
  digit_law op agrees base zero b =
      agrees 0 b ∙ base b ∙ ap (λ (d : ℕ). d * 2 + f 0 (b % 2)) (sym (agrees 0 (b / 2)))
  digit_law op agrees base (suc a) b =
      let half = suc a / 2 in
      agrees (suc a) b
      ∙ ap (λ (d : ℕ). d * 2 + f (suc a % 2) (b % 2))
          (rounds_enough a half (b / 2) (omega arith) ∙ sym (agrees half (b / 2)))

bit_and_digit : (a b : ℕ) → bit_and a b ≡ bit_and (a / 2) (b / 2) * 2 + min (a % 2) (b % 2)
bit_and_digit = digit_law (λ b. 0) min bit_and bit_and-bitwise (λ b. omega arith)

bit_or_digit : (a b : ℕ) → bit_or a b ≡ bit_or (a / 2) (b / 2) * 2 + max (a % 2) (b % 2)
bit_or_digit = digit_law (λ b. b) max bit_or bit_or-bitwise (λ b. omega arith)

bit_xor_digit : (a b : ℕ) → bit_xor a b ≡ bit_xor (a / 2) (b / 2) * 2 + differ (a % 2) (b % 2)
bit_xor_digit = digit_law (λ b. b) differ bit_xor bit_xor-bitwise (λ b. base b (b % 2) refl)
  where
    unchanged : (d : ℕ) → differ 0 d ≡ d
    unchanged d = refl

    base : (b d : ℕ) → b % 2 ≡ d → b ≡ b / 2 * 2 + differ 0 (b % 2)
    base b d h = omega (arith, unchanged (b % 2))

bit_and_within : (n a b : ℕ) → a ≤ n → bit_and a b ≤ a
bit_and_within zero zero b h = omega (arith, bit_and-bitwise 0 b)
bit_and_within zero (suc a) b h = absurd (omega arith)
bit_and_within (suc n) zero b h = omega (arith, bit_and-bitwise 0 b)
bit_and_within (suc n) (suc a) b h =
    omega (arith, bit_and_digit (suc a) b, bit_and_within n (suc a / 2) (b / 2) (omega arith))

pub bit_and-le : (a b : ℕ) → bit_and a b ≤ a
bit_and-le a b = bit_and_within a a b (omega arith)

twice : (a n : ℕ) → a * 2 ^ suc n ≡ a * 2 ^ n * 2
twice a n = ap (λ (x : ℕ). a * x) (pow-suc 2 n) ∙ sym (mul_assoc a (2 ^ n) 2)

-- Numbers whose lowest `k` binary digits are `a0` and `b0`.
module _ (op f : ℕ → ℕ → ℕ)
    (digit : (a b : ℕ) → op a b ≡ op (a / 2) (b / 2) * 2 + f (a % 2) (b % 2)) where
  pub op_parts :
      (k a0 b0 a1 b1 : ℕ)
      → a0 < 2 ^ k
      → b0 < 2 ^ k
      → op (a0 + a1 * 2 ^ k) (b0 + b1 * 2 ^ k) ≡ op a1 b1 * 2 ^ k + op a0 b0
  op_parts zero zero zero a1 b1 h k =
      ap (λ (x : ℕ). op x (0 + b1 * 1)) {x = 0 + a1 * 1} {y = a1} (omega arith)
      ∙ ap (λ (x : ℕ). op a1 x) {x = 0 + b1 * 1} {y = b1} (omega arith)
      ∙ omega (arith, digit 0 0)
  op_parts zero (suc a0) b0 a1 b1 h k = absurd (omega arith)
  op_parts zero zero (suc b0) a1 b1 h k = absurd (omega arith)
  op_parts (suc n) a0 b0 a1 b1 h k =
      let a = a0 + a1 * 2 ^ suc n in
      let b = b0 + b1 * 2 ^ suc n in
      let ea = twice a1 n in
      let eb = twice b1 n in
      let halves =
        ap (λ (x : ℕ). op x (b / 2)) {x = a / 2} {y = a0 / 2 + a1 * 2 ^ n} (omega (arith, ea))
        ∙ ap (λ (x : ℕ). op (a0 / 2 + a1 * 2 ^ n) x) {x = b / 2} {y = b0 / 2 + b1 * 2 ^ n}
            (omega (arith, eb)) in
      let lowest =
        ap (λ (x : ℕ). f x (b % 2)) {x = a % 2} {y = a0 % 2} (omega (arith, ea))
        ∙ ap (λ (x : ℕ). f (a0 % 2) x) {x = b % 2} {y = b0 % 2} (omega (arith, eb)) in
      omega (
        arith,
        digit a b,
        halves,
        lowest,
        op_parts n (a0 / 2) (b0 / 2) a1 b1 (omega (arith, pow-suc 2 n))
            (omega (arith, pow-suc 2 n)),
        digit a0 b0,
        twice (op a1 b1) n,
      )

-- A byte and what is above it.
pub bit_and_byte :
    (a0 b0 a1 b1 : ℕ)
    → a0 < 256
    → b0 < 256
    → bit_and (a0 + a1 * 256) (b0 + b1 * 256) ≡ bit_and a1 b1 * 256 + bit_and a0 b0
bit_and_byte a0 b0 a1 b1 h k = op_parts bit_and min bit_and_digit 8 a0 b0 a1 b1 h k

pub bit_or_byte :
    (a0 b0 a1 b1 : ℕ)
    → a0 < 256
    → b0 < 256
    → bit_or (a0 + a1 * 256) (b0 + b1 * 256) ≡ bit_or a1 b1 * 256 + bit_or a0 b0
bit_or_byte a0 b0 a1 b1 h k = op_parts bit_or max bit_or_digit 8 a0 b0 a1 b1 h k

pub bit_xor_byte :
    (a0 b0 a1 b1 : ℕ)
    → a0 < 256
    → b0 < 256
    → bit_xor (a0 + a1 * 256) (b0 + b1 * 256) ≡ bit_xor a1 b1 * 256 + bit_xor a0 b0
bit_xor_byte a0 b0 a1 b1 h k = op_parts bit_xor differ bit_xor_digit 8 a0 b0 a1 b1 h k
