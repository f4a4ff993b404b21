-- ===== src/Decimal/Arith/Align.antt =====
-- What `dec_align` keeps: no 128-bit overflow, and no digit unless the operands are too far apart.
use native.Mathlib.Nat.{mod-eq_of_lt, pow-zero, pow-le-pow_right}
use kyte.Prelude.{
  ℕ, ◌+◌, ◌*◌, ◌^◌, ◌≤◌, ◌<◌, ◌≡◌, refl, inl, inr, true, false, arith, if◌then◌else◌, Bool-cases, ℤ,
  pos, pos_part, ltb_ℤ, ◌+ℤ◌, ◌-ℤ◌, ◌≤ℤ◌, int_laws,
}
use kyte.Decimal.Word.{KyteDec, decode}
use kyte.Decimal.Digits.{
  u128, num_digits, num_digits-HasDigits, pow10-exact, IsHalfEven, round_drop-IsHalfEven,
  IsHalfEven-le, pow_add, ten_pos,
}
use kyte.Decimal.Arith.{msd, min_ℤ, max_ℤ, common_exp, rescale}

pub decode-coeff-lt : (w : ℕ) → (decode w).coeff < 2 ^ 113
unfolding decode
decode-coeff-lt w = ground arith

pub common_exp-sym : (a b : KyteDec) → common_exp a b ≡ common_exp b a
unfolding common_exp ◌-ℤ◌
common_exp-sym a b = ground arith

le-clamp : (l m : ℤ) → m ≤ℤ (if ltb_ℤ l m then m else l)
le-clamp l m = ground arith

le-max_ℤ : (a b : ℤ) → a ≤ℤ max_ℤ a b
le-max_ℤ a b = ground arith

-- Both operands fit into 37 digits at the common exponent.
pub common_exp-fits : (a b : KyteDec) → msd a ≤ℤ common_exp a b +ℤ pos 37
unfolding common_exp
common_exp-fits a b =
    let high = le-clamp (min_ℤ a.exp b.exp) (max_ℤ (msd a) (msd b) -ℤ pos 37) in
    let top = le-max_ℤ (msd a) (msd b) in omega int_laws

-- The exponents are so close that the lower one is the common one.
abbrev pub IsClose : KyteDec → KyteDec → Type 0
IsClose a b = max_ℤ (msd a) (msd b) -ℤ pos 37 ≤ℤ min_ℤ a.exp b.exp

pub common_exp-IsClose : (a b : KyteDec) → IsClose a b → common_exp a b ≡ min_ℤ a.exp b.exp
unfolding common_exp
common_exp-IsClose a b h = ground arith

scaled_lt : (c n t : ℕ) → c < 10 ^ n → n + t ≤ 37 → c * 10 ^ t < 10 ^ 37
scaled_lt c n t h le =
    let big = pow-le-pow_right {n = 10} (omega arith) {i = n + t} {j = 37} le in
    grind (arith, pow_add n t, ten_pos t)

room_for : (x e : ℤ) (n : ℕ) → e ≤ℤ x → x +ℤ pos n ≤ℤ e +ℤ pos 37 → n + pos_part (x -ℤ e) ≤ 37
unfolding ◌+ℤ◌ ◌-ℤ◌
room_for x e n le fits = ground arith

no_room : (x e : ℤ) → e ≤ℤ x → ltb_ℤ e x ≡ false → (pos_part (x -ℤ e) ≡ 0) × (ltb_ℤ x e ≡ false)
unfolding ◌-ℤ◌
no_room x e le level = ground arith

-- Scaling up is exact.
pub rescale_up :
    (d : KyteDec) (e : ℤ)
    → d.coeff < u128
    → e ≤ℤ d.exp
    → msd d ≤ℤ e +ℤ pos 37
    → ((rescale d e).coeff ≡ d.coeff * 10 ^ pos_part (d.exp -ℤ e)) × ((rescale d e).coeff < 10 ^ 37)
unfolding rescale
rescale_up d e h le fits = elim (Bool-cases (ltb_ℤ e d.exp)) [
  | inl above ↦
      let t = pos_part (d.exp -ℤ e) in
      let digits = num_digits-HasDigits d.coeff h in
      let room : num_digits d.coeff + t ≤ 37 = room_for d.exp e (num_digits d.coeff) le fits in
      let small = scaled_lt d.coeff (num_digits d.coeff) t digits.below room in
      rw
        (
          above,
          pow10-exact t (omega arith),
          mod-eq_of_lt {n = d.coeff * 10 ^ t} {m = u128} (omega arith),
        )
        (refl, small)
  | inr level ↦
      let (no_shift, not_below) = no_room d.exp e le level in
      let digits = num_digits-HasDigits d.coeff h in
      let room : num_digits d.coeff + 0 ≤ 37 =
        omega (arith, room_for d.exp e (num_digits d.coeff) le fits) in
      let small = scaled_lt d.coeff (num_digits d.coeff) 0 digits.below room in
      rw (level, not_below, no_shift) (omega (arith, pow-zero 10))
]

not_above : (x e : ℤ) → ltb_ℤ x e ≡ true → ltb_ℤ e x ≡ false
not_above x e h = ground arith

-- Scaling down rounds half to even.
pub rescale_down :
    (d : KyteDec) (e : ℤ)
    → d.coeff < u128
    → ltb_ℤ d.exp e ≡ true
    → IsHalfEven d.coeff (10 ^ pos_part (e -ℤ d.exp)) (rescale d e).coeff
unfolding rescale
rescale_down d e h below =
    rw (not_above d.exp e below, below) (round_drop-IsHalfEven d.coeff (pos_part (e -ℤ d.exp)) h)

pub rescale_down-le :
    (d : KyteDec) (e : ℤ) → d.coeff < 2 ^ 113 → ltb_ℤ d.exp e ≡ true → (rescale d e).coeff ≤ 10 ^ 35
rescale_down-le d e h below =
    let t = pos_part (e -ℤ d.exp) in
    IsHalfEven-le d.coeff (10 ^ t) (rescale d e).coeff (10 ^ 35)
      (rescale_down d e (omega arith) below) (grind (arith, ten_pos t))

pub rescale-lt :
    (d : KyteDec) (e : ℤ) → d.coeff < 2 ^ 113 → msd d ≤ℤ e +ℤ pos 37 → (rescale d e).coeff ≤ 10 ^ 37
rescale-lt d e h fits = elim (Bool-cases (ltb_ℤ d.exp e)) [
  | inl below ↦ omega (arith, rescale_down-le d e h below)
  | inr other ↦ omega (arith, (rescale_up d e (omega arith) (ground arith) fits).1)
]

pub rescale-fields :
    (d : KyteDec) (e : ℤ)
    → ((rescale d e).exp ≡ e) × ((rescale d e).sign ≡ d.sign) × ((rescale d e).special ≡ d.special)
unfolding rescale
rescale-fields d e = ground arith
