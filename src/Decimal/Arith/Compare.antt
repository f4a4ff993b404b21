-- ===== src/Decimal/Arith/Compare.antt =====
-- `kyte_decimal_cmp` against the order of the exact values.
use native.Mathlib.Nat.{pow-le-pow_right, pow-zero}
use native.Mathlib.Decide.{dec_le}
use kyte.Prelude.{
  ℕ, zero, suc, ◌+◌, ◌-◌, ◌*◌, ◌^◌, ◌≤◌, ◌<◌, ◌≡◌, refl, sym, ◌∙◌, Bool, true, false, ◌&&◌, arith,
  ◌==◌, if◌then◌else◌, ℤ, pos, negsuc, pos_part, ltb_ℤ, ◌+ℤ◌, ◌-ℤ◌, ◌≤ℤ◌, int_laws,
}
use kyte.Decimal.Word.{KyteDec, decode}
use kyte.Decimal.Digits.{u128, num_digits, num_digits-HasDigits, num_digits-le, pow_add, ten_pos}
use kyte.Decimal.Arith.{
  min_ℤ, max_ℤ, msd, common_exp, rescale, align, compare_coeff, compare_aligned, decimal_cmp,
}
use kyte.Decimal.Arith.Sum.{or_false, signed, min-le, min-fits}
use kyte.Decimal.Arith.Align.{
  decode-coeff-lt, common_exp-sym, common_exp-fits, IsClose, common_exp-IsClose, rescale_up,
  rescale_down-le,
}

-- The coefficient at a lower exponent, as a power of ten allows.
abbrev pub at_exp : KyteDec → ℤ → ℕ
at_exp d e = d.coeff * 10 ^ pos_part (d.exp -ℤ e)

few : (d : KyteDec) → d.coeff < 2 ^ 113 → num_digits d.coeff ≤ 35
few d h = num_digits-le d.coeff 35 (omega arith) (omega arith) (omega arith)

-- The leading digit of the first operand decides, if the operands are far apart.
max-far :
    (a b ex ey : ℤ)
    → ey ≤ℤ ex
    → b ≤ℤ ey +ℤ pos 35
    → ¬ (max_ℤ a b -ℤ pos 37 ≤ℤ min_ℤ ex ey)
    → (max_ℤ a b ≡ a) × (ey +ℤ pos 38 ≤ℤ a)
unfolding ◌+ℤ◌ ◌-ℤ◌
max-far a b ex ey le hb far = ground arith

far_clamp :
    (a e : ℤ)
    → ¬ (a -ℤ pos 37 ≤ℤ e)
    → (if ltb_ℤ e (a -ℤ pos 37) then a -ℤ pos 37 else e) ≡ a -ℤ pos 37
far_clamp a e far = ground arith

scaled_up : (c t : ℕ) → c < u128 → 0 < c → 37 ≤ num_digits c + t → 10 ^ 36 ≤ c * 10 ^ t
scaled_up c t h nonzero room =
    let digits = num_digits-HasDigits c h in
    let big =
      pow-le-pow_right {n = 10} (omega arith) {i = 36} {j = num_digits c - 1 + t}
        (omega (arith, digits.positive)) in
    let above = digits.above nonzero in grind (arith, pow_add (num_digits c - 1) t)

shift_room : (x y : ℤ) (n : ℕ) → y ≤ℤ x → y +ℤ pos 38 ≤ℤ x +ℤ pos n → 37 ≤ n + pos_part (x -ℤ y)
unfolding ◌+ℤ◌ ◌-ℤ◌
shift_room x y n le h = ground arith

shift_exact : (x : ℤ) (n : ℕ) → n ≤ 35 → 37 ≤ n + pos_part (x -ℤ (x +ℤ pos n -ℤ pos 37))
unfolding ◌+ℤ◌ ◌-ℤ◌
shift_exact x n h = ground arith

diff_self : (e : ℤ) → pos_part (e -ℤ e) ≡ 0
unfolding ◌-ℤ◌
diff_self e = ground arith

below_lead : (y a : ℤ) → y +ℤ pos 38 ≤ℤ a → ltb_ℤ y (a -ℤ pos 37) ≡ true
unfolding ◌+ℤ◌ ◌-ℤ◌
below_lead y a h = ground arith

module _ (x y : KyteDec) (hx : x.coeff < 2 ^ 113) (hy : y.coeff < 2 ^ 113) (nonzero : 0 < x.coeff)
    (le : y.exp ≤ℤ x.exp) (far : ¬ IsClose x y) where
  lead : (max_ℤ (msd x) (msd y) ≡ msd x) × (y.exp +ℤ pos 38 ≤ℤ msd x)
  lead = max-far (msd x) (msd y) x.exp y.exp le (omega (int_laws, few y hy)) far

  far_exp : common_exp x y ≡ msd x -ℤ pos 37
  unfolding common_exp
  far_exp = rw (lead.0) (far_clamp (msd x) (min_ℤ x.exp y.exp) (rw lead.0 at far))

  far_exact : y.coeff * 10 ^ pos_part (y.exp -ℤ y.exp) < x.coeff * 10 ^ pos_part (x.exp -ℤ y.exp)
  far_exact =
      let big =
        scaled_up x.coeff (pos_part (x.exp -ℤ y.exp)) (omega arith) nonzero
          (shift_room x.exp y.exp (num_digits x.coeff) le lead.1) in
      rw (diff_self y.exp, pow-zero 10) (omega arith)

  far_aligned : (rescale y (common_exp x y)).coeff < (rescale x (common_exp x y)).coeff
  far_aligned =
      let e = common_exp x y in
      let same : e ≡ msd x -ℤ pos 37 = far_exp in
      let few_x = few x hx in
      let room = shift_exact x.exp (num_digits x.coeff) few_x in
      let big = scaled_up x.coeff (pos_part (x.exp -ℤ e)) (omega arith) nonzero (rw same room) in
      let (up, _) = rescale_up x e (omega arith) (rw same (omega int_laws)) (common_exp-fits x y) in
      let small = rescale_down-le y e hy (rw same (below_lead y.exp (msd x) lead.1)) in omega arith

compare_gt : (a b : ℕ) → b < a → compare_coeff a b ≡ pos 1
compare_gt a b h = ground arith

compare_lt : (a b : ℕ) → a < b → compare_coeff a b ≡ negsuc 0
compare_lt a b h = ground arith

min-right : (a b : ℤ) → b ≤ℤ a → min_ℤ a b ≡ b
min-right a b h = ground arith

min-left : (a b : ℤ) → a ≤ℤ b → min_ℤ a b ≡ a
min-left a b h = ground arith

IsClose-sym : (x y : KyteDec) → IsClose y x → IsClose x y
unfolding ◌-ℤ◌
IsClose-sym x y h = ground arith

close_dec : (x y : KyteDec) → Dec (IsClose x y)
close_dec x y = dec_le _ _

exp_dec : (a b : ℤ) → Dec (a ≤ℤ b)
exp_dec a b = dec_le _ _

-- The aligned coefficients of two operands are ordered as the exact values, however far apart.
pub aligned_order :
    (x y : KyteDec)
    → x.coeff < 2 ^ 113
    → y.coeff < 2 ^ 113
    → 0 < x.coeff
    → 0 < y.coeff
    → let e = common_exp x y in
      let m = min_ℤ x.exp y.exp in
      compare_coeff (rescale x e).coeff (rescale y e).coeff
      ≡ compare_coeff (at_exp x m) (at_exp y m)
aligned_order x y hx hy nx ny = elim (close_dec x y) [
  | yes close ↦
      let (low_x, low_y) = min-le x.exp y.exp in
      let (fits_x, fits_y) = min-fits x y close in
      rw
        (
          common_exp-IsClose x y close,
          (rescale_up x _ (omega arith) low_x fits_x).0,
          (rescale_up y _ (omega arith) low_y fits_y).0,
        )
        refl
  | no far ↦ elim (exp_dec y.exp x.exp) [
    | yes le ↦
        compare_gt _ _ (far_aligned x y hx hy nx le far)
        ∙ sym (rw (min-right x.exp y.exp le) (compare_gt _ _ (far_exact x y hx hy nx le far)))
    | no gt ↦
        let le : x.exp ≤ℤ y.exp = omega arith in
        let far' : ¬ IsClose y x = λ h. far (IsClose-sym x y h) in
        compare_lt (rescale x (common_exp x y)).coeff (rescale y (common_exp x y)).coeff
          (rw (common_exp-sym x y) (far_aligned y x hy hx ny le far'))
        ∙ sym (rw (min-left x.exp y.exp le) (compare_lt _ _ (far_exact y x hy hx ny le far')))
  ]
]

-- The order of integers as -1, 0 or 1.
abbrev pub compare_ℤ : ℤ → ℤ → ℤ
compare_ℤ a b = if ltb_ℤ a b then negsuc 0 else if ltb_ℤ b a then pos 1 else pos 0

sign_code : Bool → ℕ → ℤ
sign_code s c = if c == 0 then pos 0 else if s then negsuc 0 else pos 1

-- The tests of the code on signs and zeros, over the exact values `m` and `n` of both operands.
decided : Bool → Bool → ℕ → ℕ → ℕ → ℕ → ℤ
decided s t xc yc a b =
    if (xc == 0) && (yc == 0)
    then pos 0
    else if ltb_ℤ (sign_code s xc) (sign_code t yc)
    then negsuc 0
    else if ltb_ℤ (sign_code t yc) (sign_code s xc)
    then pos 1
    else if ltb_ℤ (sign_code s xc) (pos 0)
    then pos 0 -ℤ compare_coeff a b
    else compare_coeff a b

module _ (a b m n : ℕ) where
  abbrev IsOrder : Type 0
  IsOrder = compare_coeff a b ≡ compare_coeff m n

  decided-zero_left :
      (s t : Bool) (yc : ℕ)
      → m ≡ 0
      → (yc ≡ 0 → n ≡ 0)
      → (0 < yc → 0 < n)
      → decided s t 0 yc a b ≡ compare_ℤ (signed s m) (signed t n)
  unfolding decided sign_code
  decided-zero_left true true yc zm zn pn = ground arith
  decided-zero_left true false yc zm zn pn = ground arith
  decided-zero_left false true yc zm zn pn = ground arith
  decided-zero_left false false yc zm zn pn = ground arith

  decided-zero_right :
      (s t : Bool) (xc : ℕ)
      → n ≡ 0
      → 0 < xc
      → 0 < m
      → decided s t xc 0 a b ≡ compare_ℤ (signed s m) (signed t n)
  unfolding decided sign_code
  decided-zero_right true true xc zn px pm = ground arith
  decided-zero_right true false xc zn px pm = ground arith
  decided-zero_right false true xc zn px pm = ground arith
  decided-zero_right false false xc zn px pm = ground arith

  decided-nonzero :
      (s t : Bool) (xc yc : ℕ)
      → 0 < xc
      → 0 < yc
      → 0 < m
      → 0 < n
      → IsOrder
      → decided s t xc yc a b ≡ compare_ℤ (signed s m) (signed t n)
  unfolding decided sign_code ◌-ℤ◌
  decided-nonzero true true xc yc px py pm pn o = ground arith
  decided-nonzero true false xc yc px py pm pn o = ground arith
  decided-nonzero false true xc yc px py pm pn o = ground arith
  decided-nonzero false false xc yc px py pm pn o = ground arith

  decided-exact :
      (s t : Bool) (xc yc : ℕ)
      → (xc ≡ 0 → m ≡ 0)
      → (yc ≡ 0 → n ≡ 0)
      → (0 < xc → 0 < m)
      → (0 < yc → 0 < n)
      → (0 < xc → 0 < yc → IsOrder)
      → decided s t xc yc a b ≡ compare_ℤ (signed s m) (signed t n)
  decided-exact s t zero yc zm zn pm pn o = decided-zero_left s t yc (zm refl) zn pn
  decided-exact s t (suc xc) zero zm zn pm pn o =
      decided-zero_right s t (suc xc) (zn refl) (omega arith) (pm (omega arith))
  decided-exact s t (suc xc) (suc yc) zm zn pm pn o =
      decided-nonzero s t (suc xc) (suc yc) (omega arith) (omega arith) (pm (omega arith))
        (pn (omega arith)) (o (omega arith) (omega arith))

pub at_exp-zero :
    (d : KyteDec) (e : ℤ) → (d.coeff ≡ 0 → at_exp d e ≡ 0) × (0 < d.coeff → 0 < at_exp d e)
at_exp-zero d e =
    let p = ten_pos (pos_part (d.exp -ℤ e)) in ((λ z. rw z (omega arith)), (λ h. grind arith))

-- The comparison of two finite words is -1, 0 or 1 as the exact value of the first is less than,
-- equal to or greater than that of the second; the exact values are the signed coefficients scaled
-- to the lower exponent, and the exponents may be any distance apart.
pub decimal_cmp-exact :
    (a b : ℕ)
    → let x = decode a in
      let y = decode b in
      x.special ≡ false
      → y.special ≡ false
      → let m = min_ℤ x.exp y.exp in
        decimal_cmp a b ≡ compare_ℤ (signed x.sign (at_exp x m)) (signed y.sign (at_exp y m))
unfolding decimal_cmp decided sign_code align compare_aligned
decimal_cmp-exact a b hx hy =
    let x = decode a in
    let y = decode b in
    let m = min_ℤ x.exp y.exp in
    let e = common_exp x y in
    let (zx, px) = at_exp-zero x m in
    let (zy, py) = at_exp-zero y m in
    rw (or_false x.special y.special hx hy) (
      decided-exact (rescale x e).coeff (rescale y e).coeff (at_exp x m) (at_exp y m) x.sign y.sign
        x.coeff y.coeff zx zy px py (aligned_order x y (decode-coeff-lt a) (decode-coeff-lt b)))
