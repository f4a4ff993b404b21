-- ===== src/Decimal/Arith/Sum.antt =====
-- `kyte_decimal_add` and `kyte_decimal_sub` against the exact sum.
use kyte.Prelude.{
  ℕ, ◌*◌, ◌^◌, ◌≤◌, ◌<◌, ◌≡◌, refl, sym, ap, ◌∙◌, ◌⊎◌, inl, inr, Bool, true, false, not, ◌||◌,
  arith, if◌then◌else◌, Bool-cases, ℤ, pos, pos_part, sub_ℕ, ◌+ℤ◌, ◌-ℤ◌, ◌≤ℤ◌,
}
use kyte.Decimal.Word.{KyteDec, decode, pack, biased_exponent, decode-pack_clamped}
use kyte.Decimal.Digits.{u128}
use kyte.Decimal.Encode.{encode, normalize, normalize_small, IsCanonical, encode-IsCanonical}
use kyte.Decimal.Returned.{IsReturned, encode-IsReturned}
use kyte.Decimal.Arith.{
  min_ℤ, msd, common_exp, rescale, align, sum_fields, sum_aligned, add_signed, decimal_add,
  decimal_sub, dec_zero,
}
use kyte.Decimal.Arith.Align.{
  decode-coeff-lt, common_exp-sym, common_exp-fits, IsClose, common_exp-IsClose, rescale_up,
  rescale-lt, rescale-fields,
}

-- A coefficient with its sign.
abbrev pub signed : Bool → ℕ → ℤ
signed s c = if s then sub_ℕ 0 c else pos c

-- A zero is encoded without its sign.
encode_zero :
    (s t : Bool) (c : ℕ) (e : ℤ)
    → c ≡ 0
    → encode (record { sign = s; coeff = c; exp = e; special = false })
      ≡ encode (record { sign = t; coeff = c; exp = e; special = false })
unfolding encode
encode_zero s t c e z = rw (
  normalize_small (record { sign = s; coeff = c; exp = e; special = false }) (omega arith),
  normalize_small (record { sign = t; coeff = c; exp = e; special = false }) (omega arith),
  z,
)

sum_fields-lt : (s t : Bool) (m n : ℕ) → m ≤ 10 ^ 37 → n ≤ 10 ^ 37 → (sum_fields s t m n).1 < u128
unfolding sum_fields
sum_fields-lt true true m n hm hn = omega arith
sum_fields-lt false false m n hm hn = omega arith
sum_fields-lt true false m n hm hn = ground arith
sum_fields-lt false true m n hm hn = ground arith

-- The branches compute the sum of the signed coefficients.
sum_fields-signed :
    (s t : Bool) (m n : ℕ)
    → m ≤ 10 ^ 37
    → n ≤ 10 ^ 37
    → let f = sum_fields s t m n in signed f.0 f.1 ≡ signed s m +ℤ signed t n
unfolding sum_fields ◌+ℤ◌
sum_fields-signed true true m n hm hn = ground arith
sum_fields-signed false false m n hm hn = ground arith
sum_fields-signed true false m n hm hn = ground arith
sum_fields-signed false true m n hm hn = ground arith

-- Swapped operands give the same field, or two zeros.
sum_fields-sym :
    (s t : Bool) (m n : ℕ)
    → let f = sum_fields s t m n in
      let g = sum_fields t s n m in (f.1 ≡ g.1) × ((f.0 ≡ g.0) ⊎ (f.1 ≡ 0))
unfolding sum_fields
sum_fields-sym true true m n = ground arith
sum_fields-sym false false m n = ground arith
sum_fields-sym true false m n = ground arith
sum_fields-sym false true m n = ground arith

encode-sum_aligned_sym :
    (x y : KyteDec) → x.exp ≡ y.exp → encode (sum_aligned (x, y)) ≡ encode (sum_aligned (y, x))
unfolding sum_aligned
encode-sum_aligned_sym x y e =
    let (c, s) = sum_fields-sym x.sign y.sign x.coeff y.coeff in
    elim s [
      | inl same_sign ↦ rw (c, same_sign, e) refl
      | inr zero_sum ↦
          encode_zero _ (sum_fields y.sign x.sign y.coeff x.coeff).0 _ x.exp zero_sum
          ∙ rw (c, e) refl
    ]

or_comm : (a b : Bool) → (a || b) ≡ (b || a)
or_comm true true = refl
or_comm true false = refl
or_comm false true = refl
or_comm false false = refl

add_signed-sym : (x y : KyteDec) → add_signed x y ≡ add_signed y x
unfolding add_signed align
add_signed-sym x y =
    rw (or_comm x.special y.special, common_exp-sym x y)
      (ap (λ (w : ℕ). if y.special || x.special then dec_zero else w)
        (encode-sum_aligned_sym _ _
          ((rescale-fields x (common_exp y x)).0 ∙ sym (rescale-fields y (common_exp y x)).0)))

-- Addition is commutative on all words, special ones and those that lose digits included.
pub decimal_add-sym : (a b : ℕ) → decimal_add a b ≡ decimal_add b a
unfolding decimal_add
decimal_add-sym a b = add_signed-sym (decode a) (decode b)

sum_aligned-align :
    (x y : KyteDec) → x.coeff < 2 ^ 113 → y.coeff < 2 ^ 113 → (sum_aligned (align x y)).coeff < u128
unfolding sum_aligned align
sum_aligned-align x y hx hy =
    let e = common_exp x y in
    let fits : msd y ≤ℤ e +ℤ pos 37 = rw (common_exp-sym x y) (common_exp-fits y x) in
    sum_fields-lt _ _ _ _ (rescale-lt x e hx (common_exp-fits x y)) (rescale-lt y e hy fits)

pub dec_zero-IsCanonical : IsCanonical dec_zero
unfolding dec_zero pack decode biased_exponent ◌+ℤ◌ ◌-ℤ◌
dec_zero-IsCanonical = record {
  word = omega arith;
  finite = refl;
  small = omega arith;
  unsigned_zero = λ _. refl;
}

-- Whatever the two words, their sum is a canonical word: below 2^128, finite, with a coefficient
-- of at most 34 digits and no negative zero.
pub decimal_add-IsCanonical : (a b : ℕ) → IsCanonical (decimal_add a b)
unfolding decimal_add add_signed
decimal_add-IsCanonical a b = elim (Bool-cases ((decode a).special || (decode b).special)) [
  | inl sp ↦ rw sp dec_zero-IsCanonical
  | inr fin ↦ rw fin (
      encode-IsCanonical _
        (sum_aligned-align (decode a) (decode b) (decode-coeff-lt a) (decode-coeff-lt b)))
]

-- The exact sum `s` of two operands at the lower of their exponents.
pub record IsSum (x y s : KyteDec) : Type 0 where
  pub exponent : s.exp ≡ min_ℤ x.exp y.exp
  pub value :
      signed s.sign s.coeff
      ≡ signed x.sign (x.coeff * 10 ^ pos_part (x.exp -ℤ s.exp))
        +ℤ signed y.sign (y.coeff * 10 ^ pos_part (y.exp -ℤ s.exp))

pub min-le : (a b : ℤ) → (min_ℤ a b ≤ℤ a) × (min_ℤ a b ≤ℤ b)
min-le a b = ground arith

pub min-fits :
    (x y : KyteDec)
    → IsClose x y
    → (msd x ≤ℤ min_ℤ x.exp y.exp +ℤ pos 37) × (msd y ≤ℤ min_ℤ x.exp y.exp +ℤ pos 37)
min-fits x y close =
    let same = common_exp-IsClose x y close in
    (rw same at (common_exp-fits x y), rw (common_exp-sym y x, same) at (common_exp-fits y x))

sum_aligned-IsSum :
    (x y : KyteDec)
    → x.coeff < 2 ^ 113
    → y.coeff < 2 ^ 113
    → IsClose x y
    → IsSum x y (sum_aligned (align x y))
unfolding sum_aligned align
sum_aligned-IsSum x y hx hy close = rw (common_exp-IsClose x y close) (record {
  exponent = (rescale-fields x (min_ℤ x.exp y.exp)).0;
  value =
      let e = min_ℤ x.exp y.exp in
      let (to_e, _, _) = rescale-fields x e in
      let (fits_x, fits_y) = min-fits x y close in
      let (low_x, low_y) = min-le x.exp y.exp in
      let (up_x, lt_x) = rescale_up x e (omega arith) low_x fits_x in
      let (up_y, lt_y) = rescale_up y e (omega arith) low_y fits_y in
      let total =
        sum_fields-signed (rescale x e).sign (rescale y e).sign (rescale x e).coeff
          (rescale y e).coeff (omega arith) (omega arith) in
      rw to_e (total ∙ rw ((rescale-fields x e).1, (rescale-fields y e).1, up_x, up_y) refl);
})

pub or_false : (a b : Bool) → a ≡ false → b ≡ false → (a || b) ≡ false
or_false a b ha hb = rw (ha, hb) refl

pub add_signed_finite :
    (x y : KyteDec)
    → x.special ≡ false
    → y.special ≡ false
    → add_signed x y ≡ encode (sum_aligned (align x y))
unfolding add_signed
add_signed_finite x y hx hy = rw (or_false x.special y.special hx hy) refl

-- The sum of two finite words whose lower exponent is at most 37 below the end of the higher
-- leading digit: there is an exact sum at the lower exponent, and the word returned decodes to it,
-- rounded once, half to even, to at most 34 digits, with its sign, but a zero has none, and with the
-- exponent clamped to those of decimal128.
pub decimal_add-IsSum :
    (a b : ℕ)
    → let x = decode a in
      let y = decode b in
      x.special ≡ false
      → y.special ≡ false
      → IsClose x y
      → (s : KyteDec) × (k : ℕ) × IsSum x y s × IsReturned s (decode (decimal_add a b)) k
unfolding decimal_add
decimal_add-IsSum a b hx hy close =
    let x = decode a in
    let y = decode b in
    let s = sum_aligned (align x y) in
    let (k, r) =
      encode-IsReturned s (sum_aligned-align x y (decode-coeff-lt a) (decode-coeff-lt b)) in
    (
      s,
      k,
      sum_aligned-IsSum x y (decode-coeff-lt a) (decode-coeff-lt b) close,
      rw (add_signed_finite x y hx hy) r,
    )

rescale_coeff :
    (x : KyteDec) (s : Bool) (e : ℤ)
    → (rescale (record x { sign = s }) e).coeff ≡ (rescale x e).coeff
unfolding rescale
rescale_coeff x s e = ground arith

opposite_fields : (s : Bool) (m : ℕ) → (sum_fields s (not s) m m).1 ≡ 0
unfolding sum_fields
opposite_fields true m = ground arith
opposite_fields false m = ground arith

opposite_sum : (x : KyteDec) → (sum_aligned (align x (record x { sign = not x.sign }))).coeff ≡ 0
unfolding sum_aligned align
opposite_sum x =
    let y = record x { sign = not x.sign } in
    let e = common_exp x y in
    rw ((rescale-fields x e).1, (rescale-fields y e).1, rescale_coeff x (not x.sign) e)
      (opposite_fields x.sign (rescale x e).coeff)

normalize_zero : (d : KyteDec) → d.coeff ≡ 0 → (normalize d).coeff ≡ 0
normalize_zero d z = ground (arith, normalize_small d (omega arith))

pub encode_zero_coeff :
    (d : KyteDec)
    → d.coeff ≡ 0
    → ((decode (encode d)).coeff ≡ 0) × ((decode (encode d)).sign ≡ false)
encode_zero_coeff d z = (coeff_zero, (encode-IsCanonical d (omega arith)).unsigned_zero coeff_zero)
  where
    coeff_zero : (decode (encode d)).coeff ≡ 0
    coeff_zero =
        unfold encode in
        ap (λ (x : KyteDec). x.coeff)
          (decode-pack_clamped (normalize d).sign (normalize d).coeff (normalize d).exp
            (omega (arith, normalize_zero d z)))
        ∙ normalize_zero d z

-- A finite word minus itself is a zero without a sign.
pub decimal_sub_self :
    (a : ℕ)
    → (decode a).special ≡ false
    → ((decode (decimal_sub a a)).coeff ≡ 0) × ((decode (decimal_sub a a)).sign ≡ false)
unfolding decimal_sub
decimal_sub_self a h =
    let x = decode a in
    let neg = record x { sign = not x.sign } in
    rw (add_signed_finite x neg h h)
      (encode_zero_coeff (sum_aligned (align x neg)) (opposite_sum x))
