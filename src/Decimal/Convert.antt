-- ===== src/Decimal/Convert.antt =====
-- decimal.cpp: `kyte_decimal_from_int` and `kyte_decimal_to_int`. A `long long` is an integer.
use native.Mathlib.Nat.{le_trans, mod-eq_of_lt, pow-le-pow_right, pow-zero, pow-suc, div-eq_of_lt}
use kyte.Prelude.{
  ℕ, zero, suc, ◌+◌, ◌*◌, ◌/◌, ◌%◌, ◌^◌, ◌≤◌, ◌<◌, ◌≡◌, refl, sym, ap, ◌⊎◌, inl, inr, Bool, true,
  false, ◌||◌, arith, ltb, leb, ◌==◌, if◌then◌else◌, ltb→lt, leb→le, Bool-cases, ℤ, pos, negsuc,
  sub_ℕ, ltb_ℤ, ◌≤ℤ◌,
}
use kyte.Decimal.Word.{decode, InRange}
use kyte.Decimal.Digits.{u128, pow10, pow10-exact, ten_pos}
use kyte.Decimal.Encode.{encode, decode-encode_small}
use kyte.Decimal.Arith.{Outcome, ok, panic, undefined}
use kyte.Decimal.Arith.Align.{decode-coeff-lt}
use kyte.Decimal.Arith.Sum.{signed}

abbrev pub imax : ℕ
imax = 9223372036854775807

abbrev pub imin_mag : ℕ
imin_mag = 9223372036854775808

-- `-(n + 1)` and `+ 1` in unsigned 64-bit arithmetic for a negative number.
unfoldable pub magnitude : ℤ → ℕ
magnitude (pos n) = n
magnitude (negsuc n) = (n + 1) % 2 ^ 64

abbrev pub is_negative : ℤ → Bool
is_negative (pos n) = false
is_negative (negsuc n) = true

unfoldable pub decimal_from_int : ℤ → ℕ
decimal_from_int n =
    encode (record { sign = is_negative n; coeff = magnitude n; exp = pos 0; special = false })

-- The loop for a positive exponent: the test comes before each multiplication.
unfoldable pub scale_mag : ℕ → ℕ → Outcome ℕ
scale_mag zero mag = ok mag
scale_mag (suc i) mag =
    let rest = scale_mag i (mag * 10 % u128) in if ltb imin_mag mag then panic else rest

unfoldable pub drop_fraction : ℕ → ℕ → ℕ
drop_fraction k mag = if leb 39 k then 0 else mag / pow10 k

unfoldable pub to_signed : Bool → ℕ → Outcome ℤ
to_signed sign mag =
    if sign
    then (if ltb imin_mag mag
        then panic
        else if mag == imin_mag
        then ok (negsuc imax)
        else ok (sub_ℕ 0 mag))
    else if ltb imax mag
    then panic
    else ok (pos mag)

then_signed : Bool → Outcome ℕ → Outcome ℤ
unfolding to_signed
then_signed sign (ok mag) = to_signed sign mag
then_signed sign panic = panic
then_signed sign undefined = undefined

scaled_by : ℤ → ℕ → Outcome ℕ
scaled_by (pos n) mag = scale_mag n mag
scaled_by (negsuc n) mag = ok (drop_fraction (n + 1) mag)

unfoldable pub decimal_to_int : ℕ → Outcome ℤ
unfolding scaled_by then_signed
decimal_to_int w =
    let d = decode w in
    if d.special then ok (pos 0) else then_signed d.sign (scaled_by d.exp d.coeff)

-- The value without its fraction.
abbrev pub truncated : ℕ → ℤ → ℕ
truncated c (pos n) = c * 10 ^ n
truncated c (negsuc n) = c / 10 ^ (n + 1)

-- An integer if it fits into 64 bits, and otherwise a panic.
abbrev pub checked : ℤ → Outcome ℤ
checked v = if ltb_ℤ v (negsuc imax) || ltb_ℤ (pos imax) v then panic else ok v

to_signed-checked : (s : Bool) (m : ℕ) → to_signed s m ≡ checked (signed s m)
unfolding to_signed
to_signed-checked true m = ground arith
to_signed-checked false m = ground arith

not_over : (m : ℕ) → m ≤ imin_mag → ltb imin_mag m ≡ false
not_over m h = ground arith

scale_step : (m n : ℕ) → m * 10 ^ suc n ≡ m * 10 * 10 ^ n
scale_step m n = rw (pow-suc 10 n) (omega arith)

le-scaled : (m n : ℕ) → m ≤ m * 10 ^ n
le-scaled m n = grind (arith, ten_pos n)

scale_mag-fits : (n m : ℕ) → m * 10 ^ n ≤ imin_mag → scale_mag n m ≡ ok (m * 10 ^ n)
unfolding scale_mag
scale_mag-fits zero m h = rw (pow-zero 10) (ap ok (omega arith))
scale_mag-fits (suc n) m h =
    let small : m ≤ imin_mag = le_trans (le-scaled m (suc n)) h in
    let step = scale_step m n in
    rw (not_over m small, mod-eq_of_lt {n = m * 10} {m = u128} (omega arith), step)
      (scale_mag-fits n (m * 10) (omega arith))

scale_mag-over :
    (n m : ℕ) → imin_mag < m * 10 ^ n → (scale_mag n m ≡ panic) ⊎ (scale_mag n m ≡ ok (m * 10 ^ n))
unfolding scale_mag
scale_mag-over zero m h = inr (rw (pow-zero 10) (ap ok (omega arith)))
scale_mag-over (suc n) m h = elim (Bool-cases (ltb imin_mag m)) [
  | inl over ↦ inl (rw over refl)
  | inr within ↦
      let step = scale_step m n in
      rw (within, mod-eq_of_lt {n = m * 10} {m = u128} (ground arith), step)
        (scale_mag-over n (m * 10) (omega arith))
]

over_checked : (s : Bool) (m : ℕ) → imin_mag < m → checked (signed s m) ≡ panic
over_checked true m h = ground arith
over_checked false m h = ground arith

then_signed-scale :
    (s : Bool) (n c : ℕ) → then_signed s (scale_mag n c) ≡ checked (signed s (c * 10 ^ n))
unfolding then_signed
then_signed-scale s n c = elim (Bool-cases (ltb imin_mag (c * 10 ^ n))) [
  | inr fits ↦ rw (scale_mag-fits n c (ground arith)) (to_signed-checked s (c * 10 ^ n))
  | inl over ↦ elim (scale_mag-over n c (ltb→lt imin_mag (c * 10 ^ n) over)) [
    | inl stopped ↦ rw stopped (sym (over_checked s _ (ltb→lt imin_mag (c * 10 ^ n) over)))
    | inr whole ↦ rw whole (to_signed-checked s (c * 10 ^ n))
  ]
]

drop_fraction-exact : (k c : ℕ) → c < 2 ^ 113 → drop_fraction k c ≡ c / 10 ^ k
unfolding drop_fraction
drop_fraction-exact k c h = elim (Bool-cases (leb 39 k)) [
  | inl all ↦
      let big = pow-le-pow_right {n = 10} (omega arith) {i = 39} {j = k} (leb→le 39 k all) in
      rw all (sym (div-eq_of_lt {n = c} {m = 10 ^ k} (omega arith)))
  | inr some_left ↦ rw (some_left, pow10-exact k (ground arith)) refl
]

then_signed-scaled :
    (s : Bool) (e : ℤ) (c : ℕ)
    → c < 2 ^ 113
    → then_signed s (scaled_by e c) ≡ checked (signed s (truncated c e))
unfolding scaled_by then_signed
then_signed-scaled s (pos n) c h = then_signed-scale s n c
then_signed-scaled s (negsuc n) c h = rw (drop_fraction-exact (n + 1) c h) (to_signed-checked s _)

-- Conversion to an integer gives zero for a special word; for a finite one it gives the exact
-- value without its fraction where that fits into 64 bits, and panics where it does not.
pub decimal_to_int-exact :
    (w : ℕ)
    → let d = decode w in
      decimal_to_int w
      ≡ (if d.special then ok (pos 0) else checked (signed d.sign (truncated d.coeff d.exp)))
unfolding decimal_to_int
decimal_to_int-exact w = elim (Bool-cases (decode w).special) [
  | inl sp ↦ rw sp refl
  | inr fin ↦
      rw fin
        (then_signed-scaled (decode w).sign (decode w).exp (decode w).coeff (decode-coeff-lt w))
]

zero-InRange : InRange (pos 0)
zero-InRange = record { low = omega arith; high = omega arith }

signed_back :
    (n : ℤ)
    → negsuc imax ≤ℤ n
    → n ≤ℤ pos imax
    → checked (signed (if magnitude n == 0 then false else is_negative n) (magnitude n)) ≡ ok n
unfolding magnitude
signed_back (pos n) lo hi = ground arith
signed_back (negsuc n) lo hi =
    rw (mod-eq_of_lt {n = n + 1} {m = 2 ^ 64} (omega arith)) (ground arith)

magnitude-lt : (n : ℤ) → negsuc imax ≤ℤ n → n ≤ℤ pos imax → magnitude n < 10 ^ 34
unfolding magnitude
magnitude-lt (pos n) lo hi = omega arith
magnitude-lt (negsuc n) lo hi = omega arith

-- Every 64-bit integer comes back from its decimal.
pub decimal_to_int-from_int :
    (n : ℤ) → negsuc imax ≤ℤ n → n ≤ℤ pos imax → decimal_to_int (decimal_from_int n) ≡ ok n
unfolding decimal_from_int
decimal_to_int-from_int n lo hi =
    let back =
      decode-encode_small (is_negative n) (magnitude n) (pos 0) (magnitude-lt n lo hi)
        zero-InRange in
    let whole : magnitude n * 10 ^ 0 ≡ magnitude n = rw (pow-zero 10) (omega arith) in
    rw (decimal_to_int-exact (decimal_from_int n), back, whole) (signed_back n lo hi)
