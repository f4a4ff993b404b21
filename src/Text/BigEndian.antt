-- ===== src/Text/BigEndian.antt =====
-- core.cpp: `kyte_pg_be_i64` reads a signed integer of 1 to 8 bytes, the most significant first. A
-- null pointer is left out.
pub mod Value
use kyte.Prelude.{
  ℕ, zero, suc, ◌+◌, ◌-◌, ◌*◌, ◌/◌, ◌%◌, ◌^◌, ◌≤◌, ◌<◌, min, max, ◌≡◌, refl, sym, ap, ◌∙◌, subst,
  ◌≢◌, ◌↔◌, ◌⊎◌, inl, inr, Bool, true, false, not, ◌&&◌, ◌||◌, xor, Option, none, some, List, [],
  ◌∷◌, ◌++◌, map, append_assoc, append-nil, arith, ltb, leb, ◌==◌, if◌then◌else◌, ltb→lt, lt→ltb,
  leb→le, ==_iff, Bool-cases, Option-cases, ℤ, pos, negsuc, pos_part, neg_part, sub_ℕ, ltb_ℤ, ◌+ℤ◌,
  ◌-ℤ◌, ◌≤ℤ◌, int_laws, eq_of_parts, length, length-append, get_elem?, set, get_or, take, drop,
  replicate,
}
use native.Mathlib.Nat.{
  pow-suc, mul_assoc, mod-eq_of_lt, div-eq_of_lt, div-eq_of_lt-le, mul-le-mul_right,
  pow-le-pow_right,
}

-- `acc = (acc << 8) | p[i]` in 64 bits; the low byte of the shifted number is zero.
unfoldable pub shift_in : ℕ → List ℕ → ℕ
shift_in acc [] = acc
shift_in acc (b ∷ bs) = shift_in (acc * 256 % 2 ^ 64 + b) bs

-- The bits above the sign bit are set if it is set; they are zero before.
unfoldable pub sign_extend : ℕ → ℕ → ℕ
sign_extend acc len =
    if ltb len 8 && (acc / 2 ^ (len * 8 - 1) % 2 == 1) then acc + (2 ^ 64 - 2 ^ (len * 8)) else acc

-- The conversion to `long long`.
unfoldable pub as_signed : ℕ → ℤ
as_signed acc = if ltb acc (2 ^ 63) then pos acc else negsuc (2 ^ 64 - 1 - acc)

unfoldable pub pg_be_i64 : List ℕ → ℤ → ℤ
pg_be_i64 p len =
    let n = pos_part len in
    if not (ltb_ℤ (pos 0) len) || ltb 8 n
    then pos 0
    else as_signed (sign_extend (shift_in 0 (take n p)) n)

abbrev pub all_bytes : List ℕ → Bool
all_bytes [] = true
all_bytes (b ∷ bs) = ltb b 256 && all_bytes bs

-- The number that bytes denote, the most significant first.
abbrev pub be_value : ℕ → List ℕ → ℕ
be_value a [] = a
be_value a (b ∷ bs) = be_value (a * 256 + b) bs

-- Two's complement on `n` bytes.
abbrev pub twos_complement : ℕ → ℕ → ℤ
twos_complement n v = if ltb v (2 ^ (n * 8 - 1)) then pos v else negsuc (2 ^ (n * 8) - 1 - v)
