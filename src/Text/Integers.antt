-- ===== src/Text/Integers.antt =====
-- core.cpp: `kyte_i64_fmt`, the decimal digits of a 64-bit integer.
use kyte.Prelude.{
  ℕ, zero, suc, ◌+◌, ◌-◌, ◌*◌, ◌/◌, ◌%◌, ◌^◌, ◌≤◌, ◌<◌, ◌≡◌, refl, ap, ◌∙◌, inl, inr, Bool, true,
  false, ◌&&◌, List, [], ◌∷◌, ◌++◌, arith, leb, ◌==◌, if◌then◌else◌, Bool-cases, ℤ, pos, negsuc,
  sub_ℕ, ltb_ℤ, ◌≤ℤ◌, length, length-append,
}
use native.Mathlib.Nat.{pow-suc, mod-eq_of_lt}

-- `do { tmp[ti++] = '0' + u % 10; u /= 10; } while (u != 0)`: the digits, the last one first. The
-- fuel bounds the rounds.
unfoldable pub tmp_digits : ℕ → ℕ → List ℕ
tmp_digits zero u = []
tmp_digits (suc fuel) u =
    let rest = tmp_digits fuel (u / 10) in (48 + u % 10) ∷ (if u / 10 == 0 then [] else rest)

-- `while (ti > 0) out[n++] = tmp[--ti]`.
unfoldable pub backwards : List ℕ → List ℕ
backwards [] = []
backwards (c ∷ cs) = backwards cs ++ (c ∷ [])

-- `-(v + 1)` and `+ 1` in unsigned 64-bit arithmetic for a negative number.
unfoldable pub unsigned_part : ℤ → ℕ
unsigned_part (pos n) = n
unsigned_part (negsuc n) = (n + 1) % 2 ^ 64

-- A number below 2^64 has at most 20 digits.
unfoldable pub i64_fmt : ℤ → List ℕ
i64_fmt v =
    let digits = backwards (tmp_digits 20 (unsigned_part v)) in
    if ltb_ℤ v (pos 0) then 45 ∷ digits else digits

-- The number that a sequence of digits denotes, after a number that was read before.
abbrev pub read_digits : ℕ → List ℕ → ℕ
read_digits a [] = a
read_digits a (c ∷ cs) = read_digits (a * 10 + (c - 48)) cs

-- A minus sign or none, and digits.
abbrev pub read_int : List ℕ → ℤ
read_int [] = pos 0
read_int (c ∷ cs) = if c == 45 then sub_ℕ 0 (read_digits 0 cs) else pos (read_digits 0 (c ∷ cs))

abbrev pub is_digit : ℕ → Bool
is_digit c = leb 48 c && leb c 57

abbrev pub all_digits : List ℕ → Bool
all_digits [] = true
all_digits (c ∷ cs) = is_digit c && all_digits cs

read_digits-append :
    (a : ℕ) (xs ys : List ℕ) → read_digits a (xs ++ ys) ≡ read_digits (read_digits a xs) ys
read_digits-append a [] ys = refl
read_digits-append a (x ∷ xs) ys = read_digits-append (a * 10 + (x - 48)) xs ys

-- The number that digits denote with the last one first.
abbrev low_first : List ℕ → ℕ
low_first [] = 0
low_first (c ∷ cs) = low_first cs * 10 + (c - 48)

read_digits-backwards : (cs : List ℕ) → read_digits 0 (backwards cs) ≡ low_first cs
unfolding backwards
read_digits-backwards [] = refl
read_digits-backwards (c ∷ cs) =
    read_digits-append 0 (backwards cs) (c ∷ [])
    ∙ ap (λ (a : ℕ). a * 10 + (c - 48)) (read_digits-backwards cs)

low_first-tmp_digits : (fuel u : ℕ) → u < 10 ^ fuel → low_first (tmp_digits fuel u) ≡ u
unfolding tmp_digits
low_first-tmp_digits zero u h = omega arith
low_first-tmp_digits (suc fuel) u h = elim (Bool-cases (u / 10 == 0)) [
  | inl last ↦ rw last (ground arith)
  | inr more ↦
      let rest = low_first-tmp_digits fuel (u / 10) (omega (arith, pow-suc 10 fuel)) in
      rw (more, rest) (omega arith)
]

all_digits-append :
    (xs ys : List ℕ) → all_digits xs ≡ true → all_digits ys ≡ true → all_digits (xs ++ ys) ≡ true
all_digits-append [] ys hx hy = hy
all_digits-append (x ∷ xs) ys hx hy = ground (arith, all_digits-append xs ys)

all_digits-backwards : (cs : List ℕ) → all_digits cs ≡ true → all_digits (backwards cs) ≡ true
unfolding backwards
all_digits-backwards [] h = refl
all_digits-backwards (c ∷ cs) h =
    all_digits-append (backwards cs) (c ∷ []) (all_digits-backwards cs (ground arith))
      (ground arith)

all_digits-tmp_digits : (fuel u : ℕ) → all_digits (tmp_digits fuel u) ≡ true
unfolding tmp_digits
all_digits-tmp_digits zero u = refl
all_digits-tmp_digits (suc fuel) u = ground (arith, all_digits-tmp_digits fuel (u / 10))

length-tmp_digits : (fuel u : ℕ) → length (tmp_digits fuel u) ≤ fuel
unfolding tmp_digits
length-tmp_digits zero u = omega arith
length-tmp_digits (suc fuel) u = ground (arith, length-tmp_digits fuel (u / 10))

length-backwards : (cs : List ℕ) → length (backwards cs) ≡ length cs
unfolding backwards
length-backwards [] = refl
length-backwards (c ∷ cs) =
    omega (arith, length-append (backwards cs) (c ∷ []), length-backwards cs)

read_int-digits : (cs : List ℕ) → all_digits cs ≡ true → read_int cs ≡ pos (read_digits 0 cs)
read_int-digits [] h = refl
read_int-digits (c ∷ cs) h = rw (not_minus c (ground arith)) refl
  where
    not_minus : (c : ℕ) → is_digit c ≡ true → (c == 45) ≡ false
    not_minus c h = ground arith

digits_read :
    (u : ℕ)
    → u < 2 ^ 64
    → let ds = backwards (tmp_digits 20 u) in
      (read_digits 0 ds ≡ u) × (all_digits ds ≡ true) × (length ds ≤ 20)
digits_read u h =
    let tmp = tmp_digits 20 u in
    (
      read_digits-backwards tmp ∙ low_first-tmp_digits 20 u (omega arith),
      all_digits-backwards tmp (all_digits-tmp_digits 20 u),
      omega (arith, length-backwards tmp, length-tmp_digits 20 u),
    )

-- Every 64-bit integer is read back from its text, which has at most 21 characters, so that the
-- buffers of 24 suffice.
pub read_int-i64_fmt :
    (v : ℤ)
    → negsuc 9223372036854775807 ≤ℤ v
    → v ≤ℤ pos 9223372036854775807
    → (read_int (i64_fmt v) ≡ v) × (length (i64_fmt v) ≤ 21)
unfolding i64_fmt unsigned_part
read_int-i64_fmt (pos n) low high =
    let (value, digits, short) = digits_read n (omega arith) in
    rw (not_below n)
      (read_int-digits (backwards (tmp_digits 20 n)) digits ∙ ap pos value, omega arith)
  where
    not_below : (n : ℕ) → ltb_ℤ (pos n) (pos 0) ≡ false
    not_below n = ground arith
read_int-i64_fmt (negsuc n) low high =
    let (value, digits, short) = digits_read (n + 1) (omega arith) in
    rw (below n, mod-eq_of_lt {n = n + 1} {m = 2 ^ 64} (omega arith), value) (minus n, omega arith)
  where
    below : (n : ℕ) → ltb_ℤ (negsuc n) (pos 0) ≡ true
    below n = ground arith

    minus : (n : ℕ) → sub_ℕ 0 (n + 1) ≡ negsuc n
    minus n = ground arith
