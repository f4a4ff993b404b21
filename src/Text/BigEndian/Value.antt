-- ===== src/Text/BigEndian/Value.antt =====
-- core.cpp: the value that `kyte_pg_be_i64` reads.
use kyte.Prelude.{
  ℕ, zero, suc, ◌+◌, ◌-◌, ◌*◌, ◌/◌, ◌%◌, ◌^◌, ◌≤◌, ◌<◌, ◌≡◌, refl, ap, ◌∙◌, ◌⊎◌, inl, inr, Bool,
  true, false, ◌&&◌, List, [], ◌∷◌, arith, ltb, leb, ◌==◌, if◌then◌else◌, Bool-cases, pos, negsuc,
  length, length-take, take,
}
use native.Mathlib.Nat.{
  pow-suc, mul_assoc, mod-eq_of_lt, div-eq_of_lt, div-eq_of_lt-le, mul-le-mul_right,
  pow-le-pow_right,
}
use kyte.Text.BigEndian.{
  shift_in, sign_extend, as_signed, pg_be_i64, all_bytes, be_value, twos_complement,
}

byte : (b : ℕ) (bs : List ℕ) → all_bytes (b ∷ bs) ≡ true → (b < 256) × (all_bytes bs ≡ true)
byte b bs h = ground arith

be_value-le : (a : ℕ) (bs : List ℕ) → a ≤ be_value a bs
be_value-le a [] = omega arith
be_value-le a (b ∷ bs) = omega (arith, be_value-le (a * 256 + b) bs)

-- While the number fits into 64 bits, the loop computes it.
shift_in-be_value : (a : ℕ) (bs : List ℕ) → be_value a bs < 2 ^ 64 → shift_in a bs ≡ be_value a bs
unfolding shift_in
shift_in-be_value a [] h = refl
shift_in-be_value a (b ∷ bs) h =
    let small = be_value-le (a * 256 + b) bs in
    rw (mod-eq_of_lt {n = a * 256} {m = 2 ^ 64} (omega arith))
      (shift_in-be_value (a * 256 + b) bs h)

be_value-lt :
    (a : ℕ) (bs : List ℕ) → all_bytes bs ≡ true → be_value a bs < (a + 1) * 256 ^ length bs
be_value-lt a [] h = omega arith
be_value-lt a (b ∷ bs) h =
    let (small, rest) = byte b bs h in
    let q = 256 ^ length bs in
    let below = mul-le-mul_right {m = a * 256 + b + 1} {n = (a + 1) * 256} q (omega arith) in
    let regroup =
      mul_assoc (a + 1) 256 q
      ∙ ap (λ (x : ℕ). (a + 1) * x) {x = 256 * q} {y = 256 ^ length (b ∷ bs)}
          (omega (arith, pow-suc 256 (length bs))) in
    omega (arith, be_value-lt (a * 256 + b) bs rest, below, regroup)

-- The bit at `half` decides on which side of it a number below twice as much is.
bit-leb : (half v : ℕ) → v < 2 * half → (v / half % 2 == 1) ≡ leb half v
bit-leb half v h = elim (Bool-cases (leb half v)) [
  | inl high ↦
      let one = div-eq_of_lt-le {k = 1} half {m = v} (ground arith) (omega arith) in
      rw (one, high) refl
  | inr low ↦ rw (div-eq_of_lt {n = v} {m = half} (ground arith), low) refl
]

as_signed-low : (half v : ℕ) → v < half → half ≤ 2 ^ 63 → as_signed v ≡ pos v
unfolding as_signed
as_signed-low half v low bound = rw (below (omega arith)) refl
  where
    below : v < 2 ^ 63 → ltb v (2 ^ 63) ≡ true
    below h = ground arith

as_signed-high :
    (half v : ℕ)
    → half ≤ v
    → v < 2 * half
    → half ≤ 2 ^ 63
    → as_signed (v + (2 ^ 64 - 2 * half)) ≡ negsuc (2 * half - 1 - v)
unfolding as_signed
as_signed-high half v high lt bound =
    rw (not_below (v + (2 ^ 64 - 2 * half)) (omega arith)) (ap negsuc (omega arith))
  where
    not_below : (a : ℕ) → 2 ^ 63 ≤ a → ltb a (2 ^ 63) ≡ false
    not_below a h = ground arith

half_word : (n : ℕ) → 1 ≤ n → 2 ^ (n * 8) ≡ 2 * 2 ^ (n * 8 - 1)
half_word zero h = omega arith
half_word (suc k) h =
    ap (λ (e : ℕ). 2 ^ e) {x = suc k * 8} {y = suc (k * 8 + 7)} (omega arith)
    ∙ omega (arith, pow-suc 2 (k * 8 + 7))
    ∙ ap (λ (e : ℕ). 2 * 2 ^ e) {x = k * 8 + 7} {y = suc k * 8 - 1} (omega arith)

and-false : (b : Bool) → (b && false) ≡ false
and-false true = refl
and-false false = refl

as_signed-sign_extend :
    (n v : ℕ) → 1 ≤ n → n ≤ 8 → v < 2 ^ (n * 8) → as_signed (sign_extend v n) ≡ twos_complement n v
unfolding sign_extend
as_signed-sign_extend n v l u lt =
    let half = 2 ^ (n * 8 - 1) in
    let two = half_word n l in
    let bound = pow-le-pow_right {n = 2} (omega arith) {i = n * 8 - 1} {j = 63} (omega arith) in
    let bit = bit-leb half v (omega arith) in
    split half two bound bit (Bool-cases (leb half v)) (Bool-cases (ltb n 8))
  where
    below : (half : ℕ) → leb half v ≡ false → ltb v half ≡ true
    below half h = ground arith

    not_below : (half : ℕ) → leb half v ≡ true → ltb v half ≡ false
    not_below half h = ground arith

    full : ltb n 8 ≡ false → 2 ^ (n * 8) ≡ 2 ^ 64
    full h = ap (λ (k : ℕ). 2 ^ (k * 8)) {x = n} {y = 8} (ground arith)

    split :
        (half : ℕ)
        → 2 ^ (n * 8) ≡ 2 * half
        → half ≤ 2 ^ 63
        → (v / half % 2 == 1) ≡ leb half v
        → (leb half v ≡ true) ⊎ (leb half v ≡ false)
        → (ltb n 8 ≡ true) ⊎ (ltb n 8 ≡ false)
        → as_signed (if ltb n 8 && (v / half % 2 == 1) then v + (2 ^ 64 - 2 ^ (n * 8)) else v)
          ≡ (if ltb v half then pos v else negsuc (2 ^ (n * 8) - 1 - v))
    split half two bound bit (inl high) (inl short) =
        rw (short, bit, high, not_below half high, two)
          (as_signed-high half v (ground arith) (omega arith) bound)
    split half two bound bit (inl high) (inr long) =
        let same = full long in
        rw (long, not_below half high, two)
          (ap as_signed {x = v} {y = v + (2 ^ 64 - 2 * half)} (omega arith)
            ∙ as_signed-high half v (ground arith) (omega arith) bound)
    split half two bound bit (inr low) _ =
        rw (bit, low, below half low, and-false (ltb n 8))
          (as_signed-low half v (ground arith) bound)

all_bytes-take : (n : ℕ) (p : List ℕ) → all_bytes p ≡ true → all_bytes (take n p) ≡ true
all_bytes-take zero p h = refl
all_bytes-take (suc n) [] h = refl
all_bytes-take (suc n) (b ∷ bs) h = ground (arith, all_bytes-take n bs)

doubled : (w v : ℕ) → v ≡ suc w → 2 ^ v ≡ 2 * 2 ^ w
doubled w v e = ap (λ (k : ℕ). 2 ^ k) e ∙ omega (arith, pow-suc 2 w)

byte_step : (w : ℕ) → 2 ^ (w + 8) ≡ 256 * 2 ^ w
byte_step w = omega (
  arith,
  doubled (w + 7) (w + 8) (omega arith),
  doubled (w + 6) (w + 7) (omega arith),
  doubled (w + 5) (w + 6) (omega arith),
  doubled (w + 4) (w + 5) (omega arith),
  doubled (w + 3) (w + 4) (omega arith),
  doubled (w + 2) (w + 3) (omega arith),
  doubled (w + 1) (w + 2) (omega arith),
  doubled w (w + 1) (omega arith),
)

byte_power : (n : ℕ) → 256 ^ n ≡ 2 ^ (n * 8)
byte_power zero = refl
byte_power (suc n) = omega (
  arith,
  byte_power n,
  pow-suc 256 n,
  ap (λ (e : ℕ). 2 ^ e) {x = suc n * 8} {y = n * 8 + 8} (omega arith),
  byte_step (n * 8),
)

-- The number that at most eight bytes denote fits into as many.
take-fits :
    (n : ℕ) (p : List ℕ) → all_bytes p ≡ true → n ≤ length p → be_value 0 (take n p) < 2 ^ (n * 8)
take-fits n p bytes long =
    let below = be_value-lt 0 (take n p) (all_bytes-take n p bytes) in
    let size =
      ap (λ (k : ℕ). 256 ^ k) {x = length (take n p)} {y = n} (omega (arith, length-take n p)) in
    omega (arith, below, size, byte_power n)

decoded :
    (n : ℕ) (p : List ℕ)
    → 1 ≤ n
    → n ≤ 8
    → all_bytes p ≡ true
    → n ≤ length p
    → as_signed (sign_extend (shift_in 0 (take n p)) n) ≡ twos_complement n (be_value 0 (take n p))
decoded n p l u bytes long =
    let fits = take-fits n p bytes long in
    let wide = pow-le-pow_right {n = 2} (omega arith) {i = n * 8} {j = 64} (omega arith) in
    rw (shift_in-be_value 0 (take n p) (omega arith))
      (as_signed-sign_extend n (be_value 0 (take n p)) l u fits)

-- If there are as many bytes as the length says, then for a length of 1 to 8 the result is the number
-- that the first ones denote in two's complement, and for any other length it is zero.
pub pg_be_i64-twos_complement :
    (p : List ℕ) (n : ℕ)
    → all_bytes p ≡ true
    → n ≤ length p
    → pg_be_i64 p (pos n)
      ≡ (if leb 1 n && leb n 8 then twos_complement n (be_value 0 (take n p)) else pos 0)
unfolding pg_be_i64
pg_be_i64-twos_complement p zero bytes long = refl
pg_be_i64-twos_complement p (suc k) bytes long = elim (Bool-cases (ltb 8 (suc k))) [
  | inl large ↦ rw (above k, positive k, large, not_leb (suc k) large) refl
  | inr small ↦
      rw (above k, positive k, small, is_leb (suc k) small)
        (decoded (suc k) p (omega arith) (ground arith) bytes long)
]
  where
    above : (k : ℕ) → ltb 0 (suc k + 0) ≡ true
    above k = ground arith

    positive : (k : ℕ) → leb 1 (suc k) ≡ true
    positive k = ground arith

    not_leb : (n : ℕ) → ltb 8 n ≡ true → leb n 8 ≡ false
    not_leb n h = ground arith

    is_leb : (n : ℕ) → ltb 8 n ≡ false → leb n 8 ≡ true
    is_leb n h = ground arith
