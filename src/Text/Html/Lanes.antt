-- ===== src/Text/Html/Lanes.antt =====
-- core.cpp: the bytes of `(x - ones) & ~x & high`, one after the other, for words of any number of bytes.
use Prim.Native.Nat.{bit_and}
use native.Mathlib.Nat.{mod-eq_of_lt, mod-eq-sub-mod}
use kyte.Prelude.Bits.{bit_and_byte, bit_and-le}
use kyte.Prelude.Tables.{failures, no_failure}
use kyte.Crypto.Bytes.{all_bytes, first_byte}
use kyte.Text.Html.{word}
use kyte.Prelude.{
  ℕ, zero, suc, ◌+◌, ◌-◌, ◌*◌, ◌%◌, ◌≤◌, ◌<◌, ◌≡◌, refl, sym, ap, ◌∙◌, inl, inr, true, false, ◌||◌,
  List, [], ◌∷◌, arith, ltb, leb, ◌==◌, ltb→lt, Bool-cases, length,
}

-- `n` bytes that are all `b`.
abbrev pub repeated : ℕ → ℕ → ℕ
repeated zero b = 0
repeated (suc n) b = b + repeated n b * 256

abbrev pub size : ℕ → ℕ
size zero = 1
size (suc n) = size n * 256

-- `zero_bytes` for words of `n` bytes.
unfoldable pub zero_lanes : ℕ → ℕ → ℕ
zero_lanes n x =
    bit_and (bit_and ((x + (size n - repeated n 1)) % size n) (size n - 1 - x)) (repeated n 128)

repeated-lt : (n : ℕ) → repeated n 1 < size n
repeated-lt zero = omega arith
repeated-lt (suc n) = omega (arith, repeated-lt n)

pub word-lt : (xs : List ℕ) → all_bytes xs ≡ true → word xs < size (length xs)
unfolding word
word-lt [] h = omega arith
word-lt (b ∷ bs) h = let (byte, rest) = first_byte b bs h in omega (arith, word-lt bs rest, byte)

mod_once : (n m : ℕ) → m ≤ n → n < 2 * m → n % m ≡ n - m
mod_once n m le lt =
    mod-eq-sub-mod {n = n} {m = m} le ∙ mod-eq_of_lt {n = n - m} {m = m} (omega arith)

-- A remainder keeps the lowest byte.
mod_byte : (c q m : ℕ) → c < 256 → q < 2 * m → (c + q * 256) % (m * 256) ≡ c + q % m * 256
mod_byte c q m hc hq = elim (Bool-cases (ltb q m)) [
  | inl below ↦
      let lt = ltb→lt q m below in
      mod-eq_of_lt {n = c + q * 256} {m = m * 256} (omega arith)
      ∙ ap (λ (r : ℕ). c + r * 256) (sym (mod-eq_of_lt {n = q} {m = m} lt))
  | inr above ↦
      let le = not_below q m above in
      omega
        (arith, mod_once (c + q * 256) (m * 256) (omega arith) (omega arith), mod_once q m le hq)
]
  where
    not_below : (q m : ℕ) → ltb q m ≡ false → m ≤ q
    not_below q m h = ground arith

low_lane : (c b : ℕ) → ℕ
low_lane c b = bit_and (bit_and c (255 - b)) 128

low_lane_table : failures (λ b. leb b 0 || low_lane (b - 1) b == 0) 256 ≡ 0
unfolding failures low_lane
low_lane_table = refl

low_lane-nonzero : (b : ℕ) → 0 < b → b < 256 → low_lane (b - 1) b ≡ 0
low_lane-nonzero b some_bit byte =
    close b (low_lane (b - 1) b) some_bit
      (no_failure (λ b. leb b 0 || low_lane (b - 1) b == 0) 256 b low_lane_table byte)
  where
    close : (b l : ℕ) → 0 < b → (leb b 0 || l == 0) ≡ true → l ≡ 0
    close b l h e = ground arith

low_lane-zero : low_lane 255 0 ≡ 128
unfolding low_lane
low_lane-zero = refl

-- The lowest lane of the subtraction, and the lanes above it.
lanes_parts :
    (n c q y b : ℕ)
    → c < 256
    → b < 256
    → bit_and (bit_and (c + q * 256) (255 - b + y * 256)) (128 + repeated n 128 * 256)
      ≡ bit_and (bit_and q y) (repeated n 128) * 256 + low_lane c b
unfolding low_lane
lanes_parts n c q y b hc hb =
    let inner = bit_and_byte c (255 - b) q y hc (omega arith) in
    ap (λ (v : ℕ). bit_and v (128 + repeated n 128 * 256))
      {x = bit_and (c + q * 256) (255 - b + y * 256)} {y = bit_and c (255 - b) + bit_and q y * 256}
      (omega (arith, inner))
    ∙ bit_and_byte (bit_and c (255 - b)) 128 (bit_and q y) (repeated n 128)
        (and_small c (255 - b) hc) (omega arith)
  where
    and_small : (a d : ℕ) → a < 256 → bit_and a d < 256
    and_small a d h = omega (arith, bit_and-le a d)

pub zero_lanes-nonzero :
    (n b y : ℕ)
    → 0 < b
    → b < 256
    → y < size n
    → zero_lanes (suc n) (b + y * 256) ≡ zero_lanes n y * 256
unfolding zero_lanes
zero_lanes-nonzero n b y some_bit byte lt =
    let q = y + (size n - repeated n 1) in
    let below = repeated-lt n in
    let difference =
      ap (λ (v : ℕ). v % (size n * 256))
        {x = b + y * 256 + (size n * 256 - (1 + repeated n 1 * 256))} {y = b - 1 + q * 256}
        (omega arith)
      ∙ mod_byte (b - 1) q (size n) (omega arith) (omega arith) in
    ap
      (λ (v : ℕ).
        bit_and (bit_and v (size n * 256 - 1 - (b + y * 256))) (128 + repeated n 128 * 256))
      difference
    ∙ ap (λ (v : ℕ). bit_and (bit_and (b - 1 + q % size n * 256) v) (128 + repeated n 128 * 256))
        {x = size n * 256 - 1 - (b + y * 256)} {y = 255 - b + (size n - 1 - y) * 256} (omega arith)
    ∙ lanes_parts n (b - 1) (q % size n) (size n - 1 - y) b (omega arith) byte
    ∙ omega (arith, low_lane-nonzero b some_bit byte)

pub zero_lanes-zero :
    (n y : ℕ) → y < size n → (r : ℕ) × (zero_lanes (suc n) (0 + y * 256) ≡ 128 + r * 256)
unfolding zero_lanes
zero_lanes-zero n y lt =
    let q = y + (size n - repeated n 1 - 1) in
    let below = repeated-lt n in
    let difference =
      ap (λ (v : ℕ). v % (size n * 256))
        {x = 0 + y * 256 + (size n * 256 - (1 + repeated n 1 * 256))} {y = 255 + q * 256}
        (omega arith)
      ∙ mod_byte 255 q (size n) (omega arith) (omega arith) in
    (
      bit_and (bit_and (q % size n) (size n - 1 - y)) (repeated n 128),
      ap
            (λ (v : ℕ).
              bit_and (bit_and v (size n * 256 - 1 - (0 + y * 256))) (128 + repeated n 128 * 256))
            difference
          ∙ ap
              (λ (v : ℕ). bit_and (bit_and (255 + q % size n * 256) v) (128 + repeated n 128 * 256))
              {x = size n * 256 - 1 - (0 + y * 256)} {y = 255 - 0 + (size n - 1 - y) * 256}
              (omega arith)
          ∙ lanes_parts n 255 (q % size n) (size n - 1 - y) 0 (omega arith) (omega arith)
          ∙ omega (arith, low_lane-zero),
    )
