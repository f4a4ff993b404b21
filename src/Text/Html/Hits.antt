-- ===== src/Text/Html/Hits.antt =====
-- core.cpp: the bytes of `meta_bytes`: the lowest one that is not zero belongs to the first character
-- that HTML reads.
use Prim.Native.Nat.{bit_or, bit_xor, bit_xor-bitwise}
use kyte.Prelude.Bits.{bit_or_byte, bit_xor_byte}
use kyte.Prelude.Tables.{failures, no_failure}
use kyte.Crypto.Bytes.{all_bytes, first_byte, more_bytes, bit_xor_lem}
use kyte.Text.Html.{word, is_meta}
use kyte.Text.Html.Lanes.{repeated, size, word-lt, zero_lanes, zero_lanes-nonzero, zero_lanes-zero}
use kyte.Prelude.{
  ℕ, suc, ◌+◌, ◌*◌, ◌<◌, ◌≡◌, refl, sym, ap, ◌∙◌, subst, ◌≢◌, inl, inr, Bool, true, false, ◌||◌,
  List, [], ◌∷◌, arith, ◌==◌, ==_iff, Bool-cases, length,
}

-- The bytes of a list, each in exclusive or with `k`.
abbrev toggled : ℕ → List ℕ → List ℕ
toggled k [] = []
toggled k (b ∷ bs) = bit_xor b k ∷ toggled k bs

word-toggled :
    (k : ℕ) (xs : List ℕ)
    → k < 256
    → all_bytes xs ≡ true
    → bit_xor (word xs) (repeated (length xs) k) ≡ word (toggled k xs)
unfolding word
word-toggled k [] hk h = refl
word-toggled k (b ∷ bs) hk h =
    let (byte, rest) = first_byte b bs h in
    bit_xor_byte b k (word bs) (repeated (length bs) k) byte hk
    ∙ omega (arith, word-toggled k bs hk rest)

toggled-bytes :
    (k : ℕ) (xs : List ℕ) → k < 256 → all_bytes xs ≡ true → all_bytes (toggled k xs) ≡ true
toggled-bytes k [] hk h = refl
toggled-bytes k (b ∷ bs) hk h =
    let (byte, rest) = first_byte b bs h in
    more_bytes (bit_xor b k) (toggled k bs) (bit_xor_lem b k byte hk).0 (toggled-bytes k bs hk rest)

length-toggled : (k : ℕ) (xs : List ℕ) → length (toggled k xs) ≡ length xs
length-toggled k [] = refl
length-toggled k (b ∷ bs) = ap suc (length-toggled k bs)

-- The zero bytes of a word in exclusive or with `k` in each byte.
abbrev equal_lanes : ℕ → List ℕ → ℕ
equal_lanes k xs = zero_lanes (length xs) (bit_xor (word xs) (repeated (length xs) k))

equal_lanes-toggled :
    (k : ℕ) (xs : List ℕ)
    → k < 256
    → all_bytes xs ≡ true
    → equal_lanes k xs ≡ zero_lanes (length xs) (word (toggled k xs))
equal_lanes-toggled k xs hk h = ap (zero_lanes (length xs)) (word-toggled k xs hk h)

-- Its lowest byte is zero, or 128 where the characters are equal.
equal_lanes-ne :
    (k b : ℕ) (bs : List ℕ)
    → k < 256
    → all_bytes (b ∷ bs) ≡ true
    → (b == k) ≡ false
    → equal_lanes k (b ∷ bs) ≡ equal_lanes k bs * 256
unfolding word
equal_lanes-ne k b bs hk h differ =
    let (byte, rest) = first_byte b bs h in
    let xored = bit_xor_lem b k byte hk in
    let bounded = word-lt (toggled k bs) (toggled-bytes k bs hk rest) in
    equal_lanes-toggled k (b ∷ bs) hk h
    ∙ zero_lanes-nonzero (length bs) (bit_xor b k) (word (toggled k bs))
        (some_bit (xor_ne b k byte hk differ)) xored.0
        (subst (λ (n : ℕ). word (toggled k bs) < size n) (length-toggled k bs) bounded)
    ∙ ap (λ (z : ℕ). z * 256) (sym (equal_lanes-toggled k bs hk rest))
  where
    some_bit : {x : ℕ} → x ≢ 0 → 0 < x
    some_bit {x} h = omega arith

    apart : (b k : ℕ) → (b == k) ≡ false → b ≡ k → ⊥
    apart b k differ e = ground arith

    xor_ne : (b k : ℕ) → b < 256 → k < 256 → (b == k) ≡ false → bit_xor b k ≢ 0
    xor_ne b k hb hk differ e =
        let undone = (bit_xor_lem b k hb hk).1 in
        let zero_xor = ap (λ (x : ℕ). bit_xor x k) e in
        apart b k differ (sym undone ∙ zero_xor ∙ bit_xor-bitwise 0 k)

self_table : failures (λ k. bit_xor k k == 0) 256 ≡ 0
unfolding failures
self_table = refl

xor_self : (k : ℕ) → k < 256 → bit_xor k k ≡ 0
xor_self k hk = (==_iff (bit_xor k k) 0).0 (no_failure (λ k. bit_xor k k == 0) 256 k self_table hk)

equal_lanes-eq :
    (k : ℕ) (bs : List ℕ)
    → k < 256
    → all_bytes bs ≡ true
    → (r : ℕ) × (equal_lanes k (k ∷ bs) ≡ 128 + r * 256)
unfolding word
equal_lanes-eq k bs hk h =
    let bounded = word-lt (toggled k bs) (toggled-bytes k bs hk h) in
    let (r, lanes) =
      zero_lanes-zero (length bs) (word (toggled k bs))
        (subst (λ (n : ℕ). word (toggled k bs) < size n) (length-toggled k bs) bounded) in
    (
      r,
      equal_lanes-toggled k (k ∷ bs) hk (more_bytes k bs hk h)
          ∙ ap (λ (x : ℕ). zero_lanes (suc (length bs)) (x + word (toggled k bs) * 256))
              (xor_self k hk)
          ∙ lanes,
    )

abbrev low_bit : Bool → ℕ
low_bit true = 128
low_bit false = 0

-- A number whose lowest byte is 128 or zero.
abbrev HasLow : ℕ → Bool → Type 0
HasLow v p = (r : ℕ) × (v ≡ low_bit p + r * 256)

equal_lanes-HasLow :
    (k b : ℕ) (bs : List ℕ)
    → k < 256
    → all_bytes (b ∷ bs) ≡ true
    → HasLow (equal_lanes k (b ∷ bs)) (b == k)
equal_lanes-HasLow k b bs hk h = elim (Bool-cases (b == k)) [
  | inl same ↦
      let (r, lanes) = equal_lanes-eq k bs hk (first_byte b bs h).1 in
      let equal = (==_iff b k).0 same in
      (
        r,
        ap (λ (x : ℕ). equal_lanes k (x ∷ bs)) equal
            ∙ lanes
            ∙ ap (λ (p : Bool). low_bit p + r * 256) (sym same),
      )
  | inr differ ↦ (
    equal_lanes k bs,
    equal_lanes-ne k b bs hk h differ
        ∙ omega arith
        ∙ ap (λ (p : Bool). low_bit p + equal_lanes k bs * 256) (sym differ),
  )
]

bit_or-HasLow : (v w : ℕ) (p q : Bool) → HasLow v p → HasLow w q → HasLow (bit_or v w) (p || q)
bit_or-HasLow v w p q (r, hv) (u, hw) = (
  bit_or r u,
  ap (λ (x : ℕ). bit_or x w) hv
      ∙ ap (λ (x : ℕ). bit_or (low_bit p + r * 256) x) hw
      ∙ bit_or_byte (low_bit p) (low_bit q) r u (small p) (small q)
      ∙ omega (arith, low p q),
)
  where
    small : (p : Bool) → low_bit p < 256
    small true = omega arith
    small false = omega arith

    low : (p q : Bool) → bit_or (low_bit p) (low_bit q) ≡ low_bit (p || q)
    low true true = refl
    low true false = refl
    low false true = refl
    low false false = refl

bit_or_shift : (v w r u : ℕ) → v ≡ r * 256 → w ≡ u * 256 → bit_or v w ≡ bit_or r u * 256
bit_or_shift v w r u hv hw =
    ap (λ (x : ℕ). bit_or x w) {x = v} {y = 0 + r * 256} (omega (arith, hv))
    ∙ ap (λ (x : ℕ). bit_or (0 + r * 256) x) {x = w} {y = 0 + u * 256} (omega (arith, hw))
    ∙ bit_or_byte 0 0 r u (omega arith) (omega arith)
    ∙ omega arith

-- `meta_bytes` for any number of bytes.
abbrev pub meta_lanes : List ℕ → ℕ
meta_lanes xs =
    bit_or
      (bit_or (bit_or (bit_or (equal_lanes 38 xs) (equal_lanes 60 xs)) (equal_lanes 62 xs))
        (equal_lanes 34 xs))
      (equal_lanes 39 xs)

-- The five tests on the lowest byte.
meta_tests : (b : ℕ) → is_meta b ≡ ((((b == 38 || b == 60) || b == 62) || b == 34) || b == 39)
unfolding is_meta
meta_tests b = ground arith

pub meta_lanes-ne :
    (b : ℕ) (bs : List ℕ)
    → all_bytes (b ∷ bs) ≡ true
    → is_meta b ≡ false
    → meta_lanes (b ∷ bs) ≡ meta_lanes bs * 256
unfolding is_meta
meta_lanes-ne b bs h other =
    shift _ _ _ _
      (shift _ _ _ _
        (shift _ _ _ _
          (shift _ _ _ _ (lane 38 (omega arith) (ground arith))
            (lane 60 (omega arith) (ground arith)))
          (lane 62 (omega arith) (ground arith)))
        (lane 34 (omega arith) (ground arith)))
      (lane 39 (omega arith) (ground arith))
  where
    shift : (v w r u : ℕ) → v ≡ r * 256 → w ≡ u * 256 → bit_or v w ≡ bit_or r u * 256
    shift = bit_or_shift

    lane : (k : ℕ) → k < 256 → (b == k) ≡ false → equal_lanes k (b ∷ bs) ≡ equal_lanes k bs * 256
    lane k small ne = equal_lanes-ne k b bs small h ne

pub meta_lanes-eq :
    (b : ℕ) (bs : List ℕ)
    → all_bytes (b ∷ bs) ≡ true
    → is_meta b ≡ true
    → (r : ℕ) × (meta_lanes (b ∷ bs) ≡ 128 + r * 256)
meta_lanes-eq b bs h meta =
    let (r, low) =
      bit_or-HasLow _ _ _ _
        (bit_or-HasLow _ _ _ _
          (bit_or-HasLow _ _ _ _
            (bit_or-HasLow _ _ _ _ (lane 38 (omega arith)) (lane 60 (omega arith)))
            (lane 62 (omega arith)))
          (lane 34 (omega arith)))
        (lane 39 (omega arith)) in
    (r, low ∙ ap (λ (p : Bool). low_bit p + r * 256) (sym (meta_tests b) ∙ meta))
  where
    lane : (k : ℕ) → k < 256 → HasLow (equal_lanes k (b ∷ bs)) (b == k)
    lane k small = equal_lanes-HasLow k b bs small h
