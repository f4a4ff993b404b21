-- ===== src/Text/Html/Words.antt =====
-- core.cpp: what the zero bytes of a word say of the characters in it.
use native.Mathlib.Nat.{pow-suc}
use kyte.Crypto.Bytes.{all_bytes, first_byte}
use kyte.Text.Html.{word, is_meta, scan_from, zero_bytes, meta_bytes, ctz}
use kyte.Text.Html.Lanes.{zero_lanes}
use kyte.Text.Html.Hits.{meta_lanes, meta_lanes-ne, meta_lanes-eq}
use kyte.Prelude.{
  ℕ, zero, suc, ◌+◌, ◌*◌, ◌/◌, ◌%◌, ◌^◌, ◌≡◌, refl, ap, ◌∙◌, ◌≢◌, ◌⊎◌, inl, inr, true, false, List,
  [], ◌∷◌, ◌++◌, arith, Bool-cases, length,
}

ctz_double : (fuel m : ℕ) → ctz (suc fuel) (m * 2) ≡ suc (ctz fuel m)
unfolding ctz
ctz_double fuel m = ground (arith, ap (λ (h : ℕ). ctz fuel h) {x = m * 2 / 2} {y = m} (omega arith))

ctz_odd : (fuel m : ℕ) → m % 2 ≡ 1 → ctz (suc fuel) m ≡ 0
unfolding ctz
ctz_odd fuel m h = ground arith

-- `fuel` and `k` more.
abbrev more : ℕ → ℕ → ℕ
more zero fuel = fuel
more (suc k) fuel = suc (more k fuel)

ctz_power : (k fuel m : ℕ) → ctz (more k fuel) (m * 2 ^ k) ≡ k + ctz fuel m
ctz_power zero fuel m = ap (ctz fuel) {x = m * 2 ^ 0} {y = m} (omega arith) ∙ omega arith
ctz_power (suc k) fuel m =
    ap (ctz (suc (more k fuel))) {x = m * 2 ^ suc k} {y = m * 2 ^ k * 2} (power k m)
    ∙ ctz_double (more k fuel) (m * 2 ^ k)
    ∙ omega (arith, ctz_power k fuel m)
  where
    power : (k m : ℕ) → m * 2 ^ suc k ≡ m * 2 ^ k * 2
    power k m = grind (arith, pow-suc 2 k)

ctz_low : (fuel r : ℕ) → ctz (more 8 fuel) (128 + r * 256) ≡ 7
ctz_low fuel r =
    ap (ctz (more 8 fuel)) {x = 128 + r * 256} {y = (1 + r * 2) * 2 ^ 7} (omega arith)
    ∙ ctz_power 7 (suc fuel) (1 + r * 2)
    ∙ omega (arith, odd fuel r)
  where
    odd : (fuel r : ℕ) → ctz (suc fuel) (1 + r * 2) ≡ 0
    odd fuel r = ctz_odd fuel (1 + r * 2) (omega arith)

-- The rounds that the bytes of a word need.
abbrev pub rounds : List ℕ → ℕ
rounds [] = 0
rounds (b ∷ bs) = more 8 (rounds bs)

-- What the word says of a scan over its bytes, from index `i` on.
abbrev pub WordScan : ℕ → List ℕ → ℕ → Type 0
WordScan i xs m =
    ((m ≡ 0)
      × ((rest : List ℕ) (n : ℕ) → scan_from i (xs ++ rest) n ≡ scan_from (i + length xs) rest n))
    ⊎ ((m ≢ 0) × ((rest : List ℕ) (n : ℕ) → scan_from i (xs ++ rest) n ≡ i + ctz (rounds xs) m / 8))

pub scan_hit : (i c : ℕ) (cs : List ℕ) (n : ℕ) → is_meta c ≡ true → scan_from i (c ∷ cs) n ≡ i
unfolding scan_from
scan_hit i c cs n h = ground arith

pub scan_miss :
    (i c : ℕ) (cs : List ℕ) (n : ℕ)
    → is_meta c ≡ false
    → scan_from i (c ∷ cs) n ≡ scan_from (i + 1) cs n
unfolding scan_from
scan_miss i c cs n h = ground arith

no_lanes : meta_lanes [] ≡ 0
unfolding word zero_lanes
no_lanes = refl

hit_scan :
    (i b : ℕ) (bs : List ℕ)
    → all_bytes (b ∷ bs) ≡ true
    → is_meta b ≡ true
    → WordScan i (b ∷ bs) (meta_lanes (b ∷ bs))
hit_scan i b bs h meta =
    let (r, lanes) = meta_lanes-eq b bs h meta in
    let low = ap (ctz (rounds (b ∷ bs))) lanes ∙ ctz_low (rounds bs) r in
    inr (
      nonzero (meta_lanes (b ∷ bs)) r lanes,
      λ rest n. scan_hit i b (bs ++ rest) n meta ∙ omega (arith, low),
    )
  where
    nonzero : (m r : ℕ) → m ≡ 128 + r * 256 → m ≢ 0
    nonzero m r h e = absurd (omega arith)

miss_scan :
    (i b : ℕ) (bs : List ℕ)
    → all_bytes (b ∷ bs) ≡ true
    → is_meta b ≡ false
    → WordScan (i + 1) bs (meta_lanes bs)
    → WordScan i (b ∷ bs) (meta_lanes (b ∷ bs))
miss_scan i b bs h other (inl (zero_here, on)) = inl (
  omega (arith, meta_lanes-ne b bs h other),
  λ rest n.
      scan_miss i b (bs ++ rest) n other
      ∙ on rest n
      ∙ ap (λ (j : ℕ). scan_from j rest n) {x = i + 1 + length bs} {y = i + suc (length bs)}
          (omega arith),
)
miss_scan i b bs h other (inr (some_here, found)) =
    let lanes = meta_lanes-ne b bs h other in
    let up = ap (ctz (rounds (b ∷ bs))) lanes ∙ ctz_power 8 (rounds bs) (meta_lanes bs) in
    inr (
      nonzero (meta_lanes (b ∷ bs)) (meta_lanes bs) lanes some_here,
      λ rest n. scan_miss i b (bs ++ rest) n other ∙ found rest n ∙ omega (arith, up),
    )
  where
    nonzero : (m r : ℕ) → m ≡ r * 256 → r ≢ 0 → m ≢ 0
    nonzero m r h some_r e = some_r (omega arith)

pub meta_lanes-WordScan :
    (i : ℕ) (xs : List ℕ) → all_bytes xs ≡ true → WordScan i xs (meta_lanes xs)
meta_lanes-WordScan i [] h =
    inl (no_lanes, λ rest n. ap (λ (j : ℕ). scan_from j rest n) {x = i} {y = i + 0} (omega arith))
meta_lanes-WordScan i (b ∷ bs) h = elim (Bool-cases (is_meta b)) [
  | inl meta ↦ hit_scan i b bs h meta
  | inr other ↦ miss_scan i b bs h other (meta_lanes-WordScan (i + 1) bs (first_byte b bs h).1)
]

-- Eight bytes as the source reads them.
pub eight :
    (b0 b1 b2 b3 b4 b5 b6 b7 : ℕ)
    → meta_bytes (word (b0 ∷ b1 ∷ b2 ∷ b3 ∷ b4 ∷ b5 ∷ b6 ∷ b7 ∷ []))
      ≡ meta_lanes (b0 ∷ b1 ∷ b2 ∷ b3 ∷ b4 ∷ b5 ∷ b6 ∷ b7 ∷ [])
unfolding meta_bytes zero_bytes zero_lanes
eight b0 b1 b2 b3 b4 b5 b6 b7 = refl
