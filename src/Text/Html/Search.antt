-- ===== src/Text/Html/Search.antt =====
-- core.cpp: eight bytes at a time finds the character that the plain scan finds.
use kyte.Crypto.Bytes.{all_bytes, first_byte, more_bytes, drop-bytes}
use kyte.Text.Html.{word, scan_from, html_scan, meta_bytes, ctz, find_loop, html_find_meta}
use kyte.Text.Html.Words.{WordScan, meta_lanes-WordScan, eight}
use kyte.Prelude.{
  ℕ, ◌+◌, ◌/◌, ◌≡◌, refl, sym, ap, ◌∙◌, subst, ◌≢◌, inl, inr, true, not, List, [], ◌∷◌, ◌++◌, arith,
  ◌==◌, if◌then◌else◌, ℤ, pos, negsuc, pos_part, ltb_ℤ, length, drop, take_all,
}

front-bytes : (xs ys : List ℕ) → all_bytes (xs ++ ys) ≡ true → all_bytes xs ≡ true
front-bytes [] ys h = refl
front-bytes (x ∷ xs) ys h =
    let (byte, rest) = first_byte x (xs ++ ys) h in more_bytes x xs byte (front-bytes xs ys rest)

back-bytes : (xs ys : List ℕ) → all_bytes (xs ++ ys) ≡ true → all_bytes ys ≡ true
back-bytes [] ys h = h
back-bytes (x ∷ xs) ys h = back-bytes xs ys (first_byte x (xs ++ ys) h).1

-- One round of the loop over words.
word_round :
    (i : ℕ) (b0 b1 b2 b3 b4 b5 b6 b7 : ℕ) (rest : List ℕ) (n : ℕ)
    → all_bytes (b0 ∷ b1 ∷ b2 ∷ b3 ∷ b4 ∷ b5 ∷ b6 ∷ b7 ∷ []) ≡ true
    → find_loop (i + 8) rest n ≡ scan_from (i + 8) rest n
    → find_loop i (b0 ∷ b1 ∷ b2 ∷ b3 ∷ b4 ∷ b5 ∷ b6 ∷ b7 ∷ rest) n
      ≡ scan_from i (b0 ∷ b1 ∷ b2 ∷ b3 ∷ b4 ∷ b5 ∷ b6 ∷ b7 ∷ rest) n
unfolding find_loop
word_round i b0 b1 b2 b3 b4 b5 b6 b7 rest n h later =
    let xs = b0 ∷ b1 ∷ b2 ∷ b3 ∷ b4 ∷ b5 ∷ b6 ∷ b7 ∷ [] in
    let m = meta_bytes (word xs) in
    elim (subst (WordScan i xs) (sym (eight b0 b1 b2 b3 b4 b5 b6 b7))
      (meta_lanes-WordScan i xs h)) [
        | inl (none_here, on) ↦
            no_hit m (i + ctz 64 m / 8) (find_loop (i + 8) rest n) none_here
            ∙ later
            ∙ sym (on rest n)
        | inr (some_here, found) ↦
            hit m (i + ctz 64 m / 8) (find_loop (i + 8) rest n) some_here ∙ sym (found rest n)
      ]
  where
    no_hit : (m here on : ℕ) → m ≡ 0 → (if not (m == 0) then here else on) ≡ on
    no_hit m here on h = ground arith

    hit : (m here on : ℕ) → m ≢ 0 → (if not (m == 0) then here else on) ≡ here
    hit m here on h = ground arith

find_loop-scan_from :
    (i : ℕ) (s : List ℕ) (n : ℕ) → all_bytes s ≡ true → find_loop i s n ≡ scan_from i s n
unfolding find_loop
find_loop-scan_from i [] n h = refl
find_loop-scan_from i (b0 ∷ []) n h = refl
find_loop-scan_from i (b0 ∷ b1 ∷ []) n h = refl
find_loop-scan_from i (b0 ∷ b1 ∷ b2 ∷ []) n h = refl
find_loop-scan_from i (b0 ∷ b1 ∷ b2 ∷ b3 ∷ []) n h = refl
find_loop-scan_from i (b0 ∷ b1 ∷ b2 ∷ b3 ∷ b4 ∷ []) n h = refl
find_loop-scan_from i (b0 ∷ b1 ∷ b2 ∷ b3 ∷ b4 ∷ b5 ∷ []) n h = refl
find_loop-scan_from i (b0 ∷ b1 ∷ b2 ∷ b3 ∷ b4 ∷ b5 ∷ b6 ∷ []) n h = refl
find_loop-scan_from i (b0 ∷ b1 ∷ b2 ∷ b3 ∷ b4 ∷ b5 ∷ b6 ∷ b7 ∷ rest) n h =
    let xs = b0 ∷ b1 ∷ b2 ∷ b3 ∷ b4 ∷ b5 ∷ b6 ∷ b7 ∷ [] in
    word_round i b0 b1 b2 b3 b4 b5 b6 b7 rest n (front-bytes xs rest h)
      (find_loop-scan_from (i + 8) rest n (back-bytes xs rest h))

-- The search that reads eight bytes at a time gives the index that the plain scan gives, for every text of
-- bytes and every start; a negative start counts as 0.
pub html_find_meta-html_scan :
    (s : List ℕ) (start : ℤ)
    → all_bytes s ≡ true
    → html_find_meta s start ≡ html_scan s (pos_part start) (length s)
unfolding html_find_meta html_scan
html_find_meta-html_scan s start h =
    let k = pos_part start in
    ap (λ (j : ℕ). find_loop j (drop j s) (length s)) (start_index start)
    ∙ find_loop-scan_from k (drop k s) (length s) (drop-bytes k s h)
    ∙ ap (λ (t : List ℕ). scan_from k (drop k t) (length s)) (sym (take_all s))
  where
    start_index : (start : ℤ) → (if ltb_ℤ start (pos 0) then 0 else pos_part start) ≡ pos_part start
    start_index (pos k) = ground arith
    start_index (negsuc k) = ground arith
