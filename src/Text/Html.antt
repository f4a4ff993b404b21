-- ===== src/Text/Html.antt =====
-- core.cpp: `kyte_html_scan`, `kyte_html_find_meta`, which reads eight bytes at a time, and
-- `kyte_html_escape`. A string is the list of its bytes, and its length the length of the list; null
-- pointers are left out.
pub mod Lanes
pub mod Hits
pub mod Words
pub mod Search
pub mod Escape
use Prim.Native.Nat.{bit_and, bit_or, bit_xor}
use kyte.Memory.State.{int32}
use kyte.Prelude.{
  ℕ, zero, suc, ◌+◌, ◌-◌, ◌*◌, ◌/◌, ◌%◌, ◌^◌, ◌≤◌, ◌<◌, min, max, ◌≡◌, refl, sym, ap, ◌∙◌, subst,
  ◌≢◌, ◌↔◌, ◌⊎◌, inl, inr, Bool, true, false, not, ◌&&◌, ◌||◌, xor, Option, none, some, List, [],
  ◌∷◌, ◌++◌, map, append_assoc, append-nil, arith, ltb, leb, ◌==◌, if◌then◌else◌, ltb→lt, lt→ltb,
  leb→le, ==_iff, Bool-cases, Option-cases, ℤ, pos, negsuc, pos_part, neg_part, sub_ℕ, ltb_ℤ, ◌+ℤ◌,
  ◌-ℤ◌, ◌≤ℤ◌, int_laws, eq_of_parts, length, length-append, length-take, length-drop, length-map,
  length-replicate, take-append-drop, get_elem?, set, get_or, take, drop, replicate,
}

-- & < > " '
unfoldable pub is_meta : ℕ → Bool
is_meta c = c == 38 || c == 60 || c == 62 || c == 34 || c == 39

-- The loop from index `i` on, over the bytes from there to the end, which is at `n`.
unfoldable pub scan_from : ℕ → List ℕ → ℕ → ℕ
scan_from i [] n = n
scan_from i (c ∷ cs) n = let later = scan_from (i + 1) cs n in if is_meta c then i else later

-- `n` is at most the length of the string.
unfoldable pub html_scan : List ℕ → ℕ → ℕ → ℕ
html_scan s from n = scan_from from (drop from (take n s)) n

abbrev pub ones : ℕ
ones = 0x0101010101010101

abbrev pub high : ℕ
high = 0x8080808080808080

-- `memcpy` of eight bytes into a word, the lowest first.
unfoldable pub word : List ℕ → ℕ
word [] = 0
word (b ∷ bs) = b + word bs * 256

-- `(x - ones) & ~x & high` in 64 bits.
unfoldable pub zero_bytes : ℕ → ℕ
zero_bytes x = bit_and (bit_and ((x + (2 ^ 64 - ones)) % 2 ^ 64) (2 ^ 64 - 1 - x)) high

unfoldable pub meta_bytes : ℕ → ℕ
meta_bytes w =
    bit_or
      (bit_or
        (bit_or (bit_or (zero_bytes (bit_xor w (ones * 38))) (zero_bytes (bit_xor w (ones * 60))))
          (zero_bytes (bit_xor w (ones * 62))))
        (zero_bytes (bit_xor w (ones * 34))))
      (zero_bytes (bit_xor w (ones * 39)))

-- `__builtin_ctzll` of a number that is not zero; 64 rounds are enough for a word.
unfoldable pub ctz : ℕ → ℕ → ℕ
ctz zero m = 0
ctz (suc fuel) m = let more = ctz fuel (m / 2) in if m % 2 == 1 then 0 else suc more

-- Both loops from index `i` on, over the bytes from there to the end.
unfoldable pub find_loop : ℕ → List ℕ → ℕ → ℕ
find_loop i (b0 ∷ b1 ∷ b2 ∷ b3 ∷ b4 ∷ b5 ∷ b6 ∷ b7 ∷ rest) n =
    let m = meta_bytes (word (b0 ∷ b1 ∷ b2 ∷ b3 ∷ b4 ∷ b5 ∷ b6 ∷ b7 ∷ [])) in
    let later = find_loop (i + 8) rest n in if not (m == 0) then i + ctz 64 m / 8 else later
find_loop i cs n = scan_from i cs n

unfoldable pub html_find_meta : List ℕ → ℤ → ℕ
html_find_meta s start =
    let from = if ltb_ℤ start (pos 0) then 0 else pos_part start in
    find_loop from (drop from s) (length s)

unfoldable pub escaped_length : ℕ → ℕ
escaped_length c =
    if c == 38
    then 5
    else if c == 60
    then 4
    else if c == 62
    then 4
    else if c == 34
    then 6
    else if c == 39
    then 5
    else 1

-- &amp; &lt; &gt; &quot; &#39;
unfoldable pub escaped : ℕ → List ℕ
escaped c =
    if c == 38
    then 38 ∷ 97 ∷ 109 ∷ 112 ∷ 59 ∷ []
    else if c == 60
    then 38 ∷ 108 ∷ 116 ∷ 59 ∷ []
    else if c == 62
    then 38 ∷ 103 ∷ 116 ∷ 59 ∷ []
    else if c == 34
    then 38 ∷ 113 ∷ 117 ∷ 111 ∷ 116 ∷ 59 ∷ []
    else if c == 39
    then 38 ∷ 35 ∷ 51 ∷ 57 ∷ 59 ∷ []
    else c ∷ []

unfoldable pub out_length : ℕ → List ℕ → ℕ
out_length n [] = n
out_length n (c ∷ cs) = out_length (n + escaped_length c) cs

unfoldable pub write_out : List ℕ → List ℕ
write_out [] = []
write_out (c ∷ cs) = escaped c ++ write_out cs

-- `room` says whether `kyte_bytes_alloc` gives memory of a size. The result is the text, and the length
-- in the header of the new string if there is one, which `write_header` casts to 32 bits.
unfoldable pub html_escape : (ℕ → Bool) → List ℕ → List ℕ × Option ℤ
html_escape room s =
    let size = out_length 0 s in
    if leb (length s) (html_find_meta s (pos 0))
    then (s, none)
    else if not (room size)
    then (s, none)
    else (write_out s, some (int32 (pos size)))
