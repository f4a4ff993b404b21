-- ===== src/Crypto/Aes/Blocks.antt =====
-- crypto.cpp: a block stays a block under every step of `kyte_aes_encrypt_block_c`.
use Prim.Native.Nat.{bit_xor}
use kyte.Prelude.Tables.{failures, no_failure}
use kyte.Crypto.Bytes.{
  all_bytes, xor_with, bit_xor_lem, length-xor_with, xor_with-bytes, first_byte, more_bytes,
  take-bytes, drop-bytes,
}
use kyte.Crypto.Aes.{
  sbox, xtime, shift_rows, mix_columns, round_key, rounds, encrypt_block, IsBlock,
}
use kyte.Prelude.{
  ℕ, zero, suc, ◌+◌, ◌-◌, ◌*◌, ◌≤◌, ◌<◌, ◌≡◌, refl, true, List, [], ◌∷◌, map, arith, ltb, ltb→lt,
  length, length-take, length-drop, length-map, drop,
}

sbox_range : failures (λ a. ltb (sbox a) 256) 256 ≡ 0
unfolding failures sbox
sbox_range = refl

map-sbox : (s : List ℕ) → all_bytes s ≡ true → all_bytes (map sbox s) ≡ true
map-sbox [] h = refl
map-sbox (b ∷ bs) h =
    let (byte, rest) = first_byte b bs h in
    more_bytes (sbox b) (map sbox bs)
      (ltb→lt (sbox b) 256 (no_failure (λ a. ltb (sbox a) 256) 256 b sbox_range byte))
      (map-sbox bs rest)

shift_rows-bytes : (s : List ℕ) → all_bytes s ≡ true → all_bytes (shift_rows s) ≡ true
unfolding shift_rows
shift_rows-bytes [] h = h
shift_rows-bytes (s0 ∷ []) h = h
shift_rows-bytes (s0 ∷ s1 ∷ []) h = h
shift_rows-bytes (s0 ∷ s1 ∷ s2 ∷ []) h = h
shift_rows-bytes (s0 ∷ s1 ∷ s2 ∷ s3 ∷ []) h = h
shift_rows-bytes (s0 ∷ s1 ∷ s2 ∷ s3 ∷ s4 ∷ []) h = h
shift_rows-bytes (s0 ∷ s1 ∷ s2 ∷ s3 ∷ s4 ∷ s5 ∷ []) h = h
shift_rows-bytes (s0 ∷ s1 ∷ s2 ∷ s3 ∷ s4 ∷ s5 ∷ s6 ∷ []) h = h
shift_rows-bytes (s0 ∷ s1 ∷ s2 ∷ s3 ∷ s4 ∷ s5 ∷ s6 ∷ s7 ∷ []) h = h
shift_rows-bytes (s0 ∷ s1 ∷ s2 ∷ s3 ∷ s4 ∷ s5 ∷ s6 ∷ s7 ∷ s8 ∷ []) h = h
shift_rows-bytes (s0 ∷ s1 ∷ s2 ∷ s3 ∷ s4 ∷ s5 ∷ s6 ∷ s7 ∷ s8 ∷ s9 ∷ []) h = h
shift_rows-bytes (s0 ∷ s1 ∷ s2 ∷ s3 ∷ s4 ∷ s5 ∷ s6 ∷ s7 ∷ s8 ∷ s9 ∷ s10 ∷ []) h = h
shift_rows-bytes (s0 ∷ s1 ∷ s2 ∷ s3 ∷ s4 ∷ s5 ∷ s6 ∷ s7 ∷ s8 ∷ s9 ∷ s10 ∷ s11 ∷ []) h = h
shift_rows-bytes (s0 ∷ s1 ∷ s2 ∷ s3 ∷ s4 ∷ s5 ∷ s6 ∷ s7 ∷ s8 ∷ s9 ∷ s10 ∷ s11 ∷ s12 ∷ []) h = h
shift_rows-bytes (s0 ∷ s1 ∷ s2 ∷ s3 ∷ s4 ∷ s5 ∷ s6 ∷ s7 ∷ s8 ∷ s9 ∷ s10 ∷ s11 ∷ s12 ∷ s13 ∷ []) h =
    h
shift_rows-bytes
      (s0 ∷ s1 ∷ s2 ∷ s3 ∷ s4 ∷ s5 ∷ s6 ∷ s7 ∷ s8 ∷ s9 ∷ s10 ∷ s11 ∷ s12 ∷ s13 ∷ s14 ∷ []) h =
    h
shift_rows-bytes
      (s0 ∷ s1 ∷ s2 ∷ s3 ∷ s4 ∷ s5 ∷ s6 ∷ s7 ∷ s8 ∷ s9 ∷ s10 ∷ s11 ∷ s12 ∷ s13 ∷ s14 ∷ s15 ∷ rest)
      h =
    ground arith

length-shift_rows : (s : List ℕ) → length (shift_rows s) ≡ length s
unfolding shift_rows
length-shift_rows [] = refl
length-shift_rows (s0 ∷ []) = refl
length-shift_rows (s0 ∷ s1 ∷ []) = refl
length-shift_rows (s0 ∷ s1 ∷ s2 ∷ []) = refl
length-shift_rows (s0 ∷ s1 ∷ s2 ∷ s3 ∷ []) = refl
length-shift_rows (s0 ∷ s1 ∷ s2 ∷ s3 ∷ s4 ∷ []) = refl
length-shift_rows (s0 ∷ s1 ∷ s2 ∷ s3 ∷ s4 ∷ s5 ∷ []) = refl
length-shift_rows (s0 ∷ s1 ∷ s2 ∷ s3 ∷ s4 ∷ s5 ∷ s6 ∷ []) = refl
length-shift_rows (s0 ∷ s1 ∷ s2 ∷ s3 ∷ s4 ∷ s5 ∷ s6 ∷ s7 ∷ []) = refl
length-shift_rows (s0 ∷ s1 ∷ s2 ∷ s3 ∷ s4 ∷ s5 ∷ s6 ∷ s7 ∷ s8 ∷ []) = refl
length-shift_rows (s0 ∷ s1 ∷ s2 ∷ s3 ∷ s4 ∷ s5 ∷ s6 ∷ s7 ∷ s8 ∷ s9 ∷ []) = refl
length-shift_rows (s0 ∷ s1 ∷ s2 ∷ s3 ∷ s4 ∷ s5 ∷ s6 ∷ s7 ∷ s8 ∷ s9 ∷ s10 ∷ []) = refl
length-shift_rows (s0 ∷ s1 ∷ s2 ∷ s3 ∷ s4 ∷ s5 ∷ s6 ∷ s7 ∷ s8 ∷ s9 ∷ s10 ∷ s11 ∷ []) = refl
length-shift_rows (s0 ∷ s1 ∷ s2 ∷ s3 ∷ s4 ∷ s5 ∷ s6 ∷ s7 ∷ s8 ∷ s9 ∷ s10 ∷ s11 ∷ s12 ∷ []) = refl
length-shift_rows (s0 ∷ s1 ∷ s2 ∷ s3 ∷ s4 ∷ s5 ∷ s6 ∷ s7 ∷ s8 ∷ s9 ∷ s10 ∷ s11 ∷ s12 ∷ s13 ∷ []) =
    refl
length-shift_rows
      (s0 ∷ s1 ∷ s2 ∷ s3 ∷ s4 ∷ s5 ∷ s6 ∷ s7 ∷ s8 ∷ s9 ∷ s10 ∷ s11 ∷ s12 ∷ s13 ∷ s14 ∷ []) =
    refl
length-shift_rows
      (s0 ∷ s1 ∷ s2 ∷ s3 ∷ s4 ∷ s5 ∷ s6 ∷ s7 ∷ s8 ∷ s9 ∷ s10 ∷ s11 ∷ s12 ∷ s13 ∷ s14 ∷ s15 ∷ rest) =
    refl

xtime-lt : (a : ℕ) → xtime a < 256
unfolding xtime
xtime-lt a = omega arith

xor_byte : (a b : ℕ) → a < 256 → b < 256 → bit_xor a b < 256
xor_byte a b h k = (bit_xor_lem a b h k).0

mixed : (a h b : ℕ) → a < 256 → h < 256 → bit_xor (bit_xor a h) (xtime b) < 256
mixed a h b ha hh = xor_byte (bit_xor a h) (xtime b) (xor_byte a h ha hh) (xtime-lt b)

mix_columns-bytes : (s : List ℕ) → all_bytes s ≡ true → all_bytes (mix_columns s) ≡ true
unfolding mix_columns
mix_columns-bytes [] h = refl
mix_columns-bytes (a ∷ []) h = h
mix_columns-bytes (a ∷ b ∷ []) h = h
mix_columns-bytes (a ∷ b ∷ c ∷ []) h = h
mix_columns-bytes (a0 ∷ a1 ∷ a2 ∷ a3 ∷ rest) h =
    let (b0, h1) = first_byte a0 (a1 ∷ a2 ∷ a3 ∷ rest) h in
    let (b1, h2) = first_byte a1 (a2 ∷ a3 ∷ rest) h1 in
    let (b2, h3) = first_byte a2 (a3 ∷ rest) h2 in
    let (b3, h4) = first_byte a3 rest h3 in
    let x1 = bit_xor a0 a1 in
    let x2 = bit_xor x1 a2 in
    let all = bit_xor x2 a3 in
    let whole = xor_byte x2 a3 (xor_byte x1 a2 (xor_byte a0 a1 b0 b1) b2) b3 in
    let m0 = bit_xor (bit_xor a0 all) (xtime (bit_xor a0 a1)) in
    let m1 = bit_xor (bit_xor a1 all) (xtime (bit_xor a1 a2)) in
    let m2 = bit_xor (bit_xor a2 all) (xtime (bit_xor a2 a3)) in
    let m3 = bit_xor (bit_xor a3 all) (xtime (bit_xor a3 a0)) in
    let tail = mix_columns rest in
    more_bytes m0 (m1 ∷ m2 ∷ m3 ∷ tail) (mixed a0 all (bit_xor a0 a1) b0 whole) (
      more_bytes m1 (m2 ∷ m3 ∷ tail) (mixed a1 all (bit_xor a1 a2) b1 whole) (
        more_bytes m2 (m3 ∷ tail) (mixed a2 all (bit_xor a2 a3) b2 whole)
          (more_bytes m3 tail (mixed a3 all (bit_xor a3 a0) b3 whole) (mix_columns-bytes rest h4))))

length-mix_columns : (s : List ℕ) → length (mix_columns s) ≡ length s
unfolding mix_columns
length-mix_columns [] = refl
length-mix_columns (a ∷ []) = refl
length-mix_columns (a ∷ b ∷ []) = refl
length-mix_columns (a ∷ b ∷ c ∷ []) = refl
length-mix_columns (a0 ∷ a1 ∷ a2 ∷ a3 ∷ rest) = omega (arith, length-mix_columns rest)

-- The keys of the rounds 0 to `nr`.
abbrev pub HasKeys : List ℕ → ℕ → Type 0
HasKeys rk nr = ((nr + 1) * 16 ≤ length rk) × (all_bytes rk ≡ true)

round_key-IsBlock :
    (rk : List ℕ) (nr round : ℕ) → HasKeys rk nr → round ≤ nr → IsBlock (round_key rk round)
unfolding round_key
round_key-IsBlock rk nr round (long, bytes) le = (
  omega (arith, length-take 16 (drop (round * 16) rk), length-drop (round * 16) rk),
  take-bytes 16 (drop (round * 16) rk) (drop-bytes (round * 16) rk bytes),
)

add_key-IsBlock : (s key : List ℕ) → IsBlock s → IsBlock key → IsBlock (xor_with s key)
add_key-IsBlock s key (size, bytes) (key_size, key_bytes) =
    (omega (arith, length-xor_with s key (omega arith)), xor_with-bytes s key bytes key_bytes)

shifted-IsBlock : (s : List ℕ) → IsBlock s → IsBlock (shift_rows (map sbox s))
shifted-IsBlock s (size, bytes) = (
  omega (arith, length-shift_rows (map sbox s), length-map s sbox),
  shift_rows-bytes (map sbox s) (map-sbox s bytes),
)

mixed-IsBlock : (s : List ℕ) → IsBlock s → IsBlock (mix_columns s)
mixed-IsBlock s (size, bytes) = (omega (arith, length-mix_columns s), mix_columns-bytes s bytes)

rounds-IsBlock :
    (rk : List ℕ) (nr round left : ℕ) (s : List ℕ)
    → HasKeys rk nr
    → round + left ≤ nr
    → IsBlock s
    → IsBlock (rounds rk round left s)
unfolding rounds
rounds-IsBlock rk nr round zero s keys le block =
    add_key-IsBlock (shift_rows (map sbox s)) (round_key rk round) (shifted-IsBlock s block)
      (round_key-IsBlock rk nr round keys (omega arith))
rounds-IsBlock rk nr round (suc left) s keys le block =
    let mixed_columns = mix_columns (shift_rows (map sbox s)) in
    rounds-IsBlock rk nr (round + 1) left (xor_with mixed_columns (round_key rk round)) keys
      (omega arith)
      (add_key-IsBlock mixed_columns (round_key rk round)
        (mixed-IsBlock (shift_rows (map sbox s)) (shifted-IsBlock s block))
        (round_key-IsBlock rk nr round keys (omega arith)))

-- With keys for all rounds a block is encrypted to a block.
pub encrypt_block-IsBlock :
    (rk : List ℕ) (nr : ℕ) (input : List ℕ)
    → 0 < nr
    → HasKeys rk nr
    → IsBlock input
    → IsBlock (encrypt_block rk nr input)
unfolding encrypt_block
encrypt_block-IsBlock rk nr input pos_nr keys block =
    rounds-IsBlock rk nr 1 (nr - 1) (xor_with input (round_key rk 0)) keys (omega arith)
      (add_key-IsBlock input (round_key rk 0) block (round_key-IsBlock rk nr 0 keys (omega arith)))
