-- ===== src/Crypto/Bytes.antt =====
-- Bytes and their exclusive or.
use Prim.Native.Nat.{bit_xor}
use kyte.Prelude.Tables.{failures, no_failure}
use kyte.Prelude.{
  ℕ, zero, suc, ◌≤◌, ◌<◌, ◌≡◌, refl, Bool, true, ◌&&◌, List, [], ◌∷◌, arith, ltb, ◌==◌, ==_iff,
  length, take, drop,
}

abbrev pub all_bytes : List ℕ → Bool
all_bytes [] = true
all_bytes (b ∷ bs) = ltb b 256 && all_bytes bs

pub first_byte :
    (b : ℕ) (bs : List ℕ) → all_bytes (b ∷ bs) ≡ true → (b < 256) × (all_bytes bs ≡ true)
first_byte b bs h = ground arith

pub more_bytes : (b : ℕ) (bs : List ℕ) → b < 256 → all_bytes bs ≡ true → all_bytes (b ∷ bs) ≡ true
more_bytes b bs h k = ground arith

-- `out[i] = in[i] ^ ks[i]`.
abbrev pub xor_with : List ℕ → List ℕ → List ℕ
xor_with [] ks = []
xor_with (x ∷ xs) [] = []
xor_with (x ∷ xs) (k ∷ ks) = bit_xor x k ∷ xor_with xs ks

undone : ℕ → ℕ → Bool
undone x k = ltb (bit_xor x k) 256 && bit_xor (bit_xor x k) k == x

undone_row : ℕ → Bool
undone_row x = failures (undone x) 256 == 0

xor_table : failures undone_row 256 ≡ 0
unfolding failures undone undone_row
xor_table = refl

undone_sound : (x k : ℕ) → undone x k ≡ true → (bit_xor x k < 256) × (bit_xor (bit_xor x k) k ≡ x)
unfolding undone
undone_sound x k h = ground arith

undone_row_sound : (x : ℕ) → undone_row x ≡ true → failures (undone x) 256 ≡ 0
unfolding undone_row
undone_row_sound x h = (==_iff (failures (undone x) 256) 0).0 h

pub bit_xor_lem :
    (x k : ℕ) → x < 256 → k < 256 → (bit_xor x k < 256) × (bit_xor (bit_xor x k) k ≡ x)
bit_xor_lem x k hx hk =
    let row = undone_row_sound x (no_failure undone_row 256 x xor_table hx) in
    undone_sound x k (no_failure (undone x) 256 k row hk)

pub length-xor_with : (xs ks : List ℕ) → length xs ≤ length ks → length (xor_with xs ks) ≡ length xs
length-xor_with [] ks h = refl
length-xor_with (x ∷ xs) [] h = absurd (omega arith)
length-xor_with (x ∷ xs) (k ∷ ks) h = omega (arith, length-xor_with xs ks)

pub xor_with-bytes :
    (xs ks : List ℕ) → all_bytes xs ≡ true → all_bytes ks ≡ true → all_bytes (xor_with xs ks) ≡ true
xor_with-bytes [] ks h k = refl
xor_with-bytes (x ∷ xs) [] h k = refl
xor_with-bytes (x ∷ xs) (b ∷ ks) h k = ground (arith, xor_with-bytes xs ks, bit_xor_lem x b)

pub xor_with_twice :
    (xs ks : List ℕ)
    → all_bytes xs ≡ true
    → all_bytes ks ≡ true
    → length xs ≤ length ks
    → xor_with (xor_with xs ks) ks ≡ xs
xor_with_twice [] ks h k le = refl
xor_with_twice (x ∷ xs) [] h k le = absurd (omega arith)
xor_with_twice (x ∷ xs) (b ∷ ks) h k le = ground (arith, xor_with_twice xs ks, bit_xor_lem x b)

pub take-bytes : (n : ℕ) (s : List ℕ) → all_bytes s ≡ true → all_bytes (take n s) ≡ true
take-bytes zero s h = refl
take-bytes (suc n) [] h = refl
take-bytes (suc n) (b ∷ bs) h =
    let (byte, rest) = first_byte b bs h in more_bytes b (take n bs) byte (take-bytes n bs rest)

pub drop-bytes : (n : ℕ) (s : List ℕ) → all_bytes s ≡ true → all_bytes (drop n s) ≡ true
drop-bytes zero s h = h
drop-bytes (suc n) [] h = refl
drop-bytes (suc n) (b ∷ bs) h = drop-bytes n bs (first_byte b bs h).1
