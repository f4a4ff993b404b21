-- ===== src/Crypto/Counter/Stream.antt =====
-- crypto.cpp: the counter mode as a stream.
use kyte.Crypto.Bytes.{
  all_bytes, xor_with, length-xor_with, xor_with_twice, first_byte, more_bytes, take-bytes,
  drop-bytes,
}
use kyte.Crypto.Aes.{encrypt_block, IsBlock}
use kyte.Crypto.Aes.Blocks.{HasKeys, encrypt_block-IsBlock}
use kyte.Crypto.Counter.Pieces.{split_block}
use kyte.Crypto.Counter.{CounterBlock, bytes_of, increment, ctr_loop, aes_ctr}
use kyte.Prelude.{
  ℕ, zero, suc, ◌+◌, ◌*◌, ◌/◌, ◌%◌, ◌^◌, ◌≤◌, ◌<◌, ◌≡◌, refl, ap, ◌∙◌, true, List, [], ◌∷◌, ◌++◌,
  arith, length, length-append, length-take, length-drop, take-append-drop, take, drop,
}

-- The bytes of a counter are bytes, and there are twelve before the number.
pub record IsCounter (c : CounterBlock) : Type 0 where
  pub nonce_size : length c.nonce ≡ 12
  pub nonce_bytes : all_bytes c.nonce ≡ true
  pub byte12 : c.b12 < 256
  pub byte13 : c.b13 < 256
  pub byte14 : c.b14 < 256
  pub byte15 : c.b15 < 256

abbrev pub number : CounterBlock → ℕ
number c = ((c.b12 * 256 + c.b13) * 256 + c.b14) * 256 + c.b15

increment-IsCounter : (c : CounterBlock) → IsCounter c → IsCounter (increment c)
unfolding increment
increment-IsCounter c i = ground arith

number-increment : (c : CounterBlock) → IsCounter c → number (increment c) ≡ (number c + 1) % 2 ^ 32
unfolding increment
number-increment c i = ground arith

number-small : (c : CounterBlock) → IsCounter c → number c ≡ (number c + 15 / 16) % 2 ^ 32
number-small c i = omega (arith, i.byte12, i.byte13, i.byte14, i.byte15)

nonce-increment : (c : CounterBlock) → (increment c).nonce ≡ c.nonce
unfolding increment
nonce-increment c = ground arith

all_bytes-append :
    (xs ys : List ℕ) → all_bytes xs ≡ true → all_bytes ys ≡ true → all_bytes (xs ++ ys) ≡ true
all_bytes-append [] ys h k = k
all_bytes-append (x ∷ xs) ys h k =
    let (byte, rest) = first_byte x xs h in
    more_bytes x (xs ++ ys) byte (all_bytes-append xs ys rest k)

four_bytes :
    (c : CounterBlock) → IsCounter c → all_bytes (c.b12 ∷ c.b13 ∷ c.b14 ∷ c.b15 ∷ []) ≡ true
four_bytes c i = more_bytes c.b12 (c.b13 ∷ c.b14 ∷ c.b15 ∷ []) i.byte12 (
    more_bytes c.b13 (c.b14 ∷ c.b15 ∷ []) i.byte13
      (more_bytes c.b14 (c.b15 ∷ []) i.byte14 (more_bytes c.b15 [] i.byte15 refl)))

bytes_of-IsBlock : (c : CounterBlock) → IsCounter c → IsBlock (bytes_of c)
unfolding bytes_of
bytes_of-IsBlock c i =
    let four = c.b12 ∷ c.b13 ∷ c.b14 ∷ c.b15 ∷ [] in
    (
      omega (arith, length-append c.nonce four, i.nonce_size),
      all_bytes-append c.nonce four i.nonce_bytes (four_bytes c i),
    )

module _ (cipher : List ℕ → List ℕ)
    (blocks : (c : CounterBlock) → IsCounter c → IsBlock (cipher (bytes_of c))) where
  ctr_loop_step :
      (fuel : ℕ) (c : CounterBlock) (input : List ℕ)
      → 0 < length input
      → ctr_loop cipher (suc fuel) c input ≡ (
        xor_with (take 16 input) (cipher (bytes_of c))
            ++ (ctr_loop cipher fuel (increment c) (drop 16 input)).0,
        (ctr_loop cipher fuel (increment c) (drop 16 input)).1,
      )
  unfolding ctr_loop
  ctr_loop_step fuel c [] h = absurd (omega arith)
  ctr_loop_step fuel c (b ∷ bs) h = refl

  ctr_loop_twice :
      (fuel : ℕ) (c : CounterBlock) (input : List ℕ)
      → IsCounter c
      → all_bytes input ≡ true
      → length input ≤ fuel
      → let r = ctr_loop cipher fuel c input in
        (ctr_loop cipher fuel c r.0 ≡ (input, r.1)) × (length r.0 ≡ length input)
  unfolding ctr_loop
  ctr_loop_twice zero c [] i bytes le = (refl, refl)
  ctr_loop_twice zero c (b ∷ bs) i bytes le = absurd (omega arith)
  ctr_loop_twice (suc fuel) c [] i bytes le = (refl, refl)
  ctr_loop_twice (suc fuel) c (b ∷ bs) i bytes le =
      let input = b ∷ bs in
      let ks = cipher (bytes_of c) in
      let (ks_size, ks_bytes) = blocks c i in
      let head = take 16 input in
      let out = xor_with head ks in
      let rest = ctr_loop cipher fuel (increment c) (drop 16 input) in
      let (again, rest_size) =
        ctr_loop_twice fuel (increment c) (drop 16 input) (increment-IsCounter c i)
          (drop-bytes 16 input bytes) (omega (arith, length-drop 16 input)) in
      let head_size = length-take 16 input in
      let out_size = length-xor_with head ks (omega arith) in
      let whole_size = length-append out rest.0 in
      let (first, after) =
        split_block out rest.0 (omega arith) (λ short. omega (arith, length-drop 16 input)) in
      (
        ctr_loop_step fuel c (out ++ rest.0) (omega arith)
            ∙ ap
                (λ (l : List ℕ × List ℕ). (
                  xor_with l.0 ks ++ (ctr_loop cipher fuel (increment c) l.1).0,
                  (ctr_loop cipher fuel (increment c) l.1).1,
                ))
                {x = (take 16 (out ++ rest.0), drop 16 (out ++ rest.0))} {y = (out, rest.0)}
                (λ j. (first j, after j))
            ∙ ap (λ (r : List ℕ × CounterBlock). (xor_with out ks ++ r.0, r.1)) again
            ∙ ap (λ (l : List ℕ). (l ++ drop 16 input, rest.1))
                (xor_with_twice head ks (take-bytes 16 input bytes) ks_bytes (omega arith))
            ∙ ap (λ (l : List ℕ). (l, rest.1)) (take-append-drop 16 input),
        omega (arith, length-drop 16 input),
      )

  ctr_loop-number :
      (fuel : ℕ) (c : CounterBlock) (input : List ℕ)
      → IsCounter c
      → length input ≤ fuel
      → let last = (ctr_loop cipher fuel c input).1 in
        (number last ≡ (number c + (length input + 15) / 16) % 2 ^ 32) × (last.nonce ≡ c.nonce)
  unfolding ctr_loop
  ctr_loop-number zero c [] i le = (number-small c i, refl)
  ctr_loop-number zero c (b ∷ bs) i le = absurd (omega arith)
  ctr_loop-number (suc fuel) c [] i le = (number-small c i, refl)
  ctr_loop-number (suc fuel) c (b ∷ bs) i le =
      let (rest, kept) =
        ctr_loop-number fuel (increment c) (drop 16 (b ∷ bs)) (increment-IsCounter c i)
          (omega (arith, length-drop 16 (b ∷ bs))) in
      (omega (arith, rest, number-increment c i, length-drop 16 (b ∷ bs)), kept ∙ nonce-increment c)

aes_blocks :
    (rk : List ℕ) (nr : ℕ)
    → 0 < nr
    → HasKeys rk nr
    → (c : CounterBlock) → IsCounter c
    → IsBlock (encrypt_block rk nr (bytes_of c))
aes_blocks rk nr some_round keys c i =
    encrypt_block-IsBlock rk nr (bytes_of c) some_round keys (bytes_of-IsBlock c i)

-- With keys for every round, to encrypt what was encrypted, from the same counter, gives the input
-- back, for every length; the counter then counts a block for every 16 bytes that were begun, modulo
-- 2^32, and the bytes before the number stay.
pub aes_ctr_twice :
    (rk : List ℕ) (nr : ℕ) (c : CounterBlock) (input : List ℕ)
    → 0 < nr
    → HasKeys rk nr
    → IsCounter c
    → all_bytes input ≡ true
    → let (out, last) = aes_ctr rk nr c input in
      (aes_ctr rk nr c out ≡ (input, last))
      × (length out ≡ length input)
      × (number last ≡ (number c + (length input + 15) / 16) % 2 ^ 32)
      × (last.nonce ≡ c.nonce)
unfolding aes_ctr
aes_ctr_twice rk nr c input some_round keys i bytes =
    let cipher = encrypt_block rk nr in
    let blocks = aes_blocks rk nr some_round keys in
    let out = (ctr_loop cipher (length input) c input).0 in
    let (twice, size) = ctr_loop_twice cipher blocks (length input) c input i bytes (omega arith) in
    let (counted, kept) = ctr_loop-number cipher blocks (length input) c input i (omega arith) in
    (ap (λ (n : ℕ). ctr_loop cipher n c out) size ∙ twice, size, counted, kept)
