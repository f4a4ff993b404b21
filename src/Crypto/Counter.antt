-- ===== src/Crypto/Counter.antt =====
-- crypto.cpp: `kyte_aes_ctr_c`, the counter mode. The counter's block is twelve bytes and a big-endian
-- number of four, and is advanced in place.
pub mod Pieces
pub mod Stream
use kyte.Crypto.Bytes.{all_bytes, xor_with}
use kyte.Crypto.Aes.{encrypt_block}
use kyte.Prelude.{
  ℕ, zero, suc, ◌+◌, ◌-◌, ◌*◌, ◌/◌, ◌%◌, ◌^◌, ◌≤◌, ◌<◌, min, max, ◌≡◌, refl, sym, ap, ◌∙◌, subst,
  ◌≢◌, ◌↔◌, ◌⊎◌, inl, inr, Bool, true, false, not, ◌&&◌, ◌||◌, xor, Option, none, some, List, [],
  ◌∷◌, ◌++◌, map, append_assoc, append-nil, arith, ltb, leb, ◌==◌, if◌then◌else◌, ltb→lt, lt→ltb,
  leb→le, ==_iff, Bool-cases, Option-cases, ℤ, pos, negsuc, pos_part, neg_part, sub_ℕ, ltb_ℤ, ◌+ℤ◌,
  ◌-ℤ◌, ◌≤ℤ◌, int_laws, eq_of_parts, length, length-append, length-take, length-drop, length-map,
  take-append-drop, get_elem?, set, get_or, take, drop, replicate,
}

pub record CounterBlock : Type 0 where
  pub nonce : List ℕ
  pub b12 : ℕ
  pub b13 : ℕ
  pub b14 : ℕ
  pub b15 : ℕ

unfoldable pub bytes_of : CounterBlock → List ℕ
bytes_of c = c.nonce ++ (c.b12 ∷ c.b13 ∷ c.b14 ∷ c.b15 ∷ [])

-- `for (int i = 15; i >= 12; i--) { if (++ctr[i] != 0) break; }`
unfoldable pub increment : CounterBlock → CounterBlock
increment c =
    let n15 = (c.b15 + 1) % 256 in
    let n14 = (c.b14 + 1) % 256 in
    let n13 = (c.b13 + 1) % 256 in
    let n12 = (c.b12 + 1) % 256 in
    if not (n15 == 0)
    then record c { b15 = n15 }
    else if not (n14 == 0)
    then record c { b14 = n14; b15 = n15 }
    else if not (n13 == 0)
    then record c { b13 = n13; b14 = n14; b15 = n15 }
    else record c { b12 = n12; b13 = n13; b14 = n14; b15 = n15 }

-- `while (done < len)`, on the input that is left, for any cipher of a block. Each round takes a byte at
-- least, so that the length of the input is enough fuel. The result is the output and the counter.
unfoldable pub ctr_loop : (List ℕ → List ℕ) → ℕ → CounterBlock → List ℕ → List ℕ × CounterBlock
ctr_loop cipher zero c input = ([], c)
ctr_loop cipher (suc fuel) c [] = ([], c)
ctr_loop cipher (suc fuel) c (b ∷ bs) =
    let (rest, last) = ctr_loop cipher fuel (increment c) (drop 16 (b ∷ bs)) in
    (xor_with (take 16 (b ∷ bs)) (cipher (bytes_of c)) ++ rest, last)

unfoldable pub aes_ctr : List ℕ → ℕ → CounterBlock → List ℕ → List ℕ × CounterBlock
aes_ctr rk nr c input = ctr_loop (encrypt_block rk nr) (length input) c input
