-- ===== src/Crypto/Random.antt =====
-- crypto.cpp: `kyte_getrandom` on POSIX. `none` stands for `abort`, after which nothing returns.
use kyte.Prelude.{
  ℕ, zero, suc, ◌+◌, ◌-◌, ◌*◌, ◌/◌, ◌%◌, ◌≤◌, ◌<◌, min, ◌≡◌, refl, sym, ap, ◌∙◌, subst, ◌⊎◌, inl,
  inr, false, ◌&&◌, Option, none, some, arith, ltb, leb, if◌then◌else◌, ltb→lt, Bool-cases, ℤ,
  pos_part,
}

-- `getentropy(buf + off, chunk)`, a call of the kernel: the bytes that a call with that offset and size
-- gives, by their place in the chunk, if it succeeds.
abbrev pub Entropy : Type 0
Entropy = ℕ → ℕ → Option (ℕ → ℕ)

-- The chunk of a round, of the bytes that are left.
unfoldable pub chunk_of : ℕ → ℕ
chunk_of left = if ltb 256 left then 256 else left

-- The buffer after `chunk` bytes have been written at `buf + off`.
unfoldable pub put : (ℕ → ℕ) → ℕ → ℕ → (ℕ → ℕ) → ℕ → ℕ
put buf off chunk bytes i = if leb off i && ltb i (off + chunk) then bytes (i - off) else buf i

-- `while (off < n)`. The fuel bounds the rounds; each round writes a byte at least.
unfoldable pub fill : Entropy → ℕ → ℕ → ℕ → (ℕ → ℕ) → Option (ℕ → ℕ)
fill entropy zero n off buf = some buf
fill entropy (suc fuel) n off buf =
    let chunk = chunk_of (n - off) in
    let rest = fill entropy fuel n (off + chunk) in
    if ltb off n
    then elim (entropy off chunk) [ none ↦ none | some bytes ↦ rest (put buf off chunk bytes) ]
    else some buf

unfoldable pub getrandom : Entropy → ℤ → (ℕ → ℕ) → Option (ℕ → ℕ)
getrandom entropy n buf = fill entropy (pos_part n) (pos_part n) 0 buf

-- What getentropy(2) promises of a call: it serves at most 256 bytes.
abbrev pub Serves : Entropy → Type 0
Serves entropy =
    (off size : ℕ) → 0 < size → size ≤ 256 → (bytes : ℕ → ℕ) × (entropy off size ≡ some bytes)

-- The byte `b` is the one that the kernel gave for place `i` of `n`: the calls are for the multiples of
-- 256, of 256 bytes each but the last.
abbrev pub IsServedAt : Entropy → ℕ → ℕ → ℕ → Type 0
IsServedAt entropy n i b =
    let off = 256 * (i / 256) in
    (bytes : ℕ → ℕ) × (entropy off (min 256 (n - off)) ≡ some bytes) × (b ≡ bytes (i % 256))

-- The buffer from `off` on, when the loop is over.
record IsFilled (entropy : Entropy) (n off : ℕ) (buf after : ℕ → ℕ) : Type 0 where
  served : (i : ℕ) → off ≤ i → i < n → IsServedAt entropy n i (after i)
  before : (i : ℕ) → i < off → after i ≡ buf i
  beyond : (i : ℕ) → n ≤ i → after i ≡ buf i

chunk_min : (left : ℕ) → chunk_of left ≡ min 256 left
unfolding chunk_of
chunk_min left = ground arith

chunk_bounds :
    (left : ℕ) → 0 < left → (0 < chunk_of left) × (chunk_of left ≤ 256) × (chunk_of left ≤ left)
unfolding chunk_of
chunk_bounds left h = ground arith

put-inside :
    (buf : ℕ → ℕ) (off chunk : ℕ) (bytes : ℕ → ℕ) (i : ℕ)
    → off ≤ i
    → i < off + chunk
    → put buf off chunk bytes i ≡ bytes (i - off)
unfolding put
put-inside buf off chunk bytes i low high = ground arith

put-outside :
    (buf : ℕ → ℕ) (off chunk : ℕ) (bytes : ℕ → ℕ) (i : ℕ)
    → (i < off) ⊎ (off + chunk ≤ i)
    → put buf off chunk bytes i ≡ buf i
unfolding put
put-outside buf off chunk bytes i (inl low) = ground arith
put-outside buf off chunk bytes i (inr high) = ground arith

-- A place of the chunk that round `k` writes.
served-inside :
    (entropy : Entropy) (n k : ℕ) (buf bytes : ℕ → ℕ) (i : ℕ)
    → 256 * k < n
    → entropy (256 * k) (chunk_of (n - 256 * k)) ≡ some bytes
    → 256 * k ≤ i
    → i < 256 * k + chunk_of (n - 256 * k)
    → IsServedAt entropy n i (put buf (256 * k) (chunk_of (n - 256 * k)) bytes i)
served-inside entropy n k buf bytes i more got low high =
    let (_, small, _) = chunk_bounds (n - 256 * k) (omega arith) in
    let round = round_of small in
    rw (round, sym (chunk_min (n - 256 * k)))
      (
        bytes,
        got,
        put-inside buf (256 * k) (chunk_of (n - 256 * k)) bytes i low high ∙ ap bytes (place small),
      )
  where
    round_of : chunk_of (n - 256 * k) ≤ 256 → i / 256 ≡ k
    round_of small = omega arith

    place : chunk_of (n - 256 * k) ≤ 256 → i - 256 * k ≡ i % 256
    place small = omega arith

IsFilled-step :
    (entropy : Entropy) (n k : ℕ) (buf bytes after : ℕ → ℕ)
    → 256 * k < n
    → entropy (256 * k) (chunk_of (n - 256 * k)) ≡ some bytes
    → IsFilled entropy n
        (256 * k + chunk_of (n - 256 * k))
        (put buf (256 * k) (chunk_of (n - 256 * k)) bytes)
        after
    → IsFilled entropy n (256 * k) buf after
IsFilled-step entropy n k buf bytes after more got h =
    let chunk = chunk_of (n - 256 * k) in
    let (_, _, within) = chunk_bounds (n - 256 * k) (omega arith) in
    record {
      served = λ i low high. elim (cases i chunk) [
        | inl early ↦
            subst (IsServedAt entropy n i) (sym (h.before i early))
              (served-inside entropy n k buf bytes i more got low early)
        | inr late ↦ h.served i late high
      ];
      before =
          λ i early. h.before i (omega arith) ∙ put-outside buf (256 * k) chunk bytes i (inl early);
      beyond =
          λ i late. h.beyond i late ∙ put-outside buf (256 * k) chunk bytes i (inr (omega arith));
    }
  where
    cases : (i chunk : ℕ) → (i < 256 * k + chunk) ⊎ (256 * k + chunk ≤ i)
    cases i chunk = ground arith

fill-over :
    (entropy : Entropy) (fuel n off : ℕ) (buf : ℕ → ℕ)
    → n ≤ off
    → (fill entropy fuel n off buf ≡ some buf) × IsFilled entropy n off buf buf
unfolding fill
fill-over entropy zero n off buf h = (
  refl,
  record {
    served = λ i low high. absurd (omega arith);
    before = λ i _. refl;
    beyond = λ i _. refl;
  },
)
fill-over entropy (suc fuel) n off buf h = (
  rw (over off n h) refl,
  record {
    served = λ i low high. absurd (omega arith);
    before = λ i _. refl;
    beyond = λ i _. refl;
  },
)
  where
    over : (a b : ℕ) → b ≤ a → ltb a b ≡ false
    over a b h = ground arith

last_or_not : (left : ℕ) → (chunk_of left ≡ 256) ⊎ (chunk_of left ≡ left)
unfolding chunk_of
last_or_not left = ground arith

next_round : (k chunk : ℕ) → chunk ≡ 256 → 256 * k + chunk ≡ 256 * (k + 1)
next_round k chunk e = omega arith

fill-IsFilled :
    (entropy : Entropy) (fuel n k : ℕ) (buf : ℕ → ℕ)
    → Serves entropy
    → n ≤ 256 * k + fuel
    → (after : ℕ → ℕ) × (fill entropy fuel n (256 * k) buf ≡ some after)
      × IsFilled entropy n (256 * k) buf after
unfolding fill
fill-IsFilled entropy zero n k buf serves le =
    let (e, filled) = fill-over entropy 0 n (256 * k) buf (omega arith) in (buf, e, filled)
fill-IsFilled entropy (suc fuel) n k buf serves le = elim (Bool-cases (ltb (256 * k) n)) [
  | inr over ↦
      let (e, filled) = fill-over entropy (suc fuel) n (256 * k) buf (ground arith) in
      (buf, e, filled)
  | inl more ↦
      let lt = ltb→lt (256 * k) n more in
      let chunk = chunk_of (n - 256 * k) in
      let (low, high, within) = chunk_bounds (n - 256 * k) (omega arith) in
      let (bytes, got) = serves (256 * k) chunk low high in
      let written = put buf (256 * k) chunk bytes in
      elim (last_or_not (n - 256 * k)) [
        | inl whole ↦
            let (after, e, filled) =
              fill-IsFilled entropy fuel n (k + 1) written serves (omega arith) in
            let next = next_round k chunk whole in
            (
              after,
              rw (more, got, next) e,
              IsFilled-step entropy n k buf bytes after lt got
                  (subst (λ off. IsFilled entropy n off written after) (sym next) filled),
            )
        | inr last ↦
            let (e, filled) = fill-over entropy fuel n (256 * k + chunk) written (omega arith) in
            (written, rw (more, got) e, IsFilled-step entropy n k buf bytes written lt got filled)
      ]
]

-- If the kernel serves every call of at most 256 bytes, then for any number of bytes, also for none or a
-- negative one, the loop ends and does not abort; every byte of the buffer below that number is the
-- one that the kernel gave for its place, in the call for its chunk of 256 bytes or fewer, and no
-- byte beyond is written.
pub getrandom_total :
    (entropy : Entropy) (n : ℤ) (buf : ℕ → ℕ)
    → Serves entropy
    → (after : ℕ → ℕ) × (getrandom entropy n buf ≡ some after)
      × ((i : ℕ) → i < pos_part n → IsServedAt entropy (pos_part n) i (after i))
      × ((i : ℕ) → pos_part n ≤ i → after i ≡ buf i)
unfolding getrandom
getrandom_total entropy n buf serves =
    let (after, e, filled) =
      fill-IsFilled entropy (pos_part n) (pos_part n) 0 buf serves (omega arith) in
    (after, e, λ i lt. filled.served i (omega arith) lt, filled.beyond)
