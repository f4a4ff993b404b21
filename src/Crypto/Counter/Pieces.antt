-- ===== src/Crypto/Counter/Pieces.antt =====
-- crypto.cpp: the pieces of 16 bytes that the counter mode takes.
use kyte.Prelude.{
  ℕ, zero, suc, ◌≤◌, ◌<◌, ◌≡◌, refl, ap, inl, inr, false, List, [], ◌∷◌, ◌++◌, append-nil, arith,
  ltb, ltb→lt, Bool-cases, length, take, drop,
}

take_all : (n : ℕ) (xs : List ℕ) → length xs ≤ n → (take n xs ≡ xs) × (drop n xs ≡ [])
take_all zero [] le = (refl, refl)
take_all zero (x ∷ xs) le = absurd (omega arith)
take_all (suc n) [] le = (refl, refl)
take_all (suc n) (x ∷ xs) le =
    let (taken, dropped) = take_all n xs (omega arith) in (ap (λ l. x ∷ l) taken, dropped)

take-append_left :
    (n : ℕ) (xs ys : List ℕ) → length xs ≡ n → (take n (xs ++ ys) ≡ xs) × (drop n (xs ++ ys) ≡ ys)
take-append_left zero [] ys e = (refl, refl)
take-append_left zero (x ∷ xs) ys e = absurd (omega arith)
take-append_left (suc n) [] ys e = absurd (omega arith)
take-append_left (suc n) (x ∷ xs) ys e =
    let (taken, dropped) = take-append_left n xs ys (omega arith) in
    (ap (λ l. x ∷ l) taken, dropped)

empty_of_length : (xs : List ℕ) → length xs ≡ 0 → xs ≡ []
empty_of_length [] e = refl
empty_of_length (x ∷ xs) e = absurd (omega arith)

-- The first 16 bytes of a text whose first part has 16, or fewer and nothing follows.
pub split_block :
    (xs ys : List ℕ)
    → length xs ≤ 16
    → (length xs < 16 → length ys ≡ 0)
    → (take 16 (xs ++ ys) ≡ xs) × (drop 16 (xs ++ ys) ≡ ys)
split_block xs ys le rest = elim (Bool-cases (ltb (length xs) 16)) [
  | inl short ↦
      let none_left = empty_of_length ys (rest (ltb→lt (length xs) 16 short)) in
      rw (none_left, append-nil xs) (take_all 16 xs le)
  | inr long ↦ take-append_left 16 xs ys (full (length xs) le long)
]
  where
    full : (n : ℕ) → n ≤ 16 → ltb n 16 ≡ false → n ≡ 16
    full n le h = ground arith
