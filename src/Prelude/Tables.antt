-- ===== src/Prelude/Tables.antt =====
-- Checks of a test at every number below a bound, by computation.
use kyte.Prelude.{
  ℕ, zero, suc, ◌+◌, ◌<◌, ◌≡◌, ap, ◌∙◌, inl, inr, Bool, true, false, arith, ◌==◌, if◌then◌else◌,
  ==_iff, Bool-cases,
}

-- How many numbers below `n` fail the test.
unfoldable pub failures : (ℕ → Bool) → ℕ → ℕ
failures p zero = 0
failures p (suc n) = (if p n then 0 else 1) + failures p n

pub no_failure : (p : ℕ → Bool) (n x : ℕ) → failures p n ≡ 0 → x < n → p x ≡ true
unfolding failures
no_failure p zero x none_fails below = absurd (omega arith)
no_failure p (suc n) x none_fails below = elim (Bool-cases (x == n)) [
  | inl last ↦ ap p ((==_iff x n).0 last) ∙ passes (p n) (failures p n) none_fails
  | inr before ↦ no_failure p n x (earlier (p n) (failures p n) none_fails) (lower x n below before)
]
  where
    passes : (b : Bool) (m : ℕ) → (if b then 0 else 1) + m ≡ 0 → b ≡ true
    passes b m h = ground arith

    earlier : (b : Bool) (m : ℕ) → (if b then 0 else 1) + m ≡ 0 → m ≡ 0
    earlier b m h = ground arith

    lower : (x n : ℕ) → x < suc n → (x == n) ≡ false → x < n
    lower x n h k = ground arith
