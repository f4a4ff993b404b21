-- ===== src/Decimal/Digits.antt =====
-- decimal.cpp: `dec_num_digits`, `dec_pow10` and `dec_round_drop`.
use native.Mathlib.Nat.{add-zero, add-suc, pow-zero, pow-suc, pow-le-pow_right, div-add-mod, mod-lt}
use kyte.Prelude.{
  ℕ, zero, suc, ◌+◌, ◌-◌, ◌*◌, ◌/◌, ◌%◌, ◌^◌, ◌≤◌, ◌<◌, ◌≡◌, refl, sym, inl, inr, Bool, true, ◌&&◌,
  arith, ltb, leb, ◌==◌, if◌then◌else◌, ltb→lt, leb→le, ==_iff, Bool-cases,
}

-- The values of `kyte_u128` are below this.
abbrev pub u128 : ℕ
u128 = 2 ^ 128

-- `do { n++; v /= 10; } while (v > 0)`; the fuel bounds the rounds.
unfoldable pub count_digits : ℕ → ℕ → ℕ
count_digits zero v = 0
count_digits (suc fuel) v =
    let rest = count_digits fuel (v / 10) in if ltb 0 (v / 10) then suc rest else 1

-- A 128-bit value has 39 digits at most.
unfoldable pub num_digits : ℕ → ℕ
unfolding count_digits
num_digits v = count_digits 39 v

-- `while (k-- > 0) r *= 10`, in 128 bits.
unfoldable pub pow10 : ℕ → ℕ
pow10 zero = 1
pow10 (suc k) = pow10 k * 10 % u128

-- Divides by a power of ten and rounds half to even; from 39 digits on nothing is left.
unfoldable pub round_drop : ℕ → ℕ → ℕ
round_drop coeff k =
    if k == 0
    then coeff
    else if leb 39 k
    then 0
    else let div = pow10 k in
      let q = coeff / div in
      let r = coeff % div in
      let half = div / 2 in
      if ltb half r then q + 1 else if (r == half) && (q % 2 == 1) then q + 1 else q

pow10_table : ℕ → Bool
pow10_table zero = true
pow10_table (suc n) = (pow10 n == 10 ^ n) && pow10_table n

pow10_checked : pow10_table 39 ≡ true
unfolding pow10_table pow10
pow10_checked = refl

pow10_sound : (n k : ℕ) → pow10_table n ≡ true → k < n → pow10 k ≡ 10 ^ k
unfolding pow10_table
pow10_sound zero k h lt = absurd (omega arith)
pow10_sound (suc n) k h lt = elim (Bool-cases (k == n)) [
  | inl e ↦ rw ((==_iff k n).0 e) ((==_iff (pow10 n) (10 ^ n)).0 (ground arith))
  | inr ne ↦ pow10_sound n k (ground arith) (ground arith)
]

-- The product does not wrap below 10^39.
pub pow10-exact : (k : ℕ) → k < 39 → pow10 k ≡ 10 ^ k
pow10-exact k h = pow10_sound 39 k pow10_checked h

-- The number of decimal digits, 1 for zero.
pub record HasDigits (v n : ℕ) : Type 0 where
  pub positive : 0 < n
  pub below : v < 10 ^ n
  pub above : 0 < v → 10 ^ (n - 1) ≤ v
  pub zero_digit : v ≡ 0 → n ≡ 1

suc-sub-one : (n : ℕ) → suc n - 1 ≡ n
suc-sub-one n = omega arith

pub pow-pred : (b n : ℕ) → 0 < n → b ^ n ≡ b ^ (n - 1) * b
pow-pred b zero h = absurd (omega arith)
pow-pred b (suc n) h = rw (suc-sub-one n) (pow-suc b n)

HasDigits-suc : (v n : ℕ) → 0 < v / 10 → HasDigits (v / 10) n → HasDigits v (suc n)
HasDigits-suc v n more h = record {
  positive = omega arith;
  below = omega (arith, pow-suc 10 n, h.below);
  above = λ p. rw (suc-sub-one n) (omega (arith, pow-pred 10 n h.positive, h.above more));
  zero_digit = λ e. absurd (omega arith);
}

fuel_left : (f v : ℕ) → v < 10 ^ suc f → 0 < v / 10 → 0 < f
fuel_left zero v h p = absurd (omega arith)
fuel_left (suc f) v h p = omega arith

count_digits-HasDigits : (fuel v : ℕ) → v < 10 ^ fuel → 0 < fuel → HasDigits v (count_digits fuel v)
unfolding count_digits
count_digits-HasDigits zero v h p = absurd (omega arith)
count_digits-HasDigits (suc f) v h p = elim (Bool-cases (ltb 0 (v / 10))) [
  | inl more ↦ rw more (
      HasDigits-suc v (count_digits f (v / 10)) (ltb→lt 0 (v / 10) more) (
        count_digits-HasDigits f (v / 10) (omega (arith, pow-suc 10 f))
          (fuel_left f v h (ltb→lt 0 (v / 10) more))))
  | inr last ↦ rw last (ground arith)
]

-- `dec_num_digits` of a 128-bit number is the number of its decimal digits, and 1 for zero.
pub num_digits-HasDigits : (v : ℕ) → v < u128 → HasDigits v (num_digits v)
unfolding num_digits
num_digits-HasDigits v h = count_digits-HasDigits 39 v (omega arith) (omega arith)

-- A larger power of ten than the value has at least as many digits, a smaller one fewer.
pub num_digits-le : (v n : ℕ) → v < u128 → v < 10 ^ n → 0 < n → num_digits v ≤ n
num_digits-le v n h lt pos_n = elim (Bool-cases (ltb n (num_digits v))) [
  | inr small ↦ ground arith
  | inl large ↦
      let d = num_digits-HasDigits v h in
      let big =
        pow-le-pow_right {n = 10} (omega arith) {i = n} {j = num_digits v - 1} (ground arith) in
      ground arith
]

pub lt-num_digits : (v n : ℕ) → v < u128 → 10 ^ n ≤ v → n < num_digits v
lt-num_digits v n h le = elim (Bool-cases (ltb n (num_digits v))) [
  | inl more ↦ ltb→lt n (num_digits v) more
  | inr few ↦
      let d = num_digits-HasDigits v h in
      let big = pow-le-pow_right {n = 10} (omega arith) {i = num_digits v} {j = n} (ground arith) in
      absurd (omega arith)
]

-- `q` is `n / d` rounded to the nearest number, and to the even one of two that are as near.
pub record IsHalfEven (n d q : ℕ) : Type 0 where
  pub low : 2 * (q * d) ≤ 2 * n + d
  pub high : 2 * n ≤ 2 * (q * d) + d
  pub tie_up : 2 * (q * d) ≡ 2 * n + d → q % 2 ≡ 0
  pub tie_down : 2 * n ≡ 2 * (q * d) + d → q % 2 ≡ 0

-- `q` and `r` are the quotient and the remainder by `d`, and `h` is half of it.
pub round_parts :
    (n d q r h : ℕ)
    → n ≡ d * q + r
    → r < d
    → d ≡ 2 * h
    → IsHalfEven n d (if ltb h r then q + 1 else if (r == h) && (q % 2 == 1) then q + 1 else q)
round_parts n d q r h e lt halves = elim (Bool-cases (ltb h r)) [
  | inl up ↦ rw up (ground arith)
  | inr rest ↦ elim (Bool-cases ((r == h) && (q % 2 == 1))) [
    | inl tie ↦ rw (rest, tie) (ground arith)
    | inr down ↦ rw (rest, down) (ground arith)
  ]
]

round_all : (coeff k : ℕ) → coeff < u128 → 39 ≤ k → IsHalfEven coeff (10 ^ k) 0
round_all coeff k h le = let big = pow-le-pow_right {n = 10} (omega arith) le in omega arith

pub ten_pos : (k : ℕ) → 0 < 10 ^ k
ten_pos zero = rw (pow-zero 10) (omega arith)
ten_pos (suc k) = omega (arith, pow-suc 10 k, ten_pos k)

pow10-even : (k : ℕ) → 0 < k → 10 ^ k ≡ 2 * (10 ^ k / 2)
pow10-even k h = omega (arith, pow-pred 10 k h)

-- For every 128-bit coefficient and every number `k` of digits, `dec_round_drop` divides by 10^k
-- and rounds half to even, also where the code takes a short way out.
pub round_drop-IsHalfEven :
    (coeff k : ℕ) → coeff < u128 → IsHalfEven coeff (10 ^ k) (round_drop coeff k)
unfolding round_drop
round_drop-IsHalfEven coeff k h = elim (Bool-cases (k == 0)) [
  | inl none_dropped ↦ rw (none_dropped, (==_iff k 0).0 none_dropped, pow-zero 10) (omega arith)
  | inr some_dropped ↦ elim (Bool-cases (leb 39 k)) [
    | inl all_dropped ↦
        rw (some_dropped, all_dropped) (round_all coeff k h (leb→le 39 k all_dropped))
    | inr fits ↦
        rw (some_dropped, fits, pow10-exact k (ground arith))
          (round_parts coeff (10 ^ k) (coeff / 10 ^ k) (coeff % 10 ^ k) (10 ^ k / 2)
            (sym (div-add-mod coeff (10 ^ k))) (mod-lt coeff (ten_pos k))
            (pow10-even k (ground arith)))
  ]
]

pub apart : (d p q : ℕ) → p < q → p * d + d ≤ q * d
apart d p q lt = grind arith

not_apart : (n d p q : ℕ) → 0 < d → IsHalfEven n d p → IsHalfEven n d q → ¬ (p < q)
not_apart n d p q pos_d h k lt =
    let gap = apart d p q lt in
    elim (Bool-cases (ltb (p + 1) q)) [
      | inl far ↦ let wide = apart d (p + 1) q (ltb→lt (p + 1) q far) in omega arith
      | inr near ↦ ground arith
    ]

-- There is only one such number.
pub IsHalfEven-unique : (n d p q : ℕ) → 0 < d → IsHalfEven n d p → IsHalfEven n d q → p ≡ q
IsHalfEven-unique n d p q pos_d h k =
    grind (arith, not_apart n d p q pos_d h k, not_apart n d q p pos_d k h)

-- A half-even quotient lies between the bounds of the number that it rounds.
pub IsHalfEven-le : (n d q m : ℕ) → IsHalfEven n d q → n < m * d → q ≤ m
IsHalfEven-le n d q m h lt = elim (Bool-cases (ltb m q)) [
  | inl over ↦ let gap = apart d m q (ltb→lt m q over) in absurd (omega arith)
  | inr within ↦ ground arith
]

pub le-IsHalfEven : (n d q m : ℕ) → 0 < d → IsHalfEven n d q → m * d ≤ n → m ≤ q
le-IsHalfEven n d q m pos_d h le = elim (Bool-cases (ltb q m)) [
  | inl under ↦ let gap = apart d q m (ltb→lt q m under) in absurd (omega arith)
  | inr within ↦ ground arith
]

pub pow_add : (a b : ℕ) → 10 ^ (a + b) ≡ 10 ^ a * 10 ^ b
pow_add a zero = rw (add-zero a, pow-zero 10) (omega arith)
pow_add a (suc b) = rw (add-suc a b, pow-suc 10 (a + b), pow-suc 10 b) (omega (arith, pow_add a b))
