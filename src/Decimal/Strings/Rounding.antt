-- ===== src/Decimal/Strings/Rounding.antt =====
-- decimal.cpp: a text with more than 34 digits is rounded half to even.
use native.Mathlib.Nat.{
  pow-suc, mod-eq_of_lt, pow-le-pow_right, pow-zero, add-mul, mul_assoc, mul_comm,
}
use kyte.Decimal.Word.{max_digits}
use kyte.Decimal.Digits.{u128, num_digits, IsHalfEven, round_parts, apart}
use kyte.Decimal.Encode.{carried, digits_over, digits_fit}
use kyte.Decimal.Strings.{Scan, scan_start, rounds_up, renormalise, round_scan}
use kyte.Decimal.Strings.Taking.{Remains, Reads}
use kyte.Prelude.{
  ℕ, suc, ◌+◌, ◌-◌, ◌*◌, ◌%◌, ◌^◌, ◌≤◌, ◌<◌, ◌≡◌, refl, sym, ap, ◌∙◌, subst, ◌⊎◌, inl, inr, Bool,
  true, false, ◌&&◌, ◌||◌, Option, none, some, arith, ltb, ◌==◌, if◌then◌else◌, ltb→lt, ==_iff,
  Bool-cases, ℤ, pos, ◌+ℤ◌, ◌-ℤ◌, int_laws,
}

-- `q * 10 ^ e` is the number with the digits `v`, `f` of them after the point, rounded half to even to
-- 34 digits if it has more; leading zeros count as digits.
pub record IsRounded (v f n q : ℕ) (e : ℤ) : Type 0 where
  pub dropped : ℕ
  pub small : q < 10 ^ 34
  pub rounded : IsHalfEven v (10 ^ dropped) q
  pub exponent : e ≡ pos dropped -ℤ pos f
  pub whole : n ≤ 34 → dropped ≡ 0
  pub few : (dropped ≡ n - 34) ⊎ ((dropped ≡ n - 34 + 1) × (q ≡ 10 ^ 33))

pub start-Reads : Reads scan_start false 0 0 0
unfolding ◌+ℤ◌
start-Reads = record {
  dropped = 0;
  counted = refl;
  full = λ h. absurd (omega arith);
  room = omega arith;
  small = omega arith;
  exponent = refl;
  point = refl;
  remains = (refl, refl, refl);
}

negated : (x : ℤ) (k f : ℕ) → x +ℤ pos k ≡ pos f → pos 0 -ℤ x ≡ pos k -ℤ pos f
negated x k f h = moved x k ∙ ap (λ (z : ℤ). pos k -ℤ z) h
  where
    moved : (x : ℤ) (k : ℕ) → pos 0 -ℤ x ≡ pos k -ℤ (x +ℤ pos k)
    moved x k = omega int_laws

-- The round digit `r` and the other dropped digits `t` decide as half of the divisor would.
decision :
    (r c p t : ℕ)
    → t < p
    → r < 10
    → rounds_up r c (ltb 0 t) ≡ (ltb (5 * p) (r * p + t) || ((r * p + t == 5 * p) && (c % 2 == 1)))
unfolding rounds_up
decision r c p t lt digit = elim (Bool-cases (ltb 5 r)) [
  | inl above ↦ rw (above, over r p t (ltb→lt 5 r above) lt) refl
  | inr rest ↦ elim (Bool-cases (r == 5)) [
    | inl five ↦ rw (rest, five, (==_iff r 5).0 five) (ground arith)
    | inr below ↦
        rw (rest, below, not_over r p t (ground arith) lt, not_half r p t (ground arith) lt) refl
  ]
]
  where
    over : (r p t : ℕ) → 5 < r → t < p → ltb (5 * p) (r * p + t) ≡ true
    over r p t h lt = let gap = apart p 5 r h in ground arith

    not_over : (r p t : ℕ) → r < 5 → t < p → ltb (5 * p) (r * p + t) ≡ false
    not_over r p t h lt = let gap = apart p r 5 h in ground arith

    not_half : (r p t : ℕ) → r < 5 → t < p → (r * p + t == 5 * p) ≡ false
    not_half r p t h lt = let gap = apart p r 5 h in ground arith

-- The quotient that the round digit chooses.
chosen : ℕ → ℕ → ℕ → ℕ
chosen r c t = if rounds_up r c (ltb 0 t) then c + 1 else c

chosen_up : (r c t : ℕ) → rounds_up r c (ltb 0 t) ≡ true → chosen r c t ≡ c + 1
unfolding chosen
chosen_up r c t h = rw h refl

chosen_down : (r c t : ℕ) → rounds_up r c (ltb 0 t) ≡ false → chosen r c t ≡ c
unfolding chosen
chosen_down r c t h = rw h refl

chosen-IsHalfEven :
    (r c j t : ℕ)
    → t < 10 ^ j
    → r < 10
    → IsHalfEven ((c * 10 + r) * 10 ^ j + t) (10 ^ suc j) (chosen r c t)
unfolding chosen
chosen-IsHalfEven r c j t lt digit =
    let p = 10 ^ j in
    rw
      (
        decision r c p t lt digit,
        if_or (ltb (5 * p) (r * p + t)) ((r * p + t == 5 * p) && (c % 2 == 1)) (c + 1) c,
      )
      (round_parts ((c * 10 + r) * p + t) (10 ^ suc j) c (r * p + t) (5 * p)
        (sum c r p t (10 ^ suc j) (pow-suc 10 j)) (below r p t (10 ^ suc j) digit lt (pow-suc 10 j))
        (omega (arith, pow-suc 10 j)))
  where
    if_or :
        (a b : Bool) (x y : ℕ) → (if a || b then x else y) ≡ (if a then x else if b then x else y)
    if_or true b x y = refl
    if_or false b x y = refl

    sum : (c r p t d : ℕ) → d ≡ p * 10 → (c * 10 + r) * p + t ≡ d * c + (r * p + t)
    sum c r p t d e = omega (
      arith,
      add-mul (c * 10) r p,
      mul_assoc c 10 p,
      mul_comm p 10,
      mul_comm d c,
      ap (λ (m : ℕ). c * m) e,
    )

    below : (r p t d : ℕ) → r < 10 → t < p → d ≡ p * 10 → r * p + t < d
    below r p t d h lt e = let gap = apart p r 10 h in omega arith

-- One digit is dropped for each one read after the 34th.
module _ (r : Scan) (seen : Bool) (v f n : ℕ) (h : Reads r seen v f n) where
  exact-IsRounded : h.dropped ≡ 0 → v ≡ r.coeff → IsRounded v f n r.coeff (pos 0 -ℤ r.frac)
  exact-IsRounded none_dropped same = record {
    dropped = h.dropped;
    small =
        let top = pow-le-pow_right {n = 10} (omega arith) {i = r.digits} {j = 34} h.room in
        omega (arith, h.small);
    rounded = rw (none_dropped, same, pow-zero 10) (omega arith);
    exponent = negated r.frac h.dropped f h.exponent;
    whole = λ _. none_dropped;
    few = inl (omega arith);
  }

  dropped-IsRounded :
      (q : ℕ)
      → 0 < h.dropped
      → q < 10 ^ 34
      → IsHalfEven v (10 ^ h.dropped) q
      → IsRounded v f n q (pos 0 -ℤ r.frac)
  dropped-IsRounded q some_dropped small half = record {
    dropped = h.dropped;
    small = small;
    rounded = half;
    exponent = negated r.frac h.dropped f h.exponent;
    whole = λ le. omega (arith, h.full some_dropped);
    few = inl (omega (arith, h.full some_dropped));
  }

  carried-IsRounded :
      0 < h.dropped
      → IsHalfEven v (10 ^ h.dropped) (10 ^ 34)
      → IsRounded v f n (10 ^ 33) (pos 0 -ℤ r.frac +ℤ pos 1)
  carried-IsRounded some_dropped half = record {
    dropped = h.dropped + 1;
    small = omega arith;
    rounded = carried v h.dropped (10 ^ 34) refl half;
    exponent =
        ap (λ (e : ℤ). e +ℤ pos 1) (negated r.frac h.dropped f h.exponent) ∙ one_more h.dropped f;
    whole = λ le. absurd (omega (arith, h.full some_dropped));
    few = inr (omega (arith, h.full some_dropped), refl);
  }
    where
      one_more : (k f : ℕ) → pos k -ℤ pos f +ℤ pos 1 ≡ pos (k + 1) -ℤ pos f
      one_more k f = omega int_laws

  renormalised :
      (q : ℕ)
      → 0 < h.dropped
      → q ≤ 10 ^ 34
      → IsHalfEven v (10 ^ h.dropped) q
      → let (c, e) = renormalise q (pos 0 -ℤ r.frac) in IsRounded v f n c e
  unfolding renormalise
  renormalised q some_dropped le half = elim (Bool-cases (ltb max_digits (num_digits q))) [
    | inl over ↦
        let top = digits_over q le (ltb→lt max_digits (num_digits q) over) in
        rw (over, top)
          (carried-IsRounded some_dropped (subst (IsHalfEven v (10 ^ h.dropped)) top half))
    | inr fits ↦ rw fits (dropped-IsRounded q some_dropped (digits_fit q le fits) half)
  ]

  round_some :
      (d : ℕ)
      → Remains (some d) r.sticky r.coeff v h.dropped
      → let (c, e) = round_scan (some d) r in IsRounded v f n c e
  unfolding round_scan
  round_some d (j, t, ek, lt, ev, digit, st) =
      let full = h.full (omega arith) in
      let half : IsHalfEven v (10 ^ h.dropped) (chosen d r.coeff t) =
        rw (ev, ek) (chosen-IsHalfEven d r.coeff j t lt digit) in
      let small : r.coeff < 10 ^ 34 = subst (λ (m : ℕ). r.coeff < 10 ^ m) full h.small in
      elim (Bool-cases (rounds_up d r.coeff r.sticky)) [
        | inl up ↦
            let up' = chosen_up d r.coeff t (ap (rounds_up d r.coeff) (sym st) ∙ up) in
            rw (up, whole (r.coeff + 1) (omega arith))
              (renormalised (r.coeff + 1) (omega arith) (omega arith)
                (subst (IsHalfEven v (10 ^ h.dropped)) up' half))
        | inr down ↦
            let down' = chosen_down d r.coeff t (ap (rounds_up d r.coeff) (sym st) ∙ down) in
            rw down (
              dropped-IsRounded r.coeff (omega arith) small
                (subst (IsHalfEven v (10 ^ h.dropped)) down' half))
      ]
    where
      whole : (c : ℕ) → c ≤ 10 ^ 34 → c % u128 ≡ c
      whole c le = mod-eq_of_lt {n = c} {m = u128} (omega arith)

  pub round_scan-IsRounded :
      (o : Option ℕ) → r.round_digit ≡ o → let (c, e) = round_scan o r in IsRounded v f n c e
  unfolding round_scan
  round_scan-IsRounded none e =
      let (none_dropped, same, st) =
        subst (λ (o : Option ℕ). Remains o r.sticky r.coeff v h.dropped) e h.remains in
      exact-IsRounded none_dropped same
  round_scan-IsRounded (some d) e =
      round_some d (subst (λ (o : Option ℕ). Remains o r.sticky r.coeff v h.dropped) e h.remains)
