-- ===== src/Decimal/Strings/Taking.antt =====
-- decimal.cpp: what the loop over the digits of a text knows after a digit.
use native.Mathlib.Nat.{pow-suc, mod-eq_of_lt, pow-le-pow_right, mul_assoc}
use kyte.Decimal.Word.{max_digits}
use kyte.Decimal.Digits.{u128}
use kyte.Decimal.Strings.{Scan, note_dropped, take_digit}
use kyte.Prelude.{
  ℕ, zero, suc, ◌+◌, ◌*◌, ◌%◌, ◌^◌, ◌≤◌, ◌<◌, ◌≡◌, refl, sym, ap, ◌∙◌, subst, inl, inr, Bool, true,
  false, Option, none, some, arith, ltb, ◌==◌, if◌then◌else◌, ltb→lt, Bool-cases, ℤ, pos, ◌+ℤ◌,
  ◌-ℤ◌, int_laws,
}

-- `v` is the number read, `c` the coefficient, and `k` digits were dropped: the round digit and `k - 1`
-- others, which are not all zero exactly if `sticky`.
abbrev pub Remains : Option ℕ → Bool → ℕ → ℕ → ℕ → Type 0
Remains none sticky c v k = (k ≡ 0) × (v ≡ c) × (sticky ≡ false)
Remains (some r) sticky c v k =
    (j : ℕ) × (t : ℕ) × (k ≡ suc j)
    × (t < 10 ^ j)
    × (v ≡ (c * 10 + r) * 10 ^ j + t)
    × (r < 10)
    × (sticky ≡ ltb 0 t)

-- `n` digits were read, `f` of them after the point.
pub record Reads (s : Scan) (seen : Bool) (v f n : ℕ) : Type 0 where
  pub dropped : ℕ
  pub counted : s.digits + dropped ≡ n
  pub full : 0 < dropped → s.digits ≡ 34
  pub room : s.digits ≤ 34
  pub small : s.coeff < 10 ^ s.digits
  pub exponent : s.frac +ℤ pos dropped ≡ pos f
  pub point : s.seen_dot ≡ seen
  pub remains : Remains s.round_digit s.sticky s.coeff v dropped

-- The fields that a dropped digit leaves alone.
record SameStart (s r : Scan) : Type 0 where
  same_coeff : r.coeff ≡ s.coeff
  same_digits : r.digits ≡ s.digits
  same_frac : r.frac ≡ s.frac
  same_dot : r.seen_dot ≡ s.seen_dot

note_dropped-SameStart : (o : Option ℕ) (dv : ℕ) (s : Scan) → SameStart s (note_dropped o dv s)
unfolding note_dropped
note_dropped-SameStart none dv s = record {
  same_coeff = refl;
  same_digits = refl;
  same_frac = refl;
  same_dot = refl;
}
note_dropped-SameStart (some r) dv s = elim (Bool-cases (dv == 0)) [
  | inl zero_digit ↦
      rw zero_digit
        (record { same_coeff = refl; same_digits = refl; same_frac = refl; same_dot = refl })
  | inr other ↦
      rw other (record { same_coeff = refl; same_digits = refl; same_frac = refl; same_dot = refl })
]

ten_times : (m j : ℕ) → m * 10 ^ suc j ≡ m * 10 ^ j * 10
ten_times m j = ap (λ (x : ℕ). m * x) (pow-suc 10 j) ∙ sym (mul_assoc m (10 ^ j) 10)

later_digit :
    (r c v k dv : ℕ) (sticky after : Bool)
    → Remains (some r) sticky c v k
    → dv < 10
    → after ≡ (if dv == 0 then sticky else true)
    → Remains (some r) after c (v * 10 + dv) (suc k)
later_digit r c v k dv sticky after (j, t, ek, lt, ev, digit, st) small e = (
  suc j,
  t * 10 + dv,
  ap suc ek,
  omega (arith, pow-suc 10 j),
  omega (arith, ten_times (c * 10 + r) j),
  digit,
  e ∙ still_sticky t dv sticky st,
)
  where
    still_sticky :
        (t dv : ℕ) (sticky : Bool)
        → sticky ≡ ltb 0 t
        → (if dv == 0 then sticky else true) ≡ ltb 0 (t * 10 + dv)
    still_sticky t dv sticky st = ground arith

note_dropped-Remains :
    (o : Option ℕ) (dv v k : ℕ) (s : Scan)
    → s.round_digit ≡ o
    → Remains o s.sticky s.coeff v k
    → dv < 10
    → let r = note_dropped o dv s in Remains r.round_digit r.sticky s.coeff (v * 10 + dv) (suc k)
unfolding note_dropped
note_dropped-Remains none dv v k s e (ek, ev, st) small =
    (0, 0, ap suc ek, omega arith, omega arith, small, st)
note_dropped-Remains (some r) dv v k s e h small = elim (Bool-cases (dv == 0)) [
  | inl zero_digit ↦ rw zero_digit (
      subst (λ (o : Option ℕ). Remains o s.sticky s.coeff (v * 10 + dv) (suc k)) (sym e)
        (later_digit r s.coeff v k dv s.sticky s.sticky h small (if_zero zero_digit)))
  | inr other ↦ rw other (
      subst (λ (o : Option ℕ). Remains o true s.coeff (v * 10 + dv) (suc k)) (sym e)
        (later_digit r s.coeff v k dv s.sticky true h small (if_other other)))
]
  where
    if_zero : (dv == 0) ≡ true → s.sticky ≡ (if dv == 0 then s.sticky else true)
    if_zero h = ground arith

    if_other : (dv == 0) ≡ false → true ≡ (if dv == 0 then s.sticky else true)
    if_other h = ground arith

abbrev pub if_seen : Bool → ℕ → ℕ
if_seen seen f = if seen then f + 1 else f

frac_kept :
    (d : Bool) (x : ℤ) (k f : ℕ)
    → x +ℤ pos k ≡ pos f
    → (if d then x +ℤ pos 1 else x) +ℤ pos k ≡ pos (if_seen d f)
frac_kept true x k f h = moved x k ∙ ap (λ (z : ℤ). z +ℤ pos 1) h ∙ one_more f
  where
    moved : (x : ℤ) (k : ℕ) → x +ℤ pos 1 +ℤ pos k ≡ x +ℤ pos k +ℤ pos 1
    moved x k = omega int_laws

    one_more : (f : ℕ) → pos f +ℤ pos 1 ≡ pos (f + 1)
    one_more f = omega int_laws
frac_kept false x k f h = h

frac_dropped :
    (d : Bool) (x : ℤ) (k f : ℕ)
    → x +ℤ pos k ≡ pos f
    → (if d then x else x -ℤ pos 1) +ℤ pos (suc k) ≡ pos (if_seen d f)
frac_dropped true x k f h = moved x k ∙ ap (λ (z : ℤ). z +ℤ pos 1) h ∙ one_more f
  where
    moved : (x : ℤ) (k : ℕ) → x +ℤ pos (suc k) ≡ x +ℤ pos k +ℤ pos 1
    moved x k = omega int_laws

    one_more : (f : ℕ) → pos f +ℤ pos 1 ≡ pos (f + 1)
    one_more f = omega int_laws
frac_dropped false x k f h = moved x k ∙ h
  where
    moved : (x : ℤ) (k : ℕ) → x -ℤ pos 1 +ℤ pos (suc k) ≡ x +ℤ pos k
    moved x k = omega int_laws

next_power : (n : ℕ) → 10 ^ (n + 1) ≡ 10 ^ n * 10
next_power n = ap (λ (m : ℕ). 10 ^ m) {x = n + 1} {y = suc n} (omega arith) ∙ pow-suc 10 n

-- Nothing was dropped yet.
kept-Remains :
    (o : Option ℕ) (sticky : Bool) (c v k dv : ℕ)
    → Remains o sticky c v k
    → k ≡ 0
    → Remains o sticky (c * 10 + dv) (v * 10 + dv) k
kept-Remains none sticky c v k dv (ek, ev, st) none_dropped = (ek, omega arith, st)
kept-Remains (some r) sticky c v k dv (j, t, ek, lt, ev, digit, st) none_dropped =
    absurd (omega arith)

fits_word : (c dv n : ℕ) → c < 10 ^ n → dv < 10 → n < 34 → (c * 10 + dv) % u128 ≡ c * 10 + dv
fits_word c dv n h small more =
    let top = pow-le-pow_right {n = 10} (omega arith) {i = n} {j = 33} (omega arith) in
    mod-eq_of_lt {n = c * 10 + dv} {m = u128} (omega arith)

-- There is room for the digit.
kept_digit :
    (dv v f n : ℕ) (s : Scan) (seen : Bool)
    → Reads s seen v f n
    → dv < 10
    → s.digits < 34
    → Reads
        (record s {
          coeff = (s.coeff * 10 + dv) % u128;
          digits = s.digits + 1;
          frac = if s.seen_dot then s.frac +ℤ pos 1 else s.frac;
        })
        seen
        (v * 10 + dv)
        (if_seen seen f)
        (n + 1)
kept_digit dv v f n s seen h small more =
    let whole = fits_word s.coeff dv s.digits h.small small more in
    let none_dropped = undropped h.dropped s.digits h.full more in
    record {
      dropped = h.dropped;
      counted = omega arith;
      full = λ some_dropped. absurd (omega arith);
      room = omega arith;
      small = omega (arith, whole, next_power s.digits, h.small);
      exponent =
          frac_kept s.seen_dot s.frac h.dropped f h.exponent
          ∙ ap (λ (d : Bool). pos (if_seen d f)) h.point;
      point = h.point;
      remains =
          subst (λ (c : ℕ). Remains s.round_digit s.sticky c (v * 10 + dv) h.dropped) (sym whole)
            (kept-Remains s.round_digit s.sticky s.coeff v h.dropped dv h.remains none_dropped);
    }
  where
    undropped : (k d : ℕ) → (0 < k → d ≡ 34) → d < 34 → k ≡ 0
    undropped zero d full more = refl
    undropped (suc k) d full more = let e = full (omega arith) in absurd (omega arith)

dropped_digit :
    (dv v f n : ℕ) (s : Scan) (seen : Bool)
    → Reads s seen v f n
    → dv < 10
    → s.digits ≡ 34
    → Reads
        (note_dropped s.round_digit dv
          (record s { frac = if s.seen_dot then s.frac else s.frac -ℤ pos 1 }))
        seen
        (v * 10 + dv)
        (if_seen seen f)
        (n + 1)
dropped_digit dv v f n s seen h small top =
    let r = record s { frac = if s.seen_dot then s.frac else s.frac -ℤ pos 1 } in
    let same = note_dropped-SameStart s.round_digit dv r in
    let left = note_dropped-Remains s.round_digit dv v h.dropped r refl h.remains small in
    let after = note_dropped s.round_digit dv r in
    record {
      dropped = suc h.dropped;
      counted = omega (arith, same.same_digits, h.counted);
      full = λ _. same.same_digits ∙ top;
      room = omega (arith, same.same_digits);
      small = rw (same.same_coeff, same.same_digits) h.small;
      exponent =
          ap (λ (x : ℤ). x +ℤ pos (suc h.dropped)) same.same_frac
          ∙ frac_dropped s.seen_dot s.frac h.dropped f h.exponent
          ∙ ap (λ (d : Bool). pos (if_seen d f)) h.point;
      point = same.same_dot ∙ h.point;
      remains =
          subst (λ (c : ℕ). Remains after.round_digit after.sticky c (v * 10 + dv) (suc h.dropped))
            (sym same.same_coeff) left;
    }

pub take_digit-Reads :
    (dv v f n : ℕ) (s : Scan) (seen : Bool)
    → Reads s seen v f n
    → dv < 10
    → Reads (take_digit dv s) seen (v * 10 + dv) (if_seen seen f) (n + 1)
unfolding take_digit
take_digit-Reads dv v f n s seen h small = elim (Bool-cases (ltb s.digits max_digits)) [
  | inl more ↦ rw more (kept_digit dv v f n s seen h small (ltb→lt s.digits max_digits more))
  | inr full ↦ rw full (dropped_digit dv v f n s seen h small (at_top s.digits full h.room))
]
  where
    at_top : (d : ℕ) → ltb d max_digits ≡ false → d ≤ 34 → d ≡ 34
    at_top d h k = ground arith
