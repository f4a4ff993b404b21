-- ===== src/Decimal/Encode.antt =====
-- decimal.cpp: `dec_encode` brings a result back to 34 digits and packs it.
use native.Mathlib.Nat.{pow-zero}
use kyte.Prelude.{
  ℕ, ◌+◌, ◌-◌, ◌*◌, ◌^◌, ◌≤◌, ◌<◌, ◌≡◌, refl, ap, ◌∙◌, inl, inr, Bool, false, arith, ltb, ◌==◌,
  if◌then◌else◌, ltb→lt, Bool-cases, ℤ, pos, ◌+ℤ◌, int_laws, drop,
}
use kyte.Decimal.Word.{
  KyteDec, max_digits, pack, decode, InRange, decode-pack, decode-pack_clamped, pack-decode,
  pack-lt,
}
use kyte.Decimal.Digits.{
  u128, num_digits, pow10, round_drop, HasDigits, num_digits-HasDigits, num_digits-le,
  lt-num_digits, IsHalfEven, round_drop-IsHalfEven, IsHalfEven-le, le-IsHalfEven, pow_add, ten_pos,
}

-- Rounding can carry into a 35th digit, which is then a zero and is dropped too.
shrink : KyteDec → ℕ → KyteDec
shrink d drop =
    let coeff = round_drop d.coeff drop in
    let exp = d.exp +ℤ pos drop in
    if ltb max_digits (num_digits coeff)
    then record d { coeff = round_drop coeff 1; exp = exp +ℤ pos 1 }
    else record d { coeff = coeff; exp = exp }

unsign_zero : KyteDec → KyteDec
unsign_zero d = if d.coeff == 0 then record d { sign = false } else d

-- The body of `dec_encode` up to the packing.
unfoldable pub normalize : KyteDec → KyteDec
unfolding shrink unsign_zero
normalize d =
    let nd = num_digits d.coeff in
    unsign_zero (if ltb max_digits nd then shrink d (nd - max_digits) else d)

unfoldable pub encode : KyteDec → ℕ
encode d = let r = normalize d in pack r.sign r.coeff r.exp

-- `r` is `d` with `k` digits rounded away: none if 34 digits hold the coefficient, and else as few
-- as leave 34.
pub record Rounds (d r : KyteDec) (k : ℕ) : Type 0 where
  pub small : r.coeff < 10 ^ 34
  pub exponent : r.exp ≡ d.exp +ℤ pos k
  pub rounded : IsHalfEven d.coeff (10 ^ k) r.coeff
  pub exact : d.coeff < 10 ^ 34 → k ≡ 0
  pub full : 0 < k → 10 ^ 33 ≤ r.coeff

+ℤ_zero : (e : ℤ) → e ≡ e +ℤ pos 0
+ℤ_zero e = omega int_laws

scale_bounds :
    (v n : ℕ)
    → HasDigits v n
    → max_digits < n
    → (10 ^ 33 * 10 ^ (n - max_digits) ≤ v) × (v < 10 ^ 34 * 10 ^ (n - max_digits))
scale_bounds v n h large =
    let pos_v : 0 < v = grind arith in
    let split : n ≡ 34 + (n - 34) = omega arith in
    let split' : n - 1 ≡ 33 + (n - 34) = omega arith in
    let top : 10 ^ n ≡ 10 ^ 34 * 10 ^ (n - 34) =
      ap (λ (m : ℕ). 10 ^ m) split ∙ pow_add 34 (n - 34) in
    let bottom : 10 ^ (n - 1) ≡ 10 ^ 33 * 10 ^ (n - 34) =
      ap (λ (m : ℕ). 10 ^ m) split' ∙ pow_add 33 (n - 34) in
    let least = h.above pos_v in omega (arith, h.below)

carry : round_drop (10 ^ 34) 1 ≡ 10 ^ 33
unfolding round_drop pow10
carry = refl

+ℤ_suc : (e : ℤ) (k : ℕ) → e +ℤ pos k +ℤ pos 1 ≡ e +ℤ pos (k + 1)
+ℤ_suc e k = omega int_laws

-- One more digit of a coefficient that rounding has carried to 10^34.
pub carried :
    (n k c : ℕ) → c ≡ 10 ^ 34 → IsHalfEven n (10 ^ k) c → IsHalfEven n (10 ^ (k + 1)) (10 ^ 33)
carried n k c e h = rw (pow_add k 1) (grind (arith, ten_pos k))

pub digits_over : (c : ℕ) → c ≤ 10 ^ 34 → max_digits < num_digits c → c ≡ 10 ^ 34
digits_over c le over =
    grind (arith, λ (lt : c < 10 ^ 34). num_digits-le c 34 (omega arith) lt (omega arith))

pub digits_fit : (c : ℕ) → c ≤ 10 ^ 34 → ltb max_digits (num_digits c) ≡ false → c < 10 ^ 34
digits_fit c le fits = grind (arith, λ (ge : 10 ^ 34 ≤ c). lt-num_digits c 34 (omega arith) ge)

at_least : (v : ℕ) → v < u128 → max_digits < num_digits v → 10 ^ 34 ≤ v
at_least v h over = grind (arith, λ (lt : v < 10 ^ 34). num_digits-le v 34 h lt (omega arith))

module _ (d : KyteDec) (h : d.coeff < u128) (large : max_digits < num_digits d.coeff) where
  shrink-Rounds : (k : ℕ) × Rounds d (shrink d (num_digits d.coeff - max_digits)) k
  unfolding shrink
  shrink-Rounds =
      let drop = num_digits d.coeff - max_digits in
      let c = round_drop d.coeff drop in
      let (floor, ceil) =
        scale_bounds d.coeff (num_digits d.coeff) (num_digits-HasDigits d.coeff h) large in
      let half = round_drop-IsHalfEven d.coeff drop h in
      let top = IsHalfEven-le d.coeff (10 ^ drop) c (10 ^ 34) half ceil in
      let bottom = le-IsHalfEven d.coeff (10 ^ drop) c (10 ^ 33) (ten_pos drop) half floor in
      let long : 10 ^ 34 ≤ d.coeff = at_least d.coeff h large in
      elim (Bool-cases (ltb max_digits (num_digits c))) [
        | inl over ↦
            let top_digit = digits_over c top (ltb→lt max_digits (num_digits c) over) in
            (
              drop + 1,
              rw (over, top_digit, carry)
                  (record {
                    small = omega arith;
                    exponent = +ℤ_suc d.exp drop;
                    rounded = carried d.coeff drop c top_digit half;
                    exact = λ lt. absurd (omega arith);
                    full = λ _. omega arith;
                  }),
            )
        | inr fits ↦ (
          drop,
          rw fits (record {
            small = digits_fit c top fits;
            exponent = refl;
            rounded = half;
            exact = λ lt. absurd (omega arith);
            full = λ _. bottom;
          }),
        )
      ]

unsign_zero_lem :
    (d : KyteDec)
    → ((unsign_zero d).coeff ≡ d.coeff)
      × ((unsign_zero d).exp ≡ d.exp)
      × ((unsign_zero d).sign ≡ (if d.coeff == 0 then false else d.sign))
unfolding unsign_zero
unsign_zero_lem d = ground arith

unsign_zero-Rounds : (d r : KyteDec) (k : ℕ) → Rounds d r k → Rounds d (unsign_zero r) k
unsign_zero-Rounds d r k h = ground (arith, unsign_zero_lem r)

kept_whole : (d : KyteDec) → d.coeff < 10 ^ 34 → Rounds d d 0
kept_whole d h = record {
  small = h;
  exponent = +ℤ_zero d.exp;
  rounded = rw (pow-zero 10) (omega arith);
  exact = λ _. refl;
  full = λ p. absurd (omega arith);
}

not_over : (n : ℕ) → n ≤ 34 → ltb 34 n ≡ false
not_over n h = ground arith

fits_whole : (c : ℕ) → c < u128 → ltb max_digits (num_digits c) ≡ false → c < 10 ^ 34
fits_whole c h fits = grind (arith, λ (ge : 10 ^ 34 ≤ c). lt-num_digits c 34 h ge)

-- `dec_encode` brings any 128-bit coefficient to at most 34 digits: some number `k` of digits is
-- rounded away half to even and added to the exponent, none if the coefficient is below 10^34, and
-- if any then so few that 34 digits stay.
pub normalize-Rounds : (d : KyteDec) → d.coeff < u128 → (k : ℕ) × Rounds d (normalize d) k
unfolding normalize
normalize-Rounds d h = elim (Bool-cases (ltb max_digits (num_digits d.coeff))) [
  | inl large ↦
      let (k, r) = shrink-Rounds d h (ltb→lt max_digits (num_digits d.coeff) large) in
      (k, rw large (unsign_zero-Rounds d _ k r))
  | inr fits ↦ (0, rw fits (unsign_zero-Rounds d d 0 (kept_whole d (fits_whole d.coeff h fits))))
]

-- A coefficient of 34 digits is left as it is; only the sign of a zero is dropped.
pub normalize_small :
    (d : KyteDec)
    → d.coeff < 10 ^ 34
    → normalize d ≡ (if d.coeff == 0 then record d { sign = false } else d)
unfolding normalize
normalize_small d h =
    let few = num_digits-le d.coeff 34 (omega arith) h (omega arith) in
    rw (not_over (num_digits d.coeff) few) refl

-- A zero is never negative; any other result has the sign of the argument.
pub sign-normalize :
    (d : KyteDec) → (normalize d).sign ≡ (if (normalize d).coeff == 0 then false else d.sign)
unfolding normalize
sign-normalize d = ground arith

-- For a 128-bit coefficient, decoding the word that `dec_encode` makes gives the normalized value,
-- if its exponent is in range.
pub decode-encode :
    (d : KyteDec)
    → d.coeff < u128
    → InRange (normalize d).exp
    → decode (encode d) ≡ record (normalize d) { special = false }
unfolding encode
decode-encode d h r =
    let (k, s) = normalize-Rounds d h in
    decode-pack (normalize d).sign (normalize d).coeff (normalize d).exp (omega arith) r

-- A coefficient of 34 digits comes back as it was.
pub decode-encode_small :
    (s : Bool) (c : ℕ) (e : ℤ)
    → c < 10 ^ 34
    → InRange e
    → decode (encode (record { sign = s; coeff = c; exp = e; special = false }))
      ≡ record { sign = (if c == 0 then false else s); coeff = c; exp = e; special = false }
unfolding encode
decode-encode_small s c e h r = elim (Bool-cases (c == 0)) [
  | inl z ↦
      rw (normalize_small (record { sign = s; coeff = c; exp = e; special = false }) h, z)
        (decode-pack false c e (omega arith) r)
  | inr nz ↦
      rw (normalize_small (record { sign = s; coeff = c; exp = e; special = false }) h, nz)
        (decode-pack s c e (omega arith) r)
]

-- The words that the operations produce.
pub record IsCanonical (w : ℕ) : Type 0 where
  pub word : w < u128
  pub finite : (decode w).special ≡ false
  pub small : (decode w).coeff < 10 ^ 34
  pub unsigned_zero : (decode w).coeff ≡ 0 → (decode w).sign ≡ false

same :
    (d : KyteDec)
    → (d.coeff ≡ 0 → d.sign ≡ false)
    → (if d.coeff == 0 then record d { sign = false } else d) ≡ d
same d h = ground arith

-- Encoding the fields of a canonical word gives the word back.
pub encode-decode : (w : ℕ) → IsCanonical w → encode (decode w) ≡ w
unfolding encode
encode-decode w c =
    rw (normalize_small (decode w) c.small, same (decode w) c.unsigned_zero)
      (pack-decode w c.word c.finite)

-- What `dec_encode` makes is canonical, also where the exponent is clamped.
pub encode-IsCanonical : (d : KyteDec) → d.coeff < u128 → IsCanonical (encode d)
unfolding encode
encode-IsCanonical d h =
    let (k, s) = normalize-Rounds d h in
    let r = normalize d in
    let e = decode-pack_clamped r.sign r.coeff r.exp (omega arith) in
    record {
      word = pack-lt r.sign r.coeff r.exp;
      finite = ap (λ (x : KyteDec). x.special) e;
      small = rw e s.small;
      unsigned_zero = rw e (λ z. ground (arith, sign-normalize d));
    }
