-- ===== src/Decimal/Strings/Buffer.antt =====
-- decimal.cpp: `char out[80]` in `kyte_decimal_to_string`.
use kyte.Decimal.Word.{decode}
use kyte.Decimal.Strings.{
  is_nil, digs, from_last, with_point, placed, minus_sign, decimal_to_string,
}
use kyte.Decimal.Strings.Printing.{length-digs, length-from_last}
use kyte.Prelude.{
  ℕ, suc, ◌+◌, ◌-◌, ◌^◌, ◌≤◌, ◌<◌, max, ◌≡◌, refl, ◌⊎◌, inl, inr, Bool, true, false, not, ◌&&◌,
  List, [], ◌∷◌, arith, ltb, leb, ◌==◌, if◌then◌else◌, leb→le, Bool-cases, ℤ, pos, negsuc, pos_part,
  neg_part, ◌≤ℤ◌, length, length-append, length-replicate, replicate,
}

grown :
    (b : Bool) (t : List ℕ)
    → (length t ≤ length (if b then 46 ∷ t else t))
      × (length (if b then 46 ∷ t else t) ≤ length t + (if b then 1 else 0))
grown true t = (omega arith, omega arith)
grown false t = (omega arith, omega arith)

-- The point is one character at most.
length-with_point :
    (emitted point : ℕ) (ds : List ℕ)
    → (length ds ≤ length (with_point emitted point ds))
      × (length (with_point emitted point ds) ≤ length ds + (if ltb emitted point then 1 else 0))
unfolding with_point
length-with_point emitted point [] = (omega arith, ground arith)
length-with_point emitted point (d ∷ ds) =
    let t = with_point (emitted + 1) point ds in
    let test = (emitted + 1 == point) && not (is_nil ds) in
    let (least, most) = length-with_point (emitted + 1) point ds in
    let (low, high) = grown test t in
    (
      omega arith,
      once emitted point (length ds) (length t) (length (if test then 46 ∷ t else t))
          (not (is_nil ds)) most high,
    )
  where
    once :
        (e p l t r : ℕ) (z : Bool)
        → t ≤ l + (if ltb (e + 1) p then 1 else 0)
        → r ≤ t + (if (e + 1 == p) && z then 1 else 0)
        → suc r ≤ suc l + (if ltb e p then 1 else 0)
    once e p l t r z h k = ground arith

-- The number of characters for `nd` digits and an exponent, without a sign.
length-placed :
    (ds : List ℕ) (e : ℤ)
    → 1 ≤ length ds
    → length ds ≤ 34
    → (pos_part e + 1 ≤ length (placed ds e))
      × (neg_part e ≤ length (placed ds e) + 33)
      × (34 ≤ neg_part e → length (placed ds e) ≡ neg_part e + 2)
      × (neg_part e ≡ 0 → length (placed ds e) ≤ pos_part e + 34)
      × (length (placed ds e) ≤ pos_part e + max 35 (neg_part e + 2))
unfolding placed
length-placed ds (pos e) some_digit few =
    let total = length-append ds (replicate e 48) in
    let zeros = length-replicate {A = ℕ} e 48 in
    (omega arith, omega arith, λ h. absurd (omega arith), λ h. omega arith, omega arith)
length-placed ds (negsuc e) some_digit few = elim (Bool-cases (leb (length ds) (e + 1))) [
  | inl small ↦
      let le = leb→le (length ds) (e + 1) small in
      let total = length-append (replicate (e + 1 - length ds) 48) ds in
      let zeros = length-replicate {A = ℕ} (e + 1 - length ds) 48 in
      rw small (omega arith, omega arith, λ h. omega arith, λ h. absurd (omega arith), omega arith)
  | inr large ↦
      let (least, most) = length-with_point 0 (length ds - (e + 1)) ds in
      let lt : e + 1 < length ds = ground arith in
      rw large (
        omega arith,
        omega arith,
        λ h. absurd (omega arith),
        λ h. absurd (omega arith),
        ground arith,
      )
]

length-minus_sign : (sign : Bool) (ds : List ℕ) → length (minus_sign sign ds) ≤ 1
unfolding minus_sign
length-minus_sign sign ds = ground arith

length-decimal_to_string :
    (w : ℕ)
    → (decode w).special ≡ false
    → let t = placed (from_last (digs (decode w).coeff)) (decode w).exp in
      (length t ≤ length (decimal_to_string w)) × (length (decimal_to_string w) ≤ length t + 1)
unfolding decimal_to_string
length-decimal_to_string w finite =
    let d = decode w in
    let sign = minus_sign d.sign (digs d.coeff) in
    let t = placed (from_last (digs d.coeff)) d.exp in
    let total = length-append sign t in
    let one = length-minus_sign d.sign (digs d.coeff) in rw finite (omega arith, omega arith)

one_part : (e : ℤ) → (pos_part e ≡ 0) ⊎ (neg_part e ≡ 0)
one_part (pos n) = inr refl
one_part (negsuc n) = inl refl

module _ (w : ℕ) (finite : (decode w).special ≡ false) (small : (decode w).coeff < 10 ^ 34) where
  -- The text of a finite decimal of 34 digits at most and its byte 0 fit into the buffer of 80 bytes if
  -- the exponent is from -76 to 44.
  pub decimal_to_string-fits :
      negsuc 75 ≤ℤ (decode w).exp → (decode w).exp ≤ℤ pos 44 → length (decimal_to_string w) + 1 ≤ 80
  decimal_to_string-fits low high =
      let d = decode w in
      let ds = from_last (digs d.coeff) in
      let (one, most) = length-digs d.coeff small in
      let same = length-from_last (digs d.coeff) in
      let (least, below) = length-decimal_to_string w finite in
      let (whole, fraction, exact, natural, bound) =
        length-placed ds d.exp (omega arith) (omega arith) in
      elim (one_part d.exp) [
        | inl negative ↦ omega arith
        | inr positive ↦ omega (arith, natural positive)
      ]

  -- If the exponent of a finite decimal of 34 digits at most is 79 or more, or -78 or less, its text and
  -- the byte 0 do not fit into the buffer of 80 bytes, and are written beyond its end.
  pub decimal_to_string-overflows :
      (pos 79 ≤ℤ (decode w).exp) ⊎ ((decode w).exp ≤ℤ negsuc 77)
      → 80 < length (decimal_to_string w) + 1
  decimal_to_string-overflows far =
      let d = decode w in
      let ds = from_last (digs d.coeff) in
      let (one, most) = length-digs d.coeff small in
      let same = length-from_last (digs d.coeff) in
      let (least, below) = length-decimal_to_string w finite in
      let (whole, fraction, exact, natural, bound) =
        length-placed ds d.exp (omega arith) (omega arith) in
      elim far [ inl large ↦ omega arith | inr tiny ↦ omega (arith, exact (omega arith)) ]
