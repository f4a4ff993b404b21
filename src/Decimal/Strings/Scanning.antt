-- ===== src/Decimal/Strings/Scanning.antt =====
-- decimal.cpp: what the loop over the digits of a text knows at its end.
use kyte.Decimal.Strings.Taking.{Reads, if_seen, take_digit-Reads}
use kyte.Decimal.Strings.{is_digit, Scan, take_digit, stops_at, scan_char, scan_body}
use kyte.Decimal.Strings.Numeral.{
  belongs, is_numeral, next_value, next_count, numeral_value, digit_count, fraction_count,
}
use kyte.Prelude.{
  ℕ, ◌+◌, ◌-◌, ◌*◌, ◌<◌, ◌≡◌, refl, sym, ap, ◌∙◌, subst, inl, inr, Bool, true, false, ◌&&◌, ◌||◌,
  List, [], ◌∷◌, ◌++◌, arith, ◌==◌, if◌then◌else◌, ==_iff, Bool-cases,
}

or_false : (b : Bool) → b ≡ (b || false)
or_false true = refl
or_false false = refl

-- What is known after the character `c`.
abbrev After : ℕ → Scan → Bool → ℕ → ℕ → ℕ → Type 0
After c r seen v f n =
    Reads r (seen || (c == 46)) (next_value v c) (if seen then next_count f c else f)
      (next_count n c)

same_fraction :
    (f c : ℕ) (seen : Bool) → is_digit c ≡ false → f ≡ (if seen then next_count f c else f)
same_fraction f c true h = rw h refl
same_fraction f c false h = refl

separator-After : (v f n : ℕ) (s : Scan) (seen : Bool) → Reads s seen v f n → After 95 s seen v f n
separator-After v f n s true h = h
separator-After v f n s false h = h

point-After :
    (v f n : ℕ) (s : Scan) (seen : Bool)
    → Reads s seen v f n
    → stops_at seen 46 ≡ false
    → After 46 (record s { seen_dot = true }) seen v f n
unfolding stops_at
point-After v f n s true h goes = ground arith
point-After v f n s false h goes = record {
  dropped = h.dropped;
  counted = h.counted;
  full = h.full;
  room = h.room;
  small = h.small;
  exponent = h.exponent;
  point = refl;
  remains = h.remains;
}

digit-After :
    (c v f n : ℕ) (s : Scan) (seen : Bool)
    → Reads s seen v f n
    → is_digit c ≡ true
    → (c == 46) ≡ false
    → After c (take_digit (c - 48) s) seen v f n
digit-After c v f n s seen h digit other =
    rw (other, digit)
      (subst
        (λ (b : Bool). Reads (take_digit (c - 48) s) b (v * 10 + (c - 48)) (if_seen seen f) (n + 1))
        (or_false seen) (take_digit-Reads (c - 48) v f n s seen h (digit_below c digit)))
  where
    digit_below : (c : ℕ) → is_digit c ≡ true → c - 48 < 10
    digit_below c h = ground arith

scan_digit :
    (c : ℕ) (s : Scan)
    → (c == 95) ≡ false
    → (c == 46) ≡ false
    → scan_char c s ≡ take_digit (c - 48) s
unfolding scan_char
scan_digit c s h k = rw (h, k) refl

scan_char-Reads :
    (c v f n : ℕ) (s : Scan) (seen : Bool)
    → Reads s seen v f n
    → stops_at seen c ≡ false
    → After c (scan_char c s) seen v f n
unfolding scan_char stops_at
scan_char-Reads c v f n s seen h goes = elim (Bool-cases (c == 95)) [
  | inl separator ↦
      subst (λ (d : ℕ). After d (scan_char d s) seen v f n) (sym ((==_iff c 95).0 separator))
        (separator-After v f n s seen h)
  | inr other ↦ elim (Bool-cases (c == 46)) [
    | inl point ↦
        let at = (==_iff c 46).0 point in
        subst (λ (d : ℕ). After d (scan_char d s) seen v f n) (sym at)
          (point-After v f n s seen h (ap (stops_at seen) (sym at) ∙ goes))
    | inr no_point ↦
        subst (λ (r : Scan). After c r seen v f n) (sym (scan_digit c s other no_point))
          (digit-After c v f n s seen h (ground arith) no_point)
  ]
]

-- What follows the digits: nothing, or an exponent.
abbrev pub Ends : List ℕ → Type 0
Ends [] = Unit
Ends (c ∷ cs) = (c == 101 || c == 69) ≡ true

ends-stops : (c : ℕ) (seen : Bool) → (c == 101 || c == 69) ≡ true → stops_at seen c ≡ true
unfolding stops_at
ends-stops c seen h = ground arith

scan_end : (s : Scan) (rest : List ℕ) → Ends rest → scan_body s rest ≡ (s, rest)
unfolding scan_body
scan_end s [] h = refl
scan_end s (c ∷ cs) h = rw (ends-stops c s.seen_dot h) refl

scan_step :
    (c : ℕ) (cs : List ℕ) (s : Scan) (seen : Bool)
    → s.seen_dot ≡ seen
    → stops_at seen c ≡ false
    → scan_body s (c ∷ cs) ≡ scan_body (scan_char c s) cs
unfolding scan_body
scan_step c cs s seen e h = rw (ap (λ (b : Bool). stops_at b c) e ∙ h) refl

pub belongs-goes : (seen : Bool) (c : ℕ) → belongs seen c ≡ true → stops_at seen c ≡ false
unfolding belongs stops_at
belongs-goes true c h = ground arith
belongs-goes false c h = ground arith

both : (a b : Bool) → (a && b) ≡ true → (a ≡ true) × (b ≡ true)
both a b h = ground arith

pub scan_body-Reads :
    (cs rest : List ℕ) (v f n : ℕ) (s : Scan) (seen : Bool)
    → Reads s seen v f n
    → is_numeral seen cs ≡ true
    → Ends rest
    → (r : Scan) × (after : Bool) × (scan_body s (cs ++ rest) ≡ (r, rest))
      × Reads r after (numeral_value v cs) (fraction_count seen f cs) (digit_count n cs)
unfolding scan_body
scan_body-Reads [] rest v f n s seen h numeral ends = (s, seen, scan_end s rest ends, h)
scan_body-Reads (c ∷ cs) rest v f n s seen h numeral ends =
    let (belonging, numeral_rest) = both (belongs seen c) _ numeral in
    let goes = belongs-goes seen c belonging in
    let (r, after, e, k) =
      scan_body-Reads cs rest (next_value v c) (if seen then next_count f c else f) (next_count n c)
        (scan_char c s) (seen || (c == 46)) (scan_char-Reads c v f n s seen h goes) numeral_rest
        ends in
    (r, after, scan_step c (cs ++ rest) s seen h.point goes ∙ e, k)
