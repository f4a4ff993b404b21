-- ===== src/Decimal/Strings/RoundTrip.antt =====
-- decimal.cpp: a decimal that is printed and read again.
use kyte.Decimal.Word.{decode, pack, pack-decode}
use kyte.Decimal.Digits.{IsHalfEven}
use kyte.Decimal.Strings.{
  digs, from_last, placed, parse_bounded, decimal_from_string_n, decimal_to_string,
}
use kyte.Decimal.Strings.Numeral.{numeral_value, digit_count, fraction_count}
use kyte.Decimal.Strings.Rounding.{IsRounded}
use kyte.Decimal.Strings.Exponents.{with_sign}
use kyte.Decimal.Strings.Parsing.{parse_bounded-pack}
use kyte.Decimal.Strings.Printing.{digs-value, length-digs, length-from_last, minus_sign-digs}
use kyte.Decimal.Strings.Placing.{IsText, count_of, placed-IsText}
use kyte.Prelude.{
  ℕ, zero, suc, ◌*◌, ◌^◌, ◌≤◌, ◌<◌, ◌≡◌, refl, sym, ap, ◌∙◌, subst, ◌⊎◌, Bool, true, false, none,
  some, List, [], ◌∷◌, ◌++◌, append-nil, arith, if◌then◌else◌, ℤ, pos, negsuc, pos_part, neg_part,
  ◌+ℤ◌, ◌-ℤ◌, ◌≤ℤ◌, int_laws, length, take_all,
}

signed_text :
    (sign : Bool) (body : List ℕ)
    → (if sign then 45 ∷ [] else []) ++ body ≡ with_sign sign (body ++ [])
signed_text true body = ap (λ (t : List ℕ). 45 ∷ t) (sym (append-nil body))
signed_text false body = sym (append-nil body)

-- 34 digits are enough for exponents from -33 to 0.
count_of-le : (nd : ℕ) (e : ℤ) → nd ≤ 34 → negsuc 32 ≤ℤ e → e ≤ℤ pos 0 → count_of nd e ≤ 34
count_of-le nd (pos e) h low high = omega arith
count_of-le nd (negsuc e) h low high = ground arith

nearest : (c q p k : ℕ) → k ≡ 0 → p ≡ 0 → IsHalfEven (c * 10 ^ p) (10 ^ k) q → q ≡ c
nearest c q zero zero ek ep half = omega (arith, half.low, half.high)
nearest c q zero (suc k) ek ep half = absurd (omega arith)
nearest c q (suc p) k ek ep half = absurd (omega arith)

not_positive : (e : ℤ) → e ≤ℤ pos 0 → pos_part e ≡ 0
not_positive (pos n) h = omega arith
not_positive (negsuc n) h = refl

opposite : (e : ℤ) → e ≤ℤ pos 0 → pos 0 -ℤ pos (neg_part e) ≡ e
opposite (pos zero) h = omega int_laws
opposite (pos (suc n)) h = absurd (omega arith)
opposite (negsuc n) h = omega int_laws

nothing_dropped :
    (c n q : ℕ) (e e' : ℤ)
    → IsRounded (c * 10 ^ pos_part e) (neg_part e) n q e'
    → n ≤ 34
    → e ≤ℤ pos 0
    → (q ≡ c) × (e' ≡ e)
nothing_dropped c n q e e' h small high =
    let none_dropped = h.whole small in
    (
      nearest c q (pos_part e) h.dropped none_dropped (not_positive e high) h.rounded,
      h.exponent ∙ ap (λ (k : ℕ). pos k -ℤ pos (neg_part e)) none_dropped ∙ opposite e high,
    )

text-IsRounded :
    (t : List ℕ) (v f n q : ℕ) (e : ℤ)
    → IsText t v f n
    → IsRounded (numeral_value 0 t) (fraction_count false 0 t) (digit_count 0 t) q e
    → IsRounded v f n q e
text-IsRounded t v f n q e h r =
    subst (λ (m : ℕ). IsRounded v f m q e) h.count
      (subst (λ (g : ℕ). IsRounded v g (digit_count 0 t) q e) h.fraction
        (subst (λ (u : ℕ). IsRounded u (fraction_count false 0 t) (digit_count 0 t) q e) h.value r))

printed_text :
    (w : ℕ)
    → (decode w).special ≡ false
    → ((decode w).sign ≡ false) ⊎ (0 < (decode w).coeff)
    → decimal_to_string w
      ≡ with_sign (decode w).sign (placed (from_last (digs (decode w).coeff)) (decode w).exp ++ [])
unfolding decimal_to_string
printed_text w finite signed =
    let d = decode w in
    let body = placed (from_last (digs d.coeff)) d.exp in
    rw finite (
      ap (λ (m : List ℕ). m ++ body) (minus_sign-digs d.sign d.coeff signed)
      ∙ signed_text d.sign body)

whole_text : (s : List ℕ) → decimal_from_string_n s (pos (length s)) ≡ parse_bounded s
unfolding decimal_from_string_n
whole_text s = ap parse_bounded (take_all s)

read_back :
    (sign : Bool) (c q : ℕ) (e e' : ℤ)
    → (q ≡ c) × (e' ≡ e)
    → pack sign q (e' +ℤ pos 0) ≡ pack sign c e
read_back sign c q e e' (eq, ee) =
    ap (λ (z : ℤ). pack sign q z) (nought e' ∙ ee) ∙ ap (λ (n : ℕ). pack sign n e) eq
  where
    nought : (z : ℤ) → z +ℤ pos 0 ≡ z
    nought z = omega int_laws

-- A finite decimal of 34 digits at most with an exponent from -33 to 0 is read back from its text as the
-- same word; a negative zero, which loses its sign, is excepted.
pub decimal_from_string_n-to_string :
    (w : ℕ)
    → w < 2 ^ 128
    → (decode w).special ≡ false
    → (decode w).coeff < 10 ^ 34
    → ((decode w).sign ≡ false) ⊎ (0 < (decode w).coeff)
    → negsuc 32 ≤ℤ (decode w).exp
    → (decode w).exp ≤ℤ pos 0
    → decimal_from_string_n (decimal_to_string w) (pos (length (decimal_to_string w))) ≡ some w
decimal_from_string_n-to_string w word finite small signed low high =
    let d = decode w in
    let ds = from_last (digs d.coeff) in
    let (value, digits) = digs-value d.coeff small in
    let text = placed-IsText ds d.exp d.coeff digits value in
    let (one, most) = length-digs d.coeff small in
    let few =
      count_of-le (length ds) d.exp (omega (arith, length-from_last (digs d.coeff))) low high in
    let (q, e, rounded, parsed) =
      parse_bounded-pack 0 d.sign (placed ds d.exp) none text.numeral (omega (arith, text.count))
        tt in
    let whole =
      nothing_dropped d.coeff (count_of (length ds) d.exp) q d.exp e
        (text-IsRounded _ _ _ _ q e text rounded) few high in
    whole_text (decimal_to_string w)
    ∙ ap parse_bounded (printed_text w finite signed)
    ∙ parsed
    ∙ ap some (read_back d.sign d.coeff q d.exp e whole ∙ pack-decode w word finite)
