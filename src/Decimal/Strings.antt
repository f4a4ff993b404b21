-- ===== src/Decimal/Strings.antt =====
-- decimal.cpp: decimals from text and to text, `dec_parse_bounded`, `kyte_decimal_from_string_n` and
-- `kyte_decimal_to_string`. A string is the list of its bytes; `none` stands for an `int` that overflows,
-- which C++ leaves undefined.
pub mod Numeral
pub mod Taking
pub mod Scanning
pub mod Rounding
pub mod Exponents
pub mod Parsing
pub mod Printing
pub mod Placing
pub mod Buffer
pub mod RoundTrip
mod Tests
use kyte.Decimal.Word.{bias, max_digits, pack, KyteDec, decode}
use kyte.Decimal.Digits.{u128, num_digits}
use kyte.Prelude.{
  ℕ, zero, suc, ◌+◌, ◌-◌, ◌*◌, ◌/◌, ◌%◌, ◌^◌, ◌≤◌, ◌<◌, min, max, ◌≡◌, refl, sym, ap, ◌∙◌, subst,
  ◌≢◌, ◌↔◌, ◌⊎◌, inl, inr, Bool, true, false, not, ◌&&◌, ◌||◌, xor, Option, none, some, List, [],
  ◌∷◌, ◌++◌, map, append_assoc, append-nil, arith, ltb, leb, ◌==◌, if◌then◌else◌, ltb→lt, lt→ltb,
  leb→le, ==_iff, Bool-cases, Option-cases, ℤ, pos, negsuc, pos_part, neg_part, sub_ℕ, ltb_ℤ, ◌+ℤ◌,
  ◌-ℤ◌, ◌≤ℤ◌, int_laws, eq_of_parts, length, length-append, length-take, length-drop, length-map,
  length-replicate, take-append-drop, get_elem?, set, get_or, take, drop, replicate,
}

infixl 5 ◌>>=◌
abbrev pub ◌>>=◌ : {A B : Type 0} → Option A → (A → Option B) → Option B
none >>= next = none
some x >>= next = next x

abbrev pub is_digit : ℕ → Bool
is_digit c = leb 48 c && leb c 57

unfoldable pub skip_spaces : List ℕ → List ℕ
skip_spaces [] = []
skip_spaces (c ∷ cs) = let rest = skip_spaces cs in if c == 32 then rest else c ∷ cs

unfoldable pub parse_sign : List ℕ → Bool × List ℕ
parse_sign [] = (false, [])
parse_sign (c ∷ cs) =
    if c == 43 then (false, cs) else if c == 45 then (true, cs) else (false, c ∷ cs)

-- The variables of the loop over the digits; `round_digit` is -1 in the source for `none`.
pub record Scan : Type 0 where
  pub coeff : ℕ
  pub digits : ℕ
  pub frac : ℤ
  pub seen_dot : Bool
  pub round_digit : Option ℕ
  pub sticky : Bool

abbrev pub scan_start : Scan
scan_start = record {
  coeff = 0;
  digits = 0;
  frac = pos 0;
  seen_dot = false;
  round_digit = none;
  sticky = false;
}

unfoldable pub note_dropped : Option ℕ → ℕ → Scan → Scan
note_dropped none dv s = record s { round_digit = some dv }
note_dropped (some r) dv s = if dv == 0 then s else record s { sticky = true }

unfoldable pub take_digit : ℕ → Scan → Scan
take_digit dv s =
    if ltb s.digits max_digits
    then record s {
      coeff = (s.coeff * 10 + dv) % u128;
      digits = s.digits + 1;
      frac = if s.seen_dot then s.frac +ℤ pos 1 else s.frac;
    }
    else note_dropped s.round_digit dv
        (record s { frac = if s.seen_dot then s.frac else s.frac -ℤ pos 1 })

unfoldable pub stops_at : Bool → ℕ → Bool
stops_at seen_dot c =
    if c == 95
    then false
    else if c == 46
    then seen_dot
    else if c == 101 || c == 69
    then true
    else not (is_digit c)

unfoldable pub scan_char : ℕ → Scan → Scan
scan_char c s =
    if c == 95 then s else if c == 46 then record s { seen_dot = true } else take_digit (c - 48) s

-- The loop over the digits, and where it ends.
unfoldable pub scan_body : Scan → List ℕ → Scan × List ℕ
scan_body s [] = (s, [])
scan_body s (c ∷ cs) =
    let later = scan_body (scan_char c s) cs in if stops_at s.seen_dot c then (s, c ∷ cs) else later

unfoldable pub rounds_up : ℕ → ℕ → Bool → Bool
rounds_up round_digit coeff sticky =
    if ltb 5 round_digit
    then true
    else if round_digit == 5
    then if sticky then true else coeff % 2 == 1
    else false

-- A coefficient that rounding has carried to 35 digits loses the last one.
unfoldable pub renormalise : ℕ → ℤ → ℕ × ℤ
renormalise coeff exp =
    if ltb max_digits (num_digits coeff) then (coeff / 10, exp +ℤ pos 1) else (coeff, exp)

unfoldable pub round_scan : Option ℕ → Scan → ℕ × ℤ
round_scan none s = (s.coeff, pos 0 -ℤ s.frac)
round_scan (some r) s =
    if rounds_up r s.coeff s.sticky
    then renormalise ((s.coeff + 1) % u128) (pos 0 -ℤ s.frac)
    else (s.coeff, pos 0 -ℤ s.frac)

abbrev pub int_max : ℕ
int_max = 2147483647

-- The digits of an exponent.
unfoldable pub exponent_digits : ℕ → List ℕ → Option ℕ
exponent_digits ev [] = some ev
exponent_digits ev (c ∷ cs) =
    let next = ev * 10 + (c - 48) in
    let rest = exponent_digits next cs in
    if not (is_digit c) then some ev else if ltb int_max next then none else rest

-- A sum of `int`s.
unfoldable pub int_sum : ℤ → ℤ → Option ℤ
int_sum a b =
    let sum = a +ℤ b in
    if ltb_ℤ (pos int_max) sum || ltb_ℤ sum (negsuc int_max) then none else some sum

unfoldable pub signed_exponent : ℤ → Bool × List ℕ → Option ℤ
signed_exponent exp (negative, cs) = do
  ev ← exponent_digits 0 cs
  int_sum exp (if negative then pos 0 -ℤ pos ev else pos ev)

unfoldable pub add_exponent : ℤ → List ℕ → Option ℤ
add_exponent exp [] = some exp
add_exponent exp (c ∷ cs) =
    if c == 101 || c == 69 then signed_exponent exp (parse_sign cs) else some exp

-- `kyte_dec128_pack` adds the bias first.
unfoldable pub pack_int : Bool → ℕ → ℤ → Option ℕ
pack_int sign coeff exp = do _ ← int_sum exp (pos bias); some (pack sign coeff exp)

-- What follows the sign.
unfoldable pub parse_unsigned : Bool → List ℕ → Option ℕ
parse_unsigned sign cs =
    let (s, rest) = scan_body scan_start cs in
    let (coeff, exp) = round_scan s.round_digit s in
    do total ← add_exponent exp rest; pack_int sign coeff total

unfoldable pub parse_bounded : List ℕ → Option ℕ
parse_bounded [] = some (pack false 0 (pos 0))
parse_bounded (c ∷ cs) =
    let (sign, rest) = parse_sign (skip_spaces (c ∷ cs)) in parse_unsigned sign rest

-- `s` is what the pointer points to.
unfoldable pub decimal_from_string_n : List ℕ → ℤ → Option ℕ
decimal_from_string_n s len = parse_bounded (take (pos_part len) s)

-- `while (coeff > 0)`: the digits of a coefficient, the last one first. 40 rounds fill the buffer.
unfoldable pub coeff_digits : ℕ → ℕ → List ℕ
coeff_digits zero coeff = []
coeff_digits (suc fuel) coeff =
    let rest = coeff_digits fuel (coeff / 10) in
    if ltb 0 coeff then (48 + coeff % 10) ∷ rest else []

unfoldable pub digs : ℕ → List ℕ
digs coeff = if coeff == 0 then 48 ∷ [] else coeff_digits 40 coeff

-- `for (int i = nd - 1; i >= 0; i--) out[oi++] = digs[i]`.
unfoldable pub from_last : List ℕ → List ℕ
from_last [] = []
from_last (c ∷ cs) = from_last cs ++ (c ∷ [])

abbrev pub is_nil : List ℕ → Bool
is_nil [] = true
is_nil (c ∷ cs) = false

-- The same loop with a point after `point` digits.
unfoldable pub with_point : ℕ → ℕ → List ℕ → List ℕ
with_point emitted point [] = []
with_point emitted point (d ∷ ds) =
    let rest = with_point (emitted + 1) point ds in
    d ∷ (if emitted + 1 == point && not (is_nil ds) then 46 ∷ rest else rest)

-- The digits, the first one first, with the zeros and the point that the exponent wants.
unfoldable pub placed : List ℕ → ℤ → List ℕ
placed ds (pos e) = ds ++ replicate e 48
placed ds (negsuc e) =
    if leb (length ds) (e + 1)
    then 48 ∷ 46 ∷ (replicate (e + 1 - length ds) 48 ++ ds)
    else with_point 0 (length ds - (e + 1)) ds

unfoldable pub minus_sign : Bool → List ℕ → List ℕ
minus_sign sign ds = if sign && not (length ds == 1 && get_or ds 0 0 == 48) then 45 ∷ [] else []

-- What the buffer `out` gets, without the byte 0 at the end.
unfoldable pub decimal_to_string : ℕ → List ℕ
decimal_to_string w =
    let d = decode w in
    let ds = digs d.coeff in
    if d.special then 48 ∷ [] else minus_sign d.sign ds ++ placed (from_last ds) d.exp
