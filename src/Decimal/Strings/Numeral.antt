-- ===== src/Decimal/Strings/Numeral.antt =====
-- decimal.cpp: what the text of a decimal denotes, without any limit on the digits.
use kyte.Prelude.{
  ℕ, ◌+◌, ◌-◌, ◌*◌, Bool, true, not, ◌&&◌, ◌||◌, List, [], ◌∷◌, leb, ◌==◌, if◌then◌else◌,
}

-- 0 to 9.
abbrev pub denotes_digit : ℕ → Bool
denotes_digit c = leb 48 c && leb c 57

-- Digits and `_`, and a point if none was seen before.
unfoldable pub belongs : Bool → ℕ → Bool
belongs seen c = denotes_digit c || c == 95 || (c == 46 && not seen)

abbrev pub is_numeral : Bool → List ℕ → Bool
is_numeral seen [] = true
is_numeral seen (c ∷ cs) = belongs seen c && is_numeral (seen || (c == 46)) cs

-- The number that the digits denote, after a number that was read before, as if there were no point.
abbrev pub next_value : ℕ → ℕ → ℕ
next_value v c = if denotes_digit c then v * 10 + (c - 48) else v

abbrev pub numeral_value : ℕ → List ℕ → ℕ
numeral_value v [] = v
numeral_value v (c ∷ cs) = numeral_value (next_value v c) cs

abbrev pub next_count : ℕ → ℕ → ℕ
next_count n c = if denotes_digit c then n + 1 else n

abbrev pub digit_count : ℕ → List ℕ → ℕ
digit_count n [] = n
digit_count n (c ∷ cs) = digit_count (next_count n c) cs

-- The number of digits after the point.
abbrev pub fraction_count : Bool → ℕ → List ℕ → ℕ
fraction_count seen f [] = f
fraction_count seen f (c ∷ cs) =
    fraction_count (seen || (c == 46)) (if seen then next_count f c else f) cs
