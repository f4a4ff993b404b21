-- ===== src/Decimal/Strings/Tests.antt =====
-- Tests of the text of decimals.
use kyte.Decimal.Word.{pack, decode, biased_exponent}
use kyte.Decimal.Strings.{
  skip_spaces, parse_sign, note_dropped, take_digit, stops_at, scan_char, scan_body, rounds_up,
  round_scan, exponent_digits, int_sum, signed_exponent, add_exponent, pack_int, parse_unsigned,
  parse_bounded, decimal_from_string_n, coeff_digits, digs, from_last, with_point, placed,
  minus_sign, decimal_to_string,
}
use kyte.Decimal.Strings.RoundTrip.{decimal_from_string_n-to_string}
use kyte.Decimal.Strings.Buffer.{decimal_to_string-fits, decimal_to_string-overflows}
use kyte.Prelude.{
  ℕ, ◌+◌, ◌^◌, ◌≤◌, ◌<◌, ◌≡◌, refl, inl, inr, Bool, true, false, Option, none, some, List, [], ◌∷◌,
  ◌++◌, arith, pos, negsuc, ◌+ℤ◌, ◌-ℤ◌, length, replicate,
}

-- -12.5
abbrev price : ℕ
price = pack true 125 (negsuc 0)

price_text : decimal_to_string price ≡ 45 ∷ 49 ∷ 50 ∷ 46 ∷ 53 ∷ []
unfolding decimal_to_string decode pack biased_exponent digs coeff_digits from_last placed
    with_point minus_sign ◌+ℤ◌ ◌-ℤ◌
price_text = refl

price_parsed : decimal_from_string_n (45 ∷ 49 ∷ 95 ∷ 50 ∷ 46 ∷ 53 ∷ []) (pos 6) ≡ some price
unfolding decimal_from_string_n parse_bounded parse_unsigned skip_spaces parse_sign scan_body
    scan_char take_digit stops_at round_scan add_exponent pack_int int_sum ◌+ℤ◌ ◌-ℤ◌
price_parsed = refl

-- "1e4294967297", whose exponent overflows.
overflow_parsed :
    parse_bounded (49 ∷ 101 ∷ 52 ∷ 50 ∷ 57 ∷ 52 ∷ 57 ∷ 54 ∷ 55 ∷ 50 ∷ 57 ∷ 55 ∷ []) ≡ none
unfolding parse_bounded parse_unsigned skip_spaces parse_sign scan_body scan_char take_digit
    stops_at round_scan add_exponent signed_exponent exponent_digits
overflow_parsed = refl

-- "0.", 37 zeros, "1".
abbrev tiny : List ℕ
tiny = 48 ∷ 46 ∷ (replicate 37 48 ++ (49 ∷ []))

-- It is read as zero.
tiny_lost : parse_bounded tiny ≡ some (pack false 0 (negsuc 32))
unfolding parse_bounded parse_unsigned skip_spaces parse_sign scan_body scan_char take_digit
    note_dropped stops_at round_scan rounds_up add_exponent pack_int int_sum ◌+ℤ◌ ◌-ℤ◌
tiny_lost = refl

-- 35 digits, and an exponent.
abbrev long : List ℕ
long = 49 ∷ 46 ∷ replicate 34 53

abbrev minus_three : Option (Bool × List ℕ)
minus_three = some (true, 51 ∷ [])

-- 1e79
abbrev huge : ℕ
huge = pack false 1 (pos 79)

price_bits : price < 2 ^ 128
unfolding pack biased_exponent ◌+ℤ◌
price_bits = omega arith

decode-price : decode price ≡ record { sign = true; coeff = 125; exp = negsuc 0; special = false }
unfolding decode pack biased_exponent ◌+ℤ◌ ◌-ℤ◌
decode-price = refl

decode-huge : decode huge ≡ record { sign = false; coeff = 1; exp = pos 79; special = false }
unfolding decode pack biased_exponent ◌+ℤ◌ ◌-ℤ◌
decode-huge = refl

decimal_from_string_n-to_string_example :
    decimal_from_string_n (decimal_to_string price) (pos (length (decimal_to_string price)))
    ≡ some price
decimal_from_string_n-to_string_example =
    decimal_from_string_n-to_string price price_bits (rw decode-price refl)
      (rw decode-price (omega arith)) (inr (rw decode-price (omega arith)))
      (rw decode-price (omega arith)) (rw decode-price (omega arith))

decimal_to_string-fits_example : length (decimal_to_string price) + 1 ≤ 80
decimal_to_string-fits_example =
    decimal_to_string-fits price (rw decode-price refl) (rw decode-price (omega arith))
      (rw decode-price (omega arith)) (rw decode-price (omega arith))

decimal_to_string-overflows_example : 80 < length (decimal_to_string huge) + 1
decimal_to_string-overflows_example =
    decimal_to_string-overflows huge (rw decode-huge refl) (rw decode-huge (omega arith))
      (inl (rw decode-huge (omega arith)))
