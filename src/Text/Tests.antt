-- ===== src/Text/Tests.antt =====
-- Tests of the text helpers of core.cpp.
use kyte.Prelude.{
  ℕ, ◌≡◌, refl, ap, ◌≢◌, inl, inr, true, List, [], ◌∷◌, ◌++◌, arith, ltb, if◌then◌else◌, pos,
  negsuc, pos_part, length,
}
use kyte.Text.Html.{
  word, zero_bytes, meta_bytes, ctz, find_loop, html_scan, html_find_meta, escaped_length,
  out_length, html_escape,
}
use kyte.Text.Html.Search.{html_find_meta-html_scan}
use kyte.Text.Html.Escape.{IsEscaped, Fits, html_escape-IsEscaped}
use kyte.Text.BigEndian.{pg_be_i64, shift_in, sign_extend, as_signed}
use kyte.Text.BigEndian.Value.{pg_be_i64-twos_complement}
use kyte.Text.Urls.{lower, is_letter, url_sanitize}
use kyte.Text.Urls.Schemes.{all_letters, IsScript, url_sanitize-dangerous}
use kyte.Text.Integers.{i64_fmt, tmp_digits, backwards, unsigned_part}

negative_text : i64_fmt (negsuc 41) ≡ 45 ∷ 52 ∷ 50 ∷ []
unfolding i64_fmt tmp_digits backwards unsigned_part
negative_text = refl

minus_two : pg_be_i64 (255 ∷ 254 ∷ []) (pos 2) ≡ negsuc 1
unfolding pg_be_i64 shift_in sign_extend as_signed
minus_two = refl

pg_be_i64-twos_complement_example : pg_be_i64 (255 ∷ 254 ∷ []) (pos 2) ≡ negsuc 1
pg_be_i64-twos_complement_example = pg_be_i64-twos_complement (255 ∷ 254 ∷ []) 2 refl (omega arith)

-- " vbScript:x" and "java", a tab, "script:".
abbrev mixed_case : List ℕ
mixed_case = 118 ∷ 98 ∷ 83 ∷ 99 ∷ 114 ∷ 105 ∷ 112 ∷ 116 ∷ []

mixed_case-IsScript : IsScript mixed_case (120 ∷ [])
unfolding lower
mixed_case-IsScript = inr (inl refl)

url_sanitize-dangerous_example :
    url_sanitize true ((32 ∷ []) ++ (mixed_case ++ 58 ∷ (120 ∷ [])))
    ≡ (if true then 35 ∷ [] else (32 ∷ []) ++ (mixed_case ++ 58 ∷ (120 ∷ [])))
url_sanitize-dangerous_example =
    url_sanitize-dangerous true (32 ∷ []) mixed_case (120 ∷ []) refl mixed_case-IsScript

abbrev java : List ℕ
java = 106 ∷ 97 ∷ 118 ∷ 97 ∷ []

abbrev script : List ℕ
script = 115 ∷ 99 ∷ 114 ∷ 105 ∷ 112 ∷ 116 ∷ 58 ∷ []

java-letters : all_letters java ≡ true
unfolding all_letters is_letter
java-letters = refl

java-some : java ≢ []
java-some e = omega (arith, ap length e)

-- "naive <b>", with two bytes above 127, in more than one word.
abbrev page : List ℕ
page =
    110 ∷ 97 ∷ 195 ∷ 175 ∷ 118 ∷ 101 ∷ 32 ∷ 128 ∷ 97 ∷ 60 ∷ 98 ∷ 62 ∷ 97 ∷ 98 ∷ 99 ∷ 100 ∷ 34 ∷ []

page_found : html_find_meta page (pos 1) ≡ 9
unfolding html_find_meta find_loop meta_bytes zero_bytes word ctz
page_found = refl

html_find_meta-html_scan_example :
    html_find_meta page (pos 1) ≡ html_scan page (pos_part (pos 1)) (length page)
html_find_meta-html_scan_example = html_find_meta-html_scan page (pos 1) refl

page_size : out_length 0 page ≡ 28
unfolding out_length escaped_length
page_size = refl

html_escape-IsEscaped_example :
    IsEscaped page (html_escape (λ n. ltb n 100) page).0
    × Fits page (html_escape (λ n. ltb n 100) page)
html_escape-IsEscaped_example =
    html_escape-IsEscaped (λ n. ltb n 100) page refl (rw page_size (omega arith))
      (ap (λ (n : ℕ). ltb n 100) page_size)
