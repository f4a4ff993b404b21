-- ===== src/Text/Urls.antt =====
-- core.cpp: `kyte_url_sanitize`, the filter of URLs. A null pointer is left out.
pub mod Schemes
use kyte.Prelude.{
  ℕ, zero, suc, ◌+◌, ◌-◌, ◌*◌, ◌/◌, ◌%◌, ◌^◌, ◌≤◌, ◌<◌, min, max, ◌≡◌, refl, sym, ap, ◌∙◌, subst,
  ◌≢◌, ◌↔◌, ◌⊎◌, inl, inr, Bool, true, false, not, ◌&&◌, ◌||◌, xor, Option, none, some, List, [],
  ◌∷◌, ◌++◌, map, append_assoc, append-nil, arith, ltb, leb, ◌==◌, if◌then◌else◌, ltb→lt, lt→ltb,
  leb→le, ==_iff, Bool-cases, Option-cases, ℤ, pos, negsuc, pos_part, neg_part, sub_ℕ, ltb_ℤ, ◌+ℤ◌,
  ◌-ℤ◌, ◌≤ℤ◌, int_laws, eq_of_parts, length, length-append, get_elem?, set, get_or, take, drop,
  replicate,
}

unfoldable pub lower : ℕ → ℕ
lower c = if leb 65 c && leb c 90 then c + 32 else c

unfoldable pub is_letter : ℕ → Bool
is_letter c = (leb 97 c && leb c 122) || (leb 65 c && leb c 90)

-- A letter, a digit, `+`, `.` or `-`.
unfoldable pub is_scheme_char : ℕ → Bool
is_scheme_char c = is_letter c || (leb 48 c && leb c 57) || (c == 43) || (c == 46) || (c == 45)

unfoldable pub skip_blanks : List ℕ → List ℕ
skip_blanks [] = []
skip_blanks (c ∷ cs) = let rest = skip_blanks cs in if leb c 32 then rest else c ∷ cs

-- The text before the first colon and the text after it, if only characters of a scheme stand before.
unfoldable pub find_colon : List ℕ → Option (List ℕ × List ℕ)
find_colon [] = none
find_colon (c ∷ cs) =
    let rest = find_colon cs in
    if c == 58
    then some ([], cs)
    else (if is_scheme_char c
        then elim rest [ none ↦ none | some r ↦ some (c ∷ r.0, r.1) ]
        else none)

unfoldable pub scheme_is : List ℕ → List ℕ → Bool
scheme_is [] [] = true
scheme_is [] (c ∷ cs) = false
scheme_is (n ∷ ns) [] = false
scheme_is (n ∷ ns) (c ∷ cs) = (lower c == n) && scheme_is ns cs

-- The loop over `img`, on the text after the colon.
unfoldable pub is_prefix : List ℕ → List ℕ → Bool
is_prefix [] cs = true
is_prefix (n ∷ ns) [] = false
is_prefix (n ∷ ns) (c ∷ cs) = (lower c == n) && is_prefix ns cs

-- "javascript", "vbscript", "data" and "image/".
abbrev pub javascript : List ℕ
javascript = 106 ∷ 97 ∷ 118 ∷ 97 ∷ 115 ∷ 99 ∷ 114 ∷ 105 ∷ 112 ∷ 116 ∷ []

abbrev pub vbscript : List ℕ
vbscript = 118 ∷ 98 ∷ 115 ∷ 99 ∷ 114 ∷ 105 ∷ 112 ∷ 116 ∷ []

abbrev pub data_scheme : List ℕ
data_scheme = 100 ∷ 97 ∷ 116 ∷ 97 ∷ []

abbrev pub image : List ℕ
image = 105 ∷ 109 ∷ 97 ∷ 103 ∷ 101 ∷ 47 ∷ []

unfoldable pub is_dangerous : List ℕ → List ℕ → Bool
is_dangerous scheme after =
    scheme_is javascript scheme
    || scheme_is vbscript scheme
    || (scheme_is data_scheme scheme && not (is_prefix image after))

unfoldable pub starts_with_letter : List ℕ → Bool
starts_with_letter [] = false
starts_with_letter (c ∷ cs) = is_letter c

-- `allocated` says whether `kyte_bytes_alloc(1)` gives memory.
unfoldable pub replace : Bool → List ℕ → Option (List ℕ × List ℕ) → List ℕ
replace allocated s none = s
replace allocated s (some (scheme, after)) =
    if is_dangerous scheme after && allocated then 35 ∷ [] else s

unfoldable pub check_scheme : Bool → List ℕ → List ℕ → List ℕ
check_scheme allocated s text =
    if starts_with_letter text then replace allocated s (find_colon text) else s

unfoldable pub url_sanitize : Bool → List ℕ → List ℕ
url_sanitize allocated s = check_scheme allocated s (skip_blanks s)
