-- ===== src/Text/Urls/Schemes.antt =====
-- core.cpp: what `kyte_url_sanitize` makes of the schemes it names.
use kyte.Prelude.{
  ℕ, ◌≡◌, refl, sym, ap, ◌∙◌, ◌≢◌, ◌⊎◌, inl, inr, Bool, true, false, ◌&&◌, none, some, List, [],
  ◌∷◌, ◌++◌, map, arith, leb, ◌==◌, if◌then◌else◌, Bool-cases, length, take,
}
use kyte.Text.Urls.{
  lower, is_letter, is_scheme_char, skip_blanks, find_colon, scheme_is, is_prefix, javascript,
  vbscript, data_scheme, image, is_dangerous, starts_with_letter, replace, check_scheme,
  url_sanitize,
}

abbrev pub all_blank : List ℕ → Bool
all_blank [] = true
all_blank (c ∷ cs) = leb c 32 && all_blank cs

unfoldable pub all_letters : List ℕ → Bool
all_letters [] = true
all_letters (c ∷ cs) = is_letter c && all_letters cs

letter-not_blank : (c : ℕ) → is_letter c ≡ true → leb c 32 ≡ false
unfolding is_letter
letter-not_blank c h = ground arith

letter-not_colon : (c : ℕ) → is_letter c ≡ true → (c == 58) ≡ false
unfolding is_letter
letter-not_colon c h = ground arith

skip_blanks-append :
    (blank : List ℕ) (c : ℕ) (cs : List ℕ)
    → all_blank blank ≡ true
    → is_letter c ≡ true
    → skip_blanks (blank ++ c ∷ cs) ≡ c ∷ cs
unfolding skip_blanks
skip_blanks-append [] c cs h letter = rw (letter-not_blank c letter) refl
skip_blanks-append (b ∷ bs) c cs h letter = elim (Bool-cases (leb b 32)) [
  | inl blank ↦ rw blank (skip_blanks-append bs c cs (ground arith) letter)
  | inr other ↦ ground arith
]

find_colon-append :
    (scheme rest : List ℕ)
    → all_letters scheme ≡ true
    → find_colon (scheme ++ 58 ∷ rest) ≡ some (scheme, rest)
unfolding find_colon is_scheme_char all_letters
find_colon-append [] rest h = refl
find_colon-append (c ∷ cs) rest h =
    let letter = first_letter (is_letter c) (all_letters cs) h in
    rw (letter-not_colon c letter.0, letter.0, find_colon-append cs rest letter.1) refl
  where
    first_letter : (a b : Bool) → (a && b) ≡ true → (a ≡ true) × (b ≡ true)
    first_letter a b h = ground arith

letter-lower : (c : ℕ) → is_letter (lower c) ≡ true → is_letter c ≡ true
unfolding is_letter lower
letter-lower c h = ground arith

letters-lower : (cs : List ℕ) → all_letters (map lower cs) ≡ true → all_letters cs ≡ true
unfolding all_letters
letters-lower [] h = refl
letters-lower (c ∷ cs) h = ground (arith, letters-lower cs, letter-lower c)

scheme_is-lower : (cs : List ℕ) → scheme_is (map lower cs) cs ≡ true
unfolding scheme_is
scheme_is-lower [] = refl
scheme_is-lower (c ∷ cs) = ground (arith, scheme_is-lower cs)

is_prefix_sound : (ns cs : List ℕ) → is_prefix ns cs ≡ true → map lower (take (length ns) cs) ≡ ns
unfolding is_prefix
is_prefix_sound [] cs h = refl
is_prefix_sound (n ∷ ns) [] h = ground arith
is_prefix_sound (n ∷ ns) (c ∷ cs) h = ground (arith, is_prefix_sound ns cs)

scheme_is_complete : (ns cs : List ℕ) → map lower cs ≡ ns → scheme_is ns cs ≡ true
scheme_is_complete ns cs e = ap (λ (n : List ℕ). scheme_is n cs) (sym e) ∙ scheme_is-lower cs

letters_complete :
    (ns cs : List ℕ) → map lower cs ≡ ns → all_letters ns ≡ true → all_letters cs ≡ true
letters_complete ns cs e h = letters-lower cs (ap all_letters e ∙ h)

-- The three schemes that the filter names.
abbrev pub IsScript : List ℕ → List ℕ → Type 0
IsScript scheme rest =
    (map lower scheme ≡ javascript)
    ⊎ (map lower scheme ≡ vbscript)
    ⊎ ((map lower scheme ≡ data_scheme) × (map lower (take 6 rest) ≢ image))

scripts-letters : (scheme rest : List ℕ) → IsScript scheme rest → all_letters scheme ≡ true
unfolding all_letters is_letter
scripts-letters scheme rest (inl e) = letters_complete javascript scheme e refl
scripts-letters scheme rest (inr (inl e)) = letters_complete vbscript scheme e refl
scripts-letters scheme rest (inr (inr (e, _))) = letters_complete data_scheme scheme e refl

scripts-dangerous : (scheme rest : List ℕ) → IsScript scheme rest → is_dangerous scheme rest ≡ true
unfolding is_dangerous
scripts-dangerous scheme rest (inl e) = ground (arith, scheme_is_complete javascript scheme e)
scripts-dangerous scheme rest (inr (inl e)) = ground (arith, scheme_is_complete vbscript scheme e)
scripts-dangerous scheme rest (inr (inr (e, other))) = elim (Bool-cases (is_prefix image rest)) [
  | inl is_image ↦ elim (other (is_prefix_sound image rest is_image)) [ ]
  | inr no_image ↦ ground (arith, scheme_is_complete data_scheme scheme e)
]

filtered :
    (allocated : Bool) (blank scheme rest : List ℕ)
    → all_blank blank ≡ true
    → all_letters scheme ≡ true
    → is_dangerous scheme rest ≡ true
    → url_sanitize allocated (blank ++ (scheme ++ 58 ∷ rest))
      ≡ (if allocated then 35 ∷ [] else blank ++ (scheme ++ 58 ∷ rest))
unfolding url_sanitize check_scheme replace starts_with_letter all_letters is_dangerous scheme_is
filtered allocated blank [] rest h letters danger = ground arith
filtered allocated blank (c ∷ cs) rest h letters danger =
    let letter = first_letter (is_letter c) (all_letters cs) letters in
    let text = (c ∷ cs) ++ 58 ∷ rest in
    let s = blank ++ text in
    ap (check_scheme allocated s) (skip_blanks-append blank c (cs ++ 58 ∷ rest) h letter)
    ∙ ap (λ (b : Bool). if b then replace allocated s (find_colon text) else s) letter
    ∙ ap (replace allocated s) (find_colon-append (c ∷ cs) rest letters)
    ∙ ap (λ (b : Bool). if b && allocated then 35 ∷ [] else s) danger
  where
    first_letter : (a b : Bool) → (a && b) ≡ true → a ≡ true
    first_letter a b h = ground arith

-- Where memory for the replacement is given, the filter replaces every URL of the schemes javascript
-- and vbscript, in lower or upper case and after any blanks, by "#", and every data URL that is not an
-- image. Where none is given, every such URL is returned as it is.
pub url_sanitize-dangerous :
    (allocated : Bool) (blank scheme rest : List ℕ)
    → all_blank blank ≡ true
    → IsScript scheme rest
    → url_sanitize allocated (blank ++ (scheme ++ 58 ∷ rest))
      ≡ (if allocated then 35 ∷ [] else blank ++ (scheme ++ 58 ∷ rest))
url_sanitize-dangerous allocated blank scheme rest h kind =
    filtered allocated blank scheme rest h (scripts-letters scheme rest kind)
      (scripts-dangerous scheme rest kind)

find_colon-stopped :
    (letters rest : List ℕ) (c : ℕ)
    → all_letters letters ≡ true
    → (c == 58) ≡ false
    → is_scheme_char c ≡ false
    → find_colon (letters ++ c ∷ rest) ≡ none
unfolding find_colon all_letters is_scheme_char
find_colon-stopped [] rest c h colon other = rw (colon, other) refl
find_colon-stopped (x ∷ xs) rest c h colon other =
    let letter = both (is_letter x) (all_letters xs) h in
    rw (letter-not_colon x letter.0, letter.0, find_colon-stopped xs rest c letter.1 colon other)
      refl
  where
    both : (a b : Bool) → (a && b) ≡ true → (a ≡ true) × (b ≡ true)
    both a b h = ground arith

stops : (c : ℕ) → (c ≡ 9) ⊎ (c ≡ 10) ⊎ (c ≡ 13) → ((c == 58) ≡ false) × (is_scheme_char c ≡ false)
unfolding is_scheme_char is_letter
stops c (inl e) = rw e (refl, refl)
stops c (inr (inl e)) = rw e (refl, refl)
stops c (inr (inr e)) = rw e (refl, refl)

-- A URL that begins with letters and then has a tab or a line break passes unchanged, whatever
-- follows.
pub url_sanitize-broken_scheme :
    (allocated : Bool) (c : ℕ) (letters rest : List ℕ)
    → (c ≡ 9) ⊎ (c ≡ 10) ⊎ (c ≡ 13)
    → all_letters letters ≡ true
    → letters ≢ []
    → url_sanitize allocated (letters ++ c ∷ rest) ≡ letters ++ c ∷ rest
unfolding url_sanitize check_scheme replace starts_with_letter all_letters
url_sanitize-broken_scheme allocated c [] rest kind h some_letter = elim (some_letter refl) [ ]
url_sanitize-broken_scheme allocated c (x ∷ xs) rest kind h some_letter =
    let text = (x ∷ xs) ++ c ∷ rest in
    let letter = first_letter (is_letter x) (all_letters xs) h in
    let (colon, other) = stops c kind in
    ap (check_scheme allocated text) (skip_blanks-append [] x (xs ++ c ∷ rest) refl letter)
    ∙ ap (λ (b : Bool). if b then replace allocated text (find_colon text) else text) letter
    ∙ ap (replace allocated text) (find_colon-stopped (x ∷ xs) rest c h colon other)
  where
    first_letter : (a b : Bool) → (a && b) ≡ true → a ≡ true
    first_letter a b h = ground arith
