-- ===== src/Text/Html/Escape.antt =====
-- core.cpp: `kyte_html_escape` fills the memory that it asks for, and HTML reads its text as the string.
use kyte.Crypto.Bytes.{all_bytes}
use kyte.Memory.State.{int32}
use kyte.Text.Html.{
  is_meta, scan_from, html_scan, html_find_meta, escaped_length, escaped, out_length, write_out,
  html_escape,
}
use kyte.Text.Html.Search.{html_find_meta-html_scan}
use kyte.Text.Html.Words.{scan_hit, scan_miss}
use kyte.Prelude.Lists.{take_all}
use kyte.Prelude.{
  ℕ, zero, suc, ◌+◌, ◌^◌, ◌≤◌, ◌<◌, ◌≡◌, refl, sym, ap, ◌∙◌, subst, inl, inr, Bool, true, false,
  not, ◌&&◌, ◌||◌, Option, none, some, List, [], ◌∷◌, ◌++◌, arith, leb, ◌==◌, if◌then◌else◌, leb→le,
  ==_iff, Bool-cases, ℤ, pos, length, length-append, take_all, drop,
}

-- Does the text start with these characters?
abbrev starts : List ℕ → List ℕ → Bool
starts [] s = true
starts (c ∷ cs) [] = false
starts (c ∷ cs) (d ∷ ds) = (c == d) && starts cs ds

-- How a reader of HTML takes the entities back to characters, one per round of fuel.
unfoldable pub decoded : ℕ → List ℕ → List ℕ
decoded zero s = []
decoded (suc fuel) [] = []
decoded (suc fuel) (c ∷ cs) =
    let entity = λ (n d : ℕ). d ∷ decoded fuel (drop n cs) in
    if not (c == 38)
    then entity 0 c
    else if starts (97 ∷ 109 ∷ 112 ∷ 59 ∷ []) cs
    then entity 4 38
    else if starts (108 ∷ 116 ∷ 59 ∷ []) cs
    then entity 3 60
    else if starts (103 ∷ 116 ∷ 59 ∷ []) cs
    then entity 3 62
    else if starts (113 ∷ 117 ∷ 111 ∷ 116 ∷ 59 ∷ []) cs
    then entity 5 34
    else if starts (35 ∷ 51 ∷ 57 ∷ 59 ∷ []) cs
    then entity 4 39
    else entity 0 c

-- No character that opens or ends a tag or an attribute.
abbrev pub is_inert : List ℕ → Bool
is_inert [] = true
is_inert (c ∷ cs) = not (c == 60 || c == 62 || c == 34 || c == 39) && is_inert cs

length-escaped : (c : ℕ) → length (escaped c) ≡ escaped_length c
unfolding escaped escaped_length
length-escaped c = ground arith

pub out_length-write_out : (n : ℕ) (s : List ℕ) → out_length n s ≡ n + length (write_out s)
unfolding out_length write_out
out_length-write_out n [] = omega arith
out_length-write_out n (c ∷ cs) = omega (
  arith,
  out_length-write_out (n + escaped_length c) cs,
  length-escaped c,
  length-append (escaped c) (write_out cs),
)

inert-append : (s t : List ℕ) → is_inert s ≡ true → is_inert t ≡ true → is_inert (s ++ t) ≡ true
inert-append [] t h k = k
inert-append (c ∷ cs) t h k = ground (arith, inert-append cs t)

escaped-inert : (c : ℕ) → is_inert (escaped c) ≡ true
unfolding escaped
escaped-inert c = ground arith

write_out-inert : (s : List ℕ) → is_inert (write_out s) ≡ true
unfolding write_out
write_out-inert [] = refl
write_out-inert (c ∷ cs) =
    inert-append (escaped c) (write_out cs) (escaped-inert c) (write_out-inert cs)

escaped-plain : (c : ℕ) → is_meta c ≡ false → escaped c ≡ c ∷ []
unfolding escaped is_meta
escaped-plain c h = ground arith

decoded_plain :
    (fuel c : ℕ) (rest : List ℕ)
    → is_meta c ≡ false
    → decoded (suc fuel) (c ∷ rest) ≡ c ∷ decoded fuel rest
unfolding decoded is_meta
decoded_plain fuel c rest h = ground arith

-- One entity is read back.
abbrev Reads : ℕ → ℕ → List ℕ → Type 0
Reads c fuel rest = decoded (suc fuel) (escaped c ++ rest) ≡ c ∷ decoded fuel rest

entities-Reads :
    (fuel : ℕ) (rest : List ℕ)
    → Reads 38 fuel rest
      × Reads 60 fuel rest
      × Reads 62 fuel rest
      × Reads 34 fuel rest
      × Reads 39 fuel rest
unfolding decoded escaped
entities-Reads fuel rest = (refl, refl, refl, refl, refl)

meta_last :
    (c : ℕ)
    → is_meta c ≡ true
    → (c == 38) ≡ false
    → (c == 60) ≡ false
    → (c == 62) ≡ false
    → (c == 34) ≡ false
    → (c == 39) ≡ true
unfolding is_meta
meta_last c h a b d e = ground arith

meta-Reads : (c fuel : ℕ) (rest : List ℕ) → is_meta c ≡ true → Reads c fuel rest
meta-Reads c fuel rest h =
    let (amp, lt, gt, quot, apos) = entities-Reads fuel rest in
    elim (Bool-cases (c == 38)) [
      | inl e ↦ at 38 e amp
      | inr n38 ↦ elim (Bool-cases (c == 60)) [
        | inl e ↦ at 60 e lt
        | inr n60 ↦ elim (Bool-cases (c == 62)) [
          | inl e ↦ at 62 e gt
          | inr n62 ↦ elim (Bool-cases (c == 34)) [
            | inl e ↦ at 34 e quot
            | inr n34 ↦ at 39 (meta_last c h n38 n60 n62 n34) apos
          ]
        ]
      ]
    ]
  where
    at : (k : ℕ) → (c == k) ≡ true → Reads k fuel rest → Reads c fuel rest
    at k e reads = subst (λ (d : ℕ). Reads d fuel rest) (sym ((==_iff c k).0 e)) reads

escaped-Reads : (c fuel : ℕ) (rest : List ℕ) → Reads c fuel rest
escaped-Reads c fuel rest = elim (Bool-cases (is_meta c)) [
  | inl meta ↦ meta-Reads c fuel rest meta
  | inr other ↦
      ap (λ (t : List ℕ). decoded (suc fuel) (t ++ rest)) (escaped-plain c other)
      ∙ decoded_plain fuel c rest other
]

decoded-write_out : (fuel : ℕ) (s : List ℕ) → length s ≤ fuel → decoded fuel (write_out s) ≡ s
unfolding decoded write_out
decoded-write_out zero [] h = refl
decoded-write_out zero (c ∷ cs) h = absurd (omega arith)
decoded-write_out (suc fuel) [] h = refl
decoded-write_out (suc fuel) (c ∷ cs) h =
    escaped-Reads c fuel (write_out cs)
    ∙ ap (λ (t : List ℕ). c ∷ t) (decoded-write_out fuel cs (omega arith))

some_byte : (c : ℕ) → 1 ≤ escaped_length c
unfolding escaped_length
some_byte c = ground arith

length-write_out : (s : List ℕ) → length s ≤ length (write_out s)
unfolding write_out
length-write_out [] = omega arith
length-write_out (c ∷ cs) = omega (
  arith,
  length-write_out cs,
  length-append (escaped c) (write_out cs),
  length-escaped c,
  some_byte c,
)

write_out_clean : (i n : ℕ) (s : List ℕ) → n ≡ i + length s → n ≤ scan_from i s n → write_out s ≡ s
unfolding write_out
write_out_clean i n [] e h = refl
write_out_clean i n (c ∷ cs) e h = elim (Bool-cases (is_meta c)) [
  | inl meta ↦ absurd (omega (arith, scan_hit i c cs n meta))
  | inr other ↦
      ap (λ (t : List ℕ). t ++ write_out cs) (escaped-plain c other)
      ∙ ap (λ (t : List ℕ). c ∷ t)
          (write_out_clean (i + 1) n cs (omega arith) (omega (arith, scan_miss i c cs n other)))
]

-- A text without such characters that HTML reads as `s`.
abbrev pub IsEscaped : List ℕ → List ℕ → Type 0
IsEscaped s t = (is_inert t ≡ true) × (decoded (length t) t ≡ s)

write_out-IsEscaped : (s : List ℕ) → IsEscaped s (write_out s)
write_out-IsEscaped s =
    (write_out-inert s, decoded-write_out (length (write_out s)) s (length-write_out s))

html_find_meta-scan :
    (s : List ℕ) → all_bytes s ≡ true → html_find_meta s (pos 0) ≡ scan_from 0 s (length s)
unfolding html_scan
html_find_meta-scan s h =
    html_find_meta-html_scan s (pos 0) h
    ∙ ap (λ (t : List ℕ). scan_from 0 t (length s)) (take_all s)

-- The string itself with no new memory, or a text whose length is the one in its header.
abbrev pub Fits : List ℕ → List ℕ × Option ℤ → Type 0
Fits s (text, none) = text ≡ s
Fits s (text, some size) = size ≡ pos (length text)

html_escape-clean :
    (room : ℕ → Bool) (s : List ℕ)
    → leb (length s) (html_find_meta s (pos 0)) ≡ true
    → html_escape room s ≡ (s, none)
unfolding html_escape
html_escape-clean room s h = ground arith

html_escape-found :
    (room : ℕ → Bool) (s : List ℕ)
    → leb (length s) (html_find_meta s (pos 0)) ≡ false
    → room (out_length 0 s) ≡ true
    → html_escape room s ≡ (write_out s, some (int32 (pos (out_length 0 s))))
unfolding html_escape
html_escape-found room s h k = ground arith

stored : (n k : ℕ) → n < 2 ^ 31 → n ≡ k → int32 (pos n) ≡ pos k
unfolding int32
stored n k h e = ground arith

-- Where the escaped text has less than 2^31 bytes and the memory that it needs is given, the result is
-- a text without `<`, `>` and quotes that HTML reads as the string. It is either the string itself, with
-- no new memory, or a new string whose 32-bit length field is the length of the text.
pub html_escape-IsEscaped :
    (room : ℕ → Bool) (s : List ℕ)
    → all_bytes s ≡ true
    → out_length 0 s < 2 ^ 31
    → room (out_length 0 s) ≡ true
    → IsEscaped s (html_escape room s).0 × Fits s (html_escape room s)
html_escape-IsEscaped room s h small given =
    elim (Bool-cases (leb (length s) (html_find_meta s (pos 0)))) [
      | inl clean ↦
          by_result s (html_escape room s) (s, none) (html_escape-clean room s clean)
            (subst (IsEscaped s) (unchanged clean) (write_out-IsEscaped s), refl)
      | inr found ↦
          by_result s (html_escape room s) (write_out s, some (int32 (pos (out_length 0 s))))
            (html_escape-found room s found given)
            (write_out-IsEscaped s, stored _ _ small (out_length-write_out 0 s ∙ omega arith))
    ]
  where
    by_result :
        (s : List ℕ) (r q : List ℕ × Option ℤ)
        → r ≡ q
        → IsEscaped s q.0 × Fits s q
        → IsEscaped s r.0 × Fits s r
    by_result s r q e = subst (λ (x : List ℕ × Option ℤ). IsEscaped s x.0 × Fits s x) (sym e)

    unchanged : leb (length s) (html_find_meta s (pos 0)) ≡ true → write_out s ≡ s
    unchanged clean =
        write_out_clean 0 (length s) s (omega arith) (
          omega
            (arith, leb→le (length s) (html_find_meta s (pos 0)) clean, html_find_meta-scan s h))
