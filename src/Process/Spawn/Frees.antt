-- ===== src/Process/Spawn/Frees.antt =====
-- io.cpp: the C strings of a spawn are freed, each once.
use kyte.Process.System.{
  System, Os, pure, ◌>>◌, holds, remove, free_block, KyteString, CString, until_nul, to_cstr,
  free_cstr,
}
use kyte.Prelude.{
  ℕ, ◌≡◌, refl, ap, ◌∙◌, Bool, true, false, not, ◌&&◌, Option, none, some, List, [], ◌∷◌, ◌++◌,
  append_assoc, arith, ◌==◌,
}

-- A Kyte string with the answer that `malloc` gives for its copy.
abbrev pub Copied : Type 0
Copied = KyteString × Option ℕ

abbrev pub taken : Copied → List ℕ
taken (none, q) = []
taken (some s, none) = []
taken (some s, some q) = q ∷ []

abbrev pub c_string : Copied → CString
c_string (none, q) = none
c_string (some s, none) = none
c_string (some (p, bytes), some q) = some (q, until_nul bytes)

-- The blocks of some copies, the last one first.
abbrev pub stacked : List Copied → List ℕ
stacked [] = []
stacked (c ∷ cs) = stacked cs ++ taken c

abbrev pub disjoint : List ℕ → List ℕ → Bool
disjoint [] ys = true
disjoint (x ∷ xs) ys = not (holds x ys) && disjoint xs ys

abbrev pub is_copy : Copied → Bool
is_copy (some (p, bytes), some q) = not (q == p)
is_copy other = true

-- The allocator gives blocks that differ from each other and from the strings.
abbrev pub AreFresh : List Copied → Type 0
AreFresh [] = Unit
AreFresh (c ∷ cs) = (is_copy c ≡ true) × (disjoint (taken c) (stacked cs) ≡ true) × AreFresh cs

pub to_cstr-taken :
    (c : Copied) (s : System)
    → to_cstr c.0 c.1 s ≡ (c_string c, record s { blocks = taken c ++ s.blocks })
unfolding to_cstr
to_cstr-taken (none, q) s = refl
to_cstr-taken (some (p, bytes), none) s = refl
to_cstr-taken (some (p, bytes), some q) s = refl

holds-append : (x : ℕ) (before rest : List ℕ) → holds x (before ++ (x ∷ rest)) ≡ true
holds-append x [] rest = ground arith
holds-append x (y ∷ ys) rest = ground (arith, holds-append x ys rest)

remove-append :
    (x : ℕ) (before rest : List ℕ)
    → holds x before ≡ false
    → remove x (before ++ (x ∷ rest)) ≡ before ++ rest
remove-append x [] rest h = ground arith
remove-append x (y ∷ ys) rest h = ground (arith, remove-append x ys rest)

free_block-append :
    (x : ℕ) (before rest : List ℕ) (s : System)
    → holds x before ≡ false
    → s.blocks ≡ before ++ (x ∷ rest)
    → free_block x s ≡ (tt, record s { blocks = before ++ rest })
free_block-append x before rest s h e =
    rw (e, holds-append x before rest, remove-append x before rest h) refl

free_cstr-taken :
    (c : Copied) (before rest : List ℕ) (s : System)
    → is_copy c ≡ true
    → disjoint (taken c) before ≡ true
    → s.blocks ≡ before ++ (taken c ++ rest)
    → free_cstr c.0 (c_string c) s ≡ (tt, record s { blocks = before ++ rest })
unfolding free_cstr
free_cstr-taken (none, q) before rest s copy apart e = ap (λ b. (tt, record s { blocks = b })) e
free_cstr-taken (some (p, bytes), none) before rest s copy apart e =
    ap (λ b. (tt, record s { blocks = b })) e
free_cstr-taken (some (p, bytes), some q) before rest s copy apart e =
    let other = differs q p copy in
    rw other (free_block-append q before rest s (absent (holds q before) apart) e)
  where
    differs : (a b : ℕ) → not (a == b) ≡ true → (a == b) ≡ false
    differs a b h = ground arith

    absent : (b : Bool) → (not b && true) ≡ true → b ≡ false
    absent b h = ground arith

abbrev pub free_all : List Copied → Os Unit
free_all [] = pure tt
free_all (c ∷ cs) = free_cstr c.0 (c_string c) >> free_all cs

-- `release` gives back what was taken for the copies, and nothing else.
abbrev pub Releases : Os Unit → List Copied → Type 0
Releases release cs =
    (s : System) (rest : List ℕ)
    → s.blocks ≡ stacked cs ++ rest
    → release s ≡ (tt, record s { blocks = rest })

pub free_all-Releases : (cs : List Copied) → AreFresh cs → Releases (free_all cs) cs
free_all-Releases [] fresh s rest e = ap (λ b. (tt, record s { blocks = b })) e
free_all-Releases (c ∷ cs) (copy, apart, fresh) s rest e =
    let first =
      free_cstr-taken c (stacked cs) rest s copy apart
        (e ∙ append_assoc (stacked cs) (taken c) rest) in
    ap (λ r. free_all cs r.1) first
    ∙ free_all-Releases cs fresh (record s { blocks = stacked cs ++ rest }) rest refl
