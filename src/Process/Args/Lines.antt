-- ===== src/Process/Args/Lines.antt =====
-- io.cpp: the arguments that `kyte_build_argv` makes of lines.
use kyte.Process.System.{CString}
use kyte.Process.Args.{split_lines, is_given, text_of, build_argv}
use kyte.Prelude.{
  ℕ, ◌≡◌, refl, ap, ◌∙◌, Bool, true, false, not, ◌&&◌, some, List, [], ◌∷◌, ◌++◌, append_assoc,
  append-nil, arith, ◌==◌,
}

-- A caller's side: entries with a line break between them.
abbrev pub join_lines : List (List ℕ) → List ℕ
join_lines [] = []
join_lines (x ∷ []) = x
join_lines (x ∷ y ∷ ys) = x ++ (10 ∷ join_lines (y ∷ ys))

abbrev pub excludes : ℕ → List ℕ → Bool
excludes b [] = true
excludes b (c ∷ cs) = not (c == b) && excludes b cs

-- No line break and no zero.
abbrev pub is_plain : List ℕ → Bool
is_plain [] = true
is_plain (c ∷ cs) = not (c == 10) && (not (c == 0) && is_plain cs)

abbrev pub all_single_line : List (List ℕ) → Bool
all_single_line [] = true
all_single_line (x ∷ xs) = is_plain x && all_single_line xs

pub both : (a b : Bool) → (a && b) ≡ true → (a ≡ true) × (b ≡ true)
both a b h = ground arith

pub other : (a b : ℕ) → not (a == b) ≡ true → (a == b) ≡ false
other a b h = ground arith

pub plain :
    (c : ℕ) (cs : List ℕ)
    → is_plain (c ∷ cs) ≡ true
    → ((c == 10) ≡ false) × ((c == 0) ≡ false) × (is_plain cs ≡ true)
plain c cs h = ground arith

plain-given :
    (c : ℕ) (cs : List ℕ) (xs : List (List ℕ))
    → all_single_line ((c ∷ cs) ∷ xs) ≡ true
    → (c == 0) ≡ false
plain-given c cs xs h = (plain c cs (both (is_plain (c ∷ cs)) (all_single_line xs) h).0).1

split_lines-end : (cur x : List ℕ) → is_plain x ≡ true → split_lines cur x ≡ (cur ++ x) ∷ []
unfolding split_lines
split_lines-end cur [] h = rw (append-nil cur) refl
split_lines-end cur (c ∷ cs) h =
    let (no_break, no_zero, more) = plain c cs h in
    rw (no_break, no_zero, split_lines-end (cur ++ c ∷ []) cs more)
      (ap (λ (l : List ℕ). l ∷ []) (append_assoc cur (c ∷ []) cs))

split_lines-break :
    (cur x rest : List ℕ)
    → is_plain x ≡ true
    → split_lines cur (x ++ (10 ∷ rest)) ≡ (cur ++ x) ∷ split_lines [] rest
unfolding split_lines
split_lines-break cur [] rest h = rw (append-nil cur) refl
split_lines-break cur (c ∷ cs) rest h =
    let (no_break, no_zero, more) = plain c cs h in
    rw (no_break, no_zero, split_lines-break (cur ++ c ∷ []) cs rest more)
      (ap (λ (l : List ℕ). l ∷ split_lines [] rest) (append_assoc cur (c ∷ []) cs))

split_lines-join :
    (x : List ℕ) (xs : List (List ℕ))
    → all_single_line (x ∷ xs) ≡ true
    → split_lines [] (join_lines (x ∷ xs)) ≡ x ∷ xs
split_lines-join x [] h = split_lines-end [] x (both (is_plain x) true h).0
split_lines-join x (y ∷ ys) h =
    let parts = both (is_plain x) (all_single_line (y ∷ ys)) h in
    split_lines-break [] x (join_lines (y ∷ ys)) parts.0
    ∙ ap (λ (l : List (List ℕ)). x ∷ l) (split_lines-join y ys parts.1)

-- What arrives: an only argument is lost if it is empty.
abbrev pub passed : List (List ℕ) → List (List ℕ)
passed ([] ∷ []) = []
passed xs = xs

-- Every list of arguments without line breaks and without zero bytes arrives as it was, after the command; but a single empty
-- argument is lost.
pub build_argv-join_lines :
    (cmd : CString) (q : ℕ) (xs : List (List ℕ))
    → all_single_line xs ≡ true
    → build_argv cmd (some (q, join_lines xs)) ≡ text_of cmd ∷ passed xs
unfolding build_argv is_given text_of
build_argv-join_lines cmd q [] h = refl
build_argv-join_lines cmd q ([] ∷ []) h = refl
build_argv-join_lines cmd q ((c ∷ cs) ∷ []) h =
    rw (plain-given c cs [] h) (ap (λ l. text_of cmd ∷ l) (split_lines-join (c ∷ cs) [] h))
build_argv-join_lines cmd q ([] ∷ y ∷ ys) h =
    ap (λ l. text_of cmd ∷ l) (split_lines-join [] (y ∷ ys) h)
build_argv-join_lines cmd q ((c ∷ cs) ∷ y ∷ ys) h =
    rw (plain-given c cs (y ∷ ys) h)
      (ap (λ l. text_of cmd ∷ l) (split_lines-join (c ∷ cs) (y ∷ ys) h))
