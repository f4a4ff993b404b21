-- ===== src/Process/Args/Entries.antt =====
-- io.cpp: the environment that `kyte_process_spawn_ex` reads.
use kyte.Process.Args.{split_entry, add_entry, env_entries, is_given, text_of, parse_env}
use kyte.Process.Args.Lines.{join_lines, excludes, both, other, is_plain, plain}
use kyte.Prelude.{
  ℕ, ◌≡◌, refl, ap, ◌∙◌, true, not, some, List, [], ◌∷◌, ◌++◌, map, append_assoc, append-nil, arith,
  ◌==◌,
}

abbrev pub entry_text : List ℕ × List ℕ → List ℕ
entry_text (key, value) = key ++ (61 ∷ value)

abbrev pub IsEntry : List ℕ × List ℕ → Type 0
IsEntry (key, value) = (excludes 61 key ≡ true) × (is_plain key ≡ true) × (is_plain value ≡ true)

abbrev pub AreEntries : List (List ℕ × List ℕ) → Type 0
AreEntries [] = Unit
AreEntries (e ∷ es) = IsEntry e × AreEntries es

split_entry-entry_text :
    (key value : List ℕ)
    → excludes 61 key ≡ true
    → split_entry (key ++ (61 ∷ value)) ≡ some (key, value)
unfolding split_entry
split_entry-entry_text [] value h = refl
split_entry-entry_text (c ∷ cs) value h =
    let parts = both (not (c == 61)) (excludes 61 cs) h in
    rw (other c 61 parts.0, split_entry-entry_text cs value parts.1) refl

env_entries-end : (cur x : List ℕ) → is_plain x ≡ true → env_entries cur x ≡ add_entry (cur ++ x) []
unfolding env_entries
env_entries-end cur [] h = rw (append-nil cur) refl
env_entries-end cur (c ∷ cs) h =
    let (no_break, no_zero, more) = plain c cs h in
    rw (no_break, no_zero, env_entries-end (cur ++ c ∷ []) cs more)
      (ap (λ (l : List ℕ). add_entry l []) (append_assoc cur (c ∷ []) cs))

env_entries-break :
    (cur x rest : List ℕ)
    → is_plain x ≡ true
    → env_entries cur (x ++ (10 ∷ rest)) ≡ add_entry (cur ++ x) (env_entries [] rest)
unfolding env_entries
env_entries-break cur [] rest h = rw (append-nil cur) refl
env_entries-break cur (c ∷ cs) rest h =
    let (no_break, no_zero, more) = plain c cs h in
    rw (no_break, no_zero, env_entries-break (cur ++ c ∷ []) cs rest more)
      (ap (λ (l : List ℕ). add_entry l (env_entries [] rest)) (append_assoc cur (c ∷ []) cs))

is_plain-append :
    (xs ys : List ℕ) → is_plain xs ≡ true → is_plain ys ≡ true → is_plain (xs ++ ys) ≡ true
is_plain-append [] ys h k = k
is_plain-append (x ∷ xs) ys h k = ground (arith, is_plain-append xs ys)

add-entry_text :
    (key value : List ℕ) (env : List (List ℕ × List ℕ))
    → excludes 61 key ≡ true
    → add_entry (key ++ (61 ∷ value)) env ≡ (key, value) ∷ env
unfolding add_entry
add-entry_text key value env h = ground (arith, split_entry-entry_text key value h)

env_entries-join :
    (e : List ℕ × List ℕ) (es : List (List ℕ × List ℕ))
    → AreEntries (e ∷ es)
    → env_entries [] (join_lines (map entry_text (e ∷ es))) ≡ e ∷ es
env_entries-join (key, value) [] ((no_eq, one_line, one_value), _) =
    env_entries-end [] (key ++ (61 ∷ value)) (is_plain-append key (61 ∷ value) one_line one_value)
    ∙ add-entry_text key value [] no_eq
env_entries-join (key, value) (e ∷ es) ((no_eq, one_line, one_value), rest) =
    env_entries-break [] (key ++ (61 ∷ value)) (join_lines (map entry_text (e ∷ es)))
      (is_plain-append key (61 ∷ value) one_line one_value)
    ∙ add-entry_text key value (env_entries [] (join_lines (map entry_text (e ∷ es)))) no_eq
    ∙ ap (λ l. (key, value) ∷ l) (env_entries-join e es rest)

is_given-entries :
    (q : ℕ) (key value : List ℕ) (es : List (List ℕ × List ℕ))
    → is_plain key ≡ true
    → is_given (some (q, join_lines (map entry_text ((key, value) ∷ es)))) ≡ true
unfolding is_given
is_given-entries q [] value [] h = refl
is_given-entries q (c ∷ cs) value [] h = rw (plain c cs h).1 refl
is_given-entries q [] value (e ∷ es) h = refl
is_given-entries q (c ∷ cs) value (e ∷ es) h = rw (plain c cs h).1 refl

-- The environment is read back from its text, "key=value" with a line break between entries, if no
-- key holds an equals sign and no key and no value holds a line break or a zero.
pub parse_env-entries :
    (q : ℕ) (env : List (List ℕ × List ℕ))
    → AreEntries env
    → parse_env (some (q, join_lines (map entry_text env))) ≡ env
unfolding parse_env text_of is_given
parse_env-entries q [] h = refl
parse_env-entries q ((key, value) ∷ es) h =
    rw (is_given-entries q key value es h.0.1) (env_entries-join (key, value) es h)
