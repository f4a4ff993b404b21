-- ===== src/Process/Args.antt =====
-- io.cpp: `kyte_build_argv`, and the parse of the environment in `kyte_process_spawn_ex`.
pub mod Lines
pub mod Entries
use kyte.Process.System.{CString, until_nul}
use kyte.Prelude.{
  ℕ, zero, suc, ◌+◌, ◌-◌, ◌*◌, ◌/◌, ◌%◌, ◌^◌, ◌≤◌, ◌<◌, min, max, ◌≡◌, refl, sym, ap, ◌∙◌, subst,
  ◌≢◌, ◌↔◌, ◌⊎◌, inl, inr, Bool, true, false, not, ◌&&◌, ◌||◌, xor, Option, none, some, List, [],
  ◌∷◌, ◌++◌, map, append_assoc, append-nil, arith, ltb, leb, ◌==◌, if◌then◌else◌, ltb→lt, lt→ltb,
  leb→le, ==_iff, Bool-cases, Option-cases, ℤ, pos, negsuc, pos_part, neg_part, sub_ℕ, ltb_ℤ, ◌+ℤ◌,
  ◌-ℤ◌, ◌≤ℤ◌, int_laws, eq_of_parts, length, length-append, get_elem?, set, get_or, take, drop,
  replicate,
}

-- The loop over the arguments, up to a zero, with the text since the last line break.
unfoldable pub split_lines : List ℕ → List ℕ → List (List ℕ)
split_lines cur [] = cur ∷ []
split_lines cur (c ∷ cs) =
    let rest = split_lines (if c == 10 then [] else cur ++ c ∷ []) cs in
    if c == 0 then cur ∷ [] else if c == 10 then cur ∷ rest else rest

-- `s && *s`.
unfoldable pub is_given : CString → Bool
is_given none = false
is_given (some (_, [])) = false
is_given (some (_, c ∷ cs)) = not (c == 0)

-- `s ? s : ""`.
unfoldable pub text_of : CString → List ℕ
text_of none = []
text_of (some (_, bytes)) = until_nul bytes

-- The bytes that a pointer walks over.
abbrev pub buffer_of : CString → List ℕ
buffer_of none = []
buffer_of (some (_, bytes)) = bytes

unfoldable pub build_argv : CString → CString → List (List ℕ)
build_argv cmd args_str =
    text_of cmd ∷ (if is_given args_str then split_lines [] (buffer_of args_str) else [])

-- `find('=')`, with the text before and after it.
unfoldable pub split_entry : List ℕ → Option (List ℕ × List ℕ)
split_entry [] = none
split_entry (c ∷ cs) =
    let rest = split_entry cs in
    if c == 61
    then some ([], cs)
    else elim rest [ none ↦ none | some (key, value) ↦ some (c ∷ key, value) ]

unfoldable pub add_entry : List ℕ → List (List ℕ × List ℕ) → List (List ℕ × List ℕ)
add_entry cur env = elim (split_entry cur) [ none ↦ env | some entry ↦ entry ∷ env ]

-- The loop over the environment's text; a zero ends the last entry and the loop.
unfoldable pub env_entries : List ℕ → List ℕ → List (List ℕ × List ℕ)
env_entries cur [] = add_entry cur []
env_entries cur (c ∷ cs) =
    let rest = env_entries (if c == 10 then [] else cur ++ c ∷ []) cs in
    if c == 0 then add_entry cur [] else if c == 10 then add_entry cur rest else rest

unfoldable pub parse_env : CString → List (List ℕ × List ℕ)
parse_env env_str = if is_given env_str then env_entries [] (buffer_of env_str) else []
