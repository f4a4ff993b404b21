-- ===== src/Process/System.antt =====
-- io.cpp, runtime_str.h: what a process holds (descriptors, blocks, mappings, children that were not
-- waited for) and the calls that change it. `faults` counts calls on what is not held.
use kyte.Prelude.{ℕ, ◌+◌, Bool, false, ◌||◌, Option, none, some, List, [], ◌∷◌, ◌==◌, if◌then◌else◌}

pub record System : Type 0 where
  pub fds : List ℕ
  pub blocks : List ℕ
  pub stacks : List ℕ
  pub children : List ℕ
  pub faults : ℕ

-- A computation on that state.
abbrev pub Os : Type 0 → Type 0
Os A = System → A × System

abbrev pub pure : {A : Type 0} → A → Os A
pure a s = (a, s)

infixl 5 ◌>>=◌ ◌>>◌
abbrev pub ◌>>=◌ : {A B : Type 0} → Os A → (A → Os B) → Os B
◌>>=◌ m f s = let (a, s') = m s in f a s'

abbrev pub ◌>>◌ : {A B : Type 0} → Os A → Os B → Os B
m >> k = m >>= λ _. k

abbrev pub holds : ℕ → List ℕ → Bool
holds x [] = false
holds x (y ∷ ys) = x == y || holds x ys

abbrev pub remove : ℕ → List ℕ → List ℕ
remove x [] = []
remove x (y ∷ ys) = if x == y then ys else y ∷ remove x ys

abbrev pub close_fd : ℕ → Os Unit
close_fd fd s = (
  tt,
  if holds fd s.fds then record s { fds = remove fd s.fds } else record s { faults = s.faults + 1 },
)

abbrev pub free_block : ℕ → Os Unit
free_block p s = (
  tt,
  if holds p s.blocks
      then record s { blocks = remove p s.blocks }
      else record s { faults = s.faults + 1 },
)

abbrev pub new_block : ℕ → Os Unit
new_block p s = (tt, record s { blocks = p ∷ s.blocks })

-- A Kyte string, with its address, and a C string; `none` is a null pointer.
abbrev pub KyteString : Type 0
KyteString = Option (ℕ × List ℕ)

abbrev pub CString : Type 0
CString = Option (ℕ × List ℕ)

-- What C reads of a buffer that ends with a zero.
unfoldable pub until_nul : List ℕ → List ℕ
until_nul [] = []
until_nul (c ∷ cs) = if c == 0 then [] else c ∷ until_nul cs

-- The second argument is the answer of `malloc`.
unfoldable pub to_cstr : KyteString → Option ℕ → Os CString
to_cstr none answer = pure none
to_cstr (some (p, bytes)) none = pure none
to_cstr (some (p, bytes)) (some q) = do new_block q; pure (some (q, until_nul bytes))

unfoldable pub free_cstr : KyteString → CString → Os Unit
free_cstr s none = pure tt
free_cstr none (some (q, bytes)) = free_block q
free_cstr (some (p, _)) (some (q, bytes)) = if q == p then pure tt else free_block q
