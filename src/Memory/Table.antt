-- ===== src/Memory/Table.antt =====
-- alloc.cpp: the table of live objects (`g_live`) that the audit keeps.
use kyte.Prelude.{
  ℕ, zero, suc, ◌+◌, ◌-◌, ◌*◌, ◌≤◌, ◌<◌, ◌≡◌, refl, ap, subst, ◌≢◌, ◌↔◌, ◌⊎◌, inl, inr, Bool, true,
  false, Option, none, some, List, [], ◌∷◌, ◌++◌, append-nil, arith, ◌==◌, if◌then◌else◌, ==_iff,
  Bool-cases, Option-cases, ℤ, pos, length, length-append, length-take, length-set, set, get_or,
  take,
}
use mathlib.Core.List.{Perm, perm_middle}
use mathlib.Core.List.Perm
use mathlib.Core.Option.{some-injective}

pub record LiveEntry : Type 0 where
  pub base : ℕ
  pub size : ℤ
  pub site : ℕ

-- `g_live` up to `g_live_n`, and `g_live_cap`.
pub record Table : Type 0 where
  pub entries : List LiveEntry
  pub cap : ℕ

abbrev no_entry : LiveEntry
no_entry = record { base = 0; size = pos 0; site = 0 }

-- `realloc_ok` says whether `realloc` finds memory; if not, the entry is not recorded.
unfoldable pub live_insert : Bool → Table → LiveEntry → Table
live_insert realloc_ok t e =
    if length t.entries == t.cap
    then (if realloc_ok
        then record {
          entries = t.entries ++ (e ∷ []);
          cap = (if t.cap == 0 then 1024 else t.cap * 2);
        }
        else t)
    else record t { entries = t.entries ++ (e ∷ []) }

-- `for (i = n; i-- > 0;)`: the last entry of an object below an index.
unfoldable pub last_of : List LiveEntry → ℕ → ℕ → Option ℕ
last_of es base zero = none
last_of es base (suc i) =
    let rest = last_of es base i in if (get_or es i no_entry).base == base then some i else rest

unfoldable pub live_contains : Table → ℕ → Bool
live_contains t base = elim (last_of t.entries base (length t.entries)) [
  | none ↦ false
  | some i ↦ true
]

-- `g_live[i] = g_live[g_live_n - 1]; g_live_n--`.
unfoldable pub swap_remove : List LiveEntry → ℕ → List LiveEntry
swap_remove es i = take (length es - 1) (set es i (get_or es (length es - 1) no_entry))

-- The entry that was removed, for the ring of dead objects, and the table without it.
unfoldable pub live_remove : Table → ℕ → Option LiveEntry × Table
live_remove t base = elim (last_of t.entries base (length t.entries)) [
  | none ↦ (none, t)
  | some i ↦ (some (get_or t.entries i no_entry), record t { entries = swap_remove t.entries i })
]

module _ {ℓ} {A : Type ℓ} where
  last_view : (x : A) (xs : List A) → (ys : List A) × (z : A) × (x ∷ xs ≡ ys ++ (z ∷ []))
  last_view x [] = ([], x, refl)
  last_view x (y ∷ xs) =
      let (ys, z, e) = last_view y xs in (x ∷ ys, z, ap (λ (l : List A). x ∷ l) e)

  get_or-last : (ys : List A) (z d : A) → get_or (ys ++ (z ∷ [])) (length ys) d ≡ z
  get_or-last [] z d = refl
  get_or-last (y ∷ ys) z d = get_or-last ys z d

  take-set_last :
      (ys : List A) (i : ℕ) (z : A)
      → i ≤ length ys
      → take (length ys) (set (ys ++ (z ∷ [])) i z) ≡ set ys i z
  take-set_last [] i z h = refl
  take-set_last (y ∷ ys) zero z h = ap (λ (l : List A). z ∷ l) (take-length ys)
    where
      take-length : (ys : List A) → take (length ys) (ys ++ (z ∷ [])) ≡ ys
      take-length [] = refl
      take-length (y ∷ ys) = ap (λ (l : List A). y ∷ l) (take-length ys)
  take-set_last (y ∷ ys) (suc i) z h =
      ap (λ (l : List A). y ∷ l) (take-set_last ys i z (omega arith))

  -- The last entry takes the place of one that goes.
  Perm-set_last :
      (ys : List A) (i : ℕ) (z d : A)
      → i ≤ length ys
      → Perm (ys ++ (z ∷ [])) (get_or (ys ++ (z ∷ [])) i d ∷ set ys i z)
  Perm-set_last [] zero z d h = Perm.refl _
  Perm-set_last [] (suc i) z d h = absurd (omega arith)
  Perm-set_last (y ∷ ys) zero z d h =
      Perm.cons y
        (subst (λ (l : List A). Perm (ys ++ (z ∷ [])) (z ∷ l)) (append-nil ys) (perm_middle ys []))
  Perm-set_last (y ∷ ys) (suc i) z d h =
      Perm.trans (Perm.cons y (Perm-set_last ys i z d (omega arith))) (Perm.swap _ _ _)

last_of_sound :
    (es : List LiveEntry) (b n i : ℕ)
    → last_of es b n ≡ some i
    → (i < n) × ((get_or es i no_entry).base ≡ b)
unfolding last_of
last_of_sound es b zero i h = cc
last_of_sound es b (suc n) i h = elim (Bool-cases ((get_or es n no_entry).base == b)) [
  | inl here ↦ grind (arith, some-injective)
  | inr above ↦ let (lt, same) = last_of_sound es b n i (ground arith) in (omega arith, same)
]

-- The entries below an index that are of one object.
abbrev pub HasEntry : List LiveEntry → ℕ → ℕ → Type 0
HasEntry es b n = (i : ℕ) × (i < n) × ((get_or es i no_entry).base ≡ b)

not_at :
    (es : List LiveEntry) (b n i : ℕ)
    → ((get_or es n no_entry).base == b) ≡ false
    → ¬ HasEntry es b n
    → i < suc n
    → (get_or es i no_entry).base ≢ b
not_at es b n i above below lt same = elim (Bool-cases (i == n)) [
  | inl top ↦ let here = rw ((==_iff i n).0 top) at same in ground arith
  | inr inner ↦ below (i, ground arith, same)
]

last_of-none : (es : List LiveEntry) (b n : ℕ) → last_of es b n ≡ none → ¬ HasEntry es b n
unfolding last_of
last_of-none es b zero h = λ e. absurd (omega (arith, e.1))
last_of-none es b (suc n) h = elim (Bool-cases ((get_or es n no_entry).base == b)) [
  | inl here ↦ λ _. cc
  | inr above ↦ λ (i, lt, same). not_at es b n i above (last_of-none es b n (ground arith)) lt same
]

swap_remove-Perm :
    (es : List LiveEntry) (i : ℕ)
    → i < length es
    → Perm es (get_or es i no_entry ∷ swap_remove es i)
unfolding swap_remove
swap_remove-Perm [] i h = absurd (omega arith)
swap_remove-Perm (x ∷ xs) i h =
    let (ys, z, e) = last_view x xs in
    let n : length xs ≡ length ys = omega (arith, ap length e, length-append ys (z ∷ [])) in
    let last : suc (length xs) - 1 ≡ length ys = omega arith in
    rw (e, last, get_or-last ys z no_entry, take-set_last ys i z (omega arith))
      (Perm-set_last ys i z no_entry (omega arith))

-- The table says that it contains an object exactly where it has an entry of it.
pub live_contains_iff :
    (t : Table) (b : ℕ) → (live_contains t b ≡ true) ↔ HasEntry t.entries b (length t.entries)
unfolding live_contains
live_contains_iff t b = elim (Option-cases (last_of t.entries b (length t.entries))) [
  | inl absent ↦
      rw (live_contains, absent) ((λ h. cc), λ h. absurd (last_of-none t.entries b _ absent h))
  | inr (i, found) ↦
      rw (live_contains, found)
        ((λ _. let (lt, same) = last_of_sound t.entries b _ i found in (i, lt, same)), (λ _. refl))
]

-- Removal leaves the table as it is if it has no entry of the object; else one entry of the object
-- goes, and the others stay, up to their order.
pub live_remove-Perm :
    (t : Table) (b : ℕ)
    → ((live_contains t b ≡ false) × (live_remove t b ≡ (none, t)))
      ⊎ ((e : LiveEntry) × (rest : Table) × (live_remove t b ≡ (some e, rest))
          × (e.base ≡ b)
          × Perm t.entries (e ∷ rest.entries)
          × (rest.cap ≡ t.cap))
unfolding live_remove live_contains
live_remove-Perm t b = elim (Option-cases (last_of t.entries b (length t.entries))) [
  | inl absent ↦ rw (live_remove, live_contains, absent) (inl (refl, refl))
  | inr (i, found) ↦
      let (lt, same) = last_of_sound t.entries b (length t.entries) i found in
      rw (live_remove, live_contains, found)
        (inr (
          get_or t.entries i no_entry,
          record t { entries = swap_remove t.entries i },
          refl,
          same,
          swap_remove-Perm t.entries i lt,
          refl,
        ))
]

swap_remove-length :
    (es : List LiveEntry) (i : ℕ) → i < length es → length (swap_remove es i) + 1 ≡ length es
unfolding swap_remove
swap_remove-length es i h =
    let last = get_or es (length es - 1) no_entry in
    omega (arith, length-take (length es - 1) (set es i last), length-set es i last)

pub live_remove-length :
    (t : Table) (b : ℕ)
    → live_contains t b ≡ true
    → length (live_remove t b).1.entries + 1 ≡ length t.entries
unfolding live_contains live_remove
live_remove-length t b h = elim (Option-cases (last_of t.entries b (length t.entries))) [
  | inl absent ↦ not_found (rw (live_contains, absent) at h)
  | inr (i, found) ↦
      let (lt, same) = last_of_sound t.entries b (length t.entries) i found in
      rw (live_remove, found) (swap_remove-length t.entries i lt)
]
  where
    not_found : {A : Type 0} → false ≡ true → A
    not_found e = absurd cc
