-- ===== src/Memory/Count/Balance.antt =====
-- Retains and releases of alloc.cpp keep a balance, and the last release destroys the object.
use kyte.Prelude.{
  ℕ, ◌+◌, ◌-◌, ◌≤◌, ◌<◌, ◌≡◌, refl, ap, ◌∙◌, subst, inl, inr, Bool, true, false, not, ◌||◌, Option,
  none, some, List, [], ◌∷◌, arith, leb, ◌==◌, if◌then◌else◌, Bool-cases, ℤ, pos, ltb_ℤ, ◌-ℤ◌,
  length,
}
use mathlib.Core.Option.{some-injective, none-ne-some}
use kyte.Memory.State.{
  Settings, Memory, header_size, int32, is_in_arena, check_release_of_dead, audit_free, forget,
  dead_ring_record,
}
use kyte.Memory.Table.{Table, LiveEntry, live_remove}
use kyte.Memory.Count.{
  Destructor, set_count, retain, run_destructor, dead_count, free_block, destroy, release_single,
  release_atomic, release, bytes_free, lowered_count, check-counts,
}
use kyte.Memory.Count.Lifetime.{
  Call, retained, released, run, references, IsCounted, IsFramed, IsFramed-refl, IsFramed-trans,
  set_count-IsFramed, check-IsFramed, set_count-IsCounted, retain-counted, single_path,
  checked-IsCounted, single-counted, single-last,
}

retain_step :
    (t : Bool) (m : Memory) (ptr n : ℕ)
    → IsCounted m ptr n
    → n < 2147483647
    → IsCounted (retain t m ptr) ptr (n + 1) × IsFramed (ptr - header_size) m (retain t m ptr)
retain_step t m ptr n h lt = rw (retain-counted t m ptr n h) (
  set_count-IsCounted m ptr (n + 1) h.not_null h.on_heap (omega arith),
  set_count-IsFramed m (ptr - header_size) (pos (n + 1)),
)

release_step :
    (t : Bool) (cfg : Settings) (d : Destructor) (m : Memory) (ptr n : ℕ)
    → IsCounted m ptr n
    → 1 < n
    → n ≤ 2147483647
    → IsCounted (release t cfg d m ptr) ptr (n - 1)
      × IsFramed (ptr - header_size) m (release t cfg d m ptr)
release_step t cfg d m ptr n h two le =
    let base = ptr - header_size in
    let m1 = check_release_of_dead cfg m ptr in
    let h1 = checked-IsCounted cfg m ptr n h in
    rw (single_path t cfg d m ptr n h le, single-counted cfg d m1 ptr n h1 two le)
      (
        set_count-IsCounted m1 ptr (n - 1) h1.not_null h1.on_heap (omega arith),
        IsFramed-trans base m m1 _ (check-IsFramed cfg m ptr base)
            (set_count-IsFramed m1 base (pos (n - 1))),
      )

-- As long as the calls do not drop the last reference, the count of an object on the heap is the
-- number of its references, whichever path each call takes; nothing is freed, and nothing else
-- of the memory changes, neither the arena's pointers nor the audit's tables, but the counter of
-- releases of dead objects.
pub run-IsCounted :
    (cfg : Settings) (d : Destructor) (cs : List Call) (m : Memory) (ptr n k : ℕ)
    → IsCounted m ptr n
    → references cs n ≡ some k
    → n + length cs ≤ 2147483647
    → IsCounted (run cfg d cs m ptr) ptr k × IsFramed (ptr - header_size) m (run cfg d cs m ptr)
unfolding run
run-IsCounted cfg d [] m ptr n k h e le =
    (subst (IsCounted m ptr) (some-injective n k e) h, IsFramed-refl (ptr - header_size) m)
run-IsCounted cfg d (retained t ∷ cs) m ptr n k h e le =
    let (h1, f) = retain_step t m ptr n h (omega arith) in
    let (h2, g) = run-IsCounted cfg d cs (retain t m ptr) ptr (n + 1) k h1 e (omega arith) in
    (h2, IsFramed-trans (ptr - header_size) m _ _ f g)
run-IsCounted cfg d (released t ∷ cs) m ptr n k h e le = elim (Bool-cases (leb n 1)) [
  | inl last ↦ absurd (none-ne-some k (rw last at e))
  | inr more ↦
      let (h1, f) = release_step t cfg d m ptr n h (ground arith) (omega arith) in
      let (h2, g) =
        run-IsCounted cfg d cs (release t cfg d m ptr) ptr (n - 1) k h1 (rw more at e)
          (omega arith) in
      (h2, IsFramed-trans (ptr - header_size) m _ _ f g)
]

forget-freed :
    (m counted : Memory) (o : Option LiveEntry × Table)
    → counted.freed ≡ m.freed
    → (forget counted o).freed ≡ m.freed
unfolding forget dead_ring_record
forget-freed m counted (none, t) e = e
forget-freed m counted (some x, t) e = e

audit_free-freed :
    (cfg : Settings) (m : Memory) (base : ℕ) (size : ℤ)
    → (audit_free cfg m base size).freed ≡ m.freed
unfolding audit_free forget dead_ring_record
audit_free-freed cfg m base size = elim (Bool-cases cfg.audit) [
  | inl on ↦ elim (Bool-cases cfg.dump) [
    | inl table ↦
        rw (on, table)
          (forget-freed m
            (record m { audit_live = m.audit_live -ℤ pos 1; audit_bytes = m.audit_bytes -ℤ size })
            (live_remove m.live base) refl)
    | inr counters ↦ rw (on, counters) refl
  ]
  | inr off ↦ rw off refl
]

free_block-freed :
    (cfg : Settings) (m : Memory) (base : ℕ) → (free_block cfg m base).freed ≡ base ∷ m.freed
unfolding free_block
free_block-freed cfg m base =
    ap (λ (l : List ℕ). base ∷ l) (audit_free-freed cfg m base (m.sizes base))

int32_dead : int32 dead_count ≡ dead_count
unfolding int32
int32_dead = refl

-- After any calls that leave one reference, the next release, on either path, runs the destructor
-- once, on a memory that differs from the first one in the object's count alone, which is -999, and
-- in the counter of releases of dead objects; then it frees the object's block once.
pub release-last :
    (cfg : Settings) (d : Destructor) (cs : List Call) (t : Bool) (m : Memory) (ptr n : ℕ)
    → IsCounted m ptr n
    → references cs n ≡ some 1
    → n + length cs ≤ 2147483647
    → let base = ptr - header_size in
      let after = release t cfg d (run cfg d cs m ptr) ptr in
      (dying : Memory) × IsFramed base m dying
      × (dying.counts base ≡ dead_count)
      × (after ≡ free_block cfg (run_destructor d dying ptr) base)
      × (after.freed ≡ base ∷ (run_destructor d dying ptr).freed)
unfolding destroy
release-last cfg d cs t m ptr n h e le =
    let base = ptr - header_size in
    let (h1, f) = run-IsCounted cfg d cs m ptr n 1 h e le in
    let m1 = run cfg d cs m ptr in
    let m2 = check_release_of_dead cfg m1 ptr in
    let m3 = set_count m2 base (pos 0) in
    let dying = set_count m3 base dead_count in
    let last =
      single_path t cfg d m1 ptr 1 h1 (omega arith)
      ∙ single-last cfg d m2 ptr (checked-IsCounted cfg m1 ptr 1 h1) in
    let zeroed =
      IsFramed-trans base m2 m3 dying (set_count-IsFramed m2 base (pos 0))
        (set_count-IsFramed m3 base dead_count) in
    (
      dying,
      IsFramed-trans base m m1 dying f
          (IsFramed-trans base m1 m2 dying (check-IsFramed cfg m1 ptr base) zeroed),
      lowered_count m3 base dead_count ∙ int32_dead,
      last,
      ap (λ (x : Memory). x.freed) last ∙ free_block-freed cfg (run_destructor d dying ptr) base,
    )

release-negative :
    (cfg : Settings) (d : Destructor) (t : Bool) (m : Memory) (ptr : ℕ)
    → ltb_ℤ (m.counts (ptr - header_size)) (pos 0) ≡ true
    → release t cfg d m ptr
      ≡ (if (ptr == 0) || is_in_arena m ptr then m else check_release_of_dead cfg m ptr)
unfolding release release_single release_atomic
release-negative cfg d true m ptr h = rw (check-counts cfg m ptr, h) refl
release-negative cfg d false m ptr h = rw (check-counts cfg m ptr, h) refl

-- A negative count marks a literal, or an object that is being destroyed: it is neither retained nor
-- released nor freed, whatever its destructor does, and only the counter of releases of dead objects may
-- change.
pub negative-IsFramed :
    (cfg : Settings) (d : Destructor) (t : Bool) (m : Memory) (ptr : ℕ)
    → ltb_ℤ (m.counts (ptr - header_size)) (pos 0) ≡ true
    → let base = ptr - header_size in
      (retain t m ptr ≡ m)
      × (bytes_free cfg m ptr ≡ m)
      × IsFramed base m (release t cfg d m ptr)
      × ((release t cfg d m ptr).counts base ≡ m.counts base)
unfolding retain bytes_free
negative-IsFramed cfg d t m ptr h = elim (Bool-cases ((ptr == 0) || is_in_arena m ptr)) [
  | inl skipped ↦
      rw (release-negative cfg d t m ptr h, skipped)
        (refl, refl, IsFramed-refl (ptr - header_size) m, refl)
  | inr counted ↦
      rw (release-negative cfg d t m ptr h, counted, h)
        (
          same_branch t,
          refl,
          check-IsFramed cfg m ptr (ptr - header_size),
          ap (λ (f : ℕ → ℤ). f (ptr - header_size)) (check-counts cfg m ptr),
        )
]
  where
    same_branch : (t : Bool) → (if not t then m else m) ≡ m
    same_branch true = refl
    same_branch false = refl
