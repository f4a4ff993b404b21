-- ===== src/Memory/Count/Lifetime.antt =====
-- The life of an object of alloc.cpp: sequences of retains and releases, up to the last one.
use kyte.Prelude.{
  ℕ, ◌+◌, ◌-◌, ◌≤◌, ◌<◌, ◌≡◌, refl, ◌∙◌, ◌≢◌, Bool, true, false, ◌||◌, Option, none, some, List, [],
  ◌∷◌, arith, leb, ◌==◌, if◌then◌else◌, ℤ, pos, ltb_ℤ, ◌+ℤ◌, ◌-ℤ◌, int_laws,
}
use kyte.Memory.State.{
  Settings, Memory, header_size, int32, update, is_in_arena, check_release_of_dead,
}
use kyte.Memory.Count.{
  Destructor, set_count, retain, destroy, release_single, release, IsInt32, is_zero, lowered_count,
  check-counts, release-multithreaded,
}

-- One call for an object, with the state of `g_arc_multithreaded` at that time.
pub data Call : Type 0 where
  retained : Bool → Call
  released : Bool → Call

unfoldable pub run : Settings → Destructor → List Call → Memory → ℕ → Memory
run cfg d [] m ptr = m
run cfg d (retained t ∷ cs) m ptr = run cfg d cs (retain t m ptr) ptr
run cfg d (released t ∷ cs) m ptr = run cfg d cs (release t cfg d m ptr) ptr

-- The number of references after the calls, if none of them drops the last one.
abbrev pub references : List Call → ℕ → Option ℕ
references [] n = some n
references (retained t ∷ cs) n = references cs (n + 1)
references (released t ∷ cs) n = if leb n 1 then none else references cs (n - 1)

-- An object on the heap with a count.
pub record IsCounted (m : Memory) (ptr n : ℕ) : Type 0 where
  pub not_null : (ptr == 0) ≡ false
  pub on_heap : is_in_arena m ptr ≡ false
  pub count : m.counts (ptr - header_size) ≡ pos n

-- Nothing but the count at `base` and `dead_releases` may differ.
pub record IsFramed (base : ℕ) (m m' : Memory) : Type 0 where
  pub others : (b : ℕ) → b ≢ base → m'.counts b ≡ m.counts b
  pub arena_start : m'.arena_start ≡ m.arena_start
  pub sizes : m'.sizes ≡ m.sizes
  pub bytes : m'.bytes ≡ m.bytes
  pub freed : m'.freed ≡ m.freed
  pub live : m'.live ≡ m.live
  pub audit_live : m'.audit_live ≡ m.audit_live
  pub audit_bytes : m'.audit_bytes ≡ m.audit_bytes
  pub arena_current : m'.arena_current ≡ m.arena_current
  pub alloc_total : m'.alloc_total ≡ m.alloc_total
  pub dead_ring : m'.dead_ring ≡ m.dead_ring
  pub dead_ring_n : m'.dead_ring_n ≡ m.dead_ring_n

pub IsFramed-refl : (base : ℕ) (m : Memory) → IsFramed base m m
IsFramed-refl base m = record {
  others = λ b ne. refl;
  arena_start = refl;
  sizes = refl;
  bytes = refl;
  freed = refl;
  live = refl;
  audit_live = refl;
  audit_bytes = refl;
  arena_current = refl;
  alloc_total = refl;
  dead_ring = refl;
  dead_ring_n = refl;
}

pub IsFramed-trans :
    (base : ℕ) (m m1 m2 : Memory) → IsFramed base m m1 → IsFramed base m1 m2 → IsFramed base m m2
IsFramed-trans base m m1 m2 f g = record {
  others = λ b ne. g.others b ne ∙ f.others b ne;
  arena_start = g.arena_start ∙ f.arena_start;
  sizes = g.sizes ∙ f.sizes;
  bytes = g.bytes ∙ f.bytes;
  freed = g.freed ∙ f.freed;
  live = g.live ∙ f.live;
  audit_live = g.audit_live ∙ f.audit_live;
  audit_bytes = g.audit_bytes ∙ f.audit_bytes;
  arena_current = g.arena_current ∙ f.arena_current;
  alloc_total = g.alloc_total ∙ f.alloc_total;
  dead_ring = g.dead_ring ∙ f.dead_ring;
  dead_ring_n = g.dead_ring_n ∙ f.dead_ring_n;
}

update-other : (f : ℕ → ℤ) (a b : ℕ) (v : ℤ) → b ≢ a → update f a v b ≡ f b
update-other f a b v ne = ground arith

pub set_count-IsFramed : (m : Memory) (base : ℕ) (c : ℤ) → IsFramed base m (set_count m base c)
unfolding set_count
set_count-IsFramed m base c = record {
  others = λ b ne. update-other m.counts base b (int32 c) ne;
  arena_start = refl;
  sizes = refl;
  bytes = refl;
  freed = refl;
  live = refl;
  audit_live = refl;
  audit_bytes = refl;
  arena_current = refl;
  alloc_total = refl;
  dead_ring = refl;
  dead_ring_n = refl;
}

pub check-IsFramed :
    (cfg : Settings) (m : Memory) (ptr base : ℕ) → IsFramed base m (check_release_of_dead cfg m ptr)
unfolding check_release_of_dead
check-IsFramed cfg m ptr base = record {
  others = λ b ne. ground arith;
  arena_start = ground arith;
  sizes = ground arith;
  bytes = ground arith;
  freed = ground arith;
  live = ground arith;
  audit_live = ground arith;
  audit_bytes = ground arith;
  arena_current = ground arith;
  alloc_total = ground arith;
  dead_ring = ground arith;
  dead_ring_n = ground arith;
}

int32_small : (n : ℕ) → n ≤ 2147483647 → int32 (pos n) ≡ pos n
unfolding int32
int32_small n h = ground arith

pub set_count-IsCounted :
    (m : Memory) (ptr n : ℕ)
    → (ptr == 0) ≡ false
    → is_in_arena m ptr ≡ false
    → n ≤ 2147483647
    → IsCounted (set_count m (ptr - header_size) (pos n)) ptr n
unfolding set_count is_in_arena
set_count-IsCounted m ptr n nn heap h = record {
  not_null = nn;
  on_heap = heap;
  count = self (ptr - header_size) ∙ int32_small n h;
}
  where
    self : (a : ℕ) → update m.counts a (int32 (pos n)) a ≡ int32 (pos n)
    self a = ground arith

pub counted :
    (m : Memory) (ptr n : ℕ) → IsCounted m ptr n → ((ptr == 0) || is_in_arena m ptr) ≡ false
counted m ptr n h = rw (h.not_null, h.on_heap) refl

not_negative : (n : ℕ) → ltb_ℤ (pos n) (pos 0) ≡ false
not_negative n = ground arith

pos_suc : (n : ℕ) → pos n +ℤ pos 1 ≡ pos (n + 1)
pos_suc n = omega int_laws

pos_pred : (n : ℕ) → 0 < n → pos n -ℤ pos 1 ≡ pos (n - 1)
pos_pred n h = omega int_laws

pub retain-counted :
    (t : Bool) (m : Memory) (ptr n : ℕ)
    → IsCounted m ptr n
    → retain t m ptr ≡ set_count m (ptr - header_size) (pos (n + 1))
unfolding retain
retain-counted true m ptr n h = rw (counted m ptr n h, h.count, not_negative n, pos_suc n) refl
retain-counted false m ptr n h = rw (counted m ptr n h, h.count, not_negative n, pos_suc n) refl

pub single_path :
    (t : Bool) (cfg : Settings) (d : Destructor) (m : Memory) (ptr n : ℕ)
    → IsCounted m ptr n
    → n ≤ 2147483647
    → release t cfg d m ptr ≡ release_single cfg d (check_release_of_dead cfg m ptr) ptr
unfolding release
single_path true cfg d m ptr n h le =
    release-multithreaded cfg d m ptr (small h.count) ∙ rw (counted m ptr n h) refl
  where
    small : {c : ℤ} → c ≡ pos n → IsInt32 c
    small e = rw e (record { low = omega arith; high = omega arith })
single_path false cfg d m ptr n h le = rw (counted m ptr n h) refl

arena_same :
    (m m' : Memory) (p : ℕ) → m'.arena_start ≡ m.arena_start → is_in_arena m' p ≡ is_in_arena m p
unfolding is_in_arena
arena_same m m' p e = rw e refl

pub checked-IsCounted :
    (cfg : Settings) (m : Memory) (ptr n : ℕ)
    → IsCounted m ptr n
    → IsCounted (check_release_of_dead cfg m ptr) ptr n
checked-IsCounted cfg m ptr n h = record {
  not_null = h.not_null;
  on_heap = arena_same _ _ ptr (check-IsFramed cfg m ptr 0).arena_start ∙ h.on_heap;
  count = rw (check-counts cfg m ptr) h.count;
}

pub single-counted :
    (cfg : Settings) (d : Destructor) (m : Memory) (ptr n : ℕ)
    → IsCounted m ptr n
    → 1 < n
    → n ≤ 2147483647
    → release_single cfg d m ptr ≡ set_count m (ptr - header_size) (pos (n - 1))
unfolding release_single is_zero
single-counted cfg d m ptr n h two le =
    rw
      (
        h.count,
        not_negative n,
        pos_pred n (omega arith),
        lowered_count m (ptr - header_size) (pos (n - 1)),
        int32_small (n - 1) (omega arith),
        nonzero (n - 1) (omega arith),
      )
      refl
  where
    nonzero : (k : ℕ) → 0 < k → (k == 0) ≡ false
    nonzero k h = ground arith

-- The last reference: the count is lowered to zero, and the object is destroyed.
pub single-last :
    (cfg : Settings) (d : Destructor) (m : Memory) (ptr : ℕ)
    → IsCounted m ptr 1
    → release_single cfg d m ptr ≡ destroy cfg d (set_count m (ptr - header_size) (pos 0)) ptr
unfolding release_single is_zero
single-last cfg d m ptr h =
    rw
      (
        h.count,
        pos_pred 1 (omega arith),
        lowered_count m (ptr - header_size) (pos 0),
        int32_small 0 (omega arith),
      )
      refl
