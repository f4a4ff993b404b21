-- ===== src/Memory/Count.antt =====
-- alloc.cpp: `kyte_retain`, `kyte_release` and `kyte_bytes_free`.
pub mod Lifetime
pub mod Balance
use kyte.Prelude.{
  ℕ, zero, suc, ◌+◌, ◌-◌, ◌*◌, ◌/◌, ◌%◌, ◌^◌, ◌≤◌, ◌<◌, min, max, ◌≡◌, refl, sym, ap, ◌∙◌, subst,
  ◌≢◌, ◌↔◌, ◌⊎◌, inl, inr, Bool, true, false, not, ◌&&◌, ◌||◌, xor, Option, none, some, List, [],
  ◌∷◌, ◌++◌, map, append_assoc, append-nil, arith, ltb, leb, ◌==◌, if◌then◌else◌, ltb→lt, lt→ltb,
  leb→le, ==_iff, Bool-cases, Option-cases, ℤ, pos, negsuc, pos_part, neg_part, sub_ℕ, ltb_ℤ, ◌+ℤ◌,
  ◌-ℤ◌, ◌≤ℤ◌, int_laws, eq_of_parts, length, length-append, get_elem?, set, get_or, take, drop,
  replicate,
}
use kyte.Memory.State.{
  Settings, Memory, header_size, int32, update, is_in_arena, check_release_of_dead, audit_free,
}

-- The destructor that the compiler passes: code of the program, which may change all the memory.
abbrev pub Destructor : Type 0
Destructor = Option (Memory → ℕ → Memory)

unfoldable pub set_count : Memory → ℕ → ℤ → Memory
set_count m base c = record m { counts = update m.counts base (int32 c) }

-- `multithreaded` is `g_arc_multithreaded`; the load and the addition are atomic there.
unfoldable pub retain : Bool → Memory → ℕ → Memory
retain multithreaded m ptr =
    let base = ptr - header_size in
    if (ptr == 0) || is_in_arena m ptr
    then m
    else if not multithreaded
    then (if ltb_ℤ (m.counts base) (pos 0) then m else set_count m base (m.counts base +ℤ pos 1))
    else if ltb_ℤ (m.counts base) (pos 0)
    then m
    else set_count m base (m.counts base +ℤ pos 1)

unfoldable pub run_destructor : Destructor → Memory → ℕ → Memory
run_destructor none m ptr = m
run_destructor (some d) m ptr = d m ptr

abbrev pub dead_count : ℤ
dead_count = negsuc 998

unfoldable pub free_block : Settings → Memory → ℕ → Memory
free_block cfg m base =
    let audited = audit_free cfg m base (m.sizes base) in
    record audited { freed = base ∷ audited.freed }

-- What happens when the count is zero: the count is set to -999, so that the destructor cannot
-- bring the object back, and the block is freed after the destructor.
unfoldable pub destroy : Settings → Destructor → Memory → ℕ → Memory
destroy cfg d m ptr =
    let base = ptr - header_size in
    free_block cfg (run_destructor d (set_count m base dead_count) ptr) base

unfoldable pub is_zero : ℤ → Bool
is_zero (pos n) = n == 0
is_zero (negsuc n) = false

is_one : ℤ → Bool
is_one (pos n) = n == 1
is_one (negsuc n) = false

-- One thread: the count is lowered, and then compared with zero.
unfoldable pub release_single : Settings → Destructor → Memory → ℕ → Memory
unfolding is_zero
release_single cfg d m ptr =
    let base = ptr - header_size in
    let lowered = set_count m base (m.counts base -ℤ pos 1) in
    if ltb_ℤ (m.counts base) (pos 0)
    then m
    else if is_zero (lowered.counts base)
    then destroy cfg d lowered ptr
    else lowered

-- Several threads: `fetch_sub` gives the old count, which is compared with one.
unfoldable pub release_atomic : Settings → Destructor → Memory → ℕ → Memory
unfolding is_one
release_atomic cfg d m ptr =
    let base = ptr - header_size in
    let lowered = set_count m base (m.counts base -ℤ pos 1) in
    if ltb_ℤ (m.counts base) (pos 0)
    then m
    else if is_one (m.counts base)
    then destroy cfg d lowered ptr
    else lowered

unfoldable pub release : Bool → Settings → Destructor → Memory → ℕ → Memory
release multithreaded cfg d m ptr =
    if (ptr == 0) || is_in_arena m ptr
    then m
    else (let checked = check_release_of_dead cfg m ptr in
        if not multithreaded
        then release_single cfg d checked ptr
        else release_atomic cfg d checked ptr)

-- An object with a negative count is a literal or one that is being destroyed; it is not freed.
unfoldable pub bytes_free : Settings → Memory → ℕ → Memory
bytes_free cfg m ptr =
    let base = ptr - header_size in
    if (ptr == 0) || is_in_arena m ptr
    then m
    else if ltb_ℤ (m.counts base) (pos 0)
    then m
    else free_block cfg m base

-- The count is a value of `int32_t`.
pub record IsInt32 (c : ℤ) : Type 0 where
  pub low : negsuc 2147483647 ≤ℤ c
  pub high : c ≤ℤ pos 2147483647

one_or_zero :
    (c : ℤ) → IsInt32 c → ltb_ℤ c (pos 0) ≡ false → is_zero (int32 (c -ℤ pos 1)) ≡ is_one c
unfolding is_zero is_one int32 ◌-ℤ◌
one_or_zero (pos n) h live = ground arith
one_or_zero (negsuc n) h live = ground arith

pub lowered_count : (m : Memory) (base : ℕ) (c : ℤ) → (set_count m base c).counts base ≡ int32 c
unfolding set_count
lowered_count m base c = ground arith

paths-agree :
    (cfg : Settings) (d : Destructor) (m : Memory) (ptr : ℕ)
    → IsInt32 (m.counts (ptr - header_size))
    → release_atomic cfg d m ptr ≡ release_single cfg d m ptr
unfolding release_atomic release_single
paths-agree cfg d m ptr h =
    let base = ptr - header_size in
    elim (Bool-cases (ltb_ℤ (m.counts base) (pos 0))) [
      | inl immortal ↦ rw immortal refl
      | inr live ↦
          rw
            (
              live,
              lowered_count m base (m.counts base -ℤ pos 1),
              one_or_zero (m.counts base) h live,
            )
            refl
    ]

pub check-counts :
    (cfg : Settings) (m : Memory) (ptr : ℕ) → (check_release_of_dead cfg m ptr).counts ≡ m.counts
unfolding check_release_of_dead
check-counts cfg m ptr = ground arith

-- Releasing gives the same memory on the plain path of a single thread and on the atomic path, for
-- every destructor and every count.
pub release-multithreaded :
    (cfg : Settings) (d : Destructor) (m : Memory) (ptr : ℕ)
    → IsInt32 (m.counts (ptr - header_size))
    → release true cfg d m ptr ≡ release false cfg d m ptr
unfolding release
release-multithreaded cfg d m ptr h = elim (Bool-cases ((ptr == 0) || is_in_arena m ptr)) [
  | inl skipped ↦ rw skipped refl
  | inr counted ↦
      rw counted
        (paths-agree cfg d (check_release_of_dead cfg m ptr) ptr (rw (check-counts cfg m ptr) h))
]
