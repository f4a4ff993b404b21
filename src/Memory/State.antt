-- ===== src/Memory/State.antt =====
-- alloc.cpp: the allocator's state. A pointer is a number and a null pointer is 0. An object stands
-- behind a header of 8 bytes: its count and its size, both `int32_t`.
use kyte.Prelude.{
  ℕ, zero, suc, ◌+◌, ◌-◌, ◌*◌, ◌%◌, ◌^◌, min, Bool, true, not, ◌&&◌, ◌||◌, Option, none, some, List,
  [], ◌∷◌, ltb, leb, ◌==◌, if◌then◌else◌, ℤ, pos, negsuc, pos_part, ltb_ℤ, ◌+ℤ◌, ◌-ℤ◌,
}
use kyte.Memory.Table.{Table, LiveEntry, live_insert, live_contains, live_remove}

abbrev pub header_size : ℕ
header_size = 8

abbrev pub arena_size : ℕ
arena_size = 8 * 1024 * 1024

abbrev pub dead_ring_size : ℕ
dead_ring_size = 512

-- `KYTE_ARC_AUDIT` and `KYTE_ARC_DUMP`, which are read once, and the macro `KYTE_DROP_ARENA` of the
-- build.
pub record Settings : Type 0 where
  pub drop_arena : Bool
  pub audit : Bool
  pub dump : Bool

pub record DeadEntry : Type 0 where
  pub base : ℕ
  pub size : ℤ
  pub preview : List ℕ
  pub printable : Bool

-- `counts` and `sizes` are the header fields by the address of the header, `bytes` the payloads by
-- address. `freed` lists the blocks given to `free`, the latest first.
pub record Memory : Type 0 where
  pub arena_start : ℕ
  pub arena_current : ℕ
  pub counts : ℕ → ℤ
  pub sizes : ℕ → ℤ
  pub bytes : ℕ → ℕ
  pub freed : List ℕ
  pub alloc_total : ℕ
  pub audit_live : ℤ
  pub audit_bytes : ℤ
  pub live : Table
  pub dead_ring : ℕ → DeadEntry
  pub dead_ring_n : ℕ
  pub dead_releases : ℕ

-- The value of an integer stored as `int32_t`.
unfoldable pub int32 : ℤ → ℤ
int32 (pos n) = let m = n % 2 ^ 32 in if ltb m (2 ^ 31) then pos m else negsuc (2 ^ 32 - 1 - m)
int32 (negsuc n) = let m = n % 2 ^ 32 in if ltb m (2 ^ 31) then negsuc m else pos (2 ^ 32 - 1 - m)

-- A write at one address.
abbrev pub update {ℓ} : {A : Type ℓ} → (ℕ → A) → ℕ → A → ℕ → A
update f a v x = if x == a then v else f x

-- `memset` and `memcpy` on the payloads.
abbrev pub fill : (ℕ → ℕ) → ℕ → ℕ → ℕ → ℕ → ℕ
fill bytes a n v x = if leb a x && ltb x (a + n) then v else bytes x

abbrev pub copy : (ℕ → ℕ) → ℕ → ℕ → ℕ → ℕ → ℕ
copy bytes dst src n x = if leb dst x && ltb x (dst + n) then bytes (src + (x - dst)) else bytes x

unfoldable pub is_in_arena : Memory → ℕ → Bool
is_in_arena m ptr =
    not (m.arena_start == 0) && (leb m.arena_start ptr && ltb ptr (m.arena_start + arena_size))

unfoldable pub write_header_nozero : Memory → ℕ → ℕ → Memory
write_header_nozero m base size = record m {
  counts = update m.counts base (pos 1);
  sizes = update m.sizes base (int32 (pos size));
}

unfoldable pub write_header : Memory → ℕ → ℕ → Memory
write_header m base size = record (write_header_nozero m base size) {
  bytes = fill m.bytes (base + header_size) size 0;
}

-- `p[k] < 32 || p[k] > 126` for some of the bytes.
unfoldable pub all_printable : List ℕ → Bool
all_printable [] = true
all_printable (c ∷ cs) = (leb 32 c && leb c 126) && all_printable cs

unfoldable pub read_bytes : (ℕ → ℕ) → ℕ → ℕ → List ℕ
read_bytes bytes a zero = []
read_bytes bytes a (suc n) = bytes a ∷ read_bytes bytes (a + 1) n

-- A negative size is a huge `size_t`.
unfoldable pub dead_ring_record : Memory → ℕ → ℤ → Memory
dead_ring_record m base size =
    let n = if ltb_ℤ size (pos 0) then 16 else min (pos_part size) 16 in
    let preview = read_bytes m.bytes (base + header_size) n in
    record m {
      dead_ring = update m.dead_ring (m.dead_ring_n % dead_ring_size) (record {
        base = base;
        size = size;
        preview = preview;
        printable = ltb 0 n && all_printable preview;
      });
      dead_ring_n = m.dead_ring_n + 1;
    }

unfoldable pub ring_find : (ℕ → DeadEntry) → ℕ → ℕ → Option DeadEntry
ring_find ring base zero = none
ring_find ring base (suc k) = elim (ring_find ring base k) [
  | some e ↦ some e
  | none ↦ if (ring k).base == base then some (ring k) else none
]

-- The first entry of a block, by the index in the ring.
unfoldable pub dead_ring_find : Memory → ℕ → Option DeadEntry
dead_ring_find m base =
    let lim = if ltb m.dead_ring_n dead_ring_size then m.dead_ring_n else dead_ring_size in
    ring_find m.dead_ring base lim

-- A release of an object that is not in the table is counted, and the first eight are printed.
unfoldable pub check_release_of_dead : Settings → Memory → ℕ → Memory
check_release_of_dead cfg m payload =
    if not cfg.audit || not cfg.dump
    then m
    else if live_contains m.live (payload - header_size)
    then m
    else if ltb_ℤ (pos 1000000) (m.counts (payload - header_size))
    then m
    else record m { dead_releases = m.dead_releases + 1 }

unfoldable pub audit_alloc : Settings → Bool → Memory → ℕ → ℤ → ℕ → Memory
audit_alloc cfg realloc_ok m base size site =
    if cfg.audit
    then record m {
      audit_live = m.audit_live +ℤ pos 1;
      audit_bytes = m.audit_bytes +ℤ size;
      live =
          if cfg.dump
          then live_insert realloc_ok m.live (record { base = base; size = size; site = site })
          else m.live;
    }
    else m

unfoldable pub forget : Memory → Option LiveEntry × Table → Memory
forget m (none, t) = record m { live = t }
forget m (some e, t) = record (dead_ring_record m e.base e.size) { live = t }

unfoldable pub audit_free : Settings → Memory → ℕ → ℤ → Memory
audit_free cfg m base size =
    if cfg.audit
    then (let counted = record m {
      audit_live = m.audit_live -ℤ pos 1;
      audit_bytes = m.audit_bytes -ℤ size;
    } in
        if cfg.dump then forget counted (live_remove m.live base) else counted)
    else m
