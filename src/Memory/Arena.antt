-- ===== src/Memory/Arena.antt =====
-- alloc.cpp: `kyte_bytes_alloc` with the bump arena, its mark and reset, and persistent objects.
pub mod Layout
pub mod Zeroed
use kyte.Prelude.{
  ℕ, zero, suc, ◌+◌, ◌-◌, ◌*◌, ◌/◌, ◌%◌, ◌^◌, ◌≤◌, ◌<◌, min, max, ◌≡◌, refl, sym, ap, ◌∙◌, subst,
  ◌≢◌, ◌↔◌, ◌⊎◌, inl, inr, Bool, true, false, not, ◌&&◌, ◌||◌, xor, Option, none, some, List, [],
  ◌∷◌, ◌++◌, map, append_assoc, append-nil, arith, ltb, leb, ◌==◌, if◌then◌else◌, ltb→lt, lt→ltb,
  leb→le, ==_iff, Bool-cases, Option-cases, ℤ, pos, negsuc, pos_part, neg_part, sub_ℕ, ltb_ℤ, ◌+ℤ◌,
  ◌-ℤ◌, ◌≤ℤ◌, int_laws, eq_of_parts, length, length-append, get_elem?, set, get_or, take, drop,
  replicate,
}
use kyte.Memory.State.{
  Settings, Memory, header_size, arena_size, is_in_arena, write_header, write_header_nozero,
  audit_alloc, copy,
}

-- What the system answers to one allocation: `mmap` and `malloc` (0 for a failure), `realloc`, and
-- the return address.
pub record Answers : Type 0 where
  pub page : ℕ
  pub block : ℕ
  pub realloc_ok : Bool
  pub site : ℕ

-- `(s + 7) & ~7`.
unfoldable pub arena_align : ℕ → ℕ
arena_align s = (s + 7) / 8 * 8

abbrev pub not_negative : ℤ → ℕ
not_negative (pos n) = n
not_negative (negsuc n) = 0

unfoldable pub ensure_arena : Memory → ℕ → Memory
ensure_arena m page =
    if m.arena_start == 0 then record m { arena_start = page; arena_current = page } else m

-- A block of its own, which the audit does not see.
unfoldable pub overflow_alloc : Memory → ℕ → ℕ → ℕ × Memory
overflow_alloc m block size =
    if block == 0 then (0, m) else (block + header_size, write_header m block size)

unfoldable pub audited_alloc : Settings → Answers → Memory → ℕ → ℕ × Memory
audited_alloc cfg ans m size = if ans.block == 0 then (0, m) else (
  ans.block + header_size,
  audit_alloc cfg ans.realloc_ok (write_header m ans.block size) ans.block (pos size) ans.site,
)

unfoldable pub arena_alloc : Memory → ℕ → ℕ → ℕ × Memory
arena_alloc m block size =
    let alloc_size = arena_align (size + header_size) in
    let curr = m.arena_current in
    if (m.arena_start == 0) || ltb (m.arena_start + arena_size) (curr + alloc_size)
    then overflow_alloc m block size
    else (
      curr + header_size,
      record (write_header_nozero m curr size) { arena_current = curr + alloc_size },
    )

unfoldable pub bytes_alloc : Settings → Answers → Memory → ℤ → ℕ × Memory
bytes_alloc cfg ans m size =
    let n = not_negative size in
    let m1 = record m { alloc_total = m.alloc_total + 1 } in
    if cfg.drop_arena
    then audited_alloc cfg ans m1 n
    else arena_alloc (ensure_arena m1 ans.page) ans.block n

unfoldable pub bytes_alloc_persistent : Settings → Answers → Memory → ℤ → ℕ × Memory
bytes_alloc_persistent cfg ans m size = audited_alloc cfg ans m (not_negative size)

-- The same without zeros in the payload.
unfoldable pub bytes_alloc_persistent_nz : Settings → Answers → Memory → ℤ → ℕ × Memory
bytes_alloc_persistent_nz cfg ans m size =
    let n = not_negative size in
    if ans.block == 0 then (0, m) else (
      ans.block + header_size,
      audit_alloc cfg ans.realloc_ok (write_header_nozero m ans.block n) ans.block (pos n) ans.site,
    )

unfoldable pub arena_mark : Memory → ℕ
arena_mark m = m.arena_current

unfoldable pub arena_reset : Memory → ℕ → Memory
arena_reset m mark =
    if not (m.arena_start == 0) && (leb m.arena_start mark && leb mark m.arena_current)
    then record m { arena_current = mark }
    else m

-- Only an object with a negative count is copied, a literal for instance.
unfoldable pub bytes_persist : Settings → Answers → Memory → ℕ → ℕ × Memory
bytes_persist cfg ans m s =
    let len = m.sizes (s - header_size) in
    let (out, fresh) = bytes_alloc_persistent cfg ans m len in
    if s == 0
    then (0, m)
    else if not (ltb_ℤ (m.counts (s - header_size)) (pos 0))
    then (s, m)
    else if ltb_ℤ (pos 0) len
    then (if out == 0
        then (0, fresh)
        else (out, record fresh { bytes = copy fresh.bytes out s (pos_part len) }))
    else bytes_alloc_persistent cfg ans m (pos 0)

-- The bump pointer stands in the arena, at a multiple of 8 from its start.
pub record IsBump (m : Memory) : Type 0 where
  pub low : m.arena_start ≤ m.arena_current
  pub high : m.arena_current ≤ m.arena_start + arena_size
  pub aligned : (m.arena_current - m.arena_start) % 8 ≡ 0
