-- ===== src/Memory/Audit.antt =====
-- alloc.cpp: the number of live objects that the audit reports (`g_audit_live`).
use kyte.Prelude.{
  ℕ, ◌+◌, ◌-◌, ◌<◌, ◌≡◌, refl, sym, ap, ◌∙◌, inl, inr, true, false, Option, none, some, [], ◌∷◌,
  arith, ◌==◌, Bool-cases, ℤ, pos, ◌+ℤ◌, ◌-ℤ◌, int_laws, length, length-append,
}
use kyte.Memory.Table.{
  Table, LiveEntry, live_insert, live_contains, live_remove, live_remove-length,
}
use kyte.Memory.State.{
  Settings, Memory, header_size, update, is_in_arena, audit_alloc, audit_free, forget,
  dead_ring_record, write_header, write_header_nozero,
}
use kyte.Memory.Arena.{Answers, not_negative, bytes_alloc, overflow_alloc, arena_alloc}
use kyte.Memory.Arena.Layout.{no_room, bytes_alloc-arena}
use kyte.Memory.Count.{bytes_free, free_block}

-- The counter and the table agree.
abbrev pub IsBalanced : Memory → Type 0
IsBalanced m = m.audit_live ≡ pos (length m.live.entries)

insert-length :
    (t : Table) (e : LiveEntry) → length (live_insert true t e).entries ≡ length t.entries + 1
unfolding live_insert
insert-length t e = elim (Bool-cases (length t.entries == t.cap)) [
  | inl full ↦ rw full (length-append t.entries (e ∷ []))
  | inr room ↦ rw room (length-append t.entries (e ∷ []))
]

counted_up : (a : ℤ) (n k : ℕ) → a ≡ pos n → k ≡ n + 1 → a +ℤ pos 1 ≡ pos k
counted_up a n k e f = rw (e, f) (omega int_laws)

counted_down : (a : ℤ) (n k : ℕ) → a ≡ pos n → k + 1 ≡ n → a -ℤ pos 1 ≡ pos k
counted_down a n k e f = rw (e, sym f) (omega int_laws)

-- Counting an allocation keeps the counter equal to the number of entries, if the table could grow.
audit_alloc-IsBalanced :
    (cfg : Settings) (m : Memory) (base site : ℕ) (size : ℤ)
    → cfg.audit ≡ true
    → cfg.dump ≡ true
    → IsBalanced m
    → IsBalanced (audit_alloc cfg true m base size site)
unfolding audit_alloc
audit_alloc-IsBalanced cfg m base site size on dump h =
    rw (on, dump)
      (counted_up m.audit_live (length m.live.entries) _ h
        (insert-length m.live (record { base = base; size = size; site = site })))

forget-parts :
    (m : Memory) (o : Option LiveEntry × Table)
    → ((forget m o).live ≡ o.1) × ((forget m o).audit_live ≡ m.audit_live)
unfolding forget dead_ring_record
forget-parts m (none, t) = (refl, refl)
forget-parts m (some e, t) = (refl, refl)

-- With the table on, the audit's number of live objects is the number of the table's entries: it
-- stays so when an object is allocated, as long as the table can grow, and when an object that the
-- table contains is freed.
pub audit-IsBalanced :
    (cfg : Settings) (m : Memory) (base site : ℕ) (size : ℤ)
    → cfg.audit ≡ true
    → cfg.dump ≡ true
    → IsBalanced m
    → IsBalanced (audit_alloc cfg true m base size site)
      × (live_contains m.live base ≡ true → IsBalanced (audit_free cfg m base size))
unfolding audit_free
audit-IsBalanced cfg m base site size on dump h =
    (audit_alloc-IsBalanced cfg m base site size on dump h, λ has. freed has)
  where
    freed : live_contains m.live base ≡ true → IsBalanced (audit_free cfg m base size)
    freed has =
        let counted = record m {
          audit_live = m.audit_live -ℤ pos 1;
          audit_bytes = m.audit_bytes -ℤ size;
        } in
        let (table, live) = forget-parts counted (live_remove m.live base) in
        rw (on, dump, table, live)
          (counted_down m.audit_live (length m.live.entries) _ h
            (live_remove-length m.live base has))

freed-audit_live :
    (cfg : Settings) (m : Memory) (base : ℕ)
    → cfg.audit ≡ true
    → (free_block cfg m base).audit_live ≡ m.audit_live -ℤ pos 1
unfolding free_block audit_free
freed-audit_live cfg m base on = elim (Bool-cases cfg.dump) [
  | inl dump ↦
      let counted = record m {
        audit_live = m.audit_live -ℤ pos 1;
        audit_bytes = m.audit_bytes -ℤ m.sizes base;
      } in
      rw (on, dump) (forget-parts counted (live_remove m.live base)).1
  | inr counters ↦ rw (on, counters) refl
]

free-counted :
    (cfg : Settings) (m : Memory) (base : ℕ)
    → is_in_arena m (base + header_size) ≡ false
    → m.counts base ≡ pos 1
    → bytes_free cfg m (base + header_size) ≡ free_block cfg m base
unfolding bytes_free
free-counted cfg m base apart one = rw (past base, not_null base, apart, one) refl
  where
    past : (b : ℕ) → b + 8 - 8 ≡ b
    past b = omega arith

    not_null : (b : ℕ) → (b + 8 == 0) ≡ false
    not_null b = ground arith

overflow-block :
    (m : Memory) (block n : ℕ)
    → 0 < block
    → overflow_alloc m block n ≡ (block + header_size, write_header m block n)
unfolding overflow_alloc
overflow-block m block n h = rw (positive block h) refl
  where
    positive : (b : ℕ) → 0 < b → (b == 0) ≡ false
    positive b h = ground arith

header-parts :
    (m : Memory) (block n p : ℕ)
    → ((write_header m block n).counts block ≡ pos 1)
      × (is_in_arena (write_header m block n) p ≡ is_in_arena m p)
      × ((write_header m block n).audit_live ≡ m.audit_live)
unfolding write_header write_header_nozero is_in_arena
header-parts m block n p = (self block, refl, refl)
  where
    self : (a : ℕ) → update m.counts a (pos 1) a ≡ pos 1
    self a = ground arith

-- A block of its own is not counted when it is allocated, and is when it is freed.
overflow-freed :
    (cfg : Settings) (m : Memory) (block n : ℕ)
    → cfg.audit ≡ true
    → 0 < block
    → is_in_arena m (block + header_size) ≡ false
    → let (p, m1) = overflow_alloc m block n in
      (bytes_free cfg m1 p).audit_live ≡ m.audit_live -ℤ pos 1
overflow-freed cfg m block n audit some_block apart =
    let (one, heap, same) = header-parts m block n (block + header_size) in
    rw
      (
        overflow-block m block n some_block,
        free-counted cfg (write_header m block n) block (heap ∙ apart) one,
      )
      (freed-audit_live cfg (write_header m block n) block audit ∙ ap (λ (z : ℤ). z -ℤ pos 1) same)

full_arena :
    (m : Memory) (block n : ℕ)
    → no_room m n ≡ true
    → arena_alloc m block n ≡ overflow_alloc m block n
unfolding arena_alloc
full_arena m block n full = rw full refl

-- In a build with the arena, an object that found no room in it is not counted when it is allocated
-- but it is when it is freed: the number of live objects is then one too low.
pub overflow-unaudited :
    (cfg : Settings) (ans : Answers) (m : Memory) (size : ℤ)
    → cfg.drop_arena ≡ false
    → cfg.audit ≡ true
    → 0 < m.arena_start
    → no_room m (not_negative size) ≡ true
    → 0 < ans.block
    → is_in_arena m (ans.block + header_size) ≡ false
    → let (p, m1) = bytes_alloc cfg ans m size in
      (bytes_free cfg m1 p).audit_live ≡ m.audit_live -ℤ pos 1
overflow-unaudited cfg ans m size arena audit start full some_block apart =
    let m1 = record m { alloc_total = m.alloc_total + 1 } in
    rw
      (
        bytes_alloc-arena cfg arena ans m size start,
        full_arena m1 ans.block (not_negative size) full,
      )
      (overflow-freed cfg m1 ans.block (not_negative size) audit some_block
        (unfold is_in_arena in apart))
