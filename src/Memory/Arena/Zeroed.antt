-- ===== src/Memory/Arena/Zeroed.antt =====
-- Whether a new object of alloc.cpp is filled with zeros.
use kyte.Prelude.{
  ℕ, ◌+◌, ◌≤◌, ◌<◌, ◌≡◌, refl, sym, ◌∙◌, inl, inr, true, false, not, ◌&&◌, ◌||◌, arith, ltb, leb,
  ◌==◌, Bool-cases, ℤ,
}
use kyte.Memory.State.{
  Settings, Memory, header_size, arena_size, update, fill, write_header, write_header_nozero,
  audit_alloc,
}
use kyte.Memory.Arena.{
  Answers, arena_align, not_negative, overflow_alloc, audited_alloc, arena_alloc, bytes_alloc,
  arena_mark, arena_reset, IsBump,
}
use kyte.Memory.Arena.Layout.{align-le, no_room, overflow-kept, bytes_alloc-arena}

-- The payload of an object is zero.
abbrev pub IsZeroed : Memory → ℕ → ℤ → Type 0
IsZeroed m p size = (a : ℕ) → p ≤ a → a < p + not_negative size → m.bytes a ≡ 0

-- What the bump pointer has not passed is as `mmap` gave it.
abbrev pub IsClean : Memory → Type 0
IsClean m = (a : ℕ) → m.arena_current ≤ a → a < m.arena_start + arena_size → m.bytes a ≡ 0

fill-in : (b : ℕ → ℕ) (p n a : ℕ) → p ≤ a → a < p + n → fill b p n 0 a ≡ 0
fill-in b p n a low high = ground arith

fill-zero : (b : ℕ → ℕ) (p n a : ℕ) → b a ≡ 0 → fill b p n 0 a ≡ 0
fill-zero b p n a h = ground arith

positive : (n : ℕ) → 0 < n → (n == 0) ≡ false
positive n h = ground arith

-- An object that `malloc` gave: its address, and its payload.
abbrev IsOwn : Memory → ℕ → ℕ → ℕ × Memory → Type 0
IsOwn m block n r =
    (r.0 ≡ block + header_size) × (r.1.bytes ≡ fill m.bytes (block + header_size) n 0)

audited_alloc-IsOwn :
    (cfg : Settings) (ans : Answers) (m : Memory) (n : ℕ)
    → 0 < ans.block
    → IsOwn m ans.block n (audited_alloc cfg ans m n)
unfolding audited_alloc audit_alloc write_header write_header_nozero
audited_alloc-IsOwn cfg ans m n h = elim (Bool-cases cfg.audit) [
  | inl on ↦ rw (positive ans.block h, on) (refl, refl)
  | inr off ↦ rw (positive ans.block h, off) (refl, refl)
]

overflow_alloc-IsOwn :
    (m : Memory) (block n : ℕ) → 0 < block → IsOwn m block n (overflow_alloc m block n)
unfolding overflow_alloc write_header write_header_nozero
overflow_alloc-IsOwn m block n h = rw (positive block h) (refl, refl)

IsOwn-IsZeroed :
    (m : Memory) (block : ℕ) (size : ℤ) (r : ℕ × Memory)
    → IsOwn m block (not_negative size) r
    → IsZeroed r.1 r.0 size
IsOwn-IsZeroed m block size r (at_block, filled) a low high =
    rw filled (fill-in m.bytes _ _ a (omega arith) (omega arith))

overflow-null : (m : Memory) (block n : ℕ) → 0 < (overflow_alloc m block n).0 → 0 < block
unfolding overflow_alloc
overflow-null m block n h = ground arith

-- The payload of an object from the arena is zero as long as the rest of the arena is.
arena_alloc-IsZeroed :
    (m : Memory) (block : ℕ) (size : ℤ)
    → IsClean m
    → 0 < (arena_alloc m block (not_negative size)).0
    → let r = arena_alloc m block (not_negative size) in IsZeroed r.1 r.0 size × IsClean r.1
unfolding arena_alloc write_header_nozero
arena_alloc-IsZeroed m block size clean nonnull =
    let n = not_negative size in
    elim (Bool-cases (no_room m n)) [
      | inl full ↦
          let some_block = overflow-null m block n (rw full at nonnull) in
          let own = overflow_alloc-IsOwn m block n some_block in
          let (kept, start) = overflow-kept m block n in
          rw full (
            IsOwn-IsZeroed m block size (overflow_alloc m block n) own,
            λ a low high. rw own.1 (fill-zero m.bytes _ _ a (clean a (omega arith) (omega arith))),
          )
      | inr room ↦
          let le = align-le (n + header_size) in
          let fits = within m.arena_start (m.arena_current + arena_align (n + header_size)) room in
          rw room (
            λ a low high. clean a (omega arith) (omega arith),
            λ a low high. clean a (omega arith) (omega arith),
          )
    ]
  where
    within : (s c : ℕ) → ((s == 0) || ltb (s + arena_size) c) ≡ false → c ≤ s + arena_size
    within s c h = ground arith

-- The payload of an object is zero, whether it stands in the arena or has a block of its own, as
-- long as the arena above the bump pointer holds zeros; that stays so.
pub bytes_alloc-IsZeroed :
    (cfg : Settings) (ans : Answers) (m : Memory) (size : ℤ)
    → cfg.drop_arena ≡ false
    → 0 < m.arena_start
    → IsClean m
    → let r = bytes_alloc cfg ans m size in 0 < r.0 → IsZeroed r.1 r.0 size × IsClean r.1
bytes_alloc-IsZeroed cfg ans m size arena start clean =
    rw (bytes_alloc-arena cfg arena ans m size start) (λ nonnull.
      arena_alloc-IsZeroed (record m { alloc_total = m.alloc_total + 1 }) ans.block size clean
        nonnull)

-- In a build without the arena, every object has a block of its own and is filled with zeros.
pub bytes_alloc-zeros :
    (cfg : Settings) (ans : Answers) (m : Memory) (size : ℤ)
    → cfg.drop_arena ≡ true
    → 0 < ans.block
    → let r = bytes_alloc cfg ans m size in (r.0 ≡ ans.block + header_size) × IsZeroed r.1 r.0 size
unfolding bytes_alloc audited_alloc audit_alloc
bytes_alloc-zeros cfg ans m size no_arena some_block =
    let m1 = record m { alloc_total = m.alloc_total + 1 } in
    let own = audited_alloc-IsOwn cfg ans m1 (not_negative size) some_block in
    rw no_arena
      (own.0, IsOwn-IsZeroed m1 ans.block size (audited_alloc cfg ans m1 (not_negative size)) own)

arena_alloc_room :
    (m : Memory) (block n : ℕ)
    → no_room m n ≡ false
    → ((arena_alloc m block n).0 ≡ m.arena_current + header_size)
      × ((arena_alloc m block n).1.bytes ≡ m.bytes)
      × ((arena_alloc m block n).1.arena_start ≡ m.arena_start)
      × (m.arena_current ≤ (arena_alloc m block n).1.arena_current)
unfolding arena_alloc write_header_nozero
arena_alloc_room m block n room = rw room (refl, refl, refl, omega arith)

bytes_alloc_room :
    (cfg : Settings) (ans : Answers) (m : Memory) (size : ℤ)
    → cfg.drop_arena ≡ false
    → 0 < m.arena_start
    → no_room m (not_negative size) ≡ false
    → let r = bytes_alloc cfg ans m size in
      (r.0 ≡ m.arena_current + header_size)
      × (r.1.bytes ≡ m.bytes)
      × (r.1.arena_start ≡ m.arena_start)
      × (m.arena_current ≤ r.1.arena_current)
bytes_alloc_room cfg ans m size arena start room =
    rw (bytes_alloc-arena cfg arena ans m size start) (
      arena_alloc_room (record m { alloc_total = m.alloc_total + 1 }) ans.block (not_negative size)
        room)

arena_reset_within :
    (m : Memory) (mark : ℕ)
    → 0 < m.arena_start
    → m.arena_start ≤ mark
    → mark ≤ m.arena_current
    → arena_reset m mark ≡ record m { arena_current = mark }
unfolding arena_reset
arena_reset_within m mark start low high =
    rw (inside m.arena_start mark m.arena_current start low high) refl
  where
    inside : (s k c : ℕ) → 0 < s → s ≤ k → k ≤ c → (not (s == 0) && (leb s k && leb k c)) ≡ true
    inside s k c h low high = ground arith

no_room-same :
    (m w : Memory) (n : ℕ)
    → w.arena_start ≡ m.arena_start
    → w.arena_current ≡ m.arena_current
    → no_room w n ≡ no_room m n
no_room-same m w n start current = rw (start, current) refl

update_self : (b : ℕ → ℕ) (a v : ℕ) → update b a v a ≡ v
update_self b a v = ground arith

-- After a reset the arena gives the same memory again and does not clear it: an object of the same
-- size as the first one after the mark has its address and still holds the byte that was written.
pub arena_reset-dirty :
    (cfg : Settings) (ans again : Answers) (m : Memory) (size : ℤ) (v : ℕ)
    → cfg.drop_arena ≡ false
    → 0 < m.arena_start
    → IsBump m
    → no_room m (not_negative size) ≡ false
    → let (p, m1) = bytes_alloc cfg ans m size in
      let written = record m1 { bytes = update m1.bytes p v } in
      let (q, m2) = bytes_alloc cfg again (arena_reset written (arena_mark m)) size in
      (q ≡ p) × (m2.bytes q ≡ v)
unfolding arena_mark
arena_reset-dirty cfg ans again m size v arena start bump room =
    let (at, same, start1, le) = bytes_alloc_room cfg ans m size arena start room in
    let m1 = (bytes_alloc cfg ans m size).1 in
    let p = (bytes_alloc cfg ans m size).0 in
    let written = record m1 { bytes = update m1.bytes p v } in
    let rewound = record written { arena_current = m.arena_current } in
    let reset =
      arena_reset_within written m.arena_current (omega arith) (omega (arith, bump.low)) le in
    let still = no_room-same m rewound (not_negative size) start1 refl ∙ room in
    let (at2, same2, start2, le2) =
      bytes_alloc_room cfg again rewound size arena (omega arith) still in
    let same_place = at2 ∙ sym at in
    rw reset (same_place, rw (same_place, same2) (update_self m1.bytes p v))
