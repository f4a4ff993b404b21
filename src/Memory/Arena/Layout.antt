-- ===== src/Memory/Arena/Layout.antt =====
-- Where the bump arena of alloc.cpp places objects, and what mark and reset reclaim.
use kyte.Prelude.{
  ℕ, ◌+◌, ◌-◌, ◌%◌, ◌≤◌, ◌<◌, ◌≡◌, refl, ◌∙◌, inl, inr, Bool, false, ◌||◌, List, [], ◌∷◌, arith,
  ltb, ◌==◌, if◌then◌else◌, Bool-cases, ℤ,
}
use kyte.Memory.State.{Settings, Memory, header_size, arena_size, write_header, write_header_nozero}
use kyte.Memory.Arena.{
  Answers, arena_align, not_negative, ensure_arena, overflow_alloc, arena_alloc, bytes_alloc,
  arena_mark, arena_reset, IsBump,
}

abbrev pub Request : Type 0
Request = Answers × ℤ

-- The objects of a sequence of requests, by the addresses of their payloads.
unfoldable pub allocs : Settings → Memory → List Request → List ℕ × Memory
allocs cfg m [] = ([], m)
allocs cfg m ((ans, size) ∷ rs) =
    let (p, m1) = bytes_alloc cfg ans m size in let (ps, m2) = allocs cfg m1 rs in (p ∷ ps, m2)

-- The address that `malloc` gave, past the header, or null.
abbrev pub own_block : Answers → ℕ
own_block ans = if ans.block == 0 then 0 else ans.block + header_size

-- One object: it stands between the old and the new bump pointer, behind its header, or it has a
-- block of its own and the bump pointer stays.
pub data IsPlaced (lo hi : ℕ) (ans : Answers) (size : ℤ) (p : ℕ) : Type 0 where
  bumped : p ≡ lo + header_size → p + not_negative size ≤ hi → IsPlaced lo hi ans size p
  own : p ≡ own_block ans → hi ≡ lo → IsPlaced lo hi ans size p

-- The objects of a sequence, one behind the other.
pub data IsLayout (hi : ℕ) : ℕ → List Request → List ℕ → Type 0 where
  done : {lo : ℕ} → lo ≡ hi → IsLayout hi lo [] []
  next :
      {lo mid p : ℕ} {ans : Answers} {size : ℤ} {rs : List Request} {ps : List ℕ}
      → IsPlaced lo mid ans size p
      → IsLayout hi mid rs ps
      → IsLayout hi lo ((ans, size) ∷ rs) (p ∷ ps)

pub align-le : (s : ℕ) → s ≤ arena_align s
unfolding arena_align
align-le s = omega arith

align-mod : (s : ℕ) → arena_align s % 8 ≡ 0
unfolding arena_align
align-mod s = omega arith

-- The test of `kyte_bytes_alloc` for an arena that is full, or that there is none.
abbrev pub no_room : Memory → ℕ → Bool
no_room m n =
    (m.arena_start == 0)
    || ltb (m.arena_start + arena_size) (m.arena_current + arena_align (n + header_size))

pub overflow-kept :
    (m : Memory) (block n : ℕ)
    → ((overflow_alloc m block n).1.arena_current ≡ m.arena_current)
      × ((overflow_alloc m block n).1.arena_start ≡ m.arena_start)
unfolding overflow_alloc write_header write_header_nozero
overflow-kept m block n = ground arith

overflow-own :
    (m : Memory) (ans : Answers) (n : ℕ) → (overflow_alloc m ans.block n).0 ≡ own_block ans
unfolding overflow_alloc
overflow-own m ans n = ground arith

arena_alloc-IsPlaced :
    (m : Memory) (ans : Answers) (size : ℤ)
    → let r = arena_alloc m ans.block (not_negative size) in
      IsPlaced m.arena_current r.1.arena_current ans size r.0 × (r.1.arena_start ≡ m.arena_start)
unfolding arena_alloc write_header_nozero
arena_alloc-IsPlaced m ans size = elim (Bool-cases (no_room m (not_negative size))) [
  | inl full ↦
      let (kept, start) = overflow-kept m ans.block (not_negative size) in
      rw full (own (overflow-own m ans (not_negative size)) kept, start)
  | inr room ↦
      rw room (bumped refl (omega (arith, align-le (not_negative size + header_size))), refl)
]

bump_step : (s c a : ℕ) → s ≤ c → (c - s) % 8 ≡ 0 → a % 8 ≡ 0 → (c + a - s) % 8 ≡ 0
bump_step s c a le h k = omega arith

arena_alloc-IsBump : (m : Memory) (block n : ℕ) → IsBump m → IsBump (arena_alloc m block n).1
unfolding arena_alloc write_header_nozero
arena_alloc-IsBump m block n h = elim (Bool-cases (no_room m n)) [
  | inl full ↦
      let (kept, start) = overflow-kept m block n in
      rw full (record {
        low = omega (arith, h.low);
        high = omega (arith, h.high);
        aligned = rw (kept, start) h.aligned;
      })
  | inr room ↦ rw room (record {
    low = omega (arith, h.low);
    high = ground arith;
    aligned =
        bump_step m.arena_start m.arena_current (arena_align (n + header_size)) h.low h.aligned
          (align-mod (n + header_size));
  })
]

module _ (cfg : Settings) (arena : cfg.drop_arena ≡ false) where
  -- With an arena, `kyte_bytes_alloc` is the allocation from it, but for the count of births.
  pub bytes_alloc-arena :
      (ans : Answers) (m : Memory) (size : ℤ)
      → 0 < m.arena_start
      → bytes_alloc cfg ans m size
        ≡ arena_alloc (record m { alloc_total = m.alloc_total + 1 }) ans.block (not_negative size)
  unfolding bytes_alloc ensure_arena
  bytes_alloc-arena ans m size h = rw (arena, positive m.arena_start h) refl
    where
      positive : (n : ℕ) → 0 < n → (n == 0) ≡ false
      positive n h = ground arith

  -- What one allocation keeps.
  bytes_alloc-step :
      (ans : Answers) (m : Memory) (size : ℤ)
      → 0 < m.arena_start
      → IsBump m
      → let r = bytes_alloc cfg ans m size in
        IsPlaced m.arena_current r.1.arena_current ans size r.0
        × (r.1.arena_start ≡ m.arena_start)
        × IsBump r.1
  bytes_alloc-step ans m size h b =
      let m1 = record m { alloc_total = m.alloc_total + 1 } in
      let (placed, start) = arena_alloc-IsPlaced m1 ans size in
      rw (bytes_alloc-arena ans m size h) (
        placed,
        start,
        arena_alloc-IsBump m1 ans.block (not_negative size)
            (record { low = b.low; high = b.high; aligned = b.aligned }),
      )

  -- A sequence of allocations in a thread with an arena: the objects stand one behind the other
  -- between the old and the new bump pointer, each behind its header, or have blocks of their own,
  -- and the bump pointer stays in the arena, at a multiple of 8 from its start.
  pub allocs-IsLayout :
      (rs : List Request) (m : Memory)
      → 0 < m.arena_start
      → IsBump m
      → let r = allocs cfg m rs in
        IsLayout r.1.arena_current m.arena_current rs r.0
        × (r.1.arena_start ≡ m.arena_start)
        × IsBump r.1
  unfolding allocs
  allocs-IsLayout [] m h b = (done refl, refl, b)
  allocs-IsLayout ((ans, size) ∷ rs) m h b =
      let (placed, start, b1) = bytes_alloc-step ans m size h b in
      let (rest, start2, b2) = allocs-IsLayout rs (bytes_alloc cfg ans m size).1 (omega arith) b1 in
      (next placed rest, start2 ∙ start, b2)

  IsPlaced-le : {lo hi : ℕ} {ans : Answers} {size : ℤ} {p : ℕ} → IsPlaced lo hi ans size p → lo ≤ hi
  IsPlaced-le (bumped e le) = omega arith
  IsPlaced-le (own e same) = omega arith

  IsLayout-le : {hi lo : ℕ} {rs : List Request} {ps : List ℕ} → IsLayout hi lo rs ps → lo ≤ hi
  IsLayout-le (done e) = omega arith
  IsLayout-le (next p rest) = omega (arith, IsPlaced-le p, IsLayout-le rest)

  -- Resetting to a mark reclaims every object that was allocated from the arena after it, however
  -- many they are: the bump pointer is where it was.
  pub arena_reset-mark :
      (rs : List Request) (m : Memory)
      → 0 < m.arena_start
      → IsBump m
      → (arena_reset (allocs cfg m rs).1 (arena_mark m)).arena_current ≡ m.arena_current
  unfolding arena_reset arena_mark
  arena_reset-mark rs m h b =
      let (layout, start, b1) = allocs-IsLayout rs m h b in
      let le = IsLayout-le layout in let low = b.low in ground arith
