-- ===== src/Memory/Tests.antt =====
-- Instances of the theorems on the allocator at concrete memories.
use kyte.Prelude.{
  ℕ, ◌+◌, ◌-◌, ◌<◌, ◌≡◌, refl, ◌↔◌, true, false, some, List, [], ◌∷◌, arith, pos, negsuc,
}
use kyte.Memory.Table.{Table, LiveEntry, live_contains, live_contains_iff, HasEntry}
use kyte.Memory.State.{Settings, Memory, header_size, is_in_arena, update}
use kyte.Memory.Arena.{Answers, arena_align, ensure_arena, arena_alloc, bytes_alloc, IsBump}
use kyte.Memory.Arena.Layout.{Request, allocs, IsLayout, no_room, allocs-IsLayout}
use kyte.Memory.Arena.Zeroed.{IsZeroed, IsClean, bytes_alloc-IsZeroed}
use kyte.Memory.Count.{
  Destructor, release, run_destructor, free_block, dead_count, release-multithreaded,
}
use kyte.Memory.Count.Lifetime.{Call, retained, released, run, IsCounted, IsFramed}
use kyte.Memory.Count.Balance.{run-IsCounted, release-last}

abbrev with_arena : Settings
with_arena = record { drop_arena = false; audit = true; dump = true }

abbrev without_arena : Settings
without_arena = record { drop_arena = true; audit = false; dump = false }

abbrev answers : Answers
answers = record { page = 4096; block = 16777216; realloc_ok = true; site = 7 }

abbrev entry : ℕ → LiveEntry
entry b = record { base = b; size = pos 24; site = 7 }

-- A table of two objects.
abbrev two : Table
two = record { entries = entry 16777216 ∷ entry 16777296 ∷ []; cap = 1024 }

-- An arena at 4096 of which 64 bytes are in use, and an object with one reference on the heap.
abbrev memory : Memory
memory = record {
  arena_start = 4096;
  arena_current = 4160;
  counts = λ b. pos 1;
  sizes = λ b. pos 24;
  bytes = λ a. 0;
  freed = [];
  alloc_total = 2;
  audit_live = pos 2;
  audit_bytes = pos 48;
  live = two;
  dead_ring = λ k. record { base = 0; size = pos 0; preview = []; printable = false };
  dead_ring_n = 0;
  dead_releases = 0;
}

-- The same memory with an arena that is full.
abbrev full_memory : Memory
full_memory = record memory { arena_current = 8392704 }

abbrev object : ℕ
object = 16777224

memory-IsBump : IsBump memory
memory-IsBump = record { low = omega arith; high = omega arith; aligned = refl }

memory-IsClean : IsClean memory
memory-IsClean = λ a low high. refl

live_contains_iff_example : (live_contains two 16777296 ≡ true) ↔ HasEntry two.entries 16777296 2
live_contains_iff_example = live_contains_iff two 16777296

abbrev requests : List Request
requests = (answers, pos 24) ∷ (answers, pos 3) ∷ (answers, pos 9000000) ∷ []

allocs-IsLayout_example :
    (let r = allocs with_arena memory requests in
      IsLayout r.1.arena_current memory.arena_current requests r.0
      × (r.1.arena_start ≡ memory.arena_start)
      × IsBump r.1)
allocs-IsLayout_example =
    allocs-IsLayout with_arena refl requests memory (omega arith) memory-IsBump

room_for_24 : no_room memory 24 ≡ false
unfolding arena_align
room_for_24 = refl

alloc_nonnull : 0 < (bytes_alloc with_arena answers memory (pos 24)).0
unfolding bytes_alloc ensure_arena arena_alloc arena_align
alloc_nonnull = omega arith

bytes_alloc-IsZeroed_example :
    (let r = bytes_alloc with_arena answers memory (pos 24) in
      IsZeroed r.1 r.0 (pos 24) × IsClean r.1)
bytes_alloc-IsZeroed_example =
    bytes_alloc-IsZeroed with_arena answers memory (pos 24) refl (omega arith) memory-IsClean
      alloc_nonnull

on_heap : is_in_arena memory object ≡ false
unfolding is_in_arena
on_heap = refl

object-IsCounted : IsCounted memory object 1
object-IsCounted = record { not_null = refl; on_heap = on_heap; count = refl }

-- A destructor that releases nothing, but clears a byte.
abbrev clears : Destructor
clears = some (λ m ptr. record m { bytes = update m.bytes ptr 0 })

release-multithreaded_example :
    release true with_arena clears memory object ≡ release false with_arena clears memory object
release-multithreaded_example =
    release-multithreaded with_arena clears memory object
      (record { low = omega arith; high = omega arith })

abbrev calls : List Call
calls = retained false ∷ retained false ∷ released false ∷ released true ∷ []

run-IsCounted_example :
    IsCounted (run with_arena clears calls memory object) object 1
    × IsFramed (object - header_size) memory (run with_arena clears calls memory object)
run-IsCounted_example =
    run-IsCounted with_arena clears calls memory object 1 1 object-IsCounted refl (omega arith)

release-last_example :
    (let base = object - header_size in
      let after =
        release true with_arena clears (run with_arena clears calls memory object) object in
      (dying : Memory) × IsFramed base memory dying
      × (dying.counts base ≡ dead_count)
      × (after ≡ free_block with_arena (run_destructor clears dying object) base)
      × (after.freed ≡ base ∷ (run_destructor clears dying object).freed))
release-last_example =
    release-last with_arena clears calls true memory object 1 object-IsCounted refl (omega arith)

-- A literal has a negative count.
abbrev literal : Memory
literal = record memory { counts = λ b. negsuc 0 }

no_room_for_24 : no_room full_memory 24 ≡ true
unfolding arena_align
no_room_for_24 = refl

full_on_heap : is_in_arena full_memory (answers.block + header_size) ≡ false
unfolding is_in_arena
full_on_heap = refl
