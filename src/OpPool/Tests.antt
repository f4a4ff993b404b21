-- ===== src/OpPool/Tests.antt =====
-- Tests of the pool of operation records.
use kyte.OpPool.{OpPool, free_all, resize, new_record, op_alloc, op_free}
use kyte.OpPool.Owners.{occurrences, IsOwned}
use kyte.OpPool.Calls.{Reached, start, allocated, freed, empty_pool, reached-op_alloc}
use kyte.Prelude.{◌≡◌, refl, ◌⊎◌, none, some, [], ◌∷◌}

-- A record is taken, given back, and taken again; what `malloc` would answer then does not matter.
abbrev once : OpPool
once = (op_alloc 4096 64 empty_pool).1

abbrev back : OpPool
back = op_free 4096 once

again : (op_alloc 8192 64 back).0 ≡ 4096
unfolding op_alloc op_free resize new_record free_all
again = refl

-- A caller that changes the size while a record of the old size is in use gets that record later.
abbrev larger : OpPool
larger = op_free 4096 (op_alloc 8192 128 once).1

too_small :
    ((op_alloc 12288 128 larger).0 ≡ 4096) × ((op_alloc 12288 128 larger).1.heap 4096 ≡ some 64)
unfolding op_alloc op_free resize new_record free_all
too_small = (refl, refl)

taken-Reached : Reached 64 once (4096 ∷ [])
unfolding op_alloc resize new_record free_all
taken-Reached = allocated 4096 empty_pool [] start refl

back-Reached : Reached 64 back []
back-Reached = freed 4096 once [] [] taken-Reached

back_fresh : (resize 64 back).heap 8192 ≡ none
unfolding op_alloc op_free resize new_record free_all
back_fresh = refl

reached-op_alloc_example :
    IsOwned back []
    × (let (a, r) = op_alloc 8192 64 back in
        (a ≡ 0) ⊎ ((occurrences a [] ≡ 0) × (r.heap a ≡ some 64)))
reached-op_alloc_example = reached-op_alloc 64 8192 back [] back-Reached back_fresh
