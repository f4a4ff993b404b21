-- ===== src/OpPool.antt =====
-- src/runtime/core.cpp: the pool of operation records of a reactor thread, `kyte_op_alloc` and
-- `kyte_op_free`. A record is its address. What `malloc` gave and `free` has not taken back is a
-- function from the address to the size; a call of `free` on anything else counts as a fault.
pub mod Owners
pub mod Handing
pub mod Calls
mod Tests
use kyte.Prelude.{
  ℕ, zero, suc, ◌+◌, ◌-◌, ◌*◌, ◌/◌, ◌%◌, ◌^◌, ◌≤◌, ◌<◌, min, max, ◌≡◌, refl, sym, ap, ◌∙◌, subst,
  ◌≢◌, ◌↔◌, ◌⊎◌, inl, inr, Bool, true, false, not, ◌&&◌, ◌||◌, xor, Option, none, some, List, [],
  ◌∷◌, ◌++◌, map, append_assoc, append-nil, arith, ltb, leb, ◌==◌, if◌then◌else◌, ltb→lt, lt→ltb,
  leb→le, ==_iff, Bool-cases, Option-cases, ℤ, pos, negsuc, pos_part, neg_part, sub_ℕ, ltb_ℤ, ◌+ℤ◌,
  ◌-ℤ◌, ◌≤ℤ◌, int_laws, eq_of_parts, length, length-append, length-take, length-drop, length-map,
  length-replicate, take-append-drop, take_all, get_elem?, set, get_or, take, drop, replicate,
}

abbrev pub op_pool_max : ℕ
op_pool_max = 256

pub record OpPool : Type 0 where
  pub records : List ℕ
  pub size : ℕ
  pub heap : ℕ → Option ℕ
  pub faults : ℕ

abbrev pub store : (ℕ → Option ℕ) → ℕ → Option ℕ → ℕ → Option ℕ
store heap a v b = if b == a then v else heap b

abbrev pub free_known : Option ℕ → ℕ → OpPool → OpPool
free_known none a p = record p { faults = p.faults + 1 }
free_known (some n) a p = record p { heap = store p.heap a none }

abbrev pub std_free : ℕ → OpPool → OpPool
std_free a p = free_known (p.heap a) a p

-- `for (int i = 0; i < g_op_pool_n; ++i) std::free(g_op_pool[i])`.
unfoldable pub free_all : List ℕ → OpPool → OpPool
free_all [] p = p
free_all (a ∷ rest) p = free_all rest (std_free a p)

unfoldable pub resize : ℕ → OpPool → OpPool
resize size p =
    let dropped = free_all p.records p in
    if not (size == p.size) then record dropped { records = []; size = size } else p

-- `malloc` answers with an address, or with 0.
unfoldable pub new_record : ℕ → ℕ → OpPool → ℕ × OpPool
new_record answer size p =
    if answer == 0 then (0, p) else (answer, record p { heap = store p.heap answer (some size) })

unfoldable pub op_alloc : ℕ → ℕ → OpPool → ℕ × OpPool
op_alloc answer size p =
    let r = resize size p in
    let n = length r.records in
    if ltb 0 n
    then (get_or r.records (n - 1) 0, record r { records = take (n - 1) r.records })
    else new_record answer size r

unfoldable pub op_free : ℕ → OpPool → OpPool
op_free op p =
    if op == 0
    then p
    else if ltb (length p.records) op_pool_max
    then record p { records = p.records ++ (op ∷ []) }
    else std_free op p
