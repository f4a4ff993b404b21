-- ===== src/Uring.antt =====
-- src/runtime/uring.cpp: the submission and the completion ring of io_uring.
pub mod Slots
pub mod Submit
pub mod Complete
pub mod Timed
mod Tests
use kyte.Prelude.{
  ℕ, zero, suc, ◌+◌, ◌-◌, ◌*◌, ◌/◌, ◌%◌, ◌^◌, ◌≤◌, ◌<◌, min, max, ◌≡◌, refl, sym, ap, ◌∙◌, subst,
  ◌≢◌, ◌↔◌, ◌⊎◌, inl, inr, Bool, true, false, not, ◌&&◌, ◌||◌, xor, Option, none, some, List, [],
  ◌∷◌, ◌++◌, map, append_assoc, append-nil, arith, ltb, leb, ◌==◌, if◌then◌else◌, ltb→lt, lt→ltb,
  leb→le, ==_iff, Bool-cases, Option-cases, ℤ, pos, negsuc, pos_part, neg_part, sub_ℕ, ltb_ℤ, ◌+ℤ◌,
  ◌-ℤ◌, ◌≤ℤ◌, int_laws, eq_of_parts, length, length-append, get_elem?, set, get_or, take, drop,
  replicate,
}

-- The fields of `io_uring_sqe` that the code sets, as the kernel reads them.
pub record Sqe : Type 0 where
  pub opcode : ℕ
  pub fd : ℤ
  pub addr : ℕ
  pub len : ℕ
  pub off : ℕ
  pub poll32_events : ℕ
  pub user_data : ℕ

pub record Cqe : Type 0 where
  pub user_data : ℕ
  pub res : ℤ
  pub flags : ℕ

-- `struct KyteUring` with what its pointers point to: 32-bit positions, and slots by index. A mask is
-- the number of entries less one, and that is a power of two, so that `& mask` is `% entries`.
pub record KyteUring : Type 0 where
  pub sq_head : ℕ
  pub sq_tail : ℕ
  pub sq_local_tail : ℕ
  pub sq_entries : ℕ
  pub sq_array : ℕ → ℕ
  pub sqes : ℕ → Sqe
  pub cq_head : ℕ
  pub cq_tail : ℕ
  pub cq_entries : ℕ
  pub cqes : ℕ → Cqe

abbrev pub u32 : ℕ
u32 = 2 ^ 32

abbrev pub u64 : ℕ
u64 = 2 ^ 64

-- `a - b` in unsigned 32-bit arithmetic.
unfoldable pub sub32 : ℕ → ℕ → ℕ
sub32 a b = (a + (u32 - b)) % u32

abbrev pub write {ℓ} : {A : Type ℓ} → (ℕ → A) → ℕ → A → ℕ → A
write f i v x = if x == i then v else f x

-- `poll_add` is the kernel's IORING_OP_POLL_ADD. Arguments are given as the bits of the source's
-- integers.
unfoldable pub make_sqe : ℕ → ℕ → ℤ → ℕ → ℕ → ℕ → ℕ → Sqe
make_sqe poll_add op fd addr len off user_data = record {
  opcode = op % 256;
  fd = fd;
  addr = addr % u64;
  len = len % u32;
  off = (if op == poll_add then 0 else off % u64);
  poll32_events = (if op == poll_add then off % u32 else 0);
  user_data = user_data % u64;
}

-- 0 if the operation is staged, -1 if the submission queue is full.
unfoldable pub prep : KyteUring → Sqe → ℤ × KyteUring
prep r sqe =
    if leb r.sq_entries (sub32 r.sq_local_tail r.sq_head)
    then (negsuc 0, r)
    else (let index = r.sq_local_tail % r.sq_entries in
        (
          pos 0,
          record r {
            sqes = write r.sqes index sqe;
            sq_array = write r.sq_array index index;
            sq_local_tail = (r.sq_local_tail + 1) % u32;
          },
        ))

-- The arguments of a call of `io_uring_enter`.
pub record Enter : Type 0 where
  pub to_submit : ℕ
  pub min_complete : ℕ
  pub getevents : Bool

-- Publishes the staged operations; the call of the kernel, if there is one.
unfoldable pub submit : KyteUring → ℤ → Option Enter × KyteUring
submit r wait_nr =
    let to_submit = sub32 r.sq_local_tail r.sq_tail in
    let published = record r { sq_tail = r.sq_local_tail } in
    let waits = ltb_ℤ (pos 0) wait_nr in
    if (to_submit == 0) && (not waits && not (ltb_ℤ wait_nr (pos 0))) then (none, published) else (
      some (record {
        to_submit = to_submit;
        min_complete = (if waits then pos_part wait_nr else 0);
        getevents = waits;
      }),
      published,
    )

-- A count beyond the ring's size means that too much was consumed; nothing is read then.
unfoldable pub cq_ready : KyteUring → ℕ
cq_ready r = let n = sub32 r.cq_tail r.cq_head in if ltb r.cq_entries n then 0 else n

unfoldable pub peek : KyteUring → ℕ → Cqe
peek r i = r.cqes ((r.cq_head + i) % u32 % r.cq_entries)

unfoldable pub advance : KyteUring → ℤ → KyteUring
advance r n = if ltb_ℤ (pos 0) n then record r { cq_head = (r.cq_head + pos_part n) % u32 } else r

-- `kyte_uring_submit_and_wait_ms`. `kernel` is what the kernel does to the ring in the call that
-- flushes it, `timeout_op` is IORING_OP_TIMEOUT and `ts` the address of the time; the operation's
-- `user_data` is -2.
unfoldable pub timeout_sqe : ℕ → ℕ → ℕ → ℤ → Sqe
timeout_sqe poll_add timeout_op ts wait_nr =
    make_sqe poll_add timeout_op (negsuc 0) ts 1
      (if ltb_ℤ (pos 0) wait_nr then pos_part wait_nr else 1) (u64 - 2)

unfoldable pub stage_or_flush : (KyteUring → KyteUring) → KyteUring → Sqe → KyteUring
stage_or_flush kernel r sqe =
    let (status, staged) = prep r sqe in
    let (call, flushed) = submit r (pos 0) in
    let (again, retried) = prep (kernel flushed) sqe in
    if (pos_part status == 0) && (neg_part status == 0) then staged else retried

unfoldable pub submit_and_wait_ms :
    ℕ → ℕ → ℕ → (KyteUring → KyteUring) → KyteUring → ℤ → ℤ → Option Enter × KyteUring
submit_and_wait_ms poll_add timeout_op ts kernel r wait_nr ms =
    if ltb_ℤ ms (pos 0)
    then submit r wait_nr
    else submit (stage_or_flush kernel r (timeout_sqe poll_add timeout_op ts wait_nr)) wait_nr
