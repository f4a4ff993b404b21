-- ===== src/Uring/Timed.antt =====
-- uring.cpp: `kyte_uring_submit_and_wait_ms` waits with a time limit.
use kyte.Prelude.{
  ℕ, ◌+◌, ◌%◌, ◌≤◌, ◌<◌, ◌≡◌, refl, ◌∙◌, false, some, List, [], ◌∷◌, ◌++◌, arith, ◌==◌,
  if◌then◌else◌, ℤ, pos, negsuc, pos_part, ltb_ℤ, length, drop,
}
use kyte.Prelude.{length-drop}
use kyte.Uring.{
  Sqe, Enter, KyteUring, u32, prep, submit, timeout_sqe, stage_or_flush, submit_and_wait_ms,
}
use kyte.Uring.Submit.{IsStaged, prep-IsStaged, submit-IsStaged, consume-IsStaged}

-- What the kernel does in a call: it takes `k` published operations.
abbrev pub take_published : ℕ → KyteUring → KyteUring
take_published k r = record r { sq_head = (r.sq_head + k) % u32 }

-- The call that waits: one more operation than the fresh ones, if that is not the only one to come.
abbrev pub waiting_call : ℕ → ℤ → Enter
waiting_call fresh wait_nr = record {
  to_submit = fresh;
  min_complete = (if ltb_ℤ (pos 0) wait_nr then pos_part wait_nr else 0);
  getevents = ltb_ℤ (pos 0) wait_nr;
}

waiting_call-IsStaged :
    (r : KyteUring) (start fresh : ℕ) (q : List Sqe) (wait_nr : ℤ)
    → IsStaged r start q (fresh + 1)
    → IsStaged (submit r wait_nr).1 start q 0
      × ((submit r wait_nr).0 ≡ some (waiting_call (fresh + 1) wait_nr))
waiting_call-IsStaged r start fresh q wait_nr h =
    let (staged, call) = submit-IsStaged r start (fresh + 1) q wait_nr h in
    (staged, call ∙ rw (some_fresh fresh) refl)
  where
    some_fresh : (n : ℕ) → (n + 1 == 0) ≡ false
    some_fresh n = ground arith

submit-entries : (r : KyteUring) (w : ℤ) → (submit r w).1.sq_entries ≡ r.sq_entries
unfolding submit
submit-entries r w = ground arith

module _ (kernel : KyteUring → KyteUring) (r : KyteUring) (x : Sqe) where
  staged_at_once : (prep r x).0 ≡ pos 0 → stage_or_flush kernel r x ≡ (prep r x).1
  unfolding stage_or_flush
  staged_at_once e = rw e refl

  staged_after_flush :
      prep r x ≡ (negsuc 0, r)
      → stage_or_flush kernel r x ≡ (prep (kernel (submit r (pos 0)).1) x).1
  unfolding stage_or_flush
  staged_after_flush e = rw e refl

timed :
    (poll_add timeout_op ts : ℕ) (kernel : KyteUring → KyteUring) (r : KyteUring) (wait_nr : ℤ)
    (ms : ℕ)
    → submit_and_wait_ms poll_add timeout_op ts kernel r wait_nr (pos ms)
      ≡ submit (stage_or_flush kernel r (timeout_sqe poll_add timeout_op ts wait_nr)) wait_nr
unfolding submit_and_wait_ms
timed poll_add timeout_op ts kernel r wait_nr ms = rw (not_negative ms) refl
  where
    not_negative : (n : ℕ) → ltb_ℤ (pos n) (pos 0) ≡ false
    not_negative n = ground arith

-- A wait with a time limit stages a timeout behind the other operations and publishes all of them:
-- at once if the ring has room, and after a flush if it is full and the kernel takes something in
-- that call. The kernel is then asked to take the timeout with the operations not yet published.
pub submit_and_wait_ms-IsStaged :
    (poll_add timeout_op ts k start fresh : ℕ) (r : KyteUring) (q : List Sqe) (wait_nr : ℤ) (ms : ℕ)
    → IsStaged r start q fresh
    → 0 < k
    → k ≤ length q
    → let x = timeout_sqe poll_add timeout_op ts wait_nr in
      let (call, after) =
        submit_and_wait_ms poll_add timeout_op ts (take_published k) r wait_nr (pos ms) in
      (length q < r.sq_entries
        → IsStaged after start (q ++ (x ∷ [])) 0 × (call ≡ some (waiting_call (fresh + 1) wait_nr)))
      × (length q ≡ r.sq_entries
          → IsStaged after (start + k) (drop k q ++ (x ∷ [])) 0
            × (call ≡ some (waiting_call 1 wait_nr)))
submit_and_wait_ms-IsStaged poll_add timeout_op ts k start fresh r q wait_nr ms h pos_k le =
    rw (timed poll_add timeout_op ts (take_published k) r wait_nr ms) (room, full)
  where
    x : Sqe
    x = timeout_sqe poll_add timeout_op ts wait_nr

    ready : KyteUring
    ready = stage_or_flush (take_published k) r x

    room :
        length q < r.sq_entries
        → IsStaged (submit ready wait_nr).1 start (q ++ (x ∷ [])) 0
          × ((submit ready wait_nr).0 ≡ some (waiting_call (fresh + 1) wait_nr))
    room lt =
        let (status, staged) = (prep-IsStaged r start fresh q x h).0 lt in
        rw (staged_at_once (take_published k) r x status)
          (waiting_call-IsStaged (prep r x).1 start fresh (q ++ (x ∷ [])) wait_nr staged)

    full :
        length q ≡ r.sq_entries
        → IsStaged (submit ready wait_nr).1 (start + k) (drop k q ++ (x ∷ [])) 0
          × ((submit ready wait_nr).0 ≡ some (waiting_call 1 wait_nr))
    full e =
        let flushed = (submit r (pos 0)).1 in
        let taken = take_published k flushed in
        let h1 = (submit-IsStaged r start fresh q (pos 0) h).0 in
        let h2 = consume-IsStaged flushed start 0 k q h1 (omega arith) in
        let same = submit-entries r (pos 0) in
        let (status, staged) =
          (prep-IsStaged taken (start + k) 0 (drop k q) x h2).0 (omega (arith, length-drop k q)) in
        rw (staged_after_flush (take_published k) r x ((prep-IsStaged r start fresh q x h).1 e)) (
          waiting_call-IsStaged (prep taken x).1 (start + k) 0 (drop k q ++ (x ∷ [])) wait_nr
            staged)
