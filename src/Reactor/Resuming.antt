-- ===== src/Reactor/Resuming.antt =====
-- concurrency.cpp: `kyte_reactor_resume` and `reactor_pump`, as the sequence of what they and the
-- coroutines call.
use kyte.Prelude.{
  ℕ, zero, suc, ◌≡◌, refl, sym, ap, ◌∙◌, inl, inr, Bool, true, ◌||◌, List, [], ◌∷◌, ◌++◌, arith,
  ◌==◌, if◌then◌else◌, Bool-cases,
}
use mathlib.Core.Path.{fun_ext}
use kyte.Reactor.{Reactor, update, finish, resume_one, pump, reactor_resume}
use kyte.Reactor.Awaiting.{Call, completed, taken, entered, complete, call, calls}

-- What the compiled code of a coroutine calls up to its next suspension, and whether it ends there.
abbrev Code : Type 0
Code = Reactor → ℕ → List Call × Bool

run_code : Code → Reactor → ℕ → Reactor
run_code code r h =
    let (cs, ends) = code r h in
    let r1 = calls r cs in if ends then record r1 { done = update r1.done h true } else r1

calls-append : (r : Reactor) (cs ds : List Call) → calls r (cs ++ ds) ≡ calls (calls r cs) ds
unfolding calls
calls-append r [] ds = refl
calls-append r (c ∷ cs) ds = calls-append (call r c) cs ds

updated_self : (done : ℕ → Bool) (h : ℕ) → update done h true h ≡ true
updated_self done h = ground arith

updated_same : (done : ℕ → Bool) (h : ℕ) → done h ≡ true → (x : ℕ) → update done h true x ≡ done x
updated_same done h e x = ground (arith, e)

complete-done : (r : Reactor) (h : ℕ) → r.done h ≡ true → complete r h ≡ finish r h
unfolding complete
complete-done r h e =
    ap (λ (d : ℕ → Bool). finish (record r { done = d }) h) (fun_ext (updated_same r.done h e))

-- The calls of a resumption.
abbrev AreCalls : Reactor → Reactor → Type 0
AreCalls r after = (cs : List Call) × (after ≡ calls r cs)

resume_one-calls : (code : Code) (r : Reactor) (h : ℕ) → AreCalls r (resume_one (run_code code) r h)
unfolding resume_one run_code calls call complete
resume_one-calls code r h =
    let cs = (code r h).0 in
    let r1 = calls r cs in
    elim (Bool-cases (code r h).1) [
      | inl ends ↦ (
        cs ++ (completed h ∷ []),
        rw (ends, updated_self r1.done h) (sym (calls-append r cs (completed h ∷ []))),
      )
      | inr suspends ↦ elim (Bool-cases (r1.done h)) [
        | inl over ↦ (
          cs ++ (completed h ∷ []),
          rw (suspends, over)
              (sym (complete-done r1 h over) ∙ sym (calls-append r cs (completed h ∷ []))),
        )
        | inr goes_on ↦ (cs, rw (suspends, goes_on) refl)
      ]
    ]

AreCalls-trans : (r r1 r2 : Reactor) → AreCalls r r1 → AreCalls r1 r2 → AreCalls r r2
AreCalls-trans r r1 r2 (cs, e) (ds, f) =
    (cs ++ ds, f ∙ ap (λ (x : Reactor). calls x ds) e ∙ sym (calls-append r cs ds))

taken-AreCalls :
    (r : Reactor) (h : ℕ) (rest : List ℕ)
    → AreCalls (record r { rq = h ∷ rest }) (record r { rq = rest })
unfolding calls call
taken-AreCalls r h rest = (taken ∷ [], refl)

pump-calls : (code : Code) (fuel : ℕ) (r : Reactor) → AreCalls r (pump (run_code code) fuel r)
unfolding pump calls
pump-calls code zero r = ([], refl)
pump-calls code (suc fuel) r = go r.rq (λ s. pump-calls code fuel s)
  where
    go :
        (q : List ℕ)
        → ((s : Reactor) → AreCalls s (pump (run_code code) fuel s))
        → AreCalls (record r { rq = q }) (pump (run_code code) (suc fuel) (record r { rq = q }))
    go [] later = ([], refl)
    go (h ∷ rest) later =
        let popped = record r { rq = rest } in
        let first = taken-AreCalls r h rest in
        elim (Bool-cases (r.done h)) [
          | inl over ↦ rw over (AreCalls-trans _ popped _ first (later popped))
          | inr goes_on ↦
              let resumed = resume_one (run_code code) popped h in
              rw goes_on (
                AreCalls-trans _ popped _ first (
                  AreCalls-trans popped resumed _ (resume_one-calls code popped h) (later resumed)))
        ]

entered-AreCalls :
    (r : Reactor)
    → AreCalls r (if r.rq_made then r else record r { rq_made = true; reactor_mode = true })
unfolding calls call
entered-AreCalls r = (entered ∷ [], refl)

-- What `kyte_reactor_resume` does, with the run queue that it drains, is a sequence of calls.
reactor_resume-calls :
    (code : Code) (fuel : ℕ) (r : Reactor) (h : ℕ)
    → (cs : List Call) × ((reactor_resume (run_code code) fuel r h).1 ≡ calls r cs)
unfolding reactor_resume
reactor_resume-calls code fuel r h =
    let ready = if r.rq_made then r else record r { rq_made = true; reactor_mode = true } in
    let resumed = resume_one (run_code code) ready h in
    let first = entered-AreCalls r in
    elim (Bool-cases (ready.batch_reaped h)) [
      | inl reaped ↦ rw reaped first
      | inr kept ↦ elim (Bool-cases ((h == 0) || ready.done h)) [
        | inl over ↦ rw (kept, over) first
        | inr goes_on ↦
            rw (kept, goes_on)
              (AreCalls-trans r ready _ first (
                AreCalls-trans ready resumed _ (resume_one-calls code ready h)
                  (pump-calls code fuel resumed)))
      ]
    ]
