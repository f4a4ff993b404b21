-- ===== src/Reactor/WhenAny.antt =====
-- concurrency.cpp: `kyte_when_any` waits for the first of several coroutines.
use kyte.Prelude.{
  ℕ, zero, suc, ◌<◌, ◌≡◌, refl, sym, ap, ◌≢◌, ◌⊎◌, inl, inr, Bool, true, false, not, ◌&&◌, Option,
  none, some, List, [], ◌∷◌, ◌++◌, arith, ◌==◌, if◌then◌else◌, Bool-cases, Option-cases, ℤ,
  pos_part, neg_part, ◌+ℤ◌, ◌-ℤ◌, int_laws, get_elem?,
}
use mathlib.Core.Option.{some-injective, none-ne-some}
use kyte.Reactor.{
  Reactor, update, first_done, disarm, enlist, when_any, set_timer, at_least_zero, arm_deadline,
  found, pending, timed_out, is_over, when_any_deadline, cancel_timer,
}

abbrev pub is_ready : (ℕ → Bool) → ℕ → Bool
is_ready done h = not (h == 0) && done h

disarm-never :
    (waiters : ℕ → ℕ) (hs : List ℕ) (self h : ℕ)
    → 0 < self
    → waiters h ≢ self
    → disarm waiters hs self h ≢ self
unfolding disarm
disarm-never waiters [] self h pos_s ne = ne
disarm-never waiters (x ∷ hs) self h pos_s ne =
    disarm-never (if waiters x == self then update waiters x 0 else waiters) hs self h pos_s
      (λ e. ground arith)

disarm-cleared :
    (waiters : ℕ → ℕ) (hs : List ℕ) (self j h : ℕ)
    → 0 < self
    → get_elem? hs j ≡ some h
    → disarm waiters hs self h ≢ self
unfolding disarm
disarm-cleared waiters [] self j h pos_s e = absurd (none-ne-some h e)
disarm-cleared waiters (x ∷ hs) self zero h pos_s e =
    let same = some-injective x h e in
    disarm-never (if waiters x == self then update waiters x 0 else waiters) hs self h pos_s
      (λ found. ground arith)
disarm-cleared waiters (x ∷ hs) self (suc j) h pos_s e =
    disarm-cleared (if waiters x == self then update waiters x 0 else waiters) hs self j h pos_s e

enlist-keeps :
    (waiters : ℕ → ℕ) (hs : List ℕ) (self h : ℕ)
    → waiters h ≡ self
    → enlist waiters hs self h ≡ self
unfolding enlist
enlist-keeps waiters [] self h e = e
enlist-keeps waiters (x ∷ hs) self h e =
    enlist-keeps (if x == 0 then waiters else update waiters x self) hs self h (ground arith)

enlist-registered :
    (waiters : ℕ → ℕ) (hs : List ℕ) (self j h : ℕ)
    → get_elem? hs j ≡ some h
    → 0 < h
    → enlist waiters hs self h ≡ self
unfolding enlist
enlist-registered waiters [] self j h e pos_h = absurd (none-ne-some h e)
enlist-registered waiters (x ∷ hs) self zero h e pos_h =
    let same = some-injective x h e in
    enlist-keeps (if x == 0 then waiters else update waiters x self) hs self h (ground arith)
enlist-registered waiters (x ∷ hs) self (suc j) h e pos_h =
    enlist-registered (if x == 0 then waiters else update waiters x self) hs self j h e pos_h

-- The first that is ready.
pub record IsFirst (done : ℕ → Bool) (hs : List ℕ) (i : ℕ) : Type 0 where
  pub handle : ℕ
  pub at : get_elem? hs i ≡ some handle
  pub ready : is_ready done handle ≡ true
  pub earlier : (j h : ℕ) → j < i → get_elem? hs j ≡ some h → is_ready done h ≡ false

-- No one is ready.
abbrev pub NoneReady : (ℕ → Bool) → List ℕ → Type 0
NoneReady done hs = (j h : ℕ) → get_elem? hs j ≡ some h → is_ready done h ≡ false

first_done-IsFirst :
    (done : ℕ → Bool) (hs : List ℕ)
    → (NoneReady done hs × (first_done done hs ≡ none))
      ⊎ ((i : ℕ) × IsFirst done hs i × (first_done done hs ≡ some i))
unfolding first_done
first_done-IsFirst done [] = inl ((λ j h e. absurd (none-ne-some h e)), refl)
first_done-IsFirst done (x ∷ hs) = elim (Bool-cases (is_ready done x)) [
  | inl here ↦ inr (
    0,
    record { handle = x; at = refl; ready = here; earlier = λ j h lt e. absurd (omega arith) },
    rw here refl,
  )
  | inr not_here ↦ elim (first_done-IsFirst done hs) [
    | inl (nobody, e) ↦ inl (no_more done x hs not_here nobody, rw (not_here, e) refl)
    | inr (i, first, e) ↦ inr (suc i, further done x hs i not_here first, rw (not_here, e) refl)
  ]
]
  where
    no_more :
        (done : ℕ → Bool) (x : ℕ) (hs : List ℕ)
        → is_ready done x ≡ false
        → NoneReady done hs
        → NoneReady done (x ∷ hs)
    no_more done x hs not_here nobody zero h e = rw⁻¹ (some-injective x h e) not_here
    no_more done x hs not_here nobody (suc j) h e = nobody j h e

    before :
        (done : ℕ → Bool) (x : ℕ) (hs : List ℕ) (i : ℕ)
        → is_ready done x ≡ false
        → IsFirst done hs i
        → (j h : ℕ) → j < suc i
        → get_elem? (x ∷ hs) j ≡ some h
        → is_ready done h ≡ false
    before done x hs i not_here first zero h lt e = rw⁻¹ (some-injective x h e) not_here
    before done x hs i not_here first (suc j) h lt e = first.earlier j h (omega arith) e

    further :
        (done : ℕ → Bool) (x : ℕ) (hs : List ℕ) (i : ℕ)
        → is_ready done x ≡ false
        → IsFirst done hs i
        → IsFirst done (x ∷ hs) (suc i)
    further done x hs i not_here first = record {
      handle = first.handle;
      at = first.at;
      ready = first.ready;
      earlier = before done x hs i not_here first;
    }

-- `kyte_when_any` gives the first coroutine of the list that is done, and then `self` waits for none
-- of the list any more; if none is done, `self` is the waiter of every one of them.
pub when_any-IsFirst :
    (r : Reactor) (hs : List ℕ) (self : ℕ)
    → 0 < self
    → let (result, after) = when_any r hs self in
      ((i : ℕ) × (result ≡ some i)
        × IsFirst r.done hs i
        × ((j h : ℕ) → get_elem? hs j ≡ some h → after.waiters h ≢ self))
      ⊎ ((result ≡ none)
          × NoneReady r.done hs
          × ((j h : ℕ) → get_elem? hs j ≡ some h → 0 < h → after.waiters h ≡ self))
unfolding when_any
when_any-IsFirst r hs self pos_s = elim (first_done-IsFirst r.done hs) [
  | inl (nobody, e) ↦
      rw (when_any, e)
        (inr (refl, nobody, λ j h at pos_h. enlist-registered r.waiters hs self j h at pos_h))
  | inr (i, first, e) ↦
      rw (when_any, e)
        (inl (i, refl, first, λ j h at. disarm-cleared r.waiters hs self j h pos_s at))
]

sum_less : (a b : ℤ) → a +ℤ b -ℤ a ≡ b
sum_less a b = omega int_laws

at_least_zero_twice : (a : ℤ) → at_least_zero a ≡ at_least_zero (at_least_zero a)
at_least_zero_twice a = ground arith

not_null : (n : ℕ) → 0 < n → (n == 0) ≡ false
not_null n h = ground arith

-- The second half of `kyte_when_any_deadline`: a deadline is stored, and the timer armed for the time
-- to it.
arm_deadline-armed :
    (r : Reactor) (ms : ℤ) (self : ℕ) (now : ℤ)
    → 0 < self
    → let after = arm_deadline r ms self now in
      (d : ℤ) × (after.deadlines self ≡ some d)
      × (after.armed ≡ r.armed ++ ((self, at_least_zero (d -ℤ now)) ∷ []))
      × (after.waiters ≡ r.waiters)
      × (r.deadlines self ≡ none → d ≡ now +ℤ at_least_zero ms)
      × ((e : ℤ) → r.deadlines self ≡ some e → d ≡ e)
unfolding arm_deadline set_timer
arm_deadline-armed r ms self now pos_s = elim (Option-cases (r.deadlines self)) [
  | inl first ↦
      rw (arm_deadline, first, not_null self pos_s)
        (
          now +ℤ at_least_zero ms,
          stored self (some (now +ℤ at_least_zero ms)),
          ap (λ (t : ℤ). r.armed ++ ((self, t) ∷ [])) (time_left now ms),
          refl,
          λ _. refl,
          λ e again. absurd (none-ne-some e again),
        )
  | inr (d, again) ↦
      rw (arm_deadline, again, not_null self pos_s)
        (
          d,
          again,
          refl,
          refl,
          λ e. absurd (none-ne-some d (sym e)),
          λ e same. some-injective d e same,
        )
]
  where
    stored : (n : ℕ) (v : Option ℤ) → update r.deadlines n v n ≡ v
    stored n v = ground arith

    time_left : (now ms : ℤ) → at_least_zero ms ≡ at_least_zero (now +ℤ at_least_zero ms -ℤ now)
    time_left now ms = rw (sum_less now (at_least_zero ms)) (at_least_zero_twice ms)

-- No coroutine of the list is waited for by `self`.
abbrev pub WaitsForNone : (ℕ → ℕ) → List ℕ → ℕ → Type 0
WaitsForNone waiters hs self = (j h : ℕ) → get_elem? hs j ≡ some h → waiters h ≢ self

cleared : (deadlines : ℕ → Option ℤ) (self : ℕ) → update deadlines self none self ≡ none
cleared deadlines self = ground arith

-- `kyte_when_any_deadline` gives the first coroutine of the list that is done; or it times out, if
-- none is done and the stored deadline has come; in both cases `self` waits for none of the list any
-- more and its deadline goes. Else `self` is the waiter of every one of them, a deadline is stored,
-- which is the one stored before or else `ms` from now, and the timer is armed for the time to it.
pub when_any_deadline-IsFirst :
    (r : Reactor) (hs : List ℕ) (ms : ℤ) (self : ℕ) (now later : ℤ)
    → 0 < self
    → let (result, after) = when_any_deadline r hs ms self now later in
      ((i : ℕ) × (result ≡ found i)
        × IsFirst r.done hs i
        × WaitsForNone after.waiters hs self
        × (after.deadlines self ≡ none))
      ⊎ ((result ≡ timed_out)
          × NoneReady r.done hs
          × (is_over (r.deadlines self) now ≡ true)
          × WaitsForNone after.waiters hs self
          × (after.deadlines self ≡ none))
      ⊎ ((result ≡ pending)
          × NoneReady r.done hs
          × (is_over (r.deadlines self) now ≡ false)
          × ((j h : ℕ) → get_elem? hs j ≡ some h → 0 < h → after.waiters h ≡ self)
          × (d : ℤ) × (after.deadlines self ≡ some d)
          × (after.armed ≡ r.armed ++ ((self, at_least_zero (d -ℤ later)) ∷ []))
          × (r.deadlines self ≡ none → d ≡ later +ℤ at_least_zero ms)
          × ((e : ℤ) → r.deadlines self ≡ some e → d ≡ e))
unfolding when_any_deadline cancel_timer
when_any_deadline-IsFirst r hs ms self now later pos_s = elim (first_done-IsFirst r.done hs) [
  | inr (i, first, e) ↦
      elim (Bool-cases ((pos_part r.current_kq == 0) && (neg_part r.current_kq == 0))) [
        | inl no_reactor ↦
            rw (when_any_deadline, e, no_reactor)
              (inl (i, refl, first, gone, cleared r.deadlines self))
        | inr on_reactor ↦
            rw (when_any_deadline, e, on_reactor, not_null self pos_s)
              (inl (i, refl, first, gone, cleared r.deadlines self))
      ]
  | inl (nobody, e) ↦ elim (Bool-cases (is_over (r.deadlines self) now)) [
    | inl over ↦
        rw (when_any_deadline, e, over)
          (inr (inl (refl, nobody, refl, gone, cleared r.deadlines self)))
    | inr early ↦
        let (d, stored, armed, same, first, again) =
          arm_deadline-armed (record r { waiters = enlist r.waiters hs self }) ms self later
            pos_s in
        rw (when_any_deadline, e, early)
          (inr (
            inr (
              refl,
              nobody,
              refl,
              rw same (λ j h at pos_h. enlist-registered r.waiters hs self j h at pos_h),
              d,
              stored,
              armed,
              first,
              again,
            )))
  ]
]
  where
    gone : WaitsForNone (disarm r.waiters hs self) hs self
    gone j h at = disarm-cleared r.waiters hs self j h pos_s at
