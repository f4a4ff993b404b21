-- ===== src/Reactor/Tests.antt =====
-- Instances of the theorems on the reactor at a concrete state.
use kyte.Prelude.{
  ℕ, ◌<◌, ◌≡◌, ◌⊎◌, true, false, none, some, List, [], ◌∷◌, ◌++◌, arith, ◌==◌, if◌then◌else◌, ℤ,
  pos, ◌+ℤ◌, ◌-ℤ◌, get_elem?,
}
use kyte.Reactor.{Reactor, when_any_deadline, found, pending, timed_out, is_over, at_least_zero}
use kyte.Reactor.Awaiting.{
  Call, entered, held_arg, awaited_any, scheduled, completed, timer_set, awaited_until,
  timer_cancelled, taken,
}
use kyte.Reactor.WhenAny.{IsFirst, NoneReady, WaitsForNone, when_any_deadline-IsFirst}

-- Coroutine 100 is done, 300 is detached, and a deadline is watched.
abbrev reactor : Reactor
reactor = record {
  rq = 500 ∷ [];
  reactor_mode = true;
  rq_made = true;
  waiters = λ h. 0;
  held = λ h. (4096, 7) ∷ [];
  detached = λ h. h == 300;
  batch_reaped = λ h. false;
  deadline_active = true;
  deadlines = λ h. if h == 400 then some (pos 1000) else none;
  current_kq = pos 3;
  done = λ h. h == 100;
  released = [];
  destroyed = [];
  armed = [];
  cancelled = [];
}

abbrev between : List Call
between =
    held_arg 200 8192 7
    ∷ awaited_any (100 ∷ 600 ∷ []) 400
    ∷ scheduled 500
    ∷ timer_set 400 (pos 20)
    ∷ completed 300
    ∷ awaited_until (100 ∷ 700 ∷ []) (pos 20) 400 (pos 990) (pos 991)
    ∷ timer_cancelled 400
    ∷ taken
    ∷ entered
    ∷ []

abbrev one_done : List ℕ
one_done = 200 ∷ 100 ∷ []

abbrev none_done : List ℕ
none_done = 200 ∷ []

when_any_deadline-IsFirst_example :
    (let hs = none_done in
      let (result, after) = when_any_deadline reactor hs (pos 20) 400 (pos 990) (pos 991) in
      ((i : ℕ) × (result ≡ found i)
        × IsFirst reactor.done hs i
        × WaitsForNone after.waiters hs 400
        × (after.deadlines 400 ≡ none))
      ⊎ ((result ≡ timed_out)
          × NoneReady reactor.done hs
          × (is_over (reactor.deadlines 400) (pos 990) ≡ true)
          × WaitsForNone after.waiters hs 400
          × (after.deadlines 400 ≡ none))
      ⊎ ((result ≡ pending)
          × NoneReady reactor.done hs
          × (is_over (reactor.deadlines 400) (pos 990) ≡ false)
          × ((j h : ℕ) → get_elem? hs j ≡ some h → 0 < h → after.waiters h ≡ 400)
          × (d : ℤ) × (after.deadlines 400 ≡ some d)
          × (after.armed ≡ reactor.armed ++ ((400, at_least_zero (d -ℤ pos 991)) ∷ []))
          × (reactor.deadlines 400 ≡ none → d ≡ pos 991 +ℤ at_least_zero (pos 20))
          × ((e : ℤ) → reactor.deadlines 400 ≡ some e → d ≡ e)))
when_any_deadline-IsFirst_example =
    when_any_deadline-IsFirst reactor none_done (pos 20) 400 (pos 990) (pos 991) (omega arith)

-- A coroutine that does nothing when it is resumed.
abbrev suspends : Reactor → ℕ → Reactor
suspends r h = r
