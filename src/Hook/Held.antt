-- ===== src/Hook/Held.antt =====
-- What is told of the parts around `do_io` at a move, and its two places that cancel a timer.
use hpgs.Prelude.Int.{pos, negsuc}
use mathlib.Core.Path.{subst}
use hpgs.FdManager.{no_timeout}
use hpgs.Prelude.{
  ℕ, ◌≡◌, refl, sym, arith, Bool, true, false, Option, none, some, inl, inr, Bool-cases,
  Option-cases, ◌==◌, if◌then◌else◌,
}
use hpgs.IoManager.{Event, IoManager, Caller, CtlOp, Result, done, fault}
use hpgs.IoManager.Operations.{add_event, cancel_event}
use hpgs.Timer.{TimerManager, add_timer, cancel, has_cb}
use hpgs.Hook.{
  Phase, trying, waiting, returned, Io, Move, failed, answer, resume, eagain, cancel_timer, hold,
  block, wake,
}
use hpgs.Hook.Call.{
  calling, asleep, failed_with, seen, Facts, Steps, sleeps, refused, refuse_crashed, sleep_crashed,
  woken, timed_out, wake_crashed, is_late, view, Known,
}

abbrev pub accepted_of : {K : Type 0} → Result (Bool × IoManager K) → Option Bool
accepted_of (fault f) = none
accepted_of (done (b, m)) = some b

abbrev pub succeeds : {K : Type 0} → Result (Bool × IoManager K) → Bool
succeeds (fault f) = false
succeeds (done r) = true

abbrev pub is_found : Option (Bool × TimerManager) → Bool
is_found none = false
is_found (some r) = true

abbrev pub timer_found : Option ℕ → TimerManager → Bool
timer_found none m = true
timer_found (some p) m = is_found (cancel p m)

module _ {K : Type 0} (ctl : CtlOp → ℕ → ℕ → K → Bool × K) (who : Caller) (fd : ℕ) (event : Event)
    (to refusal : ℕ) where
  -- Whether `timer->cancel()` finds the timer of the wait, or the one that is made for it.
  abbrev pub finds_at : Phase → Move K → Io K → Bool
  finds_at (waiting timer) mv io = timer_found timer io.timers
  finds_at ph (answer a now p) io =
      if to == no_timeout
      then true
      else timer_found (some p) (add_timer now p to (some 0) false io.timers).1
  finds_at ph mv io = true

  abbrev pub fires_at : Phase → Io K → Bool
  fires_at (waiting (some p)) io = has_cb (io.timers.heap p)
  fires_at ph io = false

  abbrev pub facts : Phase → Move K → Io K → Facts
  facts ph mv io = record {
    accepted = accepted_of (add_event ctl who (pos fd) event none io.iom);
    cancels = succeeds (cancel_event ctl (pos fd) event io.iom);
    finds = finds_at ph mv io;
    fires = fires_at ph io;
  }

  abbrev pub held_facts : Option Bool → Bool → Bool → Bool → Facts
  held_facts accepted cancels finds fires = record {
    accepted = accepted;
    cancels = cancels;
    finds = finds;
    fires = fires;
  }

  refused-Steps :
      (timer : Option ℕ) (now p : ℕ) (io : Io K) (iom' : IoManager K) (cancels fires : Bool)
      → let io' =
          cancel_timer ctl who fd event to refusal timer io
            (record io { errno = refusal; phase = returned (negsuc 0); iom = iom' }) in
        Steps K refusal
          (held_facts (some false) cancels (timer_found timer io.timers) fires)
          (seen calling (is_late io) io.expired)
          (answer (failed eagain) now p)
          (view io')
        × (io'.cancelled ≡ io.cancelled)
  refused-Steps none now p io iom' cancels fires = (refused now p _ _ refl refl, refl)
  refused-Steps (some q) now p io iom' cancels fires = elim (Option-cases (cancel q io.timers)) [
    | inl lost ↦ rw lost (refuse_crashed now p _ _ refl refl, refl)
    | inr (r, found) ↦ rw found (refused now p _ _ refl refl, refl)
  ]

  hold-Steps :
      (timer : Option ℕ) (now p : ℕ) (io : Io K) (r : Result (Bool × IoManager K))
      (cancels fires : Bool)
      → let io' = hold ctl who fd event to refusal timer io r in
        Steps K refusal
          (held_facts (accepted_of r) cancels (timer_found timer io.timers) fires)
          (seen calling (is_late io) io.expired)
          (answer (failed eagain) now p)
          (view io')
        × (io'.cancelled ≡ io.cancelled)
  hold-Steps timer now p io (fault f) cancels fires = (sleep_crashed now p _ _ refl, refl)
  hold-Steps timer now p io (done (true, iom')) cancels fires = (sleeps now p _ _ refl, refl)
  hold-Steps timer now p io (done (false, iom')) cancels fires =
      refused-Steps timer now p io iom' cancels fires

  -- A call that would block.
  pub block-Steps :
      (now p : ℕ) (io : Io K)
      → let io' = block ctl who fd event to refusal now p io in
        Steps K refusal
          (facts trying (answer (failed eagain) now p) io)
          (seen calling (is_late io) io.expired)
          (answer (failed eagain) now p)
          (view io')
        × (io'.cancelled ≡ io.cancelled)
  block-Steps now p io = elim (Bool-cases (to == no_timeout)) [
    | inl forever ↦ rw forever (
        hold-Steps none now p io (add_event ctl who (pos fd) event none io.iom)
          (succeeds (cancel_event ctl (pos fd) event io.iom)) false)
    | inr timed ↦ rw timed (
        hold-Steps (some p) now p
          (record io { timers = (add_timer now p to (some 0) false io.timers).1 })
          (add_event ctl who (pos fd) event none io.iom)
          (succeeds (cancel_event ctl (pos fd) event io.iom)) false)
  ]

  -- The next place after a wait whose timer is found, by whether the time has run out.
  woken-Steps :
      (io : Io K) (timers' : TimerManager) (accepted : Option Bool) (cancels fires : Bool)
      → Known io
      → let next : Io K =
          if io.cancelled == 0
          then record io { phase = trying }
          else record io { errno = io.cancelled; phase = returned (negsuc 0) } in
        let io' : Io K = record next { timers = timers' } in
        Steps K refusal
          (held_facts accepted cancels true fires)
          (seen asleep (is_late io) io.expired)
          resume
          (view io')
        × Known io'
  woken-Steps io timers' accepted cancels fires k = elim (Bool-cases (io.cancelled == 0)) [
    | inl quiet ↦ rw quiet (rw quiet (woken _ refl, k))
    | inr late ↦ rw late (rw late (run_out late k, k))
  ]
    where
      run_out :
          (io.cancelled == 0) ≡ false
          → Known io
          → Steps K refusal
              (held_facts accepted cancels true fires)
              (seen asleep true io.expired)
              resume
              (seen (failed_with io.cancelled) true io.expired)
      run_out late (inl none_yet) = absurd (ground arith)
      run_out late (inr e) =
          subst
            (λ x.
              Steps K refusal (held_facts accepted cancels true fires) (seen asleep true io.expired)
                resume (seen (failed_with x) true io.expired))
            (sym e) (timed_out _ refl)

  -- The end of a wait.
  pub wake-Steps :
      (timer : Option ℕ) (io : Io K)
      → Known io
      → let io' = wake ctl who fd event to refusal timer io in
        Steps K refusal
          (facts (waiting timer) resume io)
          (seen asleep (is_late io) io.expired)
          resume
          (view io')
        × Known io'
  wake-Steps none io k =
      woken-Steps io io.timers (accepted_of (add_event ctl who (pos fd) event none io.iom))
        (succeeds (cancel_event ctl (pos fd) event io.iom)) false k
  wake-Steps (some p) io k = elim (Option-cases (cancel p io.timers)) [
    | inl lost ↦ rw lost (elim (Bool-cases (io.cancelled == 0)) [
      | inl quiet ↦ rw quiet (wake_crashed _ _ refl, k)
      | inr late ↦ rw late (wake_crashed _ _ refl, k)
    ])
    | inr ((live, timers'), found) ↦ rw found (
        woken-Steps io timers' (accepted_of (add_event ctl who (pos fd) event none io.iom))
          (succeeds (cancel_event ctl (pos fd) event io.iom)) (has_cb (io.timers.heap p)) k)
  ]
