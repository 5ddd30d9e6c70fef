-- ===== src/Hook/Blocking.antt =====
-- The moves of `do_io`, against those of a blocking call in Hook/Call.antt.
use hpgs.Prelude.Int.{pos, negsuc}
use mathlib.Core.Path.{subst}
use hpgs.Prelude.{
  ℕ, zero, suc, ◌-◌, ◌≡◌, refl, sym, arith, Bool, true, false, Option, none, some, ◌⊎◌, inl, inr,
  Bool-cases, ==_iff, ◌==◌, if◌then◌else◌,
}
use hpgs.IoManager.{Event, IoManager, Caller, CtlOp, Result, done, fault}
use hpgs.IoManager.Operations.{cancel_event}
use hpgs.Timer.{has_cb}
use hpgs.Hook.{
  Answer, got, failed, Phase, through, trying, waiting, returned, crashed, Io, Move, answer, expire,
  callback, resume, meanwhile, eintr, eagain, etimedout, block, attempt, expire_timer, after_cancel,
  time_out, run_callback, move_in, move,
}
use hpgs.Hook.Call.{
  Call, passing, calling, asleep, succeeded, failed_with, stuck, call_of, seen, is_active, stays,
  Steps, passed, passed_error, finished, interrupted, finished_error, expired, not_expired,
  out_of_time, cancel_crashed, late_already, over, none_due, stayed, is_late, view, Known,
}
use hpgs.Hook.Held.{succeeds, facts, held_facts, block-Steps, wake-Steps}

module _ {K : Type 0} (ctl : CtlOp → ℕ → ℕ → K → Bool × K) (who : Caller) (fd : ℕ) (event : Event)
    (to refusal : ℕ) where
  -- What a move makes of a state, if it is one of those of a blocking call.
  abbrev pub Simulates : Io K → Move K → Io K → Type 0
  Simulates io mv io' =
      Steps K refusal (facts ctl who fd event to refusal io.phase mv io) (view io) mv (view io')
      × Known io'

  -- The state at another place.
  abbrev pub in_phase : Phase → Io K → Io K
  in_phase ph io = record io { phase = ph }

  attempt-Simulates :
      (a : Answer) (now p : ℕ) (io : Io K)
      → Known io
      → Simulates
          (in_phase trying io)
          (answer a now p)
          (attempt ctl who fd event to refusal a now p (in_phase trying io))
  attempt-Simulates (got n) now p io k = (finished n now p _ _, k)
  attempt-Simulates (failed e) now p io k = elim (Bool-cases (e == eintr)) [
    | inl i ↦ rw i (
      subst
          (λ x.
            Steps K refusal (facts ctl who fd event to refusal trying (answer (failed x) now p) io)
              (seen calling (is_late io) io.expired) (answer (failed x) now p)
              (seen calling (is_late io) io.expired))
          (sym ((==_iff e eintr).0 i)) (interrupted now p _ _),
      k,
    )
    | inr ni ↦ rw ni (elim (Bool-cases (e == eagain)) [
      | inl again ↦ rw again (
          let said : Io K = record io { errno = e; phase = trying } in
          let (v, c) = block-Steps ctl who fd event to refusal now p said in
          (
            subst
                (λ x.
                  Steps K refusal
                    (facts ctl who fd event to refusal trying (answer (failed x) now p) said)
                    (seen calling (is_late io) io.expired) (answer (failed x) now p)
                    (view (block ctl who fd event to refusal now p said)))
                (sym ((==_iff e eagain).0 again)) v,
            subst (λ x. (x ≡ 0) ⊎ (x ≡ etimedout)) (sym c) k,
          ))
      | inr other ↦ rw other (finished_error e now p _ _ ni other, k)
    ])
  ]

  -- The callback where it acts.
  after_cancel-Steps :
      (io : Io K) (d : ℕ) (c : Call) (r : Result (Bool × IoManager K)) (accepted : Option Bool)
      (finds fires : Bool)
      → is_active c ≡ true
      → c ≡ call_of io.phase io.errno
      → let io' =
          after_cancel ctl who fd event to refusal
            (record io { cancelled = etimedout; expired = d })
            r in
        Steps K refusal
          (held_facts ctl who fd event to refusal accepted (succeeds r) finds fires)
          (seen c false (suc d))
          callback
          (view io')
        × Known io'
  after_cancel-Steps io d c (fault f) accepted finds fires on e =
      (cancel_crashed c d on refl, inr refl)
  after_cancel-Steps io d c (done (b, iom')) accepted finds fires on e = (
    subst
        (λ x.
          Steps K refusal (held_facts ctl who fd event to refusal accepted true finds fires)
            (seen c false (suc d)) callback (seen x true d))
        e (out_of_time c d on refl),
    inr refl,
  )

  time_out-Steps :
      (io : Io K) (d : ℕ) (c : Call) (accepted : Option Bool) (finds fires : Bool)
      → Known io
      → is_active c ≡ true
      → c ≡ call_of io.phase io.errno
      → let io' = time_out ctl who fd event to refusal (record io { expired = d }) in
        Steps K refusal
          (held_facts ctl who fd event to refusal accepted
            (succeeds (cancel_event ctl (pos fd) event io.iom))
            finds
            fires)
          (seen c (is_late io) (suc d))
          callback
          (view io')
        × Known io'
  time_out-Steps io d c accepted finds fires k on e = elim (Bool-cases (io.cancelled == 0)) [
    | inl first ↦ rw first (
        after_cancel-Steps io d c (cancel_event ctl (pos fd) event io.iom) accepted finds fires on
          e)
    | inr again ↦ rw again (
        rw again (
          subst
              (λ x.
                Steps K refusal
                  (held_facts ctl who fd event to refusal accepted
                    (succeeds (cancel_event ctl (pos fd) event io.iom)) finds fires)
                  (seen c true (suc d)) callback (seen x true d))
              e (late_already c d on),
          k,
        ))
  ]

  run_callback-Steps :
      (ph : Phase) (io : Io K) (d : ℕ)
      → Known io
      → let io' =
          run_callback ctl who fd event to refusal ph (record io { phase = ph; expired = d }) in
        Steps K refusal
          (facts ctl who fd event to refusal ph callback io)
          (seen (call_of ph io.errno) (is_late io) (suc d))
          callback
          (view io')
        × Known io'
  run_callback-Steps through io d k = (over passing _ d refl, k)
  run_callback-Steps trying io d k = time_out-Steps (in_phase trying io) d calling _ _ _ k refl refl
  run_callback-Steps (waiting timer) io d k =
      time_out-Steps (in_phase (waiting timer) io) d asleep _ _ _ k refl refl
  run_callback-Steps (returned (pos n)) io d k = (over (succeeded n) _ d refl, k)
  run_callback-Steps (returned (negsuc n)) io d k = (over (failed_with io.errno) _ d refl, k)
  run_callback-Steps crashed io d k = (over stuck _ d refl, k)

  callback-Steps :
      (ph : Phase) (io : Io K) (due : ℕ)
      → Known io
      → let io' =
          if due == 0
          then record io { phase = ph; expired = due }
          else run_callback ctl who fd event to refusal ph
              (record io { phase = ph; expired = due - 1 }) in
        Steps K refusal
          (facts ctl who fd event to refusal ph callback io)
          (seen (call_of ph io.errno) (is_late io) due)
          callback
          (view io')
        × Known io'
  callback-Steps ph io zero k = (none_due (call_of ph io.errno) _, k)
  callback-Steps ph io (suc d) k = rw (some_due, less) (run_callback-Steps ph io d k)
    where
      some_due : (suc d == 0) ≡ false
      some_due = ground arith

      less : suc d - 1 ≡ d
      less = omega arith

  expire-Steps :
      (p : ℕ) (io : Io K)
      → Known io
      → Simulates
          (in_phase (waiting (some p)) io)
          expire
          (expire_timer ctl who fd event to refusal p (in_phase (waiting (some p)) io))
  expire-Steps p io k = elim (Bool-cases (has_cb (io.timers.heap p))) [
    | inl live ↦ rw live (expired _ _ refl, k)
    | inr dead ↦ rw dead (not_expired _ _ refl, k)
  ]

  pub move_in-Simulates :
      (ph : Phase) (mv : Move K) (io : Io K)
      → Known io
      → Simulates (in_phase ph io) mv (move_in ctl who fd event to refusal ph mv (in_phase ph io))
  move_in-Simulates through (answer (got n) now p) io k = (passed n now p _ _, k)
  move_in-Simulates through (answer (failed x) now p) io k = (passed_error x now p _ _, k)
  move_in-Simulates trying (answer a now p) io k = attempt-Simulates a now p io k
  move_in-Simulates (waiting (some p)) expire io k = expire-Steps p io k
  move_in-Simulates (waiting none) expire io k = (not_expired _ _ refl, k)
  move_in-Simulates (waiting none) resume io k =
      wake-Steps ctl who fd event to refusal none (in_phase (waiting none) io) k
  move_in-Simulates (waiting (some p)) resume io k =
      wake-Steps ctl who fd event to refusal (some p) (in_phase (waiting (some p)) io) k
  move_in-Simulates ph callback io k = callback-Steps ph io io.expired k
  move_in-Simulates ph (meanwhile m) io k = (stayed _ _ _ _ (unmoved ph io.errno), k)
    where
      unmoved : (ph : Phase) (errno : ℕ) → stays (call_of ph errno) (meanwhile m) ≡ true
      unmoved through errno = refl
      unmoved trying errno = refl
      unmoved (waiting timer) errno = refl
      unmoved (returned (pos n)) errno = refl
      unmoved (returned (negsuc n)) errno = refl
      unmoved crashed errno = refl
  move_in-Simulates (returned (pos n)) mv io k = (stayed _ _ _ mv refl, k)
  move_in-Simulates (returned (negsuc n)) mv io k = (stayed _ _ _ mv refl, k)
  move_in-Simulates ph mv io k = (stayed _ _ _ mv refl, k)

  -- Each move of the machine is one of a blocking call with a time-out: it is interrupted; where the call
  -- would block it sleeps if `addEvent` accepts the event, and ends with what a refusal left; it wakes to
  -- try again, or to fail with ETIMEDOUT where its time has run out, which the callback of an expired timer
  -- makes so, once; it ends with what the call answers, and no move changes an end. It crashes just where
  -- `addEvent` or `cancelEvent` fails an assertion, or `cancel` does not find the timer in the set.
  pub move-Simulates :
      (mv : Move K) (io : Io K)
      → Known io
      → Simulates io mv (move ctl who fd event to refusal mv io)
  unfolding move
  move-Simulates mv io k = move_in-Simulates io.phase mv io k
