-- ===== src/Hook/Connect/Begun.antt =====
-- The beginning of a hooked `connect`, up to its wait.
use mathlib.Core.Path.{subst}
use hpgs.Prelude.Int.{pos}
use hpgs.FdManager.{FdCtx, no_timeout}
use hpgs.Prelude.{
  ℕ, ◌≡◌, refl, sym, Bool, true, false, Option, none, some, inl, inr, Bool-cases, Option-cases,
  ◌==◌, ==_iff,
}
use hpgs.IoManager.{IoManager, write_event, Caller, CtlOp, Result, done, fault}
use hpgs.IoManager.Operations.{add_event, cancel_event}
use hpgs.Timer.{add_timer, cancel}
use hpgs.Hook.{Answer, got, failed, trying, Io, answer, cancel_timer}
use hpgs.Hook.Call.{calling, asleep, succeeded, failed_with, stuck, Seen, seen, Facts, view}
use hpgs.Hook.Held.{accepted_of, succeeds, timer_found, facts, held_facts}
use hpgs.Hook.Connect.{einprogress, hold_connect, wait_connect, called, begin}

-- What a hooked `connect` on a socket makes of the first answer: its end, or, where the connection is in
-- progress, a wait, or, where `addEvent` refuses, getsockopt at once.
pub data Begins (f : Facts) (d : ℕ) : Answer → Seen → Type 0 where
  at_once : (n : ℕ) → Begins f d (got n) (seen (succeeded n) false d)
  fails :
      (e : ℕ) → (e == einprogress) ≡ false → Begins f d (failed e) (seen (failed_with e) false d)
  waits : f.accepted ≡ some true → Begins f d (failed einprogress) (seen asleep false d)
  goes_on :
      f.accepted ≡ some false
      → f.finds ≡ true
      → Begins f d (failed einprogress) (seen calling false d)
  goes_on_crashed :
      f.accepted ≡ some false
      → f.finds ≡ false
      → Begins f d (failed einprogress) (seen stuck false d)
  wait_crashed : f.accepted ≡ none → Begins f d (failed einprogress) (seen stuck false d)

module _ {K : Type 0} (ctl : CtlOp → ℕ → ℕ → K → Bool × K) (who : Caller)
    (fd timeout_ms refusal : ℕ) where
  abbrev fresh : Io K → Io K
  fresh io = record io { cancelled = 0 }

  abbrev here : Option Bool → Bool → Bool → Facts
  here accepted cancels finds =
      held_facts ctl who fd write_event timeout_ms refusal accepted cancels finds false

  refused-Begins :
      (timer : Option ℕ) (io : Io K) (iom' : IoManager K) (cancels : Bool)
      → Begins
          (here (some false) cancels (timer_found timer io.timers))
          io.expired
          (failed einprogress)
          (view (
            cancel_timer ctl who fd write_event timeout_ms refusal timer
              (fresh io)
              (record (fresh io) { errno = refusal; phase = trying; iom = iom' })))
  refused-Begins none io iom' cancels = goes_on refl refl
  refused-Begins (some q) io iom' cancels = elim (Option-cases (cancel q io.timers)) [
    | inl lost ↦ rw lost (goes_on_crashed refl refl)
    | inr (r, found) ↦ rw found (goes_on refl refl)
  ]

  hold-Begins :
      (timer : Option ℕ) (io : Io K) (r : Result (Bool × IoManager K)) (cancels : Bool)
      → Begins
          (here (accepted_of r) cancels (timer_found timer io.timers))
          io.expired
          (failed einprogress)
          (view (hold_connect ctl who fd timeout_ms refusal timer (fresh io) r))
  hold-Begins timer io (fault f) cancels = wait_crashed refl
  hold-Begins timer io (done (true, iom')) cancels = waits refl
  hold-Begins timer io (done (false, iom')) cancels = refused-Begins timer io iom' cancels

  wait-Begins :
      (now p : ℕ) (io : Io K)
      → Begins
          (facts ctl who fd write_event timeout_ms refusal trying
            (answer (failed einprogress) now p)
            io)
          io.expired
          (failed einprogress)
          (view (wait_connect ctl who fd timeout_ms refusal now p (fresh io)))
  wait-Begins now p io = elim (Bool-cases (timeout_ms == no_timeout)) [
    | inl forever ↦ rw forever (
        hold-Begins none io (add_event ctl who (pos fd) write_event none io.iom)
          (succeeds (cancel_event ctl (pos fd) write_event io.iom)))
    | inr timed ↦ rw timed (
        hold-Begins (some p)
          (record io { timers = (add_timer now p timeout_ms (some 0) false io.timers).1 })
          (add_event ctl who (pos fd) write_event none io.iom)
          (succeeds (cancel_event ctl (pos fd) write_event io.iom)))
  ]

  called-Begins :
      (a : Answer) (now p : ℕ) (io : Io K)
      → Begins
          (facts ctl who fd write_event timeout_ms refusal trying (answer a now p) io)
          io.expired
          a
          (view (called ctl who fd timeout_ms refusal a now p (fresh io)))
  called-Begins (got n) now p io = at_once n
  called-Begins (failed e) now p io = elim (Bool-cases (e == einprogress)) [
    | inl going ↦ rw going (
        subst
          (λ x.
            Begins
              (facts ctl who fd write_event timeout_ms refusal trying (answer (failed x) now p) io)
              io.expired (failed x)
              (view (
                wait_connect ctl who fd timeout_ms refusal now p
                  (record io { cancelled = 0; errno = e }))))
          (sym ((==_iff e einprogress).0 going)) (wait-Begins now p (record io { errno = e })))
    | inr other ↦ rw other (fails e other)
  ]

  pub begin-Begins :
      (c : FdCtx) (a : Answer) (now p : ℕ) (io : Io K)
      → c.is_closed ≡ false
      → c.is_socket ≡ true
      → c.user_nonblock ≡ false
      → Begins
          (facts ctl who fd write_event timeout_ms refusal trying (answer a now p) io)
          io.expired
          a
          (view (begin ctl who fd timeout_ms refusal true (some c) a now p io))
  unfolding begin
  begin-Begins c a now p io open_one socket blocking =
      rw (open_one, socket, blocking) (called-Begins a now p io)
