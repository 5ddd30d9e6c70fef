-- ===== src/Hook.antt =====
-- src/util/hook.cc: `do_io` as a machine. The call that it wraps, the clock, the loop that takes expired
-- timers and the scheduler act on it by moves, in any order: an answer of the call, the expiry of the
-- timer, the run of its callback, and the resumption of the fibre. Between two moves no lock is held.
-- `tinfo` lives until `do_io` returns, over all its retries. `to` is the time-out, and `refusal` what errno
-- is after `addEvent` has failed.
pub mod Call
pub mod Held
pub mod Blocking
pub mod Waiting
pub mod Flags
pub mod Sleep
pub mod Close
pub mod Connect
mod Tests
use hpgs.Prelude.Int.{ℤ, pos, negsuc}
use hpgs.Prelude.{
  ℕ, zero, suc, ◌+◌, ◌-◌, Bool, true, false, not, ◌&&◌, ◌||◌, List, [], ◌∷◌, Option, none, some,
  ◌==◌, if◌then◌else◌,
}
use hpgs.FdManager.{FdCtx, no_timeout}
use hpgs.IoManager.{Event, IoManager, Caller, CtlOp, Result, done, fault}
use hpgs.IoManager.Operations.{add_event, cancel_event}
use hpgs.Timer.{TimerManager, update, has_cb, erase, add_timer, cancel}

abbrev pub eintr : ℕ
eintr = 4

abbrev pub ebadf : ℕ
ebadf = 9

abbrev pub eagain : ℕ
eagain = 11

abbrev pub etimedout : ℕ
etimedout = 110

-- What `fun` answers: a count, or -1 with `errno`.
pub data Answer : Type 0 where
  got : ℕ → Answer
  failed : ℕ → Answer

-- Where `do_io` is: at a call that is passed through, in the loop, held with its timer, or at its end.
-- `crashed` is a failing assertion or an access out of range.
pub data Phase : Type 0 where
  through : Phase
  trying : Phase
  waiting : Option ℕ → Phase
  returned : ℤ → Phase
  crashed : Phase

-- `expired` is how many callbacks of the timers of this call have been taken and not yet run.
pub record Io (K : Type 0) : Type 0 where
  pub phase : Phase
  pub cancelled : ℕ
  pub errno : ℕ
  pub expired : ℕ
  pub iom : IoManager K
  pub timers : TimerManager

-- A move; an answer comes with the time of the clock and the address of a timer to be made. With
-- `meanwhile` other fibres and threads have changed the state of the IOManager.
pub data Move (K : Type 0) : Type 0 where
  answer : Answer → ℕ → ℕ → Move K
  expire : Move K
  callback : Move K
  resume : Move K
  meanwhile : IoManager K → Move K

module _ {K : Type 0} (ctl : CtlOp → ℕ → ℕ → K → Bool × K) (who : Caller) (fd : ℕ) (event : Event)
    (to refusal : ℕ) where
  -- The guards of `do_io`.
  abbrev pub enter_with : Option FdCtx → Io K → Io K
  enter_with none io = record io { phase = through }
  enter_with (some c) io =
      if c.is_closed
      then record io { errno = ebadf; phase = returned (negsuc 0) }
      else if not c.is_socket || c.user_nonblock
      then record io { phase = through }
      else record io { phase = trying; cancelled = 0 }

  unfoldable pub enter : Bool → Option FdCtx → Io K → Io K
  enter hook_enable ctx io =
      if not hook_enable then record io { phase = through } else enter_with ctx io

  -- `timer->cancel()`, where there is one.
  abbrev pub cancelled_to : Io K → Option (Bool × TimerManager) → Io K → Io K
  cancelled_to io none next = record io { phase = crashed }
  cancelled_to io (some (live, timers')) next = record next { timers = timers' }

  abbrev pub cancel_timer : Option ℕ → Io K → Io K → Io K
  cancel_timer none io next = next
  cancel_timer (some p) io next = cancelled_to io (cancel p io.timers) next

  -- Behind `addEvent`.
  abbrev pub hold : Option ℕ → Io K → Result (Bool × IoManager K) → Io K
  hold timer io (fault f) = record io { phase = crashed }
  hold timer io (done (true, iom')) = record io { phase = waiting timer; iom = iom' }
  hold timer io (done (false, iom')) =
      cancel_timer timer io (record io { errno = refusal; phase = returned (negsuc 0); iom = iom' })

  abbrev pub add_and_hold : Option ℕ → Io K → Io K
  add_and_hold timer io = hold timer io (add_event ctl who (pos fd) event none io.iom)

  -- At EAGAIN: a timer, unless there is no time-out, and the event.
  abbrev pub block : ℕ → ℕ → Io K → Io K
  block now p io =
      if to == no_timeout
      then add_and_hold none io
      else add_and_hold (some p)
          (record io { timers = (add_timer now p to (some 0) false io.timers).1 })

  -- One turn of `retry`.
  abbrev pub attempt : Answer → ℕ → ℕ → Io K → Io K
  attempt (got n) now p io = record io { phase = returned (pos n) }
  attempt (failed e) now p io =
      let said = record io { errno = e } in
      if e == eintr
      then said
      else if e == eagain
      then block now p said
      else record said { phase = returned (negsuc 0) }

  abbrev pub pass : Answer → Io K → Io K
  pass (got n) io = record io { phase = returned (pos n) }
  pass (failed e) io = record io { errno = e; phase = returned (negsuc 0) }

  -- `listExpiredCb` takes the timer of the wait out of the set.
  abbrev pub expire_timer : ℕ → Io K → Io K
  expire_timer p io =
      let m = io.timers in
      if has_cb (m.heap p)
      then record io {
        expired = suc io.expired;
        timers = record m {
          heap = update m.heap p (record (m.heap p) { cb = none });
          timers = erase p m.timers;
        };
      }
      else io

  abbrev pub after_cancel : Io K → Result (Bool × IoManager K) → Io K
  after_cancel io (fault f) = record io { phase = crashed }
  after_cancel io (done (b, iom')) = record io { iom = iom' }

  -- The body of the callback, while `tinfo` lives.
  abbrev pub time_out : Io K → Io K
  time_out io =
      if io.cancelled == 0
      then after_cancel (record io { cancelled = etimedout })
          (cancel_event ctl (pos fd) event io.iom)
      else io

  abbrev pub run_callback : Phase → Io K → Io K
  run_callback trying io = time_out io
  run_callback (waiting timer) io = time_out io
  run_callback other io = io

  -- Behind `YieldToHold`.
  abbrev pub wake : Option ℕ → Io K → Io K
  wake timer io = cancel_timer timer io (
      if io.cancelled == 0
      then record io { phase = trying }
      else record io { errno = io.cancelled; phase = returned (negsuc 0) })

  abbrev pub move_in : Phase → Move K → Io K → Io K
  move_in through (answer a now p) io = pass a io
  move_in trying (answer a now p) io = attempt a now p io
  move_in (waiting (some p)) expire io = expire_timer p io
  move_in (waiting timer) resume io = wake timer io
  move_in phase callback io =
      if io.expired == 0 then io else run_callback phase (record io { expired = io.expired - 1 })
  move_in phase (meanwhile iom') io = record io { iom = iom' }
  move_in phase other io = io

  -- One move, and a sequence of them.
  unfoldable pub move : Move K → Io K → Io K
  move mv io = move_in io.phase mv io

  unfoldable pub run : List (Move K) → Io K → Io K
  unfolding move
  run [] io = io
  run (mv ∷ moves) io = run moves (move mv io)
