-- ===== src/Hook/Connect.antt =====
-- src/util/hook.cc: `connect_with_timeout` as a machine, with the waiting of `do_io`. It waits for WRITE and is
-- not tried again: after the wait it is at the call of getsockopt, which `trying` stands for here; the
-- answer of that call is SO_ERROR, or -1 with `errno`.
pub mod Begun
pub mod Outcome
use hpgs.Prelude.Int.{ℤ, pos, negsuc}
use hpgs.Prelude.{
  ℕ, zero, Bool, true, false, not, ◌||◌, List, [], ◌∷◌, Option, none, some, ◌==◌, if◌then◌else◌,
}
use hpgs.FdManager.{FdCtx, no_timeout}
use hpgs.IoManager.{IoManager, write_event, Caller, CtlOp, Result, done, fault}
use hpgs.IoManager.Operations.{add_event}
use hpgs.Timer.{add_timer}
use hpgs.Hook.{
  Answer, got, failed, Phase, trying, waiting, returned, crashed, Io, Move, answer, ebadf,
  cancel_timer, pass, move_in,
}

abbrev pub einprogress : ℕ
einprogress = 115

-- `!ctx || ctx->isClose()`, then the two guards that pass the call through.
pub data Guarded : Type 0 where
  bad_descriptor : Guarded
  passed_through : Guarded
  hooked : Guarded

abbrev pub guarded : Bool → Option FdCtx → Guarded
guarded hook_enable none = if not hook_enable then passed_through else bad_descriptor
guarded hook_enable (some c) =
    if not hook_enable
    then passed_through
    else if c.is_closed
    then bad_descriptor
    else if not c.is_socket || c.user_nonblock
    then passed_through
    else hooked

module _ {K : Type 0} (ctl : CtlOp → ℕ → ℕ → K → Bool × K) (who : Caller)
    (fd timeout_ms refusal : ℕ) where
  -- Behind `addEvent`; where it fails the call goes on to getsockopt.
  abbrev pub hold_connect : Option ℕ → Io K → Result (Bool × IoManager K) → Io K
  hold_connect timer io (fault f) = record io { phase = crashed }
  hold_connect timer io (done (true, iom')) = record io { phase = waiting timer; iom = iom' }
  hold_connect timer io (done (false, iom')) =
      cancel_timer ctl who fd write_event timeout_ms refusal timer io
        (record io { errno = refusal; phase = trying; iom = iom' })

  abbrev pub wait_connect : ℕ → ℕ → Io K → Io K
  wait_connect now p io =
      if timeout_ms == no_timeout
      then hold_connect none io (add_event ctl who (pos fd) write_event none io.iom)
      else hold_connect (some p)
          (record io { timers = (add_timer now p timeout_ms (some 0) false io.timers).1 })
          (add_event ctl who (pos fd) write_event none io.iom)

  -- The answer of `connect_f`.
  abbrev pub called : Answer → ℕ → ℕ → Io K → Io K
  called (got n) now p io = record io { phase = returned (pos n) }
  called (failed e) now p io =
      let said = record io { errno = e } in
      if e == einprogress
      then wait_connect now p said
      else record said { phase = returned (negsuc 0) }

  abbrev pub begin_at : Guarded → Answer → ℕ → ℕ → Io K → Io K
  begin_at bad_descriptor a now p io = record io { errno = ebadf; phase = returned (negsuc 0) }
  begin_at passed_through a now p io = pass ctl who fd write_event timeout_ms refusal a io
  begin_at hooked a now p io = called a now p (record io { cancelled = 0 })

  -- Up to the wait; `a` is what `connect_f` answers, where it is called.
  unfoldable pub begin : Bool → Option FdCtx → Answer → ℕ → ℕ → Io K → Io K
  begin hook_enable ctx a now p io = begin_at (guarded hook_enable ctx) a now p io

  -- Behind getsockopt.
  abbrev pub checked : Answer → Io K → Io K
  checked (got error) io =
      if error == 0
      then record io { phase = returned (pos 0) }
      else record io { errno = error; phase = returned (negsuc 0) }
  checked (failed e) io = record io { errno = e; phase = returned (negsuc 0) }

  abbrev pub connect_in : Phase → Move K → Io K → Io K
  connect_in trying (answer a now p) io = checked a io
  connect_in phase mv io = move_in ctl who fd write_event timeout_ms refusal phase mv io

  unfoldable pub connect_move : Move K → Io K → Io K
  connect_move mv io = connect_in io.phase mv io
