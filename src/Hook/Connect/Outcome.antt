-- ===== src/Hook/Connect/Outcome.antt =====
-- How a hooked `connect` ends.
use mathlib.Core.Path.{subst}
use hpgs.Prelude.Int.{pos, negsuc}
use hpgs.Prelude.{ℕ, ◌≡◌, refl, sym, Bool, true, false, inl, inr, Bool-cases, ◌==◌, ==_iff}
use hpgs.IoManager.{write_event, Caller, CtlOp}
use hpgs.Hook.{
  Answer, got, failed, Phase, through, trying, waiting, returned, crashed, Io, Move, answer,
  move_in,
}
use hpgs.Hook.Call.{
  Call, calling, succeeded, failed_with, call_of, Seen, seen, Facts, Steps, is_late, view, Known,
}
use hpgs.Hook.Held.{facts}
use hpgs.Hook.Blocking.{move_in-Simulates}
use hpgs.FdManager.{FdCtx}
use hpgs.Prelude.{some}
use hpgs.Hook.Connect.{checked, connect_in, connect_move, begin}
use hpgs.Hook.Connect.Begun.{Begins, begin-Begins}

-- Whether a move answers getsockopt.
abbrev pub at_option : {K : Type 0} → Call → Move K → Bool
at_option calling (answer a now p) = true
at_option c mv = false

-- The moves of a connection that is waited for: getsockopt tells its end, and the rest is waiting.
pub data Ends (K : Type 0) (refusal : ℕ) (f : Facts) : Seen → Move K → Seen → Type 0 where
  no_error :
      (now p : ℕ) (l : Bool) (d : ℕ)
      → Ends K refusal f (seen calling l d) (answer (got 0) now p) (seen (succeeded 0) l d)
  so_error :
      (error now p : ℕ) (l : Bool) (d : ℕ)
      → (error == 0) ≡ false
      → Ends K refusal f
          (seen calling l d)
          (answer (got error) now p)
          (seen (failed_with error) l d)
  no_option :
      (e now p : ℕ) (l : Bool) (d : ℕ)
      → Ends K refusal f (seen calling l d) (answer (failed e) now p) (seen (failed_with e) l d)
  waits :
      (v : Seen) (mv : Move K) (v' : Seen)
      → at_option v.call mv ≡ false
      → Steps K refusal f v mv v'
      → Ends K refusal f v mv v'

module _ {K : Type 0} (ctl : CtlOp → ℕ → ℕ → K → Bool × K) (who : Caller)
    (fd timeout_ms refusal : ℕ) where
  -- What a move makes of a state, if it is one of those of a connection.
  abbrev pub Follows : Io K → Move K → Io K → Type 0
  Follows io mv io' =
      Ends K refusal (facts ctl who fd write_event timeout_ms refusal io.phase mv io) (view io) mv
        (view io')
      × Known io'

  checked-Follows :
      (a : Answer) (now p : ℕ) (io : Io K)
      → Known io
      → let at : Io K = record io { phase = trying } in
        Follows at (answer a now p) (checked ctl who fd timeout_ms refusal a at)
  checked-Follows (failed e) now p io k = (no_option e now p _ _, k)
  checked-Follows (got error) now p io k = elim (Bool-cases (error == 0)) [
    | inl fine ↦ rw fine (
      subst
          (λ n.
            Ends K refusal
              (facts ctl who fd write_event timeout_ms refusal trying (answer (got n) now p) io)
              (seen calling (is_late io) io.expired) (answer (got n) now p)
              (seen (succeeded 0) (is_late io) io.expired))
          (sym ((==_iff error 0).0 fine)) (no_error now p _ _),
      k,
    )
    | inr wrong ↦ rw wrong (so_error error now p _ _ wrong, k)
  ]

  abbrev asks : Phase → Move K → Bool
  asks trying (answer a now p) = true
  asks ph mv = false

  asks-at_option :
      (ph : Phase) (errno : ℕ) (mv : Move K)
      → asks ph mv ≡ false
      → at_option (call_of ph errno) mv ≡ false
  asks-at_option through errno mv e = refl
  asks-at_option trying errno (answer a now p) e = e
  asks-at_option trying errno mv e = refl
  asks-at_option (waiting timer) errno mv e = refl
  asks-at_option (returned (pos n)) errno mv e = refl
  asks-at_option (returned (negsuc n)) errno mv e = refl
  asks-at_option crashed errno mv e = refl

  asks-waits :
      (ph : Phase) (mv : Move K) (io : Io K)
      → Known io
      → asks ph mv ≡ false
      → let at : Io K = record io { phase = ph } in
        Follows at mv (move_in ctl who fd write_event timeout_ms refusal ph mv at)
  asks-waits ph mv io k quiet =
      let (s, k') = move_in-Simulates ctl who fd write_event timeout_ms refusal ph mv io k in
      (waits _ mv _ (asks-at_option ph io.errno mv quiet) s, k')

  connect_in-Follows :
      (ph : Phase) (mv : Move K) (io : Io K)
      → Known io
      → let at : Io K = record io { phase = ph } in
        Follows at mv (connect_in ctl who fd timeout_ms refusal ph mv at)
  connect_in-Follows trying (answer a now p) io k = checked-Follows a now p io k
  connect_in-Follows ph mv io k = asks-waits ph mv io k refl

  connect_move-Follows :
      (mv : Move K) (io : Io K)
      → Known io
      → Follows io mv (connect_move ctl who fd timeout_ms refusal mv io)
  unfolding connect_move
  connect_move-Follows mv io k = connect_in-Follows io.phase mv io k

  -- On an open socket that the caller has not made non-blocking, a hooked `connect` ends with the first
  -- answer, unless that is EINPROGRESS; then it waits if `addEvent` accepts the event, and goes on to
  -- getsockopt where it refuses. From then on each move is one of waiting, which ends by the event or, after
  -- the callback of its expired timer, with ETIMEDOUT; or it is the answer of getsockopt: the call succeeds
  -- exactly where SO_ERROR is 0, and fails with it otherwise, or with what getsockopt failed with. It
  -- crashes just where `addEvent` or `cancelEvent` fails an assertion, or `cancel` does not find the timer.
  pub connect-Follows :
      (c : FdCtx) (a : Answer) (now p : ℕ) (mv : Move K) (io io' : Io K)
      → c.is_closed ≡ false
      → c.is_socket ≡ true
      → c.user_nonblock ≡ false
      → Known io'
      → Begins
          (facts ctl who fd write_event timeout_ms refusal trying (answer a now p) io)
          io.expired
          a
          (view (begin ctl who fd timeout_ms refusal true (some c) a now p io))
        × Follows io' mv (connect_move ctl who fd timeout_ms refusal mv io')
  connect-Follows c a now p mv io io' open_one socket blocking k = (
    begin-Begins ctl who fd timeout_ms refusal c a now p io open_one socket blocking,
    connect_move-Follows mv io' k,
  )
