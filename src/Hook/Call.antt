-- ===== src/Hook/Call.antt =====
-- The specification of a hooked call: a call that blocks, with a time-out, as its caller sees it.
use hpgs.Prelude.Int.{pos, negsuc}
use hpgs.Prelude.{ℕ, suc, ◌≡◌, Bool, true, false, not, ◌⊎◌, ◌==◌, Option, none, some}
use hpgs.Hook.{
  got, failed, Phase, through, trying, waiting, returned, crashed, Io, Move, answer, expire,
  callback, resume, eintr, eagain, etimedout,
}

-- Where a blocking call is.
pub data Call : Type 0 where
  passing : Call
  calling : Call
  asleep : Call
  succeeded : ℕ → Call
  failed_with : ℕ → Call
  stuck : Call

abbrev pub call_of : Phase → ℕ → Call
call_of through errno = passing
call_of trying errno = calling
call_of (waiting timer) errno = asleep
call_of (returned (pos n)) errno = succeeded n
call_of (returned (negsuc n)) errno = failed_with errno
call_of crashed errno = stuck

-- With whether its time has run out, and how many of its timers have expired with the callback to come.
pub record Seen : Type 0 where
  pub call : Call
  pub late : Bool
  pub due : ℕ

abbrev pub seen : Call → Bool → ℕ → Seen
seen c late due = record { call = c; late = late; due = due }

-- What the parts around the call do at a move: whether `addEvent` accepts the event, where it does not
-- fail; whether `cancelEvent` does not fail; whether `cancel` finds the timer, and whether it expires.
pub record Facts : Type 0 where
  pub accepted : Option Bool
  pub cancels : Bool
  pub finds : Bool
  pub fires : Bool

-- Whether the callback of the timer still has something to act on.
abbrev pub is_active : Call → Bool
is_active calling = true
is_active asleep = true
is_active c = false

-- The moves that mean nothing to a call where it is.
abbrev pub stays : {K : Type 0} → Call → Move K → Bool
stays passing (answer a now p) = false
stays calling (answer a now p) = false
stays asleep resume = false
stays asleep expire = false
stays c callback = false
stays c mv = true

-- The moves of a blocking call.
pub data Steps (K : Type 0) (refusal : ℕ) (f : Facts) : Seen → Move K → Seen → Type 0 where
  passed :
      (n now p : ℕ) (l : Bool) (d : ℕ)
      → Steps K refusal f (seen passing l d) (answer (got n) now p) (seen (succeeded n) l d)
  passed_error :
      (e now p : ℕ) (l : Bool) (d : ℕ)
      → Steps K refusal f (seen passing l d) (answer (failed e) now p) (seen (failed_with e) l d)
  finished :
      (n now p : ℕ) (l : Bool) (d : ℕ)
      → Steps K refusal f (seen calling l d) (answer (got n) now p) (seen (succeeded n) l d)
  interrupted :
      (now p : ℕ) (l : Bool) (d : ℕ)
      → Steps K refusal f (seen calling l d) (answer (failed eintr) now p) (seen calling l d)
  finished_error :
      (e now p : ℕ) (l : Bool) (d : ℕ)
      → (e == eintr) ≡ false
      → (e == eagain) ≡ false
      → Steps K refusal f (seen calling l d) (answer (failed e) now p) (seen (failed_with e) l d)
  sleeps :
      (now p : ℕ) (l : Bool) (d : ℕ)
      → f.accepted ≡ some true
      → Steps K refusal f (seen calling l d) (answer (failed eagain) now p) (seen asleep l d)
  refused :
      (now p : ℕ) (l : Bool) (d : ℕ)
      → f.accepted ≡ some false
      → f.finds ≡ true
      → Steps K refusal f
          (seen calling l d)
          (answer (failed eagain) now p)
          (seen (failed_with refusal) l d)
  refuse_crashed :
      (now p : ℕ) (l : Bool) (d : ℕ)
      → f.accepted ≡ some false
      → f.finds ≡ false
      → Steps K refusal f (seen calling l d) (answer (failed eagain) now p) (seen stuck l d)
  sleep_crashed :
      (now p : ℕ) (l : Bool) (d : ℕ)
      → f.accepted ≡ none
      → Steps K refusal f (seen calling l d) (answer (failed eagain) now p) (seen stuck l d)
  woken :
      (d : ℕ)
      → f.finds ≡ true
      → Steps K refusal f (seen asleep false d) resume (seen calling false d)
  timed_out :
      (d : ℕ)
      → f.finds ≡ true
      → Steps K refusal f (seen asleep true d) resume (seen (failed_with etimedout) true d)
  wake_crashed :
      (l : Bool) (d : ℕ)
      → f.finds ≡ false
      → Steps K refusal f (seen asleep l d) resume (seen stuck l d)
  expired :
      (l : Bool) (d : ℕ)
      → f.fires ≡ true
      → Steps K refusal f (seen asleep l d) expire (seen asleep l (suc d))
  not_expired :
      (l : Bool) (d : ℕ)
      → f.fires ≡ false
      → Steps K refusal f (seen asleep l d) expire (seen asleep l d)
  out_of_time :
      (c : Call) (d : ℕ)
      → is_active c ≡ true
      → f.cancels ≡ true
      → Steps K refusal f (seen c false (suc d)) callback (seen c true d)
  cancel_crashed :
      (c : Call) (d : ℕ)
      → is_active c ≡ true
      → f.cancels ≡ false
      → Steps K refusal f (seen c false (suc d)) callback (seen stuck true d)
  late_already :
      (c : Call) (d : ℕ)
      → is_active c ≡ true
      → Steps K refusal f (seen c true (suc d)) callback (seen c true d)
  over :
      (c : Call) (l : Bool) (d : ℕ)
      → is_active c ≡ false
      → Steps K refusal f (seen c l (suc d)) callback (seen c l d)
  none_due : (c : Call) (l : Bool) → Steps K refusal f (seen c l 0) callback (seen c l 0)
  stayed :
      (c : Call) (l : Bool) (d : ℕ) (mv : Move K)
      → stays c mv ≡ true
      → Steps K refusal f (seen c l d) mv (seen c l d)

abbrev pub is_late : {K : Type 0} → Io K → Bool
is_late io = not (io.cancelled == 0)

abbrev pub view : {K : Type 0} → Io K → Seen
view io = seen (call_of io.phase io.errno) (is_late io) io.expired

-- `tinfo->cancelled` is 0 or ETIMEDOUT.
abbrev pub Known : {K : Type 0} → Io K → Type 0
Known io = (io.cancelled ≡ 0) ⊎ (io.cancelled ≡ etimedout)
