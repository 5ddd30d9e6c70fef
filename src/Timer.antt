-- ===== src/Timer.antt =====
-- src/concurrency/timer.cc: timers in a set ordered by the time they are due.
-- A `Timer::ptr` is an address, and `heap` is what the addresses hold; the null pointer is `none`. The
-- `std::set` is the list of its elements in order. Each operation is one critical section of the
-- manager's mutex, and `now` is what `GetCurrentMs()` returns in it.
pub mod Order
pub mod Inv
pub mod Reset
pub mod Wake
pub mod Due
pub mod Expire
pub mod Clock
mod Tests
use hpgs.Prelude.{ℕ, ◌-◌, ◌*◌, Bool, true, false, not, ◌&&◌, ◌||◌, Option, none, some}
use hpgs.Prelude.{List, [], ◌∷◌, ◌++◌, ltb, leb, ◌==◌, if◌then◌else◌, add64, sub64}

-- `cb` is the callback, by a number of its own; `none` is the empty function.
pub record Timer : Type 0 where
  pub recurring : Bool
  pub ms : ℕ
  pub next : ℕ
  pub cb : Option ℕ

abbrev pub Heap : Type 0
Heap = ℕ → Timer

pub record TimerManager : Type 0 where
  pub heap : Heap
  pub timers : List ℕ
  pub tickled : Bool
  pub previous_time : ℕ

abbrev pub has_cb : Timer → Bool
has_cb t = elim t.cb [ none ↦ false | some c ↦ true ]

abbrev pub update : Heap → ℕ → Timer → Heap
update h p t q = if q == p then t else h q

-- `Timer::Comparator`.
abbrev pub comparator : Heap → Option ℕ → Option ℕ → Bool
comparator h none none = false
comparator h none (some q) = true
comparator h (some p) none = false
comparator h (some p) (some q) =
    if ltb (h p).next (h q).next then true else if ltb (h q).next (h p).next then false else ltb p q

abbrev pub less : Heap → ℕ → ℕ → Bool
less h p q = comparator h (some p) (some q)

-- `insert`, `find`, `erase` of the ordered set.
pub insert : Heap → ℕ → List ℕ → List ℕ
insert h p [] = p ∷ []
insert h p (q ∷ xs) =
    if less h q p then q ∷ insert h p xs else if less h p q then p ∷ q ∷ xs else q ∷ xs

pub find : Heap → ℕ → List ℕ → Option ℕ
find h p [] = none
find h p (q ∷ xs) = if less h q p then find h p xs else if less h p q then none else some q

pub erase : ℕ → List ℕ → List ℕ
erase p [] = []
erase p (q ∷ xs) = if q == p then xs else q ∷ erase p xs

-- `it == m_timers.begin()` for the place `it` of `p`.
abbrev pub at_begin : ℕ → List ℕ → Bool
at_begin p [] = false
at_begin p (q ∷ xs) = q == p

-- `addTimer(val, lock)`. The Boolean says whether `onTimerInsertAtFront` is called.
pub add_timer_locked : ℕ → TimerManager → Bool × TimerManager
add_timer_locked p m =
    let timers' = insert m.heap p m.timers in
    let at_front = at_begin p timers' && not m.tickled in
    (at_front, record m { timers = timers'; tickled = m.tickled || at_front })

-- `addTimer(ms, cb, recurring)`; `p` is the address of the new timer.
pub add_timer : ℕ → ℕ → ℕ → Option ℕ → Bool → TimerManager → Bool × TimerManager
add_timer now p ms cb recurring m =
    let timer : Timer = record { recurring = recurring; ms = ms; next = add64 now ms; cb = cb } in
    add_timer_locked p (record m { heap = update m.heap p timer })

-- `m_timers.erase(it)` in `cancel`; at `end()` it is undefined.
abbrev pub cancel_found : Option ℕ → TimerManager → Option (Bool × TimerManager)
cancel_found none m = none
cancel_found (some it) m = some (true, record m { timers = erase it m.timers })

-- `Timer::cancel`; `none` is undefined behaviour.
pub cancel : ℕ → TimerManager → Option (Bool × TimerManager)
cancel p m =
    let heap' = update m.heap p (record (m.heap p) { cb = none }) in
    if has_cb (m.heap p)
    then cancel_found (find heap' p m.timers) (record m { heap = heap' })
    else some (false, m)

abbrev pub refresh_found : ℕ → ℕ → Option ℕ → TimerManager → Bool × TimerManager
refresh_found now p none m = (false, m)
refresh_found now p (some it) m =
    let heap' = update m.heap p (record (m.heap p) { next = add64 now (m.heap p).ms }) in
    (true, record m { heap = heap'; timers = insert heap' p (erase it m.timers) })

-- `Timer::refresh`.
pub refresh : ℕ → ℕ → TimerManager → Bool × TimerManager
refresh now p m =
    if not (has_cb (m.heap p)) then (false, m) else refresh_found now p (find m.heap p m.timers) m

abbrev pub reset_found : ℕ → ℕ → ℕ → Bool → Option ℕ → TimerManager → Bool × Bool × TimerManager
reset_found now p ms from_now none m = (false, false, m)
reset_found now p ms from_now (some it) m =
    let start = if from_now then now else sub64 (m.heap p).next (m.heap p).ms in
    let heap' = update m.heap p (record (m.heap p) { ms = ms; next = add64 start ms }) in
    let (front, m') = add_timer_locked p (record m { heap = heap'; timers = erase it m.timers }) in
    (true, front, m')

-- `Timer::reset`, with the comparison that stands before the lock in the same step; the second Boolean says whether `onTimerInsertAtFront` is called.
pub reset : ℕ → ℕ → ℕ → Bool → TimerManager → Bool × Bool × TimerManager
reset now p ms from_now m =
    if ms == (m.heap p).ms && not from_now
    then (true, false, m)
    else if not (has_cb (m.heap p))
    then (false, false, m)
    else reset_found now p ms from_now (find m.heap p m.timers) m

-- `getNextTimer`; `~0ull` is `no_timer`.
abbrev pub no_timer : ℕ
no_timer = 0xffff_ffff_ffff_ffff

abbrev pub time_left : ℕ → Heap → List ℕ → ℕ
time_left now h [] = no_timer
time_left now h (p ∷ xs) = if leb (h p).next now then 0 else (h p).next - now

pub get_next_timer : ℕ → TimerManager → ℕ × TimerManager
get_next_timer now m = (time_left now m.heap m.timers, record m { tickled = false })

pub has_timer : TimerManager → Bool
has_timer m = elim m.timers [ [] ↦ false | p ∷ xs ↦ true ]

-- `detectClockRollover`: whether the clock went back by more than an hour.
pub detect_clock_rollover : ℕ → TimerManager → Bool × TimerManager
detect_clock_rollover now m = (
  ltb now m.previous_time && ltb now (sub64 m.previous_time (60 * 60 * 1000)),
  record m { previous_time = now },
)

-- `lower_bound(now_timer)`, for a fresh timer at the address `fresh` that is due now: the elements
-- before it and those from it on.
pub lower_bound : Heap → ℕ → List ℕ → List ℕ × List ℕ
lower_bound h fresh [] = ([], [])
lower_bound h fresh (q ∷ xs) =
    let (before, from) = lower_bound h fresh xs in
    if less h q fresh then (q ∷ before, from) else ([], q ∷ xs)

-- `while(it != m_timers.end() && (*it)->m_next == now_ms) it++`
pub skip_due : Heap → ℕ → List ℕ → List ℕ × List ℕ
skip_due h now [] = ([], [])
skip_due h now (q ∷ xs) =
    let (before, from) = skip_due h now xs in
    if (h q).next == now then (q ∷ before, from) else ([], q ∷ xs)

-- The loop over `expired`: the callbacks in order, and the recurring timers put back.
pub fire : ℕ → List ℕ → TimerManager → List (Option ℕ) × TimerManager
fire now [] m = ([], m)
fire now (p ∷ ps) m =
    let t = m.heap p in
    let heap' =
      update m.heap p
        (if t.recurring then record t { next = add64 now t.ms } else record t { cb = none }) in
    let timers' = if t.recurring then insert heap' p m.timers else m.timers in
    let (cbs, m') = fire now ps (record m { heap = heap'; timers = timers' }) in (t.cb ∷ cbs, m')

-- `listExpiredCb` behind its check of the rollover, on the elements in order. `fresh` is the address
-- of `now_timer`, which is gone when the call ends.
pub expire : ℕ → ℕ → Bool → TimerManager → List (Option ℕ) × TimerManager
expire now fresh rollover m =
    let mark = update m.heap fresh (record (m.heap fresh) { next = now }) in
    let (before, from) = if rollover then (m.timers, []) else lower_bound mark fresh m.timers in
    let (due, rest) = skip_due m.heap now from in
    fire now (before ++ due) (record m { timers = rest })

-- `listExpiredCb`: the callbacks that it hands over.
abbrev pub list_expired_from : ℕ → ℕ → List ℕ → TimerManager → List (Option ℕ) × TimerManager
list_expired_from now fresh [] m = ([], m)
list_expired_from now fresh (p ∷ xs) m =
    let (rollover, m') = detect_clock_rollover now m in
    if not rollover && ltb now (m.heap p).next then ([], m') else expire now fresh rollover m'

pub list_expired_cb : ℕ → ℕ → TimerManager → List (Option ℕ) × TimerManager
list_expired_cb now fresh m = list_expired_from now fresh m.timers m
