-- ===== src/Scheduler.antt =====
-- src/concurrency/scheduler.cc: one turn of the loop of Scheduler::run on one thread, with the states of
-- src/concurrency/fibre.cc. A fibre is an address; `leaves` is the state in which each fibre that is
-- swapped in comes back: TERM or EXCEPT where its function ends, and else what it set before it swapped
-- out. Tasks that others schedule meanwhile are steps of their own.
pub mod Pick
pub mod Turn
mod Tests
use hpgs.Prelude.{ℕ, ◌+◌, ◌-◌, Bool, true, false, not, ◌&&◌, ◌||◌, List, [], ◌∷◌, ◌++◌}
use hpgs.Prelude.{Option, none, some, ◌==◌, if◌then◌else◌, add64, sub64}

pub data State : Type 0 where
  st_init : State
  st_hold : State
  st_exec : State
  st_term : State
  st_ready : State
  st_except : State

abbrev pub is_exec : State → Bool
is_exec st_exec = true
is_exec s = false

-- `TERM` or `EXCEPT`.
abbrev pub is_over : State → Bool
is_over st_term = true
is_over st_except = true
is_over s = false

-- `FibreAndThread`; `none` is a null pointer, and as a thread it is -1.
pub record FibreAndThread : Type 0 where
  pub fibre : Option ℕ
  pub cb : Option ℕ
  pub thread : Option ℕ

pub record Scheduler : Type 0 where
  pub fibres : List FibreAndThread
  pub states : ℕ → State
  pub active : ℕ
  pub idle : ℕ

-- What `run` keeps on the stack of its thread.
pub record Worker : Type 0 where
  pub thread : ℕ
  pub idle_fibre : ℕ
  pub cb_fibre : Option ℕ

-- `it->thread != -1 && it->thread != GetThreadId()`
abbrev pub elsewhere : ℕ → FibreAndThread → Bool
elsewhere me t = elim t.thread [ none ↦ false | some other ↦ not (other == me) ]

abbrev pub is_null : FibreAndThread → Bool
is_null t = elim t.fibre [ some f ↦ false | none ↦ elim t.cb [ some f ↦ false | none ↦ true ] ]

abbrev pub is_running : (ℕ → State) → FibreAndThread → Bool
is_running states t = elim t.fibre [ none ↦ false | some f ↦ is_exec (states f) ]

-- `it != m_fibres.end()`
abbrev pub any_left : List FibreAndThread → Bool
any_left [] = false
any_left (t ∷ ts) = true

-- A task that stays in the list.
abbrev pub pass_by :
    Bool
    → FibreAndThread
    → Option (Bool × Option FibreAndThread × List FibreAndThread)
    → Option (Bool × Option FibreAndThread × List FibreAndThread)
pass_by other t none = none
pass_by other t (some (tickle, chosen, rest)) = some (other || tickle, chosen, t ∷ rest)

-- The search for a task: whether to tickle, the task, and the tasks that stay; the whole is `none`
-- where the assertion on a task fails.
unfoldable pub pick :
    ℕ
    → (ℕ → State)
    → List FibreAndThread
    → Option (Bool × Option FibreAndThread × List FibreAndThread)
pick me states [] = some (false, none, [])
pick me states (t ∷ ts) =
    let skipped = pass_by (elsewhere me t) t (pick me states ts) in
    if elsewhere me t
    then skipped
    else if is_null t
    then none
    else if is_running states t
    then skipped
    else some (any_left ts, some t, ts)

abbrev pub set_state : ℕ → State → (ℕ → State) → ℕ → State
set_state p s states q = if p == q then s else states q

-- `swapIn` until the fibre swaps out again; `none` where it asserts, or resumes a fibre that is over,
-- which asserts that this is never reached.
abbrev pub swap_in : (ℕ → State) → ℕ → Scheduler → Option Scheduler
swap_in leaves p m =
    if is_exec (m.states p) || is_over (m.states p)
    then none
    else some (record m { states = set_state p (leaves p) m.states })

-- `schedule(fibre)`.
abbrev pub schedule_fibre : ℕ → Scheduler → Scheduler
schedule_fibre p m = record m {
  fibres = m.fibres ++ record { fibre = some p; cb = none; thread = none } ∷ [];
}

-- What becomes of a fibre that has swapped out: a ready one is scheduled again, one that is not over is
-- put on hold.
abbrev pub settle_as : State → ℕ → Scheduler → Scheduler
settle_as st_ready p m = schedule_fibre p m
settle_as st_term p m = m
settle_as st_except p m = m
settle_as s p m = record m { states = set_state p st_hold m.states }

abbrev pub settle : ℕ → Scheduler → Scheduler
settle p m = settle_as (m.states p) p m

-- The task is a fibre.
abbrev pub settle_fibre : ℕ → Option Scheduler → Option Scheduler
settle_fibre p none = none
settle_fibre p (some m) = some (settle p (record m { active = sub64 m.active 1 }))

abbrev pub run_fibre : (ℕ → State) → ℕ → Scheduler → Option Scheduler
run_fibre leaves p m = settle_fibre p (swap_in leaves p m)

-- `Fibre::reset`, whose assertion is `none`.
abbrev pub reset_fibre : ℕ → Scheduler → Option Scheduler
reset_fibre p m = elim (m.states p) [
  | st_hold ↦ none
  | st_exec ↦ none
  | st_ready ↦ none
  | s ↦ some (record m { states = set_state p st_init m.states })
]

-- The fibre in which a callback runs: the old one, or a new one at `fresh`.
abbrev pub callback_fibre : ℕ → Option ℕ → Scheduler → Option (ℕ × Scheduler)
callback_fibre fresh none m = some (fresh, record m { states = set_state fresh st_init m.states })
callback_fibre fresh (some p) m = elim (reset_fibre p m) [ none ↦ none | some m' ↦ some (p, m') ]

-- After a callback: its fibre is kept where it is over, and given up else.
abbrev pub settle_callback : ℕ → Option Scheduler → Option (Option ℕ × Scheduler)
settle_callback p none = none
settle_callback p (some m) =
    let m' = record m { active = sub64 m.active 1 } in
    if is_over (m.states p)
    then elim (reset_fibre p m') [ none ↦ none | some m'' ↦ some (some p, m'') ]
    else some (none, settle p m')

abbrev pub run_callback : (ℕ → State) → Option (ℕ × Scheduler) → Option (Option ℕ × Scheduler)
run_callback leaves none = none
run_callback leaves (some (p, m)) = settle_callback p (swap_in leaves p m)

-- No task: the idle fibre runs. A false answer is the end of the loop.
abbrev pub settle_idle : ℕ → Option Scheduler → Option (Bool × Scheduler)
settle_idle p none = none
settle_idle p (some m) =
    let m' = record m { idle = sub64 m.idle 1 } in
    some (
      true,
      if is_over (m.states p) then m' else record m' { states = set_state p st_hold m.states },
    )

abbrev pub run_idle : (ℕ → State) → ℕ → Scheduler → Option (Bool × Scheduler)
run_idle leaves p m = elim (m.states p) [
  | st_term ↦ some (false, m)
  | s ↦ settle_idle p (swap_in leaves p (record m { idle = add64 m.idle 1 }))
]

-- What a turn does with the task that it took: an empty answer of `cb_fibre` is a null pointer.
abbrev pub with_worker : Option Scheduler → Worker → Option (Bool × Worker × Scheduler)
with_worker none w = none
with_worker (some m) w = some (true, w, m)

abbrev pub with_callback :
    Option (Option ℕ × Scheduler) → Worker → Option (Bool × Worker × Scheduler)
with_callback none w = none
with_callback (some (p, m)) w = some (true, record w { cb_fibre = p }, m)

abbrev pub with_idle : Option (Bool × Scheduler) → Worker → Option (Bool × Worker × Scheduler)
with_idle none w = none
with_idle (some (more, m)) w = some (more, w, m)

abbrev pub runs_fibre : (ℕ → State) → FibreAndThread → Option ℕ
runs_fibre states t = elim t.fibre [
  | none ↦ none
  | some f ↦ if is_over (states f) then none else some f
]

abbrev pub run_chosen :
    (ℕ → State) → ℕ → Worker → Option ℕ → Option ℕ → Scheduler → Option (Bool × Worker × Scheduler)
run_chosen leaves fresh w (some f) cb m = with_worker (run_fibre leaves f m) w
run_chosen leaves fresh w none (some c) m =
    with_callback (run_callback leaves (callback_fibre fresh w.cb_fibre m)) w
run_chosen leaves fresh w none none m = some (true, w, record m { active = sub64 m.active 1 })

abbrev pub run_task :
    (ℕ → State) → ℕ → Worker → FibreAndThread → Scheduler → Option (Bool × Worker × Scheduler)
run_task leaves fresh w t m = run_chosen leaves fresh w (runs_fibre m.states t) t.cb m

abbrev pub after_pick :
    (ℕ → State)
    → ℕ
    → Worker
    → Scheduler
    → Option (Bool × Option FibreAndThread × List FibreAndThread)
    → Option (Bool × Worker × Scheduler)
after_pick leaves fresh w m none = none
after_pick leaves fresh w m (some (tickle, none, rest)) =
    with_idle (run_idle leaves w.idle_fibre (record m { fibres = rest })) w
after_pick leaves fresh w m (some (tickle, some t, rest)) =
    run_task leaves fresh w t (record m { fibres = rest; active = add64 m.active 1 })

-- One turn of `while(true)`; a false answer is the `break`.
unfoldable pub turn : (ℕ → State) → ℕ → Worker → Scheduler → Option (Bool × Worker × Scheduler)
turn leaves fresh w m = after_pick leaves fresh w m (pick w.thread m.states m.fibres)
