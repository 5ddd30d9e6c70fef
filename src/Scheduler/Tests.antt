-- ===== src/Scheduler/Tests.antt =====
-- Three tasks: one bound to another thread, one whose fibre runs elsewhere, and one that may run.
use hpgs.Prelude.{ℕ, ◌≡◌, refl, arith, Bool, true, false, List, [], ◌∷◌}
use hpgs.Prelude.{Option, none, some, ◌==◌, if◌then◌else◌}
use hpgs.Scheduler.{
  State, st_hold, st_exec, st_ready, st_except, is_exec, FibreAndThread, Scheduler, Worker, pick,
  turn, run_idle,
}
use hpgs.Scheduler.Pick.{Found, pick_lem}
use hpgs.Scheduler.Turn.{again, turn_fibre_lem}

abbrev bound : FibreAndThread
bound = record { fibre = none; cb = some 4; thread = some 2 }

abbrev tasks : List FibreAndThread
tasks = bound ∷ again 7 ∷ again 8 ∷ []

abbrev states : ℕ → State
states p = if 7 == p then st_exec else st_hold

abbrev worker : Worker
worker = record { thread = 1; idle_fibre = 5; cb_fibre = none }

abbrev scheduler : Scheduler
scheduler = record { fibres = tasks; states = states; active = 0; idle = 0 }

picks : pick 1 states tasks ≡ some (true, some (again 8), bound ∷ again 7 ∷ [])
unfolding pick
picks = refl

-- An idle fibre that ended in an exception is resumed all the same.
idle_except : run_idle (λ q. st_hold) 5 (record scheduler { states = λ q. st_except }) ≡ none
idle_except = refl

pick_lem_example :
    (tickle : Bool) × (chosen : Option FibreAndThread) × (rest : List FibreAndThread) × (pick 1
        states tasks
      ≡ some (tickle, chosen, rest))
    × Found 1 states tasks chosen rest
pick_lem_example = pick_lem 1 states tasks (refl, (refl, (refl, tt)))

turn_fibre_lem_example :
    (m' : Scheduler) × (turn (λ q. st_ready) 9 worker scheduler ≡ some (true, worker, m'))
    × (m'.states 8 ≡ st_ready)
    × (is_exec (m'.states 8) ≡ false)
    × (m'.fibres ≡ bound ∷ again 7 ∷ again 8 ∷ [])
    × (m'.active ≡ 0)
    × ((q : ℕ) → (8 == q) ≡ false → m'.states q ≡ states q)
turn_fibre_lem_example =
    turn_fibre_lem (λ q. st_ready) 9 8 worker scheduler true (again 8) (bound ∷ again 7 ∷ []) picks
      refl refl refl (omega arith)
