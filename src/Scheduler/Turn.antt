-- ===== src/Scheduler/Turn.antt =====
-- One turn of a thread that takes a fibre.
use hpgs.Prelude.{
  ℕ, ◌^◌, ◌<◌, ◌-◌, ◌≡◌, refl, ap, sym, ◌∙◌, arith, Bool, true, false, List, [], ◌∷◌, ◌++◌,
  append-nil, ==_iff, ◌==◌,
}
use hpgs.Prelude.{none, some, if◌then◌else◌, add64, sub64}
use hpgs.Scheduler.{
  State, st_init, st_hold, st_exec, st_term, st_ready, st_except, is_exec, is_over, FibreAndThread,
  Scheduler, Worker,
}
use hpgs.Scheduler.{set_state, settle_as, pick, runs_fibre, turn}

abbrev pub is_ready : State → Bool
is_ready st_ready = true
is_ready s = false

-- The task that schedules a fibre again.
abbrev pub again : ℕ → FibreAndThread
again p = record { fibre = some p; cb = none; thread = none }

-- What a fibre is left in when its turn is over.
abbrev pub settled : State → State
settled st_exec = st_hold
settled st_init = st_hold
settled s = s

module _ (p : ℕ) (m : Scheduler) where
  same : p == p ≡ true
  same = (==_iff p p).1 refl

  -- A fibre that is settled from the state `s`.
  Settles : State → Type 0
  Settles s =
      ((settle_as s p m).states p ≡ settled s)
      × ((settle_as s p m).fibres ≡ m.fibres ++ (if is_ready s then again p ∷ [] else []))
      × ((settle_as s p m).active ≡ m.active)
      × ((q : ℕ) → (p == q) ≡ false → (settle_as s p m).states q ≡ m.states q)

  settle_as_lem : (s : State) → m.states p ≡ s → Settles s
  unfolding Settles
  settle_as_lem st_init e = (rw same refl, sym (append-nil m.fibres), refl, λ q n. rw n refl)
  settle_as_lem st_hold e = (rw same refl, sym (append-nil m.fibres), refl, λ q n. rw n refl)
  settle_as_lem st_exec e = (rw same refl, sym (append-nil m.fibres), refl, λ q n. rw n refl)
  settle_as_lem st_term e = (e, sym (append-nil m.fibres), refl, λ q n. refl)
  settle_as_lem st_ready e = (e, refl, refl, λ q n. refl)
  settle_as_lem st_except e = (e, sym (append-nil m.fibres), refl, λ q n. refl)

-- A turn in which the thread takes a fibre that is not over: nothing asserts, the count of active
-- threads is as before, no other fibre changes state, and the fibre is not left in EXEC. It is
-- scheduled again, behind all others, where it swapped out ready, and else is not; one that swapped
-- out without a state is put on hold.
pub turn_fibre_lem :
    (leaves : ℕ → State) (fresh p : ℕ) (w : Worker) (m : Scheduler) (tickle : Bool)
    (t : FibreAndThread) (rest : List FibreAndThread)
    → pick w.thread m.states m.fibres ≡ some (tickle, some t, rest)
    → t.fibre ≡ some p
    → is_exec (m.states p) ≡ false
    → is_over (m.states p) ≡ false
    → m.active < 2 ^ 64 - 1
    → (m' : Scheduler) × (turn leaves fresh w m ≡ some (true, w, m'))
      × (m'.states p ≡ settled (leaves p))
      × (is_exec (m'.states p) ≡ false)
      × (m'.fibres ≡ rest ++ (if is_ready (leaves p) then again p ∷ [] else []))
      × (m'.active ≡ m.active)
      × ((q : ℕ) → (p == q) ≡ false → m'.states q ≡ m.states q)
unfolding turn Settles
turn_fibre_lem leaves fresh p w m tickle t rest picked fibre idle going few =
    let chosen : runs_fibre m.states t ≡ some p = rw fibre (rw going refl) in
    let m0 : Scheduler = record {
      fibres = rest;
      states = set_state p (leaves p) m.states;
      active = sub64 (add64 m.active 1) 1;
      idle = m.idle;
    } in
    let back : m0.states p ≡ leaves p = rw (same p m) refl in
    let (state, tasks, active, others) = settle_as_lem p m0 (leaves p) back in
    (
      settle_as (leaves p) p m0,
      rw (picked, chosen, idle, going) (rw back refl),
      state,
      ap is_exec state ∙ settled_exec (leaves p),
      tasks,
      active ∙ omega (arith, few),
      λ q n. others q n ∙ rw n refl,
    )
  where
    settled_exec : (s : State) → is_exec (settled s) ≡ false
    settled_exec st_init = refl
    settled_exec st_hold = refl
    settled_exec st_exec = refl
    settled_exec st_term = refl
    settled_exec st_ready = refl
    settled_exec st_except = refl
