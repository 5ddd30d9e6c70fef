-- ===== src/Scheduler/Pick.antt =====
-- Which task a thread takes.
use hpgs.Prelude.{
  ℕ, ◌≡◌, ◌⊎◌, inl, inr, refl, ap, Bool, true, false, not, ◌&&◌, Bool-cases, List, [], ◌∷◌, ◌++◌,
  All,
}
use hpgs.Prelude.{Option, none, some}
use hpgs.Scheduler.{State, FibreAndThread, elsewhere, is_null, is_running, any_left, pick}

-- The thread `me` may run the task now.
abbrev pub runnable : ℕ → (ℕ → State) → FibreAndThread → Bool
runnable me states t = not (elsewhere me t) && not (is_running states t)

-- What the search has found among some tasks.
abbrev pub Found :
    ℕ → (ℕ → State) → List FibreAndThread → Option FibreAndThread → List FibreAndThread → Type 0
Found me states tasks chosen rest =
    (chosen ≡ none) × (rest ≡ tasks) × All (λ t. runnable me states t ≡ false) tasks
    ⊎ ((t : FibreAndThread) × (before after : List FibreAndThread) × (chosen ≡ some t)
        × (runnable me states t ≡ true)
        × (tasks ≡ before ++ t ∷ after)
        × (rest ≡ before ++ after)
        × All (λ u. runnable me states u ≡ false) before)

Found-pass :
    (me : ℕ) (states : ℕ → State) (u : FibreAndThread) (tasks : List FibreAndThread)
    (chosen : Option FibreAndThread) (rest : List FibreAndThread)
    → runnable me states u ≡ false
    → Found me states tasks chosen rest
    → Found me states (u ∷ tasks) chosen (u ∷ rest)
Found-pass me states u tasks chosen rest r (inl (c, same, all)) =
    inl (c, ap (λ xs. u ∷ xs) same, (r, all))
Found-pass me states u tasks chosen rest r (inr (t, before, after, c, run, split, left, all)) =
    inr (t, u ∷ before, after, c, run, ap (λ xs. u ∷ xs) split, ap (λ xs. u ∷ xs) left, (r, all))

-- A thread takes the first task that it may run, and leaves the others as they are and in order; where
-- it takes none, there is none that it may run. The assertion holds where no task is empty.
pub pick_lem :
    (me : ℕ) (states : ℕ → State) (tasks : List FibreAndThread)
    → All (λ t. is_null t ≡ false) tasks
    → (tickle : Bool) × (chosen : Option FibreAndThread) × (rest : List FibreAndThread) × (pick me
          states tasks
        ≡ some (tickle, chosen, rest))
      × Found me states tasks chosen rest
unfolding pick
pick_lem me states [] n = (false, none, [], refl, inl (refl, refl, tt))
pick_lem me states (t ∷ ts) n =
    let (tickle, chosen, rest, found, how) = pick_lem me states ts n.1 in
    elim (Bool-cases (elsewhere me t)) [
      | inl other ↦ (
        true,
        chosen,
        t ∷ rest,
        rw (other, found) refl,
        Found-pass me states t ts chosen rest (rw other refl) how,
      )
      | inr here ↦ elim (Bool-cases (is_running states t)) [
        | inl running ↦ (
          tickle,
          chosen,
          t ∷ rest,
          rw (here, n.0, running, found) refl,
          Found-pass me states t ts chosen rest (rw (here, running) refl) how,
        )
        | inr free ↦ (
          any_left ts,
          some t,
          ts,
          rw (here, n.0, free) refl,
          inr (t, [], ts, refl, rw (here, free) refl, refl, refl, tt),
        )
      ]
    ]
