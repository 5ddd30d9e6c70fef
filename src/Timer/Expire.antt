-- ===== src/Timer/Expire.antt =====
-- `listExpiredCb`: which callbacks it hands over, and the set it leaves.
use hpgs.Prelude.{ℕ, ◌≡◌, refl, ap, sym, ◌∙◌, arith, Bool, true, false, not, ◌&&◌, ◌||◌}
use hpgs.Prelude.{
  List, [], ◌∷◌, append-nil, Option, none, ltb, if◌then◌else◌, Bool-cases, inl, inr, add64,
}
use mathlib.Core.Path.{subst}
use hpgs.Timer.{Timer, Heap, TimerManager, has_cb, update, insert, fire, expire, skip_due}
use hpgs.Timer.{detect_clock_rollover, list_expired_from, list_expired_cb}
use hpgs.Timer.Order.{
  Sorted, contains, Before-contains, each, Sorted-update, insert-Sorted, contains-insert,
}
use hpgs.Timer.Inv.{IsValid}
use hpgs.Timer.Due.{
  due, later, split_lem, contains-due, contains-later, due-Sorted, later-Sorted, none_due,
}

-- The callbacks of some timers, in order.
pub callbacks : Heap → List ℕ → List (Option ℕ)
callbacks h [] = []
callbacks h (p ∷ ps) = (h p).cb ∷ callbacks h ps

-- A timer after it fired.
pub fired : ℕ → Timer → Timer
fired now t = if t.recurring then record t { next = add64 now t.ms } else record t { cb = none }

-- `ps` are to fire, and the set holds the other live timers.
record IsPending (ps : List ℕ) (m : TimerManager) : Type 0 where
  firing : Sorted m.heap ps
  sorted : Sorted m.heap m.timers
  live : (q : ℕ) → (contains q ps || contains q m.timers) ≡ has_cb (m.heap q)
  apart : (q : ℕ) → contains q ps ≡ true → contains q m.timers ≡ false

-- One turn of the loop.
fire_one : ℕ → ℕ → TimerManager → TimerManager
fire_one now p m =
    let t = m.heap p in
    let heap' = update m.heap p (fired now t) in
    record m { heap = heap'; timers = if t.recurring then insert heap' p m.timers else m.timers }

callbacks-update :
    (h : Heap) (p : ℕ) (t : Timer) (xs : List ℕ)
    → contains p xs ≡ false
    → callbacks (update h p t) xs ≡ callbacks h xs
unfolding callbacks
callbacks-update h p t [] c = refl
callbacks-update h p t (x ∷ xs) c = ground (arith, callbacks-update h p t xs (ground arith))

-- Each turn leaves the timers that are still to fire as they were, and the set in order.
fire_one-IsPending :
    (now p : ℕ) (ps : List ℕ) (m : TimerManager)
    → IsPending (p ∷ ps) m
    → IsPending ps (fire_one now p m)
unfolding fire_one fired
fire_one-IsPending now p ps m v = elim (Bool-cases (m.heap p).recurring) [
  | inl again ↦ rw again record {
    firing = Sorted-update m.heap p _ ps fresh v.firing.1;
    sorted = insert-Sorted _ p m.timers (Sorted-update m.heap p _ m.timers out v.sorted);
    live =
        each p
          (ground (
            arith,
            contains-insert (update m.heap p (fired now (m.heap p))) p p m.timers,
            v.live p,
          ))
          (λ q ne. ground (
            arith,
            contains-insert (update m.heap p (fired now (m.heap p))) q p m.timers,
            v.live q,
          ));
    apart =
        each p (λ c. absurd (clash c))
          (λ q ne c. ground (
            arith,
            contains-insert (update m.heap p (fired now (m.heap p))) q p m.timers,
            v.apart q (ground arith),
          ));
  }
  | inr once ↦ rw once record {
    firing = Sorted-update m.heap p _ ps fresh v.firing.1;
    sorted = Sorted-update m.heap p _ m.timers out v.sorted;
    live = each p (ground (arith, fresh, out)) (λ q ne. ground (arith, v.live q));
    apart = λ q c. v.apart q (ground arith);
  }
]
  where
    fresh : contains p ps ≡ false
    fresh = Before-contains m.heap p ps v.firing.0

    out : contains p m.timers ≡ false
    out = v.apart p (ground arith)

    clash : contains p ps ≡ true → ⊥
    clash c = ground (arith, fresh)

-- All turns: the callbacks, the set that is left, and what became of each timer.
fire_lem :
    (now : ℕ) (ps : List ℕ) (m : TimerManager)
    → IsPending ps m
    → let (cbs, m') = fire now ps m in
      (cbs ≡ callbacks m.heap ps)
      × IsValid m'
      × ((q : ℕ) → m'.heap q ≡ (if contains q ps then fired now (m.heap q) else m.heap q))
unfolding fire callbacks fire_one fired
fire_lem now [] m v = (refl, record { sorted = v.sorted; live = v.live }, λ q. refl)
fire_lem now (p ∷ ps) m v =
    let (cbs, valid, after) =
      fire_lem now ps (fire_one now p m) (fire_one-IsPending now p ps m v) in
    let t : Timer = fired now (m.heap p) in
    let fresh : contains p ps ≡ false = Before-contains m.heap p ps v.firing.0 in
    (
      ap (λ x. (m.heap p).cb ∷ x) (cbs ∙ callbacks-update m.heap p t ps fresh),
      valid,
      each p (after p ∙ ground (arith, fresh)) (λ q ne. after q ∙ ground arith),
    )

-- A sorted part of the set that is taken out to fire.
gone-IsPending :
    (gone rest : List ℕ) (m : TimerManager)
    → IsValid m
    → Sorted m.heap gone
    → Sorted m.heap rest
    → ((q : ℕ) → (contains q gone || contains q rest) ≡ contains q m.timers)
    → ((q : ℕ) → contains q gone ≡ true → contains q rest ≡ false)
    → IsPending gone (record m { timers = rest })
gone-IsPending gone rest m v s s' both apart = record {
  firing = s;
  sorted = s';
  live = λ q. both q ∙ v.live q;
  apart = apart;
}

due-IsPending :
    (now : ℕ) (m : TimerManager)
    → IsValid m
    → IsPending (due now m.heap m.timers) (record m { timers = later now m.heap m.timers })
due-IsPending now m v =
    gone-IsPending (due now m.heap m.timers) (later now m.heap m.timers) m v
      (due-Sorted now m.heap m.timers v.sorted) (later-Sorted now m.heap m.timers v.sorted)
      (λ q.
        ground (arith, contains-due now m.heap q m.timers, contains-later now m.heap q m.timers))
      (λ q c.
        ground (arith, contains-due now m.heap q m.timers, contains-later now m.heap q m.timers))

-- The timers that `listExpiredCb` takes: with a rollover all, else those that are due.
pub taken : ℕ → TimerManager → List ℕ
taken now m = if (detect_clock_rollover now m).0 then m.timers else due now m.heap m.timers

-- The way the timers `gone` fire.
Fires : ℕ → List ℕ → TimerManager → List (Option ℕ) × TimerManager → Type 0
Fires now gone m (cbs, m') =
    (cbs ≡ callbacks m.heap gone)
    × IsValid m'
    × ((q : ℕ) → m'.heap q ≡ (if contains q gone then fired now (m.heap q) else m.heap q))

expire_lem :
    (now fresh : ℕ) (rollover : Bool) (m : TimerManager)
    → IsValid m
    → contains fresh m.timers ≡ false
    → Fires now
        (if rollover then m.timers else due now m.heap m.timers)
        m
        (expire now fresh rollover m)
unfolding expire Fires skip_due
expire_lem now fresh true m v c =
    subst (λ x. Fires now m.timers m (fire now x (record m { timers = [] })))
      (sym (append-nil m.timers))
      (fire_lem now m.timers (record m { timers = [] })
        (gone-IsPending m.timers [] m v v.sorted tt (λ q. ground arith) (λ q c. refl)))
expire_lem now fresh false m v c =
    let parts = split_lem now fresh m.heap m.timers v.sorted c in
    rw (parts.0, parts.1)
      (fire_lem now (due now m.heap m.timers) (record m { timers = later now m.heap m.timers })
        (due-IsPending now m v))

none_taken : (now : ℕ) (m : TimerManager) → m.timers ≡ [] → taken now m ≡ []
unfolding taken due
none_taken now m e = elim (Bool-cases (detect_clock_rollover now m).0) [
  | inl back ↦ rw back e
  | inr onward ↦ rw onward (rw e refl)
]

-- Nor does anything fire where the first timer is not due and the clock did not go back.
early_taken :
    (now p : ℕ) (xs : List ℕ) (m : TimerManager)
    → Sorted m.heap m.timers
    → m.timers ≡ p ∷ xs
    → (detect_clock_rollover now m).0 ≡ false
    → ltb now (m.heap p).next ≡ true
    → taken now m ≡ []
unfolding taken
early_taken now p xs m s e onward l =
    rw onward (rw e (none_due now p m.heap xs (subst (Sorted m.heap) e s) l))

list_expired_from_lem :
    (now fresh : ℕ) (m : TimerManager)
    → IsValid m
    → contains fresh m.timers ≡ false
    → (xs : List ℕ) → m.timers ≡ xs
    → Fires now (taken now m) m (list_expired_from now fresh xs m)
unfolding Fires callbacks detect_clock_rollover taken
list_expired_from_lem now fresh m v c [] e = rw (none_taken now m e) (refl, v, λ q. refl)
list_expired_from_lem now fresh m v c (p ∷ xs) e = from_first (detect_clock_rollover now m).0 refl
  where
    now_known : TimerManager
    now_known = record m { previous_time = now }

    v' : IsValid now_known
    v' = record { sorted = v.sorted; live = v.live }

    from_first :
        (b : Bool)
        → (detect_clock_rollover now m).0 ≡ b
        → Fires now (taken now m) m (
            if not b && ltb now (m.heap p).next
            then ([], now_known)
            else expire now fresh b now_known)
    from_first true back = rw back (expire_lem now fresh true now_known v' c)
    from_first false onward = elim (Bool-cases (ltb now (m.heap p).next)) [
      | inl early ↦
          rw early (rw (early_taken now p xs m v.sorted e onward early) (refl, v', λ q. refl))
      | inr late ↦ rw late (rw onward (expire_lem now fresh false now_known v' c))
    ]

-- `listExpiredCb` hands over the callbacks of the timers that are due by now, of all timers after a
-- clock rollover, in the order of the set. It keeps the invariant; just those timers change: a
-- recurring one is due a period from now, another has no callback any more. What leaves the set is
-- the timers that fired and do not recur.
pub list_expired_cb_lem :
    (now fresh : ℕ) (m : TimerManager)
    → IsValid m
    → contains fresh m.timers ≡ false
    → let (cbs, m') = list_expired_cb now fresh m in
      let gone = taken now m in
      (cbs ≡ callbacks m.heap gone)
      × IsValid m'
      × ((q : ℕ) → m'.heap q ≡ (if contains q gone then fired now (m.heap q) else m.heap q))
      × ((q : ℕ)
          → contains q m'.timers
            ≡ (contains q m.timers && (not (contains q gone) || (m.heap q).recurring)))
unfolding list_expired_cb Fires fired
list_expired_cb_lem now fresh m v c =
    let (cbs, v', after) = list_expired_from_lem now fresh m v c m.timers refl in
    (cbs, v', after, λ q. v'.live q ∙ ground (arith, after q, v.live q))
