-- ===== src/Timer/Inv.antt =====
-- The invariant of the timer manager, and the operations on one timer: `addTimer`, `cancel`,
-- `refresh` and `reset`.
use hpgs.Prelude.{ℕ, ◌≡◌, refl, ap, sym, ◌∙◌, arith, Bool, true, false, not, ◌&&◌, ◌||◌}
use hpgs.Prelude.{List, none, some, ◌==◌, Bool-cases, inl, inr, add64, ==_iff}
use mathlib.Core.Path.{subst}
use hpgs.Timer.{Timer, Heap, TimerManager, has_cb, update, insert, erase}
use hpgs.Timer.{add_timer_locked, add_timer, cancel, refresh}
use hpgs.Timer.Order.{Sorted, contains, insert-Sorted, contains-insert, erase-Sorted}
use hpgs.Timer.Order.{contains-erase, find-some, Sorted-same_next, Sorted-update}

-- The set is in order, and holds just the timers that have a callback.
pub record IsValid (m : TimerManager) : Type 0 where
  pub sorted : Sorted m.heap m.timers
  pub live : (q : ℕ) → contains q m.timers ≡ has_cb (m.heap q)

-- A test for `p` that only another value can fail.
or_self :
    (h : Heap) (p q : ℕ)
    → has_cb (h p) ≡ true
    → (p == q || (not (p == q) && has_cb (h q))) ≡ has_cb (h q)
or_self h p q c = elim (Bool-cases (p == q)) [
  | inl it ↦ rw it (sym (subst (λ x. has_cb (h x) ≡ true) ((==_iff p q).0 it) c))
  | inr other ↦ rw other
]

-- A set with `p` taken out, and `p` changed to a timer with a callback and put in again.
put_back :
    (m : TimerManager) (h : Heap) (p : ℕ) (xs : List ℕ) (b : Bool)
    → Sorted h xs
    → has_cb (h p) ≡ true
    → ((q : ℕ) → contains q xs ≡ (not (p == q) && has_cb (h q)))
    → IsValid (record m { heap = h; timers = insert h p xs; tickled = b })
put_back m h p xs b s c e = record {
  sorted = insert-Sorted h p xs s;
  live = λ q. contains-insert h q p xs ∙ ap (λ x. p == q || x) (e q) ∙ or_self h p q c;
}

-- Adding a timer at an address that holds no live timer keeps the invariant; the new timer is in the
-- set, due `ms` from now, and no other timer joins or leaves.
pub add_timer-IsValid :
    (now p ms c : ℕ) (recurring : Bool) (m : TimerManager)
    → IsValid m
    → has_cb (m.heap p) ≡ false
    → let m' = (add_timer now p ms (some c) recurring m).1 in
      IsValid m'
      × ((m'.heap p).next ≡ add64 now ms)
      × ((q : ℕ) → contains q m'.timers ≡ (p == q || contains q m.timers))
unfolding add_timer add_timer_locked
add_timer-IsValid now p ms c recurring m v free = (
  put_back m h p m.timers _ (Sorted-update m.heap p t m.timers outside v.sorted) (ground arith)
      (λ q. elim (Bool-cases (p == q)) [
        | inl it ↦ rw it (subst (λ x. contains x m.timers ≡ false) ((==_iff p q).0 it) outside)
        | inr other ↦ rw other (v.live q ∙ ground arith)
      ]),
  ground arith,
  λ q. contains-insert h q p m.timers,
)
  where
    t : Timer
    t = record { recurring = recurring; ms = ms; next = add64 now ms; cb = some c }

    h : Heap
    h = update m.heap p t

    outside : contains p m.timers ≡ false
    outside = v.live p ∙ free

absent :
    (p q : ℕ) (xs : List ℕ)
    → contains p xs ≡ false
    → contains q xs ≡ (not (p == q) && contains q xs)
absent p q xs e = elim (Bool-cases (p == q)) [
  | inl it ↦ rw it (subst (λ x. contains x xs ≡ false) ((==_iff p q).0 it) e)
  | inr other ↦ rw other
]

-- A live timer taken out, changed but for its callback, and put in again.
module _ (m : TimerManager) (v : IsValid m) (p : ℕ) (t : Timer) where
  pub moved :
      (b : Bool)
      → has_cb t ≡ true
      → IsValid (record m {
        heap = update m.heap p t;
        timers = insert (update m.heap p t) p (erase p m.timers);
        tickled = b;
      })
  moved b alive =
      put_back m (update m.heap p t) p (erase p m.timers) b
        (Sorted-update m.heap p t (erase p m.timers)
          (contains-erase m.heap p p m.timers v.sorted ∙ ground arith)
          (erase-Sorted m.heap p m.timers v.sorted))
        (ground arith)
        (λ q.
          contains-erase m.heap q p m.timers v.sorted
          ∙ ap (λ x. not (p == q) && x) (v.live q)
          ∙ ground arith)

  pub contains-moved :
      has_cb (m.heap p) ≡ true
      → (q : ℕ) → contains q (insert (update m.heap p t) p (erase p m.timers)) ≡ contains q m.timers
  contains-moved alive q =
      contains-insert (update m.heap p t) q p (erase p m.timers)
      ∙ ap (λ x. p == q || x) (contains-erase m.heap q p m.timers v.sorted)
      ∙ ap (λ x. p == q || (not (p == q) && x)) (v.live q)
      ∙ or_self m.heap p q alive
      ∙ sym (v.live q)

-- `cancel` never erases `end()`. It returns whether the timer was live; afterwards the timer has no
-- callback, is not in the set, and every other timer is in the set as before.
pub cancel_lem :
    (p : ℕ) (m : TimerManager)
    → IsValid m
    → (m' : TimerManager) × (cancel p m ≡ some (has_cb (m.heap p), m'))
      × IsValid m'
      × (has_cb (m'.heap p) ≡ false)
      × ((q : ℕ) → contains q m'.timers ≡ (not (p == q) && contains q m.timers))
unfolding cancel
cancel_lem p m v = elim (Bool-cases (has_cb (m.heap p))) [
  | inl alive ↦ (
    record m { heap = h; timers = erase p m.timers },
    rw (alive, find-some h p m.timers same_order (v.live p ∙ alive)),
    record {
      sorted = erase-Sorted h p m.timers same_order;
      live = λ q.
          contains-erase m.heap q p m.timers v.sorted
          ∙ ap (λ x. not (p == q) && x) (v.live q)
          ∙ ground arith;
    },
    ground arith,
    λ q. contains-erase m.heap q p m.timers v.sorted,
  )
  | inr dead ↦ (m, rw dead, v, dead, λ q. absent p q m.timers (v.live p ∙ dead))
]
  where
    h : Heap
    h = update m.heap p (record (m.heap p) { cb = none })

    same_order : Sorted h m.timers
    same_order = Sorted-same_next m.heap h m.timers (λ q. ground arith) v.sorted

-- `refresh` of a live timer moves it to `now + ms` and keeps the set as it was; of any other it
-- returns false and changes nothing.
pub refresh_lem :
    (now p : ℕ) (m : TimerManager)
    → IsValid m
    → let (done, m') = refresh now p m in
      (done ≡ has_cb (m.heap p))
      × IsValid m'
      × (done ≡ true → (m'.heap p).next ≡ add64 now (m.heap p).ms)
      × (done ≡ false → m' ≡ m)
      × ((q : ℕ) → contains q m'.timers ≡ contains q m.timers)
unfolding refresh
refresh_lem now p m v = elim (Bool-cases (has_cb (m.heap p))) [
  | inl alive ↦
      rw (alive, find-some m.heap p m.timers v.sorted (v.live p ∙ alive))
        (
          refl,
          moved m v p (record (m.heap p) { next = add64 now (m.heap p).ms }) m.tickled alive,
          λ e. ground arith,
          λ e. cc,
          λ q. contains-moved m v p (record (m.heap p) { next = add64 now (m.heap p).ms }) alive q,
        )
  | inr dead ↦ rw dead (refl, v, λ e. cc, λ e. refl, λ q. refl)
]
