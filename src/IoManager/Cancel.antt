-- ===== src/IoManager/Cancel.antt =====
-- `delEvent` and `cancelEvent`: one event of a descriptor goes.
use hpgs.Prelude.{
  ℕ, ◌+◌, ◌≡◌, ◌⊎◌, inl, inr, refl, arith, Bool, true, false, ◌&&◌, Bool-cases, List, ◌++◌,
}
use hpgs.Prelude.{Option, some, get_elem?, set, sub64, ◌==◌, if◌then◌else◌}
use hpgs.Prelude.Int.{pos}
use hpgs.IoManager.{
  Event, Events, has, without_event, is_none, epoll_mask, FdContext, Task, done, CtlOp, ctl_mod,
  ctl_del, IoManager,
}
use hpgs.IoManager.Operations.{drop_event, del_event, cancel_event}
use hpgs.IoManager.Slots.{count-set, count-le}
use hpgs.Prelude.{get_elem?-set}
use hpgs.IoManager.Inv.{IsEpoll, IsValid, put_lem, failed_lem}
use hpgs.IoManager.Trigger.{tasks, cleared, trigger_event_lem, cleared-IsContext, count-cleared}

module _ {K : Type 0} {ctl : CtlOp → ℕ → ℕ → K → Bool × K} {registered : K → ℕ → Option ℕ}
    (kernel : IsEpoll ctl registered) where
  abbrev pub with_tasks : IoManager K → List Task → IoManager K
  with_tasks m ts = record m { scheduled = ts }

  pub with_tasks-IsValid :
      (m : IoManager K) (ts : List Task)
      → IsValid registered m
      → IsValid registered (with_tasks m ts)
  with_tasks-IsValid m ts v = record {
    contexts = v.contexts;
    pending = v.pending;
    grown = v.grown;
    bounded = v.bounded;
  }

  -- A change of the mask that succeeds is known to the kernel.
  pub changed_lem :
      (b : Bool) (fd mask : ℕ) (k : K)
      → b ≡ false
      → (ctl (if b then ctl_del else ctl_mod) fd mask k).0 ≡ true
      → registered (ctl (if b then ctl_del else ctl_mod) fd mask k).1 fd ≡ some mask
  changed_lem true fd mask k e ok = cc
  changed_lem false fd mask k e ok = kernel.changed fd mask k ok

  -- The count goes down by one, and not below zero.
  pub one_less :
      (m : IoManager K) (fd : ℕ) (event : Event) (c : FdContext)
      → IsValid registered m
      → get_elem? m.contexts fd ≡ some c
      → has c.events event ≡ true
      → sub64 m.pending 1 + 1 ≡ m.pending
  one_less m fd event c v at h = omega (
    arith,
    count-set m.contexts fd c (cleared event c) at,
    count-cleared event c h,
    count-le m.contexts,
    v.pending,
    v.bounded,
  )

  -- One event is cleared, with whatever the kernel made of it.
  pub cleared_lem :
      (m : IoManager K) (fd : ℕ) (event : Event) (c : FdContext) (k : K) (ts : List Task)
      → IsValid registered m
      → get_elem? m.contexts fd ≡ some c
      → has c.events event ≡ true
      → (is_none (without_event c.events event) ≡ false
          → registered k fd ≡ some (epoll_mask (without_event c.events event)))
      → ((j : ℕ) → (fd == j) ≡ false → registered k j ≡ registered m.epoll j)
      → IsValid registered (record m {
        contexts = set m.contexts fd (cleared event c);
        pending = sub64 m.pending 1;
        epoll = k;
        scheduled = ts;
      })
  cleared_lem m fd event c k ts v at h known apart =
      put_lem registered (with_tasks m ts) fd c (cleared event c) k (sub64 m.pending 1)
        (with_tasks-IsValid m ts v) at
        (cleared-IsContext event (registered m.epoll fd) (registered k fd) fd c (v.contexts fd c at)
          known)
        apart (omega (arith, one_less m fd event c v at h, count-cleared event c h))

  module _ (m : IoManager K) (fd : ℕ) (event : Event) (c : FdContext) (v : IsValid registered m)
      (at : get_elem? m.contexts fd ≡ some c) where
    abbrev new_events : Events
    new_events = without_event c.events event

    abbrev op : CtlOp
    op = if is_none new_events then ctl_del else ctl_mod

    dropped-IsValid :
        (ts : List Task)
        → has c.events event ≡ true
        → (ctl op fd (epoll_mask new_events) m.epoll).0 ≡ true
        → IsValid registered (record m {
          contexts = set m.contexts fd (cleared event c);
          pending = sub64 m.pending 1;
          epoll = (ctl op fd (epoll_mask new_events) m.epoll).1;
          scheduled = ts;
        })
    dropped-IsValid ts h ok =
        cleared_lem m fd event c _ ts v at h
          (λ left. changed_lem (is_none new_events) fd (epoll_mask new_events) m.epoll left ok)
          (λ j n. kernel.apart op fd (epoll_mask new_events) m.epoll j n)

    -- `delEvent` returns whether the event is registered and epoll_ctl succeeds. It takes the event away
    -- then, and changes no context otherwise; it schedules nothing, and keeps the invariant.
    pub del_event_lem :
        (b : Bool) × (m' : IoManager K) × (del_event ctl (pos fd) event m ≡ done (b, m'))
        × (b ≡ (has c.events event && (drop_event ctl fd event c m).0))
        × IsValid registered m'
        × (m'.scheduled ≡ m.scheduled)
        × ((b ≡ true)
              × (has c.events event ≡ true)
              × (get_elem? m'.contexts fd ≡ some (cleared event c))
              × (m'.pending + 1 ≡ m.pending)
            ⊎ (b ≡ false) × (m'.contexts ≡ m.contexts) × (m'.pending ≡ m.pending))
    unfolding del_event
    del_event_lem = elim (Bool-cases (has c.events event)) [
      | inl h ↦ elim (Bool-cases (ctl op fd (epoll_mask new_events) m.epoll).0) [
        | inl ok ↦ (
          true,
          record m {
            contexts = set m.contexts fd (cleared event c);
            pending = sub64 m.pending 1;
            epoll = (ctl op fd (epoll_mask new_events) m.epoll).1;
          },
          rw (at, h, ok),
          rw (h, ok) refl,
          dropped-IsValid m.scheduled h ok,
          refl,
          inl (
            refl,
            h,
            get_elem?-set m.contexts fd (cleared event c) c at,
            one_less m fd event c v at h,
          ),
        )
        | inr bad ↦ (
          false,
          record m { epoll = (ctl op fd (epoll_mask new_events) m.epoll).1 },
          rw (at, h, bad),
          rw (h, bad) refl,
          failed_lem registered ctl kernel op fd (epoll_mask new_events) m bad v,
          refl,
          inr (refl, refl, refl),
        )
      ]
      | inr h ↦ (false, m, rw (at, h), rw h refl, v, refl, inr (refl, refl, refl))
    ]

    -- `cancelEvent` returns whether the event is registered and epoll_ctl succeeds. It takes the event
    -- away then, and hands its waiter to the scheduler, once; otherwise it changes no context and
    -- schedules nothing. It keeps the invariant.
    pub cancel_event_lem :
        (b : Bool) × (m' : IoManager K) × (cancel_event ctl (pos fd) event m ≡ done (b, m'))
        × (b ≡ (has c.events event && (drop_event ctl fd event c m).0))
        × IsValid registered m'
        × ((b ≡ true)
              × (has c.events event ≡ true)
              × (get_elem? m'.contexts fd ≡ some (cleared event c))
              × (m'.pending + 1 ≡ m.pending)
              × (m'.scheduled ≡ m.scheduled ++ tasks event c)
            ⊎ (b ≡ false)
              × (m'.contexts ≡ m.contexts)
              × (m'.pending ≡ m.pending)
              × (m'.scheduled ≡ m.scheduled))
    unfolding cancel_event
    cancel_event_lem = elim (Bool-cases (has c.events event)) [
      | inl h ↦ elim (Bool-cases (ctl op fd (epoll_mask new_events) m.epoll).0) [
        | inl ok ↦ (
          true,
          record m {
            contexts = set m.contexts fd (cleared event c);
            pending = sub64 m.pending 1;
            epoll = (ctl op fd (epoll_mask new_events) m.epoll).1;
            scheduled = m.scheduled ++ tasks event c;
          },
          rw (
            at,
            h,
            ok,
            trigger_event_lem event (registered m.epoll fd) fd c (v.contexts fd c at) h,
          ),
          rw (h, ok) refl,
          dropped-IsValid (m.scheduled ++ tasks event c) h ok,
          inl (
            refl,
            h,
            get_elem?-set m.contexts fd (cleared event c) c at,
            one_less m fd event c v at h,
            refl,
          ),
        )
        | inr bad ↦ (
          false,
          record m { epoll = (ctl op fd (epoll_mask new_events) m.epoll).1 },
          rw (at, h, bad),
          rw (h, bad) refl,
          failed_lem registered ctl kernel op fd (epoll_mask new_events) m bad v,
          inr (refl, refl, refl, refl),
        )
      ]
      | inr h ↦ (false, m, rw (at, h), rw h refl, v, inr (refl, refl, refl, refl))
    ]
