-- ===== src/IoManager/Add.antt =====
-- `addEvent`: a waiter for one event of a descriptor.
use hpgs.Prelude.{
  ℕ, ◌+◌, ◌*◌, ◌/◌, ◌^◌, ◌<◌, ◌≤◌, ◌≡◌, ◌⊎◌, inl, inr, refl, ap, sym, ◌∙◌, arith, Bool, true, false,
  Bool-cases, List,
}
use hpgs.Prelude.{Option, none, some, get_elem?, set, length, add64, ltb, if◌then◌else◌}
use hpgs.Prelude.Int.{pos}
use mathlib.Core.Path.{subst}
use hpgs.IoManager.{
  Event, no_event, read_event, write_event, Events, has, with_event, is_none, epoll_mask,
  EventContext, FdContext, done, fault, assertion, CtlOp, ctl_add, ctl_mod, IoManager, Caller,
}
use hpgs.IoManager.{set_context, get_context, reset_context, fill_context, contexts_for}
use hpgs.IoManager.Operations.{add_event, add_event_at}
use hpgs.IoManager.Slots.{
  count_events, count-le, length-context_resize, count-context_resize, get_elem?-context_resize,
}
use hpgs.Prelude.{get_elem?-set, get_elem?-lt}
use hpgs.IoManager.Inv.{IsEpoll, IsContext, IsSlot, IsWaiting, IsValid, put_lem, failed_lem}

abbrev pub both : Events
both = record { has_read = true; has_write = true }

-- The context that waits: for the callback, or where there is none for the fibre that calls.
abbrev pub waiting : Caller → Option ℕ → EventContext
waiting who cb = record {
  scheduler = who.scheduler;
  fibre = elim cb [ some f ↦ none | none ↦ some who.fibre ];
  cb = cb;
}

abbrev pub filled : Caller → Event → Option ℕ → FdContext → FdContext
filled who event cb c =
    set_context event (waiting who cb) (record c { events = with_event c.events event })

module _ (who : Caller) (s : ℕ) (scheduled : who.scheduler ≡ some s)
    (runs : who.executing ≡ true) where
  waiting-IsWaiting : (cb : Option ℕ) → IsWaiting (waiting who cb)
  waiting-IsWaiting none = record {
    scheduler = (s, scheduled);
    waits = inr (who.fibre, refl, refl);
  }
  waiting-IsWaiting (some f) = record { scheduler = (s, scheduled); waits = inl (f, refl, refl) }

  fill_context-free :
      (cb : Option ℕ) (x : EventContext)
      → x ≡ reset_context
      → fill_context who cb (some x) ≡ done (waiting who cb)
  fill_context-free none x e = rw (e, runs) refl
  fill_context-free (some f) x e = rw e refl

  filled-IsContext :
      (event : Event) (cb : Option ℕ) (mask mask' : Option ℕ) (i : ℕ) (c : FdContext)
      → has both event ≡ true
      → IsContext mask i c
      → mask' ≡ some (epoll_mask (with_event c.events event))
      → IsContext mask' i (filled who event cb c)
  filled-IsContext no_event cb mask mask' i c e g k = absurd (cc)
  filled-IsContext read_event cb mask mask' i c e g k = record {
    fd = g.fd;
    read_ctx = waiting-IsWaiting cb;
    write_ctx = g.write_ctx;
    known = λ l. k;
  }
  filled-IsContext write_event cb mask mask' i c e g k = record {
    fd = g.fd;
    read_ctx = g.read_ctx;
    write_ctx = waiting-IsWaiting cb;
    known = λ l. k;
  }

-- The vector after `contextResize` has a place for the descriptor, and is in order.
module _ {K : Type 0} {registered : K → ℕ → Option ℕ} (m : IoManager K) (fd : ℕ)
    (v : IsValid registered m) (int : fd < 2 ^ 31) where
  past_end : ltb fd (length m.contexts) ≡ false → length m.contexts ≤ fd
  past_end e = ground arith

  grows : ltb fd (length m.contexts) ≡ false → length m.contexts ≤ fd * 3 / 2
  grows e = omega (arith, past_end e)

  pub contexts_for-lt : fd < length (contexts_for fd m.contexts)
  unfolding contexts_for
  contexts_for-lt = elim (Bool-cases (ltb fd (length m.contexts))) [
    | inl there ↦ rw there (ground arith)
    | inr past ↦
        rw (past, length-context_resize (fd * 3 / 2) m.contexts (grows past))
          (omega (arith, past_end past, v.grown))
  ]

  pub contexts_for-IsValid : IsValid registered (record m { contexts = contexts_for fd m.contexts })
  unfolding contexts_for
  contexts_for-IsValid = elim (Bool-cases (ltb fd (length m.contexts))) [
    | inl there ↦ rw there v
    | inr past ↦ rw past record {
      contexts = λ i c e.
          elim (get_elem?-context_resize (fd * 3 / 2) m.contexts (grows past) i c e) [
            | inl old ↦ v.contexts i c old
            | inr new ↦ subst (IsContext (registered m.epoll i) i) (sym new) (record {
              fd = refl;
              read_ctx = refl;
              write_ctx = refl;
              known = λ l. absurd (busy l);
            })
          ];
      pending = v.pending ∙ sym (count-context_resize (fd * 3 / 2) m.contexts (grows past));
      grown =
          omega (
            arith,
            length-context_resize (fd * 3 / 2) m.contexts (grows past),
            grows past,
            v.grown,
          );
      bounded = omega (arith, length-context_resize (fd * 3 / 2) m.contexts (grows past), int);
    }
  ]
    where
      busy : true ≡ false → ⊥
      busy e = cc

count-filled :
    (who : Caller) (event : Event) (cb : Option ℕ) (c : FdContext)
    → has both event ≡ true
    → has c.events event ≡ false
    → count_events (filled who event cb c).events ≡ count_events c.events + 1
count-filled who no_event cb c e h = absurd (cc)
count-filled who read_event cb c e h = ground arith
count-filled who write_event cb c e h = ground arith

free_slot :
    (mask : Option ℕ) (i : ℕ) (event : Event) (c : FdContext)
    → has both event ≡ true
    → has c.events event ≡ false
    → IsContext mask i c
    → get_context event c ≡ some reset_context
free_slot mask i no_event c e h g = absurd (cc)
free_slot mask i read_event c e h g = ap some (subst (λ b. IsSlot b c.read_ctx) h g.read_ctx)
free_slot mask i write_event c e h g = ap some (subst (λ b. IsSlot b c.write_ctx) h g.write_ctx)

module _ {K : Type 0} {ctl : CtlOp → ℕ → ℕ → K → Bool × K} {registered : K → ℕ → Option ℕ}
    (kernel : IsEpoll ctl registered) where
  -- An addition or a change that succeeds is known to the kernel.
  armed_lem :
      (b : Bool) (fd mask : ℕ) (k : K)
      → (ctl (if b then ctl_add else ctl_mod) fd mask k).0 ≡ true
      → registered (ctl (if b then ctl_add else ctl_mod) fd mask k).1 fd ≡ some mask
  armed_lem true fd mask k ok = kernel.added fd mask k ok
  armed_lem false fd mask k ok = kernel.changed fd mask k ok

  abbrev pub arm : ℕ → Event → FdContext → IoManager K → Bool × K
  arm fd event c m =
      ctl (if is_none c.events then ctl_add else ctl_mod) fd
        (epoll_mask (with_event c.events event)) m.epoll

  -- The part behind the search for the context, where the event is not registered.
  add_new :
      (who : Caller) (s fd : ℕ) (event : Event) (cb : Option ℕ) (m : IoManager K)
      → IsValid registered m
      → who.scheduler ≡ some s
      → who.executing ≡ true
      → has both event ≡ true
      → (c : FdContext) → get_elem? m.contexts fd ≡ some c
      → has c.events event ≡ false
      → (b : Bool) × (m' : IoManager K) × (add_event_at ctl who fd event cb (some c) m
          ≡ done (b, m'))
        × (b ≡ (arm fd event c m).0)
        × IsValid registered m'
        × (m'.scheduled ≡ m.scheduled)
        × ((b ≡ true)
              × (get_elem? m'.contexts fd ≡ some (filled who event cb c))
              × (m'.pending ≡ m.pending + 1)
            ⊎ (b ≡ false) × (m'.contexts ≡ m.contexts) × (m'.pending ≡ m.pending))
  add_new who s fd event cb m v sched runs real c at once =
      let good : IsContext (registered m.epoll fd) fd c = v.contexts fd c at in
      let mask : ℕ = epoll_mask (with_event c.events event) in
      elim (Bool-cases (arm fd event c m).0) [
        | inl ok ↦
            let added : add64 m.pending 1 ≡ m.pending + 1 =
              omega (arith, count-le m.contexts, v.pending, v.bounded) in
            (
              true,
              record m {
                contexts = set m.contexts fd (filled who event cb c);
                pending = add64 m.pending 1;
                epoll = (arm fd event c m).1;
              },
              rw
                  (
                    once,
                    ok,
                    free_slot (registered m.epoll fd) fd event c real once good,
                    fill_context-free who s sched runs cb reset_context refl,
                  )
                  refl,
              sym ok,
              put_lem registered m fd c (filled who event cb c) (arm fd event c m).1
                  (add64 m.pending 1) v at
                  (filled-IsContext who s sched runs event cb (registered m.epoll fd)
                    (registered (arm fd event c m).1 fd) fd c real good
                    (armed_lem (is_none c.events) fd mask m.epoll ok))
                  (λ j n.
                    kernel.apart (if is_none c.events then ctl_add else ctl_mod) fd mask m.epoll j
                      n)
                  (omega (arith, added, count-filled who event cb c real once)),
              refl,
              inl (refl, get_elem?-set m.contexts fd (filled who event cb c) c at, added),
            )
        | inr bad ↦ (
          false,
          record m { epoll = (arm fd event c m).1 },
          rw (once, bad) refl,
          sym bad,
          failed_lem registered ctl kernel (if is_none c.events then ctl_add else ctl_mod) fd mask m
              bad v,
          refl,
          inr (refl, refl, refl),
        )
      ]

  -- `addEvent` finds a context for the descriptor, growing the vector if it must. Where the event is
  -- registered already an assertion fails. Else it returns whether epoll_ctl succeeds, and then the
  -- event is registered and its context waits; otherwise no context changes. It schedules nothing
  -- and keeps the invariant.
  pub add_event_lem :
      (who : Caller) (s fd : ℕ) (event : Event) (cb : Option ℕ) (m : IoManager K)
      → IsValid registered m
      → who.scheduler ≡ some s
      → who.executing ≡ true
      → has both event ≡ true
      → fd < 2 ^ 31
      → (c : FdContext) × (get_elem? (contexts_for fd m.contexts) fd ≡ some c)
        × ((has c.events event ≡ true) × (add_event ctl who (pos fd) event cb m ≡ fault assertion)
            ⊎ (has c.events event ≡ false)
              × ((b : Bool) × (m' : IoManager K) × (add_event ctl who (pos fd) event cb m
                    ≡ done (b, m'))
                  × (b ≡ (arm fd event c m).0)
                  × IsValid registered m'
                  × (m'.scheduled ≡ m.scheduled)
                  × ((b ≡ true)
                        × (get_elem? m'.contexts fd ≡ some (filled who event cb c))
                        × (m'.pending ≡ m.pending + 1)
                      ⊎ (b ≡ false)
                        × (m'.contexts ≡ contexts_for fd m.contexts)
                        × (m'.pending ≡ m.pending))))
  unfolding add_event
  add_event_lem who s fd event cb m v sched runs real int =
      let cs : List FdContext = contexts_for fd m.contexts in
      let wide : IsValid registered (record m { contexts = cs }) =
        contexts_for-IsValid m fd v int in
      let (c, at) = get_elem?-lt cs fd (contexts_for-lt m fd v int) in
      (
        c,
        at,
        elim (Bool-cases (has c.events event)) [
          | inl twice ↦ inl (twice, rw (at, twice) refl)
          | inr once ↦
              let (b, m', run, answer, valid, tasks, rest) =
                add_new who s fd event cb (record m { contexts = cs }) wide sched runs real c at
                  once in
              inr (once, (b, m', rw (at, run) refl, answer, valid, tasks, rest))
        ],
      )
