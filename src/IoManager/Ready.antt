-- ===== src/IoManager/Ready.antt =====
-- Where both events of a descriptor may go at once: ready descriptors in `idle`, and `cancelAll`.
use hpgs.Prelude.{
  ℕ, ◌+◌, ◌≡◌, refl, ap, sym, arith, Bool, true, false, ◌||◌, List, [], ◌++◌, append-nil,
  append_assoc,
}
use hpgs.Prelude.{Option, some, get_elem?, set, sub64, ◌==◌, if◌then◌else◌}
use hpgs.IoManager.{
  Event, read_event, write_event, Events, is_none, epoll_mask, FdContext, Task, done, CtlOp,
  IoManager,
}
use hpgs.IoManager.{left_events}
use hpgs.IoManager.Operations.{trigger_if, then_write}
use hpgs.IoManager.Slots.{count_events, count-set, count-le}
use hpgs.Prelude.{get_elem?-set, set-set}
use hpgs.IoManager.Inv.{IsEpoll, IsContext, IsValid, put_lem}
use hpgs.IoManager.Trigger.{tasks, cleared, trigger_event_lem, cleared-IsContext}
use hpgs.IoManager.Cancel.{with_tasks, with_tasks-IsValid, one_less, cleared_lem}

abbrev pub cleared_if : Bool → Event → FdContext → FdContext
cleared_if wanted event c = if wanted then cleared event c else c

abbrev pub tasks_if : Bool → Event → FdContext → List Task
tasks_if wanted event c = if wanted then tasks event c else []

-- A context after the events `gone` are gone, and what it hands to the schedulers.
abbrev pub cleared_all : Events → FdContext → FdContext
cleared_all gone c = cleared_if gone.has_write write_event (cleared_if gone.has_read read_event c)

abbrev pub tasks_all : Events → FdContext → List Task
tasks_all gone c = tasks_if gone.has_read read_event c ++ tasks_if gone.has_write write_event c

pub cleared_all-left :
    (gone : Events) (c : FdContext) → (cleared_all gone c).events ≡ left_events c.events gone
cleared_all-left gone c = ground arith

module _ {K : Type 0} {ctl : CtlOp → ℕ → ℕ → K → Bool × K} {registered : K → ℕ → Option ℕ}
    (kernel : IsEpoll ctl registered) where
  -- What is left of the two calls of `triggerEvent` when `gone` was registered.
  abbrev pub AllGone : ℕ → Events → FdContext → IoManager K → IoManager K → Type 0
  AllGone fd gone c m m' =
      IsValid registered m'
      × (get_elem? m'.contexts fd ≡ some (cleared_all gone c))
      × (m'.pending + count_events gone ≡ m.pending)
      × (m'.scheduled ≡ m.scheduled ++ tasks_all gone c)

  module _ (m : IoManager K) (fd : ℕ) (c : FdContext) (v : IsValid registered m)
      (at : get_elem? m.contexts fd ≡ some c) (k : K)
      (apart : (j : ℕ) → (fd == j) ≡ false → registered k j ≡ registered m.epoll j) where
    good : IsContext (registered m.epoll fd) fd c
    good = v.contexts fd c at

    without_read :
        {mask : Option ℕ}
        → mask ≡ some (epoll_mask (cleared read_event c).events)
        → IsContext mask fd (cleared read_event c)
    without_read {mask} e =
        cleared-IsContext read_event (registered m.epoll fd) mask fd c good (λ left. e)

    -- Both events gone.
    two_gone :
        c.events.has_read ≡ true
        → c.events.has_write ≡ true
        → (ts : List Task)
        → IsValid registered (record m {
          contexts = set m.contexts fd (cleared write_event (cleared read_event c));
          pending = sub64 (sub64 m.pending 1) 1;
          epoll = k;
          scheduled = ts;
        })
          × (sub64 (sub64 m.pending 1) 1 + 2 ≡ m.pending)
    two_gone hr hw ts =
        let n : sub64 (sub64 m.pending 1) 1 + 2 ≡ m.pending = ground (
          arith,
          count-set m.contexts fd c (cleared write_event (cleared read_event c)) at,
          count-le m.contexts,
          v.pending,
          v.bounded,
        ) in
        (
          put_lem registered (with_tasks kernel m ts) fd c
              (cleared write_event (cleared read_event c)) k (sub64 (sub64 m.pending 1) 1)
              (with_tasks-IsValid kernel m ts v) at
              (cleared-IsContext write_event (some (epoll_mask (cleared read_event c).events))
                (registered k fd) fd (cleared read_event c) (without_read refl) (λ e. cc))
              apart (ground (arith, n)),
          n,
        )

    pub trigger_both :
        (r w : Bool)
        → r || w ≡ true
        → (r ≡ true → c.events.has_read ≡ true)
        → (w ≡ true → c.events.has_write ≡ true)
        → let gone : Events = record { has_read = r; has_write = w } in
          (is_none (cleared_all gone c).events ≡ false
            → registered k fd ≡ some (epoll_mask (cleared_all gone c).events))
          → (m' : IoManager K) × (then_write ctl
                (λ c'. w)
                fd
                (trigger_if ctl r fd read_event c (record m { epoll = k }))
              ≡ done (cleared_all gone c, m'))
            × AllGone fd gone c m m'
    trigger_both false false any hr hw known = absurd (cc)
    trigger_both true false any hr hw known = (
      record m {
        contexts = set m.contexts fd (cleared read_event c);
        pending = sub64 m.pending 1;
        epoll = k;
        scheduled = m.scheduled ++ tasks read_event c;
      },
      rw (trigger_event_lem read_event (registered m.epoll fd) fd c good (hr refl)) refl,
      (
        cleared_lem kernel m fd read_event c k _ v at (hr refl) known apart,
        get_elem?-set m.contexts fd (cleared read_event c) c at,
        one_less kernel m fd read_event c v at (hr refl),
        ap (λ t. m.scheduled ++ t) (sym (append-nil (tasks read_event c))),
      ),
    )
    trigger_both false true any hr hw known = (
      record m {
        contexts = set m.contexts fd (cleared write_event c);
        pending = sub64 m.pending 1;
        epoll = k;
        scheduled = m.scheduled ++ tasks write_event c;
      },
      rw (trigger_event_lem write_event (registered m.epoll fd) fd c good (hw refl)) refl,
      (
        cleared_lem kernel m fd write_event c k _ v at (hw refl) known apart,
        get_elem?-set m.contexts fd (cleared write_event c) c at,
        one_less kernel m fd write_event c v at (hw refl),
        refl,
      ),
    )
    trigger_both true true any hr hw known =
        let ts = (m.scheduled ++ tasks read_event c) ++ tasks write_event c in
        let both = two_gone (hr refl) (hw refl) ts in
        (
          record m {
            contexts = set m.contexts fd (cleared write_event (cleared read_event c));
            pending = sub64 (sub64 m.pending 1) 1;
            epoll = k;
            scheduled = ts;
          },
          rw
              (
                trigger_event_lem read_event (registered m.epoll fd) fd c good (hr refl),
                trigger_event_lem write_event (some (epoll_mask (cleared read_event c).events)) fd
                    (cleared read_event c) (without_read refl) (hw refl),
                set-set m.contexts fd (cleared read_event c)
                    (cleared write_event (cleared read_event c)),
              )
              refl,
          (
            both.0,
            get_elem?-set m.contexts fd (cleared write_event (cleared read_event c)) c at,
            both.1,
            append_assoc m.scheduled (tasks read_event c) (tasks write_event c),
          ),
        )
