-- ===== src/IoManager/Trigger.antt =====
-- `triggerEvent`: the waiter is handed to its scheduler, and the context is free again.
use hpgs.Prelude.{
  ℕ, ◌+◌, ◌≡◌, refl, arith, true, false, List, [], ◌∷◌, Option, none, some, inl, inr,
}
use mathlib.Core.Path.{subst}
use hpgs.IoManager.{
  Event, no_event, read_event, write_event, has, without_event, is_none, epoll_mask, EventContext,
  FdContext,
}
use hpgs.IoManager.{
  reset_context, set_context, Task, callback, resume, done, trigger_event, trigger_context,
}
use hpgs.IoManager.Slots.{count_events}
use hpgs.IoManager.Inv.{IsWaiting, IsSlot, IsContext}

-- What a context hands to its scheduler.
abbrev pub task_of : EventContext → List Task
task_of x = elim x.scheduler [
  | none ↦ []
  | some s ↦ elim x.cb [
    | some f ↦ callback s f ∷ []
    | none ↦ elim x.fibre [ some f ↦ resume s f ∷ [] | none ↦ [] ]
  ]
]

abbrev pub tasks : Event → FdContext → List Task
tasks no_event c = []
tasks read_event c = task_of c.read_ctx
tasks write_event c = task_of c.write_ctx

-- A context after one of its events is gone.
abbrev pub cleared : Event → FdContext → FdContext
cleared event c =
    set_context event reset_context (record c { events = without_event c.events event })

trigger_context-waiting :
    (event : Event) (c : FdContext) (x : EventContext)
    → IsWaiting x
    → trigger_context event c (some x) ≡ done (task_of x, set_context event reset_context c)
trigger_context-waiting event c x w = elim w.waits [
  | inl (f, cb, fibre) ↦ rw (w.scheduler.1, cb, fibre)
  | inr (f, fibre, cb) ↦ rw (w.scheduler.1, cb, fibre)
]

pub trigger_event_lem :
    (event : Event) (mask : Option ℕ) (i : ℕ) (c : FdContext)
    → IsContext mask i c
    → has c.events event ≡ true
    → trigger_event event c ≡ done (tasks event c, cleared event c)
unfolding trigger_event
trigger_event_lem no_event mask i c g h = cc
trigger_event_lem read_event mask i c g h = rw h (
    trigger_context-waiting read_event (record c { events = without_event c.events read_event })
      c.read_ctx (subst (λ b. IsSlot b c.read_ctx) h g.read_ctx))
trigger_event_lem write_event mask i c g h = rw h (
    trigger_context-waiting write_event (record c { events = without_event c.events write_event })
      c.write_ctx (subst (λ b. IsSlot b c.write_ctx) h g.write_ctx))

-- The context that is left is in order, where the kernel watches for the events that are left.
pub cleared-IsContext :
    (event : Event) (mask mask' : Option ℕ) (i : ℕ) (c : FdContext)
    → IsContext mask i c
    → (is_none (without_event c.events event) ≡ false
        → mask' ≡ some (epoll_mask (without_event c.events event)))
    → IsContext mask' i (cleared event c)
cleared-IsContext no_event mask mask' i c g k = record {
  fd = g.fd;
  read_ctx = g.read_ctx;
  write_ctx = g.write_ctx;
  known = k;
}
cleared-IsContext read_event mask mask' i c g k = record {
  fd = g.fd;
  read_ctx = refl;
  write_ctx = g.write_ctx;
  known = k;
}
cleared-IsContext write_event mask mask' i c g k = record {
  fd = g.fd;
  read_ctx = g.read_ctx;
  write_ctx = refl;
  known = k;
}

pub count-cleared :
    (event : Event) (c : FdContext)
    → has c.events event ≡ true
    → count_events (cleared event c).events + 1 ≡ count_events c.events
count-cleared no_event c h = cc
count-cleared read_event c h = ground arith
count-cleared write_event c h = ground arith
