-- ===== src/IoManager.antt =====
-- src/concurrency/iomanager.cc: the events that descriptors wait for. A FdContext is its place in
-- m_fdContexts, which never hands one pointer to two places. `ctl` is epoll_ctl on the state `K` of
-- the kernel, and answers whether it succeeded. The tasks that are scheduled are kept in order.
-- Each operation holds the mutex of its FdContext throughout. Sizes of the vector fit an `int`.
pub mod Operations
pub mod Slots
pub mod Inv
pub mod Trigger
pub mod Add
pub mod Cancel
pub mod Ready
pub mod Idle
pub mod Tests
use hpgs.Prelude.{ℕ, zero, suc, ◌+◌, ◌-◌, ◌*◌, ◌/◌, ◌^◌, Bool, true, false, not, ◌&&◌, ◌||◌}
use hpgs.Prelude.{
  List, [], ◌∷◌, ◌++◌, length, get_elem?, set, take, Option, none, some, ltb, leb, if◌then◌else◌,
  add64, sub64,
}
use hpgs.Prelude.Int.{ℤ, pos, negsuc}

pub data Event : Type 0 where
  no_event : Event
  read_event : Event
  write_event : Event

-- A set of READ and WRITE.
pub record Events : Type 0 where
  pub has_read : Bool
  pub has_write : Bool

abbrev pub has : Events → Event → Bool
has es no_event = false
has es read_event = es.has_read
has es write_event = es.has_write

-- `events | event` and `events & ~event`.
abbrev pub with_event : Events → Event → Events
with_event es no_event = es
with_event es read_event = record es { has_read = true }
with_event es write_event = record es { has_write = true }

abbrev pub without_event : Events → Event → Events
without_event es no_event = es
without_event es read_event = record es { has_read = false }
without_event es write_event = record es { has_write = false }

abbrev pub is_none : Events → Bool
is_none es = not (es.has_read || es.has_write)

-- `EPOLLET | events`.
abbrev pub epoll_mask : Events → ℕ
epoll_mask es = 2 ^ 31 + (if es.has_read then 1 else 0) + (if es.has_write then 4 else 0)

pub record EventContext : Type 0 where
  pub scheduler : Option ℕ
  pub fibre : Option ℕ
  pub cb : Option ℕ

pub record FdContext : Type 0 where
  pub read_ctx : EventContext
  pub write_ctx : EventContext
  pub fd : ℕ
  pub events : Events

-- What a scheduler is given to run.
pub data Task : Type 0 where
  callback : ℕ → ℕ → Task
  resume : ℕ → ℕ → Task

pub data Fault : Type 0 where
  assertion : Fault
  null_scheduler : Fault
  out_of_bounds : Fault

pub data Result {ℓ} (A : Type ℓ) : Type ℓ where
  done : A → Result A
  fault : Fault → Result A

-- `getContext`; `none` is its failing assertion.
abbrev pub get_context : Event → FdContext → Option EventContext
get_context no_event c = none
get_context read_event c = some c.read_ctx
get_context write_event c = some c.write_ctx

abbrev pub set_context : Event → EventContext → FdContext → FdContext
set_context no_event x c = c
set_context read_event x c = record c { read_ctx = x }
set_context write_event x c = record c { write_ctx = x }

-- `resetContext`.
abbrev pub reset_context : EventContext
reset_context = record { scheduler = none; fibre = none; cb = none }

-- `schedule(&ctx.cb)` or `schedule(&ctx.fibre)`: the pointer is swapped out, and a null one dropped.
abbrev pub schedule_context : ℕ → EventContext → List Task × EventContext
schedule_context s x = elim x.cb [
  | some f ↦ (callback s f ∷ [], record x { scheduler = none; cb = none })
  | none ↦ (
    elim x.fibre [ some f ↦ resume s f ∷ [] | none ↦ [] ],
    record x { scheduler = none; fibre = none },
  )
]

abbrev pub trigger_context :
    Event → FdContext → Option EventContext → Result (List Task × FdContext)
trigger_context event c none = fault assertion
trigger_context event c (some x) = elim x.scheduler [
  | none ↦ fault null_scheduler
  | some s ↦ let (tasks, x') = schedule_context s x in done (tasks, set_context event x' c)
]

-- `triggerEvent`.
pub trigger_event : Event → FdContext → Result (List Task × FdContext)
trigger_event event c =
    if not (has c.events event)
    then fault assertion
    else trigger_context event (record c { events = without_event c.events event })
        (get_context event c)

pub data CtlOp : Type 0 where
  ctl_add : CtlOp
  ctl_mod : CtlOp
  ctl_del : CtlOp

pub record IoManager (K : Type 0) : Type 0 where
  pub contexts : List FdContext
  pub pending : ℕ
  pub epoll : K
  pub scheduled : List Task

-- The thread that calls `addEvent`: `Scheduler::GetThis()`, and `Fibre::GetThis()` with whether it is
-- in the state EXEC.
pub record Caller : Type 0 where
  pub scheduler : Option ℕ
  pub fibre : ℕ
  pub executing : Bool

-- `contextResize`.
pub new_contexts : ℕ → ℕ → List FdContext
new_contexts i zero = []
new_contexts i (suc n) =
    record {
      read_ctx = reset_context;
      write_ctx = reset_context;
      fd = i;
      events = record { has_read = false; has_write = false };
    }
    ∷ new_contexts (i + 1) n

pub context_resize : ℕ → List FdContext → List FdContext
context_resize size cs = take size cs ++ new_contexts (length cs) (size - length cs)

-- The vector in which `addEvent` finds the context of `fd`.
pub contexts_for : ℕ → List FdContext → List FdContext
contexts_for fd cs = if ltb fd (length cs) then cs else context_resize (fd * 3 / 2) cs

abbrev pub is_free : EventContext → Bool
is_free x = elim x.scheduler [
  | some s ↦ false
  | none ↦ elim x.fibre [ some f ↦ false | none ↦ elim x.cb [ some f ↦ false | none ↦ true ] ]
]

-- The context that `addEvent` fills in.
abbrev pub fill_context : Caller → Option ℕ → Option EventContext → Result EventContext
fill_context who cb none = fault assertion
fill_context who cb (some x) = if not (is_free x) then fault assertion else elim cb [
  | some f ↦ done (record x { scheduler = who.scheduler; cb = some f })
  | none ↦
      if who.executing
      then done (record x { scheduler = who.scheduler; fibre = some who.fibre })
      else fault assertion
]

-- What epoll reports of a descriptor: EPOLLIN, EPOLLOUT, and EPOLLERR or EPOLLHUP.
pub record Reported : Type 0 where
  pub epoll_in : Bool
  pub epoll_out : Bool
  pub err_or_hup : Bool

-- `real_events`: an error stands for every event that is registered.
abbrev pub real_events : Reported → Events → Events
real_events r es = record {
  has_read = r.epoll_in || (r.err_or_hup && es.has_read);
  has_write = r.epoll_out || (r.err_or_hup && es.has_write);
}

-- `fd_ctx->events & real_events` and `fd_ctx->events & ~real_events`.
abbrev pub both_events : Events → Events → Events
both_events es real = record {
  has_read = es.has_read && real.has_read;
  has_write = es.has_write && real.has_write;
}

abbrev pub left_events : Events → Events → Events
left_events es real = record {
  has_read = es.has_read && not real.has_read;
  has_write = es.has_write && not real.has_write;
}
