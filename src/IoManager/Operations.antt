-- ===== src/IoManager/Operations.antt =====
-- src/concurrency/iomanager.cc: addEvent, delEvent, cancelEvent, cancelAll and the body of the loop
-- over ready events in idle.
use hpgs.Prelude.{ℕ, Bool, true, false, not, List, ◌++◌, get_elem?, set}
use hpgs.Prelude.{Option, none, some, if◌then◌else◌, add64, sub64}
use hpgs.Prelude.Int.{ℤ, pos, negsuc}
use hpgs.IoManager.{
  Event, read_event, write_event, has, with_event, without_event, is_none, epoll_mask,
}
use hpgs.IoManager.{EventContext, FdContext, Task, Result, assertion, out_of_bounds, done, fault}
use hpgs.IoManager.{
  get_context, set_context, reset_context, trigger_event, CtlOp, ctl_add, ctl_mod, ctl_del,
}
use hpgs.IoManager.{IoManager, Caller, contexts_for, fill_context}
use hpgs.IoManager.{Reported, real_events, both_events, left_events}

module _ {K : Type 0} (ctl : CtlOp → ℕ → ℕ → K → Bool × K) where
  -- The end of `addEvent`, once epoll_ctl has answered.
  abbrev pub store_context :
      ℕ → Event → FdContext → Result EventContext → IoManager K → Result (Bool × IoManager K)
  store_context fd event c (fault e) m = fault e
  store_context fd event c (done x) m =
      let c' = set_context event x (record c { events = with_event c.events event }) in
      done (true, record m { contexts = set m.contexts fd c'; pending = add64 m.pending 1 })

  abbrev pub add_event_at :
      Caller → ℕ → Event → Option ℕ → Option FdContext → IoManager K → Result (Bool × IoManager K)
  add_event_at who fd event cb none m = fault out_of_bounds
  add_event_at who fd event cb (some c) m =
      let op = if is_none c.events then ctl_add else ctl_mod in
      let (success, epoll') = ctl op fd (epoll_mask (with_event c.events event)) m.epoll in
      let m' = record m { epoll = epoll' } in
      if has c.events event
      then fault assertion
      else if not success
      then done (false, m')
      else store_context fd event c (fill_context who cb (get_context event c)) m'

  -- `addEvent`; true stands for 0 and false for -1.
  unfoldable pub add_event :
      Caller → ℤ → Event → Option ℕ → IoManager K → Result (Bool × IoManager K)
  add_event who (negsuc n) event cb m = fault out_of_bounds
  add_event who (pos fd) event cb m =
      let contexts' = contexts_for fd m.contexts in
      add_event_at who fd event cb (get_elem? contexts' fd) (record m { contexts = contexts' })

  -- The epoll_ctl call of `delEvent` and `cancelEvent`.
  abbrev pub drop_event : ℕ → Event → FdContext → IoManager K → Bool × IoManager K
  drop_event fd event c m =
      let new_events = without_event c.events event in
      let op = if is_none new_events then ctl_del else ctl_mod in
      let (success, epoll') = ctl op fd (epoll_mask new_events) m.epoll in
      (success, record m { epoll = epoll' })

  abbrev pub del_event_at : ℕ → Event → Option FdContext → IoManager K → Result (Bool × IoManager K)
  del_event_at fd event none m = done (false, m)
  del_event_at fd event (some c) m =
      let (success, m') = drop_event fd event c m in
      let c' =
        set_context event reset_context (record c { events = without_event c.events event }) in
      if not (has c.events event)
      then done (false, m)
      else if not success
      then done (false, m')
      else done (true, record m' { contexts = set m.contexts fd c'; pending = sub64 m.pending 1 })

  -- `delEvent`.
  unfoldable pub del_event : ℤ → Event → IoManager K → Result (Bool × IoManager K)
  del_event (negsuc n) event m = fault out_of_bounds
  del_event (pos fd) event m = del_event_at fd event (get_elem? m.contexts fd) m

  -- `triggerEvent` and the count, in the place `fd`.
  abbrev pub store_trigger :
      ℕ → Result (List Task × FdContext) → IoManager K → Result (FdContext × IoManager K)
  store_trigger fd (fault e) m = fault e
  store_trigger fd (done (tasks, c)) m = done (
    c,
    record m {
      contexts = set m.contexts fd c;
      pending = sub64 m.pending 1;
      scheduled = m.scheduled ++ tasks;
    },
  )

  abbrev pub trigger_at : ℕ → Event → FdContext → IoManager K → Result (FdContext × IoManager K)
  trigger_at fd event c m = store_trigger fd (trigger_event event c) m

  abbrev pub answer_true : Result (FdContext × IoManager K) → Result (Bool × IoManager K)
  answer_true (fault e) = fault e
  answer_true (done (c, m)) = done (true, m)

  abbrev pub cancel_event_at :
      ℕ → Event → Option FdContext → IoManager K → Result (Bool × IoManager K)
  cancel_event_at fd event none m = done (false, m)
  cancel_event_at fd event (some c) m =
      let (success, m') = drop_event fd event c m in
      if not (has c.events event)
      then done (false, m)
      else if not success
      then done (false, m')
      else answer_true (trigger_at fd event c m')

  -- `cancelEvent`.
  unfoldable pub cancel_event : ℤ → Event → IoManager K → Result (Bool × IoManager K)
  cancel_event (negsuc n) event m = fault out_of_bounds
  cancel_event (pos fd) event m = cancel_event_at fd event (get_elem? m.contexts fd) m

  -- `if(wanted){ triggerEvent(event); --m_pendingEventCount; }`
  abbrev pub trigger_if :
      Bool → ℕ → Event → FdContext → IoManager K → Result (FdContext × IoManager K)
  trigger_if wanted fd event c m = if wanted then trigger_at fd event c m else done (c, m)

  -- WRITE after READ, in `cancelAll` where it is registered, in `idle` where it was reported.
  abbrev pub then_write :
      (FdContext → Bool) → ℕ → Result (FdContext × IoManager K) → Result (FdContext × IoManager K)
  then_write wanted fd (fault e) = fault e
  then_write wanted fd (done (c, m)) = trigger_if (wanted c) fd write_event c m

  abbrev pub assert_none : Result (FdContext × IoManager K) → Result (Bool × IoManager K)
  assert_none (fault e) = fault e
  assert_none (done (c, m)) = if is_none c.events then done (true, m) else fault assertion

  abbrev pub cancel_all_at : ℕ → Option FdContext → IoManager K → Result (Bool × IoManager K)
  cancel_all_at fd none m = done (false, m)
  cancel_all_at fd (some c) m =
      let (success, epoll') = ctl ctl_del fd 0 m.epoll in
      let m' = record m { epoll = epoll' } in
      if is_none c.events
      then done (false, m)
      else if not success
      then done (false, m')
      else assert_none (
          then_write (λ c'. has c'.events write_event) fd
            (trigger_if (has c.events read_event) fd read_event c m'))

  -- `cancelAll`.
  unfoldable pub cancel_all : ℤ → IoManager K → Result (Bool × IoManager K)
  cancel_all (negsuc n) m = fault out_of_bounds
  cancel_all (pos fd) m = cancel_all_at fd (get_elem? m.contexts fd) m

  -- The body of the loop of `idle` for a ready descriptor; the event's pointer is to the context `p`.
  abbrev pub ready_at : ℕ → Reported → Option FdContext → IoManager K → Result (Bool × IoManager K)
  ready_at p r none m = fault out_of_bounds
  ready_at p r (some c) m =
      let real = real_events r c.events in
      let left = left_events c.events real in
      let op = if is_none left then ctl_del else ctl_mod in
      let (success, epoll') = ctl op c.fd (epoll_mask left) m.epoll in
      let m' = record m { epoll = epoll' } in
      if is_none (both_events c.events real)
      then done (false, m)
      else if not success
      then done (false, m')
      else answer_true
          (then_write (λ c'. real.has_write) p (trigger_if real.has_read p read_event c m'))

  unfoldable pub ready : ℕ → Reported → IoManager K → Result (Bool × IoManager K)
  ready p r m = ready_at p r (get_elem? m.contexts p) m
