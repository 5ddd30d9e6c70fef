-- ===== src/IoManager/Idle.antt =====
-- A ready descriptor in `idle`, and `cancelAll`.
use hpgs.Prelude.{
  ℕ, ◌≡◌, ◌⊎◌, inl, inr, refl, ap, sym, ◌∙◌, arith, Bool, true, false, not, ◌&&◌, ◌||◌, Bool-cases,
}
use hpgs.Prelude.{Option, some, get_elem?, if◌then◌else◌}
use hpgs.Prelude.Int.{pos}
use hpgs.IoManager.{
  read_event, write_event, Events, has, is_none, epoll_mask, FdContext, done, fault, assertion,
  CtlOp, ctl_mod, ctl_del, IoManager,
}
use hpgs.IoManager.{Reported, real_events, both_events, left_events, trigger_event}
use hpgs.IoManager.Operations.{ready, cancel_all, then_write, trigger_if}
use hpgs.IoManager.Inv.{IsEpoll, IsValid, failed_lem}
use hpgs.IoManager.Trigger.{trigger_event_lem}
use hpgs.IoManager.Ready.{cleared_all, AllGone, trigger_both, cleared_all-left}

module _ {K : Type 0} {ctl : CtlOp → ℕ → ℕ → K → Bool × K} {registered : K → ℕ → Option ℕ}
    (kernel : IsEpoll ctl registered) (m : IoManager K) (fd : ℕ) (c : FdContext)
    (v : IsValid registered m) (at : get_elem? m.contexts fd ≡ some c) where
  -- Nothing but the kernel's state may have changed.
  abbrev pub Untouched : IoManager K → Type 0
  Untouched m' =
      IsValid registered m'
      × (m'.contexts ≡ m.contexts)
      × (m'.pending ≡ m.pending)
      × (m'.scheduled ≡ m.scheduled)

  module _ (r : Reported) where
    abbrev pub real : Events
    real = real_events r c.events

    abbrev pub left : Events
    left = left_events c.events real

    abbrev pub rearm : Bool × K
    rearm = ctl (if is_none left then ctl_del else ctl_mod) c.fd (epoll_mask left) m.epoll

    -- A report that is out of date: one event is still registered, the other is not any more. Where
    -- epoll_ctl succeeds the program ends in a failing assertion.
    pub ready_stale :
        (r.epoll_in && r.epoll_out) ≡ true
        → (c.events.has_read || c.events.has_write) ≡ true
        → (c.events.has_read && c.events.has_write) ≡ false
        → rearm.0 ≡ true
        → ready ctl fd r m ≡ fault assertion
    unfolding ready trigger_event
    ready_stale both one not_two ok = elim (Bool-cases c.events.has_read) [
      | inl h ↦
          rw
            (
              at,
              some_both,
              ok,
              real_in,
              real_out,
              trigger_event_lem read_event (registered m.epoll fd) fd c (v.contexts fd c at) h,
              no_write h,
            )
            refl
      | inr h ↦ rw (at, some_both, ok, real_in, h) refl
    ]
      where
        some_both : is_none (both_events c.events real) ≡ false
        some_both = ground arith

        no_write : c.events.has_read ≡ true → c.events.has_write ≡ false
        no_write h = ground arith

        real_in : real.has_read ≡ true
        real_in = ground arith

        real_out : real.has_write ≡ true
        real_out = ground arith

  -- `cancelAll` returns whether some event is registered and epoll_ctl succeeds. It takes every event
  -- away then and schedules the waiters, the reader first, and its last assertion holds; otherwise
  -- it changes no context. It keeps the invariant.
  pub cancel_all_lem :
      (b : Bool) × (m' : IoManager K) × (cancel_all ctl (pos fd) m ≡ done (b, m'))
      × (b ≡ (not (is_none c.events) && (ctl ctl_del fd 0 m.epoll).0))
      × ((b ≡ true) × AllGone kernel fd c.events c m m' ⊎ (b ≡ false) × Untouched m')
  unfolding cancel_all
  cancel_all_lem = elim (Bool-cases (is_none c.events)) [
    | inl nothing ↦
        (false, m, rw (at, nothing) refl, rw nothing refl, inr (refl, (v, refl, refl, refl)))
    | inr any ↦ elim (Bool-cases (ctl ctl_del fd 0 m.epoll).0) [
      | inl ok ↦
          let (m', run, gone) =
            trigger_both kernel m fd c v at (ctl ctl_del fd 0 m.epoll).1
              (λ j n. kernel.apart ctl_del fd 0 m.epoll j n) c.events.has_read c.events.has_write
              (ground arith) (λ e. e) (λ e. e) (λ l. absurd (some_left l)) in
          (
            true,
            m',
            rw (at, any, ok, same_write, run, all_gone) refl,
            rw (any, ok) refl,
            inl (refl, gone),
          )
      | inr bad ↦ (
        false,
        record m { epoll = (ctl ctl_del fd 0 m.epoll).1 },
        rw (at, any, bad) refl,
        rw (any, bad) refl,
        inr (refl, (failed_lem registered ctl kernel ctl_del fd 0 m bad v, refl, refl, refl)),
      )
    ]
  ]
    where
      all_gone : is_none (cleared_all c.events c).events ≡ true
      all_gone = ap is_none (cleared_all-left c.events c) ∙ ground arith

      some_left : is_none (cleared_all c.events c).events ≡ false → ⊥
      some_left l = clash (sym all_gone ∙ l)
        where
          clash : true ≡ false → ⊥
          clash e = cc

      same_write :
          then_write ctl
            (λ c'. has c'.events write_event)
            fd
            (trigger_if ctl c.events.has_read fd read_event c
              (record m { epoll = (ctl ctl_del fd 0 m.epoll).1 }))
          ≡ then_write ctl
              (λ c'. c.events.has_write)
              fd
              (trigger_if ctl c.events.has_read fd read_event c
                (record m { epoll = (ctl ctl_del fd 0 m.epoll).1 }))
      same_write = by_flag c.events.has_read refl
        where
          by_flag :
              (b : Bool)
              → c.events.has_read ≡ b
              → then_write ctl
                  (λ c'. has c'.events write_event)
                  fd
                  (trigger_if ctl b fd read_event c
                    (record m { epoll = (ctl ctl_del fd 0 m.epoll).1 }))
                ≡ then_write ctl
                    (λ c'. c.events.has_write)
                    fd
                    (trigger_if ctl b fd read_event c
                      (record m { epoll = (ctl ctl_del fd 0 m.epoll).1 }))
          by_flag true h =
              rw (trigger_event_lem read_event (registered m.epoll fd) fd c (v.contexts fd c at) h)
                refl
          by_flag false h = refl
