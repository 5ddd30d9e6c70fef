-- ===== src/IoManager/Tests.antt =====
-- A kernel that never refuses, and a manager with three descriptors.
use hpgs.Prelude.{
  ℕ, ◌+◌, ◌^◌, ◌≡◌, ◌⊎◌, inl, inr, refl, zero, suc, arith, Bool, true, false, [], ◌∷◌,
}
use hpgs.Prelude.{Option, none, some, get_elem?, ◌==◌, if◌then◌else◌}
use hpgs.Prelude.Int.{pos}
use mathlib.Core.Path.{subst}
use hpgs.IoManager.{
  read_event, write_event, has, EventContext, FdContext, done, fault, assertion, callback, resume,
}
use hpgs.IoManager.{
  CtlOp, ctl_add, ctl_mod, ctl_del, IoManager, Caller, Reported, contexts_for, trigger_event,
}
use hpgs.IoManager.Operations.{add_event, del_event, cancel_event, cancel_all}
use hpgs.IoManager.Slots.{free_context, count}
use hpgs.Prelude.{some-injective}
use hpgs.IoManager.Inv.{IsEpoll, IsContext, IsWaiting, IsValid}
use hpgs.IoManager.Trigger.{cleared}
use hpgs.IoManager.Add.{add_event_lem, filled, arm}
use hpgs.IoManager.Cancel.{del_event_lem, cancel_event_lem}
use hpgs.IoManager.Ready.{AllGone}
use hpgs.IoManager.Idle.{Untouched, cancel_all_lem}

abbrev pub Watched : Type 0
Watched = ℕ → Option ℕ

abbrev pub watch : CtlOp → ℕ → ℕ → Watched → Bool × Watched
watch ctl_del fd mask k = (true, λ j. if fd == j then none else k j)
watch op fd mask k = (true, λ j. if fd == j then some mask else k j)

abbrev pub watched : Watched → ℕ → Option ℕ
watched k j = k j

watch-others :
    (op : CtlOp) (fd mask : ℕ) (k : Watched) (other : ℕ)
    → (fd == other) ≡ false
    → watched (watch op fd mask k).1 other ≡ watched k other
watch-others ctl_add fd mask k other n = rw n refl
watch-others ctl_mod fd mask k other n = rw n refl
watch-others ctl_del fd mask k other n = rw n refl

watch-succeeds : (op : CtlOp) (fd mask : ℕ) (k : Watched) → (watch op fd mask k).0 ≡ false → ⊥
watch-succeeds ctl_add fd mask k e = cc
watch-succeeds ctl_mod fd mask k e = cc
watch-succeeds ctl_del fd mask k e = cc

pub watch-IsEpoll : IsEpoll watch watched
watch-IsEpoll = record {
  added = λ fd mask k ok. ground arith;
  changed = λ fd mask k ok. ground arith;
  apart = watch-others;
  failed = λ op fd mask k e. absurd (watch-succeeds op fd mask k e);
}

abbrev waiting_cb : ℕ → EventContext
waiting_cb f = record { scheduler = some 1; fibre = none; cb = some f }

abbrev reader : FdContext
reader = record (free_context 1) {
  read_ctx = waiting_cb 7;
  events = record { has_read = true; has_write = false };
}

abbrev pub duplex : FdContext
duplex = record (free_context 2) {
  read_ctx = waiting_cb 8;
  write_ctx = record { scheduler = some 1; fibre = some 9; cb = none };
  events = record { has_read = true; has_write = true };
}

abbrev pub manager : IoManager Watched
manager = record {
  contexts = free_context 0 ∷ reader ∷ duplex ∷ [];
  pending = 3;
  epoll = λ j. if 1 == j then some (2 ^ 31 + 1) else if 2 == j then some (2 ^ 31 + 5) else none;
  scheduled = [];
}

waiting_cb-IsWaiting : (f : ℕ) → IsWaiting (waiting_cb f)
waiting_cb-IsWaiting f = record { scheduler = (1, refl); waits = inl (f, refl, refl) }

busy : true ≡ false → ⊥
busy e = cc

place :
    (i : ℕ) (c : FdContext)
    → get_elem? manager.contexts i ≡ some c
    → IsContext (watched manager.epoll i) i c
place zero c e =
    subst (IsContext (watched manager.epoll 0) 0) (some-injective e)
      (record { fd = refl; read_ctx = refl; write_ctx = refl; known = λ l. absurd (busy l) })
place (suc zero) c e =
    subst (IsContext (watched manager.epoll 1) 1) (some-injective e)
      (record { fd = refl; read_ctx = waiting_cb-IsWaiting 7; write_ctx = refl; known = λ l. refl })
place (suc (suc zero)) c e =
    subst (IsContext (watched manager.epoll 2) 2) (some-injective e) (record {
      fd = refl;
      read_ctx = waiting_cb-IsWaiting 8;
      write_ctx = record { scheduler = (1, refl); waits = inr (9, refl, refl) };
      known = λ l. refl;
    })
place (suc (suc (suc i))) c e = absurd (cc)

pub manager-IsValid : IsValid watched manager
unfolding count
manager-IsValid = record {
  contexts = place;
  pending = refl;
  grown = omega arith;
  bounded = omega arith;
}

-- Cancelling both events of the third descriptor runs the callback, then the fibre.
cancels_both :
    cancel_all watch (pos 2) manager
    ≡ done (
      true,
      record manager {
        contexts = free_context 0 ∷ reader ∷ free_context 2 ∷ [];
        pending = 1;
        epoll = (watch ctl_del 2 0 manager.epoll).1;
        scheduled = callback 1 8 ∷ resume 1 9 ∷ [];
      },
    )
unfolding cancel_all trigger_event
cancels_both = refl

abbrev input : Reported
input = record { epoll_in = true; epoll_out = false; err_or_hup = false }

abbrev input_and_output : Reported
input_and_output = record { epoll_in = true; epoll_out = true; err_or_hup = false }

abbrev caller : Caller
caller = record { scheduler = some 1; fibre = 4; executing = true }

cancel_all_lem_example :
    (b : Bool) × (m' : IoManager Watched) × (cancel_all watch (pos 2) manager ≡ done (b, m'))
    × (b ≡ true)
    × ((b ≡ true) × AllGone watch-IsEpoll 2 duplex.events duplex manager m'
        ⊎ (b ≡ false) × Untouched watch-IsEpoll manager 2 duplex manager-IsValid refl m')
cancel_all_lem_example = cancel_all_lem watch-IsEpoll manager 2 duplex manager-IsValid refl

del_event_lem_example :
    (b : Bool) × (m' : IoManager Watched) × (del_event watch (pos 2) read_event manager
      ≡ done (b, m'))
    × (b ≡ true)
    × IsValid watched m'
    × (m'.scheduled ≡ [])
    × ((b ≡ true)
          × (true ≡ true)
          × (get_elem? m'.contexts 2 ≡ some (cleared read_event duplex))
          × (m'.pending + 1 ≡ 3)
        ⊎ (b ≡ false) × (m'.contexts ≡ manager.contexts) × (m'.pending ≡ 3))
del_event_lem_example = del_event_lem watch-IsEpoll manager 2 read_event duplex manager-IsValid refl

cancel_event_lem_example :
    (b : Bool) × (m' : IoManager Watched) × (cancel_event watch (pos 2) write_event manager
      ≡ done (b, m'))
    × (b ≡ true)
    × IsValid watched m'
    × ((b ≡ true)
          × (true ≡ true)
          × (get_elem? m'.contexts 2 ≡ some (cleared write_event duplex))
          × (m'.pending + 1 ≡ 3)
          × (m'.scheduled ≡ resume 1 9 ∷ [])
        ⊎ (b ≡ false) × (m'.contexts ≡ manager.contexts) × (m'.pending ≡ 3) × (m'.scheduled ≡ []))
cancel_event_lem_example =
    cancel_event_lem watch-IsEpoll manager 2 write_event duplex manager-IsValid refl

-- The descriptor 5 makes the vector grow to seven places.
add_event_lem_example :
    (c : FdContext) × (get_elem? (contexts_for 5 manager.contexts) 5 ≡ some c)
    × ((has c.events read_event ≡ true)
          × (add_event watch caller (pos 5) read_event (some 3) manager ≡ fault assertion)
        ⊎ (has c.events read_event ≡ false)
          × ((b : Bool) × (m' : IoManager Watched) × (add_event watch caller
                  (pos 5)
                  read_event
                  (some 3)
                  manager
                ≡ done (b, m'))
              × (b ≡ (arm watch-IsEpoll 5 read_event c manager).0)
              × IsValid watched m'
              × (m'.scheduled ≡ [])
              × ((b ≡ true)
                    × (get_elem? m'.contexts 5 ≡ some (filled caller read_event (some 3) c))
                    × (m'.pending ≡ 4)
                  ⊎ (b ≡ false)
                    × (m'.contexts ≡ contexts_for 5 manager.contexts)
                    × (m'.pending ≡ 3))))
add_event_lem_example =
    add_event_lem watch-IsEpoll caller 1 5 read_event (some 3) manager manager-IsValid refl refl
      refl (omega arith)
