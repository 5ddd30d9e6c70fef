-- ===== src/Hook/Tests.antt =====
-- Calls on descriptor 4 under a kernel that accepts every change.
use hpgs.Prelude.{
  ℕ, ◌≤◌, ◌<◌, ◌≡◌, ◌⊎◌, ◌+◌, ◌*◌, ◌^◌, refl, arith, inl, Bool, true, false, List, [], ◌∷◌, none,
  some,
}
use hpgs.FdManager.{FdCtx, no_timeout, look}
use hpgs.IoManager.{read_event, IoManager, Caller, CtlOp}
use hpgs.Timer.{TimerManager}
use hpgs.Prelude.{◌==◌}
use hpgs.Hook.{got}
use hpgs.IoManager.{done}
use hpgs.IoManager.Tests.{Watched, watch, watch-IsEpoll, manager, manager-IsValid, duplex}
use hpgs.IoManager.Ready.{AllGone}
use hpgs.IoManager.Idle.{Untouched}
use hpgs.IoManager.{write_event}
use hpgs.Hook.Held.{facts}
use hpgs.Hook.Call.{view}
use hpgs.Hook.Connect.Begun.{Begins}
use hpgs.Hook.Connect.{connect_move, begin, einprogress}
use hpgs.Hook.Connect.Outcome.{Follows, connect-Follows}
use hpgs.Hook.Close.{Tables, close}
use hpgs.Hook.Close.Cleared.{close_lem}
use hpgs.Hook.{
  failed, trying, Io, Move, answer, expire, callback, resume, meanwhile, eagain, move, run,
}
use hpgs.Hook.Blocking.{Simulates, move-Simulates}
use hpgs.Hook.Waiting.{Untimed, run-Untimed}
use hpgs.Hook.Flags.{ctx_of, Flags, Files, set_flags, get_flags}
use hpgs.Hook.Flags.RoundTrip.{Asked, IsSocket, IsFcntl, get_flags-set_flags}
use hpgs.Prelude.{Option, ap, sym, some-injective}
use hpgs.Hook.Sleep.{sleep_ms, usleep_ms, nanosleep_ms, sleep_bounds}

abbrev ctl : CtlOp → ℕ → ℕ → ℕ → Bool × ℕ
ctl op fd mask k = (true, mask)

abbrev who : Caller
who = record { scheduler = some 0; fibre = 7; executing = true }

abbrev no_contexts : IoManager ℕ
no_contexts = record { contexts = []; pending = 0; epoll = 0; scheduled = [] }

abbrev no_timers : TimerManager
no_timers = record {
  heap = λ p. record { recurring = false; ms = 0; next = 0; cb = none };
  timers = [];
  tickled = false;
  previous_time = 0;
}

abbrev start : Io ℕ
start = record {
  phase = trying;
  cancelled = 0;
  errno = 0;
  expired = 0;
  iom = no_contexts;
  timers = no_timers;
}

-- The first wait ends by the event just as its timer is taken; the callback then runs during the second.
abbrev stale_moves : List (Move ℕ)
stale_moves =
    answer (failed eagain) 0 1
    ∷ expire
    ∷ meanwhile no_contexts
    ∷ resume
    ∷ answer (failed eagain) 100 2
    ∷ callback
    ∷ resume
    ∷ []

move-Simulates_example :
    Simulates ctl who 4 read_event 100 5 start
      (answer (failed eagain) 0 1)
      (move ctl who 4 read_event 100 5 (answer (failed eagain) 0 1) start)
move-Simulates_example =
    move-Simulates ctl who 4 read_event 100 5 (answer (failed eagain) 0 1) start (inl refl)

run-Untimed_example : Untimed no_timers (run ctl who 4 read_event no_timeout 5 stale_moves start)
run-Untimed_example =
    run-Untimed ctl who 4 read_event 5 no_timers stale_moves start
      (record { no_timer = refl; none_expired = refl; in_time = refl; same_timers = refl })

abbrev socket_object : FdCtx
socket_object = record {
  is_init = true;
  is_socket = true;
  sys_nonblock = true;
  user_nonblock = false;
  is_closed = false;
  fd = 0;
  recv_timeout = no_timeout;
  send_timeout = no_timeout;
}

abbrev one_socket : Files
one_socket = record {
  manager = record { datas = some 9 ∷ []; objects = λ p. socket_object; nonblock = λ q. true };
  kernel = λ q. record { rest = 2; o_nonblock = true };
}

abbrev blocking : Flags
blocking = record { rest = 2; o_nonblock = false }

one_socket_known : IsSocket 0 9 one_socket
unfolding look
one_socket_known = record { known = refl; not_plain = refl }

-- A kernel that takes O_NONBLOCK and no other flag.
abbrev setfl : Flags → Flags → Option Flags
setfl old arg = some (record old { o_nonblock = arg.o_nonblock })

abbrev fionbio : Flags → Bool → Option Flags
fionbio old b = some (record old { o_nonblock = b })

setfl-IsFcntl : IsFcntl setfl
setfl-IsFcntl = record {
  settles = λ old arg new e. ap (λ (f : Flags). f.o_nonblock) (sym (some-injective e));
}

get_flags-set_flags_example :
    let s' = set_flags setfl 0 blocking one_socket in
    ((get_flags 0 s').o_nonblock ≡ false)
    × ((get_flags 0 s').rest ≡ (s'.kernel 0).rest)
    × Asked setfl (one_socket.kernel 0) blocking true (s'.kernel 0)
get_flags-set_flags_example =
    get_flags-set_flags setfl 0 9 blocking one_socket setfl-IsFcntl one_socket_known

sleep_bounds_example :
    (((5 * 1000 < 2 ^ 32) × (sleep_ms 5 ≡ 5 * 1000))
      ⊎ ((2 ^ 32 ≤ 5 * 1000) × (sleep_ms 5 < 5 * 1000)))
    × (usleep_ms 1500 * 1000 ≤ 1500)
    × (1500 < usleep_ms 1500 * 1000 + 1000)
    × (nanosleep_ms 1 2000000 * 1000 * 1000 ≤ 1 * 1000 * 1000 * 1000 + 2000000)
    × (1 * 1000 * 1000 * 1000 + 2000000 < (nanosleep_ms 1 2000000 + 1) * 1000 * 1000)
sleep_bounds_example = sleep_bounds 5 1500 1 2000000 (omega arith)

-- Descriptor 2 has a reader and a writer that wait.
abbrev tables : Tables Watched
tables = record {
  manager = record {
    datas = none ∷ none ∷ some 9 ∷ [];
    objects = λ p. socket_object;
    nonblock = λ q. true;
  };
  iom = some manager;
}

tables-known : ctx_of 2 tables.manager ≡ some 9
unfolding look
tables-known = refl

close_lem_example :
    (t' : Tables Watched) × (m' : IoManager Watched) × (b : Bool) × (close watch true 2 tables
      ≡ done t')
    × (t'.iom ≡ some m')
    × (ctx_of 2 t'.manager ≡ none)
    × ((q : ℕ) → (2 == q) ≡ false → ctx_of q t'.manager ≡ ctx_of q tables.manager)
    × (b ≡ true)
    × ((b ≡ true) × AllGone watch-IsEpoll 2 duplex.events duplex manager m'
        ⊎ (b ≡ false) × Untouched watch-IsEpoll manager 2 duplex manager-IsValid refl m')
close_lem_example =
    close_lem watch-IsEpoll manager 2 duplex manager-IsValid refl tables 9 refl tables-known

-- The connection is in progress; later SO_ERROR is 111.
connect-Follows_example :
    Begins
      (facts ctl who 4 write_event 100 5 trying (answer (failed einprogress) 0 1) start)
      0
      (failed einprogress)
      (view (begin ctl who 4 100 5 true (some socket_object) (failed einprogress) 0 1 start))
    × Follows ctl who 4 100 5 start
        (answer (got 111) 0 1)
        (connect_move ctl who 4 100 5 (answer (got 111) 0 1) start)
connect-Follows_example =
    connect-Follows ctl who 4 100 5 socket_object (failed einprogress) 0 1 (answer (got 111) 0 1)
      start start refl refl refl (inl refl)
