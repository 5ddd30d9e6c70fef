-- ===== src/Hook/Flags.antt =====
-- src/util/hook.cc: fcntl, ioctl and setsockopt, on the table of FdManager. The flags of a descriptor are
-- O_NONBLOCK and the rest; `kernel` is what the kernel holds of them. What F_SETFL makes of them and of
-- its argument is the parameter `setfl`, and what FIONBIO makes of them `fionbio`; `none` is a refusal.
pub mod RoundTrip
use hpgs.Prelude.Int.{ℤ, pos, negsuc}
use hpgs.Prelude.{
  ℕ, ◌+◌, ◌*◌, ◌/◌, ◌≡◌, refl, ap, sym, ◌∙◌, arith, Bool, true, false, not, ◌&&◌, ◌||◌, Option,
  none, some, ◌==◌, if◌then◌else◌, Bool-cases, inl, inr, add64,
}
use hpgs.FdManager.{FdCtx, FdManager, Looked, create, out_of_range, look, set_timeout, get_timeout}
use hpgs.FdManager

pub record Flags : Type 0 where
  pub rest : ℕ
  pub o_nonblock : Bool

pub record Files : Type 0 where
  pub manager : FdManager
  pub kernel : ℕ → Flags

-- `fdMgr::GetInstance()->get(fd)`.
abbrev pub looked_up : Looked → Option ℕ
looked_up (FdManager.answer p) = p
looked_up create = none
looked_up out_of_range = none

abbrev pub ctx_of : ℕ → FdManager → Option ℕ
ctx_of fd m = looked_up (look (pos fd) false m)

-- `!ctx || ctx->isClose() || !ctx->isSocket()`
abbrev pub is_plain : FdCtx → Bool
is_plain c = c.is_closed || not c.is_socket

-- The call of the system, which changes nothing where it fails.
abbrev pub set_kernel : ℕ → Option Flags → Files → Files
set_kernel fd none s = s
set_kernel fd (some new) s = record s { kernel = λ q. if fd == q then new else s.kernel q }

abbrev pub set_object : ℕ → FdCtx → Files → Files
set_object p c s =
    let m = s.manager in
    record s { manager = record m { objects = λ q. if p == q then c else m.objects q } }

module _ (setfl : Flags → Flags → Option Flags) where
  -- `fcntl(fd, F_SETFL, arg)`.
  abbrev pub set_flags_of : ℕ → Flags → Files → Option ℕ → Files
  set_flags_of fd arg s none = set_kernel fd (setfl (s.kernel fd) arg) s
  set_flags_of fd arg s (some p) =
      let c = s.manager.objects p in
      if is_plain c
      then set_kernel fd (setfl (s.kernel fd) arg) s
      else set_kernel fd (setfl (s.kernel fd) (record arg { o_nonblock = c.sys_nonblock }))
          (set_object p (record c { user_nonblock = arg.o_nonblock }) s)

  unfoldable pub set_flags : ℕ → Flags → Files → Files
  set_flags fd arg s = set_flags_of fd arg s (ctx_of fd s.manager)

-- `fcntl(fd, F_GETFL)`.
abbrev pub get_flags_of : ℕ → Files → Option ℕ → Flags
get_flags_of fd s none = s.kernel fd
get_flags_of fd s (some p) =
    let c = s.manager.objects p in
    if is_plain c then s.kernel fd else record (s.kernel fd) { o_nonblock = c.user_nonblock }

unfoldable pub get_flags : ℕ → Files → Flags
get_flags fd s = get_flags_of fd s (ctx_of fd s.manager)

-- `ioctl(fd, FIONBIO, &value)`.
abbrev pub set_nonblock_of : ℕ → Bool → Files → Option ℕ → Files
set_nonblock_of fd user_nonblock s none = s
set_nonblock_of fd user_nonblock s (some p) =
    let c = s.manager.objects p in
    if is_plain c then s else set_object p (record c { user_nonblock = user_nonblock }) s

unfoldable pub set_nonblock : (Flags → Bool → Option Flags) → ℕ → Bool → Files → Files
set_nonblock fionbio fd user_nonblock s =
    set_kernel fd (fionbio (s.kernel fd) user_nonblock)
      (set_nonblock_of fd user_nonblock s (ctx_of fd s.manager))

abbrev sol_socket : ℕ
sol_socket = 1

abbrev so_rcvtimeo : ℕ
so_rcvtimeo = 20

abbrev so_sndtimeo : ℕ
so_sndtimeo = 21

abbrev pub set_socket_timeout_of : Bool → ℕ → ℕ → Files → Option ℕ → Files
set_socket_timeout_of receives tv_sec tv_usec s none = s
set_socket_timeout_of receives tv_sec tv_usec s (some p) =
    set_object p
      (set_timeout receives (add64 (tv_sec * 1000) (tv_usec / 1000)) (s.manager.objects p)) s

-- `setsockopt`; the call of the system that ends it sets nothing here.
unfoldable pub set_socket_option : Bool → ℕ → ℕ → ℕ → ℕ → ℕ → Files → Files
set_socket_option hook_enable fd level optname tv_sec tv_usec s =
    if not hook_enable
    then s
    else if level == sol_socket && (optname == so_rcvtimeo || optname == so_sndtimeo)
    then set_socket_timeout_of (optname == so_rcvtimeo) tv_sec tv_usec s (ctx_of fd s.manager)
    else s
