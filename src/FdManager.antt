-- ===== src/FdManager.antt =====
-- src/util/fd_manager.cc: the contexts of descriptors. A `FdCtx::ptr` is an address, and `objects` is
-- what the addresses hold; the null pointer is `none`. `fstat` is the answer of the call for each
-- descriptor, `none` where it fails and else whether it is a socket; `nonblock` is the flag O_NONBLOCK
-- of the kernel. `get` gives up its lock between two steps, so it is two functions. Sizes fit an `int`.
pub mod Room
pub mod Get
mod Tests
use hpgs.Prelude.{
  ℕ, zero, suc, ◌-◌, ◌*◌, ◌/◌, ◌^◌, Bool, true, false, not, ◌&&◌, ◌||◌, List, [], ◌∷◌, ◌++◌,
}
use hpgs.Prelude.{
  Option, none, some, length, get_elem?, set, take, replicate, ltb, ◌==◌, if◌then◌else◌,
}
use hpgs.Prelude.Int.{ℤ, pos, negsuc}

pub record FdCtx : Type 0 where
  pub is_init : Bool
  pub is_socket : Bool
  pub sys_nonblock : Bool
  pub user_nonblock : Bool
  pub is_closed : Bool
  pub fd : ℕ
  pub recv_timeout : ℕ
  pub send_timeout : ℕ

-- `-1` as a `uint64_t`.
abbrev pub no_timeout : ℕ
no_timeout = 0xffff_ffff_ffff_ffff

-- `FdCtx::init`: whether the descriptor is one, the object, and the kernel's flags.
pub init : (ℕ → Option Bool) → FdCtx → (ℕ → Bool) → Bool × FdCtx × (ℕ → Bool)
init fstat c nonblock =
    let opened : Bool = elim (fstat c.fd) [ none ↦ false | some s ↦ true ] in
    let socket : Bool = elim (fstat c.fd) [ none ↦ false | some s ↦ s ] in
    if c.is_init then (true, c, nonblock) else (
      opened,
      record c {
        is_init = opened;
        is_socket = socket;
        sys_nonblock = socket;
        user_nonblock = false;
        is_closed = false;
        recv_timeout = no_timeout;
        send_timeout = no_timeout;
      },
      λ q. (c.fd == q && socket) || nonblock q,
    )

-- `FdCtx::FdCtx`.
pub new_fd_ctx : (ℕ → Option Bool) → ℕ → (ℕ → Bool) → FdCtx × (ℕ → Bool)
new_fd_ctx fstat fd nonblock =
    let blank : FdCtx = record {
      is_init = false;
      is_socket = false;
      sys_nonblock = false;
      user_nonblock = false;
      is_closed = false;
      fd = fd;
      recv_timeout = no_timeout;
      send_timeout = no_timeout;
    } in
    let (done, ctx, nonblock') = init fstat blank nonblock in (ctx, nonblock')

-- `setTimeout` and `getTimeout`; `receives` is `type == SO_RCVTIMEO`.
pub set_timeout : Bool → ℕ → FdCtx → FdCtx
set_timeout receives v c =
    if receives then record c { recv_timeout = v } else record c { send_timeout = v }

pub get_timeout : Bool → FdCtx → ℕ
get_timeout receives c = if receives then c.recv_timeout else c.send_timeout

pub record FdManager : Type 0 where
  pub datas : List (Option ℕ)
  pub objects : ℕ → FdCtx
  pub nonblock : ℕ → Bool

-- `FdManager::FdManager`.
pub new_fd_manager : (ℕ → FdCtx) → (ℕ → Bool) → FdManager
new_fd_manager objects nonblock = record {
  datas = replicate 64 none;
  objects = objects;
  nonblock = nonblock;
}

-- What the first half of `get` comes to: an answer, or the second half.
pub data Looked : Type 0 where
  answer : Option ℕ → Looked
  create : Looked
  out_of_range : Looked

abbrev pub look_at : Bool → Option (Option ℕ) → Looked
look_at auto_create none = if not auto_create then answer none else create
look_at auto_create (some (some p)) = answer (some p)
look_at auto_create (some none) = if not auto_create then answer none else create

-- `get` up to `lock.unlock()`.
unfoldable pub look : ℤ → Bool → FdManager → Looked
look (negsuc zero) auto_create m = answer none
look (negsuc (suc n)) auto_create m = out_of_range
look (pos fd) auto_create m = look_at auto_create (get_elem? m.datas fd)

-- `m_datas.resize(size)`.
pub resize : ℕ → List (Option ℕ) → List (Option ℕ)
resize size ds = take size ds ++ replicate (size - length ds) none

-- `get` behind that, for the new object at `fresh`; `none` is a write out of range.
pub get_create : (ℕ → Option Bool) → ℕ → ℕ → FdManager → Option (Option ℕ × FdManager)
get_create fstat fresh fd m =
    let (ctx, nonblock') = new_fd_ctx fstat fd m.nonblock in
    let datas' = if ltb fd (length m.datas) then m.datas else resize (fd * 3 / 2) m.datas in
    let m' : FdManager = record {
      datas = set datas' fd (some fresh);
      objects = λ q. if fresh == q then ctx else m.objects q;
      nonblock = nonblock';
    } in
    if ltb fd (length datas') then some (some fresh, m') else none

abbrev pub get_looked :
    (ℕ → Option Bool) → ℕ → ℤ → FdManager → Looked → Option (Option ℕ × FdManager)
get_looked fstat fresh fd m (answer p) = some (p, m)
get_looked fstat fresh fd m out_of_range = none
get_looked fstat fresh (negsuc n) m create = none
get_looked fstat fresh (pos fd) m create = get_create fstat fresh fd m

-- `get` where no other thread comes between its halves.
pub get : (ℕ → Option Bool) → ℕ → ℤ → Bool → FdManager → Option (Option ℕ × FdManager)
get fstat fresh fd auto_create m = get_looked fstat fresh fd m (look fd auto_create m)

-- `del`; `none` is an access out of range.
unfoldable pub del : ℤ → FdManager → Option FdManager
del (negsuc n) m = none
del (pos fd) m =
    if ltb fd (length m.datas) then some (record m { datas = set m.datas fd none }) else some m
