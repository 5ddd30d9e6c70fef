-- ===== src/Socket.antt =====
-- src/network/socket.cc: `Socket`, with the descriptors that its operations open and close. What the
-- system answers is the parameter `sys`, on a state of the kernel; `connect` there is the hooked one.
-- An address is of a type `A`, of which only the family is looked at. The logs are left out, and
-- `m_sock` is `none` where the source has -1.
pub mod Owned
mod Tests
use hpgs.Prelude.{
  ℕ, Bool, true, false, not, ◌&&◌, List, [], ◌∷◌, Option, none, some, ◌==◌, if◌then◌else◌,
}
use hpgs.FdManager.{no_timeout}

pub record System (A : Type 0) (K : Type 0) : Type 0 where
  pub socket_call : ℕ → ℕ → ℕ → K → Option ℕ × K
  pub option_call : ℕ → ℕ → ℕ → K → K
  pub bind_call : ℕ → A → K → Bool × K
  pub connect_call : ℕ → A → K → Bool × K
  pub connect_timeout_call : ℕ → A → ℕ → K → Bool × K
  pub listen_call : ℕ → ℕ → K → Bool × K
  pub close_call : ℕ → K → K
  pub accept_call : Option ℕ → K → Option ℕ × K
  pub peer_name : ℕ → Option ℕ → K → Option A
  pub sock_name : ℕ → Option ℕ → K → Option A
  pub unlink : A → K → K
  pub is_open_socket : ℕ → K → Bool
  pub family_of : A → ℕ
  pub is_unix : A → Bool

pub record Socket (A : Type 0) : Type 0 where
  pub m_sock : Option ℕ
  pub m_family : ℕ
  pub m_type : ℕ
  pub m_protocol : ℕ
  pub m_is_connected : Bool
  pub m_local_address : Option A
  pub m_remote_address : Option A

-- `held` are the descriptors that are open.
pub record World (K : Type 0) : Type 0 where
  pub kernel : K
  pub held : List ℕ

abbrev pub af_unix : ℕ
af_unix = 1

abbrev pub sock_stream : ℕ
sock_stream = 1

abbrev sol_socket : ℕ
sol_socket = 1

abbrev so_reuseaddr : ℕ
so_reuseaddr = 2

abbrev ipproto_tcp : ℕ
ipproto_tcp = 6

abbrev tcp_nodelay : ℕ
tcp_nodelay = 1

-- `close` of the descriptor `fd`.
abbrev pub released : ℕ → List ℕ → List ℕ
released fd [] = []
released fd (q ∷ qs) = let rest = released fd qs in if fd == q then qs else q ∷ rest

abbrev pub is_valid : Option ℕ → Bool
is_valid none = false
is_valid (some fd) = true

-- `Socket::Socket`.
abbrev pub new_socket : {A : Type 0} → ℕ → ℕ → ℕ → Socket A
new_socket family type protocol = record {
  m_sock = none;
  m_family = family;
  m_type = type;
  m_protocol = protocol;
  m_is_connected = false;
  m_local_address = none;
  m_remote_address = none;
}

-- The calls of the public interface that act on the descriptor.
pub data Op (A : Type 0) : Type 0 where
  to_bind : A → Op A
  to_connect : A → ℕ → Op A
  to_reconnect : ℕ → Op A
  to_listen : ℕ → Op A
  to_close : Op A

abbrev pub or_asked : {A : Type 0} → Option A → Option A → Option A
or_asked (some a) asked = some a
or_asked none asked = asked

module _ {A : Type 0} {K : Type 0} (sys : System A K) where
  -- `getRemoteAddress` and `getLocalAddress`, what they store.
  abbrev pub get_remote_address : Socket A → K → Socket A
  get_remote_address s k = record s {
    m_remote_address = or_asked s.m_remote_address (sys.peer_name s.m_family s.m_sock k);
  }

  abbrev pub get_local_address : Socket A → K → Socket A
  get_local_address s k = record s {
    m_local_address = or_asked s.m_local_address (sys.sock_name s.m_family s.m_sock k);
  }

  -- `initSock` and `newSock`.
  abbrev pub init_sock : ℕ → ℕ → K → K
  init_sock fd type k =
      let k' = sys.option_call fd sol_socket so_reuseaddr k in
      if type == sock_stream then sys.option_call fd ipproto_tcp tcp_nodelay k' else k'

  abbrev pub opened : Socket A → World K → Option ℕ × K → Socket A × World K
  opened s w (none, k) = (record s { m_sock = none }, record w { kernel = k })
  opened s w (some fd, k) = (
    record s { m_sock = some fd },
    record { kernel = init_sock fd s.m_type k; held = fd ∷ w.held },
  )

  abbrev pub new_sock : Socket A → World K → Socket A × World K
  new_sock s w = opened s w (sys.socket_call s.m_family s.m_type s.m_protocol w.kernel)

  -- The beginning of `bind` and `connect`.
  abbrev pub ensured : Option ℕ → Socket A → World K → Socket A × World K
  ensured none s w = new_sock s w
  ensured (some fd) s w = (s, w)

  abbrev pub close_at : Option ℕ → Socket A → World K → Bool × Socket A × World K
  close_at none s w = (not s.m_is_connected, record s { m_is_connected = false }, w)
  close_at (some fd) s w = (
    false,
    record s { m_is_connected = false; m_sock = none },
    record { kernel = sys.close_call fd w.kernel; held = released fd w.held },
  )

  unfoldable pub close : Socket A → World K → Bool × Socket A × World K
  close s w = close_at s.m_sock s w

  -- `connect`: behind the call of the system, behind `isValid`, and whole.
  abbrev pub connected : Socket A → World K → Bool × K → Bool × Socket A × World K
  connected s w (false, k) =
      let (closed, s', w') = close_at s.m_sock s (record w { kernel = k }) in (false, s', w')
  connected s w (true, k) = (
    true,
    get_local_address (get_remote_address (record s { m_is_connected = true }) k) k,
    record w { kernel = k },
  )

  abbrev pub connect_call_of : ℕ → A → ℕ → K → Bool × K
  connect_call_of fd addr timeout_ms k =
      if timeout_ms == no_timeout
      then sys.connect_call fd addr k
      else sys.connect_timeout_call fd addr timeout_ms k

  abbrev pub connect_at : A → ℕ → Option ℕ → Socket A → World K → Bool × Socket A × World K
  connect_at addr timeout_ms none s w = (false, s, w)
  connect_at addr timeout_ms (some fd) s w =
      if not (sys.family_of addr == s.m_family)
      then (false, s, w)
      else connected s w (connect_call_of fd addr timeout_ms w.kernel)

  abbrev pub connect_ensured : A → ℕ → Socket A × World K → Bool × Socket A × World K
  connect_ensured addr timeout_ms (s, w) = connect_at addr timeout_ms s.m_sock s w

  unfoldable pub connect : A → ℕ → Socket A → World K → Bool × Socket A × World K
  connect addr timeout_ms s w =
      connect_ensured addr timeout_ms
        (ensured s.m_sock (record s { m_remote_address = some addr }) w)

  abbrev pub reconnect_to : Option A → ℕ → Socket A → World K → Bool × Socket A × World K
  reconnect_to none timeout_ms s w = (false, s, w)
  reconnect_to (some addr) timeout_ms s w =
      connect addr timeout_ms (record s { m_local_address = none }) w

  unfoldable pub reconnect : ℕ → Socket A → World K → Bool × Socket A × World K
  unfolding connect
  reconnect timeout_ms s w = reconnect_to s.m_remote_address timeout_ms s w

  -- `bind`: behind the call of the system, behind the attempt to connect to a Unix address, whose
  -- socket is destroyed, behind `isValid`, and whole.
  abbrev pub bound : Socket A → World K → Bool × K → Bool × Socket A × World K
  bound s w (false, k) = (false, s, record w { kernel = k })
  bound s w (true, k) = (true, get_local_address s k, record w { kernel = k })

  abbrev pub bind_now : ℕ → A → Socket A → World K → Bool × Socket A × World K
  bind_now fd addr s w = bound s w (sys.bind_call fd addr w.kernel)

  abbrev pub after_probe : ℕ → A → Socket A → Bool × Socket A × World K → Bool × Socket A × World K
  after_probe fd addr s (true, probe, w) = (false, s, (close_at probe.m_sock probe w).2)
  after_probe fd addr s (false, probe, w) =
      bind_now fd addr s
        (close_at probe.m_sock probe (record w { kernel = sys.unlink addr w.kernel })).2

  abbrev pub bind_at : A → Option ℕ → Socket A → World K → Bool × Socket A × World K
  bind_at addr none s w = (false, s, w)
  bind_at addr (some fd) s w =
      if not (sys.family_of addr == s.m_family)
      then (false, s, w)
      else if sys.is_unix addr
      then after_probe fd addr s (connect addr no_timeout (new_socket af_unix sock_stream 0) w)
      else bind_now fd addr s w

  abbrev pub bind_ensured : A → Socket A × World K → Bool × Socket A × World K
  bind_ensured addr (s, w) = bind_at addr s.m_sock s w

  unfoldable pub bind : A → Socket A → World K → Bool × Socket A × World K
  unfolding connect
  bind addr s w = bind_ensured addr (ensured s.m_sock s w)

  abbrev pub listen_at : ℕ → Option ℕ → Socket A → World K → Bool × Socket A × World K
  listen_at backlog none s w = (false, s, w)
  listen_at backlog (some fd) s w =
      let (ok, k) = sys.listen_call fd backlog w.kernel in (ok, s, record w { kernel = k })

  unfoldable pub listen : ℕ → Socket A → World K → Bool × Socket A × World K
  listen backlog s w = listen_at backlog s.m_sock s w

  -- `init` and `accept`.
  unfoldable pub init : ℕ → Socket A → K → Option (Socket A × K)
  init sock s k =
      let k' = init_sock sock s.m_type k in
      let held = record s { m_sock = some sock; m_is_connected = true } in
      if sys.is_open_socket sock k
      then some (get_remote_address (get_local_address held k') k', k')
      else none

  abbrev pub inited : ℕ → World K → K → Option (Socket A × K) → Option (Socket A) × World K
  inited newsock w k none = (none, record { kernel = k; held = newsock ∷ w.held })
  inited newsock w k (some (sock, k')) =
      (some sock, record { kernel = k'; held = newsock ∷ w.held })

  abbrev pub accepted : Socket A → World K → Option ℕ × K → Option (Socket A) × World K
  accepted s w (none, k) = (none, record w { kernel = k })
  accepted s w (some newsock, k) = inited newsock w k (init newsock s k)

  unfoldable pub accept : Socket A → World K → Option (Socket A) × World K
  unfolding init
  accept s w =
      accepted (new_socket s.m_family s.m_type s.m_protocol) w (sys.accept_call s.m_sock w.kernel)

  -- `CreateUdp` and `CreateUdpSocket`.
  unfoldable pub create_udp : ℕ → ℕ → World K → Socket A × World K
  create_udp family type w =
      let (s, w') = new_sock (new_socket family type 0) w in
      (record s { m_is_connected = true }, w')

  unfoldable pub perform : Op A → Socket A → World K → Bool × Socket A × World K
  unfolding bind connect reconnect listen close
  perform (to_bind addr) s w = bind addr s w
  perform (to_connect addr timeout_ms) s w = connect addr timeout_ms s w
  perform (to_reconnect timeout_ms) s w = reconnect timeout_ms s w
  perform (to_listen backlog) s w = listen backlog s w
  perform to_close s w = close s w

  unfoldable pub run : List (Op A) → Socket A → World K → Socket A × World K
  unfolding perform
  run [] s w = (s, w)
  run (op ∷ ops) s w = let (ok, s', w') = perform op s w in run ops s' w'
