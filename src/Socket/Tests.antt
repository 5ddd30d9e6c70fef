-- ===== src/Socket/Tests.antt =====
-- Sockets under a system that opens descriptor after descriptor, and refuses to connect to address 9.
use hpgs.Prelude.{ℕ, suc, ◌≡◌, refl, true, not, List, [], ◌∷◌, none, some, ◌==◌}
use hpgs.Socket.{
  System, Socket, World, Op, to_bind, to_connect, to_listen, to_close, new_socket, run, close,
  accept, bind, connect, reconnect, listen, perform, create_udp,
}
use hpgs.Socket.Owned.{Owned, run-Owned, close-run, accept_lem, Accepted}

-- The kernel is the next descriptor; one below 3 is not in the table.
abbrev sys : System ℕ ℕ
sys = record {
  socket_call = λ family type protocol k. (some k, suc k);
  option_call = λ fd level option k. k;
  bind_call = λ fd addr k. (true, k);
  connect_call = λ fd addr k. (not (addr == 9), k);
  connect_timeout_call = λ fd addr t k. (not (addr == 9), k);
  listen_call = λ fd backlog k. (true, k);
  close_call = λ fd k. k;
  accept_call = λ o k. (some k, suc k);
  peer_name = λ family o k. some 5;
  sock_name = λ family o k. some 6;
  unlink = λ addr k. k;
  is_open_socket = λ fd k. not (fd == 2);
  family_of = λ addr. 1;
  is_unix = λ addr. addr == 9;
}

abbrev fresh : Socket ℕ
fresh = new_socket 1 1 0

abbrev world : World ℕ
world = record { kernel = 4; held = 3 ∷ [] }

abbrev ops : List (Op ℕ)
ops = to_bind 9 ∷ to_listen 10 ∷ to_close ∷ to_connect 7 100 ∷ []

-- The first socket is 4, the one of the attempt 5, and the last one 6.
last_descriptor :
    ((run sys ops fresh world).0.m_sock ≡ some 6) × ((run sys ops fresh world).1.held ≡ 6 ∷ 3 ∷ [])
unfolding run bind connect reconnect listen close perform
last_descriptor = (refl, refl)

-- Made for UDP where the system gives no descriptor, a socket says that it is connected.
no_descriptor :
    let s =
      (create_udp (record sys { socket_call = λ family type protocol k. (none, k) }) 2 2 world).0 in
    (s.m_sock ≡ none) × (s.m_is_connected ≡ true)
unfolding create_udp
no_descriptor = (refl, refl)

-- The local address of the closed descriptor is still there when the socket is connected again.
stale_address :
    (run sys
      (to_connect 7 100 ∷ [])
      (record fresh { m_local_address = some 8 })
      world).0.m_local_address
    ≡ some 8
unfolding run bind connect reconnect listen close perform
stale_address = refl

run-Owned_example : Owned (3 ∷ []) (run sys ops fresh world).0 (run sys ops fresh world).1
run-Owned_example =
    run-Owned sys (3 ∷ []) ops fresh world (record { held_is = refl; valid_connected = refl })

close-run_example :
    (close sys
      (run sys ops (new_socket 1 1 0) world).0
      (run sys ops (new_socket 1 1 0) world).1).2.held
    ≡ 3 ∷ []
close-run_example = close-run sys 1 1 0 ops world

accept_lem_example :
    Accepted sys
      (record { kernel = 2; held = [] })
      (some 2, 3)
      (accept sys fresh (record { kernel = 2; held = [] }))
accept_lem_example = accept_lem sys fresh (record { kernel = 2; held = [] })
