-- ===== src/Socket/Owned.antt =====
-- Which descriptors a socket holds.
use hpgs.FdManager.{no_timeout}
use hpgs.Prelude.{
  ℕ, ◌≡◌, refl, ap, sym, ◌∙◌, arith, Bool, true, false, not, ◌||◌, List, [], ◌∷◌, ◌++◌, Option,
  none, some, ◌==◌, Bool-cases, inl, inr, ◌⊎◌,
}
use hpgs.Socket.{
  System, Socket, World, released, is_valid, new_socket, Op, to_bind, to_connect, to_reconnect,
  to_listen, to_close, opened, ensured, close_at, close, connected, connect_call_of, connect_at,
  connect, reconnect_to, reconnect, bound, after_probe, bind_at, bind, listen_at, listen, init,
  accepted, accept, perform, run, af_unix, sock_stream,
}

abbrev pub own : Option ℕ → List ℕ
own none = []
own (some fd) = fd ∷ []

-- Besides `base` the descriptor of the socket is open and no other; and it is connected only with one.
pub record Owned {A K : Type 0} (base : List ℕ) (s : Socket A) (w : World K) : Type 0 where
  pub held_is : w.held ≡ own s.m_sock ++ base
  pub valid_connected : (not s.m_is_connected || is_valid s.m_sock) ≡ true

module _ {A K : Type 0} (sys : System A K) (base : List ℕ) where
  -- An outcome after which the socket holds its descriptor.
  abbrev pub After : Bool × Socket A × World K → Type 0
  After (ok, s, w) = Owned base s w

  same : (n : ℕ) → (n == n) ≡ true
  same n = ground arith

  close_at-After :
      (o : Option ℕ) (s : Socket A) (w : World K)
      → o ≡ s.m_sock
      → Owned base s w
      → After (close_at sys o s w)
  close_at-After none s w e h = record { held_is = h.held_is; valid_connected = refl }
  close_at-After (some fd) s w e h = record {
    held_is =
        ap (λ qs. released fd qs) (h.held_is ∙ ap (λ o. own o ++ base) (sym e)) ∙ rw (same fd) refl;
    valid_connected = refl;
  }

  connected-After :
      (s : Socket A) (w : World K) (r : Bool × K)
      → is_valid s.m_sock ≡ true
      → Owned base s w
      → After (connected sys s w r)
  connected-After s w (false, k) v h =
      close_at-After s.m_sock s (record w { kernel = k }) refl
        (record { held_is = h.held_is; valid_connected = h.valid_connected })
  connected-After s w (true, k) v h = record { held_is = h.held_is; valid_connected = v }

  connect_at-After :
      (addr : A) (t : ℕ) (o : Option ℕ) (s : Socket A) (w : World K)
      → o ≡ s.m_sock
      → Owned base s w
      → After (connect_at sys addr t o s w)
  connect_at-After addr t none s w e h = h
  connect_at-After addr t (some fd) s w e h = elim (Bool-cases (sys.family_of addr == s.m_family)) [
    | inl right ↦
        rw right
          (connected-After s w (connect_call_of sys fd addr t w.kernel) (ap is_valid (sym e)) h)
    | inr wrong ↦ rw wrong h
  ]

  opened-Owned :
      (s : Socket A) (w : World K) (r : Option ℕ × K)
      → w.held ≡ base
      → s.m_is_connected ≡ false
      → let (s', w') = opened sys s w r in Owned base s' w'
  opened-Owned s w (none, k) e d = record {
    held_is = e;
    valid_connected = ap (λ b. not b || false) d;
  }
  opened-Owned s w (some fd, k) e d = record {
    held_is = ap (λ qs. fd ∷ qs) e;
    valid_connected = ap (λ b. not b || true) d;
  }

  ensured-Owned :
      (o : Option ℕ) (s : Socket A) (w : World K)
      → o ≡ s.m_sock
      → Owned base s w
      → let (s', w') = ensured sys o s w in Owned base s' w'
  ensured-Owned none s w e h =
      opened-Owned s w (sys.socket_call s.m_family s.m_type s.m_protocol w.kernel)
        (h.held_is ∙ ap (λ o. own o ++ base) (sym e))
        (unconnected s.m_is_connected
          (ap (λ o. not s.m_is_connected || is_valid o) e ∙ h.valid_connected))
    where
      unconnected : (c : Bool) → (not c || false) ≡ true → c ≡ false
      unconnected true x = sym x
      unconnected false x = refl
  ensured-Owned (some fd) s w e h = h

  connect-After :
      (addr : A) (t : ℕ) (s : Socket A) (w : World K)
      → Owned base s w
      → After (connect sys addr t s w)
  unfolding connect
  connect-After addr t s w h =
      let s0 : Socket A = record s { m_remote_address = some addr } in
      let r = ensured sys s.m_sock s0 w in
      connect_at-After addr t r.0.m_sock r.0 r.1 refl (
        ensured-Owned s.m_sock s0 w refl
          (record { held_is = h.held_is; valid_connected = h.valid_connected }))

  reconnect_to-After :
      (o : Option A) (t : ℕ) (s : Socket A) (w : World K)
      → Owned base s w
      → After (reconnect_to sys o t s w)
  reconnect_to-After none t s w h = h
  reconnect_to-After (some addr) t s w h =
      connect-After addr t (record s { m_local_address = none }) w
        (record { held_is = h.held_is; valid_connected = h.valid_connected })

  bound-After :
      (s : Socket A) (w : World K) (r : Bool × K) → Owned base s w → After (bound sys s w r)
  bound-After s w (false, k) h = record { held_is = h.held_is; valid_connected = h.valid_connected }
  bound-After s w (true, k) h = record { held_is = h.held_is; valid_connected = h.valid_connected }

  listen_at-After :
      (backlog : ℕ) (o : Option ℕ) (s : Socket A) (w : World K)
      → Owned base s w
      → After (listen_at sys backlog o s w)
  listen_at-After backlog none s w h = h
  listen_at-After backlog (some fd) s w h = record {
    held_is = h.held_is;
    valid_connected = h.valid_connected;
  }

-- The socket of the attempt holds nothing after it is destroyed, and what was held before is as it was.
module _ {A K : Type 0} (sys : System A K) where
  closed_held :
      (held : List ℕ) (s : Socket A) (w : World K)
      → Owned held s w
      → (close_at sys s.m_sock s w).2.held ≡ held
  closed_held held s w h = by_sock s.m_sock refl
    where
      by_sock : (o : Option ℕ) → o ≡ s.m_sock → (close_at sys o s w).2.held ≡ held
      by_sock none e = h.held_is ∙ ap (λ o. own o ++ held) (sym e)
      by_sock (some fd) e =
          ap (λ qs. released fd qs) (h.held_is ∙ ap (λ o. own o ++ held) (sym e))
          ∙ rw (same sys held fd) refl

  after_probe-After :
      (base : List ℕ) (fd : ℕ) (addr : A) (s : Socket A) (held : List ℕ)
      (r : Bool × Socket A × World K)
      → Owned held r.1 r.2
      → held ≡ own s.m_sock ++ base
      → (not s.m_is_connected || is_valid s.m_sock) ≡ true
      → After sys base (after_probe sys fd addr s r)
  after_probe-After base fd addr s held (true, probe, w) h e v = record {
    held_is = closed_held held probe w h ∙ e;
    valid_connected = v;
  }
  after_probe-After base fd addr s held (false, probe, w) h e v =
      let w' : World K = record w { kernel = sys.unlink addr w.kernel } in
      let w'' = (close_at sys probe.m_sock probe w').2 in
      bound-After sys base s w'' (sys.bind_call fd addr w''.kernel) (record {
        held_is =
            closed_held held probe w'
              (record { held_is = h.held_is; valid_connected = h.valid_connected })
            ∙ e;
        valid_connected = v;
      })

  bind_at-After :
      (base : List ℕ) (addr : A) (o : Option ℕ) (s : Socket A) (w : World K)
      → Owned base s w
      → After sys base (bind_at sys addr o s w)
  unfolding connect
  bind_at-After base addr none s w h = h
  bind_at-After base addr (some fd) s w h = elim (Bool-cases (sys.family_of addr == s.m_family)) [
    | inr wrong ↦ rw wrong h
    | inl right ↦ rw right (elim (Bool-cases (sys.is_unix addr)) [
      | inl unix ↦ rw unix (
          after_probe-After base fd addr s w.held
            (connect sys addr no_timeout (new_socket af_unix sock_stream 0) w)
            (connect-After sys w.held addr no_timeout (new_socket af_unix sock_stream 0) w
              (record { held_is = refl; valid_connected = refl }))
            h.held_is h.valid_connected)
      | inr other ↦ rw other (bound-After sys base s w (sys.bind_call fd addr w.kernel) h)
    ])
  ]

  perform-After :
      (base : List ℕ) (op : Op A) (s : Socket A) (w : World K)
      → Owned base s w
      → After sys base (perform sys op s w)
  unfolding perform bind listen close reconnect
  perform-After base (to_bind addr) s w h =
      let r = ensured sys s.m_sock s w in
      bind_at-After base addr r.0.m_sock r.0 r.1 (ensured-Owned sys base s.m_sock s w refl h)
  perform-After base (to_connect addr t) s w h = connect-After sys base addr t s w h
  perform-After base (to_reconnect t) s w h = reconnect_to-After sys base s.m_remote_address t s w h
  perform-After base (to_listen backlog) s w h = listen_at-After sys base backlog s.m_sock s w h
  perform-After base to_close s w h = close_at-After sys base s.m_sock s w refl h

  -- Whatever the system answers, through any binds, connects, reconnects, listens and closes a socket holds
  -- exactly one open descriptor, its own, or none; it says that it is connected only when it has one.
  pub run-Owned :
      (base : List ℕ) (ops : List (Op A)) (s : Socket A) (w : World K)
      → Owned base s w
      → Owned base (run sys ops s w).0 (run sys ops s w).1
  unfolding run
  run-Owned base [] s w h = h
  run-Owned base (op ∷ ops) s w h =
      let r = perform sys op s w in run-Owned base ops r.1 r.2 (perform-After base op s w h)

  -- A socket that is made, used in any way by these calls and destroyed leaves no descriptor open.
  pub close-run :
      (family type protocol : ℕ) (ops : List (Op A)) (w : World K)
      → let r = run sys ops (new_socket family type protocol) w in
        (close sys r.0 r.1).2.held ≡ w.held
  unfolding close
  close-run family type protocol ops w =
      let s : Socket A = new_socket family type protocol in
      closed_held w.held _ _
        (run-Owned w.held ops s w (record { held_is = refl; valid_connected = refl }))

  -- What `accept` comes to for an answer of the system.
  abbrev pub Accepted : World K → Option ℕ × K → Option (Socket A) × World K → Type 0
  Accepted w (o, k) (answer, w') =
      ((o ≡ none) × (answer ≡ none) × (w'.held ≡ w.held))
      ⊎ ((fd : ℕ) × (s' : Socket A) × (o ≡ some fd)
          × (sys.is_open_socket fd k ≡ true)
          × (answer ≡ some s')
          × (s'.m_sock ≡ some fd)
          × (s'.m_is_connected ≡ true)
          × Owned w.held s' w')
      ⊎ ((fd : ℕ) × (o ≡ some fd)
          × (sys.is_open_socket fd k ≡ false)
          × (answer ≡ none)
          × (w'.held ≡ fd ∷ w.held))

  accepted-Accepted :
      (s : Socket A) (w : World K) (r : Option ℕ × K) → Accepted w r (accepted sys s w r)
  unfolding init
  accepted-Accepted s w (none, k) = inl (refl, refl, refl)
  accepted-Accepted s w (some fd, k) = elim (Bool-cases (sys.is_open_socket fd k)) [
    | inl open_one ↦ rw open_one (
        inr (
          inl (
            fd,
            _,
            refl,
            open_one,
            refl,
            refl,
            refl,
            record { held_is = refl; valid_connected = refl },
          )))
    | inr other ↦ rw other (inr (inr (fd, refl, other, refl, refl)))
  ]

  -- Where the system opens no descriptor, `accept` answers null and nothing is open that was not. Where it
  -- opens one that the table of descriptors knows as an open socket, the answer is a connected socket that
  -- holds this descriptor. Where the table does not know it, the answer is null and the descriptor stays
  -- open.
  pub accept_lem :
      (s : Socket A) (w : World K) → Accepted w (sys.accept_call s.m_sock w.kernel) (accept sys s w)
  unfolding accept
  accept_lem s w =
      accepted-Accepted (new_socket s.m_family s.m_type s.m_protocol) w
        (sys.accept_call s.m_sock w.kernel)
