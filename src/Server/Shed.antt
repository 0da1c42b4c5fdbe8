-- ===== src/Server/Shed.antt =====
-- What the cap on connections of crates/hocuspocus/src/server.rs does, and what it does not.
use hocuspocus_rs.Prelude.{
  ℕ, zero, suc, ◌+◌, ◌<◌, ◌≡◌, refl, true, some, [], ◌∷◌, Bytes, Map, ◌≤◌, ◌↔◌, arith, length,
  length-append, Bool-cases, inl, inr,
}
use hocuspocus_rs.Config.{Configuration}
use hocuspocus_rs.Context.{RequestMeta}
use hocuspocus_rs.Server.Capacity.{
  Parts, service_unavailable, upgrade, parameters, at_capacity, ws_handler, Sockets, SocketStep,
  answer, begin, abort, finish, SocketReach, built, step,
}

module _ (lossy : Bytes → Bytes) (config : Configuration) where
  counted :
      {s t : Sockets}
      → SocketStep lossy config s t
      → s.active_connections ≡ length s.served
      → t.active_connections ≡ length t.served
  counted (answer req meta e) h = h
  counted (begin n e) h = omega (arith, h)
  counted (abort n e) h = h
  counted (finish xs ys id e) h = ground (arith, length-append xs ys, length-append xs (id ∷ ys))

  -- In every reachable state the counter is the number of sockets that are served.
  reached_counts :
      {s : Sockets} → SocketReach lossy config s → s.active_connections ≡ length s.served
  reached_counts built = refl
  reached_counts (step r m) = counted m (reached_counts r)

  refused_iff :
      (req : Parts) (found : Map Bytes Bytes) (active : ℕ)
      → parameters lossy req.query ≡ some found
      → (ws_handler lossy config active req ≡ some service_unavailable)
        ↔ (at_capacity config active ≡ true)
  unfolding ws_handler
  refused_iff req found active e = elim (Bool-cases (at_capacity config active)) [
    | inl full ↦ rw (ws_handler, e, full) (λ _. refl, λ _. refl)
    | inr room ↦ (λ h. absurd (ground (arith, rw (ws_handler, e, room) at h)), λ h. ground arith)
  ]

  -- In every reachable state the counter is the number of open sockets, so a request whose query can
  -- be decoded is refused exactly when a cap is set and that many sockets are open.
  pub ws_handler-sheds :
      {s : Sockets} (req : Parts) (found : Map Bytes Bytes)
      → SocketReach lossy config s
      → parameters lossy req.query ≡ some found
      → (ws_handler lossy config s.active_connections req ≡ some service_unavailable)
        ↔ ((0 < config.max_connections) × (config.max_connections ≤ length s.served))
  ws_handler-sheds {s} req found r e =
      let c = reached_counts r in
      let f = refused_iff req found s.active_connections e in
      (λ h. let full = f.0 h in (ground arith, ground arith), λ h. f.1 (ground arith))

  handshakes_pile_up :
      (req : Parts) (meta : RequestMeta) (n : ℕ)
      → ws_handler lossy config 0 req ≡ some (upgrade meta)
      → SocketReach lossy config
          (record { active_connections = 0; next_socket_id = 1; handshakes = n; served = [] })
  handshakes_pile_up req meta zero e = built
  handshakes_pile_up req meta (suc n) e = step (handshakes_pile_up req meta n e) (answer req meta e)

  all_begin :
      (n : ℕ) {s : Sockets}
      → SocketReach lossy config s
      → s.handshakes ≡ n
      → (t : Sockets) × SocketReach lossy config t × (length t.served ≡ length s.served + n)
  all_begin zero {s} r h = (s, r, omega arith)
  all_begin (suc n) {s} r h =
      let (t, r', l) = all_begin n (step r (begin n h)) refl in (t, r', omega (arith, l))

  -- The cap is no bound: whatever it is, if it lets one request in, any number of sockets can be open
  -- at once, since a handshake is not counted before it has ended.
  pub cap_exceeded :
      (req : Parts) (meta : RequestMeta) (n : ℕ)
      → ws_handler lossy config 0 req ≡ some (upgrade meta)
      → (s : Sockets) × SocketReach lossy config s × (length s.served ≡ n)
  cap_exceeded req meta n e =
      let (s, r, l) = all_begin n (handshakes_pile_up req meta n e) refl in (s, r, omega (arith, l))
