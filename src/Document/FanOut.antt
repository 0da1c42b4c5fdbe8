-- ===== src/Document/FanOut.antt =====
-- Whom a broadcast of crates/hocuspocus/src/document.rs reaches, and whom it evicts.
use hocuspocus_rs.Prelude.{
  ℕ, ◌≡◌, refl, sym, ap, none, some, List, [], ◌∷◌, Bytes, Map, lookup, remove, lookup-remove,
  arith, inl, inr, ◌==◌, Bool-cases, Option-cases, if◌then◌else◌, ℕ-Eq, Bytes-Eq, bytes_eq_iff,
}
use hocuspocus_rs.Errors.{reset_connection}
use hocuspocus_rs.Platform.{Platform}
use hocuspocus_rs.Document.State.{ConnHandle, Document, send_frame, send_close}
use hocuspocus_rs.Document.Broadcast.{remove_states, evict_lagging, send_all, broadcast_with}
use hocuspocus_rs.Document.Frames.{member}

frame_for :
    (build : Bytes → Bytes) (name addr : Bytes)
    → (if addr == name then build name else build addr) ≡ build addr
frame_for build name addr = elim (Bool-cases (addr == name)) [
  | inl hit ↦ rw hit (ap build (sym ((bytes_eq_iff addr name).0 hit)))
  | inr miss ↦ rw miss
]

module _ {p : Platform} where
  -- The fan-out that `broadcast_with` stands for: each connection is sent the frame for its own
  -- address. The result holds the ids of those whose queue is full.
  unfoldable pub deliver : (Bytes → Bytes) → Map ℕ (ConnHandle p) → p.World → List ℕ × p.World
  deliver build [] w = ([], w)
  deliver build ((id, conn) ∷ conns) w =
      let (taken, w') = send_frame conn (build conn.message_address) w in
      let (lagging, w'') = deliver build conns w' in
      (if taken then lagging else conn.conn_id ∷ lagging, w'')

  -- Building the default frame once makes no difference.
  pub send_all-deliver :
      (build : Bytes → Bytes) (name : Bytes) (conns : Map ℕ (ConnHandle p)) (w : p.World)
      → send_all build name (build name) conns w ≡ deliver build conns w
  unfolding send_all deliver
  send_all-deliver build name [] w = refl
  send_all-deliver build name ((id, conn) ∷ conns) w = rw (
    frame_for build name conn.message_address,
    send_all-deliver build name conns (send_frame conn (build conn.message_address) w).1,
  )

  lookup-evict_lagging :
      (k : ℕ) (ids : List ℕ) (d : Document p)
      → lookup k (evict_lagging ids d).connections
        ≡ (if member k ids then none else lookup k d.connections)
  unfolding evict_lagging member
  lookup-evict_lagging k [] d = refl
  lookup-evict_lagging k (id ∷ ids) d = elim (Option-cases (lookup id d.connections)) [
    | inl e ↦ rw (e, evict_lagging) (ground (arith, lookup-evict_lagging k ids d))
    | inr (conn, e) ↦
        let d' : Document p = record d {
          connections = remove id d.connections;
          awareness = remove_states p conn.client_ids d.awareness;
          world = send_close conn reset_connection d.world;
        } in
        rw (e, evict_lagging)
          (ground (arith, lookup-evict_lagging k ids d', lookup-remove id k d.connections))
  ]

  -- Those that lag are told to reset, each with its own connection, and are told once.
  unfoldable pub resets : List ℕ → Map ℕ (ConnHandle p) → p.World → p.World
  resets [] conns w = w
  resets (id ∷ ids) conns w = elim (lookup id conns) [
    | none ↦ resets ids conns w
    | some conn ↦ resets ids (remove id conns) (send_close conn reset_connection w)
  ]

  world-evict_lagging :
      (ids : List ℕ) (d : Document p)
      → (evict_lagging ids d).world ≡ resets ids d.connections d.world
  unfolding evict_lagging resets
  world-evict_lagging [] d = refl
  world-evict_lagging (id ∷ ids) d = elim (Option-cases (lookup id d.connections)) [
    | inl e ↦ rw (e, evict_lagging, resets) (world-evict_lagging ids d)
    | inr (conn, e) ↦ rw (e, evict_lagging, resets) (world-evict_lagging ids _)
  ]

  pub lookup-broadcast_with :
      (k : ℕ) (build : Bytes → Bytes) (d : Document p)
      → lookup k (broadcast_with build d).connections ≡ (
          if member k (deliver build d.connections d.world).0 then none else lookup k d.connections)
  unfolding broadcast_with
  lookup-broadcast_with k build d =
      rw (send_all-deliver build d.name d.connections d.world) (lookup-evict_lagging k _ _)

  pub broadcast_with-deliver :
      (k : ℕ) (build : Bytes → Bytes) (d : Document p)
      → let (lagging, w) = deliver build d.connections d.world in
        (lookup k (broadcast_with build d).connections
          ≡ (if member k lagging then none else lookup k d.connections))
        × ((broadcast_with build d).world ≡ resets lagging d.connections w)
  unfolding broadcast_with
  broadcast_with-deliver k build d = (
    lookup-broadcast_with k build d,
    rw (send_all-deliver build d.name d.connections d.world) (world-evict_lagging _ _),
  )
