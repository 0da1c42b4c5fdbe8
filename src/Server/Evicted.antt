-- ===== src/Server/Evicted.antt =====
-- A client that a broadcast of crates/hocuspocus/src/document.rs has evicted, and its socket in
-- crates/hocuspocus/src/server.rs.
use hocuspocus_rs.Prelude.{
  ℕ, ◌+◌, ◌≡◌, refl, ap, ◌∙◌, Bool, true, false, none, some, List, [], ◌∷◌, Bytes, Map, arith, map,
  lookup, if◌then◌else◌, Bool-cases, inl, inr, nat_eq, ℕ-Eq, Bytes-Eq, ◌≤◌, length, remove,
  Option-cases, ok,
}
use hocuspocus_rs.Platform.{Platform, OutMsg, full}
use hocuspocus_rs.Errors.{reset_connection}
use hocuspocus_rs.Protocol.{IncomingFrame, parse}
use hocuspocus_rs.Document.State.{ConnHandle, DocCommand, Document, send_frame, send_close}
use hocuspocus_rs.Document.Broadcast.{broadcast_with}
use hocuspocus_rs.Document.Frames.{member}
use hocuspocus_rs.Document.Commands.{handle_command}
use hocuspocus_rs.Document.Actor.{run_commands}
use hocuspocus_rs.Document.FanOut.{deliver, resets, lookup-broadcast_with, broadcast_with-deliver}
use hocuspocus_rs.Document.Removal.{ignored}
use hocuspocus_rs.Server.Hub.{Hub}
use hocuspocus_rs.Server.Client.{Established, ClientConnection, idle_deadline}
use hocuspocus_rs.Server.Socket.{route, handle_frame}
use hocuspocus_rs.Server.Stable.{idle_deadline-handle_frame}

member-beside :
    (id x : ℕ) (taken : Bool) (ids : List ℕ)
    → member id ids ≡ true
    → member id (if taken then ids else x ∷ ids) ≡ true
unfolding member
member-beside id x true ids h = h
member-beside id x false ids h = ground arith

-- What tokio documents of `try_send` on a bounded channel, where nothing is received meanwhile: a full
-- channel refuses a message and keeps its queue, and a send to another channel does not touch it.
pub record IsBounded (p : Platform) (queue : ℕ → p.World → List OutMsg) (capacity : ℕ)
    : Type 0 where
  pub refuses :
      (to : ℕ) (m : OutMsg) (w : p.World)
      → capacity ≤ length (queue to w)
      → ((p.try_send to m w).0 ≡ full) × (queue to (p.try_send to m w).1 ≡ queue to w)
  pub apart :
      (to other : ℕ) (m : OutMsg) (w : p.World)
      → nat_eq to other ≡ false
      → queue other (p.try_send to m w).1 ≡ queue other w

module _ {p : Platform} {queue : ℕ → p.World → List OutMsg} {capacity : ℕ}
    (b : IsBounded p queue capacity) where
  -- No send changes the queue of a channel that is full.
  stays :
      (ch to : ℕ) (m : OutMsg) (w : p.World)
      → capacity ≤ length (queue ch w)
      → queue ch (p.try_send to m w).1 ≡ queue ch w
  stays ch to m w f = elim (Bool-cases (nat_eq to ch)) [
    | inl e ↦ let same : to ≡ ch = ground arith in rw same (b.refuses ch m w f).1
    | inr e ↦ b.apart to ch m w e
  ]

  -- A connection whose queue is full when the broadcast begins is among those that lag, and its queue
  -- stays as it was.
  full-lagging :
      (id : ℕ) (build : Bytes → Bytes) (conns : Map ℕ (ConnHandle p)) (conn : ConnHandle p)
      (w : p.World)
      → lookup id conns ≡ some conn
      → conn.conn_id ≡ id
      → capacity ≤ length (queue conn.outbound w)
      → member id (deliver build conns w).0 ≡ true
  unfolding deliver member send_frame lookup
  full-lagging id build [] conn w e n f = cc
  full-lagging id build ((k, x) ∷ conns) conn w e n f = elim (Bool-cases (nat_eq k id)) [
    | inl here ↦
        let same : x ≡ conn = ground (arith, e, here) in
        rw
          (
            same,
            (b.refuses conn.outbound (OutMsg.frame (build conn.message_address)) w f).0,
            member,
          )
          (ground (arith, n))
    | inr there ↦
        let m = OutMsg.frame (build x.message_address) in
        let kept = stays conn.outbound x.outbound m w f in
        member-beside id x.conn_id _ _ (
          full-lagging id build conns conn (p.try_send x.outbound m w).1 (ground (arith, e, there))
            n (rw kept f))
  ]

  queue-deliver :
      (ch : ℕ) (build : Bytes → Bytes) (conns : Map ℕ (ConnHandle p)) (w : p.World)
      → capacity ≤ length (queue ch w)
      → queue ch (deliver build conns w).1 ≡ queue ch w
  unfolding deliver send_frame
  queue-deliver ch build [] w f = refl
  queue-deliver ch build ((k, x) ∷ conns) w f =
      let kept = stays ch x.outbound (OutMsg.frame (build x.message_address)) w f in
      queue-deliver ch build conns _ (rw kept f) ∙ kept

  queue-resets :
      (ch : ℕ) (ids : List ℕ) (conns : Map ℕ (ConnHandle p)) (w : p.World)
      → capacity ≤ length (queue ch w)
      → queue ch (resets ids conns w) ≡ queue ch w
  unfolding resets send_close
  queue-resets ch [] conns w f = refl
  queue-resets ch (id ∷ ids) conns w f = elim (Option-cases (lookup id conns)) [
    | inl e ↦ rw (e, resets) (queue-resets ch ids conns w f)
    | inr (conn, e) ↦
        let kept = stays ch conn.outbound (OutMsg.close reset_connection) w f in
        rw (e, resets) (queue-resets ch ids (remove id conns) _ (rw kept f) ∙ kept)
  ]

  queue-broadcast_with :
      (ch : ℕ) (build : Bytes → Bytes) (d : Document p)
      → capacity ≤ length (queue ch d.world)
      → queue ch (broadcast_with build d).world ≡ queue ch d.world
  queue-broadcast_with ch build d f =
      let kept = queue-deliver ch build d.connections d.world f in
      ap (queue ch) (broadcast_with-deliver 0 build d).1
      ∙ queue-resets ch (deliver build d.connections d.world).0 d.connections _ (rw kept f)
      ∙ kept

module _ {p : Platform} where
  all_ignored :
      (id : ℕ) (frames : List Bytes) (d : Document p)
      → lookup id d.connections ≡ none
      → run_commands (map (DocCommand.client_frame id) frames) d ≡ (false, d)
  unfolding run_commands handle_command
  all_ignored id [] d e = refl
  all_ignored id (bytes ∷ frames) d e = rw (ignored id bytes d e) (all_ignored id frames d e)

  -- A frame for an established document goes to its actor.
  forwards :
      (hub : Hub p) (bytes : Bytes) (f : IncomingFrame) (est : Established) (c : ClientConnection p)
      → nat_eq (length bytes) 1 ≡ false
      → parse p.codec bytes ≡ ok f
      → lookup f.routing_key c.established ≡ some est
      → (handle_frame hub bytes c).world
        ≡ (hub.send_command est.doc (DocCommand.client_frame est.conn_id bytes) (p.now c.world).1).1
  unfolding handle_frame route
  forwards hub bytes f est c long e found = rw (long, handle_frame, route, e, found) refl

  -- A client whose queue is full when a broadcast comes is evicted and not told: it loses its connection
  -- to the document, and its queue, to which the close is sent, stays as it was. Its socket goes on to
  -- hand each frame for the document to the actor, where none has any effect, and each puts off the
  -- deadline of the socket. The channel is bounded and nothing is received from it during the
  -- broadcast; the socket is that of the connection, is authenticated and has the document open.
  pub evicted_untold :
      {queue : ℕ → p.World → List OutMsg} {capacity : ℕ} (b : IsBounded p queue capacity)
      (hub : Hub p) (id : ℕ) (build : Bytes → Bytes) (frames : List Bytes) (bytes : Bytes)
      (f : IncomingFrame) (d : Document p) (conn : ConnHandle p) (c : ClientConnection p) (h : ℕ)
      → lookup id d.connections ≡ some conn
      → conn.conn_id ≡ id
      → conn.outbound ≡ c.out_tx
      → capacity ≤ length (queue c.out_tx d.world)
      → c.authenticated ≡ true
      → lookup f.routing_key c.established ≡ some (record { doc = h; conn_id = id })
      → nat_eq (length bytes) 1 ≡ false
      → parse p.codec bytes ≡ ok f
      → let d' = broadcast_with build d in
        (lookup id d'.connections ≡ none)
        × (queue c.out_tx d'.world ≡ queue c.out_tx d.world)
        × ((handle_frame hub bytes c).world
            ≡ (hub.send_command h (DocCommand.client_frame id bytes) (p.now c.world).1).1)
        × (run_commands (map (DocCommand.client_frame id) (bytes ∷ frames)) d' ≡ (false, d'))
        × (idle_deadline (handle_frame hub bytes c) ≡ (p.now c.world).0 + c.config.timeout)
  evicted_untold {queue} {capacity} b hub id build frames bytes f d conn c h e n same crowded a
        open_ long parsed =
      let lags = full-lagging b id build d.connections conn d.world e n (rw same crowded) in
      let gone : lookup id (broadcast_with build d).connections ≡ none =
        lookup-broadcast_with id build d ∙ rw lags refl in
      (
        gone,
        queue-broadcast_with b c.out_tx build d crowded,
        forwards hub bytes f (record { doc = h; conn_id = id }) c long parsed open_,
        all_ignored id (bytes ∷ frames) (broadcast_with build d) gone,
        idle_deadline-handle_frame hub bytes c a,
      )
