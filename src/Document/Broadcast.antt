-- ===== src/Document/Broadcast.antt =====
-- Fan-out in crates/hocuspocus/src/document.rs: frames to every connection, and eviction of those
-- whose queue is full.
use hocuspocus_rs.Prelude.{
  ℕ, false, none, some, List, [], ◌∷◌, Bytes, Map, lookup, remove, ◌==◌, if◌then◌else◌, ℕ-Eq,
  Bytes-Eq,
}
use hocuspocus_rs.Errors.{reset_connection}
use hocuspocus_rs.Yrs.{SyncMessage}
use hocuspocus_rs.Protocol.Outgoing
use hocuspocus_rs.Platform.{Platform}
use hocuspocus_rs.Document.State.{ConnHandle, Document, is_empty, send_frame, send_close}

module _ (p : Platform) where
  -- `for cid in ids { self.awareness.remove_state(*cid) }`
  unfoldable pub remove_states : List ℕ → p.Awareness → p.Awareness
  remove_states [] a = a
  remove_states (cid ∷ cids) a = remove_states cids (p.remove_state cid a)

module _ {p : Platform} where
  unfoldable pub evict_lagging : List ℕ → Document p → Document p
  evict_lagging [] d = d
  evict_lagging (id ∷ ids) d = evict_lagging ids (elim (lookup id d.connections) [
    | none ↦ d
    | some conn ↦ record d {
      connections = remove id d.connections;
      awareness = remove_states p conn.client_ids d.awareness;
      world = send_close conn reset_connection d.world;
    }
  ])

  -- The loop of `broadcast_with` over the connections: the ids of those whose queue is full.
  unfoldable pub send_all :
      (Bytes → Bytes) → Bytes → Bytes → Map ℕ (ConnHandle p) → p.World → List ℕ × p.World
  send_all build default_addr default_frame [] w = ([], w)
  send_all build default_addr default_frame ((id, conn) ∷ conns) w =
      let bytes =
        if conn.message_address == default_addr
        then default_frame
        else build conn.message_address in
      let (taken, w') = send_frame conn bytes w in
      let (lagging, w'') = send_all build default_addr default_frame conns w' in
      (if taken then lagging else conn.conn_id ∷ lagging, w'')

  unfoldable pub broadcast_with : (Bytes → Bytes) → Document p → Document p
  broadcast_with build d =
      let default_frame = build d.name in
      let (lagging, w) = send_all build d.name default_frame d.connections d.world in
      evict_lagging lagging (record d { world = w })

  unfoldable pub broadcast_awareness : Bytes → Document p → Document p
  broadcast_awareness update = broadcast_with λ addr.
      Outgoing.into_bytes p.codec
        (Outgoing.awareness_update p.codec update (Outgoing.start p.codec addr))

  unfoldable pub broadcast_stateless : Bytes → Document p → Document p
  broadcast_stateless payload = broadcast_with λ addr.
      Outgoing.into_bytes p.codec (Outgoing.stateless p.codec payload (Outgoing.start p.codec addr))

  unfoldable pub flush_broadcast : Document p → Document p
  flush_broadcast d =
      if d.broadcast_pending
      then elim d.broadcast_base [
        | none ↦ record d { broadcast_pending = false }
        | some base ↦
            let taken = record d { broadcast_pending = false; broadcast_base = none } in
            let merged = p.encode_diff d.doc base in
            if is_empty merged
            then taken
            else broadcast_with
                (λ addr. Outgoing.into_bytes p.codec (
                  Outgoing.write_sync_payload p.codec (p.encode_sync (SyncMessage.update merged))
                    (Outgoing.sync p.codec (Outgoing.start p.codec addr))))
                taken
      ]
      else d
