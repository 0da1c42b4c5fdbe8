-- ===== src/Document/Frames.antt =====
-- The frames of crates/hocuspocus/src/document.rs other than the sync messages.
use hocuspocus_rs.Prelude.{
  ℕ, Bool, false, none, some, List, [], ◌∷◌, Bytes, lookup, ok, err, update, ◌==◌, ◌||◌,
  if◌then◌else◌, ℕ-Eq,
}
use hocuspocus_rs.Origin.{Origin, connection, encode}
use hocuspocus_rs.Protocol.{IncomingFrame}
use hocuspocus_rs.Platform.{Platform}
use hocuspocus_rs.Extension.{AwarenessPayload, StatelessPayload, run_each, run_until_error}
use hocuspocus_rs.Document.State.{ConnHandle, Document}
use hocuspocus_rs.Document.Broadcast.{broadcast_awareness}
use hocuspocus_rs.Document.Connections.{awareness_frame, send}

-- `HashSet::insert`, for each of `ids`.
unfoldable pub member : ℕ → List ℕ → Bool
member a [] = false
member a (x ∷ xs) = x == a || member a xs

unfoldable pub insert_all : List ℕ → List ℕ → List ℕ
insert_all [] set = set
insert_all (id ∷ ids) set = insert_all ids (if member id set then set else id ∷ set)

module _ {p : Platform} where
  -- Awareness clients are remembered with the connection that spoke for them.
  unfoldable pub track_clients : Origin → List ℕ → Document p → Document p
  track_clients (connection conn_id) changed d = record d {
    connections =
        update conn_id (λ conn. record conn { client_ids = insert_all changed conn.client_ids })
          d.connections;
  }
  track_clients _ changed d = d

  -- `handle_awareness` after the update is applied: broadcast the changed clients, run the hooks.
  unfoldable pub share_awareness : List ℕ → Origin → Document p → Document p
  share_awareness changed origin d = elim (p.update_with_clients changed d.awareness) [
    | err _ ↦ d
    | ok out ↦
        let bytes = p.encode_awareness out in
        let d' = broadcast_awareness bytes d in
        let payload : AwarenessPayload = record {
          document_name = d'.name;
          update = bytes;
          added = changed;
          updated = [];
          removed = [];
          origin = origin;
        } in
        record d' {
          world = run_each p (λ ext. ext.on_awareness_update payload) d'.extensions d'.world;
        }
  ]

  unfoldable pub apply_awareness_update : p.AwarenessUpdate → Origin → Document p → Document p
  unfolding track_clients share_awareness
  apply_awareness_update u origin d =
      let (r, a) = p.apply_awareness u (encode origin) d.awareness in
      let d' = record d { awareness = a } in
      elim r [
        | err _ ↦ d'
        | ok _ ↦ share_awareness (p.clients u) origin (track_clients origin (p.clients u) d')
      ]

  unfoldable pub handle_awareness : IncomingFrame → Origin → Document p → Document p
  unfolding apply_awareness_update
  handle_awareness frame origin d = elim (p.read_buf frame.decoder) [
    | err _ ↦ d
    | ok (buf, _) ↦ elim (p.decode_awareness buf) [
      | err _ ↦ d
      | ok u ↦ apply_awareness_update u origin d
    ]
  ]

  unfoldable pub reply_query_awareness : Bytes → ℕ → Document p → Document p
  reply_query_awareness address conn_id d = elim (p.awareness_update d.awareness) [
    | err _ ↦ d
    | ok u ↦ elim (lookup conn_id d.connections) [
      | none ↦ d
      | some conn ↦ send conn (awareness_frame p address u) d
    ]
  ]

  unfoldable pub handle_stateless : ConnHandle p → IncomingFrame → Document p → Document p
  handle_stateless conn frame d = elim (p.read_string frame.decoder) [
    | err _ ↦ d
    | ok (payload, _) ↦
        let sp : StatelessPayload = record {
          document_name = d.name;
          socket_id = conn.socket_id;
          payload = payload;
        } in
        record d { world = (run_until_error p (λ ext. ext.on_stateless sp) d.extensions d.world).1 }
  ]

  -- Re-authentication on a live connection does nothing.
  unfoldable pub handle_token_sync : ℕ → IncomingFrame → Document p → Document p
  handle_token_sync conn_id frame d = d
