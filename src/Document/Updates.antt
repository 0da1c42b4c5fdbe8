-- ===== src/Document/Updates.antt =====
-- Sync messages in crates/hocuspocus/src/document.rs: applying an update, and the answers to a client.
use hocuspocus_rs.Prelude.{
  ℕ, Bool, true, false, Option, none, some, Bytes, lookup, length, ok, err, if◌then◌else◌, ℕ-Eq,
}
use hocuspocus_rs.Errors.{HookError, reset_connection}
use hocuspocus_rs.Origin.{Origin, encode}
use hocuspocus_rs.Yrs.{SyncMessage, sync_step1, sync_step2, update}
use hocuspocus_rs.Protocol.{IncomingFrame}
use hocuspocus_rs.Protocol.Outgoing
use hocuspocus_rs.Platform.{Platform}
use hocuspocus_rs.Extension.{ChangePayload, run_each, run_until_error}
use hocuspocus_rs.Document.State.{ConnHandle, Document, is_empty, unwrap_or, send_close, mark_dirty}
use hocuspocus_rs.Document.Connections.{send}

-- A `Sync` frame to `addr` with the message `m`, and a `SyncStatus` frame.
abbrev pub sync_frame : (p : Platform) → Bytes → SyncMessage p.StateVector → Bytes
sync_frame p addr m = Outgoing.into_bytes p.codec (
    Outgoing.write_sync_payload p.codec (p.encode_sync m)
      (Outgoing.sync p.codec (Outgoing.start p.codec addr)))

abbrev pub status_frame : Platform → Bytes → Bool → Bytes
status_frame p addr saved =
    Outgoing.into_bytes p.codec (Outgoing.sync_status p.codec saved (Outgoing.start p.codec addr))

module _ {p : Platform} where
  abbrev pub change_payload : Document p → Bytes → Origin → ChangePayload
  change_payload d bytes origin = record {
    document_name = d.name;
    update = bytes;
    origin = origin;
    clients_count = length d.connections;
  }

  unfoldable pub send_sync_status : ℕ → Bytes → Bool → Document p → Document p
  send_sync_status conn_id address saved d = elim (lookup conn_id d.connections) [
    | none ↦ d
    | some conn ↦ send conn (status_frame p address saved) d
  ]

  -- The close that a rejecting hook sends.
  abbrev pub reject : ℕ → HookError → Document p → Document p
  reject conn_id e d = elim (lookup conn_id d.connections) [
    | none ↦ d
    | some conn ↦ record d { world = send_close conn (unwrap_or e.close reset_connection) d.world }
  ]

  unfoldable pub before_handle_message : ℕ → Bytes → Origin → Document p → Bool × Document p
  before_handle_message conn_id bytes origin d =
      let payload = change_payload d bytes origin in
      let (e, w) =
        run_until_error p (λ ext. ext.before_handle_message payload) d.extensions d.world in
      elim e [
        | none ↦ (true, record d { world = w })
        | some e ↦ (false, reject conn_id e (record d { world = w }))
      ]

  -- `apply_and_broadcast` once the transaction is over: the batch's base, the flags, the hooks.
  unfoldable pub note_change : Option p.StateVector → Bytes → Origin → Document p → Document p
  note_change base_before computed origin d =
      let based : Document p = elim base_before [
        | none ↦ d
        | some b ↦ record d { broadcast_base = some b }
      ] in
      let marked = mark_dirty origin (record based { broadcast_pending = true }) in
      let payload = change_payload marked computed origin in
      record marked {
        world = run_each p (λ ext. ext.on_change payload) marked.extensions marked.world;
      }

  unfoldable pub apply_and_broadcast : Bytes → Origin → Document p → Document p
  unfolding note_change
  apply_and_broadcast bytes origin d =
      let base_before : Option p.StateVector = elim d.broadcast_base [
        | none ↦ some (p.state_vector d.doc)
        | some _ ↦ none
      ] in
      elim (p.decode_update bytes) [
        | err _ ↦ d
        | ok u ↦
            let applied = p.apply_update d.doc (encode origin) u in
            let d' = record d { doc = applied.doc } in
            elim applied.result [
              | err _ ↦ d'
              | ok _ ↦
                  if is_empty applied.change
                  then d'
                  else note_change base_before applied.change origin d'
            ]
      ]

  -- `SyncStep1` from a client: the missing changes, and the server's own state vector.
  unfoldable pub answer_step1 : ConnHandle p → Bytes → p.StateVector → Document p → Document p
  answer_step1 conn address client_sv d =
      let step2 = p.encode_diff d.doc client_sv in
      let server_sv = p.state_vector d.doc in
      send conn (sync_frame p address (sync_step1 server_sv))
        (send conn (sync_frame p address (sync_step2 step2)) d)

  -- `SyncStep2` or `Update` from a client.
  unfoldable pub handle_update : ℕ → ConnHandle p → Bytes → Origin → Bytes → Document p → Document p
  handle_update conn_id conn address origin bytes d =
      if conn.read_only
      then send_sync_status conn_id address false d
      else let (accepted, d') = before_handle_message conn_id bytes origin d in
        if accepted
        then send_sync_status conn_id address true (apply_and_broadcast bytes origin d')
        else d'

  -- `conn` is what the indexing `self.connections[&conn_id]` finds: the caller has looked it up.
  unfoldable pub handle_sync :
      ℕ → ConnHandle p → Bytes → Origin → IncomingFrame → Document p → Document p
  unfolding answer_step1 handle_update
  handle_sync conn_id conn address origin frame d = elim (p.decode_sync frame.decoder) [
    | err _ ↦ d
    | ok m ↦ elim m [
      | sync_step1 client_sv ↦ answer_step1 conn address client_sv d
      | sync_step2 bytes ↦ handle_update conn_id conn address origin bytes d
      | update bytes ↦ handle_update conn_id conn address origin bytes d
    ]
  ]

  -- `handle_external_sync`: a peer's message; the answer goes back over the cluster.
  unfoldable pub handle_external_sync : IncomingFrame → Origin → Option ℕ → Document p → Document p
  handle_external_sync frame origin reply d = elim (p.decode_sync frame.decoder) [
    | err _ ↦ d
    | ok m ↦ elim m [
      | sync_step1 client_sv ↦ elim reply [
        | none ↦ d
        | some tx ↦
            let step2 = p.encode_diff d.doc client_sv in
            let bytes = Outgoing.into_bytes p.codec (
              Outgoing.write_sync_payload p.codec (p.encode_sync (sync_step2 step2))
                (Outgoing.sync_reply p.codec (Outgoing.start p.codec d.name))) in
            record d { world = p.send_reply tx bytes d.world }
      ]
      | sync_step2 bytes ↦ apply_and_broadcast bytes origin d
      | update bytes ↦ apply_and_broadcast bytes origin d
    ]
  ]
