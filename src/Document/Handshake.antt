-- ===== src/Document/Handshake.antt =====
-- The exchange that brings a client and a document of crates/hocuspocus/src/document.rs to one value: the
-- client's `SyncStep1`, the two answers, and the client's `SyncStep2`.
use hocuspocus_rs.Prelude.{
  ℕ, ◌≡◌, refl, ap, ◌∙◌, true, false, some, Bytes, length, lookup, ok, ℕ-Eq,
}
use hocuspocus_rs.Codec.{IsLib0, IsU64}
use hocuspocus_rs.Origin.{connection}
use hocuspocus_rs.Yrs.{SyncMessage, sync_step1, sync_step2}
use hocuspocus_rs.Yrs.Crdt.{IsCrdt, IsDiff}
use hocuspocus_rs.Protocol.{sync, parse}
use hocuspocus_rs.Protocol.Outgoing
use hocuspocus_rs.Protocol.Frames.{parse_envelope}
use hocuspocus_rs.Platform.{Platform}
use hocuspocus_rs.Document.State.{ConnHandle, Document}
use hocuspocus_rs.Document.Connections.{send}
use hocuspocus_rs.Document.Updates.{
  sync_frame, before_handle_message, apply_and_broadcast, send_sync_status, answer_step1,
  handle_update, handle_sync,
}
use hocuspocus_rs.Document.Commands.{dispatch, handle_client_frame}
use hocuspocus_rs.Document.Core.{core-before_handle_message, core-send_sync_status}
use hocuspocus_rs.Redis.Convergence.{absorb, absorb_decoded, value-apply_and_broadcast}

module _ (p : Platform) (l : IsLib0 p.codec)
    (law : (m : SyncMessage p.StateVector) → p.decode_sync (p.encode_sync m) ≡ ok m) where
  parse-sync_frame :
      (addr : Bytes) (m : SyncMessage p.StateVector)
      → IsU64 (length addr)
      → parse p.codec (sync_frame p addr m)
        ≡ ok (record { routing_key = addr; message_type = sync; decoder = p.encode_sync m })
  unfolding Outgoing.into_bytes Outgoing.write_sync_payload Outgoing.sync Outgoing.start
  parse-sync_frame addr m fits = parse_envelope l addr sync _ fits

  handle_client_frame-sync_frame :
      (id : ℕ) (conn : ConnHandle p) (addr : Bytes) (m : SyncMessage p.StateVector) (d : Document p)
      → IsU64 (length addr)
      → lookup id d.connections ≡ some conn
      → handle_client_frame id (sync_frame p addr m) d
        ≡ handle_sync id conn conn.message_address
            (connection id)
            (record { routing_key = addr; message_type = sync; decoder = p.encode_sync m })
            d
  unfolding handle_client_frame dispatch
  handle_client_frame-sync_frame id conn addr m d fits e =
      rw (e, handle_client_frame, parse-sync_frame addr m fits)

  answered :
      (id : ℕ) (conn : ConnHandle p) (addr : Bytes) (sv : p.StateVector) (d : Document p)
      → IsU64 (length addr)
      → lookup id d.connections ≡ some conn
      → handle_client_frame id (sync_frame p addr (sync_step1 sv)) d
        ≡ answer_step1 conn conn.message_address sv d
  unfolding handle_sync
  answered id conn addr sv d fits e =
      handle_client_frame-sync_frame id conn addr (sync_step1 sv) d fits e
      ∙ rw (handle_sync, law (sync_step1 sv)) refl

  accepted :
      (id : ℕ) (conn : ConnHandle p) (addr bytes : Bytes) (d : Document p)
      → IsU64 (length addr)
      → lookup id d.connections ≡ some conn
      → conn.read_only ≡ false
      → (before_handle_message id bytes (connection id) d).0 ≡ true
      → handle_client_frame id (sync_frame p addr (sync_step2 bytes)) d
        ≡ send_sync_status id conn.message_address true (
            apply_and_broadcast bytes
              (connection id)
              (before_handle_message id bytes (connection id) d).1)
  unfolding handle_sync handle_update
  accepted id conn addr bytes d fits e writes admits =
      handle_client_frame-sync_frame id conn addr (sync_step2 bytes) d fits e
      ∙ rw (handle_sync, law (sync_step2 bytes), handle_update, writes, admits) refl

  module _ {S : Type 0} {value : p.Doc → S} {meaning : p.Update → S} {join : S → S → S}
      (c : IsCrdt p.yrs value meaning join) where
    -- A `SyncStep2` of a client that may write joins its update to the document.
    value-accepted :
        (id : ℕ) (conn : ConnHandle p) (addr bytes : Bytes) (d : Document p)
        → IsU64 (length addr)
        → lookup id d.connections ≡ some conn
        → conn.read_only ≡ false
        → (before_handle_message id bytes (connection id) d).0 ≡ true
        → value (handle_client_frame id (sync_frame p addr (sync_step2 bytes)) d).doc
          ≡ absorb c bytes (value d.doc)
    value-accepted id conn addr bytes d fits e writes admits =
        let d' = (before_handle_message id bytes (connection id) d).1 in
        let kept = ap (λ k. k.doc) (core-before_handle_message id bytes (connection id) d) in
        ap (λ (d : Document p). value d.doc) (accepted id conn addr bytes d fits e writes admits)
        ∙ ap (λ k. value k.doc)
            (core-send_sync_status id conn.message_address true
              (apply_and_broadcast bytes (connection id) d'))
        ∙ value-apply_and_broadcast c bytes (connection id) d'
        ∙ ap (λ doc. absorb c bytes (value doc)) kept

    -- The sync of a client that may write: its `SyncStep1` is answered by what the document has beyond
    -- the client's, and by the document's own state vector; with the first the client's document, and
    -- with the client's `SyncStep2` to the second the server's document, becomes the join of both, so
    -- they are of one value. The hooks accept that message, the frames are addressed to the
    -- connection and their address fits 64 bits, `yrs` decodes the sync messages that it encodes, its
    -- documents are values of a semilattice, and its diffs are complete.
    pub handshake :
        (id : ℕ) (conn : ConnHandle p) (addr o : Bytes) (mine : p.Doc) (d : Document p)
        (down : IsDiff p.yrs value meaning join mine d.doc)
        (up : IsDiff p.yrs value meaning join d.doc mine)
        → IsU64 (length addr)
        → lookup id d.connections ≡ some conn
        → conn.message_address ≡ addr
        → conn.read_only ≡ false
        → (before_handle_message id
            (p.encode_diff mine (p.state_vector d.doc))
            (connection id)
            (handle_client_frame id (sync_frame p addr (sync_step1 (p.state_vector mine))) d)).0
          ≡ true
        → let asked =
            handle_client_frame id (sync_frame p addr (sync_step1 (p.state_vector mine))) d in
          let reply = p.encode_diff mine (p.state_vector d.doc) in
          (asked
            ≡ send conn (sync_frame p addr (sync_step1 (p.state_vector d.doc))) (
                send conn
                  (sync_frame p addr (sync_step2 (p.encode_diff d.doc (p.state_vector mine))))
                  d))
          × (value (p.apply_update mine o down.missing).doc ≡ join (value d.doc) (value mine))
          × (value (handle_client_frame id (sync_frame p addr (sync_step2 reply)) asked).doc
              ≡ join (value d.doc) (value mine))
    unfolding answer_step1
    handshake id conn addr o mine d down up fits e a writes admits =
        let sv = p.state_vector mine in
        let reply = p.encode_diff mine (p.state_vector d.doc) in
        let asked = handle_client_frame id (sync_frame p addr (sync_step1 sv)) d in
        let first = answered id conn addr sv d fits e in
        let found : lookup id asked.connections ≡ some conn =
          ap (λ (d : Document p). lookup id d.connections) first ∙ e in
        (
          first ∙ rw a refl,
          c.applied mine o down.missing ∙ down.complete ∙ c.comm (value mine) (value d.doc),
          value-accepted id conn addr reply asked fits found writes admits
              ∙ ap (λ (d : Document p). absorb c reply (value d.doc)) first
              ∙ absorb_decoded c reply up.missing (value d.doc) up.decoded
              ∙ up.complete,
        )
