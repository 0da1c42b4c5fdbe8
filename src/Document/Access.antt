-- ===== src/Document/Access.antt =====
-- Who may change a document through crates/hocuspocus/src/document.rs.
use hocuspocus_rs.Prelude.{
  ℕ, ◌≡◌, refl, true, false, some, Bytes, lookup, arith, inl, inr, Result-cases, ℕ-Eq,
}
use hocuspocus_rs.Origin.{Origin, connection}
use hocuspocus_rs.Yrs.{sync_step1, sync_step2, update}
use hocuspocus_rs.Protocol.{
  MessageType, sync, awareness, auth, query_awareness, sync_reply, stateless, broadcast_stateless,
  close, IncomingFrame, parse,
}
use hocuspocus_rs.Platform.{Platform}
use hocuspocus_rs.Document.State.{ConnHandle, Document}
use hocuspocus_rs.Document.Updates.{before_handle_message, handle_update, handle_sync}
use hocuspocus_rs.Document.Frames.{handle_token_sync}
use hocuspocus_rs.Document.Commands.{dispatch, handle_client_frame}
use hocuspocus_rs.Document.Core.{
  core, core-send_sync_status, core-answer_step1, core-before_handle_message, core-handle_awareness,
  core-reply_query_awareness, core-handle_stateless, core-close_connection,
}

module _ {p : Platform} where
  handle_update-read_only :
      (id : ℕ) (conn : ConnHandle p) (addr : Bytes) (origin : Origin) (bytes : Bytes)
      (d : Document p)
      → conn.read_only ≡ true
      → core (handle_update id conn addr origin bytes d) ≡ core d
  unfolding handle_update
  handle_update-read_only id conn addr origin bytes d h =
      rw (h, handle_update) (core-send_sync_status id addr false d)

  handle_sync-read_only :
      (id : ℕ) (conn : ConnHandle p) (addr : Bytes) (origin : Origin) (f : IncomingFrame)
      (d : Document p)
      → conn.read_only ≡ true
      → core (handle_sync id conn addr origin f d) ≡ core d
  unfolding handle_sync
  handle_sync-read_only id conn addr origin f d h = elim (Result-cases (p.decode_sync f.decoder)) [
    | inl (sync_step1 sv, e) ↦ rw (e, handle_sync) (core-answer_step1 conn addr sv d)
    | inl (sync_step2 u, e) ↦
        rw (e, handle_sync) (handle_update-read_only id conn addr origin u d h)
    | inl (update u, e) ↦ rw (e, handle_sync) (handle_update-read_only id conn addr origin u d h)
    | inr (_, e) ↦ rw (e, handle_sync)
  ]

  dispatch-read_only :
      (t : MessageType) (id : ℕ) (conn : ConnHandle p) (f : IncomingFrame) (d : Document p)
      → conn.read_only ≡ true
      → core (dispatch t id conn f d) ≡ core d
  unfolding dispatch handle_token_sync
  dispatch-read_only sync id conn f d h = handle_sync-read_only id conn _ _ f d h
  dispatch-read_only sync_reply id conn f d h = handle_sync-read_only id conn _ _ f d h
  dispatch-read_only awareness id conn f d h = core-handle_awareness f (connection id) d
  dispatch-read_only query_awareness id conn f d h = core-reply_query_awareness _ id d
  dispatch-read_only stateless id conn f d h = core-handle_stateless conn f d
  dispatch-read_only close id conn f d h = core-close_connection id _ d
  dispatch-read_only broadcast_stateless id conn f d h = core-close_connection id _ d
  dispatch-read_only auth id conn f d h = refl
  dispatch-read_only _ id conn f d h = refl

  -- No frame of a read-only connection changes the document, marks it dirty, queues a broadcast or
  -- starts a store: every field of the actor but the connections, the awareness and the world stays.
  pub handle_client_frame-read_only :
      (id : ℕ) (bytes : Bytes) (d : Document p) (conn : ConnHandle p)
      → lookup id d.connections ≡ some conn
      → conn.read_only ≡ true
      → core (handle_client_frame id bytes d) ≡ core d
  unfolding handle_client_frame
  handle_client_frame-read_only id bytes d conn e h = elim (Result-cases (parse p.codec bytes)) [
    | inl (f, e') ↦
        rw (e, handle_client_frame, e') (dispatch-read_only f.message_type id conn f d h)
    | inr (_, e') ↦ rw (e, handle_client_frame, e')
  ]

  -- An update that a `before_handle_message` hook rejects leaves every field of the actor but the
  -- connections, the awareness and the world as it was.
  pub handle_update-rejected :
      (id : ℕ) (conn : ConnHandle p) (addr : Bytes) (origin : Origin) (bytes : Bytes)
      (d : Document p)
      → (before_handle_message id bytes origin d).0 ≡ false
      → core (handle_update id conn addr origin bytes d) ≡ core d
  unfolding handle_update
  handle_update-rejected id conn addr origin bytes d h =
      ground
        (arith, core-send_sync_status id addr false d, core-before_handle_message id bytes origin d)
