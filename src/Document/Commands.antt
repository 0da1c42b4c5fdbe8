-- ===== src/Document/Commands.antt =====
-- Which handler each frame and each command goes to in crates/hocuspocus/src/document.rs.
use hocuspocus_rs.Prelude.{ℕ, Bool, false, Option, none, some, Bytes, ascii, lookup, ok, err, ℕ-Eq}
use hocuspocus_rs.Errors.{CloseEvent, reset_connection}
use hocuspocus_rs.Origin.{connection, redis, local}
use hocuspocus_rs.Protocol.{
  MessageType, sync, awareness, auth, query_awareness, sync_reply, stateless, broadcast_stateless,
  close, sync_status, ping, pong, IncomingFrame, parse,
}
use hocuspocus_rs.Platform.{Platform}
use hocuspocus_rs.Document.State.{ConnHandle, DocCommand, Document}
use hocuspocus_rs.Document.Broadcast
use hocuspocus_rs.Document.Connections.{
  awareness_frame, add_connection, remove_connection, close_connection,
}
use hocuspocus_rs.Document.Updates.{apply_and_broadcast, handle_sync, handle_external_sync}
use hocuspocus_rs.Document.Frames.{
  handle_awareness, reply_query_awareness, handle_stateless, handle_token_sync,
}
use hocuspocus_rs.Document.Store.{maybe_unload}

-- `CloseEvent::new(1000, "provider_initiated")`
abbrev pub provider_initiated : CloseEvent
provider_initiated = record { code = 1000; reason = ascii "provider_initiated" }

module _ {p : Platform} where
  -- The match of `handle_client_frame`.
  unfoldable pub dispatch : MessageType → ℕ → ConnHandle p → IncomingFrame → Document p → Document p
  dispatch sync id conn f d = handle_sync id conn conn.message_address (connection id) f d
  dispatch sync_reply id conn f d = handle_sync id conn conn.message_address (connection id) f d
  dispatch awareness id conn f d = handle_awareness f (connection id) d
  dispatch query_awareness id conn f d = reply_query_awareness conn.message_address id d
  dispatch stateless id conn f d = handle_stateless conn f d
  dispatch close id conn f d = close_connection id provider_initiated d
  dispatch auth id conn f d = handle_token_sync id f d
  dispatch broadcast_stateless id conn f d = close_connection id reset_connection d
  dispatch sync_status id conn f d = d
  dispatch ping id conn f d = d
  dispatch pong id conn f d = d

  -- The connection is looked up once: nothing changes the map before a handler indexes it.
  unfoldable pub handle_client_frame : ℕ → Bytes → Document p → Document p
  handle_client_frame conn_id bytes d = elim (lookup conn_id d.connections) [
    | none ↦ d
    | some conn ↦ elim (parse p.codec bytes) [
      | err _ ↦ d
      | ok f ↦ dispatch f.message_type conn_id conn f d
    ]
  ]

  -- The match of `handle_external_frame`.
  unfoldable pub dispatch_external :
      MessageType → IncomingFrame → Option ℕ → Document p → Document p
  dispatch_external sync f reply d = handle_external_sync f redis reply d
  dispatch_external sync_reply f reply d = handle_external_sync f redis reply d
  dispatch_external awareness f reply d = handle_awareness f redis d
  dispatch_external query_awareness f reply d = elim reply [
    | none ↦ d
    | some tx ↦ elim (p.awareness_update d.awareness) [
      | err _ ↦ d
      | ok u ↦ record d { world = p.send_reply tx (awareness_frame p d.name u) d.world }
    ]
  ]
  dispatch_external broadcast_stateless f reply d = elim (p.read_string f.decoder) [
    | err _ ↦ d
    | ok (payload, _) ↦ Broadcast.broadcast_stateless payload d
  ]
  dispatch_external _ f reply d = d

  unfoldable pub handle_external_frame : Bytes → Option ℕ → Document p → Document p
  unfolding dispatch_external
  handle_external_frame bytes reply d = elim (parse p.codec bytes) [
    | err _ ↦ d
    | ok f ↦ dispatch_external f.message_type f reply d
  ]

  -- The acknowledgement that a command's sender waits for.
  abbrev pub acknowledge : ℕ → Document p → Document p
  acknowledge ack d = record d { world = p.send_ack ack d.world }

  -- The result says whether the actor should exit.
  unfoldable pub handle_command : DocCommand p → Document p → Bool × Document p
  handle_command (DocCommand.add_connection conn ack) d =
      (false, acknowledge ack (add_connection conn d))
  handle_command (DocCommand.client_frame conn_id bytes) d =
      (false, handle_client_frame conn_id bytes d)
  handle_command (DocCommand.remove_connection conn_id) d =
      maybe_unload (remove_connection conn_id d)
  handle_command (DocCommand.external_frame bytes reply) d =
      (false, handle_external_frame bytes reply d)
  handle_command (DocCommand.direct_apply update ack) d =
      (false, acknowledge ack (apply_and_broadcast update local d))
