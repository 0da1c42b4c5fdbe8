-- ===== src/Protocol/Outgoing.antt =====
-- The builder methods of `OutgoingMessage` in crates/hocuspocus/src/protocol.rs. Each frame is the
-- address, the opcode and then the payload.
use hocuspocus_rs.Prelude.{Bool, Bytes, ascii, if◌then◌else◌}
use hocuspocus_rs.Codec.{Codec}
use hocuspocus_rs.Protocol.{
  MessageType, awareness, auth, close, opcode, auth_opcode, token, permission_denied_tag,
  authenticated_tag, OutgoingMessage, write,
}

module _ (c : Codec) where
  -- `OutgoingMessage::new`
  unfoldable pub start : Bytes → OutgoingMessage
  start address = record { encoder = c.write_string address }

  unfoldable pub write_opcode : MessageType → OutgoingMessage → OutgoingMessage
  write_opcode ty m = write m (c.write_var (opcode ty))

  unfoldable pub sync : OutgoingMessage → OutgoingMessage
  unfolding write_opcode
  sync m = write_opcode MessageType.sync m

  unfoldable pub sync_reply : OutgoingMessage → OutgoingMessage
  unfolding write_opcode
  sync_reply m = write_opcode MessageType.sync_reply m

  unfoldable pub write_sync_payload : Bytes → OutgoingMessage → OutgoingMessage
  write_sync_payload payload m = write m payload

  unfoldable pub awareness_update : Bytes → OutgoingMessage → OutgoingMessage
  unfolding write_opcode
  awareness_update update m = write (write_opcode awareness m) (c.write_buf update)

  unfoldable pub query_awareness : OutgoingMessage → OutgoingMessage
  unfolding write_opcode
  query_awareness m = write_opcode MessageType.query_awareness m

  unfoldable pub authenticated : Bool → OutgoingMessage → OutgoingMessage
  unfolding write_opcode
  authenticated read_only m =
      write (write (write_opcode auth m) (c.write_var (auth_opcode authenticated_tag)))
        (c.write_string (if read_only then ascii "readonly" else ascii "read-write"))

  unfoldable pub permission_denied : Bytes → OutgoingMessage → OutgoingMessage
  unfolding write_opcode
  permission_denied reason m =
      write (write (write_opcode auth m) (c.write_var (auth_opcode permission_denied_tag)))
        (c.write_string reason)

  unfoldable pub token_sync_request : OutgoingMessage → OutgoingMessage
  unfolding write_opcode
  token_sync_request m = write (write_opcode auth m) (c.write_var (auth_opcode token))

  unfoldable pub stateless : Bytes → OutgoingMessage → OutgoingMessage
  unfolding write_opcode
  stateless payload m = write (write_opcode MessageType.stateless m) (c.write_string payload)

  unfoldable pub broadcast_stateless : Bytes → OutgoingMessage → OutgoingMessage
  unfolding write_opcode
  broadcast_stateless payload m =
      write (write_opcode MessageType.broadcast_stateless m) (c.write_string payload)

  unfoldable pub sync_status : Bool → OutgoingMessage → OutgoingMessage
  unfolding write_opcode
  sync_status update_saved m =
      write (write_opcode MessageType.sync_status m) (c.write_var (if update_saved then 1 else 0))

  unfoldable pub close_message : Bytes → OutgoingMessage → OutgoingMessage
  unfolding write_opcode
  close_message reason m = write (write_opcode close m) (c.write_string reason)

  unfoldable pub into_bytes : OutgoingMessage → Bytes
  into_bytes m = m.encoder
