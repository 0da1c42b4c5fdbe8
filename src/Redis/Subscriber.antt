-- ===== src/Redis/Subscriber.antt =====
-- `spawn_subscriber` of crates/hocuspocus/src/extensions/redis.rs: a message from Redis, and a reply
-- of a document's actor to the other nodes.
use hocuspocus_rs.Prelude.{
  ℕ, Option, none, some, [], ◌∷◌, ◌++◌, Bytes, take, drop, length, ltb, ok, err, ◌==◌,
  if◌then◌else◌, Bytes-Eq,
}
use hocuspocus_rs.Protocol.{parse, parse_routing_key}
use hocuspocus_rs.Platform.{Platform}
use hocuspocus_rs.Document.State.{external_frame}
use hocuspocus_rs.Server.Hub.{Hub}
use hocuspocus_rs.Redis.{RedisServer, channel}

-- The frame behind the sender's identifier, unless the message is malformed or this node's own.
-- `prefix_bytes` is this node's message prefix.
unfoldable pub foreign_frame : Bytes → Bytes → Option Bytes
foreign_frame prefix_bytes [] = none
foreign_frame prefix_bytes (id_len ∷ rest) =
    if ltb (length rest) id_len
    then none
    else if take id_len rest == drop 1 prefix_bytes
    then none
    else some (drop id_len rest)

module _ {p : Platform} where
  -- One round of the loop over the messages.
  unfoldable pub on_message : Hub p → Bytes → ℕ → Bytes → p.World → p.World
  on_message hub prefix_bytes reply_tx payload w = elim (foreign_frame prefix_bytes payload) [
    | none ↦ w
    | some bytes ↦ elim (parse p.codec bytes) [
      | err _ ↦ w
      | ok f ↦
          let (resident, w') = hub.documents_get (parse_routing_key f.routing_key).0 w in
          elim resident [
            | none ↦ w'
            | some h ↦ (hub.send_command h (external_frame bytes (some reply_tx)) w').1
          ]
    ]
  ]

  -- One round of the reply publisher.
  unfoldable pub on_reply : RedisServer p → Bytes → Bytes → Bytes → p.World → p.World
  on_reply s prefix prefix_bytes bytes w = elim (parse p.codec bytes) [
    | err _ ↦ w
    | ok f ↦
        s.publish (channel prefix (parse_routing_key f.routing_key).0) (prefix_bytes ++ bytes) w
  ]
