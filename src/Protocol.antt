-- ===== src/Protocol.antt =====
-- crates/hocuspocus/src/protocol.rs: opcodes, the frame envelope, routing keys and the builder of
-- outbound frames.
pub mod Outgoing
pub mod Opcodes
pub mod Frames
use hocuspocus_rs.Prelude.{
  ℕ, suc, Option, none, some, [], ◌∷◌, ◌++◌, Bytes, take, drop, Result, ok, ok_or, ◌>>=◌, nat_eq,
  if◌then◌else◌,
}
use hocuspocus_rs.Codec.{Codec}

pub data MessageType : Type 0 where
  sync awareness auth query_awareness sync_reply stateless broadcast_stateless : MessageType
  close sync_status ping pong : MessageType

-- `ty as u64`
abbrev pub opcode : MessageType → ℕ
opcode sync = 0
opcode awareness = 1
opcode auth = 2
opcode query_awareness = 3
opcode sync_reply = 4
opcode stateless = 5
opcode broadcast_stateless = 6
opcode close = 7
opcode sync_status = 8
opcode ping = 9
opcode pong = 10

unfoldable pub from_u64 : ℕ → Option MessageType
from_u64 v =
    if nat_eq v 0
    then some sync
    else if nat_eq v 1
    then some awareness
    else if nat_eq v 2
    then some auth
    else if nat_eq v 3
    then some query_awareness
    else if nat_eq v 4
    then some sync_reply
    else if nat_eq v 5
    then some stateless
    else if nat_eq v 6
    then some broadcast_stateless
    else if nat_eq v 7
    then some close
    else if nat_eq v 8
    then some sync_status
    else if nat_eq v 9
    then some ping
    else if nat_eq v 10
    then some pong
    else none

pub data AuthMessageType : Type 0 where
  token permission_denied_tag authenticated_tag : AuthMessageType

abbrev pub auth_opcode : AuthMessageType → ℕ
auth_opcode token = 0
auth_opcode permission_denied_tag = 1
auth_opcode authenticated_tag = 2

pub record IncomingFrame : Type 0 where
  pub routing_key : Bytes
  pub message_type : MessageType
  -- The bytes behind the message type.
  pub decoder : Bytes

module _ (c : Codec) where
  unfoldable pub parse : Bytes → Result c.ReadError IncomingFrame
  parse data_in = do
    (key, d) ← c.read_string data_in
    (raw_type, d') ← c.read_var d
    ty ← ok_or (from_u64 raw_type) c.unexpected_value
    ok (record { routing_key = key; message_type = ty; decoder = d' })

-- `key.find('\0')`: the position of the first NUL byte.
unfoldable pub find_nul : Bytes → Option ℕ
find_nul [] = none
find_nul (b ∷ bs) =
    if nat_eq b 0 then some 0 else elim (find_nul bs) [ none ↦ none | some i ↦ some (suc i) ]

unfoldable pub parse_routing_key : Bytes → Bytes × Option Bytes
unfolding find_nul
parse_routing_key key = elim (find_nul key) [
  | some i ↦ (take i key, some (drop (suc i) key))
  | none ↦ (key, none)
]

unfoldable pub message_address : Bytes → Option Bytes → Bytes
message_address name (some sid) = name ++ 0 ∷ sid
message_address name none = name

pub record OutgoingMessage : Type 0 where
  pub encoder : Bytes

-- Append to the encoder.
abbrev pub write : OutgoingMessage → Bytes → OutgoingMessage
write m b = record m { encoder = m.encoder ++ b }
