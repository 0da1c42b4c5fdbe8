-- ===== src/Tests/Sockets.antt =====
-- A client socket on the small platform, and the theorems about it at concrete inputs.
use hocuspocus_rs.Prelude.{
  ◌+◌, ◌≡◌, refl, true, none, [], ◌∷◌, ◌++◌, Bytes, ascii, lookup, remove, insert, contains_key,
  bytes_eq, err, ok, if◌then◌else◌, Bytes-Eq,
}
use hocuspocus_rs.Errors.{forbidden}
use hocuspocus_rs.Config.{default_configuration}
use hocuspocus_rs.Protocol.{find_nul, parse, from_u64, parse_routing_key}
use hocuspocus_rs.Extension.{Extension, default_extension}
use hocuspocus_rs.Tests.Codec.{read_varint, read_chunk}
use hocuspocus_rs.Server.Hub.{Hub, document}
use hocuspocus_rs.Server.Client.{
  ClientConnection, new_client, idle_deadline, terminate, send_out, deny, enqueue, drain,
}
use hocuspocus_rs.Server.Auth.{
  admit_each, read_token, register_connection, open_document, enter, welcome, admit, authenticate,
}
use hocuspocus_rs.Server.Socket.{handle_new, route, handle_frame, handle_frames}
use hocuspocus_rs.Server.Limits.{Limits, handle_frames-Limits}
use hocuspocus_rs.Server.Admitted.{Admitted}
use hocuspocus_rs.Server.Gate.{noted, handle_frame-Admitted}
use hocuspocus_rs.Server.Idle.{handle_frames-idle_deadline}
use hocuspocus_rs.Tests.Platform.{small}
use hocuspocus_rs.Tests.Samples.{request, world}

-- No document is resident, and every actor answers.
abbrev registry : Hub small
registry = record {
  documents_get = λ name w. (none, w);
  documents_insert = λ name h w. w;
  creating_entry = λ name w. (0, w);
  acquire = λ lock w. w;
  release = λ lock w. w;
  creating_remove = λ name w. w;
  new_doc = λ skip_gc. [];
  start_actor = λ d w. (7, w);
  send_command = λ h c w. (true, record w { time = w.time + 1 });
  ack_channel = λ w. (0, w);
  ack_received = λ ack w. (true, w);
  next_conn_id = λ w. (3, w);
  abort_writer = λ to w. w;
  after_failed_read = λ bytes. [];
}

-- A hook that wants the token `key`.
abbrev wants_key : Extension small
wants_key = record (default_extension small) {
  on_authenticate = λ payload w. record {
    result = if bytes_eq payload.token (ascii "key") then ok tt else err forbidden;
    context = payload.context;
    connection_config = payload.connection_config;
    world = w;
  };
}

abbrev socket : ClientConnection small
unfolding new_client
socket = new_client small default_configuration (wants_key ∷ []) (ascii "ws-1") 1 request (world 9)

-- `Sync` with an `Update`, then `Auth` with the right token and with another.
abbrev pub edit : Bytes
edit = 3 ∷ ascii "doc" ++ (0 ∷ 2 ∷ 9 ∷ [])

abbrev pub right_token : Bytes
right_token = 3 ∷ ascii "doc" ++ (2 ∷ 0 ∷ 3 ∷ ascii "key")

abbrev wrong_token : Bytes
wrong_token = 3 ∷ ascii "doc" ++ (2 ∷ 0 ∷ 1 ∷ ascii "x")

-- The two queued frames leave the queue once the client is let in.
drained : (handle_frames registry (edit ∷ edit ∷ right_token ∷ []) socket).queued_messages ≡ 0
unfolding handle_frames handle_frame route handle_new parse from_u64 read_varint read_chunk lookup
    enqueue insert remove contains_key authenticate read_token parse_routing_key find_nul admit
    admit_each welcome send_out register_connection document enter open_document drain new_client
    bytes_eq
drained = refl

handle_frame-Admitted_example : Admitted registry (ascii "doc") right_token (noted registry socket)
unfolding handle_frame route handle_new parse from_u64 read_varint read_chunk lookup authenticate
    read_token parse_routing_key find_nul admit admit_each insert welcome send_out
    register_connection document enter open_document drain new_client bytes_eq
handle_frame-Admitted_example =
    handle_frame-Admitted registry right_token (ascii "doc") (record { doc = 7; conn_id = 3 })
      socket refl refl

handle_frames-Limits_example :
    Limits (handle_frames registry (edit ∷ wrong_token ∷ edit ∷ []) socket)
unfolding new_client
handle_frames-Limits_example =
    handle_frames-Limits registry (edit ∷ wrong_token ∷ edit ∷ []) default_configuration
      (wants_key ∷ []) (ascii "ws-1") 1 request (world 9)

handle_frames-idle_deadline_example :
    idle_deadline (handle_frames registry (edit ∷ wrong_token ∷ []) socket) ≡ idle_deadline socket
unfolding handle_frames handle_frame route handle_new parse from_u64 read_varint read_chunk lookup
    enqueue insert remove contains_key authenticate read_token parse_routing_key find_nul admit
    admit_each deny send_out terminate new_client bytes_eq
handle_frames-idle_deadline_example =
    handle_frames-idle_deadline registry (edit ∷ wrong_token ∷ []) socket refl
