-- ===== src/Tests/Syncs.antt =====
-- The first sync of a client, over documents that are numbers.
use hocuspocus_rs.Prelude.{◌≡◌, refl, false, none, [], ◌∷◌, ascii, arith, Bytes-Eq, lookup}
use hocuspocus_rs.Document.State.{Document}
use hocuspocus_rs.Document.Actor.{spawn, load_each}
use hocuspocus_rs.Tests.Codec.{lib0-IsLib0}
use hocuspocus_rs.Tests.Node.{decode_message-law}
use hocuspocus_rs.Yrs.{sync_step1, sync_step2}
use hocuspocus_rs.Extension.{default_connection_config}
use hocuspocus_rs.Document.State.{ConnHandle}
use hocuspocus_rs.Document.Connections.{send}
use hocuspocus_rs.Document.Updates.{sync_frame, before_handle_message, handle_sync, answer_step1}
use hocuspocus_rs.Protocol.{parse, from_u64}
use hocuspocus_rs.Protocol.Outgoing
use hocuspocus_rs.Extension.{run_until_error}
use hocuspocus_rs.Tests.Codec.{read_chunk, read_varint, varint}
use hocuspocus_rs.Document.State.{send_frame}
use hocuspocus_rs.Document.Commands.{handle_client_frame, dispatch}
use hocuspocus_rs.Document.Handshake.{handshake}
use hocuspocus_rs.Tests.Samples.{request}
use hocuspocus_rs.Tests.Numbers.{greater, numbers-IsCrdt, counting, counter}

abbrev writer : ConnHandle counting
writer = record {
  conn_id = 2;
  outbound = 2;
  message_address = ascii "doc";
  read_only = false;
  socket_id = ascii "ws-1";
  session_id = none;
  context = [];
  request = request;
  connection_config = default_connection_config;
  provider_version = none;
  client_ids = [];
}

abbrev joined : Document counting
joined = record (counter 5) { connections = (2, writer) ∷ [] }

-- The client holds 9 and the server 5: each diff is complete, and that of the server is empty.
handshake_example :
    let asked = handle_client_frame 2 (sync_frame counting (ascii "doc") (sync_step1 9)) joined in
    (asked
      ≡ send writer
          (sync_frame counting (ascii "doc") (sync_step1 5))
          (send writer (sync_frame counting (ascii "doc") (sync_step2 [])) joined))
    × (greater 9 0 ≡ greater 5 9)
    × ((handle_client_frame 2 (sync_frame counting (ascii "doc") (sync_step2 (9 ∷ []))) asked).doc
        ≡ greater 5 9)
unfolding spawn load_each lookup before_handle_message run_until_error handle_client_frame parse
    read_chunk read_varint Outgoing.into_bytes Outgoing.write_sync_payload Outgoing.sync
    Outgoing.start varint from_u64 dispatch handle_sync answer_step1 send_frame
handshake_example =
    handshake counting lib0-IsLib0 decode_message-law numbers-IsCrdt 2 writer (ascii "doc") [] 9
      joined (record { missing = 0; decoded = refl; complete = refl })
      (record { missing = 9; decoded = refl; complete = refl }) (omega arith) refl refl refl refl
