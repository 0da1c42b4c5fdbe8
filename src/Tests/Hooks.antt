-- ===== src/Tests/Hooks.antt =====
-- The webhook over a run of events, and a client that a broadcast evicts, at concrete inputs.
use hocuspocus_rs.Prelude.{
  ℕ, ◌≤◌, arith, ltb, nat_eq, bytes_eq, ap, inl, inr, Bool-cases, if◌then◌else◌, Bytes-Eq, ◌+◌, ◌≡◌,
  refl, true, false, none, some, List, [], ◌∷◌, ◌++◌, Bytes, ascii, length, lookup, map, ℕ-Eq,
}
use hocuspocus_rs.Config.{default_configuration}
use hocuspocus_rs.Origin.{local}
use hocuspocus_rs.Extension.{default_connection_config}
use hocuspocus_rs.Platform.{Platform, OutMsg, TrySend, frame, full, sent}
use hocuspocus_rs.Document.State.{ConnHandle, DocCommand, Document}
use hocuspocus_rs.Document.Broadcast.{broadcast_with}
use hocuspocus_rs.Document.Actor.{spawn, load_each, run_commands}
use hocuspocus_rs.Server.Hub.{Hub}
use hocuspocus_rs.Server.Client.{ClientConnection, new_client, idle_deadline}
use hocuspocus_rs.Server.Socket.{handle_frame}
use hocuspocus_rs.Server.Evicted.{IsBounded, evicted_untold}
use hocuspocus_rs.Protocol.{IncomingFrame, sync, parse, from_u64}
use hocuspocus_rs.Tests.Codec.{read_varint, read_chunk}
use hocuspocus_rs.Tests.Sockets.{edit}
use hocuspocus_rs.Webhook.{Webhook, WebClient, change, disconnect, new_webhook, with_events}
use hocuspocus_rs.Webhook.Signed.{
  Notice, connected, changed, Post, notify_all, selected, AllSigned, notify_all-signed,
}
use hocuspocus_rs.Tests.Platform.{small}
use hocuspocus_rs.Tests.Samples.{request}

-- Its world is the posts that were made.
abbrev posting : Platform
posting = record {
  codec = small.codec;
  yrs = small.yrs;
  World = List Post;
  Value = Bytes;
  now = λ w. (5, w);
  try_send = λ to m w. (full, w);
  send_reply = λ to bytes w. w;
  send_ack = λ to w. w;
  documents_remove = λ name w. w;
}

abbrev poster : WebClient posting
poster = record {
  Json = Bytes;
  text = λ bytes. bytes;
  texts = λ m. [];
  object = λ fields. ascii "{}";
  to_string = λ bytes. bytes;
  hmac_sha256 = λ key bytes. key ++ bytes;
  hex = λ bytes. bytes;
  post = λ url headers body w. w ++ record { to = url; headers = headers; content = body } ∷ [];
}

-- Set to changes and disconnections only.
abbrev hook : Webhook
hook = with_events (change ∷ disconnect ∷ []) (new_webhook (ascii "http://here") (ascii "key"))

abbrev notices : List (Notice posting)
notices =
    connected (record {
      document_name = ascii "doc";
      socket_id = ascii "ws-1";
      context = [];
      request = request;
      connection_config = default_connection_config;
      provider_version = none;
    })
    ∷ changed
        (record { document_name = ascii "doc"; update = 9 ∷ []; origin = local; clients_count = 1 })
    ∷ []

notify_all-signed_example :
    (sent : List Post) × (notify_all poster hook notices [] ≡ [] ++ sent)
    × (length sent ≡ selected poster hook notices)
    × AllSigned poster hook sent
notify_all-signed_example =
    notify_all-signed poster hook (λ w. w) (λ url headers body w. refl) notices []

-- Its world is the queues of the channels, each of which has room for one message.
abbrev put : ℕ → OutMsg → (ℕ → List OutMsg) → TrySend × (ℕ → List OutMsg)
put to m w =
    if ltb (length (w to)) 1
    then (sent, λ ch. if nat_eq to ch then w ch ++ m ∷ [] else w ch)
    else (full, w)

abbrev stuffed : Platform
stuffed = record {
  codec = small.codec;
  yrs = small.yrs;
  World = ℕ → List OutMsg;
  Value = Bytes;
  now = λ w. (5, w);
  try_send = put;
  send_reply = λ to bytes w. w;
  send_ack = λ to w. w;
  documents_remove = λ name w. w;
}

put_refused :
    (to : ℕ) (m : OutMsg) (w : ℕ → List OutMsg) → 1 ≤ length (w to) → put to m w ≡ (full, w)
put_refused to m w f = elim (Bool-cases (ltb (length (w to)) 1)) [
  | inl e ↦ absurd (ground arith)
  | inr e ↦ rw e refl
]

put_apart :
    (to other : ℕ) (m : OutMsg) (w : ℕ → List OutMsg)
    → nat_eq to other ≡ false
    → (put to m w).1 other ≡ w other
put_apart to other m w ne = elim (Bool-cases (ltb (length (w to)) 1)) [
  | inl e ↦ rw (e, ne) refl
  | inr e ↦ rw e refl
]

stuffed-IsBounded : IsBounded stuffed (λ ch w. w ch) 1
stuffed-IsBounded = record {
  refuses =
      λ to m w f. (ap (λ r. r.0) (put_refused to m w f), ap (λ r. r.1 to) (put_refused to m w f));
  apart = put_apart;
}

abbrev crowded_hub : Hub stuffed
crowded_hub = record {
  documents_get = λ name w. (some 7, w);
  documents_insert = λ name h w. w;
  creating_entry = λ name w. (0, w);
  acquire = λ lock w. w;
  release = λ lock w. w;
  creating_remove = λ name w. w;
  new_doc = λ skip_gc. [];
  start_actor = λ d w. (7, w);
  send_command = λ h c w. (true, w);
  ack_channel = λ w. (0, w);
  ack_received = λ ack w. (true, w);
  next_conn_id = λ w. (3, w);
  abort_writer = λ to w. w;
  after_failed_read = λ bytes. [];
}

abbrev lagging : ConnHandle stuffed
lagging = record {
  conn_id = 2;
  outbound = 2;
  message_address = ascii "doc";
  read_only = false;
  socket_id = ascii "ws-1";
  session_id = none;
  context = [];
  request = request;
  connection_config = default_connection_config;
  provider_version = none;
  client_ids = [];
}

-- One message waits in the queue of the client.
abbrev waiting : ℕ → List OutMsg
waiting ch = if nat_eq ch 2 then frame (1 ∷ []) ∷ [] else []

abbrev crowded : Document stuffed
unfolding spawn
crowded = record (spawn stuffed (ascii "doc") default_configuration [] (7 ∷ []) waiting) {
  connections = (2, lagging) ∷ [];
}

abbrev its_socket : ClientConnection stuffed
unfolding new_client
its_socket = record (new_client stuffed default_configuration [] (ascii "ws-1") 2 request waiting) {
  authenticated = true;
  established = (ascii "doc", record { doc = 7; conn_id = 2 }) ∷ [];
}

abbrev edit_frame : IncomingFrame
edit_frame = record { routing_key = ascii "doc"; message_type = sync; decoder = 2 ∷ 9 ∷ [] }

evicted_untold_example :
    let d' = broadcast_with (λ addr. addr ++ 9 ∷ []) crowded in
    (lookup 2 d'.connections ≡ none)
    × (d'.world 2 ≡ crowded.world 2)
    × ((handle_frame crowded_hub edit its_socket).world
        ≡ (crowded_hub.send_command 7 (DocCommand.client_frame 2 edit) its_socket.world).1)
    × (run_commands (map (DocCommand.client_frame 2) (edit ∷ (4 ∷ []) ∷ [])) d' ≡ (false, d'))
    × (idle_deadline (handle_frame crowded_hub edit its_socket)
        ≡ (stuffed.now its_socket.world).0 + its_socket.config.timeout)
unfolding spawn load_each new_client lookup parse from_u64 read_varint read_chunk bytes_eq
evicted_untold_example =
    evicted_untold stuffed-IsBounded crowded_hub 2 (λ addr. addr ++ 9 ∷ []) ((4 ∷ []) ∷ []) edit
      edit_frame crowded lagging its_socket 7 refl refl refl (omega arith) refl refl refl refl
