-- ===== src/Server/Auth.antt =====
-- Authentication in crates/hocuspocus/src/server.rs: the token, the hooks that admit a client, and
-- the registration of its connection with a document.
use hocuspocus_rs.Prelude.{
  ℕ, zero, suc, true, Option, none, some, List, [], ◌∷◌, Bytes, lookup, insert, remove, ok, err,
  nat_eq, if◌then◌else◌, Bytes-Eq,
}
use hocuspocus_rs.Errors.{reset_connection}
use hocuspocus_rs.Context.{Context}
use hocuspocus_rs.Protocol.{parse, parse_routing_key, auth_opcode, token}
use hocuspocus_rs.Protocol.Outgoing
use hocuspocus_rs.Platform.{Platform}
use hocuspocus_rs.Extension.{
  Extension, ConnectionConfig, Admission, default_connection_config, set_authenticated,
}
use hocuspocus_rs.Document.State.{ConnHandle, add_connection}
use hocuspocus_rs.Server.Hub.{Hub, document}
use hocuspocus_rs.Server.Client.{Established, ClientConnection, terminate, send_out, deny, drain}

module _ {p : Platform} where
  -- The loop over the hooks of one kind: the first error ends it. The context and the configuration
  -- are shared, so a hook sees what those before it have left.
  unfoldable pub admit_each :
      (Extension p → Context p → ConnectionConfig → p.World → Admission p)
      → List (Extension p)
      → Context p
      → ConnectionConfig
      → p.World
      → Admission p
  admit_each hook [] context config w = record {
    result = ok tt;
    context = context;
    connection_config = config;
    world = w;
  }
  admit_each hook (ext ∷ exts) context config w =
      let a = hook ext context config w in
      elim a.result [
        | ok _ ↦ admit_each hook exts a.context a.connection_config a.world
        | err _ ↦ a
      ]

  -- What `authenticate` reads: the token, empty if it cannot be read, and the provider's version.
  unfoldable pub read_token : Hub p → Bytes → Option (Bytes × Option Bytes)
  read_token hub bytes = elim (parse p.codec bytes) [
    | err _ ↦ none
    | ok f ↦ elim (p.codec.read_var f.decoder) [
      | err _ ↦ none
      | ok (auth_type, rest) ↦
          if nat_eq auth_type (auth_opcode token)
          then (let (text, left) : Bytes × Bytes = elim (p.codec.read_string rest) [
            | err _ ↦ ([], hub.after_failed_read rest)
            | ok (s, left) ↦ (s, left)
          ] in
              some (text, elim (p.codec.read_string left) [ err _ ↦ none | ok (v, _) ↦ some v ]))
          else none
    ]
  ]

  -- The handle that `register_connection` sends to the document's actor.
  abbrev pub conn_handle :
      Bytes → ℕ → Option Bytes → Admission p → Option Bytes → ClientConnection p → ConnHandle p
  conn_handle raw_key conn_id session_id a version c = record {
    conn_id = conn_id;
    outbound = c.out_tx;
    message_address = raw_key;
    read_only = a.connection_config.read_only;
    socket_id = c.socket_id;
    session_id = session_id;
    context = a.context;
    request = c.request;
    connection_config = set_authenticated true a.connection_config;
    provider_version = version;
    client_ids = [];
  }

  -- `register_connection`, with the number of rounds of its loop.
  unfoldable pub register_connection :
      Hub p → ℕ → Bytes → ConnHandle p → ClientConnection p → p.World → Option ℕ × p.World
  register_connection hub zero doc_name conn c w = (none, w)
  register_connection hub (suc n) doc_name conn c w =
      let (h, w1) = document hub c.config c.extensions doc_name w in
      let (ack, w2) = hub.ack_channel w1 in
      let (taken, w3) = hub.send_command h (add_connection conn ack) w2 in
      let (received, w4) = hub.ack_received ack w3 in
      let gone = register_connection hub n doc_name conn c (p.documents_remove doc_name w3) in
      let lost = register_connection hub n doc_name conn c (p.documents_remove doc_name w4) in
      if taken then (if received then (some h, w4) else lost) else gone

  -- The end of `authenticate`: the frames queued for this routing key go to the document.
  unfoldable pub open_document :
      Hub p → Bytes → Established → ClientConnection p → ClientConnection p
  open_document hub raw_key est c =
      let c' = record c { established = insert raw_key est c.established } in
      elim (lookup raw_key c'.queue) [
        | none ↦ c'
        | some pending ↦ drain hub est pending (record c' { queue = remove raw_key c'.queue })
      ]

  -- The end of `authenticate`, given what `register_connection` has answered.
  unfoldable pub enter : Hub p → Bytes → ℕ → Option ℕ → ClientConnection p → ClientConnection p
  unfolding open_document
  enter hub raw_key conn_id none c = terminate reset_connection c
  enter hub raw_key conn_id (some h) c =
      open_document hub raw_key (record { doc = h; conn_id = conn_id }) c

  -- `authenticate` once every hook has admitted the client.
  unfoldable pub welcome :
      Hub p
      → Bytes
      → Option Bytes
      → Admission p
      → Option Bytes
      → ClientConnection p
      → ClientConnection p
  unfolding enter
  welcome hub raw_key session_id a version c =
      let greeted =
        send_out
          (Outgoing.into_bytes p.codec (
            Outgoing.authenticated p.codec a.connection_config.read_only
              (Outgoing.start p.codec raw_key)))
          (record c { authenticated = true; world = a.world }) in
      let (conn_id, w) = hub.next_conn_id greeted.world in
      let conn = conn_handle raw_key conn_id session_id a version greeted in
      let (handle, w') = register_connection hub 2 (parse_routing_key raw_key).0 conn greeted w in
      enter hub raw_key conn_id handle (record greeted { world = w' })

  -- The hooks `on_connect`, then `on_authenticate`.
  unfoldable pub admit : Bytes → Bytes → Option Bytes → ClientConnection p → Admission p
  admit doc_name text version c =
      let a =
        admit_each
          (λ ext context config. ext.on_connect (record {
            document_name = doc_name;
            socket_id = c.socket_id;
            context = context;
            request = c.request;
            connection_config = config;
            provider_version = version;
          }))
          c.extensions [] default_connection_config c.world in
      elim a.result [
        | err _ ↦ a
        | ok _ ↦
            admit_each
              (λ ext context config. ext.on_authenticate (record {
                token = text;
                document_name = doc_name;
                socket_id = c.socket_id;
                context = context;
                request = c.request;
                connection_config = config;
              }))
              c.extensions a.context a.connection_config a.world
      ]

  unfoldable pub authenticate : Hub p → Bytes → Bytes → ClientConnection p → ClientConnection p
  unfolding welcome admit
  authenticate hub raw_key bytes c = elim (read_token hub bytes) [
    | none ↦ c
    | some (text, version) ↦
        let (doc_name, session_id) = parse_routing_key raw_key in
        let a = admit doc_name text version c in
        elim a.result [
          | err e ↦ deny raw_key e.message (record c { world = a.world })
          | ok _ ↦ welcome hub raw_key session_id a version c
        ]
  ]
