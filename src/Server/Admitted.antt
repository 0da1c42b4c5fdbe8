-- ===== src/Server/Admitted.antt =====
-- What admits a client of crates/hocuspocus/src/server.rs to a document: its Auth frame and the hooks.
use hocuspocus_rs.Prelude.{
  ◌⊎◌, ◌≡◌, refl, true, Option, some, List, [], ◌∷◌, Bytes, arith, nat_eq, ok, err, inl, inr,
  Bool-cases, Result-cases, Bytes-Eq,
}
use hocuspocus_rs.Context.{Context}
use hocuspocus_rs.Protocol.{
  IncomingFrame, parse, parse_routing_key, MessageType, sync, awareness, auth, query_awareness,
  sync_reply, stateless, broadcast_stateless, close, sync_status, ping, pong,
}
use hocuspocus_rs.Platform.{Platform}
use hocuspocus_rs.Extension.{Extension, Admission, ConnectionConfig, default_connection_config}
use hocuspocus_rs.Server.Hub.{Hub}
use hocuspocus_rs.Server.Client.{ClientConnection}
use hocuspocus_rs.Server.Auth.{read_token, admit, admit_each}
use hocuspocus_rs.Server.Socket.{is_auth}

-- What the hooks leave: the context, the configuration of the connection, and the world.
abbrev pub Left : Platform → Type 0
Left p = Context p × ConnectionConfig × p.World

module _ {p : Platform} where
  -- Every hook answers Ok, each on what those before it have left.
  unfoldable pub Passes :
      (Extension p → Context p → ConnectionConfig → p.World → Admission p)
      → List (Extension p)
      → Left p
      → Left p
      → Type 0
  Passes hook [] before after = before ≡ after
  Passes hook (ext ∷ exts) (context, config, w) after =
      let a = hook ext context config w in
      (a.result ≡ ok tt) × Passes hook exts (a.context, a.connection_config, a.world) after

  abbrev pub connects :
      Bytes
      → Option Bytes
      → ClientConnection p
      → Extension p
      → Context p
      → ConnectionConfig
      → p.World
      → Admission p
  connects doc_name version c ext context config = ext.on_connect (record {
    document_name = doc_name;
    socket_id = c.socket_id;
    context = context;
    request = c.request;
    connection_config = config;
    provider_version = version;
  })

  abbrev pub authenticates :
      Bytes
      → Bytes
      → ClientConnection p
      → Extension p
      → Context p
      → ConnectionConfig
      → p.World
      → Admission p
  authenticates doc_name text c ext context config = ext.on_authenticate (record {
    token = text;
    document_name = doc_name;
    socket_id = c.socket_id;
    context = context;
    request = c.request;
    connection_config = config;
  })

  -- The payload of a frame is the opcode 0 and then the token, empty if it cannot be read.
  unfoldable pub CarriesToken : Hub p → IncomingFrame → Bytes → Type 0
  CarriesToken hub f text =
      (rest : Bytes) × (p.codec.read_var f.decoder ≡ ok (0, rest))
      × (((after : Bytes) × (p.codec.read_string rest ≡ ok (text, after)))
          ⊎ ((e : p.codec.ReadError) × (p.codec.read_string rest ≡ err e) × (text ≡ [])))

  -- An Auth frame for `key`, and the hooks that have let its sender in, for the client as `c` has it.
  pub record Admitted (hub : Hub p) (key bytes : Bytes) (c : ClientConnection p) : Type 0 where
    pub frame : IncomingFrame
    pub parsed : parse p.codec bytes ≡ ok frame
    pub addressed : frame.routing_key ≡ key
    pub auth_frame : frame.message_type ≡ auth
    pub text : Bytes
    pub carried : CarriesToken hub frame text
    pub version : Option Bytes
    pub between : Left p
    pub left : Left p
    pub connected :
        Passes
          (connects (parse_routing_key key).0 version c)
          c.extensions
          ([], default_connection_config, c.world)
          between
    pub authenticated :
        Passes (authenticates (parse_routing_key key).0 text c) c.extensions between left

  admit_each-Passes :
      (hook : Extension p → Context p → ConnectionConfig → p.World → Admission p)
      (exts : List (Extension p)) (context : Context p) (config : ConnectionConfig) (w : p.World)
      → (admit_each hook exts context config w).result ≡ ok tt
      → let a = admit_each hook exts context config w in
        Passes hook exts (context, config, w) (a.context, a.connection_config, a.world)
  unfolding admit_each Passes
  admit_each-Passes hook [] context config w h = refl
  admit_each-Passes hook (ext ∷ exts) context config w h =
      let a = hook ext context config w in
      elim (Result-cases a.result) [
        | inl (_, e) ↦
            rw (e, admit_each)
              (
                refl,
                admit_each-Passes hook exts a.context a.connection_config a.world
                    (rw (e, admit_each) at h),
              )
        | inr (_, e) ↦ absurd (cc (rw (e, admit_each) at h))
      ]

module _ {p : Platform} (hub : Hub p) where
  pub only_auth : (ty : MessageType) → is_auth ty ≡ true → ty ≡ auth
  only_auth sync h = cc
  only_auth awareness h = cc
  only_auth auth h = refl
  only_auth query_awareness h = cc
  only_auth sync_reply h = cc
  only_auth stateless h = cc
  only_auth broadcast_stateless h = cc
  only_auth close h = cc
  only_auth sync_status h = cc
  only_auth ping h = cc
  only_auth pong h = cc

  -- What `read_token` has read off a frame.
  pub token_of :
      (f : IncomingFrame) (bytes text : Bytes) (version : Option Bytes)
      → parse p.codec bytes ≡ ok f
      → read_token hub bytes ≡ some (text, version)
      → CarriesToken hub f text
  unfolding read_token CarriesToken
  token_of f bytes text version e h = elim (Result-cases (p.codec.read_var f.decoder)) [
    | inr (_, r) ↦ absurd (cc (rw (read_token, e, r) at h))
    | inl ((n, rest), r) ↦ elim (Bool-cases (nat_eq n 0)) [
      | inr x ↦ absurd (cc (rw (read_token, e, r, x) at h))
      | inl x ↦
          let zeroth : n ≡ 0 = ground arith in
          let tagged : p.codec.read_var f.decoder ≡ ok (0, rest) = cc in
          elim (Result-cases (p.codec.read_string rest)) [
            | inl ((s, after), q) ↦
                let same : s ≡ text = ground (arith, rw (read_token, e, r, x, q) at h) in
                (rest, tagged, inl (after, cc))
            | inr (why, q) ↦
                let same : [] ≡ text = ground (arith, rw (read_token, e, r, x, q) at h) in
                (rest, tagged, inr (why, q, cc))
          ]
    ]
  ]

  pub hooks_of :
      (doc_name text : Bytes) (version : Option Bytes) (c : ClientConnection p)
      → (admit doc_name text version c).result ≡ ok tt
      → (between after : Left p) × Passes
          (connects doc_name version c)
          c.extensions
          ([], default_connection_config, c.world)
          between
        × Passes (authenticates doc_name text c) c.extensions between after
  unfolding admit
  hooks_of doc_name text version c h =
      let a =
        admit_each (connects doc_name version c) c.extensions [] default_connection_config
          c.world in
      elim (Result-cases a.result) [
        | inr (_, e) ↦ absurd (cc (rw (admit, e) at h))
        | inl (_, e) ↦
            let b =
              admit_each (authenticates doc_name text c) c.extensions a.context a.connection_config
                a.world in
            (
              (a.context, a.connection_config, a.world),
              (b.context, b.connection_config, b.world),
              admit_each-Passes (connects doc_name version c) c.extensions []
                  default_connection_config c.world e,
              admit_each-Passes (authenticates doc_name text c) c.extensions a.context
                  a.connection_config a.world (rw (admit, e) at h),
            )
      ]
