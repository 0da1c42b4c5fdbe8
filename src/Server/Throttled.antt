-- ===== src/Server/Throttled.antt =====
-- What the throttle keeps out of crates/hocuspocus/src/server.rs.
use hocuspocus_rs.Extension.{Extension, ConnectionPayload, Admission, default_connection_config}
use hocuspocus_rs.Prelude.{ap, ◌∙◌, ◌≡◌, refl, true, false, Option, some, [], ◌∷◌, Bytes, ok, err}
use hocuspocus_rs.Errors.{forbidden, HookError, HookResult}
use hocuspocus_rs.Context.{client_ip}
use hocuspocus_rs.Platform.{Platform}
use hocuspocus_rs.Protocol.{parse_routing_key}
use hocuspocus_rs.Document.State.{is_empty}
use hocuspocus_rs.Throttle.{Throttle, Inner, should_block}
use hocuspocus_rs.Throttle.Hook.{on_connect, throttle_extension}
use hocuspocus_rs.Server.Hub.{Hub}
use hocuspocus_rs.Server.Client.{ClientConnection, deny}
use hocuspocus_rs.Server.Auth.{admit_each, read_token, admit, authenticate}

-- The payload of `on_connect` for the first extension.
abbrev first_payload :
    {p : Platform} → Bytes → Option Bytes → ClientConnection p → ConnectionPayload p
first_payload doc_name version c = record {
  document_name = doc_name;
  socket_id = c.socket_id;
  context = [];
  request = c.request;
  connection_config = default_connection_config;
  provider_version = version;
}

module _ {p : Platform} where
  refusal_ends :
      (r : HookResult) (e : HookError) (a more : Admission p)
      → r ≡ err e
      → (elim r [ ok _ ↦ more | err _ ↦ a ]) ≡ a
  refusal_ends (ok x) e a more h = cc
  refusal_ends (err x) e a more h = refl

  admit-refused :
      (doc_name text : Bytes) (version : Option Bytes) (ext : Extension p) (c : ClientConnection p)
      (e : HookError)
      → (ext.on_connect (first_payload doc_name version c) c.world).result ≡ err e
      → admit doc_name text version (record c { extensions = ext ∷ c.extensions })
        ≡ ext.on_connect (first_payload doc_name version c) c.world
  unfolding admit admit_each
  admit-refused doc_name text version ext c e h =
      let first =
        refusal_ends _ e (ext.on_connect (first_payload doc_name version c) c.world) _ h in
      refusal_ends _ e _ _ (ap (λ a. a.result) first ∙ h) ∙ first

  authenticate-refused :
      (hub : Hub p) (raw_key bytes text : Bytes) (version : Option Bytes) (c : ClientConnection p)
      (e : HookError)
      → read_token hub bytes ≡ some (text, version)
      → (admit (parse_routing_key raw_key).0 text version c).result ≡ err e
      → authenticate hub raw_key bytes c
        ≡ deny raw_key e.message
            (record c { world = (admit (parse_routing_key raw_key).0 text version c).world })
  unfolding authenticate
  authenticate-refused hub raw_key bytes text version c e h refused =
      rw (h, authenticate, refused) refl

module _ {p : Platform} (read : p.World → Inner) (write : Inner → p.World → p.World) where
  on_connect-blocked :
      (t : Throttle) (ip : Bytes) (payload : ConnectionPayload p) (w : p.World)
      → client_ip payload.request ≡ some ip
      → is_empty ip ≡ false
      → (should_block t (p.now w).0 ip (read (p.now w).1)).0 ≡ true
      → on_connect read write t payload w ≡ record {
        result = err forbidden;
        context = payload.context;
        connection_config = payload.connection_config;
        world = write (should_block t (p.now w).0 ip (read (p.now w).1)).1 (p.now w).1;
      }
  unfolding on_connect
  on_connect-blocked t ip payload w e1 e2 e3 = rw (e1, e2, e3) refl

  -- If the throttle comes first and blocks the client's address, then authentication ends with a
  -- denial to the client and its Close, whatever the token and the other extensions: no document is
  -- opened, and the client is not marked as authenticated.
  pub authenticate-throttled :
      (hub : Hub p) (t : Throttle) (raw_key bytes ip text : Bytes) (version : Option Bytes)
      (c : ClientConnection p)
      → client_ip c.request ≡ some ip
      → is_empty ip ≡ false
      → (should_block t (p.now c.world).0 ip (read (p.now c.world).1)).0 ≡ true
      → read_token hub bytes ≡ some (text, version)
      → let throttled : ClientConnection p = record c {
        extensions = throttle_extension read write t ∷ c.extensions;
      } in
        authenticate hub raw_key bytes throttled
        ≡ deny raw_key forbidden.message (record throttled {
          world =
              write
                (should_block t (p.now c.world).0 ip (read (p.now c.world).1)).1
                (p.now c.world).1;
        })
  authenticate-throttled hub t raw_key bytes ip text version c e1 e2 e3 e4 =
      let doc_name = (parse_routing_key raw_key).0 in
      let blocked = on_connect-blocked t ip (first_payload doc_name version c) c.world e1 e2 e3 in
      let throttled : ClientConnection p = record c {
        extensions = throttle_extension read write t ∷ c.extensions;
      } in
      let same =
        admit-refused doc_name text version (throttle_extension read write t) c forbidden
          (ap (λ a. a.result) blocked)
        ∙ blocked in
      authenticate-refused hub raw_key bytes text version throttled forbidden e4
        (ap (λ a. a.result) same)
      ∙ ap (λ a. deny raw_key forbidden.message (record throttled { world = a.world })) same
