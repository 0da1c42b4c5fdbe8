-- ===== src/Extension.antt =====
-- crates/hocuspocus/src/extension.rs: the lifecycle hooks, their payloads, and the two ways in which
-- the server runs a hook over its extensions. A hook is a function of its payload and the world.
pub mod Loops
use hocuspocus_rs.Prelude.{
  ℕ, ℤ, pos, Bool, false, Option, none, some, List, [], ◌∷◌, Bytes, ascii, ok, err,
}
use hocuspocus_rs.Errors.{HookError, HookResult, forbidden_event}
use hocuspocus_rs.Origin.{Origin}
use hocuspocus_rs.Context.{Context, RequestMeta}
use hocuspocus_rs.Platform.{Platform}

pub record ConnectionConfig : Type 0 where
  pub read_only : Bool
  pub authenticated : Bool

-- `ConnectionConfig::default`
abbrev pub default_connection_config : ConnectionConfig
default_connection_config = record { read_only = false; authenticated = false }

abbrev pub set_read_only : Bool → ConnectionConfig → ConnectionConfig
set_read_only value config = record config { read_only = value }

abbrev pub set_authenticated : Bool → ConnectionConfig → ConnectionConfig
set_authenticated value config = record config { authenticated = value }

pub record ConnectionPayload (p : Platform) : Type 0 where
  pub document_name : Bytes
  pub socket_id : Bytes
  pub context : Context p
  pub request : RequestMeta
  pub connection_config : ConnectionConfig
  pub provider_version : Option Bytes

pub record AuthenticatePayload (p : Platform) : Type 0 where
  pub token : Bytes
  pub document_name : Bytes
  pub socket_id : Bytes
  pub context : Context p
  pub request : RequestMeta
  pub connection_config : ConnectionConfig

pub record DocumentPayload : Type 0 where
  pub document_name : Bytes
  pub clients_count : ℕ

pub record ChangePayload : Type 0 where
  pub document_name : Bytes
  pub update : Bytes
  pub origin : Origin
  pub clients_count : ℕ

pub record AwarenessPayload : Type 0 where
  pub document_name : Bytes
  pub update : Bytes
  pub added : List ℕ
  pub updated : List ℕ
  pub removed : List ℕ
  pub origin : Origin

pub record StatelessPayload : Type 0 where
  pub document_name : Bytes
  pub socket_id : Bytes
  pub payload : Bytes

-- What a hook that is handed the connection's context and configuration leaves of them.
pub record Admission (p : Platform) : Type 0 where
  pub result : HookResult
  pub context : Context p
  pub connection_config : ConnectionConfig
  pub world : p.World

pub record Loaded (p : Platform) : Type 0 where
  pub result : HookResult
  pub doc : p.Doc
  pub world : p.World

-- The trait `Extension`. The server's shared state that `on_server_ready` is handed is in the world.
pub record Extension (p : Platform) : Type 0 where
  -- an `i32`
  pub priority : ℤ
  pub name : Bytes
  pub on_configure : p.World → HookResult × p.World
  pub on_server_ready : p.World → p.World
  -- the port
  pub on_listen : ℕ → p.World → HookResult × p.World
  pub on_connect : ConnectionPayload p → p.World → Admission p
  pub on_authenticate : AuthenticatePayload p → p.World → Admission p
  pub on_load_document : p.Doc → DocumentPayload → p.World → Loaded p
  pub after_load_document : p.Doc → DocumentPayload → p.World → Loaded p
  pub before_handle_message : ChangePayload → p.World → HookResult × p.World
  pub on_change : ChangePayload → p.World → HookResult × p.World
  pub on_store_document : Bytes → DocumentPayload → p.World → HookResult × p.World
  pub after_store_document : DocumentPayload → p.World → HookResult × p.World
  pub on_awareness_update : AwarenessPayload → p.World → HookResult × p.World
  pub before_broadcast_stateless : Bytes → Bytes → p.World → HookResult × p.World
  pub on_stateless : StatelessPayload → p.World → HookResult × p.World
  pub on_disconnect : ConnectionPayload p → p.World → HookResult × p.World
  pub before_unload_document : DocumentPayload → p.World → HookResult × p.World
  pub after_unload_document : Bytes → p.World → HookResult × p.World
  pub on_destroy : p.World → HookResult × p.World

-- The default methods of the trait: each hook answers `Ok(())`.
abbrev pub default_extension : (p : Platform) → Extension p
default_extension p = record {
  priority = pos 100;
  name = ascii "extension";
  on_configure = λ w. (ok tt, w);
  on_server_ready = λ w. w;
  on_listen = λ port w. (ok tt, w);
  on_connect = λ payload w. record {
    result = ok tt;
    context = payload.context;
    connection_config = payload.connection_config;
    world = w;
  };
  on_authenticate = λ payload w. record {
    result = ok tt;
    context = payload.context;
    connection_config = payload.connection_config;
    world = w;
  };
  on_load_document = λ doc payload w. record { result = ok tt; doc = doc; world = w };
  after_load_document = λ doc payload w. record { result = ok tt; doc = doc; world = w };
  before_handle_message = λ payload w. (ok tt, w);
  on_change = λ payload w. (ok tt, w);
  on_store_document = λ state payload w. (ok tt, w);
  after_store_document = λ payload w. (ok tt, w);
  on_awareness_update = λ payload w. (ok tt, w);
  before_broadcast_stateless = λ name payload w. (ok tt, w);
  on_stateless = λ payload w. (ok tt, w);
  on_disconnect = λ payload w. (ok tt, w);
  before_unload_document = λ payload w. (ok tt, w);
  after_unload_document = λ name w. (ok tt, w);
  on_destroy = λ w. (ok tt, w);
}

-- `extension::deny`
abbrev pub deny : Bytes → HookError
deny reason = record { message = reason; close = some forbidden_event }

module _ (p : Platform) where
  -- One hook, its payload given.
  abbrev pub Hook : Type 0
  Hook = Extension p → p.World → HookResult × p.World

  -- `for ext in &extensions { if let Err(e) = … { warn!(…) } }`: errors are only logged.
  unfoldable pub run_each : Hook → List (Extension p) → p.World → p.World
  run_each hook [] w = w
  run_each hook (ext ∷ exts) w = let (_, w') = hook ext w in run_each hook exts w'

  -- `for ext in &extensions { if let Err(e) = … { return or break } }`: the error that ends the loop.
  unfoldable pub run_until_error : Hook → List (Extension p) → p.World → Option HookError × p.World
  run_until_error hook [] w = (none, w)
  run_until_error hook (ext ∷ exts) w =
      let (r, w') = hook ext w in
      elim r [ ok _ ↦ run_until_error hook exts w' | err e ↦ (some e, w') ]
