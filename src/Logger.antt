-- ===== src/Logger.antt =====
-- crates/hocuspocus/src/extensions/logger.rs: the extension that logs the life of documents.
pub mod Silent
use hocuspocus_rs.Prelude.{Option, none, some, ◌∷◌, ◌++◌, Bytes, ascii, ok}
use hocuspocus_rs.Errors.{HookResult}
use hocuspocus_rs.Platform.{Platform}
use hocuspocus_rs.Extension.{
  Extension, ConnectionPayload, ChangePayload, DocumentPayload, Admission, Loaded,
  default_extension,
}

pub record Logger : Type 0 where
  pub prefix : Option Bytes

abbrev pub new_logger : Logger
new_logger = record { prefix = none }

abbrev pub with_prefix : Bytes → Logger
with_prefix prefix = record { prefix = some prefix }

abbrev pub or_hocuspocus : Option Bytes → Bytes
or_hocuspocus none = ascii "hocuspocus"
or_hocuspocus (some prefix) = prefix

abbrev pub tag : Logger → Bytes
tag l = or_hocuspocus l.prefix

-- `[tag] before "name"after`
abbrev pub line : Logger → Bytes → Bytes → Bytes → Bytes
line l before name after =
    b'[' ∷ tag l ++ ascii "] " ++ before ++ ascii " \"" ++ name ++ ascii "\"" ++ after

-- `info` is the macro of the `tracing` crate, with its target.
module _ (p : Platform) (info : Bytes → p.World → p.World) (l : Logger) where
  unfoldable pub log_connect : ConnectionPayload p → p.World → Admission p
  log_connect payload w = record {
    result = ok tt;
    context = payload.context;
    connection_config = payload.connection_config;
    world = info (line l (ascii "New connection to") payload.document_name (ascii ".")) w;
  }

  unfoldable pub log_load : p.Doc → DocumentPayload → p.World → Loaded p
  log_load doc payload w = record {
    result = ok tt;
    doc = doc;
    world = info (line l (ascii "Loaded document") payload.document_name (ascii ".")) w;
  }

  unfoldable pub log_change : ChangePayload → p.World → HookResult × p.World
  log_change payload w =
      (ok tt, info (line l (ascii "Document") payload.document_name (ascii " changed.")) w)

  unfoldable pub log_store : Bytes → DocumentPayload → p.World → HookResult × p.World
  log_store state payload w =
      (ok tt, info (line l (ascii "Store") payload.document_name (ascii ".")) w)

  unfoldable pub log_disconnect : ConnectionPayload p → p.World → HookResult × p.World
  log_disconnect payload w =
      (ok tt, info (line l (ascii "Connection to") payload.document_name (ascii " closed.")) w)

  abbrev pub logger_extension : Extension p
  logger_extension = record (default_extension p) {
    name = ascii "logger";
    on_connect = log_connect;
    on_load_document = log_load;
    on_change = log_change;
    on_store_document = log_store;
    on_disconnect = log_disconnect;
  }
