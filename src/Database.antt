-- ===== src/Database.antt =====
-- crates/hocuspocus/src/extensions/database.rs: persistence over any storage, and the in-memory one.
pub mod Contract
pub mod Reload
pub mod Restart
use hocuspocus_rs.Prelude.{
  Option, none, some, [], ◌++◌, Bytes, ascii, Map, lookup, insert, Result, ok, err, Bytes-Eq,
}
use hocuspocus_rs.Errors.{HookError, HookResult, hook_error}
use hocuspocus_rs.Platform.{Platform}
use hocuspocus_rs.Extension.{Extension, DocumentPayload, Loaded, default_extension}

-- The trait `Storage`. An error is its text.
pub record Storage (p : Platform) : Type 0 where
  pub fetch : Bytes → p.World → Result Bytes (Option Bytes) × p.World
  pub store : Bytes → Bytes → p.World → Result Bytes (Unit {0}) × p.World

-- `map_err(|e| HookError::new(e.to_string()))`
abbrev pub hook_result : Result Bytes (Unit {0}) → HookResult
hook_result (ok _) = ok tt
hook_result (err e) = err (hook_error e)

module _ (p : Platform) where
  -- `txn.apply_update(update)`, in a transaction without an origin, which is the empty one here.
  unfoldable pub restore : p.Doc → p.Update → p.World → Loaded p
  restore doc update w =
      let applied = p.apply_update doc [] update in
      record {
        result = elim applied.result [
          | ok _ ↦ ok tt
          | err e ↦ err (hook_error (ascii "apply stored update: " ++ e))
        ];
        doc = applied.doc;
        world = w;
      }

  -- What `on_load_document` does with the answer of the storage.
  unfoldable pub load_fetched : p.Doc → Result Bytes (Option Bytes) → p.World → Loaded p
  unfolding restore
  load_fetched doc (ok (some state)) w = elim (p.decode_update state) [
    | err e ↦ record {
      result = err (hook_error (ascii "invalid stored update: " ++ e));
      doc = doc;
      world = w;
    }
    | ok update ↦ restore doc update w
  ]
  load_fetched doc (ok none) w = record { result = ok tt; doc = doc; world = w }
  load_fetched doc (err e) w = record { result = err (hook_error e); doc = doc; world = w }

module _ {p : Platform} (s : Storage p) where
  unfoldable pub on_load_document : p.Doc → DocumentPayload → p.World → Loaded p
  unfolding load_fetched
  on_load_document doc payload w =
      let (fetched, w') = s.fetch payload.document_name w in load_fetched p doc fetched w'

  unfoldable pub on_store_document : Bytes → DocumentPayload → p.World → HookResult × p.World
  on_store_document state payload w =
      let (stored, w') = s.store payload.document_name state w in (hook_result stored, w')

  -- `impl Extension for Database<S>`
  abbrev pub database : Extension p
  database = record (default_extension p) {
    name = ascii "database";
    on_load_document = on_load_document;
    on_store_document = on_store_document;
  }

-- `MemoryStorage`: `read` and `write` reach its map, which stands in the world.
module _ (p : Platform) (read : p.World → Map Bytes Bytes)
    (write : Map Bytes Bytes → p.World → p.World) where
  abbrev pub memory_storage : Storage p
  memory_storage = record {
    fetch = λ name w. (ok (lookup name (read w)), w);
    store = λ name state w. (ok tt, write (insert name state (read w)) w);
  }
