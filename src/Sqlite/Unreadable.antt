-- ===== src/Sqlite/Unreadable.antt =====
-- What crates/hocuspocus/src/extensions/sqlite.rs makes of a query that fails.
use hocuspocus_rs.Prelude.{◌≡◌, refl, false, [], ◌∷◌, Bytes, ok, err}
use hocuspocus_rs.Config.{Configuration}
use hocuspocus_rs.Platform.{Platform}
use hocuspocus_rs.Extension.{DocumentPayload}
use hocuspocus_rs.Document.Actor.{spawn, load_each}
use hocuspocus_rs.Database.{on_load_document, load_fetched}
use hocuspocus_rs.Sqlite.{Connection, select, fetch, sqlite_storage, sqlite_extension}

module _ {p : Platform} (c : Connection p) where
  -- A query that fails for any reason reads as a missing row: the hook reports no error, and the
  -- document that the actor starts from is the empty one, clean.
  pub spawn-unreadable :
      (name : Bytes) (config : Configuration) (blank : p.Doc) (w : p.World) (e : c.Error)
      → (c.prepare_cached select w).0 ≡ ok tt
      → (c.query_row select name (c.prepare_cached select w).1).0 ≡ err e
      → let payload : DocumentPayload = record { document_name = name; clients_count = 0 } in
        let d = spawn p name config (sqlite_extension c ∷ []) blank w in
        ((on_load_document (sqlite_storage c) blank payload w).result ≡ ok tt)
        × (d.doc ≡ blank)
        × (d.dirty ≡ false)
  unfolding spawn load_each on_load_document load_fetched fetch
  spawn-unreadable name config blank w e prepared failed =
      (rw (prepared, fetch, failed) refl, rw (prepared, fetch, failed) refl, refl)
