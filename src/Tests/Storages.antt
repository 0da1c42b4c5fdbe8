-- ===== src/Tests/Storages.antt =====
-- The storages at concrete inputs: a document that is stored and loaded again, and a table that
-- cannot be read.
use hocuspocus_rs.Prelude.{
  ◌≡◌, refl, ◌⊎◌, true, false, Option, none, some, Bytes, [], ◌∷◌, ascii, lookup, insert, remove,
  ok, Bytes-Eq, bytes_eq, ◌==◌, if◌then◌else◌,
}
use hocuspocus_rs.Config.{default_configuration}
use hocuspocus_rs.Extension.{DocumentPayload, run_each, run_until_error}
use hocuspocus_rs.Document.State.{Document}
use hocuspocus_rs.Document.Store.{full_state, run_store, run_store_hooks}
use hocuspocus_rs.Document.Actor.{spawn, load_each}
use hocuspocus_rs.Database.{on_load_document, on_store_document}
use hocuspocus_rs.Database.Reload.{spawn-run_store}
use hocuspocus_rs.Sqlite.{fetch, store, sqlite_storage, sqlite_extension}
use hocuspocus_rs.Sqlite.Table.{sqlite_storage-IsKeyed, store-fetch, FailsOtherwise}
use hocuspocus_rs.Sqlite.Unreadable.{spawn-unreadable}
use hocuspocus_rs.Tests.Node.{
  empty_world, node, table, locked_table, table-IsTable, table-reads, edits-IsReplayable,
}

abbrev stored_row : Option Bytes
stored_row = some (7 ∷ [])

store-fetch_example :
    let w = (store table (ascii "doc") (7 ∷ []) empty_world).1 in
    (stored_row ≡ (if ascii "doc" == ascii "doc" then stored_row else none))
    ⊎ ((stored_row ≡ none) × FailsOtherwise table table-IsTable (ascii "doc") w)
unfolding store fetch lookup insert remove bytes_eq
store-fetch_example =
    store-fetch table table-IsTable (ascii "doc") (ascii "doc") (7 ∷ []) empty_world stored_row refl
      refl

abbrev stored_doc : Document node
unfolding spawn
stored_doc =
    record (spawn node (ascii "doc") default_configuration (sqlite_extension table ∷ [])
      (7 ∷ 8 ∷ []) empty_world) { dirty = true }

spawn-run_store_example :
    full_state (
      spawn node
        (ascii "doc")
        default_configuration
        (sqlite_extension table ∷ [])
        []
        (run_store stored_doc).world)
    ≡ full_state stored_doc
unfolding spawn load_each run_store run_store_hooks run_until_error run_each store fetch
    on_store_document on_load_document lookup insert remove bytes_eq
spawn-run_store_example =
    spawn-run_store (sqlite_storage table) (sqlite_storage-IsKeyed table table-IsTable table-reads)
      stored_doc default_configuration [] (run_store stored_doc).world (some (7 ∷ 8 ∷ []))
      edits-IsReplayable refl refl refl refl refl

spawn-unreadable_example :
    let payload : DocumentPayload = record { document_name = ascii "doc"; clients_count = 0 } in
    let d =
      spawn node
        (ascii "doc")
        default_configuration
        (sqlite_extension locked_table ∷ [])
        []
        empty_world in
    ((on_load_document (sqlite_storage locked_table) [] payload empty_world).result ≡ ok tt)
    × (d.doc ≡ [])
    × (d.dirty ≡ false)
spawn-unreadable_example =
    spawn-unreadable locked_table (ascii "doc") default_configuration [] empty_world
      (ascii "database is locked") refl refl
