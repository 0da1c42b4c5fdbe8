-- ===== src/Tests/Restarts.antt =====
-- A document that is edited, stored, unloaded and loaded again, and one that stays in memory, at
-- concrete inputs.
use hocuspocus_rs.Prelude.{
  ◌≡◌, refl, ◌⊎◌, Bool, false, some, [], ◌∷◌, ascii, arith, Bytes, lookup, insert, remove, Bytes-Eq,
  bytes_eq,
}
use hocuspocus_rs.Config.{Configuration, default_configuration}
use hocuspocus_rs.Extension.{run_each, run_until_error}
use hocuspocus_rs.Document.State.{DocCommand, Document, store_deadline, mark_dirty}
use hocuspocus_rs.Document.Broadcast.{broadcast_with, send_all, evict_lagging, flush_broadcast}
use hocuspocus_rs.Document.Updates.{apply_and_broadcast}
use hocuspocus_rs.Document.Commands.{handle_command}
use hocuspocus_rs.Document.Store.{full_state, maybe_unload, run_store, unload, run_store_hooks}
use hocuspocus_rs.Document.Actor.{
  spawn, load_each, run_commands, on_batch, on_deadline, batch, deadline, beside,
}
use hocuspocus_rs.Document.View.{Keeps}
use hocuspocus_rs.Document.Durable.Clean.{Runs, begun, turn, clean_saved}
use hocuspocus_rs.Document.Resident.{still, direct_apply_stays}
use hocuspocus_rs.Database.{on_load_document, on_store_document}
use hocuspocus_rs.Database.Restart.{database-IsStore, restart_keeps}
use hocuspocus_rs.Sqlite.{fetch, store, sqlite_storage, sqlite_extension}
use hocuspocus_rs.Sqlite.Table.{sqlite_storage-IsKeyed}
use hocuspocus_rs.Redis.{RedisScaling, new_config, scaling}
use hocuspocus_rs.Webhook.{Webhook, WebClient, new_webhook}
use hocuspocus_rs.Yrs.Unnoticed.{Unnoticed}
use hocuspocus_rs.Tests.Platform.{small}
use hocuspocus_rs.Tests.Samples.{fresh, world}
use hocuspocus_rs.Tests.Node.{
  NodeWorld, empty_world, node, table, table-IsTable, table-reads, edits-IsReplayable,
}

-- A store that is due at once.
abbrev at_once : Configuration
at_once = record default_configuration { debounce = 0 }

abbrev kept : NodeWorld
kept = record empty_world { rows = (ascii "doc", 7 ∷ 8 ∷ []) ∷ [] }

abbrev opened : Document node
opened = spawn node (ascii "doc") at_once (sqlite_extension table ∷ []) [] kept

abbrev edited : Document node
edited = (on_batch (DocCommand.direct_apply (9 ∷ []) 1 ∷ []) opened).1

abbrev closed : Bool × Document node
closed = on_deadline edited

node-Keeps : Keeps node (λ w. lookup (ascii "doc") w.rows)
node-Keeps = record {
  now = λ w. refl;
  try_send = λ to m w. refl;
  send_reply = λ to bytes w. refl;
  send_ack = λ to w. refl;
  documents_remove = λ name w. refl;
}

to_closed : Runs (λ w. lookup (ascii "doc") w.rows) opened closed
unfolding spawn load_each on_load_document fetch lookup bytes_eq on_batch run_commands
    handle_command apply_and_broadcast mark_dirty run_each flush_broadcast broadcast_with send_all
    evict_lagging store_deadline
to_closed =
    turn (turn begun refl (batch (DocCommand.direct_apply (9 ∷ []) 1 ∷ []) refl (omega arith)) tt)
      refl (deadline 5 refl (omega arith)) tt

clean_saved_example :
    ((saved : node.Doc) × Unnoticed node.yrs saved closed.1.doc
      × (lookup (ascii "doc") closed.1.world.rows
          ≡ some (node.encode_state_as_update saved node.empty_state_vector)))
    ⊎ (Unnoticed node.yrs opened.doc closed.1.doc
        × (lookup (ascii "doc") closed.1.world.rows ≡ lookup (ascii "doc") opened.world.rows))
unfolding spawn load_each on_load_document on_store_document fetch store lookup insert remove
    bytes_eq on_batch run_commands handle_command apply_and_broadcast mark_dirty run_each
    run_until_error flush_broadcast broadcast_with send_all evict_lagging store_deadline run_store
    run_store_hooks maybe_unload unload on_deadline
clean_saved_example =
    clean_saved (ascii "doc") at_once (sqlite_extension table ∷ []) [] kept
      (database-IsStore (sqlite_storage table)
        (sqlite_storage-IsKeyed table table-IsTable table-reads) (ascii "doc") node-Keeps)
      to_closed refl refl

restart_keeps_example :
    (saved : node.Doc) × Unnoticed node.yrs saved closed.1.doc
    × (full_state (
          spawn node
            (ascii "doc")
            default_configuration
            (sqlite_extension table ∷ [])
            []
            closed.1.world)
        ≡ node.encode_state_as_update saved node.empty_state_vector)
unfolding spawn load_each on_load_document on_store_document fetch store lookup insert remove
    bytes_eq on_batch run_commands handle_command apply_and_broadcast mark_dirty run_each
    run_until_error flush_broadcast broadcast_with send_all evict_lagging store_deadline run_store
    run_store_hooks maybe_unload unload on_deadline
restart_keeps_example =
    restart_keeps (sqlite_storage table) (sqlite_storage-IsKeyed table table-IsTable table-reads)
      (ascii "doc") node-Keeps at_once default_configuration [] kept (some (7 ∷ 8 ∷ []))
      (some (7 ∷ 8 ∷ 9 ∷ [])) edits-IsReplayable to_closed refl refl refl refl

-- An update that does not decode, applied to a document that nobody has open.
abbrev unreadable : Document small
unreadable =
    (on_batch (DocCommand.direct_apply (255 ∷ []) 1 ∷ []) (fresh default_configuration [])).1

abbrev a_day_later : Document small
a_day_later = record unreadable { world = record (world 9) { time = 86400000 } }

direct_apply_stays_example : (false ≡ false) × (a_day_later.connections ≡ [])
direct_apply_stays_example =
    direct_apply_stays small (ascii "doc") default_configuration [] (7 ∷ []) (world 9) (255 ∷ []) 1
      (ascii "bad update") refl still (beside (record (world 9) { time = 86400000 })) tt

-- Posts go nowhere either.
abbrev poster : WebClient node
poster = record {
  Json = Bytes;
  text = λ bytes. bytes;
  texts = λ m. [];
  object = λ fields. ascii "{}";
  to_string = λ bytes. bytes;
  hmac_sha256 = λ key bytes. key;
  hex = λ bytes. bytes;
  post = λ url headers body w. w;
}

abbrev watcher : Webhook
watcher = new_webhook (ascii "http://here") (ascii "key")

abbrev scaled : RedisScaling
scaled = scaling (new_config (ascii "redis://here") (ascii "1"))
