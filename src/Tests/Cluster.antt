-- ===== src/Tests/Cluster.antt =====
-- Two nodes over one Redis server, and two tasks that open one document, at concrete inputs.
use hocuspocus_rs.Prelude.{
  ℕ, zero, suc, ◌≡◌, ◌≤◌, refl, ◌⊎◌, true, false, none, some, [], ◌∷◌, ◌++◌, Bytes, ascii, arith,
  lookup, ok, ◌==◌, Bytes-Eq, bytes_eq, if◌then◌else◌,
}
use hocuspocus_rs.Config.{default_configuration}
use hocuspocus_rs.Origin.{local, redis, is_redis}
use hocuspocus_rs.Extension.{ChangePayload, DocumentPayload}
use hocuspocus_rs.Document.State.{Document, external_frame}
use hocuspocus_rs.Document.Store.{run_store_hooks}
use hocuspocus_rs.Document.Actor.{spawn}
use hocuspocus_rs.Document.Updates.{apply_and_broadcast}
use hocuspocus_rs.Document.Commands.{handle_external_frame}
use hocuspocus_rs.Database.{database}
use hocuspocus_rs.Sqlite.{store, sqlite_storage}
use hocuspocus_rs.Redis.{
  RedisConfig, new_config, message_prefix, scaling, channel, lock_key, redis_extension, on_change,
  after_store_document,
}
use hocuspocus_rs.Redis.Subscriber.{foreign_frame, on_message}
use hocuspocus_rs.Redis.Filter.{foreign_frame-message_prefix}
use hocuspocus_rs.Redis.Replication.{on_change-replicates}
use hocuspocus_rs.Redis.Lock.{after_store_document-foreign, run_store_hooks-locked_out, acquires}
use hocuspocus_rs.Registry
use hocuspocus_rs.Registry.{
  System, set_actor, unborn, running, gone, Steps, here, next, initial, holds, first_moves,
  second_moves, unload, find, miss, new_lock, acquire, load, clean, unlock, join, joined,
}
use hocuspocus_rs.Registry.Undisturbed.{Undisturbed, begun, by_first, by_second, shares_one_actor}
use hocuspocus_rs.Registry.Split.{IsSplit, stale_handles-IsSplit}
use hocuspocus_rs.Tests.Codec.{lib0-IsLib0}
use hocuspocus_rs.Tests.Node.{
  NodeWorld, empty_world, node, table, redis_server, server-IsLock, resident, decode_message-law,
}

abbrev first : RedisConfig
first = new_config (ascii "redis://here") (ascii "1")

abbrev second : RedisConfig
second = new_config (ascii "redis://here") (ascii "2")

foreign_frame-message_prefix_example :
    foreign_frame
      (message_prefix (ascii "host-1"))
      (message_prefix (ascii "host-2") ++ ascii "frame")
    ≡ (if ascii "host-2" == ascii "host-1" then none else some (ascii "frame"))
foreign_frame-message_prefix_example =
    foreign_frame-message_prefix (ascii "host-1") (ascii "host-2") (ascii "frame") (omega arith)
      (omega arith)

-- An identifier of 260 bytes.
abbrev repeat : ℕ → Bytes
repeat zero = []
repeat (suc n) = b'x' ∷ repeat n

abbrev shared_doc : Document node
shared_doc =
    spawn node (ascii "doc") default_configuration
      (redis_extension redis_server (scaling second) ∷ []) (7 ∷ []) empty_world

abbrev change : ChangePayload
change = record { document_name = ascii "doc"; update = 9 ∷ []; origin = local; clients_count = 1 }

on_change-replicates_example :
    (frame : Bytes) × (on_change redis_server (scaling first) change empty_world ≡ (
      ok tt,
      redis_server.publish
          (channel first.prefix (ascii "doc"))
          (message_prefix first.identifier ++ frame)
          empty_world,
    ))
    × (on_message resident
          (message_prefix second.identifier)
          4
          (message_prefix first.identifier ++ frame)
          empty_world
        ≡ (resident.send_command 7 (external_frame frame (some 4)) empty_world).1)
    × (handle_external_frame frame (some 4) shared_doc
        ≡ apply_and_broadcast (9 ∷ []) redis shared_doc)
unfolding bytes_eq is_redis
on_change-replicates_example =
    on_change-replicates node lib0-IsLib0 first second redis_server resident change empty_world
      empty_world empty_world 7 4 shared_doc (omega arith) (omega arith) refl (omega arith)
      (omega arith, (omega arith, (omega arith, tt))) decode_message-law refl refl

abbrev payload : DocumentPayload
payload = record { document_name = ascii "doc"; clients_count = 1 }

-- The node has noted `mine`, and another holds the key by now.
abbrev taken_over : NodeWorld
taken_over = record empty_world {
  locks = (ascii "hocuspocus:doc:lock", ascii "mine") ∷ [];
  keys = (ascii "hocuspocus:doc:lock", ascii "theirs") ∷ [];
}

after_store_document-foreign_example :
    lookup
      (lock_key (scaling first) (ascii "doc"))
      (after_store_document redis_server (scaling first) payload taken_over).1.keys
    ≡ some (ascii "theirs")
unfolding lookup bytes_eq
after_store_document-foreign_example =
    after_store_document-foreign redis_server (scaling first) server-IsLock payload (ascii "mine")
      (ascii "theirs") taken_over refl refl refl

abbrev unwritable : NodeWorld
unwritable = record empty_world { read_only = true }

run_store_hooks-locked_out_example :
    let exts =
      redis_extension redis_server (scaling first) ∷ database (sqlite_storage table) ∷ [] in
    let (done, w') = run_store_hooks node (7 ∷ []) payload exts unwritable in
    (done ≡ false)
    × (lookup (lock_key (scaling first) (ascii "doc")) w'.keys ≡ some (ascii "token"))
    × (run_store_hooks node (7 ∷ 8 ∷ []) payload exts w'
        ≡ (false, (acquires redis_server (scaling first) server-IsLock (ascii "doc") w').1))
unfolding lookup bytes_eq store
run_store_hooks-locked_out_example =
    run_store_hooks-locked_out redis_server (scaling first) server-IsLock (sqlite_storage table)
      (7 ∷ []) (7 ∷ 8 ∷ []) payload unwritable (ascii "read-only") refl refl refl

-- Both tasks have taken the handle 0, and its actor has left.
abbrev left_behind : System
left_behind = record {
  shared = record {
    documents = none;
    creating = none;
    next_lock = 1;
    next_actor = 1;
    actors = set_actor (set_actor (λ i. unborn) 0 running) 0 gone;
  };
  first = holds 0;
  second = holds 0;
}

-- The first task opens the document, the second finds it, and the actor leaves before either joins.
left_behind_reached : Steps initial left_behind
left_behind_reached =
    next
      (next
        (next
          (next
            (next
              (next
                (next
                  (next (next (next here (first_moves (miss refl))) (first_moves (new_lock refl)))
                    (first_moves (acquire 0 refl)))
                  (first_moves (load 0 refl)))
                (first_moves (Registry.spawn 0)))
              (first_moves (Registry.insert 0 0)))
            (second_moves (find 0 refl)))
          (first_moves (clean 0 0)))
        (first_moves (unlock 0 0)))
      (unload 0 refl refl refl)

stale_handles-IsSplit_example : (t : System) × Steps left_behind t × IsSplit t 1 2
stale_handles-IsSplit_example =
    stale_handles-IsSplit left_behind 0 refl refl refl refl (omega arith)

-- The first task has joined the document that it has opened, and the second has found it.
abbrev opened : System
opened = record {
  shared = record {
    documents = some 0;
    creating = none;
    next_lock = 1;
    next_actor = 1;
    actors = set_actor (λ i. unborn) 0 running;
  };
  first = joined 0;
  second = holds 0;
}

opened-Undisturbed : Undisturbed opened
opened-Undisturbed =
    by_first
      (by_first
        (by_first
          (by_second
            (by_first
              (by_first
                (by_first
                  (by_first (by_first (by_first begun (miss refl)) (new_lock refl))
                    (acquire 0 refl))
                  (load 0 refl))
                (Registry.spawn 0))
              (Registry.insert 0 0))
            (find 0 refl))
          (clean 0 0))
        (unlock 0 0))
      (join 0 refl)

shares_one_actor_example :
    (opened.shared.next_actor ≤ 1)
    × ((opened.first ≡ joined 0) ⊎ (opened.second ≡ joined 0)
        → (◌≡◌ {A = ℕ} 0 0)
          × (opened.shared.documents ≡ some 0)
          × (opened.shared.actors 0 ≡ running))
shares_one_actor_example = shares_one_actor 0 opened-Undisturbed
