-- ===== src/Tests/Nodes.antt =====
-- Documents of two nodes that receive the same updates, and the lock of two nodes, at concrete inputs.
use hocuspocus_rs.Prelude.{
  ◌++◌, some, ℕ, ◌≡◌, refl, true, false, none, List, [], ◌∷◌, Bytes, ascii, arith, Bytes-Eq,
  bytes_eq, lookup, insert,
}
use hocuspocus_rs.Errors.{hook_error}
use hocuspocus_rs.Extension.{DocumentPayload}
use hocuspocus_rs.Document.State.{external_frame}
use hocuspocus_rs.Document.Commands.{handle_external_frame}
use hocuspocus_rs.Server.Hub.{Hub}
use hocuspocus_rs.Redis.Subscriber.{on_message, on_reply}
use hocuspocus_rs.Redis.CatchUp.{load_catches_up}
use hocuspocus_rs.Document.Actor.{spawn, load_each, run_commands}
use hocuspocus_rs.Redis.{
  RedisConfig, RedisServer, message_prefix, channel, query_frame, publish, after_load_document,
  RedisScaling, new_config, scaling, on_store_document,
}
use hocuspocus_rs.Redis.Convergence.{received, has, nodes_converge}
use hocuspocus_rs.Redis.Exclusion.{
  Turns, set_inside, nobody, then_turn, takes, is_refused, one_inside,
}
use hocuspocus_rs.Tests.Codec.{lib0-IsLib0}
use hocuspocus_rs.Tests.Numbers.{greater, numbers-IsCrdt, counting, counter}
use hocuspocus_rs.Tests.Node.{
  NodeWorld, empty_world, redis_server, server-IsLock, decode_message-law,
}

abbrev some_order : List Bytes
some_order = (9 ∷ []) ∷ (4 ∷ []) ∷ []

abbrev other_order : List Bytes
other_order = (4 ∷ []) ∷ (9 ∷ []) ∷ (4 ∷ []) ∷ []

same_updates : (u : Bytes) → has u some_order ≡ has u other_order
same_updates u = ground arith

four_received : has (4 ∷ []) some_order ≡ true
unfolding bytes_eq
four_received = refl

nodes_converge_example :
    let after =
      (run_commands (received counting (ascii "doc") none some_order) (counter 3)).1.doc in
    (after ≡ (run_commands (received counting (ascii "doc") none other_order) (counter 3)).1.doc)
    × (greater after 4 ≡ after)
nodes_converge_example =
    nodes_converge numbers-IsCrdt lib0-IsLib0 (ascii "doc") (omega arith) (λ u. refl) none
      some_order other_order (counter 3) (counter 3) (4 ∷ []) 4 same_updates refl four_received refl

abbrev node_of : ℕ → RedisScaling
node_of i = scaling (new_config (ascii "redis://here") (i ∷ []))

abbrev payload : DocumentPayload
payload = record { document_name = ascii "doc"; clients_count = 1 }

abbrev after_first : NodeWorld
after_first = (on_store_document redis_server (node_of 1) (7 ∷ []) payload empty_world).1

abbrev after_second : NodeWorld
after_second = (on_store_document redis_server (node_of 2) (8 ∷ []) payload after_first).1

-- The first node takes the lock, and the second is refused.
lock_contended :
    Turns
      (λ i. redis_server)
      node_of
      (λ w key. lookup key w.keys)
      (ascii "doc")
      empty_world
      (record { world = after_second; inside = set_inside (λ i. false) 1 true })
unfolding on_store_document lookup insert bytes_eq
lock_contended = then_turn (then_turn nobody (takes 1 (7 ∷ []) payload after_first refl refl)) (
    is_refused 2 (8 ∷ []) payload after_second
      (hook_error (ascii "another node holds the document lock")) refl refl)

one_inside_example : set_inside (λ i. false) 1 true 2 ≡ false
one_inside_example =
    one_inside (λ i. redis_server) node_of (λ i. server-IsLock) (ascii "doc")
      (ascii "hocuspocus:doc:lock") (λ i. refl) 1 2 lock_contended (omega arith) refl

abbrev over_numbers : RedisServer counting
over_numbers = record {
  publish = redis_server.publish;
  set_nx_px = redis_server.set_nx_px;
  get = redis_server.get;
  del = redis_server.del;
  reached = redis_server.reached;
  new_uuid = redis_server.new_uuid;
  locks = redis_server.locks;
  set_locks = redis_server.set_locks;
}

-- Each document is resident, with the handle 7.
abbrev hub_of_numbers : Hub counting
hub_of_numbers = record {
  documents_get = λ name w. (some 7, w);
  documents_insert = λ name h w. w;
  creating_entry = λ name w. (0, w);
  acquire = λ lock w. w;
  release = λ lock w. w;
  creating_remove = λ name w. w;
  new_doc = λ skip_gc. 0;
  start_actor = λ d w. (7, w);
  send_command = λ h c w. (true, w);
  ack_channel = λ w. (0, w);
  ack_received = λ ack w. (true, w);
  next_conn_id = λ w. (3, w);
  abort_writer = λ to w. w;
  after_failed_read = λ bytes. [];
}

abbrev config_of : ℕ → RedisConfig
config_of i = new_config (ascii "redis://here") (i ∷ [])

-- The first node has loaded 3, has come to 5 since, and asks a node that holds 9.
load_catches_up_example :
    (asked told : Bytes) × ((after_load_document over_numbers
        (node_of 1)
        3
        payload
        empty_world).world
      ≡ publish over_numbers (node_of 1) (ascii "doc") (query_frame counting (ascii "doc")) (
          over_numbers.publish
            (channel (ascii "hocuspocus") (ascii "doc"))
            (message_prefix (ascii "host-" ++ 1 ∷ []) ++ asked)
            empty_world))
    × (on_message hub_of_numbers
          (message_prefix (ascii "host-" ++ 2 ∷ []))
          4
          (message_prefix (ascii "host-" ++ 1 ∷ []) ++ asked)
          empty_world
        ≡ (hub_of_numbers.send_command 7 (external_frame asked (some 4)) empty_world).1)
    × (handle_external_frame asked (some 4) (counter 9)
        ≡ record (counter 9) { world = counting.send_reply 4 told (counter 9).world })
    × (on_reply over_numbers
          (ascii "hocuspocus")
          (message_prefix (ascii "host-" ++ 2 ∷ []))
          told
          empty_world
        ≡ over_numbers.publish
            (channel (ascii "hocuspocus") (ascii "doc"))
            (message_prefix (ascii "host-" ++ 2 ∷ []) ++ told)
            empty_world)
    × (on_message hub_of_numbers
          (message_prefix (ascii "host-" ++ 1 ∷ []))
          4
          (message_prefix (ascii "host-" ++ 2 ∷ []) ++ told)
          empty_world
        ≡ (hub_of_numbers.send_command 7 (external_frame told (some 4)) empty_world).1)
    × ((handle_external_frame told (some 4) (counter 5)).doc ≡ greater 5 9)
unfolding spawn load_each bytes_eq
load_catches_up_example =
    load_catches_up counting lib0-IsLib0 (ascii "doc") (omega arith) decode_message-law
      numbers-IsCrdt (config_of 1) (config_of 2) over_numbers over_numbers hub_of_numbers
      hub_of_numbers payload 3 (counter 5) (counter 9) 7 7 4 4 empty_world empty_world empty_world
      empty_world empty_world empty_world (omega arith) (omega arith) refl refl refl refl
      (omega arith, (omega arith, (omega arith, tt))) refl refl
      (record { missing = 9; decoded = refl; complete = refl }) refl
