-- ===== src/Document/Connections.antt =====
-- Joining and leaving a document in crates/hocuspocus/src/document.rs.
use hocuspocus_rs.Prelude.{
  ℕ, none, some, List, Bytes, lookup, remove, insert, ok, err, if◌then◌else◌, ℕ-Eq,
}
use hocuspocus_rs.Errors.{CloseEvent}
use hocuspocus_rs.Protocol.Outgoing
use hocuspocus_rs.Platform.{Platform}
use hocuspocus_rs.Extension.{run_each}
use hocuspocus_rs.Document.State.{
  ConnHandle, Document, is_empty, send_frame, send_close, connection_payload,
}
use hocuspocus_rs.Document.Broadcast.{remove_states, broadcast_awareness}

-- The frame that carries an awareness update to `addr`.
abbrev pub awareness_frame : (p : Platform) → Bytes → p.AwarenessUpdate → Bytes
awareness_frame p addr update =
    Outgoing.into_bytes p.codec
      (Outgoing.awareness_update p.codec (p.encode_awareness update) (Outgoing.start p.codec addr))

module _ {p : Platform} where
  -- Send a frame whose fate the caller ignores.
  abbrev pub send : ConnHandle p → Bytes → Document p → Document p
  send conn bytes d = record d { world = (send_frame conn bytes d.world).1 }

  -- The awareness states that a new client is sent, if there are any.
  unfoldable pub greet : ConnHandle p → Document p → Document p
  greet conn d =
      if p.has_states d.awareness
      then elim (p.awareness_update d.awareness) [
        | ok update ↦ send conn (awareness_frame p conn.message_address update) d
        | err _ ↦ d
      ]
      else d

  unfoldable pub add_connection : ConnHandle p → Document p → Document p
  unfolding greet
  add_connection conn d =
      let d' = greet conn d in record d' { connections = insert conn.conn_id conn d'.connections }

  -- The broadcast of `remove_connection`, after the states of `removed` are gone.
  unfoldable pub announce_removal : List ℕ → Document p → Document p
  announce_removal removed d =
      if is_empty removed then d else elim (p.update_with_clients removed d.awareness) [
        | ok update ↦ broadcast_awareness (p.encode_awareness update) d
        | err _ ↦ d
      ]

  unfoldable pub remove_connection : ℕ → Document p → Document p
  remove_connection conn_id d = elim (lookup conn_id d.connections) [
    | none ↦ d
    | some conn ↦
        let d' = announce_removal conn.client_ids (record d {
          connections = remove conn_id d.connections;
          awareness = remove_states p conn.client_ids d.awareness;
        }) in
        record d' {
          world =
              run_each p (λ ext. ext.on_disconnect (connection_payload d' conn)) d'.extensions
                d'.world;
        }
  ]

  unfoldable pub close_connection : ℕ → CloseEvent → Document p → Document p
  close_connection conn_id event d = elim (lookup conn_id d.connections) [
    | none ↦ remove_connection conn_id d
    | some conn ↦ remove_connection conn_id (record d { world = send_close conn event d.world })
  ]
