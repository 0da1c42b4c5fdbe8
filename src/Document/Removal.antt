-- ===== src/Document/Removal.antt =====
-- What a client can do after crates/hocuspocus/src/document.rs has removed its connection.
use hocuspocus_rs.Prelude.{
  ℕ, ◌≡◌, none, List, [], ◌∷◌, Bytes, lookup, remove, lookup-remove, arith, inl, inr, Result-cases,
  Option-cases, nat_eq_iff, ℕ-Eq,
}
use hocuspocus_rs.Errors.{CloseEvent}
use hocuspocus_rs.Platform.{Platform}
use hocuspocus_rs.Document.State.{Document}
use hocuspocus_rs.Document.Broadcast.{remove_states, broadcast_with, broadcast_awareness}
use hocuspocus_rs.Document.Connections.{announce_removal, remove_connection, close_connection}
use hocuspocus_rs.Document.Commands.{handle_client_frame}
use hocuspocus_rs.Document.FanOut.{lookup-broadcast_with}

module _ {p : Platform} where
  broadcast-gone :
      (k : ℕ) (build : Bytes → Bytes) (d : Document p)
      → lookup k d.connections ≡ none
      → lookup k (broadcast_with build d).connections ≡ none
  broadcast-gone k build d e = ground (arith, lookup-broadcast_with k build d)

  announce_removal-gone :
      (k : ℕ) (ids : List ℕ) (d : Document p)
      → lookup k d.connections ≡ none
      → lookup k (announce_removal ids d).connections ≡ none
  unfolding announce_removal broadcast_awareness
  announce_removal-gone k [] d e = e
  announce_removal-gone k (id ∷ ids) d e =
      elim (Result-cases (p.update_with_clients (id ∷ ids) d.awareness)) [
        | inl (u, e') ↦ rw (e', announce_removal) (broadcast-gone k _ d e)
        | inr (_, e') ↦ rw (e', announce_removal) e
      ]

  remove_connection-gone :
      (id : ℕ) (d : Document p) → lookup id (remove_connection id d).connections ≡ none
  unfolding remove_connection
  remove_connection-gone id d = elim (Option-cases (lookup id d.connections)) [
    | inl e ↦ rw (e, remove_connection) e
    | inr (conn, e) ↦
        let d' : Document p = record d {
          connections = remove id d.connections;
          awareness = remove_states p conn.client_ids d.awareness;
        } in
        rw (e, remove_connection)
          (announce_removal-gone id conn.client_ids d'
            (ground (arith, lookup-remove id id d.connections, nat_eq_iff id id)))
  ]

  close_connection-gone :
      (id : ℕ) (event : CloseEvent) (d : Document p)
      → lookup id (close_connection id event d).connections ≡ none
  unfolding close_connection
  close_connection-gone id event d = elim (Option-cases (lookup id d.connections)) [
    | inl e ↦ rw (e, close_connection) (remove_connection-gone id d)
    | inr (conn, e) ↦ rw (e, close_connection) (remove_connection-gone id _)
  ]

  pub ignored :
      (id : ℕ) (bytes : Bytes) (d : Document p)
      → lookup id d.connections ≡ none
      → handle_client_frame id bytes d ≡ d
  unfolding handle_client_frame
  ignored id bytes d e = rw (e, handle_client_frame)

  -- Once its connection is closed, no frame of a client has any effect, whatever it holds: neither on
  -- the document nor on the world, so a client that authenticates again gets no answer either.
  pub closed_ignores :
      (id : ℕ) (event : CloseEvent) (bytes : Bytes) (d : Document p)
      → handle_client_frame id bytes (close_connection id event d) ≡ close_connection id event d
  closed_ignores id event bytes d =
      ignored id bytes (close_connection id event d) (close_connection-gone id event d)
