-- ===== src/Document/Core.antt =====
-- The part of the actor of crates/hocuspocus/src/document.rs that only a change of the document or a
-- store touches, and the operations that leave it alone.
use hocuspocus_rs.Prelude.{
  ℕ, ◌≡◌, refl, Bool, Option, List, [], ◌∷◌, Bytes, lookup, arith, inl, inr, Option-cases,
  Result-cases, ℕ-Eq,
}
use hocuspocus_rs.Config.{Configuration}
use hocuspocus_rs.Errors.{CloseEvent}
use hocuspocus_rs.Origin.{Origin, connection, encode}
use hocuspocus_rs.Protocol.{IncomingFrame}
use hocuspocus_rs.Platform.{Platform}
use hocuspocus_rs.Extension.{Extension}
use hocuspocus_rs.Document.State.{ConnHandle, StoreJob, Document}
use hocuspocus_rs.Document.Broadcast.{
  evict_lagging, broadcast_with, broadcast_awareness, broadcast_stateless,
}
use hocuspocus_rs.Document.Connections.{
  greet, add_connection, announce_removal, remove_connection, close_connection,
}
use hocuspocus_rs.Document.Updates.{send_sync_status, before_handle_message, answer_step1}
use hocuspocus_rs.Document.Frames.{
  track_clients, share_awareness, apply_awareness_update, handle_awareness, reply_query_awareness,
  handle_stateless,
}

-- All fields but the connections, the awareness and the world.
pub record Core (p : Platform) : Type 0 where
  pub name : Bytes
  pub doc : p.Doc
  pub config : Configuration
  pub extensions : List (Extension p)
  pub dirty : Bool
  pub first_dirty_at : Option ℕ
  pub last_change_at : Option ℕ
  pub last_origin : Origin
  pub storing : Bool
  pub jobs : List (StoreJob p)
  pub store_results : List Bool
  pub broadcast_base : Option p.StateVector
  pub broadcast_pending : Bool

module _ {p : Platform} where
  abbrev pub core : Document p → Core p
  core d = record {
    name = d.name;
    doc = d.doc;
    config = d.config;
    extensions = d.extensions;
    dirty = d.dirty;
    first_dirty_at = d.first_dirty_at;
    last_change_at = d.last_change_at;
    last_origin = d.last_origin;
    storing = d.storing;
    jobs = d.jobs;
    store_results = d.store_results;
    broadcast_base = d.broadcast_base;
    broadcast_pending = d.broadcast_pending;
  }

  pub core-evict_lagging : (ids : List ℕ) (d : Document p) → core (evict_lagging ids d) ≡ core d
  unfolding evict_lagging
  core-evict_lagging [] d = refl
  core-evict_lagging (id ∷ ids) d = elim (Option-cases (lookup id d.connections)) [
    | inl e ↦ rw (e, evict_lagging) (core-evict_lagging ids d)
    | inr (conn, e) ↦ rw (e, evict_lagging) (core-evict_lagging ids _)
  ]

  pub core-broadcast_with :
      (build : Bytes → Bytes) (d : Document p) → core (broadcast_with build d) ≡ core d
  unfolding broadcast_with
  core-broadcast_with build d = core-evict_lagging _ _

  pub core-broadcast_awareness :
      (u : Bytes) (d : Document p) → core (broadcast_awareness u d) ≡ core d
  unfolding broadcast_awareness
  core-broadcast_awareness u d = core-broadcast_with _ d

  pub core-greet : (conn : ConnHandle p) (d : Document p) → core (greet conn d) ≡ core d
  unfolding greet
  core-greet conn d = ground arith

  pub core-add_connection :
      (conn : ConnHandle p) (d : Document p) → core (add_connection conn d) ≡ core d
  unfolding add_connection
  core-add_connection conn d = core-greet conn d

  pub core-announce_removal :
      (ids : List ℕ) (d : Document p) → core (announce_removal ids d) ≡ core d
  unfolding announce_removal
  core-announce_removal [] d = refl
  core-announce_removal (id ∷ ids) d =
      elim (Result-cases (p.update_with_clients (id ∷ ids) d.awareness)) [
        | inl (u, e) ↦ rw (e, announce_removal) (core-broadcast_awareness (p.encode_awareness u) d)
        | inr (_, e) ↦ rw (e, announce_removal)
      ]

  pub core-remove_connection : (id : ℕ) (d : Document p) → core (remove_connection id d) ≡ core d
  unfolding remove_connection
  core-remove_connection id d = elim (Option-cases (lookup id d.connections)) [
    | inl e ↦ rw (e, remove_connection)
    | inr (conn, e) ↦ rw (e, remove_connection) (core-announce_removal conn.client_ids _)
  ]

  pub core-close_connection :
      (id : ℕ) (event : CloseEvent) (d : Document p) → core (close_connection id event d) ≡ core d
  unfolding close_connection
  core-close_connection id event d = elim (Option-cases (lookup id d.connections)) [
    | inl e ↦ rw (e, close_connection) (core-remove_connection id d)
    | inr (conn, e) ↦ rw (e, close_connection) (core-remove_connection id _)
  ]

  pub core-send_sync_status :
      (id : ℕ) (addr : Bytes) (saved : Bool) (d : Document p)
      → core (send_sync_status id addr saved d) ≡ core d
  unfolding send_sync_status
  core-send_sync_status id addr saved d = ground arith

  pub core-before_handle_message :
      (id : ℕ) (bytes : Bytes) (origin : Origin) (d : Document p)
      → core (before_handle_message id bytes origin d).1 ≡ core d
  unfolding before_handle_message
  core-before_handle_message id bytes origin d = ground arith

  pub core-answer_step1 :
      (conn : ConnHandle p) (addr : Bytes) (sv : p.StateVector) (d : Document p)
      → core (answer_step1 conn addr sv d) ≡ core d
  unfolding answer_step1
  core-answer_step1 conn addr sv d = refl

  pub core-track_clients :
      (origin : Origin) (ids : List ℕ) (d : Document p) → core (track_clients origin ids d) ≡ core d
  unfolding track_clients
  core-track_clients (connection id) ids d = refl
  core-track_clients _ ids d = refl

  pub core-share_awareness :
      (ids : List ℕ) (origin : Origin) (d : Document p)
      → core (share_awareness ids origin d) ≡ core d
  unfolding share_awareness
  core-share_awareness ids origin d = elim (Result-cases (p.update_with_clients ids d.awareness)) [
    | inl (u, e) ↦ rw (e, share_awareness) (core-broadcast_awareness (p.encode_awareness u) d)
    | inr (_, e) ↦ rw (e, share_awareness)
  ]

  core-apply_awareness_update :
      (u : p.AwarenessUpdate) (origin : Origin) (d : Document p)
      → core (apply_awareness_update u origin d) ≡ core d
  unfolding apply_awareness_update
  core-apply_awareness_update u origin d =
      let a : Document p = record d {
        awareness = (p.apply_awareness u (encode origin) d.awareness).1;
      } in
      ground (
        arith,
        core-share_awareness (p.clients u) origin (track_clients origin (p.clients u) a),
        core-track_clients origin (p.clients u) a,
      )

  pub core-handle_awareness :
      (f : IncomingFrame) (origin : Origin) (d : Document p)
      → core (handle_awareness f origin d) ≡ core d
  unfolding handle_awareness
  core-handle_awareness f origin d = elim (Result-cases (p.read_buf f.decoder)) [
    | inl ((buf, rest), e) ↦ elim (Result-cases (p.decode_awareness buf)) [
      | inl (u, e') ↦ rw (e, handle_awareness, e') (core-apply_awareness_update u origin d)
      | inr (_, e') ↦ rw (e, handle_awareness, e')
    ]
    | inr (_, e) ↦ rw (e, handle_awareness)
  ]

  pub core-reply_query_awareness :
      (addr : Bytes) (id : ℕ) (d : Document p) → core (reply_query_awareness addr id d) ≡ core d
  unfolding reply_query_awareness
  core-reply_query_awareness addr id d = ground arith

  pub core-handle_stateless :
      (conn : ConnHandle p) (f : IncomingFrame) (d : Document p)
      → core (handle_stateless conn f d) ≡ core d
  unfolding handle_stateless
  core-handle_stateless conn f d = ground arith

  pub core-broadcast_stateless :
      (payload : Bytes) (d : Document p) → core (broadcast_stateless payload d) ≡ core d
  unfolding broadcast_stateless
  core-broadcast_stateless payload d = core-broadcast_with _ d
