-- ===== src/Document/Quiet.antt =====
-- The operations of crates/hocuspocus/src/document.rs that run hooks: under extensions that leave a
-- view of the world alone, they leave it alone.
use hocuspocus_rs.Prelude.{
  ℕ, ◌≡◌, refl, ap, ◌∙◌, Option, none, some, List, Bytes, lookup, inl, inr, Option-cases,
  Result-cases, Bool-cases, ℕ-Eq,
}
use hocuspocus_rs.Errors.{CloseEvent}
use hocuspocus_rs.Origin.{Origin, connection, encode}
use hocuspocus_rs.Protocol.{IncomingFrame}
use hocuspocus_rs.Platform.{Platform}
use hocuspocus_rs.Extension.{Extension, run_until_error}
use hocuspocus_rs.Document.State.{ConnHandle, Document, is_empty, mark_dirty, document_payload}
use hocuspocus_rs.Document.Connections.{remove_connection, close_connection}
use hocuspocus_rs.Document.Updates.{
  change_payload, before_handle_message, note_change, apply_and_broadcast,
}
use hocuspocus_rs.Document.Frames.{
  track_clients, share_awareness, apply_awareness_update, handle_awareness, handle_stateless,
}
use hocuspocus_rs.Document.Store.{unload}
use hocuspocus_rs.Document.Core.{
  Core, core-announce_removal, core-broadcast_awareness, core-track_clients,
}
use hocuspocus_rs.Document.View.{
  Keeps, IsQuiet, view-announce_removal, view-broadcast_awareness, view-reject, view-send_close,
}

module _ {p : Platform} {V : Type 0} {view : p.World → V} (k : Keeps p view) where
  -- An operation that leaves the core alone leaves the extensions alone.
  IsQuiet-of_core :
      {c c' : Core p} → c' ≡ c → IsQuiet view c.extensions → IsQuiet view c'.extensions
  IsQuiet-of_core e q = rw (ap (λ c. c.extensions) e) q

  pub view-remove_connection :
      (id : ℕ) (d : Document p)
      → IsQuiet view d.extensions
      → view (remove_connection id d).world ≡ view d.world
  unfolding remove_connection
  view-remove_connection id d q = elim (Option-cases (lookup id d.connections)) [
    | inl e ↦ rw (e, remove_connection)
    | inr (conn, e) ↦
        rw (e, remove_connection)
          ((IsQuiet-of_core (core-announce_removal conn.client_ids _) q).disconnected _ _
            ∙ view-announce_removal k conn.client_ids _)
  ]

  pub view-close_connection :
      (id : ℕ) (event : CloseEvent) (d : Document p)
      → IsQuiet view d.extensions
      → view (close_connection id event d).world ≡ view d.world
  unfolding close_connection
  view-close_connection id event d q = elim (Option-cases (lookup id d.connections)) [
    | inl e ↦ rw (e, close_connection) (view-remove_connection id d q)
    | inr (conn, e) ↦
        rw (e, close_connection)
          (view-remove_connection id _ q ∙ view-send_close k conn event d.world)
  ]

  pub view-before_handle_message :
      (id : ℕ) (bytes : Bytes) (o : Origin) (d : Document p)
      → IsQuiet view d.extensions
      → view (before_handle_message id bytes o d).1.world ≡ view d.world
  unfolding before_handle_message
  view-before_handle_message id bytes o d q =
      let hook = λ (ext : Extension p). ext.before_handle_message (change_payload d bytes o) in
      elim (Option-cases (run_until_error p hook d.extensions d.world).0) [
        | inl e ↦ rw (e, before_handle_message) (q.before_message _ d.world)
        | inr (err, e) ↦
            rw (e, before_handle_message)
              (view-reject k id err _ ∙ q.before_message (change_payload d bytes o) d.world)
      ]

  view-mark_dirty : (o : Origin) (d : Document p) → view (mark_dirty o d).world ≡ view d.world
  unfolding mark_dirty
  view-mark_dirty o d = k.now d.world

  view-note_change :
      (base : Option p.StateVector) (change : Bytes) (o : Origin) (d : Document p)
      → IsQuiet view d.extensions
      → view (note_change base change o d).world ≡ view d.world
  unfolding note_change mark_dirty
  view-note_change none change o d q = q.changed _ _ ∙ k.now d.world
  view-note_change (some b) change o d q = q.changed _ _ ∙ k.now d.world

  pub view-apply_and_broadcast :
      (bytes : Bytes) (o : Origin) (d : Document p)
      → IsQuiet view d.extensions
      → view (apply_and_broadcast bytes o d).world ≡ view d.world
  unfolding apply_and_broadcast
  view-apply_and_broadcast bytes o d q = elim (Result-cases (p.decode_update bytes)) [
    | inr (_, e) ↦ rw (e, apply_and_broadcast)
    | inl (u, e) ↦
        let applied = p.apply_update d.doc (encode o) u in
        elim (Result-cases applied.result) [
          | inr (_, e') ↦ rw (e, apply_and_broadcast, e')
          | inl (_, e') ↦ elim (Bool-cases (is_empty applied.change)) [
            | inl e'' ↦ rw (e, apply_and_broadcast, e', e'')
            | inr e'' ↦
                rw (e, apply_and_broadcast, e', e'')
                  (view-note_change _ applied.change o (record d { doc = applied.doc }) q)
          ]
        ]
  ]

  view-share_awareness :
      (ids : List ℕ) (o : Origin) (d : Document p)
      → IsQuiet view d.extensions
      → view (share_awareness ids o d).world ≡ view d.world
  unfolding share_awareness
  view-share_awareness ids o d q = elim (Result-cases (p.update_with_clients ids d.awareness)) [
    | inr (_, e) ↦ rw (e, share_awareness)
    | inl (u, e) ↦
        rw (e, share_awareness)
          ((IsQuiet-of_core (core-broadcast_awareness (p.encode_awareness u) d) q).aware _ _
            ∙ view-broadcast_awareness k (p.encode_awareness u) d)
  ]

  view-track_clients :
      (o : Origin) (ids : List ℕ) (d : Document p)
      → view (track_clients o ids d).world ≡ view d.world
  unfolding track_clients
  view-track_clients (connection id) ids d = refl
  view-track_clients _ ids d = refl

  view-apply_awareness_update :
      (u : p.AwarenessUpdate) (o : Origin) (d : Document p)
      → IsQuiet view d.extensions
      → view (apply_awareness_update u o d).world ≡ view d.world
  unfolding apply_awareness_update
  view-apply_awareness_update u o d q =
      let a : Document p = record d {
        awareness = (p.apply_awareness u (encode o) d.awareness).1;
      } in
      elim (Result-cases (p.apply_awareness u (encode o) d.awareness).0) [
        | inr (_, e) ↦ rw (e, apply_awareness_update)
        | inl (_, e) ↦
            rw (e, apply_awareness_update)
              (view-share_awareness (p.clients u) o _
                  (IsQuiet-of_core (core-track_clients o (p.clients u) a) q)
                ∙ view-track_clients o (p.clients u) a)
      ]

  pub view-handle_awareness :
      (f : IncomingFrame) (o : Origin) (d : Document p)
      → IsQuiet view d.extensions
      → view (handle_awareness f o d).world ≡ view d.world
  unfolding handle_awareness
  view-handle_awareness f o d q = elim (Result-cases (p.read_buf f.decoder)) [
    | inr (_, e) ↦ rw (e, handle_awareness)
    | inl ((buf, rest), e) ↦ elim (Result-cases (p.decode_awareness buf)) [
      | inr (_, e') ↦ rw (e, handle_awareness, e')
      | inl (u, e') ↦ rw (e, handle_awareness, e') (view-apply_awareness_update u o d q)
    ]
  ]

  pub view-handle_stateless :
      (conn : ConnHandle p) (f : IncomingFrame) (d : Document p)
      → IsQuiet view d.extensions
      → view (handle_stateless conn f d).world ≡ view d.world
  unfolding handle_stateless
  view-handle_stateless conn f d q = elim (Result-cases (p.read_string f.decoder)) [
    | inr (_, e) ↦ rw (e, handle_stateless)
    | inl ((payload, rest), e) ↦ rw (e, handle_stateless) (q.stateless _ d.world)
  ]

  pub view-unload :
      (d : Document p) → IsQuiet view d.extensions → view (unload d).1.world ≡ view d.world
  unfolding unload
  view-unload d q =
      let hook = λ (ext : Extension p). ext.before_unload_document (document_payload d 0) in
      elim (Bool-cases (is_empty d.connections)) [
        | inr e ↦ rw (e, unload)
        | inl e ↦ elim (Option-cases (run_until_error p hook d.extensions d.world).0) [
          | inr (_, e') ↦ rw (e, unload, e') (q.before_unload _ d.world)
          | inl e' ↦
              rw (e, unload, e')
                (q.after_unload d.name _
                  ∙ k.documents_remove d.name _
                  ∙ q.before_unload (document_payload d 0) d.world)
        ]
      ]
