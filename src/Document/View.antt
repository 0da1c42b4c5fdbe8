-- ===== src/Document/View.antt =====
-- A view of the world that the actor of crates/hocuspocus/src/document.rs leaves alone: nothing that
-- it does but a store reaches what the view shows.
use hocuspocus_rs.Prelude.{
  ℕ, Bool, ◌≡◌, refl, ◌∙◌, List, [], ◌∷◌, Bytes, Map, lookup, inl, inr, Option-cases, Result-cases,
  Bool-cases, ℕ-Eq, Bytes-Eq,
}
use hocuspocus_rs.Errors.{HookError, CloseEvent}
use hocuspocus_rs.Platform.{Platform, OutMsg}
use hocuspocus_rs.Extension.{
  Extension, ChangePayload, AwarenessPayload, StatelessPayload, ConnectionPayload, DocumentPayload,
  run_each, run_until_error,
}
use hocuspocus_rs.Document.State.{ConnHandle, Document, send_frame, send_close, is_empty}
use hocuspocus_rs.Document.Broadcast.{
  evict_lagging, send_all, broadcast_with, broadcast_awareness, broadcast_stateless,
  flush_broadcast,
}
use hocuspocus_rs.Document.Connections.{greet, add_connection, announce_removal}
use hocuspocus_rs.Document.Updates.{send_sync_status, reject, answer_step1}
use hocuspocus_rs.Document.Frames.{reply_query_awareness}

-- The clock, the channels and the registry do not reach what the view shows.
pub record Keeps (p : Platform) {V : Type 0} (view : p.World → V) : Type 0 where
  pub now : (w : p.World) → view (p.now w).1 ≡ view w
  pub try_send : (to : ℕ) (m : OutMsg) (w : p.World) → view (p.try_send to m w).1 ≡ view w
  pub send_reply : (to : ℕ) (bytes : Bytes) (w : p.World) → view (p.send_reply to bytes w) ≡ view w
  pub send_ack : (to : ℕ) (w : p.World) → view (p.send_ack to w) ≡ view w
  pub documents_remove : (name : Bytes) (w : p.World) → view (p.documents_remove name w) ≡ view w

-- Nor do the hooks of these extensions, but for those around a store.
pub record IsQuiet {p : Platform} {V : Type 0} (view : p.World → V) (exts : List (Extension p))
    : Type 0 where
  pub before_message :
      (payload : ChangePayload) (w : p.World)
      → view (run_until_error p (λ ext. ext.before_handle_message payload) exts w).1 ≡ view w
  pub changed :
      (payload : ChangePayload) (w : p.World)
      → view (run_each p (λ ext. ext.on_change payload) exts w) ≡ view w
  pub aware :
      (payload : AwarenessPayload) (w : p.World)
      → view (run_each p (λ ext. ext.on_awareness_update payload) exts w) ≡ view w
  pub stateless :
      (payload : StatelessPayload) (w : p.World)
      → view (run_until_error p (λ ext. ext.on_stateless payload) exts w).1 ≡ view w
  pub disconnected :
      (payload : ConnectionPayload p) (w : p.World)
      → view (run_each p (λ ext. ext.on_disconnect payload) exts w) ≡ view w
  pub before_unload :
      (payload : DocumentPayload) (w : p.World)
      → view (run_until_error p (λ ext. ext.before_unload_document payload) exts w).1 ≡ view w
  pub after_unload :
      (name : Bytes) (w : p.World)
      → view (run_each p (λ ext. ext.after_unload_document name) exts w) ≡ view w

module _ {p : Platform} {V : Type 0} {view : p.World → V} (k : Keeps p view) where
  view-send_frame :
      (conn : ConnHandle p) (bytes : Bytes) (w : p.World)
      → view (send_frame conn bytes w).1 ≡ view w
  unfolding send_frame
  view-send_frame conn bytes w = k.try_send conn.outbound (OutMsg.frame bytes) w

  pub view-send_close :
      (conn : ConnHandle p) (e : CloseEvent) (w : p.World) → view (send_close conn e w) ≡ view w
  unfolding send_close
  view-send_close conn e w = k.try_send conn.outbound (OutMsg.close e) w

  view-evict_lagging :
      (ids : List ℕ) (d : Document p) → view (evict_lagging ids d).world ≡ view d.world
  unfolding evict_lagging
  view-evict_lagging [] d = refl
  view-evict_lagging (id ∷ ids) d = elim (Option-cases (lookup id d.connections)) [
    | inl e ↦ rw (e, evict_lagging) (view-evict_lagging ids d)
    | inr (conn, e) ↦
        rw (e, evict_lagging) (view-evict_lagging ids _ ∙ view-send_close conn _ d.world)
  ]

  view-send_all :
      (build : Bytes → Bytes) (addr fr : Bytes) (conns : Map ℕ (ConnHandle p)) (w : p.World)
      → view (send_all build addr fr conns w).1 ≡ view w
  unfolding send_all
  view-send_all build addr fr [] w = refl
  view-send_all build addr fr ((id, conn) ∷ conns) w =
      view-send_all build addr fr conns _ ∙ view-send_frame conn _ w

  pub view-broadcast_with :
      (build : Bytes → Bytes) (d : Document p) → view (broadcast_with build d).world ≡ view d.world
  unfolding broadcast_with
  view-broadcast_with build d =
      view-evict_lagging _ _ ∙ view-send_all build d.name (build d.name) d.connections d.world

  pub view-broadcast_awareness :
      (u : Bytes) (d : Document p) → view (broadcast_awareness u d).world ≡ view d.world
  unfolding broadcast_awareness
  view-broadcast_awareness u d = view-broadcast_with _ d

  pub view-broadcast_stateless :
      (payload : Bytes) (d : Document p) → view (broadcast_stateless payload d).world ≡ view d.world
  unfolding broadcast_stateless
  view-broadcast_stateless payload d = view-broadcast_with _ d

  pub view-flush_broadcast : (d : Document p) → view (flush_broadcast d).world ≡ view d.world
  unfolding flush_broadcast
  view-flush_broadcast d = elim (Bool-cases d.broadcast_pending) [
    | inr h ↦ rw (h, flush_broadcast)
    | inl h ↦ elim (Option-cases d.broadcast_base) [
      | inl e ↦ rw (h, flush_broadcast, e)
      | inr (base, e) ↦ elim (Bool-cases (is_empty (p.encode_diff d.doc base))) [
        | inl none_new ↦ rw (h, flush_broadcast, e, none_new)
        | inr some_new ↦ rw (h, flush_broadcast, e, some_new) (view-broadcast_with _ _)
      ]
    ]
  ]

  view-greet : (conn : ConnHandle p) (d : Document p) → view (greet conn d).world ≡ view d.world
  unfolding greet
  view-greet conn d = elim (Bool-cases (p.has_states d.awareness)) [
    | inr h ↦ rw (h, greet)
    | inl h ↦ elim (Result-cases (p.awareness_update d.awareness)) [
      | inl (u, e) ↦ rw (h, greet, e) (view-send_frame conn _ d.world)
      | inr (_, e) ↦ rw (h, greet, e)
    ]
  ]

  pub view-add_connection :
      (conn : ConnHandle p) (d : Document p) → view (add_connection conn d).world ≡ view d.world
  unfolding add_connection
  view-add_connection conn d = view-greet conn d

  pub view-announce_removal :
      (ids : List ℕ) (d : Document p) → view (announce_removal ids d).world ≡ view d.world
  unfolding announce_removal
  view-announce_removal [] d = refl
  view-announce_removal (id ∷ ids) d =
      elim (Result-cases (p.update_with_clients (id ∷ ids) d.awareness)) [
        | inl (u, e) ↦ rw (e, announce_removal) (view-broadcast_awareness (p.encode_awareness u) d)
        | inr (_, e) ↦ rw (e, announce_removal)
      ]

  pub view-send_sync_status :
      (id : ℕ) (addr : Bytes) (saved : Bool) (d : Document p)
      → view (send_sync_status id addr saved d).world ≡ view d.world
  unfolding send_sync_status
  view-send_sync_status id addr saved d = elim (Option-cases (lookup id d.connections)) [
    | inl e ↦ rw (e, send_sync_status)
    | inr (conn, e) ↦ rw (e, send_sync_status) (view-send_frame conn _ d.world)
  ]

  pub view-reject :
      (id : ℕ) (e : HookError) (d : Document p) → view (reject id e d).world ≡ view d.world
  view-reject id e d = elim (Option-cases (lookup id d.connections)) [
    | inl h ↦ rw (h, reject)
    | inr (conn, h) ↦ rw (h, reject) (view-send_close conn _ d.world)
  ]

  pub view-answer_step1 :
      (conn : ConnHandle p) (addr : Bytes) (sv : p.StateVector) (d : Document p)
      → view (answer_step1 conn addr sv d).world ≡ view d.world
  unfolding answer_step1
  view-answer_step1 conn addr sv d = view-send_frame conn _ _ ∙ view-send_frame conn _ d.world

  pub view-reply_query_awareness :
      (addr : Bytes) (id : ℕ) (d : Document p)
      → view (reply_query_awareness addr id d).world ≡ view d.world
  unfolding reply_query_awareness
  view-reply_query_awareness addr id d = elim (Result-cases (p.awareness_update d.awareness)) [
    | inr (_, e) ↦ rw (e, reply_query_awareness)
    | inl (u, e) ↦ elim (Option-cases (lookup id d.connections)) [
      | inl h ↦ rw (e, reply_query_awareness, h)
      | inr (conn, h) ↦ rw (e, reply_query_awareness, h) (view-send_frame conn _ d.world)
    ]
  ]
