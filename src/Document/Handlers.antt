-- ===== src/Document/Handlers.antt =====
-- What every command of crates/hocuspocus/src/document.rs keeps: each predicate that sees only the core
-- and a view of the world that is left alone, and that `apply_and_broadcast` and `maybe_unload` keep.
use hocuspocus_rs.Prelude.{
  ℕ, ◌≡◌, refl, ◌∙◌, true, false, Option, List, [], ◌∷◌, Bytes, lookup, inl, inr, Result-cases,
  Bool-cases, Option-cases, ℕ-Eq,
}
use hocuspocus_rs.Origin.{Origin, connection, redis, local}
use hocuspocus_rs.Yrs.{sync_step1, sync_step2, update}
use hocuspocus_rs.Protocol.{
  MessageType, sync, awareness, auth, query_awareness, sync_reply, stateless, broadcast_stateless,
  close, IncomingFrame, parse,
}
use hocuspocus_rs.Platform.{Platform}
use hocuspocus_rs.Extension.{Extension}
use hocuspocus_rs.Document.State.{ConnHandle, DocCommand, Document}
use hocuspocus_rs.Document.Updates.{
  before_handle_message, apply_and_broadcast, handle_update, handle_sync, handle_external_sync,
}
use hocuspocus_rs.Document.Store.{maybe_unload}
use hocuspocus_rs.Document.Frames.{handle_token_sync}
use hocuspocus_rs.Document.Connections.{remove_connection}
use hocuspocus_rs.Document.Commands.{
  dispatch, handle_client_frame, dispatch_external, handle_external_frame, handle_command,
}
use hocuspocus_rs.Document.Actor.{run_commands}
use hocuspocus_rs.Document.Core.{
  Core, core, core-add_connection, core-remove_connection, core-send_sync_status, core-answer_step1,
  core-before_handle_message, core-handle_awareness, core-reply_query_awareness,
  core-handle_stateless, core-close_connection, core-broadcast_stateless,
}
use hocuspocus_rs.Document.View.{
  Keeps, IsQuiet, view-add_connection, view-send_sync_status, view-answer_step1,
  view-reply_query_awareness, view-broadcast_stateless,
}
use hocuspocus_rs.Document.Quiet.{
  view-remove_connection, view-close_connection, view-before_handle_message, view-handle_awareness,
  view-handle_stateless,
}

module _ {p : Platform} {V : Type 0} {view : p.World → V} (k : Keeps p view)
    (P : Document p → Type 0) (quiet : (d : Document p) → P d → IsQuiet view d.extensions)
    (same : (d d' : Document p) → core d' ≡ core d → view d'.world ≡ view d.world → P d → P d')
    (applied : (bytes : Bytes) (o : Origin) (d : Document p)
      → P d
      → P (apply_and_broadcast bytes o d))
    (unloaded : (d : Document p) → P d → P (maybe_unload d).1) where
  handle_update_keeps :
      (id : ℕ) (conn : ConnHandle p) (addr : Bytes) (o : Origin) (bytes : Bytes) (d : Document p)
      → P d
      → P (handle_update id conn addr o bytes d)
  unfolding handle_update
  handle_update_keeps id conn addr o bytes d v = elim (Bool-cases conn.read_only) [
    | inl ro ↦
        rw (ro, handle_update)
          (same _ _ (core-send_sync_status id addr false d)
            (view-send_sync_status k id addr false d) v)
    | inr rw_ ↦ elim (Bool-cases (before_handle_message id bytes o d).0) [
      | inl accepted ↦
          rw (rw_, handle_update, accepted)
            (same _ _ (core-send_sync_status id addr true _)
              (view-send_sync_status k id addr true _)
              (applied bytes o (before_handle_message id bytes o d).1 (
                same _ _ (core-before_handle_message id bytes o d)
                  (view-before_handle_message k id bytes o d (quiet d v)) v)))
      | inr rejected ↦
          rw (rw_, handle_update, rejected)
            (same _ _ (core-before_handle_message id bytes o d)
              (view-before_handle_message k id bytes o d (quiet d v)) v)
    ]
  ]

  handle_sync_keeps :
      (id : ℕ) (conn : ConnHandle p) (addr : Bytes) (o : Origin) (f : IncomingFrame)
      (d : Document p)
      → P d
      → P (handle_sync id conn addr o f d)
  unfolding handle_sync
  handle_sync_keeps id conn addr o f d v = elim (Result-cases (p.decode_sync f.decoder)) [
    | inl (sync_step1 sv, e) ↦
        rw (e, handle_sync)
          (same _ _ (core-answer_step1 conn addr sv d) (view-answer_step1 k conn addr sv d) v)
    | inl (sync_step2 u, e) ↦ rw (e, handle_sync) (handle_update_keeps id conn addr o u d v)
    | inl (update u, e) ↦ rw (e, handle_sync) (handle_update_keeps id conn addr o u d v)
    | inr (_, e) ↦ rw (e, handle_sync) v
  ]

  dispatch_keeps :
      (t : MessageType) (id : ℕ) (conn : ConnHandle p) (f : IncomingFrame) (d : Document p)
      → P d
      → P (dispatch t id conn f d)
  unfolding dispatch handle_token_sync
  dispatch_keeps sync id conn f d v = handle_sync_keeps id conn _ _ f d v
  dispatch_keeps sync_reply id conn f d v = handle_sync_keeps id conn _ _ f d v
  dispatch_keeps awareness id conn f d v =
      same _ _ (core-handle_awareness f (connection id) d)
        (view-handle_awareness k f (connection id) d (quiet d v)) v
  dispatch_keeps query_awareness id conn f d v =
      same _ _ (core-reply_query_awareness _ id d) (view-reply_query_awareness k _ id d) v
  dispatch_keeps stateless id conn f d v =
      same _ _ (core-handle_stateless conn f d) (view-handle_stateless k conn f d (quiet d v)) v
  dispatch_keeps close id conn f d v =
      same _ _ (core-close_connection id _ d) (view-close_connection k id _ d (quiet d v)) v
  dispatch_keeps broadcast_stateless id conn f d v =
      same _ _ (core-close_connection id _ d) (view-close_connection k id _ d (quiet d v)) v
  dispatch_keeps auth id conn f d v = v
  dispatch_keeps _ id conn f d v = v

  handle_client_frame_keeps :
      (id : ℕ) (bytes : Bytes) (d : Document p) → P d → P (handle_client_frame id bytes d)
  unfolding handle_client_frame
  handle_client_frame_keeps id bytes d v = elim (Option-cases (lookup id d.connections)) [
    | inl e ↦ rw (e, handle_client_frame) v
    | inr (conn, e) ↦ elim (Result-cases (parse p.codec bytes)) [
      | inl (f, e') ↦ rw (e, handle_client_frame, e') (dispatch_keeps f.message_type id conn f d v)
      | inr (_, e') ↦ rw (e, handle_client_frame, e') v
    ]
  ]

  handle_external_sync_keeps :
      (f : IncomingFrame) (o : Origin) (reply : Option ℕ) (d : Document p)
      → P d
      → P (handle_external_sync f o reply d)
  unfolding handle_external_sync
  handle_external_sync_keeps f o reply d v = elim (Result-cases (p.decode_sync f.decoder)) [
    | inl (sync_step1 sv, e) ↦ elim (Option-cases reply) [
      | inl n ↦ rw (e, handle_external_sync, n) v
      | inr (tx, n) ↦ rw (e, handle_external_sync, n) (same _ _ refl (k.send_reply tx _ d.world) v)
    ]
    | inl (sync_step2 u, e) ↦ rw (e, handle_external_sync) (applied u o d v)
    | inl (update u, e) ↦ rw (e, handle_external_sync) (applied u o d v)
    | inr (_, e) ↦ rw (e, handle_external_sync) v
  ]

  dispatch_external_keeps :
      (t : MessageType) (f : IncomingFrame) (reply : Option ℕ) (d : Document p)
      → P d
      → P (dispatch_external t f reply d)
  unfolding dispatch_external
  dispatch_external_keeps sync f reply d v = handle_external_sync_keeps f redis reply d v
  dispatch_external_keeps sync_reply f reply d v = handle_external_sync_keeps f redis reply d v
  dispatch_external_keeps awareness f reply d v =
      same _ _ (core-handle_awareness f redis d) (view-handle_awareness k f redis d (quiet d v)) v
  dispatch_external_keeps query_awareness f reply d v = elim (Option-cases reply) [
    | inl n ↦ rw (n, dispatch_external) v
    | inr (tx, n) ↦ elim (Result-cases (p.awareness_update d.awareness)) [
      | inl (u, e) ↦ rw (n, dispatch_external, e) (same _ _ refl (k.send_reply tx _ d.world) v)
      | inr (_, e) ↦ rw (n, dispatch_external, e) v
    ]
  ]
  dispatch_external_keeps broadcast_stateless f reply d v =
      elim (Result-cases (p.read_string f.decoder)) [
        | inl ((payload, rest), e) ↦
            rw (e, dispatch_external)
              (same _ _ (core-broadcast_stateless payload d) (view-broadcast_stateless k payload d)
                v)
        | inr (_, e) ↦ rw (e, dispatch_external) v
      ]
  dispatch_external_keeps _ f reply d v = v

  handle_external_frame_keeps :
      (bytes : Bytes) (reply : Option ℕ) (d : Document p)
      → P d
      → P (handle_external_frame bytes reply d)
  unfolding handle_external_frame
  handle_external_frame_keeps bytes reply d v = elim (Result-cases (parse p.codec bytes)) [
    | inl (f, e) ↦
        rw (e, handle_external_frame) (dispatch_external_keeps f.message_type f reply d v)
    | inr (_, e) ↦ rw (e, handle_external_frame) v
  ]

  pub handle_command_holds : (c : DocCommand p) (d : Document p) → P d → P (handle_command c d).1
  unfolding handle_command
  handle_command_holds (DocCommand.add_connection conn ack) d v =
      same _ _ (core-add_connection conn d) (k.send_ack ack _ ∙ view-add_connection k conn d) v
  handle_command_holds (DocCommand.client_frame id bytes) d v =
      handle_client_frame_keeps id bytes d v
  handle_command_holds (DocCommand.remove_connection id) d v =
      unloaded (remove_connection id d)
        (same _ _ (core-remove_connection id d) (view-remove_connection k id d (quiet d v)) v)
  handle_command_holds (DocCommand.external_frame bytes reply) d v =
      handle_external_frame_keeps bytes reply d v
  handle_command_holds (DocCommand.direct_apply u ack) d v =
      same _ _ refl (k.send_ack ack _) (applied u local d v)

  pub run_commands_holds :
      (cs : List (DocCommand p)) (d : Document p) → P d → P (run_commands cs d).1
  unfolding run_commands
  run_commands_holds [] d v = v
  run_commands_holds (c ∷ cs) d v = elim (Bool-cases (handle_command c d).0) [
    | inl exit ↦ rw (exit, run_commands) (handle_command_holds c d v)
    | inr stay ↦
        rw (stay, run_commands)
          (run_commands_holds cs (handle_command c d).1 (handle_command_holds c d v))
  ]

-- The view that shows nothing.
abbrev nothing : (p : Platform) → p.World → Unit {0}
nothing p w = tt

nothing-Keeps : (p : Platform) → Keeps p (nothing p)
nothing-Keeps p = record {
  now = λ w. refl;
  try_send = λ to m w. refl;
  send_reply = λ to bytes w. refl;
  send_ack = λ to w. refl;
  documents_remove = λ name w. refl;
}

nothing-IsQuiet : {p : Platform} (exts : List (Extension p)) → IsQuiet (nothing p) exts
nothing-IsQuiet exts = record {
  before_message = λ payload w. refl;
  changed = λ payload w. refl;
  aware = λ payload w. refl;
  stateless = λ payload w. refl;
  disconnected = λ payload w. refl;
  before_unload = λ payload w. refl;
  after_unload = λ name w. refl;
}

-- A batch keeps each predicate on the core that `apply_and_broadcast` and `maybe_unload` keep.
pub run_commands_keeps :
    {p : Platform} (P : Core p → Type 0)
    → ((bytes : Bytes) (o : Origin) (d : Document p)
        → P (core d)
        → P (core (apply_and_broadcast bytes o d)))
    → ((d : Document p) → P (core d) → P (core (maybe_unload d).1))
    → (cs : List (DocCommand p)) (d : Document p) → P (core d)
    → P (core (run_commands cs d).1)
run_commands_keeps {p} P applied unloaded =
    run_commands_holds (nothing-Keeps p) (λ d. P (core d)) (λ d v. nothing-IsQuiet d.extensions)
      (λ d d' e f v. rw e v) applied unloaded
