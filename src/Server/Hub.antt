-- ===== src/Server/Hub.antt =====
-- The registry of documents in crates/hocuspocus/src/server.rs, over what it shares with other tasks.
use hocuspocus_rs.Prelude.{
  ℕ, Bool, not, Option, none, some, List, Bytes, ascii, Result, ok, err, if◌then◌else◌,
}
use hocuspocus_rs.Config.{Configuration}
use hocuspocus_rs.Platform.{Platform}
use hocuspocus_rs.Extension.{Extension}
use hocuspocus_rs.Document.State.{DocCommand, Document}
use hocuspocus_rs.Document.Actor.{spawn}

-- The maps, locks and channels that tasks share. A document handle, a lock and an acknowledgement
-- are named by numbers. Other tasks run beside the caller, so each operation may change the world in
-- any way.
pub record Hub (p : Platform) : Type 0 where
  -- `documents.get` and `documents.insert`
  pub documents_get : Bytes → p.World → Option ℕ × p.World
  pub documents_insert : Bytes → ℕ → p.World → p.World
  -- `creating.entry(name).or_insert_with(…)`, `lock().await`, the drop of the guard, `creating.remove`
  pub creating_entry : Bytes → p.World → ℕ × p.World
  pub acquire : ℕ → p.World → p.World
  pub release : ℕ → p.World → p.World
  pub creating_remove : Bytes → p.World → p.World
  -- `Doc::with_options`, given `skip_gc`
  pub new_doc : Bool → p.Doc
  -- `tokio::spawn(actor.run())`
  pub start_actor : Document p → p.World → ℕ × p.World
  -- `send` on the mailbox of a document: false if its actor is gone.
  pub send_command : ℕ → DocCommand p → p.World → Bool × p.World
  -- `oneshot::channel`, and whether the acknowledgement came.
  pub ack_channel : p.World → ℕ × p.World
  pub ack_received : ℕ → p.World → Bool × p.World
  -- `next_conn_id.fetch_add(1)`
  pub next_conn_id : p.World → ℕ × p.World
  -- `writer.abort()`, for the writer task of a channel
  pub abort_writer : ℕ → p.World → p.World
  -- What a decoder has left once `read_string` has failed on it.
  pub after_failed_read : Bytes → Bytes

module _ {p : Platform} (hub : Hub p) where
  -- `ServerShared::document`. `Document::spawn` returns no error.
  unfoldable pub document : Configuration → List (Extension p) → Bytes → p.World → ℕ × p.World
  document config exts name w =
      let (resident, w1) = hub.documents_get name w in
      elim resident [
        | some h ↦ (h, w1)
        | none ↦
            let (lock, w2) = hub.creating_entry name w1 in
            let (again, w3) = hub.documents_get name (hub.acquire lock w2) in
            elim again [
              | some h ↦ (h, hub.release lock w3)
              | none ↦
                  let d = spawn p name config exts (hub.new_doc (not config.gc)) w3 in
                  let (h, w4) = hub.start_actor d d.world in
                  (h, hub.release lock (hub.creating_remove name (hub.documents_insert name h w4)))
            ]
      ]

  -- `ServerShared::direct_apply`: an acknowledgement that never comes is no error.
  unfoldable pub direct_apply :
      Configuration
      → List (Extension p)
      → Bytes
      → Bytes
      → p.World
      → Result Bytes (Unit {0}) × p.World
  unfolding document
  direct_apply config exts name update w =
      let (h, w1) = document config exts name w in
      let (ack, w2) = hub.ack_channel w1 in
      let (sent, w3) = hub.send_command h (DocCommand.direct_apply update ack) w2 in
      if sent
      then (ok tt, (hub.ack_received ack w3).1)
      else (err (ascii "document actor unavailable"), w3)
