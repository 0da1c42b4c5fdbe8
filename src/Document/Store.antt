-- ===== src/Document/Store.antt =====
-- Persistence and unloading in crates/hocuspocus/src/document.rs.
use hocuspocus_rs.Prelude.{
  Bool, true, false, not, ◌&&◌, ◌||◌, none, some, List, [], ◌∷◌, ◌++◌, Bytes, length, if◌then◌else◌,
}
use hocuspocus_rs.Platform.{Platform}
use hocuspocus_rs.Extension.{Extension, DocumentPayload, run_each, run_until_error}
use hocuspocus_rs.Document.State.{StoreJob, Document, is_empty, document_payload}

module _ (p : Platform) where
  -- The store hooks, and the hooks behind them if no store hook failed. `spawn_store` and `run_store`
  -- hold the same two loops.
  unfoldable pub run_store_hooks :
      Bytes → DocumentPayload → List (Extension p) → p.World → Bool × p.World
  run_store_hooks state payload exts w =
      let (e, w') = run_until_error p (λ ext. ext.on_store_document state payload) exts w in
      elim e [
        | some _ ↦ (false, w')
        | none ↦ (true, run_each p (λ ext. ext.after_store_document payload) exts w')
      ]

module _ {p : Platform} where
  -- `encode_state_as_update_v1(&StateVector::default())`
  abbrev pub full_state : Document p → Bytes
  full_state d = p.encode_state_as_update d.doc p.empty_state_vector

  abbrev pub clean : Document p → Document p
  clean d = record d { dirty = false; first_dirty_at = none; last_change_at = none }

  unfoldable pub spawn_store : Document p → Document p
  spawn_store d =
      if not d.dirty || d.storing
      then d
      else let job : StoreJob p = record {
        state = full_state d;
        extensions = d.extensions;
        payload = document_payload d (length d.connections);
      } in
        record (clean d) { storing = true; jobs = d.jobs ++ (job ∷ []) }

  -- The body of the task that `spawn_store` starts, up to the send of its result.
  unfoldable pub finish_job : StoreJob p → Document p → Document p
  finish_job job d =
      let (done, w) = run_store_hooks p job.state job.payload job.extensions d.world in
      record d { world = w; store_results = d.store_results ++ (done ∷ []) }

  unfoldable pub run_store : Document p → Document p
  run_store d =
      if d.dirty
      then (let payload = document_payload d (length d.connections) in
          let (done, w) = run_store_hooks p (full_state d) payload d.extensions d.world in
          let d' = record d { world = w } in if done then clean d' else d')
      else d

  -- `maybe_unload` from the second check of the connections on.
  unfoldable pub unload : Document p → Bool × Document p
  unload d =
      if not (is_empty d.connections)
      then (false, d)
      else let payload = document_payload d 0 in
        let (e, w) =
          run_until_error p (λ ext. ext.before_unload_document payload) d.extensions d.world in
        elim e [
          | some _ ↦ (false, record d { world = w })
          | none ↦
              let w' = p.documents_remove d.name w in
              (
                true,
                record d {
                  world = run_each p (λ ext. ext.after_unload_document d.name) d.extensions w';
                },
              )
        ]

  -- The result says whether the actor should exit.
  unfoldable pub maybe_unload : Document p → Bool × Document p
  maybe_unload d =
      if not (is_empty d.connections)
      then (false, d)
      else if d.storing
      then (false, d)
      else if not d.config.unload_immediately && d.dirty
      then (false, d)
      else unload (if d.dirty then run_store d else d)
