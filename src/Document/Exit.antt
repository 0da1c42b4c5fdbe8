-- ===== src/Document/Exit.antt =====
-- When the actor of crates/hocuspocus/src/document.rs leaves its loop, and what it leaves unsaved.
use hocuspocus_rs.Prelude.{◌≡◌, Bool, true, false, not, ◌&&◌, ◌||◌, is_none, [], arith, length}
use hocuspocus_rs.Platform.{Platform}
use hocuspocus_rs.Extension.{run_until_error}
use hocuspocus_rs.Document.State.{Document, document_payload}
use hocuspocus_rs.Document.Store.{run_store_hooks, full_state, run_store, unload, maybe_unload}
use hocuspocus_rs.Document.Actor.{on_deadline}
use hocuspocus_rs.Document.Core.{core}

module _ {p : Platform} where
  -- Whether the store that `run_store` makes from `d` succeeds, and the world behind it.
  abbrev pub store_outcome : Document p → Bool × p.World
  store_outcome d =
      run_store_hooks p (full_state d) (document_payload d (length d.connections)) d.extensions
        d.world

  -- Whether no `before_unload_document` hook objects in the world `w`.
  abbrev pub may_unload : Document p → p.World → Bool
  may_unload d w =
      is_none
        (run_until_error p (λ ext. ext.before_unload_document (document_payload d 0)) d.extensions
          w).0

  -- A store clears the dirty mark exactly when its hooks succeed; the document stays as it is.
  pub run_store-dirty :
      (d : Document p)
      → ((run_store d).dirty ≡ (d.dirty && not (store_outcome d).0)) × ((run_store d).doc ≡ d.doc)
  unfolding run_store
  run_store-dirty d = ground arith

  -- The actor leaves its loop through `maybe_unload` only without connections and without a store
  -- under way; if it keeps documents warm, only with every change saved.
  pub maybe_unload_leaves :
      (d : Document p)
      → (maybe_unload d).0 ≡ true
      → (d.connections ≡ [])
        × (d.storing ≡ false)
        × ((maybe_unload d).1.connections ≡ [])
        × ((d.config.unload_immediately || not d.dirty) ≡ true)
  unfolding maybe_unload unload run_store
  maybe_unload_leaves d h = ground arith

  -- Changes are lost: a document without connections that is dirty when its store fails is unloaded
  -- all the same, still dirty, if it is not kept warm and no hook objects to the unload.
  pub unload_loses_changes :
      (d : Document p)
      → d.connections ≡ []
      → d.storing ≡ false
      → d.config.unload_immediately ≡ true
      → d.dirty ≡ true
      → (store_outcome d).0 ≡ false
      → may_unload d (store_outcome d).1 ≡ true
      → ((maybe_unload d).0 ≡ true)
        × ((maybe_unload d).1.dirty ≡ true)
        × ((maybe_unload d).1.doc ≡ d.doc)
  unfolding maybe_unload unload run_store
  unload_loses_changes d c s i h f m = ground arith

  -- A document that is kept warm survives a failed store: at the deadline the actor stays in its
  -- loop, and the document is dirty with the times of its changes as they were.
  pub on_deadline_retries :
      (d : Document p)
      → d.connections ≡ []
      → d.config.unload_immediately ≡ false
      → d.dirty ≡ true
      → (store_outcome d).0 ≡ false
      → ((on_deadline d).0 ≡ false) × (core (on_deadline d).1 ≡ core d)
  unfolding on_deadline maybe_unload unload run_store
  on_deadline_retries d c i h f = ground arith
