-- ===== src/Document/Durable.antt =====
-- That a document of crates/hocuspocus/src/document.rs which is clean is saved. The invariant follows
-- the state from a change through the task of a store to its result.
pub mod Operations
pub mod Tasks
pub mod Turns
pub mod Clean
use hocuspocus_rs.Prelude.{
  ℕ, ◌+◌, ◌≡◌, refl, ap, ◌∙◌, ◌⊎◌, Bool, true, false, not, ◌&&◌, ◌||◌, Option, none, some, List, [],
  ◌∷◌, ◌++◌, Bytes, arith, length, length-append, inl, inr, Bool-cases, Result-cases, ok, err,
  if◌then◌else◌,
}
use hocuspocus_rs.Config.{Configuration}
use hocuspocus_rs.Origin.{Origin, encode}
use hocuspocus_rs.Yrs.{Yrs}
use hocuspocus_rs.Yrs.Unnoticed.{Unnoticed}
use hocuspocus_rs.Platform.{Platform}
use hocuspocus_rs.Extension.{Extension, DocumentPayload}
use hocuspocus_rs.Document.State.{
  DocCommand, StoreJob, Document, is_empty, mark_dirty, store_deadline,
}
use hocuspocus_rs.Document.Updates.{note_change, apply_and_broadcast}
use hocuspocus_rs.Document.Store.{
  run_store_hooks, full_state, spawn_store, run_store, finish_job, unload, maybe_unload,
}
use hocuspocus_rs.Document.Actor.{run_commands}
use hocuspocus_rs.Document.Core.{Core, core}
use hocuspocus_rs.Document.View.{Keeps, IsQuiet}
use hocuspocus_rs.Document.Quiet.{view-apply_and_broadcast, view-unload}
use hocuspocus_rs.Document.Invariant.{
  Inv, apply_and_broadcast-Inv, mark_dirty-Inv, spawn_store-Inv, run_store-Inv, finish_job-Inv,
  maybe_unload-Inv, core-unload,
}

-- `view` shows what the storage holds under the name of one document. The process but for the store
-- hooks leaves it alone, and store hooks that all succeed put the state that they are given.
pub record IsStore (p : Platform) (view : p.World → Option Bytes) (name : Bytes)
    (exts : List (Extension p)) : Type 0 where
  pub keeps : Keeps p view
  pub quiet : IsQuiet view exts
  pub puts :
      (state : Bytes) (payload : DocumentPayload) (w : p.World)
      → payload.document_name ≡ name
      → (run_store_hooks p state payload exts w).0 ≡ true
      → view (run_store_hooks p state payload exts w).1 ≡ some state

pub empty_of_length {ℓ} : {A : Type ℓ} (xs : List A) → length xs ≡ 0 → xs ≡ []
empty_of_length [] h = refl
empty_of_length (x ∷ xs) h = absurd (omega arith)

-- The only element of a list, wherever it is found.
pub only_element {ℓ} :
    {A : Type ℓ} (front back : List A) (x y : A)
    → front ++ x ∷ back ≡ y ∷ []
    → (front ≡ []) × (back ≡ []) × (x ≡ y)
only_element [] back x y e = (refl, cc, cc)
only_element (z ∷ front) back x y e =
    absurd (omega (arith, ap length e, length-append front (x ∷ back)))

-- The whole state of a document, as it is stored.
abbrev pub state_of : (p : Platform) → p.Doc → Bytes
state_of p doc = p.encode_state_as_update doc p.empty_state_vector

module _ {p : Platform} (name : Bytes) (exts : List (Extension p)) (born : p.Doc)
    (found : Option Bytes) where
  -- The storage holds the state of a document, or what it held when the actor started. Since then the
  -- document has seen only updates that went unnoticed.
  abbrev pub IsSaved : Core p → Option Bytes → Type 0
  IsSaved c v =
      ((saved : p.Doc) × Unnoticed p.yrs saved c.doc × (v ≡ some (state_of p saved)))
      ⊎ (Unnoticed p.yrs born c.doc × (v ≡ found))

  -- How the state and the storage agree: not at all while a change waits; for good; or as soon as the
  -- store that is under way has ended well.
  pub data Status (c : Core p) (v : Option Bytes) : Type 0 where
    changed : c.dirty ≡ true → Status c v
    settled : c.storing ≡ false → IsSaved c v → Status c v
    pending :
        (job : StoreJob p)
        → c.jobs ≡ job ∷ []
        → c.store_results ≡ []
        → c.storing ≡ true
        → (saved : p.Doc) → Unnoticed p.yrs saved c.doc
        → job.state ≡ state_of p saved
        → job.extensions ≡ exts
        → job.payload.document_name ≡ name
        → Status c v
    stored :
        c.jobs ≡ []
        → c.store_results ≡ true ∷ []
        → c.storing ≡ true
        → (saved : p.Doc) → Unnoticed p.yrs saved c.doc
        → v ≡ some (state_of p saved)
        → Status c v
    refused : c.jobs ≡ [] → c.store_results ≡ false ∷ [] → c.storing ≡ true → Status c v

  pub record Durable (c : Core p) (v : Option Bytes) : Type 0 where
    pub bookkeeping : Inv c
    pub same_exts : c.extensions ≡ exts
    pub same_name : c.name ≡ name
    pub status : Status c v

  -- Updates that go unnoticed leave the status as it is.
  pub Status-doc :
      (c : Core p) (doc : p.Doc) (v : Option Bytes)
      → ((a : p.Doc) → Unnoticed p.yrs a c.doc → Unnoticed p.yrs a doc)
      → Status c v
      → Status (record c { doc = doc }) v
  Status-doc c doc v g (changed h) = changed h
  Status-doc c doc v g (settled h (inl (saved, u, s))) = settled h (inl (saved, g saved u, s))
  Status-doc c doc v g (settled h (inr (u, s))) = settled h (inr (g born u, s))
  Status-doc c doc v g (pending job j r h saved u s x n) = pending job j r h saved (g saved u) s x n
  Status-doc c doc v g (stored j r h saved u s) = stored j r h saved (g saved u) s
  Status-doc c doc v g (refused j r h) = refused j r h
