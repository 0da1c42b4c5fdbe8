-- ===== src/Database/Reload.antt =====
-- A document that is stored and loaded again: crates/hocuspocus/src/extensions/database.rs under
-- crates/hocuspocus/src/document.rs.
use hocuspocus_rs.Prelude.{
  ◌≡◌, refl, ap, ◌∙◌, true, false, Option, some, [], ◌∷◌, Bytes, arith, ok, inl, inr, Result-cases,
  bytes_eq_iff, length,
}
use hocuspocus_rs.Config.{Configuration}
use hocuspocus_rs.Platform.{Platform}
use hocuspocus_rs.Extension.{DocumentPayload, run_each, run_until_error}
use hocuspocus_rs.Document.State.{Document, document_payload}
use hocuspocus_rs.Document.Store.{full_state, run_store, run_store_hooks}
use hocuspocus_rs.Document.Actor.{load_each, spawn}
use hocuspocus_rs.Database.{
  Storage, database, restore, load_fetched, on_load_document, on_store_document,
}
use hocuspocus_rs.Database.Contract.{IsKeyed}

-- What `yrs` documents of `encode_state_as_update_v1`: the update is decoded, and applied to the
-- empty document `blank` it gives a document with the same state.
pub record IsReplayable (p : Platform) (blank : p.Doc) : Type 0 where
  pub replay : p.Doc → p.Update
  pub decoded :
      (doc : p.Doc)
      → p.decode_update (p.encode_state_as_update doc p.empty_state_vector) ≡ ok (replay doc)
  pub applied : (doc : p.Doc) → (p.apply_update blank [] (replay doc)).result ≡ ok tt
  pub same :
      (doc : p.Doc)
      → p.encode_state_as_update (p.apply_update blank [] (replay doc)).doc p.empty_state_vector
        ≡ p.encode_state_as_update doc p.empty_state_vector

module _ {p : Platform} (s : Storage p) {contents : p.World → Bytes → Option Bytes}
    (k : IsKeyed s contents) where
  -- A store of `database` that succeeds has put the state under the document's name.
  pub hooks_saved :
      (state : Bytes) (payload : DocumentPayload) (w : p.World)
      → (run_store_hooks p state payload (database s ∷ []) w).0 ≡ true
      → contents (run_store_hooks p state payload (database s ∷ []) w).1 payload.document_name
        ≡ some state
  unfolding run_store_hooks run_until_error run_each on_store_document
  hooks_saved state payload w e = elim (Result-cases (s.store payload.document_name state w).0) [
    | inl (_, e') ↦ ground (
      arith,
      k.stored payload.document_name payload.document_name state w e',
      bytes_eq_iff payload.document_name payload.document_name,
    )
    | inr (_, e') ↦ absurd (cc (rw (run_store_hooks, e') at e))
  ]

  run_store-saves :
      (d : Document p)
      → d.extensions ≡ database s ∷ []
      → d.dirty ≡ true
      → (run_store d).dirty ≡ false
      → contents (run_store d).world d.name ≡ some (full_state d)
  unfolding run_store
  run_store-saves d e1 e2 e3 =
      let payload = document_payload d (length d.connections) in
      ground (
        arith,
        hooks_saved (full_state d) payload d.world,
        ap (λ exts. run_store_hooks p (full_state d) payload exts d.world) e1,
      )

  pub load-replays :
      (name : Bytes) (doc blank : p.Doc) (w : p.World) (r : IsReplayable p blank)
      {found : Option Bytes}
      → contents w name ≡ some (p.encode_state_as_update doc p.empty_state_vector)
      → (s.fetch name w).0 ≡ ok found
      → (on_load_document s blank (record { document_name = name; clients_count = 0 }) w).doc
        ≡ (p.apply_update blank [] (r.replay doc)).doc
  unfolding on_load_document load_fetched restore
  load-replays name doc blank w r e f =
      rw (f, k.fetched name w f, e, load_fetched, r.decoded doc) refl

  -- A document that `database` has stored comes back with the same state when it is spawned again
  -- on an empty document, in a world where its name holds what that store has put and can be read.
  pub spawn-run_store :
      (d : Document p) (config : Configuration) (blank : p.Doc) (w : p.World) (found : Option Bytes)
      → IsReplayable p blank
      → d.extensions ≡ database s ∷ []
      → d.dirty ≡ true
      → (run_store d).dirty ≡ false
      → contents w d.name ≡ contents (run_store d).world d.name
      → (s.fetch d.name w).0 ≡ ok found
      → full_state (spawn p d.name config (database s ∷ []) blank w) ≡ full_state d
  unfolding spawn load_each
  spawn-run_store d config blank w found r e1 e2 e3 same f =
      rw (load-replays d.name d.doc blank w r (same ∙ run_store-saves d e1 e2 e3) f) (r.same d.doc)
