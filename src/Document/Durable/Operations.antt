-- ===== src/Document/Durable/Operations.antt =====
-- The operations of the actor of crates/hocuspocus/src/document.rs keep the document durable.
use hocuspocus_rs.Prelude.{
  ◌≡◌, refl, ◌∙◌, ◌⊎◌, true, false, not, ◌&&◌, Option, none, some, List, [], ◌∷◌, Bytes, arith,
  length, inl, inr, Bool-cases, Result-cases,
}
use hocuspocus_rs.Origin.{Origin, encode}
use hocuspocus_rs.Yrs.Unnoticed.{Unnoticed}
use hocuspocus_rs.Platform.{Platform}
use hocuspocus_rs.Extension.{Extension, DocumentPayload}
use hocuspocus_rs.Document.State.{Document, is_empty, mark_dirty, document_payload}
use hocuspocus_rs.Document.Updates.{note_change, apply_and_broadcast}
use hocuspocus_rs.Document.Store.{run_store_hooks, full_state, run_store, unload, maybe_unload}
use hocuspocus_rs.Document.Core.{core}
use hocuspocus_rs.Document.Quiet.{view-unload}
use hocuspocus_rs.Document.Invariant.{Inv, apply_and_broadcast-Inv, run_store-Inv, core-unload}
use hocuspocus_rs.Document.Durable.{IsStore, changed, settled, Durable, Status-doc}

pub nil_of_empty {ℓ} : {A : Type ℓ} (xs : List A) → is_empty xs ≡ true → xs ≡ []
nil_of_empty [] h = refl
nil_of_empty (x ∷ xs) h = cc

module _ {p : Platform} {view : p.World → Option Bytes} (name : Bytes) (exts : List (Extension p))
    (born : p.Doc) (found : Option Bytes) (s : IsStore p view name exts) where
  -- What is durable of a document: its core, and what the storage holds.
  abbrev pub Safe : Document p → Type 0
  Safe d = Durable name exts born found (core d) (view d.world)

  -- An operation that leaves the core and the storage alone leaves the document durable.
  pub same_Safe :
      (d d' : Document p) → core d' ≡ core d → view d'.world ≡ view d.world → Safe d → Safe d'
  same_Safe d d' e f v = rw (e, f) v

  note_change-core :
      (base : Option p.StateVector) (change : Bytes) (o : Origin) (d : Document p)
      → let d' = note_change base change o d in
        (d'.extensions ≡ d.extensions) × (d'.name ≡ d.name) × (d'.dirty ≡ true)
  unfolding note_change mark_dirty
  note_change-core none change o d = (refl, refl, refl)
  note_change-core (some b) change o d = (refl, refl, refl)

  note_change-Durable :
      (base : Option p.StateVector) (change : Bytes) (o : Origin) (d : Document p)
      → d.extensions ≡ exts
      → d.name ≡ name
      → Inv (core (note_change base change o d))
      → Safe (note_change base change o d)
  note_change-Durable base change o d e n v =
      let (x, m, y) = note_change-core base change o d in
      record { bookkeeping = v; same_exts = x ∙ e; same_name = m ∙ n; status = changed y }

  new_doc-Safe :
      (doc : p.Doc) (d : Document p)
      → ((a : p.Doc) → Unnoticed p.yrs a d.doc → Unnoticed p.yrs a doc)
      → Safe d
      → Safe (record d { doc = doc })
  new_doc-Safe doc d g v = record {
    bookkeeping = record {
      first_stamped = v.bookkeeping.first_stamped;
      last_stamped = v.bookkeeping.last_stamped;
      based = v.bookkeeping.based;
      one_store = v.bookkeeping.one_store;
    };
    same_exts = v.same_exts;
    same_name = v.same_name;
    status = Status-doc name exts born found (core d) doc (view d.world) g v.status;
  }

  pub apply_and_broadcast-Safe :
      (bytes : Bytes) (o : Origin) (d : Document p) → Safe d → Safe (apply_and_broadcast bytes o d)
  unfolding apply_and_broadcast
  apply_and_broadcast-Safe bytes o d v = elim (Result-cases (p.decode_update bytes)) [
    | inr (_, e) ↦ rw (e, apply_and_broadcast) v
    | inl (u, e) ↦
        let applied = p.apply_update d.doc (encode o) u in
        let b = apply_and_broadcast-Inv bytes o d v.bookkeeping in
        elim (Result-cases applied.result) [
          | inr (why, e') ↦
              rw (e, apply_and_broadcast, e')
                (new_doc-Safe applied.doc d (λ a n. Unnoticed.refused n (encode o) u why e') v)
          | inl (_, e') ↦ elim (Bool-cases (is_empty applied.change)) [
            | inl e'' ↦
                rw (e, apply_and_broadcast, e', e'')
                  (new_doc-Safe applied.doc d
                    (λ a n. Unnoticed.unchanged n (encode o) u (nil_of_empty applied.change e'')) v)
            | inr e'' ↦
                rw (e, apply_and_broadcast, e', e'')
                  (note_change-Durable _ applied.change o _ v.same_exts v.same_name
                    (rw (e, apply_and_broadcast, e', e'') at b))
          ]
        ]
  ]

  pub stored_in :
      (st : Bytes) (payload : DocumentPayload) (es : List (Extension p)) (w : p.World)
      → es ≡ exts
      → payload.document_name ≡ name
      → (run_store_hooks p st payload es w).0 ≡ true
      → view (run_store_hooks p st payload es w).1 ≡ some st
  stored_in st payload es w e n h = rw e (s.puts st payload w n (rw e at h))

  run_store-clean : (d : Document p) → d.dirty ≡ false → run_store d ≡ d
  unfolding run_store
  run_store-clean d h = ground arith

  pub run_store-Safe : (d : Document p) → d.storing ≡ false → Safe d → Safe (run_store d)
  unfolding run_store
  run_store-Safe d h v =
      let payload = document_payload d (length d.connections) in
      let b = run_store-Inv d v.bookkeeping in
      elim (Bool-cases d.dirty) [
        | inr tidy ↦ rw (run_store-clean d tidy) v
        | inl dirty ↦
            elim (Bool-cases (run_store_hooks p (full_state d) payload d.extensions d.world).0) [
              | inl good ↦
                  rw (dirty, run_store, good)
                    (record {
                      bookkeeping = rw (dirty, run_store, good) at b;
                      same_exts = v.same_exts;
                      same_name = v.same_name;
                      status = settled h (
                          inl (
                            d.doc,
                            Unnoticed.same,
                            stored_in (full_state d) payload d.extensions d.world v.same_exts
                                v.same_name good,
                          ));
                    })
              | inr bad ↦
                  rw (dirty, run_store, bad)
                    (record {
                      bookkeeping = rw (dirty, run_store, bad) at b;
                      same_exts = v.same_exts;
                      same_name = v.same_name;
                      status = changed refl;
                    })
            ]
      ]

  unload-Safe : (d : Document p) → Safe d → Safe (unload d).1
  unload-Safe d v =
      same_Safe d (unload d).1 (core-unload d) (view-unload s.keeps d (rw v.same_exts s.quiet)) v

  -- The actor stays as it is, or it goes on to unload with no store under way.
  maybe_unload-cases :
      (d : Document p)
      → ((maybe_unload d).1 ≡ d)
        ⊎ ((d.storing ≡ false) × ((maybe_unload d).1 ≡ (unload (run_store d)).1))
  unfolding maybe_unload
  maybe_unload-cases d = elim (Bool-cases (is_empty d.connections)) [
    | inr e ↦ inl (ground arith)
    | inl e ↦ elim (Bool-cases d.storing) [
      | inl e' ↦ inl (ground arith)
      | inr e' ↦ elim (Bool-cases (not d.config.unload_immediately && d.dirty)) [
        | inl e'' ↦ inl (ground arith)
        | inr e'' ↦ elim (Bool-cases d.dirty) [
          | inl f ↦ inr (e', ground arith)
          | inr f ↦ inr (e', ground (arith, run_store-clean d f))
        ]
      ]
    ]
  ]

  pub maybe_unload-Safe : (d : Document p) → Safe d → Safe (maybe_unload d).1
  maybe_unload-Safe d v = elim (maybe_unload-cases d) [
    | inl stays ↦ rw stays v
    | inr (idle, leaves) ↦ rw leaves (unload-Safe (run_store d) (run_store-Safe d idle v))
  ]
