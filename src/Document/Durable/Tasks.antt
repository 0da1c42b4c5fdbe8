-- ===== src/Document/Durable/Tasks.antt =====
-- The start and the end of the store task of crates/hocuspocus/src/document.rs keep the document durable.
use hocuspocus_rs.Prelude.{
  ◌+◌, ◌≡◌, refl, sym, ap, ◌∙◌, true, false, not, ◌||◌, Option, some, List, [], ◌∷◌, ◌++◌, Bytes,
  arith, length, length-append, inl, inr, Bool-cases,
}
use hocuspocus_rs.Yrs.Unnoticed.{Unnoticed}
use hocuspocus_rs.Platform.{Platform}
use hocuspocus_rs.Extension.{Extension}
use hocuspocus_rs.Document.State.{StoreJob, Document, document_payload}
use hocuspocus_rs.Document.Store.{run_store_hooks, full_state, spawn_store, finish_job}
use hocuspocus_rs.Document.Core.{core}
use hocuspocus_rs.Document.Invariant.{spawn_store-Inv, finish_job-Inv}
use hocuspocus_rs.Document.Durable.{
  state_of, IsStore, empty_of_length, only_element, Status, changed, settled, pending, stored,
  refused,
}
use hocuspocus_rs.Document.Durable.Operations.{Safe, stored_in}

module _ {p : Platform} {view : p.World → Option Bytes} (name : Bytes) (exts : List (Extension p))
    (born : p.Doc) (found : Option Bytes) (s : IsStore p view name exts) where
  abbrev Sound : Document p → Type 0
  Sound = Safe name exts born found s

  none_under_way :
      (d : Document p) → d.storing ≡ false → Sound d → (d.jobs ≡ []) × (d.store_results ≡ [])
  none_under_way d h v =
      let n : length d.jobs + length d.store_results ≡ 0 =
        ground (arith, v.bookkeeping.one_store) in
      (
        empty_of_length d.jobs (omega (arith, n)),
        empty_of_length d.store_results (omega (arith, n)),
      )

  abbrev job_of : Document p → StoreJob p
  job_of d = record {
    state = full_state d;
    extensions = d.extensions;
    payload = document_payload d (length d.connections);
  }

  spawn_store-idle : (d : Document p) → (not d.dirty || d.storing) ≡ true → spawn_store d ≡ d
  unfolding spawn_store
  spawn_store-idle d h = ground arith

  pub spawn_store-Safe : (d : Document p) → Sound d → Sound (spawn_store d)
  unfolding spawn_store
  spawn_store-Safe d v =
      let b = spawn_store-Inv d v.bookkeeping in
      elim (Bool-cases (not d.dirty || d.storing)) [
        | inl e ↦ rw (spawn_store-idle d e) v
        | inr e ↦
            let idle : d.storing ≡ false = ground arith in
            let (no_jobs, no_results) = none_under_way d idle v in
            rw (e, spawn_store)
              (record {
                bookkeeping = rw (e, spawn_store) at b;
                same_exts = v.same_exts;
                same_name = v.same_name;
                status =
                    pending (job_of d) (rw no_jobs refl) no_results refl d.doc Unnoticed.same refl
                      v.same_exts v.same_name;
              })
      ]

  -- The end of the task of a store.
  finished :
      (job : StoreJob p) (d : Document p) (saved : p.Doc)
      → Unnoticed p.yrs saved d.doc
      → d.jobs ≡ []
      → d.store_results ≡ []
      → d.storing ≡ true
      → job.state ≡ state_of p saved
      → job.extensions ≡ exts
      → job.payload.document_name ≡ name
      → Status name exts born found (core (finish_job job d)) (view (finish_job job d).world)
  unfolding finish_job
  finished job d saved u j r h st x n =
      elim (Bool-cases (run_store_hooks p job.state job.payload job.extensions d.world).0) [
        | inl good ↦ stored j (rw (r, good) refl) h saved u (
            stored_in name exts born found s job.state job.payload job.extensions d.world x n good
            ∙ ap some st)
        | inr bad ↦ refused j (rw (r, bad) refl) h
      ]

  finish_job-Status :
      (job : StoreJob p) (front back : List (StoreJob p)) (d : Document p)
      → d.jobs ≡ front ++ job ∷ back
      → Sound d
      → Status name exts born found (core d) (view d.world)
      → let d' = finish_job job (record d { jobs = front ++ back }) in
        Status name exts born found (core d') (view d'.world)
  finish_job-Status job front back d e v (changed h) = unfold finish_job in changed h
  finish_job-Status job front back d e v (settled h _) = absurd (
      omega (
        arith,
        ap length ((none_under_way d h v).0),
        ap length e,
        length-append front (job ∷ back),
      ))
  finish_job-Status job front back d e v (pending job' j r h saved u st x n) =
      let (f, b, q) = only_element front back job job' (sym e ∙ j) in
      finished job (record d { jobs = front ++ back }) saved u (rw (f, b) refl) r h (rw q st)
        (rw q x) (rw q n)
  finish_job-Status job front back d e v (stored j r h saved u i) =
      absurd (omega (arith, ap length j, ap length e, length-append front (job ∷ back)))
  finish_job-Status job front back d e v (refused j r h) =
      absurd (omega (arith, ap length j, ap length e, length-append front (job ∷ back)))

  pub finish_job-Safe :
      (job : StoreJob p) (front back : List (StoreJob p)) (d : Document p)
      → d.jobs ≡ front ++ job ∷ back
      → Sound d
      → Sound (finish_job job (record d { jobs = front ++ back }))
  unfolding finish_job
  finish_job-Safe job front back d e v = record {
    bookkeeping = finish_job-Inv job front back d e v.bookkeeping;
    same_exts = v.same_exts;
    same_name = v.same_name;
    status = finish_job-Status job front back d e v v.status;
  }
