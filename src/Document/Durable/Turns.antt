-- ===== src/Document/Durable/Turns.antt =====
-- The turns of the loop of crates/hocuspocus/src/document.rs keep the document durable.
use hocuspocus_rs.Prelude.{
  ℕ, ◌≡◌, refl, ap, Bool, true, false, Option, some, List, ◌∷◌, Bytes, arith, length, inl, inr,
  Bool-cases,
}
use hocuspocus_rs.Origin.{Origin}
use hocuspocus_rs.Platform.{Platform}
use hocuspocus_rs.Extension.{Extension}
use hocuspocus_rs.Document.State.{DocCommand, Document, is_empty, mark_dirty, store_deadline}
use hocuspocus_rs.Document.Broadcast.{flush_broadcast}
use hocuspocus_rs.Document.Store.{run_store}
use hocuspocus_rs.Document.Actor.{run_commands, on_batch, on_store_result, on_deadline}
use hocuspocus_rs.Document.Core.{core}
use hocuspocus_rs.Document.Handlers.{run_commands_holds}
use hocuspocus_rs.Document.View.{view-flush_broadcast}
use hocuspocus_rs.Document.Invariant.{
  Inv, flushed, core-flush_broadcast, flush_broadcast-Inv, mark_dirty-Inv,
}
use hocuspocus_rs.Document.Reachable.{taken, result_taken}
use hocuspocus_rs.Document.Durable.{IsStore, Status, changed, settled, pending, stored, refused}
use hocuspocus_rs.Document.Durable.Operations.{
  Safe, same_Safe, apply_and_broadcast-Safe, run_store-Safe, maybe_unload-Safe,
}
use hocuspocus_rs.Document.Durable.Tasks.{spawn_store-Safe}

module _ {p : Platform} {view : p.World → Option Bytes} (name : Bytes) (exts : List (Extension p))
    (born : p.Doc) (found : Option Bytes) (s : IsStore p view name exts) where
  abbrev pub Sound : Document p → Type 0
  Sound = Safe name exts born found s

  run_commands-Safe :
      (cs : List (DocCommand p)) (d : Document p) → Sound d → Sound (run_commands cs d).1
  run_commands-Safe =
      run_commands_holds s.keeps Sound (λ d v. rw v.same_exts s.quiet)
        (same_Safe name exts born found s) (apply_and_broadcast-Safe name exts born found s)
        (maybe_unload-Safe name exts born found s)

  -- The flags of a broadcast have no part in what is saved.
  flushed-Status :
      (d : Document p)
      → Status name exts born found (core d) (view d.world)
      → Status name exts born found (core (flushed d)) (view d.world)
  flushed-Status d (changed h) = changed h
  flushed-Status d (settled h i) = settled h i
  flushed-Status d (pending job j r h saved u st x n) = pending job j r h saved u st x n
  flushed-Status d (stored j r h saved u i) = stored j r h saved u i
  flushed-Status d (refused j r h) = refused j r h

  flush_broadcast-Safe : (d : Document p) → Sound d → Sound (flush_broadcast d)
  flush_broadcast-Safe d v =
      let b = flush_broadcast-Inv d v.bookkeeping in
      let e = core-flush_broadcast d v.bookkeeping in
      rw (e, view-flush_broadcast s.keeps d)
        (record {
          bookkeeping = rw e at b;
          same_exts = v.same_exts;
          same_name = v.same_name;
          status = flushed-Status d v.status;
        })

  pub on_batch-Safe :
      (cs : List (DocCommand p)) (d : Document p) → Sound d → Sound (on_batch cs d).1
  unfolding on_batch
  on_batch-Safe cs d v = flush_broadcast-Safe (run_commands cs d).1 (run_commands-Safe cs d v)

  -- A store that has ended well has saved the state, or a change waits for the next one.
  taken-Status :
      (later : List Bool) (d : Document p)
      → d.store_results ≡ true ∷ later
      → Sound d
      → Status name exts born found (core d) (view d.world)
      → Status name exts born found (core (taken later d)) (view d.world)
  taken-Status later d e v (changed h) = changed h
  taken-Status later d e v (settled h i) =
      absurd (ground (arith, v.bookkeeping.one_store, ap length e))
  taken-Status later d e v (pending job j r h saved u st x n) =
      absurd (ground (arith, ap length e, ap length r))
  taken-Status later d e v (stored j r h saved u i) = settled refl (inl (saved, u, i))
  taken-Status later d e v (refused j r h) = absurd (ground (arith, e, r))

  mark_dirty-Safe :
      (o : Origin) (d : Document p)
      → d.extensions ≡ exts
      → d.name ≡ name
      → Inv (core d)
      → Sound (mark_dirty o d)
  unfolding mark_dirty
  mark_dirty-Safe o d e n v = record {
    bookkeeping = mark_dirty-Inv o d v;
    same_exts = e;
    same_name = n;
    status = changed refl;
  }

  pub on_store_result-Safe :
      (done : Bool) (later : List Bool) (d : Document p)
      → d.store_results ≡ done ∷ later
      → Sound d
      → Sound (on_store_result done (record d { store_results = later })).1
  unfolding on_store_result
  on_store_result-Safe true later d e v =
      maybe_unload-Safe name exts born found s (taken later d) (record {
        bookkeeping = result_taken true later d e v.bookkeeping;
        same_exts = v.same_exts;
        same_name = v.same_name;
        status = taken-Status later d e v v.status;
      })
  on_store_result-Safe false later d e v = maybe_unload-Safe name exts born found s _ (
      mark_dirty-Safe d.last_origin (taken later d) v.same_exts v.same_name
        (result_taken false later d e v.bookkeeping))

  pub on_deadline-Safe : (d : Document p) → d.storing ≡ false → Sound d → Sound (on_deadline d).1
  unfolding on_deadline
  on_deadline-Safe d h v = elim (Bool-cases (is_empty d.connections)) [
    | inl e ↦
        rw (e, on_deadline)
          (maybe_unload-Safe name exts born found s (run_store d)
            (run_store-Safe name exts born found s d h v))
    | inr e ↦ rw (e, on_deadline) (spawn_store-Safe name exts born found s d v)
  ]

  pub due_idle : (d : Document p) {at : ℕ} → store_deadline d ≡ some at → d.storing ≡ false
  unfolding store_deadline
  due_idle d h = ground arith
