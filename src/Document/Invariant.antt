-- ===== src/Document/Invariant.antt =====
-- The bookkeeping of crates/hocuspocus/src/document.rs between the turns of the actor's loop.
use hocuspocus_rs.Prelude.{
  ◌+◌, ◌≡◌, refl, ap, true, false, none, some, List, [], ◌∷◌, ◌++◌, Bytes, arith, length,
  length-append, inl, inr, is_some, Bool-cases, Option-cases, if◌then◌else◌,
}
use hocuspocus_rs.Origin.{Origin}
use hocuspocus_rs.Platform.{Platform}
use hocuspocus_rs.Document.State.{StoreJob, Document, mark_dirty, is_empty}
use hocuspocus_rs.Document.Broadcast.{flush_broadcast}
use hocuspocus_rs.Document.Updates.{apply_and_broadcast}
use hocuspocus_rs.Document.Store.{
  run_store_hooks, spawn_store, run_store, finish_job, unload, maybe_unload,
}
use hocuspocus_rs.Document.Core.{Core, core, core-broadcast_with}

module _ {p : Platform} where
  pub record Inv (c : Core p) : Type 0 where
    -- The times of the first and the last change are set exactly while the document is dirty.
    pub first_stamped : is_some c.first_dirty_at ≡ c.dirty
    pub last_stamped : is_some c.last_change_at ≡ c.dirty
    -- A broadcast is pending exactly while the batch has a base.
    pub based : is_some c.broadcast_base ≡ c.broadcast_pending
    -- `storing` counts the store that runs or whose result waits.
    pub one_store : length c.jobs + length c.store_results ≡ (if c.storing then 1 else 0)

  pub mark_dirty-Inv : (o : Origin) (d : Document p) → Inv (core d) → Inv (core (mark_dirty o d))
  unfolding mark_dirty
  mark_dirty-Inv o d v = ground arith

  pub apply_and_broadcast-Inv :
      (bytes : Bytes) (o : Origin) (d : Document p)
      → Inv (core d)
      → Inv (core (apply_and_broadcast bytes o d))
  unfolding apply_and_broadcast mark_dirty
  apply_and_broadcast-Inv bytes o d v = ground arith

  pub spawn_store-Inv : (d : Document p) → Inv (core d) → Inv (core (spawn_store d))
  unfolding spawn_store
  spawn_store-Inv d v = grind (arith, length-append)

  pub run_store-Inv : (d : Document p) → Inv (core d) → Inv (core (run_store d))
  unfolding run_store
  run_store-Inv d v = ground arith

  pub finish_job-Inv :
      (job : StoreJob p) (front back : List (StoreJob p)) (d : Document p)
      → d.jobs ≡ front ++ job ∷ back
      → Inv (core d)
      → Inv (core (finish_job job (record d { jobs = front ++ back })))
  unfolding finish_job
  finish_job-Inv job front back d e v = record {
    first_stamped = v.first_stamped;
    last_stamped = v.last_stamped;
    based = v.based;
    one_store = omega (
      arith,
      v.one_store,
      ap length e,
      length-append front (job ∷ back),
      length-append front back,
      length-append d.store_results
          ((run_store_hooks p job.state job.payload job.extensions d.world).0 ∷ []),
    );
  }

  abbrev pub flushed : Document p → Document p
  flushed d = record d { broadcast_pending = false; broadcast_base = none }

  core-flush_some :
      (d : Document p) (base : p.StateVector)
      → d.broadcast_pending ≡ true
      → d.broadcast_base ≡ some base
      → core (flush_broadcast d) ≡ core (flushed d)
  unfolding flush_broadcast
  core-flush_some d base h e = elim (Bool-cases (is_empty (p.encode_diff d.doc base))) [
    | inl none_new ↦ rw (h, flush_broadcast, e, none_new)
    | inr some_new ↦ rw (h, flush_broadcast, e, some_new) (core-broadcast_with _ (flushed d))
  ]

  -- A flush leaves no broadcast pending, and touches nothing else of the core.
  pub core-flush_broadcast :
      (d : Document p) → Inv (core d) → core (flush_broadcast d) ≡ core (flushed d)
  core-flush_broadcast d v = elim (Bool-cases d.broadcast_pending) [
    | inl h ↦ elim (Option-cases d.broadcast_base) [
      | inl e ↦ unfold flush_broadcast in ground arith
      | inr (base, e) ↦ core-flush_some d base h e
    ]
    | inr h ↦ unfold flush_broadcast in ground (arith, v.based)
  ]

  pub flush_broadcast-Inv : (d : Document p) → Inv (core d) → Inv (core (flush_broadcast d))
  flush_broadcast-Inv d v = rw (core-flush_broadcast d v) (record {
    first_stamped = v.first_stamped;
    last_stamped = v.last_stamped;
    based = refl;
    one_store = v.one_store;
  })

  pub core-unload : (d : Document p) → core (unload d).1 ≡ core d
  unfolding unload
  core-unload d = ground arith

  pub maybe_unload-Inv : (d : Document p) → Inv (core d) → Inv (core (maybe_unload d).1)
  unfolding maybe_unload
  maybe_unload-Inv d v = ground (arith, run_store-Inv d v, core-unload d, core-unload (run_store d))
