-- ===== src/Document/Reachable.antt =====
-- What holds in every state that the loop of crates/hocuspocus/src/document.rs reaches.
use hocuspocus_rs.Prelude.{
  ℕ, ◌+◌, ◌≤◌, ◌≡◌, refl, ap, Bool, true, false, some, List, ◌∷◌, Bytes, arith, length, min, inl,
  inr, Bool-cases, Option-cases, if◌then◌else◌,
}
use hocuspocus_rs.Config.{Configuration}
use hocuspocus_rs.Extension.{Extension}
use hocuspocus_rs.Platform.{Platform}
use hocuspocus_rs.Document.State.{DocCommand, Document, store_deadline, mark_dirty, is_empty}
use hocuspocus_rs.Document.Store.{run_store}
use hocuspocus_rs.Document.Actor.{
  spawn, run_commands, on_batch, on_store_result, on_deadline, Step, batch, job_done, store_result,
  deadline, mailbox_closed, beside, Reach, start, next,
}
use hocuspocus_rs.Document.Core.{core}
use hocuspocus_rs.Document.Invariant.{
  Inv, apply_and_broadcast-Inv, mark_dirty-Inv, spawn_store-Inv, run_store-Inv, finish_job-Inv,
  maybe_unload-Inv, flush_broadcast-Inv,
}
use hocuspocus_rs.Document.Handlers.{run_commands_keeps}

module _ {p : Platform} where
  pub run_commands-Inv :
      (cs : List (DocCommand p)) (d : Document p) → Inv (core d) → Inv (core (run_commands cs d).1)
  run_commands-Inv = run_commands_keeps Inv apply_and_broadcast-Inv maybe_unload-Inv

  on_batch-Inv :
      (cs : List (DocCommand p)) (d : Document p) → Inv (core d) → Inv (core (on_batch cs d).1)
  unfolding on_batch
  on_batch-Inv cs d v = flush_broadcast-Inv (run_commands cs d).1 (run_commands-Inv cs d v)

  abbrev pub taken : List Bool → Document p → Document p
  taken later d = record d { storing = false; store_results = later }

  pub result_taken :
      (done : Bool) (later : List Bool) (d : Document p)
      → d.store_results ≡ done ∷ later
      → Inv (core d)
      → Inv (core (taken later d))
  result_taken done later d e v = record {
    first_stamped = v.first_stamped;
    last_stamped = v.last_stamped;
    based = v.based;
    one_store = ground (arith, v.one_store, ap length e);
  }

  on_store_result-Inv :
      (done : Bool) (later : List Bool) (d : Document p)
      → d.store_results ≡ done ∷ later
      → Inv (core d)
      → Inv (core (on_store_result done (record d { store_results = later })).1)
  unfolding on_store_result
  on_store_result-Inv true later d e v =
      maybe_unload-Inv (taken later d) (result_taken true later d e v)
  on_store_result-Inv false later d e v =
      maybe_unload-Inv (mark_dirty d.last_origin (taken later d))
        (mark_dirty-Inv d.last_origin (taken later d) (result_taken false later d e v))

  pub on_deadline-Inv : (d : Document p) → Inv (core d) → Inv (core (on_deadline d).1)
  unfolding on_deadline
  on_deadline-Inv d v = elim (Bool-cases (is_empty d.connections)) [
    | inl e ↦ rw (e, on_deadline) (maybe_unload-Inv (run_store d) (run_store-Inv d v))
    | inr e ↦ rw (e, on_deadline) (spawn_store-Inv d v)
  ]

  -- Every turn keeps the bookkeeping, also the turn that ends the loop.
  pub Step-Inv : {d : Document p} {r : Bool × Document p} → Step d r → Inv (core d) → Inv (core r.1)
  Step-Inv {d} (batch cs _ _) v = on_batch-Inv cs d v
  Step-Inv {d} (job_done front back job e q) v = rw q (finish_job-Inv job front back d e v)
  Step-Inv {d} (store_result done later e q) v = rw q (on_store_result-Inv done later d e v)
  Step-Inv {d} (deadline at _ _) v = on_deadline-Inv (record d { world = (p.now d.world).1 }) v
  Step-Inv mailbox_closed v = v
  Step-Inv (beside w) v = v

  pub Reach-Inv : {s d : Document p} → Inv (core s) → Reach s d → Inv (core d)
  Reach-Inv v start = v
  Reach-Inv v (next r st _) = Step-Inv st (Reach-Inv v r)

module _ (p : Platform) where
  pub spawn-Inv :
      (name : Bytes) (config : Configuration) (exts : List (Extension p)) (doc : p.Doc)
      (w : p.World)
      → Inv (core (spawn p name config exts doc w))
  unfolding spawn
  spawn-Inv name config exts doc w = record {
    first_stamped = refl;
    last_stamped = refl;
    based = refl;
    one_store = omega arith;
  }

module _ {p : Platform} (name : Bytes) (config : Configuration) (exts : List (Extension p))
    (doc : p.Doc) (w : p.World) {d : Document p}
    (r : Reach (spawn p name config exts doc w) d) where
  invariant : Inv (core d)
  invariant = Reach-Inv (spawn-Inv p name config exts doc w) r

  -- In every state that the loop reaches from `spawn`, one store runs or has a result that waits
  -- while `storing` is on, and none while it is off.
  pub one_store : length d.jobs + length d.store_results ≡ (if d.storing then 1 else 0)
  one_store = invariant.one_store

  dirty_has_deadline :
      d.dirty ≡ true
      → d.storing ≡ false
      → (at first last : ℕ) × (store_deadline d ≡ some at)
        × (d.first_dirty_at ≡ some first)
        × (d.last_change_at ≡ some last)
        × (at ≤ last + d.config.debounce)
        × (at ≤ first + d.config.max_debounce)
  unfolding store_deadline
  dirty_has_deadline h k = elim (Option-cases d.first_dirty_at) [
    | inl e ↦ absurd (ground (arith, invariant.first_stamped))
    | inr (first, e) ↦ elim (Option-cases d.last_change_at) [
      | inl e' ↦ absurd (ground (arith, invariant.last_stamped))
      | inr (last, e') ↦ (
        min (last + d.config.debounce) (first + d.config.max_debounce),
        first,
        last,
        ground arith,
        e,
        e',
        omega arith,
        omega arith,
      )
    ]
  ]
