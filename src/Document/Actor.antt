-- ===== src/Document/Actor.antt =====
-- The life of the actor of crates/hocuspocus/src/document.rs: `Document::spawn`, and the loop of `run`
-- as steps. A step is one turn of the loop, or the end of a store task that runs beside it.
use hocuspocus_rs.Prelude.{
  ℕ, ◌≤◌, ◌≡◌, Bool, true, false, none, some, List, [], ◌∷◌, ◌++◌, Bytes, length, if◌then◌else◌,
}
use hocuspocus_rs.Config.{Configuration}
use hocuspocus_rs.Origin.{local}
use hocuspocus_rs.Platform.{Platform}
use hocuspocus_rs.Extension.{Extension, DocumentPayload, Loaded}
use hocuspocus_rs.Document.State.{
  DocCommand, StoreJob, Document, max_coalesce_batch, is_empty, store_deadline, mark_dirty,
}
use hocuspocus_rs.Document.Broadcast.{flush_broadcast}
use hocuspocus_rs.Document.Commands.{handle_command}
use hocuspocus_rs.Document.Store.{spawn_store, run_store, finish_job, maybe_unload}

module _ (p : Platform) where
  -- One round of load hooks over the new document; errors are only logged.
  unfoldable pub load_each :
      (Extension p → p.Doc → p.World → Loaded p)
      → List (Extension p)
      → p.Doc
      → p.World
      → p.Doc × p.World
  load_each hook [] doc w = (doc, w)
  load_each hook (ext ∷ exts) doc w = let r = hook ext doc w in load_each hook exts r.doc r.world

  -- `Document::spawn`, with the new document `doc` of `Doc::with_options`.
  unfoldable pub spawn : Bytes → Configuration → List (Extension p) → p.Doc → p.World → Document p
  spawn name config exts doc w =
      let payload : DocumentPayload = record { document_name = name; clients_count = 0 } in
      let (loaded, w') = load_each (λ ext doc. ext.on_load_document doc payload) exts doc w in
      let (ready, w'') =
        load_each (λ ext doc. ext.after_load_document doc payload) exts loaded w' in
      record {
        name = name;
        doc = ready;
        awareness = p.new_awareness;
        connections = [];
        config = config;
        extensions = exts;
        dirty = false;
        first_dirty_at = none;
        last_change_at = none;
        last_origin = local;
        storing = false;
        jobs = [];
        store_results = [];
        broadcast_base = none;
        broadcast_pending = false;
        world = w'';
      }

module _ {p : Platform} where
  -- `for c in batch { if self.handle_command(c).await { exit = true; break; } }`
  unfoldable pub run_commands : List (DocCommand p) → Document p → Bool × Document p
  run_commands [] d = (false, d)
  run_commands (c ∷ cs) d =
      let (exit, d') = handle_command c d in
      let rest = run_commands cs d' in if exit then (true, d') else rest

  -- The branch of `run` that a command wakes. The result says whether the loop ends.
  unfoldable pub on_batch : List (DocCommand p) → Document p → Bool × Document p
  on_batch batch d = let (exit, d') = run_commands batch d in (exit, flush_broadcast d')

  -- The branch that a store result wakes.
  unfoldable pub on_store_result : Bool → Document p → Bool × Document p
  on_store_result done d =
      let d' = record d { storing = false } in
      maybe_unload (if done then d' else mark_dirty d'.last_origin d')

  -- The branch that the store deadline wakes.
  unfoldable pub on_deadline : Document p → Bool × Document p
  on_deadline d =
      if is_empty d.connections then maybe_unload (run_store d) else (false, spawn_store d)

  -- One turn of the loop from `d`: whether the loop ends, and the state behind it. `beside` is the
  -- rest of the process, which may change the world between turns. `mailbox_closed` is the branch
  -- for which `recv` answers `None`, when no sender is left.
  pub data Step (d : Document p) : Bool × Document p → Type 0 where
    batch :
        (cs : List (DocCommand p))
        → is_empty cs ≡ false
        → length cs ≤ max_coalesce_batch
        → Step d (on_batch cs d)
    job_done :
        (front back : List (StoreJob p)) (job : StoreJob p) {r : Bool × Document p}
        → d.jobs ≡ front ++ job ∷ back
        → r ≡ (false, finish_job job (record d { jobs = front ++ back }))
        → Step d r
    store_result :
        (done : Bool) (later : List Bool) {r : Bool × Document p}
        → d.store_results ≡ done ∷ later
        → r ≡ on_store_result done (record d { store_results = later })
        → Step d r
    deadline :
        (at : ℕ)
        → store_deadline d ≡ some at
        → at ≤ (p.now d.world).0
        → Step d (on_deadline (record d { world = (p.now d.world).1 }))
    mailbox_closed : Step d (true, d)
    beside : (w : p.World) → Step d (false, record d { world = w })

  -- The states of the actor that starts as `s` and has not left its loop.
  pub data Reach (s : Document p) : Document p → Type 0 where
    start : Reach s s
    next :
        {d : Document p} {r : Bool × Document p} → Reach s d → Step d r → r.0 ≡ false → Reach s r.1
