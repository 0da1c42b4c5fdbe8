-- ===== src/Document/Durable/Clean.antt =====
-- What a clean document means in every state that the loop of crates/hocuspocus/src/document.rs
-- reaches, while nothing else writes to its place in the storage.
use hocuspocus_rs.Prelude.{◌≡◌, refl, ◌⊎◌, Bool, false, Option, some, List, Bytes, arith, inr}
use hocuspocus_rs.Config.{Configuration}
use hocuspocus_rs.Yrs.Unnoticed.{Unnoticed}
use hocuspocus_rs.Platform.{Platform}
use hocuspocus_rs.Extension.{Extension}
use hocuspocus_rs.Document.State.{Document}
use hocuspocus_rs.Document.Actor.{
  spawn, Step, batch, job_done, store_result, deadline, mailbox_closed, beside,
}
use hocuspocus_rs.Document.Core.{core}
use hocuspocus_rs.Document.Reachable.{spawn-Inv}
use hocuspocus_rs.Document.Durable.{
  IsStore, IsSaved, Status, changed, settled, pending, stored, refused,
}
use hocuspocus_rs.Document.Durable.Operations.{Safe, same_Safe}
use hocuspocus_rs.Document.Durable.Tasks.{finish_job-Safe}
use hocuspocus_rs.Document.Durable.Turns.{
  on_batch-Safe, on_store_result-Safe, on_deadline-Safe, due_idle,
}

-- The rest of the process leaves alone what `view` shows.
abbrev pub Apart :
    {p : Platform} (view : p.World → Option Bytes) {d : Document p} {r : Bool × Document p}
    → Step d r
    → Type 0
Apart view {d} (beside w) = view w ≡ view d.world
Apart view _ = Unit

-- What the loop comes to from `d`, up to the turn that ends it, while the rest of the process keeps
-- apart.
pub data Runs {p : Platform} (view : p.World → Option Bytes) (d : Document p)
    : Bool × Document p → Type 0 where
  begun : Runs view d (false, d)
  turn :
      {r r' : Bool × Document p}
      → Runs view d r
      → r.0 ≡ false
      → (m : Step r.1 r') → Apart view m
      → Runs view d r'

module _ {p : Platform} {view : p.World → Option Bytes} (name : Bytes) (exts : List (Extension p))
    (born : p.Doc) (found : Option Bytes) (s : IsStore p view name exts) where
  Step-Safe :
      {d : Document p} {r : Bool × Document p} (m : Step d r)
      → Apart view m
      → Safe name exts born found s d
      → Safe name exts born found s r.1
  Step-Safe {d} (batch cs _ _) a v = on_batch-Safe name exts born found s cs d v
  Step-Safe {d} (job_done front back job e q) a v =
      rw q (finish_job-Safe name exts born found s job front back d e v)
  Step-Safe {d} (store_result done later e q) a v =
      rw q (on_store_result-Safe name exts born found s done later d e v)
  Step-Safe {d} (deadline at e _) a v =
      on_deadline-Safe name exts born found s _ (due_idle name exts born found s d e) (
        same_Safe name exts born found s d (record d { world = (p.now d.world).1 }) refl
          (s.keeps.now d.world) v)
  Step-Safe mailbox_closed a v = v
  Step-Safe {d} (beside w) a v =
      same_Safe name exts born found s d (record d { world = w }) refl a v

  Runs-Safe :
      {d : Document p} {r : Bool × Document p}
      → Safe name exts born found s d
      → Runs view d r
      → Safe name exts born found s r.1
  Runs-Safe v begun = v
  Runs-Safe v (turn r _ m a) = Step-Safe m a (Runs-Safe v r)

module _ {p : Platform} {view : p.World → Option Bytes} (name : Bytes) (config : Configuration)
    (exts : List (Extension p)) (doc : p.Doc) (w : p.World) where
  spawn-Safe :
      (s : IsStore p view name exts)
      → let d = spawn p name config exts doc w in Safe name exts d.doc (view d.world) s d
  unfolding spawn
  spawn-Safe s = record {
    bookkeeping = spawn-Inv p name config exts doc w;
    same_exts = refl;
    same_name = refl;
    status = settled refl (inr (Unnoticed.same, refl));
  }

  IsSaved-clean :
      (s : IsStore p view name exts) (d : Document p) (b : p.Doc) (f : Option Bytes)
      → Safe name exts b f s d
      → Status name exts b f (core d) (view d.world)
      → d.dirty ≡ false
      → d.storing ≡ false
      → IsSaved name exts b f (core d) (view d.world)
  IsSaved-clean s d b f v (changed h) tidy idle = absurd (ground arith)
  IsSaved-clean s d b f v (settled h i) tidy idle = i
  IsSaved-clean s d b f v (pending job j r h saved u st x n) tidy idle = absurd (ground arith)
  IsSaved-clean s d b f v (stored j r h saved u i) tidy idle = absurd (ground arith)
  IsSaved-clean s d b f v (refused j r h) tidy idle = absurd (ground arith)

  -- A clean document with no store under way is saved, but for updates that went unnoticed: in every
  -- state that the loop comes to from `spawn`, and in the one in which it ends, the storage holds the
  -- whole state of a document, or what it held at the start, and the document has come from that one,
  -- or from the one at the start, by updates alone that `yrs` refused or found no change in. The rest
  -- of the process and the hooks other than those of a store leave the document's place in the
  -- storage alone, and store hooks that all succeed put the state there.
  pub clean_saved :
      IsStore p view name exts
      → {r : Bool × Document p} → Runs view (spawn p name config exts doc w) r
      → r.1.dirty ≡ false
      → r.1.storing ≡ false
      → let d = spawn p name config exts doc w in
        ((saved : p.Doc) × Unnoticed p.yrs saved r.1.doc
          × (view r.1.world ≡ some (p.encode_state_as_update saved p.empty_state_vector)))
        ⊎ (Unnoticed p.yrs d.doc r.1.doc × (view r.1.world ≡ view d.world))
  clean_saved s {r} m tidy idle =
      let d = spawn p name config exts doc w in
      let v = Runs-Safe name exts d.doc (view d.world) s (spawn-Safe s) m in
      IsSaved-clean s r.1 d.doc (view d.world) v v.status tidy idle
