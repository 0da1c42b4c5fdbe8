-- ===== src/Document/Resident.antt =====
-- When the actor of crates/hocuspocus/src/document.rs stays in memory although nobody needs it.
use hocuspocus_rs.Prelude.{
  ℕ, ◌≡◌, refl, ap, Bool, false, List, [], ◌∷◌, Bytes, arith, length, length-append, err,
}
use hocuspocus_rs.Config.{Configuration}
use hocuspocus_rs.Origin.{local}
use hocuspocus_rs.Platform.{Platform}
use hocuspocus_rs.Extension.{Extension}
use hocuspocus_rs.Document.State.{DocCommand, Document, store_deadline}
use hocuspocus_rs.Document.Broadcast.{flush_broadcast}
use hocuspocus_rs.Document.Updates.{apply_and_broadcast}
use hocuspocus_rs.Document.Commands.{handle_command}
use hocuspocus_rs.Document.Actor.{
  spawn, run_commands, on_batch, Step, batch, job_done, store_result, deadline, mailbox_closed,
  beside,
}

module _ {p : Platform} where
  -- A turn for which no command has to arrive and no mailbox to close.
  abbrev pub IsOwn : {d : Document p} {r : Bool × Document p} → Step d r → Type 0
  IsOwn (batch _ _ _) = ⊥
  IsOwn mailbox_closed = ⊥
  IsOwn _ = Unit

  -- What the actor comes to by such turns, while its loop goes on.
  pub data Waits (d : Document p) : Document p → Type 0 where
    still : Waits d d
    after :
        {d' : Document p} {r : Bool × Document p}
        → Waits d d'
        → (m : Step d' r) → IsOwn m
        → r.0 ≡ false
        → Waits d r.1

  -- Nothing to store, and nobody connected.
  record IsForgotten (d : Document p) : Type 0 where
    clean : d.dirty ≡ false
    no_jobs : d.jobs ≡ []
    no_results : d.store_results ≡ []
    nobody : d.connections ≡ []

  own_turn :
      {d : Document p} {r : Bool × Document p} (m : Step d r)
      → IsOwn m
      → IsForgotten d
      → (r.0 ≡ false) × IsForgotten r.1
  unfolding store_deadline
  own_turn (batch _ _ _) own f = absurd own
  own_turn {d} (job_done front back job e q) own f =
      absurd (omega (arith, ap length f.no_jobs, ap length e, length-append front (job ∷ back)))
  own_turn {d} (store_result done later e q) own f =
      absurd (ground (arith, ap length e, ap length f.no_results))
  own_turn (deadline at e _) own f = absurd (ground (arith, f.clean))
  own_turn mailbox_closed own f = absurd own
  own_turn (beside w) own f = (
    refl,
    record { clean = f.clean; no_jobs = f.no_jobs; no_results = f.no_results; nobody = f.nobody },
  )

  Waits-IsForgotten : {d d' : Document p} → Waits d d' → IsForgotten d → IsForgotten d'
  Waits-IsForgotten still f = f
  Waits-IsForgotten (after m st own _) f = (own_turn st own (Waits-IsForgotten m f)).1

module _ (p : Platform) (name : Bytes) (config : Configuration) (exts : List (Extension p))
    (doc : p.Doc) (w : p.World) where
  not_applied :
      (u e : Bytes) (d : Document p) → p.decode_update u ≡ err e → apply_and_broadcast u local d ≡ d
  unfolding apply_and_broadcast
  not_applied u e d h = rw (h, apply_and_broadcast) refl

  after_failure :
      (u : Bytes) (ack : ℕ) (e : Bytes)
      → p.decode_update u ≡ err e
      → let d = spawn p name config exts doc w in
        (on_batch (DocCommand.direct_apply u ack ∷ []) d).1
        ≡ record d { world = p.send_ack ack d.world }
  unfolding on_batch run_commands handle_command flush_broadcast spawn
  after_failure u ack e h = rw (not_applied u e (spawn p name config exts doc w) h) refl

  forgotten : {w' : p.World} → IsForgotten (record (spawn p name config exts doc w) { world = w' })
  unfolding spawn
  forgotten = record { clean = refl; no_jobs = refl; no_results = refl; nobody = refl }

  -- A document that is loaded for a direct edit which cannot be decoded stays in memory: the actor has
  -- no client, and no turn of its own ends its loop, however long it waits.
  pub direct_apply_stays :
      (u : Bytes) (ack : ℕ) (e : Bytes) {d : Document p} {r : Bool × Document p}
      → p.decode_update u ≡ err e
      → Waits (on_batch (DocCommand.direct_apply u ack ∷ []) (spawn p name config exts doc w)).1 d
      → (m : Step d r) → IsOwn m
      → (r.0 ≡ false) × (r.1.connections ≡ [])
  direct_apply_stays u ack e h waits m own =
      let (goes_on, f) =
        own_turn m own (Waits-IsForgotten waits (rw (after_failure u ack e h) forgotten)) in
      (goes_on, f.nobody)
