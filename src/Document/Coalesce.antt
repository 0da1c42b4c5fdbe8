-- ===== src/Document/Coalesce.antt =====
-- What the coalesced broadcast of crates/hocuspocus/src/document.rs covers.
use hocuspocus_rs.Prelude.{
  ◌≡◌, refl, ◌⊎◌, true, none, some, List, Bytes, arith, inl, inr, Result-cases, Bool-cases, Option,
  false, if◌then◌else◌,
}
use hocuspocus_rs.Origin.{Origin, encode}
use hocuspocus_rs.Yrs.{update}
use hocuspocus_rs.Yrs.Unnoticed.{Unnoticed, same, refused, unchanged}
use hocuspocus_rs.Platform.{Platform}
use hocuspocus_rs.Document.State.{DocCommand, Document, is_empty, mark_dirty}
use hocuspocus_rs.Document.Updates.{apply_and_broadcast, note_change, sync_frame}
use hocuspocus_rs.Document.Broadcast.{broadcast_with, flush_broadcast}
use hocuspocus_rs.Document.Store.{run_store, maybe_unload}
use hocuspocus_rs.Document.Actor.{run_commands, on_batch}
use hocuspocus_rs.Document.Core.{Core, core}
use hocuspocus_rs.Document.Invariant.{Inv, flushed, core-unload}
use hocuspocus_rs.Document.Reachable.{run_commands-Inv}
use hocuspocus_rs.Document.Handlers.{run_commands_keeps}
use hocuspocus_rs.Document.Durable.Operations.{nil_of_empty}

module _ {p : Platform} (born : p.Doc) where
  -- `born` is the document at the start of the batch. Either the batch has no base yet and no change was
  -- noticed, or the base is the state vector that stood before the first noticed change.
  abbrev Spans : Core p → Type 0
  Spans c =
      ((c.broadcast_base ≡ none) × Unnoticed p.yrs born c.doc)
      ⊎ ((before : p.Doc) × Unnoticed p.yrs born before
          × (c.broadcast_base ≡ some (p.state_vector before)))

  Unnoticed-Spans :
      (doc : p.Doc) (c : Core p)
      → ((a : p.Doc) → Unnoticed p.yrs a c.doc → Unnoticed p.yrs a doc)
      → Spans c
      → Spans (record c { doc = doc })
  Unnoticed-Spans doc c g (inl (e, u)) = inl (e, g born u)
  Unnoticed-Spans doc c g (inr (before, u, e)) = inr (before, u, e)

  noticed-Spans :
      (doc : p.Doc) (change : Bytes) (o : Origin) (d : Document p)
      → Spans (core d)
      → let base : Option p.StateVector = elim d.broadcast_base [
        | none ↦ some (p.state_vector d.doc)
        | some _ ↦ none
      ] in
        Spans (core (note_change base change o (record d { doc = doc })))
  unfolding note_change mark_dirty
  noticed-Spans doc change o d (inl (e, u)) = inr (d.doc, u, rw (e, note_change) refl)
  noticed-Spans doc change o d (inr (before, u, e)) = inr (before, u, rw (e, note_change) e)

  apply_and_broadcast-Spans :
      (bytes : Bytes) (o : Origin) (d : Document p)
      → Spans (core d)
      → Spans (core (apply_and_broadcast bytes o d))
  unfolding apply_and_broadcast
  apply_and_broadcast-Spans bytes o d s = elim (Result-cases (p.decode_update bytes)) [
    | inr (_, e) ↦ rw (e, apply_and_broadcast) s
    | inl (u, e) ↦
        let applied = p.apply_update d.doc (encode o) u in
        elim (Result-cases applied.result) [
          | inr (why, e') ↦
              rw (e, apply_and_broadcast, e')
                (Unnoticed-Spans applied.doc (core d) (λ a n. refused n (encode o) u why e') s)
          | inl (_, e') ↦ elim (Bool-cases (is_empty applied.change)) [
            | inl e'' ↦
                rw (e, apply_and_broadcast, e', e'')
                  (Unnoticed-Spans applied.doc (core d)
                    (λ a n. unchanged n (encode o) u (nil_of_empty applied.change e'')) s)
            | inr e'' ↦
                rw (e, apply_and_broadcast, e', e'')
                  (noticed-Spans applied.doc applied.change o d s)
          ]
        ]
  ]

  maybe_unload-Spans : (d : Document p) → Spans (core d) → Spans (core (maybe_unload d).1)
  unfolding maybe_unload run_store
  maybe_unload-Spans d s = ground (arith, core-unload d, core-unload (run_store d))

-- Send the update `merged` to every connection, unless it is empty.
abbrev pub share : {p : Platform} → Bytes → Document p → Document p
share {p} merged d =
    if is_empty merged then d else broadcast_with (λ addr. sync_frame p addr (update merged)) d

module _ {p : Platform} where
  flush-share :
      (d : Document p) (base : p.StateVector)
      → d.broadcast_pending ≡ true
      → d.broadcast_base ≡ some base
      → flush_broadcast d ≡ share (p.encode_diff d.doc base) (flushed d)
  unfolding flush_broadcast
  flush-share d base h e = rw (h, flush_broadcast, e)

  flush-nothing : (d : Document p) → d.broadcast_pending ≡ false → flush_broadcast d ≡ d
  unfolding flush_broadcast
  flush-nothing d h = rw (h, flush_broadcast)

  -- A batch that starts with no broadcast pending ends with one broadcast of the diff of the document
  -- since the state vector that stood before the batch's first noticed change, sent unless that diff is
  -- empty; up to that change, and in a batch with no such broadcast up to its end, the document has
  -- come from the one at the start by updates alone that `yrs` refused or found no change in.
  pub on_batch_covers :
      (cs : List (DocCommand p)) (d : Document p)
      → Inv (core d)
      → d.broadcast_base ≡ none
      → let d' = (run_commands cs d).1 in
        (Unnoticed p.yrs d.doc d'.doc × ((on_batch cs d).1 ≡ d'))
        ⊎ ((before : p.Doc) × Unnoticed p.yrs d.doc before
            × ((on_batch cs d).1
                ≡ share (p.encode_diff d'.doc (p.state_vector before)) (flushed d')))
  unfolding on_batch
  on_batch_covers cs d v e =
      elim (run_commands_keeps (Spans d.doc) (apply_and_broadcast-Spans d.doc)
        (maybe_unload-Spans d.doc) cs d (inl (e, same))) [
          | inl (none_yet, still) ↦
              inl (still, flush-nothing (run_commands cs d).1 (ground (arith, bookkeeping.based)))
          | inr (before, still, based) ↦ inr (
            before,
            still,
            flush-share (run_commands cs d).1 (p.state_vector before)
                (ground (arith, bookkeeping.based)) based,
          )
        ]
    where
      bookkeeping : Inv (core (run_commands cs d).1)
      bookkeeping = run_commands-Inv cs d v
