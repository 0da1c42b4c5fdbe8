-- ===== src/Document/Debounce.antt =====
-- The store deadline of crates/hocuspocus/src/document.rs over a burst of edits.
use hocuspocus_rs.Prelude.{
  ℕ, ◌+◌, ◌≡◌, true, false, none, some, List, [], ◌∷◌, Bytes, arith, ok, min, Option-cases, inl,
  inr,
}
use hocuspocus_rs.Config.{Configuration}
use hocuspocus_rs.Origin.{Origin, encode}
use hocuspocus_rs.Extension.{Extension}
use hocuspocus_rs.Platform.{Platform}
use hocuspocus_rs.Document.State.{Document, store_deadline, mark_dirty, is_empty}
use hocuspocus_rs.Document.Updates.{apply_and_broadcast, note_change}
use hocuspocus_rs.Document.Actor.{spawn, Reach}
use hocuspocus_rs.Document.Core.{core}
use hocuspocus_rs.Document.Invariant.{Inv}
use hocuspocus_rs.Document.Reachable.{Reach-Inv, spawn-Inv}

-- An update that the actor is handed while the rest of the process stands at `world`.
pub record Edit (p : Platform) : Type 0 where
  pub world : p.World
  pub bytes : Bytes
  pub origin : Origin

module _ {p : Platform} where
  abbrev pub time : Edit p → ℕ
  time e = (p.now e.world).0

  abbrev pub edit : Edit p → Document p → Document p
  edit e d = apply_and_broadcast e.bytes e.origin (record d { world = e.world })

  abbrev pub edit_each : List (Edit p) → Document p → Document p
  edit_each [] d = d
  edit_each (e ∷ es) d = edit_each es (edit e d)

  -- The time of the last of the edits, or `t` where there is none.
  abbrev pub last_time : ℕ → List (Edit p) → ℕ
  last_time t [] = t
  last_time t (e ∷ es) = last_time (time e) es

  -- `yrs` decodes the update, applies it to `doc`, and finds a change in it.
  abbrev pub IsNoticed : Edit p → p.Doc → Type 0
  IsNoticed e doc =
      (u : p.Update) × (p.decode_update e.bytes ≡ ok u)
      × ((p.apply_update doc (encode e.origin) u).result ≡ ok tt)
      × (is_empty (p.apply_update doc (encode e.origin) u).change ≡ false)

  abbrev pub AllNoticed : List (Edit p) → Document p → Type 0
  AllNoticed [] d = Unit {0}
  AllNoticed (e ∷ es) d = IsNoticed e d.doc × AllNoticed es (edit e d)

  -- What the deadline is read from.
  record IsMarked (config : Configuration) (first last : ℕ) (d : Document p) : Type 0 where
    same_config : d.config ≡ config
    dirty : d.dirty ≡ true
    idle : d.storing ≡ false
    first_at : d.first_dirty_at ≡ some first
    last_at : d.last_change_at ≡ some last

  first_edit :
      (e : Edit p) (d : Document p)
      → IsNoticed e d.doc
      → d.storing ≡ false
      → d.first_dirty_at ≡ none
      → IsMarked d.config (time e) (time e) (edit e d)
  unfolding apply_and_broadcast note_change mark_dirty
  first_edit e d (u, decoded, applied, new) k f = record {
    same_config = ground arith;
    dirty = ground arith;
    idle = ground arith;
    first_at = ground arith;
    last_at = ground arith;
  }

  later_edit :
      (config : Configuration) (first last : ℕ) (e : Edit p) (d : Document p)
      → IsNoticed e d.doc
      → IsMarked config first last d
      → IsMarked config first (time e) (edit e d)
  unfolding apply_and_broadcast note_change mark_dirty
  later_edit config first last e d (u, decoded, applied, new) m = record {
    same_config = ground (arith, m.same_config);
    dirty = ground arith;
    idle = ground (arith, m.idle);
    first_at = ground (arith, m.first_at);
    last_at = ground arith;
  }

  edit_each-IsMarked :
      (config : Configuration) (first last : ℕ) (es : List (Edit p)) (d : Document p)
      → AllNoticed es d
      → IsMarked config first last d
      → IsMarked config first (last_time last es) (edit_each es d)
  edit_each-IsMarked config first last [] d n m = m
  edit_each-IsMarked config first last (e ∷ es) d (n, ns) m =
      edit_each-IsMarked config first (time e) es (edit e d) ns
        (later_edit config first last e d n m)

  marked-deadline :
      (config : Configuration) (first last : ℕ) (d : Document p)
      → IsMarked config first last d
      → store_deadline d ≡ some (min (last + config.debounce) (first + config.max_debounce))
  unfolding store_deadline
  marked-deadline config first last d m = rw (m.dirty, m.idle, m.first_at, m.last_at, m.same_config)

module _ {p : Platform} (name : Bytes) (config : Configuration) (exts : List (Extension p))
    (doc : p.Doc) (w : p.World) {d : Document p}
    (r : Reach (spawn p name config exts doc w) d) where
  -- In every state that the loop reaches from `spawn` and that is clean with no store under way, a
  -- burst of one or more edits, each of which is decoded, applied and found to change the document,
  -- sets the store deadline to the time of its last edit plus the debounce time or to the time of its
  -- first edit plus the upper bound on debouncing, whichever is earlier.
  pub burst-store_deadline :
      (e : Edit p) (es : List (Edit p))
      → d.dirty ≡ false
      → d.storing ≡ false
      → AllNoticed (e ∷ es) d
      → store_deadline (edit_each (e ∷ es) d)
        ≡ some (min (last_time (time e) es + d.config.debounce) (time e + d.config.max_debounce))
  burst-store_deadline e es clean idle (n, ns) = elim (Option-cases d.first_dirty_at) [
    | inl f ↦
        marked-deadline d.config (time e) (last_time (time e) es) (edit_each es (edit e d))
          (edit_each-IsMarked d.config (time e) (time e) es (edit e d) ns (first_edit e d n idle f))
    | inr (first, f) ↦ absurd (ground (arith, invariant.first_stamped))
  ]
    where
      invariant : Inv (core d)
      invariant = Reach-Inv (spawn-Inv p name config exts doc w) r
