-- ===== src/Database/Restart.antt =====
-- A document that is unloaded and loaded again: crates/hocuspocus/src/extensions/database.rs under the
-- whole loop of crates/hocuspocus/src/document.rs.
use hocuspocus_rs.Prelude.{
  ◌≡◌, refl, sym, ap, ◌∙◌, Bool, false, Option, none, some, [], ◌∷◌, Bytes, ok, inl, inr,
  Result-cases,
}
use hocuspocus_rs.Config.{Configuration}
use hocuspocus_rs.Yrs.Unnoticed.{Unnoticed}
use hocuspocus_rs.Platform.{Platform}
use hocuspocus_rs.Extension.{run_each, run_until_error}
use hocuspocus_rs.Document.State.{Document}
use hocuspocus_rs.Document.Store.{full_state}
use hocuspocus_rs.Document.Actor.{load_each, spawn}
use hocuspocus_rs.Document.View.{Keeps}
use hocuspocus_rs.Document.Durable.{IsStore}
use hocuspocus_rs.Document.Durable.Clean.{Runs, clean_saved}
use hocuspocus_rs.Database.{Storage, database, restore, load_fetched, on_load_document}
use hocuspocus_rs.Database.Contract.{IsKeyed}
use hocuspocus_rs.Database.Reload.{IsReplayable, hooks_saved, load-replays}

module _ {p : Platform} (s : Storage p) {contents : p.World → Bytes → Option Bytes}
    (k : IsKeyed s contents) (name : Bytes) (keeps : Keeps p (λ w. contents w name)) where
  pub database-IsStore : IsStore p (λ w. contents w name) name (database s ∷ [])
  unfolding run_each run_until_error
  database-IsStore = record {
    keeps = keeps;
    quiet = record {
      before_message = λ payload w. refl;
      changed = λ payload w. refl;
      aware = λ payload w. refl;
      stateless = λ payload w. refl;
      disconnected = λ payload w. refl;
      before_unload = λ payload w. refl;
      after_unload = λ name w. refl;
    };
    puts = λ state payload w n h. rw (← n) (hooks_saved s k state payload w h);
  }

  -- What is loaded depends on the world through the answer of the storage only.
  load_fetched-doc :
      (blank : p.Doc) (found : Option Bytes) (w w' : p.World)
      → (load_fetched p blank (ok found) w).doc ≡ (load_fetched p blank (ok found) w').doc
  unfolding load_fetched restore
  load_fetched-doc blank none w w' = refl
  load_fetched-doc blank (some state) w w' = elim (Result-cases (p.decode_update state)) [
    | inl (u, e) ↦ rw (e, load_fetched) refl
    | inr (_, e) ↦ rw (e, load_fetched) refl
  ]

  spawned_doc :
      (config : Configuration) (blank : p.Doc) (w w' : p.World) (found : Option Bytes)
      → (s.fetch name w).0 ≡ ok found
      → (spawn p name config (database s ∷ []) blank w).doc
        ≡ (load_fetched p blank (ok found) w').doc
  unfolding spawn load_each on_load_document
  spawned_doc config blank w w' found e = rw e (load_fetched-doc blank found _ w')

  load_fetched-world :
      (blank : p.Doc) (found : Option Bytes) (w : p.World)
      → (load_fetched p blank (ok found) w).world ≡ w
  unfolding load_fetched restore
  load_fetched-world blank none w = refl
  load_fetched-world blank (some state) w = elim (Result-cases (p.decode_update state)) [
    | inl (u, e) ↦ rw (e, load_fetched) refl
    | inr (_, e) ↦ rw (e, load_fetched) refl
  ]

  -- To load a document does not change what is stored under its name.
  contents-spawn :
      (config : Configuration) (blank : p.Doc) (w : p.World) (found : Option Bytes)
      → (s.fetch name w).0 ≡ ok found
      → contents (spawn p name config (database s ∷ []) blank w).world name ≡ found
  unfolding spawn load_each on_load_document
  contents-spawn config blank w found e =
      rw (e, load_fetched-world blank found (s.fetch name w).1)
        (k.fetch_keeps name name w ∙ sym (k.fetched name w e))

  -- The state of a document that is spawned where the storage holds the state of `doc`.
  spawn-replays :
      (config : Configuration) (blank doc : p.Doc) (w : p.World) (found : Option Bytes)
      → IsReplayable p blank
      → contents w name ≡ some (p.encode_state_as_update doc p.empty_state_vector)
      → (s.fetch name w).0 ≡ ok found
      → full_state (spawn p name config (database s ∷ []) blank w)
        ≡ p.encode_state_as_update doc p.empty_state_vector
  unfolding spawn load_each
  spawn-replays config blank doc w found r e f =
      rw (load-replays s k name doc blank w r e f) (r.same doc)

  -- A restart keeps a document, but for updates that went unnoticed: once its actor is clean with no
  -- store under way, also when its loop has ended so, a new actor that loads the document has the
  -- whole state of a document from which the old actor's has come by updates alone that `yrs` refused
  -- or found no change in. Both loads can read the storage, the rest of the process does not write
  -- under the document's name, and `yrs` replays a stored state.
  pub restart_keeps :
      (config later : Configuration) (blank : p.Doc) (w : p.World) (first again : Option Bytes)
      {x : Bool × Document p}
      → IsReplayable p blank
      → Runs (λ w. contents w name) (spawn p name config (database s ∷ []) blank w) x
      → x.1.dirty ≡ false
      → x.1.storing ≡ false
      → (s.fetch name w).0 ≡ ok first
      → (s.fetch name x.1.world).0 ≡ ok again
      → (saved : p.Doc) × Unnoticed p.yrs saved x.1.doc
        × (full_state (spawn p name later (database s ∷ []) blank x.1.world)
            ≡ p.encode_state_as_update saved p.empty_state_vector)
  restart_keeps config later blank w first again {x} r m tidy idle f g =
      elim (clean_saved name config (database s ∷ []) blank w database-IsStore m tidy idle) [
        | inl (doc, since, saved) ↦
            (doc, since, spawn-replays later blank doc x.1.world again r saved g)
        | inr (since, place) ↦
            let e : again ≡ first =
              k.fetched name x.1.world g ∙ place ∙ contents-spawn config blank w first f in
            (
              (spawn p name config (database s ∷ []) blank w).doc,
              since,
              ap (λ doc. p.encode_state_as_update doc p.empty_state_vector)
                  (spawned_doc later blank x.1.world w again g
                    ∙ ap (λ found. (load_fetched p blank (ok found) w).doc) e
                    ∙ sym (spawned_doc config blank w w first f)),
            )
      ]
