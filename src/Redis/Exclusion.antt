-- ===== src/Redis/Exclusion.antt =====
-- The lock of crates/hocuspocus/src/extensions/redis.rs among any number of nodes, whose store hooks
-- interleave in any order while no time to live runs out.
use hocuspocus_rs.Prelude.{
  ℕ, ◌≡◌, ◌≢◌, refl, sym, ap, ◌∙◌, Bool, true, false, Option, is_some, Bytes, arith, ok, err,
  nat_eq, if◌then◌else◌, Bool-cases, Option-cases, inl, inr,
}
use hocuspocus_rs.Errors.{HookError}
use hocuspocus_rs.Platform.{Platform}
use hocuspocus_rs.Extension.{DocumentPayload}
use hocuspocus_rs.Redis.{
  RedisScaling, RedisServer, lock_key, on_store_document, after_store_document,
}
use hocuspocus_rs.Redis.Lock.{
  IsLock, acquires, locked, lock_held, on_store_locked, on_store_refused,
}

-- The world that the nodes share, and which of them have the lock and have not ended their store.
pub record Cluster (p : Platform) : Type 0 where
  pub world : p.World
  pub inside : ℕ → Bool

abbrev pub set_inside : (ℕ → Bool) → ℕ → Bool → ℕ → Bool
set_inside inside i b j = if nat_eq i j then b else inside j

module _ {p : Platform} (server : ℕ → RedisServer p) (node : ℕ → RedisScaling)
    (held : p.World → Bytes → Option Bytes) (name : Bytes) where
  -- One step of the node `i` around a store of the document `name`, or of the rest of the process.
  pub data Turn (c : Cluster p) : Cluster p → Type 0 where
    takes :
        (i : ℕ) (state : Bytes) (payload : DocumentPayload) (w : p.World)
        → payload.document_name ≡ name
        → on_store_document (server i) (node i) state payload c.world ≡ (ok tt, w)
        → Turn c (record { world = w; inside = set_inside c.inside i true })
    is_refused :
        (i : ℕ) (state : Bytes) (payload : DocumentPayload) (w : p.World) (e : HookError)
        → payload.document_name ≡ name
        → on_store_document (server i) (node i) state payload c.world ≡ (err e, w)
        → Turn c (record c { world = w })
    -- `after_store_document`, once every store hook has succeeded
    ends :
        (i : ℕ) (payload : DocumentPayload)
        → payload.document_name ≡ name
        → c.inside i ≡ true
        → Turn c (record {
          world = (after_store_document (server i) (node i) payload c.world).1;
          inside = set_inside c.inside i false;
        })
    -- a later store hook has failed
    gives_up :
        (i : ℕ) → c.inside i ≡ true → Turn c (record c { inside = set_inside c.inside i false })
    beside :
        (w : p.World)
        → ((key : Bytes) → held w key ≡ held c.world key)
        → Turn c (record c { world = w })

  pub data Turns (w : p.World) : Cluster p → Type 0 where
    nobody : Turns w (record { world = w; inside = λ i. false })
    then_turn : {c c' : Cluster p} → Turns w c → Turn c c' → Turns w c'

module _ {p : Platform} (server : ℕ → RedisServer p) (node : ℕ → RedisScaling)
    {held : p.World → Bytes → Option Bytes} (k : (i : ℕ) → IsLock (server i) held)
    (name key : Bytes) (keyed : (i : ℕ) → lock_key (node i) name ≡ key) where
  -- The lock is held while a node is inside, and one is at most.
  record Inv (c : Cluster p) : Type 0 where
    locks : (i : ℕ) → c.inside i ≡ true → is_some (held c.world key) ≡ true
    alone : (i j : ℕ) → c.inside i ≡ true → c.inside j ≡ true → i ≡ j

  was_free :
      (i : ℕ) (doc : Bytes) (w : p.World)
      → lock_key (node i) doc ≡ key
      → (acquires (server i) (node i) (k i) doc w).0 ≡ true
      → is_some (held w key) ≡ false
  was_free i doc w here h =
      let s = server i in
      elim (Option-cases (held w key)) [
        | inl e ↦ rw e refl
        | inr (holder, e) ↦ absurd (
            cc (
              (k i).taken (lock_key (node i) doc) (s.new_uuid w).0 holder (node i).lock_timeout_ms
                (s.new_uuid w).1 ((k i).uuid_keeps (lock_key (node i) doc) w ∙ rw here e)))
      ]

  -- The lock was free when `on_store_document` succeeds, and is held then.
  free_before :
      (i : ℕ) (state : Bytes) (payload : DocumentPayload) (w w' : p.World)
      → payload.document_name ≡ name
      → on_store_document (server i) (node i) state payload w ≡ (ok tt, w')
      → (is_some (held w key) ≡ false) × (is_some (held w' key) ≡ true)
  free_before i state payload w w' n e =
      let s = server i in
      let here : lock_key (node i) payload.document_name ≡ key =
        ap (lock_key (node i)) n ∙ keyed i in
      elim (Bool-cases (acquires s (node i) (k i) payload.document_name w).0) [
        | inl yes_ ↦
            let at_end : locked s (node i) (k i) payload.document_name w ≡ w' =
              ap (λ r. r.1) (sym (on_store_locked s (node i) (k i) state payload w yes_) ∙ e) in
            (
              was_free i payload.document_name w here yes_,
              rw (← at_end, ← here, lock_held s (node i) (k i) payload.document_name w yes_) refl,
            )
        | inr no_ ↦ absurd (cc (on_store_refused s (node i) (k i) state payload w no_))
      ]

  -- A refusal leaves the lock as it is.
  still_held :
      (i : ℕ) (state : Bytes) (payload : DocumentPayload) (w w' : p.World) (e : HookError)
      → payload.document_name ≡ name
      → on_store_document (server i) (node i) state payload w ≡ (err e, w')
      → held w' key ≡ held w key
  still_held i state payload w w' e n q =
      let s = server i in
      let doc = payload.document_name in
      elim (Bool-cases (acquires s (node i) (k i) doc w).0) [
        | inl yes_ ↦ absurd (cc (on_store_locked s (node i) (k i) state payload w yes_))
        | inr no_ ↦
            let at_end : (acquires s (node i) (k i) doc w).1 ≡ w' =
              ap (λ r. r.1) (sym (on_store_refused s (node i) (k i) state payload w no_) ∙ q) in
            rw (← at_end) (
              (k i).refused (lock_key (node i) doc) (s.new_uuid w).0 key (node i).lock_timeout_ms
                (s.new_uuid w).1 no_
              ∙ (k i).uuid_keeps key w)
      ]

  Turn-Inv : {c c' : Cluster p} → Turn server node held name c c' → Inv c → Inv c'
  Turn-Inv {c} (takes i state payload w n e) v =
      let (free, taken_now) = free_before i state payload c.world w n e in
      record { locks = λ j h. taken_now; alone = λ a b h h'. ground (arith, v.locks a, v.locks b) }
  Turn-Inv (is_refused i state payload w e n q) v = record {
    locks = λ j h. rw (still_held i state payload _ w e n q) (v.locks j h);
    alone = v.alone;
  }
  Turn-Inv (ends i payload n h) v = record {
    locks = λ j h'. absurd (ground (arith, v.alone i j h));
    alone = λ a b h' h''. absurd (ground (arith, v.alone i a h));
  }
  Turn-Inv (gives_up i h) v = record {
    locks = λ j h'. absurd (ground (arith, v.alone i j h));
    alone = λ a b h' h''. absurd (ground (arith, v.alone i a h));
  }
  Turn-Inv (beside w same) v = record {
    locks = λ j h. rw (same key) (v.locks j h);
    alone = v.alone;
  }

  Turns-Inv : {w : p.World} {c : Cluster p} → Turns server node held name w c → Inv c
  Turns-Inv nobody = record { locks = λ i h. cc; alone = λ i j h h'. cc }
  Turns-Inv (then_turn m step) = Turn-Inv step (Turns-Inv m)

  -- While no time to live runs out, a node that is between the success of its `on_store_document` and
  -- the end of its store keeps every other node out, whatever the order of their steps. The nodes have
  -- one key for the document, and the server sets a key only if it is free.
  pub one_inside :
      {w : p.World} {c : Cluster p} (i j : ℕ)
      → Turns server node held name w c
      → i ≢ j
      → c.inside i ≡ true
      → c.inside j ≡ false
  one_inside {c = c} i j m other h = elim (Bool-cases (c.inside j)) [
    | inl h' ↦ absurd (other ((Turns-Inv m).alone i j h h'))
    | inr out ↦ out
  ]
