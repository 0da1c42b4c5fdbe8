-- ===== src/Redis/Saved.antt =====
-- The extension of crates/hocuspocus/src/extensions/redis.rs in front of those that store the documents
-- of crates/hocuspocus/src/document.rs.
use hocuspocus_rs.Prelude.{
  ◌≡◌, refl, sym, ap, ◌∙◌, true, false, Bool, ◌⊎◌, Option, none, some, ◌∷◌, List, Bytes, ℕ, Map,
  lookup, Bool-cases, Option-cases, Result-cases, inl, inr, ◌==◌, Bytes-Eq, remove,
}
use hocuspocus_rs.Origin.{is_redis}
use hocuspocus_rs.Platform.{Platform}
use hocuspocus_rs.Extension.{
  Extension, ChangePayload, AwarenessPayload, DocumentPayload, Hook, run_each, run_until_error,
}
use hocuspocus_rs.Extension.Loops.{run_until_error-goes_on}
use hocuspocus_rs.Document.Store.{run_store_hooks}
use hocuspocus_rs.Document.View.{IsQuiet}
use hocuspocus_rs.Document.Durable.{IsStore}
use hocuspocus_rs.Redis.{
  RedisServer, RedisScaling, publish, lock_key, unlock, on_change, on_awareness_update,
  on_store_document, after_store_document, redis_extension,
}

-- Redis, and what the node notes of it, lie apart from what `view` shows.
pub record IsBeside {p : Platform} (s : RedisServer p) (view : p.World → Option Bytes)
    : Type 0 where
  pub publish :
      (channel message : Bytes) (w : p.World) → view (s.publish channel message w) ≡ view w
  pub set_nx_px :
      (key token : Bytes) (ttl : ℕ) (w : p.World) → view (s.set_nx_px key token ttl w).1 ≡ view w
  pub del : (key : Bytes) (w : p.World) → view (s.del key w) ≡ view w
  pub reached : (w : p.World) → view (s.reached w).1 ≡ view w
  pub new_uuid : (w : p.World) → view (s.new_uuid w).1 ≡ view w
  pub set_locks : (m : Map Bytes Bytes) (w : p.World) → view (s.set_locks m w) ≡ view w

-- Where no store hook fails, the hooks that follow a store run.
hooks_pass :
    {p : Platform} (state : Bytes) (payload : DocumentPayload) (exts : List (Extension p))
    (w : p.World) {w' : p.World}
    → run_until_error p (λ ext. ext.on_store_document state payload) exts w ≡ (none, w')
    → run_store_hooks p state payload exts w
      ≡ (true, run_each p (λ ext. ext.after_store_document payload) exts w')
unfolding run_store_hooks
hooks_pass state payload exts w h = rw (run_store_hooks, ap (λ x. x.0) h, ap (λ x. x.1) h) refl

-- What Redis answers to `SET NX` with the token that the node draws in `w`.
abbrev pub drawn :
    {p : Platform} → RedisServer p → RedisScaling → DocumentPayload → p.World → Bool × p.World
drawn s r payload w =
    s.set_nx_px (lock_key r payload.document_name) (s.new_uuid w).0 r.lock_timeout_ms
      (s.new_uuid w).1

-- The three ways of a store behind the Redis extension.
unfoldable pub Guarded :
    {p : Platform}
    → RedisServer p
    → RedisScaling
    → (p.World → Option Bytes)
    → List (Extension p)
    → Bytes
    → DocumentPayload
    → p.World
    → Type 0
Guarded {p} s r view exts state payload w =
    let locked = (drawn s r payload w).0 in
    let (done, w') = run_store_hooks p state payload (redis_extension s r ∷ exts) w in
    ((locked ≡ false) × (done ≡ false) × (view w' ≡ view w))
    ⊎ ((locked ≡ true) × (done ≡ false))
    ⊎ ((locked ≡ true) × (done ≡ true) × (view w' ≡ some state))

module _ {p : Platform} (s : RedisServer p) (r : RedisScaling) {view : p.World → Option Bytes}
    (b : IsBeside s view) where
  view-on_change :
      (payload : ChangePayload) (w : p.World) → view (on_change s r payload w).1 ≡ view w
  unfolding on_change publish
  view-on_change payload w = elim (Bool-cases (is_redis payload.origin)) [
    | inl e ↦ rw e refl
    | inr e ↦ rw e (b.publish _ _ w)
  ]

  view-on_awareness_update :
      (payload : AwarenessPayload) (w : p.World)
      → view (on_awareness_update s r payload w).1 ≡ view w
  unfolding on_awareness_update publish
  view-on_awareness_update payload w = elim (Bool-cases (is_redis payload.origin)) [
    | inl e ↦ rw e refl
    | inr e ↦ rw e (b.publish _ _ w)
  ]

  view-on_store_document :
      (state : Bytes) (payload : DocumentPayload) (w : p.World)
      → view (on_store_document s r state payload w).1 ≡ view w
  unfolding on_store_document
  view-on_store_document state payload w =
      let key = lock_key r payload.document_name in
      let token = (s.new_uuid w).0 in
      let w1 = (s.new_uuid w).1 in
      let set : view (s.set_nx_px key token r.lock_timeout_ms w1).1 ≡ view w =
        b.set_nx_px key token r.lock_timeout_ms w1 ∙ b.new_uuid w in
      elim (Bool-cases (s.set_nx_px key token r.lock_timeout_ms w1).0) [
        | inl e ↦ rw e (b.set_locks _ _ ∙ set)
        | inr e ↦ rw e set
      ]

  view-unlock : (key token : Bytes) (w : p.World) → view (unlock s r key token w) ≡ view w
  unfolding unlock
  view-unlock key token w = elim (Option-cases (s.get key w)) [
    | inl e ↦ rw (e, unlock) refl
    | inr (holder, e) ↦ elim (Bool-cases (holder == token)) [
      | inl same ↦ rw (e, unlock, same) (b.del key w)
      | inr other ↦ rw (e, unlock, other) refl
    ]
  ]

  view-after_store_document :
      (payload : DocumentPayload) (w : p.World)
      → view (after_store_document s r payload w).1 ≡ view w
  unfolding after_store_document
  view-after_store_document payload w =
      let key = lock_key r payload.document_name in
      elim (Option-cases (lookup key (s.locks w))) [
        | inl e ↦ rw (e, after_store_document) refl
        | inr (token, e) ↦
            let w1 = s.set_locks (remove key (s.locks w)) w in
            let same : view (s.reached w1).1 ≡ view w = b.reached w1 ∙ b.set_locks _ w in
            elim (Bool-cases (s.reached w1).0) [
              | inl e' ↦
                  rw (e, after_store_document, e') (view-unlock key token (s.reached w1).1 ∙ same)
              | inr e' ↦ rw (e, after_store_document, e') same
            ]
      ]

  module _ (name : Bytes) {exts : List (Extension p)} where
    redis-IsQuiet : IsQuiet view exts → IsQuiet view (redis_extension s r ∷ exts)
    unfolding run_each run_until_error
    redis-IsQuiet q = record {
      before_message = λ payload w. q.before_message payload w;
      changed =
          λ payload w. q.changed payload (on_change s r payload w).1 ∙ view-on_change payload w;
      aware = λ payload w.
          q.aware payload (on_awareness_update s r payload w).1
          ∙ view-on_awareness_update payload w;
      stateless = λ payload w. q.stateless payload w;
      disconnected = λ payload w. q.disconnected payload w;
      before_unload = λ payload w. q.before_unload payload w;
      after_unload = λ name w. q.after_unload name w;
    }

    module _ (q : IsStore p view name exts)
        (after : (payload : DocumentPayload) (w : p.World)
          → view (run_each p (λ ext. ext.after_store_document payload) exts w) ≡ view w) where
      -- The state is put before the hooks that follow a store.
      put_before :
          (state : Bytes) (payload : DocumentPayload) (w : p.World)
          → payload.document_name ≡ name
          → (run_until_error p (λ ext. ext.on_store_document state payload) exts w).0 ≡ none
          → view (run_until_error p (λ ext. ext.on_store_document state payload) exts w).1
            ≡ some state
      put_before state payload w n e =
          let w' = (run_until_error p (λ ext. ext.on_store_document state payload) exts w).1 in
          let done = hooks_pass state payload exts w (ap (λ x. (x, w')) e) in
          sym (after payload w')
          ∙ ap (λ x. view x.1) (sym done)
          ∙ q.puts state payload w n (ap (λ x. x.0) done)

      puts_behind :
          (state : Bytes) (payload : DocumentPayload) (w : p.World)
          → payload.document_name ≡ name
          → (run_store_hooks p state payload (redis_extension s r ∷ exts) w).0 ≡ true
          → view (run_store_hooks p state payload (redis_extension s r ∷ exts) w).1 ≡ some state
      unfolding run_store_hooks run_until_error run_each
      puts_behind state payload w n h =
          let w1 = (on_store_document s r state payload w).1 in
          let tail = run_until_error p (λ ext. ext.on_store_document state payload) exts w1 in
          elim (Result-cases (on_store_document s r state payload w).0) [
            | inr (_, e) ↦ absurd (cc (rw (run_store_hooks, run_until_error, e) at h))
            | inl (_, e) ↦ elim (Option-cases tail.0) [
              | inr (_, e') ↦ absurd (cc (rw (run_store_hooks, run_until_error, e, e') at h))
              | inl e' ↦
                  let hook : Hook p = λ ext. ext.on_store_document state payload in
                  let front : run_until_error p hook (redis_extension s r ∷ exts) w ≡ tail =
                    run_until_error-goes_on hook (redis_extension s r) exts w
                      (ap (λ x. (x, w1)) e) in
                  let shape : run_store_hooks p state payload (redis_extension s r ∷ exts) w ≡ (
                    true,
                    run_each p (λ ext. ext.after_store_document payload) exts
                        (after_store_document s r payload tail.1).1,
                  ) =
                    hooks_pass state payload (redis_extension s r ∷ exts) w
                      (front ∙ ap (λ x. (x, tail.1)) e') in
                  rw shape (
                    after payload (after_store_document s r payload tail.1).1
                    ∙ view-after_store_document payload tail.1
                    ∙ put_before state payload w1 n e')
            ]
          ]

      -- A node with the Redis extension in front keeps what the extensions behind it promise of the
      -- storage: a store that its hooks let through puts the state there. Redis and the hooks that
      -- follow a store do not reach the storage.
      pub redis-IsStore : IsStore p view name (redis_extension s r ∷ exts)
      redis-IsStore = record { keeps = q.keeps; quiet = redis-IsQuiet q.quiet; puts = puts_behind }
