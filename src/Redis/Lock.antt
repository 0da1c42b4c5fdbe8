-- ===== src/Redis/Lock.antt =====
-- The lock of crates/hocuspocus/src/extensions/redis.rs around the store hooks of
-- crates/hocuspocus/src/document.rs.
use hocuspocus_rs.Prelude.{
  ℕ, ◌≡◌, refl, ap, ◌∙◌, Bool, true, false, Option, none, some, [], ◌∷◌, Bytes, List, ascii, Map,
  arith, lookup, insert, remove, ok, err, ◌==◌, if◌then◌else◌, Bytes-Eq, bytes_eq_iff,
}
use hocuspocus_rs.Platform.{Platform}
use hocuspocus_rs.Extension.Loops.{run_until_error-stops, run_until_error-goes_on}
use hocuspocus_rs.Errors.{HookError, hook_error}
use hocuspocus_rs.Extension.{Extension, Hook, DocumentPayload, run_until_error}
use hocuspocus_rs.Document.Store.{run_store_hooks}
use hocuspocus_rs.Database
use hocuspocus_rs.Database.{Storage, database}
use hocuspocus_rs.Redis.{
  RedisScaling, RedisServer, lock_key, redis_extension, on_store_document, after_store_document,
  unlock,
}

-- What Redis documents of the lock's keys, while no time to live runs out: `held` is who holds a key.
-- `SET NX` sets a free key and leaves a held one; the other calls do not touch the keys.
pub record IsLock {p : Platform} (s : RedisServer p) (held : p.World → Bytes → Option Bytes)
    : Type 0 where
  pub acquired :
      (key token other : Bytes) (ttl : ℕ) (w : p.World)
      → (s.set_nx_px key token ttl w).0 ≡ true
      → held (s.set_nx_px key token ttl w).1 other
        ≡ (if key == other then some token else held w other)
  pub taken :
      (key token holder : Bytes) (ttl : ℕ) (w : p.World)
      → held w key ≡ some holder
      → (s.set_nx_px key token ttl w).0 ≡ false
  pub refused :
      (key token other : Bytes) (ttl : ℕ) (w : p.World)
      → (s.set_nx_px key token ttl w).0 ≡ false
      → held (s.set_nx_px key token ttl w).1 other ≡ held w other
  pub got : (key : Bytes) (w : p.World) → s.get key w ≡ held w key
  pub deleted :
      (key other : Bytes) (w : p.World)
      → held (s.del key w) other ≡ (if key == other then none else held w other)
  pub uuid_keeps : (key : Bytes) (w : p.World) → held (s.new_uuid w).1 key ≡ held w key
  pub reached_keeps : (key : Bytes) (w : p.World) → held (s.reached w).1 key ≡ held w key
  pub locks_keep :
      (m : Map Bytes Bytes) (key : Bytes) (w : p.World) → held (s.set_locks m w) key ≡ held w key

module _ {p : Platform} (s : RedisServer p) (r : RedisScaling)
    {held : p.World → Bytes → Option Bytes} (k : IsLock s held) where
  -- After its store a node removes no lock but its own: if the key is held with another token by then,
  -- since its own lock has run out and another node has taken the key, it stays held so.
  pub after_store_document-foreign :
      (payload : DocumentPayload) (token holder : Bytes) (w : p.World)
      → lookup (lock_key r payload.document_name) (s.locks w) ≡ some token
      → held w (lock_key r payload.document_name) ≡ some holder
      → (holder == token) ≡ false
      → held (after_store_document s r payload w).1 (lock_key r payload.document_name) ≡ some holder
  unfolding after_store_document unlock
  after_store_document-foreign payload token holder w e h ne =
      let key = lock_key r payload.document_name in
      let w1 = s.set_locks (remove key (s.locks w)) w in
      ground (
        arith,
        k.locks_keep (remove key (s.locks w)) key w,
        k.reached_keeps key w1,
        k.got key (s.reached w1).1,
      )

  -- The world in which the lock is taken and noted, for the token that the node draws in `w`.
  abbrev pub locked : Bytes → p.World → p.World
  locked name w =
      let key = lock_key r name in
      let token = (s.new_uuid w).0 in
      let w' = (s.set_nx_px key token r.lock_timeout_ms (s.new_uuid w).1).1 in
      s.set_locks (insert key token (s.locks w')) w'

  pub lock_held :
      (name : Bytes) (w : p.World)
      → (s.set_nx_px (lock_key r name) (s.new_uuid w).0 r.lock_timeout_ms (s.new_uuid w).1).0 ≡ true
      → held (locked name w) (lock_key r name) ≡ some (s.new_uuid w).0
  lock_held name w e =
      let key = lock_key r name in
      let w' = (s.set_nx_px key (s.new_uuid w).0 r.lock_timeout_ms (s.new_uuid w).1).1 in
      k.locks_keep (insert key (s.new_uuid w).0 (s.locks w')) key w'
      ∙ ground (
        arith,
        k.acquired key (s.new_uuid w).0 key r.lock_timeout_ms (s.new_uuid w).1 e,
        bytes_eq_iff key key,
      )

  abbrev pub acquires : Bytes → p.World → Bool × p.World
  acquires name w =
      s.set_nx_px (lock_key r name) (s.new_uuid w).0 r.lock_timeout_ms (s.new_uuid w).1

  hooks_failed :
      (state : Bytes) (payload : DocumentPayload) (exts : List (Extension p)) (w w' : p.World)
      {e : HookError}
      → run_until_error p (λ ext. ext.on_store_document state payload) exts w ≡ (some e, w')
      → run_store_hooks p state payload exts w ≡ (false, w')
  unfolding run_store_hooks
  hooks_failed state payload exts w w' h =
      rw (run_store_hooks, ap (λ x. x.0) h, ap (λ x. x.1) h) refl

  pub on_store_refused :
      (state : Bytes) (payload : DocumentPayload) (w : p.World)
      → (acquires payload.document_name w).0 ≡ false
      → on_store_document s r state payload w ≡ (
        err (hook_error (ascii "another node holds the document lock")),
        (acquires payload.document_name w).1,
      )
  unfolding on_store_document
  on_store_refused state payload w e = rw e refl

  pub on_store_locked :
      (state : Bytes) (payload : DocumentPayload) (w : p.World)
      → (acquires payload.document_name w).0 ≡ true
      → on_store_document s r state payload w ≡ (ok tt, locked payload.document_name w)
  unfolding on_store_document
  on_store_locked state payload w e = rw e refl

  -- Without the lock the hooks behind this one do not run.
  refused_store :
      (st : Storage p) (state : Bytes) (payload : DocumentPayload) (w : p.World)
      → (acquires payload.document_name w).0 ≡ false
      → run_store_hooks p state payload (redis_extension s r ∷ database st ∷ []) w
        ≡ (false, (acquires payload.document_name w).1)
  refused_store st state payload w e = hooks_failed state payload _ w _ (
      run_until_error-stops (λ ext. ext.on_store_document state payload) (redis_extension s r)
        (database st ∷ []) w (on_store_refused state payload w e))

  database_failed :
      (st : Storage p) (state : Bytes) (payload : DocumentPayload) (w : p.World) {e : Bytes}
      → (st.store payload.document_name state w).0 ≡ err e
      → Database.on_store_document st state payload w
        ≡ (err (hook_error e), (st.store payload.document_name state w).1)
  unfolding Database.on_store_document
  database_failed st state payload w f = rw f refl

  failed_store :
      (st : Storage p) (state : Bytes) (payload : DocumentPayload) (w : p.World) {e : Bytes}
      → (acquires payload.document_name w).0 ≡ true
      → (st.store payload.document_name state (locked payload.document_name w)).0 ≡ err e
      → run_store_hooks p state payload (redis_extension s r ∷ database st ∷ []) w
        ≡ (false, (st.store payload.document_name state (locked payload.document_name w)).1)
  failed_store st state payload w e f =
      let hook : Hook p = λ ext. ext.on_store_document state payload in
      let w' = locked payload.document_name w in
      hooks_failed state payload _ w _ (
        run_until_error-goes_on hook (redis_extension s r) (database st ∷ []) w
          (on_store_locked state payload w e)
        ∙ run_until_error-stops hook (database st) [] w' (database_failed st state payload w' f))

  -- A node whose storage fails keeps its lock, since the hook that releases it does not run. Until
  -- the lock runs out it locks out that very node: its next store of the document fails without a
  -- call of the storage. The storage does not touch the lock, and no time to live runs out.
  pub run_store_hooks-locked_out :
      (st : Storage p) (state later : Bytes) (payload : DocumentPayload) (w : p.World) (e : Bytes)
      → (acquires payload.document_name w).0 ≡ true
      → (st.store payload.document_name state (locked payload.document_name w)).0 ≡ err e
      → held
          (st.store payload.document_name state (locked payload.document_name w)).1
          (lock_key r payload.document_name)
        ≡ held (locked payload.document_name w) (lock_key r payload.document_name)
      → let exts = redis_extension s r ∷ database st ∷ [] in
        let (done, w') = run_store_hooks p state payload exts w in
        (done ≡ false)
        × (held w' (lock_key r payload.document_name) ≡ some (s.new_uuid w).0)
        × (run_store_hooks p later payload exts w' ≡ (false, (acquires payload.document_name w').1))
  run_store_hooks-locked_out st state later payload w e a f keeps =
      let name = payload.document_name in
      let w' = (st.store name state (locked name w)).1 in
      let failed = failed_store st state payload w a f in
      let still : held w' (lock_key r name) ≡ some (s.new_uuid w).0 = keeps ∙ lock_held name w a in
      let refused : (acquires name w').0 ≡ false =
        k.taken (lock_key r name) (s.new_uuid w').0 (s.new_uuid w).0 r.lock_timeout_ms
          (s.new_uuid w').1 (k.uuid_keeps (lock_key r name) w' ∙ still) in
      rw failed (refl, still, refused_store st later payload w' refused)
