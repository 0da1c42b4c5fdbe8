-- ===== src/Redis.antt =====
-- crates/hocuspocus/src/extensions/redis.rs: replication between server nodes over Redis, and the
-- lock around a store.
pub mod Subscriber
pub mod Filter
pub mod Lock
pub mod Replication
pub mod Convergence
pub mod CatchUp
pub mod Exclusion
pub mod Saved
pub mod Startup
use hocuspocus_rs.Prelude.{
  ℕ, ◌%◌, Bool, true, false, Option, none, some, [], ◌∷◌, ◌++◌, Bytes, ascii, Map, pos, lookup,
  insert, remove, length, ok, err, ◌==◌, if◌then◌else◌, Bytes-Eq,
}
use hocuspocus_rs.Errors.{HookResult, hook_error}
use hocuspocus_rs.Origin.{is_redis}
use hocuspocus_rs.Yrs.{SyncMessage, sync_step1, update}
use hocuspocus_rs.Platform.{Platform}
use hocuspocus_rs.Extension.{
  Extension, ChangePayload, AwarenessPayload, DocumentPayload, Loaded, default_extension,
}

pub record RedisConfig : Type 0 where
  pub url : Bytes
  pub identifier : Bytes
  pub prefix : Bytes
  pub lock_timeout_ms : ℕ

-- `RedisConfig::new`, with the random UUID.
abbrev pub new_config : Bytes → Bytes → RedisConfig
new_config url uuid = record {
  url = url;
  identifier = ascii "host-" ++ uuid;
  prefix = ascii "hocuspocus";
  lock_timeout_ms = 1000;
}

-- `identifier.len() as u8`, and the identifier.
unfoldable pub message_prefix : Bytes → Bytes
message_prefix identifier = (length identifier % 256) ∷ identifier

pub record RedisScaling : Type 0 where
  pub identifier : Bytes
  pub prefix : Bytes
  pub lock_timeout_ms : ℕ
  pub message_prefix : Bytes

-- `RedisScaling::connect`, once the connections stand.
abbrev pub scaling : RedisConfig → RedisScaling
scaling config = record {
  identifier = config.identifier;
  prefix = config.prefix;
  lock_timeout_ms = config.lock_timeout_ms;
  message_prefix = message_prefix config.identifier;
}

-- `format!("{}:{}", prefix, document_name)`
abbrev pub channel : Bytes → Bytes → Bytes
channel prefix document_name = prefix ++ b':' ∷ document_name

abbrev pub lock_key : RedisScaling → Bytes → Bytes
lock_key r document_name = channel r.prefix document_name ++ ascii ":lock"

-- What the extension calls of Redis and of its process. A publication runs on a task of its own, and
-- nothing waits for it.
pub record RedisServer (p : Platform) : Type 0 where
  pub publish : Bytes → Bytes → p.World → p.World
  -- `SET key token NX PX ttl`: whether the key was set. An error reads as a key that was not.
  pub set_nx_px : Bytes → Bytes → ℕ → p.World → Bool × p.World
  -- the value of a key, and its removal
  pub get : Bytes → p.World → Option Bytes
  pub del : Bytes → p.World → p.World
  -- whether the invocation of a script reaches Redis
  pub reached : p.World → Bool × p.World
  -- `Uuid::new_v4`
  pub new_uuid : p.World → Bytes × p.World
  -- the map `locks` of the extension
  pub locks : p.World → Map Bytes Bytes
  pub set_locks : Map Bytes Bytes → p.World → p.World

module _ (p : Platform) where
  -- Frames are written with an encoder of their own, opcodes as literals.
  unfoldable pub encode_sync_frame : Bytes → SyncMessage p.StateVector → Bytes
  encode_sync_frame document_name msg =
      (p.write_string document_name ++ p.write_var 0) ++ p.encode_sync msg

  unfoldable pub query_frame : Bytes → Bytes
  query_frame document_name = p.write_string document_name ++ p.write_var 3

  unfoldable pub awareness_frame : Bytes → Bytes → Bytes
  awareness_frame document_name state =
      (p.write_string document_name ++ p.write_var 1) ++ p.write_buf state

  unfoldable pub stateless_frame : Bytes → Bytes → Bytes
  stateless_frame document_name payload =
      (p.write_string document_name ++ p.write_var 6) ++ p.write_string payload

module _ {p : Platform} (s : RedisServer p) (r : RedisScaling) where
  unfoldable pub publish : Bytes → Bytes → p.World → p.World
  publish document_name frame w =
      s.publish (channel r.prefix document_name) (r.message_prefix ++ frame) w

  unfoldable pub after_load_document : p.Doc → DocumentPayload → p.World → Loaded p
  unfolding publish
  after_load_document doc payload w =
      let name = payload.document_name in
      let w' = publish name (encode_sync_frame p name (sync_step1 (p.state_vector doc))) w in
      record { result = ok tt; doc = doc; world = publish name (query_frame p name) w' }

  unfoldable pub on_change : ChangePayload → p.World → HookResult × p.World
  unfolding publish
  on_change payload w =
      let name = payload.document_name in
      (
        ok tt,
        if is_redis payload.origin
            then w
            else publish name (encode_sync_frame p name (update payload.update)) w,
      )

  unfoldable pub on_awareness_update : AwarenessPayload → p.World → HookResult × p.World
  unfolding publish
  on_awareness_update payload w =
      let name = payload.document_name in
      (
        ok tt,
        if is_redis payload.origin
            then w
            else publish name (awareness_frame p name payload.update) w,
      )

  unfoldable pub before_broadcast_stateless : Bytes → Bytes → p.World → HookResult × p.World
  unfolding publish
  before_broadcast_stateless document_name payload w =
      (ok tt, publish document_name (stateless_frame p document_name payload) w)

  unfoldable pub on_store_document : Bytes → DocumentPayload → p.World → HookResult × p.World
  on_store_document state payload w =
      let key = lock_key r payload.document_name in
      let (token, w1) = s.new_uuid w in
      let (acquired, w2) = s.set_nx_px key token r.lock_timeout_ms w1 in
      if acquired
      then (ok tt, s.set_locks (insert key token (s.locks w2)) w2)
      else (err (hook_error (ascii "another node holds the document lock")), w2)

  -- The script: `if get(key) == token then del(key)`.
  unfoldable pub unlock : Bytes → Bytes → p.World → p.World
  unlock key token w = elim (s.get key w) [
    | none ↦ w
    | some value ↦ if value == token then s.del key w else w
  ]

  unfoldable pub after_store_document : DocumentPayload → p.World → HookResult × p.World
  unfolding unlock
  after_store_document payload w =
      let key = lock_key r payload.document_name in
      elim (lookup key (s.locks w)) [
        | none ↦ (ok tt, w)
        | some token ↦
            let (reached, w') = s.reached (s.set_locks (remove key (s.locks w)) w) in
            (ok tt, if reached then unlock key token w' else w')
      ]

  -- `impl Extension for RedisScaling`
  abbrev pub redis_extension : Extension p
  redis_extension = record (default_extension p) {
    name = ascii "redis";
    priority = pos 1000;
    after_load_document = after_load_document;
    on_change = on_change;
    on_awareness_update = on_awareness_update;
    before_broadcast_stateless = before_broadcast_stateless;
    on_store_document = on_store_document;
    after_store_document = after_store_document;
  }
