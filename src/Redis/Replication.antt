-- ===== src/Redis/Replication.antt =====
-- A change on one node and what it does on another: crates/hocuspocus/src/extensions/redis.rs with
-- crates/hocuspocus/src/document.rs.
use hocuspocus_rs.Prelude.{
  ℕ, List, ◌<◌, ◌≡◌, ◌⊎◌, refl, ap, ◌∙◌, true, false, Option, none, some, [], ◌∷◌, ◌++◌, Bytes,
  arith, length, ok, ◌==◌, Result-cases, Bytes-Eq, inl, inr, Bool-cases,
}
use mathlib.Core.List.{append_assoc}
use hocuspocus_rs.Codec.{IsLib0, IsU64}
use hocuspocus_rs.Origin.{encode, redis, is_redis}
use hocuspocus_rs.Yrs.{SyncMessage, update}
use hocuspocus_rs.Protocol.{MessageType, sync, from_u64, parse, parse_routing_key, message_address}
use hocuspocus_rs.Protocol.Opcodes.{HasNoNul, parse_routing_key-message_address}
use hocuspocus_rs.Platform.{Platform}
use hocuspocus_rs.Extension.{Extension, ChangePayload, run_each}
use hocuspocus_rs.Document.State.{is_empty, Document, external_frame, mark_dirty}
use hocuspocus_rs.Document.Updates.{apply_and_broadcast, note_change, handle_external_sync}
use hocuspocus_rs.Document.Commands.{handle_external_frame, dispatch_external}
use hocuspocus_rs.Server.Hub.{Hub}
use hocuspocus_rs.Redis.{
  RedisConfig, RedisServer, scaling, channel, message_prefix, encode_sync_frame, publish, on_change,
  redis_extension,
}
use hocuspocus_rs.Redis.Subscriber.{foreign_frame, on_message}
use hocuspocus_rs.Redis.Filter.{foreign_frame-message_prefix}

module _ (p : Platform) (l : IsLib0 p.codec) where
  pub parse-encode_sync_frame :
      (name : Bytes) (m : SyncMessage p.StateVector)
      → IsU64 (length name)
      → parse p.codec (encode_sync_frame p name m)
        ≡ ok (record { routing_key = name; message_type = sync; decoder = p.encode_sync m })
  unfolding parse encode_sync_frame from_u64
  parse-encode_sync_frame name m h =
      rw
        (
          append_assoc (p.write_string name) (p.write_var 0) (p.encode_sync m),
          l.read_string-write_string name (p.write_var 0 ++ p.encode_sync m) h,
          l.read_var-write_var 0 (p.encode_sync m) (omega arith),
        )
        refl

  pub handle-encode_sync_frame :
      (name bytes : Bytes) (reply : Option ℕ) (d : Document p)
      → IsU64 (length name)
      → p.decode_sync (p.encode_sync (update bytes)) ≡ ok (update bytes)
      → handle_external_frame (encode_sync_frame p name (update bytes)) reply d
        ≡ apply_and_broadcast bytes redis d
  unfolding handle_external_frame dispatch_external handle_external_sync
  handle-encode_sync_frame name bytes reply d h e =
      rw
        (
          handle_external_frame,
          parse-encode_sync_frame name (update bytes) h,
          handle_external_sync,
          e,
        )
        refl

  -- A message whose frame is addressed to a resident document is handed to its actor.
  pub on_message-parsed :
      (hub : Hub p) (prefix_bytes payload bytes name payload_bytes : Bytes) (ty : MessageType)
      (h reply : ℕ) (w w' : p.World)
      → foreign_frame prefix_bytes payload ≡ some bytes
      → parse p.codec bytes
        ≡ ok (record { routing_key = name; message_type = ty; decoder = payload_bytes })
      → HasNoNul name
      → hub.documents_get name w ≡ (some h, w')
      → on_message hub prefix_bytes reply payload w
        ≡ (hub.send_command h (external_frame bytes (some reply)) w').1
  unfolding on_message message_address
  on_message-parsed hub prefix_bytes payload bytes name payload_bytes ty h reply w w' e parsed n r =
      let named : hub.documents_get (parse_routing_key name).0 w ≡ (some h, w') =
        ap (λ key. hub.documents_get key.0 w) (parse_routing_key-message_address name none n) ∙ r in
      rw (on_message, e, parsed, ap (λ found. found.0) named, ap (λ found. found.1) named) refl

  -- A change that did not come over Redis reaches the same document on every other node where it is
  -- resident: the node publishes one message, the other node's subscriber hands its frame to the
  -- actor of that document, and the actor applies the very update, with Redis as its origin. The
  -- identifiers of the two nodes differ and are shorter than 256 bytes; the name fits 64 bits and has
  -- no NUL byte; and what `yrs` encodes of a sync message it decodes.
  pub on_change-replicates :
      (here there : RedisConfig) (s : RedisServer p) (hub : Hub p) (payload : ChangePayload)
      (w w1 w2 : p.World) (h reply : ℕ) (d : Document p)
      → length here.identifier < 256
      → length there.identifier < 256
      → (here.identifier == there.identifier) ≡ false
      → IsU64 (length payload.document_name)
      → HasNoNul payload.document_name
      → ((m : SyncMessage p.StateVector) → p.decode_sync (p.encode_sync m) ≡ ok m)
      → is_redis payload.origin ≡ false
      → hub.documents_get payload.document_name w1 ≡ (some h, w2)
      → (frame : Bytes) × (on_change s (scaling here) payload w ≡ (
        ok tt,
        s.publish
            (channel here.prefix payload.document_name)
            (message_prefix here.identifier ++ frame)
            w,
      ))
        × (on_message hub
              (message_prefix there.identifier)
              reply
              (message_prefix here.identifier ++ frame)
              w1
            ≡ (hub.send_command h (external_frame frame (some reply)) w2).1)
        × (handle_external_frame frame (some reply) d ≡ apply_and_broadcast payload.update redis d)
  unfolding on_change publish
  on_change-replicates here there s hub payload w w1 w2 h reply d a b ne u n law o r =
      let frame = encode_sync_frame p payload.document_name (update payload.update) in
      (
        frame,
        rw o refl,
        on_message-parsed hub (message_prefix there.identifier) _ frame payload.document_name _ sync
            h reply w1 w2
            (foreign_frame-message_prefix there.identifier here.identifier frame b a ∙ rw ne refl)
            (parse-encode_sync_frame payload.document_name (update payload.update) u) n r,
        handle-encode_sync_frame payload.document_name payload.update (some reply) d u
            (law (update payload.update)),
      )

module _ {p : Platform} (s : RedisServer p) (config : RedisConfig) where
  quiet_hooks :
      (payload : ChangePayload) (exts : List (Extension p)) (w : p.World)
      → exts ≡ redis_extension s (scaling config) ∷ []
      → is_redis payload.origin ≡ true
      → run_each p (λ ext. ext.on_change payload) exts w ≡ w
  unfolding run_each on_change
  quiet_hooks payload exts w e o = rw (e, o) refl

  quiet_change :
      (base : Option p.StateVector) (change : Bytes) (d : Document p)
      → d.extensions ≡ redis_extension s (scaling config) ∷ []
      → (note_change base change redis d).world ≡ (p.now d.world).1
  unfolding note_change mark_dirty is_redis
  quiet_change none change d e = quiet_hooks _ d.extensions (p.now d.world).1 e refl
  quiet_change (some b) change d e = quiet_hooks _ d.extensions (p.now d.world).1 e refl

  -- An update that came over Redis goes no further: on a node whose only extension is this one, the
  -- actor publishes nothing for it. It leaves the world as it was, but for one look at the clock.
  pub apply_and_broadcast-redis :
      (bytes : Bytes) (d : Document p)
      → d.extensions ≡ redis_extension s (scaling config) ∷ []
      → ((apply_and_broadcast bytes redis d).world ≡ d.world)
        ⊎ ((apply_and_broadcast bytes redis d).world ≡ (p.now d.world).1)
  unfolding apply_and_broadcast
  apply_and_broadcast-redis bytes d e = elim (Result-cases (p.decode_update bytes)) [
    | inr (_, e1) ↦ inl (rw (e1, apply_and_broadcast) refl)
    | inl (u, e1) ↦
        let applied = p.apply_update d.doc (encode redis) u in
        elim (Result-cases applied.result) [
          | inr (_, e2) ↦ inl (rw (e1, apply_and_broadcast, e2) refl)
          | inl (_, e2) ↦ elim (Bool-cases (is_empty applied.change)) [
            | inl e3 ↦ inl (rw (e1, apply_and_broadcast, e2, e3) refl)
            | inr e3 ↦ inr (
                rw (e1, apply_and_broadcast, e2, e3)
                  (quiet_change _ applied.change (record d { doc = applied.doc }) e))
          ]
        ]
  ]
