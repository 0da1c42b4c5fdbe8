-- ===== src/Redis/CatchUp.antt =====
-- A node that loads a document asks the others for what it lacks: `after_load_document` and
-- `spawn_subscriber` of crates/hocuspocus/src/extensions/redis.rs, with the actors of
-- crates/hocuspocus/src/document.rs on both nodes.
use hocuspocus_rs.Prelude.{
  ℕ, ◌<◌, ◌≡◌, refl, sym, ap, ◌∙◌, false, none, some, Bytes, ◌++◌, arith, length, ok, ◌==◌,
  Bytes-Eq, bytes_eq_iff,
}
use hocuspocus_rs.Codec.{IsLib0, IsU64}
use hocuspocus_rs.Origin.{redis}
use hocuspocus_rs.Yrs.{SyncMessage, sync_step1, sync_step2}
use hocuspocus_rs.Yrs.Crdt.{IsCrdt, IsDiff}
use hocuspocus_rs.Protocol.{sync, sync_reply, parse, parse_routing_key, message_address}
use hocuspocus_rs.Protocol.Opcodes.{HasNoNul, parse_routing_key-message_address}
use hocuspocus_rs.Protocol.Outgoing
use hocuspocus_rs.Protocol.Frames.{build, sync_reply_frame, parse_envelope}
use hocuspocus_rs.Platform.{Platform}
use hocuspocus_rs.Extension.{DocumentPayload}
use hocuspocus_rs.Document.State.{Document, external_frame}
use hocuspocus_rs.Document.Updates.{apply_and_broadcast, handle_external_sync}
use hocuspocus_rs.Document.Commands.{handle_external_frame, dispatch_external}
use hocuspocus_rs.Server.Hub.{Hub}
use hocuspocus_rs.Redis.{
  RedisConfig, RedisServer, scaling, channel, message_prefix, encode_sync_frame, query_frame,
  publish, after_load_document,
}
use hocuspocus_rs.Redis.Subscriber.{foreign_frame, on_message, on_reply}
use hocuspocus_rs.Redis.Filter.{foreign_frame-message_prefix}
use hocuspocus_rs.Redis.Replication.{parse-encode_sync_frame, on_message-parsed}
use hocuspocus_rs.Redis.Convergence.{absorb_decoded, value-apply_and_broadcast}

foreign_frame-other :
    (mine theirs frame : Bytes)
    → length mine < 256
    → length theirs < 256
    → (theirs == mine) ≡ false
    → foreign_frame (message_prefix mine) (message_prefix theirs ++ frame) ≡ some frame
foreign_frame-other mine theirs frame m t e =
    foreign_frame-message_prefix mine theirs frame m t ∙ rw e refl

eq_swap : (a b : Bytes) → (a == b) ≡ false → (b == a) ≡ false
eq_swap a b e = ground (arith, bytes_eq_iff a b, bytes_eq_iff b a)

-- The request of a node that has loaded `doc`, and the answer of a node that holds `theirs`.
abbrev request : (p : Platform) → Bytes → p.Doc → Bytes
request p name doc = encode_sync_frame p name (sync_step1 (p.state_vector doc))

abbrev answer : (p : Platform) → Bytes → p.Doc → p.Doc → Bytes
answer p name doc theirs =
    build p.codec name
      (sync_reply_frame (p.encode_sync (sync_step2 (p.encode_diff theirs (p.state_vector doc)))))

module _ (p : Platform) (l : IsLib0 p.codec) (name : Bytes) (fits : IsU64 (length name))
    (law : (m : SyncMessage p.StateVector) → p.decode_sync (p.encode_sync m) ≡ ok m) where
  parse-answer :
      (doc theirs : p.Doc)
      → parse p.codec (answer p name doc theirs)
        ≡ ok (record {
          routing_key = name;
          message_type = sync_reply;
          decoder = p.encode_sync (sync_step2 (p.encode_diff theirs (p.state_vector doc)));
        })
  unfolding Outgoing.into_bytes Outgoing.write_sync_payload Outgoing.sync_reply Outgoing.start
  parse-answer doc theirs = parse_envelope l name sync_reply _ fits

  handle-request :
      (doc : p.Doc) (tx : ℕ) (b : Document p)
      → b.name ≡ name
      → handle_external_frame (request p name doc) (some tx) b
        ≡ record b { world = p.send_reply tx (answer p name doc b.doc) b.world }
  unfolding handle_external_frame dispatch_external handle_external_sync
  handle-request doc tx b n =
      rw
        (
          handle_external_frame,
          parse-encode_sync_frame p l name (sync_step1 (p.state_vector doc)) fits,
          handle_external_sync,
          law (sync_step1 (p.state_vector doc)),
          n,
        )
        refl

  handle-answer :
      (doc theirs : p.Doc) (tx : ℕ) (a : Document p)
      → handle_external_frame (answer p name doc theirs) (some tx) a
        ≡ apply_and_broadcast (p.encode_diff theirs (p.state_vector doc)) redis a
  unfolding handle_external_frame dispatch_external handle_external_sync
  handle-answer doc theirs tx a =
      rw
        (
          handle_external_frame,
          parse-answer doc theirs,
          handle_external_sync,
          law (sync_step2 (p.encode_diff theirs (p.state_vector doc))),
        )
        refl

  -- The answer joins to a document what the other node holds beyond the document that asked.
  value-answer :
      {S : Type 0} {value : p.Doc → S} {meaning : p.Update → S} {join : S → S → S}
      (c : IsCrdt p.yrs value meaning join) (doc theirs : p.Doc) (tx : ℕ) (a : Document p)
      → IsDiff p.yrs value meaning join doc theirs
      → join (value a.doc) (value doc) ≡ value a.doc
      → value (handle_external_frame (answer p name doc theirs) (some tx) a).doc
        ≡ join (value a.doc) (value theirs)
  value-answer {value = value} {meaning = meaning} {join = join} c doc theirs tx a diff grown =
      let sees = ap (λ (d : Document p). value d.doc) (handle-answer doc theirs tx a) in
      let m = meaning diff.missing in
      sees
      ∙ value-apply_and_broadcast c (p.encode_diff theirs (p.state_vector doc)) redis a
      ∙ absorb_decoded c (p.encode_diff theirs (p.state_vector doc)) diff.missing (value a.doc)
          diff.decoded
      ∙ ap (λ v. join v m) (sym grown)
      ∙ c.assoc (value a.doc) (value doc) m
      ∙ ap (join (value a.doc)) diff.complete
      ∙ sym (c.assoc (value a.doc) (value doc) (value theirs))
      ∙ ap (λ v. join v (value theirs)) grown

  -- A node that loads a document catches up with each node where it is resident: it publishes a
  -- request, which the other node's subscriber hands to its actor; the actor replies to it and stays
  -- as it is but for the world; the reply publisher publishes the answer, which the first node's
  -- subscriber hands to its own actor; and the document there becomes the join of both, also if it has
  -- grown in the meantime. The identifiers of the nodes differ and are shorter than 256 bytes, the
  -- prefixes are the same, the name fits 64 bits and has no NUL byte, `yrs` decodes the sync messages
  -- that it encodes, its documents are values of a semilattice, and its diff is complete.
  pub load_catches_up :
      {S : Type 0} {value : p.Doc → S} {meaning : p.Update → S} {join : S → S → S}
      (c : IsCrdt p.yrs value meaning join) (here there : RedisConfig) (s s' : RedisServer p)
      (hub hub' : Hub p) (payload : DocumentPayload) (doc : p.Doc) (a b : Document p)
      (h h' tx tx' : ℕ) (w w1 w2 w3 w4 w5 : p.World)
      → length here.identifier < 256
      → length there.identifier < 256
      → (here.identifier == there.identifier) ≡ false
      → here.prefix ≡ there.prefix
      → payload.document_name ≡ name
      → b.name ≡ name
      → HasNoNul name
      → hub'.documents_get name w1 ≡ (some h', w2)
      → hub.documents_get name w4 ≡ (some h, w5)
      → IsDiff p.yrs value meaning join doc b.doc
      → join (value a.doc) (value doc) ≡ value a.doc
      → (asked told : Bytes) × ((after_load_document s (scaling here) doc payload w).world
          ≡ publish s
              (scaling here)
              name
              (query_frame p name)
              (s.publish (channel here.prefix name) (message_prefix here.identifier ++ asked) w))
        × (on_message hub'
              (message_prefix there.identifier)
              tx'
              (message_prefix here.identifier ++ asked)
              w1
            ≡ (hub'.send_command h' (external_frame asked (some tx')) w2).1)
        × (handle_external_frame asked (some tx') b
            ≡ record b { world = p.send_reply tx' told b.world })
        × (on_reply s' there.prefix (message_prefix there.identifier) told w3
            ≡ s'.publish (channel here.prefix name) (message_prefix there.identifier ++ told) w3)
        × (on_message hub
              (message_prefix here.identifier)
              tx
              (message_prefix there.identifier ++ told)
              w4
            ≡ (hub.send_command h (external_frame told (some tx)) w5).1)
        × (value (handle_external_frame told (some tx) a).doc ≡ join (value a.doc) (value b.doc))
  unfolding after_load_document publish on_reply message_address
  load_catches_up c here there s s' hub hub' payload doc a b h h' tx tx' w w1 w2 w3 w4 w5 x y ne
        same n m u r r' diff grown =
      let asked = request p name doc in
      let told = answer p name doc b.doc in
      let plain : (parse_routing_key name).0 ≡ name =
        ap (λ key. key.0) (parse_routing_key-message_address name none u) in
      (
        asked,
        told,
        rw n refl,
        on_message-parsed p l hub' (message_prefix there.identifier) _ asked name _ sync h' tx' w1
            w2 (foreign_frame-other there.identifier here.identifier asked y x ne)
            (parse-encode_sync_frame p l name (sync_step1 (p.state_vector doc)) fits) u r,
        handle-request doc tx' b m,
        rw (on_reply, parse-answer doc b.doc, plain, same) refl,
        on_message-parsed p l hub (message_prefix here.identifier) _ told name _ sync_reply h tx w4
            w5
            (foreign_frame-other here.identifier there.identifier told x y
              (eq_swap here.identifier there.identifier ne))
            (parse-answer doc b.doc) u r',
        value-answer c doc b.doc tx a diff grown,
      )
