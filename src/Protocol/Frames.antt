-- ===== src/Protocol/Frames.antt =====
-- What a peer reads in a frame that `OutgoingMessage` of crates/hocuspocus/src/protocol.rs built.
use mathlib.Core.List.{append-nil, append_assoc}
use hocuspocus_rs.Prelude.{
  ℕ, ◌≡◌, refl, Bool, true, false, [], ◌++◌, Bytes, ascii, arith, length, ok, if◌then◌else◌,
}
use hocuspocus_rs.Codec.{Codec, IsLib0, IsU64}
use hocuspocus_rs.Protocol.{
  MessageType, sync, awareness, auth, query_awareness, sync_reply, stateless, broadcast_stateless,
  close, sync_status, opcode, auth_opcode, token, permission_denied_tag, authenticated_tag, parse,
}
use hocuspocus_rs.Protocol.Opcodes.{from_u64-opcode, opcode-lt}
use hocuspocus_rs.Protocol.Outgoing

-- The frames that the server sends.
pub data Reply : Type 0 where
  sync_frame sync_reply_frame awareness_frame : Bytes → Reply
  query_frame token_request_frame : Reply
  authenticated_frame status_frame : Bool → Reply
  denied_frame stateless_frame broadcast_frame close_frame : Bytes → Reply

module _ (c : Codec) where
  -- The chain of builder calls for each frame.
  abbrev pub build : Bytes → Reply → Bytes
  build a (sync_frame b) =
      Outgoing.into_bytes c (Outgoing.write_sync_payload c b (Outgoing.sync c (Outgoing.start c a)))
  build a (sync_reply_frame b) =
      Outgoing.into_bytes c
        (Outgoing.write_sync_payload c b (Outgoing.sync_reply c (Outgoing.start c a)))
  build a (awareness_frame u) =
      Outgoing.into_bytes c (Outgoing.awareness_update c u (Outgoing.start c a))
  build a query_frame = Outgoing.into_bytes c (Outgoing.query_awareness c (Outgoing.start c a))
  build a token_request_frame =
      Outgoing.into_bytes c (Outgoing.token_sync_request c (Outgoing.start c a))
  build a (authenticated_frame r) =
      Outgoing.into_bytes c (Outgoing.authenticated c r (Outgoing.start c a))
  build a (status_frame s) = Outgoing.into_bytes c (Outgoing.sync_status c s (Outgoing.start c a))
  build a (denied_frame m) =
      Outgoing.into_bytes c (Outgoing.permission_denied c m (Outgoing.start c a))
  build a (stateless_frame p) = Outgoing.into_bytes c (Outgoing.stateless c p (Outgoing.start c a))
  build a (broadcast_frame p) =
      Outgoing.into_bytes c (Outgoing.broadcast_stateless c p (Outgoing.start c a))
  build a (close_frame r) = Outgoing.into_bytes c (Outgoing.close_message c r (Outgoing.start c a))

  -- What the reads of the payload give: one varint and then one string, to the end of the frame.
  abbrev ReadsTagged : ℕ → Bytes → Bytes → Type 0
  ReadsTagged tag text d =
      (d' : Bytes) × (c.read_var d ≡ ok (tag, d')) × (c.read_string d' ≡ ok (text, []))

  abbrev pub Reads : Reply → Bytes → Type 0
  Reads (sync_frame b) d = d ≡ b
  Reads (sync_reply_frame b) d = d ≡ b
  Reads (awareness_frame u) d = c.read_buf d ≡ ok (u, [])
  Reads query_frame d = d ≡ []
  Reads token_request_frame d = c.read_var d ≡ ok (auth_opcode token, [])
  Reads (authenticated_frame r) d =
      ReadsTagged (auth_opcode authenticated_tag)
        (if r then ascii "readonly" else ascii "read-write") d
  Reads (status_frame s) d = c.read_var d ≡ ok (if s then 1 else 0, [])
  Reads (denied_frame m) d = ReadsTagged (auth_opcode permission_denied_tag) m d
  Reads (stateless_frame p) d = c.read_string d ≡ ok (p, [])
  Reads (broadcast_frame p) d = c.read_string d ≡ ok (p, [])
  Reads (close_frame r) d = c.read_string d ≡ ok (r, [])

abbrev pub type_of : Reply → MessageType
type_of (sync_frame _) = sync
type_of (sync_reply_frame _) = sync_reply
type_of (awareness_frame _) = awareness
type_of query_frame = query_awareness
type_of token_request_frame = auth
type_of (authenticated_frame _) = auth
type_of (status_frame _) = sync_status
type_of (denied_frame _) = auth
type_of (stateless_frame _) = stateless
type_of (broadcast_frame _) = broadcast_stateless
type_of (close_frame _) = close

-- The bytes that a frame carries with their length written in front.
abbrev pub body : Reply → Bytes
body (awareness_frame u) = u
body (denied_frame m) = m
body (stateless_frame p) = p
body (broadcast_frame p) = p
body (close_frame r) = r
body _ = []

module _ {c : Codec} (lib0 : IsLib0 c) where
  open lib0 use {read_var-write_var, read_string-write_string, read_buf-write_buf}

  pub parse_envelope :
      (a : Bytes) (t : MessageType) (rest : Bytes)
      → IsU64 (length a)
      → parse c ((c.write_string a ++ c.write_var (opcode t)) ++ rest)
        ≡ ok (record { routing_key = a; message_type = t; decoder = rest })
  unfolding parse
  parse_envelope a t rest h = simp (
    append_assoc,
    read_string-write_string a (c.write_var (opcode t) ++ rest) h,
    read_var-write_var (opcode t) rest (omega (arith, opcode-lt t)),
    from_u64-opcode t,
  )

  parse_bare :
      (a : Bytes) (t : MessageType)
      → IsU64 (length a)
      → parse c (c.write_string a ++ c.write_var (opcode t))
        ≡ ok (record { routing_key = a; message_type = t; decoder = [] })
  parse_bare a t h = rw append-nil at (parse_envelope a t [] h)

  read_string_last : (s : Bytes) → IsU64 (length s) → c.read_string (c.write_string s) ≡ ok (s, [])
  read_string_last s h = rw append-nil at (read_string-write_string s [] h)

  read_buf_last : (b : Bytes) → IsU64 (length b) → c.read_buf (c.write_buf b) ≡ ok (b, [])
  read_buf_last b h = rw append-nil at (read_buf-write_buf b [] h)

  read_var_last : (n : ℕ) → IsU64 n → c.read_var (c.write_var n) ≡ ok (n, [])
  read_var_last n h = rw append-nil at (read_var-write_var n [] h)

  parse_tagged :
      (a : Bytes) (t : MessageType) (front back : Bytes)
      → IsU64 (length a)
      → parse c (((c.write_string a ++ c.write_var (opcode t)) ++ front) ++ back)
        ≡ ok (record { routing_key = a; message_type = t; decoder = front ++ back })
  parse_tagged a t front back h =
      rw (append_assoc (c.write_string a ++ c.write_var (opcode t)) front back)
        (parse_envelope a t (front ++ back) h)

  reads_tagged :
      (tag : ℕ) (text : Bytes)
      → IsU64 tag
      → IsU64 (length text)
      → ReadsTagged c tag text (c.write_var tag ++ c.write_string text)
  reads_tagged tag text h k =
      (c.write_string text, read_var-write_var tag (c.write_string text) h, read_string_last text k)

  -- Every frame that the server builds is parsed back to its address and its message type, and the
  -- payload is read back as it was written, to the end, when the lengths fit 64 bits.
  pub parse-build :
      (a : Bytes) (r : Reply)
      → IsU64 (length a)
      → IsU64 (length (body r))
      → (d : Bytes) × (parse c (build c a r)
          ≡ ok (record { routing_key = a; message_type = type_of r; decoder = d }))
        × Reads c r d
  unfolding Outgoing.into_bytes Outgoing.write_sync_payload Outgoing.sync Outgoing.start
      Outgoing.sync_reply Outgoing.awareness_update Outgoing.query_awareness
      Outgoing.token_sync_request Outgoing.authenticated Outgoing.sync_status
      Outgoing.permission_denied Outgoing.stateless Outgoing.broadcast_stateless
      Outgoing.close_message
  parse-build a (sync_frame b) h k = (b, parse_envelope a sync b h, refl)
  parse-build a (sync_reply_frame b) h k = (b, parse_envelope a sync_reply b h, refl)
  parse-build a (awareness_frame u) h k =
      (c.write_buf u, parse_envelope a awareness _ h, read_buf_last u k)
  parse-build a query_frame h k = ([], parse_bare a query_awareness h, refl)
  parse-build a token_request_frame h k =
      (c.write_var 0, parse_envelope a auth _ h, read_var_last 0 (omega arith))
  parse-build a (authenticated_frame true) h k =
      (_, parse_tagged a auth _ _ h, reads_tagged 2 _ (omega arith) (omega arith))
  parse-build a (authenticated_frame false) h k =
      (_, parse_tagged a auth _ _ h, reads_tagged 2 _ (omega arith) (omega arith))
  parse-build a (status_frame true) h k =
      (_, parse_envelope a sync_status _ h, read_var_last 1 (omega arith))
  parse-build a (status_frame false) h k =
      (_, parse_envelope a sync_status _ h, read_var_last 0 (omega arith))
  parse-build a (denied_frame m) h k =
      (_, parse_tagged a auth _ _ h, reads_tagged 1 m (omega arith) k)
  parse-build a (stateless_frame p) h k = (_, parse_envelope a stateless _ h, read_string_last p k)
  parse-build a (broadcast_frame p) h k =
      (_, parse_envelope a broadcast_stateless _ h, read_string_last p k)
  parse-build a (close_frame m) h k = (_, parse_envelope a close _ h, read_string_last m k)
