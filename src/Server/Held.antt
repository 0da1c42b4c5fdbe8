-- ===== src/Server/Held.antt =====
-- The connections of one socket that documents hold (crates/hocuspocus/src/server.rs): what the hooks,
-- the look-up of a document and `register_connection` do to them.
use hocuspocus_rs.Prelude.{
  arith, Map, ◌==◌, Bytes-Eq, bytes_eq_iff, lookup, insert, lookup-insert, Bool-cases, refl, ℕ, ◌≡◌,
  ◌⊎◌, Bool, true, false, Option, none, some, List, [], ◌∷◌, Bytes, inl, inr,
}
use hocuspocus_rs.Server.Client.{Established}
use hocuspocus_rs.Platform.{Platform, OutMsg}
use hocuspocus_rs.Extension.{Extension, ConnectionPayload, AuthenticatePayload, DocumentPayload}
use hocuspocus_rs.Document.State.{
  ConnHandle, Document, add_connection, remove_connection, client_frame,
}
use hocuspocus_rs.Server.Hub.{Hub}

-- `held w h i` says that the actor `h` runs and has the connection `i` of this socket, or will have it
-- once it has worked off its mailbox. From `w` to `w'`, no actor has come to hold one.
pub record Calm {W : Type 0} (held : W → ℕ → ℕ → Bool) (w w' : W) : Type 0 where
  pub fewer : (h i : ℕ) → held w' h i ≡ true → held w h i ≡ true

-- What a registration leaves: the document that has taken the connection `id` holds it.
unfoldable pub Registers : {W : Type 0} → (W → ℕ → ℕ → Bool) → W → ℕ → Option ℕ × W → Type 0
Registers held w id (none, w') = Calm held w w'
Registers held w id (some h, w') =
    (h' i : ℕ) → held w' h' i ≡ true → (held w h' i ≡ true) ⊎ ((h' ≡ h) × (i ≡ id))

module _ {W : Type 0} {held : W → ℕ → ℕ → Bool} where
  pub refl_Calm : {w : W} → Calm held w w
  refl_Calm = record { fewer = λ h i on. on }

  pub trans_Calm : {u v w : W} → Calm held u v → Calm held v w → Calm held u w
  trans_Calm f g = record { fewer = λ h i on. f.fewer h i (g.fewer h i on) }

  pub Registers-after :
      {u w : W} (id : ℕ) (r : Option ℕ × W)
      → Calm held u w
      → Registers held w id r
      → Registers held u id r
  unfolding Registers
  Registers-after id (none, w') c g = trans_Calm c g
  Registers-after id (some h, w') c g =
      λ h' i on. elim (g h' i on) [ inl old ↦ inl (c.fewer h' i old) | inr new ↦ inr new ]

  -- A connection that its document does not hold in the end was not handed over.
  pub lost_Calm :
      {u v w : W} (h id : ℕ)
      → ((h' i : ℕ) → held v h' i ≡ true → (held u h' i ≡ true) ⊎ ((h' ≡ h) × (i ≡ id)))
      → Calm held v w
      → held w h id ≡ false
      → Calm held u w
  lost_Calm h id adds c off = record {
    fewer =
        λ h' i on. elim (adds h' i (c.fewer h' i on)) [ inl old ↦ old | inr (same, equal) ↦ cc ];
  }

-- Each connection that a document holds for the socket is one that `established` lists.
unfoldable pub Booked : {W : Type 0} → (W → ℕ → ℕ → Bool) → Map Bytes Established → W → Type 0
Booked held est w =
    (h i : ℕ)
    → held w h i ≡ true
    → (key : Bytes) × (lookup key est ≡ some (record { doc = h; conn_id = i }))

-- A key that is not listed yet can be listed without losing another.
lookup-insert-new :
    (key raw_key : Bytes) (e v : Established) (est : Map Bytes Established)
    → lookup raw_key est ≡ none
    → lookup key est ≡ some v
    → lookup key (insert raw_key e est) ≡ some v
lookup-insert-new key raw_key e v est new found = elim (Bool-cases (raw_key == key)) [
  | inl e' ↦ (let same = (bytes_eq_iff raw_key key).0 e' in cc)
  | inr e' ↦ rw (lookup-insert raw_key key e est, e') found
]

module _ {W : Type 0} (held : W → ℕ → ℕ → Bool) where
  pub Booked-Calm :
      (est : Map Bytes Established) {w w' : W}
      → Calm held w w'
      → Booked held est w
      → Booked held est w'
  unfolding Booked
  Booked-Calm est c b = λ h i on. b h i (c.fewer h i on)

  pub Booked-insert :
      (raw_key : Bytes) (h id : ℕ) (est : Map Bytes Established) (w w' : W)
      → lookup raw_key est ≡ none
      → Registers held w id (some h, w')
      → Booked held est w
      → Booked held (insert raw_key (record { doc = h; conn_id = id }) est) w'
  unfolding Booked Registers
  Booked-insert raw_key h id est w w' new r b = λ h' i on. elim (r h' i on) [
    | inl old ↦
        let (key, found) = b h' i old in
        (key, lookup-insert-new key raw_key (record { doc = h; conn_id = id }) _ est new found)
    | inr (same, equal) ↦ (
      raw_key,
      rw
          (
            lookup-insert raw_key raw_key (record { doc = h; conn_id = id }) est,
            (bytes_eq_iff raw_key raw_key).1 refl,
          )
          (ground (arith, same, equal)),
    )
  ]

module _ {p : Platform} (held : p.World → ℕ → ℕ → Bool) where
  -- The hooks that run while the socket registers a connection do not hand connections to documents.
  pub record IsCalm (ext : Extension p) : Type 0 where
    pub connects :
        (payload : ConnectionPayload p) (w : p.World) → Calm held w (ext.on_connect payload w).world
    pub authenticates :
        (payload : AuthenticatePayload p) (w : p.World)
        → Calm held w (ext.on_authenticate payload w).world
    pub loads :
        (doc : p.Doc) (payload : DocumentPayload) (w : p.World)
        → Calm held w (ext.on_load_document doc payload w).world
    pub loaded :
        (doc : p.Doc) (payload : DocumentPayload) (w : p.World)
        → Calm held w (ext.after_load_document doc payload w).world

  unfoldable pub AllCalm : List (Extension p) → Type 0
  AllCalm [] = Unit
  AllCalm (ext ∷ exts) = IsCalm ext × AllCalm exts

  -- What the channels, the clock and the registry do to the connections of the socket.
  pub record Tracks (hub : Hub p) : Type 0 where
    pub now : (w : p.World) → Calm held w (p.now w).1
    pub try_send : (to : ℕ) (m : OutMsg) (w : p.World) → Calm held w (p.try_send to m w).1
    pub documents_remove : (name : Bytes) (w : p.World) → Calm held w (p.documents_remove name w)
    pub documents_get : (name : Bytes) (w : p.World) → Calm held w (hub.documents_get name w).1
    pub documents_insert :
        (name : Bytes) (h : ℕ) (w : p.World) → Calm held w (hub.documents_insert name h w)
    pub creating_entry : (name : Bytes) (w : p.World) → Calm held w (hub.creating_entry name w).1
    pub acquire : (lock : ℕ) (w : p.World) → Calm held w (hub.acquire lock w)
    pub release : (lock : ℕ) (w : p.World) → Calm held w (hub.release lock w)
    pub creating_remove : (name : Bytes) (w : p.World) → Calm held w (hub.creating_remove name w)
    pub start_actor : (d : Document p) (w : p.World) → Calm held w (hub.start_actor d w).1
    pub ack_channel : (w : p.World) → Calm held w (hub.ack_channel w).1
    pub ack_received : (ack : ℕ) (w : p.World) → Calm held w (hub.ack_received ack w).1
    pub next_conn_id : (w : p.World) → Calm held w (hub.next_conn_id w).1
    pub abort_writer : (to : ℕ) (w : p.World) → Calm held w (hub.abort_writer to w)
    pub frames :
        (h id : ℕ) (bytes : Bytes) (w : p.World)
        → Calm held w (hub.send_command h (client_frame id bytes) w).1
    -- Only the actor that is sent a connection comes to hold it.
    pub adds :
        (h ack : ℕ) (conn : ConnHandle p) (w : p.World) (h' i : ℕ)
        → held (hub.send_command h (add_connection conn ack) w).1 h' i ≡ true
        → (held w h' i ≡ true) ⊎ ((h' ≡ h) × (i ≡ conn.conn_id))
    -- An actor whose mailbox is closed does not run.
    pub refused :
        (h ack : ℕ) (conn : ConnHandle p) (w : p.World)
        → (hub.send_command h (add_connection conn ack) w).0 ≡ false
        → held (hub.send_command h (add_connection conn ack) w).1 h conn.conn_id ≡ false
    -- Nor does one that has dropped the acknowledgement, since an actor that runs sends it.
    pub dropped :
        (h ack : ℕ) (conn : ConnHandle p) (w : p.World)
        → let w' = (hub.send_command h (add_connection conn ack) w).1 in
          (hub.ack_received ack w').0 ≡ false
          → held (hub.ack_received ack w').1 h conn.conn_id ≡ false
    pub removes :
        (h i : ℕ) (w : p.World)
        → let w' = (hub.send_command h (remove_connection i) w).1 in
          Calm held w w' × (held w' h i ≡ false)
