-- ===== src/Server/Stable.antt =====
-- What the frames of a client leave alone in `ClientConnection` of crates/hocuspocus/src/server.rs: a
-- predicate that its queue, its documents, its authentication and the world do not touch is kept.
use hocuspocus_rs.Prelude.{
  ℕ, ◌+◌, ◌≡◌, refl, true, none, some, Option, List, [], ◌∷◌, Bytes, Map, arith, lookup, length,
  ltb, not, ◌&&◌, ◌||◌, contains_key, nat_eq, inl, inr, Bool-cases, Option-cases, Result-cases,
  Bytes-Eq,
}
use hocuspocus_rs.Config.{Configuration}
use hocuspocus_rs.Protocol.{parse, parse_routing_key}
use hocuspocus_rs.Platform.{Platform}
use hocuspocus_rs.Extension.{Admission}
use hocuspocus_rs.Server.Hub.{Hub}
use hocuspocus_rs.Server.Client.{
  Established, ClientConnection, idle_deadline, terminate, send_out, deny, enqueue, drain,
}
use hocuspocus_rs.Server.Auth.{open_document, enter, welcome, authenticate, read_token, admit}
use hocuspocus_rs.Server.Socket.{is_auth, handle_new, route, handle_frame}

module _ {p : Platform} where
  pub record IsStable (P : ClientConnection p → Type 0) : Type 0 where
    pub world : (c : ClientConnection p) (w : p.World) → P c → P (record c { world = w })
    pub queue :
        (c : ClientConnection p) (q : Map Bytes (List Bytes)) (b n : ℕ)
        → P c
        → P (record c { queue = q; queued_bytes = b; queued_messages = n })
    pub established :
        (c : ClientConnection p) (e : Map Bytes Established)
        → P c
        → P (record c { established = e })
    pub admitted : (c : ClientConnection p) → P c → P (record c { authenticated = true })

  module _ (hub : Hub p) {P : ClientConnection p → Type 0} (s : IsStable P) where
    enqueue_keeps :
        (raw_key bytes : Bytes) (c : ClientConnection p) → P c → P (enqueue raw_key bytes c)
    unfolding enqueue terminate
    enqueue_keeps raw_key bytes c h =
        elim (Bool-cases (
          not (contains_key raw_key c.queue)
          && ltb c.config.max_pending_documents (length c.queue + 1))) [
            | inl e ↦ rw (e, enqueue) (s.world c _ h)
            | inr e ↦
                elim (Bool-cases (
                  ltb c.config.max_unauthenticated_queue_messages (c.queued_messages + 1)
                  || ltb c.config.max_unauthenticated_queue_size (c.queued_bytes + length bytes))) [
                    | inl e' ↦ rw (e, enqueue, e') (s.world c _ h)
                    | inr e' ↦ rw (e, enqueue, e') (s.queue c _ _ _ h)
                  ]
          ]

    drain_keeps :
        (est : Established) (msgs : List Bytes) (c : ClientConnection p)
        → P c
        → P (drain hub est msgs c)
    unfolding drain
    drain_keeps est [] c h = h
    drain_keeps est (msg ∷ msgs) c h =
        drain_keeps est msgs _ (s.world _ _ (s.queue c c.queue _ _ h))

    open_document_keeps :
        (raw_key : Bytes) (est : Established) (c : ClientConnection p)
        → P c
        → P (open_document hub raw_key est c)
    unfolding open_document
    open_document_keeps raw_key est c h = elim (Option-cases (lookup raw_key c.queue)) [
      | inl e ↦ rw (e, open_document) (s.established c _ h)
      | inr (pending, e) ↦
          rw (e, open_document)
            (drain_keeps est pending _
              (s.queue _ _ c.queued_bytes c.queued_messages (s.established c _ h)))
    ]

    enter_keeps :
        (raw_key : Bytes) (conn_id : ℕ) (handle : Option ℕ) (c : ClientConnection p)
        → P c
        → P (enter hub raw_key conn_id handle c)
    unfolding enter terminate
    enter_keeps raw_key conn_id none c h = s.world c _ h
    enter_keeps raw_key conn_id (some n) c h = open_document_keeps raw_key _ c h

    welcome_keeps :
        (raw_key : Bytes) (sid : Option Bytes) (a : Admission p) (v : Option Bytes)
        (c : ClientConnection p)
        → P c
        → P (welcome hub raw_key sid a v c)
    unfolding welcome send_out
    welcome_keeps raw_key sid a v c h = enter_keeps raw_key _ _ _ (s.world _ _ (s.admitted c h))

    authenticate_keeps :
        (raw_key bytes : Bytes) (c : ClientConnection p)
        → P c
        → P (authenticate hub raw_key bytes c)
    unfolding authenticate deny send_out terminate
    authenticate_keeps raw_key bytes c h = elim (Option-cases (read_token hub bytes)) [
      | inl e ↦ rw (e, authenticate) h
      | inr ((text, version), e) ↦
          let a = admit (parse_routing_key raw_key).0 text version c in
          elim (Result-cases a.result) [
            | inl (_, e') ↦ rw (e, authenticate, e') (welcome_keeps raw_key _ a _ c h)
            | inr (_, e') ↦ rw (e, authenticate, e') (s.world c _ h)
          ]
    ]

    pub route_keeps : (bytes : Bytes) (c : ClientConnection p) → P c → P (route hub bytes c)
    unfolding route handle_new
    route_keeps bytes c h = elim (Result-cases (parse p.codec bytes)) [
      | inr (_, e) ↦ rw (e, route) h
      | inl (f, e) ↦ elim (Option-cases (lookup f.routing_key c.established)) [
        | inr (_, e') ↦ rw (e, route, e') (s.world c _ h)
        | inl e' ↦ elim (Bool-cases (is_auth f.message_type)) [
          | inl a ↦ rw (e, route, e', a) (authenticate_keeps f.routing_key bytes c h)
          | inr a ↦ rw (e, route, e', a) (enqueue_keeps f.routing_key bytes c h)
        ]
      ]
    ]

  -- An authenticated client that was heard of last at `now`.
  pub record IsAwake (config : Configuration) (now : ℕ) (c : ClientConnection p) : Type 0 where
    pub authenticated : c.authenticated ≡ true
    pub heard : c.last_message_at ≡ now
    pub configured : c.config ≡ config

  IsAwake-IsStable : (config : Configuration) (now : ℕ) → IsStable (IsAwake config now)
  IsAwake-IsStable config now = record {
    world = λ c w v. record {
      authenticated = v.authenticated;
      heard = v.heard;
      configured = v.configured;
    };
    queue = λ c q b n v. record {
      authenticated = v.authenticated;
      heard = v.heard;
      configured = v.configured;
    };
    established = λ c e v. record {
      authenticated = v.authenticated;
      heard = v.heard;
      configured = v.configured;
    };
    admitted = λ c v. record { authenticated = refl; heard = v.heard; configured = v.configured };
  }

  -- Any frame of an authenticated client puts off its deadline.
  pub idle_deadline-handle_frame :
      (hub : Hub p) (bytes : Bytes) (c : ClientConnection p)
      → c.authenticated ≡ true
      → idle_deadline (handle_frame hub bytes c) ≡ (p.now c.world).0 + c.config.timeout
  unfolding handle_frame idle_deadline
  idle_deadline-handle_frame hub bytes c h =
      let now = (p.now c.world).0 in
      let c' : ClientConnection p = record c { last_message_at = now; world = (p.now c.world).1 } in
      let awake : IsAwake c.config now c' = record {
        authenticated = h;
        heard = refl;
        configured = refl;
      } in
      elim (Bool-cases (nat_eq (length bytes) 1)) [
        | inl e ↦ ground arith
        | inr e ↦
            let v = route_keeps hub (IsAwake-IsStable c.config now) bytes c' awake in ground arith
      ]
