-- ===== src/Server/Accounted.antt =====
-- The connections that documents hold for a socket of crates/hocuspocus/src/server.rs, over its frames.
use hocuspocus_rs.Prelude.{
  ℕ, ◌≡◌, Bool, true, ◌&&◌, ◌||◌, not, Option, none, some, List, [], ◌∷◌, ◌+◌, Bytes, Map, inl, inr,
  lookup, insert, length, ltb, contains_key, nat_eq, Bytes-Eq, Bool-cases, Option-cases,
  Result-cases,
}
use hocuspocus_rs.Protocol.{parse, parse_routing_key}
use hocuspocus_rs.Platform.{Platform}
use hocuspocus_rs.Extension.{Admission, default_connection_config}
use hocuspocus_rs.Server.Hub.{Hub}
use hocuspocus_rs.Server.Client.{
  Established, ClientConnection, terminate, send_out, deny, enqueue, drain,
}
use hocuspocus_rs.Server.Auth.{
  admit_each, open_document, enter, welcome, authenticate, read_token, admit,
}
use hocuspocus_rs.Server.Socket.{is_auth, handle_new, route, handle_frame}
use hocuspocus_rs.Server.Held.{
  Booked, Booked-Calm, Booked-insert, Calm, AllCalm, Tracks, Registers, trans_Calm,
}
use hocuspocus_rs.Server.Handover.{admit_each-Calm, register_connection-Registers}

module _ {p : Platform} (held : p.World → ℕ → ℕ → Bool) where
  pub record Accounted (c : ClientConnection p) : Type 0 where
    pub calm : AllCalm held c.extensions
    pub booked : Booked held c.established c.world

module _ {p : Platform} {held : p.World → ℕ → ℕ → Bool} where
  pub in_world :
      (c : ClientConnection p) (w : p.World)
      → Calm held c.world w
      → Accounted held c
      → Accounted held (record c { world = w })
  in_world c w calm a = record {
    calm = a.calm;
    booked = Booked-Calm held c.established calm a.booked;
  }

  in_queue :
      (c : ClientConnection p) (q : Map Bytes (List Bytes)) (b n : ℕ)
      → Accounted held c
      → Accounted held (record c { queue = q; queued_bytes = b; queued_messages = n })
  in_queue c q b n a = record { calm = a.calm; booked = a.booked }

  module _ {hub : Hub p} (t : Tracks held hub) where
    enqueue-Accounted :
        (raw_key bytes : Bytes) (c : ClientConnection p)
        → Accounted held c
        → Accounted held (enqueue raw_key bytes c)
    unfolding enqueue terminate
    enqueue-Accounted raw_key bytes c a =
        elim (Bool-cases (
          not (contains_key raw_key c.queue)
          && ltb c.config.max_pending_documents (length c.queue + 1))) [
            | inl e ↦ rw (e, enqueue) (in_world c _ (t.try_send _ _ _) a)
            | inr e ↦
                elim (Bool-cases (
                  ltb c.config.max_unauthenticated_queue_messages (c.queued_messages + 1)
                  || ltb c.config.max_unauthenticated_queue_size (c.queued_bytes + length bytes))) [
                    | inl e' ↦ rw (e, enqueue, e') (in_world c _ (t.try_send _ _ _) a)
                    | inr e' ↦ rw (e, enqueue, e') (in_queue c _ _ _ a)
                  ]
          ]

    drain-Accounted :
        (est : Established) (msgs : List Bytes) (c : ClientConnection p)
        → Accounted held c
        → Accounted held (drain hub est msgs c)
    unfolding drain
    drain-Accounted est [] c a = a
    drain-Accounted est (msg ∷ msgs) c a =
        drain-Accounted est msgs _
          (in_world _ _ (t.frames est.doc est.conn_id msg c.world) (in_queue c c.queue _ _ a))

    open_document-Accounted :
        (raw_key : Bytes) (est : Established) (c : ClientConnection p)
        → Accounted held (record c { established = insert raw_key est c.established })
        → Accounted held (open_document hub raw_key est c)
    unfolding open_document
    open_document-Accounted raw_key est c a = elim (Option-cases (lookup raw_key c.queue)) [
      | inl e ↦ rw (e, open_document) a
      | inr (pending, e) ↦
          rw (e, open_document)
            (drain-Accounted est pending _ (in_queue _ _ c.queued_bytes c.queued_messages a))
    ]

    -- `enter` behind a registration that began in the world `w`.
    enter-Accounted :
        (raw_key : Bytes) (id : ℕ) (handle : Option ℕ) (c : ClientConnection p) (w' : p.World)
        → lookup raw_key c.established ≡ none
        → Registers held c.world id (handle, w')
        → Accounted held c
        → Accounted held (enter hub raw_key id handle (record c { world = w' }))
    unfolding enter terminate Registers
    enter-Accounted raw_key id none c w' new r a =
        in_world (record c { world = w' }) _ (t.try_send _ _ w') (in_world c w' r a)
    enter-Accounted raw_key id (some h) c w' new r a = open_document-Accounted raw_key _ _ (record {
      calm = a.calm;
      booked = Booked-insert held raw_key h id c.established c.world w' new r a.booked;
    })

    admit-Calm :
        (doc_name text : Bytes) (version : Option Bytes) (c : ClientConnection p)
        → AllCalm held c.extensions
        → Calm held c.world (admit doc_name text version c).world
    unfolding admit
    admit-Calm doc_name text version c q =
        let a =
          admit_each
            (λ ext context config. ext.on_connect (record {
              document_name = doc_name;
              socket_id = c.socket_id;
              context = context;
              request = c.request;
              connection_config = config;
              provider_version = version;
            }))
            c.extensions [] default_connection_config c.world in
        let connected : Calm held c.world a.world =
          admit_each-Calm _ (λ ext context config w q. q.connects _ w) c.extensions []
            default_connection_config c.world q in
        elim (Result-cases a.result) [
          | inr (_, e) ↦ rw (admit, e) connected
          | inl (_, e) ↦
              rw (admit, e)
                (trans_Calm connected (
                  admit_each-Calm _ (λ ext context config w q. q.authenticates _ w) c.extensions
                    a.context a.connection_config a.world q))
        ]

    welcome-Accounted :
        (raw_key : Bytes) (sid : Option Bytes) (a : Admission p) (v : Option Bytes)
        (c : ClientConnection p)
        → lookup raw_key c.established ≡ none
        → Calm held c.world a.world
        → Accounted held c
        → Accounted held (welcome hub raw_key sid a v c)
    unfolding welcome send_out
    welcome-Accounted raw_key sid a v c new calm acc =
        let admitted : ClientConnection p = record c { authenticated = true; world = a.world } in
        let w = (p.try_send c.out_tx _ a.world).1 in
        let greeted : ClientConnection p = record admitted { world = w } in
        let (conn_id, w') = hub.next_conn_id w in
        let now : Accounted held (record greeted { world = w' }) = record {
          calm = acc.calm;
          booked =
              Booked-Calm held c.established
                (trans_Calm calm (trans_Calm (t.try_send _ _ a.world) (t.next_conn_id w)))
                acc.booked;
        } in
        enter-Accounted raw_key conn_id _ (record greeted { world = w' }) _ new
          (register_connection-Registers t 2 _ _ greeted w' acc.calm) now

    authenticate-Accounted :
        (raw_key bytes : Bytes) (c : ClientConnection p)
        → lookup raw_key c.established ≡ none
        → Accounted held c
        → Accounted held (authenticate hub raw_key bytes c)
    unfolding authenticate deny send_out terminate
    authenticate-Accounted raw_key bytes c new acc = elim (Option-cases (read_token hub bytes)) [
      | inl e ↦ rw (e, authenticate) acc
      | inr ((text, version), e) ↦
          let a = admit (parse_routing_key raw_key).0 text version c in
          let calm = admit-Calm (parse_routing_key raw_key).0 text version c acc.calm in
          elim (Result-cases a.result) [
            | inl (_, e') ↦
                rw (e, authenticate, e') (welcome-Accounted raw_key _ a _ c new calm acc)
            | inr (_, e') ↦
                rw (e, authenticate, e')
                  (in_world c _
                    (trans_Calm calm (trans_Calm (t.try_send _ _ a.world) (t.try_send _ _ _))) acc)
          ]
    ]

    route-Accounted :
        (bytes : Bytes) (c : ClientConnection p)
        → Accounted held c
        → Accounted held (route hub bytes c)
    unfolding route handle_new
    route-Accounted bytes c a = elim (Result-cases (parse p.codec bytes)) [
      | inr (_, e) ↦ rw (e, route) a
      | inl (f, e) ↦ elim (Option-cases (lookup f.routing_key c.established)) [
        | inr (est, e') ↦ rw (e, route, e') (in_world c _ (t.frames est.doc est.conn_id bytes _) a)
        | inl e' ↦ elim (Bool-cases (is_auth f.message_type)) [
          | inl auth ↦ rw (e, route, e', auth) (authenticate-Accounted f.routing_key bytes c e' a)
          | inr auth ↦ rw (e, route, e', auth) (enqueue-Accounted f.routing_key bytes c a)
        ]
      ]
    ]

    pub handle_frame-Accounted :
        (bytes : Bytes) (c : ClientConnection p)
        → Accounted held c
        → Accounted held (handle_frame hub bytes c)
    unfolding handle_frame
    handle_frame-Accounted bytes c a =
        let c' : ClientConnection p = record c {
          last_message_at = (p.now c.world).0;
          world = (p.now c.world).1;
        } in
        let heard : Accounted held c' = record {
          calm = a.calm;
          booked = Booked-Calm held c.established (t.now c.world) a.booked;
        } in
        elim (Bool-cases (nat_eq (length bytes) 1)) [
          | inl e ↦ rw (e, handle_frame) heard
          | inr e ↦ rw (e, handle_frame) (route-Accounted bytes c' heard)
        ]
