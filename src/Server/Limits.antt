-- ===== src/Server/Limits.antt =====
-- The limits on the queue of frames before authentication in crates/hocuspocus/src/server.rs, over the
-- frames of a client.
use hocuspocus_rs.Config.{Configuration}
use hocuspocus_rs.Context.{RequestMeta}
use hocuspocus_rs.Prelude.{
  not, ◌&&◌, ◌||◌, ltb, contains_key, nat_eq, ℕ, ◌+◌, ◌-◌, refl, Option, none, some, List, [], ◌∷◌,
  Bytes, arith, lookup, length, inl, inr, Bool-cases, Option-cases, Result-cases, Bytes-Eq,
}
use hocuspocus_rs.Protocol.{parse, parse_routing_key}
use hocuspocus_rs.Platform.{Platform}
use hocuspocus_rs.Extension.{Extension, Admission}
use hocuspocus_rs.Server.Hub.{Hub}
use hocuspocus_rs.Server.Client.{
  Established, ClientConnection, new_client, terminate, send_out, deny, enqueue, drain,
}
use hocuspocus_rs.Server.Auth.{open_document, enter, welcome, authenticate, read_token, admit}
use hocuspocus_rs.Server.Socket.{is_auth, handle_new, route, handle_frame, handle_frames}
use hocuspocus_rs.Server.Totals.{Distinct, total}
use hocuspocus_rs.Server.Fits.{size, Fits, Fits-eq, drop_queued, add_queued}

module _ {p : Platform} where
  abbrev pub Limits : ClientConnection p → Type 0
  Limits c = Fits c.config c.queue c.queued_bytes c.queued_messages

  enqueue-Limits :
      (raw_key bytes : Bytes) (c : ClientConnection p) → Limits c → Limits (enqueue raw_key bytes c)
  unfolding enqueue terminate
  enqueue-Limits raw_key bytes c h =
      elim (Bool-cases (
        not (contains_key raw_key c.queue)
        && ltb c.config.max_pending_documents (length c.queue + 1))) [
          | inl e ↦ rw (e, enqueue) h
          | inr e ↦
              elim (Bool-cases (
                ltb c.config.max_unauthenticated_queue_messages (c.queued_messages + 1)
                || ltb c.config.max_unauthenticated_queue_size (c.queued_bytes + length bytes))) [
                  | inl e' ↦ rw (e, enqueue, e') h
                  | inr e' ↦
                      rw (e, enqueue, e')
                        (add_queued c.config c.queue raw_key bytes c.queued_bytes c.queued_messages
                          h ground arith ground arith ground arith)
                ]
        ]

  module _ (hub : Hub p) where
    drain-Limits :
        (est : Established) (msgs : List Bytes) (c : ClientConnection p)
        → Fits c.config c.queue (c.queued_bytes - size msgs) (c.queued_messages - length msgs)
        → Limits (drain hub est msgs c)
    unfolding drain size
    drain-Limits est [] c h = Fits-eq c.config c.queue (ground arith) (ground arith) h
    drain-Limits est (msg ∷ msgs) c h =
        drain-Limits est msgs _ (Fits-eq c.config c.queue (ground arith) (ground arith) h)

    open_document-Limits :
        (raw_key : Bytes) (est : Established) (c : ClientConnection p)
        → Limits c
        → Limits (open_document hub raw_key est c)
    unfolding open_document
    open_document-Limits raw_key est c h = elim (Option-cases (lookup raw_key c.queue)) [
      | inl e ↦ rw (e, open_document) h
      | inr (pending, e) ↦
          rw (e, open_document)
            (drain-Limits est pending _ (drop_queued c.config c.queue raw_key pending _ _ e h))
    ]

    enter-Limits :
        (raw_key : Bytes) (conn_id : ℕ) (handle : Option ℕ) (c : ClientConnection p)
        → Limits c
        → Limits (enter hub raw_key conn_id handle c)
    unfolding enter terminate
    enter-Limits raw_key conn_id none c h = h
    enter-Limits raw_key conn_id (some n) c h = open_document-Limits raw_key _ c h

    welcome-Limits :
        (raw_key : Bytes) (sid : Option Bytes) (a : Admission p) (v : Option Bytes)
        (c : ClientConnection p)
        → Limits c
        → Limits (welcome hub raw_key sid a v c)
    unfolding welcome send_out
    welcome-Limits raw_key sid a v c h = enter-Limits raw_key _ _ _ h

    authenticate-Limits :
        (raw_key bytes : Bytes) (c : ClientConnection p)
        → Limits c
        → Limits (authenticate hub raw_key bytes c)
    unfolding authenticate deny send_out terminate
    authenticate-Limits raw_key bytes c h = elim (Option-cases (read_token hub bytes)) [
      | inl e ↦ rw (e, authenticate) h
      | inr ((text, version), e) ↦
          elim (Result-cases (admit (parse_routing_key raw_key).0 text version c).result) [
            | inl (_, e') ↦
                rw (e, authenticate, e')
                  (welcome-Limits raw_key _ (admit (parse_routing_key raw_key).0 text version c) _ c
                    h)
            | inr (_, e') ↦ rw (e, authenticate, e') h
          ]
    ]

    route-Limits : (bytes : Bytes) (c : ClientConnection p) → Limits c → Limits (route hub bytes c)
    unfolding route handle_new
    route-Limits bytes c h = elim (Result-cases (parse p.codec bytes)) [
      | inr (_, e) ↦ rw (e, route) h
      | inl (f, e) ↦ elim (Option-cases (lookup f.routing_key c.established)) [
        | inr (_, e') ↦ rw (e, route, e') h
        | inl e' ↦ elim (Bool-cases (is_auth f.message_type)) [
          | inl a ↦ rw (e, route, e', a) (authenticate-Limits f.routing_key bytes c h)
          | inr a ↦ rw (e, route, e', a) (enqueue-Limits f.routing_key bytes c h)
        ]
      ]
    ]

    pub handle_frame-Limits :
        (bytes : Bytes) (c : ClientConnection p) → Limits c → Limits (handle_frame hub bytes c)
    unfolding handle_frame
    handle_frame-Limits bytes c h = elim (Bool-cases (nat_eq (length bytes) 1)) [
      | inl e ↦ rw (e, handle_frame) h
      | inr e ↦ rw (e, handle_frame) (route-Limits bytes _ h)
    ]

    handle_frames_keep :
        (datas : List Bytes) (c : ClientConnection p)
        → Limits c
        → Limits (handle_frames hub datas c)
    unfolding handle_frames
    handle_frames_keep [] c h = h
    handle_frames_keep (bytes ∷ rest) c h =
        handle_frames_keep rest _ (handle_frame-Limits bytes c h)

    -- Whatever frames a client sends, in whatever order, each limit on its queue holds after them,
    -- and the two counters are the number and the total size of the frames that are queued.
    pub handle_frames-Limits :
        (datas : List Bytes) (config : Configuration) (exts : List (Extension p))
        (socket_id : Bytes) (out_tx : ℕ) (request : RequestMeta) (w : p.World)
        → Limits (handle_frames hub datas (new_client p config exts socket_id out_tx request w))
    unfolding new_client Fits Distinct total
    handle_frames-Limits datas config exts socket_id out_tx request w =
        handle_frames_keep datas _ (tt, refl, refl, ground arith, ground arith, ground arith)
