-- ===== src/Server/Idle.antt =====
-- How long crates/hocuspocus/src/server.rs waits for a client that has not authenticated.
use hocuspocus_rs.Prelude.{
  ℕ, ◌≡◌, refl, ap, sym, ◌∙◌, true, false, Option, none, some, List, [], ◌∷◌, Bytes, arith, lookup,
  length, nat_eq, inl, inr, Bool-cases, Option-cases, Result-cases, Bytes-Eq,
}
use hocuspocus_rs.Config.{Configuration}
use hocuspocus_rs.Protocol.{parse, parse_routing_key}
use hocuspocus_rs.Platform.{Platform}
use hocuspocus_rs.Extension.{Admission}
use hocuspocus_rs.Server.Hub.{Hub}
use hocuspocus_rs.Server.Client.{
  Established, ClientConnection, idle_deadline, terminate, send_out, deny, enqueue, drain,
}
use hocuspocus_rs.Server.Auth.{open_document, enter, welcome, authenticate, read_token, admit}
use hocuspocus_rs.Server.Socket.{is_auth, handle_new, route, handle_frame, handle_frames}

module _ {p : Platform} (hub : Hub p) where
  -- What stands behind the deadline of a client that has not authenticated.
  clock : ClientConnection p → Configuration × ℕ
  clock c = (c.config, c.established_at)

  enqueue-clock :
      (raw_key bytes : Bytes) (c : ClientConnection p) → clock (enqueue raw_key bytes c) ≡ clock c
  unfolding clock enqueue terminate
  enqueue-clock raw_key bytes c = ground arith

  enqueue-authenticated :
      (raw_key bytes : Bytes) (c : ClientConnection p)
      → (enqueue raw_key bytes c).authenticated ≡ c.authenticated
  unfolding enqueue terminate
  enqueue-authenticated raw_key bytes c = ground arith

  drain-authenticated :
      (est : Established) (msgs : List Bytes) (c : ClientConnection p)
      → (drain hub est msgs c).authenticated ≡ c.authenticated
  unfolding drain
  drain-authenticated est [] c = refl
  drain-authenticated est (msg ∷ msgs) c = drain-authenticated est msgs _

  open_document-authenticated :
      (raw_key : Bytes) (est : Established) (c : ClientConnection p)
      → (open_document hub raw_key est c).authenticated ≡ c.authenticated
  unfolding open_document
  open_document-authenticated raw_key est c = elim (Option-cases (lookup raw_key c.queue)) [
    | inl e ↦ rw (e, open_document) refl
    | inr (pending, e) ↦ rw (e, open_document) (drain-authenticated est pending _)
  ]

  enter-authenticated :
      (raw_key : Bytes) (conn_id : ℕ) (handle : Option ℕ) (c : ClientConnection p)
      → (enter hub raw_key conn_id handle c).authenticated ≡ c.authenticated
  unfolding enter terminate
  enter-authenticated raw_key conn_id none c = refl
  enter-authenticated raw_key conn_id (some n) c = open_document-authenticated raw_key _ c

  welcome-authenticated :
      (raw_key : Bytes) (sid : Option Bytes) (a : Admission p) (v : Option Bytes)
      (c : ClientConnection p)
      → (welcome hub raw_key sid a v c).authenticated ≡ true
  unfolding welcome send_out
  welcome-authenticated raw_key sid a v c = enter-authenticated raw_key _ _ _

  -- An operation that leaves the client unauthenticated has found it so, and has kept its clock.
  Waits : ClientConnection p → ClientConnection p → Type 0
  Waits c' c = c'.authenticated ≡ false → (c.authenticated ≡ false) × (clock c' ≡ clock c)

  welcome-Waits :
      (raw_key : Bytes) (sid : Option Bytes) (a : Admission p) (v : Option Bytes)
      (c : ClientConnection p)
      → Waits (welcome hub raw_key sid a v c) c
  unfolding Waits
  welcome-Waits raw_key sid a v c n = ground (arith, n, welcome-authenticated raw_key sid a v c)

  authenticate-Waits :
      (raw_key bytes : Bytes) (c : ClientConnection p) → Waits (authenticate hub raw_key bytes c) c
  unfolding Waits clock authenticate deny send_out terminate
  authenticate-Waits raw_key bytes c = elim (Option-cases (read_token hub bytes)) [
    | inl e ↦ rw (e, authenticate) (λ n. (n, refl))
    | inr ((text, version), e) ↦
        elim (Result-cases (admit (parse_routing_key raw_key).0 text version c).result) [
          | inl (_, e') ↦
              rw (e, authenticate, e')
                (welcome-Waits raw_key _ (admit (parse_routing_key raw_key).0 text version c) _ c)
          | inr (_, e') ↦ rw (e, authenticate, e') (λ n. (n, refl))
        ]
  ]

  route-Waits : (bytes : Bytes) (c : ClientConnection p) → Waits (route hub bytes c) c
  unfolding Waits clock route handle_new
  route-Waits bytes c = elim (Result-cases (parse p.codec bytes)) [
    | inr (_, e) ↦ rw (e, route) (λ n. (n, refl))
    | inl (f, e) ↦ elim (Option-cases (lookup f.routing_key c.established)) [
      | inr (_, e') ↦ rw (e, route, e') (λ n. (n, refl))
      | inl e' ↦ elim (Bool-cases (is_auth f.message_type)) [
        | inl a ↦ rw (e, route, e', a) (authenticate-Waits f.routing_key bytes c)
        | inr a ↦
            rw (e, route, e', a)
              (λ n. (
                sym (enqueue-authenticated f.routing_key bytes c) ∙ n,
                enqueue-clock f.routing_key bytes c,
              ))
      ]
    ]
  ]

  handle_frame-Waits : (bytes : Bytes) (c : ClientConnection p) → Waits (handle_frame hub bytes c) c
  unfolding Waits clock handle_frame
  handle_frame-Waits bytes c = elim (Bool-cases (nat_eq (length bytes) 1)) [
    | inl e ↦ rw (e, handle_frame) (λ n. (n, refl))
    | inr e ↦ rw (e, handle_frame) (route-Waits bytes _)
  ]

  handle_frames-Waits :
      (datas : List Bytes) (c : ClientConnection p) → Waits (handle_frames hub datas c) c
  unfolding Waits handle_frames
  handle_frames-Waits [] c = λ n. (n, refl)
  handle_frames-Waits (bytes ∷ rest) c = λ n.
      let (n', k) = handle_frames-Waits rest (handle_frame hub bytes c) n in
      let (n'', k') = handle_frame-Waits bytes c n' in (n'', k ∙ k')

  -- No frames put off the deadline of a client that they leave unauthenticated: it is the one that
  -- the client had before them.
  pub handle_frames-idle_deadline :
      (datas : List Bytes) (c : ClientConnection p)
      → (handle_frames hub datas c).authenticated ≡ false
      → idle_deadline (handle_frames hub datas c) ≡ idle_deadline c
  unfolding idle_deadline clock Waits
  handle_frames-idle_deadline datas c n =
      let (n', k) = handle_frames-Waits datas c n in
      ground (arith, n, n', ap (λ k. k.0) k, ap (λ k. k.1) k)
