-- ===== src/Server/Gate.antt =====
-- What lets a client of crates/hocuspocus/src/server.rs open a document.
use mathlib.Core.Path.{subst}
use hocuspocus_rs.Prelude.{
  ◌⊎◌, ap, ℕ, ◌≡◌, refl, ◌∙◌, true, false, Option, none, some, List, [], ◌∷◌, Bytes, arith, lookup,
  insert, lookup-insert, ◌==◌, bytes_eq_iff, length, nat_eq, ok, inl, inr, Bool-cases, Option-cases,
  Result-cases, Bytes-Eq,
}
use hocuspocus_rs.Protocol.{IncomingFrame, parse, parse_routing_key}
use hocuspocus_rs.Platform.{Platform}
use hocuspocus_rs.Extension.{Admission}
use hocuspocus_rs.Server.Hub.{Hub}
use hocuspocus_rs.Server.Client.{
  Established, ClientConnection, terminate, send_out, deny, enqueue, drain,
}
use hocuspocus_rs.Server.Auth.{open_document, enter, welcome, authenticate, read_token, admit}
use hocuspocus_rs.Server.Admitted.{Admitted, only_auth, token_of, hooks_of}
use hocuspocus_rs.Server.Socket.{is_auth, handle_new, route, handle_frame}

module _ {p : Platform} (hub : Hub p) where
  enqueue-established :
      (raw_key bytes : Bytes) (c : ClientConnection p)
      → (enqueue raw_key bytes c).established ≡ c.established
  unfolding enqueue terminate
  enqueue-established raw_key bytes c = ground arith

  drain-established :
      (est : Established) (msgs : List Bytes) (c : ClientConnection p)
      → (drain hub est msgs c).established ≡ c.established
  unfolding drain
  drain-established est [] c = refl
  drain-established est (msg ∷ msgs) c = drain-established est msgs _

  open_document-established :
      (raw_key : Bytes) (est : Established) (c : ClientConnection p)
      → (open_document hub raw_key est c).established ≡ insert raw_key est c.established
  unfolding open_document
  open_document-established raw_key est c = elim (Option-cases (lookup raw_key c.queue)) [
    | inl e ↦ rw (e, open_document) refl
    | inr (pending, e) ↦ rw (e, open_document) (drain-established est pending _)
  ]

  -- Only the entry of `raw_key` may differ.
  Opens : Bytes → ClientConnection p → ClientConnection p → Type 0
  Opens raw_key c' c =
      (key : Bytes)
      → (raw_key == key) ≡ false
      → lookup key c'.established ≡ lookup key c.established

  enter-Opens :
      (raw_key : Bytes) (conn_id : ℕ) (handle : Option ℕ) (c : ClientConnection p)
      → Opens raw_key (enter hub raw_key conn_id handle c) c
  unfolding Opens enter terminate
  enter-Opens raw_key conn_id none c key ne = refl
  enter-Opens raw_key conn_id (some n) c key ne =
      rw (open_document-established raw_key (record { doc = n; conn_id = conn_id }) c) ground
        (arith, ne, lookup-insert raw_key key (record { doc = n; conn_id = conn_id }) c.established)

  welcome-Opens :
      (raw_key : Bytes) (sid : Option Bytes) (a : Admission p) (v : Option Bytes)
      (c : ClientConnection p)
      → Opens raw_key (welcome hub raw_key sid a v c) c
  unfolding Opens welcome send_out
  welcome-Opens raw_key sid a v c key ne = enter-Opens raw_key _ _ _ key ne

  -- What `authenticate` looks at before it opens a document.
  unfoldable Lets : Bytes → Bytes → ClientConnection p → Type 0
  Lets raw_key bytes c =
      (text : Bytes) × (version : Option Bytes) × (read_token hub bytes ≡ some (text, version))
      × ((admit (parse_routing_key raw_key).0 text version c).result ≡ ok tt)

  -- `c` once `handle_frame` has noted the time of a frame.
  abbrev pub noted : ClientConnection p → ClientConnection p
  noted c = record c { last_message_at = (p.now c.world).0; world = (p.now c.world).1 }

  authenticate-cases :
      (raw_key bytes : Bytes) (c : ClientConnection p)
      → ((authenticate hub raw_key bytes c).established ≡ c.established)
        ⊎ (Lets raw_key bytes c × Opens raw_key (authenticate hub raw_key bytes c) c)
  unfolding Lets Opens authenticate deny
  authenticate-cases raw_key bytes c = elim (Option-cases (read_token hub bytes)) [
    | inl e ↦ inl (rw (e, authenticate) refl)
    | inr ((text, version), e) ↦
        let a = admit (parse_routing_key raw_key).0 text version c in
        elim (Result-cases a.result) [
          | inl (_, e') ↦ inr (
            (text, version, e, e'),
            λ key ne. rw (e, authenticate, e') (welcome-Opens raw_key _ a version c key ne),
          )
          | inr (_, e') ↦ inl (rw (e, authenticate, e', deny, send_out, terminate) refl)
        ]
  ]

  route-cases :
      (bytes : Bytes) (c : ClientConnection p)
      → ((route hub bytes c).established ≡ c.established)
        ⊎ ((f : IncomingFrame) × (parse p.codec bytes ≡ ok f)
            × (is_auth f.message_type ≡ true)
            × Lets f.routing_key bytes c
            × Opens f.routing_key (route hub bytes c) c)
  unfolding Opens route
  route-cases bytes c = elim (Result-cases (parse p.codec bytes)) [
    | inr (_, e) ↦ inl (rw (e, route) refl)
    | inl (f, e) ↦ elim (Option-cases (lookup f.routing_key c.established)) [
      | inr (_, e') ↦ inl (rw (e, route, e') refl)
      | inl e' ↦ elim (Bool-cases (is_auth f.message_type)) [
        | inr a ↦ inl (rw (e, route, e', handle_new, a) (enqueue-established f.routing_key bytes c))
        | inl a ↦ elim (authenticate-cases f.routing_key bytes c) [
          | inl same ↦ inl (rw (e, route, e', handle_new, a) same)
          | inr (admitted, opens) ↦
              inr (f, e, a, admitted, λ key ne. rw (e, route, e', handle_new, a) (opens key ne))
        ]
      ]
    ]
  ]

  short_frame :
      (bytes : Bytes) (c : ClientConnection p)
      → nat_eq (length bytes) 1 ≡ true
      → handle_frame hub bytes c ≡ noted c
  unfolding handle_frame
  short_frame bytes c e = rw (e, handle_frame) refl

  long_frame :
      (bytes : Bytes) (c : ClientConnection p)
      → nat_eq (length bytes) 1 ≡ false
      → handle_frame hub bytes c ≡ route hub bytes (noted c)
  unfolding handle_frame
  long_frame bytes c e = rw (e, handle_frame) refl

  unopened :
      (key : Bytes) (est : Established) (c c' : ClientConnection p)
      → lookup key c.established ≡ none
      → lookup key c'.established ≡ some est
      → lookup key c'.established ≡ lookup key c.established
      → ⊥
  unopened key est c c' before after same = cc

  -- A frame opens a document under a routing key that the client had not opened only if it is an Auth
  -- frame for that very key with a token, empty if it cannot be read, and every `on_connect` hook and
  -- then, with this token, every `on_authenticate` hook has answered Ok, each run on what those before
  -- it have left.
  pub handle_frame-Admitted :
      (bytes key : Bytes) (est : Established) (c : ClientConnection p)
      → lookup key c.established ≡ none
      → lookup key (handle_frame hub bytes c).established ≡ some est
      → Admitted hub key bytes (noted c)
  unfolding Opens Lets
  handle_frame-Admitted bytes key est c before after = elim (Bool-cases (nat_eq (length bytes) 1)) [
    | inl e ↦ absurd (
        unopened key est c (handle_frame hub bytes c) before after
          (ap (λ c'. lookup key c'.established) (short_frame bytes c e)))
    | inr e ↦ elim (route-cases bytes (noted c)) [
      | inl same ↦ absurd (
          unopened key est c (handle_frame hub bytes c) before after
            (ap (λ c'. lookup key c'.established) (long_frame bytes c e) ∙ ap (lookup key) same))
      | inr (f, parsed, a, (text, version, tok, let_in), opens) ↦
          elim (Bool-cases (f.routing_key == key)) [
            | inl hit ↦
                let k = (bytes_eq_iff f.routing_key key).0 hit in
                let (between, after, on, in_) =
                  hooks_of hub (parse_routing_key key).0 text version (noted c) (
                    subst
                      (λ k. (admit (parse_routing_key k).0 text version (noted c)).result ≡ ok tt) k
                      let_in) in
                record {
                  frame = f;
                  parsed = parsed;
                  addressed = k;
                  auth_frame = only_auth hub f.message_type a;
                  text = text;
                  carried = token_of hub f bytes text version parsed tok;
                  version = version;
                  between = between;
                  left = after;
                  connected = on;
                  authenticated = in_;
                }
            | inr ne ↦ absurd (
                unopened key est c (handle_frame hub bytes c) before after
                  (ap (λ c'. lookup key c'.established) (long_frame bytes c e) ∙ opens key ne))
          ]
    ]
  ]
