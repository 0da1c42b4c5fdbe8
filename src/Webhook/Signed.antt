-- ===== src/Webhook/Signed.antt =====
-- What the extension of crates/hocuspocus/src/extensions/webhook.rs posts over a run of events, and
-- that it leaves the storage alone.
use mathlib.Core.List.{append_assoc, append-nil}
use hocuspocus_rs.Prelude.{
  ℕ, suc, ◌≡◌, refl, ap, sym, ◌∙◌, true, false, Option, some, List, [], ◌∷◌, ◌++◌, Bytes, ascii,
  length, lookup, if◌then◌else◌, Bool-cases, inl, inr, Bytes-Eq, bytes_eq,
}
use hocuspocus_rs.Platform.{Platform}
use hocuspocus_rs.Extension.{Extension, ChangePayload, ConnectionPayload, run_each, run_until_error}
use hocuspocus_rs.Document.Store.{run_store_hooks}
use hocuspocus_rs.Document.View.{IsQuiet}
use hocuspocus_rs.Document.Durable.{IsStore}
use hocuspocus_rs.Webhook.{
  WebhookEvent, as_str, change, connect, disconnect, Webhook, WebClient, has_event, signature, send,
  notify_connect, notify_disconnect, notify_change, webhook_extension,
}

-- What the hooks of the extension are told.
pub data Notice (p : Platform) : Type 0 where
  connected : ConnectionPayload p → Notice p
  disconnected : ConnectionPayload p → Notice p
  changed : ChangePayload → Notice p

abbrev pub event_of : {p : Platform} → Notice p → WebhookEvent
event_of (connected _) = connect
event_of (disconnected _) = disconnect
event_of (changed _) = change

-- A post: where it goes, its headers and its body.
pub record Post : Type 0 where
  pub to : Bytes
  pub headers : List (Bytes × Bytes)
  pub content : Bytes

module _ {p : Platform} (c : WebClient p) (hook : Webhook) where
  abbrev pub notify : Notice p → p.World → p.World
  notify (connected payload) = notify_connect c hook payload
  notify (disconnected payload) = notify_disconnect c hook payload
  notify (changed payload) = notify_change c hook payload

  pub notify_all : List (Notice p) → p.World → p.World
  notify_all [] w = w
  notify_all (n ∷ ns) w = notify_all ns (notify n w)

  -- How many of the notices are of an event that the hook is set to.
  pub selected : List (Notice p) → ℕ
  selected [] = 0
  selected (n ∷ ns) =
      let rest = selected ns in if has_event hook.events (event_of n) then suc rest else rest

  -- A receiver that knows the secret can check where the post comes from and that it is whole.
  abbrev pub IsSigned : Post → Type 0
  IsSigned post =
      (post.to ≡ hook.url)
      × (lookup (ascii "X-Hocuspocus-Signature-256") post.headers
          ≡ some (ascii "sha256=" ++ c.hex (c.hmac_sha256 hook.secret post.content)))

  abbrev pub AllSigned : List Post → Type 0
  AllSigned [] = Unit
  AllSigned (post ∷ posts) = IsSigned post × AllSigned posts

  AllSigned-append : (xs ys : List Post) → AllSigned xs → AllSigned ys → AllSigned (xs ++ ys)
  AllSigned-append [] ys h k = k
  AllSigned-append (x ∷ xs) ys h k = (h.0, AllSigned-append xs ys h.1 k)

  module _ (posts : p.World → List Post)
      (logs : (url : Bytes) (headers : List (Bytes × Bytes)) (body : Bytes) (w : p.World)
        → posts (c.post url headers body w)
          ≡ posts w ++ record { to = url; headers = headers; content = body } ∷ []) where
    send_once :
        (event : WebhookEvent) (payload : c.Json) (w : p.World)
        → has_event hook.events event ≡ true
        → (post : Post) × (posts (send c hook event payload w) ≡ posts w ++ post ∷ [])
          × IsSigned post
    unfolding send signature lookup bytes_eq
    send_once event payload w h =
        let text =
          c.to_string
            (c.object ((ascii "event", c.text (as_str event)) ∷ (ascii "payload", payload) ∷ [])) in
        let post : Post = record {
          to = hook.url;
          headers =
              (ascii "X-Hocuspocus-Signature-256", signature c hook text)
              ∷ (ascii "Content-Type", ascii "application/json")
              ∷ [];
          content = text;
        } in
        (post, rw h (logs _ _ _ w), (refl, refl))

    notify_once :
        (n : Notice p) (w : p.World)
        → has_event hook.events (event_of n) ≡ true
        → (post : Post) × (posts (notify n w) ≡ posts w ++ post ∷ []) × IsSigned post
    unfolding notify_connect notify_disconnect notify_change
    notify_once (connected payload) w h = send_once connect _ w h
    notify_once (disconnected payload) w h = send_once disconnect _ w h
    notify_once (changed payload) w h = send_once change _ w h

    notify_deaf :
        (n : Notice p) (w : p.World) → has_event hook.events (event_of n) ≡ false → notify n w ≡ w
    unfolding notify_connect notify_disconnect notify_change send
    notify_deaf (connected payload) w h = rw h refl
    notify_deaf (disconnected payload) w h = rw h refl
    notify_deaf (changed payload) w h = rw h refl

    -- Over any run of connections, disconnections and changes, the hook posts once for each of an event
    -- that it is set to, and for no other; every post goes to its address, with a header that signs its
    -- body with the secret. `posts` holds what the HTTP client is given.
    pub notify_all-signed :
        (ns : List (Notice p)) (w : p.World)
        → (sent : List Post) × (posts (notify_all ns w) ≡ posts w ++ sent)
          × (length sent ≡ selected ns)
          × AllSigned sent
    unfolding notify_all selected
    notify_all-signed [] w = ([], sym (append-nil (posts w)), refl, tt)
    notify_all-signed (n ∷ ns) w = elim (Bool-cases (has_event hook.events (event_of n))) [
      | inl heard ↦
          let (post, at, signed) = notify_once n w heard in
          let (sent, after, count, all) = notify_all-signed ns (notify n w) in
          (
            post ∷ sent,
            after ∙ ap (λ ps. ps ++ sent) at ∙ append_assoc (posts w) (post ∷ []) sent,
            rw heard (ap suc count),
            (signed, all),
          )
      | inr deaf ↦
          let (sent, after, count, all) = notify_all-signed ns w in
          (sent, rw (notify_deaf n w deaf) after, rw deaf count, all)
    ]

module _ {p : Platform} {view : p.World → Option Bytes} (c : WebClient p) (hook : Webhook)
    (apart : (url : Bytes) (headers : List (Bytes × Bytes)) (body : Bytes) (w : p.World)
      → view (c.post url headers body w) ≡ view w)
    (name : Bytes) where
  view-send :
      (event : WebhookEvent) (payload : c.Json) (w : p.World)
      → view (send c hook event payload w) ≡ view w
  unfolding send
  view-send event payload w = elim (Bool-cases (has_event hook.events event)) [
    | inl e ↦ rw e (apart _ _ _ w)
    | inr e ↦ rw e refl
  ]

  webhook-IsQuiet :
      {exts : List (Extension p)}
      → IsQuiet view exts
      → IsQuiet view (webhook_extension c hook ∷ exts)
  unfolding run_each run_until_error notify_change notify_disconnect
  webhook-IsQuiet q = record {
    before_message = λ payload w. q.before_message payload w;
    changed =
        λ payload w. q.changed payload (notify_change c hook payload w) ∙ view-send change _ w;
    aware = λ payload w. q.aware payload w;
    stateless = λ payload w. q.stateless payload w;
    disconnected = λ payload w.
        q.disconnected payload (notify_disconnect c hook payload w) ∙ view-send disconnect _ w;
    before_unload = λ payload w. q.before_unload payload w;
    after_unload = λ name w. q.after_unload name w;
  }

  -- With the webhook in front, extensions that store a document still do.
  pub webhook-IsStore :
      {exts : List (Extension p)}
      → IsStore p view name exts
      → IsStore p view name (webhook_extension c hook ∷ exts)
  unfolding run_store_hooks run_until_error run_each
  webhook-IsStore s = record {
    keeps = s.keeps;
    quiet = webhook-IsQuiet s.quiet;
    puts = λ state payload w n h. s.puts state payload w n h;
  }
