-- ===== src/Webhook.antt =====
-- crates/hocuspocus/src/extensions/webhook.rs: signed posts of lifecycle events.
pub mod Signed
use hocuspocus_rs.Prelude.{
  Bool, true, false, ◌||◌, List, [], ◌∷◌, ◌++◌, Bytes, ascii, Map, ok, if◌then◌else◌,
}
use hocuspocus_rs.Platform.{Platform}
use hocuspocus_rs.Extension.{Extension, ChangePayload, ConnectionPayload, default_extension}

pub data WebhookEvent : Type 0 where
  change connect disconnect : WebhookEvent

abbrev pub as_str : WebhookEvent → Bytes
as_str change = ascii "change"
as_str connect = ascii "connect"
as_str disconnect = ascii "disconnect"

-- `events.contains(&event)`, with the derived equality.
abbrev same_event : WebhookEvent → WebhookEvent → Bool
same_event change change = true
same_event connect connect = true
same_event disconnect disconnect = true
same_event _ _ = false

unfoldable pub has_event : List WebhookEvent → WebhookEvent → Bool
has_event [] event = false
has_event (e ∷ es) event = same_event e event || has_event es event

pub record Webhook : Type 0 where
  pub url : Bytes
  pub secret : Bytes
  pub events : List WebhookEvent

abbrev pub new_webhook : Bytes → Bytes → Webhook
new_webhook url secret = record {
  url = url;
  secret = secret;
  events = change ∷ connect ∷ disconnect ∷ [];
}

-- `Webhook::events`
abbrev pub with_events : List WebhookEvent → Webhook → Webhook
with_events events hook = record hook { events = events }

-- What the extension calls: `serde_json`, with the values that it is given, `hmac` with `sha2`,
-- `hex`, and a post of `reqwest` with its headers, whose failure is only logged.
pub record WebClient (p : Platform) : Type 1 where
  pub Json : Type 0
  pub text : Bytes → Json
  pub texts : Map Bytes Bytes → Json
  pub object : List (Bytes × Json) → Json
  pub to_string : Json → Bytes
  pub hmac_sha256 : Bytes → Bytes → Bytes
  pub hex : Bytes → Bytes
  pub post : Bytes → List (Bytes × Bytes) → Bytes → p.World → p.World

module _ {p : Platform} (c : WebClient p) (hook : Webhook) where
  unfoldable pub signature : Bytes → Bytes
  signature body = ascii "sha256=" ++ c.hex (c.hmac_sha256 hook.secret body)

  unfoldable pub send : WebhookEvent → c.Json → p.World → p.World
  unfolding signature
  send event payload w =
      let body =
        c.to_string
          (c.object ((ascii "event", c.text (as_str event)) ∷ (ascii "payload", payload) ∷ [])) in
      if has_event hook.events event
      then c.post hook.url
          ((ascii "X-Hocuspocus-Signature-256", signature body)
            ∷ (ascii "Content-Type", ascii "application/json")
            ∷ [])
          body w
      else w

  unfoldable pub notify_connect : ConnectionPayload p → p.World → p.World
  unfolding send
  notify_connect payload w =
      send connect
        (c.object (
          (ascii "documentName", c.text payload.document_name)
          ∷ (ascii "socketId", c.text payload.socket_id)
          ∷ (ascii "requestParameters", c.texts payload.request.parameters)
          ∷ []))
        w

  unfoldable pub notify_disconnect : ConnectionPayload p → p.World → p.World
  unfolding send
  notify_disconnect payload w =
      send disconnect
        (c.object (
          (ascii "documentName", c.text payload.document_name)
          ∷ (ascii "socketId", c.text payload.socket_id)
          ∷ []))
        w

  unfoldable pub notify_change : ChangePayload → p.World → p.World
  unfolding send
  notify_change payload w =
      send change
        (c.object (
          (ascii "documentName", c.text payload.document_name)
          ∷ (ascii "update", c.text (c.hex payload.update))
          ∷ []))
        w

  -- `impl Extension for Webhook`. Every hook answers `Ok(())`.
  abbrev pub webhook_extension : Extension p
  webhook_extension = record (default_extension p) {
    name = ascii "webhook";
    on_connect = λ payload w. record {
      result = ok tt;
      context = payload.context;
      connection_config = payload.connection_config;
      world = notify_connect payload w;
    };
    on_disconnect = λ payload w. (ok tt, notify_disconnect payload w);
    on_change = λ payload w. (ok tt, notify_change payload w);
  }
