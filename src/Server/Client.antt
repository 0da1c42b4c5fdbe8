-- ===== src/Server/Client.antt =====
-- `ClientConnection` of crates/hocuspocus/src/server.rs: its state, the queue of frames that come
-- before authentication, and what it sends to its client.
use hocuspocus_rs.Prelude.{
  ℕ, ◌+◌, ◌-◌, Bool, false, not, ◌&&◌, ◌||◌, none, some, List, [], ◌∷◌, ◌++◌, Bytes, Map, lookup,
  insert, contains_key, length, ltb, if◌then◌else◌, Bytes-Eq,
}
use hocuspocus_rs.Errors.{CloseEvent, reset_connection, forbidden_event}
use hocuspocus_rs.Config.{Configuration}
use hocuspocus_rs.Context.{RequestMeta}
use hocuspocus_rs.Protocol.Outgoing
use hocuspocus_rs.Platform.{Platform, frame, close}
use hocuspocus_rs.Extension.{Extension}
use hocuspocus_rs.Document.State.{client_frame, remove_connection}
use hocuspocus_rs.Server.Hub.{Hub}

pub record Established : Type 0 where
  pub doc : ℕ
  pub conn_id : ℕ

pub record ClientConnection (p : Platform) : Type 0 where
  -- `shared.config` and `shared.extensions`
  pub config : Configuration
  pub extensions : List (Extension p)
  pub socket_id : Bytes
  pub out_tx : ℕ
  pub request : RequestMeta
  pub established : Map Bytes Established
  pub queue : Map Bytes (List Bytes)
  pub queued_bytes : ℕ
  pub queued_messages : ℕ
  pub established_at : ℕ
  pub last_message_at : ℕ
  pub authenticated : Bool
  pub world : p.World

-- `entry(raw_key).or_default()`
abbrev pub queued : Bytes → Map Bytes (List Bytes) → List Bytes
queued raw_key queue = elim (lookup raw_key queue) [ none ↦ [] | some msgs ↦ msgs ]

-- `ClientConnection::new`
unfoldable pub new_client :
    (p : Platform)
    → Configuration
    → List (Extension p)
    → Bytes
    → ℕ
    → RequestMeta
    → p.World
    → ClientConnection p
new_client p config exts socket_id out_tx request w =
    let (now, w') = p.now w in
    record {
      config = config;
      extensions = exts;
      socket_id = socket_id;
      out_tx = out_tx;
      request = request;
      established = [];
      queue = [];
      queued_bytes = 0;
      queued_messages = 0;
      established_at = now;
      last_message_at = now;
      authenticated = false;
      world = w';
    }

module _ {p : Platform} where
  unfoldable pub idle_deadline : ClientConnection p → ℕ
  idle_deadline c =
      (if c.authenticated then c.last_message_at else c.established_at) + c.config.timeout

  unfoldable pub terminate : CloseEvent → ClientConnection p → ClientConnection p
  terminate event c = record c { world = (p.try_send c.out_tx (close event) c.world).1 }

  -- `out_tx.try_send` of a frame; the answer is dropped.
  unfoldable pub send_out : Bytes → ClientConnection p → ClientConnection p
  send_out bytes c = record c { world = (p.try_send c.out_tx (frame bytes) c.world).1 }

  unfoldable pub deny : Bytes → Bytes → ClientConnection p → ClientConnection p
  unfolding send_out terminate
  deny raw_key reason c = terminate forbidden_event (
      send_out
        (Outgoing.into_bytes p.codec
          (Outgoing.permission_denied p.codec reason (Outgoing.start p.codec raw_key)))
        c)

  unfoldable pub enqueue : Bytes → Bytes → ClientConnection p → ClientConnection p
  unfolding terminate
  enqueue raw_key bytes c =
      if not (contains_key raw_key c.queue)
        && ltb c.config.max_pending_documents (length c.queue + 1)
      then terminate reset_connection c
      else if ltb c.config.max_unauthenticated_queue_messages (c.queued_messages + 1)
          || ltb c.config.max_unauthenticated_queue_size (c.queued_bytes + length bytes)
      then terminate reset_connection c
      else record c {
        queued_bytes = c.queued_bytes + length bytes;
        queued_messages = c.queued_messages + 1;
        queue = insert raw_key (queued raw_key c.queue ++ (bytes ∷ [])) c.queue;
      }

  module _ (hub : Hub p) where
    -- The drain of the queue after authentication: the frames of one routing key, in their order.
    unfoldable pub drain : Established → List Bytes → ClientConnection p → ClientConnection p
    drain est [] c = c
    drain est (msg ∷ msgs) c = drain est msgs (record c {
      queued_messages = c.queued_messages - 1;
      queued_bytes = c.queued_bytes - length msg;
      world = (hub.send_command est.doc (client_frame est.conn_id msg) c.world).1;
    })

    -- The loop of `cleanup`
    unfoldable pub remove_each : Map Bytes Established → p.World → p.World
    remove_each [] w = w
    remove_each ((_, est) ∷ rest) w =
        remove_each rest (hub.send_command est.doc (remove_connection est.conn_id) w).1

    unfoldable pub cleanup : ClientConnection p → ClientConnection p
    unfolding remove_each
    cleanup c = record c { established = []; world = remove_each c.established c.world }
