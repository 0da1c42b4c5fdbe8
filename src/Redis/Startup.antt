-- ===== src/Redis/Startup.antt =====
-- How a node comes to Redis in crates/hocuspocus/src/extensions/redis.rs: the set-up of its
-- connections, and the two tasks of `spawn_subscriber` with what ends them.
use hocuspocus_rs.Prelude.{ℕ, List, [], ◌∷◌, ◌++◌, Bytes, ascii, Result, ok, err}
use hocuspocus_rs.Platform.{Platform}
use hocuspocus_rs.Server.Hub.{Hub}
use hocuspocus_rs.Redis.{RedisConfig, RedisScaling, RedisServer, message_prefix, scaling}
use hocuspocus_rs.Redis.Subscriber.{on_message, on_reply}

-- `RedisConfig::identifier` and `RedisConfig::prefix`.
abbrev pub set_identifier : Bytes → RedisConfig → RedisConfig
set_identifier id config = record config { identifier = id }

abbrev pub set_prefix : Bytes → RedisConfig → RedisConfig
set_prefix prefix config = record config { prefix = prefix }

-- The calls of the `redis` crate that open a client and its connections. Another task may change the
-- world while they wait.
pub record RedisClient (p : Platform) : Type 0 where
  -- `Client::open`, which only reads the address
  pub open_client : Bytes → Result Bytes (Unit {0})
  -- `get_multiplexed_async_connection`
  pub connection : p.World → Result Bytes (Unit {0}) × p.World
  -- `get_async_pubsub`
  pub pubsub : p.World → Result Bytes (Unit {0}) × p.World
  pub psubscribe : Bytes → p.World → Result Bytes (Unit {0}) × p.World

module _ {p : Platform} (client : RedisClient p) where
  -- `RedisScaling::connect`
  unfoldable pub connect : RedisConfig → p.World → Result Bytes RedisScaling × p.World
  connect config w = elim (client.open_client config.url) [
    | err e ↦ (err e, w)
    | ok _ ↦
        let (connected, w') = client.connection w in
        elim connected [ err e ↦ (err e, w') | ok _ ↦ (ok (scaling config), w') ]
  ]

  -- The loop of the reply publisher over what the actors reply, up to the closing of the channel.
  unfoldable pub publish_replies : RedisServer p → Bytes → Bytes → List Bytes → p.World → p.World
  publish_replies s prefix prefix_bytes [] w = w
  publish_replies s prefix prefix_bytes (bytes ∷ rest) w =
      publish_replies s prefix prefix_bytes rest (on_reply s prefix prefix_bytes bytes w)

  unfoldable pub reply_publisher : RedisServer p → Bytes → Bytes → List Bytes → p.World → p.World
  unfolding publish_replies
  reply_publisher s identifier prefix replies w =
      let (connected, w') = client.connection w in
      elim connected [
        | err _ ↦ w'
        | ok _ ↦ publish_replies s prefix (message_prefix identifier) replies w'
      ]

  -- The loop over the messages of the stream, up to its end.
  unfoldable pub take_messages : Hub p → Bytes → ℕ → List Bytes → p.World → p.World
  take_messages hub prefix_bytes reply_tx [] w = w
  take_messages hub prefix_bytes reply_tx (payload ∷ rest) w =
      take_messages hub prefix_bytes reply_tx rest (on_message hub prefix_bytes reply_tx payload w)

  -- The task of `spawn_subscriber` behind the start of the reply publisher.
  unfoldable pub subscriber : Hub p → Bytes → Bytes → ℕ → List Bytes → p.World → p.World
  unfolding take_messages
  subscriber hub identifier prefix reply_tx messages w =
      let (opened, w1) = client.pubsub w in
      elim opened [
        | err _ ↦ w1
        | ok _ ↦
            let (subscribed, w2) = client.psubscribe (prefix ++ ascii ":*") w1 in
            elim subscribed [
              | err _ ↦ w2
              | ok _ ↦ take_messages hub (message_prefix identifier) reply_tx messages w2
            ]
      ]
