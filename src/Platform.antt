-- ===== src/Platform.antt =====
-- What the program runs on: the codec, `yrs`, and the rest of the process (`World`), which the
-- extensions, the channels, the clock and the document registry belong to.
use hocuspocus_rs.Prelude.{ℕ, Bytes}
use hocuspocus_rs.Errors.{CloseEvent}
use hocuspocus_rs.Codec.{Codec}
use hocuspocus_rs.Yrs.{Yrs}

-- `OutMsg` of crates/hocuspocus/src/document.rs: a message for the writer task of one socket.
pub data OutMsg : Type 0 where
  frame : Bytes → OutMsg
  close : CloseEvent → OutMsg

-- The answers of `try_send` on a bounded channel of tokio.
pub data TrySend : Type 0 where
  sent full closed : TrySend

-- Channels and one-shot acknowledgements are named by numbers. Each operation may change the world
-- in any way, since other tasks run beside the caller.
pub record Platform : Type 1 where
  pub codec : Codec
  pub open codec use *
  pub yrs : Yrs
  pub open yrs use *
  pub World : Type 0
  -- `serde_json::Value`
  pub Value : Type 0
  pub now : World → ℕ × World
  pub try_send : ℕ → OutMsg → World → TrySend × World
  -- `send` on an unbounded channel of reply frames, and on a one-shot acknowledgement
  pub send_reply : ℕ → Bytes → World → World
  pub send_ack : ℕ → World → World
  -- `DashMap::remove` on the registry of resident documents
  pub documents_remove : Bytes → World → World
