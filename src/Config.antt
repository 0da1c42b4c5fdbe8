-- ===== src/Config.antt =====
-- crates/hocuspocus/src/config.rs: the server's configuration. A `Duration` is a number of milliseconds.
use hocuspocus_rs.Prelude.{ℕ, ◌*◌, Bool, true, false, Option, none, Bytes, ascii}

pub record Configuration : Type 0 where
  pub name : Option Bytes
  pub address : Bytes
  pub port : ℕ
  pub timeout : ℕ
  pub debounce : ℕ
  pub max_debounce : ℕ
  pub unload_immediately : Bool
  pub quiet : Bool
  pub max_unauthenticated_queue_size : ℕ
  pub max_unauthenticated_queue_messages : ℕ
  pub max_pending_documents : ℕ
  pub gc : Bool
  pub outbound_capacity : ℕ
  pub max_connections : ℕ

-- `Configuration::default`
abbrev pub default_configuration : Configuration
default_configuration = record {
  name = none;
  address = ascii "0.0.0.0";
  port = 80;
  timeout = 60_000;
  debounce = 2_000;
  max_debounce = 10_000;
  unload_immediately = true;
  quiet = false;
  max_unauthenticated_queue_size = 5 * 1024 * 1024;
  max_unauthenticated_queue_messages = 1_000;
  max_pending_documents = 100;
  gc = true;
  outbound_capacity = 2048;
  max_connections = 0;
}
