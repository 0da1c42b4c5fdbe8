-- ===== src/Errors.antt =====
-- crates/hocuspocus/src/error.rs: close codes, and the error that a lifecycle hook returns.
use hocuspocus_rs.Prelude.{ℕ, Option, none, some, Bytes, ascii, Result}

pub record CloseEvent : Type 0 where
  pub code : ℕ
  pub reason : Bytes

abbrev pub message_too_big : CloseEvent
message_too_big = record { code = 1009; reason = ascii "Message Too Big" }

abbrev pub reset_connection : CloseEvent
reset_connection = record { code = 4205; reason = ascii "Reset Connection" }

abbrev pub unauthorized_event : CloseEvent
unauthorized_event = record { code = 4401; reason = ascii "Unauthorized" }

abbrev pub forbidden_event : CloseEvent
forbidden_event = record { code = 4403; reason = ascii "Forbidden" }

abbrev pub connection_timeout : CloseEvent
connection_timeout = record { code = 4408; reason = ascii "Connection Timeout" }

pub record HookError : Type 0 where
  pub message : Bytes
  pub close : Option CloseEvent

-- `HookError::new`
abbrev pub hook_error : Bytes → HookError
hook_error m = record { message = m; close = none }

abbrev pub closing : CloseEvent → HookError
closing c = record { message = c.reason; close = some c }

abbrev pub forbidden : HookError
forbidden = closing forbidden_event

abbrev pub unauthorized : HookError
unauthorized = closing unauthorized_event

-- The conversion from an `anyhow::Error`, given its text.
abbrev pub from_error : Bytes → HookError
from_error text = hook_error text

abbrev pub HookResult : Type 0
HookResult = Result HookError (Unit {0})
