-- ===== src/Document/State.antt =====
-- The types of crates/hocuspocus/src/document.rs, sends to one client, and the bookkeeping of changes.
-- The actor owns its state, so a method is a function from state to state. The mailbox is not a
-- field: commands are arguments.
use hocuspocus_rs.Prelude.{
  ℕ, ◌+◌, min, Bool, true, false, not, ◌||◌, Option, none, some, List, [], ◌∷◌, Bytes, Map,
  if◌then◌else◌,
}
use hocuspocus_rs.Errors.{CloseEvent}
use hocuspocus_rs.Config.{Configuration}
use hocuspocus_rs.Origin.{Origin}
use hocuspocus_rs.Context.{Context, RequestMeta}
use hocuspocus_rs.Platform.{Platform, frame, close, TrySend, full}
use hocuspocus_rs.Extension.{Extension, ConnectionConfig, ConnectionPayload, DocumentPayload}

pub record ConnHandle (p : Platform) : Type 0 where
  pub conn_id : ℕ
  pub outbound : ℕ
  pub message_address : Bytes
  pub read_only : Bool
  pub socket_id : Bytes
  pub session_id : Option Bytes
  pub context : Context p
  pub request : RequestMeta
  pub connection_config : ConnectionConfig
  pub provider_version : Option Bytes
  -- a set
  pub client_ids : List ℕ

pub data DocCommand (p : Platform) : Type 0 where
  add_connection : (handle : ConnHandle p) → (ack : ℕ) → DocCommand p
  client_frame : (conn_id : ℕ) → (bytes : Bytes) → DocCommand p
  remove_connection : (conn_id : ℕ) → DocCommand p
  external_frame : (bytes : Bytes) → (reply : Option ℕ) → DocCommand p
  direct_apply : (update : Bytes) → (ack : ℕ) → DocCommand p

-- A store that `spawn_store` has put on a task of its own: what the task captures.
pub record StoreJob (p : Platform) : Type 0 where
  pub state : Bytes
  pub extensions : List (Extension p)
  pub payload : DocumentPayload

pub record Document (p : Platform) : Type 0 where
  pub name : Bytes
  pub doc : p.Doc
  pub awareness : p.Awareness
  pub connections : Map ℕ (ConnHandle p)
  -- `server.config` and `server.extensions`
  pub config : Configuration
  pub extensions : List (Extension p)
  pub dirty : Bool
  pub first_dirty_at : Option ℕ
  pub last_change_at : Option ℕ
  pub last_origin : Origin
  pub storing : Bool
  -- Store tasks that run, and the results that wait in `store_result_rx`.
  pub jobs : List (StoreJob p)
  pub store_results : List Bool
  pub broadcast_base : Option p.StateVector
  pub broadcast_pending : Bool
  pub world : p.World

abbrev pub max_coalesce_batch : ℕ
max_coalesce_batch = 512

-- `is_empty`
abbrev pub is_empty {ℓ} : {A : Type ℓ} → List A → Bool
is_empty [] = true
is_empty (_ ∷ _) = false

-- `unwrap_or`
abbrev pub unwrap_or {ℓ} : {A : Type ℓ} → Option A → A → A
unwrap_or none a = a
unwrap_or (some a) _ = a

abbrev pub not_full : TrySend → Bool
not_full full = false
not_full _ = true

-- `get_or_insert`
abbrev pub get_or_insert : Option ℕ → ℕ → Option ℕ
get_or_insert none v = some v
get_or_insert (some u) v = some u

-- The end of `store_deadline`: the soft deadline or the hard one, whichever is earlier.
abbrev pub earlier_deadline : Configuration → Option ℕ → Option ℕ → Option ℕ
earlier_deadline config none _ = none
earlier_deadline config (some last) none = none
earlier_deadline config (some last) (some first) =
    some (min (last + config.debounce) (first + config.max_debounce))

module _ {p : Platform} where
  -- `ConnHandle::send_frame`: false if the client's queue is full.
  unfoldable pub send_frame : ConnHandle p → Bytes → p.World → Bool × p.World
  send_frame conn bytes w =
      let (answer, w') = p.try_send conn.outbound (frame bytes) w in (not_full answer, w')

  unfoldable pub send_close : ConnHandle p → CloseEvent → p.World → p.World
  send_close conn event w = (p.try_send conn.outbound (close event) w).1

  unfoldable pub store_deadline : Document p → Option ℕ
  store_deadline d =
      if not d.dirty || d.storing
      then none
      else earlier_deadline d.config d.last_change_at d.first_dirty_at

  unfoldable pub mark_dirty : Origin → Document p → Document p
  mark_dirty origin d =
      let (now, w) = p.now d.world in
      record d {
        dirty = true;
        first_dirty_at = get_or_insert d.first_dirty_at now;
        last_change_at = some now;
        last_origin = origin;
        world = w;
      }

  -- The payload of the hooks that see the whole document.
  abbrev pub document_payload : Document p → ℕ → DocumentPayload
  document_payload d n = record { document_name = d.name; clients_count = n }

  abbrev pub connection_payload : Document p → ConnHandle p → ConnectionPayload p
  connection_payload d conn = record {
    document_name = d.name;
    socket_id = conn.socket_id;
    context = conn.context;
    request = conn.request;
    connection_config = conn.connection_config;
    provider_version = conn.provider_version;
  }
