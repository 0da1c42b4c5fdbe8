-- ===== src/Tests/Samples.antt =====
-- A document with two clients, one of them read-only, on the small platform.
use hocuspocus_rs.Prelude.{ℕ, Bool, true, false, none, some, List, [], ◌∷◌, ascii, err}
use hocuspocus_rs.Errors.{hook_error}
use hocuspocus_rs.Config.{Configuration, default_configuration}
use hocuspocus_rs.Context.{RequestMeta}
use hocuspocus_rs.Extension.{Extension, default_extension, default_connection_config}
use hocuspocus_rs.Document.State.{ConnHandle, Document}
use hocuspocus_rs.Document.Actor.{spawn}
use hocuspocus_rs.Tests.Platform.{World, small}

abbrev pub request : RequestMeta
request = record { headers = []; parameters = []; remote_ip = none }

abbrev pub client : ℕ → Bool → ConnHandle small
client id read_only = record {
  conn_id = id;
  outbound = id;
  message_address = ascii "doc";
  read_only = read_only;
  socket_id = ascii "ws-1";
  session_id = none;
  context = [];
  request = request;
  connection_config = default_connection_config;
  provider_version = none;
  client_ids = id ∷ [];
}

-- Room for `room` messages in the channels.
abbrev pub world : ℕ → World
world room = record { time = 5; outbox = []; room = room }

-- A storage that refuses every store.
abbrev pub broken_storage : Extension small
broken_storage = record (default_extension small) {
  on_store_document = λ state payload w. (err (hook_error []), w);
}

-- A freshly loaded document with one edit in its store.
abbrev pub fresh : Configuration → List (Extension small) → Document small
fresh config exts = spawn small (ascii "doc") config exts (7 ∷ []) (world 9)

abbrev pub two_clients : Document small
unfolding spawn
two_clients = record (fresh default_configuration []) {
  connections = (1, client 1 true) ∷ (2, client 2 false) ∷ [];
}

-- Without clients, dirty, and with a storage that fails.
abbrev pub unsaved : Configuration → Document small
unfolding spawn
unsaved config = record (fresh config (broken_storage ∷ [])) {
  dirty = true;
  first_dirty_at = some 1;
  last_change_at = some 1;
}

abbrev pub keeps_warm : Configuration
keeps_warm = record default_configuration { unload_immediately = false }

-- A hook that rejects every update.
abbrev pub rejects_updates : Extension small
rejects_updates = record (default_extension small) {
  before_handle_message = λ payload w. (err (hook_error []), w);
}
