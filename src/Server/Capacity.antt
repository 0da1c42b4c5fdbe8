-- ===== src/Server/Capacity.antt =====
-- The HTTP entry of crates/hocuspocus/src/server.rs: `ws_handler` with its cap on connections, and the
-- counter of open sockets that it reads.
use hocuspocus_rs.Prelude.{
  ℕ, suc, ◌+◌, ◌-◌, ◌≡◌, Bool, ◌&&◌, Option, none, some, List, [], ◌∷◌, ◌++◌, Bytes, Map, insert,
  map, leb, ltb, if◌then◌else◌, Bytes-Eq,
}
use hocuspocus_rs.Config.{Configuration}
use hocuspocus_rs.Context.{RequestMeta}
use hocuspocus_rs.Query.{Decoding, done, form_urlencoded_parse}

-- What the handler reads of a request: names and values of the headers, where a value that is not
-- text is `none`, the query, the peer's address, and whether the request asks for a WebSocket.
pub record Parts : Type 0 where
  pub headers : List (Bytes × Option Bytes)
  pub query : Option Bytes
  pub remote : Bytes
  pub wants_upgrade : Bool

pub data Response : Type 0 where
  service_unavailable : Response
  upgrade : RequestMeta → Response
  welcome_text : Response

abbrev pub to_ascii_lowercase : Bytes → Bytes
to_ascii_lowercase = map (λ b. if leb b'A' b && leb b b'Z' then b + 32 else b)

-- The loop over the headers.
unfoldable pub read_headers : List (Bytes × Option Bytes) → Map Bytes Bytes → Map Bytes Bytes
read_headers [] m = m
read_headers ((k, none) ∷ rest) m = read_headers rest m
read_headers ((k, some v) ∷ rest) m = read_headers rest (insert (to_ascii_lowercase k) v m)

-- The loop over the parameters, unless decoding panics. `from_utf8_lossy` is the standard library's.
unfoldable pub read_parameters :
    (Bytes → Bytes) → List (Decoding × Decoding) → Map Bytes Bytes → Option (Map Bytes Bytes)
read_parameters lossy [] m = some m
read_parameters lossy ((done k, done v) ∷ rest) m =
    read_parameters lossy rest (insert (lossy k) (lossy v) m)
read_parameters lossy _ m = none

-- The query of a request that has one.
abbrev pub parameters : (Bytes → Bytes) → Option Bytes → Option (Map Bytes Bytes)
parameters lossy none = some []
parameters lossy (some q) = read_parameters lossy (form_urlencoded_parse q) []

-- `max > 0 && active_connections.load(…) >= max`
abbrev pub at_capacity : Configuration → ℕ → Bool
at_capacity config active = ltb 0 config.max_connections && leb config.max_connections active

-- The answer, given the counter; `none` is a panic.
unfoldable pub ws_handler : (Bytes → Bytes) → Configuration → ℕ → Parts → Option Response
ws_handler lossy config active req = elim (parameters lossy req.query) [
  | none ↦ none
  | some found ↦
      let meta : RequestMeta = record {
        headers = read_headers req.headers [];
        parameters = found;
        remote_ip = some req.remote;
      } in
      some (
        if at_capacity config active
        then service_unavailable
        else if req.wants_upgrade
        then upgrade meta
        else welcome_text)
]

-- The sockets of a server: the counters, the handshakes that were answered with an upgrade and have
-- not ended, and the sockets that `handle_socket` serves, by their numbers.
pub record Sockets : Type 0 where
  pub active_connections : ℕ
  pub next_socket_id : ℕ
  pub handshakes : ℕ
  pub served : List ℕ

-- `ServerShared::active_connection_count`
abbrev pub active_connection_count : Sockets → ℕ
active_connection_count s = s.active_connections

-- The start of `handle_socket`.
abbrev pub open_socket : Sockets → Sockets
open_socket s = record s {
  active_connections = s.active_connections + 1;
  next_socket_id = s.next_socket_id + 1;
  served = s.next_socket_id ∷ s.served;
}

-- The drop of the `ConnectionGuard`, with the socket that it counted.
abbrev pub drop_guard : List ℕ → Sockets → Sockets
drop_guard served s = record s { active_connections = s.active_connections - 1; served = served }

-- What may happen next, in any order. The futures of requests interleave between these points.
pub data SocketStep (lossy : Bytes → Bytes) (config : Configuration) (s : Sockets)
    : Sockets → Type 0 where
  answer :
      (req : Parts) (meta : RequestMeta)
      → ws_handler lossy config s.active_connections req ≡ some (upgrade meta)
      → SocketStep lossy config s (record s { handshakes = suc s.handshakes })
  begin :
      (n : ℕ)
      → s.handshakes ≡ suc n
      → SocketStep lossy config s (open_socket (record s { handshakes = n }))
  abort : (n : ℕ) → s.handshakes ≡ suc n → SocketStep lossy config s (record s { handshakes = n })
  finish :
      (xs ys : List ℕ) (id : ℕ)
      → s.served ≡ xs ++ id ∷ ys
      → SocketStep lossy config s (drop_guard (xs ++ ys) s)

-- The states that a server comes to from its start.
pub data SocketReach (lossy : Bytes → Bytes) (config : Configuration) : Sockets → Type 0 where
  built :
      SocketReach lossy config
        (record { active_connections = 0; next_socket_id = 1; handshakes = 0; served = [] })
  step :
      {s t : Sockets}
      → SocketReach lossy config s
      → SocketStep lossy config s t
      → SocketReach lossy config t
