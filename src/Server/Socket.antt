-- ===== src/Server/Socket.antt =====
-- The frames and the life of one socket in crates/hocuspocus/src/server.rs.
use hocuspocus_rs.Prelude.{
  ℕ, Bool, true, false, none, some, List, [], ◌∷◌, ◌++◌, Bytes, ascii, lookup, length, ok, err,
  nat_eq, if◌then◌else◌, Bytes-Eq,
}
use hocuspocus_rs.Errors.{connection_timeout}
use hocuspocus_rs.Protocol.{MessageType, auth, parse}
use hocuspocus_rs.Platform.{Platform}
use hocuspocus_rs.Document.State.{client_frame}
use hocuspocus_rs.Server.Hub.{Hub}
use hocuspocus_rs.Server.Client.{ClientConnection, new_client, terminate, enqueue, cleanup}
use hocuspocus_rs.Config.{Configuration}
use hocuspocus_rs.Context.{RequestMeta}
use hocuspocus_rs.Extension.{Extension}
use hocuspocus_rs.Server.Life.{digits}
use hocuspocus_rs.Server.Auth.{authenticate}

-- `mtype == MessageType::Auth`
abbrev pub is_auth : MessageType → Bool
is_auth auth = true
is_auth _ = false

-- What ends the wait of the loop in `handle_socket`.
pub data SocketEvent : Type 0 where
  binary : Bytes → SocketEvent
  -- a text, ping or pong message
  other : SocketEvent
  -- a close message, the end of the stream, or an error
  closed : SocketEvent
  -- `sleep_until(deadline)`
  timeout : SocketEvent

module _ {p : Platform} (hub : Hub p) where
  -- `handle_frame` for a routing key without an established connection.
  unfoldable pub handle_new : MessageType → Bytes → Bytes → ClientConnection p → ClientConnection p
  handle_new ty raw_key bytes c =
      if is_auth ty then authenticate hub raw_key bytes c else enqueue raw_key bytes c

  unfoldable pub route : Bytes → ClientConnection p → ClientConnection p
  unfolding handle_new
  route bytes c = elim (parse p.codec bytes) [
    | err _ ↦ c
    | ok f ↦ elim (lookup f.routing_key c.established) [
      | some est ↦ record c {
        world = (hub.send_command est.doc (client_frame est.conn_id bytes) c.world).1;
      }
      | none ↦ handle_new f.message_type f.routing_key bytes c
    ]
  ]

  unfoldable pub handle_frame : Bytes → ClientConnection p → ClientConnection p
  unfolding route
  handle_frame bytes c =
      let (now, w) = p.now c.world in
      let c' = record c { last_message_at = now; world = w } in
      if nat_eq (length bytes) 1 then c' else route bytes c'

  -- Behind the loop of `handle_socket`
  unfoldable pub finish : ClientConnection p → ClientConnection p
  finish c = let c' = cleanup hub c in record c' { world = hub.abort_writer c'.out_tx c'.world }

  -- The loop of `handle_socket` over the events that end its waits, and what is behind it.
  unfoldable pub run_socket : List SocketEvent → ClientConnection p → ClientConnection p
  unfolding finish
  run_socket [] c = c
  run_socket (binary bytes ∷ events) c = run_socket events (handle_frame bytes c)
  run_socket (other ∷ events) c = run_socket events c
  run_socket (closed ∷ events) c = finish c
  run_socket (timeout ∷ events) c = finish (terminate connection_timeout c)

  -- `handle_socket` with the number of its socket, its channel to the writer, and the events that end
  -- its waits. The counter of open sockets is in Capacity, the task that writes in Writer.
  unfoldable pub handle_socket :
      Configuration
      → List (Extension p)
      → RequestMeta
      → ℕ
      → ℕ
      → List SocketEvent
      → p.World
      → ClientConnection p
  unfolding run_socket
  handle_socket config exts request id out_tx events w =
      run_socket events (new_client p config exts (ascii "ws-" ++ digits 20 id) out_tx request w)

  -- A run of frames, as a client sends them.
  unfoldable pub handle_frames : List Bytes → ClientConnection p → ClientConnection p
  handle_frames [] c = c
  handle_frames (bytes ∷ rest) c = handle_frames rest (handle_frame bytes c)
