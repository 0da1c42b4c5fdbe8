-- ===== src/Tests/Leaving.antt =====
-- A socket that registers a connection and ends, over documents that count what they hold.
use hocuspocus_rs.Prelude.{
  ℕ, ◌≡◌, refl, ◌⊎◌, Bool, true, false, not, ◌&&◌, ◌||◌, [], ◌∷◌, Bytes, arith, nat_eq, bytes_eq,
  none, lookup, insert, List, inl, inr, Bool-cases,
}
use hocuspocus_rs.Config.{default_configuration}
use hocuspocus_rs.Platform.{Platform, sent}
use hocuspocus_rs.Extension.{default_extension}
use hocuspocus_rs.Document.State.{DocCommand, add_connection, remove_connection}
use hocuspocus_rs.Server.Hub.{Hub, document}
use hocuspocus_rs.Protocol.{find_nul, parse, from_u64, parse_routing_key}
use hocuspocus_rs.Tests.Codec.{read_varint, read_chunk}
use hocuspocus_rs.Server.Client.{new_client, send_out}
use hocuspocus_rs.Server.Auth.{
  admit_each, read_token, register_connection, open_document, enter, welcome, admit, authenticate,
}
use hocuspocus_rs.Server.Socket.{
  SocketEvent, binary, other, timeout, handle_new, route, handle_frame, run_socket, handle_socket,
}
use hocuspocus_rs.Server.Held.{refl_Calm, Tracks, AllCalm}
use hocuspocus_rs.Server.Cleanup.{ends, handle_socket-held}
use hocuspocus_rs.Tests.Platform.{small}
use hocuspocus_rs.Tests.Samples.{request}
use hocuspocus_rs.Tests.Sockets.{edit, right_token}

-- Its world says which document holds which connection.
abbrev counting : Platform
counting = record {
  codec = small.codec;
  yrs = small.yrs;
  World = ℕ → ℕ → Bool;
  Value = Bytes;
  now = λ w. (5, w);
  try_send = λ to m w. (sent, w);
  send_reply = λ to bytes w. w;
  send_ack = λ to w. w;
  documents_remove = λ name w. w;
}

abbrev deliver : ℕ → DocCommand counting → (ℕ → ℕ → Bool) → ℕ → ℕ → Bool
deliver h (add_connection conn ack) w k i = nat_eq k h && nat_eq i conn.conn_id || w k i
deliver h (remove_connection id) w k i = not (nat_eq k h && nat_eq i id) && w k i
deliver h _ w k i = w k i

abbrev directory : Hub counting
directory = record {
  documents_get = λ name w. (none, w);
  documents_insert = λ name h w. w;
  creating_entry = λ name w. (0, w);
  acquire = λ lock w. w;
  release = λ lock w. w;
  creating_remove = λ name w. w;
  new_doc = λ skip_gc. [];
  start_actor = λ d w. (7, w);
  send_command = λ h c w. (true, deliver h c w);
  ack_channel = λ w. (0, w);
  ack_received = λ ack w. (true, w);
  next_conn_id = λ w. (3, w);
  abort_writer = λ to w. w;
  after_failed_read = λ bytes. [];
}

abbrev holds : (ℕ → ℕ → Bool) → ℕ → ℕ → Bool
holds w h i = w h i

both_equal :
    (a b c d : ℕ) (on : Bool)
    → nat_eq a b && nat_eq c d || on ≡ true
    → (on ≡ true) ⊎ ((a ≡ b) × (c ≡ d))
both_equal a b c d on e = elim (Bool-cases on) [
  | inl h ↦ inl h
  | inr h ↦ inr (ground arith, ground arith)
]

both_true : (a b : Bool) → not a && b ≡ true → b ≡ true
both_true a b e = ground arith

not_removed : (h i : ℕ) (on : Bool) → not (nat_eq h h && nat_eq i i) && on ≡ false
not_removed h i on = ground arith

directory-Tracks : Tracks holds directory
directory-Tracks = record {
  now = λ w. refl_Calm;
  try_send = λ to m w. refl_Calm;
  documents_remove = λ name w. refl_Calm;
  documents_get = λ name w. refl_Calm;
  documents_insert = λ name h w. refl_Calm;
  creating_entry = λ name w. refl_Calm;
  acquire = λ lock w. refl_Calm;
  release = λ lock w. refl_Calm;
  creating_remove = λ name w. refl_Calm;
  start_actor = λ d w. refl_Calm;
  ack_channel = λ w. refl_Calm;
  ack_received = λ ack w. refl_Calm;
  next_conn_id = λ w. refl_Calm;
  abort_writer = λ to w. refl_Calm;
  frames = λ h id bytes w. refl_Calm;
  adds = λ h ack conn w h' i on. both_equal h' h i conn.conn_id (w h' i) on;
  refused = λ h ack conn w e. cc;
  dropped = λ h ack conn w e. cc;
  removes = λ h i w. (
    record { fewer = λ h' j on. both_true (nat_eq h' h && nat_eq j i) (w h' j) on },
    not_removed h i (w h i),
  );
}

abbrev events : List SocketEvent
events = binary right_token ∷ other ∷ binary edit ∷ timeout ∷ []

-- Before its end, the document 7 holds the connection 3.
held_meanwhile :
    (handle_socket directory default_configuration [] request 4 1
        (binary right_token ∷ [])
        (λ h i. false)).world
      7 3
    ≡ true
unfolding handle_socket run_socket handle_frame route handle_new parse from_u64 read_varint
    read_chunk lookup authenticate read_token parse_routing_key find_nul admit admit_each insert
    welcome send_out register_connection document enter open_document new_client bytes_eq
held_meanwhile = refl

default_extension-AllCalm : AllCalm holds (default_extension counting ∷ [])
unfolding AllCalm
default_extension-AllCalm = (
  record {
    connects = λ payload w. refl_Calm;
    authenticates = λ payload w. refl_Calm;
    loads = λ doc payload w. refl_Calm;
    loaded = λ doc payload w. refl_Calm;
  },
  tt,
)

handle_socket-held_example :
    (handle_socket directory default_configuration
        (default_extension counting ∷ [])
        request
        4
        1
        events
        (λ h i. false)).world
      7 3
    ≡ false
unfolding ends
handle_socket-held_example =
    handle_socket-held directory-Tracks default_configuration (default_extension counting ∷ [])
      request 4 1 events (λ h i. false) default_extension-AllCalm (λ h i. refl) refl 7 3
