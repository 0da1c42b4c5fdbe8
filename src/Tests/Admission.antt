-- ===== src/Tests/Admission.antt =====
-- The HTTP entry at concrete inputs.
use hocuspocus_rs.Prelude.{
  ℕ, ◌<◌, ◌≤◌, ◌≡◌, ◌↔◌, refl, true, none, some, [], ◌∷◌, ascii, insert, remove, length, Bytes-Eq,
}
use hocuspocus_rs.Config.{Configuration, default_configuration}
use hocuspocus_rs.Context.{RequestMeta}
use hocuspocus_rs.Query.{
  form_urlencoded_parse, split, split_pair, decode_pairs, percent_decode, percent_loop, look,
}
use hocuspocus_rs.Server.Capacity.{
  Parts, service_unavailable, upgrade, read_parameters, read_headers, ws_handler, Sockets, answer,
  begin, SocketReach, built, step,
}
use hocuspocus_rs.Server.Shed.{ws_handler-sheds, cap_exceeded}

abbrev one_socket : Configuration
one_socket = record default_configuration { max_connections = 1 }

-- `ws://…/?token=k`, with a header of two capitals and one that is not text.
abbrev upgrade_request : Parts
upgrade_request = record {
  headers = (ascii "Host", some (ascii "h")) ∷ (ascii "X-Bin", none) ∷ [];
  query = some (ascii "token=k");
  remote = ascii "10.0.0.1";
  wants_upgrade = true;
}

abbrev meta : RequestMeta
meta = record {
  headers = (ascii "host", ascii "h") ∷ [];
  parameters = (ascii "token", ascii "k") ∷ [];
  remote_ip = some (ascii "10.0.0.1");
}

first_admitted : ws_handler (λ b. b) one_socket 0 upgrade_request ≡ some (upgrade meta)
unfolding ws_handler read_headers read_parameters form_urlencoded_parse decode_pairs split
    split_pair percent_decode percent_loop look insert remove
first_admitted = refl

one_served :
    SocketReach
      (λ b. b)
      one_socket
      (record { active_connections = 1; next_socket_id = 2; handshakes = 0; served = 1 ∷ [] })
one_served = step (step built (answer upgrade_request meta first_admitted)) (begin 0 refl)

ws_handler-sheds_example :
    (ws_handler (λ b. b) one_socket 1 upgrade_request ≡ some service_unavailable)
    ↔ ((0 < one_socket.max_connections) × (one_socket.max_connections ≤ length {A = ℕ} (1 ∷ [])))
unfolding read_parameters form_urlencoded_parse decode_pairs split split_pair percent_decode
    percent_loop look insert remove
ws_handler-sheds_example =
    ws_handler-sheds (λ b. b) one_socket upgrade_request ((ascii "token", ascii "k") ∷ [])
      one_served refl

-- Three sockets under a cap of one.
cap_exceeded_example : (s : Sockets) × SocketReach (λ b. b) one_socket s × (length s.served ≡ 3)
cap_exceeded_example = cap_exceeded (λ b. b) one_socket upgrade_request meta 3 first_admitted
