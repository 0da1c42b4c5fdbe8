-- ===== src/Tests/Platform.antt =====
-- A small platform: a document is the list of its edits, a state vector counts them, and the world
-- holds the time, the messages sent and the room that is left in the channels.
use hocuspocus_rs.Prelude.{
  ℕ, not, List, [], ◌∷◌, ◌++◌, Bytes, ascii, length, drop, Result, ok, err, ltb, nat_eq,
  if◌then◌else◌,
}
use hocuspocus_rs.Yrs.{Yrs, SyncMessage, sync_step1, sync_step2, update}
use hocuspocus_rs.Platform.{Platform, OutMsg, TrySend, sent, full}
use hocuspocus_rs.Document.State.{is_empty}
use hocuspocus_rs.Tests.Codec.{lib0}

-- An update is refused if it starts with 255.
abbrev decode_edits : Bytes → Result Bytes Bytes
decode_edits [] = ok []
decode_edits (b ∷ bs) = if nat_eq b 255 then err (ascii "bad update") else ok (b ∷ bs)

abbrev pub encode_message : SyncMessage ℕ → Bytes
encode_message (sync_step1 sv) = 0 ∷ sv ∷ []
encode_message (sync_step2 bytes) = 1 ∷ bytes
encode_message (update bytes) = 2 ∷ bytes

abbrev decode_message : Bytes → Result Bytes (SyncMessage ℕ)
decode_message [] = err []
decode_message (tag ∷ []) = if nat_eq tag 0 then err [] else ok (update [])
decode_message (tag ∷ b ∷ bs) =
    if nat_eq tag 0
    then ok (sync_step1 b)
    else if nat_eq tag 1
    then ok (sync_step2 (b ∷ bs))
    else ok (update (b ∷ bs))

abbrev without : ℕ → List ℕ → List ℕ
without k [] = []
without k (x ∷ xs) = let rest = without k xs in if nat_eq x k then rest else x ∷ rest

abbrev pub edits : Yrs
edits = record {
  Doc = Bytes;
  StateVector = ℕ;
  Update = Bytes;
  Awareness = List ℕ;
  AwarenessUpdate = List ℕ;
  state_vector = λ doc. length doc;
  empty_state_vector = 0;
  encode_diff = λ doc sv. drop sv doc;
  encode_state_as_update = λ doc sv. drop sv doc;
  decode_update = decode_edits;
  apply_update = λ doc origin u. record { result = ok tt; doc = doc ++ u; change = u };
  decode_sync = decode_message;
  encode_sync = encode_message;
  new_awareness = [];
  has_states = λ a. not (is_empty a);
  awareness_update = λ a. ok a;
  update_with_clients = λ ids a. ok ids;
  encode_awareness = λ u. u;
  decode_awareness = λ b. ok b;
  clients = λ u. u;
  apply_awareness = λ u origin a. (ok tt, u ++ a);
  remove_state = without;
}

pub record World : Type 0 where
  pub time : ℕ
  pub outbox : List (ℕ × OutMsg)
  pub room : ℕ

abbrev post : ℕ → OutMsg → World → TrySend × World
post to m w =
    if ltb (length w.outbox) w.room
    then (sent, record w { outbox = w.outbox ++ ((to, m) ∷ []) })
    else (full, w)

abbrev pub small : Platform
small = record {
  codec = lib0;
  yrs = edits;
  World = World;
  Value = Bytes;
  now = λ w. (w.time, w);
  try_send = post;
  send_reply = λ to bytes w. w;
  send_ack = λ to w. w;
  documents_remove = λ name w. w;
}
