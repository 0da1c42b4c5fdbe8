-- ===== src/Tests/Numbers.antt =====
-- Documents that are numbers: each is the greatest that it has received.
use hocuspocus_rs.Prelude.{
  ℕ, refl, not, List, [], ◌∷◌, Bytes, ascii, arith, ok, ltb, Result, Bytes-Eq, if◌then◌else◌,
}
use hocuspocus_rs.Config.{default_configuration}
use hocuspocus_rs.Yrs.{Yrs}
use hocuspocus_rs.Yrs.Crdt.{IsCrdt}
use hocuspocus_rs.Platform.{Platform}
use hocuspocus_rs.Document.State.{Document, is_empty}
use hocuspocus_rs.Document.Actor.{spawn}
use hocuspocus_rs.Tests.Platform.{encode_message}
use hocuspocus_rs.Tests.Node.{empty_world, node, decode_message}

abbrev pub greater : ℕ → ℕ → ℕ
greater a b = if ltb a b then b else a

abbrev pub decode_number : Bytes → Result Bytes ℕ
decode_number [] = ok 0
decode_number (n ∷ _) = ok n

abbrev pub number_above : ℕ → ℕ → Bytes
number_above sv n = if ltb sv n then n ∷ [] else []

abbrev pub numbers : Yrs
numbers = record {
  Doc = ℕ;
  StateVector = ℕ;
  Update = ℕ;
  Awareness = List ℕ;
  AwarenessUpdate = List ℕ;
  state_vector = λ doc. doc;
  empty_state_vector = 0;
  encode_diff = λ doc sv. number_above sv doc;
  encode_state_as_update = λ doc sv. number_above sv doc;
  decode_update = decode_number;
  apply_update =
      λ doc origin u. record { result = ok tt; doc = greater doc u; change = number_above doc u };
  decode_sync = decode_message;
  encode_sync = encode_message;
  new_awareness = [];
  has_states = λ a. not (is_empty a);
  awareness_update = λ a. ok a;
  update_with_clients = λ ids a. ok ids;
  encode_awareness = λ u. u;
  decode_awareness = λ b. ok b;
  clients = λ u. u;
  apply_awareness = λ u origin a. (ok tt, a);
  remove_state = λ id a. a;
}

pub numbers-IsCrdt : IsCrdt numbers (λ doc. doc) (λ u. u) greater
numbers-IsCrdt = record {
  assoc = λ a b c. ground arith;
  comm = λ a b. ground arith;
  idem = λ a. ground arith;
  applied = λ doc o u. refl;
}

abbrev pub counting : Platform
counting = record node { yrs = numbers }

abbrev pub counter : ℕ → Document counting
counter n = spawn counting (ascii "doc") default_configuration [] n empty_world
