-- ===== src/Protocol/Opcodes.antt =====
-- Opcodes and routing keys of crates/hocuspocus/src/protocol.rs: proofs.
use hocuspocus_rs.Prelude.{
  ℕ, zero, suc, ◌<◌, ◌≡◌, refl, ◌≢◌, ◌↔◌, inl, inr, Option, none, some, [], ◌∷◌, ◌++◌, Bytes, arith,
  take, drop, All, Option-cases, length, take-append,
}
use hocuspocus_rs.Protocol.{
  MessageType, sync, opcode, from_u64, find_nul, parse_routing_key, message_address,
}

pub from_u64-opcode : (t : MessageType) → from_u64 (opcode t) ≡ some t
unfolding from_u64
from_u64-opcode sync = refl
from_u64-opcode _ = refl

opcode_of_from_u64 : (v : ℕ) (t : MessageType) → from_u64 v ≡ some t → opcode t ≡ v
unfolding from_u64
opcode_of_from_u64 v t h = ground arith

-- A number is read as a message type exactly when it is that type's opcode.
pub from_u64_iff : (v : ℕ) (t : MessageType) → (from_u64 v ≡ some t) ↔ (opcode t ≡ v)
from_u64_iff v t = (opcode_of_from_u64 v t, λ e. rw (← e) (from_u64-opcode t))

pub opcode-lt : (t : MessageType) → opcode t < 11
opcode-lt sync = omega arith
opcode-lt _ = omega arith

abbrev pub HasNoNul : Bytes → Type 0
HasNoNul = All (λ b. b ≢ 0)

find_nul-append :
    (name sid : Bytes) → HasNoNul name → find_nul (name ++ 0 ∷ sid) ≡ some (length name)
unfolding find_nul
find_nul-append [] sid h = refl
find_nul-append (b ∷ bs) sid h = ground (arith, find_nul-append bs sid h.1)

find_nul-none : (name : Bytes) → HasNoNul name → find_nul name ≡ none
unfolding find_nul
find_nul-none [] h = refl
find_nul-none (b ∷ bs) h = ground (arith, find_nul-none bs h.1)

drop_behind :
    (name : Bytes) (x : ℕ) (sid : Bytes) → drop (suc (length name)) (name ++ x ∷ sid) ≡ sid
drop_behind [] x sid = refl
drop_behind (b ∷ bs) x sid = drop_behind bs x sid

-- A routing key built from a document name without a NUL byte is split into that name and the
-- session id, whatever bytes the session id has.
pub parse_routing_key-message_address :
    (name : Bytes) (session_id : Option Bytes)
    → HasNoNul name
    → parse_routing_key (message_address name session_id) ≡ (name, session_id)
unfolding parse_routing_key message_address
parse_routing_key-message_address name none h = rw (find_nul-none name h, parse_routing_key) refl
parse_routing_key-message_address name (some sid) h =
    rw
      (
        find_nul-append name sid h,
        parse_routing_key,
        take-append name (0 ∷ sid),
        drop_behind name 0 sid,
      )
      refl

find_nul_split :
    (key : Bytes) (i : ℕ)
    → find_nul key ≡ some i
    → (take i key ++ 0 ∷ drop (suc i) key ≡ key) × HasNoNul (take i key)
unfolding find_nul
find_nul_split [] i h = cc
find_nul_split (b ∷ bs) zero h = ground arith
find_nul_split (b ∷ bs) (suc i) h = ground (arith, find_nul_split bs i)

find_nul-none_inv : (key : Bytes) → find_nul key ≡ none → HasNoNul key
unfolding find_nul
find_nul-none_inv [] h = tt
find_nul-none_inv (b ∷ bs) h = ground (arith, find_nul-none_inv bs)

-- Every key is the address of the name and the session id that it is split into, and the name
-- has no NUL byte.
pub message_address-parse_routing_key :
    (key : Bytes)
    → (message_address (parse_routing_key key).0 (parse_routing_key key).1 ≡ key)
      × HasNoNul (parse_routing_key key).0
unfolding parse_routing_key message_address
message_address-parse_routing_key key = elim (Option-cases (find_nul key)) [
  | inl e ↦ rw (e, parse_routing_key) (refl, find_nul-none_inv key e)
  | inr (i, e) ↦ rw (e, parse_routing_key) (find_nul_split key i e)
]
