-- ===== src/Origin.antt =====
-- crates/hocuspocus/src/origin.rs: where a mutation came from, and its byte form.
pub mod RoundTrip
use hocuspocus_rs.Prelude.{
  ℕ, zero, suc, ◌+◌, ◌*◌, ◌/◌, ◌%◌, Bool, true, false, ◌&&◌, Option, none, some, [], ◌∷◌, Bytes,
  length, nat_eq, if◌then◌else◌,
}

pub data Origin : Type 0 where
  connection : ℕ → Origin
  redis local : Origin

-- `to_le_bytes` of an integer of `n` bytes.
unfoldable pub to_le_bytes : ℕ → ℕ → Bytes
to_le_bytes zero v = []
to_le_bytes (suc n) v = (v % 256) ∷ to_le_bytes n (v / 256)

unfoldable pub from_le_bytes : Bytes → ℕ
from_le_bytes [] = 0
from_le_bytes (b ∷ bs) = b + 256 * from_le_bytes bs

unfoldable pub encode : Origin → Bytes
encode (connection id) = 1 ∷ to_le_bytes 8 id
encode redis = 2 ∷ []
encode local = 3 ∷ []

unfoldable pub decode : Bytes → Option Origin
decode [] = none
decode (tag ∷ rest) =
    if nat_eq tag 1 && nat_eq (length (tag ∷ rest)) 9
    then some (connection (from_le_bytes rest))
    else if nat_eq tag 2
    then some redis
    else if nat_eq tag 3
    then some local
    else none

unfoldable pub is_redis : Origin → Bool
is_redis redis = true
is_redis _ = false
