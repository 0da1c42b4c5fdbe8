-- ===== src/Origin/RoundTrip.antt =====
-- The byte form of an origin (crates/hocuspocus/src/origin.rs): proofs.
use hocuspocus_rs.Prelude.{
  ℕ, zero, suc, ◌+◌, ◌*◌, ◌/◌, ◌%◌, ◌^◌, ◌<◌, ◌≡◌, refl, ap, some, [], ◌∷◌, Bytes, arith, All,
  length,
}
use native.Mathlib.Nat.{pow-suc}
use hocuspocus_rs.Codec.{IsU64}
use hocuspocus_rs.Origin.{
  Origin, connection, redis, local, to_le_bytes, from_le_bytes, encode, decode,
}

from_le_bytes-to_le_bytes : (n v : ℕ) → v < 256 ^ n → from_le_bytes (to_le_bytes n v) ≡ v
unfolding to_le_bytes from_le_bytes
from_le_bytes-to_le_bytes zero v h = omega arith
from_le_bytes-to_le_bytes (suc n) v h =
    omega (arith, from_le_bytes-to_le_bytes n (v / 256) (omega (arith, pow-suc 256 n)))

to_le_bytes-from_le_bytes :
    (n : ℕ) (bs : Bytes)
    → length bs ≡ n
    → All (λ b. b < 256) bs
    → to_le_bytes n (from_le_bytes bs) ≡ bs
unfolding to_le_bytes from_le_bytes
to_le_bytes-from_le_bytes zero [] h k = refl
to_le_bytes-from_le_bytes zero (b ∷ bs) h k = absurd (omega arith)
to_le_bytes-from_le_bytes (suc n) [] h k = absurd (omega arith)
to_le_bytes-from_le_bytes (suc n) (b ∷ bs) h k =
    let low : (b + 256 * from_le_bytes bs) % 256 ≡ b = omega (arith, k.0) in
    let high : (b + 256 * from_le_bytes bs) / 256 ≡ from_le_bytes bs = omega (arith, k.0) in
    rw (low, high) (ap (◌∷◌ b) (to_le_bytes-from_le_bytes n bs (omega arith) k.1))

abbrev IsValid : Origin → Type 0
IsValid (connection id) = IsU64 id
IsValid _ = Unit {0}

length-to_le_bytes : (n v : ℕ) → length (to_le_bytes n v) ≡ n
unfolding to_le_bytes
length-to_le_bytes zero v = refl
length-to_le_bytes (suc n) v = ap suc (length-to_le_bytes n (v / 256))

-- An origin whose connection id fits 64 bits is decoded from its bytes.
pub decode-encode : (o : Origin) → IsValid o → decode (encode o) ≡ some o
unfolding encode decode
decode-encode (connection id) h =
    ground (arith, length-to_le_bytes 8 id, from_le_bytes-to_le_bytes 8 id (omega arith))
decode-encode redis h = refl
decode-encode local h = refl

-- A nine-byte message with the tag of a connection is the bytes of the origin that it is decoded to.
pub encode-decode_connection :
    (id : ℕ) (bs : Bytes)
    → All (λ b. b < 256) bs
    → decode bs ≡ some (connection id)
    → encode (connection id) ≡ bs
unfolding encode decode
encode-decode_connection id [] k h = cc
encode-decode_connection id (b ∷ bs) k h = ground (arith, to_le_bytes-from_le_bytes 8 bs)
