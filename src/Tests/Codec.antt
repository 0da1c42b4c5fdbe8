-- ===== src/Tests/Codec.antt =====
-- The lib0 encoding: groups of seven bits, lowest first, and strings with their length in front.
use native.Mathlib.Nat.{pow-suc}
use hocuspocus_rs.Prelude.{
  ℕ, zero, suc, ◌+◌, ◌-◌, ◌*◌, ◌/◌, ◌%◌, ◌^◌, ◌<◌, ◌≡◌, [], ◌∷◌, ◌++◌, Bytes, arith, length,
  length-append, take, drop, take-append, drop-append, Result, ok, err, ltb, if◌then◌else◌,
}
use mathlib.Core.List.{append_assoc}
use hocuspocus_rs.Codec.{Codec, IsLib0, IsU64}

-- The answers of a failed read.
pub data ReadError : Type 0 where
  end_of_buffer unexpected_value : ReadError

-- `v` below 128 ^ (k + 1).
unfoldable pub varint : ℕ → ℕ → Bytes
varint zero v = v ∷ []
varint (suc k) v =
    let rest = varint k (v / 128) in if ltb v 128 then v ∷ [] else (v % 128 + 128) ∷ rest

unfoldable pub read_varint : Bytes → Result ReadError (ℕ × Bytes)
read_varint [] = err end_of_buffer
read_varint (b ∷ bs) =
    if ltb b 128
    then ok (b, bs)
    else elim (read_varint bs) [ ok (v, rest) ↦ ok (b - 128 + 128 * v, rest) | err e ↦ err e ]

unfoldable pub read_chunk : Bytes → Result ReadError (Bytes × Bytes)
read_chunk bs = elim (read_varint bs) [
  | ok (n, rest) ↦ if ltb (length rest) n then err end_of_buffer else ok (take n rest, drop n rest)
  | err e ↦ err e
]

abbrev pub lib0 : Codec
lib0 = record {
  ReadError = ReadError;
  unexpected_value = unexpected_value;
  write_var = varint 9;
  write_string = λ s. varint 9 (length s) ++ s;
  write_buf = λ s. varint 9 (length s) ++ s;
  read_var = read_varint;
  read_string = read_chunk;
  read_buf = read_chunk;
}

read_varint-varint :
    (k v : ℕ) (rest : Bytes) → v < 128 ^ suc k → read_varint (varint k v ++ rest) ≡ ok (v, rest)
unfolding varint read_varint
read_varint-varint zero v rest h = ground arith
read_varint-varint (suc k) v rest h =
    let smaller : v / 128 < 128 ^ suc k = omega (arith, pow-suc 128 (suc k)) in
    ground (arith, read_varint-varint k (v / 128) rest smaller)

read_chunk-written :
    (s rest : Bytes)
    → IsU64 (length s)
    → read_chunk ((varint 9 (length s) ++ s) ++ rest) ≡ ok (s, rest)
unfolding read_chunk
read_chunk-written s rest h =
    rw
      (
        append_assoc (varint 9 (length s)) s rest,
        read_chunk,
        read_varint-varint 9 (length s) (s ++ rest) (omega arith),
      )
      (ground (arith, length-append s rest, take-append s rest, drop-append s rest))

pub lib0-IsLib0 : IsLib0 lib0
lib0-IsLib0 = record {
  read_var-write_var = λ n rest h. read_varint-varint 9 n rest (omega arith);
  read_string-write_string = λ s rest h. read_chunk-written s rest h;
  read_buf-write_buf = λ s rest h. read_chunk-written s rest h;
}
