-- ===== src/Codec.antt =====
-- The lib0 encoding of `yrs::encoding` (a dependency), as an interface. A decoder is the bytes that
-- it has not read yet; an encoder is the bytes written so far.
use hocuspocus_rs.Prelude.{ℕ, ◌^◌, ◌<◌, ◌≡◌, ◌++◌, Bytes, length, Result, ok}

pub record Codec : Type 1 where
  pub ReadError : Type 0
  pub unexpected_value : ReadError
  -- What `write_var`, `write_string` and `write_buf` append.
  pub write_var : ℕ → Bytes
  pub write_string : Bytes → Bytes
  pub write_buf : Bytes → Bytes
  -- The value read and the bytes left.
  pub read_var : Bytes → Result ReadError (ℕ × Bytes)
  pub read_string : Bytes → Result ReadError (Bytes × Bytes)
  pub read_buf : Bytes → Result ReadError (Bytes × Bytes)

abbrev pub IsU64 : ℕ → Type 0
IsU64 n = n < 2 ^ 64

-- What the program relies on: a value is read back as it was written, whatever follows it.
pub record IsLib0 (c : Codec) : Type 0 where
  pub read_var-write_var :
      (n : ℕ) (rest : Bytes) → IsU64 n → c.read_var (c.write_var n ++ rest) ≡ ok (n, rest)
  pub read_string-write_string :
      (s rest : Bytes) → IsU64 (length s) → c.read_string (c.write_string s ++ rest) ≡ ok (s, rest)
  pub read_buf-write_buf :
      (b rest : Bytes) → IsU64 (length b) → c.read_buf (c.write_buf b ++ rest) ≡ ok (b, rest)
