-- ===== src/Query/RoundTrip.antt =====
-- Percent decoding in crates/hocuspocus/src/server.rs undoes percent encoding.
use hocuspocus_rs.Prelude.{
  ℕ, zero, suc, ◌+◌, ◌-◌, ◌/◌, ◌%◌, ◌<◌, ◌≡◌, refl, ap, ◌∙◌, Bool, true, false, ◌&&◌, ◌||◌, some,
  [], ◌∷◌, ◌++◌, Bytes, All, arith, length, leb, ltb, nat_eq, if◌then◌else◌, Bool-cases, inl, inr,
}
use mathlib.Core.List.{append_assoc, append-nil}
use hocuspocus_rs.Query.{
  replace_plus, to_digit, from_hex, is_char_boundary, plain, escaped, look, done, percent_loop,
  percent_decode,
}

abbrev pub hex_digit : ℕ → ℕ
hex_digit n = if ltb n 10 then b'0' + n else b'A' + n - 10

-- The unreserved characters of a URI.
abbrev pub is_unreserved : ℕ → Bool
is_unreserved b =
    (leb b'0' b && leb b b'9')
    || (leb b'a' b && leb b b'z')
    || (leb b'A' b && leb b b'Z')
    || nat_eq b b'-'
    || nat_eq b b'.'
    || nat_eq b b'_'
    || nat_eq b b'~'

-- The encoding of a client: all but the unreserved characters as a percent sign and two digits.
unfoldable pub percent_encode : Bytes → Bytes
percent_encode [] = []
percent_encode (b ∷ bs) =
    let rest = percent_encode bs in
    if is_unreserved b then b ∷ rest else b'%' ∷ hex_digit (b / 16) ∷ hex_digit (b % 16) ∷ rest

hex_digit-lt : (n : ℕ) → n < 16 → (hex_digit n < 128) × (nat_eq (hex_digit n) b'+' ≡ false)
hex_digit-lt n h = ground arith

to_digit-hex_digit : (n : ℕ) → n < 16 → to_digit (hex_digit n) ≡ some n
unfolding to_digit
to_digit-hex_digit n h = ground arith

from_hex-hex_digit : (b : ℕ) → b < 256 → from_hex (hex_digit (b / 16)) (hex_digit (b % 16)) ≡ some b
unfolding from_hex
from_hex-hex_digit b h =
    let high : b / 16 < 16 = omega arith in
    let low : b % 16 < 16 = omega arith in
    rw
      (
        (hex_digit-lt (b / 16) high).1,
        to_digit-hex_digit (b / 16) high,
        to_digit-hex_digit (b % 16) low,
      )
      (ap some (omega arith))

percent_encode-boundary : (s : Bytes) → is_char_boundary (percent_encode s) ≡ true
unfolding percent_encode
percent_encode-boundary [] = refl
percent_encode-boundary (b ∷ bs) = ground arith

unreserved_plus : (b : ℕ) → is_unreserved b ≡ true → nat_eq b b'+' ≡ false
unreserved_plus b h = ground arith

look-encoded :
    (b : ℕ) (s : Bytes)
    → b < 256
    → look b'%' (hex_digit (b / 16) ∷ hex_digit (b % 16) ∷ percent_encode s)
      ≡ escaped b (percent_encode s)
unfolding look
look-encoded b s h = rw (percent_encode-boundary s, from_hex-hex_digit b h) refl

replace_plus-percent_encode :
    (s : Bytes) → All (λ b. b < 256) s → replace_plus (percent_encode s) ≡ percent_encode s
unfolding percent_encode
replace_plus-percent_encode [] k = refl
replace_plus-percent_encode (b ∷ bs) k = elim (Bool-cases (is_unreserved b)) [
  | inl e ↦ rw (e, unreserved_plus b e, replace_plus-percent_encode bs k.1) refl
  | inr e ↦
      rw
        (
          e,
          (hex_digit-lt (b / 16) (omega (arith, k.0))).1,
          (hex_digit-lt (b % 16) (omega arith)).1,
          replace_plus-percent_encode bs k.1,
        )
        refl
]

look-unreserved : (b : ℕ) (raw : Bytes) → is_unreserved b ≡ true → look b raw ≡ plain
unfolding look
look-unreserved b [] h = refl
look-unreserved b (a ∷ []) h = refl
look-unreserved b (a ∷ c ∷ rest) h = ground arith

loop-percent_encode :
    (n : ℕ) (s out : Bytes)
    → length (percent_encode s) < n
    → All (λ b. b < 256) s
    → percent_loop n (percent_encode s) out ≡ done (out ++ s)
unfolding percent_loop percent_encode
loop-percent_encode zero s out h k = absurd (omega arith)
loop-percent_encode (suc n) [] out h k = rw (append-nil out) refl
loop-percent_encode (suc n) (b ∷ bs) out h k = elim (Bool-cases (is_unreserved b)) [
  | inl e ↦
      rw (e, percent_loop, look-unreserved b (percent_encode bs) e)
        (loop-percent_encode n bs (out ++ b ∷ []) (omega (arith, rw e at h)) k.1
          ∙ ap done (append_assoc out (b ∷ []) bs))
  | inr e ↦
      rw (e, percent_loop, look-encoded b bs k.0)
        (loop-percent_encode n bs (out ++ b ∷ []) (omega (arith, rw e at h)) k.1
          ∙ ap done (append_assoc out (b ∷ []) bs))
]

-- A text of bytes that a client has percent-encoded is decoded to itself.
pub percent_decode-percent_encode :
    (s : Bytes) → All (λ b. b < 256) s → percent_decode (percent_encode s) ≡ done s
unfolding percent_decode
percent_decode-percent_encode s k =
    rw (replace_plus-percent_encode s k)
      (loop-percent_encode (suc (length (percent_encode s))) s [] (omega arith) k)
