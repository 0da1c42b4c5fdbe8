-- ===== src/Query.antt =====
-- The query-string parser of crates/hocuspocus/src/server.rs. Text is its UTF-8 bytes.
pub mod Escapes
pub mod Pairs
pub mod RoundTrip
use hocuspocus_rs.Prelude.{
  ℕ, zero, suc, ◌+◌, ◌-◌, ◌*◌, Bool, true, false, ◌&&◌, ◌||◌, not, Option, none, some, List, [],
  ◌∷◌, ◌++◌, Bytes, map, length, leb, nat_eq, if◌then◌else◌,
}

-- `s.replace('+', " ")`
abbrev pub replace_plus : Bytes → Bytes
replace_plus = map (λ b. if nat_eq b b'+' then b' ' else b)

-- `char::to_digit(16)`
unfoldable pub to_digit : ℕ → Option ℕ
to_digit b =
    if leb b'0' b && leb b b'9'
    then some (b - b'0')
    else if leb b'a' b && leb b b'f'
    then some (b - b'a' + 10)
    else if leb b'A' b && leb b b'F'
    then some (b - b'A' + 10)
    else none

-- `u8::from_str_radix(text, 16)` for a text of two bytes; a leading plus sign is read over.
unfoldable pub from_hex : ℕ → ℕ → Option ℕ
unfolding to_digit
from_hex a b = if nat_eq a b'+' then to_digit b else elim (to_digit a) [
  | none ↦ none
  | some high ↦ elim (to_digit b) [ none ↦ none | some low ↦ some (16 * high + low) ]
]

-- Whether a character starts at the head: a continuation byte starts none.
abbrev pub is_char_boundary : Bytes → Bool
is_char_boundary [] = true
is_char_boundary (b ∷ _) = not (leb 128 b && leb b 191)

-- What the loop finds at one byte: the byte itself, an escaped one with the bytes behind it, or a
-- slice that ends inside a character, where indexing panics.
pub data Found : Type 0 where
  plain : Found
  escaped : ℕ → Bytes → Found
  split_char : Found

-- The tests of one round: `c` is `raw[i]`, and the list holds the bytes behind it.
unfoldable pub look : ℕ → Bytes → Found
unfolding from_hex
look c (a ∷ b ∷ rest) =
    if nat_eq c b'%'
    then if is_char_boundary rest
      then elim (from_hex a b) [ none ↦ plain | some v ↦ escaped v rest ]
      else split_char
    else plain
look c _ = plain

pub data Decoding : Type 0 where
  out_of_fuel : Decoding
  panicked : Decoding
  done : Bytes → Decoding

-- The `while` of `percent_decode`, on fuel: `raw` is what the index has not passed.
unfoldable pub percent_loop : ℕ → Bytes → Bytes → Decoding
percent_loop zero raw out = out_of_fuel
percent_loop (suc n) [] out = done out
percent_loop (suc n) (c ∷ raw) out = elim (look c raw) [
  | plain ↦ percent_loop n raw (out ++ c ∷ [])
  | escaped v rest ↦ percent_loop n rest (out ++ v ∷ [])
  | split_char ↦ panicked
]

-- `percent_decode`, up to `String::from_utf8_lossy`, with fuel for one round more than bytes.
unfoldable pub percent_decode : Bytes → Decoding
unfolding percent_loop
percent_decode s = percent_loop (suc (length (replace_plus s))) (replace_plus s) []

-- `q.split(sep)`
unfoldable pub split : ℕ → Bytes → List Bytes
split sep [] = [] ∷ []
split sep (b ∷ bs) =
    let rest = split sep bs in
    if nat_eq b sep
    then [] ∷ rest
    else elim rest [ [] ↦ (b ∷ []) ∷ [] | piece ∷ pieces ↦ (b ∷ piece) ∷ pieces ]

-- `pair.splitn(2, '=')`, with the empty text for a part that is missing.
unfoldable pub split_pair : Bytes → Bytes × Bytes
split_pair [] = ([], [])
split_pair (b ∷ bs) = let (k, v) = split_pair bs in if nat_eq b b'=' then ([], bs) else (b ∷ k, v)

-- The loop over the pairs, which skips the empty ones.
unfoldable pub decode_pairs : List Bytes → List (Decoding × Decoding)
unfolding split_pair percent_decode
decode_pairs [] = []
decode_pairs ([] ∷ rest) = decode_pairs rest
decode_pairs ((b ∷ bs) ∷ rest) =
    let (k, v) = split_pair (b ∷ bs) in (percent_decode k, percent_decode v) ∷ decode_pairs rest

unfoldable pub form_urlencoded_parse : Bytes → List (Decoding × Decoding)
unfolding split decode_pairs
form_urlencoded_parse q = decode_pairs (split b'&' q)
