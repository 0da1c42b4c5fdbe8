-- ===== src/Query/Pairs.antt =====
-- The query string of a client, read by `form_urlencoded_parse` of crates/hocuspocus/src/server.rs.
use hocuspocus_rs.Prelude.{
  ℕ, ◌/◌, ◌%◌, ◌<◌, ◌≡◌, refl, ap, ◌∙◌, true, false, List, [], ◌∷◌, ◌++◌, Bytes, All, map, arith,
  nat_eq, Bool-cases, inl, inr,
}
use mathlib.Core.Path.{ap₂}
use hocuspocus_rs.Query.{
  done, percent_decode, split, split_pair, decode_pairs, form_urlencoded_parse,
}
use hocuspocus_rs.Query.RoundTrip.{
  hex_digit, is_unreserved, percent_encode, percent_decode-percent_encode,
}

-- `key=value`, and `key=value&key=value…`
abbrev encode_pair : Bytes × Bytes → Bytes
encode_pair (k, v) = percent_encode k ++ b'=' ∷ percent_encode v

unfoldable pub encode_query : List (Bytes × Bytes) → Bytes
encode_query [] = []
encode_query (kv ∷ []) = encode_pair kv
encode_query (kv ∷ kw ∷ rest) = encode_pair kv ++ b'&' ∷ encode_query (kw ∷ rest)

-- Neither separator stands in the text.
abbrev IsFree : Bytes → Type 0
IsFree = All (λ b. (nat_eq b b'&' ≡ false) × (nat_eq b b'=' ≡ false))

hex_digit-free :
    (n : ℕ) → n < 16 → (nat_eq (hex_digit n) b'&' ≡ false) × (nat_eq (hex_digit n) b'=' ≡ false)
hex_digit-free n h = ground arith

unreserved_free :
    (b : ℕ) → is_unreserved b ≡ true → (nat_eq b b'&' ≡ false) × (nat_eq b b'=' ≡ false)
unreserved_free b h = ground arith

percent_encode-IsFree : (s : Bytes) → All (λ b. b < 256) s → IsFree (percent_encode s)
unfolding percent_encode
percent_encode-IsFree [] k = tt
percent_encode-IsFree (b ∷ bs) k = elim (Bool-cases (is_unreserved b)) [
  | inl e ↦ rw e (unreserved_free b e, percent_encode-IsFree bs k.1)
  | inr e ↦ rw e (
    (refl, refl),
    (
      hex_digit-free (b / 16) (omega (arith, k.0)),
      (hex_digit-free (b % 16) (omega arith), percent_encode-IsFree bs k.1),
    ),
  )
]

split_pair-free : (xs ys : Bytes) → IsFree xs → split_pair (xs ++ b'=' ∷ ys) ≡ (xs, ys)
unfolding split_pair
split_pair-free [] ys k = refl
split_pair-free (x ∷ xs) ys k = rw (k.0.1, split_pair-free xs ys k.1) refl

decode_pairs-cons :
    (b : ℕ) (bs : Bytes) (rest : List Bytes)
    → decode_pairs ((b ∷ bs) ∷ rest)
      ≡ (percent_decode (split_pair (b ∷ bs)).0, percent_decode (split_pair (b ∷ bs)).1)
        ∷ decode_pairs rest
unfolding decode_pairs
decode_pairs-cons b bs rest = refl

decode_pairs-free :
    (xs ys : Bytes) (rest : List Bytes)
    → IsFree xs
    → decode_pairs ((xs ++ b'=' ∷ ys) ∷ rest)
      ≡ (percent_decode xs, percent_decode ys) ∷ decode_pairs rest
decode_pairs-free [] ys rest k =
    decode_pairs-cons b'=' ys rest
    ∙ ap (λ kv. (percent_decode kv.0, percent_decode kv.1) ∷ decode_pairs rest)
        (split_pair-free [] ys tt)
decode_pairs-free (x ∷ xs) ys rest k =
    decode_pairs-cons x (xs ++ b'=' ∷ ys) rest
    ∙ ap (λ kv. (percent_decode kv.0, percent_decode kv.1) ∷ decode_pairs rest)
        (split_pair-free (x ∷ xs) ys k)

-- No `&` stands in the text.
abbrev IsWhole : Bytes → Type 0
IsWhole = All (λ b. nat_eq b b'&' ≡ false)

IsFree-IsWhole : (xs ys : Bytes) → IsFree xs → IsFree ys → IsWhole (xs ++ b'=' ∷ ys)
IsFree-IsWhole [] [] k l = (refl, tt)
IsFree-IsWhole [] (y ∷ ys) k l = (refl, (l.0.0, (IsFree-IsWhole [] ys tt l.1).1))
IsFree-IsWhole (x ∷ xs) ys k l = (k.0.0, IsFree-IsWhole xs ys k.1 l)

split-last : (xs : Bytes) → IsWhole xs → split b'&' xs ≡ xs ∷ []
unfolding split
split-last [] k = refl
split-last (x ∷ xs) k = rw (k.0, split-last xs k.1) refl

split-first : (xs ys : Bytes) → IsWhole xs → split b'&' (xs ++ b'&' ∷ ys) ≡ xs ∷ split b'&' ys
unfolding split
split-first [] ys k = refl
split-first (x ∷ xs) ys k = rw (k.0, split-first xs ys k.1) refl

abbrev pub IsByteText : Bytes → Type 0
IsByteText = All (λ b. b < 256)

encode_pair-IsWhole : (k v : Bytes) → IsByteText k → IsByteText v → IsWhole (encode_pair (k, v))
encode_pair-IsWhole k v a b =
    IsFree-IsWhole (percent_encode k) (percent_encode v) (percent_encode-IsFree k a)
      (percent_encode-IsFree v b)

decode_pairs-encode_pair :
    (k v : Bytes) (rest : List Bytes)
    → IsByteText k
    → IsByteText v
    → decode_pairs (encode_pair (k, v) ∷ rest) ≡ (done k, done v) ∷ decode_pairs rest
decode_pairs-encode_pair k v rest a b =
    decode_pairs-free (percent_encode k) (percent_encode v) rest (percent_encode-IsFree k a)
    ∙ ap₂ (λ k v. (k, v) ∷ decode_pairs rest) (percent_decode-percent_encode k a)
        (percent_decode-percent_encode v b)

-- The parameters of a client that percent-encodes its names and values are read back, in order.
pub form_urlencoded_parse-encode_query :
    (kvs : List (Bytes × Bytes))
    → All (λ kv. IsByteText kv.0 × IsByteText kv.1) kvs
    → form_urlencoded_parse (encode_query kvs) ≡ map (λ kv. (done kv.0, done kv.1)) kvs
unfolding form_urlencoded_parse encode_query
form_urlencoded_parse-encode_query [] a = refl
form_urlencoded_parse-encode_query ((k, v) ∷ []) a =
    ap decode_pairs (split-last (encode_pair (k, v)) (encode_pair-IsWhole k v a.0.0 a.0.1))
    ∙ decode_pairs-encode_pair k v [] a.0.0 a.0.1
form_urlencoded_parse-encode_query ((k, v) ∷ kw ∷ rest) a =
    ap decode_pairs (
      split-first (encode_pair (k, v)) (encode_query (kw ∷ rest))
        (encode_pair-IsWhole k v a.0.0 a.0.1))
    ∙ decode_pairs-encode_pair k v (split b'&' (encode_query (kw ∷ rest))) a.0.0 a.0.1
    ∙ ap ((done k, done v) ∷◌) (form_urlencoded_parse-encode_query (kw ∷ rest) a.1)
