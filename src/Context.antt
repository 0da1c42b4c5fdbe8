-- ===== src/Context.antt =====
-- crates/hocuspocus/src/context.rs: the bag of values of a connection, and the request's metadata.
use hocuspocus_rs.Prelude.{
  ℕ, Bool, ◌&&◌, ◌||◌, Option, none, some, [], ◌∷◌, Bytes, ascii, Map, lookup, insert, nat_eq, leb,
  if◌then◌else◌, Bytes-Eq,
}
use hocuspocus_rs.Platform.{Platform}

-- The map behind the lock. Clones of a `Context` share one map.
abbrev pub Context : Platform → Type 0
Context p = Map Bytes p.Value

module _ (p : Platform) where
  unfoldable pub set : Bytes → p.Value → Context p → Context p
  set key value context = insert key value context

  unfoldable pub get : Bytes → Context p → Option p.Value
  get key context = lookup key context

  -- `as_str` is that of `serde_json::Value`.
  unfoldable pub get_str : (as_str : p.Value → Option Bytes) → Bytes → Context p → Option Bytes
  get_str as_str key context = elim (lookup key context) [ none ↦ none | some v ↦ as_str v ]

pub record RequestMeta : Type 0 where
  pub headers : Map Bytes Bytes
  pub parameters : Map Bytes Bytes
  pub remote_ip : Option Bytes

-- `s.split(',').next()`: up to the first comma. The iterator is never empty.
unfoldable pub before_comma : Bytes → Bytes
before_comma [] = []
before_comma (b ∷ bs) = let rest = before_comma bs in if nat_eq b b',' then [] else b ∷ rest

-- White space in ASCII. A header value that `to_str` accepts has no other.
abbrev pub is_space : ℕ → Bool
is_space b = nat_eq b b' ' || (leb 9 b && leb b 13)

unfoldable pub trim_start : Bytes → Bytes
trim_start [] = []
trim_start (b ∷ bs) = let rest = trim_start bs in if is_space b then rest else b ∷ bs

unfoldable pub trim_end : Bytes → Bytes
trim_end [] = []
trim_end (b ∷ bs) = elim (trim_end bs) [
  | [] ↦ if is_space b then [] else b ∷ []
  | x ∷ xs ↦ b ∷ x ∷ xs
]

unfoldable pub trim : Bytes → Bytes
unfolding trim_start trim_end
trim s = trim_end (trim_start s)

-- `a.or_else(|| b)`
abbrev pub or_else {ℓ} : {A : Type ℓ} → Option A → Option A → Option A
or_else (some a) b = some a
or_else none b = b

abbrev pub map_option {ℓ} : {A : Type ℓ} → (A → A) → Option A → Option A
map_option f none = none
map_option f (some a) = some (f a)

unfoldable pub client_ip : RequestMeta → Option Bytes
unfolding trim before_comma
client_ip r =
    or_else
      (map_option (λ s. trim (before_comma s))
        (or_else (lookup (ascii "x-real-ip") r.headers)
          (lookup (ascii "x-forwarded-for") r.headers)))
      r.remote_ip
