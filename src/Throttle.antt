-- ===== src/Throttle.antt =====
-- crates/hocuspocus/src/extensions/throttle.rs: a sliding window of connection attempts for each IP.
-- An `Instant` and a `Duration` are numbers of one unit; `duration_since` stops at 0, as `-` does.
pub mod Hook
pub mod Window
pub mod Ban
use hocuspocus_rs.Prelude.{
  ℕ, ◌-◌, ◌*◌, Bool, true, false, Option, none, some, List, [], ◌∷◌, ◌++◌, Bytes, Map, lookup,
  insert, remove, length, keep, ltb, if◌then◌else◌, Bytes-Eq,
}

pub record Inner : Type 0 where
  pub connections : Map Bytes (List ℕ)
  pub banned : Map Bytes ℕ

pub record Throttle : Type 0 where
  pub throttle : ℕ
  pub considered : ℕ
  pub ban_time : ℕ

-- `Throttle::new`, whose `inner` is apart here.
abbrev pub new_inner : Inner
new_inner = record { connections = []; banned = [] }

-- Durations in seconds.
abbrev pub with_defaults : Throttle
with_defaults = record { throttle = 15; considered = 60; ban_time = 5 * 60 }

-- `now.duration_since(*t) < window`
abbrev pub within : ℕ → ℕ → ℕ → Bool
within now window t = ltb (now - t) window

-- `entry(ip).or_default()`
abbrev pub entry : Bytes → Inner → List ℕ
entry ip inner = elim (lookup ip inner.connections) [ none ↦ [] | some ts ↦ ts ]

-- The second half of `should_block`, for an IP that is not banned.
unfoldable pub attempt : Throttle → ℕ → Bytes → Inner → Bool × Inner
attempt t now ip inner =
    let kept = keep (within now t.considered) (entry ip inner ++ (now ∷ [])) in
    let counted = record inner { connections = insert ip kept inner.connections } in
    if ltb t.throttle (length kept)
    then (true, record counted { banned = insert ip now inner.banned })
    else (false, counted)

unfoldable pub should_block : Throttle → ℕ → Bytes → Inner → Bool × Inner
should_block t now ip inner = elim (lookup ip inner.banned) [
  | none ↦ attempt t now ip inner
  | some banned_at ↦
      if ltb (now - banned_at) t.ban_time
      then (true, inner)
      else attempt t now ip (record inner { banned = remove ip inner.banned })
]
