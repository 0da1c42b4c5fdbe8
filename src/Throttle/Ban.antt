-- ===== src/Throttle/Ban.antt =====
-- What a ban of crates/hocuspocus/src/extensions/throttle.rs keeps out.
use hocuspocus_rs.Prelude.{
  ℕ, ◌+◌, ◌≤◌, ◌<◌, ◌≡◌, refl, sym, true, false, none, some, List, [], ◌∷◌, Bytes, arith, ◌==◌,
  lookup, remove, lookup-insert, lookup-remove, bytes_eq_iff, Bytes-Eq, All, inl, inr, Bool-cases,
}
use mathlib.Core.Path.{subst}
use hocuspocus_rs.Throttle.{Inner, Throttle, attempt, should_block}
use hocuspocus_rs.Throttle.Window.{admitted}

attempt-banned_other :
    (t : Throttle) (now : ℕ) (ip other : Bytes) (inner : Inner)
    → (other == ip) ≡ false
    → lookup ip (attempt t now other inner).1.banned ≡ lookup ip inner.banned
unfolding attempt
attempt-banned_other t now ip other inner h =
    ground (arith, lookup-insert other ip now inner.banned)

should_block-banned_other :
    (t : Throttle) (now : ℕ) (ip other : Bytes) (inner : Inner)
    → (other == ip) ≡ false
    → lookup ip (should_block t now other inner).1.banned ≡ lookup ip inner.banned
unfolding should_block
should_block-banned_other t now ip other inner h = ground (
  arith,
  attempt-banned_other t now ip other inner h,
  attempt-banned_other t now ip other (record inner { banned = remove other inner.banned }) h,
  lookup-remove other ip inner.banned,
)

should_block-banned :
    (t : Throttle) (now : ℕ) (ip : Bytes) (inner : Inner) (b : ℕ)
    → lookup ip inner.banned ≡ some b
    → now < b + t.ban_time
    → b ≤ now
    → should_block t now ip inner ≡ (true, inner)
unfolding should_block
should_block-banned t now ip inner b e h g = ground arith

abbrev pub DuringBan : Throttle → ℕ → ℕ × Bytes → Type 0
DuringBan t b a = (b ≤ a.0) × (a.0 < b + t.ban_time)

none_admitted :
    (t : Throttle) (ip : Bytes) (attempts : List (ℕ × Bytes)) (inner : Inner) (b : ℕ)
    → lookup ip inner.banned ≡ some b
    → All (DuringBan t b) attempts
    → admitted t ip attempts inner ≡ []
unfolding admitted
none_admitted t ip [] inner b e h = refl
none_admitted t ip ((now, other) ∷ later) inner b e h = elim (Bool-cases (other == ip)) [
  | inl hit ↦
      rw (hit, still_banned ((bytes_eq_iff other ip).0 hit))
        (none_admitted t ip later inner b e h.1)
  | inr miss ↦ rw miss (
      none_admitted t ip later (should_block t now other inner).1 b
        (rw (should_block-banned_other t now ip other inner miss) e) h.1)
]
  where
    still_banned : other ≡ ip → should_block t now other inner ≡ (true, inner)
    still_banned p =
        should_block-banned t now other inner b
          (subst (λ o. lookup o inner.banned ≡ some b) (sym p) e) h.0.1 h.0.0

ban_set :
    (t : Throttle) (now : ℕ) (ip : Bytes) (inner : Inner)
    → (attempt t now ip inner).0 ≡ true
    → lookup ip (attempt t now ip inner).1.banned ≡ some now
unfolding attempt
ban_set t now ip inner h = ground (arith, lookup-insert ip ip now inner.banned, bytes_eq_iff ip ip)

-- An attempt at the time `b` of an IP without a ban that is blocked bans the IP: of any further
-- attempts, none of that IP is let through before `b + ban_time`.
pub blocked_none-admitted :
    (t : Throttle) (ip : Bytes) (attempts : List (ℕ × Bytes)) (inner : Inner) (b : ℕ)
    → lookup ip inner.banned ≡ none
    → (should_block t b ip inner).0 ≡ true
    → All (DuringBan t b) attempts
    → admitted t ip attempts (should_block t b ip inner).1 ≡ []
unfolding should_block
blocked_none-admitted t ip attempts inner b e h during =
    none_admitted t ip attempts (should_block t b ip inner).1 b
      (ground (arith, ban_set t b ip inner)) during
