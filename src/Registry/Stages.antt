-- ===== src/Registry/Stages.antt =====
-- The stages in which two tasks of `ServerShared::document` in crates/hocuspocus/src/server.rs open one
-- document, while no actor leaves.
use hocuspocus_rs.Prelude.{◌≡◌, refl, Bool, true, false, ◌&&◌, none, some, arith, nat_eq}
use hocuspocus_rs.Registry.{
  running, Shared, Phase, start, missed, waits, rechecks, loads, inserts, cleans, unlocks, holds,
  stale, joined, owns,
}

-- Where a task can stand before there is a lock.
abbrev pub fresh : Phase → Bool
fresh start = true
fresh missed = true
fresh _ = false

-- While the other task makes the actor under the lock 0.
abbrev pub behind : Phase → Bool
behind start = true
behind missed = true
behind (waits l) = nat_eq l 0
behind _ = false

-- With the lock 0, before there is an actor.
abbrev pub early : Phase → Bool
early start = true
early missed = true
early (waits l) = nat_eq l 0
early (rechecks l) = nat_eq l 0
early (loads l) = nat_eq l 0
early _ = false

-- Once the actor 0 is in the registry.
abbrev pub late : Phase → Bool
late start = true
late missed = true
late (waits l) = true
late (rechecks l) = true
late (cleans l h) = nat_eq h 0
late (unlocks l h) = nat_eq h 0
late (holds h) = nat_eq h 0
late (joined h) = nat_eq h 0
late _ = false

-- The stages of the opening: no lock, a lock, an actor, and a registry entry.
pub data Stage (s : Shared) (other p : Phase) : Type 0 where
  unlocked :
      s.documents ≡ none
      → s.creating ≡ none
      → s.next_lock ≡ 0
      → s.next_actor ≡ 0
      → (fresh other && fresh p) ≡ true
      → Stage s other p
  locked :
      s.documents ≡ none
      → s.creating ≡ some 0
      → s.next_actor ≡ 0
      → (early other && early p) ≡ true
      → (owns other 0 && owns p 0) ≡ false
      → Stage s other p
  making :
      s.documents ≡ none
      → s.creating ≡ some 0
      → s.next_actor ≡ 1
      → s.actors 0 ≡ running
      → p ≡ inserts 0 0
      → behind other ≡ true
      → Stage s other p
  made_beside :
      s.documents ≡ none
      → s.creating ≡ some 0
      → s.next_actor ≡ 1
      → s.actors 0 ≡ running
      → other ≡ inserts 0 0
      → behind p ≡ true
      → Stage s other p
  resident :
      s.documents ≡ some 0
      → s.next_actor ≡ 1
      → s.actors 0 ≡ running
      → (late other && late p) ≡ true
      → Stage s other p

pub swap : {s : Shared} {p q : Phase} → Stage s q p → Stage s p q
swap (unlocked d c l a e) = unlocked d c l a (ground arith)
swap (locked d c a e o) = locked d c a (ground arith) (ground arith)
swap (making d c a r e b) = made_beside d c a r e b
swap (made_beside d c a r e b) = making d c a r e b
swap (resident d a r e) = resident d a r (ground arith)

pub behind-early : (q : Phase) → early q ≡ true → owns q 0 ≡ false → behind q ≡ true
behind-early start e o = refl
behind-early missed e o = refl
behind-early (waits l) e o = e
behind-early (rechecks l) e o = absurd (ground arith)
behind-early (loads l) e o = absurd (ground arith)
behind-early (inserts l h) e o = absurd (ground arith)
behind-early (cleans l h) e o = absurd (ground arith)
behind-early (unlocks l h) e o = absurd (ground arith)
behind-early (holds h) e o = absurd (ground arith)
behind-early (stale h) e o = absurd (ground arith)
behind-early (joined h) e o = absurd (ground arith)

pub late-behind : (q : Phase) → behind q ≡ true → late q ≡ true
late-behind start e = refl
late-behind missed e = refl
late-behind (waits l) e = refl
late-behind (rechecks l) e = absurd (ground arith)
late-behind (loads l) e = absurd (ground arith)
late-behind (inserts l h) e = absurd (ground arith)
late-behind (cleans l h) e = absurd (ground arith)
late-behind (unlocks l h) e = absurd (ground arith)
late-behind (holds h) e = absurd (ground arith)
late-behind (stale h) e = absurd (ground arith)
late-behind (joined h) e = absurd (ground arith)
