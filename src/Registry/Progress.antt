-- ===== src/Registry/Progress.antt =====
-- Each step of a task of `ServerShared::document` in crates/hocuspocus/src/server.rs leads from a stage of
-- the opening to a stage.
use hocuspocus_rs.Prelude.{suc, ◌≡◌, refl, ap, true, false, ◌&&◌, none, some, arith}
use hocuspocus_rs.Registry.{
  running, Shared, Phase, inserts, owns, Move, find, miss, old_lock, new_lock, acquire, hit, load,
  spawn, insert, clean, unlock, join, fail, retry, leave,
}
use hocuspocus_rs.Registry.Stages.{
  fresh, behind, early, late, Stage, unlocked, locked, making, made_beside, resident, behind-early,
  late-behind,
}

unlocked_moves :
    {other p p' : Phase} {s s' : Shared}
    → Move other s p s' p'
    → s.documents ≡ none
    → s.creating ≡ none
    → s.next_lock ≡ 0
    → s.next_actor ≡ 0
    → (fresh other && fresh p) ≡ true
    → Stage s' other p'
unlocked_moves (find h x) d c l a e = absurd (ground arith)
unlocked_moves (miss x) d c l a e = unlocked d c l a e
unlocked_moves (old_lock k x) d c l a e = absurd (ground arith)
unlocked_moves (new_lock x) d c l a e = locked d (ap some l) a (ground arith) (ground arith)
unlocked_moves (acquire k x) d c l a e = absurd (ground arith)
unlocked_moves (hit k h x) d c l a e = absurd (ground arith)
unlocked_moves (load k x) d c l a e = absurd (ground arith)
unlocked_moves (spawn k) d c l a e = absurd (ground arith)
unlocked_moves (insert k h) d c l a e = absurd (ground arith)
unlocked_moves (clean k h) d c l a e = absurd (ground arith)
unlocked_moves (unlock k h) d c l a e = absurd (ground arith)
unlocked_moves (join h x) d c l a e = absurd (ground arith)
unlocked_moves (fail h x) d c l a e = absurd (ground arith)
unlocked_moves (retry h) d c l a e = absurd (ground arith)
unlocked_moves (leave h) d c l a e = absurd (ground arith)

locked_moves :
    {other p p' : Phase} {s s' : Shared}
    → Move other s p s' p'
    → s.documents ≡ none
    → s.creating ≡ some 0
    → s.next_actor ≡ 0
    → (early other && early p) ≡ true
    → (owns other 0 && owns p 0) ≡ false
    → Stage s' other p'
locked_moves (find h x) d c a e o = absurd (ground arith)
locked_moves (miss x) d c a e o = locked d c a (ground arith) (ground arith)
locked_moves (old_lock k x) d c a e o = locked d c a (ground arith) (ground arith)
locked_moves (new_lock x) d c a e o = absurd (ground arith)
locked_moves (acquire k x) d c a e o = locked d c a (ground arith) (ground arith)
locked_moves (hit k h x) d c a e o = absurd (ground arith)
locked_moves (load k x) d c a e o = locked d c a (ground arith) (ground arith)
locked_moves {other} {s} (spawn k) d c a e o =
    let k0 : k ≡ 0 = ground arith in
    making d c (ap suc a) (ground arith) (rw (k0, a) refl)
      (behind-early other (ground arith) (ground arith))
locked_moves (insert k h) d c a e o = absurd (ground arith)
locked_moves (clean k h) d c a e o = absurd (ground arith)
locked_moves (unlock k h) d c a e o = absurd (ground arith)
locked_moves (join h x) d c a e o = absurd (ground arith)
locked_moves (fail h x) d c a e o = absurd (ground arith)
locked_moves (retry h) d c a e o = absurd (ground arith)
locked_moves (leave h) d c a e o = absurd (ground arith)

making_moves :
    {other p p' : Phase} {s s' : Shared}
    → Move other s p s' p'
    → s.documents ≡ none
    → s.creating ≡ some 0
    → s.next_actor ≡ 1
    → s.actors 0 ≡ running
    → p ≡ inserts 0 0
    → behind other ≡ true
    → Stage s' other p'
making_moves (find h x) d c a r e b = cc
making_moves (miss x) d c a r e b = cc
making_moves (old_lock k x) d c a r e b = cc
making_moves (new_lock x) d c a r e b = cc
making_moves (acquire k x) d c a r e b = cc
making_moves (hit k h x) d c a r e b = cc
making_moves (load k x) d c a r e b = cc
making_moves (spawn k) d c a r e b = cc
making_moves {other} (insert k h) d c a r e b =
    let h0 : h ≡ 0 = cc in resident (ap some h0) a r (ground (arith, late-behind other b))
making_moves (clean k h) d c a r e b = cc
making_moves (unlock k h) d c a r e b = cc
making_moves (join h x) d c a r e b = cc
making_moves (fail h x) d c a r e b = cc
making_moves (retry h) d c a r e b = cc
making_moves (leave h) d c a r e b = cc

made_beside_moves :
    {other p p' : Phase} {s s' : Shared}
    → Move other s p s' p'
    → s.documents ≡ none
    → s.creating ≡ some 0
    → s.next_actor ≡ 1
    → s.actors 0 ≡ running
    → other ≡ inserts 0 0
    → behind p ≡ true
    → Stage s' other p'
made_beside_moves (find h x) d c a r e b = absurd (ground arith)
made_beside_moves (miss x) d c a r e b = made_beside d c a r e (ground arith)
made_beside_moves (old_lock k x) d c a r e b = made_beside d c a r e (ground arith)
made_beside_moves (new_lock x) d c a r e b = absurd (ground arith)
made_beside_moves (acquire k x) d c a r e b = absurd (ground arith)
made_beside_moves (hit k h x) d c a r e b = absurd (ground arith)
made_beside_moves (load k x) d c a r e b = absurd (ground arith)
made_beside_moves (spawn k) d c a r e b = absurd (ground arith)
made_beside_moves (insert k h) d c a r e b = absurd (ground arith)
made_beside_moves (clean k h) d c a r e b = absurd (ground arith)
made_beside_moves (unlock k h) d c a r e b = absurd (ground arith)
made_beside_moves (join h x) d c a r e b = absurd (ground arith)
made_beside_moves (fail h x) d c a r e b = absurd (ground arith)
made_beside_moves (retry h) d c a r e b = absurd (ground arith)
made_beside_moves (leave h) d c a r e b = absurd (ground arith)

resident_moves :
    {other p p' : Phase} {s s' : Shared}
    → Move other s p s' p'
    → s.documents ≡ some 0
    → s.next_actor ≡ 1
    → s.actors 0 ≡ running
    → (late other && late p) ≡ true
    → Stage s' other p'
resident_moves (find h x) d a r e = resident d a r (ground arith)
resident_moves (miss x) d a r e = absurd (ground arith)
resident_moves (old_lock k x) d a r e = resident d a r (ground arith)
resident_moves (new_lock x) d a r e = resident d a r (ground arith)
resident_moves (acquire k x) d a r e = resident d a r (ground arith)
resident_moves (hit k h x) d a r e = resident d a r (ground arith)
resident_moves (load k x) d a r e = absurd (ground arith)
resident_moves (spawn k) d a r e = absurd (ground arith)
resident_moves (insert k h) d a r e = absurd (ground arith)
resident_moves (clean k h) d a r e = resident d a r (ground arith)
resident_moves (unlock k h) d a r e = resident d a r (ground arith)
resident_moves (join h x) d a r e = resident d a r (ground arith)
resident_moves (fail h x) d a r e = absurd (ground arith)
resident_moves (retry h) d a r e = absurd (ground arith)
resident_moves (leave h) d a r e = resident d a r (ground arith)

pub preserved :
    {other p p' : Phase} {s s' : Shared}
    → Move other s p s' p'
    → Stage s other p
    → Stage s' other p'
preserved m (unlocked d c l a e) = unlocked_moves m d c l a e
preserved m (locked d c a e o) = locked_moves m d c a e o
preserved m (making d c a r e b) = making_moves m d c a r e b
preserved m (made_beside d c a r e b) = made_beside_moves m d c a r e b
preserved m (resident d a r e) = resident_moves m d a r e
