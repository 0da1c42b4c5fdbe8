-- ===== src/Registry/Split.antt =====
-- How two tasks with the handle of one actor that is gone end up with two actors for one document
-- (crates/hocuspocus/src/server.rs).
use hocuspocus_rs.Prelude.{ℕ, suc, ◌<◌, ◌≡◌, ◌≢◌, refl, false, none, some, arith}
use hocuspocus_rs.Registry.{
  ActorState, running, gone, Shared, set_actor, Phase, holds, joined, owns, Move, miss, new_lock,
  acquire, load, spawn, insert, clean, unlock, join, fail, retry, System, first_moves, second_moves,
  Steps, here, next,
}

-- The moves of one task alone.
pub data Moves (other : Phase) (s : Shared) (p : Phase) : Shared → Phase → Type 0 where
  none_yet : Moves other s p s p
  also :
      {s' s'' : Shared} {p' p'' : Phase}
      → Moves other s p s' p'
      → Move other s' p' s'' p''
      → Moves other s p s'' p''

pub first_run :
    (x : System) {s : Shared} {p : Phase}
    → Moves x.second x.shared x.first s p
    → Steps x (record x { shared = s; first = p })
first_run x none_yet = here
first_run x (also m mv) = next (first_run x m) (first_moves mv)

pub second_run :
    (x : System) {s : Shared} {p : Phase}
    → Moves x.first x.shared x.second s p
    → Steps x (record x { shared = s; second = p })
second_run x none_yet = here
second_run x (also m mv) = next (second_run x m) (second_moves mv)

pub set_same : (f : ℕ → ActorState) (h : ℕ) → set_actor f h running h ≡ running
set_same f h = ground arith

set_other : (f : ℕ → ActorState) (h k : ℕ) → h < k → f h ≡ gone → set_actor f k running h ≡ gone
set_other f h k less g = ground arith

-- What the shared state is once a task has made a new actor and joined it.
abbrev reopened : Shared → Shared
reopened s = record s {
  documents = some s.next_actor;
  creating = none;
  next_lock = suc s.next_lock;
  next_actor = suc s.next_actor;
  actors = set_actor s.actors s.next_actor running;
}

-- A task whose actor is gone removes the entry, whatever it is, and joins a new actor.
reopen :
    (other : Phase) (s : Shared) (h : ℕ)
    → s.actors h ≡ gone
    → s.creating ≡ none
    → owns other s.next_lock ≡ false
    → Moves other s (holds h) (reopened s) (joined s.next_actor)
reopen other s h g c o =
    also
      (also
        (also
          (also
            (also
              (also
                (also
                  (also (also (also (also none_yet (fail h g)) (retry h)) (miss refl)) (new_lock c))
                  (acquire s.next_lock o))
                (load s.next_lock refl))
              (spawn s.next_lock))
            (insert s.next_lock s.next_actor))
          (clean s.next_lock s.next_actor))
        (unlock s.next_lock s.next_actor))
      (join s.next_actor (set_same s.actors s.next_actor))

-- A system in which the tasks have joined two actors of one document, and both serve it.
pub record IsSplit (t : System) (a b : ℕ) : Type 0 where
  pub first_joined : t.first ≡ joined a
  pub second_joined : t.second ≡ joined b
  pub first_serves : t.shared.actors a ≡ running
  pub second_serves : t.shared.actors b ≡ running
  pub apart : a ≢ b

pub trans_Steps : {x y z : System} → Steps x y → Steps y z → Steps x z
trans_Steps m here = m
trans_Steps m (next n s) = next (trans_Steps m n) s

abbrev after_first : System → System
after_first x = record x { shared = reopened x.shared; first = joined x.shared.next_actor }

abbrev after_both : System → System
after_both x = record x {
  shared = reopened (reopened x.shared);
  first = joined x.shared.next_actor;
  second = joined (suc x.shared.next_actor);
}

-- Two tasks that took the handle of one actor before it left, with no creation under way, can end up
-- as connections of two different actors that both serve the document: the one that finds out last
-- removes the registry entry of the actor the other has just made, whatever that entry is.
pub stale_handles-IsSplit :
    (x : System) (h : ℕ)
    → x.first ≡ holds h
    → x.second ≡ holds h
    → x.shared.actors h ≡ gone
    → x.shared.creating ≡ none
    → h < x.shared.next_actor
    → (t : System) × Steps x t × IsSplit t x.shared.next_actor (suc x.shared.next_actor)
stale_handles-IsSplit x h p q g c less = (
  after_both x,
  trans_Steps (first_run x (rw p (reopen x.second x.shared h g c (rw q refl)))) (
      second_run (after_first x) (
        rw q (
          reopen (joined x.shared.next_actor) (reopened x.shared) h
            (set_other x.shared.actors h x.shared.next_actor less g) refl refl))),
  record {
    first_joined = refl;
    second_joined = refl;
    first_serves = ground arith;
    second_serves = ground arith;
    apart = omega arith;
  },
)
