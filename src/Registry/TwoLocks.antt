-- ===== src/Registry/TwoLocks.antt =====
-- How the creation lock of `ServerShared::document` in crates/hocuspocus/src/server.rs is held twice:
-- a task that has made a document takes the lock out of `creating` while another still waits for it.
use hocuspocus_rs.Prelude.{ℕ, suc, ◌<◌, ◌≡◌, refl, false, some, none, arith, nat_eq}
use hocuspocus_rs.Registry.{
  running, gone, Shared, set_actor, Phase, start, waits, loads, joined, miss, new_lock, acquire,
  load, spawn, insert, clean, unlock, join, leave, System, unload, Steps, next,
}
use hocuspocus_rs.Registry.Split.{
  Moves, none_yet, also, first_run, second_run, set_same, IsSplit, trans_Steps,
}

lock_apart : (l k : ℕ) → l < k → nat_eq l k ≡ false
lock_apart l k less = ground arith

-- The document after its only client has gone, and the other task behind its second look.
abbrev unloaded : Shared → ℕ → Shared
unloaded s h = record s { documents = none; actors = set_actor s.actors h gone }

abbrev both_load : System → ℕ → ℕ → System
both_load x h l = record x { shared = unloaded x.shared h; first = start; second = loads l }

to_load :
    (x : System) (h l : ℕ)
    → x.first ≡ joined h
    → x.second ≡ waits l
    → x.shared.actors h ≡ running
    → Steps x (both_load x h l)
to_load x h l p q r =
    let left : Steps x (record x { first = start }) =
      first_run x (rw p (also none_yet (leave h))) in
    let closed : Steps x (record x { shared = unloaded x.shared h; first = start }) =
      next left (unload h r refl (rw q refl)) in
    trans_Steps closed (
      second_run (record x { shared = unloaded x.shared h; first = start })
        (rw q (also (also none_yet (acquire l refl)) (load l refl))))

-- What the shared state is once the first task has made an actor under a new lock.
abbrev reopened : Shared → Shared
reopened s = record s {
  documents = some s.next_actor;
  creating = none;
  next_lock = suc s.next_lock;
  next_actor = suc s.next_actor;
  actors = set_actor s.actors s.next_actor running;
}

-- And once the second has made another under the old one.
abbrev overwritten : Shared → Shared
overwritten s = record s {
  documents = some s.next_actor;
  creating = none;
  next_actor = suc s.next_actor;
  actors = set_actor s.actors s.next_actor running;
}

reopen :
    (l : ℕ) (s : Shared)
    → s.documents ≡ none
    → s.creating ≡ none
    → l < s.next_lock
    → Moves (loads l) s start (reopened s) (joined s.next_actor)
reopen l s d c less =
    also
      (also
        (also
          (also
            (also
              (also
                (also (also (also none_yet (miss d)) (new_lock c))
                  (acquire s.next_lock (lock_apart l s.next_lock less)))
                (load s.next_lock d))
              (spawn s.next_lock))
            (insert s.next_lock s.next_actor))
          (clean s.next_lock s.next_actor))
        (unlock s.next_lock s.next_actor))
      (join s.next_actor (set_same s.actors s.next_actor))

overwrite :
    (l : ℕ) (other : Phase) (s : Shared)
    → Moves other s (loads l) (overwritten s) (joined s.next_actor)
overwrite l other s =
    also
      (also (also (also (also none_yet (spawn l)) (insert l s.next_actor)) (clean l s.next_actor))
        (unlock l s.next_actor))
      (join s.next_actor (set_same s.actors s.next_actor))

abbrev after_both : System → ℕ → System
after_both x h = record x {
  shared = overwritten (reopened (unloaded x.shared h));
  first = joined x.shared.next_actor;
  second = joined (suc x.shared.next_actor);
}

-- The creation lock does not exclude: a task that has joined the only actor of a document while
-- another waits for the lock under which it was made can leave and come back so that both tasks make
-- an actor, under two locks, and are connections of two different actors that both serve the document.
pub two_locks-IsSplit :
    (x : System) (h l : ℕ)
    → x.first ≡ joined h
    → x.second ≡ waits l
    → x.shared.actors h ≡ running
    → x.shared.creating ≡ none
    → l < x.shared.next_lock
    → (t : System) × Steps x t × IsSplit t x.shared.next_actor (suc x.shared.next_actor)
two_locks-IsSplit x h l p q r c less =
    let x' = both_load x h l in
    let s = reopened x'.shared in
    (
      after_both x h,
      trans_Steps
          (trans_Steps (to_load x h l p q r) (first_run x' (reopen l x'.shared refl c less)))
          (second_run (record x' { shared = s; first = joined x.shared.next_actor })
            (overwrite l (joined x.shared.next_actor) s)),
      record {
        first_joined = refl;
        second_joined = refl;
        first_serves = ground arith;
        second_serves = ground arith;
        apart = omega arith;
      },
    )
