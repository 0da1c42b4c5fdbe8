-- ===== src/Tests/Locks.antt =====
-- Two tasks that open one document under two creation locks, from a state that they reach.
use hocuspocus_rs.Prelude.{some, none, refl, arith}
use hocuspocus_rs.Registry
use hocuspocus_rs.Registry.{
  System, set_actor, unborn, running, Steps, here, next, initial, first_moves, second_moves, miss,
  old_lock, new_lock, acquire, load, clean, unlock, join, joined, waits,
}
use hocuspocus_rs.Registry.Split.{IsSplit}
use hocuspocus_rs.Registry.TwoLocks.{two_locks-IsSplit}

-- The first task has opened the document and joined it, the second waits for the lock.
abbrev left_waiting : System
left_waiting = record {
  shared = record {
    documents = some 0;
    creating = none;
    next_lock = 1;
    next_actor = 1;
    actors = set_actor (λ i. unborn) 0 running;
  };
  first = joined 0;
  second = waits 0;
}

-- The second task misses the document and finds the lock before the first has taken it out.
left_waiting_reached : Steps initial left_waiting
left_waiting_reached =
    next
      (next
        (next
          (next
            (next
              (next
                (next
                  (next
                    (next (next (next here (first_moves (miss refl))) (first_moves (new_lock refl)))
                      (second_moves (miss refl)))
                    (second_moves (old_lock 0 refl)))
                  (first_moves (acquire 0 refl)))
                (first_moves (load 0 refl)))
              (first_moves (Registry.spawn 0)))
            (first_moves (Registry.insert 0 0)))
          (first_moves (clean 0 0)))
        (first_moves (unlock 0 0)))
      (first_moves (join 0 refl))

two_locks-IsSplit_example : (t : System) × Steps left_waiting t × IsSplit t 1 2
two_locks-IsSplit_example = two_locks-IsSplit left_waiting 0 0 refl refl refl refl (omega arith)
