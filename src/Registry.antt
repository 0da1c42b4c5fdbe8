-- ===== src/Registry.antt =====
-- Two tasks that open one document (crates/hocuspocus/src/server.rs: `ServerShared::document` and the
-- loop of `register_connection`), and the actors that serve it, interleaved in any order.
pub mod Stages
pub mod Progress
pub mod Undisturbed
pub mod Split
pub mod TwoLocks
use hocuspocus_rs.Prelude.{
  ℕ, suc, ◌≡◌, Bool, true, false, Option, none, some, nat_eq, if◌then◌else◌,
}

-- An actor that has removed its entry on the way out of its loop serves no command any more.
pub data ActorState : Type 0 where
  unborn running gone : ActorState

-- What the tasks share for one document name: its entry in `documents`, its entry in `creating`, and
-- the actors. Locks and actors are numbered in the order in which they are made.
pub record Shared : Type 0 where
  pub documents : Option ℕ
  pub creating : Option ℕ
  pub next_lock : ℕ
  pub next_actor : ℕ
  pub actors : ℕ → ActorState

abbrev pub set_actor : (ℕ → ActorState) → ℕ → ActorState → ℕ → ActorState
set_actor actors h a i = if nat_eq h i then a else actors i

-- Where a task stands, between two steps that other tasks can see. `l` is its lock, `h` its handle.
pub data Phase : Type 0 where
  start : Phase
  -- the first `get` has found nothing
  missed : Phase
  waits : (l : ℕ) → Phase
  -- the lock is held
  rechecks : (l : ℕ) → Phase
  loads : (l : ℕ) → Phase
  inserts : (l : ℕ) → (h : ℕ) → Phase
  cleans : (l : ℕ) → (h : ℕ) → Phase
  unlocks : (l : ℕ) → (h : ℕ) → Phase
  -- the lock is free, and `AddConnection` is to be sent
  holds : (h : ℕ) → Phase
  -- the actor has not answered
  stale : (h : ℕ) → Phase
  joined : (h : ℕ) → Phase

-- Whether the guard of the lock `l` is alive in a phase.
abbrev pub owns : Phase → ℕ → Bool
owns (rechecks k) l = nat_eq k l
owns (loads k) l = nat_eq k l
owns (inserts k _) l = nat_eq k l
owns (cleans k _) l = nat_eq k l
owns (unlocks k _) l = nat_eq k l
owns _ l = false

abbrev pub is_joined : Phase → ℕ → Bool
is_joined (joined k) h = nat_eq k h
is_joined _ h = false

-- One step of a task, while the other stands at `other`.
pub data Move (other : Phase) (s : Shared) : Phase → Shared → Phase → Type 0 where
  find : (h : ℕ) → s.documents ≡ some h → Move other s start s (holds h)
  miss : s.documents ≡ none → Move other s start s missed
  -- `creating.entry(…).or_insert_with(…)`
  old_lock : (l : ℕ) → s.creating ≡ some l → Move other s missed s (waits l)
  new_lock :
      s.creating ≡ none
      → Move other s missed
          (record s { creating = some s.next_lock; next_lock = suc s.next_lock })
          (waits s.next_lock)
  acquire : (l : ℕ) → owns other l ≡ false → Move other s (waits l) s (rechecks l)
  hit : (l h : ℕ) → s.documents ≡ some h → Move other s (rechecks l) s (holds h)
  load : (l : ℕ) → s.documents ≡ none → Move other s (rechecks l) s (loads l)
  -- `Document::spawn`
  spawn :
      (l : ℕ)
      → Move other s
          (loads l)
          (record s {
            actors = set_actor s.actors s.next_actor running;
            next_actor = suc s.next_actor;
          })
          (inserts l s.next_actor)
  insert : (l h : ℕ) → Move other s (inserts l h) (record s { documents = some h }) (cleans l h)
  clean : (l h : ℕ) → Move other s (cleans l h) (record s { creating = none }) (unlocks l h)
  unlock : (l h : ℕ) → Move other s (unlocks l h) s (holds h)
  join : (h : ℕ) → s.actors h ≡ running → Move other s (holds h) s (joined h)
  -- the send fails, or the acknowledgement is dropped
  fail : (h : ℕ) → s.actors h ≡ gone → Move other s (holds h) s (stale h)
  -- `documents.remove(doc_name)`, and the next round, or the next attempt after the second
  retry : (h : ℕ) → Move other s (stale h) (record s { documents = none }) start
  leave : (h : ℕ) → Move other s (joined h) s start

pub record System : Type 0 where
  pub shared : Shared
  pub first : Phase
  pub second : Phase

pub data Step (s : System) : System → Type 0 where
  first_moves :
      {sh : Shared} {ph : Phase}
      → Move s.second s.shared s.first sh ph
      → Step s (record s { shared = sh; first = ph })
  second_moves :
      {sh : Shared} {ph : Phase}
      → Move s.first s.shared s.second sh ph
      → Step s (record s { shared = sh; second = ph })
  -- `maybe_unload` of an actor without connections: its entry is removed, and it leaves its loop.
  unload :
      (h : ℕ)
      → s.shared.actors h ≡ running
      → is_joined s.first h ≡ false
      → is_joined s.second h ≡ false
      → Step s (record s {
        shared = record s.shared { documents = none; actors = set_actor s.shared.actors h gone };
      })

pub data Steps (s : System) : System → Type 0 where
  here : Steps s s
  next : {t u : System} → Steps s t → Step t u → Steps s u

abbrev pub initial : System
initial = record {
  shared = record {
    documents = none;
    creating = none;
    next_lock = 0;
    next_actor = 0;
    actors = λ _. unborn;
  };
  first = start;
  second = start;
}
