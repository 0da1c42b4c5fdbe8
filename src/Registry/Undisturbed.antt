-- ===== src/Registry/Undisturbed.antt =====
-- The creation lock of `ServerShared::document` in crates/hocuspocus/src/server.rs, while no actor
-- leaves: two tasks that open one document share one actor.
use hocuspocus_rs.Prelude.{ℕ, ◌≤◌, ◌≡◌, refl, ◌⊎◌, inl, inr, some, arith}
use hocuspocus_rs.Registry.{running, Shared, Phase, joined, Move, System, initial}
use hocuspocus_rs.Registry.Stages.{Stage, unlocked, locked, making, made_beside, resident, swap}
use hocuspocus_rs.Registry.Progress.{preserved}

-- The systems that come from the initial one by moves of the two tasks alone.
pub data Undisturbed : System → Type 0 where
  begun : Undisturbed initial
  by_first :
      {x : System} {s : Shared} {p : Phase}
      → Undisturbed x
      → Move x.second x.shared x.first s p
      → Undisturbed (record x { shared = s; first = p })
  by_second :
      {x : System} {s : Shared} {p : Phase}
      → Undisturbed x
      → Move x.first x.shared x.second s p
      → Undisturbed (record x { shared = s; second = p })

staged : {x : System} → Undisturbed x → Stage x.shared x.second x.first
staged begun = unlocked refl refl refl refl refl
staged (by_first u m) = preserved m (staged u)
staged (by_second u m) = swap (preserved m (swap (staged u)))

one_actor :
    {s : Shared} {other p : Phase} (h : ℕ)
    → Stage s other p
    → p ≡ joined h
    → (h ≡ 0) × (s.documents ≡ some 0) × (s.actors 0 ≡ running)
one_actor h (unlocked d c l a e) j = absurd (ground (arith, rw j at e))
one_actor h (locked d c a e o) j = absurd (ground (arith, rw j at e))
one_actor h (making d c a r e b) j = cc
one_actor h (made_beside d c a r e b) j = absurd (ground (arith, rw j at b))
one_actor h (resident d a r e) j = (ground (arith, rw j at e), d, r)

few_actors : {s : Shared} {other p : Phase} → Stage s other p → s.next_actor ≤ 1
few_actors (unlocked d c l a e) = omega (arith, a)
few_actors (locked d c a e o) = omega (arith, a)
few_actors (making d c a r e b) = omega (arith, a)
few_actors (made_beside d c a r e b) = omega (arith, a)
few_actors (resident d a r e) = omega (arith, a)

-- While no actor leaves, the two tasks make at most one actor, whatever their order; and a task that
-- has joined an actor has joined that one, which is running and is the entry of the registry.
pub shares_one_actor :
    {x : System} (h : ℕ)
    → Undisturbed x
    → (x.shared.next_actor ≤ 1)
      × ((x.first ≡ joined h) ⊎ (x.second ≡ joined h)
          → (h ≡ 0) × (x.shared.documents ≡ some 0) × (x.shared.actors 0 ≡ running))
shares_one_actor h u = (
  few_actors (staged u),
  λ j. elim j [ inl e ↦ one_actor h (staged u) e | inr e ↦ one_actor h (swap (staged u)) e ],
)
