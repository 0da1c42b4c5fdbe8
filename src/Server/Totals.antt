-- ===== src/Server/Totals.antt =====
-- Sums over the values of a map whose keys are distinct.
use mathlib.Core.Path.{subst}
use native.Mathlib.Nat.{add_comm}
use hocuspocus_rs.Prelude.{
  ℕ, suc, ◌+◌, ◌≤◌, ◌≡◌, refl, true, Option, none, some, [], ◌∷◌, Map, arith, ◌==◌, lookup, remove,
  insert, contains_key, lookup-remove, Eq, length, inl, inr, Bool-cases,
}

unfoldable pub weight : {V : Type 0} → (V → ℕ) → Option V → ℕ
weight f none = 0
weight f (some v) = f v

module _ {K : Type 0} {V : Type 0} ⦃e : Eq K⦄ where
  unfoldable pub Distinct : Map K V → Type 0
  Distinct [] = Unit
  Distinct ((k, _) ∷ m) = (lookup k m ≡ none) × Distinct m

  unfoldable pub total : (V → ℕ) → Map K V → ℕ
  total f [] = 0
  total f ((_, v) ∷ m) = f v + total f m

  remove_missing : (k : K) (m : Map K V) → lookup k m ≡ none → remove k m ≡ m
  unfolding lookup remove
  remove_missing k [] h = refl
  remove_missing k ((j, v) ∷ m) h = elim (Bool-cases (j == k)) [
    | inl hit ↦ ground arith
    | inr miss ↦ rw (miss, remove_missing k m (ground arith)) refl
  ]

  pub total-remove :
      (f : V → ℕ) (k : K) (m : Map K V)
      → Distinct m
      → total f (remove k m) + weight f (lookup k m) ≡ total f m
  unfolding Distinct total weight lookup remove
  total-remove f k [] h = ground arith
  total-remove f k ((j, v) ∷ m) h = elim (Bool-cases (j == k)) [
    | inl hit ↦
        rw (hit, remove_missing k m (subst (λ i. lookup i m ≡ none) ((e.beq_iff j k).0 hit) h.0))
          (add_comm (total f m) (f v))
    | inr miss ↦ ground (arith, total-remove f k m h.1)
  ]

  pub remove-Distinct : (k : K) (m : Map K V) → Distinct m → Distinct (remove k m)
  unfolding Distinct remove
  remove-Distinct k [] h = h
  remove-Distinct k ((j, v) ∷ m) h = elim (Bool-cases (j == k)) [
    | inl hit ↦ rw hit (remove-Distinct k m h.1)
    | inr miss ↦ rw miss (ground (arith, lookup-remove k j m, h.0), remove-Distinct k m h.1)
  ]

  pub insert-Distinct : (k : K) (v : V) (m : Map K V) → Distinct m → Distinct (insert k v m)
  unfolding Distinct insert
  insert-Distinct k v m h =
      (ground (arith, lookup-remove k k m, e.beq_iff k k), remove-Distinct k m h)

  pub length-remove : (k : K) (m : Map K V) → length (remove k m) ≤ length m
  unfolding remove
  length-remove k [] = ground arith
  length-remove k ((j, v) ∷ m) = ground (arith, length-remove k m)

  pub length-remove_found :
      (k : K) (m : Map K V) → contains_key k m ≡ true → suc (length (remove k m)) ≤ length m
  unfolding remove contains_key
  length-remove_found k [] h = ground arith
  length-remove_found k ((j, v) ∷ m) h = ground (arith, length-remove_found k m, length-remove k m)
