-- ===== src/Prelude/Maps.antt =====
-- Hash maps and hash sets as association lists. The order in which a map is walked is the order of
-- the list; the program relies on none, and nothing is proved that depends on how it arises.
use mathlib.Core.Path.{◌≡◌, refl}
use mathlib.Core.Logic.{inl, inr}
use mathlib.Core.Bool.{Bool, true, false, ◌||◌}
use mathlib.Core.Option.{Option, none, some}
use mathlib.Core.List.{List, [], ◌∷◌}
use native.Mathlib.Omega.{arith}
use hocuspocus_rs.Prelude.Tests.{if◌then◌else◌, Bool-cases}
use hocuspocus_rs.Prelude.Equality.{Eq, ◌==◌}

abbrev pub Map : Type 0 → Type 0 → Type 0
Map K V = List (K × V)

module _ {K : Type 0} {V : Type 0} ⦃e : Eq K⦄ where
  unfoldable pub lookup : K → Map K V → Option V
  lookup k [] = none
  lookup k ((j, v) ∷ m) = if j == k then some v else lookup k m

  unfoldable pub remove : K → Map K V → Map K V
  remove k [] = []
  remove k ((j, v) ∷ m) = let rest = remove k m in if j == k then rest else (j, v) ∷ rest

  unfoldable pub insert : K → V → Map K V → Map K V
  insert k v m = (k, v) ∷ remove k m

  unfoldable pub contains_key : K → Map K V → Bool
  contains_key k [] = false
  contains_key k ((j, v) ∷ m) = j == k || contains_key k m

  -- A write through `get_mut`: nothing happens at a missing key.
  unfoldable pub update : K → (V → V) → Map K V → Map K V
  update k f [] = []
  update k f ((j, v) ∷ m) =
      let rest = update k f m in if j == k then (j, f v) ∷ rest else (j, v) ∷ rest

  pub lookup-remove :
      (k j : K) (m : Map K V) → lookup j (remove k m) ≡ (if k == j then none else lookup j m)
  unfolding lookup remove
  lookup-remove k j [] = ground arith
  lookup-remove k j ((i, v) ∷ m) =
      ground (arith, lookup-remove k j m, e.beq_iff i k, e.beq_iff i j, e.beq_iff k j)

  pub lookup-insert :
      (k j : K) (v : V) (m : Map K V)
      → lookup j (insert k v m) ≡ (if k == j then some v else lookup j m)
  unfolding insert lookup
  lookup-insert k j v m = ground (arith, lookup-remove k j m)

  pub contains_key-lookup :
      (k : K) (m : Map K V) → contains_key k m ≡ true → (v : V) × (lookup k m ≡ some v)
  unfolding contains_key lookup
  contains_key-lookup k [] h = cc
  contains_key-lookup k ((j, v) ∷ m) h = elim (Bool-cases (j == k)) [
    | inl hit ↦ (v, rw hit)
    | inr miss ↦ rw miss (contains_key-lookup k m (ground arith))
  ]

  pub lookup-none : (k : K) (m : Map K V) → contains_key k m ≡ false → lookup k m ≡ none
  unfolding contains_key lookup
  lookup-none k [] h = refl
  lookup-none k ((j, v) ∷ m) h = ground (arith, lookup-none k m)
