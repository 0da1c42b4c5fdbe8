-- ===== src/Server/Priority.antt =====
-- The order of the extensions that `ServerBuilder::build` of crates/hocuspocus/src/server.rs leaves.
use hocuspocus_rs.Prelude.{
  ℤ, Bool, ◌≡◌, refl, true, List, [], ◌∷◌, All, arith, keep, leb_ℤ, ◌&&◌, Bool-cases, inl, inr,
}
use hocuspocus_rs.Platform.{Platform}
use hocuspocus_rs.Extension.{Extension}
use hocuspocus_rs.Server.Builder.{ServerBuilder, place, sort_by_priority, build}

-- Whether an extension has the priority `k`.
abbrev pub has_priority : {p : Platform} → ℤ → Extension p → Bool
has_priority k ext = leb_ℤ ext.priority k && leb_ℤ k ext.priority

-- No extension stands before one of a higher priority.
abbrev pub IsDescending : {p : Platform} → List (Extension p) → Type 0
IsDescending [] = Unit
IsDescending (ext ∷ exts) = All (λ e. leb_ℤ e.priority ext.priority ≡ true) exts × IsDescending exts

module _ {p : Platform} where
  All-place :
      (k : ℤ) (ext : Extension p) (exts : List (Extension p))
      → leb_ℤ ext.priority k ≡ true
      → All (λ e. leb_ℤ e.priority k ≡ true) exts
      → All (λ e. leb_ℤ e.priority k ≡ true) (place ext exts)
  unfolding place
  All-place k ext [] h a = (h, tt)
  All-place k ext (e ∷ es) h a = elim (Bool-cases (leb_ℤ e.priority ext.priority)) [
    | inl le ↦ rw (le, place) (h, a)
    | inr gt ↦ rw (gt, place) (a.0, All-place k ext es h a.1)
  ]

  All-lower :
      (j k : ℤ) (exts : List (Extension p))
      → leb_ℤ j k ≡ true
      → All (λ e. leb_ℤ e.priority j ≡ true) exts
      → All (λ e. leb_ℤ e.priority k ≡ true) exts
  All-lower j k [] h a = tt
  All-lower j k (e ∷ es) h a = (ground (arith, a.0), All-lower j k es h a.1)

  place-IsDescending :
      (ext : Extension p) (exts : List (Extension p))
      → IsDescending exts
      → IsDescending (place ext exts)
  unfolding place
  place-IsDescending ext [] d = (tt, tt)
  place-IsDescending ext (e ∷ es) d = elim (Bool-cases (leb_ℤ e.priority ext.priority)) [
    | inl le ↦ rw (le, place) ((le, All-lower e.priority ext.priority es le d.0), d)
    | inr gt ↦
        rw (gt, place)
          (All-place e.priority ext es (ground arith) d.0, place-IsDescending ext es d.1)
  ]

  sort-IsDescending : (exts : List (Extension p)) → IsDescending (sort_by_priority exts)
  unfolding sort_by_priority
  sort-IsDescending [] = tt
  sort-IsDescending (ext ∷ exts) =
      place-IsDescending ext (sort_by_priority exts) (sort-IsDescending exts)

  keep-place :
      (k : ℤ) (ext : Extension p) (exts : List (Extension p))
      → keep (has_priority k) (place ext exts) ≡ keep (has_priority k) (ext ∷ exts)
  unfolding place
  keep-place k ext [] = refl
  keep-place k ext (e ∷ es) = elim (Bool-cases (leb_ℤ e.priority ext.priority)) [
    | inl le ↦ rw (le, place) refl
    | inr gt ↦ rw (gt, place) ground (arith, keep-place k ext es)
  ]

  keep-sort :
      (k : ℤ) (exts : List (Extension p))
      → keep (has_priority k) (sort_by_priority exts) ≡ keep (has_priority k) exts
  unfolding sort_by_priority
  keep-sort k [] = refl
  keep-sort k (ext ∷ exts) =
      ground (arith, keep-place k ext (sort_by_priority exts), keep-sort k exts)

  -- The server runs its extensions in descending order of priority, and those of one priority in the
  -- order in which they were registered, each as often as it was.
  pub build-IsDescending :
      (b : ServerBuilder p) (k : ℤ)
      → IsDescending (build b).extensions
        × (keep (has_priority k) (build b).extensions ≡ keep (has_priority k) b.extensions)
  unfolding build
  build-IsDescending b k = (sort-IsDescending b.extensions, keep-sort k b.extensions)
