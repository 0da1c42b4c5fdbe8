-- ===== src/Extension/Loops.antt =====
-- The loop over the extensions that an error ends, as crates/hocuspocus/src/document.rs writes it.
use hocuspocus_rs.Prelude.{◌≡◌, refl, ap, some, List, ◌∷◌, ok, err}
use hocuspocus_rs.Errors.{HookError}
use hocuspocus_rs.Platform.{Platform}
use hocuspocus_rs.Extension.{Extension, Hook, run_until_error}

module _ {p : Platform} (hook : Hook p) (ext : Extension p) (exts : List (Extension p))
    (w : p.World) where
  -- An error ends the loop: the extensions behind do not run.
  pub run_until_error-stops :
      {e : HookError} {w' : p.World}
      → hook ext w ≡ (err e, w')
      → run_until_error p hook (ext ∷ exts) w ≡ (some e, w')
  unfolding run_until_error
  run_until_error-stops h = rw (run_until_error, ap (λ x. x.0) h, ap (λ x. x.1) h) refl

  pub run_until_error-goes_on :
      {w' : p.World}
      → hook ext w ≡ (ok tt, w')
      → run_until_error p hook (ext ∷ exts) w ≡ run_until_error p hook exts w'
  unfolding run_until_error
  run_until_error-goes_on h = rw (run_until_error, ap (λ x. x.0) h, ap (λ x. x.1) h) refl
