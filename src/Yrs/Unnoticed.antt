-- ===== src/Yrs/Unnoticed.antt =====
-- Updates that `apply_and_broadcast` of crates/hocuspocus/src/document.rs returns early from: `yrs` has
-- refused them, possibly after some of their blocks, or has found no change in them.
use hocuspocus_rs.Prelude.{◌≡◌, [], Bytes, err}
use hocuspocus_rs.Yrs.{Yrs}

-- The document has come from `a` by such updates alone.
pub data Unnoticed (y : Yrs) (a : y.Doc) : y.Doc → Type 0 where
  same : Unnoticed y a a
  refused :
      {b : y.Doc}
      → Unnoticed y a b
      → (o : Bytes) → (u : y.Update) → (e : Bytes) → (y.apply_update b o u).result ≡ err e
      → Unnoticed y a (y.apply_update b o u).doc
  unchanged :
      {b : y.Doc}
      → Unnoticed y a b
      → (o : Bytes) → (u : y.Update) → (y.apply_update b o u).change ≡ []
      → Unnoticed y a (y.apply_update b o u).doc
