-- ===== src/Yrs/Crdt.antt =====
-- What the documents of `yrs` are to the statements on convergence: values of a semilattice, with diffs
-- that bring one document all that another has.
use hocuspocus_rs.Prelude.{◌≡◌, Bytes, ok}
use hocuspocus_rs.Yrs.{Yrs}

-- What `yrs` documents of its type: a document has a value in a semilattice, which includes the updates
-- that wait for others, and an update joins its meaning to that value. An update that is refused means
-- nothing that the document does not hold.
pub record IsCrdt (y : Yrs) {S : Type 0} (value : y.Doc → S) (meaning : y.Update → S)
    (join : S → S → S) : Type 0 where
  pub assoc : (a b c : S) → join (join a b) c ≡ join a (join b c)
  pub comm : (a b : S) → join a b ≡ join b a
  pub idem : (a : S) → join a a ≡ a
  pub applied :
      (doc : y.Doc) (o : Bytes) (u : y.Update)
      → value (y.apply_update doc o u).doc ≡ join (value doc) (meaning u)

-- What `yrs` documents of `encode_diff_v1` for the document `theirs` and the state vector of `mine`:
-- the diff is an update, and brings `mine` all that `theirs` has.
pub record IsDiff (y : Yrs) {S : Type 0} (value : y.Doc → S) (meaning : y.Update → S)
    (join : S → S → S) (mine theirs : y.Doc) : Type 0 where
  pub missing : y.Update
  pub decoded : y.decode_update (y.encode_diff theirs (y.state_vector mine)) ≡ ok missing
  pub complete : join (value mine) (meaning missing) ≡ join (value mine) (value theirs)
