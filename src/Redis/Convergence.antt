-- ===== src/Redis/Convergence.antt =====
-- Nodes that have received the same updates hold the same document: messages that
-- crates/hocuspocus/src/extensions/redis.rs publishes, taken in any order by the actor of
-- crates/hocuspocus/src/document.rs.
use hocuspocus_rs.Prelude.{
  ℕ, ◌≡◌, refl, sym, ap, ◌∙◌, Bool, true, false, ◌||◌, Option, none, some, List, [], ◌∷◌, Bytes,
  arith, map, length, ok, err, inl, inr, Result-cases, Bool-cases, ◌==◌, Bytes-Eq, bytes_eq_iff,
}
use hocuspocus_rs.Codec.{IsLib0, IsU64}
use hocuspocus_rs.Origin.{Origin, encode, redis}
use hocuspocus_rs.Yrs.{Yrs, update}
use hocuspocus_rs.Yrs.Crdt.{IsCrdt}
use hocuspocus_rs.Platform.{Platform}
use hocuspocus_rs.Document.State.{DocCommand, Document, is_empty, mark_dirty}
use hocuspocus_rs.Document.Updates.{note_change, apply_and_broadcast}
use hocuspocus_rs.Document.Commands.{handle_command}
use hocuspocus_rs.Document.Actor.{run_commands}
use hocuspocus_rs.Redis.{encode_sync_frame}
use hocuspocus_rs.Redis.Replication.{handle-encode_sync_frame}

-- Whether an update is among those received.
abbrev pub has : Bytes → List Bytes → Bool
has a [] = false
has a (u ∷ us) = u == a || has a us

module _ {y : Yrs} {S : Type 0} {value : y.Doc → S} {meaning : y.Update → S} {join : S → S → S}
    (c : IsCrdt y value meaning join) where
  pub absorb : Bytes → S → S
  absorb bytes v = elim (y.decode_update bytes) [ ok u ↦ join v (meaning u) | err _ ↦ v ]

  fold : List Bytes → S → S
  fold [] v = v
  fold (u ∷ us) v = fold us (absorb u v)

  pub absorb_decoded :
      (a : Bytes) (x : y.Update) (v : S)
      → y.decode_update a ≡ ok x
      → absorb a v ≡ join v (meaning x)
  unfolding absorb
  absorb_decoded a x v e = rw (e, absorb) refl

  absorb_invalid : (a : Bytes) (v : S) {e : Bytes} → y.decode_update a ≡ err e → absorb a v ≡ v
  unfolding absorb
  absorb_invalid a v e = rw (e, absorb) refl

  absorb_comm : (a b : Bytes) (v : S) → absorb a (absorb b v) ≡ absorb b (absorb a v)
  absorb_comm a b v = elim (Result-cases (y.decode_update a)) [
    | inr (_, e) ↦ absorb_invalid a (absorb b v) e ∙ ap (absorb b) (sym (absorb_invalid a v e))
    | inl (x, e) ↦ elim (Result-cases (y.decode_update b)) [
      | inr (_, f) ↦ ap (absorb a) (absorb_invalid b v f) ∙ sym (absorb_invalid b (absorb a v) f)
      | inl (z, f) ↦
          rw
            (
              absorb_decoded a x (absorb b v) e,
              absorb_decoded b z v f,
              absorb_decoded b z (absorb a v) f,
              absorb_decoded a x v e,
            )
            (c.assoc v (meaning z) (meaning x)
              ∙ ap (join v) (c.comm (meaning z) (meaning x))
              ∙ sym (c.assoc v (meaning x) (meaning z)))
    ]
  ]

  absorb_idem : (a : Bytes) (v : S) → absorb a (absorb a v) ≡ absorb a v
  absorb_idem a v = elim (Result-cases (y.decode_update a)) [
    | inr (_, e) ↦ absorb_invalid a (absorb a v) e
    | inl (x, e) ↦
        rw (absorb_decoded a x (absorb a v) e, absorb_decoded a x v e)
          (c.assoc v (meaning x) (meaning x) ∙ ap (join v) (c.idem (meaning x)))
  ]

  fold-absorb : (us : List Bytes) (a : Bytes) (v : S) → fold us (absorb a v) ≡ absorb a (fold us v)
  unfolding fold
  fold-absorb [] a v = refl
  fold-absorb (u ∷ us) a v = ap (fold us) (absorb_comm u a v) ∙ fold-absorb us a (absorb u v)

  fold_comm : (us vs : List Bytes) (v : S) → fold vs (fold us v) ≡ fold us (fold vs v)
  unfolding fold
  fold_comm us [] v = refl
  fold_comm us (w ∷ vs) v = ap (fold vs) (sym (fold-absorb us w v)) ∙ fold_comm us vs (absorb w v)

  -- An update that has been received changes nothing.
  has-absorbed :
      (us : List Bytes) (a : Bytes) (v : S) → has a us ≡ true → absorb a (fold us v) ≡ fold us v
  unfolding fold
  has-absorbed [] a v h = cc
  has-absorbed (u ∷ us) a v h = elim (Bool-cases (u == a)) [
    | inl same ↦
        let e : u ≡ a = (bytes_eq_iff u a).0 same in
        rw e (sym (fold-absorb us a (absorb a v)) ∙ ap (fold us) (absorb_idem a v))
    | inr other ↦ has-absorbed us a (absorb u v) (ground arith)
  ]

  fold-absorbed :
      (us vs : List Bytes) (v : S)
      → ((a : Bytes) → has a vs ≡ true → has a us ≡ true)
      → fold vs (fold us v) ≡ fold us v
  unfolding fold
  fold-absorbed us [] v h = refl
  fold-absorbed us (w ∷ vs) v h =
      ap (fold vs) (has-absorbed us w v (h w (ground (arith, bytes_eq_iff w w))))
      ∙ fold-absorbed us vs v (λ a k. h a (ground arith))

module _ {p : Platform} {S : Type 0} {value : p.Doc → S} {meaning : p.Update → S} {join : S → S → S}
    (c : IsCrdt p.yrs value meaning join) where
  note_change-doc :
      (base : Option p.StateVector) (change : Bytes) (o : Origin) (d : Document p)
      → (note_change base change o d).doc ≡ d.doc
  unfolding note_change mark_dirty
  note_change-doc none change o d = refl
  note_change-doc (some b) change o d = refl

  pub value-apply_and_broadcast :
      (bytes : Bytes) (o : Origin) (d : Document p)
      → value (apply_and_broadcast bytes o d).doc ≡ absorb c bytes (value d.doc)
  unfolding apply_and_broadcast absorb
  value-apply_and_broadcast bytes o d = elim (Result-cases (p.decode_update bytes)) [
    | inr (_, e) ↦ rw (e, apply_and_broadcast, absorb) refl
    | inl (u, e) ↦
        let applied = p.apply_update d.doc (encode o) u in
        elim (Result-cases applied.result) [
          | inr (_, e') ↦ rw (e, apply_and_broadcast, e', absorb) (c.applied d.doc (encode o) u)
          | inl (_, e') ↦ elim (Bool-cases (is_empty applied.change)) [
            | inl e'' ↦ rw (e, apply_and_broadcast, e', e'', absorb) (c.applied d.doc (encode o) u)
            | inr e'' ↦
                rw (e, apply_and_broadcast, e', e'', absorb)
                  (ap value (note_change-doc _ applied.change o (record d { doc = applied.doc }))
                    ∙ c.applied d.doc (encode o) u)
          ]
        ]
  ]

-- The commands of a node's subscriber for published updates.
abbrev pub received : (p : Platform) → Bytes → Option ℕ → List Bytes → List (DocCommand p)
received p name reply =
    map (λ u. DocCommand.external_frame (encode_sync_frame p name (update u)) reply)

module _ {p : Platform} {S : Type 0} {value : p.Doc → S} {meaning : p.Update → S} {join : S → S → S}
    (c : IsCrdt p.yrs value meaning join) (l : IsLib0 p.codec) (name : Bytes)
    (fits : IsU64 (length name))
    (law : (u : Bytes) → p.decode_sync (p.encode_sync (update u)) ≡ ok (update u)) where
  value-received :
      (reply : Option ℕ) (us : List Bytes) (d : Document p)
      → value (run_commands (received p name reply us) d).1.doc ≡ fold c us (value d.doc)
  unfolding run_commands handle_command fold
  value-received reply [] d = refl
  value-received reply (u ∷ us) d =
      value-received reply us _
      ∙ ap (fold c us) (
          ap (λ (d' : Document p). value d'.doc)
            (handle-encode_sync_frame p l name u reply d fits (law u))
          ∙ value-apply_and_broadcast c u redis d)

  -- An update that a node has been handed is in its document.
  includes :
      (reply : Option ℕ) (us : List Bytes) (d : Document p) (u : Bytes) (x : p.Update)
      → has u us ≡ true
      → p.decode_update u ≡ ok x
      → let after = value (run_commands (received p name reply us) d).1.doc in
        join after (meaning x) ≡ after
  includes reply us d u x h e =
      let v = value d.doc in
      rw (value-received reply us d)
        (sym (absorb_decoded c u x (fold c us v) e) ∙ has-absorbed c us u v h)

  -- Nodes converge: two that start from documents of one value and have each been handed the same
  -- published updates, in any order and each any number of times, hold documents of one value, which
  -- has every update `u` among those that can be decoded. The name fits 64 bits, `yrs` decodes what it
  -- encodes of an update, and its documents are values of a semilattice that updates are joined to.
  pub nodes_converge :
      (reply : Option ℕ) (us vs : List Bytes) (d d' : Document p) (u : Bytes) (x : p.Update)
      → ((u : Bytes) → has u us ≡ has u vs)
      → value d.doc ≡ value d'.doc
      → has u us ≡ true
      → p.decode_update u ≡ ok x
      → let after = value (run_commands (received p name reply us) d).1.doc in
        (after ≡ value (run_commands (received p name reply vs) d').1.doc)
        × (join after (meaning x) ≡ after)
  nodes_converge reply us vs d d' u x same e h decoded =
      let v = value d.doc in
      (
        value-received reply us d
            ∙ sym (fold-absorbed c us vs v (λ a h. same a ∙ h))
            ∙ fold_comm c us vs v
            ∙ fold-absorbed c vs us v (λ a h. sym (same a) ∙ h)
            ∙ ap (fold c vs) e
            ∙ sym (value-received reply vs d'),
        includes reply us d u x h decoded,
      )
