-- ===== src/Server/Registration.antt =====
-- What the registration of a connection in crates/hocuspocus/src/server.rs has reached when it ends.
use mathlib.Core.Path.{subst}
use hocuspocus_rs.Prelude.{
  ℕ, zero, suc, arith, ◌≡◌, refl, ap, sym, ◌∙◌, Bool, true, false, some, Bytes, inl, inr,
  Bool-cases,
}
use hocuspocus_rs.Platform.{Platform}
use hocuspocus_rs.Document.State.{ConnHandle, add_connection}
use hocuspocus_rs.Server.Hub.{Hub, document}
use hocuspocus_rs.Server.Client.{ClientConnection}
use hocuspocus_rs.Server.Auth.{register_connection}

module _ {p : Platform} (hub : Hub p) where
  -- The actor `h` has taken `conn` from its mailbox in some world, and has answered in `w'`.
  unfoldable pub Acknowledged : ℕ → ConnHandle p → p.World → Type 0
  Acknowledged h conn w' =
      (w : p.World) × (ack : ℕ) × ((hub.send_command h (add_connection conn ack) w).0 ≡ true)
      × (hub.ack_received ack (hub.send_command h (add_connection conn ack) w).1 ≡ (true, w'))

  -- The world in which a round has its handle and its acknowledgement channel.
  unfoldable pub round : Bytes → ClientConnection p → p.World → ℕ × ℕ × p.World
  round doc_name c w =
      let (h, w1) = document hub c.config c.extensions doc_name w in
      let (ack, w2) = hub.ack_channel w1 in (h, ack, w2)

  unfoldable pub sent : Bytes → ConnHandle p → ClientConnection p → p.World → Bool × p.World
  sent doc_name conn c w =
      let (h, ack, w2) = round doc_name c w in hub.send_command h (add_connection conn ack) w2

  unfoldable pub answer : Bytes → ConnHandle p → ClientConnection p → p.World → Bool × p.World
  answer doc_name conn c w = hub.ack_received (round doc_name c w).1 (sent doc_name conn c w).1

  pub round_gone :
      (n : ℕ) (doc_name : Bytes) (conn : ConnHandle p) (c : ClientConnection p) (w : p.World)
      → (sent doc_name conn c w).0 ≡ false
      → register_connection hub (suc n) doc_name conn c w
        ≡ register_connection hub n doc_name conn c
            (p.documents_remove doc_name (sent doc_name conn c w).1)
  unfolding register_connection round sent
  round_gone n doc_name conn c w e = rw e refl

  pub round_lost :
      (n : ℕ) (doc_name : Bytes) (conn : ConnHandle p) (c : ClientConnection p) (w : p.World)
      → (sent doc_name conn c w).0 ≡ true
      → (answer doc_name conn c w).0 ≡ false
      → register_connection hub (suc n) doc_name conn c w
        ≡ register_connection hub n doc_name conn c
            (p.documents_remove doc_name (answer doc_name conn c w).1)
  unfolding register_connection round sent answer
  round_lost n doc_name conn c w e e' = rw (e, e') refl

  pub round_done :
      (n : ℕ) (doc_name : Bytes) (conn : ConnHandle p) (c : ClientConnection p) (w : p.World)
      → (sent doc_name conn c w).0 ≡ true
      → (answer doc_name conn c w).0 ≡ true
      → register_connection hub (suc n) doc_name conn c w
        ≡ (some (round doc_name c w).0, (answer doc_name conn c w).1)
  unfolding register_connection round sent answer
  round_done n doc_name conn c w e e' = rw (e, e') refl

  acknowledged :
      (doc_name : Bytes) (conn : ConnHandle p) (c : ClientConnection p) (w : p.World)
      → (sent doc_name conn c w).0 ≡ true
      → (answer doc_name conn c w).0 ≡ true
      → Acknowledged (round doc_name c w).0 conn (answer doc_name conn c w).1
  unfolding Acknowledged round sent answer
  acknowledged doc_name conn c w e e' =
      let (h, ack, w2) = round doc_name c w in
      (w2, ack, e, ap (λ b. (b, (answer doc_name conn c w).1)) e')

  unregistered :
      (doc_name : Bytes) (conn : ConnHandle p) (c : ClientConnection p) (h : ℕ) (w w' : p.World)
      → register_connection hub zero doc_name conn c w ≡ (some h, w')
      → ⊥
  unfolding register_connection
  unregistered doc_name conn c h w w' e = let e' = ap (λ r. r.0) e in cc

  -- If a registration ends with the handle of a document, then the actor behind that handle took the
  -- connection from its mailbox and acknowledged it last.
  pub register_connection-Acknowledged :
      (n : ℕ) (doc_name : Bytes) (conn : ConnHandle p) (c : ClientConnection p) (h : ℕ)
      (w w' : p.World)
      → register_connection hub n doc_name conn c w ≡ (some h, w')
      → Acknowledged h conn w'
  register_connection-Acknowledged zero doc_name conn c h w w' e =
      absurd (unregistered doc_name conn c h w w' e)
  register_connection-Acknowledged (suc n) doc_name conn c h w w' e =
      elim (Bool-cases (sent doc_name conn c w).0) [
        | inr gone ↦
            register_connection-Acknowledged n doc_name conn c h _ w'
              (sym (round_gone n doc_name conn c w gone) ∙ e)
        | inl taken ↦ elim (Bool-cases (answer doc_name conn c w).0) [
          | inr lost ↦
              register_connection-Acknowledged n doc_name conn c h _ w'
                (sym (round_lost n doc_name conn c w taken lost) ∙ e)
          | inl received ↦
              let end = sym (round_done n doc_name conn c w taken received) ∙ e in
              let same : (round doc_name c w).0 ≡ h = ground (arith, ap (λ r. r.0) end) in
              subst (λ r. Acknowledged r conn w') same
                (subst (λ v. Acknowledged (round doc_name c w).0 conn v) (ap (λ r. r.1) end)
                  (acknowledged doc_name conn c w taken received))
        ]
      ]
