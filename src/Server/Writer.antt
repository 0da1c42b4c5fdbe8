-- ===== src/Server/Writer.antt =====
-- The writer task of `handle_socket` in crates/hocuspocus/src/server.rs, which takes the messages for one
-- client from their channel and writes them to its WebSocket.
use hocuspocus_rs.Prelude.{
  ℕ, zero, suc, length, ◌≡◌, refl, sym, ap, ◌∙◌, Bool, true, List, [], ◌∷◌, ◌++◌, Bytes, map,
  if◌then◌else◌, false, ◌⊎◌, inl, inr, Bool-cases,
}
use mathlib.Core.List.{append_assoc, append-nil}
use hocuspocus_rs.Platform.{OutMsg, frame, close}

-- The messages of axum that the task sends.
pub data Message : Type 0 where
  binary : Bytes → Message
  close_frame : ℕ → Bytes → Message

abbrev pub message : OutMsg → Message
message (frame bytes) = binary bytes
message (close ev) = close_frame ev.code ev.reason

-- A queue up to its first close, which ends it.
unfoldable pub until_close : List OutMsg → List OutMsg
until_close [] = []
until_close (frame bytes ∷ rest) = frame bytes ∷ until_close rest
until_close (close ev ∷ rest) = close ev ∷ []

module _ {W : Type 0} (send : Message → W → Bool × W) where
  -- The loop over what `recv` answers up to the closing of the channel, for so many rounds:
  -- `writer.abort()` ends the task where it waits, and an abort within a send is one before that send.
  -- `send` is that of the sink.
  unfoldable pub writer : ℕ → List OutMsg → W → W
  writer zero queue w = w
  writer (suc n) [] w = w
  writer (suc n) (frame bytes ∷ rest) w =
      let (sent, w') = send (binary bytes) w in
      let after = writer n rest w' in if sent then after else w'
  writer (suc n) (close ev ∷ rest) w = (send (close_frame ev.code ev.reason) w).1

  -- The world once all of these messages have been sent.
  unfoldable pub sends : List OutMsg → W → W
  sends [] w = w
  sends (m ∷ ms) w = sends ms (send (message m) w).1

  -- The messages of a queue up to its first close are `done` and then `left`; the sink has written
  -- `done`. Nothing is left, or the rounds are over, or the sink fails on the first message left, in
  -- the world in which `done` has been sent.
  unfoldable pub Writes : (W → List Message) → ℕ → List OutMsg → W → Type 0
  Writes written n queue w =
      (done left : List OutMsg) × (until_close queue ≡ done ++ left)
      × (written (writer n queue w) ≡ written w ++ map message done)
      × ((left ≡ [])
          ⊎ (length done ≡ n)
          ⊎ ((m : OutMsg) × (rest : List OutMsg) × (left ≡ m ∷ rest)
              × ((send (message m) (sends done w)).0 ≡ false)))

  -- `written` is what the sink has written. A send that succeeds adds its message, and one that fails
  -- adds nothing.
  module _ (written : W → List Message)
      (adds : (m : Message) (w : W)
        → (send m w).0 ≡ true
        → written (send m w).1 ≡ written w ++ m ∷ [])
      (fails : (m : Message) (w : W)
        → (send m w).0 ≡ false
        → written (send m w).1 ≡ written w) where
    -- The writer writes the messages of its queue in order, up to the first close, to the first of them
    -- on which its sink fails, or to the round in which it is aborted, and nothing behind. A send that
    -- succeeds adds its message to what is written, and one that fails adds nothing.
    pub writer-until_close : (n : ℕ) (queue : List OutMsg) (w : W) → Writes written n queue w
    unfolding writer until_close Writes sends
    writer-until_close zero queue w =
        ([], until_close queue, refl, sym (append-nil (written w)), inr (inl refl))
    writer-until_close (suc n) [] w = ([], [], refl, sym (append-nil (written w)), inl refl)
    writer-until_close (suc n) (frame bytes ∷ rest) w =
        let m = binary bytes in
        elim (Bool-cases (send m w).0) [
          | inl e ↦
              let (done, left, parts, all, why) = writer-until_close n rest (send m w).1 in
              (
                frame bytes ∷ done,
                left,
                ap (λ ms. frame bytes ∷ ms) parts,
                rw e (
                    all
                    ∙ ap (λ ms. ms ++ map message done) (adds m w e)
                    ∙ append_assoc (written w) (m ∷ []) (map message done)),
                elim why [
                  | inl over ↦ inl over
                  | inr (inl rounds) ↦ inr (inl (ap suc rounds))
                  | inr (inr broken) ↦ inr (inr broken)
                ],
              )
          | inr e ↦ (
            [],
            frame bytes ∷ until_close rest,
            refl,
            rw e (fails m w e ∙ sym (append-nil (written w))),
            inr (inr (frame bytes, until_close rest, refl, e)),
          )
        ]
    writer-until_close (suc n) (close ev ∷ rest) w =
        let m = close_frame ev.code ev.reason in
        elim (Bool-cases (send m w).0) [
          | inl e ↦ (close ev ∷ [], [], refl, adds m w e, inl refl)
          | inr e ↦ (
            [],
            close ev ∷ [],
            refl,
            fails m w e ∙ sym (append-nil (written w)),
            inr (inr (close ev, [], refl, e)),
          )
        ]
