-- ===== src/Query/Escapes.antt =====
-- Percent decoding in crates/hocuspocus/src/server.rs: when it ends, returns or panics.
use hocuspocus_rs.Prelude.{
  ◌⊎◌, ℕ, zero, suc, ◌≤◌, ◌<◌, ◌≡◌, ◌≢◌, refl, [], ◌∷◌, ◌++◌, Bytes, All, arith, length, inl, inr,
}
use hocuspocus_rs.Query.{
  replace_plus, Found, plain, escaped, split_char, look, panicked, done, percent_loop,
  percent_decode,
}

abbrev pub IsAscii : Bytes → Type 0
IsAscii = All (λ b. b < 128)

Found-cases :
    (f : Found) → (f ≡ plain) ⊎ ((v : ℕ) × (rest : Bytes) × (f ≡ escaped v rest)) ⊎ (f ≡ split_char)
Found-cases plain = inl refl
Found-cases (escaped v rest) = inr (inl (v, rest, refl))
Found-cases split_char = inr (inr refl)

-- An escape leaves fewer bytes than it found, and of ASCII text ASCII text.
look-escaped :
    (c : ℕ) (raw rest : Bytes) (v : ℕ)
    → look c raw ≡ escaped v rest
    → (length rest < length raw) × (IsAscii raw → IsAscii rest)
unfolding look
look-escaped c [] rest v h = cc
look-escaped c (a ∷ []) rest v h = cc
look-escaped c (a ∷ b ∷ behind) rest v h =
    let same : behind ≡ rest = ground arith in rw (← same) (omega arith, λ k. k.1.1)

-- In ASCII text no slice ends inside a character.
look-ascii : (c : ℕ) (raw : Bytes) → IsAscii raw → look c raw ≢ split_char
unfolding look
look-ascii c [] k h = cc
look-ascii c (a ∷ []) k h = cc
look-ascii c (a ∷ b ∷ []) k h = ground arith
look-ascii c (a ∷ b ∷ d ∷ rest) k h = ground arith

-- The decoding has the value or the panic that the loop has with more fuel.
loop_ends :
    (n : ℕ) (raw out : Bytes)
    → length raw < n
    → ((t : Bytes) × (percent_loop n raw out ≡ done t))
      ⊎ ((percent_loop n raw out ≡ panicked) × (IsAscii raw → ⊥))
unfolding percent_loop
loop_ends zero raw out h = absurd (omega arith)
loop_ends (suc n) [] out h = inl (out, refl)
loop_ends (suc n) (c ∷ raw) out h = elim (Found-cases (look c raw)) [
  | inl e ↦ elim (loop_ends n raw (out ++ c ∷ []) (omega arith)) [
    | inl (t, d) ↦ inl (t, rw (e, percent_loop) d)
    | inr (d, k) ↦ inr (rw (e, percent_loop) d, λ a. k a.1)
  ]
  | inr (inl (v, rest, e)) ↦
      let (shorter, ascii) = look-escaped c raw rest v e in
      elim (loop_ends n rest (out ++ v ∷ []) (omega arith)) [
        | inl (t, d) ↦ inl (t, rw (e, percent_loop) d)
        | inr (d, k) ↦ inr (rw (e, percent_loop) d, λ a. k (ascii a.1))
      ]
  | inr (inr e) ↦ inr (rw (e, percent_loop) refl, λ a. look-ascii c raw a.1 e)
]

replace_plus-IsAscii : (s : Bytes) → IsAscii s → IsAscii (replace_plus s)
replace_plus-IsAscii [] k = tt
replace_plus-IsAscii (b ∷ bs) k = (ground (arith, k.0), replace_plus-IsAscii bs k.1)

-- Decoding ends on every text: it returns, or it panics, and on ASCII text it returns.
pub percent_decode-ends :
    (s : Bytes)
    → ((t : Bytes) × (percent_decode s ≡ done t))
      ⊎ ((percent_decode s ≡ panicked) × (IsAscii s → ⊥))
unfolding percent_decode
percent_decode-ends s =
    elim (loop_ends (suc (length (replace_plus s))) (replace_plus s) [] (omega arith)) [
      | inl r ↦ inl r
      | inr (panics, k) ↦ inr (panics, λ a. k (replace_plus-IsAscii s a))
    ]

-- A text that starts with a percent sign, two more bytes and a continuation byte of UTF-8 makes the
-- parser panic: the slice of the two bytes ends inside a character.
pub percent_decode-panics :
    (a b d : ℕ) (rest : Bytes)
    → 128 ≤ d
    → d < 192
    → percent_decode (b'%' ∷ a ∷ b ∷ d ∷ rest) ≡ panicked
unfolding percent_decode percent_loop look
percent_decode-panics a b d rest h k = ground arith
