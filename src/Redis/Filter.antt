-- ===== src/Redis/Filter.antt =====
-- Which messages the subscriber of crates/hocuspocus/src/extensions/redis.rs lets through.
use hocuspocus_rs.Prelude.{
  ℕ, zero, suc, ◌%◌, ◌≤◌, ◌<◌, ◌≡◌, ap, false, none, some, [], ◌∷◌, ◌++◌, Bytes, arith, take, drop,
  take-append, drop-append, length, length-append, ◌==◌, if◌then◌else◌, Bool-cases, inl, inr,
  Bytes-Eq, bytes_eq_iff,
}
use hocuspocus_rs.Redis.{message_prefix}
use hocuspocus_rs.Redis.Subscriber.{foreign_frame}

-- A node whose identifier is shorter than 256 bytes reads the frame of every message of another such
-- node, and drops its own messages.
pub foreign_frame-message_prefix :
    (mine theirs frame : Bytes)
    → length mine < 256
    → length theirs < 256
    → foreign_frame (message_prefix mine) (message_prefix theirs ++ frame)
      ≡ (if theirs == mine then none else some frame)
unfolding foreign_frame message_prefix
foreign_frame-message_prefix mine theirs frame m t =
    let short : length theirs % 256 ≡ length theirs = omega arith in
    rw (short, take-append theirs frame, drop-append theirs frame) ground
      (arith, length-append theirs frame)

take-short : (n : ℕ) (xs : Bytes) → length (take n xs) ≤ n
take-short zero xs = omega arith
take-short (suc n) [] = omega arith
take-short (suc n) (x ∷ xs) = omega (arith, take-short n xs)

take-ne : (n : ℕ) (xs ys : Bytes) → n < length ys → (take n xs == ys) ≡ false
take-ne n xs ys h = elim (Bool-cases (take n xs == ys)) [
  | inl same ↦
      let e : length (take n xs) ≡ length ys = ap length ((bytes_eq_iff (take n xs) ys).0 same) in
      absurd (omega (arith, take-short n xs, e))
  | inr other ↦ other
]

-- With an identifier of 256 bytes or more the length byte wraps around: the node takes its own
-- messages for those of another, and reads the rest of its identifier as the start of the frame.
pub foreign_frame-long :
    (mine frame : Bytes)
    → 256 ≤ length mine
    → foreign_frame (message_prefix mine) (message_prefix mine ++ frame)
      ≡ some (drop (length mine % 256) (mine ++ frame))
unfolding foreign_frame message_prefix
foreign_frame-long mine frame h =
    let fits : length mine % 256 ≤ length mine = omega arith in
    ground (
      arith,
      length-append mine frame,
      take-ne (length mine % 256) (mine ++ frame) mine (omega arith),
    )
