-- ===== src/Tests/Wire.antt =====
-- The theorems on frames, routing keys, origins and the throttle at concrete inputs.
use hocuspocus_rs.Prelude.{
  ℕ, ◌≤◌, ◌≡◌, refl, List, [], ◌∷◌, Bytes, ascii, arith, lookup, insert, remove, bytes_eq, ok,
}
use hocuspocus_rs.Protocol.{auth, parse}
use hocuspocus_rs.Protocol.Frames.{denied_frame, build, Reads, parse-build}
use hocuspocus_rs.Throttle.{Throttle, new_inner, should_block, attempt}
use hocuspocus_rs.Throttle.Window.{admitted, in_window, admitted_few}
use hocuspocus_rs.Tests.Codec.{lib0, lib0-IsLib0}

parse-build_example :
    (d : Bytes) × (parse lib0 (build lib0 (ascii "doc") (denied_frame (ascii "no")))
      ≡ ok (record { routing_key = ascii "doc"; message_type = auth; decoder = d }))
    × Reads lib0 (denied_frame (ascii "no")) d
parse-build_example =
    parse-build lib0-IsLib0 (ascii "doc") (denied_frame (ascii "no")) (omega arith) (omega arith)

abbrev strict : Throttle
strict = record { throttle = 1; considered = 10; ban_time = 100 }

abbrev burst : List (ℕ × Bytes)
burst = (3, ascii "a") ∷ (4, ascii "b") ∷ (5, ascii "a") ∷ (40, ascii "a") ∷ []

admitted_of_burst : admitted strict (ascii "a") burst new_inner ≡ 3 ∷ []
unfolding admitted should_block attempt lookup insert remove bytes_eq
admitted_of_burst = refl

admitted_few_example : in_window strict 40 (admitted strict (ascii "a") burst new_inner) ≤ 1
admitted_few_example = admitted_few strict (ascii "a") burst 40 (omega arith) (omega arith)
