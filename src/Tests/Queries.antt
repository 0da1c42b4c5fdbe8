-- ===== src/Tests/Queries.antt =====
-- Query strings, and the order of extensions, at concrete inputs.
use hocuspocus_rs.Prelude.{◌⊎◌, ◌≡◌, refl, ℤ, pos, negsuc, [], ◌∷◌, Bytes, ascii, arith, ◌++◌}
use hocuspocus_rs.Extension.{Extension, default_extension}
use hocuspocus_rs.Query.{
  panicked, done, percent_decode, percent_loop, look, from_hex, to_digit, form_urlencoded_parse,
}
use hocuspocus_rs.Query.Escapes.{IsAscii, percent_decode-ends, percent_decode-panics}
use hocuspocus_rs.Query.Pairs.{encode_query, form_urlencoded_parse-encode_query}
use hocuspocus_rs.Server.Builder.{ServerBuilder, new_builder, extension}
use hocuspocus_rs.Tests.Platform.{small}

-- Two escapes, one of them with small letters, a plus sign, and a percent sign without digits.
decoded : percent_decode (ascii "a%20b+%c3%zz") ≡ done (ascii "a b " ++ 195 ∷ ascii "%zz")
unfolding percent_decode percent_loop look from_hex to_digit
decoded = refl

percent_decode-ends_example :
    ((t : Bytes) × (percent_decode (ascii "a%2") ≡ done t))
    ⊎ ((percent_decode (ascii "a%2") ≡ panicked) × (IsAscii (ascii "a%2") → ⊥))
percent_decode-ends_example = percent_decode-ends (ascii "a%2")

-- `%2` and the two bytes of `é`: the slice ends inside the character.
splits_character : percent_decode (b'%' ∷ b'2' ∷ 195 ∷ 169 ∷ []) ≡ panicked
splits_character = percent_decode-panics b'2' 195 169 [] (omega arith) (omega arith)

form_urlencoded_parse-encode_query_example :
    form_urlencoded_parse (encode_query ((ascii "a", ascii "x=y") ∷ (ascii "b", []) ∷ []))
    ≡ (done (ascii "a"), done (ascii "x=y")) ∷ (done (ascii "b"), done []) ∷ []
form_urlencoded_parse-encode_query_example =
    form_urlencoded_parse-encode_query ((ascii "a", ascii "x=y") ∷ (ascii "b", []) ∷ []) (
      ((omega arith, tt), (omega arith, (omega arith, (omega arith, tt)))),
      (((omega arith, tt), tt), tt),
    )

-- The priorities 100, -5, 100 and 1000.
abbrev builder : ServerBuilder small
unfolding extension
builder =
    let ext : ℤ → Extension small = λ k. record (default_extension small) { priority = k } in
    extension (ext (pos 1000)) (
      extension (ext (pos 100))
        (extension (ext (negsuc 4)) (extension (ext (pos 100)) (new_builder small))))
