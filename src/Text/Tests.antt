-- ===== src/Text/Tests.antt =====
-- The text functions on concrete inputs.
use udp_director.Prelude.{◌≡◌, refl, none, some, [], ◌∷◌}
use udp_director.Prelude.Int.{pos, negsuc}
use udp_director.Text.{as_bytes, split, cut, but_last_byte, strip_prefix, parse_unsigned, parse_i64}

as_bytes_multibyte : as_bytes "aé€😀" ≡ 97 ∷ 195 ∷ 169 ∷ 226 ∷ 130 ∷ 172 ∷ 240 ∷ 159 ∷ 152 ∷ 128 ∷ []
unfolding as_bytes
as_bytes_multibyte = refl

split_dots : split b'.' ".a..b" ≡ "" ∷ "a" ∷ "" ∷ "b" ∷ []
unfolding split
split_dots = refl

cut_bracket : cut b'[' "ports[0]" ≡ some ("ports", "0]")
unfolding cut
cut_bracket = refl

but_last : (but_last_byte "0]" ≡ some "0") × (but_last_byte "é" ≡ none) × (but_last_byte "" ≡ none)
unfolding but_last_byte
but_last = (refl, refl, refl)

strip : (strip_prefix "a/" "a/b" ≡ some "b") × (strip_prefix "a/" "ab" ≡ none)
unfolding strip_prefix
strip = (refl, refl)

parse_numbers :
    (parse_unsigned 65536 "+0080" ≡ some 80)
    × (parse_unsigned 65536 "65536" ≡ none)
    × (parse_unsigned 65536 "+" ≡ none)
    × (parse_i64 "-9223372036854775808" ≡ some (negsuc 9223372036854775807))
    × (parse_i64 "9223372036854775808" ≡ none)
    × (parse_i64 "-0" ≡ some (pos 0))
unfolding parse_unsigned parse_i64
parse_numbers = (refl, refl, refl, refl, refl, refl)
