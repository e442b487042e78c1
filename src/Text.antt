-- ===== src/Text.antt =====
-- What the program uses of Rust's `str`: its UTF-8 bytes, `split` and `find` on a character, and the
-- parsing and printing of decimal integers.
pub mod Laws
pub mod Tests
use Prim.Native.Char.{Char, code}
use Prim.Native.Nat.{compare, Ordering}
use Prim.Native.String
use udp_director.Prelude.{
  ℕ, zero, suc, ◌+◌, ◌-◌, ◌*◌, ◌/◌, ◌%◌, ◌^◌, String, Bool, true, false, ◌&&◌, ◌||◌, Option, none,
  some, List, [], ◌∷◌, ◌++◌, ltb, leb, nat_beq, if◌then◌else◌, length,
}
use udp_director.Prelude.Int.{ℤ, pos, negsuc}

-- The UTF-8 encoding of a code point.
unfoldable pub utf8 : ℕ → List ℕ
utf8 n =
    if ltb n 0x80
    then n ∷ []
    else if ltb n 0x800
    then (0xc0 + n / 64) ∷ (0x80 + n % 64) ∷ []
    else if ltb n 0x1_0000
    then (0xe0 + n / 4096) ∷ (0x80 + n / 64 % 64) ∷ (0x80 + n % 64) ∷ []
    else (0xf0 + n / 262144) ∷ (0x80 + n / 4096 % 64) ∷ (0x80 + n / 64 % 64) ∷ (0x80 + n % 64) ∷ []

-- `as_bytes`
unfoldable pub as_bytes : String → List ℕ
unfolding utf8
as_bytes String.[] = []
as_bytes (String.◌∷◌ c s) = utf8 (code c) ++ as_bytes s

abbrev pub is_empty : String → Bool
is_empty String.[] = true
is_empty (String.◌∷◌ c s) = false

-- `split` on a character: at least one part.
unfoldable pub split_from : ℕ → String → String → List String
split_from sep part String.[] = part ∷ []
split_from sep part (String.◌∷◌ c s) =
    let closed = part ∷ split_from sep String.[] s in
    let longer = split_from sep (String.◌++◌ part (String.◌∷◌ c String.[])) s in
    if nat_beq (code c) sep then closed else longer

unfoldable pub split : ℕ → String → List String
unfolding split_from
split sep s = split_from sep String.[] s

-- `find` on a character, as the text before its first occurrence and the text after it.
unfoldable pub cut : ℕ → String → Option (String × String)
cut mark String.[] = none
cut mark (String.◌∷◌ c s) =
    let further = cut mark s in
    if nat_beq (code c) mark
    then some (String.[], s)
    else elim further [ none ↦ none | some (before, after) ↦ some (String.◌∷◌ c before, after) ]

-- `&s[..s.len() - 1]`: `none` where Rust panics, on the empty text and where the last character has
-- more than one byte.
unfoldable pub but_last_byte : String → Option String
but_last_byte String.[] = none
but_last_byte (String.◌∷◌ c String.[]) = if ltb (code c) 0x80 then some String.[] else none
but_last_byte (String.◌∷◌ c (String.◌∷◌ d s)) = elim (but_last_byte (String.◌∷◌ d s)) [
  | none ↦ none
  | some front ↦ some (String.◌∷◌ c front)
]

-- `strip_prefix`
unfoldable pub strip_prefix : String → String → Option String
strip_prefix String.[] s = some s
strip_prefix (String.◌∷◌ p ps) String.[] = none
strip_prefix (String.◌∷◌ p ps) (String.◌∷◌ c s) =
    if nat_beq (code p) (code c) then strip_prefix ps s else none

abbrev pub is_ascii_digit : ℕ → Bool
is_ascii_digit c = leb b'0' c && leb c b'9'

abbrev pub is_ascii_alphanumeric : ℕ → Bool
is_ascii_alphanumeric c = is_ascii_digit c || leb b'a' c && leb c b'z' || leb b'A' c && leb c b'Z'

-- The value of a run of digits, behind those already read.
unfoldable pub digits_from : ℕ → String → Option ℕ
digits_from acc String.[] = some acc
digits_from acc (String.◌∷◌ c s) =
    let rest = digits_from (10 * acc + (code c - b'0')) s in
    if is_ascii_digit (code c) then rest else none

unfoldable pub digits : String → Option ℕ
unfolding digits_from
digits String.[] = none
digits (String.◌∷◌ c s) = digits_from 0 (String.◌∷◌ c s)

abbrev pub bounded : ℕ → Option ℕ → Option ℕ
bounded limit none = none
bounded limit (some n) = if ltb n limit then some n else none

-- `str::parse` for an unsigned type with values below `limit`: one `+` may stand in front.
unfoldable pub parse_unsigned : ℕ → String → Option ℕ
unfolding digits
parse_unsigned limit String.[] = none
parse_unsigned limit (String.◌∷◌ c s) =
    if nat_beq (code c) b'+'
    then bounded limit (digits s)
    else bounded limit (digits (String.◌∷◌ c s))

abbrev pub to_positive : Option ℕ → Option ℤ
to_positive none = none
to_positive (some n) = some (pos n)

abbrev pub to_negative : Option ℕ → Option ℤ
to_negative none = none
to_negative (some zero) = some (pos 0)
to_negative (some (suc n)) = some (negsuc n)

-- `str::parse::<i64>`
unfoldable pub parse_i64 : String → Option ℤ
unfolding parse_unsigned digits
parse_i64 String.[] = none
parse_i64 (String.◌∷◌ c s) =
    if nat_beq (code c) b'-'
    then to_negative (bounded (2 ^ 63 + 1) (digits s))
    else to_positive (parse_unsigned (2 ^ 63) (String.◌∷◌ c s))

-- `str::cmp`: UTF-8 sorts as its code points do.
unfoldable pub str_leb : String → String → Bool
str_leb String.[] t = true
str_leb (String.◌∷◌ c s) String.[] = false
str_leb (String.◌∷◌ c s) (String.◌∷◌ d t) =
    let rest = str_leb s t in
    elim (compare (code c) (code d)) [
      | Ordering.lt ↦ true
      | Ordering.gt ↦ false
      | Ordering.eq ↦ rest
    ]
