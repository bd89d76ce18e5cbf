-- ===== src/Http/Body/Lines.antt =====
-- src/http/request/http_body_decoder.cpp: the size line, its extensions, and the trailer line.
use spare_node.Base.{
  ℕ, zero, suc, ◌+◌, ◌-◌, ◌*◌, Bool, true, false, not, List, [], ◌∷◌, Option, none, some, map,
  Bytes, ltb, ◌==◌, within, if◌then◌else◌, length, any, all, bytes_eq, codes,
}
use spare_node.Http.Ascii.{
  is_http_token_character, is_http_field_value_byte, is_ascii_hexadecimal_digit, is_blank,
}
use spare_node.Http.Parse.{size_max}

unfoldable pub skip_whitespace : Bytes → Bytes
skip_whitespace [] = []
skip_whitespace (x ∷ xs) = if is_blank x then skip_whitespace xs else x ∷ xs

-- What `take_token` leaves.
unfoldable pub drop_token : Bytes → Bytes
drop_token [] = []
drop_token (x ∷ xs) = if is_http_token_character x then drop_token xs else x ∷ xs

-- `take_token`: none if no token stands in front.
unfoldable pub take_token : Bytes → Option Bytes
unfolding drop_token
take_token [] = none
take_token (x ∷ xs) = if is_http_token_character x then some (drop_token xs) else none

-- The loop of `take_quoted`, behind the opening quote.
unfoldable pub quoted_rest : Bytes → Option Bytes
quoted_rest [] = none
quoted_rest (x ∷ []) = if x == b'"' then some [] else none
quoted_rest (x ∷ y ∷ xs) =
    let plain = quoted_rest (y ∷ xs) in
    let escaped = quoted_rest xs in
    if x == b'"'
    then some (y ∷ xs)
    else if x == b'\\'
    then (if is_http_field_value_byte y then escaped else none)
    else if is_http_field_value_byte x
    then plain
    else none

unfoldable pub take_quoted : Bytes → Option Bytes
unfolding quoted_rest
take_quoted [] = none
take_quoted (quote ∷ xs) = quoted_rest xs

-- The value behind `=`, quoted or a token.
unfoldable pub take_value : Bytes → Option Bytes
unfolding take_quoted take_token
take_value [] = none
take_value (x ∷ xs) = if x == b'"' then take_quoted (x ∷ xs) else take_token (x ∷ xs)

-- Behind the name of an extension: whitespace belongs to a following separator.
unfoldable pub after_name : Bytes → Bytes → Option Bytes
unfolding take_value skip_whitespace
after_name text [] = some text
after_name text (x ∷ xs) = if x == b'=' then take_value (skip_whitespace xs) else some text

-- One extension, with its separator in front.
unfoldable pub take_extension : Bytes → Option Bytes
unfolding after_name take_token skip_whitespace
take_extension [] = none
take_extension (x ∷ xs) = if not (x == b';') then none else elim (take_token (skip_whitespace xs)) [
  | none ↦ none
  | some text ↦ after_name text (skip_whitespace text)
]

-- The loop of `valid_extensions`: a round consumes at least the separator.
unfoldable pub extensions_from : ℕ → Bytes → Bool
unfolding take_extension skip_whitespace
extensions_from fuel [] = true
extensions_from zero (x ∷ xs) = false
extensions_from (suc fuel) (x ∷ xs) = elim (take_extension (skip_whitespace (x ∷ xs))) [
  | none ↦ false
  | some text ↦ extensions_from fuel text
]

unfoldable pub valid_extensions : Bytes → Bool
unfolding extensions_from
valid_extensions text = extensions_from (length text) text

-- The transformation of the trailer's name.
unfoldable pub lower : ℕ → ℕ
lower byte = if within b'A' b'Z' byte then byte + (b'a' - b'A') else byte

abbrev pub forbidden : List Bytes
forbidden =
    codes "content-length"
    ∷ codes "transfer-encoding"
    ∷ codes "host"
    ∷ codes "connection"
    ∷ codes "trailer"
    ∷ codes "te"
    ∷ codes "authorization"
    ∷ codes "proxy-authorization"
    ∷ codes "cookie"
    ∷ codes "expect"
    ∷ codes "upgrade"
    ∷ codes "content-encoding"
    ∷ codes "content-type"
    ∷ codes "content-range"
    ∷ []

-- The line before and behind its first colon, if it has one.
unfoldable pub split_colon : Bytes → Option (Bytes × Bytes)
split_colon [] = none
split_colon (x ∷ xs) =
    if x == b':'
    then some ([], xs)
    else elim (split_colon xs) [ none ↦ none | some (name, value) ↦ some (x ∷ name, value) ]

-- `valid_trailer` on the name and the value.
unfoldable pub valid_field : Bytes → Bytes → Bool
unfolding lower
valid_field [] value = false
valid_field (x ∷ name) value =
    if not (all is_http_token_character (x ∷ name))
    then false
    else if any (bytes_eq (map lower (x ∷ name))) forbidden
    then false
    else all is_http_field_value_byte value

unfoldable pub valid_trailer : Bytes → Bool
unfolding split_colon valid_field
valid_trailer line = elim (split_colon line) [
  | none ↦ false
  | some (name, value) ↦ valid_field name value
]

-- The value of a hexadecimal digit.
unfoldable pub hex_value : ℕ → ℕ
hex_value byte =
    if within b'0' b'9' byte
    then byte - b'0'
    else if within b'A' b'F' byte
    then byte - b'A' + 10
    else byte - b'a' + 10

-- `std::from_chars` in base 16: the longest prefix of digits and what follows it.
unfoldable pub hex_digits : ℕ → Bytes → ℕ × Bytes
unfolding hex_value is_ascii_hexadecimal_digit
hex_digits value [] = (value, [])
hex_digits value (x ∷ xs) =
    let rest = hex_digits (value * 16 + hex_value x) xs in
    if is_ascii_hexadecimal_digit x then rest else (value, x ∷ xs)

-- None if there is no digit or the value is no `std::size_t`.
unfoldable pub from_chars_hex : Bytes → Option (ℕ × Bytes)
unfolding hex_digits
from_chars_hex [] = none
from_chars_hex (x ∷ xs) =
    if not (is_ascii_hexadecimal_digit x)
    then none
    else if ltb size_max (hex_digits 0 (x ∷ xs)).0
    then none
    else some (hex_digits 0 (x ∷ xs))
