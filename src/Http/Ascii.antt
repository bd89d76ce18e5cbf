-- ===== src/Http/Ascii.antt =====
-- include/sparenode/http/detail/ascii.hpp.
use spare_node.Base.{
  ℕ, ◌+◌, ◌-◌, Bool, true, false, not, ◌&&◌, ◌||◌, [], ◌∷◌, Bytes, leb, ◌==◌, within, if◌then◌else◌,
  length, any, codes,
}

unfoldable pub ascii_lower : ℕ → ℕ
ascii_lower byte = if within b'A' b'Z' byte then byte + (b'a' - b'A') else byte

-- The loop over two views of one length.
unfoldable pub lower_equal : Bytes → Bytes → Bool
unfolding ascii_lower
lower_equal [] [] = true
lower_equal (x ∷ xs) (y ∷ ys) = ascii_lower x == ascii_lower y && lower_equal xs ys
lower_equal _ _ = false

unfoldable pub ascii_case_insensitive_equal : Bytes → Bytes → Bool
unfolding lower_equal
ascii_case_insensitive_equal left right =
    if not (length left == length right) then false else lower_equal left right

unfoldable pub is_ascii_digit : ℕ → Bool
is_ascii_digit byte = within b'0' b'9' byte

unfoldable pub is_ascii_hexadecimal_digit : ℕ → Bool
unfolding is_ascii_digit
is_ascii_hexadecimal_digit byte =
    is_ascii_digit byte || within b'A' b'F' byte || within b'a' b'f' byte

-- `std::string_view::contains` of one byte.
abbrev pub has_byte : Bytes → ℕ → Bool
has_byte text byte = any (λ b. b == byte) text

unfoldable pub is_http_token_character : ℕ → Bool
unfolding is_ascii_digit
is_http_token_character byte =
    if is_ascii_digit byte || within b'A' b'Z' byte || within b'a' b'z' byte
    then true
    else has_byte (codes "!#$%&'*+-.^_`|~") byte

unfoldable pub is_http_field_value_byte : ℕ → Bool
is_http_field_value_byte byte = byte == b'\t' || (leb 0x20 byte && not (byte == 0x7F))

abbrev pub is_blank : ℕ → Bool
is_blank byte = byte == b' ' || byte == b'\t'

-- The two loops of `trim_optional_whitespace`.
unfoldable pub trim_front : Bytes → Bytes
trim_front [] = []
trim_front (x ∷ xs) = if is_blank x then trim_front xs else x ∷ xs

-- Whether nothing but optional whitespace is left.
unfoldable pub all_blank : Bytes → Bool
all_blank [] = true
all_blank (x ∷ xs) = is_blank x && all_blank xs

unfoldable pub trim_back : Bytes → Bytes
unfolding all_blank
trim_back [] = []
trim_back (x ∷ xs) = if all_blank (x ∷ xs) then [] else x ∷ trim_back xs

unfoldable pub trim_optional_whitespace : Bytes → Bytes
unfolding trim_front trim_back
trim_optional_whitespace value = trim_back (trim_front value)
