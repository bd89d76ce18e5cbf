-- ===== src/Http/Router/Patterns.antt =====
-- Route patterns: `is_valid_pattern` of src/http/routing/http_router.cpp.
use spare_node.Base.{
  ℕ, zero, suc, ◌-◌, Bool, true, false, not, ◌&&◌, ◌||◌, [], ◌∷◌, Option, none, some, Bytes, within,
  ◌==◌, if◌then◌else◌, length, get_elem?, codes,
}
use spare_node.Base.Views.{find_byte, prefix_to}
use spare_node.Http.Ascii.{has_byte, is_ascii_hexadecimal_digit}

unfoldable pub is_route_path_character : ℕ → Bool
is_route_path_character byte =
    within b'0' b'9' byte
    || within b'A' b'Z' byte
    || within b'a' b'z' byte
    || has_byte (codes "-._~!$&'()+,;=:@") byte

-- The hexadecimal digits still due after a byte of the path, none where the byte is refused:
-- a percent sign asks for two.
unfoldable pub due_after : ℕ → ℕ → Option ℕ
unfolding is_route_path_character is_ascii_hexadecimal_digit
due_after (suc due) byte = if is_ascii_hexadecimal_digit byte then some due else none
due_after zero byte =
    if byte == b'/'
    then some 0
    else if byte == b'%'
    then some 2
    else if is_route_path_character byte
    then some 0
    else none

-- The loop over the path; a path that ends inside an escape is refused.
unfoldable pub valid_path : ℕ → Bytes → Bool
unfolding due_after
valid_path due [] = due == 0
valid_path due (byte ∷ path) = elim (due_after due byte) [
  | none ↦ false
  | some next ↦ valid_path next path
]

-- A wildcard stands at the end of the pattern, behind a slash.
unfoldable pub valid_wildcard : Option ℕ → Bytes → Bool
valid_wildcard none pattern = true
valid_wildcard (some zero) pattern = false
valid_wildcard (some (suc i)) pattern =
    suc i == length pattern - 1
    && elim (get_elem? pattern i) [ none ↦ false | some byte ↦ byte == b'/' ]

unfoldable pub is_valid_pattern : Bytes → Bool
unfolding find_byte prefix_to valid_wildcard valid_path
is_valid_pattern [] = false
is_valid_pattern (byte ∷ rest) =
    let pattern = byte ∷ rest in
    let wildcard = find_byte b'*' pattern in
    byte == b'/'
    && not (has_byte pattern b'?')
    && not (has_byte pattern b'#')
    && valid_wildcard wildcard pattern
    && valid_path 0 (prefix_to wildcard pattern)
