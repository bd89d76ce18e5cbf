-- ===== src/Http/Request/Target.antt =====
-- Request targets and versions: src/http/request/detail/request_target.cpp.
use spare_node.Base.{
  ℕ, zero, suc, Bool, true, false, not, ◌&&◌, ◌||◌, [], ◌∷◌, Option, none, some, Bytes, Result, ok,
  err, ◌==◌, within, if◌then◌else◌, length, drop, codes, bytes_eq,
}
use spare_node.Base.Views.{starts_with}
use spare_node.Http.Ascii.{has_byte, is_ascii_hexadecimal_digit}
use spare_node.Http.Parse.{
  Method, options, ParseError, invalid_request_target, malformed_http_version,
  unsupported_http_version,
}
use spare_node.Http.Router.{same_method}
use spare_node.Http.Request.Authority.{is_valid_host_authority}

-- The authority is empty but for the absolute form.
pub record ParsedRequestTarget : Type 0 where
  pub routing_target : Bytes
  pub authority : Bytes

unfoldable pub is_path_character : ℕ → Bool
is_path_character byte =
    within b'0' b'9' byte
    || within b'A' b'Z' byte
    || within b'a' b'z' byte
    || has_byte (codes "-._~!$&'()*+,;=:@") byte

-- The state of the loop over a target: the hexadecimal digits still due, and whether the query has
-- started. None where the byte is refused.
unfoldable pub target_byte : ℕ → Bool → ℕ → Option (ℕ × Bool)
unfolding is_path_character is_ascii_hexadecimal_digit
target_byte (suc due) query byte =
    if is_ascii_hexadecimal_digit byte then some (due, query) else none
target_byte zero query byte =
    if byte == b'%'
    then some (2, query)
    else if not query && byte == b'?'
    then some (0, true)
    else if byte == b'/' || (query && byte == b'?')
    then some (0, query)
    else if is_path_character byte
    then some (0, query)
    else none

-- The loop; a target that ends inside an escape is refused.
unfoldable pub target_from : ℕ → Bool → Bytes → Bool
unfolding target_byte
target_from due query [] = due == 0
target_from due query (byte ∷ target) = elim (target_byte due query byte) [
  | none ↦ false
  | some (due', query') ↦ target_from due' query' target
]

unfoldable pub valid_request_target : Bytes → Bool
unfolding target_from
valid_request_target [] = false
valid_request_target (byte ∷ target) = byte == b'/' && target_from 0 false (byte ∷ target)

-- `find_first_of("/?#")`: the authority in front of it and the rest, from that byte on.
unfoldable pub split_authority : Bytes → Bytes × Bytes
split_authority [] = ([], [])
split_authority (x ∷ absolute) =
    let rest = split_authority absolute in
    if x == b'/' || x == b'?' || x == b'#' then ([], x ∷ absolute) else (x ∷ rest.0, rest.1)

-- The routing target of an absolute form, from its path and query.
unfoldable pub routing_of : Bytes → Bytes
routing_of [] = codes "/"
routing_of (x ∷ path) = if x == b'?' then b'/' ∷ x ∷ path else x ∷ path

abbrev invalid : ℕ → Result ParsedRequestTarget ParseError
invalid offset = err (record { code = invalid_request_target; byte_offset = offset })

unfoldable pub has_http_scheme : Bytes → Bool
has_http_scheme (h ∷ t ∷ t' ∷ p ∷ rest) =
    (h == b'h' || h == b'H')
    && (t == b't' || t == b'T')
    && (t' == b't' || t' == b'T')
    && (p == b'p' || p == b'P')
    && starts_with (codes "://") rest
has_http_scheme _ = false

unfoldable pub absolute_target : Bytes → Bytes → ℕ → Result ParsedRequestTarget ParseError
unfolding is_valid_host_authority routing_of valid_request_target
absolute_target authority path offset =
    if not (is_valid_host_authority authority)
    then invalid offset
    else if length path == 0
    then ok (record { routing_target = codes "/"; authority = authority })
    else if not (valid_request_target (routing_of path))
    then invalid offset
    else ok (record { routing_target = routing_of path; authority = authority })

unfoldable pub parse_request_target : Bytes → Method → ℕ → Result ParsedRequestTarget ParseError
unfolding same_method starts_with valid_request_target has_http_scheme split_authority
    absolute_target
parse_request_target target method offset =
    if bytes_eq target (codes "*")
    then (if not (same_method method options)
        then invalid offset
        else ok (record { routing_target = target; authority = [] }))
    else if starts_with (codes "/") target
    then (if valid_request_target target
        then ok (record { routing_target = target; authority = [] })
        else invalid offset)
    else if not (has_http_scheme target)
    then invalid offset
    else let parts = split_authority (drop 7 target) in absolute_target parts.0 parts.1 offset

abbrev digit : ℕ → Bool
digit byte = within b'0' b'9' byte

unfoldable pub validate_request_version : Bytes → ℕ → Result (Unit {0}) ParseError
unfolding starts_with
validate_request_version (h ∷ t ∷ t' ∷ p ∷ slash ∷ major ∷ dot ∷ minor ∷ []) offset =
    if not (starts_with (codes "HTTP/") (h ∷ t ∷ t' ∷ p ∷ slash ∷ []))
      || not (dot == b'.')
      || not (digit major)
      || not (digit minor)
    then err (record { code = malformed_http_version; byte_offset = offset })
    else if not (major == b'1') || minor == b'0'
    then err (record { code = unsupported_http_version; byte_offset = offset })
    else ok tt
validate_request_version _ offset =
    err (record { code = malformed_http_version; byte_offset = offset })
