-- ===== src/Http/Request/Authority.antt =====
-- Host authorities: src/http/request/detail/host_authority.cpp.
use spare_node.Base.{
  ℕ, zero, suc, ◌-◌, ◌^◌, Bool, true, false, not, ◌&&◌, ◌||◌, [], ◌∷◌, Option, none, some, Bytes,
  ltb, leb, ◌==◌, within, if◌then◌else◌, length, take, drop, all, codes,
}
use spare_node.Base.Views.{find_byte, find_byte_from, prefix_to, starts_with, front, back, passes}
use spare_node.Text.IpAddress.{is_valid_ipv4_address, is_valid_ipv6_address}
use spare_node.Http.Ascii.{is_ascii_digit, has_byte}
use spare_node.Http.Request.Decimal.{whole_number}

unfoldable pub is_hostname_boundary : ℕ → Bool
unfolding is_ascii_digit
is_hostname_boundary byte = is_ascii_digit byte || within b'A' b'Z' byte || within b'a' b'z' byte

unfoldable pub is_hostname_character : ℕ → Bool
unfolding is_hostname_boundary
is_hostname_character byte = is_hostname_boundary byte || byte == b'-'

-- The value of a decimal component, if it is one and within the maximum.
unfoldable pub parse_decimal : Bytes → ℕ → Option ℕ
unfolding whole_number
parse_decimal text maximum = elim (whole_number (2 ^ 32 - 1) text) [
  | none ↦ none
  | some value ↦ if leb value maximum then some value else none
]

unfoldable pub valid_label : Bytes → Bool
unfolding is_hostname_character back
valid_label label =
    not (length label == 0)
    && leb (length label) 63
    && passes is_hostname_boundary (front label)
    && passes is_hostname_boundary (back label)
    && all is_hostname_character label

-- The loop over the labels, on what is left of the name; a round consumes a dot.
unfoldable pub labels_from : ℕ → Bytes → Bool
unfolding valid_label find_byte prefix_to
labels_from fuel [] = true
labels_from zero (x ∷ hostname) = false
labels_from (suc fuel) (x ∷ hostname) =
    let dot = find_byte b'.' (x ∷ hostname) in
    if not (valid_label (prefix_to dot (x ∷ hostname))) then false else elim dot [
      | none ↦ true
      | some position ↦ labels_from fuel (drop (suc position) (x ∷ hostname))
    ]

-- The hostname without its root dot, if what is left is neither empty nor ends in a dot.
unfoldable pub without_root : Bytes → Option Bytes
unfolding back
without_root hostname =
    if length hostname == 0
    then none
    else if passes (λ b. b == b'.') (back hostname)
    then (let rest = take (length hostname - 1) hostname in
        if length rest == 0 || passes (λ b. b == b'.') (back rest) then none else some rest)
    else some hostname

unfoldable pub is_valid_hostname : Bytes → Bool
unfolding without_root labels_from
is_valid_hostname hostname = elim (without_root hostname) [
  | none ↦ false
  | some name ↦ if ltb 253 (length name) then false else labels_from (length name) name
]

unfoldable pub looks_like_ipv4 : Bytes → Bool
unfolding is_ascii_digit
looks_like_ipv4 host = has_byte host b'.' && all (λ byte. is_ascii_digit byte || byte == b'.') host

unfoldable pub is_valid_port : Bytes → Bool
unfolding parse_decimal
is_valid_port port = elim (parse_decimal port 65535) [ none ↦ false | some _ ↦ true ]

unfoldable pub is_valid_ip_literal_authority : Bytes → Bool
unfolding find_byte is_valid_ipv6_address is_valid_port starts_with
is_valid_ip_literal_authority authority = elim (find_byte b']' authority) [
  | none ↦ false
  | some closing_bracket ↦
      if closing_bracket == 1
        || not (is_valid_ipv6_address (take (closing_bracket - 1) (drop 1 authority)))
      then false
      else let remainder = drop (suc closing_bracket) authority in
        length remainder == 0
        || (starts_with (codes ":") remainder && is_valid_port (drop 1 remainder))
]

unfoldable pub is_valid_host : Bytes → Bool
unfolding looks_like_ipv4 is_valid_ipv4_address is_valid_hostname
is_valid_host host =
    if looks_like_ipv4 host then is_valid_ipv4_address host else is_valid_hostname host

unfoldable pub is_valid_host_authority : Bytes → Bool
unfolding is_valid_ip_literal_authority is_valid_port is_valid_host find_byte find_byte_from
is_valid_host_authority authority =
    if length authority == 0
    then false
    else if passes (λ b. b == b'[') (front authority)
    then is_valid_ip_literal_authority authority
    else if has_byte authority b'[' || has_byte authority b']'
    then false
    else elim (find_byte b':' authority) [
      | none ↦ not (length authority == 0) && is_valid_host authority
      | some colon ↦ elim (find_byte_from b':' (suc colon) authority) [
        | some _ ↦ false
        | none ↦
            not (colon == 0)
            && is_valid_port (drop (suc colon) authority)
            && is_valid_host (take colon authority)
      ]
    ]
