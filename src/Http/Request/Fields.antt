-- ===== src/Http/Request/Fields.antt =====
-- The request line and single header fields of src/http/request/http_request_parser.cpp.
use spare_node.Base.{
  ℕ, suc, ◌+◌, ◌-◌, Bool, true, false, not, ◌&&◌, List, [], ◌∷◌, ◌++◌, Option, none, some, Bytes,
  Result, ok, err, ltb, ◌==◌, if◌then◌else◌, length, take, drop, all, codes, bytes_eq,
}
use spare_node.Base.Views.{find_byte, find_byte_from, front, passes}
use spare_node.Http.Ascii.{
  ascii_case_insensitive_equal, is_http_token_character, is_http_field_value_byte, is_blank,
  trim_optional_whitespace,
}
use spare_node.Http.Parse.{
  size_max, Method, get, head, post, put, delete_method, options, Limits, ParseError,
  ParseErrorCode, malformed_request_line, invalid_method, unsupported_method, malformed_header,
  folded_header, missing_host, duplicate_host, invalid_host, invalid_content_length,
  duplicate_content_length, body_too_large, unsupported_transfer_encoding,
  invalid_transfer_encoding, conflicting_message_length,
}
use spare_node.Http.Request.Decimal.{whole_number}
use spare_node.Http.Request.Authority.{is_valid_host_authority}
use spare_node.Http.Request.Target.{
  ParsedRequestTarget, parse_request_target, validate_request_version,
}

pub record HeaderView : Type 0 where
  pub name : Bytes
  pub value : Bytes

abbrev pub failing {ℓ} : {A : Type ℓ} → ParseErrorCode → ℕ → Result A ParseError
failing code offset = err (record { code = code; byte_offset = offset })

unfoldable pub parse_method : Bytes → ℕ → Result Method ParseError
parse_method method offset =
    if length method == 0
    then failing malformed_request_line offset
    else if not (all is_http_token_character method)
    then failing invalid_method offset
    else if bytes_eq method (codes "GET")
    then ok get
    else if bytes_eq method (codes "HEAD")
    then ok head
    else if bytes_eq method (codes "POST")
    then ok post
    else if bytes_eq method (codes "PUT")
    then ok put
    else if bytes_eq method (codes "DELETE")
    then ok delete_method
    else if bytes_eq method (codes "OPTIONS")
    then ok options
    else failing unsupported_method offset

unfoldable pub parse_content_length : Bytes → ℕ → Result ℕ ParseError
unfolding whole_number
parse_content_length value offset = elim (whole_number size_max value) [
  | none ↦ failing invalid_content_length offset
  | some length ↦ ok length
]

-- The three parts of a request line, in the order in which they are checked.
unfoldable pub request_line_parts :
    Bytes → Bytes → Bytes → ℕ → ℕ → Result (Method × ParsedRequestTarget) ParseError
unfolding parse_method parse_request_target validate_request_version
request_line_parts method target version first_space second_space = elim (parse_method method 0) [
  | err e ↦ err e
  | ok parsed ↦ elim (parse_request_target target parsed (suc first_space)) [
    | err e ↦ err e
    | ok parsed_target ↦ elim (validate_request_version version (suc second_space)) [
      | err e ↦ err e
      | ok _ ↦ ok (parsed, parsed_target)
    ]
  ]
]

unfoldable pub parse_request_line : Bytes → Result (Method × ParsedRequestTarget) ParseError
unfolding request_line_parts find_byte find_byte_from
parse_request_line line = elim (find_byte b' ' line) [
  | none ↦ failing malformed_request_line 0
  | some first_space ↦ elim (find_byte_from b' ' (suc first_space) line) [
    | none ↦ failing malformed_request_line (suc first_space)
    | some second_space ↦ elim (find_byte_from b' ' (suc second_space) line) [
      | some _ ↦ failing malformed_request_line (suc first_space)
      | none ↦
          request_line_parts (take first_space line)
            (take (second_space - first_space - 1) (drop (suc first_space) line))
            (drop (suc second_space) line) first_space second_space
    ]
  ]
]

pub record ParsedHeaderField : Type 0 where
  pub field : HeaderView
  pub line_start : ℕ
  pub value_start : ℕ

-- `find_first_not_of(" \t")`, where no position is the size.
unfoldable pub leading_whitespace : Bytes → ℕ
leading_whitespace [] = 0
leading_whitespace (x ∷ value) = if is_blank x then suc (leading_whitespace value) else 0

-- The name, and the value in front of its trimming.
unfoldable pub header_parts : Bytes → Bytes → ℕ → Result ParsedHeaderField ParseError
unfolding is_http_token_character trim_optional_whitespace is_http_field_value_byte
    leading_whitespace
header_parts name untrimmed_value line_start =
    if not (all is_http_token_character name)
    then failing malformed_header line_start
    else if not (all is_http_field_value_byte (trim_optional_whitespace untrimmed_value))
    then failing malformed_header (line_start + length name + 1)
    else ok (record {
      field = record { name = name; value = trim_optional_whitespace untrimmed_value };
      line_start = line_start;
      value_start = line_start + length name + 1 + leading_whitespace untrimmed_value;
    })

unfoldable pub parse_header_field : Bytes → ℕ → Result ParsedHeaderField ParseError
unfolding header_parts find_byte
parse_header_field line line_start =
    if passes is_blank (front line)
    then failing folded_header line_start
    else elim (find_byte b':' line) [
      | none ↦ failing malformed_header line_start
      | some colon ↦
          if colon == 0
          then failing malformed_header line_start
          else header_parts (take colon line) (drop (suc colon) line) line_start
    ]

pub record HeaderParseState : Type 0 where
  pub headers : List HeaderView
  pub body_size : Option ℕ
  pub host_seen : Bool
  pub transfer_encoding_seen : Bool
  pub transfer_encoding : Bytes
  pub transfer_encoding_offset : ℕ

-- `state.headers.push_back(field)`.
abbrev pub push_field : HeaderView → HeaderParseState → HeaderParseState
push_field field state = record state { headers = state.headers ++ field ∷ [] }

unfoldable pub apply_host :
    ParsedHeaderField → HeaderParseState → Result HeaderParseState ParseError
unfolding is_valid_host_authority
apply_host parsed state =
    if state.host_seen
    then failing duplicate_host parsed.line_start
    else if length parsed.field.value == 0
    then failing missing_host parsed.value_start
    else if not (is_valid_host_authority parsed.field.value)
    then failing invalid_host parsed.value_start
    else ok (push_field parsed.field (record state { host_seen = true }))

unfoldable pub apply_content_length :
    ParsedHeaderField → ℕ → HeaderParseState → Result HeaderParseState ParseError
unfolding parse_content_length
apply_content_length parsed max_body_bytes state = elim state.body_size [
  | some _ ↦ failing duplicate_content_length parsed.line_start
  | none ↦ elim (parse_content_length parsed.field.value parsed.value_start) [
    | err e ↦ err e
    | ok length ↦
        if ltb max_body_bytes length
        then failing body_too_large parsed.value_start
        else ok (push_field parsed.field (record state { body_size = some length }))
  ]
]

unfoldable pub apply_transfer_encoding :
    ParsedHeaderField → HeaderParseState → Result HeaderParseState ParseError
apply_transfer_encoding parsed state =
    if state.transfer_encoding_seen
    then failing invalid_transfer_encoding parsed.line_start
    else ok (
        push_field parsed.field (record state {
          transfer_encoding_seen = true;
          transfer_encoding = parsed.field.value;
          transfer_encoding_offset = parsed.value_start;
        }))

abbrev pub is_named : Bytes → HeaderView → Bool
is_named name field = ascii_case_insensitive_equal field.name name

unfoldable pub apply_header_field :
    ParsedHeaderField → Limits → HeaderParseState → Result HeaderParseState ParseError
unfolding apply_host apply_content_length apply_transfer_encoding
apply_header_field parsed limits state =
    if is_named (codes "Host") parsed.field
    then apply_host parsed state
    else if is_named (codes "Content-Length") parsed.field
    then apply_content_length parsed limits.max_body_bytes state
    else if is_named (codes "Transfer-Encoding") parsed.field
    then apply_transfer_encoding parsed state
    else ok (push_field parsed.field state)

abbrev pub is_some {ℓ} : {A : Type ℓ} → Option A → Bool
is_some none = false
is_some (some a) = true

unfoldable pub validate_framing : HeaderParseState → Result (Unit {0}) ParseError
validate_framing state =
    if not state.transfer_encoding_seen
    then ok tt
    else if is_some state.body_size
    then failing conflicting_message_length state.transfer_encoding_offset
    else if ascii_case_insensitive_equal state.transfer_encoding (codes "chunked")
    then ok tt
    else if not (length state.transfer_encoding == 0)
        && all is_http_token_character state.transfer_encoding
    then failing unsupported_transfer_encoding state.transfer_encoding_offset
    else failing invalid_transfer_encoding state.transfer_encoding_offset
