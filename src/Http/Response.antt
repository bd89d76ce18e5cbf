-- ===== src/Http/Response.antt =====
-- Validated responses: src/http/response/http_response.cpp, with
-- include/sparenode/http/response/http_response.hpp and include/sparenode/http/detail/number.hpp.
pub mod Acceptance
use spare_node.Base.{
  ℕ, zero, suc, ◌+◌, ◌-◌, ◌*◌, ◌/◌, Bool, true, false, not, ◌&&◌, ◌||◌, List, [], ◌∷◌, Option, none,
  some, Bytes, Result, ok, err, ltb, leb, ◌==◌, if◌then◌else◌, length, all, codes,
}
use spare_node.Http.Ascii.{
  ascii_case_insensitive_equal, is_http_token_character, is_http_field_value_byte,
}
use spare_node.Http.Status.{StatusCode, http_status_code_value}

pub record Header : Type 0 where
  pub name : Bytes
  pub value : Bytes

pub data ValidationErrorCode : Type 0 where
  invalid_status_code invalid_reason_phrase too_many_headers : ValidationErrorCode
  invalid_header_name invalid_header_value managed_framing_header : ValidationErrorCode
  managed_connection_header body_not_allowed response_head_too_large : ValidationErrorCode
  memory_body_too_large missing_body_reader managed_date_header : ValidationErrorCode

pub record ValidationError : Type 0 where
  pub code : ValidationErrorCode
  pub header_index : ℕ

abbrev pub maximum_header_count : ℕ
maximum_header_count = 100

abbrev pub maximum_head_bytes : ℕ
maximum_head_bytes = 32768

abbrev pub maximum_memory_body_bytes : ℕ
maximum_memory_body_bytes = 1024 * 1024

-- `response_date_field_bytes` of include/sparenode/http/response/detail/response_date.hpp.
abbrev pub response_date_field_bytes : ℕ
response_date_field_bytes = 37

-- The loop of `decimal_digit_count`, on fuel: twenty rounds are enough for a 64-bit value.
unfoldable pub digit_loop : ℕ → ℕ → ℕ
digit_loop zero value = 1
digit_loop (suc fuel) value =
    let rest = digit_loop fuel (value / 10) in if leb 10 value then suc rest else 1

unfoldable pub decimal_digit_count : ℕ → ℕ
unfolding digit_loop
decimal_digit_count value = digit_loop 20 value

unfoldable pub valid_reason_phrase : Bytes → Bool
valid_reason_phrase value = all is_http_field_value_byte value

unfoldable pub status_has_no_message_body : StatusCode → Bool
unfolding http_status_code_value
status_has_no_message_body status =
    let value = http_status_code_value status in
    (leb 100 value && ltb value 200) || value == 204 || value == 205 || value == 304

-- The fields that the transport writes itself.
unfoldable pub managed_header : Bytes → Option ValidationErrorCode
unfolding ascii_case_insensitive_equal
managed_header name =
    if ascii_case_insensitive_equal name (codes "Content-Length")
      || ascii_case_insensitive_equal name (codes "Transfer-Encoding")
    then some managed_framing_header
    else if ascii_case_insensitive_equal name (codes "Connection")
        || ascii_case_insensitive_equal name (codes "Keep-Alive")
    then some managed_connection_header
    else if ascii_case_insensitive_equal name (codes "Date")
    then some managed_date_header
    else none

-- The checks of `validate_header` up to the size.
unfoldable pub header_error : Header → Option ValidationErrorCode
unfolding managed_header
header_error header =
    if length header.name == 0 || not (all is_http_token_character header.name)
    then some invalid_header_name
    else if not (all is_http_field_value_byte header.value)
    then some invalid_header_value
    else managed_header header.name

unfoldable pub header_result :
    Option ValidationErrorCode → Header → ℕ → ℕ → Result ℕ ValidationError
header_result (some code) header index remaining =
    err (record { code = code; header_index = index })
header_result none header index remaining =
    if ltb remaining (length header.name)
      || ltb (remaining - length header.name) (length header.value)
      || ltb (remaining - length header.name - length header.value) 4
    then err (record { code = response_head_too_large; header_index = index })
    else ok (length header.name + length header.value + 4)

unfoldable pub validate_header : Header → ℕ → ℕ → Result ℕ ValidationError
unfolding header_error header_result
validate_header header index remaining = header_result (header_error header) header index remaining

-- The loop of `validate_response` over the fields from `index` on, `head_size` bytes being taken.
unfoldable pub validate_headers : List Header → ℕ → ℕ → Result (Unit {0}) ValidationError
unfolding validate_header
validate_headers [] index head_size = ok tt
validate_headers (header ∷ headers) index head_size =
    elim (validate_header header index (maximum_head_bytes - head_size)) [
      | ok field_size ↦ validate_headers headers (suc index) (head_size + field_size)
      | err e ↦ err e
    ]

-- The bytes of the head before its application fields.
unfoldable pub fixed_head_size : StatusCode → Bytes → ℕ → ℕ
unfolding http_status_code_value status_has_no_message_body
fixed_head_size status reason_phrase content_length =
    let framing_bytes =
      if status_has_no_message_body status
      then 2
      else 18 + decimal_digit_count content_length + 2 in
    let connection_bytes =
      if leb 200 (http_status_code_value status)
      then length (codes "Connection: close") + 2 + response_date_field_bytes
      else 0 in
    let reset_content_bytes = if http_status_code_value status == 205 then 18 + 1 else 0 in
    15 + length reason_phrase + framing_bytes + connection_bytes + reset_content_bytes

abbrev pub failure : ValidationErrorCode → Result (Unit {0}) ValidationError
failure code = err (record { code = code; header_index = 0 })

unfoldable pub validate_response :
    StatusCode → Bytes → List Header → ℕ → Result (Unit {0}) ValidationError
unfolding http_status_code_value valid_reason_phrase status_has_no_message_body fixed_head_size
    validate_headers
validate_response status reason_phrase headers content_length =
    let numeric_status = http_status_code_value status in
    let head_size = fixed_head_size status reason_phrase content_length in
    if ltb numeric_status 100 || ltb 599 numeric_status
    then failure invalid_status_code
    else if not (valid_reason_phrase reason_phrase)
    then failure invalid_reason_phrase
    else if status_has_no_message_body status && not (content_length == 0)
    then failure body_not_allowed
    else if ltb maximum_header_count (length headers)
    then failure too_many_headers
    else if ltb maximum_head_bytes head_size
    then failure response_head_too_large
    else validate_headers headers 0 head_size

-- The state of an `HttpResponse`; `Reader` is the type of incremental body sources. The date, read
-- from the system clock, is left out.
pub record Response {ℓ} (Reader : Type ℓ) : Type ℓ where
  pub status_code : StatusCode
  pub reason_phrase : Bytes
  pub headers : List Header
  pub memory_body : Bytes
  pub content_length : ℕ
  pub body_reader : Option Reader

module _ {ℓ} {Reader : Type ℓ} where
  unfoldable pub create :
      StatusCode → Bytes → List Header → Bytes → Result (Response Reader) ValidationError
  unfolding validate_response
  create status reason_phrase headers body =
      if ltb maximum_memory_body_bytes (length body)
      then err (record { code = memory_body_too_large; header_index = 0 })
      else elim (validate_response status reason_phrase headers (length body)) [
        | ok _ ↦ ok (record {
          status_code = status;
          reason_phrase = reason_phrase;
          headers = headers;
          memory_body = body;
          content_length = length body;
          body_reader = none;
        })
        | err e ↦ err e
      ]

  unfoldable pub create_streaming :
      StatusCode
      → Bytes
      → List Header
      → ℕ
      → Option Reader
      → Result (Response Reader) ValidationError
  unfolding validate_response status_has_no_message_body
  create_streaming status reason_phrase headers content_length none =
      err (record { code = missing_body_reader; header_index = 0 })
  create_streaming status reason_phrase headers content_length (some reader) =
      if status_has_no_message_body status
      then err (record { code = body_not_allowed; header_index = 0 })
      else elim (validate_response status reason_phrase headers content_length) [
        | ok _ ↦ ok (record {
          status_code = status;
          reason_phrase = reason_phrase;
          headers = headers;
          memory_body = [];
          content_length = content_length;
          body_reader = some reader;
        })
        | err e ↦ err e
      ]
