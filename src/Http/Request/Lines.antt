-- ===== src/Http/Request/Lines.antt =====
-- Line terminators: `find_request_line_end` and `find_header_line_end` of
-- src/http/request/http_request_parser.cpp. The loops run over the input from `index` on; the
-- answer is the offset of the carriage return, and none where the input ends before it.
use spare_node.Base.{
  ℕ, suc, ◌+◌, ◌-◌, not, [], ◌∷◌, Option, none, some, Bytes, Result, ok, err, ltb, leb, ◌==◌,
  if◌then◌else◌,
}
use spare_node.Http.Parse.{
  ParseError, ParseErrorCode, request_line_too_large, invalid_line_ending, headers_too_large,
}

abbrev pub Found : Type 0
Found = Result (Option ℕ) ParseError

abbrev pub fails : ParseErrorCode → ℕ → Found
fails code offset = err (record { code = code; byte_offset = offset })

-- Behind the carriage return at `index`.
unfoldable pub request_line_feed : ℕ → ℕ → Bytes → Found
request_line_feed maximum_size index [] = ok none
request_line_feed maximum_size index (byte ∷ rest) =
    if not (byte == b'\n')
    then fails invalid_line_ending index
    else if ltb maximum_size index
    then fails request_line_too_large maximum_size
    else ok (some index)

unfoldable pub find_request_line_end : ℕ → ℕ → Bytes → Found
unfolding request_line_feed
find_request_line_end maximum_size index [] = ok none
find_request_line_end maximum_size index (byte ∷ rest) =
    if byte == b'\n'
    then fails invalid_line_ending index
    else if byte == b'\r'
    then request_line_feed maximum_size index rest
    else if leb maximum_size index
    then fails request_line_too_large maximum_size
    else find_request_line_end maximum_size (suc index) rest

unfoldable pub header_line_feed : ℕ → ℕ → ℕ → Bytes → Found
header_line_feed maximum_size header_start index [] = ok none
header_line_feed maximum_size header_start index (byte ∷ rest) =
    if not (byte == b'\n')
    then fails invalid_line_ending index
    else if ltb maximum_size (index + 2 - header_start)
    then fails headers_too_large (header_start + maximum_size)
    else ok (some index)

unfoldable pub find_header_line_end : ℕ → ℕ → ℕ → Bytes → Found
unfolding header_line_feed
find_header_line_end maximum_size header_start index [] = ok none
find_header_line_end maximum_size header_start index (byte ∷ rest) =
    if leb maximum_size (index - header_start)
    then fails headers_too_large (header_start + maximum_size)
    else if byte == b'\n'
    then fails invalid_line_ending index
    else if not (byte == b'\r')
    then find_header_line_end maximum_size header_start (suc index) rest
    else header_line_feed maximum_size header_start index rest
