-- ===== src/Http/Request/Head.antt =====
-- The header section and the whole head: `parse_header_section` and `parse_http_request_head` of
-- src/http/request/http_request_parser.cpp.
use spare_node.Base.{
  ℕ, zero, suc, ◌+◌, ◌-◌, Bool, false, not, ◌&&◌, List, [], ◌∷◌, Option, none, some, Bytes, Result,
  ok, err, leb, ◌==◌, if◌then◌else◌, length, take, drop, codes,
}
use spare_node.Http.Parse.{Method, Limits, ParseError, missing_host, too_many_headers}
use spare_node.Http.Request.Lines.{find_request_line_end, find_header_line_end}
use spare_node.Http.Request.Target.{ParsedRequestTarget}
use spare_node.Http.Request.Fields.{
  HeaderView, HeaderParseState, failing, is_named, parse_request_line, parse_header_field,
  apply_header_field, validate_framing,
}

pub record ParsedHeaderSection : Type 0 where
  pub headers : List HeaderView
  pub body_start : ℕ
  pub body_size : ℕ
  pub chunked : Bool

unfoldable pub fresh_state : HeaderParseState
fresh_state = record {
  headers = [];
  body_size = none;
  host_seen = false;
  transfer_encoding_seen = false;
  transfer_encoding = [];
  transfer_encoding_offset = 0;
}

abbrev pub or_zero : Option ℕ → ℕ
or_zero none = 0
or_zero (some n) = n

abbrev pub SectionResult : Type 0
SectionResult = Result (Option ParsedHeaderSection) ParseError

-- Behind the empty line at `line_end`.
unfoldable pub end_section : ℕ → ℕ → HeaderParseState → SectionResult
unfolding validate_framing
end_section header_start line_end state =
    if not state.host_seen
    then failing missing_host header_start
    else elim (validate_framing state) [
      | err e ↦ err e
      | ok _ ↦ ok (
          some (record {
            headers = state.headers;
            body_start = line_end + 2;
            body_size = or_zero state.body_size;
            chunked = state.transfer_encoding_seen;
          }))
    ]

-- A field line is read and applied.
unfoldable pub header_line :
    Limits → Bytes → ℕ → HeaderParseState → Result HeaderParseState ParseError
unfolding parse_header_field apply_header_field
header_line limits line line_start state =
    if leb limits.max_header_count (length state.headers)
    then failing too_many_headers line_start
    else elim (parse_header_field line line_start) [
      | err e ↦ err e
      | ok parsed ↦ apply_header_field parsed limits state
    ]

-- What a round of the loop of `parse_header_section` comes to: a result, or the next line's start,
-- the input from there on, and the state.
pub data Step : Type 0 where
  finished : SectionResult → Step
  continues : ℕ → Bytes → HeaderParseState → Step

-- Behind a line that ends at `line_end`.
unfoldable pub after_line : Limits → ℕ → ℕ → Bytes → HeaderParseState → ℕ → Step
unfolding end_section header_line
after_line limits header_start line_start rest state line_end =
    if line_end == line_start
    then finished (end_section header_start line_end state)
    else elim (header_line limits (take (line_end - line_start) rest) line_start state) [
      | err e ↦ finished (err e)
      | ok next ↦ continues (line_end + 2) (drop (line_end + 2 - line_start) rest) next
    ]

unfoldable pub section_step : Limits → ℕ → ℕ → Bytes → HeaderParseState → Step
unfolding find_header_line_end after_line
section_step limits header_start line_start rest state =
    elim (find_header_line_end limits.max_header_bytes header_start line_start rest) [
      | err e ↦ finished (err e)
      | ok none ↦ finished (ok none)
      | ok (some line_end) ↦ after_line limits header_start line_start rest state line_end
    ]

-- The loop, on the input from `line_start` on. A round consumes at least a line end, so the length
-- of the input is fuel enough.
unfoldable pub sections_from : ℕ → Limits → ℕ → ℕ → Bytes → HeaderParseState → SectionResult
unfolding section_step
sections_from zero limits header_start line_start rest state = ok none
sections_from (suc fuel) limits header_start line_start rest state =
    elim (section_step limits header_start line_start rest state) [
      | finished result ↦ result
      | continues next_start next_rest next ↦
          sections_from fuel limits header_start next_start next_rest next
    ]

unfoldable pub parse_header_section : Bytes → ℕ → Limits → SectionResult
unfolding sections_from fresh_state
parse_header_section input header_start limits =
    let rest = drop header_start input in
    sections_from (length rest) limits header_start header_start rest fresh_state

-- `HttpRequestHead`.
pub record Head : Type 0 where
  pub method : Method
  pub target : Bytes
  pub fields : List HeaderView
  pub consumed_bytes : ℕ
  pub content_length : ℕ
  pub chunked : Bool

-- The authority of an absolute target takes the place of the Host field's value.
unfoldable pub effective_fields : Bytes → List HeaderView → List HeaderView
effective_fields authority [] = []
effective_fields authority (field ∷ fields) =
    (if not (length authority == 0) && is_named (codes "Host") field
      then record field { value = authority }
      else field)
    ∷ effective_fields authority fields

unfoldable pub head_of : Method → ParsedRequestTarget → ParsedHeaderSection → Head
unfolding effective_fields
head_of method target parsed = record {
  method = method;
  target = target.routing_target;
  fields = effective_fields target.authority parsed.headers;
  consumed_bytes = parsed.body_start;
  content_length = parsed.body_size;
  chunked = parsed.chunked;
}

abbrev pub HeadResult : Type 0
HeadResult = Result (Option Head) ParseError

-- Behind a request line that ends at `request_line_end`.
unfoldable pub after_request_line : Bytes → Limits → ℕ → HeadResult
unfolding parse_request_line parse_header_section head_of
after_request_line input limits request_line_end =
    elim (parse_request_line (take request_line_end input)) [
      | err e ↦ err e
      | ok (method, target) ↦ elim (parse_header_section input (request_line_end + 2) limits) [
        | err e ↦ err e
        | ok none ↦ ok none
        | ok (some parsed) ↦ ok (some (head_of method target parsed))
      ]
    ]

unfoldable pub parse_http_request_head : Bytes → Limits → HeadResult
unfolding find_request_line_end after_request_line
parse_http_request_head input limits =
    elim (find_request_line_end limits.max_request_line_bytes 0 input) [
      | err e ↦ err e
      | ok none ↦ ok none
      | ok (some request_line_end) ↦ after_request_line input limits request_line_end
    ]
