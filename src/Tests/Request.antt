-- ===== src/Tests/Request.antt =====
-- The request parser on two short requests.
use spare_node.Base.{
  ◌+◌, ◌≤◌, true, false, [], ◌∷◌, ◌++◌, none, some, ◌≡◌, ◌≢◌, refl, arith, Bytes, ok, length, codes,
  bytes_eq,
}
use spare_node.Http.Ascii.{ascii_case_insensitive_equal}
use spare_node.Http.Parse.{Limits, get}
use spare_node.Http.Body.{metadata, finish_line}
use spare_node.Http.Body.Lines.{from_chars_hex, valid_extensions}
use spare_node.Http.Request.Head.{Head, fresh_state, sections_from, parse_http_request_head}
use spare_node.Http.Request.Message.{complete_request, decoded_message, parse_http_request}
use spare_node.Http.Request.Stable.{parse_http_request_head-append}
use spare_node.Http.Request.Fuel.{sections_from_enough}
use spare_node.Http.Request.Framing.{IsFramed, parse_http_request_head-IsFramed}
use spare_node.Http.Request.Extent.{
  maximum_http_request_head_bytes, parse_http_request_head-maximum_http_request_head_bytes,
}
use spare_node.Http.Request.Chunks.{single_call}
use spare_node.Http.Request.Pipeline.{parse_http_request-append}
use spare_node.Http.Request.Whole.{
  whole_feed, parse_http_request_ends, parse_http_request-fixed, parse_http_request-chunked,
}

abbrev limits : Limits
limits = record {
  max_request_line_bytes = 20;
  max_header_bytes = 64;
  max_header_count = 2;
  max_body_bytes = 10;
  max_chunk_line_bytes = 8;
  max_chunk_metadata_bytes = 64;
  max_trailer_bytes = 16;
  max_trailer_count = 2;
}

abbrev sized_front : Bytes
sized_front = codes "GET /a HTTP/1.1\r\nHost: b\r\nContent-Length: 2\r\n\r\n"

abbrev sized_head : Head
sized_head = record {
  method = get;
  target = codes "/a";
  fields =
      record { name = codes "Host"; value = codes "b" }
      ∷ (record { name = codes "Content-Length"; value = codes "2" } ∷ []);
  consumed_bytes = 47;
  content_length = 2;
  chunked = false;
}

sized_read : parse_http_request_head sized_front limits ≡ ok (some sized_head)
unfolding parse_http_request_head bytes_eq ascii_case_insensitive_equal
sized_read = refl

abbrev chunked_front : Bytes
chunked_front = codes "GET /a HTTP/1.1\r\nHost: b\r\nTransfer-Encoding: chunked\r\n\r\n"

abbrev chunked_request : Bytes
chunked_request = chunked_front ++ codes "2\r\nhi\r\n0\r\n\r\n"

abbrev chunked_head : Head
chunked_head = record {
  method = get;
  target = codes "/a";
  fields =
      record { name = codes "Host"; value = codes "b" }
      ∷ (record { name = codes "Transfer-Encoding"; value = codes "chunked" } ∷ []);
  consumed_bytes = 56;
  content_length = 0;
  chunked = true;
}

chunked_read : parse_http_request_head chunked_request limits ≡ ok (some chunked_head)
unfolding parse_http_request_head bytes_eq ascii_case_insensitive_equal
chunked_read = refl

chunked_parsed :
    parse_http_request chunked_request limits
    ≡ some (ok (complete_request 68 chunked_head (codes "hi")))
unfolding parse_http_request bytes_eq ascii_case_insensitive_equal metadata finish_line
    from_chars_hex valid_extensions
chunked_parsed = refl

parse_http_request_head-append_example :
    parse_http_request_head (sized_front ++ codes "hi") limits
    ≡ parse_http_request_head sized_front limits
parse_http_request_head-append_example =
    parse_http_request_head-append sized_front (codes "hi") limits
      (λ k. ground (arith, k, sized_read))

parse_http_request_head-IsFramed_example : IsFramed limits chunked_head.fields 0 true
parse_http_request_head-IsFramed_example =
    parse_http_request_head-IsFramed chunked_request limits chunked_head chunked_read

parse_http_request_head-maximum_http_request_head_bytes_example :
    (sized_head.consumed_bytes ≤ length sized_front)
    × (sized_head.consumed_bytes ≤ maximum_http_request_head_bytes limits)
parse_http_request_head-maximum_http_request_head_bytes_example =
    parse_http_request_head-maximum_http_request_head_bytes sized_front limits sized_head
      (omega arith) sized_read

parse_http_request-append_example :
    parse_http_request (chunked_request ++ codes "GET") limits
    ≡ some (ok (complete_request 68 chunked_head (codes "hi")))
parse_http_request-append_example =
    parse_http_request-append chunked_request (codes "GET") limits chunked_head 68 (codes "hi")
      (omega arith) (omega arith) chunked_parsed

parse_http_request-fixed_example :
    parse_http_request (sized_front ++ (codes "hi" ++ codes "GET")) limits
    ≡ some
        (ok (complete_request (length sized_front + length (codes "hi")) sized_head (codes "hi")))
parse_http_request-fixed_example =
    parse_http_request-fixed sized_front (codes "hi") (codes "GET") limits sized_head sized_read
      refl refl refl

parse_http_request-chunked_example :
    parse_http_request chunked_request limits
    ≡ decoded_message chunked_head
        (single_call chunked_head.consumed_bytes (whole_feed chunked_request limits chunked_head))
parse_http_request-chunked_example =
    parse_http_request-chunked chunked_request limits chunked_head (omega arith) (omega arith)
      chunked_read refl

parse_http_request_ends_example : parse_http_request chunked_request limits ≢ none
parse_http_request_ends_example =
    parse_http_request_ends chunked_request limits (omega arith) (omega arith)

sections_from_enough_example :
    sections_from 11 limits 17 17 (codes "Host: b\r\n\r\n") fresh_state
    ≡ sections_from 20 limits 17 17 (codes "Host: b\r\n\r\n") fresh_state
sections_from_enough_example =
    sections_from_enough 11 20 limits 17 17 (codes "Host: b\r\n\r\n") fresh_state (omega arith)
      (omega arith)
