-- ===== src/Tests/Body.antt =====
-- The body decoder on a short chunked body.
use spare_node.Base.{
  ◌+◌, ◌-◌, ◌≤◌, true, false, [], ◌∷◌, ◌++◌, none, ◌≡◌, ◌⊎◌, refl, arith, Bytes, ok, err, length,
  codes,
}
use spare_node.Http.Parse.{Limits, Framing, ParseError, ParseErrorCode}
use spare_node.Http.Body.{
  Decoder, Phase, metadata, finish_line, Progress, start, feed, finish, progress_of,
}
use spare_node.Http.Body.Lines.{from_chars_hex, valid_extensions}
use spare_node.Http.Body.Bounds.{IsValid}
use spare_node.Http.Body.Bytewise.{bytewise}
use spare_node.Http.Body.LineBound.{IsLineBounded}
use spare_node.Http.Body.Feeding.{feed-bytewise, feed_bounds, feed_failure_is_final}
use spare_node.Http.Body.Joining.{after, feed_stops, feed-append}
use spare_node.Http.Body.Fixed.{fixed, feed-fixed_body}

abbrev limits : Limits
limits = record {
  max_request_line_bytes = 8192;
  max_header_bytes = 8192;
  max_header_count = 100;
  max_body_bytes = 10;
  max_chunk_line_bytes = 8;
  max_chunk_metadata_bytes = 64;
  max_trailer_bytes = 16;
  max_trailer_count = 2;
}

abbrev chunked_head : Framing
chunked_head = record { consumed_bytes = 40; content_length = 0; chunked = true }

abbrev decoder : Decoder
decoder = record {
  limits = limits;
  phase = Phase.size_line;
  chunked = true;
  remaining = 0;
  decoded = 0;
  offset = 40;
  metadata_bytes = 0;
  trailer_bytes = 0;
  trailer_count = 0;
  line = [];
  line_cr = false;
  failure = none;
}

decoder-IsValid : IsValid decoder
decoder-IsValid = record {
  body_limit = omega arith;
  decoded_le = omega arith;
  offset_le = omega arith;
  metadata_le = omega arith;
  trailer_bytes_le = omega arith;
  trailer_count_le = omega arith;
  payload_fits = λ p. absurd (cc);
}

-- A size line and the first two bytes of its payload; then the rest of the body.
abbrev front : Bytes
front = codes "3" ++ 13 ∷ 10 ∷ codes "ab"

abbrev back : Bytes
back = codes "c" ++ 13 ∷ 10 ∷ codes "0" ++ 13 ∷ 10 ∷ 13 ∷ 10 ∷ []

abbrev front_progress : Progress
front_progress = record { consumed = 5; produced = 2; complete = false }

feed-front : (feed decoder front 10).2 ≡ ok front_progress
unfolding feed metadata finish_line from_chars_hex valid_extensions
feed-front = refl

feed-bytewise_example : feed decoder front 10 ≡ (
  (bytewise decoder front 10).decoder,
  (bytewise decoder front 10).written,
  progress_of (bytewise decoder front 10),
)
feed-bytewise_example = feed-bytewise decoder front 10 decoder-IsValid refl

feed_bounds_example :
    IsValid (feed decoder front 10).0
    × IsLineBounded (feed decoder front 10).0
    × (length (feed decoder front 10).1 ≤ 10)
    × ((feed decoder front 10).0.decoded ≡ decoder.decoded + length (feed decoder front 10).1)
    × ((feed decoder front 10).0.limits ≡ decoder.limits)
    × ((p : Progress)
        → (feed decoder front 10).2 ≡ ok p
        → (p.consumed ≤ length front) × (p.produced ≡ length (feed decoder front 10).1))
feed_bounds_example = feed_bounds decoder front 10 decoder-IsValid (omega arith)

feed_stops_example :
    (front_progress.consumed ≡ length front)
    ⊎ ((front_progress.complete ≡ true) ⊎ (front_progress.produced ≡ 10))
feed_stops_example = feed_stops decoder front 10 front_progress decoder-IsValid refl feed-front

feed-append_example : feed decoder (front ++ back) 10 ≡ (
  (feed (feed decoder front 10).0 back (10 - length (feed decoder front 10).1)).0,
  (feed decoder front 10).1
      ++ (feed (feed decoder front 10).0 back (10 - length (feed decoder front 10).1)).1,
  after front_progress
      (feed (feed decoder front 10).0 back (10 - length (feed decoder front 10).1)).2,
)
feed-append_example =
    feed-append decoder front back 10 front_progress decoder-IsValid refl feed-front refl

abbrev bad_size : ParseError
bad_size = record { code = ParseErrorCode.malformed_chunk; byte_offset = 42 }

feed_bad : (feed decoder (codes "g" ++ 13 ∷ 10 ∷ []) 10).2 ≡ err bad_size
unfolding feed metadata finish_line from_chars_hex
feed_bad = refl

feed_failure_is_final_example :
    (feed (feed decoder (codes "g" ++ 13 ∷ 10 ∷ []) 10).0 back 10
      ≡ ((feed decoder (codes "g" ++ 13 ∷ 10 ∷ []) 10).0, [], err bad_size))
    × (finish (feed decoder (codes "g" ++ 13 ∷ 10 ∷ []) 10).0
        ≡ ((feed decoder (codes "g" ++ 13 ∷ 10 ∷ []) 10).0, err bad_size))
feed_failure_is_final_example =
    feed_failure_is_final decoder (codes "g" ++ 13 ∷ 10 ∷ []) 10 bad_size back 10 decoder-IsValid
      feed_bad

feed-fixed_body_example :
    ((feed (start (fixed 40 3) limits) (codes "abc" ++ codes "GET") 5).1 ≡ codes "abc")
    × ((feed (start (fixed 40 3) limits) (codes "abc" ++ codes "GET") 5).2
        ≡ ok (record { consumed = 3; produced = 3; complete = true }))
    × (finish (feed (start (fixed 40 3) limits) (codes "abc" ++ codes "GET") 5).0
        ≡ ((feed (start (fixed 40 3) limits) (codes "abc" ++ codes "GET") 5).0, ok tt))
feed-fixed_body_example =
    feed-fixed_body 40 limits (codes "abc") (codes "GET") 5 (omega arith) (omega arith)
      (omega arith) (omega arith)
