-- ===== src/Http/Request/Pipeline.antt =====
-- Bytes behind a whole request, such as the next request of the connection, do not change it.
use spare_node.Base.{
  ℕ, ◌+◌, ◌-◌, ◌≤◌, true, ◌++◌, none, some, Bytes, Result, ok, err, ltb, ◌≡◌, take-append_left,
  drop-append_left, refl, sym, ap, ◌∙◌, arith, inl, inr, length, take, drop, length-drop,
  length-append, Bool-cases, Result-cases,
}
use spare_node.Http.Parse.{ParseError, Limits, size_max}
use spare_node.Http.Body.{Decoder, Progress, start, feed, complete}
use spare_node.Http.Body.Room.{feed-ended}
use spare_node.Http.Request.Head.{Head, parse_http_request_head}
use spare_node.Http.Request.Stable.{parse_http_request_head-append}
use spare_node.Http.Request.Extent.{parse_http_request_head_extent}
use spare_node.Http.Request.Chunks.{single_call}
use spare_node.Http.Request.Whole.{fresh_decoder, chunked_message-feed, otherwise, unless}
use spare_node.Http.Request.Message.{
  complete_request, framing, body_decode_buffer_bytes, fixed_message, decoded_message,
  chunked_message, parse_http_request,
}

fixed_message-append :
    (input more : Bytes) (parsed shown : Head) (n : ℕ) (body : Bytes)
    → fixed_message input parsed ≡ some (ok (complete_request n shown body))
    → parsed.consumed_bytes ≤ length input
    → fixed_message (input ++ more) parsed ≡ fixed_message input parsed
unfolding fixed_message
fixed_message-append input more parsed shown n body h inside =
    elim (Bool-cases (ltb (length input - parsed.consumed_bytes) parsed.content_length)) [
      | inl short ↦ absurd (ground (arith, h, short))
      | inr whole ↦
          let fits : parsed.content_length ≤ length (drop parsed.consumed_bytes input) =
            ground (arith, whole, length-drop parsed.consumed_bytes input) in
          let same : take parsed.content_length (drop parsed.consumed_bytes (input ++ more))
              ≡ take parsed.content_length (drop parsed.consumed_bytes input) =
            ap (take parsed.content_length)
              (drop-append_left parsed.consumed_bytes input more inside)
            ∙ take-append_left parsed.content_length (drop parsed.consumed_bytes input) more fits in
          ground (arith, whole, same, length-append input more)
    ]

-- What a complete message says of the loop's result.
decoded_message_complete :
    (parsed shown : Head) (consumed n : ℕ) (body : Bytes)
    (f : Decoder × Bytes × Result Progress ParseError)
    → decoded_message parsed (single_call consumed f) ≡ some (ok (complete_request n shown body))
    → ((p : Progress) × (f.2 ≡ ok p)) × (complete f.0 ≡ true)
unfolding decoded_message
decoded_message_complete parsed shown consumed n body (d, written, err e) h = absurd (cc)
decoded_message_complete parsed shown consumed n body (d, written, ok p) h =
    ((p, refl), ground (arith, h))

-- The same, at a room for the longer input.
chunked_message-append :
    (input more : Bytes) (limits : Limits) (parsed shown : Head) (n : ℕ) (body : Bytes)
    → limits.max_body_bytes ≤ size_max
    → length (input ++ more) ≤ size_max
    → parse_http_request_head input limits ≡ ok (some parsed)
    → parsed.chunked ≡ true
    → chunked_message input parsed limits ≡ some (ok (complete_request n shown body))
    → chunked_message (input ++ more) parsed limits ≡ chunked_message input parsed limits
chunked_message-append input more limits parsed shown n body small fits read chunked h =
    let room = length (input ++ more) + body_decode_buffer_bytes in
    let joined = length-append input more in
    let (inside, short) = parse_http_request_head_extent input limits parsed read in
    let d = start (framing parsed) limits in
    let rest = drop parsed.consumed_bytes input in
    let (v, fresh) =
      fresh_decoder input limits parsed small (omega (arith, joined, fits)) read chunked in
    let here =
      chunked_message-feed input limits parsed room small (omega (arith, joined, fits)) read chunked
        (omega (arith, joined, length-drop parsed.consumed_bytes input)) in
    let later : parse_http_request_head (input ++ more) limits ≡ ok (some parsed) =
      parse_http_request_head-append input more limits (λ k. ground (arith, k, read)) ∙ read in
    let there =
      chunked_message-feed (input ++ more) limits parsed room small fits later chunked
        (omega (arith, length-drop parsed.consumed_bytes (input ++ more))) in
    let ((p, passed), ended) =
      decoded_message_complete parsed shown parsed.consumed_bytes n body (feed d rest room)
        (sym here ∙ h) in
    let same : feed d (drop parsed.consumed_bytes (input ++ more)) room ≡ feed d rest room =
      ap (λ i. feed d i room) (drop-append_left parsed.consumed_bytes input more inside)
      ∙ feed-ended d rest more room p v fresh passed ended in
    there ∙ ap (λ f. decoded_message parsed (single_call parsed.consumed_bytes f)) same ∙ sym here

-- With a body limit and an input length that are 64-bit numbers, a request that is delivered does
-- not change when more input, such as the next request of the connection, follows it.
pub parse_http_request-append :
    (input more : Bytes) (limits : Limits) (parsed : Head) (n : ℕ) (body : Bytes)
    → limits.max_body_bytes ≤ size_max
    → length (input ++ more) ≤ size_max
    → parse_http_request input limits ≡ some (ok (complete_request n parsed body))
    → parse_http_request (input ++ more) limits ≡ some (ok (complete_request n parsed body))
unfolding parse_http_request
parse_http_request-append input more limits shown n body small fits h =
    elim (Result-cases (parse_http_request_head input limits)) [
      | inr (x, failed) ↦ absurd (ground (arith, h, failed))
      | inl (none, missing) ↦ absurd (ground (arith, h, missing))
      | inl (some parsed, read) ↦
          let (inside, short) = parse_http_request_head_extent input limits parsed read in
          let later : parse_http_request_head (input ++ more) limits ≡ ok (some parsed) =
            parse_http_request_head-append input more limits (λ k. ground (arith, k, read))
            ∙ read in
          elim (Bool-cases parsed.chunked) [
            | inr plain ↦
                let here : fixed_message input parsed ≡ some (ok (complete_request n shown body)) =
                  ground (arith, h, read, plain) in
                rw (parse_http_request, later)
                  (unless _ _ parsed.chunked plain
                    ∙ fixed_message-append input more parsed shown n body here inside
                    ∙ here)
            | inl chunked ↦
                let here : chunked_message input parsed limits
                    ≡ some (ok (complete_request n shown body)) =
                  ground (arith, h, read, chunked) in
                rw (parse_http_request, later)
                  (otherwise _ _ parsed.chunked chunked
                    ∙ chunked_message-append input more limits parsed shown n body small fits read
                        chunked here
                    ∙ here)
          ]
    ]
