-- ===== src/Http/Request/Whole.antt =====
-- Whole requests: that the parser ends, and what it delivers.
use spare_node.Base.{
  ℕ, ◌+◌, ◌≤◌, Bool, true, false, not, ◌++◌, none, some, Bytes, Result, ok, err, ◌≡◌, ◌≢◌,
  if◌then◌else◌, refl, sym, ap, ◌∙◌, arith, inl, inr, length, take, drop, length-drop,
  drop-append_length, take-append_length, length-append, Bool-cases, Result-cases,
}
use spare_node.Http.Parse.{ParseError, Limits, size_max}
use spare_node.Http.Body.{Decoder, Progress, start, feed}
use spare_node.Http.Body.Bounds.{IsValid}
use spare_node.Http.Body.Fixed.{start-IsValid}
use spare_node.Http.Request.Head.{Head, parse_http_request_head}
use spare_node.Http.Request.Stable.{parse_http_request_head-append}
use spare_node.Http.Request.Extent.{parse_http_request_head_extent}
use spare_node.Http.Request.Chunks.{single_call, decode_from-feed}
use spare_node.Http.Request.Message.{
  complete_request, Decoded, framing, body_decode_buffer_bytes, fixed_message, decoded_message,
  chunked_message, parse_http_request,
}

decoded_message_some : (parsed : Head) (r : Decoded) → r ≢ none → decoded_message parsed r ≢ none
unfolding decoded_message
decoded_message_some parsed none h = absurd (h refl)
decoded_message_some parsed (some (err e)) h = λ k. cc
decoded_message_some parsed (some (ok (d, storage, consumed))) h = λ k. ground (arith, k)

-- The decoder of an accepted head is valid and has not failed.
pub fresh_decoder :
    (input : Bytes) (limits : Limits) (parsed : Head)
    → limits.max_body_bytes ≤ size_max
    → length input ≤ size_max
    → parse_http_request_head input limits ≡ ok (some parsed)
    → parsed.chunked ≡ true
    → IsValid (start (framing parsed) limits) × ((start (framing parsed) limits).failure ≡ none)
fresh_decoder input limits parsed small fits h chunked =
    let (inside, short) = parse_http_request_head_extent input limits parsed h in
    start-IsValid (framing parsed) limits small (omega (arith, inside, fits)) (λ plain. absurd (cc))

-- A chunked request, decoded in one call.
pub chunked_message-feed :
    (input : Bytes) (limits : Limits) (parsed : Head) (room : ℕ)
    → limits.max_body_bytes ≤ size_max
    → length input ≤ size_max
    → parse_http_request_head input limits ≡ ok (some parsed)
    → parsed.chunked ≡ true
    → length (drop parsed.consumed_bytes input) + body_decode_buffer_bytes ≤ room
    → chunked_message input parsed limits
      ≡ decoded_message parsed (
          single_call parsed.consumed_bytes
            (feed (start (framing parsed) limits) (drop parsed.consumed_bytes input) room))
unfolding chunked_message
chunked_message-feed input limits parsed room small fits h chunked enough =
    let (v, fresh) = fresh_decoder input limits parsed small fits h chunked in
    ap (decoded_message parsed) (
      decode_from-feed (length (drop parsed.consumed_bytes input)) (start (framing parsed) limits)
        (drop parsed.consumed_bytes input) parsed.consumed_bytes room v fresh (omega arith) enough)

single_call_some :
    (consumed : ℕ) (f : Decoder × Bytes × Result Progress ParseError)
    → single_call consumed f ≢ none
single_call_some consumed (d, written, ok p) = λ h. cc
single_call_some consumed (d, written, err e) = λ h. cc

module _ {ℓ} {A : Type ℓ} (x y : A) where
  pub otherwise : (b : Bool) → b ≡ true → (if not b then x else y) ≡ y
  otherwise true h = refl
  otherwise false h = absurd (cc)

  pub unless : (b : Bool) → b ≡ false → (if not b then x else y) ≡ x
  unless true h = absurd (cc)
  unless false h = refl

-- The call of `feed` that does what the loop does.
abbrev pub whole_feed : Bytes → Limits → Head → Decoder × Bytes × Result Progress ParseError
whole_feed input limits parsed =
    feed (start (framing parsed) limits) (drop parsed.consumed_bytes input)
      (length input + body_decode_buffer_bytes)

-- A chunked request whose head is accepted, with a body limit and an input length that are 64-bit
-- numbers: `parse_http_request` gives what one call of the decoder's `feed` gives on everything
-- behind the head, with room for all of its output; the result tells a complete body, an incomplete
-- one and an error of the decoder apart as that call does.
pub parse_http_request-chunked :
    (input : Bytes) (limits : Limits) (parsed : Head)
    → limits.max_body_bytes ≤ size_max
    → length input ≤ size_max
    → parse_http_request_head input limits ≡ ok (some parsed)
    → parsed.chunked ≡ true
    → parse_http_request input limits
      ≡ decoded_message parsed (single_call parsed.consumed_bytes (whole_feed input limits parsed))
unfolding parse_http_request
parse_http_request-chunked input limits parsed small fits read chunked =
    rw (parse_http_request, read)
      (otherwise _ _ parsed.chunked chunked
        ∙ chunked_message-feed input limits parsed (length input + body_decode_buffer_bytes) small
            fits read chunked (omega (arith, length-drop parsed.consumed_bytes input)))

-- With a body limit and an input length that are 64-bit numbers, `parse_http_request` ends: its
-- loop has fuel enough on every input.
pub parse_http_request_ends :
    (input : Bytes) (limits : Limits)
    → limits.max_body_bytes ≤ size_max
    → length input ≤ size_max
    → parse_http_request input limits ≢ none
unfolding parse_http_request fixed_message
parse_http_request_ends input limits small fits =
    elim (Result-cases (parse_http_request_head input limits)) [
      | inr (x, failed) ↦ λ h. ground (arith, h, failed)
      | inl (none, missing) ↦ λ h. ground (arith, h, missing)
      | inl (some parsed, read) ↦ elim (Bool-cases parsed.chunked) [
        | inr plain ↦ λ h. ground (arith, h, read, plain)
        | inl chunked ↦ λ h.
            decoded_message_some parsed
              (single_call parsed.consumed_bytes (whole_feed input limits parsed))
              (single_call_some parsed.consumed_bytes (whole_feed input limits parsed))
              (sym (parse_http_request-chunked input limits parsed small fits read chunked) ∙ h)
      ]
    ]

fixed_message-whole :
    (front body more : Bytes) (parsed : Head)
    → parsed.consumed_bytes ≡ length front
    → parsed.content_length ≡ length body
    → fixed_message (front ++ (body ++ more)) parsed
      ≡ some (ok (complete_request (length front + length body) parsed body))
unfolding fixed_message
fixed_message-whole front body more parsed at size =
    let behind : drop parsed.consumed_bytes (front ++ (body ++ more)) ≡ body ++ more =
      ap (λ n. drop n (front ++ (body ++ more))) at ∙ drop-append_length front (body ++ more) in
    let whole : take parsed.content_length (drop parsed.consumed_bytes (front ++ (body ++ more)))
        ≡ body =
      ap (take parsed.content_length) behind
      ∙ ap (λ n. take n (body ++ more)) size
      ∙ take-append_length body more in
    ground (arith, at, size, whole, length-append front (body ++ more), length-append body more)

-- A request whose head is `front`, with a declared length and no chunked coding, is delivered with
-- the `content_length` bytes behind its head as its body, whatever follows.
pub parse_http_request-fixed :
    (front body more : Bytes) (limits : Limits) (parsed : Head)
    → parse_http_request_head front limits ≡ ok (some parsed)
    → parsed.chunked ≡ false
    → parsed.consumed_bytes ≡ length front
    → parsed.content_length ≡ length body
    → parse_http_request (front ++ (body ++ more)) limits
      ≡ some (ok (complete_request (length front + length body) parsed body))
unfolding parse_http_request
parse_http_request-fixed front body more limits parsed h plain at size =
    let read : parse_http_request_head (front ++ (body ++ more)) limits ≡ ok (some parsed) =
      parse_http_request_head-append front (body ++ more) limits (λ k. cc) ∙ h in
    rw (parse_http_request, read)
      (unless _ _ parsed.chunked plain ∙ fixed_message-whole front body more parsed at size)
