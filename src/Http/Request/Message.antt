-- ===== src/Http/Request/Message.antt =====
-- A whole request in one buffer: `parse_http_request` of src/http/request/http_request_parser.cpp.
use spare_node.Base.{
  ℕ, zero, suc, ◌+◌, ◌-◌, ◌*◌, true, false, not, [], ◌∷◌, ◌++◌, Option, none, some, Bytes, Result,
  ok, err, ltb, if◌then◌else◌, length, take, drop,
}
use spare_node.Http.Parse.{Limits, ParseError, Framing}
use spare_node.Http.Body.{Decoder, start, complete, feed}
use spare_node.Http.Request.Head.{Head, parse_http_request_head}

-- `HttpRequestParseResult`: the bytes consumed, the head and the body.
pub data ParseResult : Type 0 where
  incomplete : ParseResult
  complete_request : ℕ → Head → Bytes → ParseResult

-- `detail::body_decode_buffer_bytes`.
abbrev pub body_decode_buffer_bytes : ℕ
body_decode_buffer_bytes = 16 * 1024

abbrev pub framing : Head → Framing
framing parsed = record {
  consumed_bytes = parsed.consumed_bytes;
  content_length = parsed.content_length;
  chunked = parsed.chunked;
}

-- What the loop leaves: the decoder, the storage and the bytes consumed; none where its fuel ends.
abbrev pub Decoded : Type 0
Decoded = Option (Result (Decoder × Bytes × ℕ) ParseError)

-- The decoding loop; `rest` is the input from `consumed` on. A round consumes a byte, so the length
-- of `rest` is fuel enough.
unfoldable pub decode_from : ℕ → Decoder → Bytes → Bytes → ℕ → Decoded
unfolding complete feed
decode_from fuel d [] storage consumed = some (ok (d, storage, consumed))
decode_from zero d (byte ∷ rest) storage consumed =
    if complete d then some (ok (d, storage, consumed)) else none
decode_from (suc fuel) d (byte ∷ rest) storage consumed = elim (complete d) [
  | true ↦ some (ok (d, storage, consumed))
  | false ↦ elim ((feed d (byte ∷ rest) body_decode_buffer_bytes).2) [
    | err e ↦ some (err e)
    | ok progress ↦
        decode_from fuel (feed d (byte ∷ rest) body_decode_buffer_bytes).0
          (drop progress.consumed (byte ∷ rest))
          (storage ++ take progress.produced (feed d (byte ∷ rest) body_decode_buffer_bytes).1)
          (consumed + progress.consumed)
  ]
]

abbrev pub MessageResult : Type 0
MessageResult = Option (Result ParseResult ParseError)

-- A body of a declared length.
unfoldable pub fixed_message : Bytes → Head → MessageResult
fixed_message input parsed =
    if ltb (length input - parsed.consumed_bytes) parsed.content_length
    then some (ok incomplete)
    else some (
        ok (
          complete_request (parsed.consumed_bytes + parsed.content_length) parsed
            (take parsed.content_length (drop parsed.consumed_bytes input))))

-- Behind the loop.
unfoldable pub decoded_message : Head → Decoded → MessageResult
unfolding complete
decoded_message parsed none = none
decoded_message parsed (some (err e)) = some (err e)
decoded_message parsed (some (ok (d, storage, consumed))) =
    if not (complete d)
    then some (ok incomplete)
    else some (ok (complete_request consumed parsed storage))

unfoldable pub chunked_message : Bytes → Head → Limits → MessageResult
unfolding decode_from decoded_message start
chunked_message input parsed limits =
    let rest = drop parsed.consumed_bytes input in
    decoded_message parsed
      (decode_from (length rest) (start (framing parsed) limits) rest [] parsed.consumed_bytes)

unfoldable pub parse_http_request : Bytes → Limits → MessageResult
unfolding parse_http_request_head fixed_message chunked_message
parse_http_request input limits = elim (parse_http_request_head input limits) [
  | err e ↦ some (err e)
  | ok none ↦ some (ok incomplete)
  | ok (some parsed) ↦
      if not parsed.chunked then fixed_message input parsed else chunked_message input parsed limits
]
