-- ===== src/Http/Body.antt =====
-- src/http/request/http_body_decoder.cpp: the decoder's state and its step on one piece of input.
-- Increments of a `std::size_t` stand behind a comparison with a larger one, so none wraps; the
-- one subtraction that is not guarded, of the decoded bytes, is taken modulo 2 ^ 64.
pub mod Lines
pub mod Bounds
pub mod LineBound
pub mod Bytewise
pub mod Feeding
pub mod Joining
pub mod Room
pub mod Fixed
use spare_node.Base.{
  ℕ, zero, suc, ◌+◌, ◌-◌, ◌%◌, ◌^◌, Bool, true, false, not, ◌&&◌, ◌||◌, List, [], ◌∷◌, ◌++◌, Option,
  none, some, Bytes, Result, ok, err, leb, ltb, ◌==◌, if◌then◌else◌, length, take, drop, min,
}
use spare_node.Http.Parse.{
  size_max, Limits, ParseError, ParseErrorCode, body_too_large, malformed_chunk,
  chunk_metadata_too_large, invalid_trailer, trailers_too_large, incomplete_body, Framing,
}
use Lines.{from_chars_hex, valid_extensions, valid_trailer}

pub data Phase : Type 0 where
  size_line payload data_cr data_lf trailers done : Phase

pub record Decoder : Type 0 where
  pub limits : Limits
  pub phase : Phase
  pub chunked : Bool
  pub remaining : ℕ
  pub decoded : ℕ
  pub offset : ℕ
  pub metadata_bytes : ℕ
  pub trailer_bytes : ℕ
  pub trailer_count : ℕ
  pub line : Bytes
  pub line_cr : Bool
  pub failure : Option ParseError

abbrev pub error : Decoder → ParseErrorCode → ParseError
error d code = record { code = code; byte_offset = d.offset }

-- The constructor.
unfoldable pub start : Framing → Limits → Decoder
start head limits =
    let first =
      if head.chunked then size_line else if head.content_length == 0 then done else payload in
    let d : Decoder = record {
      limits = limits;
      phase = first;
      chunked = head.chunked;
      remaining = head.content_length;
      decoded = 0;
      offset = head.consumed_bytes;
      metadata_bytes = 0;
      trailer_bytes = 0;
      trailer_count = 0;
      line = [];
      line_cr = false;
      failure = none;
    } in
    if not head.chunked && ltb limits.max_body_bytes head.content_length
    then record d { failure = some (error d body_too_large) }
    else d

abbrev pub is_done : Phase → Bool
is_done done = true
is_done _ = false

abbrev pub is_none {ℓ} : {A : Type ℓ} → Option A → Bool
is_none none = true
is_none (some a) = false

unfoldable pub complete : Decoder → Bool
complete d = is_done d.phase && is_none d.failure

unfoldable pub finish : Decoder → Decoder × Result (Unit {0}) ParseError
unfolding complete
finish d = elim d.failure [
  | some e ↦ (d, err e)
  | none ↦
      if complete d
      then (d, ok tt)
      else (record d { failure = some (error d incomplete_body) }, err (error d incomplete_body))
]

-- A trailer line: `finish_line` in the phase `trailers`.
unfoldable pub finish_trailer : Decoder → Bytes → Decoder × Option ParseError
finish_trailer d [] = (record d { phase = done }, none)
finish_trailer d (byte ∷ line) =
    if leb d.limits.max_trailer_count d.trailer_count
    then (d, some (error d trailers_too_large))
    else if not (valid_trailer (byte ∷ line))
    then (record d { trailer_count = d.trailer_count + 1 }, some (error d invalid_trailer))
    else (record d { trailer_count = d.trailer_count + 1 }, none)

-- `limits_.max_body_bytes - decoded_`.
abbrev pub body_room : Decoder → ℕ
body_room d = (d.limits.max_body_bytes + 2 ^ 64 - d.decoded) % 2 ^ 64

-- A size line: `finish_line` in the other phases, from what `std::from_chars` returns.
unfoldable pub finish_size : Decoder → Option (ℕ × Bytes) → Decoder × Option ParseError
finish_size d none = (d, some (error d malformed_chunk))
finish_size d (some (size, rest)) =
    if not (valid_extensions rest)
    then (d, some (error d malformed_chunk))
    else if ltb (body_room d) size
    then (d, some (error d body_too_large))
    else (record d { remaining = size; phase = if size == 0 then trailers else payload }, none)

unfoldable pub finish_line : Decoder → Decoder × Option ParseError
unfolding finish_trailer finish_size
finish_line d = elim d.phase [
  | trailers ↦ finish_trailer d d.line
  | _ ↦ finish_size d (from_chars_hex d.line)
]

-- The byte behind a payload: `needs_cr` tells which of the two is due.
unfoldable pub data_end : Bool → Decoder → ℕ → Decoder × Option ParseError
data_end needs_cr d byte =
    if not (byte == (if needs_cr then b'\r' else b'\n'))
    then (d, some (error d malformed_chunk))
    else (record d { phase = if needs_cr then data_lf else size_line }, none)

-- The line is cleared whatever its end has given.
abbrev pub clear_line : Decoder × Option ParseError → Decoder × Option ParseError
clear_line (d, result) = (record d { line = []; line_cr = false }, result)

-- A byte of a line that has no CR yet; `limit` is the bound on the line.
unfoldable pub plain_byte : Decoder → ℕ → ℕ → Decoder × Option ParseError
plain_byte d limit byte =
    if byte == b'\r'
    then (record d { line_cr = true }, none)
    else if byte == b'\n'
    then (d, some (error d malformed_chunk))
    else if leb limit (length d.line)
    then (d, some (error d chunk_metadata_too_large))
    else (record d { line = d.line ++ byte ∷ [] }, none)

-- A byte of a size or trailer line.
unfoldable pub line_byte : Decoder → ℕ → ℕ → Decoder × Option ParseError
unfolding plain_byte
line_byte d limit byte =
    if d.line_cr
    then (if not (byte == b'\n')
        then (d, some (error d malformed_chunk))
        else clear_line (finish_line d))
    else plain_byte d limit byte

-- A byte of the trailers, which are counted apart.
unfoldable pub trailer_byte : Decoder → ℕ → Decoder × Option ParseError
unfolding line_byte
trailer_byte d byte =
    if leb d.limits.max_trailer_bytes d.trailer_bytes
    then (d, some (error d trailers_too_large))
    else line_byte (record d { trailer_bytes = d.trailer_bytes + 1 }) d.limits.max_trailer_bytes
        byte

-- `metadata` behind its count, by the phase.
unfoldable pub metadata_in : Phase → Decoder → ℕ → Decoder × Option ParseError
unfolding data_end trailer_byte line_byte
metadata_in data_cr d byte = data_end true d byte
metadata_in data_lf d byte = data_end false d byte
metadata_in trailers d byte = trailer_byte d byte
metadata_in _ d byte = line_byte d d.limits.max_chunk_line_bytes byte

unfoldable pub metadata : Decoder → ℕ → Decoder × Option ParseError
unfolding metadata_in
metadata d byte =
    if leb d.limits.max_chunk_metadata_bytes d.metadata_bytes
    then (d, some (error d chunk_metadata_too_large))
    else metadata_in d.phase (record d { metadata_bytes = d.metadata_bytes + 1 }) byte

-- What `copy_data` leaves after it has copied `count` bytes.
unfoldable pub copied : Decoder → ℕ → Decoder
copied d count = record d {
  remaining = d.remaining - count;
  decoded = d.decoded + count;
  offset = d.offset + count;
  phase = if d.remaining - count == 0 then (if d.chunked then data_cr else done) else d.phase;
}

-- `count` of `copy_data`.
abbrev pub copy_count : Decoder → Bytes → ℕ → ℕ
copy_count d input capacity =
    min (min d.remaining (length input)) (min capacity (size_max - d.offset))

-- What a call of `feed` leaves: the decoder, the bytes written to the output, the count of bytes
-- consumed, and the failure that it met.
pub record Fed : Type 0 where
  pub decoder : Decoder
  pub consumed : ℕ
  pub written : Bytes
  pub failed : Option ParseError

abbrev pub stopped : Decoder → ℕ → Bytes → Fed
stopped d consumed written = record {
  decoder = d;
  consumed = consumed;
  written = written;
  failed = none;
}

abbrev pub failed_with : Decoder → ℕ → Bytes → ParseError → Fed
failed_with d consumed written e = record {
  decoder = record d { failure = some e };
  consumed = consumed;
  written = written;
  failed = some e;
}

-- `++offset_`.
abbrev pub next_offset : Decoder → Decoder
next_offset d = record d { offset = d.offset + 1 }

-- The loop of `feed`. `input` is what is not yet consumed and `capacity` what is left of the
-- output; a round consumes a byte, so the length of the input is fuel enough.
unfoldable pub feed_loop : ℕ → Decoder → Bytes → ℕ → ℕ → Bytes → Fed
unfolding copied
feed_loop fuel d [] capacity consumed written = stopped d consumed written
feed_loop zero d (byte ∷ input) capacity consumed written = stopped d consumed written
feed_loop (suc fuel) d (byte ∷ input) capacity consumed written = elim d.phase [
  | done ↦ stopped d consumed written
  | payload ↦ elim (d.offset == size_max) [
    | true ↦ failed_with d consumed written (error d chunk_metadata_too_large)
    | false ↦ elim (capacity == 0) [
      | true ↦ stopped d consumed written
      | false ↦
          let count = copy_count d (byte ∷ input) capacity in
          feed_loop fuel (copied d count) (drop count (byte ∷ input)) (capacity - count)
            (consumed + count) (written ++ take count (byte ∷ input))
    ]
  ]
  | _ ↦ elim (d.offset == size_max) [
    | true ↦ failed_with d consumed written (error d chunk_metadata_too_large)
    | false ↦ elim (metadata d byte).1 [
      | some e ↦ failed_with (metadata d byte).0 consumed written e
      | none ↦
          feed_loop fuel (next_offset (metadata d byte).0) input capacity (consumed + 1) written
    ]
  ]
]

pub record Progress : Type 0 where
  pub consumed : ℕ
  pub produced : ℕ
  pub complete : Bool

-- The result of `feed` from what its loop left.
unfoldable pub progress_of : Fed → Result Progress ParseError
unfolding complete
progress_of r = elim r.failed [
  | some e ↦ err e
  | none ↦
      ok (record {
        consumed = r.consumed;
        produced = length r.written;
        complete = complete r.decoder;
      })
]

-- `feed`, with the bytes that it writes to an output of `capacity` bytes.
unfoldable pub feed : Decoder → Bytes → ℕ → Decoder × Bytes × Result Progress ParseError
unfolding feed_loop progress_of
feed d input capacity = elim d.failure [
  | some e ↦ (d, [], err e)
  | none ↦
      let r = feed_loop (length input) d input capacity 0 [] in
      (r.decoder, r.written, progress_of r)
]
