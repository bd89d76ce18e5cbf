-- ===== src/Http/Body/Bounds.antt =====
-- The limits that the body decoder keeps.
use spare_node.Base.{
  ℕ, ◌+◌, ◌≤◌, ◌<◌, Bool, true, false, [], ◌∷◌, Option, none, some, ◌≡◌, arith, Bytes, leb, ◌==◌,
  Bool-cases, if_both, not, inl, inr,
}
use spare_node.Http.Parse.{size_max, ParseError}
use spare_node.Http.Body.Lines.{from_chars_hex}
use spare_node.Http.Body.{
  Phase, size_line, payload, data_cr, data_lf, trailers, done, Decoder, finish_trailer, finish_size,
  finish_line, data_end, clear_line, plain_byte, line_byte, trailer_byte, metadata_in, metadata,
  copied, next_offset,
}

pub record IsValid (d : Decoder) : Type 0 where
  pub body_limit : d.limits.max_body_bytes ≤ size_max
  pub decoded_le : d.decoded ≤ d.limits.max_body_bytes
  pub offset_le : d.offset ≤ size_max
  pub metadata_le : d.metadata_bytes ≤ d.limits.max_chunk_metadata_bytes
  pub trailer_bytes_le : d.trailer_bytes ≤ d.limits.max_trailer_bytes
  pub trailer_count_le : d.trailer_count ≤ d.limits.max_trailer_count
  pub payload_fits :
      d.phase ≡ payload → (0 < d.remaining) × (d.decoded + d.remaining ≤ d.limits.max_body_bytes)

finish_size-IsValid :
    (d : Decoder) (o : Option (ℕ × Bytes)) → IsValid d → IsValid (finish_size d o).0
unfolding finish_size
finish_size-IsValid d none v = v
finish_size-IsValid d (some (size, rest)) v = ground arith

finish_trailer-IsValid :
    (d : Decoder) (line : Bytes) → IsValid d → IsValid (finish_trailer d line).0
unfolding finish_trailer
finish_trailer-IsValid d [] v = ground arith
finish_trailer-IsValid d (b ∷ line) v = ground arith

finish_line-IsValid : (d : Decoder) → IsValid d → IsValid (finish_line d).0
unfolding finish_line
finish_line-IsValid d v =
    ground
      (arith, v, finish_trailer-IsValid d d.line v, finish_size-IsValid d (from_chars_hex d.line) v)

clear_line-IsValid : (r : Decoder × Option ParseError) → IsValid r.0 → IsValid (clear_line r).0
clear_line-IsValid r v = record {
  body_limit = v.body_limit;
  decoded_le = v.decoded_le;
  offset_le = v.offset_le;
  metadata_le = v.metadata_le;
  trailer_bytes_le = v.trailer_bytes_le;
  trailer_count_le = v.trailer_count_le;
  payload_fits = v.payload_fits;
}

plain_byte-IsValid :
    (d : Decoder) (limit byte : ℕ) → IsValid d → IsValid (plain_byte d limit byte).0
unfolding plain_byte
plain_byte-IsValid d limit byte v = ground arith

line_byte-IsValid : (d : Decoder) (limit byte : ℕ) → IsValid d → IsValid (line_byte d limit byte).0
unfolding line_byte
line_byte-IsValid d limit byte v =
    let P : Decoder × Option ParseError → Type 0 = λ r. IsValid r.0 in
    if_both P d.line_cr _ _
      (if_both P (not (byte == b'\n')) _ _ v
        (clear_line-IsValid (finish_line d) (finish_line-IsValid d v)))
      (plain_byte-IsValid d limit byte v)

trailer_byte-IsValid : (d : Decoder) (byte : ℕ) → IsValid d → IsValid (trailer_byte d byte).0
unfolding trailer_byte
trailer_byte-IsValid d byte v = ground (
  arith,
  v,
  line_byte-IsValid (record d { trailer_bytes = d.trailer_bytes + 1 }) d.limits.max_trailer_bytes
      byte,
)

data_end-IsValid :
    (needs_cr : Bool) (d : Decoder) (byte : ℕ) → IsValid d → IsValid (data_end needs_cr d byte).0
unfolding data_end
data_end-IsValid needs_cr d byte v = ground arith

metadata_in-IsValid :
    (p : Phase) (d : Decoder) (byte : ℕ) → IsValid d → IsValid (metadata_in p d byte).0
unfolding metadata_in
metadata_in-IsValid data_cr d byte v = data_end-IsValid true d byte v
metadata_in-IsValid data_lf d byte v = data_end-IsValid false d byte v
metadata_in-IsValid trailers d byte v = trailer_byte-IsValid d byte v
metadata_in-IsValid size_line d byte v = line_byte-IsValid d d.limits.max_chunk_line_bytes byte v
metadata_in-IsValid payload d byte v = line_byte-IsValid d d.limits.max_chunk_line_bytes byte v
metadata_in-IsValid done d byte v = line_byte-IsValid d d.limits.max_chunk_line_bytes byte v

pub metadata-IsValid : (d : Decoder) (byte : ℕ) → IsValid d → IsValid (metadata d byte).0
unfolding metadata
metadata-IsValid d byte v =
    elim (Bool-cases (leb d.limits.max_chunk_metadata_bytes d.metadata_bytes)) [
      | inl full ↦ rw full v
      | inr room ↦ rw room (
          metadata_in-IsValid d.phase (record d { metadata_bytes = d.metadata_bytes + 1 }) byte
            (ground arith))
    ]

pub copied-IsValid :
    (d : Decoder) (count : ℕ)
    → IsValid d
    → d.phase ≡ payload
    → count ≤ d.remaining
    → d.offset + count ≤ size_max
    → IsValid (copied d count)
unfolding copied
copied-IsValid d count v p h k = ground arith

-- What a framing byte leaves alone.
pub record Keeps (d e : Decoder) : Type 0 where
  pub limits_kept : e.limits ≡ d.limits
  pub offset_kept : e.offset ≡ d.offset
  pub decoded_kept : e.decoded ≡ d.decoded
  pub chunked_kept : e.chunked ≡ d.chunked
  pub failure_kept : e.failure ≡ d.failure

Keeps-refl : (d : Decoder) → Keeps d d
Keeps-refl d = ground arith

finish_trailer-Keeps : (d : Decoder) (line : Bytes) → Keeps d (finish_trailer d line).0
unfolding finish_trailer
finish_trailer-Keeps d [] = ground arith
finish_trailer-Keeps d (b ∷ line) = ground arith

finish_size-Keeps : (d : Decoder) (o : Option (ℕ × Bytes)) → Keeps d (finish_size d o).0
unfolding finish_size
finish_size-Keeps d none = ground arith
finish_size-Keeps d (some (size, rest)) = ground arith

clear_line-Keeps :
    (d : Decoder) (r : Decoder × Option ParseError) → Keeps d r.0 → Keeps d (clear_line r).0
clear_line-Keeps d r k = ground (arith, k)

plain_byte-Keeps : (d : Decoder) (limit byte : ℕ) → Keeps d (plain_byte d limit byte).0
unfolding plain_byte
plain_byte-Keeps d limit byte = ground arith

counted-Keeps :
    (d e : Decoder) → Keeps (record d { metadata_bytes = d.metadata_bytes + 1 }) e → Keeps d e
counted-Keeps d e k = ground (arith, k)

trailer_counted-Keeps :
    (d e : Decoder) → Keeps (record d { trailer_bytes = d.trailer_bytes + 1 }) e → Keeps d e
trailer_counted-Keeps d e k = ground (arith, k)

finish_line-Keeps : (d : Decoder) → Keeps d (finish_line d).0
unfolding finish_line
finish_line-Keeps d =
    ground (arith, finish_trailer-Keeps d d.line, finish_size-Keeps d (from_chars_hex d.line))

line_byte-Keeps : (d : Decoder) (limit byte : ℕ) → Keeps d (line_byte d limit byte).0
unfolding line_byte
line_byte-Keeps d limit byte =
    let P : Decoder × Option ParseError → Type 0 = λ r. Keeps d r.0 in
    if_both P d.line_cr _ _
      (if_both P (not (byte == b'\n')) _ _ (Keeps-refl d)
        (clear_line-Keeps d (finish_line d) (finish_line-Keeps d)))
      (plain_byte-Keeps d limit byte)

trailer_byte-Keeps : (d : Decoder) (byte : ℕ) → Keeps d (trailer_byte d byte).0
unfolding trailer_byte
trailer_byte-Keeps d byte =
    if_both (λ (r : Decoder × Option ParseError). Keeps d r.0)
      (leb d.limits.max_trailer_bytes d.trailer_bytes) _ _ (Keeps-refl d)
      (trailer_counted-Keeps d _ (
        line_byte-Keeps (record d { trailer_bytes = d.trailer_bytes + 1 })
          d.limits.max_trailer_bytes byte))

metadata_in-Keeps : (p : Phase) (d : Decoder) (byte : ℕ) → Keeps d (metadata_in p d byte).0
unfolding metadata_in
metadata_in-Keeps data_cr d byte = unfold data_end in ground arith
metadata_in-Keeps data_lf d byte = unfold data_end in ground arith
metadata_in-Keeps trailers d byte = trailer_byte-Keeps d byte
metadata_in-Keeps size_line d byte = line_byte-Keeps d d.limits.max_chunk_line_bytes byte
metadata_in-Keeps payload d byte = line_byte-Keeps d d.limits.max_chunk_line_bytes byte
metadata_in-Keeps done d byte = line_byte-Keeps d d.limits.max_chunk_line_bytes byte

pub metadata-Keeps : (d : Decoder) (byte : ℕ) → Keeps d (metadata d byte).0
unfolding metadata
metadata-Keeps d byte =
    if_both (λ (r : Decoder × Option ParseError). Keeps d r.0)
      (leb d.limits.max_chunk_metadata_bytes d.metadata_bytes) _ _ (Keeps-refl d)
      (counted-Keeps d _
        (metadata_in-Keeps d.phase (record d { metadata_bytes = d.metadata_bytes + 1 }) byte))

pub next_offset-IsValid :
    (d : Decoder) (byte : ℕ)
    → IsValid d
    → d.offset < size_max
    → IsValid (next_offset (metadata d byte).0)
next_offset-IsValid d byte v h = ground (arith, metadata-IsValid d byte v, metadata-Keeps d byte)
