-- ===== src/Http/Body/LineBound.antt =====
-- The bound on the line that the body decoder gathers.
use spare_node.Base.{
  ℕ, ◌+◌, ◌≤◌, Bool, true, false, [], ◌∷◌, Option, ◌≡◌, arith, Bytes, leb, ◌==◌, length,
  length-append, if_both, not, refl, subst,
}
use spare_node.Http.Parse.{Limits, ParseError}
use spare_node.Http.Body.{
  Phase, size_line, payload, data_cr, data_lf, trailers, done, Decoder, finish_line, data_end,
  clear_line, plain_byte, line_byte, trailer_byte, metadata_in, metadata, copied, Fed,
}
use spare_node.Http.Body.Bytewise.{Feeds, halts, refuses, rejects, copies, frames}

-- The bound on a line: trailers have one of their own.
abbrev pub line_limit : Phase → Limits → ℕ
line_limit trailers limits = limits.max_trailer_bytes
line_limit _ limits = limits.max_chunk_line_bytes

abbrev pub IsLineBounded : Decoder → Type 0
IsLineBounded d = length d.line ≤ line_limit d.phase d.limits

clear_line-IsLineBounded : (r : Decoder × Option ParseError) → IsLineBounded (clear_line r).0
clear_line-IsLineBounded r = omega arith

plain_byte-IsLineBounded :
    (d : Decoder) (limit byte : ℕ)
    → limit ≡ line_limit d.phase d.limits
    → IsLineBounded d
    → IsLineBounded (plain_byte d limit byte).0
unfolding plain_byte
plain_byte-IsLineBounded d limit byte same h =
    ground (arith, h, same, length-append d.line (byte ∷ []))

line_byte-IsLineBounded :
    (d : Decoder) (limit byte : ℕ)
    → limit ≡ line_limit d.phase d.limits
    → IsLineBounded d
    → IsLineBounded (line_byte d limit byte).0
unfolding line_byte
line_byte-IsLineBounded d limit byte same h =
    let P : Decoder × Option ParseError → Type 0 = λ r. IsLineBounded r.0 in
    if_both P d.line_cr _ _
      (if_both P (not (byte == b'\n')) _ _ h (clear_line-IsLineBounded (finish_line d)))
      (plain_byte-IsLineBounded d limit byte same h)

trailer_byte-IsLineBounded :
    (d : Decoder) (byte : ℕ)
    → d.phase ≡ trailers
    → IsLineBounded d
    → IsLineBounded (trailer_byte d byte).0
unfolding trailer_byte
trailer_byte-IsLineBounded d byte p h =
    if_both (λ (r : Decoder × Option ParseError). IsLineBounded r.0)
      (leb d.limits.max_trailer_bytes d.trailer_bytes) _ _ h
      (line_byte-IsLineBounded (record d { trailer_bytes = d.trailer_bytes + 1 })
        d.limits.max_trailer_bytes byte (rw p refl) h)

data_end-IsLineBounded :
    (needs_cr : Bool) (d : Decoder) (byte : ℕ)
    → length d.line ≤ d.limits.max_chunk_line_bytes
    → IsLineBounded d
    → IsLineBounded (data_end needs_cr d byte).0
unfolding data_end
data_end-IsLineBounded true d byte k h = ground (arith, k, h)
data_end-IsLineBounded false d byte k h = ground (arith, k, h)

metadata_in-IsLineBounded :
    (p : Phase) (d : Decoder) (byte : ℕ)
    → d.phase ≡ p
    → IsLineBounded d
    → IsLineBounded (metadata_in p d byte).0
unfolding metadata_in
metadata_in-IsLineBounded data_cr d byte e h =
    data_end-IsLineBounded true d byte (subst (λ q. length d.line ≤ line_limit q d.limits) e h) h
metadata_in-IsLineBounded data_lf d byte e h =
    data_end-IsLineBounded false d byte (subst (λ q. length d.line ≤ line_limit q d.limits) e h) h
metadata_in-IsLineBounded trailers d byte e h = trailer_byte-IsLineBounded d byte e h
metadata_in-IsLineBounded size_line d byte e h =
    line_byte-IsLineBounded d d.limits.max_chunk_line_bytes byte (rw e refl) h
metadata_in-IsLineBounded payload d byte e h =
    line_byte-IsLineBounded d d.limits.max_chunk_line_bytes byte (rw e refl) h
metadata_in-IsLineBounded done d byte e h =
    line_byte-IsLineBounded d d.limits.max_chunk_line_bytes byte (rw e refl) h

metadata-IsLineBounded :
    (d : Decoder) (byte : ℕ) → IsLineBounded d → IsLineBounded (metadata d byte).0
unfolding metadata
metadata-IsLineBounded d byte h =
    if_both (λ (r : Decoder × Option ParseError). IsLineBounded r.0)
      (leb d.limits.max_chunk_metadata_bytes d.metadata_bytes) _ _ h
      (metadata_in-IsLineBounded d.phase (record d { metadata_bytes = d.metadata_bytes + 1 }) byte
        refl h)

copied-IsLineBounded :
    (d : Decoder) (count : ℕ) → d.phase ≡ payload → IsLineBounded d → IsLineBounded (copied d count)
unfolding copied
copied-IsLineBounded d count p h =
    let low : length d.line ≤ d.limits.max_chunk_line_bytes =
      subst (λ q. length d.line ≤ line_limit q d.limits) p h in
    ground (arith, p, low)

-- The rounds of `feed` keep the line within its bound.
pub Feeds-IsLineBounded :
    {d : Decoder} {input : Bytes} {capacity : ℕ} {r : Fed}
    → Feeds d input capacity r
    → IsLineBounded d
    → IsLineBounded r.decoder
Feeds-IsLineBounded (halts v stops) h = h
Feeds-IsLineBounded (refuses v nd full) h = h
Feeds-IsLineBounded (rejects {d} {byte} v np nd below failed) h = metadata-IsLineBounded d byte h
Feeds-IsLineBounded (copies {d} v p below room f) h =
    Feeds-IsLineBounded f (copied-IsLineBounded d 1 p h)
Feeds-IsLineBounded (frames {d} {byte} v np nd below passed f) h =
    Feeds-IsLineBounded f (metadata-IsLineBounded d byte h)
