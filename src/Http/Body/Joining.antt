-- ===== src/Http/Body/Joining.antt =====
-- Where a call of `feed` stops, and that cutting the input into pieces changes nothing.
use spare_node.Base.{
  ℕ, ◌+◌, ◌-◌, true, [], ◌∷◌, ◌++◌, none, ◌≡◌, refl, ap, ◌∙◌, arith, Bytes, Result, ok, err, length,
  length-append, ◌⊎◌,
}
use spare_node.Http.Parse.{ParseError}
use spare_node.Http.Body.{done, Decoder, complete, Fed, feed, progress_of, Progress}
use spare_node.Http.Body.Bounds.{IsValid}
use spare_node.Http.Body.Bytewise.{
  bytewise, shift, shift-shift, bytewise-payload, bytewise-frames, shift_same, bytewise_same, Feeds,
  halts, refuses, rejects, copies, frames, bytewise-Feeds,
}
use spare_node.Http.Body.Feeding.{Feeds-IsBounded, Feeds-failure, feed-bytewise}

-- Why a call ended with no failure.
abbrev Ends : Fed → Bytes → ℕ → Type 0
Ends r input capacity =
    (r.consumed ≡ length input) ⊎ ((r.decoder.phase ≡ done) ⊎ (length r.written ≡ capacity))

Feeds-Ends :
    {d : Decoder} {input : Bytes} {capacity : ℕ} {r : Fed}
    → Feeds d input capacity r
    → r.failed ≡ none
    → Ends r input capacity
Feeds-Ends (halts v h) passed = ground (arith, h)
Feeds-Ends (refuses v nd h) passed = absurd (cc)
Feeds-Ends (rejects v np nd below h) passed = absurd (cc)
Feeds-Ends (copies v p below room f) passed = ground (arith, Feeds-Ends f passed)
Feeds-Ends (frames v np nd below fine f) passed = ground (arith, Feeds-Ends f passed)

-- A successful call of `feed` on a valid decoder that has not failed consumes the whole input, unless it has reached
-- the end of the body or has filled the output.
pub feed_stops :
    (d : Decoder) (input : Bytes) (capacity : ℕ) (p : Progress)
    → IsValid d
    → d.failure ≡ none
    → (feed d input capacity).2 ≡ ok p
    → (p.consumed ≡ length input) ⊎ ((p.complete ≡ true) ⊎ (p.produced ≡ capacity))
unfolding progress_of complete
feed_stops d input capacity p v fresh h =
    let r = bytewise d input capacity in
    let f = bytewise-Feeds d input capacity v in
    let e : progress_of r ≡ ok p = rw (feed-bytewise d input capacity v fresh) at h in
    let passed : r.failed ≡ none = ground (arith, e) in
    ground (arith, e, passed, Feeds-Ends f passed, Feeds-failure f fresh)

-- The reference on an input in two pieces, the first of which it consumes.
bytewise-append :
    {d : Decoder} {input : Bytes} {capacity : ℕ} {r : Fed} (more : Bytes)
    → Feeds d input capacity r
    → r.failed ≡ none
    → r.consumed ≡ length input
    → bytewise d (input ++ more) capacity
      ≡ shift r.consumed r.written (bytewise r.decoder more (capacity - length r.written))
bytewise-append {d} {input = []} {capacity} more (halts v h) passed all =
    ground (arith, bytewise_same {d = d} {e = d} more {c = capacity} {k = capacity - 0} refl)
bytewise-append {input = x ∷ input} more (halts v h) passed all = absurd (omega arith)
bytewise-append more (refuses v nd h) passed all = absurd (cc)
bytewise-append more (rejects v np nd below h) passed all = absurd (cc)
bytewise-append {d} more (copies {byte} {input} {capacity} {r} v p below room f) passed all =
    bytewise-payload d byte (input ++ more) capacity p below room
    ∙ ap (shift 1 (byte ∷ [])) (bytewise-append more f passed (omega arith))
    ∙ shift-shift 1 r.consumed (byte ∷ []) r.written _
    ∙ shift_same (byte ∷ r.written) refl (bytewise_same more refl (omega arith))
bytewise-append {d} more (frames {byte} {input} {capacity} {r} v np nd below fine f) passed all =
    bytewise-frames d byte (input ++ more) capacity np nd below fine
    ∙ ap (shift 1 []) (bytewise-append more f passed (omega arith))
    ∙ shift-shift 1 r.consumed [] r.written _

-- The progress of a later call, counted from the start of an earlier one.
abbrev pub after : Progress → Result Progress ParseError → Result Progress ParseError
after p (err e) = err e
after p (ok q) =
    ok (record q { consumed = p.consumed + q.consumed; produced = p.produced + q.produced })

progress_of-shift :
    (c : ℕ) (w : Bytes) (x : Fed) (p : Progress)
    → p.consumed ≡ c
    → p.produced ≡ length w
    → progress_of (shift c w x) ≡ after p (progress_of x)
unfolding progress_of
progress_of-shift c w x p h k = ground (arith, length-append w x.written)

-- If a call of `feed` on a valid decoder that has not failed succeeds and consumes its whole
-- input, feeding it some more with the
-- room that is left does what one call with the joined input does: the same decoder is left, the
-- same bytes are written, and the result is that of one call, errors included.
pub feed-append :
    (d : Decoder) (input more : Bytes) (capacity : ℕ) (p : Progress)
    → IsValid d
    → d.failure ≡ none
    → (feed d input capacity).2 ≡ ok p
    → p.consumed ≡ length input
    → let f = feed d input capacity in
      let g = feed f.0 more (capacity - length f.1) in
      feed d (input ++ more) capacity ≡ (g.0, f.1 ++ g.1, after p g.2)
unfolding progress_of
feed-append d input more capacity p v fresh h all =
    let r = bytewise d input capacity in
    let f = bytewise-Feeds d input capacity v in
    let e : progress_of r ≡ ok p = rw (feed-bytewise d input capacity v fresh) at h in
    let passed : r.failed ≡ none = ground (arith, e) in
    let joined = bytewise-append more f passed (ground (arith, e, all)) in
    let w = (Feeds-IsBounded f).valid in
    let again =
      feed-bytewise r.decoder more (capacity - length r.written) w
        (Feeds-failure f fresh ∙ passed) in
    let rest = bytewise r.decoder more (capacity - length r.written) in
    rw (feed-bytewise d (input ++ more) capacity v fresh, feed-bytewise d input capacity v fresh)
      (rw again (
        rw joined (
          ap (λ (t : Result Progress ParseError). (rest.decoder, r.written ++ rest.written, t))
            (progress_of-shift r.consumed r.written rest p (ground (arith, e))
              (ground (arith, e))))))
