-- ===== src/Http/Body/Feeding.antt =====
-- What a call of `feed` may do: its bounds, its errors, and how calls join up.
use spare_node.Base.{
  ℕ, ◌+◌, ◌-◌, ◌≤◌, [], ◌∷◌, none, some, ◌≡◌, refl, ◌∙◌, arith, Bytes, ok, err, length,
  length-append, inl, inr, Option-cases,
}
use spare_node.Http.Parse.{ParseError}
use spare_node.Http.Body.{
  Decoder, metadata, copied, next_offset, finish, Fed, feed, progress_of, Progress,
}
use spare_node.Http.Body.Bounds.{IsValid, metadata-Keeps, metadata-IsValid}
use spare_node.Http.Body.LineBound.{IsLineBounded, Feeds-IsLineBounded}
use spare_node.Http.Body.Bytewise.{
  bytewise, shift, feed_loop-bytewise, Feeds, halts, refuses, rejects, copies, frames,
  bytewise-Feeds,
}

-- The limits hold after the call, it stays within its two buffers, and it counts what it writes.
pub record IsBounded (d : Decoder) (input : Bytes) (capacity : ℕ) (r : Fed) : Type 0 where
  pub valid : IsValid r.decoder
  pub consumed_le : r.consumed ≤ length input
  pub written_le : length r.written ≤ capacity
  pub counts : r.decoder.decoded ≡ d.decoded + length r.written
  pub same_limits : r.decoder.limits ≡ d.limits

copied-one : (d : Decoder) → (copied d 1).decoded ≡ d.decoded + 1
unfolding copied
copied-one d = refl

copied-limits : (d : Decoder) (n : ℕ) → (copied d n).limits ≡ d.limits
unfolding copied
copied-limits d n = refl

-- One round of the reference.
shift-IsBounded :
    (d e : Decoder) (input : Bytes) (byte room capacity : ℕ) (w : Bytes) (r : Fed)
    → IsBounded e input room r
    → e.decoded ≡ d.decoded + length w
    → e.limits ≡ d.limits
    → room + length w ≤ capacity
    → IsBounded d (byte ∷ input) capacity (shift 1 w r)
shift-IsBounded d e input byte room capacity w r b counted same fits = record {
  valid = b.valid;
  consumed_le = omega (arith, b.consumed_le);
  written_le = omega (arith, length-append w r.written, b.written_le);
  counts = omega (arith, length-append w r.written, b.counts);
  same_limits = b.same_limits ∙ same;
}

failed-IsValid :
    (d : Decoder) (e : ParseError) → IsValid d → IsValid (record d { failure = some e })
failed-IsValid d e v = ground arith

pub Feeds-IsBounded :
    {d : Decoder} {input : Bytes} {capacity : ℕ} {r : Fed}
    → Feeds d input capacity r
    → IsBounded d input capacity r
Feeds-IsBounded (halts v h) = ground (arith, v)
Feeds-IsBounded (refuses v nd h) = ground (arith, v)
Feeds-IsBounded (rejects {d} {byte} v np nd below h) =
    ground (arith, metadata-IsValid d byte v, metadata-Keeps d byte)
Feeds-IsBounded (copies {d} {byte} {input} {capacity} {r} v p below room f) =
    shift-IsBounded d (copied d 1) input byte (capacity - 1) capacity (byte ∷ []) r
      (Feeds-IsBounded f) (copied-one d) (copied-limits d 1) (omega arith)
Feeds-IsBounded (frames {d} {byte} {input} {capacity} {r} v np nd below passed f) =
    let k = metadata-Keeps d byte in
    shift-IsBounded d (next_offset (metadata d byte).0) input byte capacity capacity [] r
      (Feeds-IsBounded f) (omega (arith, k.decoded_kept)) k.limits_kept (omega arith)

-- On a valid decoder that has not failed, `feed` leaves the decoder, writes the bytes and gives the
-- result that the reference `bytewise` does, which handles one byte of the input at a time.
pub feed-bytewise :
    (d : Decoder) (input : Bytes) (capacity : ℕ)
    → IsValid d
    → d.failure ≡ none
    → feed d input capacity ≡ (
      (bytewise d input capacity).decoder,
      (bytewise d input capacity).written,
      progress_of (bytewise d input capacity),
    )
unfolding feed
feed-bytewise d input capacity v fresh =
    ground (arith, feed_loop-bytewise (length input) d input capacity 0 [] v)

-- What a failed decoder answers.
feed_failed :
    (d : Decoder) (input : Bytes) (capacity : ℕ) (e : ParseError)
    → d.failure ≡ some e
    → feed d input capacity ≡ (d, [], err e)
unfolding feed
feed_failed d input capacity e h = ground arith

-- On a valid decoder whose line is within its bound, a call of `feed` writes no more than the output
-- takes, counts what it writes, and leaves every limit as it was and kept: the decoded bytes never
-- exceed the body limit, the framing and trailer counts theirs, nor the line that is gathered the
-- limit on a chunk line or, among the trailers, on the trailers. If it succeeds, it has consumed no
-- more than the input and reports the number of bytes that it wrote.
pub feed_bounds :
    (d : Decoder) (input : Bytes) (capacity : ℕ)
    → IsValid d
    → IsLineBounded d
    → let f = feed d input capacity in
      IsValid f.0
      × IsLineBounded f.0
      × (length f.1 ≤ capacity)
      × (f.0.decoded ≡ d.decoded + length f.1)
      × (f.0.limits ≡ d.limits)
      × ((p : Progress) → f.2 ≡ ok p → (p.consumed ≤ length input) × (p.produced ≡ length f.1))
unfolding progress_of
feed_bounds d input capacity v low = elim (Option-cases d.failure) [
  | inr (e, failed) ↦
      rw (feed_failed d input capacity e failed)
        (v, low, omega arith, omega arith, refl, λ p h. absurd (cc))
  | inl fresh ↦
      let fed = bytewise-Feeds d input capacity v in
      let b = Feeds-IsBounded fed in
      rw (feed-bytewise d input capacity v fresh) (
        b.valid,
        Feeds-IsLineBounded fed low,
        b.written_le,
        b.counts,
        b.same_limits,
        λ p h. ground (arith, b.consumed_le, h),
      )
]

-- A failure is recorded as it is returned.
pub Feeds-failure :
    {d : Decoder} {input : Bytes} {capacity : ℕ} {r : Fed}
    → Feeds d input capacity r
    → d.failure ≡ none
    → r.decoder.failure ≡ r.failed
Feeds-failure (halts v h) fresh = fresh
Feeds-failure (refuses v nd h) fresh = refl
Feeds-failure (rejects v np nd below h) fresh = refl
Feeds-failure (copies v p below room f) fresh = Feeds-failure f (unfold copied in fresh)
Feeds-failure (frames {d} {byte} v np nd below passed f) fresh =
    Feeds-failure f (ground (arith, metadata-Keeps d byte))

-- Once a call of `feed` on a valid decoder has failed, every later call of `feed` writes nothing and returns the same
-- error, and so does `finish`.
pub feed_failure_is_final :
    (d : Decoder) (input : Bytes) (capacity : ℕ) (e : ParseError) (more : Bytes) (room : ℕ)
    → IsValid d
    → (feed d input capacity).2 ≡ err e
    → let d' = (feed d input capacity).0 in
      (feed d' more room ≡ (d', [], err e)) × (finish d' ≡ (d', err e))
unfolding progress_of finish
feed_failure_is_final d input capacity e more room v h =
    let recorded : (feed d input capacity).0.failure ≡ some e = elim (Option-cases d.failure) [
      | inr (e', failed) ↦ let f = feed_failed d input capacity e' failed in rw f (failed ∙ cc)
      | inl fresh ↦
          let f = feed-bytewise d input capacity v fresh in
          rw f (ground (arith, Feeds-failure (bytewise-Feeds d input capacity v) fresh, h, f))
    ] in
    (feed_failed _ more room e recorded, ground (arith, recorded))
