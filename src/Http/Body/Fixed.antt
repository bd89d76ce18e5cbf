-- ===== src/Http/Body/Fixed.antt =====
-- Bodies of a declared length, from the head of the request on.
use mathlib.Core.List.{append-nil}
use spare_node.Base.{
  take-append_length, drop-append_length, ℕ, ◌+◌, ◌-◌, ◌≤◌, ◌<◌, true, false, [], ◌∷◌, ◌++◌, none,
  ◌≡◌, refl, ◌∙◌, arith, Bytes, ok, err, length, length-append,
}
use spare_node.Http.Parse.{size_max, Limits, Framing, body_too_large}
use spare_node.Http.Body.{
  payload, done, Decoder, copied, complete, start, finish, stopped, feed, progress_of,
}
use spare_node.Http.Body.Bounds.{IsValid}
use spare_node.Http.Body.Bytewise.{bytewise, bytewise-bulk, bytewise-done}
use spare_node.Http.Body.Feeding.{feed-bytewise}

-- The constructor makes a valid decoder of every head whose declared length is within the limit,
-- and of every chunked one; it has not failed.
pub start-IsValid :
    (head : Framing) (limits : Limits)
    → limits.max_body_bytes ≤ size_max
    → head.consumed_bytes ≤ size_max
    → (head.chunked ≡ false → head.content_length ≤ limits.max_body_bytes)
    → IsValid (start head limits) × ((start head limits).failure ≡ none)
unfolding start
start-IsValid head limits h k fits = ground arith

abbrev pub fixed : ℕ → ℕ → Framing
fixed consumed length = record {
  consumed_bytes = consumed;
  content_length = length;
  chunked = false;
}

start-empty :
    (consumed : ℕ) (limits : Limits)
    → let d = start (fixed consumed 0) limits in (d.phase ≡ done) × (complete d ≡ true)
unfolding start complete
start-empty consumed limits = ground arith

finish_complete : (e : Decoder) → complete e ≡ true → finish e ≡ (e, ok tt)
unfolding finish complete
finish_complete e ended = ground (arith, ended)

-- A decoder at the end of the body.
bytewise_at_end :
    (d : Decoder) (input : Bytes) (capacity : ℕ)
    → d.phase ≡ done
    → bytewise d input capacity ≡ stopped d 0 []
unfolding bytewise
bytewise_at_end d [] capacity p = refl
bytewise_at_end d (byte ∷ input) capacity p = bytewise-done d byte input capacity p

start-payload :
    (consumed n : ℕ) (limits : Limits)
    → 0 < n
    → n ≤ limits.max_body_bytes
    → let d = start (fixed consumed n) limits in
      (d.phase ≡ payload)
      × (d.remaining ≡ n)
      × (d.offset ≡ consumed)
      × ((copied d n).phase ≡ done)
      × ((copied d n).failure ≡ none)
unfolding start copied
start-payload consumed n limits h k = ground arith

bytewise-fixed :
    (consumed : ℕ) (limits : Limits) (body rest : Bytes) (capacity : ℕ)
    → limits.max_body_bytes ≤ size_max
    → length body ≤ limits.max_body_bytes
    → consumed + length body ≤ size_max
    → length body ≤ capacity
    → let d = start (fixed consumed (length body)) limits in
      (e : Decoder) × (complete e ≡ true)
      × (bytewise d (body ++ rest) capacity ≡ stopped e (length body) body)
unfolding complete
bytewise-fixed consumed limits [] rest capacity h k fits room = (
  start (fixed consumed 0) limits,
  (start-empty consumed limits).1,
  bytewise_at_end (start (fixed consumed 0) limits) rest capacity (start-empty consumed limits).0,
)
bytewise-fixed consumed limits (b ∷ body) rest capacity h k fits room =
    let n : ℕ = length (b ∷ body) in
    let d = start (fixed consumed n) limits in
    let (p, left, at, ended, fine) = start-payload consumed n limits (omega arith) k in
    (
      copied d n,
      ground (arith, ended, fine),
      bytewise-bulk d b (body ++ rest) capacity n p (omega arith) (omega (arith, left))
            (omega (arith, length-append body rest)) room (omega (arith, at))
          ∙ rw (take-append_length body rest, drop-append_length body rest)
              (rw (bytewise_at_end (copied d n) rest (capacity - n) ended)
                (ground (arith, append-nil body))),
    )

-- A body of a declared length within the body limit, the offset behind it being a 64-bit number:
-- fed with the body and whatever follows it, into an output with room
-- for it, the decoder writes exactly the body, consumes exactly its bytes, and is complete, so
-- that `finish` succeeds.
pub feed-fixed_body :
    (consumed : ℕ) (limits : Limits) (body rest : Bytes) (capacity : ℕ)
    → limits.max_body_bytes ≤ size_max
    → length body ≤ limits.max_body_bytes
    → consumed + length body ≤ size_max
    → length body ≤ capacity
    → let f = feed (start (fixed consumed (length body)) limits) (body ++ rest) capacity in
      (f.1 ≡ body)
      × (f.2 ≡ ok (record { consumed = length body; produced = length body; complete = true }))
      × (finish f.0 ≡ (f.0, ok tt))
unfolding progress_of
feed-fixed_body consumed limits body rest capacity h k fits room =
    let (v, fresh) = start-IsValid (fixed consumed (length body)) limits h (omega arith) (λ _. k) in
    let (e, ended, read) = bytewise-fixed consumed limits body rest capacity h k fits room in
    rw (feed-bytewise _ (body ++ rest) capacity v fresh)
      (rw read (refl, ground (arith, ended), finish_complete e ended))

-- A declared length above the limit: whatever is fed, nothing is written, and the answer is that
-- the body is too large, at the offset behind the head.
pub feed_too_large :
    (consumed n : ℕ) (limits : Limits) (input : Bytes) (capacity : ℕ)
    → limits.max_body_bytes < n
    → let f = feed (start (fixed consumed n) limits) input capacity in
      (f.1 ≡ []) × (f.2 ≡ err (record { code = body_too_large; byte_offset = consumed }))
unfolding feed start
feed_too_large consumed n limits input capacity h = ground arith
