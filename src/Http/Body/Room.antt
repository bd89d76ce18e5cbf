-- ===== src/Http/Body/Room.antt =====
-- The decoder with a larger output: what a call leaves undone, the next call goes on with.
use spare_node.Base.{
  ℕ, suc, ◌+◌, ◌-◌, ◌≤◌, ◌<◌, true, [], ◌∷◌, ◌++◌, none, some, ok, ◌≡◌, ◌≢◌, refl, sym, ap, ◌∙◌,
  arith, Bytes, length, drop,
}
use spare_node.Http.Parse.{ParseError}
use spare_node.Http.Body.{done, Decoder, Fed, stopped, feed, Progress, progress_of, complete}
use spare_node.Http.Body.Bounds.{IsValid}
use spare_node.Http.Body.Feeding.{feed-bytewise}
use spare_node.Http.Body.Bytewise.{
  bytewise-Feeds, bytewise, shift, shift-shift, shift_same, bytewise_same, bytewise-done,
  bytewise-payload, bytewise-frames, bytewise-refuses, bytewise-rejects, Feeds, halts, refuses,
  rejects, copies, frames,
}

-- A round consumes a byte, and writes no more than it consumes.
pub Feeds-consumed :
    {d : Decoder} {byte : ℕ} {input : Bytes} {capacity : ℕ} {r : Fed}
    → Feeds d (byte ∷ input) capacity r
    → r.failed ≡ none
    → d.phase ≢ done
    → 0 < capacity
    → 0 < r.consumed
Feeds-consumed (halts v h) passed open_phase room = ground (arith, h)
Feeds-consumed (refuses v nd h) passed open_phase room = absurd (cc)
Feeds-consumed (rejects v np nd below h) passed open_phase room = absurd (cc)
Feeds-consumed (copies v p below fits f) passed open_phase room = omega arith
Feeds-consumed (frames v np nd below fine f) passed open_phase room = omega arith

pub Feeds-written :
    {d : Decoder} {input : Bytes} {capacity : ℕ} {r : Fed}
    → Feeds d input capacity r
    → length r.written ≤ r.consumed
Feeds-written (halts v h) = omega arith
Feeds-written (refuses v nd h) = omega arith
Feeds-written (rejects v np nd below h) = omega arith
Feeds-written (copies v p below fits f) = omega (arith, Feeds-written f)
Feeds-written (frames v np nd below fine f) = omega (arith, Feeds-written f)

add_one : (n : ℕ) → suc n ≡ 1 + n
add_one n = omega arith

bytewise-rest :
    (d : Decoder) (byte : ℕ) (input : Bytes) (n : ℕ) {c k : ℕ}
    → c ≡ k
    → bytewise d (drop n input) c ≡ bytewise d (drop (1 + n) (byte ∷ input)) k
bytewise-rest d byte input n {k = k} h =
    bytewise_same {d = d} {e = d} (drop n input) refl h
    ∙ ap (λ i. bytewise d (drop i (byte ∷ input)) k) (add_one n)

-- A call with more room goes on where the first one stopped.
pub bytewise-room :
    {d : Decoder} {input : Bytes} {capacity : ℕ} {r : Fed} (room : ℕ)
    → Feeds d input capacity r
    → r.failed ≡ none
    → capacity ≤ room
    → bytewise d input room
      ≡ shift r.consumed r.written
          (bytewise r.decoder (drop r.consumed input) (room - length r.written))
bytewise-room {d} {input} room (halts v h) passed fits =
    ground (arith, bytewise_same {d = d} {e = d} input {c = room} {k = room - 0} refl)
bytewise-room room (refuses v nd h) passed fits = absurd (cc)
bytewise-room room (rejects v np nd below h) passed fits = absurd (cc)
bytewise-room {d} room (copies {byte} {input} {capacity} {r} v p below pos f) passed fits =
    bytewise-payload d byte input room p below (omega (arith, pos, fits))
    ∙ ap (shift 1 (byte ∷ [])) (bytewise-room (room - 1) f passed (omega (arith, fits)))
    ∙ shift-shift 1 r.consumed (byte ∷ []) r.written _
    ∙ shift_same (byte ∷ r.written) refl
        (bytewise-rest r.decoder byte input r.consumed (omega arith))
bytewise-room {d} room (frames {byte} {input} {capacity} {r} v np nd below fine f) passed fits =
    bytewise-frames d byte input room np nd below fine
    ∙ ap (shift 1 []) (bytewise-room room f passed fits)
    ∙ shift-shift 1 r.consumed [] r.written _
    ∙ shift_same r.written refl (bytewise-rest r.decoder byte input r.consumed (omega arith))

-- A call that fails does so with any larger output.
pub bytewise-room_failed :
    {d : Decoder} {input : Bytes} {capacity : ℕ} {r : Fed} (room : ℕ) (e : ParseError)
    → Feeds d input capacity r
    → r.failed ≡ some e
    → capacity ≤ room
    → (bytewise d input room).failed ≡ some e
bytewise-room_failed room e (halts v h) failed fits = absurd (cc)
bytewise-room_failed {d} room e (refuses {byte} {input} v nd h) failed fits =
    rw (bytewise-refuses d byte input room nd h) failed
bytewise-room_failed {d} room e (rejects {byte} {input} v np nd below h) failed fits =
    rw (bytewise-rejects d byte input room np nd below h) failed
bytewise-room_failed {d} room e (copies {byte} {input} v p below pos f) failed fits =
    rw (bytewise-payload d byte input room p below (omega (arith, pos, fits)))
      (bytewise-room_failed (room - 1) e f failed (omega (arith, fits)))
bytewise-room_failed {d} room e (frames {byte} {input} v np nd below fine f) failed fits =
    rw (bytewise-frames d byte input room np nd below fine)
      (bytewise-room_failed room e f failed fits)

bytewise_done :
    (d : Decoder) (input : Bytes) (capacity : ℕ)
    → d.phase ≡ done
    → bytewise d input capacity ≡ stopped d 0 []
bytewise_done d [] capacity ended = unfold bytewise in refl
bytewise_done d (byte ∷ input) capacity ended = bytewise-done d byte input capacity ended

-- Behind the end of the body nothing is read.
pub bytewise-ended :
    {d : Decoder} {input : Bytes} {capacity : ℕ} {r : Fed} (more : Bytes)
    → Feeds d input capacity r
    → r.failed ≡ none
    → r.decoder.phase ≡ done
    → bytewise d (input ++ more) capacity ≡ r
bytewise-ended {d} {input} {capacity} more (halts v h) passed ended =
    bytewise_done d (input ++ more) capacity ended
bytewise-ended more (refuses v nd h) passed ended = absurd (cc)
bytewise-ended more (rejects v np nd below h) passed ended = absurd (cc)
bytewise-ended {d} more (copies {byte} {input} {capacity} {r} v p below pos f) passed ended =
    bytewise-payload d byte (input ++ more) capacity p below pos
    ∙ ap (shift 1 (byte ∷ [])) (bytewise-ended more f passed ended)
bytewise-ended {d} more (frames {byte} {input} {capacity} {r} v np nd below fine f) passed ended =
    bytewise-frames d byte (input ++ more) capacity np nd below fine
    ∙ ap (shift 1 []) (bytewise-ended more f passed ended)

-- A call of `feed` on a valid decoder that has not failed, which completes the body, does the same
-- on a longer input.
pub feed-ended :
    (d : Decoder) (input more : Bytes) (capacity : ℕ) (p : Progress)
    → IsValid d
    → d.failure ≡ none
    → (feed d input capacity).2 ≡ ok p
    → complete (feed d input capacity).0 ≡ true
    → feed d (input ++ more) capacity ≡ feed d input capacity
unfolding progress_of complete
feed-ended d input more capacity p v fresh h ended =
    let r = bytewise d input capacity in
    let f = bytewise-Feeds d input capacity v in
    let same = feed-bytewise d input capacity v fresh in
    let e : progress_of r ≡ ok p = rw same at h in
    let last : complete r.decoder ≡ true = rw same at ended in
    feed-bytewise d (input ++ more) capacity v fresh
    ∙ ap (λ (q : Fed). (q.decoder, q.written, progress_of q))
        (bytewise-ended more f (ground (arith, e)) (ground (arith, last)))
    ∙ sym same
