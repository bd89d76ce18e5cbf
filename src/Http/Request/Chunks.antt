-- ===== src/Http/Request/Chunks.antt =====
-- The decoding loop of `parse_http_request`, compared with one call of `feed` whose output has room
-- for everything.
use mathlib.Core.List.{append-nil, append_assoc}
use spare_node.Base.{
  ℕ, zero, suc, ◌+◌, ◌-◌, ◌≤◌, true, false, [], ◌∷◌, ◌++◌, none, some, Bytes, Result, ok, err, ◌≡◌,
  ◌≢◌, refl, sym, ap, ◌∙◌, arith, inl, inr, length, take, drop, take-length, length-drop,
  Bool-cases, Option-cases,
}
use spare_node.Http.Parse.{ParseError}
use spare_node.Http.Body.{done, Decoder, Fed, Progress, complete, feed, progress_of}
use spare_node.Http.Body.Bounds.{IsValid}
use spare_node.Http.Body.Bytewise.{bytewise, shift, bytewise-done, bytewise-Feeds}
use spare_node.Http.Body.Feeding.{feed-bytewise, Feeds-IsBounded, Feeds-failure}
use spare_node.Http.Body.Room.{Feeds-consumed, Feeds-written, bytewise-room, bytewise-room_failed}
use spare_node.Http.Request.Message.{Decoded, decode_from, body_decode_buffer_bytes}

-- What a single call leaves, as a result of the loop.
abbrev pub outcome : Bytes → ℕ → Fed → Decoded
outcome storage consumed r = elim r.failed [
  | some e ↦ some (err e)
  | none ↦ some (ok (r.decoder, storage ++ r.written, consumed + r.consumed))
]

outcome-shift :
    (storage : Bytes) (consumed n : ℕ) (written : Bytes) (r : Fed)
    → outcome storage consumed (shift n written r) ≡ outcome (storage ++ written) (consumed + n) r
outcome-shift storage consumed n written r = ground (arith, append_assoc storage written r.written)

outcome_failed :
    (storage : Bytes) (consumed : ℕ) (r : Fed) (e : ParseError)
    → r.failed ≡ some e
    → outcome storage consumed r ≡ some (err e)
outcome_failed storage consumed r e h = rw h refl

bytewise_complete :
    (d : Decoder) (input : Bytes) (room : ℕ)
    → complete d ≡ true
    → (bytewise d input room ≡ record { decoder = d; consumed = 0; written = []; failed = none })
unfolding complete
bytewise_complete d [] room h = unfold bytewise in refl
bytewise_complete d (byte ∷ input) room h = bytewise-done d byte input room (ground (arith, h))

outcome_complete :
    (d : Decoder) (input storage : Bytes) (consumed room : ℕ)
    → complete d ≡ true
    → some (ok (d, storage, consumed)) ≡ outcome storage consumed (bytewise d input room)
outcome_complete d input storage consumed room h =
    rw (bytewise_complete d input room h) (ground (arith, append-nil storage))

progress_of_failed : (r : Fed) (e : ParseError) → r.failed ≡ some e → progress_of r ≡ err e
unfolding progress_of
progress_of_failed r e h = rw h refl

progress_of_passed :
    (r : Fed)
    → r.failed ≡ none
    → progress_of r
      ≡ ok (record {
        consumed = r.consumed;
        produced = length r.written;
        complete = complete r.decoder;
      })
unfolding progress_of
progress_of_passed r h = rw h refl

module _ (fuel : ℕ) (d : Decoder) (byte : ℕ) (rest storage : Bytes) (consumed : ℕ) (v : IsValid d)
    (fresh : d.failure ≡ none) (going : complete d ≡ false) where
  -- A round is a call of `feed` with the buffer.
  round : Fed
  round = bytewise d (byte ∷ rest) body_decode_buffer_bytes

  round_result :
      feed d (byte ∷ rest) body_decode_buffer_bytes
      ≡ (round.decoder, round.written, progress_of round)
  unfolding round
  round_result = feed-bytewise d (byte ∷ rest) body_decode_buffer_bytes v fresh

  decode_from_failed :
      (e : ParseError)
      → round.failed ≡ some e
      → decode_from (suc fuel) d (byte ∷ rest) storage consumed ≡ some (err e)
  unfolding decode_from
  decode_from_failed e failed =
      rw (decode_from, going, round_result, progress_of_failed round e failed) refl

  decode_from_passed :
      round.failed ≡ none
      → decode_from (suc fuel) d (byte ∷ rest) storage consumed
        ≡ decode_from fuel round.decoder
            (drop round.consumed (byte ∷ rest))
            (storage ++ round.written)
            (consumed + round.consumed)
  unfolding decode_from
  decode_from_passed passed =
      rw (decode_from, going, round_result, progress_of_passed round passed)
        (ap
            (λ (t : Decoder × Bytes × Result Progress ParseError).
              decode_from fuel t.0 (drop round.consumed (byte ∷ rest))
                (storage ++ take (length round.written) t.1) (consumed + round.consumed))
            round_result
          ∙ ap
              (λ w.
                decode_from fuel round.decoder (drop round.consumed (byte ∷ rest)) (storage ++ w)
                  (consumed + round.consumed))
              (take-length round.written))

not_done : (d : Decoder) → d.failure ≡ none → complete d ≡ false → d.phase ≢ done
unfolding complete
not_done d fresh going h = ground (arith, fresh, going, h)

-- The loop leaves what one call leaves whose output has room for the rest.
pub decode_from-bytewise :
    (fuel : ℕ) (d : Decoder) (rest storage : Bytes) (consumed room : ℕ)
    → IsValid d
    → d.failure ≡ none
    → length rest ≤ fuel
    → length rest + body_decode_buffer_bytes ≤ room
    → decode_from fuel d rest storage consumed ≡ outcome storage consumed (bytewise d rest room)
unfolding decode_from round
decode_from-bytewise fuel d [] storage consumed room v fresh enough fits =
    unfold bytewise in ground (arith, append-nil storage)
decode_from-bytewise zero d (byte ∷ rest) storage consumed room v fresh enough fits =
    absurd (omega (arith, enough))
decode_from-bytewise (suc fuel) d (byte ∷ rest) storage consumed room v fresh enough fits =
    elim (Bool-cases (complete d)) [
      | inl ended ↦
          rw (decode_from, ended) (outcome_complete d (byte ∷ rest) storage consumed room ended)
      | inr going ↦
          let r = bytewise d (byte ∷ rest) body_decode_buffer_bytes in
          let f = bytewise-Feeds d (byte ∷ rest) body_decode_buffer_bytes v in
          elim (Option-cases r.failed) [
            | inr (e, failed) ↦
                decode_from_failed fuel d byte rest storage consumed v fresh going e failed
                ∙ sym (
                    outcome_failed storage consumed (bytewise d (byte ∷ rest) room) e
                      (bytewise-room_failed room e f failed (omega (arith, fits))))
            | inl passed ↦
                let pos = Feeds-consumed f passed (not_done d fresh going) (omega arith) in
                let little = Feeds-written f in
                let left = length-drop r.consumed (byte ∷ rest) in
                let b = Feeds-IsBounded f in
                decode_from_passed fuel d byte rest storage consumed v fresh going passed
                ∙ decode_from-bytewise fuel r.decoder (drop r.consumed (byte ∷ rest))
                    (storage ++ r.written) (consumed + r.consumed) (room - length r.written) b.valid
                    (Feeds-failure f fresh ∙ passed) (omega (arith, enough, pos, left))
                    (omega (arith, fits, little, left, b.consumed_le))
                ∙ sym (outcome-shift storage consumed r.consumed r.written _)
                ∙ ap (outcome storage consumed)
                    (sym (bytewise-room room f passed (omega (arith, fits))))
          ]
    ]

-- The result of one call of `feed`, as a result of the loop.
abbrev pub single_call : ℕ → Decoder × Bytes × Result Progress ParseError → Decoded
single_call consumed f = elim f.2 [
  | err e ↦ some (err e)
  | ok p ↦ some (ok (f.0, f.1, consumed + p.consumed))
]

outcome-single_call :
    (consumed : ℕ) (r : Fed)
    → outcome [] consumed r ≡ single_call consumed (r.decoder, r.written, progress_of r)
unfolding progress_of
outcome-single_call consumed r = ground arith

-- With fuel for its input, the decoding loop on a valid decoder that has not failed leaves the
-- decoder, the body and the count of bytes that one call of `feed` leaves whose output has room for
-- the input and one more buffer, and fails where that call fails, with the same error: it ends, and
-- its buffer of 16 KiB changes nothing.
pub decode_from-feed :
    (fuel : ℕ) (d : Decoder) (rest : Bytes) (consumed room : ℕ)
    → IsValid d
    → d.failure ≡ none
    → length rest ≤ fuel
    → length rest + body_decode_buffer_bytes ≤ room
    → decode_from fuel d rest [] consumed ≡ single_call consumed (feed d rest room)
decode_from-feed fuel d rest consumed room v fresh enough fits =
    decode_from-bytewise fuel d rest [] consumed room v fresh enough fits
    ∙ outcome-single_call consumed (bytewise d rest room)
    ∙ ap (single_call consumed) (sym (feed-bytewise d rest room v fresh))
