-- ===== src/Http/Body/Bytewise.antt =====
-- The decoder one byte at a time, and that the bulk copies of `feed` compute the same.
use mathlib.Core.List.{append_assoc, append-nil}
use spare_node.Base.{
  ℕ, zero, suc, ◌+◌, ◌-◌, ◌≤◌, ◌<◌, true, false, [], ◌∷◌, ◌++◌, none, some, ◌≡◌, refl, sym, ap, ◌∙◌,
  arith, Bytes, ◌==◌, length, take, drop, length-take, length-drop, take-append-drop, Option-cases,
  ◌≢◌, ◌⊎◌, inl, inr,
}
use spare_node.Http.Parse.{size_max, ParseError, chunk_metadata_too_large}
use spare_node.Http.Body.{
  payload, done, Decoder, error, metadata, copied, next_offset, copy_count, Fed, stopped,
  failed_with, feed_loop,
}
use spare_node.Http.Body.Bounds.{IsValid, next_offset-IsValid, copied-IsValid}

-- A result behind some bytes consumed and some written.
abbrev pub shift : ℕ → Bytes → Fed → Fed
shift consumed written r = record r {
  consumed = consumed + r.consumed;
  written = written ++ r.written;
}

-- The reference: each byte is taken by itself, a payload byte being copied to the output.
unfoldable pub bytewise : Decoder → Bytes → ℕ → Fed
bytewise d [] capacity = stopped d 0 []
bytewise d (byte ∷ input) capacity = elim d.phase [
  | done ↦ stopped d 0 []
  | payload ↦ elim (d.offset == size_max) [
    | true ↦ failed_with d 0 [] (error d chunk_metadata_too_large)
    | false ↦ elim (capacity == 0) [
      | true ↦ stopped d 0 []
      | false ↦ shift 1 (byte ∷ []) (bytewise (copied d 1) input (capacity - 1))
    ]
  ]
  | _ ↦ elim (d.offset == size_max) [
    | true ↦ failed_with d 0 [] (error d chunk_metadata_too_large)
    | false ↦ elim (metadata d byte).1 [
      | some e ↦ failed_with (metadata d byte).0 0 [] e
      | none ↦ shift 1 [] (bytewise (next_offset (metadata d byte).0) input capacity)
    ]
  ]
]

pub shift-shift :
    (c k : ℕ) (w u : Bytes) (r : Fed) → shift c w (shift k u r) ≡ shift (c + k) (w ++ u) r
shift-shift c k w u r = ground (arith, append_assoc w u r.written)

pub shift_same : {c k : ℕ} (w : Bytes) {r q : Fed} → c ≡ k → r ≡ q → shift c w r ≡ shift k w q
shift_same w h e = cc

pub bytewise_same :
    {d e : Decoder} (input : Bytes) {c k : ℕ}
    → d ≡ e
    → c ≡ k
    → bytewise d input c ≡ bytewise e input k
bytewise_same input h e = cc

-- Copying one byte and then some is copying them together.
copied-copied :
    (d : Decoder) (k : ℕ)
    → d.phase ≡ payload
    → suc k ≤ d.remaining
    → 0 < k
    → copied (copied d 1) k ≡ copied d (suc k)
unfolding copied
copied-copied d k p h pos = ground arith

pub bytewise-payload :
    (d : Decoder) (byte : ℕ) (input : Bytes) (capacity : ℕ)
    → d.phase ≡ payload
    → d.offset < size_max
    → 0 < capacity
    → bytewise d (byte ∷ input) capacity
      ≡ shift 1 (byte ∷ []) (bytewise (copied d 1) input (capacity - 1))
unfolding bytewise
bytewise-payload d byte input capacity p h k = ground arith

copied-payload : (d : Decoder) → d.phase ≡ payload → 1 < d.remaining → (copied d 1).phase ≡ payload
unfolding copied
copied-payload d p h = ground arith

-- A run of payload bytes.
bytewise-copied :
    (d : Decoder) (byte : ℕ) (run input : Bytes) (capacity : ℕ)
    → d.phase ≡ payload
    → suc (length run) ≤ d.remaining
    → suc (length run) ≤ capacity
    → d.offset + suc (length run) ≤ size_max
    → bytewise d (byte ∷ (run ++ input)) capacity
      ≡ shift
          (suc (length run))
          (byte ∷ run)
          (bytewise (copied d (suc (length run))) input (capacity - suc (length run)))
bytewise-copied d byte [] input capacity p h k fits =
    bytewise-payload d byte input capacity p (omega arith) (omega arith)
bytewise-copied d byte (next ∷ run) input capacity p h k fits =
    bytewise-payload d byte (next ∷ run ++ input) capacity p (omega arith) (omega arith)
    ∙ ap (shift 1 (byte ∷ [])) (
        bytewise-copied (copied d 1) next run input (capacity - 1)
          (copied-payload d p (omega arith)) (unfold copied in omega arith) (omega arith)
          (unfold copied in omega arith))
    ∙ shift-shift 1 (suc (length run)) (byte ∷ []) (next ∷ run) _
    ∙ shift_same (byte ∷ next ∷ run) (omega arith)
        (bytewise_same input (copied-copied d (suc (length run)) p h (omega arith)) (omega arith))

-- A round of `feed` in the phase of the payload copies at least one byte.
copy_count_bounds :
    (d : Decoder) (byte : ℕ) (input : Bytes) (capacity : ℕ)
    → 0 < d.remaining
    → d.offset < size_max
    → 0 < capacity
    → let n = copy_count d (byte ∷ input) capacity in
      (0 < n)
      × (n ≤ d.remaining)
      × (n ≤ suc (length input))
      × (n ≤ capacity)
      × (d.offset + n ≤ size_max)
copy_count_bounds d byte input capacity h k room = omega arith

-- The bulk round is so many rounds of the reference.
pub bytewise-bulk :
    (d : Decoder) (byte : ℕ) (input : Bytes) (capacity n : ℕ)
    → d.phase ≡ payload
    → 0 < n
    → n ≤ d.remaining
    → n ≤ suc (length input)
    → n ≤ capacity
    → d.offset + n ≤ size_max
    → bytewise d (byte ∷ input) capacity
      ≡ shift n
          (take n (byte ∷ input))
          (bytewise (copied d n) (drop n (byte ∷ input)) (capacity - n))
bytewise-bulk d byte input capacity zero p pos h k room fits = absurd (omega arith)
bytewise-bulk d byte input capacity (suc m) p pos h k room fits =
    let counted : length (take m input) ≡ m = omega (arith, length-take m input) in
    rw (take-append-drop m input, counted) at
      (bytewise-copied d byte (take m input) (drop m input) capacity p (omega arith) (omega arith)
        (omega arith))

-- The bulk round of the loop.
feed_loop-payload :
    (fuel : ℕ) (d : Decoder) (byte : ℕ) (input : Bytes) (capacity consumed : ℕ) (written : Bytes)
    → d.phase ≡ payload
    → d.offset < size_max
    → 0 < capacity
    → let n = copy_count d (byte ∷ input) capacity in
      feed_loop (suc fuel) d (byte ∷ input) capacity consumed written
      ≡ feed_loop fuel
          (copied d n)
          (drop n (byte ∷ input))
          (capacity - n)
          (consumed + n)
          (written ++ take n (byte ∷ input))
unfolding feed_loop
feed_loop-payload fuel d byte input capacity consumed written p h k = ground arith

-- A round on a framing byte, which the reference makes too.
feed_loop-metadata :
    (fuel : ℕ) (d : Decoder) (byte : ℕ) (input : Bytes) (capacity consumed : ℕ) (written : Bytes)
    → d.offset ≤ size_max
    → (d.offset < size_max
        → shift consumed written
            (shift 1 [] (bytewise (next_offset (metadata d byte).0) input capacity))
          ≡ feed_loop fuel (next_offset (metadata d byte).0) input capacity (consumed + 1) written)
    → (d.phase ≡ payload → (d.offset ≡ size_max) ⊎ (capacity ≡ 0))
    → feed_loop (suc fuel) d (byte ∷ input) capacity consumed written
      ≡ shift consumed written (bytewise d (byte ∷ input) capacity)
unfolding feed_loop bytewise
feed_loop-metadata fuel d byte input capacity consumed written le same other =
    ground (arith, append-nil written)

-- A round by the reference, one byte or a run of payload.
abbrev Consumes : Decoder → ℕ → Type 0
Consumes d capacity = (d.phase ≡ payload) × (d.offset < size_max) × (0 < capacity)

Consumes-cases :
    (d : Decoder) (capacity : ℕ)
    → d.offset ≤ size_max
    → Consumes d capacity ⊎ (d.phase ≡ payload → (d.offset ≡ size_max) ⊎ (capacity ≡ 0))
Consumes-cases d capacity h = ground arith

-- With as much fuel as there is input, the bulk loop of `feed` computes what the bytewise
-- reference computes.
pub feed_loop-bytewise :
    (fuel : ℕ) (d : Decoder) (input : Bytes) (capacity consumed : ℕ) (written : Bytes)
    → IsValid d
    → length input ≤ fuel
    → feed_loop fuel d input capacity consumed written
      ≡ shift consumed written (bytewise d input capacity)
unfolding feed_loop bytewise
feed_loop-bytewise zero d [] capacity consumed written v h = ground (arith, append-nil written)
feed_loop-bytewise (suc fuel) d [] capacity consumed written v h =
    ground (arith, append-nil written)
feed_loop-bytewise zero d (byte ∷ input) capacity consumed written v h = absurd (omega arith)
feed_loop-bytewise (suc fuel) d (byte ∷ input) capacity consumed written v h =
    elim (Consumes-cases d capacity v.offset_le) [
      | inl (p, below, room) ↦
          let n = copy_count d (byte ∷ input) capacity in
          let (pos, n_le, len_le, cap_le, fits) =
            copy_count_bounds d byte input capacity (v.payload_fits p).0 below room in
          feed_loop-payload fuel d byte input capacity consumed written p below room
          ∙ feed_loop-bytewise fuel (copied d n) (drop n (byte ∷ input)) (capacity - n)
              (consumed + n) (written ++ take n (byte ∷ input)) (copied-IsValid d n v p n_le fits)
              (omega (arith, length-drop n (byte ∷ input), pos, h))
          ∙ sym (shift-shift consumed n written (take n (byte ∷ input)) _)
          ∙ ap (shift consumed written)
              (sym (bytewise-bulk d byte input capacity n p pos n_le len_le cap_le fits))
      | inr other ↦
          feed_loop-metadata fuel d byte input capacity consumed written v.offset_le
            (λ below.
              shift-shift consumed 1 written [] _
              ∙ rw append-nil (
                  sym (
                    feed_loop-bytewise fuel (next_offset (metadata d byte).0) input capacity
                      (consumed + 1) written (next_offset-IsValid d byte v below) (omega arith))))
            other
    ]

-- Why a call stops with no failure: no input, the end of the body, or no room for its payload.
abbrev pub Halts : Decoder → Bytes → ℕ → Type 0
Halts d input capacity = (input ≡ []) ⊎ (d.phase ≡ done) ⊎ ((d.phase ≡ payload) × (capacity ≡ 0))

-- The rounds of the reference as a relation, for valid decoders.
pub data Feeds : Decoder → Bytes → ℕ → Fed → Type 0 where
  halts :
      {d : Decoder} {input : Bytes} {capacity : ℕ}
      → IsValid d
      → Halts d input capacity
      → Feeds d input capacity (stopped d 0 [])
  refuses :
      {d : Decoder} {byte : ℕ} {input : Bytes} {capacity : ℕ}
      → IsValid d
      → d.phase ≢ done
      → d.offset ≡ size_max
      → Feeds d (byte ∷ input) capacity (failed_with d 0 [] (error d chunk_metadata_too_large))
  rejects :
      {d : Decoder} {byte : ℕ} {input : Bytes} {capacity : ℕ} {e : ParseError}
      → IsValid d
      → d.phase ≢ payload
      → d.phase ≢ done
      → d.offset < size_max
      → (metadata d byte).1 ≡ some e
      → Feeds d (byte ∷ input) capacity (failed_with (metadata d byte).0 0 [] e)
  copies :
      {d : Decoder} {byte : ℕ} {input : Bytes} {capacity : ℕ} {r : Fed}
      → IsValid d
      → d.phase ≡ payload
      → d.offset < size_max
      → 0 < capacity
      → Feeds (copied d 1) input (capacity - 1) r
      → Feeds d (byte ∷ input) capacity (shift 1 (byte ∷ []) r)
  frames :
      {d : Decoder} {byte : ℕ} {input : Bytes} {capacity : ℕ} {r : Fed}
      → IsValid d
      → d.phase ≢ payload
      → d.phase ≢ done
      → d.offset < size_max
      → (metadata d byte).1 ≡ none
      → Feeds (next_offset (metadata d byte).0) input capacity r
      → Feeds d (byte ∷ input) capacity (shift 1 [] r)

-- The reference's rounds, one equation each.
module _ (d : Decoder) (byte : ℕ) (input : Bytes) (capacity : ℕ) where
  pub bytewise-done : d.phase ≡ done → bytewise d (byte ∷ input) capacity ≡ stopped d 0 []
  unfolding bytewise
  bytewise-done p = ground arith

  pub bytewise-refuses :
      d.phase ≢ done
      → d.offset ≡ size_max
      → bytewise d (byte ∷ input) capacity ≡ failed_with d 0 [] (error d chunk_metadata_too_large)
  unfolding bytewise
  bytewise-refuses nd full = ground arith

  bytewise-full :
      d.phase ≡ payload
      → d.offset < size_max
      → capacity ≡ 0
      → bytewise d (byte ∷ input) capacity ≡ stopped d 0 []
  unfolding bytewise
  bytewise-full p below none_left = ground arith

  pub bytewise-rejects :
      {e : ParseError}
      → d.phase ≢ payload
      → d.phase ≢ done
      → d.offset < size_max
      → (metadata d byte).1 ≡ some e
      → bytewise d (byte ∷ input) capacity ≡ failed_with (metadata d byte).0 0 [] e
  unfolding bytewise
  bytewise-rejects np nd below failed = ground arith

  pub bytewise-frames :
      d.phase ≢ payload
      → d.phase ≢ done
      → d.offset < size_max
      → (metadata d byte).1 ≡ none
      → bytewise d (byte ∷ input) capacity
        ≡ shift 1 [] (bytewise (next_offset (metadata d byte).0) input capacity)
  unfolding bytewise
  bytewise-frames np nd below passed = ground arith

Phase-cases :
    (d : Decoder) (capacity : ℕ)
    → d.offset ≤ size_max
    → (d.phase ≡ done)
      ⊎ (((d.phase ≢ done) × (d.offset ≡ size_max))
          ⊎ (((d.phase ≡ payload) × (d.offset < size_max) × (capacity ≡ 0))
              ⊎ (((d.phase ≡ payload) × (d.offset < size_max) × (0 < capacity))
                  ⊎ ((d.phase ≢ payload) × (d.phase ≢ done) × (d.offset < size_max)))))
Phase-cases d capacity h = ground arith

pub bytewise-Feeds :
    (d : Decoder) (input : Bytes) (capacity : ℕ)
    → IsValid d
    → Feeds d input capacity (bytewise d input capacity)
bytewise-Feeds d [] capacity v = unfold bytewise in halts v (inl refl)
bytewise-Feeds d (byte ∷ input) capacity v = elim (Phase-cases d capacity v.offset_le) [
  | inl p ↦ rw (bytewise-done d byte input capacity p) (halts v (inr (inl p)))
  | inr (inl (nd, full)) ↦ rw (bytewise-refuses d byte input capacity nd full) (refuses v nd full)
  | inr (inr (inl (p, below, empty))) ↦
      rw (bytewise-full d byte input capacity p below empty) (halts v (inr (inr (p, empty))))
  | inr (inr (inr (inl (p, below, room)))) ↦
      rw (bytewise-payload d byte input capacity p below room) (
        copies v p below room (
          bytewise-Feeds (copied d 1) input (capacity - 1)
            (copied-IsValid d 1 v p (v.payload_fits p).0 (omega arith))))
  | inr (inr (inr (inr (np, nd, below)))) ↦ elim (Option-cases (metadata d byte).1) [
    | inl passed ↦ rw (bytewise-frames d byte input capacity np nd below passed) (
        frames v np nd below passed (
          bytewise-Feeds (next_offset (metadata d byte).0) input capacity
            (next_offset-IsValid d byte v below)))
    | inr (e, failed) ↦
        rw (bytewise-rejects d byte input capacity np nd below failed)
          (rejects v np nd below failed)
  ]
]
