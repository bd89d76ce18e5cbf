-- ===== src/Text/Utf8/Sound.antt =====
-- What the decoder accepts is the encoding of a scalar value, and a valid input is a sequence of
-- such encodings.
use spare_node.Base.{
  ℕ, ◌+◌, ◌-◌, ◌<◌, true, false, ◌&&◌, [], ◌∷◌, ◌++◌, ◌≡◌, arith, Bytes, ltb, within, inl, inr,
  Bool-cases, none, some, length, All,
}
use spare_node.Text.Utf8.{continuations, accept, DecodedScalar, decode_one, is_scalar_value, encode}
use spare_node.Text.Utf8.Arithmetic.{encode_lem, is_continuation, shape_of_lem}
use spare_node.Text.Utf8.RoundTrip.{IsByte, decode-two, decode-three, decode-four}

-- The input is the encoding of the decoded scalar value and a tail.
abbrev pub SplitsAt : Bytes → Bytes → DecodedScalar → Type 0
SplitsAt input tail s =
    (is_scalar_value s.value ≡ true)
    × (s.byte_count ≡ length (encode s.value))
    × (input ≡ encode s.value ++ tail)

one-SplitsAt :
    (b : ℕ) (rest : Bytes) (s : DecodedScalar)
    → b < 128
    → decode_one (b ∷ rest) ≡ some s
    → SplitsAt (b ∷ rest) rest s
unfolding decode_one is_scalar_value
one-SplitsAt b rest s h e = ground (arith, encode_lem s.value)

two-SplitsAt :
    (p x : ℕ) (rest : Bytes) (s : DecodedScalar)
    → p < 32
    → x < 64
    → decode_one ((192 + p) ∷ (128 + x) ∷ rest) ≡ some s
    → SplitsAt ((192 + p) ∷ (128 + x) ∷ rest) rest s
unfolding accept
two-SplitsAt p x rest s hp hx e = ground (arith, decode-two p x rest hp hx, encode_lem s.value, e)

three-SplitsAt :
    (p x y : ℕ) (rest : Bytes) (s : DecodedScalar)
    → p < 16
    → x < 64
    → y < 64
    → decode_one ((224 + p) ∷ (128 + x) ∷ (128 + y) ∷ rest) ≡ some s
    → SplitsAt ((224 + p) ∷ (128 + x) ∷ (128 + y) ∷ rest) rest s
unfolding accept
three-SplitsAt p x y rest s hp hx hy e =
    ground (arith, decode-three p x y rest hp hx hy, encode_lem s.value, e)

four-SplitsAt :
    (p x y z : ℕ) (rest : Bytes) (s : DecodedScalar)
    → p < 8
    → x < 64
    → y < 64
    → z < 64
    → decode_one ((240 + p) ∷ (128 + x) ∷ (128 + y) ∷ (128 + z) ∷ rest) ≡ some s
    → SplitsAt ((240 + p) ∷ (128 + x) ∷ (128 + y) ∷ (128 + z) ∷ rest) rest s
unfolding accept
four-SplitsAt p x y z rest s hp hx hy hz e =
    ground (arith, decode-four p x y z rest hp hx hy hz, encode_lem s.value, e)

-- A leading byte of each length, and the continuation bytes that must follow it.
module _ (b : ℕ) (s : DecodedScalar) where
  two-Begins :
      (rest : Bytes)
      → within 192 223 b ≡ true
      → All IsByte (b ∷ rest)
      → decode_one (b ∷ rest) ≡ some s
      → (tail : Bytes) × SplitsAt (b ∷ rest) tail s
  unfolding decode_one continuations
  two-Begins [] h k e = absurd (ground (arith, shape_of_lem b))
  two-Begins (x ∷ r) h k e = elim (Bool-cases (within 128 191 x)) [
    | inl more ↦ (r, ground (arith, two-SplitsAt (b - 192) (x - 128) r s, more, e, h))
    | inr stop ↦ absurd (ground (arith, shape_of_lem b, is_continuation x, stop))
  ]

  three-Begins :
      (rest : Bytes)
      → within 224 239 b ≡ true
      → All IsByte (b ∷ rest)
      → decode_one (b ∷ rest) ≡ some s
      → (tail : Bytes) × SplitsAt (b ∷ rest) tail s
  unfolding decode_one continuations
  three-Begins [] h k e = absurd (ground (arith, shape_of_lem b))
  three-Begins (x ∷ []) h k e = absurd (ground (arith, shape_of_lem b))
  three-Begins (x ∷ y ∷ r) h k e = elim (Bool-cases (within 128 191 x && within 128 191 y)) [
    | inl more ↦ (r, ground (arith, three-SplitsAt (b - 224) (x - 128) (y - 128) r s, more, e, h))
    | inr stop ↦ absurd (ground (arith, shape_of_lem b, is_continuation x, is_continuation y, stop))
  ]

  four-none :
      (x y z : ℕ) (r : Bytes)
      → within 240 247 b ≡ true
      → All IsByte (b ∷ x ∷ y ∷ z ∷ [])
      → (within 128 191 x && within 128 191 y && within 128 191 z) ≡ false
      → decode_one (b ∷ x ∷ y ∷ z ∷ r) ≡ none
  unfolding decode_one continuations
  four-none x y z r h k stop =
      ground (arith, shape_of_lem b, is_continuation x, is_continuation y, is_continuation z)

  four_at :
      (x y z : ℕ) (r : Bytes)
      → within 240 247 b ≡ true
      → (within 128 191 x && within 128 191 y && within 128 191 z) ≡ true
      → decode_one (b ∷ x ∷ y ∷ z ∷ r) ≡ some s
      → SplitsAt (b ∷ x ∷ y ∷ z ∷ r) r s
  four_at x y z r h more e =
      ground (arith, four-SplitsAt (b - 240) (x - 128) (y - 128) (z - 128) r s)

  four-short :
      (rest : Bytes)
      → within 240 247 b ≡ true
      → b < 256
      → length rest < 3
      → decode_one (b ∷ rest) ≡ none
  unfolding decode_one
  four-short rest h k short = ground (arith, shape_of_lem b)

  four-Begins :
      (rest : Bytes)
      → within 240 247 b ≡ true
      → All IsByte (b ∷ rest)
      → decode_one (b ∷ rest) ≡ some s
      → (tail : Bytes) × SplitsAt (b ∷ rest) tail s
  four-Begins [] h k e = absurd (cc (four-short [] h k.0 (omega arith)))
  four-Begins (x ∷ []) h k e = absurd (cc (four-short (x ∷ []) h k.0 (omega arith)))
  four-Begins (x ∷ y ∷ []) h k e = absurd (cc (four-short (x ∷ y ∷ []) h k.0 (omega arith)))
  four-Begins (x ∷ y ∷ z ∷ r) h k e =
      elim (Bool-cases (within 128 191 x && within 128 191 y && within 128 191 z)) [
        | inl more ↦ (r, four_at x y z r h more e)
        | inr stop ↦
            absurd (cc (four-none x y z r h (k.0, (k.1.0, (k.1.1.0, (k.1.1.1.0, tt)))) stop))
      ]

  other-none :
      (rest : Bytes)
      → b < 256
      → ltb b 128 ≡ false
      → within 192 223 b ≡ false
      → within 224 239 b ≡ false
      → within 240 247 b ≡ false
      → decode_one (b ∷ rest) ≡ none
  unfolding decode_one
  other-none rest k h two three four = ground (arith, shape_of_lem b)

-- What `decode_one` accepts begins with the canonical encoding of a scalar value: the value it
-- returns, of which it counts the bytes.
pub decode_one_sound :
    (input : Bytes) (s : DecodedScalar)
    → All IsByte input
    → decode_one input ≡ some s
    → (tail : Bytes) × SplitsAt input tail s
unfolding decode_one
decode_one_sound [] s k e = absurd (cc)
decode_one_sound (b ∷ rest) s k e = elim (Bool-cases (ltb b 128)) [
  | inl one ↦ (rest, one-SplitsAt b rest s (ground arith) e)
  | inr not_one ↦ elim (Bool-cases (within 192 223 b)) [
    | inl two ↦ two-Begins b s rest two k e
    | inr not_two ↦ elim (Bool-cases (within 224 239 b)) [
      | inl three ↦ three-Begins b s rest three k e
      | inr not_three ↦ elim (Bool-cases (within 240 247 b)) [
        | inl four ↦ four-Begins b s rest four k e
        | inr not_four ↦ absurd (cc (other-none b s rest k.0 not_one not_two not_three not_four))
      ]
    ]
  ]
]
