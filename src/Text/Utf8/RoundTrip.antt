-- ===== src/Text/Utf8/RoundTrip.antt =====
-- Decoding inverts encoding, and accepts nothing else.
use spare_node.Base.{ℕ, ◌+◌, ◌*◌, ◌/◌, ◌%◌, ◌<◌, true, ◌∷◌, ◌++◌, ◌≡◌, arith, Bytes, some, length}
use spare_node.Text.Utf8.{continuations, accept, decode_one, is_scalar_value, encode}
use spare_node.Text.Utf8.Arithmetic.{encode_lem, is_continuation, shape_of_lem, append_payload}

abbrev pub IsByte : ℕ → Type 0
IsByte b = b < 256

pub decode-two :
    (p x : ℕ) (rest : Bytes)
    → p < 32
    → x < 64
    → decode_one ((192 + p) ∷ (128 + x) ∷ rest)
      ≡ accept (record { length = 2; code_point = p; minimum = 0x80 }) (some (p * 64 + x))
unfolding decode_one continuations
decode-two p x rest hp hx =
    ground (arith, shape_of_lem (192 + p), is_continuation (128 + x), append_payload p (128 + x))

pub decode-three :
    (p x y : ℕ) (rest : Bytes)
    → p < 16
    → x < 64
    → y < 64
    → decode_one ((224 + p) ∷ (128 + x) ∷ (128 + y) ∷ rest)
      ≡ accept
          (record { length = 3; code_point = p; minimum = 0x800 })
          (some ((p * 64 + x) * 64 + y))
unfolding decode_one continuations
decode-three p x y rest hp hx hy = ground (
  arith,
  shape_of_lem (224 + p),
  is_continuation (128 + x),
  is_continuation (128 + y),
  append_payload p (128 + x),
  append_payload (p * 64 + x) (128 + y),
)

pub decode-four :
    (p x y z : ℕ) (rest : Bytes)
    → p < 8
    → x < 64
    → y < 64
    → z < 64
    → decode_one ((240 + p) ∷ (128 + x) ∷ (128 + y) ∷ (128 + z) ∷ rest)
      ≡ accept
          (record { length = 4; code_point = p; minimum = 0x10000 })
          (some (((p * 64 + x) * 64 + y) * 64 + z))
unfolding decode_one continuations
decode-four p x y z rest hp hx hy hz = ground (
  arith,
  shape_of_lem (240 + p),
  is_continuation (128 + x),
  is_continuation (128 + y),
  is_continuation (128 + z),
  append_payload p (128 + x),
  append_payload (p * 64 + x) (128 + y),
  append_payload ((p * 64 + x) * 64 + y) (128 + z),
)

-- What `append_code_point` appends for a scalar value decodes to that value, whatever follows,
-- and the decoder counts the appended bytes.
pub decode_one-encode :
    (v : ℕ) (rest : Bytes)
    → is_scalar_value v ≡ true
    → decode_one (encode v ++ rest) ≡ some (record { value = v; byte_count = length (encode v) })
unfolding is_scalar_value accept decode_one
decode_one-encode v rest h = ground (
  arith,
  encode_lem v,
  decode-two (v / 64) (v % 64) rest,
  decode-three (v / 4096) (v / 64 % 64) (v % 64) rest,
  decode-four (v / 262144) (v / 4096 % 64) (v / 64 % 64) (v % 64) rest,
)
