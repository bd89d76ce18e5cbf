-- ===== src/Text/Utf8.antt =====
-- src/foundation/text/utf8.cpp. A `std::uint32_t` shift is taken modulo 2 ^ 32 and a byte cast
-- modulo 256.
pub mod Arithmetic
pub mod RoundTrip
pub mod Sound
pub mod Valid
use Prim.Native.Nat.{bit_and, bit_or}
use spare_node.Base.{
  ℕ, zero, suc, ◌+◌, ◌-◌, ◌*◌, ◌/◌, ◌%◌, ◌^◌, Bool, true, false, not, ◌&&◌, ◌||◌, List, [], ◌∷◌,
  ◌++◌, Option, none, some, Bytes, leb, ltb, ◌==◌, if◌then◌else◌, length, drop,
}

-- `DecodedScalar`.
pub record DecodedScalar : Type 0 where
  pub value : ℕ
  pub byte_count : ℕ

unfoldable pub is_scalar_value : ℕ → Bool
is_scalar_value code_point =
    leb code_point 0x10FFFF && (ltb code_point 0xD800 || ltb 0xDFFF code_point)

-- What the leading byte selects: `length`, the payload bits `code_point`, and `minimum`.
pub record Shape : Type 0 where
  pub length : ℕ
  pub code_point : ℕ
  pub minimum : ℕ

unfoldable pub shape_of : ℕ → Option Shape
shape_of leading_byte =
    if bit_and leading_byte 0xE0 == 0xC0
    then some (record { length = 2; code_point = bit_and leading_byte 0x1F; minimum = 0x80 })
    else if bit_and leading_byte 0xF0 == 0xE0
    then some (record { length = 3; code_point = bit_and leading_byte 0x0F; minimum = 0x800 })
    else if bit_and leading_byte 0xF8 == 0xF0
    then some (record { length = 4; code_point = bit_and leading_byte 0x07; minimum = 0x10000 })
    else none

-- The loop over the continuation bytes; the caller has checked that there are enough of them.
unfoldable pub continuations : ℕ → ℕ → Bytes → Option ℕ
continuations zero code_point input = some code_point
continuations (suc n) code_point [] = none
continuations (suc n) code_point (byte ∷ input) =
    let rest = continuations n (bit_or (code_point * 64 % 2 ^ 32) (bit_and byte 0x3F)) input in
    if bit_and byte 0xC0 == 0x80 then rest else none

-- The end of `decode_one`: the bounds on the decoded value.
unfoldable pub accept : Shape → Option ℕ → Option DecodedScalar
unfolding is_scalar_value
accept s none = none
accept s (some code_point) =
    if ltb code_point s.minimum || not (is_scalar_value code_point)
    then none
    else some (record { value = code_point; byte_count = s.length })

-- `decode_one` from the shape on; `input` still has its leading byte.
unfoldable pub decode_shape : Option Shape → ℕ → Bytes → Option DecodedScalar
unfolding accept continuations
decode_shape none leading_byte rest = none
decode_shape (some s) leading_byte rest =
    if ltb (length (leading_byte ∷ rest)) s.length
    then none
    else accept s (continuations (s.length - 1) s.code_point rest)

unfoldable pub decode_one : Bytes → Option DecodedScalar
unfolding decode_shape
decode_one [] = none
decode_one (leading_byte ∷ rest) =
    if ltb leading_byte 0x80
    then some (record { value = leading_byte; byte_count = 1 })
    else decode_shape (shape_of leading_byte) leading_byte rest

-- The loop of `is_valid`, on the input from `index` on: at most one round for each byte.
unfoldable pub valid_from : ℕ → Bytes → Bool
valid_from zero [] = true
valid_from zero (byte ∷ input) = false
valid_from (suc fuel) [] = true
valid_from (suc fuel) (byte ∷ input) = elim (decode_one (byte ∷ input)) [
  | none ↦ false
  | some scalar ↦ valid_from fuel (drop scalar.byte_count (byte ∷ input))
]

unfoldable pub is_valid : Bytes → Bool
unfolding valid_from
is_valid input = valid_from (length input) input

-- `static_cast<char>(pattern | payload)`.
unfoldable pub lead_byte : ℕ → ℕ → ℕ
lead_byte pattern_bits payload = bit_or pattern_bits payload % 256

-- `static_cast<char>(continuation_pattern | (payload & continuation_payload_mask))`.
unfoldable pub continuation_byte : ℕ → ℕ
continuation_byte payload = bit_or 0x80 (bit_and payload 0x3F) % 256

-- The bytes that `append_code_point` appends.
unfoldable pub encode : ℕ → Bytes
unfolding lead_byte continuation_byte
encode value =
    if ltb value 0x80
    then value % 256 ∷ []
    else if ltb value 0x800
    then lead_byte 0xC0 (value / 2 ^ 6) ∷ continuation_byte value ∷ []
    else if ltb value 0x10000
    then lead_byte 0xE0 (value / 2 ^ 12)
      ∷ continuation_byte (value / 2 ^ 6)
      ∷ continuation_byte value
      ∷ []
    else lead_byte 0xF0 (value / 2 ^ 18)
      ∷ continuation_byte (value / 2 ^ 12)
      ∷ continuation_byte (value / 2 ^ 6)
      ∷ continuation_byte value
      ∷ []

unfoldable pub append_code_point : Bytes → ℕ → Bytes × Bool
unfolding encode is_scalar_value
append_code_point output code_point =
    if not (is_scalar_value code_point)
    then (output, false)
    else (output ++ encode code_point, true)
