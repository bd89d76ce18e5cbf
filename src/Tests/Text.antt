-- ===== src/Tests/Text.antt =====
-- UTF-8 on the euro sign.
use spare_node.Base.{true, [], ◌∷◌, ◌++◌, some, ◌≡◌, ◌↔◌, refl, arith, Bytes, length, All}
use spare_node.Text.Utf8.{is_scalar_value, decode_one, is_valid, encode}
use spare_node.Text.Utf8.RoundTrip.{IsByte, decode_one-encode}
use spare_node.Text.Utf8.Valid.{IsScalars, is_valid_iff}

abbrev euro : Bytes
euro = 0xE2 ∷ 0x82 ∷ 0xAC ∷ []

abbrev euro_bytes : All IsByte euro
euro_bytes = (omega arith, (omega arith, (omega arith, tt)))

is_valid_iff_example : (is_valid euro ≡ true) ↔ IsScalars euro
is_valid_iff_example = is_valid_iff euro euro_bytes

decode_one-encode_example :
    decode_one (encode 0x20AC ++ 65 ∷ [])
    ≡ some (record { value = 0x20AC; byte_count = length (encode 0x20AC) })
unfolding is_scalar_value
decode_one-encode_example = decode_one-encode 0x20AC (65 ∷ []) refl
