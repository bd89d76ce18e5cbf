-- ===== src/Text/Utf8/Arithmetic.antt =====
-- The masks of UTF-8 as ranges, quotients and remainders.
use Prim.Native.Nat.{bit_and, bit_or}
use spare_node.Base.{
  ℕ, ◌+◌, ◌*◌, ◌/◌, ◌%◌, ◌^◌, ◌<◌, [], ◌∷◌, ◌≡◌, refl, arith, ◌==◌, ltb, within, if◌then◌else◌,
  none, some,
}
use spare_node.Base.Bits.{holds_below, agree_below, tests_agree_below, bit_or_six, bit_and_six}
use spare_node.Text.Utf8.{shape_of, lead_byte, continuation_byte, encode}

pub lead_byte_two : (p : ℕ) → p < 32 → lead_byte 0xC0 p ≡ 192 + p
unfolding lead_byte holds_below
lead_byte_two p h = agree_below 32 (lead_byte 0xC0) (λ p. 192 + p) p refl h

pub lead_byte_three : (p : ℕ) → p < 16 → lead_byte 0xE0 p ≡ 224 + p
unfolding lead_byte holds_below
lead_byte_three p h = agree_below 16 (lead_byte 0xE0) (λ p. 224 + p) p refl h

pub lead_byte_four : (p : ℕ) → p < 8 → lead_byte 0xF0 p ≡ 240 + p
unfolding lead_byte holds_below
lead_byte_four p h = agree_below 8 (lead_byte 0xF0) (λ p. 240 + p) p refl h

pub continuation_byte_lem : (p : ℕ) → continuation_byte p ≡ 128 + p % 64
unfolding continuation_byte
continuation_byte_lem p = rw (bit_and_six p, bit_or_six 2 (p % 64) (omega arith)) (omega arith)

-- The encoding without masks.
pub encode_lem :
    (v : ℕ)
    → v < 0x110000
    → encode v ≡ (
        if ltb v 0x80
        then v ∷ []
        else if ltb v 0x800
        then (192 + v / 64) ∷ (128 + v % 64) ∷ []
        else if ltb v 0x10000
        then (224 + v / 4096) ∷ (128 + v / 64 % 64) ∷ (128 + v % 64) ∷ []
        else (240 + v / 262144) ∷ (128 + v / 4096 % 64) ∷ (128 + v / 64 % 64) ∷ (128 + v % 64) ∷ [])
unfolding encode
encode_lem v h = ground (
  arith,
  lead_byte_two (v / 64),
  lead_byte_three (v / 4096),
  lead_byte_four (v / 262144),
  continuation_byte_lem v,
  continuation_byte_lem (v / 64),
  continuation_byte_lem (v / 4096),
)

is_lead_two : (b : ℕ) → b < 256 → (bit_and b 0xE0 == 0xC0) ≡ within 192 223 b
unfolding holds_below
is_lead_two b h = tests_agree_below 256 (λ b. bit_and b 0xE0 == 0xC0) (within 192 223) b refl h

is_lead_three : (b : ℕ) → b < 256 → (bit_and b 0xF0 == 0xE0) ≡ within 224 239 b
unfolding holds_below
is_lead_three b h = tests_agree_below 256 (λ b. bit_and b 0xF0 == 0xE0) (within 224 239) b refl h

is_lead_four : (b : ℕ) → b < 256 → (bit_and b 0xF8 == 0xF0) ≡ within 240 247 b
unfolding holds_below
is_lead_four b h = tests_agree_below 256 (λ b. bit_and b 0xF8 == 0xF0) (within 240 247) b refl h

pub is_continuation : (b : ℕ) → b < 256 → (bit_and b 0xC0 == 0x80) ≡ within 128 191 b
unfolding holds_below
is_continuation b h = tests_agree_below 256 (λ b. bit_and b 0xC0 == 0x80) (within 128 191) b refl h

payload_two : (b : ℕ) → b < 256 → bit_and b 0x1F ≡ b % 32
unfolding holds_below
payload_two b h = agree_below 256 (λ b. bit_and b 0x1F) (λ b. b % 32) b refl h

payload_three : (b : ℕ) → b < 256 → bit_and b 0x0F ≡ b % 16
unfolding holds_below
payload_three b h = agree_below 256 (λ b. bit_and b 0x0F) (λ b. b % 16) b refl h

payload_four : (b : ℕ) → b < 256 → bit_and b 0x07 ≡ b % 8
unfolding holds_below
payload_four b h = agree_below 256 (λ b. bit_and b 0x07) (λ b. b % 8) b refl h

-- The shape without masks.
pub shape_of_lem :
    (b : ℕ)
    → b < 256
    → shape_of b ≡ (
        if within 192 223 b
        then some (record { length = 2; code_point = b % 32; minimum = 0x80 })
        else if within 224 239 b
        then some (record { length = 3; code_point = b % 16; minimum = 0x800 })
        else if within 240 247 b
        then some (record { length = 4; code_point = b % 8; minimum = 0x10000 })
        else none)
unfolding shape_of
shape_of_lem b h = rw (
  is_lead_two b h,
  is_lead_three b h,
  is_lead_four b h,
  payload_two b h,
  payload_three b h,
  payload_four b h,
)

-- One continuation byte appended to the value.
pub append_payload :
    (v b : ℕ) → v < 0x8000 → bit_or (v * 64 % 2 ^ 32) (bit_and b 0x3F) ≡ v * 64 + b % 64
append_payload v b h = ground (arith, bit_and_six b, bit_or_six v (b % 64))
