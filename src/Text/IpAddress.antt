-- ===== src/Text/IpAddress.antt =====
-- Numeric addresses: src/foundation/text/numeric_ip_address.cpp, with
-- include/sparenode/foundation/text/hexadecimal.hpp.
use Prim.Native.Nat.{bit_or}
use spare_node.Base.{
  ℕ, zero, suc, ◌+◌, ◌-◌, ◌*◌, ◌/◌, ◌%◌, ◌^◌, Bool, true, false, not, ◌&&◌, ◌||◌, List, [], ◌∷◌,
  ◌++◌, Option, none, some, Bytes, ltb, leb, ◌==◌, within, if◌then◌else◌, length, take, drop, all,
  any, codes,
}
use spare_node.Base.Views.{find_byte, find_text, prefix_to, front, passes}

pub record NumericAddress : Type 0 where
  pub bytes : Bytes
  pub ipv4 : Bool

-- `hexadecimal::digit_value`.
unfoldable pub digit_value : ℕ → Option ℕ
digit_value character =
    if within b'0' b'9' character
    then some (character - b'0')
    else if within b'A' b'F' character
    then some (character - b'A' + 10)
    else if within b'a' b'f' character
    then some (character - b'a' + 10)
    else none

-- The loop over the digits of an octet.
unfoldable pub decimal_number : ℕ → Bytes → Option ℕ
decimal_number number [] = some number
decimal_number number (digit ∷ component) =
    let rest = decimal_number (number * 10 + (digit - b'0')) component in
    if within b'0' b'9' digit then rest else none

-- One component of a dotted-decimal address.
unfoldable pub octet : Bytes → Option ℕ
unfolding decimal_number
octet component =
    if length component == 0
      || ltb 3 (length component)
      || (ltb 1 (length component) && passes (λ b. b == b'0') (front component))
    then none
    else elim (decimal_number 0 component) [
      | none ↦ none
      | some number ↦ if ltb 255 number then none else some number
    ]

-- The loop of `parse_ipv4` from a component on, which `later` others are to follow.
unfoldable pub octets : ℕ → Bytes → Option Bytes
unfolding octet find_byte prefix_to
octets zero text = elim (octet (prefix_to (find_byte b'.' text) text)) [
  | none ↦ none
  | some number ↦ elim (find_byte b'.' text) [ none ↦ some (number ∷ []) | some _ ↦ none ]
]
octets (suc later) text = elim (octet (prefix_to (find_byte b'.' text) text)) [
  | none ↦ none
  | some number ↦ elim (find_byte b'.' text) [
    | none ↦ none
    | some end ↦ elim (octets later (drop (suc end) text)) [
      | none ↦ none
      | some numbers ↦ some (number ∷ numbers)
    ]
  ]
]

unfoldable pub parse_ipv4 : Bytes → Option Bytes
unfolding octets
parse_ipv4 value = octets 3 value

-- The loop over the digits of an IPv6 word.
unfoldable pub word_from : ℕ → Bytes → Option ℕ
unfolding digit_value
word_from word [] = some word
word_from word (digit ∷ value) = elim (digit_value digit) [
  | none ↦ none
  | some nibble ↦ word_from (bit_or (word * 16) nibble % 2 ^ 16) value
]

unfoldable pub parse_ipv6_word : Bytes → Option ℕ
unfolding word_from
parse_ipv6_word value =
    if length value == 0 || ltb 4 (length value) then none else word_from 0 value

-- A component with a dot: the last one, where an IPv4 tail is allowed. `words` are those so far.
unfoldable pub ipv4_tail : Bytes → Bool → List ℕ → Option (List ℕ)
unfolding parse_ipv4
ipv4_tail component allowed words = if not allowed then none else elim (parse_ipv4 component) [
  | some (a ∷ b ∷ c ∷ d ∷ []) ↦
      if ltb 6 (length words) then none else some (words ++ (a * 256 + b) ∷ (c * 256 + d) ∷ [])
  | _ ↦ none
]

-- The loop of `append_ipv6_words`; a round consumes a colon, so the length of the sequence and one
-- more is fuel enough.
unfoldable pub words_from : ℕ → Bytes → List ℕ → Bool → Option (List ℕ)
unfolding find_byte prefix_to ipv4_tail parse_ipv6_word
words_from zero sequence words allow_ipv4_tail = none
words_from (suc fuel) sequence words allow_ipv4_tail =
    let end = find_byte b':' sequence in
    let component = prefix_to end sequence in
    if any (λ b. b == b'.') component
    then elim end [ none ↦ ipv4_tail component allow_ipv4_tail words | some _ ↦ none ]
    else elim (parse_ipv6_word component) [
      | none ↦ none
      | some word ↦ if length words == 8 then none else elim end [
        | none ↦ some (words ++ word ∷ [])
        | some position ↦
            words_from fuel (drop (suc position) sequence) (words ++ word ∷ []) allow_ipv4_tail
      ]
    ]

unfoldable pub append_ipv6_words : Bytes → Bool → Option (List ℕ)
unfolding words_from
append_ipv6_words [] allow_ipv4_tail = some []
append_ipv6_words (x ∷ sequence) allow_ipv4_tail =
    words_from (suc (length (x ∷ sequence))) (x ∷ sequence) [] allow_ipv4_tail

unfoldable pub word_bytes : List ℕ → Bytes
word_bytes [] = []
word_bytes (word ∷ words) = word / 256 % 256 ∷ word % 256 ∷ word_bytes words

unfoldable pub zeros : ℕ → Bytes
zeros zero = []
zeros (suc n) = 0 ∷ zeros n

-- The bytes of the words on the two sides of a compression marker, zeros between them.
unfoldable pub address_of : Bool → List ℕ → List ℕ → Option NumericAddress
unfolding word_bytes zeros
address_of compressed left right =
    let word_count = length left + length right in
    if (not compressed && not (word_count == 8)) || (compressed && leb 8 word_count)
    then none
    else some (record {
      bytes = word_bytes left ++ (zeros (2 * (8 - word_count)) ++ word_bytes right);
      ipv4 = false;
    })

-- The two sides read, the left one first.
unfoldable pub sides : Bool → Bytes → Bytes → Option NumericAddress
unfolding append_ipv6_words address_of
sides compressed left_text right_text = elim (append_ipv6_words left_text (not compressed)) [
  | none ↦ none
  | some left ↦ elim (append_ipv6_words right_text true) [
    | none ↦ none
    | some right ↦ address_of compressed left right
  ]
]

unfoldable pub parse_ipv6 : Bytes → Option NumericAddress
unfolding find_text sides
parse_ipv6 value = elim (find_text (codes "::") value) [
  | none ↦ sides false value []
  | some compression ↦ elim (find_text (codes "::") (drop (compression + 2) value)) [
    | some _ ↦ none
    | none ↦ sides true (take compression value) (drop (compression + 2) value)
  ]
]

unfoldable pub parse_numeric_address : Bytes → Option NumericAddress
unfolding parse_ipv4 parse_ipv6 zeros
parse_numeric_address value = elim (parse_ipv4 value) [
  | some ipv4 ↦ some (record { bytes = ipv4 ++ zeros 12; ipv4 = true })
  | none ↦ parse_ipv6 value
]

unfoldable pub is_valid_ipv4_address : Bytes → Bool
unfolding parse_ipv4
is_valid_ipv4_address value = elim (parse_ipv4 value) [ none ↦ false | some _ ↦ true ]

unfoldable pub is_valid_ipv6_address : Bytes → Bool
unfolding parse_numeric_address
is_valid_ipv6_address value = elim (parse_numeric_address value) [
  | none ↦ false
  | some parsed ↦ not parsed.ipv4
]

abbrev pub is_zero : ℕ → Bool
is_zero byte = byte == 0

unfoldable pub is_loopback_address : NumericAddress → Bool
is_loopback_address address =
    if address.ipv4
    then passes (λ b. b == 127) (front address.bytes)
    else all is_zero (take 15 address.bytes) && passes (λ b. b == 1) (front (drop 15 address.bytes))

unfoldable pub is_ipv4_mapped_address : NumericAddress → Bool
is_ipv4_mapped_address address =
    not address.ipv4
    && all is_zero (take 10 address.bytes)
    && passes (λ b. b == 0xFF) (front (drop 10 address.bytes))
    && passes (λ b. b == 0xFF) (front (drop 11 address.bytes))

unfoldable pub is_unspecified_address : NumericAddress → Bool
unfolding is_ipv4_mapped_address
is_unspecified_address address =
    let mapped = is_ipv4_mapped_address address in
    let begin = if mapped then drop 12 address.bytes else address.bytes in
    all is_zero (if address.ipv4 || mapped then take 4 begin else begin)
