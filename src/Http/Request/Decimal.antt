-- ===== src/Http/Request/Decimal.antt =====
-- `std::from_chars` in base ten.
use spare_node.Base.{ℕ, ◌+◌, ◌-◌, ◌*◌, not, [], ◌∷◌, Option, none, some, Bytes, ltb, if◌then◌else◌}
use spare_node.Http.Ascii.{is_ascii_digit}

-- The longest prefix of digits, as a number, and what follows it.
unfoldable pub decimal_digits : ℕ → Bytes → ℕ × Bytes
unfolding is_ascii_digit
decimal_digits value [] = (value, [])
decimal_digits value (x ∷ xs) =
    let rest = decimal_digits (value * 10 + (x - b'0')) xs in
    if is_ascii_digit x then rest else (value, x ∷ xs)

-- None if there is no digit or the value is above the largest one of its type.
unfoldable pub from_chars : ℕ → Bytes → Option (ℕ × Bytes)
unfolding decimal_digits
from_chars largest [] = none
from_chars largest (x ∷ xs) =
    if not (is_ascii_digit x)
    then none
    else if ltb largest (decimal_digits 0 (x ∷ xs)).0
    then none
    else some (decimal_digits 0 (x ∷ xs))

-- A conversion that takes the whole text.
unfoldable pub whole_number : ℕ → Bytes → Option ℕ
unfolding from_chars
whole_number largest text = elim (from_chars largest text) [
  | some (value, []) ↦ some value
  | _ ↦ none
]
