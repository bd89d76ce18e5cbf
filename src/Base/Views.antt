-- ===== src/Base/Views.antt =====
-- The `std::string_view` operations of the source.
use spare_node.Base.{
  ℕ, suc, ◌+◌, ◌-◌, Bool, true, false, ◌&&◌, [], ◌∷◌, Option, none, some, Bytes, leb, ◌==◌,
  if◌then◌else◌, length, take, drop, bytes_eq,
}

-- `find` of one byte: its first position.
unfoldable pub find_byte : ℕ → Bytes → Option ℕ
find_byte byte [] = none
find_byte byte (x ∷ text) =
    if x == byte then some 0 else elim (find_byte byte text) [ none ↦ none | some i ↦ some (suc i) ]

-- `substr(0, position)`, where no position is `npos`.
unfoldable pub prefix_to : Option ℕ → Bytes → Bytes
prefix_to none text = text
prefix_to (some i) text = take i text

unfoldable pub starts_with : Bytes → Bytes → Bool
starts_with [] text = true
starts_with (p ∷ prefix) [] = false
starts_with (p ∷ prefix) (x ∷ text) = x == p && starts_with prefix text

unfoldable pub ends_with : Bytes → Bytes → Bool
ends_with suffix text =
    leb (length suffix) (length text) && bytes_eq (drop (length text - length suffix) text) suffix

-- `find` of one byte from a position on.
unfoldable pub find_byte_from : ℕ → ℕ → Bytes → Option ℕ
unfolding find_byte
find_byte_from byte position text = elim (find_byte byte (drop position text)) [
  | none ↦ none
  | some i ↦ some (position + i)
]

-- `find` of a text: its first position.
unfoldable pub find_text : Bytes → Bytes → Option ℕ
unfolding starts_with
find_text needle [] = if length needle == 0 then some 0 else none
find_text needle (x ∷ text) =
    let rest = find_text needle text in
    if starts_with needle (x ∷ text)
    then some 0
    else elim rest [ none ↦ none | some i ↦ some (suc i) ]

-- `front` and `back`.
abbrev pub front : Bytes → Option ℕ
front [] = none
front (x ∷ text) = some x

unfoldable pub back : Bytes → Option ℕ
back [] = none
back (x ∷ []) = some x
back (x ∷ y ∷ text) = back (y ∷ text)

-- Whether a byte is there and passes the test.
abbrev pub passes : (ℕ → Bool) → Option ℕ → Bool
passes test none = false
passes test (some byte) = test byte
