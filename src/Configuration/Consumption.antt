-- ===== src/Configuration/Consumption.antt =====
-- src/configuration/config_lexer.cpp: a call of the lexer leaves no more of the input, and less when it reads a token.
use spare_node.Base.{
  ℕ, zero, suc, ◌≤◌, ◌<◌, Bool, [], ◌∷◌, some, Bytes, ok, ◌≡◌, ◌⊎◌, ◌||◌, refl, inl, inr, subst, ap,
  ◌∙◌, arith, Bool-cases, Option-cases, Result-cases, ◌==◌, length, length-drop,
}
use spare_node.Base.Views.{front, passes}
use spare_node.Configuration.Lexer.{
  Cursor, advance_ascii, advance_utf8, advance_over, utf8_sequence_length, comment_character,
  is_line_break, in_comment, comment_from, trivia_at, trivia, trivia_from,
}
use spare_node.Configuration.Tokens.{
  advance_while, escaped_byte, escape_at, consume_escape, consume_string_character, in_string,
  string_from, next,
}

-- How much of the input is left.
abbrev pub left : Cursor → ℕ
left c = length c.rest

pub rest-cases : (xs : Bytes) → (xs ≡ []) ⊎ ((byte : ℕ) × (rest : Bytes) × (xs ≡ byte ∷ rest))
rest-cases [] = inl refl
rest-cases (byte ∷ rest) = inr (byte, rest, refl)

pub advance_ascii_less :
    (c : Cursor) (byte : ℕ) (rest : Bytes) → c.rest ≡ byte ∷ rest → left (advance_ascii c) < left c
unfolding advance_ascii
advance_ascii_less c byte rest h =
    let two = length-drop 2 c.rest in let one = length-drop 1 c.rest in ground (arith, h, two, one)

pub advance_ascii_le : (c : Cursor) → left (advance_ascii c) ≤ left c
unfolding advance_ascii
advance_ascii_le c = elim (rest-cases c.rest) [
  | inl h ↦ rw h (omega arith)
  | inr (byte, rest, h) ↦ omega (arith, advance_ascii_less c byte rest h)
]

advance_utf8_le : (n : ℕ) (c : Cursor) → left (advance_utf8 n c) ≤ left c
unfolding advance_utf8
advance_utf8_le n c = omega (arith, length-drop n c.rest)

advance_over_le : (n : ℕ) (c : Cursor) → left (advance_over n c) ≤ left c
advance_over_le n c =
    let ascii = advance_ascii_le c in
    let utf8 = advance_utf8_le n c in
    elim (Bool-cases (n == 1)) [ inl h ↦ rw h ascii | inr h ↦ rw h utf8 ]

pub advance_while_le :
    (test : ℕ → Bool) (fuel : ℕ) (c : Cursor) → left (advance_while test fuel c) ≤ left c
unfolding advance_while
advance_while_le test zero c = omega arith
advance_while_le test (suc fuel) c = elim (Bool-cases (passes test (front c.rest))) [
  | inr h ↦ rw (advance_while, h) (omega arith)
  | inl h ↦
      rw (advance_while, h)
        (omega (arith, advance_ascii_le c, advance_while_le test fuel (advance_ascii c)))
]

comment_character_le :
    (byte : ℕ) (c next : Cursor) → comment_character byte c ≡ ok next → left next ≤ left c
unfolding comment_character
comment_character_le byte c next h =
    let over = advance_over_le (utf8_sequence_length c) c in
    let same : advance_over (utf8_sequence_length c) c ≡ next = ground (arith, h) in
    subst (λ (later : Cursor). left later ≤ left c) same over

comment_from_le : (fuel : ℕ) (c next : Cursor) → comment_from fuel c ≡ ok next → left next ≤ left c
unfolding comment_from
comment_from_le zero c next h = ground (arith, h)
comment_from_le (suc fuel) c next h = elim (Option-cases (in_comment c.rest)) [
  | inl out ↦ ground (arith, h, out)
  | inr (byte, within) ↦ elim (Result-cases (comment_character byte c)) [
    | inr (e, failed) ↦ absurd (ground (arith, h, within, failed))
    | inl (later, read) ↦
        let one = comment_character_le byte c later read in
        let more = comment_from_le fuel later next (ground (arith, h, within, read)) in
        omega (arith, one, more)
  ]
]

trivia_at_le : (byte : ℕ) (c next : Cursor) → trivia_at byte c ≡ some (ok next) → left next ≤ left c
unfolding trivia_at
trivia_at_le byte c next h = elim (Bool-cases (byte == 32 || (byte == 9 || is_line_break byte))) [
  | inl blank ↦
      let same : advance_ascii c ≡ next = ground (arith, h, blank) in
      subst (λ (later : Cursor). left later ≤ left c) same (advance_ascii_le c)
  | inr other ↦ elim (Bool-cases (byte == 35)) [
    | inr token ↦ absurd (ground (arith, h, other, token))
    | inl comment ↦
        let read : comment_from (left c) (advance_ascii c) ≡ ok next =
          ground (arith, h, other, comment) in
        omega (arith, comment_from_le (left c) (advance_ascii c) next read, advance_ascii_le c)
  ]
]

trivia_le : (c next : Cursor) → trivia c ≡ some (ok next) → left next ≤ left c
trivia_le c next h = elim (Option-cases (front c.rest)) [
  | inl out ↦ absurd (ground (arith, h, out))
  | inr (byte, at) ↦ trivia_at_le byte c next (ground (arith, h, at))
]

pub trivia_from_le :
    (fuel : ℕ) (c next : Cursor) → trivia_from fuel c ≡ ok next → left next ≤ left c
unfolding trivia_from
trivia_from_le zero c next h = ground (arith, h)
trivia_from_le (suc fuel) c next h = elim (Option-cases (trivia c)) [
  | inl out ↦ ground (arith, h, out)
  | inr (r, within) ↦ elim (Result-cases r) [
    | inr (e, failed) ↦ absurd (ground (arith, h, within, failed))
    | inl (later, read) ↦
        let one = trivia_le c later (within ∙ ap some read) in
        let more = trivia_from_le fuel later next (ground (arith, h, within, read)) in
        omega (arith, one, more)
  ]
]

escape_at_le :
    (byte : ℕ) (decoded more : Bytes) (escape c next : Cursor)
    → escape_at byte decoded escape c ≡ ok (more, next)
    → left next ≤ left c
unfolding escape_at
escape_at_le byte decoded more escape c next h = elim (Option-cases (escaped_byte byte)) [
  | inl out ↦ absurd (ground (arith, h, out))
  | inr (value, read) ↦
      let same : advance_ascii c ≡ next = ground (arith, h, read) in
      subst (λ (later : Cursor). left later ≤ left c) same (advance_ascii_le c)
]

consume_escape_le :
    (decoded more : Bytes) (c next : Cursor)
    → consume_escape decoded c ≡ ok (more, next)
    → left next ≤ left c
unfolding consume_escape
consume_escape_le decoded more c next h = elim (Option-cases (front (advance_ascii c).rest)) [
  | inl out ↦ absurd (ground (arith, h, out))
  | inr (byte, at) ↦
      let read : escape_at byte decoded c (advance_ascii c) ≡ ok (more, next) =
        ground (arith, h, at) in
      omega
        (arith, escape_at_le byte decoded more c (advance_ascii c) next read, advance_ascii_le c)
]

consume_string_character_le :
    (byte : ℕ) (decoded more : Bytes) (c next : Cursor)
    → consume_string_character byte decoded c ≡ ok (more, next)
    → left next ≤ left c
unfolding consume_string_character
consume_string_character_le byte decoded more c next h = elim (Bool-cases (byte == 92)) [
  | inl escape ↦ consume_escape_le decoded more c next (ground (arith, h, escape))
  | inr plain ↦
      let over = advance_over_le (utf8_sequence_length c) c in
      let same : advance_over (utf8_sequence_length c) c ≡ next = ground (arith, h, plain) in
      subst (λ (later : Cursor). left later ≤ left c) same over
]

pub string_from_le :
    (fuel : ℕ) (decoded more : Bytes) (c next : Cursor)
    → string_from fuel decoded c ≡ ok (more, next)
    → left next ≤ left c
unfolding string_from
string_from_le zero decoded more c next h = ground (arith, h)
string_from_le (suc fuel) decoded more c next h = elim (Option-cases (in_string c.rest)) [
  | inl out ↦ ground (arith, h, out)
  | inr (byte, within) ↦ elim (Result-cases (consume_string_character byte decoded c)) [
    | inr (e, failed) ↦ absurd (ground (arith, h, within, failed))
    | inl ((longer, later), read) ↦
        let one = consume_string_character_le byte decoded longer c later read in
        let rest = string_from_le fuel longer more later next (ground (arith, h, within, read)) in
        omega (arith, one, rest)
  ]
]
