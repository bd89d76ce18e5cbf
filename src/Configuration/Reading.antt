-- ===== src/Configuration/Reading.antt =====
-- A call of the lexer that reads a token consumes some of the input: src/configuration/config_lexer.cpp.
use spare_node.Base.{
  ℕ, ◌<◌, false, [], ◌∷◌, none, Bytes, ok, ◌≡◌, ◌⊎◌, ◌||◌, refl, sym, inl, inr, subst, ap, ◌∙◌,
  arith, Bool-cases, Result-cases, ◌==◌, bytes_eq, codes,
}
use spare_node.Configuration.Syntax.{
  TokenKind, end_of_input, left_brace, right_brace, semicolon, Token,
}
use spare_node.Configuration.Lexer.{
  Cursor, advance_ascii, is_identifier_start, is_digit, is_identifier_continuation, skip_trivia,
}
use spare_node.Configuration.Tokens.{
  keyword_kind, lex_identifier, lex_integer, string_from, lex_string, lex_punctuation,
  token_between, token_at, read_token,
}
use spare_node.Configuration.Consumption.{
  left, rest-cases, advance_ascii_less, advance_ascii_le, advance_while_le, string_from_le,
  trivia_from_le,
}
use spare_node.Configuration.Parser.{same_kind}

abbrev pub IsRead : Cursor → Token → Cursor → Type 0
IsRead c token later = (left later < left c) × (same_kind token.kind end_of_input ≡ false)

keyword_kind-same_kind : (lexeme : Bytes) → same_kind (keyword_kind lexeme) end_of_input ≡ false
keyword_kind-same_kind lexeme =
    elim (Bool-cases (bytes_eq lexeme (codes "true") || bytes_eq lexeme (codes "false"))) [
      | inl h ↦ rw h refl
      | inr h ↦ rw h refl
    ]

lex_identifier-IsRead :
    (c : Cursor) (byte : ℕ) (rest : Bytes)
    → c.rest ≡ byte ∷ rest
    → IsRead c (lex_identifier c).0 (lex_identifier c).1
unfolding lex_identifier
lex_identifier-IsRead c byte rest h = (
  omega (
    arith,
    advance_while_le is_identifier_continuation (left c) (advance_ascii c),
    advance_ascii_less c byte rest h,
  ),
  keyword_kind-same_kind _,
)

lex_integer-IsRead :
    (c : Cursor) (byte : ℕ) (rest : Bytes)
    → c.rest ≡ byte ∷ rest
    → IsRead c (lex_integer c).0 (lex_integer c).1
unfolding lex_integer
lex_integer-IsRead c byte rest h = (
  omega (
    arith,
    advance_while_le is_digit (left c) (advance_ascii c),
    advance_ascii_less c byte rest h,
  ),
  refl,
)

lex_string-IsRead :
    (c later : Cursor) (token : Token) (byte : ℕ) (rest : Bytes)
    → c.rest ≡ byte ∷ rest
    → lex_string c ≡ ok (token, later)
    → IsRead c token later
unfolding lex_string
lex_string-IsRead c later token byte rest h k =
    elim (Result-cases (string_from (left c) [] (advance_ascii c))) [
      | inr (e, failed) ↦ absurd (ground (arith, k, failed))
      | inl ((decoded, at_quote), read) ↦
          let same : advance_ascii at_quote ≡ later = ground (arith, k, read) in
          let kinds : same_kind token.kind end_of_input ≡ false = ground (arith, k, read) in
          let less = advance_ascii_less c byte rest h in
          let inside = string_from_le (left c) [] decoded (advance_ascii c) at_quote read in
          let quote = advance_ascii_le at_quote in
          (subst (λ (x : Cursor). left x < left c) same (omega (arith, less, inside, quote)), kinds)
    ]

lex_punctuation-IsRead :
    (kind : TokenKind) (c : Cursor) (byte : ℕ) (rest : Bytes)
    → same_kind kind end_of_input ≡ false
    → c.rest ≡ byte ∷ rest
    → IsRead c (lex_punctuation kind c).0 (lex_punctuation kind c).1
unfolding lex_punctuation
lex_punctuation-IsRead kind c byte rest other h = (advance_ascii_less c byte rest h, other)

-- A token read without fail.
carried-IsRead :
    (c later : Cursor) (token : Token) (p : Token × Cursor)
    → IsRead c p.0 p.1
    → p ≡ (token, later)
    → IsRead c token later
carried-IsRead c later token p h k = subst (λ (q : Token × Cursor). IsRead c q.0 q.1) k h

punctuation_at-IsRead :
    (c later : Cursor) (token : Token) (byte : ℕ) (rest : Bytes)
    → c.rest ≡ byte ∷ rest
    → is_identifier_start byte ≡ false
    → is_digit byte ≡ false
    → (byte == 34) ≡ false
    → token_at byte c ≡ ok (token, later)
    → IsRead c token later
unfolding token_at
punctuation_at-IsRead c later token byte rest h start digit quote k =
    elim (Bool-cases (byte == 123)) [
      | inl opens ↦
          carried-IsRead c later token (lex_punctuation left_brace c)
            (lex_punctuation-IsRead left_brace c byte rest refl h)
            (ground (arith, k, start, digit, quote, opens))
      | inr other ↦ elim (Bool-cases (byte == 125)) [
        | inl closes ↦
            carried-IsRead c later token (lex_punctuation right_brace c)
              (lex_punctuation-IsRead right_brace c byte rest refl h)
              (ground (arith, k, start, digit, quote, other, closes))
        | inr no_brace ↦ elim (Bool-cases (byte == 59)) [
          | inl ends ↦
              carried-IsRead c later token (lex_punctuation semicolon c)
                (lex_punctuation-IsRead semicolon c byte rest refl h)
                (ground (arith, k, start, digit, quote, other, no_brace, ends))
          | inr failed ↦ absurd (ground (arith, k, start, digit, quote, other, no_brace, failed))
        ]
      ]
    ]

token_at-IsRead :
    (c later : Cursor) (token : Token) (byte : ℕ) (rest : Bytes)
    → c.rest ≡ byte ∷ rest
    → token_at byte c ≡ ok (token, later)
    → IsRead c token later
unfolding token_at
token_at-IsRead c later token byte rest h k = elim (Bool-cases (is_identifier_start byte)) [
  | inl start ↦
      carried-IsRead c later token (lex_identifier c) (lex_identifier-IsRead c byte rest h)
        (ground (arith, k, start))
  | inr start ↦ elim (Bool-cases (is_digit byte)) [
    | inl digit ↦
        carried-IsRead c later token (lex_integer c) (lex_integer-IsRead c byte rest h)
          (ground (arith, k, start, digit))
    | inr digit ↦ elim (Bool-cases (byte == 34)) [
      | inl quote ↦
          lex_string-IsRead c later token byte rest h (ground (arith, k, start, digit, quote))
      | inr quote ↦ punctuation_at-IsRead c later token byte rest h start digit quote k
    ]
  ]
]

-- A token of another kind consumes input; the end of the input stays.
pub read_token-cases :
    (c later : Cursor) (token : Token)
    → read_token c ≡ ok (token, later)
    → ((later.rest ≡ []) × (token ≡ token_between end_of_input none later later))
      ⊎ IsRead c token later
unfolding read_token
read_token-cases c later token h = elim (Result-cases (skip_trivia c)) [
  | inr (e, failed) ↦ absurd (ground (arith, h, failed))
  | inl (at_token, skipped) ↦
      let shrinks = trivia_from_le (left c) c at_token skipped in
      elim (rest-cases at_token.rest) [
        | inl empty ↦
            let same : at_token ≡ later = ground (arith, h, skipped, empty) in
            let read : token_between end_of_input none at_token at_token ≡ token =
              ground (arith, h, skipped, empty) in
            inl (
              ap (λ (x : Cursor). x.rest) (sym same) ∙ empty,
              sym read ∙ ap (λ (x : Cursor). token_between end_of_input none x x) same,
            )
        | inr (byte, rest, at) ↦
            let (less, other) =
              token_at-IsRead at_token later token byte rest at (ground (arith, h, skipped, at)) in
            inr (omega (arith, less, shrinks), other)
      ]
]

pub read_token-end :
    (c : Cursor) → c.rest ≡ [] → read_token c ≡ ok (token_between end_of_input none c c, c)
unfolding read_token
read_token-end c h = ground (arith, h)
