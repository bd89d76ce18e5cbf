-- ===== src/Configuration/Progress.antt =====
-- The loops of the parser need no more rounds than the lexer gives tokens.
use native.Mathlib.Decide.{dec_lt}
use spare_node.Base.{
  ℕ, suc, ◌≤◌, ◌<◌, true, List, [], ◌∷◌, Result, ok, err, ◌≡◌, ap, ◌∙◌, inl, inr, arith, length,
  Bool-cases, Result-cases,
}
use spare_node.Configuration.Syntax.{
  Token, LexerError, TokenKind, semicolon, expects_semicolon, Expectation, ConfigValue, Directive,
}
use spare_node.Configuration.Parser.{
  State, advance, next_from, consume, parse_value, parse_directive, scalar_of, token_kind_for,
  same_kind,
}

-- The number of tokens that are still to come.
abbrev pub left : State → ℕ
left s = length s.lexer.tokens

-- Reading takes a token, while there is one.
pub next_from_shrinks :
    (tokens : List Token) (ending : Result Token LexerError) (next : State)
    → next_from tokens ending ≡ ok next
    → (0 < length tokens → suc (left next) ≡ length tokens) × (left next ≤ length tokens)
unfolding next_from
next_from_shrinks [] (err e) next h = absurd (cc)
next_from_shrinks [] (ok token) next h = ground (arith, h)
next_from_shrinks (token ∷ tokens) ending next h = ground (arith, h)

-- At the end of the stream the last token is read again and again.
pub next_from_again :
    (tokens : List Token) (ending : Result Token LexerError) (next : State)
    → length tokens ≡ 0
    → next_from tokens ending ≡ ok next
    → advance next ≡ ok next
unfolding next_from
next_from_again [] (err e) next z h = absurd (cc)
next_from_again [] (ok token) next z h = ground (arith, h)
next_from_again (token ∷ tokens) ending next z h = absurd (omega (arith, z))

pub consume_next :
    (kind : TokenKind) (expected : Expectation) (s next : State)
    → consume kind expected s ≡ ok next
    → (same_kind s.current.kind kind ≡ true) × (advance s ≡ ok next)
unfolding consume
consume_next kind expected s next h = elim (Bool-cases (same_kind s.current.kind kind)) [
  | inr other ↦ absurd (ground (arith, h, other))
  | inl fits ↦ (fits, ground (arith, h, fits))
]

parse_value_next :
    (expected : Expectation) (s next : State) (value : ConfigValue)
    → parse_value expected s ≡ ok (value, next)
    → (same_kind s.current.kind (token_kind_for expected) ≡ true) × (advance s ≡ ok next)
unfolding parse_value
parse_value_next expected s next value h =
    elim (Bool-cases (same_kind s.current.kind (token_kind_for expected))) [
      | inr other ↦ absurd (ground (arith, h, other))
      | inl fits ↦ elim (Result-cases (scalar_of (token_kind_for expected) expected s)) [
        | inr (e, failed) ↦ absurd (ground (arith, h, fits, failed))
        | inl (scalar, read) ↦ elim (Result-cases (advance s)) [
          | inr (e, failed) ↦ absurd (ground (arith, h, fits, read, failed))
          | inl (later, moved) ↦ (fits, moved ∙ ground (arith, h, fits, read, moved))
        ]
      ]
    ]

-- No token is both a scalar and a semicolon.
not_both :
    (kind : TokenKind) (expected : Expectation)
    → same_kind kind (token_kind_for expected) ≡ true
    → same_kind kind semicolon ≡ true
    → ⊥
unfolding token_kind_for
not_both kind expected h k = ground (arith, h, k)

-- A directive takes a token at least.
pub parse_directive_shrinks :
    {Kind : Type 0} (kind : Kind) (expected : Expectation) (s next : State) (d : Directive Kind)
    → parse_directive kind expected s ≡ ok (d, next)
    → left next < left s
unfolding parse_directive
parse_directive_shrinks kind expected s next d h = elim (Result-cases (advance s)) [
  | inr (e, failed) ↦ absurd (ground (arith, h, failed))
  | inl (at_value, moved) ↦ elim (Result-cases (parse_value expected at_value)) [
    | inr (e, failed) ↦ absurd (ground (arith, h, moved, failed))
    | inl ((value, at_end), read) ↦
        elim (Result-cases (consume semicolon expects_semicolon at_end)) [
          | inr (e, failed) ↦ absurd (ground (arith, h, moved, read, failed))
          | inl (last, closed) ↦
              let same : last ≡ next = ground (arith, h, moved, read, closed) in
              let (fits, further) = parse_value_next expected at_value at_end value read in
              let (ends, ended) = consume_next semicolon expects_semicolon at_end last closed in
              let one = next_from_shrinks s.lexer.tokens s.lexer.ending at_value moved in
              let two =
                next_from_shrinks at_value.lexer.tokens at_value.lexer.ending at_end further in
              let three = next_from_shrinks at_end.lexer.tokens at_end.lexer.ending last ended in
              elim (dec_lt 0 (left s)) [
                | yes more ↦ omega (arith, one.0 more, two.1, three.1, ap left same)
                | no none_shrinks ↦
                    let again =
                      next_from_again s.lexer.tokens s.lexer.ending at_value
                        (omega (arith, none_shrinks)) moved in
                    let repeated : at_value ≡ at_end = ground (arith, again, further) in
                    absurd (
                      not_both at_value.current.kind expected fits
                        (ap (λ (t : State). same_kind t.current.kind semicolon) repeated ∙ ends))
              ]
        ]
  ]
]
