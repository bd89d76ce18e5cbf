-- ===== src/Configuration/Answers.antt =====
-- The answers of the lexer, call by call, are the stream that the parser reads.
use spare_node.Base.{
  ℕ, zero, suc, ◌<◌, List, [], ◌∷◌, Option, none, some, Result, ok, err, ◌≡◌, ◌+◌, ◌≤◌, length,
  refl, sym, inl, inr, subst, ap, ◌∙◌, arith, Bool-cases, Option-cases, Result-cases, if◌then◌else◌,
}
use spare_node.Configuration.Syntax.{
  end_of_input, Token, LexerError, ParsedConfiguration, ParserError,
}
use spare_node.Configuration.Lexer.{Cursor, Lexer}
use spare_node.Configuration.Tokens.{read_token, next}
use spare_node.Configuration.Consumption.{left}
use spare_node.Configuration.Parser.{Stream, same_kind, parse}
use spare_node.Configuration.Reading.{read_token-cases, read_token-end}

-- The token after which the lexer is called again for another one.
abbrev pub continuing : Result Token LexerError → Option Token
continuing (err e) = none
continuing (ok token) = if same_kind token.kind end_of_input then none else some token

-- The tokens up to the end of the input or the first error.
unfoldable pub stream_from : ℕ → Lexer → Stream
unfolding next
stream_from zero l = record { tokens = []; ending = (next l).1 }
stream_from (suc fuel) l =
    let rest = stream_from fuel (next l).0 in
    elim (continuing (next l).1) [
      | none ↦ record { tokens = []; ending = (next l).1 }
      | some token ↦ record { tokens = token ∷ rest.tokens; ending = rest.ending }
    ]

-- `ConfigParser::parse`.
unfoldable pub parse_lexer : Lexer → Result ParsedConfiguration ParserError
unfolding stream_from parse
parse_lexer l = parse (stream_from (suc (left l.cursor)) l)

-- What the parser reads from a stream by its advance number `n`.
unfoldable pub nth : ℕ → List Token → Result Token LexerError → Result Token LexerError
nth n [] ending = ending
nth zero (token ∷ tokens) ending = ok token
nth (suc n) (token ∷ tokens) ending = nth n tokens ending

-- What call number `n` of `next` answers.
unfoldable pub call : ℕ → Lexer → Result Token LexerError
unfolding next
call zero l = (next l).1
call (suc n) l = call n (next l).0

-- Once it has answered with the end of the input or an error, `next` leaves the lexer as it is and
-- gives the same answer.
next-next : (l : Lexer) → continuing (next l).1 ≡ none → next (next l).0 ≡ next l
unfolding next
next-next l h = elim (Option-cases l.terminal_error) [
  | inr (e, failed) ↦ ground (arith, failed)
  | inl fresh ↦ elim (Result-cases (read_token l.cursor)) [
    | inr (e, failed) ↦ ground (arith, fresh, failed)
    | inl ((token, later), read) ↦ elim (read_token-cases l.cursor later token read) [
      | inr (less, other) ↦ absurd (ground (arith, h, fresh, read, other))
      | inl (empty, ends) ↦
          let again = read_token-end later empty in ground (arith, fresh, read, again, ends)
    ]
  ]
]

-- A token consumes input.
next-left :
    (l : Lexer) (token : Token)
    → continuing (next l).1 ≡ some token
    → left (next l).0.cursor < left l.cursor
unfolding next
next-left l token h = elim (Option-cases l.terminal_error) [
  | inr (e, failed) ↦ absurd (ground (arith, h, failed))
  | inl fresh ↦ elim (Result-cases (read_token l.cursor)) [
    | inr (e, failed) ↦ absurd (ground (arith, h, fresh, failed))
    | inl ((answered, later), read) ↦ elim (read_token-cases l.cursor later answered read) [
      | inl (empty, ends) ↦ absurd (ground (arith, h, fresh, read, ends))
      | inr (less, other) ↦
          let moved : later ≡ (next l).0.cursor = ground (arith, fresh, read) in
          subst (λ (x : Cursor). left x < left l.cursor) moved less
    ]
  ]
]

call-next : (n : ℕ) (l : Lexer) → next (next l).0 ≡ next l → call n (next l).0 ≡ (next l).1
unfolding call
call-next zero l h = ap (λ (p : Lexer × Result Token LexerError). p.1) h
call-next (suc n) l h = ap (λ (p : Lexer × Result Token LexerError). call n p.0) h ∙ call-next n l h

answered : (r : Result Token LexerError) (token : Token) → continuing r ≡ some token → r ≡ ok token
answered (err e) token h = absurd (ground (arith, h))
answered (ok other) token h = elim (Bool-cases (same_kind other.kind end_of_input)) [
  | inl ends ↦ absurd (ground (arith, h, ends))
  | inr goes ↦ ground (arith, h, goes)
]

stream_from-call :
    (n fuel : ℕ) (l : Lexer)
    → left l.cursor < fuel
    → nth n (stream_from fuel l).tokens (stream_from fuel l).ending ≡ call n l
unfolding stream_from nth call
stream_from-call n zero l h = absurd (omega (arith, h))
stream_from-call zero (suc fuel) l h = elim (Option-cases (continuing (next l).1)) [
  | inl ends ↦ rw (stream_from, ends) refl
  | inr (token, goes) ↦ rw (stream_from, goes) (sym (answered (next l).1 token goes))
]
stream_from-call (suc n) (suc fuel) l h = elim (Option-cases (continuing (next l).1)) [
  | inl ends ↦ rw (stream_from, ends) (sym (call-next n l (next-next l ends)))
  | inr (token, goes) ↦
      rw (stream_from, goes)
        (stream_from-call n fuel (next l).0 (omega (arith, h, next-left l token goes)))
]

length-stream_from : (fuel : ℕ) (l : Lexer) → length (stream_from fuel l).tokens ≤ left l.cursor
unfolding stream_from
length-stream_from zero l = omega arith
length-stream_from (suc fuel) l = elim (Option-cases (continuing (next l).1)) [
  | inl ends ↦ rw (stream_from, ends) (omega arith)
  | inr (token, goes) ↦
      rw (stream_from, goes)
        (omega (arith, length-stream_from fuel (next l).0, next-left l token goes))
]

continuing-stream_from :
    (fuel : ℕ) (l : Lexer) → left l.cursor < fuel → continuing (stream_from fuel l).ending ≡ none
unfolding stream_from
continuing-stream_from zero l h = absurd (omega (arith, h))
continuing-stream_from (suc fuel) l h = elim (Option-cases (continuing (next l).1)) [
  | inl ends ↦ rw (stream_from, ends) ends
  | inr (token, goes) ↦
      rw (stream_from, goes)
        (continuing-stream_from fuel (next l).0 (omega (arith, h, next-left l token goes)))
]

call-call : (n m : ℕ) (l : Lexer) → continuing (call n l) ≡ none → call (n + m) l ≡ call n l
unfolding call
call-call zero zero l ends = refl
call-call zero (suc m) l ends =
    let sum : 0 + suc m ≡ suc m = omega arith in
    ap (λ (k : ℕ). call k l) sum ∙ call-next m l (next-next l ends)
call-call (suc n) m l ends =
    let sum : suc n + m ≡ suc (n + m) = omega arith in
    ap (λ (k : ℕ). call k l) sum ∙ call-call n m (next l).0 ends

-- Once a call of `next` has answered with the end of the input or an error, every later call gives
-- that answer. The stream that `parse_lexer` gives to the parser holds, at every place, what the call
-- of that number answers; it has no more tokens than the lexer has bytes left, and ends with the
-- end of the input or an error.
pub parse_lexer-call :
    (l : Lexer)
    → ((n m : ℕ) → continuing (call n l) ≡ none → call (n + m) l ≡ call n l)
      × (stream : Stream) × (parse_lexer l ≡ parse stream)
      × ((n : ℕ) → nth n stream.tokens stream.ending ≡ call n l)
      × (length stream.tokens ≤ left l.cursor)
      × (continuing stream.ending ≡ none)
unfolding parse_lexer
parse_lexer-call l = (
  λ (n m : ℕ) ends. call-call n m l ends,
  stream_from (suc (left l.cursor)) l,
  refl,
  λ (n : ℕ). stream_from-call n (suc (left l.cursor)) l (omega arith),
  length-stream_from (suc (left l.cursor)) l,
  continuing-stream_from (suc (left l.cursor)) l (omega arith),
)
