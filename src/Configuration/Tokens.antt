-- ===== src/Configuration/Tokens.antt =====
-- src/configuration/config_lexer.cpp: the tokens and `ConfigLexer::next`.
use spare_node.Base.{
  ℕ, zero, suc, ◌+◌, ◌-◌, Bool, true, false, ◌||◌, [], ◌∷◌, ◌++◌, Option, none, some, Bytes, Result,
  ok, err, ◌==◌, if◌then◌else◌, bytes_eq, codes, length, take,
}
use spare_node.Base.Views.{front, passes}
use spare_node.Configuration.Syntax.{
  TokenKind, identifier, string_literal, integer_literal, boolean_literal, left_brace, right_brace,
  semicolon, end_of_input, Token, invalid_utf8, unexpected_byte_order_mark, embedded_null,
  unexpected_character, invalid_escape_sequence, unterminated_string, line_break_in_string,
  LexerError,
}
use spare_node.Configuration.Lexer.{
  Cursor, Lexer, is_identifier_start, is_identifier_continuation, is_digit, is_line_break,
  has_byte_order_mark, make_context, Failure, fail_at, location, error_at, at_end, advance_ascii,
  utf8_sequence_length, advance_utf8, advance_over, skip_trivia, trivia_from,
}

-- The token between two cursors.
abbrev pub token_between : TokenKind → Option Bytes → Cursor → Cursor → Token
token_between kind decoded_string first last = record {
  kind = kind;
  lexeme = take (last.byte_offset - first.byte_offset) first.rest;
  decoded_string = decoded_string;
  location = location first;
}

-- The loops of `lex_identifier` and `lex_integer`.
unfoldable pub advance_while : (ℕ → Bool) → ℕ → Cursor → Cursor
unfolding advance_ascii
advance_while test zero c = c
advance_while test (suc fuel) c = elim (passes test (front c.rest)) [
  | false ↦ c
  | true ↦ advance_while test fuel (advance_ascii c)
]

abbrev pub keyword_kind : Bytes → TokenKind
keyword_kind lexeme =
    if bytes_eq lexeme (codes "true") || bytes_eq lexeme (codes "false")
    then boolean_literal
    else identifier

unfoldable pub lex_identifier : Cursor → Token × Cursor
unfolding advance_while advance_ascii
lex_identifier c =
    let last = advance_while is_identifier_continuation (length c.rest) (advance_ascii c) in
    let lexeme = take (last.byte_offset - c.byte_offset) c.rest in
    (token_between (keyword_kind lexeme) none c last, last)

unfoldable pub lex_integer : Cursor → Token × Cursor
unfolding advance_while advance_ascii
lex_integer c =
    let last = advance_while is_digit (length c.rest) (advance_ascii c) in
    (token_between integer_literal none c last, last)

-- The byte that an escape stands for.
unfoldable pub escaped_byte : ℕ → Option ℕ
escaped_byte byte =
    if byte == 34
    then some 34
    else if byte == 92
    then some 92
    else if byte == 110
    then some 10
    else if byte == 114
    then some 13
    else if byte == 116
    then some 9
    else none

-- `consume_escape` behind the backslash, which `escape` still has, at `byte`.
unfoldable pub escape_at : ℕ → Bytes → Cursor → Cursor → Result (Bytes × Cursor) Failure
unfolding escaped_byte has_byte_order_mark utf8_sequence_length advance_ascii make_context
escape_at byte decoded escape c =
    if byte == 0
    then err (fail_at embedded_null 1 c)
    else if is_line_break byte
    then err (fail_at line_break_in_string 1 c)
    else if has_byte_order_mark c.rest
    then err (fail_at unexpected_byte_order_mark 3 c)
    else if utf8_sequence_length c == 0
    then err (fail_at invalid_utf8 1 c)
    else elim (escaped_byte byte) [
      | none ↦ err (record {
        error = error_at invalid_escape_sequence (1 + utf8_sequence_length c) escape;
        stopped = c;
      })
      | some value ↦ ok (decoded ++ value ∷ [], advance_ascii c)
    ]

unfoldable pub consume_escape : Bytes → Cursor → Result (Bytes × Cursor) Failure
unfolding escape_at advance_ascii
consume_escape decoded c = elim (front (advance_ascii c).rest) [
  | none ↦ err (record {
    error = record { code = invalid_escape_sequence; location = location c; context = 92 ∷ [] };
    stopped = advance_ascii c;
  })
  | some byte ↦ escape_at byte decoded c (advance_ascii c)
]

-- `consume_string_character` at `byte`.
unfoldable pub consume_string_character : ℕ → Bytes → Cursor → Result (Bytes × Cursor) Failure
unfolding consume_escape has_byte_order_mark utf8_sequence_length advance_ascii advance_utf8
    make_context
consume_string_character byte decoded c =
    if is_line_break byte
    then err (fail_at line_break_in_string 1 c)
    else if byte == 0
    then err (fail_at embedded_null 1 c)
    else if has_byte_order_mark c.rest
    then err (fail_at unexpected_byte_order_mark 3 c)
    else if byte == 92
    then consume_escape decoded c
    else if utf8_sequence_length c == 0
    then err (fail_at invalid_utf8 1 c)
    else ok
        (decoded ++ take (utf8_sequence_length c) c.rest, advance_over (utf8_sequence_length c) c)

-- The byte at which a string goes on.
abbrev pub in_string : Bytes → Option ℕ
in_string [] = none
in_string (byte ∷ _) = if byte == 34 then none else some byte

-- The loop of `lex_string`, which runs on the bytes that are left.
unfoldable pub string_from : ℕ → Bytes → Cursor → Result (Bytes × Cursor) Failure
unfolding consume_string_character
string_from zero decoded c = ok (decoded, c)
string_from (suc fuel) decoded c = elim (in_string c.rest) [
  | none ↦ ok (decoded, c)
  | some byte ↦ elim (consume_string_character byte decoded c) [
    | err e ↦ err e
    | ok (more, next) ↦ string_from fuel more next
  ]
]

unfoldable pub lex_string : Cursor → Result (Token × Cursor) Failure
unfolding string_from advance_ascii make_context
lex_string c = elim (string_from (length c.rest) [] (advance_ascii c)) [
  | err e ↦ err e
  | ok (decoded, at_quote) ↦
      if at_end at_quote
      then err (record { error = error_at unterminated_string 1 c; stopped = at_quote })
      else ok (
        token_between string_literal (some decoded) c (advance_ascii at_quote),
        advance_ascii at_quote,
      )
]

unfoldable pub lex_punctuation : TokenKind → Cursor → Token × Cursor
unfolding advance_ascii
lex_punctuation kind c = (
  record { kind = kind; lexeme = take 1 c.rest; decoded_string = none; location = location c },
  advance_ascii c,
)

-- The error at a byte that begins no token.
unfoldable pub no_token : ℕ → Cursor → Failure
unfolding has_byte_order_mark utf8_sequence_length make_context
no_token byte c =
    if byte == 0
    then fail_at embedded_null 1 c
    else if has_byte_order_mark c.rest
    then fail_at unexpected_byte_order_mark 3 c
    else if utf8_sequence_length c == 0
    then fail_at invalid_utf8 1 c
    else fail_at unexpected_character (utf8_sequence_length c) c

-- `next` behind the trivia, at `byte`.
unfoldable pub token_at : ℕ → Cursor → Result (Token × Cursor) Failure
unfolding lex_identifier lex_integer lex_string lex_punctuation no_token
token_at byte c =
    if is_identifier_start byte
    then ok (lex_identifier c)
    else if is_digit byte
    then ok (lex_integer c)
    else if byte == 34
    then lex_string c
    else if byte == 123
    then ok (lex_punctuation left_brace c)
    else if byte == 125
    then ok (lex_punctuation right_brace c)
    else if byte == 59
    then ok (lex_punctuation semicolon c)
    else err (no_token byte c)

unfoldable pub read_token : Cursor → Result (Token × Cursor) Failure
unfolding trivia_from token_at
read_token start = elim (skip_trivia start) [
  | err e ↦ err e
  | ok c ↦ elim (front c.rest) [
    | none ↦ ok (token_between end_of_input none c c, c)
    | some byte ↦ token_at byte c
  ]
]

-- `fail` keeps the first error.
abbrev pub keep : Lexer → Result (Token × Cursor) Failure → Lexer × Result Token LexerError
keep l (err f) = (record { cursor = f.stopped; terminal_error = some f.error }, err f.error)
keep l (ok (token, c)) = (record l { cursor = c }, ok token)

unfoldable pub next : Lexer → Lexer × Result Token LexerError
unfolding read_token
next l = elim l.terminal_error [ some e ↦ (l, err e) | none ↦ keep l (read_token l.cursor) ]
