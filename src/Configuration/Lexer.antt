-- ===== src/Configuration/Lexer.antt =====
-- src/configuration/config_lexer.cpp. The input is kept as the bytes from the offset on; a failure has
-- the cursor at which the call stopped.
use spare_node.Base.{
  ℕ, zero, suc, ◌+◌, ◌*◌, ◌/◌, ◌%◌, Bool, true, false, ◌&&◌, ◌||◌, [], ◌∷◌, ◌++◌, Option, none,
  some, Bytes, Result, ok, err, leb, ltb, ◌==◌, if◌then◌else◌, codes, length, take, drop,
}
use spare_node.Base.Views.{front, passes}
use spare_node.Text.Utf8.{decode_one}
use spare_node.Configuration.Syntax.{
  SourceLocation, LexerErrorCode, input_too_large, invalid_utf8, unexpected_byte_order_mark,
  embedded_null, LexerError,
}

pub record Cursor : Type 0 where
  pub rest : Bytes
  pub byte_offset : ℕ
  pub line : ℕ
  pub column : ℕ

-- The error of a call, and where the call leaves the lexer.
pub record Failure : Type 0 where
  pub error : LexerError
  pub stopped : Cursor

-- `ConfigLexer`.
pub record Lexer : Type 0 where
  pub cursor : Cursor
  pub terminal_error : Option LexerError

abbrev pub is_identifier_start : ℕ → Bool
is_identifier_start byte =
    (leb 65 byte && leb byte 90) || ((leb 97 byte && leb byte 122) || byte == 95)

abbrev pub is_digit : ℕ → Bool
is_digit byte = leb 48 byte && leb byte 57

abbrev pub is_identifier_continuation : ℕ → Bool
is_identifier_continuation byte = is_identifier_start byte || (is_digit byte || byte == 45)

abbrev pub is_line_break : ℕ → Bool
is_line_break byte = byte == 13 || byte == 10

unfoldable pub has_byte_order_mark : Bytes → Bool
has_byte_order_mark (first ∷ (second ∷ (third ∷ _))) =
    first == 0xEF && (second == 0xBB && third == 0xBF)
has_byte_order_mark _ = false

abbrev maximum_error_context_bytes : ℕ
maximum_error_context_bytes = 5

unfoldable pub make_context : Bytes → ℕ → Bytes
make_context rest count =
    take (if ltb maximum_error_context_bytes count then maximum_error_context_bytes else count) rest

abbrev pub location : Cursor → SourceLocation
location c = record { byte_offset = c.byte_offset; line = c.line; column = c.column }

abbrev pub error_at : LexerErrorCode → ℕ → Cursor → LexerError
error_at code count c = record {
  code = code;
  location = location c;
  context = make_context c.rest count;
}

-- An error at the offset that the lexer has reached.
abbrev pub fail_at : LexerErrorCode → ℕ → Cursor → Failure
fail_at code count c = record { error = error_at code count c; stopped = c }

-- `std::to_string`, with a round for every digit.
unfoldable pub digits_from : ℕ → ℕ → Bytes
digits_from zero n = []
digits_from (suc fuel) n = elim (ltb n 10) [
  | true ↦ (48 + n) ∷ []
  | false ↦ digits_from fuel (n / 10) ++ (48 + n % 10) ∷ []
]

abbrev pub max_input_size_bytes : ℕ
max_input_size_bytes = 1024 * 1024

-- `ConfigLexer::ConfigLexer`.
unfoldable pub start : Bytes → Lexer
unfolding has_byte_order_mark
start input =
    let skipped = if has_byte_order_mark input then 3 else 0 in
    record {
      cursor = record { rest = drop skipped input; byte_offset = skipped; line = 1; column = 1 };
      terminal_error = none;
    }

unfoldable pub create : Bytes → Result Lexer LexerError
unfolding start digits_from
create input =
    if ltb max_input_size_bytes (length input)
    then err (record {
      code = input_too_large;
      location = record { byte_offset = 0; line = 1; column = 1 };
      context = digits_from (length input) (length input) ++ codes " bytes";
    })
    else ok (start input)

abbrev pub at_end : Cursor → Bool
at_end c = length c.rest == 0

-- Nothing is done without a byte, which the source excludes by an assertion.
unfoldable pub advance_ascii : Cursor → Cursor
advance_ascii c = elim c.rest [
  | [] ↦ c
  | current ∷ rest ↦
      if current == 13
      then (let width = if passes (λ (byte : ℕ). byte == 10) (front rest) then 2 else 1 in
          record {
            rest = drop width c.rest;
            byte_offset = c.byte_offset + width;
            line = c.line + 1;
            column = 1;
          })
      else if current == 10
      then record { rest = rest; byte_offset = c.byte_offset + 1; line = c.line + 1; column = 1 }
      else record {
        rest = rest;
        byte_offset = c.byte_offset + 1;
        line = c.line;
        column = c.column + 1;
      }
]

unfoldable pub utf8_sequence_length : Cursor → ℕ
utf8_sequence_length c = elim (decode_one c.rest) [ none ↦ 0 | some scalar ↦ scalar.byte_count ]

unfoldable pub advance_utf8 : ℕ → Cursor → Cursor
advance_utf8 sequence_length c = record c {
  rest = drop sequence_length c.rest;
  byte_offset = c.byte_offset + sequence_length;
  column = c.column + 1;
}

-- The end of a round over a character of `count` bytes.
abbrev pub advance_over : ℕ → Cursor → Cursor
advance_over count c = if count == 1 then advance_ascii c else advance_utf8 count c

-- A round of the loop over the characters of a comment, at `byte`.
unfoldable pub comment_character : ℕ → Cursor → Result Cursor Failure
unfolding has_byte_order_mark utf8_sequence_length advance_ascii advance_utf8 make_context
comment_character byte c =
    if byte == 0
    then err (fail_at embedded_null 1 c)
    else if has_byte_order_mark c.rest
    then err (fail_at unexpected_byte_order_mark 3 c)
    else if utf8_sequence_length c == 0
    then err (fail_at invalid_utf8 1 c)
    else ok (advance_over (utf8_sequence_length c) c)

-- The byte at which a comment goes on.
abbrev pub in_comment : Bytes → Option ℕ
in_comment [] = none
in_comment (byte ∷ _) = if is_line_break byte then none else some byte

-- The loops run on the bytes that are left, since a round consumes one.
unfoldable pub comment_from : ℕ → Cursor → Result Cursor Failure
unfolding comment_character
comment_from zero c = ok c
comment_from (suc fuel) c = elim (in_comment c.rest) [
  | none ↦ ok c
  | some byte ↦ elim (comment_character byte c) [ err e ↦ err e | ok next ↦ comment_from fuel next ]
]

-- A round of the outer loop of `skip_trivia` at `byte`; none if it leaves the loop.
unfoldable pub trivia_at : ℕ → Cursor → Option (Result Cursor Failure)
unfolding comment_from advance_ascii
trivia_at byte c =
    if byte == 32 || (byte == 9 || is_line_break byte)
    then some (ok (advance_ascii c))
    else if byte == 35
    then some (comment_from (length c.rest) (advance_ascii c))
    else none

abbrev pub trivia : Cursor → Option (Result Cursor Failure)
trivia c = elim (front c.rest) [ none ↦ none | some byte ↦ trivia_at byte c ]

unfoldable pub trivia_from : ℕ → Cursor → Result Cursor Failure
unfolding trivia_at
trivia_from zero c = ok c
trivia_from (suc fuel) c = elim (trivia c) [
  | none ↦ ok c
  | some (err e) ↦ err e
  | some (ok next) ↦ trivia_from fuel next
]

abbrev pub skip_trivia : Cursor → Result Cursor Failure
skip_trivia c = trivia_from (length c.rest) c
