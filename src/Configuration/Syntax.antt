-- ===== src/Configuration/Syntax.antt =====
-- Tokens and the parsed configuration: the headers below include/sparenode/configuration.
use spare_node.Base.{ℕ, Bool, List, Option, Bytes}

pub record SourceLocation : Type 0 where
  pub byte_offset : ℕ
  pub line : ℕ
  pub column : ℕ

pub data TokenKind : Type 0 where
  identifier string_literal integer_literal boolean_literal : TokenKind
  left_brace right_brace semicolon end_of_input : TokenKind

pub record Token : Type 0 where
  pub kind : TokenKind
  pub lexeme : Bytes
  pub decoded_string : Option Bytes
  pub location : SourceLocation

pub data LexerErrorCode : Type 0 where
  input_too_large invalid_utf8 unexpected_byte_order_mark embedded_null : LexerErrorCode
  unexpected_character invalid_escape_sequence unterminated_string line_break_in_string :
      LexerErrorCode

pub record LexerError : Type 0 where
  pub code : LexerErrorCode
  pub location : SourceLocation
  pub context : Bytes

pub data ParserErrorCode : Type 0 where
  lexical_error unexpected_token integer_out_of_range : ParserErrorCode

pub data Expectation : Type 0 where
  server_keyword expects_left_brace expects_right_brace expects_semicolon : Expectation
  server_item location_item expects_string expects_integer expects_boolean : Expectation
  expects_end_of_input : Expectation

pub record ParserError : Type 0 where
  pub code : ParserErrorCode
  pub location : SourceLocation
  pub expected : Option Expectation
  pub actual_token_kind : Option TokenKind
  pub actual_identifier : Option Bytes
  pub lexer_error : Option LexerError

-- `ParsedConfigScalar`.
pub data Scalar : Type 0 where
  text : Bytes → Scalar
  integer : ℕ → Scalar
  switch : Bool → Scalar

pub record ConfigValue : Type 0 where
  pub scalar : Scalar
  pub location : SourceLocation

pub data ServerDirectiveKind : Type 0 where
  bind port multithreading worker_threads log_level mime_types_file : ServerDirectiveKind
  credentials_file header_timeout_ms body_timeout_ms request_timeout_ms : ServerDirectiveKind
  response_timeout_ms transport_mode trusted_proxy : ServerDirectiveKind

pub data LocationDirectiveKind : Type 0 where
  path read_permission write_permission delete_permission : LocationDirectiveKind

-- `ParsedServerDirective` and `ParsedLocationDirective`.
pub record Directive (Kind : Type 0) : Type 0 where
  pub kind : Kind
  pub value : ConfigValue
  pub location : SourceLocation

pub record LocationBlock : Type 0 where
  pub api_path : Bytes
  pub location : SourceLocation
  pub api_path_location : SourceLocation
  pub closing_brace_location : SourceLocation
  pub directives : List (Directive LocationDirectiveKind)

pub record ServerBlock : Type 0 where
  pub location : SourceLocation
  pub closing_brace_location : SourceLocation
  pub directives : List (Directive ServerDirectiveKind)
  pub locations : List LocationBlock

pub record ParsedConfiguration : Type 0 where
  pub server : ServerBlock
  pub end_of_input_location : SourceLocation
