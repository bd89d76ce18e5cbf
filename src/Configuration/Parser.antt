-- ===== src/Configuration/Parser.antt =====
-- src/configuration/config_parser.cpp. What `ConfigLexer::next` answers, call by call, is given as a
-- stream: some tokens, then for ever the end of the input or one error (Configuration.Answers).
use spare_node.Base.{
  ℕ, zero, suc, ◌-◌, ◌^◌, Bool, true, false, not, ◌&&◌, List, [], ◌∷◌, ◌++◌, Option, none, some,
  Bytes, Result, ok, err, if◌then◌else◌, bytes_eq, codes, length,
}
use spare_node.Http.Request.Decimal.{whole_number}
use spare_node.Configuration.Syntax.{
  SourceLocation, TokenKind, identifier, string_literal, integer_literal, boolean_literal,
  left_brace, right_brace, semicolon, end_of_input, Token, LexerError, lexical_error,
  unexpected_token, integer_out_of_range, Expectation, server_keyword, expects_left_brace,
  expects_right_brace, expects_semicolon, server_item, location_item, expects_string,
  expects_integer, expects_boolean, expects_end_of_input, ParserError, Scalar, text, integer,
  switch, ConfigValue, ServerDirectiveKind, bind, port, multithreading, worker_threads, log_level,
  mime_types_file, credentials_file, header_timeout_ms, body_timeout_ms, request_timeout_ms,
  response_timeout_ms, transport_mode, trusted_proxy, LocationDirectiveKind, path, read_permission,
  write_permission, delete_permission, Directive, LocationBlock, ServerBlock, ParsedConfiguration,
}

pub record Stream : Type 0 where
  pub tokens : List Token
  pub ending : Result Token LexerError

-- `ParserState`: the lookahead token and the lexer.
pub record State : Type 0 where
  pub current : Token
  pub lexer : Stream

abbrev pub lexical : LexerError → ParserError
lexical e = record {
  code = lexical_error;
  location = e.location;
  expected = none;
  actual_token_kind = none;
  actual_identifier = none;
  lexer_error = some e;
}

-- `advance`, which forgets the token before.
unfoldable pub next_from : List Token → Result Token LexerError → Result State ParserError
next_from (token ∷ tokens) ending =
    ok (record { current = token; lexer = record { tokens = tokens; ending = ending } })
next_from [] (ok token) =
    ok (record { current = token; lexer = record { tokens = []; ending = ok token } })
next_from [] (err e) = err (lexical e)

abbrev pub advance : State → Result State ParserError
advance s = next_from s.lexer.tokens s.lexer.ending

abbrev pub same_kind : TokenKind → TokenKind → Bool
same_kind identifier identifier = true
same_kind string_literal string_literal = true
same_kind integer_literal integer_literal = true
same_kind boolean_literal boolean_literal = true
same_kind left_brace left_brace = true
same_kind right_brace right_brace = true
same_kind semicolon semicolon = true
same_kind end_of_input end_of_input = true
same_kind _ _ = false

abbrev pub is_identifier : Bytes → State → Bool
is_identifier name s = same_kind s.current.kind identifier && bytes_eq s.current.lexeme name

unfoldable pub make_unexpected_error : Expectation → State → ParserError
make_unexpected_error expected s = record {
  code = unexpected_token;
  location = s.current.location;
  expected = some expected;
  actual_token_kind = some s.current.kind;
  actual_identifier = if same_kind s.current.kind identifier then some s.current.lexeme else none;
  lexer_error = none;
}

unfoldable pub consume : TokenKind → Expectation → State → Result State ParserError
unfolding next_from make_unexpected_error
consume kind expected s =
    if not (same_kind s.current.kind kind)
    then err (make_unexpected_error expected s)
    else advance s

unfoldable pub server_directive_kind : Bytes → Option ServerDirectiveKind
server_directive_kind name =
    if bytes_eq name (codes "bind")
    then some bind
    else if bytes_eq name (codes "port")
    then some port
    else if bytes_eq name (codes "multithreading")
    then some multithreading
    else if bytes_eq name (codes "worker_threads")
    then some worker_threads
    else if bytes_eq name (codes "header_timeout_ms")
    then some header_timeout_ms
    else if bytes_eq name (codes "body_timeout_ms")
    then some body_timeout_ms
    else if bytes_eq name (codes "request_timeout_ms")
    then some request_timeout_ms
    else if bytes_eq name (codes "response_timeout_ms")
    then some response_timeout_ms
    else if bytes_eq name (codes "log_level")
    then some log_level
    else if bytes_eq name (codes "mime_types_file")
    then some mime_types_file
    else if bytes_eq name (codes "credentials_file")
    then some credentials_file
    else if bytes_eq name (codes "transport_mode")
    then some transport_mode
    else if bytes_eq name (codes "trusted_proxy")
    then some trusted_proxy
    else none

unfoldable pub location_directive_kind : Bytes → Option LocationDirectiveKind
location_directive_kind name =
    if bytes_eq name (codes "path")
    then some path
    else if bytes_eq name (codes "read")
    then some read_permission
    else if bytes_eq name (codes "write")
    then some write_permission
    else if bytes_eq name (codes "delete")
    then some delete_permission
    else none

-- `expectation_for`.
unfoldable pub server_expectation : ServerDirectiveKind → Expectation
server_expectation port = expects_integer
server_expectation worker_threads = expects_integer
server_expectation header_timeout_ms = expects_integer
server_expectation body_timeout_ms = expects_integer
server_expectation request_timeout_ms = expects_integer
server_expectation response_timeout_ms = expects_integer
server_expectation multithreading = expects_boolean
server_expectation _ = expects_string

unfoldable pub location_expectation : LocationDirectiveKind → Expectation
location_expectation path = expects_string
location_expectation _ = expects_boolean

unfoldable pub token_kind_for : Expectation → TokenKind
token_kind_for expects_string = string_literal
token_kind_for expects_integer = integer_literal
token_kind_for expects_boolean = boolean_literal
token_kind_for _ = end_of_input

abbrev pub or_empty : Option Bytes → Bytes
or_empty none = []
or_empty (some bytes) = bytes

abbrev pub out_of_range : Expectation → State → ParserError
out_of_range expected s = record {
  code = integer_out_of_range;
  location = s.current.location;
  expected = some expected;
  actual_token_kind = some s.current.kind;
  actual_identifier = none;
  lexer_error = none;
}

-- `std::from_chars` as the source uses it: an empty text leaves the value as it was.
unfoldable pub integer_of : Bytes → Option ℕ
unfolding whole_number
integer_of [] = some 0
integer_of (byte ∷ bytes) = whole_number (2 ^ 64 - 1) (byte ∷ bytes)

-- The scalar of the current token, whose kind is the required one.
unfoldable pub scalar_of : TokenKind → Expectation → State → Result Scalar ParserError
unfolding integer_of
scalar_of string_literal _ s = ok (text (or_empty s.current.decoded_string))
scalar_of boolean_literal _ s = ok (switch (bytes_eq s.current.lexeme (codes "true")))
scalar_of _ expected s = elim (integer_of s.current.lexeme) [
  | none ↦ err (out_of_range expected s)
  | some value ↦ ok (integer value)
]

unfoldable pub parse_value : Expectation → State → Result (ConfigValue × State) ParserError
unfolding token_kind_for scalar_of make_unexpected_error next_from
parse_value expected s =
    if not (same_kind s.current.kind (token_kind_for expected))
    then err (make_unexpected_error expected s)
    else elim (scalar_of (token_kind_for expected) expected s) [
      | err e ↦ err e
      | ok scalar ↦ elim (advance s) [
        | err e ↦ err e
        | ok next ↦ ok (record { scalar = scalar; location = s.current.location }, next)
      ]
    ]

unfoldable pub parse_directive :
    {Kind : Type 0} → Kind → Expectation → State → Result (Directive Kind × State) ParserError
unfolding parse_value consume next_from
parse_directive kind expected s = elim (advance s) [
  | err e ↦ err e
  | ok at_value ↦ elim (parse_value expected at_value) [
    | err e ↦ err e
    | ok (value, at_end) ↦ elim (consume semicolon expects_semicolon at_end) [
      | err e ↦ err e
      | ok next ↦ ok (record { kind = kind; value = value; location = s.current.location }, next)
    ]
  ]
]

-- The loops go on up to a closing brace or the end of the input.
abbrev pub goes_on : State → Bool
goes_on s =
    not (same_kind s.current.kind right_brace) && not (same_kind s.current.kind end_of_input)

-- A round of the loop of `parse_location`.
unfoldable pub location_directive :
    State → Result (Directive LocationDirectiveKind × State) ParserError
unfolding location_directive_kind location_expectation parse_directive make_unexpected_error
location_directive s = elim (location_directive_kind s.current.lexeme) [
  | none ↦ err (make_unexpected_error location_item s)
  | some kind ↦
      if not (same_kind s.current.kind identifier)
      then err (make_unexpected_error location_item s)
      else parse_directive kind (location_expectation kind) s
]

-- The loop; a round consumes a token of the stream, so that one round more than there are tokens is
-- fuel enough.
unfoldable pub location_directives :
    ℕ
    → State
    → List (Directive LocationDirectiveKind)
    → Result (List (Directive LocationDirectiveKind) × State) ParserError
unfolding location_directive
location_directives zero s directives = ok (directives, s)
location_directives (suc fuel) s directives = elim (goes_on s) [
  | false ↦ ok (directives, s)
  | true ↦ elim (location_directive s) [
    | err e ↦ err e
    | ok (directive, next) ↦ location_directives fuel next (directives ++ directive ∷ [])
  ]
]

abbrev pub fuel_of : State → ℕ
fuel_of s = suc (length s.lexer.tokens)

-- `parse_location` behind its opening brace.
unfoldable pub location_body :
    SourceLocation → Token → State → Result (LocationBlock × State) ParserError
unfolding location_directives consume
location_body keyword_location api_path s = elim (location_directives (fuel_of s) s []) [
  | err e ↦ err e
  | ok (directives, at_brace) ↦ elim (consume right_brace expects_right_brace at_brace) [
    | err e ↦ err e
    | ok next ↦ ok (
      record {
        api_path = or_empty api_path.decoded_string;
        location = keyword_location;
        api_path_location = api_path.location;
        closing_brace_location = at_brace.current.location;
        directives = directives;
      },
      next,
    )
  ]
]

unfoldable pub parse_location : State → Result (LocationBlock × State) ParserError
unfolding location_body consume make_unexpected_error next_from
parse_location s = elim (advance s) [
  | err e ↦ err e
  | ok at_path ↦
      if not (same_kind at_path.current.kind string_literal)
      then err (make_unexpected_error expects_string at_path)
      else elim (advance at_path) [
        | err e ↦ err e
        | ok at_brace ↦ elim (consume left_brace expects_left_brace at_brace) [
          | err e ↦ err e
          | ok inside ↦ location_body s.current.location at_path.current inside
        ]
      ]
]

-- A server directive at the current identifier.
unfoldable pub server_directive : State → Result (Directive ServerDirectiveKind × State) ParserError
unfolding server_directive_kind server_expectation parse_directive make_unexpected_error
server_directive s = elim (server_directive_kind s.current.lexeme) [
  | none ↦ err (make_unexpected_error server_item s)
  | some kind ↦ parse_directive kind (server_expectation kind) s
]

-- `parse_server_item`.
unfoldable pub parse_server_item : ServerBlock → State → Result (ServerBlock × State) ParserError
unfolding parse_location server_directive make_unexpected_error
parse_server_item server s =
    if not (same_kind s.current.kind identifier)
    then err (make_unexpected_error server_item s)
    else if bytes_eq s.current.lexeme (codes "location")
    then elim (parse_location s) [
      | err e ↦ err e
      | ok (location, next) ↦
          ok (record server { locations = server.locations ++ location ∷ [] }, next)
    ]
    else elim (server_directive s) [
      | err e ↦ err e
      | ok (directive, next) ↦
          ok (record server { directives = server.directives ++ directive ∷ [] }, next)
    ]

-- The loop of `parse`.
unfoldable pub server_items : ℕ → ServerBlock → State → Result (ServerBlock × State) ParserError
unfolding parse_server_item
server_items zero server s = ok (server, s)
server_items (suc fuel) server s = elim (goes_on s) [
  | false ↦ ok (server, s)
  | true ↦ elim (parse_server_item server s) [
    | err e ↦ err e
    | ok (more, next) ↦ server_items fuel more next
  ]
]

-- The place of the closing brace is set when it is read.
abbrev pub empty_server : SourceLocation → ServerBlock
empty_server keyword_location = record {
  location = keyword_location;
  closing_brace_location = keyword_location;
  directives = [];
  locations = [];
}

-- `parse` behind the opening brace of the server block.
unfoldable pub server_body : SourceLocation → State → Result ParsedConfiguration ParserError
unfolding server_items consume make_unexpected_error
server_body keyword_location s = elim (server_items (fuel_of s) (empty_server keyword_location) s) [
  | err e ↦ err e
  | ok (server, at_brace) ↦ elim (consume right_brace expects_right_brace at_brace) [
    | err e ↦ err e
    | ok last ↦
        if not (same_kind last.current.kind end_of_input)
        then err (make_unexpected_error expects_end_of_input last)
        else ok (record {
          server = record server { closing_brace_location = at_brace.current.location };
          end_of_input_location = last.current.location;
        })
  ]
]

-- `ConfigParser::parse`.
unfoldable pub parse : Stream → Result ParsedConfiguration ParserError
unfolding server_body consume make_unexpected_error next_from
parse stream = elim (next_from stream.tokens stream.ending) [
  | err e ↦ err e
  | ok first ↦
      if not (is_identifier (codes "server") first)
      then err (make_unexpected_error server_keyword first)
      else elim (advance first) [
        | err e ↦ err e
        | ok at_brace ↦ elim (consume left_brace expects_left_brace at_brace) [
          | err e ↦ err e
          | ok inside ↦ server_body first.current.location inside
        ]
      ]
]
