-- ===== src/Tests/Configuration.antt =====
-- The configuration parser on a short configuration.
use spare_node.Base.{
  ℕ, ◌+◌, err, true, [], ◌∷◌, Option, none, some, ◌≡◌, ◌≤◌, length, refl, Bytes, ok, bytes_eq,
  codes,
}
use spare_node.Http.Request.Decimal.{from_chars, whole_number}
use spare_node.Configuration.Syntax.{
  SourceLocation, TokenKind, identifier, string_literal, integer_literal, boolean_literal,
  left_brace, right_brace, semicolon, end_of_input, Token, text, integer, switch, ServerBlock, port,
  path, read_permission, unterminated_string, ParsedConfiguration,
}
use spare_node.Configuration.Parser.{
  Stream, State, fuel_of, empty_server, location_directives, server_items, parse,
}
use spare_node.Text.Utf8.{decode_one}
use spare_node.Configuration.Lexer.{start}
use spare_node.Configuration.Tokens.{next}
use spare_node.Configuration.Consumption.{left}
use spare_node.Configuration.Answers.{continuing, parse_lexer, nth, call, parse_lexer-call}
use spare_node.Configuration.Typing.{IsAnswer, IsWrittenServer}
use spare_node.Configuration.Typed.{parse-IsTyped}
use spare_node.Configuration.Rounds.{fuel_of_enough}

abbrev at : ℕ → SourceLocation
at offset = record { byte_offset = offset; line = 1; column = offset + 1 }

abbrev token : TokenKind → Bytes → Option Bytes → ℕ → Token
token kind lexeme decoded_string offset = record {
  kind = kind;
  lexeme = lexeme;
  decoded_string = decoded_string;
  location = at offset;
}

-- server{port 80;location "/a"{path "/x";read true;}}
abbrev stream : Stream
stream = record {
  tokens =
      token identifier (codes "server") none 0
      ∷ (token left_brace (codes "{") none 6
          ∷ (token identifier (codes "port") none 7
              ∷ (token integer_literal (codes "80") none 12
                  ∷ (token semicolon (codes ";") none 14
                      ∷ (token identifier (codes "location") none 15
                          ∷ (token string_literal (codes "\"/a\"") (some (codes "/a")) 24
                              ∷ (token left_brace (codes "{") none 28
                                  ∷ (token identifier (codes "path") none 29
                                      ∷ (token string_literal (codes "\"/x\"") (some (codes "/x"))
                                            34
                                          ∷ (token semicolon (codes ";") none 38
                                              ∷ (token identifier (codes "read") none 39
                                                  ∷ (token boolean_literal (codes "true") none 44
                                                      ∷ (token semicolon (codes ";") none 48
                                                          ∷ (token right_brace (codes "}") none 49
                                                            ∷ (token right_brace (codes "}") none 50
                                                            ∷ [])))))))))))))));
  ending = ok (token end_of_input [] none 51);
}

abbrev server_block : ServerBlock
server_block = record {
  location = at 0;
  closing_brace_location = at 50;
  directives =
      record {
        kind = port;
        value = record { scalar = integer 80; location = at 12 };
        location = at 7;
      }
      ∷ [];
  locations =
      record {
        api_path = codes "/a";
        location = at 15;
        api_path_location = at 24;
        closing_brace_location = at 49;
        directives =
            record {
              kind = path;
              value = record { scalar = text (codes "/x"); location = at 34 };
              location = at 29;
            }
            ∷ (record {
              kind = read_permission;
              value = record { scalar = switch true; location = at 44 };
              location = at 39;
            }
                ∷ []);
      }
      ∷ [];
}

abbrev configuration : ParsedConfiguration
configuration = record { server = server_block; end_of_input_location = at 51 }

parsed : parse stream ≡ ok configuration
unfolding parse bytes_eq whole_number from_chars
parsed = refl

abbrev written : Bytes
written = codes "server{port 80;location \"/a\"{path \"/x\";read true;}}"

-- The lexer on a configuration with a comment and an escape, and on a broken one.
lexed : parse_lexer (start written) ≡ ok configuration
unfolding parse_lexer start next bytes_eq whole_number from_chars decode_one
lexed = refl

abbrev escaped : Bytes
escaped = codes "#c\r\n \"a\\t\""

escaped_read :
    (next (start escaped)).1
    ≡ ok (record {
      kind = string_literal;
      lexeme = codes "\"a\\t\"";
      decoded_string = some (97 ∷ 9 ∷ []);
      location = record { byte_offset = 5; line = 2; column = 2 };
    })
unfolding start next decode_one
escaped_read = refl

unterminated :
    (next (start (codes "\"a"))).1
    ≡ err (record { code = unterminated_string; location = at 0; context = codes "\"" })
unfolding start next decode_one
unterminated = refl

-- The second call would read the end of the input, were the first failure not kept.
failed_again : call 1 (start (codes "\"a")) ≡ call 0 (start (codes "\"a"))
unfolding call start next decode_one
failed_again = refl

parse_lexer-call_example :
    ((n m : ℕ)
      → continuing (call n (start written)) ≡ none
      → call (n + m) (start written) ≡ call n (start written))
    × (answers : Stream) × (parse_lexer (start written) ≡ parse answers)
    × ((n : ℕ) → nth n answers.tokens answers.ending ≡ call n (start written))
    × (length answers.tokens ≤ left (start written).cursor)
    × (continuing answers.ending ≡ none)
parse_lexer-call_example = parse_lexer-call (start written)

parse-IsTyped_example : IsWrittenServer (IsAnswer stream) server_block
parse-IsTyped_example = parse-IsTyped stream configuration parsed

-- At the first directive of the server block.
abbrev inside : State
inside = record {
  current = token identifier (codes "port") none 7;
  lexer = record {
    tokens =
        token integer_literal (codes "80") none 12
        ∷ (token semicolon (codes ";") none 14 ∷ (token right_brace (codes "}") none 15 ∷ []));
    ending = ok (token end_of_input [] none 16);
  };
}

fuel_of_enough_example :
    (location_directives (fuel_of inside + 3) inside []
      ≡ location_directives (fuel_of inside) inside [])
    × (server_items (fuel_of inside + 3) (empty_server (at 0)) inside
        ≡ server_items (fuel_of inside) (empty_server (at 0)) inside)
fuel_of_enough_example = fuel_of_enough 3 inside (empty_server (at 0)) []
