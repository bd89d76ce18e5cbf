-- ===== src/Configuration/Typed.antt =====
-- src/configuration/config_parser.cpp: whatever an accepted configuration holds is written in the input,
-- as literals of the types that the grammar gives.
use spare_node.Base.{
  ℕ, zero, suc, List, [], ◌∷◌, ◌++◌, ok, ◌≡◌, refl, subst, inl, inr, arith, All, Bool-cases,
  Result-cases, bytes_eq, codes,
}
use spare_node.Configuration.Syntax.{
  SourceLocation, identifier, left_brace, right_brace, expects_left_brace, expects_right_brace,
  ServerBlock, ParsedConfiguration, Token,
}
use spare_node.Configuration.Parser.{
  State, Stream, parse_location, server_directive, parse_server_item, server_items, server_body,
  parse, fuel_of, goes_on, advance, consume, next_from, same_kind, is_identifier, empty_server,
}
use spare_node.Configuration.Typing.{
  server_name, server_literal, In, IsAnswer, IsWritten, IsWrittenLocation, IsWrittenServer, Holds,
  next_from-Holds, advance-Holds, consume-Holds, same_kind-eq, All-snoc,
}
use spare_node.Configuration.Written.{server_directive-IsWritten}
use spare_node.Configuration.Locations.{parse_location-IsWritten}

module _ (P : Token → Type 0) where
  parse_server_item-IsWritten :
      (server more : ServerBlock) (s next : State)
      → IsWrittenServer P server
      → Holds P s
      → parse_server_item server s ≡ ok (more, next)
      → IsWrittenServer P more × Holds P next
  unfolding parse_server_item
  parse_server_item-IsWritten server more s next (directives, locations) h e =
      elim (Bool-cases (same_kind s.current.kind identifier)) [
        | inr other ↦ absurd (ground (arith, e, other))
        | inl name ↦ elim (Bool-cases (bytes_eq s.current.lexeme (codes "location"))) [
          | inl block ↦ elim (Result-cases (parse_location s)) [
            | inr (f, failed) ↦ absurd (ground (arith, e, name, block, failed))
            | inl ((location, later), read) ↦
                let (one, held) = parse_location-IsWritten P s later location h read in
                let same : (record server { locations = server.locations ++ location ∷ [] }, later)
                    ≡ (more, next) =
                  ground (arith, e, name, block, read) in
                subst (λ (r : ServerBlock × State). IsWrittenServer P r.0 × Holds P r.1) same
                  (
                    (
                      directives,
                      All-snoc (IsWrittenLocation P) server.locations location locations one,
                    ),
                    held,
                  )
          ]
          | inr directive ↦ elim (Result-cases (server_directive s)) [
            | inr (f, failed) ↦ absurd (ground (arith, e, name, directive, failed))
            | inl ((d, later), read) ↦
                let (one, held) =
                  server_directive-IsWritten P s later d
                    (same_kind-eq s.current.kind identifier name) h read in
                let same : (record server { directives = server.directives ++ d ∷ [] }, later)
                    ≡ (more, next) =
                  ground (arith, e, name, directive, read) in
                subst (λ (r : ServerBlock × State). IsWrittenServer P r.0 × Holds P r.1) same
                  (
                    (
                      All-snoc (IsWritten P server_name server_literal) server.directives d
                          directives one,
                      locations,
                    ),
                    held,
                  )
          ]
        ]
      ]

  server_items-IsWritten :
      (fuel : ℕ) (server more : ServerBlock) (s next : State)
      → IsWrittenServer P server
      → Holds P s
      → server_items fuel server s ≡ ok (more, next)
      → IsWrittenServer P more
  unfolding server_items
  server_items-IsWritten zero server more s next written h e =
      let same : server ≡ more = ground (arith, e) in subst (IsWrittenServer P) same written
  server_items-IsWritten (suc fuel) server more s next written h e = elim (Bool-cases (goes_on s)) [
    | inr stops ↦
        let same : server ≡ more = ground (arith, e, stops) in
        subst (IsWrittenServer P) same written
    | inl goes ↦ elim (Result-cases (parse_server_item server s)) [
      | inr (f, failed) ↦ absurd (ground (arith, e, goes, failed))
      | inl ((middle, later), read) ↦
          let (one, held) = parse_server_item-IsWritten server middle s later written h read in
          server_items-IsWritten fuel middle more later next one held
            (ground (arith, e, goes, read))
    ]
  ]

  server_body-IsWritten :
      (keyword : SourceLocation) (s : State) (configuration : ParsedConfiguration)
      → Holds P s
      → server_body keyword s ≡ ok configuration
      → IsWrittenServer P configuration.server
  unfolding server_body
  server_body-IsWritten keyword s configuration h e =
      elim (Result-cases (server_items (fuel_of s) (empty_server keyword) s)) [
        | inr (f, failed) ↦ absurd (ground (arith, e, failed))
        | inl ((server, at_brace), read) ↦
            let written =
              server_items-IsWritten (fuel_of s) (empty_server keyword) server s at_brace (tt, tt) h
                read in
            elim (Result-cases (consume right_brace expects_right_brace at_brace)) [
              | inr (f, failed) ↦ absurd (ground (arith, e, read, failed))
              | inl (last, closed) ↦
                  let first : server.directives ≡ configuration.server.directives =
                    ground (arith, e, read, closed) in
                  let second : server.locations ≡ configuration.server.locations =
                    ground (arith, e, read, closed) in
                  (
                    subst (All (IsWritten P server_name server_literal)) first written.0,
                    subst (All (IsWrittenLocation P)) second written.1,
                  )
            ]
      ]

  parse-IsWritten :
      (stream : Stream) (configuration : ParsedConfiguration)
      → All P stream.tokens
      → ((token : Token) → stream.ending ≡ ok token → P token)
      → parse stream ≡ ok configuration
      → IsWrittenServer P configuration.server
  unfolding parse
  parse-IsWritten stream configuration has last e =
      elim (Result-cases (next_from stream.tokens stream.ending)) [
        | inr (f, failed) ↦ absurd (ground (arith, e, failed))
        | inl (first, started) ↦ elim (Bool-cases (is_identifier (codes "server") first)) [
          | inr other ↦ absurd (ground (arith, e, started, other))
          | inl keyword ↦ elim (Result-cases (advance first)) [
            | inr (f, failed) ↦ absurd (ground (arith, e, started, keyword, failed))
            | inl (at_brace, moved) ↦
                elim (Result-cases (consume left_brace expects_left_brace at_brace)) [
                  | inr (f, failed) ↦ absurd (ground (arith, e, started, keyword, moved, failed))
                  | inl (inside, opened) ↦
                      let held =
                        next_from-Holds P stream.tokens stream.ending first has last started in
                      server_body-IsWritten first.current.location inside configuration
                        (consume-Holds P left_brace expects_left_brace at_brace inside
                          (advance-Holds P first at_brace held moved) opened)
                        (ground (arith, e, started, keyword, moved, opened))
                ]
          ]
        ]
      ]

All-In :
    (P : Token → Type 0) (tokens : List Token)
    → ((token : Token) → In token tokens → P token)
    → All P tokens
All-In P [] f = tt
All-In P (token ∷ tokens) f =
    (f token (inl refl), All-In P tokens (λ (other : Token) within. f other (inr within)))

-- In every configuration that the parser accepts, whatever the lexer answers, each directive of the
-- server block and of each location has been read from two answers of the lexer: an identifier that
-- is its name in the grammar, and a literal of the kind that the grammar gives it, of which its value
-- is what that literal denotes, an integer below 2 ^ 64; and the path of each location from a string
-- literal. The locations are those of these tokens.
pub parse-IsTyped :
    (stream : Stream) (configuration : ParsedConfiguration)
    → parse stream ≡ ok configuration
    → IsWrittenServer (IsAnswer stream) configuration.server
parse-IsTyped stream configuration =
    parse-IsWritten (IsAnswer stream) stream configuration
      (All-In (IsAnswer stream) stream.tokens (λ (token : Token) within. inl within))
      (λ (token : Token) last. inr last)
