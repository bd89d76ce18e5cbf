-- ===== src/Configuration/Typing.antt =====
-- A directive of an accepted configuration is written in the input: what this means, and that the
-- parser's reading of a directive keeps to it.
use spare_node.Base.{
  ◌^◌, ◌<◌, true, List, [], ◌∷◌, ◌++◌, some, Bytes, Result, ok, err, ◌≡◌, ◌⊎◌, refl, subst, inl,
  inr, arith, All, Bool-cases, Result-cases, bytes_eq, codes,
}
use spare_node.Configuration.Syntax.{
  TokenKind, identifier, string_literal, integer_literal, boolean_literal, Expectation, LexerError,
  Scalar, text, integer, switch, ConfigValue, ServerDirectiveKind, bind, port, multithreading,
  worker_threads, log_level, mime_types_file, credentials_file, header_timeout_ms, body_timeout_ms,
  request_timeout_ms, response_timeout_ms, transport_mode, trusted_proxy, LocationDirectiveKind,
  path, read_permission, write_permission, delete_permission, Directive, LocationBlock, ServerBlock,
  Token,
}
use spare_node.Configuration.Parser.{
  State, Stream, same_kind, integer_of, parse_value, token_kind_for, scalar_of, or_empty, advance,
  next_from, consume,
}

-- The directives of docs/configuration-format.md: their names and the literals that they take.
abbrev pub server_name : ServerDirectiveKind → Bytes
server_name bind = codes "bind"
server_name port = codes "port"
server_name multithreading = codes "multithreading"
server_name worker_threads = codes "worker_threads"
server_name log_level = codes "log_level"
server_name mime_types_file = codes "mime_types_file"
server_name credentials_file = codes "credentials_file"
server_name header_timeout_ms = codes "header_timeout_ms"
server_name body_timeout_ms = codes "body_timeout_ms"
server_name request_timeout_ms = codes "request_timeout_ms"
server_name response_timeout_ms = codes "response_timeout_ms"
server_name transport_mode = codes "transport_mode"
server_name trusted_proxy = codes "trusted_proxy"

abbrev pub server_literal : ServerDirectiveKind → TokenKind
server_literal bind = string_literal
server_literal port = integer_literal
server_literal multithreading = boolean_literal
server_literal worker_threads = integer_literal
server_literal log_level = string_literal
server_literal mime_types_file = string_literal
server_literal credentials_file = string_literal
server_literal header_timeout_ms = integer_literal
server_literal body_timeout_ms = integer_literal
server_literal request_timeout_ms = integer_literal
server_literal response_timeout_ms = integer_literal
server_literal transport_mode = string_literal
server_literal trusted_proxy = string_literal

abbrev pub location_name : LocationDirectiveKind → Bytes
location_name path = codes "path"
location_name read_permission = codes "read"
location_name write_permission = codes "write"
location_name delete_permission = codes "delete"

abbrev pub location_literal : LocationDirectiveKind → TokenKind
location_literal path = string_literal
location_literal read_permission = boolean_literal
location_literal write_permission = boolean_literal
location_literal delete_permission = boolean_literal

-- The scalar that a literal stands for; an integer is a 64-bit one.
abbrev pub Denotes : Token → TokenKind → Scalar → Type 0
Denotes token string_literal (text bytes) = bytes ≡ or_empty token.decoded_string
Denotes token integer_literal (integer n) = (integer_of token.lexeme ≡ some n) × (n < 2 ^ 64)
Denotes token boolean_literal (switch b) = b ≡ bytes_eq token.lexeme (codes "true")
Denotes _ _ _ = ⊥

-- The tokens that the lexer answers.
abbrev pub In : Token → List Token → Type 0
In token [] = ⊥
In token (other ∷ tokens) = (token ≡ other) ⊎ In token tokens

abbrev pub IsAnswer : Stream → Token → Type 0
IsAnswer stream token = In token stream.tokens ⊎ (stream.ending ≡ ok token)

module _ (P : Token → Type 0) where
  -- The directive has been read from a name and a literal with the property.
  abbrev pub IsWritten :
      {Kind : Type 0} → (Kind → Bytes) → (Kind → TokenKind) → Directive Kind → Type 0
  IsWritten name literal d =
      (first : Token) × (second : Token) × P first
      × (first.kind ≡ identifier)
      × (first.lexeme ≡ name d.kind)
      × (first.location ≡ d.location)
      × P second
      × (second.kind ≡ literal d.kind)
      × (second.location ≡ d.value.location)
      × Denotes second (literal d.kind) d.value.scalar

  -- So have been the path of the location and all its directives.
  abbrev pub IsWrittenLocation : LocationBlock → Type 0
  IsWrittenLocation block =
      (token : Token) × P token
      × (token.kind ≡ string_literal)
      × (token.location ≡ block.api_path_location)
      × (block.api_path ≡ or_empty token.decoded_string)
      × All (IsWritten location_name location_literal) block.directives

  abbrev pub IsWrittenServer : ServerBlock → Type 0
  IsWrittenServer server =
      All (IsWritten server_name server_literal) server.directives
      × All IsWrittenLocation server.locations

  -- All that the parser has in hand and may still read has the property.
  pub record Holds (s : State) : Type 0 where
    pub current_has : P s.current
    pub tokens_have : All P s.lexer.tokens
    pub ending_has : (token : Token) → s.lexer.ending ≡ ok token → P token

  pub next_from-Holds :
      (tokens : List Token) (ending : Result Token LexerError) (next : State)
      → All P tokens
      → ((token : Token) → ending ≡ ok token → P token)
      → next_from tokens ending ≡ ok next
      → Holds next
  unfolding next_from
  next_from-Holds (token ∷ tokens) ending next h k e =
      let same : (record { current = token; lexer = record { tokens = tokens; ending = ending } })
          ≡ next =
        ground (arith, e) in
      subst Holds same (record { current_has = h.0; tokens_have = h.1; ending_has = k })
  next_from-Holds [] (ok token) next h k e =
      let same : (record { current = token; lexer = record { tokens = []; ending = ok token } })
          ≡ next =
        ground (arith, e) in
      subst Holds same (record { current_has = k token refl; tokens_have = tt; ending_has = k })
  next_from-Holds [] (err failure) next h k e = absurd (ground (arith, e))

  pub advance-Holds : (s next : State) → Holds s → advance s ≡ ok next → Holds next
  advance-Holds s next h e =
      next_from-Holds s.lexer.tokens s.lexer.ending next h.tokens_have h.ending_has e

  pub consume-Holds :
      (kind : TokenKind) (expected : Expectation) (s next : State)
      → Holds s
      → consume kind expected s ≡ ok next
      → Holds next
  unfolding consume
  consume-Holds kind expected s next h e = elim (Bool-cases (same_kind s.current.kind kind)) [
    | inr other ↦ absurd (ground (arith, e, other))
    | inl same ↦ advance-Holds s next h (ground (arith, e, same))
  ]

pub same_kind-eq : (a b : TokenKind) → same_kind a b ≡ true → a ≡ b
same_kind-eq a b h = grind arith

-- A value that is read is that of the current token, whose kind is the one required.
pub parse_value-cases :
    (expected : Expectation) (s next : State) (value : ConfigValue)
    → parse_value expected s ≡ ok (value, next)
    → (s.current.kind ≡ token_kind_for expected)
      × (scalar_of (token_kind_for expected) expected s ≡ ok value.scalar)
      × (s.current.location ≡ value.location)
      × (advance s ≡ ok next)
unfolding parse_value
parse_value-cases expected s next value h =
    elim (Bool-cases (same_kind s.current.kind (token_kind_for expected))) [
      | inr other ↦ absurd (ground (arith, h, other))
      | inl same ↦ elim (Result-cases (scalar_of (token_kind_for expected) expected s)) [
        | inr (e, failed) ↦ absurd (ground (arith, h, same, failed))
        | inl (scalar, read) ↦ elim (Result-cases (advance s)) [
          | inr (e, failed) ↦ absurd (ground (arith, h, same, read, failed))
          | inl (later, moved) ↦ (
            same_kind-eq s.current.kind (token_kind_for expected) same,
            ground (arith, h, same, read, moved),
            ground (arith, h, same, read, moved),
            ground (arith, h, same, read, moved),
          )
        ]
      ]
    ]

pub All-snoc {ℓ κ} :
    {A : Type ℓ} (P : A → Type κ) (xs : List A) (x : A) → All P xs → P x → All P (xs ++ x ∷ [])
All-snoc P [] x h p = (p, tt)
All-snoc P (y ∷ xs) x h p = (h.0, All-snoc P xs x h.1 p)
