-- ===== src/Configuration/Written.antt =====
-- src/configuration/config_parser.cpp: a directive that the parser reads is written in its input.
use spare_node.Base.{
  ℕ, ◌-◌, ◌^◌, ◌≤◌, ◌<◌, true, [], ◌∷◌, some, Bytes, ok, ◌≡◌, refl, ◌∙◌, subst, inl, inr, arith,
  Bool-cases, Option-cases, Result-cases, bytes_eq, bytes_eq_iff, codes,
}
use spare_node.Http.Request.Decimal.{from_chars, whole_number}
use spare_node.Configuration.Syntax.{
  TokenKind, identifier, string_literal, integer_literal, boolean_literal, semicolon, Expectation,
  expects_string, expects_integer, expects_boolean, expects_semicolon, Scalar, text, integer,
  switch, ServerDirectiveKind, bind, port, multithreading, worker_threads, log_level,
  mime_types_file, credentials_file, header_timeout_ms, body_timeout_ms, request_timeout_ms,
  response_timeout_ms, transport_mode, trusted_proxy, LocationDirectiveKind, path, read_permission,
  write_permission, delete_permission, Directive, Token,
}
use spare_node.Configuration.Parser.{
  State, same_kind, integer_of, server_expectation, location_expectation, parse_value,
  parse_directive, location_directive, server_directive, server_directive_kind,
  location_directive_kind, token_kind_for, scalar_of, or_empty, advance, consume,
}
use spare_node.Configuration.Typing.{
  server_name, server_literal, location_name, location_literal, Denotes, IsWritten, Holds,
  advance-Holds, consume-Holds, same_kind-eq, parse_value-cases,
}

whole_number_bound :
    (largest : ℕ) (bytes : Bytes) (n : ℕ) → whole_number largest bytes ≡ some n → n ≤ largest
unfolding whole_number from_chars
whole_number_bound largest [] n h = absurd (ground (arith, h))
whole_number_bound largest (byte ∷ bytes) n h = ground (arith, h)

integer_of_bound : (bytes : Bytes) (n : ℕ) → integer_of bytes ≡ some n → n < 2 ^ 64
unfolding integer_of
integer_of_bound [] n h = ground (arith, h)
integer_of_bound (byte ∷ bytes) n h =
    omega (arith, whole_number_bound (2 ^ 64 - 1) (byte ∷ bytes) n h)

-- An expectation that stands for a type of scalar.
data IsScalar : Expectation → Type 0 where
  a_string : IsScalar expects_string
  an_integer : IsScalar expects_integer
  a_boolean : IsScalar expects_boolean

scalar_of-Denotes :
    {expected : Expectation} (s : State) (scalar : Scalar)
    → IsScalar expected
    → scalar_of (token_kind_for expected) expected s ≡ ok scalar
    → Denotes s.current (token_kind_for expected) scalar
unfolding token_kind_for scalar_of
scalar_of-Denotes s scalar a_string h =
    let e : text (or_empty s.current.decoded_string) ≡ scalar = ground (arith, h) in
    subst (Denotes s.current string_literal) e refl
scalar_of-Denotes s scalar a_boolean h =
    let e : switch (bytes_eq s.current.lexeme (codes "true")) ≡ scalar = ground (arith, h) in
    subst (Denotes s.current boolean_literal) e refl
scalar_of-Denotes s scalar an_integer h = elim (Option-cases (integer_of s.current.lexeme)) [
  | inl out ↦ absurd (ground (arith, h, out))
  | inr (n, read) ↦
      let e : integer n ≡ scalar = ground (arith, h, read) in
      subst (Denotes s.current integer_literal) e (read, integer_of_bound s.current.lexeme n read)
]

-- The expectations of the parser are the literals of the grammar.
server_expectation-IsScalar : (kind : ServerDirectiveKind) → IsScalar (server_expectation kind)
unfolding server_expectation
server_expectation-IsScalar bind = a_string
server_expectation-IsScalar port = an_integer
server_expectation-IsScalar multithreading = a_boolean
server_expectation-IsScalar worker_threads = an_integer
server_expectation-IsScalar log_level = a_string
server_expectation-IsScalar mime_types_file = a_string
server_expectation-IsScalar credentials_file = a_string
server_expectation-IsScalar header_timeout_ms = an_integer
server_expectation-IsScalar body_timeout_ms = an_integer
server_expectation-IsScalar request_timeout_ms = an_integer
server_expectation-IsScalar response_timeout_ms = an_integer
server_expectation-IsScalar transport_mode = a_string
server_expectation-IsScalar trusted_proxy = a_string

location_expectation-IsScalar :
    (kind : LocationDirectiveKind) → IsScalar (location_expectation kind)
unfolding location_expectation
location_expectation-IsScalar path = a_string
location_expectation-IsScalar read_permission = a_boolean
location_expectation-IsScalar write_permission = a_boolean
location_expectation-IsScalar delete_permission = a_boolean

server_expectation-literal :
    (kind : ServerDirectiveKind) → token_kind_for (server_expectation kind) ≡ server_literal kind
unfolding server_expectation token_kind_for
server_expectation-literal bind = refl
server_expectation-literal port = refl
server_expectation-literal multithreading = refl
server_expectation-literal worker_threads = refl
server_expectation-literal log_level = refl
server_expectation-literal mime_types_file = refl
server_expectation-literal credentials_file = refl
server_expectation-literal header_timeout_ms = refl
server_expectation-literal body_timeout_ms = refl
server_expectation-literal request_timeout_ms = refl
server_expectation-literal response_timeout_ms = refl
server_expectation-literal transport_mode = refl
server_expectation-literal trusted_proxy = refl

location_expectation-literal :
    (kind : LocationDirectiveKind)
    → token_kind_for (location_expectation kind) ≡ location_literal kind
unfolding location_expectation token_kind_for
location_expectation-literal path = refl
location_expectation-literal read_permission = refl
location_expectation-literal write_permission = refl
location_expectation-literal delete_permission = refl

location_directive_kind-name :
    (name : Bytes) (kind : LocationDirectiveKind)
    → location_directive_kind name ≡ some kind
    → bytes_eq name (location_name kind) ≡ true
unfolding location_directive_kind
location_directive_kind-name name path h = ground (arith, h)
location_directive_kind-name name read_permission h = ground (arith, h)
location_directive_kind-name name write_permission h = ground (arith, h)
location_directive_kind-name name delete_permission h = ground (arith, h)

server_directive_kind-name :
    (name : Bytes) (kind : ServerDirectiveKind)
    → server_directive_kind name ≡ some kind
    → bytes_eq name (server_name kind) ≡ true
unfolding server_directive_kind
server_directive_kind-name name bind h = ground (arith, h)
server_directive_kind-name name port h = ground (arith, h)
server_directive_kind-name name multithreading h = ground (arith, h)
server_directive_kind-name name worker_threads h = ground (arith, h)
server_directive_kind-name name log_level h = ground (arith, h)
server_directive_kind-name name mime_types_file h = ground (arith, h)
server_directive_kind-name name credentials_file h = ground (arith, h)
server_directive_kind-name name header_timeout_ms h = ground (arith, h)
server_directive_kind-name name body_timeout_ms h = ground (arith, h)
server_directive_kind-name name request_timeout_ms h = ground (arith, h)
server_directive_kind-name name response_timeout_ms h = ground (arith, h)
server_directive_kind-name name transport_mode h = ground (arith, h)
server_directive_kind-name name trusted_proxy h = ground (arith, h)

module _ (P : Token → Type 0) where
  parse_directive-IsWritten :
      {Kind : Type 0} (name : Kind → Bytes) (literal : Kind → TokenKind) (kind : Kind)
      {expected : Expectation} (s next : State) (d : Directive Kind)
      → IsScalar expected
      → token_kind_for expected ≡ literal kind
      → s.current.kind ≡ identifier
      → s.current.lexeme ≡ name kind
      → Holds P s
      → parse_directive kind expected s ≡ ok (d, next)
      → IsWritten P name literal d × Holds P next
  unfolding parse_directive
  parse_directive-IsWritten name literal kind {expected} s next d scalar takes named spelled h e =
      elim (Result-cases (advance s)) [
        | inr (f, failed) ↦ absurd (ground (arith, e, failed))
        | inl (at_value, moved) ↦ elim (Result-cases (parse_value expected at_value)) [
          | inr (f, failed) ↦ absurd (ground (arith, e, moved, failed))
          | inl ((value, at_end), read) ↦
              elim (Result-cases (consume semicolon expects_semicolon at_end)) [
                | inr (f, failed) ↦ absurd (ground (arith, e, moved, read, failed))
                | inl (later, closed) ↦
                    let at = advance-Holds P s at_value h moved in
                    let (required, scalar_read, located, further) =
                      parse_value-cases expected at_value at_end value read in
                    let result : (
                      record { kind = kind; value = value; location = s.current.location },
                      later,
                    )
                        ≡ (d, next) =
                      ground (arith, e, moved, read, closed) in
                    subst (λ (r : Directive _ × State). IsWritten P name literal r.0 × Holds P r.1)
                      result
                      (
                        (
                          s.current,
                          at_value.current,
                          h.current_has,
                          named,
                          spelled,
                          refl,
                          at.current_has,
                          required ∙ takes,
                          located,
                          subst (λ k. Denotes at_value.current k value.scalar) takes
                              (scalar_of-Denotes at_value value.scalar scalar scalar_read),
                        ),
                        consume-Holds P semicolon expects_semicolon at_end later
                            (advance-Holds P at_value at_end at further) closed,
                      )
              ]
        ]
      ]

  pub server_directive-IsWritten :
      (s next : State) (d : Directive ServerDirectiveKind)
      → s.current.kind ≡ identifier
      → Holds P s
      → server_directive s ≡ ok (d, next)
      → IsWritten P server_name server_literal d × Holds P next
  unfolding server_directive
  server_directive-IsWritten s next d named h e =
      elim (Option-cases (server_directive_kind s.current.lexeme)) [
        | inl unknown ↦ absurd (ground (arith, e, unknown))
        | inr (kind, known) ↦
            parse_directive-IsWritten server_name server_literal kind s next d
              (server_expectation-IsScalar kind) (server_expectation-literal kind) named
              ((bytes_eq_iff s.current.lexeme (server_name kind)).0
                (server_directive_kind-name s.current.lexeme kind known))
              h (ground (arith, e, known))
      ]

  pub location_directive-IsWritten :
      (s next : State) (d : Directive LocationDirectiveKind)
      → Holds P s
      → location_directive s ≡ ok (d, next)
      → IsWritten P location_name location_literal d × Holds P next
  unfolding location_directive
  location_directive-IsWritten s next d h e =
      elim (Option-cases (location_directive_kind s.current.lexeme)) [
        | inl unknown ↦ absurd (ground (arith, e, unknown))
        | inr (kind, known) ↦ elim (Bool-cases (same_kind s.current.kind identifier)) [
          | inr other ↦ absurd (ground (arith, e, known, other))
          | inl named ↦
              parse_directive-IsWritten location_name location_literal kind s next d
                (location_expectation-IsScalar kind) (location_expectation-literal kind)
                (same_kind-eq s.current.kind identifier named)
                ((bytes_eq_iff s.current.lexeme (location_name kind)).0
                  (location_directive_kind-name s.current.lexeme kind known))
                h (ground (arith, e, known, named))
        ]
      ]
