-- ===== src/Configuration/Rounds.antt =====
-- The fuel of the parser's two loops is enough.
use native.Mathlib.Decide.{dec_lt}
use spare_node.Base.{
  ℕ, zero, suc, ◌+◌, ◌≤◌, ◌<◌, true, List, [], ◌∷◌, ◌++◌, ok, ◌≡◌, refl, sym, ap, ◌∙◌, inl, inr,
  arith, bytes_eq, codes, Bool-cases, Result-cases, Option-cases,
}
use spare_node.Configuration.Syntax.{
  SourceLocation, Token, TokenKind, identifier, string_literal, left_brace, right_brace,
  expects_left_brace, expects_right_brace, Directive, LocationDirectiveKind, ServerDirectiveKind,
  LocationBlock, ServerBlock,
}
use spare_node.Configuration.Parser.{
  State, advance, consume, same_kind, goes_on, fuel_of, location_directive_kind,
  location_expectation, location_directive, location_directives, location_body, parse_location,
  server_directive_kind, server_expectation, server_directive, parse_server_item, server_items,
}
use spare_node.Configuration.Progress.{
  left, next_from_shrinks, next_from_again, consume_next, parse_directive_shrinks,
}

location_directive_shrinks :
    (s next : State) (d : Directive LocationDirectiveKind)
    → location_directive s ≡ ok (d, next)
    → left next < left s
unfolding location_directive
location_directive_shrinks s next d h =
    elim (Option-cases (location_directive_kind s.current.lexeme)) [
      | inl unknown ↦ absurd (ground (arith, h, unknown))
      | inr (kind, known) ↦
          parse_directive_shrinks kind (location_expectation kind) s next d
            (ground (arith, h, known))
    ]

location_directives_shrinks :
    (fuel : ℕ) (s next : State) (before after : List (Directive LocationDirectiveKind))
    → location_directives fuel s before ≡ ok (after, next)
    → left next ≤ left s
unfolding location_directives
location_directives_shrinks zero s next before after h =
    let same : s ≡ next = ground (arith, h) in omega (arith, ap left same)
location_directives_shrinks (suc fuel) s next before after h = elim (Bool-cases (goes_on s)) [
  | inr stops ↦ let same : s ≡ next = ground (arith, h, stops) in omega (arith, ap left same)
  | inl goes ↦ elim (Result-cases (location_directive s)) [
    | inr (e, failed) ↦ absurd (ground (arith, h, goes, failed))
    | inl ((d, later), read) ↦ omega (
      arith,
      location_directive_shrinks s later d read,
      location_directives_shrinks fuel later next (before ++ d ∷ []) after
          (ground (arith, h, goes, read)),
    )
  ]
]

location_directives_enough :
    (fuel fuel' : ℕ) (s : State) (before : List (Directive LocationDirectiveKind))
    → left s < fuel
    → fuel ≤ fuel'
    → location_directives fuel s before ≡ location_directives fuel' s before
unfolding location_directives
location_directives_enough zero fuel' s before h k = absurd (omega (arith, h))
location_directives_enough (suc fuel) zero s before h k = absurd (omega (arith, k))
location_directives_enough (suc fuel) (suc fuel') s before h k = elim (Bool-cases (goes_on s)) [
  | inr stops ↦ rw (location_directives, stops) refl
  | inl goes ↦ elim (Result-cases (location_directive s)) [
    | inr (e, failed) ↦ rw (location_directives, goes, failed) refl
    | inl ((d, later), read) ↦
        rw (location_directives, goes, read)
          (location_directives_enough fuel fuel' later (before ++ d ∷ [])
            (omega (arith, h, location_directive_shrinks s later d read)) (omega (arith, k)))
  ]
]

location_body_shrinks :
    (keyword : SourceLocation) (api_path : Token) (s next : State) (block : LocationBlock)
    → location_body keyword api_path s ≡ ok (block, next)
    → left next ≤ left s
unfolding location_body
location_body_shrinks keyword api_path s next block h =
    elim (Result-cases (location_directives (fuel_of s) s [])) [
      | inr (e, failed) ↦ absurd (ground (arith, h, failed))
      | inl ((ds, at_brace), read) ↦
          elim (Result-cases (consume right_brace expects_right_brace at_brace)) [
            | inr (e, failed) ↦ absurd (ground (arith, h, read, failed))
            | inl (later, closed) ↦
                let same : later ≡ next = ground (arith, h, read, closed) in
                let (fits, moved) =
                  consume_next right_brace expects_right_brace at_brace later closed in
                omega (
                  arith,
                  location_directives_shrinks (fuel_of s) s at_brace [] ds read,
                  (next_from_shrinks at_brace.lexer.tokens at_brace.lexer.ending later moved).1,
                  ap left same,
                )
          ]
    ]

-- No token is both a string and an opening brace.
string_or_brace :
    (kind : TokenKind) → same_kind kind string_literal ≡ true → same_kind kind left_brace ≡ true → ⊥
string_or_brace kind h k = ground (arith, h, k)

parse_location_shrinks :
    (s next : State) (block : LocationBlock)
    → parse_location s ≡ ok (block, next)
    → left next < left s
unfolding parse_location
parse_location_shrinks s next block h = elim (Result-cases (advance s)) [
  | inr (e, failed) ↦ absurd (ground (arith, h, failed))
  | inl (at_path, moved) ↦ elim (Bool-cases (same_kind at_path.current.kind string_literal)) [
    | inr other ↦ absurd (ground (arith, h, moved, other))
    | inl literal ↦ elim (Result-cases (advance at_path)) [
      | inr (e, failed) ↦ absurd (ground (arith, h, moved, literal, failed))
      | inl (at_brace, further) ↦
          elim (Result-cases (consume left_brace expects_left_brace at_brace)) [
            | inr (e, failed) ↦ absurd (ground (arith, h, moved, literal, further, failed))
            | inl (inside, opened) ↦
                let (brace, entered) =
                  consume_next left_brace expects_left_brace at_brace inside opened in
                let one = next_from_shrinks s.lexer.tokens s.lexer.ending at_path moved in
                let two =
                  next_from_shrinks at_path.lexer.tokens at_path.lexer.ending at_brace further in
                let three =
                  next_from_shrinks at_brace.lexer.tokens at_brace.lexer.ending inside entered in
                let body =
                  location_body_shrinks s.current.location at_path.current inside next block
                    (ground (arith, h, moved, literal, further, opened)) in
                elim (dec_lt 0 (left s)) [
                  | yes more ↦ omega (arith, one.0 more, two.1, three.1, body)
                  | no none_shrinks ↦
                      let again =
                        next_from_again s.lexer.tokens s.lexer.ending at_path
                          (omega (arith, none_shrinks)) moved in
                      let repeated : at_path ≡ at_brace = ground (arith, again, further) in
                      absurd (
                        string_or_brace at_path.current.kind literal (
                          ap (λ (t : State). same_kind t.current.kind left_brace) repeated ∙ brace))
                ]
          ]
    ]
  ]
]

server_directive_shrinks :
    (s next : State) (d : Directive ServerDirectiveKind)
    → server_directive s ≡ ok (d, next)
    → left next < left s
unfolding server_directive
server_directive_shrinks s next d h = elim (Option-cases (server_directive_kind s.current.lexeme)) [
  | inl unknown ↦ absurd (ground (arith, h, unknown))
  | inr (kind, known) ↦
      parse_directive_shrinks kind (server_expectation kind) s next d (ground (arith, h, known))
]

parse_server_item_shrinks :
    (server more : ServerBlock) (s next : State)
    → parse_server_item server s ≡ ok (more, next)
    → left next < left s
unfolding parse_server_item
parse_server_item_shrinks server more s next h =
    elim (Bool-cases (same_kind s.current.kind identifier)) [
      | inr other ↦ absurd (ground (arith, h, other))
      | inl name ↦ elim (Bool-cases (bytes_eq s.current.lexeme (codes "location"))) [
        | inl block ↦ elim (Result-cases (parse_location s)) [
          | inr (e, failed) ↦ absurd (ground (arith, h, name, block, failed))
          | inl ((location, later), read) ↦
              let same : later ≡ next = ground (arith, h, name, block, read) in
              omega (arith, parse_location_shrinks s later location read, ap left same)
        ]
        | inr directive ↦ elim (Result-cases (server_directive s)) [
          | inr (e, failed) ↦ absurd (ground (arith, h, name, directive, failed))
          | inl ((d, later), read) ↦
              let same : later ≡ next = ground (arith, h, name, directive, read) in
              omega (arith, server_directive_shrinks s later d read, ap left same)
        ]
      ]
    ]

server_items_enough :
    (fuel fuel' : ℕ) (server : ServerBlock) (s : State)
    → left s < fuel
    → fuel ≤ fuel'
    → server_items fuel server s ≡ server_items fuel' server s
unfolding server_items
server_items_enough zero fuel' server s h k = absurd (omega (arith, h))
server_items_enough (suc fuel) zero server s h k = absurd (omega (arith, k))
server_items_enough (suc fuel) (suc fuel') server s h k = elim (Bool-cases (goes_on s)) [
  | inr stops ↦ rw (server_items, stops) refl
  | inl goes ↦ elim (Result-cases (parse_server_item server s)) [
    | inr (e, failed) ↦ rw (server_items, goes, failed) refl
    | inl ((more, later), read) ↦
        rw (server_items, goes, read)
          (server_items_enough fuel fuel' more later
            (omega (arith, h, parse_server_item_shrinks server more s later read))
            (omega (arith, k)))
  ]
]

-- The fuel that the parser gives its two loops, one round more than there are tokens to come, is
-- enough, whatever the lexer answers: with any more of it each loop gives the same result.
pub fuel_of_enough :
    (extra : ℕ) (s : State) (server : ServerBlock) (before : List (Directive LocationDirectiveKind))
    → (location_directives (fuel_of s + extra) s before ≡ location_directives (fuel_of s) s before)
      × (server_items (fuel_of s + extra) server s ≡ server_items (fuel_of s) server s)
fuel_of_enough extra s server before = (
  sym (
      location_directives_enough (fuel_of s) (fuel_of s + extra) s before (omega arith)
        (omega arith)),
  sym (server_items_enough (fuel_of s) (fuel_of s + extra) server s (omega arith) (omega arith)),
)
