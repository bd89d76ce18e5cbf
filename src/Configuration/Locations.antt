-- ===== src/Configuration/Locations.antt =====
-- src/configuration/config_parser.cpp: a location that the parser reads is written in its input.
use spare_node.Base.{
  ℕ, zero, suc, List, [], ◌∷◌, ◌++◌, ok, ◌≡◌, subst, inl, inr, arith, All, Bool-cases, Result-cases,
}
use spare_node.Configuration.Syntax.{
  SourceLocation, string_literal, left_brace, right_brace, expects_left_brace, expects_right_brace,
  LocationDirectiveKind, Directive, LocationBlock, Token,
}
use spare_node.Configuration.Parser.{
  State, location_directive, location_directives, location_body, parse_location, fuel_of, goes_on,
  or_empty, advance, consume, same_kind,
}
use spare_node.Configuration.Typing.{
  location_name, location_literal, IsWritten, IsWrittenLocation, Holds, advance-Holds,
  consume-Holds, same_kind-eq, All-snoc,
}
use spare_node.Configuration.Written.{location_directive-IsWritten}

-- Behind its opening brace, a location is its body.
parse_location_body :
    (s next : State) (block : LocationBlock)
    → parse_location s ≡ ok (block, next)
    → (at_path : State) × (at_brace : State) × (inside : State) × (advance s ≡ ok at_path)
      × (at_path.current.kind ≡ string_literal)
      × (advance at_path ≡ ok at_brace)
      × (consume left_brace expects_left_brace at_brace ≡ ok inside)
      × (location_body s.current.location at_path.current inside ≡ ok (block, next))
unfolding parse_location
parse_location_body s next block h = elim (Result-cases (advance s)) [
  | inr (e, failed) ↦ absurd (ground (arith, h, failed))
  | inl (at_path, moved) ↦ elim (Bool-cases (same_kind at_path.current.kind string_literal)) [
    | inr other ↦ absurd (ground (arith, h, moved, other))
    | inl literal ↦ elim (Result-cases (advance at_path)) [
      | inr (e, failed) ↦ absurd (ground (arith, h, moved, literal, failed))
      | inl (at_brace, further) ↦
          elim (Result-cases (consume left_brace expects_left_brace at_brace)) [
            | inr (e, failed) ↦ absurd (ground (arith, h, moved, literal, further, failed))
            | inl (inside, opened) ↦ (
              at_path,
              at_brace,
              inside,
              moved,
              same_kind-eq at_path.current.kind string_literal literal,
              further,
              opened,
              ground (arith, h, moved, literal, further, opened),
            )
          ]
    ]
  ]
]

module _ (P : Token → Type 0) where
  location_directives-IsWritten :
      (fuel : ℕ) (s next : State) (before after : List (Directive LocationDirectiveKind))
      → All (IsWritten P location_name location_literal) before
      → Holds P s
      → location_directives fuel s before ≡ ok (after, next)
      → All (IsWritten P location_name location_literal) after × Holds P next
  unfolding location_directives
  location_directives-IsWritten zero s next before after written h e =
      let done : (before, s) ≡ (after, next) = ground (arith, e) in
      subst
        (λ (r : List (Directive LocationDirectiveKind) × State).
          All (IsWritten P location_name location_literal) r.0 × Holds P r.1)
        done (written, h)
  location_directives-IsWritten (suc fuel) s next before after written h e =
      elim (Bool-cases (goes_on s)) [
        | inr stops ↦
            let done : (before, s) ≡ (after, next) = ground (arith, e, stops) in
            subst
              (λ (r : List (Directive LocationDirectiveKind) × State).
                All (IsWritten P location_name location_literal) r.0 × Holds P r.1)
              done (written, h)
        | inl goes ↦ elim (Result-cases (location_directive s)) [
          | inr (f, failed) ↦ absurd (ground (arith, e, goes, failed))
          | inl ((d, later), read) ↦
              let (one, held) = location_directive-IsWritten P s later d h read in
              location_directives-IsWritten fuel later next (before ++ d ∷ []) after
                (All-snoc (IsWritten P location_name location_literal) before d written one) held
                (ground (arith, e, goes, read))
        ]
      ]

  location_body-IsWritten :
      (keyword : SourceLocation) (api_path : Token) (s next : State) (block : LocationBlock)
      → P api_path
      → api_path.kind ≡ string_literal
      → Holds P s
      → location_body keyword api_path s ≡ ok (block, next)
      → IsWrittenLocation P block × Holds P next
  unfolding location_body
  location_body-IsWritten keyword api_path s next block has literal h e =
      elim (Result-cases (location_directives (fuel_of s) s [])) [
        | inr (f, failed) ↦ absurd (ground (arith, e, failed))
        | inl ((ds, at_brace), read) ↦
            elim (Result-cases (consume right_brace expects_right_brace at_brace)) [
              | inr (f, failed) ↦ absurd (ground (arith, e, read, failed))
              | inl (later, closed) ↦
                  let same : ds ≡ block.directives = ground (arith, e, read, closed) in
                  let located : api_path.location ≡ block.api_path_location =
                    ground (arith, e, read, closed) in
                  let spelled : block.api_path ≡ or_empty api_path.decoded_string =
                    ground (arith, e, read, closed) in
                  let last : later ≡ next = ground (arith, e, read, closed) in
                  let (written, held) =
                    location_directives-IsWritten (fuel_of s) s at_brace [] ds tt h read in
                  (
                    (
                      api_path,
                      has,
                      literal,
                      located,
                      spelled,
                      subst (All (IsWritten P location_name location_literal)) same written,
                    ),
                    subst (Holds P) last (
                        consume-Holds P right_brace expects_right_brace at_brace later held closed),
                  )
            ]
      ]

  pub parse_location-IsWritten :
      (s next : State) (block : LocationBlock)
      → Holds P s
      → parse_location s ≡ ok (block, next)
      → IsWrittenLocation P block × Holds P next
  parse_location-IsWritten s next block h e =
      let (at_path, at_brace, inside, moved, literal, further, opened, body) =
        parse_location_body s next block e in
      let path_held = advance-Holds P s at_path h moved in
      let brace_held = advance-Holds P at_path at_brace path_held further in
      location_body-IsWritten s.current.location at_path.current inside next block
        path_held.current_has literal
        (consume-Holds P left_brace expects_left_brace at_brace inside brace_held opened) body
