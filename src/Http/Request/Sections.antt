-- ===== src/Http/Request/Sections.antt =====
-- Where the loop of `parse_header_section` can end, for any property of its rounds.
use spare_node.Base.{
  ℕ, zero, suc, ◌+◌, ◌-◌, none, some, Bytes, ok, ◌==◌, ◌≡◌, subst, refl, ap, ◌∙◌, arith, ◌⊎◌, inl,
  inr, take, drop, Bool-cases, Result-cases,
}
use spare_node.Http.Parse.{Method, Limits}
use spare_node.Http.Request.Lines.{find_request_line_end, find_header_line_end}
use spare_node.Http.Request.Target.{ParsedRequestTarget}
use spare_node.Http.Request.Fields.{parse_request_line, HeaderParseState}
use spare_node.Http.Request.Head.{
  Head, parse_header_section, after_request_line, parse_http_request_head, head_of,
  ParsedHeaderSection, SectionResult, Step, finished, continues, header_line, end_section,
  after_line, section_step, sections_from,
}

pub Step-cases :
    (step : Step)
    → ((r : SectionResult) × (step ≡ finished r))
      ⊎ ((l : ℕ) × (rest : Bytes) × (state : HeaderParseState) × (step ≡ continues l rest state))
Step-cases (finished r) = inl (r, refl)
Step-cases (continues l rest state) = inr (l, rest, state, refl)

module _ (limits : Limits) (s l : ℕ) (rest : Bytes) (state : HeaderParseState) where
  -- What a line end at `e` comes to.
  after_line_next :
      (e l' : ℕ) (rest' : Bytes) (next : HeaderParseState)
      → after_line limits s l rest state e ≡ continues l' rest' next
      → (header_line limits (take (e - l) rest) l state ≡ ok next)
        × (e + 2 ≡ l')
        × (drop (e + 2 - l) rest ≡ rest')
  unfolding after_line
  after_line_next e l' rest' next h = elim (Bool-cases (e == l)) [
    | inl here ↦ absurd (ground (arith, h, here))
    | inr there ↦ elim (Result-cases (header_line limits (take (e - l) rest) l state)) [
      | inr (x, failed) ↦ absurd (ground (arith, h, there, failed))
      | inl (next', read) ↦ (
        read ∙ ground (arith, h, there, read),
        ground (arith, h, there, read),
        ground (arith, h, there, read),
      )
    ]
  ]

  after_line_done :
      (e : ℕ) (parsed : ParsedHeaderSection)
      → after_line limits s l rest state e ≡ finished (ok (some parsed))
      → (e ≡ l) × (end_section s l state ≡ ok (some parsed))
  unfolding after_line
  after_line_done e parsed h = elim (Bool-cases (e == l)) [
    | inl here ↦ (ground (arith, here), ground (arith, h, here))
    | inr there ↦ absurd (ground (arith, h, there))
  ]

  -- A round that goes on has read a line.
  pub section_step_next :
      (l' : ℕ) (rest' : Bytes) (next : HeaderParseState)
      → section_step limits s l rest state ≡ continues l' rest' next
      → (e : ℕ) × (find_header_line_end limits.max_header_bytes s l rest ≡ ok (some e))
        × (header_line limits (take (e - l) rest) l state ≡ ok next)
        × (e + 2 ≡ l')
        × (drop (e + 2 - l) rest ≡ rest')
  unfolding section_step
  section_step_next l' rest' next h =
      elim (Result-cases (find_header_line_end limits.max_header_bytes s l rest)) [
        | inr (x, failed) ↦ absurd (ground (arith, h, failed))
        | inl (none, missing) ↦ absurd (ground (arith, h, missing))
        | inl (some e, found) ↦
            let (read, at, left) = after_line_next e l' rest' next (ground (arith, h, found)) in
            (e, found, read, at, left)
      ]

  -- A round that ends the section has found the empty line.
  section_step_done :
      (parsed : ParsedHeaderSection)
      → section_step limits s l rest state ≡ finished (ok (some parsed))
      → (find_header_line_end limits.max_header_bytes s l rest ≡ ok (some l))
        × (end_section s l state ≡ ok (some parsed))
  unfolding section_step
  section_step_done parsed h =
      elim (Result-cases (find_header_line_end limits.max_header_bytes s l rest)) [
        | inr (x, failed) ↦ absurd (ground (arith, h, failed))
        | inl (none, missing) ↦ absurd (ground (arith, h, missing))
        | inl (some e, found) ↦
            let (here, ends) = after_line_done e parsed (ground (arith, h, found)) in
            (found ∙ ap (λ i. ok (some i)) here, ends)
      ]

module _ (limits : Limits) (s : ℕ) (P : ℕ → Bytes → HeaderParseState → Type 0)
    (keeps : (l : ℕ) (rest : Bytes) (state : HeaderParseState) (e : ℕ) (next : HeaderParseState)
      → P l rest state
      → find_header_line_end limits.max_header_bytes s l rest ≡ ok (some e)
      → header_line limits (take (e - l) rest) l state ≡ ok next
      → P (e + 2) (drop (e + 2 - l) rest) next) where
  section_step-keeps :
      (l : ℕ) (rest : Bytes) (state : HeaderParseState) (l' : ℕ) (rest' : Bytes)
      (next : HeaderParseState)
      → P l rest state
      → section_step limits s l rest state ≡ continues l' rest' next
      → P l' rest' next
  section_step-keeps l rest state l' rest' next p h =
      let (e, found, read, at, left) = section_step_next limits s l rest state l' rest' next h in
      subst (λ i. P i rest' next) at
        (subst (λ b. P (e + 2) b next) left (keeps l rest state e next p found read))

  -- A section that is accepted ends at an empty line, where the property holds.
  pub sections_from-ends :
      (fuel l : ℕ) (rest : Bytes) (state : HeaderParseState) (parsed : ParsedHeaderSection)
      → P l rest state
      → sections_from fuel limits s l rest state ≡ ok (some parsed)
      → (l' : ℕ) × (rest' : Bytes) × (state' : HeaderParseState) × P l' rest' state'
        × (find_header_line_end limits.max_header_bytes s l' rest' ≡ ok (some l'))
        × (end_section s l' state' ≡ ok (some parsed))
  unfolding sections_from
  sections_from-ends zero l rest state parsed p h = absurd (ground (arith, h))
  sections_from-ends (suc fuel) l rest state parsed p h =
      elim (Step-cases (section_step limits s l rest state)) [
        | inl (r, done) ↦
            let ends : section_step limits s l rest state ≡ finished (ok (some parsed)) =
              done ∙ ap finished (ground (arith, h, done)) in
            let (found, done') = section_step_done limits s l rest state parsed ends in
            (l, rest, state, p, found, done')
        | inr (l', rest', next, goes) ↦
            sections_from-ends fuel l' rest' next parsed
              (section_step-keeps l rest state l' rest' next p goes) (ground (arith, h, goes))
      ]

-- An accepted head is put together from a request line and a header section.
pub parse_http_request_head_parts :
    (input : Bytes) (limits : Limits) (parsed : Head)
    → parse_http_request_head input limits ≡ ok (some parsed)
    → (e : ℕ) × (method : Method) × (target : ParsedRequestTarget) × (section : ParsedHeaderSection)
      × (find_request_line_end limits.max_request_line_bytes 0 input ≡ ok (some e))
      × (parse_request_line (take e input) ≡ ok (method, target))
      × (parse_header_section input (e + 2) limits ≡ ok (some section))
      × (parsed ≡ head_of method target section)
unfolding parse_http_request_head after_request_line
parse_http_request_head_parts input limits parsed h =
    elim (Result-cases (find_request_line_end limits.max_request_line_bytes 0 input)) [
      | inr (x, failed) ↦ absurd (ground (arith, h, failed))
      | inl (none, missing) ↦ absurd (ground (arith, h, missing))
      | inl (some e, found) ↦ elim (Result-cases (parse_request_line (take e input))) [
        | inr (x, failed) ↦ absurd (ground (arith, h, found, failed))
        | inl ((method, target), line) ↦
            elim (Result-cases (parse_header_section input (e + 2) limits)) [
              | inr (x, failed) ↦ absurd (ground (arith, h, found, line, failed))
              | inl (none, missing) ↦ absurd (ground (arith, h, found, line, missing))
              | inl (some section, read) ↦ (
                e,
                method,
                target,
                section,
                found,
                line,
                read,
                ground (arith, h, found, line, read),
              )
            ]
      ]
    ]
