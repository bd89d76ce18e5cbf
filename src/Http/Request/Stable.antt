-- ===== src/Http/Request/Stable.antt =====
-- An answer other than "incomplete" does not change when more input arrives.
use spare_node.Base.{
  ℕ, zero, suc, ◌+◌, ◌-◌, ◌≤◌, [], ◌∷◌, ◌++◌, none, some, Bytes, ok, ◌==◌, ◌≡◌, ◌≢◌, refl, ap,
  arith, inl, inr, length, take, drop, length-append, take-append_left, drop-append_left,
  Bool-cases, Result-cases, Option-cases,
}
use spare_node.Http.Parse.{Limits}
use spare_node.Http.Request.Lines.{find_request_line_end, find_header_line_end}
use spare_node.Http.Request.Fields.{HeaderParseState, parse_request_line}
use spare_node.Http.Request.Sections.{Step-cases}
use spare_node.Http.Request.Head.{
  Step, finished, continues, header_line, after_line, section_step, sections_from, fresh_state,
  parse_header_section, after_request_line, parse_http_request_head,
}

find_request_line_end-append :
    (m i : ℕ) (rest more : Bytes)
    → find_request_line_end m i rest ≢ ok none
    → find_request_line_end m i (rest ++ more) ≡ find_request_line_end m i rest
unfolding find_request_line_end
find_request_line_end-append m i [] more h = absurd (h refl)
find_request_line_end-append m i (b ∷ []) more h = ground (arith, h)
find_request_line_end-append m i (b ∷ c ∷ rest) more h =
    ground (arith, h, find_request_line_end-append m (suc i) (c ∷ rest) more)

find_header_line_end-append :
    (m s i : ℕ) (rest more : Bytes)
    → find_header_line_end m s i rest ≢ ok none
    → find_header_line_end m s i (rest ++ more) ≡ find_header_line_end m s i rest
unfolding find_header_line_end
find_header_line_end-append m s i [] more h = absurd (h refl)
find_header_line_end-append m s i (b ∷ []) more h = ground (arith, h)
find_header_line_end-append m s i (b ∷ c ∷ rest) more h =
    ground (arith, h, find_header_line_end-append m s (suc i) (c ∷ rest) more)

-- A found line end lies in the input, its line feed included.
pub find_header_line_end_bounds :
    (m s i : ℕ) (rest : Bytes) (e : ℕ)
    → find_header_line_end m s i rest ≡ ok (some e)
    → (i ≤ e) × (e + 2 ≤ i + length rest)
unfolding find_header_line_end
find_header_line_end_bounds m s i [] e h = absurd (ground (arith, h))
find_header_line_end_bounds m s i (b ∷ []) e h = absurd (ground (arith, h))
find_header_line_end_bounds m s i (b ∷ c ∷ rest) e h =
    ground (arith, h, find_header_line_end_bounds m s (suc i) (c ∷ rest) e)

pub find_request_line_end_bounds :
    (m i : ℕ) (rest : Bytes) (e : ℕ)
    → find_request_line_end m i rest ≡ ok (some e)
    → (i ≤ e) × (e + 2 ≤ i + length rest)
unfolding find_request_line_end
find_request_line_end_bounds m i [] e h = absurd (ground (arith, h))
find_request_line_end_bounds m i (b ∷ []) e h = absurd (ground (arith, h))
find_request_line_end_bounds m i (b ∷ c ∷ rest) e h =
    ground (arith, h, find_request_line_end_bounds m (suc i) (c ∷ rest) e)

-- A step on the longer input.
abbrev extend : Bytes → Step → Step
extend more (finished result) = finished result
extend more (continues line_start rest state) = continues line_start (rest ++ more) state

after_line-append :
    (limits : Limits) (s l : ℕ) (rest more : Bytes) (state : HeaderParseState) (e : ℕ)
    → l ≤ e
    → e + 2 ≤ l + length rest
    → after_line limits s l (rest ++ more) state e
      ≡ extend more (after_line limits s l rest state e)
unfolding after_line
after_line-append limits s l rest more state e h k =
    let same : header_line limits (take (e - l) (rest ++ more)) l state
        ≡ header_line limits (take (e - l) rest) l state =
      ap (λ line. header_line limits line l state)
        (take-append_left (e - l) rest more (omega (arith, h, k))) in
    elim (Bool-cases (e == l)) [
      | inl here ↦ rw (after_line, here) refl
      | inr there ↦ elim (Result-cases (header_line limits (take (e - l) rest) l state)) [
        | inl (next, read) ↦
            rw
              (
                after_line,
                there,
                same,
                read,
                drop-append_left (e + 2 - l) rest more (omega (arith, h, k)),
              )
              refl
        | inr (x, failed) ↦ rw (after_line, there, same, failed) refl
      ]
    ]

section_step-append :
    (limits : Limits) (s l : ℕ) (rest more : Bytes) (state : HeaderParseState)
    → find_header_line_end limits.max_header_bytes s l rest ≢ ok none
    → section_step limits s l (rest ++ more) state
      ≡ extend more (section_step limits s l rest state)
unfolding section_step
section_step-append limits s l rest more state h =
    rw (section_step, find_header_line_end-append limits.max_header_bytes s l rest more h)
      (elim (Result-cases (find_header_line_end limits.max_header_bytes s l rest)) [
        | inr (x, failed) ↦ rw (section_step, failed) refl
        | inl (o, found) ↦ elim (Option-cases o) [
          | inl missing ↦ absurd (h (rw found (ap ok missing)))
          | inr (e, at) ↦
              let found' : find_header_line_end limits.max_header_bytes s l rest ≡ ok (some e) =
                rw found (ap ok at) in
              let (low, high) =
                find_header_line_end_bounds limits.max_header_bytes s l rest e found' in
              rw (section_step, found') (after_line-append limits s l rest more state e low high)
        ]
      ])

-- A step that goes on, or ends with an answer, has found a line end.
section_step-found :
    (limits : Limits) (s l : ℕ) (rest : Bytes) (state : HeaderParseState)
    → section_step limits s l rest state ≢ finished (ok none)
    → find_header_line_end limits.max_header_bytes s l rest ≢ ok none
unfolding section_step
section_step-found limits s l rest state h missing = h (rw (section_step, missing) refl)

-- More input and more fuel do not change an answer.
sections_from-append :
    (fuel fuel' : ℕ) (limits : Limits) (s l : ℕ) (rest more : Bytes) (state : HeaderParseState)
    → fuel ≤ fuel'
    → sections_from fuel limits s l rest state ≢ ok none
    → sections_from fuel' limits s l (rest ++ more) state ≡ sections_from fuel limits s l rest state
unfolding sections_from
sections_from-append zero fuel' limits s l rest more state h k = absurd (k refl)
sections_from-append (suc fuel) zero limits s l rest more state h k = absurd (omega (arith, h))
sections_from-append (suc fuel) (suc fuel') limits s l rest more state h k =
    elim (Step-cases (section_step limits s l rest state)) [
      | inl (r, done) ↦
          let answered : section_step limits s l rest state ≢ finished (ok none) =
            λ e. k (rw (sections_from, e) refl) in
          rw
            (
              sections_from,
              section_step-append limits s l rest more state
                  (section_step-found limits s l rest state answered),
              done,
            )
            refl
      | inr (l', rest', state', goes) ↦
          let answered : section_step limits s l rest state ≢ finished (ok none) =
            λ e. grind (arith, e, goes) in
          let later : sections_from fuel limits s l' rest' state' ≢ ok none =
            λ e. k (rw (sections_from, goes) e) in
          rw
            (
              sections_from,
              section_step-append limits s l rest more state
                  (section_step-found limits s l rest state answered),
              goes,
            )
            (sections_from-append fuel fuel' limits s l' rest' more state' (omega (arith, h)) later)
    ]

-- The header section of the longer input.
parse_header_section-append :
    (input more : Bytes) (header_start : ℕ) (limits : Limits)
    → header_start ≤ length input
    → parse_header_section input header_start limits ≢ ok none
    → parse_header_section (input ++ more) header_start limits
      ≡ parse_header_section input header_start limits
unfolding parse_header_section
parse_header_section-append input more header_start limits h k =
    rw (drop-append_left header_start input more h) (
      sections_from-append (length (drop header_start input))
        (length (drop header_start input ++ more)) limits header_start header_start
        (drop header_start input) more fresh_state
        (omega (arith, length-append (drop header_start input) more)) k)

after_request_line-append :
    (input more : Bytes) (limits : Limits) (e : ℕ)
    → e + 2 ≤ length input
    → after_request_line input limits e ≢ ok none
    → after_request_line (input ++ more) limits e ≡ after_request_line input limits e
unfolding after_request_line
after_request_line-append input more limits e h k =
    let line : parse_request_line (take e (input ++ more)) ≡ parse_request_line (take e input) =
      ap parse_request_line (take-append_left e input more (omega (arith, h))) in
    elim (Result-cases (parse_request_line (take e input))) [
      | inr (x, failed) ↦ rw (after_request_line, line, failed) refl
      | inl ((method, target), read) ↦
          let section : parse_header_section input (e + 2) limits ≢ ok none =
            λ q. k (rw (after_request_line, read, q) refl) in
          rw
            (
              after_request_line,
              line,
              read,
              parse_header_section-append input more (e + 2) limits h section,
            )
            refl
    ]

-- An answer about the input, a head or an error, is also the answer about every longer input:
-- reading on does not change what is already known.
pub parse_http_request_head-append :
    (input more : Bytes) (limits : Limits)
    → parse_http_request_head input limits ≢ ok none
    → parse_http_request_head (input ++ more) limits ≡ parse_http_request_head input limits
unfolding parse_http_request_head
parse_http_request_head-append input more limits k =
    let found : find_request_line_end limits.max_request_line_bytes 0 input ≢ ok none =
      λ q. k (rw (parse_http_request_head, q) refl) in
    rw
      (
        parse_http_request_head,
        find_request_line_end-append limits.max_request_line_bytes 0 input more found,
      )
      (elim (Result-cases (find_request_line_end limits.max_request_line_bytes 0 input)) [
        | inr (x, failed) ↦ rw (parse_http_request_head, failed) refl
        | inl (o, at) ↦ elim (Option-cases o) [
          | inl missing ↦ absurd (found (rw at (ap ok missing)))
          | inr (e, here) ↦
              let line : find_request_line_end limits.max_request_line_bytes 0 input ≡ ok (some e) =
                rw at (ap ok here) in
              let (low, high) =
                find_request_line_end_bounds limits.max_request_line_bytes 0 input e line in
              let rest : after_request_line input limits e ≢ ok none =
                λ q. k (rw (parse_http_request_head, line) q) in
              rw (parse_http_request_head, line)
                (after_request_line-append input more limits e (omega (arith, high)) rest)
        ]
      ])
