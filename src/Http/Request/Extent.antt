-- ===== src/Http/Request/Extent.antt =====
-- How much of the input an accepted head takes up.
use spare_node.Base.{
  ℕ, suc, ◌+◌, ◌-◌, ◌≤◌, [], ◌∷◌, some, Bytes, ok, ltb, ◌≡◌, arith, if◌then◌else◌, length, drop,
  length-drop,
}
use spare_node.Http.Parse.{Limits, size_max}
use spare_node.Http.Request.Lines.{find_header_line_end, find_request_line_end}
use spare_node.Http.Request.Fields.{HeaderParseState}
use spare_node.Http.Request.Stable.{find_header_line_end_bounds, find_request_line_end_bounds}
use spare_node.Http.Request.Sections.{sections_from-ends, parse_http_request_head_parts}
use spare_node.Http.Request.Head.{
  Head, ParsedHeaderSection, end_section, fresh_state, parse_header_section,
  parse_http_request_head, head_of,
}

-- A line end is within the limit of the header section.
find_header_line_end_limit :
    (m s i : ℕ) (rest : Bytes) (e : ℕ)
    → s ≤ i
    → find_header_line_end m s i rest ≡ ok (some e)
    → e + 2 ≤ s + m
unfolding find_header_line_end
find_header_line_end_limit m s i [] e k h = absurd (ground (arith, h))
find_header_line_end_limit m s i (b ∷ []) e k h = absurd (ground (arith, h))
find_header_line_end_limit m s i (b ∷ c ∷ rest) e k h =
    ground (arith, h, k, find_header_line_end_limit m s (suc i) (c ∷ rest) e)

find_request_line_end_limit :
    (m i : ℕ) (rest : Bytes) (e : ℕ) → find_request_line_end m i rest ≡ ok (some e) → e ≤ m
unfolding find_request_line_end
find_request_line_end_limit m i [] e h = absurd (ground (arith, h))
find_request_line_end_limit m i (b ∷ []) e h = absurd (ground (arith, h))
find_request_line_end_limit m i (b ∷ c ∷ rest) e h =
    ground (arith, h, find_request_line_end_limit m (suc i) (c ∷ rest) e)

body_start-end_section :
    (s e : ℕ) (state : HeaderParseState) (parsed : ParsedHeaderSection)
    → end_section s e state ≡ ok (some parsed)
    → parsed.body_start ≡ e + 2
unfolding end_section
body_start-end_section s e state parsed h = ground (arith, h)

parse_header_section_extent :
    (input : Bytes) (s : ℕ) (limits : Limits) (parsed : ParsedHeaderSection)
    → s ≤ length input
    → parse_header_section input s limits ≡ ok (some parsed)
    → (parsed.body_start ≤ length input) × (parsed.body_start ≤ s + limits.max_header_bytes)
unfolding parse_header_section
parse_header_section_extent input s limits parsed k h =
    let (l, rest, state, (low, whole), found, ends) =
      sections_from-ends limits s (λ l rest state. (s ≤ l) × (l + length rest ≡ length input))
        (λ l rest state e next p found read.
          let (low, whole) = p in
          let (after, room) =
            find_header_line_end_bounds limits.max_header_bytes s l rest e found in
          (
            omega (arith, low, after),
            omega (arith, low, whole, after, room, length-drop (e + 2 - l) rest),
          ))
        (length (drop s input)) s (drop s input) fresh_state parsed
        (omega arith, omega (arith, k, length-drop s input)) h in
    let (after, room) = find_header_line_end_bounds limits.max_header_bytes s l rest l found in
    let at = body_start-end_section s l state parsed ends in
    (
      omega (arith, whole, room, at),
      omega (arith, at, find_header_line_end_limit limits.max_header_bytes s l rest l low found),
    )

-- `maximum_http_request_head_bytes`.
unfoldable pub maximum_http_request_head_bytes : Limits → ℕ
maximum_http_request_head_bytes limits =
    if ltb (size_max - 2) limits.max_request_line_bytes
    then 0
    else if ltb (size_max - (limits.max_request_line_bytes + 2)) limits.max_header_bytes
    then 0
    else limits.max_request_line_bytes + 2 + limits.max_header_bytes

-- An accepted head is part of the input, and its two parts keep their limits.
pub parse_http_request_head_extent :
    (input : Bytes) (limits : Limits) (parsed : Head)
    → parse_http_request_head input limits ≡ ok (some parsed)
    → (parsed.consumed_bytes ≤ length input)
      × (parsed.consumed_bytes ≤ limits.max_request_line_bytes + 2 + limits.max_header_bytes)
unfolding head_of
parse_http_request_head_extent input limits parsed h =
    let (e, method, target, section, found, line, read, same) =
      parse_http_request_head_parts input limits parsed h in
    let (after, room) =
      find_request_line_end_bounds limits.max_request_line_bytes 0 input e found in
    let (inside, short) =
      parse_header_section_extent input (e + 2) limits section (omega (arith, room)) read in
    let small = find_request_line_end_limit limits.max_request_line_bytes 0 input e found in
    rw same (inside, omega (arith, short, small))

-- An accepted head is part of the input, and no longer than the bound that the server reserves,
-- where that bound does not overflow.
pub parse_http_request_head-maximum_http_request_head_bytes :
    (input : Bytes) (limits : Limits) (parsed : Head)
    → limits.max_request_line_bytes + 2 + limits.max_header_bytes ≤ size_max
    → parse_http_request_head input limits ≡ ok (some parsed)
    → (parsed.consumed_bytes ≤ length input)
      × (parsed.consumed_bytes ≤ maximum_http_request_head_bytes limits)
unfolding maximum_http_request_head_bytes
parse_http_request_head-maximum_http_request_head_bytes input limits parsed fits h =
    ground (arith, fits, parse_http_request_head_extent input limits parsed h)
