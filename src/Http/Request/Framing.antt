-- ===== src/Http/Request/Framing.antt =====
-- What an accepted header section says about the length of the message.
use spare_node.Base.{
  ℕ, suc, ◌+◌, ◌-◌, ◌≤◌, ◌<◌, Bool, true, false, List, [], ◌∷◌, ◌++◌, Option, none, some, Bytes, ok,
  leb, ◌≡◌, ◌≢◌, refl, sym, ap, ◌∙◌, arith, inl, inr, length, take, drop, length-append, Bool-cases,
  Result-cases, Option-cases, codes,
}
use spare_node.Http.Ascii.{ascii_case_insensitive_equal}
use spare_node.Http.Parse.{Limits}
use spare_node.Http.Request.Fields.{
  push_field, HeaderView, HeaderParseState, ParsedHeaderField, is_named, is_some,
  parse_content_length, apply_host, apply_content_length, apply_transfer_encoding,
  apply_header_field, parse_header_field, validate_framing,
}
use spare_node.Http.Request.Sections.{sections_from-ends, parse_http_request_head_parts}
use spare_node.Http.Request.Head.{
  ParsedHeaderSection, Head, header_line, end_section, sections_from, fresh_state,
  parse_header_section, parse_http_request_head, effective_fields, or_zero, head_of,
}

abbrev pub one_if : Bool → ℕ
one_if false = 0
one_if true = 1

-- How many fields have the name.
unfoldable pub fields_named : Bytes → List HeaderView → ℕ
fields_named name [] = 0
fields_named name (field ∷ fields) = one_if (is_named name field) + fields_named name fields

-- The state counts what the fields hold, within the limits.
pub record IsCounted (limits : Limits) (state : HeaderParseState) : Type 0 where
  pub hosts : fields_named (codes "Host") state.headers ≡ one_if state.host_seen
  pub lengths :
      fields_named (codes "Content-Length") state.headers ≡ one_if (is_some state.body_size)
  pub encodings :
      fields_named (codes "Transfer-Encoding") state.headers ≡ one_if state.transfer_encoding_seen
  pub few : length state.headers ≤ limits.max_header_count
  pub small : or_zero state.body_size ≤ limits.max_body_bytes

fields_named-append :
    (name : Bytes) (fields : List HeaderView) (field : HeaderView)
    → fields_named name (fields ++ field ∷ [])
      ≡ fields_named name fields + one_if (is_named name field)
unfolding fields_named
fields_named-append name [] field = omega arith
fields_named-append name (x ∷ fields) field = omega (arith, fields_named-append name fields field)

-- The three names are different, by their lengths.
is_named-length :
    (name : Bytes) (field : HeaderView)
    → is_named name field ≡ true
    → length field.name ≡ length name
unfolding ascii_case_insensitive_equal
is_named-length name field h = ground (arith, h)

other_name :
    (name other : Bytes) (field : HeaderView)
    → length name ≢ length other
    → is_named name field ≡ true
    → is_named other field ≡ false
other_name name other field d h = elim (Bool-cases (is_named other field)) [
  | inr neither ↦ neither
  | inl both ↦ absurd (d (sym (is_named-length name field h) ∙ is_named-length other field both))
]

apply_host_result :
    (parsed : ParsedHeaderField) (state next : HeaderParseState)
    → apply_host parsed state ≡ ok next
    → (state.host_seen ≡ false)
      × (next ≡ push_field parsed.field (record state { host_seen = true }))
unfolding apply_host
apply_host_result parsed state next h = ground (arith, h)

apply_content_length_result :
    (parsed : ParsedHeaderField) (limit : ℕ) (state next : HeaderParseState)
    → apply_content_length parsed limit state ≡ ok next
    → (state.body_size ≡ none)
      × ((n : ℕ) × (n ≤ limit)
          × (next ≡ push_field parsed.field (record state { body_size = some n })))
unfolding apply_content_length
apply_content_length_result parsed limit state next h = elim (Option-cases state.body_size) [
  | inr (n, given) ↦ absurd (ground (arith, h, given))
  | inl fresh ↦ elim (Result-cases (parse_content_length parsed.field.value parsed.value_start)) [
    | inr (x, failed) ↦ absurd (ground (arith, h, fresh, failed))
    | inl (n, read) ↦ (fresh, (n, ground (arith, h, fresh, read), ground (arith, h, fresh, read)))
  ]
]

apply_transfer_encoding_result :
    (parsed : ParsedHeaderField) (state next : HeaderParseState)
    → apply_transfer_encoding parsed state ≡ ok next
    → (state.transfer_encoding_seen ≡ false)
      × (next
          ≡ push_field parsed.field (record state {
            transfer_encoding_seen = true;
            transfer_encoding = parsed.field.value;
            transfer_encoding_offset = parsed.value_start;
          }))
unfolding apply_transfer_encoding
apply_transfer_encoding_result parsed state next h = ground (arith, h)

module _ (limits : Limits) (field : HeaderView) (state : HeaderParseState)
    (c : IsCounted limits state) (k : length state.headers < limits.max_header_count) where
  module _ (host : Bool) (size : Option ℕ) (seen : Bool) (encoding : Bytes) (offset : ℕ) where
    push_field-IsCounted :
        one_if state.host_seen + one_if (is_named (codes "Host") field) ≡ one_if host
        → one_if (is_some state.body_size) + one_if (is_named (codes "Content-Length") field)
          ≡ one_if (is_some size)
        → one_if state.transfer_encoding_seen + one_if (is_named (codes "Transfer-Encoding") field)
          ≡ one_if seen
        → or_zero size ≤ limits.max_body_bytes
        → IsCounted limits (
            push_field field (record state {
              host_seen = host;
              body_size = size;
              transfer_encoding_seen = seen;
              transfer_encoding = encoding;
              transfer_encoding_offset = offset;
            }))
    push_field-IsCounted p q r t = record {
      hosts = omega (arith, fields_named-append (codes "Host") state.headers field, c.hosts, p);
      lengths =
          omega
            (arith, fields_named-append (codes "Content-Length") state.headers field, c.lengths, q);
      encodings = omega (
        arith,
        fields_named-append (codes "Transfer-Encoding") state.headers field,
        c.encodings,
        r,
      );
      few = omega (arith, length-append state.headers (field ∷ []), k);
      small = t;
    }

-- Host first, then the two length fields, in the order of the tests.
apply_header_field-IsCounted :
    (limits : Limits) (state : HeaderParseState)
    → IsCounted limits state
    → length state.headers < limits.max_header_count
    → (parsed : ParsedHeaderField) (next : HeaderParseState)
    → apply_header_field parsed limits state ≡ ok next
    → IsCounted limits next
unfolding apply_header_field
apply_header_field-IsCounted limits state c k parsed next h =
    elim (Bool-cases (is_named (codes "Host") parsed.field)) [
      | inl host ↦
          let (fresh, e) = apply_host_result parsed state next (ground (arith, h, host)) in
          rw e (
            push_field-IsCounted limits parsed.field state c k true state.body_size
              state.transfer_encoding_seen state.transfer_encoding state.transfer_encoding_offset
              (rw (fresh, host) refl)
              (rw
                (other_name (codes "Host") (codes "Content-Length") parsed.field (omega arith) host)
                (omega arith))
              (rw
                (other_name (codes "Host") (codes "Transfer-Encoding") parsed.field (omega arith)
                  host)
                (omega arith))
              c.small)
      | inr not_host ↦ elim (Bool-cases (is_named (codes "Content-Length") parsed.field)) [
        | inl size ↦
            let (fresh, (n, small, e)) =
              apply_content_length_result parsed limits.max_body_bytes state next
                (ground (arith, h, not_host, size)) in
            rw e (
              push_field-IsCounted limits parsed.field state c k state.host_seen (some n)
                state.transfer_encoding_seen state.transfer_encoding state.transfer_encoding_offset
                (rw not_host (omega arith)) (rw (fresh, size) refl)
                (rw
                  (other_name (codes "Content-Length") (codes "Transfer-Encoding") parsed.field
                    (omega arith) size)
                  (omega arith))
                small)
        | inr not_size ↦ elim (Bool-cases (is_named (codes "Transfer-Encoding") parsed.field)) [
          | inl coded ↦
              let (fresh, e) =
                apply_transfer_encoding_result parsed state next
                  (ground (arith, h, not_host, not_size, coded)) in
              rw e (
                push_field-IsCounted limits parsed.field state c k state.host_seen state.body_size
                  true parsed.field.value parsed.value_start (rw not_host (omega arith))
                  (rw not_size (omega arith)) (rw (fresh, coded) refl) c.small)
          | inr plain ↦
              let e : next ≡ push_field parsed.field state =
                ground (arith, h, not_host, not_size, plain) in
              rw e (
                push_field-IsCounted limits parsed.field state c k state.host_seen state.body_size
                  state.transfer_encoding_seen state.transfer_encoding
                  state.transfer_encoding_offset (rw not_host (omega arith))
                  (rw not_size (omega arith)) (rw plain (omega arith)) c.small)
        ]
      ]
    ]

header_line-IsCounted :
    (limits : Limits) (line : Bytes) (l : ℕ) (state next : HeaderParseState)
    → IsCounted limits state
    → header_line limits line l state ≡ ok next
    → IsCounted limits next
unfolding header_line
header_line-IsCounted limits line l state next c h =
    elim (Bool-cases (leb limits.max_header_count (length state.headers))) [
      | inl full ↦ absurd (ground (arith, h, full))
      | inr free ↦ elim (Result-cases (parse_header_field line l)) [
        | inr (x, failed) ↦ absurd (ground (arith, h, free, failed))
        | inl (parsed, read) ↦
            apply_header_field-IsCounted limits state c (ground (arith, free)) parsed next
              (ground (arith, h, free, read))
      ]
    ]

-- One Host field, at most one of the two length fields, and every limit kept.
pub record IsFramed (limits : Limits) (headers : List HeaderView) (body_size : ℕ) (chunked : Bool)
    : Type 0 where
  pub hosts : fields_named (codes "Host") headers ≡ 1
  pub lengths :
      fields_named (codes "Content-Length") headers
        + fields_named (codes "Transfer-Encoding") headers
      ≤ 1
  pub encodings : fields_named (codes "Transfer-Encoding") headers ≡ one_if chunked
  pub unsized : fields_named (codes "Content-Length") headers ≡ 0 → body_size ≡ 0
  pub few : length headers ≤ limits.max_header_count
  pub small : body_size ≤ limits.max_body_bytes

validate_framing_result :
    (state : HeaderParseState) (u : Unit {0})
    → validate_framing state ≡ ok u
    → one_if (is_some state.body_size) + one_if state.transfer_encoding_seen ≤ 1
unfolding validate_framing
validate_framing_result state u h = ground (arith, h)

unsized_zero : (size : Option ℕ) → one_if (is_some size) ≡ 0 → or_zero size ≡ 0
unsized_zero none h = refl
unsized_zero (some n) h = absurd (omega (arith, h))

end_section-IsFramed :
    (limits : Limits) (s e : ℕ) (state : HeaderParseState) (parsed : ParsedHeaderSection)
    → IsCounted limits state
    → end_section s e state ≡ ok (some parsed)
    → IsFramed limits parsed.headers parsed.body_size parsed.chunked
unfolding end_section
end_section-IsFramed limits s e state parsed c h = elim (Bool-cases state.host_seen) [
  | inr without ↦ absurd (ground (arith, h, without))
  | inl with_host ↦ elim (Result-cases (validate_framing state)) [
    | inr (x, failed) ↦ absurd (ground (arith, h, with_host, failed))
    | inl (u, valid) ↦
        let same : parsed ≡ record {
          headers = state.headers;
          body_start = e + 2;
          body_size = or_zero state.body_size;
          chunked = state.transfer_encoding_seen;
        } =
          ground (arith, h, with_host, valid) in
        rw same (record {
          hosts = c.hosts ∙ ap one_if with_host;
          lengths = omega (arith, c.lengths, c.encodings, validate_framing_result state u valid);
          encodings = c.encodings;
          unsized = λ z. unsized_zero state.body_size (sym c.lengths ∙ z);
          few = c.few;
          small = c.small;
        })
  ]
]

sections_from-IsFramed :
    (limits : Limits) (fuel s l : ℕ) (rest : Bytes) (state : HeaderParseState)
    (parsed : ParsedHeaderSection)
    → IsCounted limits state
    → sections_from fuel limits s l rest state ≡ ok (some parsed)
    → IsFramed limits parsed.headers parsed.body_size parsed.chunked
sections_from-IsFramed limits fuel s l rest state parsed c h =
    let (l', rest', state', c', found, ends) =
      sections_from-ends limits s (λ l rest state. IsCounted limits state)
        (λ l rest state e next c found read.
          header_line-IsCounted limits (take (e - l) rest) l state next c read)
        fuel l rest state parsed c h in
    end_section-IsFramed limits s l' state' parsed c' ends

parse_header_section-IsFramed :
    (input : Bytes) (s : ℕ) (limits : Limits) (parsed : ParsedHeaderSection)
    → parse_header_section input s limits ≡ ok (some parsed)
    → IsFramed limits parsed.headers parsed.body_size parsed.chunked
unfolding parse_header_section fresh_state fields_named
parse_header_section-IsFramed input s limits parsed h =
    sections_from-IsFramed limits (length (drop s input)) s s (drop s input) fresh_state parsed
      (record {
        hosts = refl;
        lengths = refl;
        encodings = refl;
        few = omega arith;
        small = omega arith;
      })
      h

-- A new authority changes values only.
fields_named-effective_fields :
    (name authority : Bytes) (fields : List HeaderView)
    → fields_named name (effective_fields authority fields) ≡ fields_named name fields
unfolding fields_named effective_fields
fields_named-effective_fields name authority [] = refl
fields_named-effective_fields name authority (field ∷ fields) =
    ground (arith, fields_named-effective_fields name authority fields)

length-effective_fields :
    (authority : Bytes) (fields : List HeaderView)
    → length (effective_fields authority fields) ≡ length fields
unfolding effective_fields
length-effective_fields authority [] = refl
length-effective_fields authority (field ∷ fields) =
    ap suc (length-effective_fields authority fields)

effective_fields-IsFramed :
    (limits : Limits) (authority : Bytes) (fields : List HeaderView) (size : ℕ) (chunked : Bool)
    → IsFramed limits fields size chunked
    → IsFramed limits (effective_fields authority fields) size chunked
effective_fields-IsFramed limits authority fields size chunked f = record {
  hosts = fields_named-effective_fields (codes "Host") authority fields ∙ f.hosts;
  lengths = omega (
    arith,
    fields_named-effective_fields (codes "Content-Length") authority fields,
    fields_named-effective_fields (codes "Transfer-Encoding") authority fields,
    f.lengths,
  );
  encodings =
      fields_named-effective_fields (codes "Transfer-Encoding") authority fields ∙ f.encodings;
  unsized = λ z.
      f.unsized (sym (fields_named-effective_fields (codes "Content-Length") authority fields) ∙ z);
  few = omega (arith, length-effective_fields authority fields, f.few);
  small = f.small;
}

-- An accepted head is framed.
pub parse_http_request_head-IsFramed :
    (input : Bytes) (limits : Limits) (parsed : Head)
    → parse_http_request_head input limits ≡ ok (some parsed)
    → IsFramed limits parsed.fields parsed.content_length parsed.chunked
unfolding head_of
parse_http_request_head-IsFramed input limits parsed h =
    let (e, method, target, section, found, line, read, same) =
      parse_http_request_head_parts input limits parsed h in
    rw same (
      effective_fields-IsFramed limits target.authority section.headers section.body_size
        section.chunked (parse_header_section-IsFramed input (e + 2) limits section read))
