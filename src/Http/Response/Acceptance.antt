-- ===== src/Http/Response/Acceptance.antt =====
-- Which responses are accepted.
use spare_node.Base.{
  ℕ, suc, ◌+◌, ◌-◌, ◌≤◌, ◌≡◌, ◌≢◌, ◌↔◌, refl, sym, ◌∙◌, arith, true, List, [], ◌∷◌, none, Bytes, ok,
  err, length, All, inl, inr, Result-cases,
}
use spare_node.Http.Status.{StatusCode, http_status_code_value}
use spare_node.Http.Response.{
  Header, ValidationError, header_error, header_result, validate_header, validate_headers,
  validate_response, fixed_head_size, valid_reason_phrase, status_has_no_message_body, create,
  maximum_head_bytes, maximum_header_count, maximum_memory_body_bytes,
}

-- The serialized application fields: a name, a colon, a space, a value and a line end each.
unfoldable pub fields_size : List Header → ℕ
fields_size [] = 0
fields_size (h ∷ hs) = (length h.name + length h.value + 4) + fields_size hs

validate_header-ok :
    (h : Header) (index remaining : ℕ)
    → header_error h ≡ none
    → length h.name + length h.value + 4 ≤ remaining
    → validate_header h index remaining ≡ ok (length h.name + length h.value + 4)
unfolding validate_header header_result
validate_header-ok h index remaining p fits = rw p (ground arith)

validate_headers-step :
    (h : Header) (hs : List Header) (index size n : ℕ)
    → validate_header h index (maximum_head_bytes - size) ≡ ok n
    → validate_headers (h ∷ hs) index size ≡ validate_headers hs (suc index) (size + n)
unfolding validate_headers
validate_headers-step h hs index size n p = rw (validate_headers, p) refl

pub validate_headers-ok :
    (hs : List Header) (index size : ℕ)
    → All (λ h. header_error h ≡ none) hs
    → size + fields_size hs ≤ maximum_head_bytes
    → validate_headers hs index size ≡ ok tt
unfolding validate_headers fields_size
validate_headers-ok [] index size p fits = refl
validate_headers-ok (h ∷ hs) index size p fits =
    validate_headers-step h hs index size _
      (validate_header-ok h index (maximum_head_bytes - size) p.0 (omega arith))
    ∙ (validate_headers-ok hs (suc index) (size + (length h.name + length h.value + 4)) p.1
        (omega arith))

validate_header-only :
    (h : Header) (index remaining n : ℕ)
    → validate_header h index remaining ≡ ok n
    → (header_error h ≡ none) × (n ≡ length h.name + length h.value + 4) × (n ≤ remaining)
unfolding validate_header header_result
validate_header-only h index remaining n p = ground arith

validate_headers-err :
    (h : Header) (hs : List Header) (index size : ℕ) (e : ValidationError)
    → validate_header h index (maximum_head_bytes - size) ≡ err e
    → validate_headers (h ∷ hs) index size ≢ ok tt
unfolding validate_headers
validate_headers-err h hs index size e q p = absurd (cc)

pub validate_headers-only :
    (hs : List Header) (index size : ℕ)
    → size ≤ maximum_head_bytes
    → validate_headers hs index size ≡ ok tt
    → All (λ h. header_error h ≡ none) hs × (size + fields_size hs ≤ maximum_head_bytes)
unfolding validate_headers fields_size
validate_headers-only [] index size k p = (tt, omega arith)
validate_headers-only (h ∷ hs) index size k p =
    elim (Result-cases (validate_header h index (maximum_head_bytes - size))) [
      | inr (e, q) ↦ absurd (validate_headers-err h hs index size e q p)
      | inl (n, q) ↦
          let (none_of, is, fits) = validate_header-only h index (maximum_head_bytes - size) n q in
          let (rest, total) =
            validate_headers-only hs (suc index) (size + n) (omega arith)
              (sym (validate_headers-step h hs index size n q) ∙ p) in
          ((none_of, rest), omega (arith, is, total))
    ]

-- What an accepted response satisfies.
unfoldable pub Acceptable : StatusCode → Bytes → List Header → ℕ → Type 0
Acceptable status reason headers content_length =
    (100 ≤ http_status_code_value status)
    × (http_status_code_value status ≤ 599)
    × (valid_reason_phrase reason ≡ true)
    × (status_has_no_message_body status ≡ true → content_length ≡ 0)
    × (length headers ≤ maximum_header_count)
    × All (λ h. header_error h ≡ none) headers
    × (fixed_head_size status reason content_length + fields_size headers ≤ maximum_head_bytes)

pub validate_response_iff :
    (status : StatusCode) (reason : Bytes) (headers : List Header) (content_length : ℕ)
    → (validate_response status reason headers content_length ≡ ok tt)
      ↔ Acceptable status reason headers content_length
unfolding validate_response Acceptable
validate_response_iff status reason headers n = ground (
  arith,
  validate_headers-ok headers 0 (fixed_head_size status reason n),
  validate_headers-only headers 0 (fixed_head_size status reason n),
)

-- `create` answers the response with its arguments exactly where the body is at most one mebibyte
-- and the status, reason, fields and serialized head are within the bounds that `Acceptable`
-- lists.
pub create_iff {ℓ} :
    {Reader : Type ℓ} (status : StatusCode) (reason : Bytes) (headers : List Header) (body : Bytes)
    → (create {Reader = Reader} status reason headers body
        ≡ ok (record {
          status_code = status;
          reason_phrase = reason;
          headers = headers;
          memory_body = body;
          content_length = length body;
          body_reader = none;
        }))
      ↔ ((length body ≤ maximum_memory_body_bytes) × Acceptable status reason headers (length body))
unfolding create
create_iff status reason headers body =
    ground (arith, validate_response_iff status reason headers (length body))
