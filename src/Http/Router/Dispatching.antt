-- ===== src/Http/Router/Dispatching.antt =====
-- What `dispatch` answers where the router itself makes the response.
use mathlib.Core.List.{append-nil, append_assoc}
use spare_node.Base.{
  ℕ, zero, suc, ◌*◌, ◌≤◌, ◌<◌, true, false, ◌&&◌, List, [], ◌∷◌, ◌++◌, none, some, Bytes, Result,
  ok, ◌==◌, ◌≡◌, ◌≢◌, refl, sym, arith, inl, inr, ◌↔◌, ◌∙◌, Option-cases, All, any, all, length,
  length-append, get_elem?, if◌then◌else◌, bytes_eq, codes,
}
use spare_node.Http.Ascii.{is_http_field_value_byte, is_http_token_character}
use spare_node.Http.Parse.{Method, get, head, options}
use spare_node.Http.Response.Acceptance.{Acceptable, create_iff, fields_size}
use spare_node.Http.Status.{
  StatusCode, http_reason_phrase, no_content, not_found, method_not_allowed,
}
use spare_node.Http.Response.{
  Header, Response, decimal_digit_count, header_error, managed_header, valid_reason_phrase,
  status_has_no_message_body, fixed_head_size,
}
use spare_node.Http.Router.{
  Route, Request, RouteError, accepts, select_route, same_method, allowed, path_exists, methods,
  request_path, captured_suffix, method_index, allow_from, allow_field, to_string,
  make_routing_response, answer, dispatch,
}
use spare_node.Http.Router.Selection.{Best, select_route-Best}

-- Each name behind a comma and a space.
unfoldable pub followed : List Method → Bytes
unfolding to_string
followed [] = []
followed (m ∷ ms) = codes ", " ++ to_string m ++ followed ms

-- The names of the methods, a comma and a space between two.
unfoldable pub joined : List Method → Bytes
unfolding to_string followed
joined [] = []
joined (m ∷ ms) = to_string m ++ followed ms

to_string_length : (m : Method) → (0 < length (to_string m)) × (length (to_string m) ≤ 7)
unfolding to_string
to_string_length m = ground arith

all-append :
    (xs ys : Bytes)
    → all is_http_field_value_byte xs ≡ true
    → all is_http_field_value_byte ys ≡ true
    → all is_http_field_value_byte (xs ++ ys) ≡ true
all-append [] ys h k = k
all-append (x ∷ xs) ys h k = ground (arith, all-append xs ys)

nonempty : (text : Bytes) → 0 < length text → (length text == 0) ≡ false
nonempty text h = ground arith

to_string_valid : (m : Method) → all is_http_field_value_byte (to_string m) ≡ true
unfolding to_string is_http_field_value_byte
to_string_valid get = refl
to_string_valid head = refl
to_string_valid Method.post = refl
to_string_valid Method.put = refl
to_string_valid Method.delete_method = refl
to_string_valid options = refl

followed_fits :
    (ms : List Method)
    → (all is_http_field_value_byte (followed ms) ≡ true) × (length (followed ms) ≤ 9 * length ms)
unfolding followed is_http_field_value_byte
followed_fits [] = (refl, omega arith)
followed_fits (m ∷ ms) = (
  all-append (to_string m) (followed ms) (to_string_valid m) (followed_fits ms).0,
  omega (
    arith,
    (to_string_length m).1,
    (followed_fits ms).1,
    length-append (to_string m) (followed ms),
  ),
)

joined_fits :
    (ms : List Method)
    → (all is_http_field_value_byte (joined ms) ≡ true) × (length (joined ms) ≤ 9 * length ms)
unfolding joined
joined_fits [] = (refl, omega arith)
joined_fits (m ∷ ms) = (
  all-append (to_string m) (followed ms) (to_string_valid m) (followed_fits ms).0,
  omega (
    arith,
    (to_string_length m).1,
    (followed_fits ms).1,
    length-append (to_string m) (followed ms),
  ),
)

module _ {ℓ} {Handler : Type ℓ} where
  -- The methods for which the table has a route that accepts the path.
  unfoldable pub served : List (Route Handler) → Bytes → List Method → List Method
  served routes path [] = []
  served routes path (m ∷ ms) =
      let rest = served routes path ms in
      elim (select_route routes m path) [ none ↦ rest | some _ ↦ m ∷ rest ]

  allowed-any :
      (routes : List (Route Handler)) (path : Bytes) (m : Method)
      → allowed routes path m ≡ any (accepts m path) routes
  unfolding allowed accepts same_method method_index
  allowed-any [] path m = refl
  allowed-any (r ∷ routes) path m = ground (arith, allowed-any routes path m)

  any-refused :
      (routes : List (Route Handler)) (path : Bytes) (m : Method)
      → All (λ r. accepts m path r ≡ false) routes
      → any (accepts m path) routes ≡ false
  any-refused [] path m h = refl
  any-refused (r ∷ routes) path m h = ground (arith, h.0, any-refused routes path m h.1)

  any-found :
      (routes : List (Route Handler)) (path : Bytes) (m : Method) (i : ℕ) (r : Route Handler)
      → get_elem? routes i ≡ some r
      → accepts m path r ≡ true
      → any (accepts m path) routes ≡ true
  any-found [] path m i r e h = absurd (cc)
  any-found (x ∷ routes) path m zero r e h = ground (arith, e, h)
  any-found (x ∷ routes) path m (suc i) r e h = ground (arith, any-found routes path m i r e h)

  -- `dispatch` marks a method as allowed for a path exactly where a route would be selected for
  -- it.
  pub allowed_iff :
      (routes : List (Route Handler)) (path : Bytes) (m : Method)
      → (allowed routes path m ≡ true) ↔ (select_route routes m path ≢ none)
  unfolding Best
  allowed_iff routes path m = elim (select_route-Best routes m path) [
    | inl (e, refused) ↦
        rw (allowed-any routes path m, any-refused routes path m refused, e)
          ((λ p. absurd (cc)), λ p. absurd (p refl))
    | inr (r, i, e, found, (acc, best)) ↦
        rw (allowed-any routes path m, any-found routes path m i r found acc, e)
          ((λ _ p. absurd (cc)), λ _. refl)
  ]

  served-none :
      (routes : List (Route Handler)) (path : Bytes) (m : Method) (ms : List Method)
      → select_route routes m path ≡ none
      → served routes path (m ∷ ms) ≡ served routes path ms
  unfolding served
  served-none routes path m ms e = rw (served, e) refl

  served-some :
      (routes : List (Route Handler)) (path : Bytes) (m : Method) (ms : List Method)
      (r : Route Handler)
      → select_route routes m path ≡ some r
      → served routes path (m ∷ ms) ≡ m ∷ served routes path ms
  unfolding served
  served-some routes path m ms r e = rw (served, e) refl

  allowed-false :
      (routes : List (Route Handler)) (path : Bytes) (m : Method)
      → select_route routes m path ≡ none
      → allowed routes path m ≡ false
  allowed-false routes path m e = ground (arith, allowed_iff routes path m)

  allowed-true :
      (routes : List (Route Handler)) (path : Bytes) (m : Method) (r : Route Handler)
      → select_route routes m path ≡ some r
      → allowed routes path m ≡ true
  allowed-true routes path m r e = ground (arith, allowed_iff routes path m)

  allow_from-followed :
      (routes : List (Route Handler)) (path : Bytes) (ms : List Method) (done : Bytes)
      → 0 < length done
      → allow_from routes path ms done ≡ done ++ followed (served routes path ms)
  unfolding allow_from followed served
  allow_from-followed routes path [] done h = sym (append-nil done)
  allow_from-followed routes path (m ∷ ms) done h =
      elim (Option-cases (select_route routes m path)) [
        | inl e ↦
            rw (served-none routes path m ms e, allowed-false routes path m e)
              (allow_from-followed routes path ms done h)
        | inr (r, e) ↦
            rw (served-some routes path m ms r e, allowed-true routes path m r e, nonempty done h)
              (allow_from-followed routes path ms ((done ++ codes ", ") ++ to_string m) (
                  omega (
                    arith,
                    h,
                    length-append (done ++ codes ", ") (to_string m),
                    length-append done (codes ", "),
                  ))
                ∙ append_assoc (done ++ codes ", ") (to_string m) (followed (served routes path ms))
                ∙ append_assoc done (codes ", ") (to_string m ++ followed (served routes path ms)))
      ]

  allow_from-joined :
      (routes : List (Route Handler)) (path : Bytes) (ms : List Method)
      → allow_from routes path ms [] ≡ joined (served routes path ms)
  unfolding allow_from joined
  allow_from-joined routes path [] = unfold served in refl
  allow_from-joined routes path (m ∷ ms) = elim (Option-cases (select_route routes m path)) [
    | inl e ↦
        rw (served-none routes path m ms e, allowed-false routes path m e)
          (allow_from-joined routes path ms)
    | inr (r, e) ↦
        rw (served-some routes path m ms r e, allowed-true routes path m r e)
          (allow_from-followed routes path ms (to_string m) (to_string_length m).0)
  ]

  length-served :
      (routes : List (Route Handler)) (path : Bytes) (ms : List Method)
      → length (served routes path ms) ≤ length ms
  unfolding served
  length-served routes path [] = omega arith
  length-served routes path (m ∷ ms) = elim (Option-cases (select_route routes m path)) [
    | inl e ↦ rw (served-none routes path m ms e) (omega (arith, length-served routes path ms))
    | inr (r, e) ↦
        rw (served-some routes path m ms r e) (omega (arith, length-served routes path ms))
  ]

module _ {κ} {Reader : Type κ} where
  -- The response with a status, a reason phrase and fields, and without a body.
  unfoldable pub bodiless : StatusCode → Bytes → List Header → Response Reader
  bodiless status reason headers = record {
    status_code = status;
    reason_phrase = reason;
    headers = headers;
    memory_body = [];
    content_length = 0;
    body_reader = none;
  }

  routing_response :
      (status : StatusCode) (headers : List Header)
      → Acceptable status (http_reason_phrase status) headers 0
      → make_routing_response {Reader = Reader} status headers
        ≡ ok (bodiless status (http_reason_phrase status) headers)
  unfolding make_routing_response bodiless
  routing_response status headers h =
      rw
        (
          make_routing_response,
          (create_iff status (http_reason_phrase status) headers []).1 (omega arith, h),
        )
        refl

no_content-Acceptable : Acceptable no_content (http_reason_phrase no_content) [] 0
unfolding Acceptable http_reason_phrase valid_reason_phrase status_has_no_message_body
    fixed_head_size fields_size is_http_field_value_byte
no_content-Acceptable = (omega arith, omega arith, refl, (λ _. refl), omega arith, tt, omega arith)

not_found-Acceptable : Acceptable not_found (http_reason_phrase not_found) [] 0
unfolding Acceptable http_reason_phrase valid_reason_phrase status_has_no_message_body
    fixed_head_size fields_size is_http_field_value_byte decimal_digit_count
not_found-Acceptable = (omega arith, omega arith, refl, (λ _. refl), omega arith, tt, omega arith)

method_not_allowed-Acceptable :
    (value : Bytes)
    → all is_http_field_value_byte value ≡ true
    → length value ≤ 54
    → Acceptable method_not_allowed
        (http_reason_phrase method_not_allowed)
        (record { name = codes "Allow"; value = value } ∷ [])
        0
unfolding Acceptable http_reason_phrase valid_reason_phrase status_has_no_message_body
    fixed_head_size fields_size header_error managed_header is_http_field_value_byte
    is_http_token_character decimal_digit_count
method_not_allowed-Acceptable value h k =
    (omega arith, omega arith, refl, (λ _. refl), omega arith, (rw h refl, tt), omega (arith, k))

module _ {κ ℓ} {Reader : Type κ} {Handler : Type ℓ}
    (call : Handler → Request → Bytes → Result (Response Reader) RouteError) where
  -- What a request is to be answered.
  unfoldable pub expected : List (Route Handler) → Request → Result (Response Reader) RouteError
  unfolding same_method request_path path_exists captured_suffix bodiless
  expected routes request =
      let path = request_path request.target in
      if same_method request.method options && bytes_eq request.target (codes "*")
      then ok (bodiless no_content (codes "No Content") [])
      else elim (select_route routes request.method path) [
        | some route ↦ call route.handler request (captured_suffix route.wildcard route.prefix path)
        | none ↦
            if path_exists routes path
            then ok (
                bodiless method_not_allowed (codes "Method Not Allowed") (
                  record { name = codes "Allow"; value = joined (served routes path methods) }
                  ∷ []))
            else ok (bodiless not_found (codes "Not Found") [])
      ]

  no_content_response :
      make_routing_response {Reader = Reader} no_content []
      ≡ ok (bodiless no_content (codes "No Content") [])
  unfolding http_reason_phrase
  no_content_response = routing_response no_content [] no_content-Acceptable

  not_found_response :
      make_routing_response {Reader = Reader} not_found []
      ≡ ok (bodiless not_found (codes "Not Found") [])
  unfolding http_reason_phrase
  not_found_response = routing_response not_found [] not_found-Acceptable

  allow_response :
      (routes : List (Route Handler)) (path : Bytes)
      → make_routing_response {Reader = Reader} method_not_allowed (allow_field routes path ∷ [])
        ≡ ok (
            bodiless method_not_allowed
              (codes "Method Not Allowed")
              (record { name = codes "Allow"; value = joined (served routes path methods) } ∷ []))
  unfolding allow_field http_reason_phrase
  allow_response routes path = rw (allow_from-joined routes path methods) (
      routing_response method_not_allowed _ (
        method_not_allowed-Acceptable _ (joined_fits (served routes path methods)).0 (
          omega (
            arith,
            (joined_fits (served routes path methods)).1,
            length-served routes path methods,
          ))))

  -- A request for `OPTIONS *` is answered 204; another goes to the handler of the selected route,
  -- with the bytes behind its wildcard; and where no route is selected the answer is 404 if no
  -- route matches the path, and 405 otherwise, whose `Allow` field lists, in the order of the
  -- enumeration, exactly the methods for which a route would have been selected. A response that
  -- the router makes is never refused.
  pub dispatch_lem :
      (routes : List (Route Handler)) (request : Request)
      → dispatch call routes request ≡ expected routes request
  unfolding dispatch answer expected
  dispatch_lem routes request =
      let path = request_path request.target in
      ground (
        arith,
        no_content_response,
        not_found_response,
        allow_response routes path,
        Option-cases (select_route routes request.method path),
      )
