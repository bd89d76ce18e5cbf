-- ===== src/Http/Router.antt =====
-- The route table: src/http/routing/http_router.cpp, with
-- include/sparenode/http/routing/http_router.hpp and `to_string` of src/http/request/http_request.cpp.
-- `Handler` is the type of the callables; the dispatch takes how one is called.
pub mod Patterns
pub mod Table
pub mod Selection
pub mod Dispatching
use spare_node.Base.{
  ℕ, zero, suc, ◌+◌, ◌-◌, Bool, true, false, not, ◌&&◌, ◌||◌, List, [], ◌∷◌, ◌++◌, Option, none,
  some, Bytes, Result, ok, err, ltb, leb, ◌==◌, if◌then◌else◌, length, any, get_elem?, take, drop,
  codes, bytes_eq,
}
use spare_node.Http.Parse.{Method, get, head, post, put, delete_method, options}
use spare_node.Http.Status.{
  StatusCode, no_content, not_found, method_not_allowed, http_reason_phrase,
}
use spare_node.Http.Response.{Header, Response, create}
use spare_node.Base.Views.{find_byte, prefix_to, starts_with, ends_with}
use spare_node.Http.Router.Patterns.{is_valid_pattern}

unfoldable pub method_index : Method → ℕ
method_index get = 0
method_index head = 1
method_index post = 2
method_index put = 3
method_index delete_method = 4
method_index options = 5

-- The methods in the order of the enumeration.
abbrev pub methods : List Method
methods = get ∷ head ∷ post ∷ put ∷ delete_method ∷ options ∷ []

-- `static_cast<HttpMethod>`, of the values that name a method.
unfoldable pub method_of : ℕ → Option Method
method_of value = get_elem? methods value

unfoldable pub to_string : Method → Bytes
to_string get = codes "GET"
to_string head = codes "HEAD"
to_string post = codes "POST"
to_string put = codes "PUT"
to_string delete_method = codes "DELETE"
to_string options = codes "OPTIONS"

unfoldable pub same_method : Method → Method → Bool
unfolding method_index
same_method a b = method_index a == method_index b

pub record Route {ℓ} (Handler : Type ℓ) : Type ℓ where
  pub method : Method
  pub prefix : Bytes
  pub wildcard : Bool
  pub handler : Handler

pub data RegistrationErrorCode : Type 0 where
  invalid_method invalid_pattern duplicate_route empty_handler : RegistrationErrorCode
  too_many_routes : RegistrationErrorCode

pub data RouteErrorCode : Type 0 where
  handler_failure response_validation_failure : RouteErrorCode

pub record RouteError : Type 0 where
  pub code : RouteErrorCode
  pub detail : ℕ

pub record Request : Type 0 where
  pub method : Method
  pub target : Bytes

abbrev pub maximum_route_count : ℕ
maximum_route_count = 128

-- The part of a target in front of its query.
unfoldable pub request_path : Bytes → Bytes
request_path target = prefix_to (find_byte b'?' target) target

unfoldable pub path_matches : Bool → Bytes → Bytes → Bool
unfolding starts_with
path_matches wildcard prefix path =
    if wildcard then starts_with prefix path else bytes_eq path prefix

unfoldable pub captured_suffix : Bool → Bytes → Bytes → Bytes
captured_suffix wildcard prefix path = if wildcard then drop (length prefix) path else []

unfoldable pub is_more_specific : Bool → ℕ → Bool → ℕ → Bool
is_more_specific true candidate_size false current_size = false
is_more_specific false candidate_size true current_size = true
is_more_specific _ candidate_size _ current_size = ltb current_size candidate_size

unfoldable pub same_kind : Bool → Bool → Bool
same_kind true other = other
same_kind false other = not other

module _ {ℓ} {Handler : Type ℓ} where
  unfoldable pub same_route : Method → Bytes → Bool → Route Handler → Bool
  unfolding same_method same_kind
  same_route method prefix wildcard route =
      same_method route.method method
      && same_kind route.wildcard wildcard
      && bytes_eq route.prefix prefix

  -- The method as its underlying value; the table afterwards, and the answer.
  unfoldable pub register_route :
      List (Route Handler)
      → ℕ
      → Bytes
      → Option Handler
      → List (Route Handler) × Result (Unit {0}) RegistrationErrorCode
  unfolding method_of is_valid_pattern ends_with same_route
  register_route routes value pattern handler = elim (method_of value) [
    | none ↦ (routes, err invalid_method)
    | some method ↦
        if not (is_valid_pattern pattern) then (routes, err invalid_pattern) else elim handler [
          | none ↦ (routes, err empty_handler)
          | some callable ↦
              let wildcard = ends_with (codes "/*") pattern in
              let prefix = if wildcard then take (length pattern - 1) pattern else pattern in
              if any (same_route method prefix wildcard) routes
              then (routes, err duplicate_route)
              else if leb maximum_route_count (length routes)
              then (routes, err too_many_routes)
              else (
                routes
                    ++ record {
                      method = method;
                      prefix = prefix;
                      wildcard = wildcard;
                      handler = callable;
                    }
                      ∷ [],
                ok tt,
              )
        ]
  ]

  -- Whether the loop of `select_route` passes over the route.
  unfoldable pub accepts : Method → Bytes → Route Handler → Bool
  unfolding same_method path_matches
  accepts method path route =
      (same_method route.method method || (same_method method head && same_method route.method get))
      && path_matches route.wildcard route.prefix path

  -- Whether the route takes the place of the selected one.
  unfoldable pub replaces : Route Handler → Route Handler → Bool
  unfolding same_method same_kind is_more_specific
  replaces route selected =
      (same_method route.method head
        && same_method selected.method get
        && same_kind route.wildcard selected.wildcard
        && length route.prefix == length selected.prefix)
      || is_more_specific route.wildcard (length route.prefix) selected.wildcard
          (length selected.prefix)

  unfoldable pub better : Option (Route Handler) → Route Handler → Option (Route Handler)
  unfolding replaces
  better none route = some route
  better (some selected) route = if replaces route selected then some route else some selected

  unfoldable pub select_from :
      Method → Bytes → Option (Route Handler) → List (Route Handler) → Option (Route Handler)
  unfolding accepts better
  select_from method path selected [] = selected
  select_from method path selected (route ∷ routes) =
      select_from method path
        (if accepts method path route then better selected route else selected) routes

  unfoldable pub select_route : List (Route Handler) → Method → Bytes → Option (Route Handler)
  unfolding select_from
  select_route routes method path = select_from method path none routes

  -- `allowed[method_index(method)]` after the loop over the table.
  unfoldable pub allowed : List (Route Handler) → Bytes → Method → Bool
  unfolding same_method path_matches
  allowed [] path method = false
  allowed (route ∷ routes) path method =
      (path_matches route.wildcard route.prefix path
        && (same_method route.method method
            || (same_method route.method get && same_method method head)))
      || allowed routes path method

  unfoldable pub path_exists : List (Route Handler) → Bytes → Bool
  unfolding path_matches
  path_exists routes path = any (λ route. path_matches route.wildcard route.prefix path) routes

  -- The loop that writes the `Allow` field, with `allow` written so far.
  unfoldable pub allow_from : List (Route Handler) → Bytes → List Method → Bytes → Bytes
  unfolding allowed to_string
  allow_from routes path [] allow = allow
  allow_from routes path (method ∷ methods) allow = allow_from routes path methods (
      if not (allowed routes path method)
      then allow
      else (if length allow == 0 then allow else allow ++ codes ", ") ++ to_string method)

  unfoldable pub allow_field : List (Route Handler) → Bytes → Header
  unfolding allow_from
  allow_field routes path = record {
    name = codes "Allow";
    value = allow_from routes path methods [];
  }

module _ {κ} {Reader : Type κ} where
  unfoldable pub make_routing_response :
      StatusCode → List Header → Result (Response Reader) RouteError
  unfolding create http_reason_phrase
  make_routing_response status headers =
      elim (create {Reader = Reader} status (http_reason_phrase status) headers []) [
        | ok response ↦ ok response
        | err _ ↦ err (record { code = response_validation_failure; detail = 0 })
      ]

  module _ {ℓ} {Handler : Type ℓ}
      (call : Handler → Request → Bytes → Result (Response Reader) RouteError) where
    unfoldable pub answer :
        List (Route Handler)
        → Request
        → Bytes
        → Option (Route Handler)
        → Result (Response Reader) RouteError
    unfolding captured_suffix path_exists make_routing_response allow_field
    answer routes request path (some selected) =
        call selected.handler request (captured_suffix selected.wildcard selected.prefix path)
    answer routes request path none =
        if not (path_exists routes path)
        then make_routing_response not_found []
        else make_routing_response method_not_allowed (allow_field routes path ∷ [])

    unfoldable pub dispatch : List (Route Handler) → Request → Result (Response Reader) RouteError
    unfolding same_method make_routing_response request_path select_route answer
    dispatch routes request =
        if same_method request.method options && bytes_eq request.target (codes "*")
        then make_routing_response no_content []
        else let path = request_path request.target in
          answer routes request path (select_route routes request.method path)
