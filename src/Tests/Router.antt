-- ===== src/Tests/Router.antt =====
-- A table of two routes, and the responses that the router makes.
use spare_node.Base.{
  ℕ, ◌≤◌, true, false, List, [], ◌∷◌, ◌++◌, none, some, ◌≡◌, ◌≢◌, ◌⊎◌, ◌↔◌, refl, arith, Bytes,
  Result, ok, err, codes, bytes_eq, get_elem?, All,
}
use spare_node.Http.Parse.{get, head, post}
use spare_node.Http.Status.{StatusCode}
use spare_node.Http.Response.{Header, Response, create, maximum_memory_body_bytes}
use spare_node.Http.Response.Acceptance.{Acceptable, create_iff}
use spare_node.Http.Router.{
  Route, Request, RouteError, RouteErrorCode, method_of, register_route, select_route, accepts,
  allowed, dispatch,
}
use spare_node.Base.Views.{ends_with}
use spare_node.Http.Router.Patterns.{is_valid_pattern, is_route_path_character}
use spare_node.Http.Router.Selection.{Best, select_route-Best}
use spare_node.Http.Router.Table.{IsValid, registered_is_selected, register_route-IsValid}
use spare_node.Http.Router.Dispatching.{allowed_iff, expected, dispatch_lem}

-- `GET /files/*`, whose handler is the number 1.
abbrev files : Route ℕ
files = record { method = get; prefix = codes "/files/"; wildcard = true; handler = 1 }

abbrev table : List (Route ℕ)
table = files ∷ []

-- `GET /files/a`, whose handler is the number 2.
abbrev exact : Route ℕ
exact = record { method = get; prefix = codes "/files/a"; wildcard = false; handler = 2 }

abbrev path : Bytes
path = codes "/files/a"

table-IsValid : IsValid table
unfolding IsValid
table-IsValid = (omega arith, (refl, tt))

-- Every handler fails, with its number.
abbrev call : ℕ → Request → Bytes → Result (Response (Unit {0})) RouteError
call handler request suffix =
    err (record { code = RouteErrorCode.handler_failure; detail = handler })

abbrev posting : Request
posting = record { method = post; target = codes "/files/a?x" }

select_route-Best_example :
    ((select_route table head path ≡ none) × All (λ route. accepts head path route ≡ false) table)
    ⊎ ((route : Route ℕ) × (i : ℕ) × (select_route table head path ≡ some route)
        × (get_elem? table i ≡ some route)
        × Best head path table route)
select_route-Best_example = select_route-Best table head path

register_route-IsValid_example : IsValid (register_route table 0 path (some 2)).0
register_route-IsValid_example = register_route-IsValid table 0 path (some 2) table-IsValid

registered_is_selected_example : select_route (table ++ exact ∷ []) get path ≡ some exact
unfolding method_of register_route is_valid_pattern ends_with is_route_path_character bytes_eq
registered_is_selected_example =
    registered_is_selected table (table ++ exact ∷ []) 0 get path 2 refl refl refl

allowed_iff_example : (allowed table path head ≡ true) ↔ (select_route table head path ≢ none)
allowed_iff_example = allowed_iff table path head

dispatch_lem_example : dispatch call table posting ≡ expected call table posting
dispatch_lem_example = dispatch_lem call table posting

abbrev allow : List Header
allow = record { name = codes "Allow"; value = codes "GET" } ∷ []

create_iff_example :
    (create {Reader = Unit {0}} StatusCode.ok (codes "OK") allow (codes "hi")
      ≡ ok (record {
        status_code = StatusCode.ok;
        reason_phrase = codes "OK";
        headers = allow;
        memory_body = codes "hi";
        content_length = 2;
        body_reader = none;
      }))
    ↔ ((2 ≤ maximum_memory_body_bytes) × Acceptable StatusCode.ok (codes "OK") allow 2)
create_iff_example = create_iff StatusCode.ok (codes "OK") allow (codes "hi")
