-- ===== src/Http/Router/Selection.antt =====
-- The route that `select_route` chooses, against the order of the routes.
use spare_node.Base.{
  ℕ, suc, true, false, List, [], ◌∷◌, Option, none, some, Bytes, ◌≡◌, refl, sym, ap, arith, ◌⊎◌,
  inl, inr, Bool-cases, All, get_elem?,
}
use spare_node.Http.Parse.{Method}
use spare_node.Http.Router.{
  Route, accepts, replaces, better, select_from, select_route, same_method, same_kind,
  is_more_specific, method_index,
}

module _ {ℓ} {Handler : Type ℓ} (method : Method) (path : Bytes) where
  -- The route accepts the request, and no route of the table that accepts it would replace it.
  unfoldable pub Best : List (Route Handler) → Route Handler → Type 0
  Best routes route =
      (accepts method path route ≡ true)
      × All (λ other. accepts method path other ≡ true → replaces other route ≡ false) routes

  abbrev At : Route Handler → Route Handler → List (Route Handler) → Type ℓ
  At route selected routes = (route ≡ selected) ⊎ ((i : ℕ) × (get_elem? routes i ≡ some route))

  At-later :
      (r s x : Route Handler) (routes : List (Route Handler)) → At r s routes → At r s (x ∷ routes)
  At-later r s x routes (inl e) = inl e
  At-later r s x routes (inr (i, e)) = inr (suc i, e)

  At-index :
      (r x : Route Handler) (routes : List (Route Handler))
      → At r x routes
      → (i : ℕ) × (get_elem? (x ∷ routes) i ≡ some r)
  At-index r x routes (inl e) = (0, ap some (sym e))
  At-index r x routes (inr (i, e)) = (suc i, e)

  abbrev Found : Option (Route Handler) → Route Handler → List (Route Handler) → Type ℓ
  Found result selected routes =
      (route : Route Handler) × (result ≡ some route)
      × At route selected routes
      × (replaces selected route ≡ false)
      × Best routes route

  replaces_irrefl : (a : Route Handler) → replaces a a ≡ false
  unfolding replaces same_method same_kind is_more_specific method_index
  replaces_irrefl a = ground arith

  replaces_trans :
      (a b c : Route Handler)
      → accepts method path a ≡ true
      → accepts method path b ≡ true
      → accepts method path c ≡ true
      → replaces b a ≡ false
      → replaces c b ≡ false
      → replaces c a ≡ false
  unfolding replaces same_method same_kind is_more_specific accepts method_index
  replaces_trans a b c ha hb hc p q = ground arith

  replaces_asym : (a b : Route Handler) → replaces a b ≡ true → replaces b a ≡ false
  unfolding replaces same_method same_kind is_more_specific method_index
  replaces_asym a b p = ground arith

  select_from_lem :
      (selected : Route Handler) (routes : List (Route Handler))
      → accepts method path selected ≡ true
      → Found (select_from method path (some selected) routes) selected routes
  unfolding select_from better Best
  select_from_lem s [] h = (s, refl, inl refl, replaces_irrefl s, (h, tt))
  select_from_lem s (x ∷ routes) h = elim (Bool-cases (accepts method path x)) [
    | inr passes ↦
        let (r, e, at, over, (acc, best)) = select_from_lem s routes h in
        rw passes (r, e, At-later r s x routes at, over, (acc, ((λ accepted. absurd (cc)), best)))
    | inl takes ↦ elim (Bool-cases (replaces x s)) [
      | inl wins ↦
          let (r, e, at, over, (acc, best)) = select_from_lem x routes takes in
          rw (takes, wins)
            (
              r,
              e,
              inr (At-index r x routes at),
              replaces_trans r x s acc takes h over (replaces_asym x s wins),
              (acc, ((λ _. over), best)),
            )
      | inr loses ↦
          let (r, e, at, over, (acc, best)) = select_from_lem s routes h in
          rw (takes, loses)
            (
              r,
              e,
              At-later r s x routes at,
              over,
              (acc, ((λ _. replaces_trans r s x acc h takes over loses), best)),
            )
    ]
  ]

module _ {ℓ} {Handler : Type ℓ} where
  -- What `select_route` finds is a route of the table that accepts the request, and no route of the
  -- table that accepts it would replace it; it finds none only where every route refuses.
  pub select_route-Best :
      (routes : List (Route Handler)) (method : Method) (path : Bytes)
      → ((select_route routes method path ≡ none)
          × All (λ route. accepts method path route ≡ false) routes)
        ⊎ ((route : Route Handler) × (i : ℕ) × (select_route routes method path ≡ some route)
            × (get_elem? routes i ≡ some route)
            × Best method path routes route)
  unfolding select_route select_from better Best
  select_route-Best [] method path = inl (refl, tt)
  select_route-Best (x ∷ routes) method path = elim (Bool-cases (accepts method path x)) [
    | inl takes ↦
        let (r, e, at, over, (acc, best)) = select_from_lem method path x routes takes in
        let (i, found) = At-index method path r x routes at in
        rw takes (inr (r, i, e, found, (acc, ((λ _. over), best))))
    | inr passes ↦ rw passes (elim (select_route-Best routes method path) [
      | inl (e, refused) ↦ inl (e, (refl, refused))
      | inr (r, i, e, found, (acc, best)) ↦
          inr (r, suc i, e, found, (acc, ((λ accepted. absurd (cc)), best)))
    ])
  ]
