-- ===== src/Http/Router/Table.antt =====
-- Registration: the table stays bounded and without duplicates, and what is registered is found.
use spare_node.Base.{
  ℕ, zero, suc, ◌-◌, ◌≤◌, ◌<◌, Bool, true, false, List, [], ◌∷◌, ◌++◌, Option, some, Bytes, ok, err,
  leb, ◌≡◌, refl, sym, ap, subst, arith, ◌⊎◌, inl, inr, ◌∙◌, Bool-cases, Option-cases, All, any,
  length, length-append, get_elem?, if◌then◌else◌, bytes_eq_iff, codes, take,
}
use spare_node.Http.Parse.{Method}
use spare_node.Http.Router.{
  Route, RegistrationErrorCode, accepts, replaces, select_route, same_method, same_kind, same_route,
  path_matches, is_more_specific, method_index, method_of, register_route, maximum_route_count,
}
use spare_node.Base.Views.{ends_with}
use spare_node.Http.Router.Patterns.{is_valid_pattern}
use spare_node.Http.Router.Selection.{Best, select_route-Best}

module _ {ℓ} {Handler : Type ℓ} where
  abbrev taken : Route Handler → List (Route Handler) → Bool
  taken r routes = any (same_route r.method r.prefix r.wildcard) routes

  -- No route has the method, prefix and kind of a later one.
  unfoldable pub Distinct : List (Route Handler) → Type 0
  Distinct [] = Unit
  Distinct (r ∷ routes) = (taken r routes ≡ false) × Distinct routes

  unfoldable pub IsValid : List (Route Handler) → Type 0
  unfolding Distinct
  IsValid routes = (length routes ≤ maximum_route_count) × Distinct routes

  same_route-sym :
      (a b : Route Handler)
      → same_route a.method a.prefix a.wildcard b ≡ same_route b.method b.prefix b.wildcard a
  unfolding same_route same_method same_kind
  same_route-sym a b =
      ground (arith, bytes_eq_iff a.prefix b.prefix, bytes_eq_iff b.prefix a.prefix)

  taken-snoc :
      (r : Route Handler) (routes : List (Route Handler)) (new : Route Handler)
      → taken r routes ≡ false
      → same_route r.method r.prefix r.wildcard new ≡ false
      → taken r (routes ++ new ∷ []) ≡ false
  taken-snoc r [] new h k = rw k refl
  taken-snoc r (x ∷ routes) new h k = ground (arith, taken-snoc r routes new)

  Distinct-snoc :
      (routes : List (Route Handler)) (new : Route Handler)
      → Distinct routes
      → taken new routes ≡ false
      → Distinct (routes ++ new ∷ [])
  unfolding Distinct
  Distinct-snoc [] new h k = (refl, tt)
  Distinct-snoc (x ∷ routes) new h k = (
    taken-snoc x routes new h.0 (ground (arith, same_route-sym x new)),
    Distinct-snoc routes new h.1 (ground arith),
  )

  -- The route that an accepted registration adds.
  abbrev pub route_of : Method → Bytes → Handler → Route Handler
  route_of method pattern handler =
      let wildcard = ends_with (codes "/*") pattern in
      record {
        method = method;
        prefix = if wildcard then take (length pattern - 1) pattern else pattern;
        wildcard = wildcard;
        handler = handler;
      }

  -- What an accepted registration needs.
  abbrev pub Registrable :
      List (Route Handler) → ℕ → Bytes → Option Handler → Method → Handler → Type ℓ
  Registrable routes value pattern handler method callable =
      (method_of value ≡ some method)
      × (is_valid_pattern pattern ≡ true)
      × (handler ≡ some callable)
      × (taken (route_of method pattern callable) routes ≡ false)
      × (length routes < maximum_route_count)

  pub register_route-cases :
      (routes : List (Route Handler)) (value : ℕ) (pattern : Bytes) (handler : Option Handler)
      → ((code : RegistrationErrorCode) × (register_route routes value pattern handler
            ≡ (routes, err code)))
        ⊎ ((method : Method) × (callable : Handler) × Registrable routes value pattern handler
              method callable
            × (register_route routes value pattern handler
                ≡ (routes ++ route_of method pattern callable ∷ [], ok tt)))
  unfolding register_route
  register_route-cases routes value pattern handler = elim (Option-cases (method_of value)) [
    | inl e ↦ inl (RegistrationErrorCode.invalid_method, rw e refl)
    | inr (method, e) ↦ elim (Bool-cases (is_valid_pattern pattern)) [
      | inr bad ↦ inl (RegistrationErrorCode.invalid_pattern, rw (e, bad) refl)
      | inl good ↦ elim (Option-cases handler) [
        | inl absent ↦ inl (RegistrationErrorCode.empty_handler, rw (e, good, absent) refl)
        | inr (callable, present) ↦
            elim (Bool-cases (taken (route_of method pattern callable) routes)) [
              | inl dup ↦
                  inl (RegistrationErrorCode.duplicate_route, rw (e, good, present, dup) refl)
              | inr fresh ↦ elim (Bool-cases (leb maximum_route_count (length routes))) [
                | inl full ↦
                    inl (
                      RegistrationErrorCode.too_many_routes,
                      rw (e, good, present, fresh, full) refl,
                    )
                | inr room ↦ inr (
                  method,
                  callable,
                  (e, good, present, fresh, ground (arith, room)),
                  rw (e, good, present, fresh, room) refl,
                )
              ]
            ]
      ]
    ]
  ]

  -- Registering keeps a table at no more than 128 routes, no two of them with the same method,
  -- prefix and kind.
  pub register_route-IsValid :
      (routes : List (Route Handler)) (value : ℕ) (pattern : Bytes) (handler : Option Handler)
      → IsValid routes
      → IsValid (register_route routes value pattern handler).0
  unfolding IsValid
  register_route-IsValid routes value pattern handler h =
      elim (register_route-cases routes value pattern handler) [
        | inl (code, e) ↦ rw e h
        | inr (method, callable, (named, valid, present, fresh, room), e) ↦
            let new = route_of method pattern callable in
            rw e (
              omega (arith, room, length-append routes (new ∷ [])),
              Distinct-snoc routes new h.1 fresh,
            )
      ]

  snoc-cases :
      (routes : List (Route Handler)) (new r : Route Handler) (i : ℕ)
      → get_elem? (routes ++ new ∷ []) i ≡ some r
      → (r ≡ new) ⊎ (get_elem? routes i ≡ some r)
  snoc-cases [] new r zero e = inl (cc)
  snoc-cases [] new r (suc i) e = absurd (cc)
  snoc-cases (x ∷ routes) new r zero e = inr e
  snoc-cases (x ∷ routes) new r (suc i) e = snoc-cases routes new r i e

  not-taken :
      (s r : Route Handler) (routes : List (Route Handler)) (i : ℕ)
      → taken s routes ≡ false
      → get_elem? routes i ≡ some r
      → same_route s.method s.prefix s.wildcard r ≡ false
  not-taken s r [] i h e = absurd (cc)
  not-taken s r (x ∷ routes) zero h e = ground (arith, e)
  not-taken s r (x ∷ routes) (suc i) h e = not-taken s r routes i (ground arith) e

  -- A route that accepts the path of an exact route and that the exact route would not replace has
  -- its method, prefix and kind.
  exact_rival :
      (new r : Route Handler)
      → new.wildcard ≡ false
      → accepts new.method new.prefix r ≡ true
      → replaces new r ≡ false
      → same_route new.method new.prefix new.wildcard r ≡ true
  unfolding accepts replaces same_route same_method same_kind path_matches is_more_specific
      method_index
  exact_rival new r w a p =
      ground (arith, bytes_eq_iff r.prefix new.prefix, bytes_eq_iff new.prefix r.prefix)

  exact_accepts :
      (new : Route Handler) → new.wildcard ≡ false → accepts new.method new.prefix new ≡ true
  unfolding accepts same_method path_matches method_index
  exact_accepts new w = ground (arith, bytes_eq_iff new.prefix new.prefix)

  All-snoc :
      (P : Route Handler → Type 0) (routes : List (Route Handler)) (new : Route Handler)
      → All P (routes ++ new ∷ [])
      → P new
  All-snoc P [] new h = h.0
  All-snoc P (x ∷ routes) new h = All-snoc P routes new h.1

  pub snoc_is_selected :
      (routes : List (Route Handler)) (new : Route Handler)
      → new.wildcard ≡ false
      → taken new routes ≡ false
      → select_route (routes ++ new ∷ []) new.method new.prefix ≡ some new
  unfolding Best
  snoc_is_selected routes new w h =
      elim (select_route-Best (routes ++ new ∷ []) new.method new.prefix) [
        | inl (e, refused) ↦ absurd (
            ground (
              arith,
              exact_accepts new w,
              All-snoc (λ r. accepts new.method new.prefix r ≡ false) routes new refused,
            ))
        | inr (r, i, e, found, (acc, best)) ↦
            let same = exact_rival new r w acc (
              All-snoc (λ o. accepts new.method new.prefix o ≡ true → replaces o r ≡ false) routes
                new best (exact_accepts new w)) in
            elim (snoc-cases routes new r i found) [
              | inl is ↦ e ∙ ap some is
              | inr at ↦ absurd (ground (arith, same, not-taken new r routes i h at))
            ]
      ]

  plain_is_selected :
      (routes : List (Route Handler)) (m : Method) (pattern : Bytes) (callable : Handler)
      → ends_with (codes "/*") pattern ≡ false
      → taken (route_of m pattern callable) routes ≡ false
      → select_route (routes ++ route_of m pattern callable ∷ []) m pattern
        ≡ some (record { method = m; prefix = pattern; wildcard = false; handler = callable })
  plain_is_selected routes m pattern callable exact =
      let plain : Route Handler = record {
        method = m;
        prefix = pattern;
        wildcard = false;
        handler = callable;
      } in
      subst
        (λ new. taken new routes ≡ false → select_route (routes ++ new ∷ []) m pattern ≡ some plain)
        (sym (rw exact refl)) (snoc_is_selected routes plain refl)

  -- Once an exact pattern has been registered for a method, a request of that method for that very
  -- path is given to its handler, whatever else the table holds.
  pub registered_is_selected :
      (routes routes' : List (Route Handler)) (value : ℕ) (method : Method) (pattern : Bytes)
      (handler : Handler)
      → method_of value ≡ some method
      → ends_with (codes "/*") pattern ≡ false
      → register_route routes value pattern (some handler) ≡ (routes', ok tt)
      → select_route routes' method pattern
        ≡ some (record { method = method; prefix = pattern; wildcard = false; handler = handler })
  registered_is_selected routes routes' value method pattern handler named exact h =
      elim (register_route-cases routes value pattern (some handler)) [
        | inl (code, e) ↦ absurd (cc)
        | inr (m, callable, (named', valid, present, fresh, room), e) ↦
            let found = plain_is_selected routes m pattern callable exact fresh in cc
      ]
