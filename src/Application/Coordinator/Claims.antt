-- ===== src/Application/Coordinator/Claims.antt =====
-- Resource claims and their conflicts: the helpers of
-- src/application/filesystem_resource_coordinator.cpp.
use spare_node.Base.{
  ℕ, Bool, true, false, not, ◌&&◌, ◌||◌, List, [], ◌∷◌, ◌++◌, Bytes, ltb, leb, ◌==◌, if◌then◌else◌,
  length, any, codes, bytes_eq, bytes_eq_iff, bytes_eq_refl, length-append, ◌≡◌, ◌↔◌, ◌⊎◌, refl,
  arith,
}

pub data Mode : Type 0 where
  shared_read exclusive_mutation : Mode

pub record Claim : Type 0 where
  pub root : Bytes
  pub components : List Bytes
  pub mode : Mode

pub record ClaimSet : Type 0 where
  pub identifier : ℕ
  pub claims : List Claim

unfoldable pub path_text_equal : Bytes → Bytes → Bool
path_text_equal left right = bytes_eq left right

-- `std::equal` of the first sequence with the front of the second.
unfoldable pub equal_front : List Bytes → List Bytes → Bool
unfolding path_text_equal
equal_front [] path = true
equal_front (p ∷ prefix) [] = false
equal_front (p ∷ prefix) (c ∷ path) = path_text_equal p c && equal_front prefix path

unfoldable pub is_prefix : List Bytes → List Bytes → Bool
unfolding equal_front
is_prefix prefix path = leb (length prefix) (length path) && equal_front prefix path

unfoldable pub overlaps : Claim → Claim → Bool
unfolding path_text_equal is_prefix
overlaps left right =
    path_text_equal left.root right.root
    && (is_prefix left.components right.components || is_prefix right.components left.components)

unfoldable pub is_exclusive : Mode → Bool
is_exclusive shared_read = false
is_exclusive exclusive_mutation = true

unfoldable pub conflicts : Claim → Claim → Bool
unfolding overlaps is_exclusive
conflicts left right = overlaps left right && (is_exclusive left.mode || is_exclusive right.mode)

unfoldable pub claim_set_conflicts : ClaimSet → List Claim → Bool
unfolding conflicts
claim_set_conflicts active requested_claims =
    any (λ existing. any (conflicts existing) requested_claims) active.claims

unfoldable pub conflicts_with_active : List ClaimSet → List Claim → Bool
unfolding claim_set_conflicts
conflicts_with_active active_claim_sets requested_claims =
    any (λ active. claim_set_conflicts active requested_claims) active_claim_sets

-- The components that are neither empty nor a single dot.
unfoldable pub named_components : List Bytes → List Bytes
named_components [] = []
named_components (c ∷ components) =
    let rest = named_components components in
    if not (length c == 0) && not (bytes_eq c (codes ".")) then c ∷ rest else rest

-- `operator<` of two strings.
unfoldable pub text_less : Bytes → Bytes → Bool
text_less [] [] = false
text_less [] (y ∷ ys) = true
text_less (x ∷ xs) [] = false
text_less (x ∷ xs) (y ∷ ys) = ltb x y || (x == y && text_less xs ys)

-- `std::lexicographical_compare` of two component sequences.
unfoldable pub components_less : List Bytes → List Bytes → Bool
unfolding text_less
components_less [] [] = false
components_less [] (y ∷ ys) = true
components_less (x ∷ xs) [] = false
components_less (x ∷ xs) (y ∷ ys) = text_less x y || (not (text_less y x) && components_less xs ys)

unfoldable pub claim_less : Claim → Claim → Bool
unfolding text_less components_less
claim_less left right =
    if not (bytes_eq left.root right.root)
    then text_less left.root right.root
    else components_less left.components right.components

equal_front-only :
    (prefix path : List Bytes)
    → equal_front prefix path ≡ true
    → (rest : List Bytes) × (path ≡ prefix ++ rest)
unfolding equal_front path_text_equal
equal_front-only [] path h = (path, refl)
equal_front-only (p ∷ prefix) [] h = absurd (cc)
equal_front-only (p ∷ prefix) (c ∷ path) h =
    let (rest, e) = equal_front-only prefix path (ground (arith, h)) in
    let same : c ≡ p = ground (arith, h, bytes_eq_iff p c) in (rest, cc)

equal_front-append : (prefix rest : List Bytes) → equal_front prefix (prefix ++ rest) ≡ true
unfolding equal_front path_text_equal
equal_front-append [] rest = refl
equal_front-append (p ∷ prefix) rest = rw (bytes_eq_refl p) (equal_front-append prefix rest)

pub is_prefix_iff :
    (prefix path : List Bytes)
    → (is_prefix prefix path ≡ true) ↔ ((rest : List Bytes) × (path ≡ prefix ++ rest))
unfolding is_prefix
is_prefix_iff prefix path = (
  (λ h. equal_front-only prefix path (ground (arith, h))),
  (λ ext.
      let (rest, e) = ext in
      rw (e, equal_front-append prefix rest) (ground (arith, length-append prefix rest))),
)

-- One resource is the other or an ancestor of it: they have the same root, and the components of
-- one are the first components of the other.
unfoldable pub Related : Claim → Claim → Type 0
Related left right =
    (left.root ≡ right.root)
    × (((rest : List Bytes) × (right.components ≡ left.components ++ rest))
        ⊎ ((rest : List Bytes) × (left.components ≡ right.components ++ rest)))

-- Two claims overlap exactly where one resource is the other or an ancestor of it.
pub overlaps_iff : (left right : Claim) → (overlaps left right ≡ true) ↔ Related left right
unfolding overlaps path_text_equal Related
overlaps_iff left right = ground (
  arith,
  bytes_eq_iff left.root right.root,
  is_prefix_iff left.components right.components,
  is_prefix_iff right.components left.components,
)
