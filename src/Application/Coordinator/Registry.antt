-- ===== src/Application/Coordinator/Registry.antt =====
-- The registry's invariant, and that the two operations that change it keep it.
use spare_node.Base.{
  ℕ, suc, ◌+◌, ◌-◌, ◌%◌, ◌^◌, ◌≤◌, ◌<◌, Bool, false, List, [], ◌∷◌, ◌++◌, some, ok, err, ltb, ◌==◌,
  ◌≡◌, ◌≢◌, refl, arith, ◌⊎◌, inl, inr, if_both, Option-cases, Bool-cases, length, All, All-append,
}
use spare_node.Application.Coordinator.Claims.{
  Claim, ClaimSet, claim_set_conflicts, conflicts_with_active,
}
use spare_node.Application.Coordinator.{
  State, Observed, AccessError, maximum_active_claims, find_size, erase_active, release,
  interruption, commit, access_error, AccessErrorCode, Interruption, interruption_status,
  uninterrupted, cancelled, deadline_exceeded,
}

unfoldable pub total : List ClaimSet → ℕ
total [] = 0
total (a ∷ active) = length a.claims + total active

-- No set conflicts with a later one.
unfoldable pub Compatible : List ClaimSet → Type 0
Compatible [] = Unit
Compatible (a ∷ active) =
    All (λ b. claim_set_conflicts a b.claims ≡ false) active × Compatible active

unfoldable pub Distinct : List ClaimSet → Type 0
Distinct [] = Unit
Distinct (a ∷ active) = All (λ b. a.identifier ≢ b.identifier) active × Distinct active

unfoldable pub Issued : ℕ → List ClaimSet → Type 0
Issued next active = All (λ a. (0 < a.identifier) × (a.identifier < next)) active

-- The count is that of the claims held and within its bound; no two sets conflict; and their
-- identifiers are distinct, nonzero and below the next one.
unfoldable pub IsValid : State → Type 0
unfolding total Compatible Distinct Issued
IsValid s =
    (s.active_claim_count ≡ total s.active)
    × (s.active_claim_count ≤ maximum_active_claims)
    × Compatible s.active
    × Distinct s.active
    × Issued s.next_identifier s.active
    × (0 < s.next_identifier)

total-snoc :
    (active : List ClaimSet) (a : ClaimSet)
    → total (active ++ a ∷ []) ≡ total active + length a.claims
unfolding total
total-snoc [] a = omega arith
total-snoc (x ∷ active) a = omega (arith, total-snoc active a)

Compatible-snoc :
    (active : List ClaimSet) (a : ClaimSet)
    → Compatible active
    → conflicts_with_active active a.claims ≡ false
    → Compatible (active ++ a ∷ [])
unfolding Compatible conflicts_with_active
Compatible-snoc [] a h k = (tt, tt)
Compatible-snoc (x ∷ active) a h k = (
  All-append (λ b. claim_set_conflicts x b.claims ≡ false) active (a ∷ []) h.0
      (ground (arith, k), tt),
  Compatible-snoc active a h.1 (ground (arith, k)),
)

All-map :
    (P Q : ClaimSet → Type 0) (active : List ClaimSet)
    → ((a : ClaimSet) → P a → Q a)
    → All P active
    → All Q active
All-map P Q [] f h = tt
All-map P Q (a ∷ active) f h = (f a h.0, All-map P Q active f h.1)

Distinct-snoc :
    (active : List ClaimSet) (a : ClaimSet)
    → Distinct active
    → Issued a.identifier active
    → Distinct (active ++ a ∷ [])
unfolding Distinct Issued
Distinct-snoc [] a h k = (tt, tt)
Distinct-snoc (x ∷ active) a h k = (
  All-append (λ b. x.identifier ≢ b.identifier) active (a ∷ []) h.0
      ((λ e. absurd (omega (arith, k.0.1, e))), tt),
  Distinct-snoc active a h.1 k.1,
)

All-erase :
    (P : ClaimSet → Type 0) (identifier : ℕ) (active : List ClaimSet)
    → All P active
    → All P (erase_active identifier active)
unfolding erase_active
All-erase P identifier [] h = tt
All-erase P identifier (a ∷ active) h =
    if_both (λ (rest : List ClaimSet). All P rest) (a.identifier == identifier) active
      (a ∷ erase_active identifier active) h.1 (h.0, All-erase P identifier active h.1)

Compatible-erase :
    (identifier : ℕ) (active : List ClaimSet)
    → Compatible active
    → Compatible (erase_active identifier active)
unfolding erase_active Compatible
Compatible-erase identifier [] h = tt
Compatible-erase identifier (a ∷ active) h =
    if_both (λ (rest : List ClaimSet). Compatible rest) (a.identifier == identifier) active
      (a ∷ erase_active identifier active) h.1
      (
        All-erase (λ b. claim_set_conflicts a b.claims ≡ false) identifier active h.0,
        Compatible-erase identifier active h.1,
      )

Distinct-erase :
    (identifier : ℕ) (active : List ClaimSet)
    → Distinct active
    → Distinct (erase_active identifier active)
unfolding erase_active Distinct
Distinct-erase identifier [] h = tt
Distinct-erase identifier (a ∷ active) h =
    if_both (λ (rest : List ClaimSet). Distinct rest) (a.identifier == identifier) active
      (a ∷ erase_active identifier active) h.1
      (
        All-erase (λ b. a.identifier ≢ b.identifier) identifier active h.0,
        Distinct-erase identifier active h.1,
      )

total-erase :
    (identifier : ℕ) (active : List ClaimSet) (n : ℕ)
    → find_size identifier active ≡ some n
    → total active ≡ n + total (erase_active identifier active)
unfolding total erase_active find_size
total-erase identifier [] n h = absurd (cc)
total-erase identifier (a ∷ active) n h = ground (arith, h, total-erase identifier active n)

pub status-cases :
    (i : Interruption) → (i ≡ uninterrupted) ⊎ ((i ≡ cancelled) ⊎ (i ≡ deadline_exceeded))
status-cases uninterrupted = inl refl
status-cases cancelled = inr (inl refl)
status-cases deadline_exceeded = inr (inr refl)

wraps : (n : ℕ) → suc n < 2 ^ 64 → (n + 1) % 2 ^ 64 ≡ suc n
wraps n h = omega arith

-- The registry without the set of an identifier that it holds.
abbrev without : State → ℕ → ℕ → State
without s identifier size = record s {
  active_claim_count = s.active_claim_count - size;
  active = erase_active identifier s.active;
}

without-IsValid :
    (s : State) (identifier size : ℕ)
    → IsValid s
    → find_size identifier s.active ≡ some size
    → IsValid (without s identifier size)
unfolding IsValid Issued
without-IsValid s identifier size (count, bound, apart, distinct, issued, some_next) e = (
  omega (arith, count, total-erase identifier s.active size e),
  omega (arith, bound),
  Compatible-erase identifier s.active apart,
  Distinct-erase identifier s.active distinct,
  All-erase (λ a. (0 < a.identifier) × (a.identifier < s.next_identifier)) identifier s.active
      issued,
  some_next,
)

-- Releasing a lease keeps the registry valid.
pub release-IsValid : (s : State) (identifier : ℕ) → IsValid s → IsValid (release s identifier)
unfolding release
release-IsValid s identifier h = elim (Bool-cases (identifier == 0)) [
  | inl nothing ↦ rw nothing h
  | inr owns ↦ elim (Option-cases (find_size identifier s.active)) [
    | inl e ↦ rw (owns, e) h
    | inr (size, e) ↦ rw (owns, e) (without-IsValid s identifier size h e)
  ]
]

-- The registry with a further set of claims.
unfoldable pub granted : State → List Claim → State
granted s claims = record {
  active = s.active ++ record { identifier = s.next_identifier; claims = claims } ∷ [];
  active_claim_count = s.active_claim_count + length claims;
  next_identifier = suc s.next_identifier;
}

granted-IsValid :
    (s : State) (claims : List Claim)
    → IsValid s
    → length claims ≤ maximum_active_claims - s.active_claim_count
    → conflicts_with_active s.active claims ≡ false
    → IsValid (granted s claims)
unfolding IsValid Issued granted
granted-IsValid s claims (count, bound, apart, distinct, issued, some_next) room free =
    let new : ClaimSet = record { identifier = s.next_identifier; claims = claims } in
    (
      omega (arith, count, total-snoc s.active new),
      omega (arith, bound, room),
      Compatible-snoc s.active new apart free,
      Distinct-snoc s.active new distinct issued,
      All-append (λ a. (0 < a.identifier) × (a.identifier < suc s.next_identifier)) s.active
          (new ∷ [])
          (All-map (λ a. (0 < a.identifier) × (a.identifier < s.next_identifier))
            (λ a. (0 < a.identifier) × (a.identifier < suc s.next_identifier)) s.active
            (λ a low. (low.0, omega (arith, low.1))) issued)
          ((some_next, omega arith), tt),
      omega arith,
    )

-- The registry when an identifier has been used up for nothing.
unfoldable pub skipped : State → State
skipped s = record s { next_identifier = suc s.next_identifier }

skipped-IsValid : (s : State) → IsValid s → IsValid (skipped s)
unfolding IsValid Issued skipped
skipped-IsValid s (count, bound, apart, distinct, issued, some_next) = (
  count,
  bound,
  apart,
  distinct,
  All-map (λ a. (0 < a.identifier) × (a.identifier < s.next_identifier))
      (λ a. (0 < a.identifier) × (a.identifier < suc s.next_identifier)) s.active
      (λ a low. (low.0, omega (arith, low.1))) issued,
  omega arith,
)

module _ {ℓ} (PathError : Type ℓ) where
  -- What a commit may do.
  abbrev pub Refuses : State → List Claim → Observed → Bool → Type ℓ
  Refuses s claims o pushed = (e : AccessError PathError) × (commit s claims o pushed ≡ (s, err e))

  abbrev pub Aborts : State → List Claim → Observed → Bool → Type ℓ
  Aborts s claims o pushed =
      (commit {PathError = PathError} s claims o pushed
        ≡ (skipped s, err (access_error AccessErrorCode.resource_allocation_failed)))
      × (pushed ≡ false)

  abbrev pub Grants : State → List Claim → Observed → Bool → Type ℓ
  Grants s claims o pushed =
      (commit {PathError = PathError} s claims o pushed ≡ (granted s claims, ok s.next_identifier))
      × (interruption_status o ≡ uninterrupted)
      × (length claims ≤ maximum_active_claims - s.active_claim_count)
      × (conflicts_with_active s.active claims ≡ false)

  -- As long as the next identifier does not wrap around, a commit leaves the registry as it was, with
  -- an error, uses up an identifier for want of memory, or grants the claims where it is not
  -- interrupted, there is room for them, and they conflict with no active set.
  pub commit-cases :
      (s : State) (claims : List Claim) (o : Observed) (pushed : Bool)
      → suc s.next_identifier < 2 ^ 64
      → Refuses s claims o pushed ⊎ (Aborts s claims o pushed ⊎ Grants s claims o pushed)
  unfolding commit interruption granted skipped
  commit-cases s claims o pushed k = elim (status-cases (interruption_status o)) [
    | inr (inl e) ↦
        inl (access_error AccessErrorCode.cancelled_access, rw (commit, interruption, e) refl)
    | inr (inr e) ↦
        inl (access_error AccessErrorCode.expired_access, rw (commit, interruption, e) refl)
    | inl e ↦
        elim (Bool-cases (ltb (maximum_active_claims - s.active_claim_count) (length claims))) [
          | inl full ↦ inl (
            access_error AccessErrorCode.capacity_exceeded,
            rw (commit, interruption, e, full) refl,
          )
          | inr room ↦ elim (Bool-cases (conflicts_with_active s.active claims)) [
            | inl taken ↦ inl (
              access_error AccessErrorCode.conflict,
              rw (commit, interruption, e, room, taken) refl,
            )
            | inr free ↦ elim (Bool-cases pushed) [
              | inr out ↦ inr (
                  inl (
                    rw (commit, interruption, e, room, free, out, wraps s.next_identifier k) refl,
                    out,
                  ))
              | inl held ↦ inr (
                  inr (
                    rw (commit, interruption, e, room, free, held, wraps s.next_identifier k) refl,
                    e,
                    ground (arith, room),
                    free,
                  ))
            ]
          ]
        ]
  ]

  -- Granting or refusing a prepared set of claims keeps the registry valid, as long as the next
  -- identifier does not wrap around.
  pub commit-IsValid :
      (s : State) (claims : List Claim) (o : Observed) (pushed : Bool)
      → IsValid s
      → suc s.next_identifier < 2 ^ 64
      → IsValid (commit {PathError = PathError} s claims o pushed).0
  commit-IsValid s claims o pushed h k = elim (commit-cases s claims o pushed k) [
    | inl (e, refused) ↦ rw refused h
    | inr (inl (aborted, out)) ↦ rw aborted (skipped-IsValid s h)
    | inr (inr (done, quiet, room, free)) ↦ rw done (granted-IsValid s claims h room free)
  ]
