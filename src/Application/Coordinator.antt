-- ===== src/Application/Coordinator.antt =====
-- Coordinated access to filesystem resources: src/application/filesystem_resource_coordinator.cpp,
-- with include/sparenode/application/filesystem_resource_coordinator.hpp and
-- include/sparenode/foundation/concurrency/interruption.hpp. A path is its native text, as on
-- POSIX. Whether memory suffices is told by flags, one for `reserve`, for each claim and for
-- `push_back`. An acquisition takes the registry's lock twice, and another
-- thread may change the registry in between: `prepare` sees it at the first lock, `commit` at the
-- second.
pub mod Claims
pub mod Registry
pub mod Exclusion
pub mod Acquisition
use spare_node.Base.{
  ℕ, zero, suc, ◌+◌, ◌-◌, ◌%◌, ◌^◌, Bool, true, false, not, ◌&&◌, ◌||◌, List, [], ◌∷◌, ◌++◌, Option,
  none, some, Bytes, Result, ok, err, ltb, leb, ◌==◌, if◌then◌else◌, length,
}
use spare_node.Application.Coordinator.Claims.{
  Claim, ClaimSet, Mode, claim_less, conflicts_with_active, named_components,
}

pub data Interruption : Type 0 where
  uninterrupted cancelled deadline_exceeded : Interruption

-- The stop token and the optional deadline of the options, and the clock, at one inspection.
pub record Observed : Type 0 where
  pub stop_requested : Bool
  pub deadline : Option ℕ
  pub now : ℕ

unfoldable pub interruption_status : Observed → Interruption
interruption_status o = if o.stop_requested then cancelled else elim o.deadline [
  | none ↦ uninterrupted
  | some deadline ↦ if leb deadline o.now then deadline_exceeded else uninterrupted
]

pub data AccessErrorCode : Type 0 where
  invalid_path conflict cancelled_access expired_access : AccessErrorCode
  capacity_exceeded resource_allocation_failed : AccessErrorCode

-- `PathError` is the type of what `SafePath::resolve` reports; `resolution_failed` its value for a
-- request without a root.
pub record AccessError {ℓ} (PathError : Type ℓ) : Type ℓ where
  pub code : AccessErrorCode
  pub path_error : Option PathError

pub record AccessRequest : Type 0 where
  pub root : Option Bytes
  pub requested_path : Bytes
  pub mode : Mode

abbrev pub maximum_active_claims : ℕ
maximum_active_claims = 4096

-- The registry that coordinators and leases share.
pub record State : Type 0 where
  pub active : List ClaimSet
  pub active_claim_count : ℕ
  pub next_identifier : ℕ

unfoldable pub initial : State
initial = record { active = []; active_claim_count = 0; next_identifier = 1 }

-- `std::erase` of the first set with the identifier, and the size of that set.
unfoldable pub find_size : ℕ → List ClaimSet → Option ℕ
find_size identifier [] = none
find_size identifier (a ∷ active) =
    if a.identifier == identifier then some (length a.claims) else find_size identifier active

unfoldable pub erase_active : ℕ → List ClaimSet → List ClaimSet
erase_active identifier [] = []
erase_active identifier (a ∷ active) =
    let rest = erase_active identifier active in
    if a.identifier == identifier then active else a ∷ rest

-- A lease is the identifier it releases; one that owns nothing has the identifier 0.
unfoldable pub release : State → ℕ → State
unfolding find_size erase_active
release s identifier = if identifier == 0 then s else elim (find_size identifier s.active) [
  | none ↦ s
  | some size ↦ record s {
    active_claim_count = s.active_claim_count - size;
    active = erase_active identifier s.active;
  }
]

-- The move constructor: the new lease and what is left of the other one.
unfoldable pub move_lease : ℕ → ℕ × ℕ
move_lease other = (other, 0)

-- The move assignment between two leases: the registry, this lease and the other one.
unfoldable pub assign_lease : State → ℕ → ℕ → State × (ℕ × ℕ)
unfolding release
assign_lease s this other = (release s this, (other, 0))

module _ {ℓ} {PathError : Type ℓ} where
  abbrev pub access_error : AccessErrorCode → AccessError PathError
  access_error code = record { code = code; path_error = none }

  unfoldable pub interruption : Observed → Option (AccessError PathError)
  unfolding interruption_status
  interruption o = elim (interruption_status o) [
    | cancelled ↦ some (access_error cancelled_access)
    | deadline_exceeded ↦ some (access_error expired_access)
    | uninterrupted ↦ none
  ]

  -- The part of `acquire_all` under the second lock; `pushed` tells whether `push_back` finds memory.
  -- The identifier is used up even if it does not.
  unfoldable pub commit :
      State → List Claim → Observed → Bool → State × Result ℕ (AccessError PathError)
  unfolding interruption conflicts_with_active
  commit s claims o pushed = elim (interruption o) [
    | some e ↦ (s, err e)
    | none ↦
        if ltb (maximum_active_claims - s.active_claim_count) (length claims)
        then (s, err (access_error capacity_exceeded))
        else if conflicts_with_active s.active claims
        then (s, err (access_error conflict))
        else if not pushed
        then (
          record s { next_identifier = (s.next_identifier + 1) % 2 ^ 64 },
          err (access_error resource_allocation_failed),
        )
        else (
          record {
            active = s.active ++ record { identifier = s.next_identifier; claims = claims } ∷ [];
            active_claim_count = s.active_claim_count + length claims;
            next_identifier = (s.next_identifier + 1) % 2 ^ 64;
          },
          ok s.next_identifier,
        )
  ]

-- `resolve` is `SafePath::resolve` up to the path it answers, `relative` the components of
-- `std::filesystem::path::lexically_relative`, `sort` the algorithm `std::ranges::sort`.
module _ {ℓ} {PathError : Type ℓ} (resolution_failed : PathError)
    (resolve : Bytes → Bytes → Result Bytes PathError) (relative : Bytes → Bytes → List Bytes)
    (sort : (Claim → Claim → Bool) → List Claim → List Claim) where
  unfoldable pub make_claim : AccessRequest → Result Claim (AccessError PathError)
  unfolding named_components
  make_claim request = elim request.root [
    | none ↦ err (record { code = invalid_path; path_error = some resolution_failed })
    | some root ↦ elim (resolve root request.requested_path) [
      | err e ↦ err (record { code = invalid_path; path_error = some e })
      | ok path ↦ ok (record {
        root = root;
        components = named_components (relative path root);
        mode = request.mode;
      })
    ]
  ]

  -- The loop; `memory i` tells whether round `i` finds the memory that it needs.
  unfoldable pub make_claims :
      (ℕ → Bool) → List AccessRequest → Result (List Claim) (AccessError PathError)
  unfolding make_claim
  make_claims memory [] = ok []
  make_claims memory (request ∷ requests) =
      let rest = make_claims (λ i. memory (suc i)) requests in
      if not (memory 0)
      then err (access_error resource_allocation_failed)
      else elim (make_claim request) [
        | err e ↦ err e
        | ok claim ↦ elim rest [ err e ↦ err e | ok claims ↦ ok (claim ∷ claims) ]
      ]

  -- The part of `acquire_all` in front of the second lock: `first` and `second` are what the two
  -- inspections see, `s` the registry at the first lock, `memory 0` whether `reserve` finds memory.
  unfoldable pub prepare :
      State
      → (ℕ → Bool)
      → List AccessRequest
      → Observed
      → Observed
      → Result (List Claim) (AccessError PathError)
  unfolding interruption make_claims claim_less
  prepare s memory requests first second = elim (interruption {PathError = PathError} first) [
    | some e ↦ err e
    | none ↦
        if length requests == 0
        then err (access_error invalid_path)
        else if ltb maximum_active_claims (length requests)
        then err (access_error capacity_exceeded)
        else if ltb (maximum_active_claims - s.active_claim_count) (length requests)
        then err (access_error capacity_exceeded)
        else if not (memory 0)
        then err (access_error resource_allocation_failed)
        else elim (make_claims (λ i. memory (suc i)) requests) [
          | err e ↦ err e
          | ok claims ↦ elim (interruption {PathError = PathError} second) [
            | some e ↦ err e
            | none ↦ ok (sort claim_less claims)
          ]
        ]
  ]

  -- The registry at the first and at the second lock; the registry afterwards and the lease.
  unfoldable pub acquire_all :
      State
      → State
      → (ℕ → Bool)
      → Bool
      → List AccessRequest
      → Observed
      → Observed
      → Observed
      → State × Result ℕ (AccessError PathError)
  unfolding prepare commit
  acquire_all s1 s2 memory pushed requests first second third =
      elim (prepare s1 memory requests first second) [
        | err e ↦ (s2, err e)
        | ok claims ↦ commit s2 claims third pushed
      ]

  unfoldable pub acquire :
      State
      → State
      → (ℕ → Bool)
      → Bool
      → Bytes
      → Bytes
      → Mode
      → Observed
      → Observed
      → Observed
      → State × Result ℕ (AccessError PathError)
  unfolding acquire_all
  acquire s1 s2 memory pushed root requested_path mode =
      acquire_all s1 s2 memory pushed
        (record { root = some root; requested_path = requested_path; mode = mode } ∷ [])
