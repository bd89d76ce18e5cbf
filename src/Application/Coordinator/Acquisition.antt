-- ===== src/Application/Coordinator/Acquisition.antt =====
-- A whole acquisition, from the requests to the lease.
use spare_node.Base.{
  ℕ, Bool-cases, suc, ◌-◌, ◌^◌, ◌≤◌, ◌<◌, Bool, false, List, [], ◌∷◌, Bytes, Result, ok, err,
  Result-cases, ◌≡◌, refl, arith, ◌⊎◌, inl, inr, length,
}
use spare_node.Application.Coordinator.Claims.{Claim, claim_less, conflicts_with_active}
use spare_node.Application.Coordinator.{
  State, Observed, AccessRequest, AccessError, uninterrupted, interruption, interruption_status,
  maximum_active_claims, make_claim, make_claims, prepare, acquire_all, access_error,
  resource_allocation_failed,
}
use spare_node.Application.Coordinator.Registry.{granted, skipped, commit-cases, status-cases}

module _ {ℓ} {PathError : Type ℓ} (resolution_failed : PathError)
    (resolve : Bytes → Bytes → Result Bytes PathError) (relative : Bytes → Bytes → List Bytes)
    (sort : (Claim → Claim → Bool) → List Claim → List Claim) where
  abbrev claims_of : (ℕ → Bool) → List AccessRequest → Result (List Claim) (AccessError PathError)
  claims_of memory requests = make_claims resolution_failed resolve relative sort memory requests

  length-claims_of :
      (memory : ℕ → Bool) (requests : List AccessRequest) (claims : List Claim)
      → claims_of memory requests ≡ ok claims
      → length claims ≡ length requests
  unfolding make_claims
  length-claims_of memory [] claims h = ground (arith, h)
  length-claims_of memory (r ∷ requests) claims h = elim (Bool-cases (memory 0)) [
    | inr out ↦ absurd (ground (arith, h, out))
    | inl held ↦ elim (Result-cases (make_claim resolution_failed resolve relative sort r)) [
      | inr (e, failed) ↦ absurd (ground (arith, h, held, failed))
      | inl (c, made) ↦ elim (Result-cases (claims_of (λ i. memory (suc i)) requests)) [
        | inr (e, failed) ↦ absurd (ground (arith, h, held, made, failed))
        | inl (cs, rest) ↦
            let size = length-claims_of (λ i. memory (suc i)) requests cs rest in
            ground (arith, h, held, made, rest, size)
      ]
    ]
  ]

  -- What a prepared set of claims needs.
  pub Prepared :
      (ℕ → Bool) → List AccessRequest → Observed → Observed → List Claim → List Claim → Type ℓ
  Prepared memory requests first second claims sorted =
      (claims_of (λ i. memory (suc i)) requests ≡ ok claims)
      × (sorted ≡ sort claim_less claims)
      × (0 < length requests)
      × (length requests ≤ maximum_active_claims)
      × (interruption_status first ≡ uninterrupted)
      × (interruption_status second ≡ uninterrupted)

  prepare-only :
      (s : State) (memory : ℕ → Bool) (requests : List AccessRequest) (first second : Observed)
      (sorted : List Claim)
      → prepare resolution_failed resolve relative sort s memory requests first second ≡ ok sorted
      → (claims : List Claim) × Prepared memory requests first second claims sorted
  unfolding prepare interruption Prepared
  prepare-only s memory requests first second sorted h =
      elim (Result-cases (claims_of (λ i. memory (suc i)) requests)) [
        | inr (e, failed) ↦
            absurd (ground (arith, h, failed, status-cases (interruption_status first)))
        | inl (claims, made) ↦ (
          claims,
          ground (
            arith,
            h,
            made,
            status-cases (interruption_status first),
            status-cases (interruption_status second),
          ),
        )
      ]

  -- Whatever the registry is at the first lock, and as long as the next identifier does not wrap
  -- around at the second, an acquisition leaves the registry that it finds at the second lock as it
  -- is, with an error; or, if `push_back` finds no memory, as it is but for an identifier used up,
  -- with that error; or adds to it one set with the claims of all its requests, sorted: it then had
  -- between one and 4096 requests, none of which was refused, was not interrupted at any of its three
  -- inspections, found room for the claims and no conflict.
  pub acquire_all-cases :
      (s1 s2 : State) (memory : ℕ → Bool) (pushed : Bool) (requests : List AccessRequest)
      (first second third : Observed)
      → suc s2.next_identifier < 2 ^ 64
      → ((e : AccessError PathError) × (acquire_all resolution_failed resolve relative sort s1 s2
              memory pushed requests first second third
            ≡ (s2, err e)))
        ⊎ (((acquire_all resolution_failed resolve relative sort s1 s2 memory pushed requests first
                  second third
                ≡ (skipped s2, err (access_error resource_allocation_failed)))
              × (pushed ≡ false))
            ⊎ ((claims sorted : List Claim) × Prepared memory requests first second claims sorted
                × (length claims ≡ length requests)
                × (acquire_all resolution_failed resolve relative sort s1 s2 memory pushed requests
                      first second third
                    ≡ (granted s2 sorted, ok s2.next_identifier))
                × (interruption_status third ≡ uninterrupted)
                × (length sorted ≤ maximum_active_claims - s2.active_claim_count)
                × (conflicts_with_active s2.active sorted ≡ false)))
  unfolding acquire_all Prepared
  acquire_all-cases s1 s2 memory pushed requests first second third k =
      elim (Result-cases
        (prepare resolution_failed resolve relative sort s1 memory requests first second)) [
          | inr (e, failed) ↦ inl (e, rw (acquire_all, failed) refl)
          | inl (sorted, made) ↦
              let (claims, prepared) = prepare-only s1 memory requests first second sorted made in
              elim (commit-cases PathError s2 sorted third pushed k) [
                | inl (e, refused) ↦ inl (e, rw (acquire_all, made) refused)
                | inr (inl (aborted, out)) ↦ inr (inl (rw (acquire_all, made) aborted, out))
                | inr (inr (done, quiet, room, free)) ↦ inr (
                    inr (
                      claims,
                      sorted,
                      prepared,
                      length-claims_of (λ i. memory (suc i)) requests claims prepared.0,
                      rw (acquire_all, made) done,
                      quiet,
                      room,
                      free,
                    ))
              ]
        ]
