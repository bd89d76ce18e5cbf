-- ===== src/Tests/Coordinator.antt =====
-- Two readers of one directory and a writer beside it.
use Prim.Native.String.{String}
use spare_node.Base.{
  ℕ, true, Result, Bool, some, if◌then◌else◌, ◌-◌, ◌≤◌, false, List, [], ◌∷◌, none, ◌≡◌, ◌⊎◌, refl,
  arith, Bytes, ok, err, length, codes, bytes_eq, inl,
}
use spare_node.Application.Coordinator.Claims.{
  Mode, shared_read, exclusive_mutation, Claim, overlaps, Related, conflicts_with_active,
}
use spare_node.Application.Coordinator.{
  State, AccessRequest, AccessError, acquire_all, Observed, AccessError, uninterrupted,
  interruption_status, maximum_active_claims, initial, release, commit, access_error,
  resource_allocation_failed,
}
use spare_node.Application.Coordinator.Acquisition.{Prepared, acquire_all-cases}
use spare_node.Application.Coordinator.Registry.{IsValid, granted, skipped}
use spare_node.Application.Coordinator.Exclusion.{
  Step, committing, releasing, run, initial-IsValid, run-IsValid, run-exclusive, release-commit,
}

abbrev claim : String → List Bytes → Mode → Claim
claim root components mode = record { root = codes root; components = components; mode = mode }

abbrev reader : Claim
reader = claim "/srv" (codes "a" ∷ []) shared_read

abbrev inner_reader : Claim
inner_reader = claim "/srv" (codes "a" ∷ codes "b" ∷ []) shared_read

abbrev writer : Claim
writer = claim "/srv" (codes "c" ∷ []) exclusive_mutation

abbrev quiet : Observed
quiet = record { stop_requested = false; deadline = none; now = 0 }

abbrev steps : List Step
steps =
    committing (reader ∷ []) quiet true
    ∷ committing (writer ∷ []) quiet true
    ∷ releasing 2
    ∷ committing (inner_reader ∷ []) quiet true
    ∷ []

reader-Related : Related reader inner_reader
unfolding Related
reader-Related = (refl, inl (codes "b" ∷ [], refl))

run-IsValid_example : IsValid (run initial steps)
unfolding initial
run-IsValid_example = run-IsValid initial steps initial-IsValid (omega arith)

-- Without memory for the set, its identifier is used up.
aborted :
    commit {PathError = Bytes} initial (reader ∷ []) quiet false
    ≡ (skipped initial, err (access_error resource_allocation_failed))
unfolding initial commit skipped interruption_status conflicts_with_active
aborted = refl

run-exclusive_example : (reader.mode ≡ shared_read) × (inner_reader.mode ≡ shared_read)
unfolding initial run interruption_status overlaps bytes_eq
run-exclusive_example =
    run-exclusive steps 0 1 0 0 (record { identifier = 1; claims = reader ∷ [] })
      (record { identifier = 3; claims = inner_reader ∷ [] }) reader inner_reader (omega arith) refl
      refl (omega arith) refl refl reader-Related

release-commit_example :
    release (granted initial (reader ∷ [])) 1 ≡ record initial { next_identifier = 2 }
unfolding initial commit granted
release-commit_example =
    release-commit initial (reader ∷ []) quiet true 1 (granted initial (reader ∷ []))
      initial-IsValid (omega arith) refl

-- The root and the text of a path, one component behind the root, and a sort by insertion.
abbrev resolve : Bytes → Bytes → Result Bytes ℕ
resolve root path = ok path

abbrev relative : Bytes → Bytes → List Bytes
relative path root = path ∷ []

abbrev insert : (Claim → Claim → Bool) → Claim → List Claim → List Claim
insert less c [] = c ∷ []
insert less c (x ∷ sorted) =
    let rest = insert less c sorted in if less c x then c ∷ x ∷ sorted else x ∷ rest

abbrev sort : (Claim → Claim → Bool) → List Claim → List Claim
sort less [] = []
sort less (c ∷ claims) = insert less c (sort less claims)

abbrev requests : List AccessRequest
requests =
    record { root = some (codes "/srv"); requested_path = codes "b"; mode = shared_read }
    ∷ record { root = some (codes "/srv"); requested_path = codes "a"; mode = exclusive_mutation }
    ∷ []

abbrev plenty : ℕ → Bool
plenty i = true

abbrev acquired : State × Result ℕ (AccessError ℕ)
acquired =
    acquire_all 0 resolve relative sort initial initial plenty true requests quiet quiet quiet

acquire_all-cases_example :
    ((e : AccessError ℕ) × (acquired ≡ (initial, err e)))
    ⊎ (((acquired ≡ (skipped initial, err (access_error resource_allocation_failed)))
          × (true ≡ false))
        ⊎ ((claims sorted : List Claim) × Prepared 0 resolve relative sort plenty requests quiet
              quiet claims sorted
            × (length claims ≡ length requests)
            × (acquired ≡ (granted initial sorted, ok initial.next_identifier))
            × (interruption_status quiet ≡ uninterrupted)
            × (length sorted ≤ maximum_active_claims - initial.active_claim_count)
            × (conflicts_with_active initial.active sorted ≡ false)))
unfolding initial
acquire_all-cases_example =
    acquire_all-cases 0 resolve relative sort initial initial plenty true requests quiet quiet quiet
      (omega arith)
