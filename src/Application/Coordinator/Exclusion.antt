-- ===== src/Application/Coordinator/Exclusion.antt =====
-- What holds after every interleaving of commits and releases.
use spare_node.Base.{
  ℕ, zero, suc, ◌+◌, ◌-◌, ◌^◌, ◌≤◌, ◌<◌, Bool, false, List, [], ◌∷◌, ◌++◌, some, ok, ◌==◌, ◌≡◌,
  refl, subst, arith, inl, inr, length, get_elem?, any, All,
}
use spare_node.Application.Coordinator.Claims.{
  Claim, ClaimSet, Mode, shared_read, claim_set_conflicts, conflicts, is_exclusive, Related,
  overlaps_iff,
}
use spare_node.Application.Coordinator.{
  State, Observed, initial, find_size, erase_active, release, commit,
}
use spare_node.Application.Coordinator.Registry.{
  IsValid, Compatible, Distinct, Issued, total, granted, skipped, commit-cases, commit-IsValid,
  release-IsValid,
}

-- What the threads do to the registry, one lock at a time.
pub data Step : Type 0 where
  committing : List Claim → Observed → Bool → Step
  releasing : ℕ → Step

unfoldable pub step : State → Step → State
unfolding commit release
step s (committing claims o pushed) = (commit {PathError = Unit {0}} s claims o pushed).0
step s (releasing identifier) = release s identifier

unfoldable pub run : State → List Step → State
unfolding step
run s [] = s
run s (x ∷ steps) = run (step s x) steps

release-next : (s : State) (i : ℕ) → (release s i).next_identifier ≡ s.next_identifier
unfolding release
release-next s i = ground arith

step-IsValid :
    (s : State) (x : Step)
    → IsValid s
    → suc s.next_identifier < 2 ^ 64
    → IsValid (step s x) × ((step s x).next_identifier ≤ suc s.next_identifier)
unfolding step granted skipped
step-IsValid s (releasing i) h k = (release-IsValid s i h, omega (arith, release-next s i))
step-IsValid s (committing claims o pushed) h k = (
  commit-IsValid (Unit {0}) s claims o pushed h k,
  elim (commit-cases (Unit {0}) s claims o pushed k) [
    | inl (e, refused) ↦ rw (step, refused) (omega arith)
    | inr (inl (aborted, out)) ↦ rw (step, aborted) (omega arith)
    | inr (inr (done, quiet, room, free)) ↦ rw (step, done) (omega arith)
  ],
)

-- From a valid registry, any sequence of commits, with or without memory, and releases that is shorter
-- than the identifiers that are left leads to a valid one: the count is that of the claims held and
-- no more than 4096, no two sets conflict, and their identifiers are distinct and were issued.
pub run-IsValid :
    (s : State) (steps : List Step)
    → IsValid s
    → s.next_identifier + length steps < 2 ^ 64
    → IsValid (run s steps)
unfolding run
run-IsValid s [] h k = h
run-IsValid s (x ∷ steps) h k =
    let (valid, next) = step-IsValid s x h (omega (arith, k)) in
    run-IsValid (step s x) steps valid (omega (arith, k, next))

pub initial-IsValid : IsValid initial
unfolding initial IsValid total Compatible Distinct Issued
initial-IsValid = (refl, omega arith, tt, tt, tt, omega arith)

some-inj : (a b : ClaimSet) → some a ≡ some b → a ≡ b
some-inj a b e = cc

mode_shared : (m : Mode) → is_exclusive m ≡ false → m ≡ shared_read
unfolding is_exclusive
mode_shared shared_read h = refl
mode_shared Mode.exclusive_mutation h = absurd (cc)

plus_minus : (a b : ℕ) → (a + b) - b ≡ a
plus_minus a b = omega arith

All-at :
    (P : ClaimSet → Type 0) (active : List ClaimSet) (i : ℕ) (a : ClaimSet)
    → All P active
    → get_elem? active i ≡ some a
    → P a
All-at P [] i a h e = absurd (cc)
All-at P (x ∷ active) zero a h e = subst P (some-inj x a e) h.0
All-at P (x ∷ active) (suc i) a h e = All-at P active i a h.1 e

any-at :
    (p : Claim → Bool) (claims : List Claim) (i : ℕ) (c : Claim)
    → any p claims ≡ false
    → get_elem? claims i ≡ some c
    → p c ≡ false
any-at p [] i c h e = absurd (cc)
any-at p (x ∷ claims) zero c h e = ground (arith, h, e)
any-at p (x ∷ claims) (suc i) c h e = any-at p claims i c (ground (arith, h)) e

Compatible-at :
    (active : List ClaimSet) (i j : ℕ) (a b : ClaimSet)
    → Compatible active
    → get_elem? active i ≡ some a
    → get_elem? active j ≡ some b
    → i < j
    → claim_set_conflicts a b.claims ≡ false
unfolding Compatible
Compatible-at [] i j a b h e k l = absurd (cc)
Compatible-at (x ∷ active) zero zero a b h e k l = absurd (omega (arith, l))
Compatible-at (x ∷ active) (suc i) zero a b h e k l = absurd (omega (arith, l))
Compatible-at (x ∷ active) zero (suc j) a b h e k l =
    subst (λ y. claim_set_conflicts y b.claims ≡ false) (some-inj x a e)
      (All-at (λ c. claim_set_conflicts x c.claims ≡ false) active j b h.0 k)
Compatible-at (x ∷ active) (suc i) (suc j) a b h e k l =
    Compatible-at active i j a b h.1 e k (omega (arith, l))

both_shared :
    (a b : Claim)
    → conflicts a b ≡ false
    → Related a b
    → (a.mode ≡ shared_read) × (b.mode ≡ shared_read)
unfolding conflicts is_exclusive
both_shared a b h k =
    let o = (overlaps_iff a b).1 k in
    (mode_shared a.mode (ground (arith, h, o)), mode_shared b.mode (ground (arith, h, o)))

-- After any sequence of fewer than 2 ^ 64 - 1 commits and releases from the empty registry: if two
-- active sets at different positions hold claims on resources of which one is the other or an
-- ancestor of it, both claims are shared reads.
pub run-exclusive :
    (steps : List Step) (i j k l : ℕ) (a b : ClaimSet) (c d : Claim)
    → length steps < 2 ^ 64 - 1
    → get_elem? (run initial steps).active i ≡ some a
    → get_elem? (run initial steps).active j ≡ some b
    → i < j
    → get_elem? a.claims k ≡ some c
    → get_elem? b.claims l ≡ some d
    → Related c d
    → (c.mode ≡ shared_read) × (d.mode ≡ shared_read)
unfolding IsValid claim_set_conflicts initial
run-exclusive steps i j k l a b c d bound ea eb order ec ed near =
    let valid = run-IsValid initial steps initial-IsValid (omega (arith, bound)) in
    let apart = Compatible-at (run initial steps).active i j a b valid.2 ea eb order in
    both_shared c d
      (any-at (conflicts c) b.claims l d
        (any-at (λ e. any (conflicts e) b.claims) a.claims k c apart ec) ed)
      near

find_size-snoc :
    (active : List ClaimSet) (a : ClaimSet)
    → Issued a.identifier active
    → find_size a.identifier (active ++ a ∷ []) ≡ some (length a.claims)
unfolding find_size Issued
find_size-snoc [] a h = ground arith
find_size-snoc (x ∷ active) a h = ground (arith, h.0.1, find_size-snoc active a h.1)

erase_active-snoc :
    (active : List ClaimSet) (a : ClaimSet)
    → Issued a.identifier active
    → erase_active a.identifier (active ++ a ∷ []) ≡ active
unfolding erase_active Issued
erase_active-snoc [] a h = ground arith
erase_active-snoc (x ∷ active) a h = ground (arith, h.0.1, erase_active-snoc active a h.1)

release-granted :
    (s : State) (claims : List Claim)
    → IsValid s
    → release (granted s claims) s.next_identifier
      ≡ record s { next_identifier = suc s.next_identifier }
unfolding release granted IsValid
release-granted s claims h =
    let new : ClaimSet = record { identifier = s.next_identifier; claims = claims } in
    let owns : (s.next_identifier == 0) ≡ false = ground (arith, h.5) in
    rw
      (
        owns,
        find_size-snoc s.active new h.4,
        erase_active-snoc s.active new h.4,
        plus_minus s.active_claim_count (length claims),
      )
      refl

-- If a commit on a valid registry, whose next identifier does not wrap around, grants a lease,
-- then releasing that lease at once leaves the registry as it was before the commit, but for the
-- next identifier.
pub release-commit :
    (s : State) (claims : List Claim) (o : Observed) (pushed : Bool) (lease : ℕ) (s' : State)
    → IsValid s
    → suc s.next_identifier < 2 ^ 64
    → commit {PathError = Unit {0}} s claims o pushed ≡ (s', ok lease)
    → release s' lease ≡ record s { next_identifier = suc s.next_identifier }
unfolding IsValid
release-commit s claims o pushed lease s' h k e =
    elim (commit-cases (Unit {0}) s claims o pushed k) [
      | inl (x, refused) ↦ absurd (cc)
      | inr (inl (aborted, out)) ↦ absurd (cc)
      | inr (inr (done, quiet, room, free)) ↦ let undone = release-granted s claims h in cc
    ]
