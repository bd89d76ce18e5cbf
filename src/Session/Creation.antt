-- ===== src/Session/Creation.antt =====
-- What `create_session` adds and what it evicts.
use spare_node.Base.{
  ℕ, zero, suc, Bool, ◌∙◌, ◌-◌, ◌≤◌, ◌<◌, false, List, [], ◌∷◌, ◌≡◌, refl, ap, subst, inl, inr,
  Bool-cases, Result-cases, none, some, arith, Bytes, Result, ok, err, bytes_eq, bytes_eq_refl,
  if◌then◌else◌, length, All, get_elem?,
}
use spare_node.Session.Entries.{
  Entry, Principal, Policy, contains, expired, find_entry, least_recent,
}
use spare_node.Session.Entries.Eviction.{least_recent-IsLeast}
use spare_node.Session.Entries.Search.{
  live, find_entry-none, find_entry-erase_at, find_entry-append,
}
use spare_node.Session.Lookup.{authenticate_lem}
use spare_node.Session.Bounds.{IsValid, create_rounds-IsValid, contains-evict}
use spare_node.Session.{
  Store, Draw, Generated, CredentialError, StoreError, expire, evict_least_recent_if_full,
  insert_session, create_rounds, create_session, rounds, authenticate, resource_allocation_failed,
  credential_generation_failed,
}

-- A full store gives up one entry, and no entry that it holds was active before that one. Every
-- other digest is found as before. A store with room is left alone.
pub evict_lem :
    (s : Store)
    → IsValid s
    → (length s.entries ≡ s.policy.maximum_sessions
        → (i : ℕ) × (v : Entry) × (get_elem? s.entries i ≡ some v)
          × All (λ e. v.last_activity ≤ e.last_activity) s.entries
          × ((d : Bytes)
              → find_entry (evict_least_recent_if_full s).entries d
                ≡ (if bytes_eq v.digest d then none else find_entry s.entries d)))
      × (length s.entries < s.policy.maximum_sessions → evict_least_recent_if_full s ≡ s)
unfolding evict_least_recent_if_full
evict_lem s v = (
  λ full.
      let (e, at, least) = least_recent-IsLeast s.entries (omega (arith, v.capacity)) in
      (
        least_recent s.entries,
        e,
        at,
        least,
        λ d.
            ground
              (arith, find_entry-erase_at (least_recent s.entries) s.entries d e v.distinct at),
      ),
  λ room. ground arith,
)

-- The entry that `create_session` adds.
abbrev pub fresh_entry : Generated → Principal → ℕ → Entry
fresh_entry g principal now = record {
  digest = g.digest;
  principal = principal;
  created = now;
  last_activity = now;
}

find_entry-insert_session :
    (s : Store) (g : Generated) (principal : Principal) (now : ℕ)
    → contains s.entries g.digest ≡ false
    → find_entry (insert_session s g principal now).entries g.digest
      ≡ some (fresh_entry g principal now)
unfolding insert_session
find_entry-insert_session s g principal now h =
    rw
      (find_entry-append (evict_least_recent_if_full s).entries (fresh_entry g principal now)
        g.digest)
      (rw (find_entry-none _ g.digest (contains-evict s g.digest h), bytes_eq_refl g.digest))

pub policy-insert_session :
    (s : Store) (g : Generated) (principal : Principal) (now : ℕ)
    → (insert_session s g principal now).policy ≡ s.policy
unfolding insert_session evict_least_recent_if_full
policy-insert_session s g principal now = ground arith

abbrev pub IsConsistent : (Bytes → Result Bytes CredentialError) → Draw → Type 0
IsConsistent digest_of d = (g : Generated) → d.generated ≡ ok g → digest_of g.value ≡ ok g.digest

-- The draw generated the credential, and the store has its entry, created when the draw was.
abbrev Leaves :
    (Bytes → Result Bytes CredentialError) → Policy → Principal → Store → Bytes → Draw → Type 0
Leaves digest_of policy principal s c d =
    (g : Generated) × (d.generated ≡ ok g)
    × (g.value ≡ c)
    × (digest_of c ≡ ok g.digest)
    × (s.policy ≡ policy)
    × (find_entry s.entries g.digest ≡ some (fresh_entry g principal d.now))

module _ (digest_of : Bytes → Result Bytes CredentialError) (policy : Policy)
    (principal : Principal) where
  insert_session-Leaves :
      (s : Store) (d : Draw) (g : Generated)
      → contains s.entries g.digest ≡ false
      → d.generated ≡ ok g
      → IsConsistent digest_of d
      → s.policy ≡ policy
      → Leaves digest_of policy principal (insert_session s g principal d.now) g.value d
  insert_session-Leaves s d g new e consistent same = (
    g,
    e,
    refl,
    consistent g e,
    policy-insert_session s g principal d.now ∙ same,
    find_entry-insert_session s g principal d.now new,
  )

  -- One of the draws has generated the credential of a successful call.
  abbrev AfterCreate : List Draw → Store × Result Bytes StoreError → Type 0
  AfterCreate ds (s, err e) = Unit {0}
  AfterCreate ds (s, ok c) =
      (i : ℕ) × (d : Draw) × (get_elem? ds i ≡ some d) × Leaves digest_of policy principal s c d

  AfterCreate-behind :
      (d : Draw) (ds : List Draw) (r : Store × Result Bytes StoreError)
      → AfterCreate ds r
      → AfterCreate (d ∷ ds) r
  AfterCreate-behind d ds (s, err e) h = tt
  AfterCreate-behind d ds (s, ok c) (i, drawn, at, left) = (suc i, drawn, at, left)

  create_rounds-AfterCreate :
      (ds : List Draw) (s : Store)
      → All (IsConsistent digest_of) ds
      → s.policy ≡ policy
      → AfterCreate ds (create_rounds ds s principal)
  unfolding create_rounds expire
  create_rounds-AfterCreate [] s consistent same = tt
  create_rounds-AfterCreate (d ∷ ds) s consistent same = elim (Result-cases d.generated) [
    | inr (e, failed) ↦
        let step : (s, err credential_generation_failed) ≡ create_rounds (d ∷ ds) s principal =
          rw (failed, create_rounds) refl in
        subst (AfterCreate (d ∷ ds)) step tt
    | inl (g, generated) ↦ elim (Bool-cases (contains (expire s d.now).entries g.digest)) [
      | inl old ↦
          let step : create_rounds ds (expire s d.now) principal
              ≡ create_rounds (d ∷ ds) s principal =
            rw (generated, create_rounds) (rw old refl) in
          subst (AfterCreate (d ∷ ds)) step (
            AfterCreate-behind d ds (create_rounds ds (expire s d.now) principal)
              (create_rounds-AfterCreate ds (expire s d.now) consistent.1 same))
      | inr new ↦
          let step : (insert_session (expire s d.now) g principal d.now, ok g.value)
              ≡ create_rounds (d ∷ ds) s principal =
            rw (generated, create_rounds) (rw new refl) in
          subst (AfterCreate (d ∷ ds)) step
            (0, d, refl, insert_session-Leaves (expire s d.now) d g new generated consistent.0 same)
    ]
  ]

-- An entry as a draw leaves it is live within both lifetimes.
live-fresh_entry :
    (policy : Policy) (g : Generated) (principal : Principal) (now later : ℕ)
    → later - now < policy.absolute_lifetime
    → later - now < policy.idle_timeout
    → live policy later (some (fresh_entry g principal now)) ≡ some (fresh_entry g principal now)
unfolding expired
live-fresh_entry policy g principal now later absolute idle = ground (arith, absolute, idle)

rounds-below :
    (draws : ℕ → Draw) (i : ℕ) (d : Draw)
    → get_elem? (rounds draws) i ≡ some d
    → (i < 4) × (draws i ≡ d)
rounds-below draws zero d h = (omega arith, ground (arith, h))
rounds-below draws (suc zero) d h = (omega arith, ground (arith, h))
rounds-below draws (suc (suc zero)) d h = (omega arith, ground (arith, h))
rounds-below draws (suc (suc (suc zero))) d h = (omega arith, ground (arith, h))
rounds-below draws (suc (suc (suc (suc i)))) d h = absurd (ground (arith, h))

-- If `create_session` on a valid store returns a credential, and the codec digests each generated
-- credential to its generated digest, then one of the four rounds has generated that credential, and
-- at any time within both lifetimes of that round's clock reading, authenticating the credential
-- finds the session of the principal it was created for: it answers that principal, or reports that
-- the copy of it could not be allocated.
pub create_session_authenticates :
    (digest_of : Bytes → Result Bytes CredentialError) (draws : ℕ → Draw) (s s' : Store)
    (principal : Principal) (c : Bytes)
    → IsValid s
    → ((i : ℕ) → i < 4 → IsConsistent digest_of (draws i))
    → create_session draws s principal ≡ (s', ok c)
    → (i : ℕ) × (g : Generated) × (i < 4)
      × ((draws i).generated ≡ ok g)
      × (g.value ≡ c)
      × ((later : ℕ) (copied : Bool)
          → later - (draws i).now < s.policy.absolute_lifetime
          → later - (draws i).now < s.policy.idle_timeout
          → (authenticate (digest_of c) later copied s').1
            ≡ (if copied then ok (some principal) else err resource_allocation_failed))
unfolding create_session
create_session_authenticates digest_of draws s s' principal c v consistent h =
    let after : AfterCreate digest_of s.policy principal (rounds draws) (s', ok c) =
      subst (AfterCreate digest_of s.policy principal (rounds draws)) h (
        create_rounds-AfterCreate digest_of s.policy principal (rounds draws) s
          (
            consistent 0 (omega arith),
            (
              consistent 1 (omega arith),
              (consistent 2 (omega arith), (consistent 3 (omega arith), tt)),
            ),
          )
          refl) in
    let v' : IsValid s' =
      subst (λ r. IsValid r.0) h (create_rounds-IsValid (rounds draws) s principal v) in
    let (i, d, at, left) = after in
    let (g, generated, value, digested, same, held) = left in
    let (below, drawn) = rounds-below draws i d at in
    (
      i,
      g,
      below,
      ap (λ (x : Draw). x.generated) drawn ∙ generated,
      value,
      λ (later : ℕ) (copied : Bool) absolute idle. rw digested (
          rw ((authenticate_lem g.digest later copied s' v').0) (
            rw (same, held)
              (rw
                (live-fresh_entry s.policy g principal d.now later
                  (subst (λ (x : Draw). later - x.now < s.policy.absolute_lifetime) drawn absolute)
                  (subst (λ (x : Draw). later - x.now < s.policy.idle_timeout) drawn idle))
                refl))),
    )
