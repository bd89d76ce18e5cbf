-- ===== src/Tests/Session.antt =====
-- The session store on a few calls.
use spare_node.Base.{
  ℕ, Bool, ◌-◌, ◌≤◌, ◌<◌, true, List, [], ◌∷◌, none, some, ◌≡◌, refl, arith, Bytes, Result, ok, err,
  bytes_eq, if◌then◌else◌, length, get_elem?, All,
}
use spare_node.Session.Entries.{
  contains, remove_expired, expired, Entry, Principal, Policy, find_entry,
}
use spare_node.Session.Entries.Search.{live, refreshed}
use spare_node.Session.{
  Store, Draw, Generated, resource_allocation_failed, CredentialError, invalid_credential, create,
  create_session, authenticate, invalidate, evict_least_recent_if_full, expire,
}
use spare_node.Session.Bounds.{
  IsValid, Call, creates, authenticates, invalidates, run, run-create-IsValid,
}
use spare_node.Session.Lookup.{session_at, answer, authenticate_lem}
use spare_node.Session.Creation.{IsConsistent, create_session_authenticates, evict_lem}
use spare_node.Session.Lifetime.{invalidate_is_final, absolute_lifetime_is_final}

abbrev policy : Policy
policy = record { absolute_lifetime = 100; idle_timeout = 20; maximum_sessions = 2 }

abbrev alice : Principal
alice = record { identity = 97 ∷ [] }

abbrev entry : ℕ → ℕ → Entry
entry digest now = record {
  digest = digest ∷ [];
  principal = alice;
  created = 5;
  last_activity = now;
}

abbrev empty : Store
empty = record { policy = policy; entries = [] }

abbrev full : Store
full = record { policy = policy; entries = entry 1 9 ∷ entry 2 7 ∷ [] }

full-IsValid : IsValid full
unfolding contains bytes_eq
full-IsValid = record {
  capacity = omega arith;
  bounded = omega arith;
  distinct = (refl, (refl, tt));
}

-- A codec whose digest of a credential is the credential.
abbrev same : Bytes → Result Bytes CredentialError
same c = ok c

abbrev drawn : ℕ → Draw
drawn i = record { generated = ok (record { value = 3 ∷ []; digest = 3 ∷ [] }); now = 10 }

abbrev calls : List Call
calls = authenticates (ok (1 ∷ [])) 12 true ∷ invalidates (err invalid_credential) 13 true ∷ []

abbrev all_calls : List Call
all_calls = creates drawn alice ∷ calls

drawn-IsConsistent : (i : ℕ) → IsConsistent same (drawn i)
drawn-IsConsistent i g e = cc

run-create-IsValid_example : IsValid (run empty all_calls)
unfolding create
run-create-IsValid_example = run-create-IsValid true true policy all_calls refl

evict_lem_example :
    (length full.entries ≡ full.policy.maximum_sessions
      → (i : ℕ) × (v : Entry) × (get_elem? full.entries i ≡ some v)
        × All (λ e. v.last_activity ≤ e.last_activity) full.entries
        × ((d : Bytes)
            → find_entry (evict_least_recent_if_full full).entries d
              ≡ (if bytes_eq v.digest d then none else find_entry full.entries d)))
    × (length full.entries < full.policy.maximum_sessions → evict_least_recent_if_full full ≡ full)
evict_lem_example = evict_lem full full-IsValid

create_session_authenticates_example :
    (i : ℕ) × (g : Generated) × (i < 4)
    × ((drawn i).generated ≡ ok g)
    × (g.value ≡ 3 ∷ [])
    × ((later : ℕ) (copied : Bool)
        → later - (drawn i).now < full.policy.absolute_lifetime
        → later - (drawn i).now < full.policy.idle_timeout
        → (authenticate (same (3 ∷ [])) later copied (create_session drawn full alice).0).1
          ≡ (if copied then ok (some alice) else err resource_allocation_failed))
unfolding create_session contains expire remove_expired expired evict_least_recent_if_full bytes_eq
create_session_authenticates_example =
    create_session_authenticates same drawn full (create_session drawn full alice).0 alice (3 ∷ [])
      full-IsValid (λ i below. drawn-IsConsistent i) refl

authenticate_lem_example :
    ((authenticate (ok (1 ∷ [])) 12 true full).1 ≡ answer true (session_at full 12 (1 ∷ [])))
    × ((other : Bytes) (later : ℕ)
        → 12 ≤ later
        → session_at (authenticate (ok (1 ∷ [])) 12 true full).0 later other ≡ (
            if bytes_eq (1 ∷ []) other
            then live full.policy later (refreshed 12 (session_at full 12 (1 ∷ [])))
            else session_at full later other))
authenticate_lem_example = authenticate_lem (1 ∷ []) 12 true full full-IsValid

invalidate_is_final_example :
    (authenticate (ok (2 ∷ [])) 14 true (run (invalidate (ok (2 ∷ [])) 12 true full).0 calls)).1
    ≡ ok none
unfolding invalidate expire remove_expired expired bytes_eq
invalidate_is_final_example =
    invalidate_is_final (2 ∷ []) 12 true full (invalidate (ok (2 ∷ [])) 12 true full).0 (some alice)
      calls 14 true full-IsValid refl (tt, (tt, tt))

absolute_lifetime_is_final_example :
    (authenticate (ok (1 ∷ [])) 105 true (run full calls)).1 ≡ ok none
absolute_lifetime_is_final_example =
    absolute_lifetime_is_final (1 ∷ []) 5 full calls 105 true full-IsValid
      ((λ _. refl), ((λ _. refl), tt)) (tt, (tt, tt)) (omega arith)
