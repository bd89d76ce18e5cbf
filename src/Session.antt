-- ===== src/Session.antt =====
-- src/session/session_store.cpp and include/sparenode/session/session_store.hpp.
-- A time point is the count of clock ticks since the clock's start, and a duration a count of
-- ticks: the negative durations, which `create` rejects like zero, are not represented. Each
-- operation is one step. The source takes the mutex once for every round of `create_session`, whose
-- rounds but the last do no more than to remove expired entries; what another call does between two
-- of them is not represented. The codec and the clock are what each call receives from them; a
-- `std::bad_alloc` enters as a flag of the copy or reservation that can throw it. A
-- `std::length_error` of `reserve`, which the source does not catch, is left out.
pub mod Entries
pub mod Bounds
pub mod Lookup
pub mod Creation
pub mod Lifetime
use spare_node.Base.{
  ℕ, suc, zero, ◌+◌, ◌-◌, Bool, true, false, ◌||◌, List, [], ◌∷◌, ◌++◌, Option, none, some, Bytes,
  Result, ok, err, leb, ◌==◌, if◌then◌else◌, length, find,
}
use Entries.{
  Entry, Principal, Policy, expired, has_digest, contains, remove_expired, least_recent, erase_at,
  erase_entry, touch, find_entry,
}

pub data CredentialError : Type 0 where
  invalid_credential cryptography_unavailable credential_allocation_failed : CredentialError

-- `GeneratedSessionCredential`.
pub record Generated : Type 0 where
  pub value : Bytes
  pub digest : Bytes

pub data StoreError : Type 0 where
  invalid_policy credential_generation_failed credential_digest_failed : StoreError
  resource_allocation_failed : StoreError

pub record Store : Type 0 where
  pub policy : Policy
  pub entries : List Entry

-- `SessionStore::create`; the flags tell whether a codec is given and whether `reserve` succeeds.
unfoldable pub create : Bool → Bool → Policy → Result Store StoreError
create has_codec reserved policy =
    if not_valid
    then err invalid_policy
    else if reserved
    then ok (record { policy = policy; entries = [] })
    else err resource_allocation_failed
  where
    not_valid : Bool
    not_valid =
        (if has_codec then false else true)
        || policy.maximum_sessions == 0
        || policy.absolute_lifetime == 0
        || policy.idle_timeout == 0

unfoldable pub evict_least_recent_if_full : Store → Store
evict_least_recent_if_full s =
    if length s.entries == s.policy.maximum_sessions
    then record s { entries = erase_at (least_recent s.entries) s.entries }
    else s

-- What one round of the loop draws: the codec's answer and the clock's time.
pub record Draw : Type 0 where
  pub generated : Result Generated CredentialError
  pub now : ℕ

-- `remove_expired(now)` on the store.
unfoldable pub expire : Store → ℕ → Store
expire s now = record s { entries = remove_expired s.policy now s.entries }

-- The round behind the lock, once a credential has been generated and is no duplicate.
unfoldable pub insert_session : Store → Generated → Principal → ℕ → Store
insert_session s g principal now = record evicted {
  entries =
      evicted.entries
      ++ (record { digest = g.digest; principal = principal; created = now; last_activity = now }
          ∷ []);
}
  where
    evicted : Store
    evicted = evict_least_recent_if_full s

-- The loop of `create_session`: one round for each draw, in order.
unfoldable pub create_rounds : List Draw → Store → Principal → Store × Result Bytes StoreError
create_rounds [] s principal = (s, err credential_generation_failed)
create_rounds (d ∷ rest) s principal = elim d.generated [
  | err e ↦ (s, err credential_generation_failed)
  | ok g ↦
      if contains (expire s d.now).entries g.digest
      then create_rounds rest (expire s d.now) principal
      else (insert_session (expire s d.now) g principal d.now, ok g.value)
]

-- `maximum_generation_attempts` rounds.
abbrev pub rounds : (ℕ → Draw) → List Draw
rounds draws = draws 0 ∷ draws 1 ∷ draws 2 ∷ draws 3 ∷ []

-- `create_session`: `draws i` is what round `i` draws.
unfoldable pub create_session : (ℕ → Draw) → Store → Principal → Store × Result Bytes StoreError
unfolding create_rounds
create_session draws = create_rounds (rounds draws)

-- A credential that does not decode names no session; any other codec failure is reported.
unfoldable pub digest_failure : CredentialError → Result (Option Principal) StoreError
digest_failure invalid_credential = ok none
digest_failure _ = err credential_digest_failed

-- `authenticate`, from the codec's digest on; `copied` tells whether the copy of the principal is
-- allocated. The activity is refreshed before the copy.
unfoldable pub authenticate :
    Result Bytes CredentialError → ℕ → Bool → Store → Store × Result (Option Principal) StoreError
unfolding digest_failure
authenticate (err e) now copied s = (s, digest_failure e)
authenticate (ok digest) now copied s = elim (find_entry (expire s now).entries digest) [
  | none ↦ (expire s now, ok none)
  | some entry ↦ (
    record s { entries = touch digest now (expire s now).entries },
    if copied then ok (some entry.principal) else err resource_allocation_failed,
  )
]

-- `invalidate`: the principal is copied before the entry is erased.
unfoldable pub invalidate :
    Result Bytes CredentialError → ℕ → Bool → Store → Store × Result (Option Principal) StoreError
unfolding digest_failure
invalidate (err e) now copied s = (s, digest_failure e)
invalidate (ok digest) now copied s = elim (find_entry (expire s now).entries digest) [
  | none ↦ (expire s now, ok none)
  | some entry ↦
      if copied
      then (
        record s { entries = erase_entry digest (expire s now).entries },
        ok (some entry.principal),
      )
      else (expire s now, err resource_allocation_failed)
]

unfoldable pub size : Store → ℕ
size s = length s.entries
