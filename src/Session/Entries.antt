-- ===== src/Session/Entries.antt =====
-- The entries of a session store: expiry, and the searches and erasures of src/session/session_store.cpp.
pub mod Distinct
pub mod Eviction
pub mod Search
use spare_node.Base.{
  ℕ, zero, suc, ◌+◌, ◌-◌, Bool, true, false, ◌||◌, List, [], ◌∷◌, Bytes, leb, ltb, ◌==◌,
  if◌then◌else◌, any, bytes_eq, find, Option,
}

-- include/sparenode/authentication/principal.hpp.
pub record Principal : Type 0 where
  pub identity : Bytes

-- `SessionStorePolicy`.
pub record Policy : Type 0 where
  pub absolute_lifetime : ℕ
  pub idle_timeout : ℕ
  pub maximum_sessions : ℕ

-- `SessionStore::Entry`.
pub record Entry : Type 0 where
  pub digest : Bytes
  pub principal : Principal
  pub created : ℕ
  pub last_activity : ℕ

-- With a positive lifetime the truncated difference makes the source's signed comparison.
unfoldable pub expired : Policy → Entry → ℕ → Bool
expired policy e now =
    leb policy.absolute_lifetime (now - e.created)
    || leb policy.idle_timeout (now - e.last_activity)

abbrev pub has_digest : Bytes → Entry → Bool
has_digest digest e = bytes_eq e.digest digest

unfoldable pub contains : List Entry → Bytes → Bool
contains entries digest = any (has_digest digest) entries

-- `std::ranges::find` by digest.
abbrev pub find_entry : List Entry → Bytes → Option Entry
find_entry entries digest = find (has_digest digest) entries

-- `std::erase_if` of the expired entries.
unfoldable pub remove_expired : Policy → ℕ → List Entry → List Entry
remove_expired policy now [] = []
remove_expired policy now (e ∷ es) =
    if expired policy e now then remove_expired policy now es else e ∷ remove_expired policy now es

-- `std::ranges::min_element` by activity: the position of the first of the least. `best` is the
-- position found so far and `activity` its activity, `position` the next one to look at.
unfoldable pub least_from : ℕ → ℕ → ℕ → List Entry → ℕ
least_from best activity position [] = best
least_from best activity position (e ∷ es) =
    let sooner = ltb e.last_activity activity in
    least_from (if sooner then position else best) (if sooner then e.last_activity else activity)
      (position + 1) es

unfoldable pub least_recent : List Entry → ℕ
unfolding least_from
least_recent [] = 0
least_recent (e ∷ es) = least_from 0 e.last_activity 1 es

-- `std::vector::erase` at a position.
unfoldable pub erase_at : ℕ → List Entry → List Entry
erase_at i [] = []
erase_at zero (e ∷ es) = es
erase_at (suc i) (e ∷ es) = e ∷ erase_at i es

-- `std::vector::erase` at the first entry of a digest.
unfoldable pub erase_entry : Bytes → List Entry → List Entry
erase_entry digest [] = []
erase_entry digest (e ∷ es) = if bytes_eq e.digest digest then es else e ∷ erase_entry digest es

-- `entry->last_activity = now` at the first entry of a digest.
unfoldable pub touch : Bytes → ℕ → List Entry → List Entry
touch digest now [] = []
touch digest now (e ∷ es) =
    if bytes_eq e.digest digest
    then record e { last_activity = now } ∷ es
    else e ∷ touch digest now es
