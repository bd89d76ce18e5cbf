-- ===== src/Session/Lookup.antt =====
-- The session store as a map from digests to live sessions: what `authenticate` and `invalidate`
-- answer, and what each leaves for every digest at every later time.
use spare_node.Base.{
  ℕ, ◌≤◌, Bool, true, ◌≡◌, refl, Option, none, some, arith, Bytes, Result, ok, err, bytes_eq,
  bytes_eq_iff, if◌then◌else◌,
}
use spare_node.Session.Entries.{Entry, Principal, Policy, remove_expired, find_entry}
use spare_node.Session.Entries.Distinct.{Distinct-remove_expired}
use spare_node.Session.Entries.Search.{
  live, refreshed, find_entry-remove_expired, find_entry-touch, find_entry-erase_entry,
  expired_mono,
}
use spare_node.Session.Bounds.{IsValid}
use spare_node.Session.{
  Store, StoreError, resource_allocation_failed, expire, authenticate, invalidate,
}

-- The session that a digest names at a time, if it is held and neither lifetime has run out.
abbrev pub session_at : Store → ℕ → Bytes → Option Entry
session_at s now digest = live s.policy now (find_entry s.entries digest)

abbrev principal_of : Option Entry → Option Principal
principal_of none = none
principal_of (some e) = some e.principal

find_entry-expire :
    (s : Store) (now : ℕ) (d : Bytes)
    → IsValid s
    → find_entry (expire s now).entries d ≡ session_at s now d
unfolding expire
find_entry-expire s now d v = find_entry-remove_expired s.policy now s.entries d v.distinct

-- A session that has run out at one time is out at every later one.
live-live :
    (policy : Policy) (now later : ℕ) (o : Option Entry)
    → now ≤ later
    → live policy later (live policy now o) ≡ live policy later o
live-live policy now later none h = refl
live-live policy now later (some e) h = ground (arith, expired_mono policy e now later)

-- What `authenticate` answers: the principal of the live session, or the failed copy of one.
abbrev pub answer : Bool → Option Entry → Result (Option Principal) StoreError
answer copied none = ok none
answer copied (some e) = if copied then ok (some e.principal) else err resource_allocation_failed

authenticate-answer :
    (d : Bytes) (now : ℕ) (copied : Bool) (s : Store)
    → IsValid s
    → (authenticate (ok d) now copied s).1 ≡ answer copied (session_at s now d)
unfolding authenticate
authenticate-answer d now copied s v = ground (arith, find_entry-expire s now d v)

invalidate-answer :
    (d : Bytes) (now : ℕ) (copied : Bool) (s : Store)
    → IsValid s
    → (invalidate (ok d) now copied s).1 ≡ answer copied (session_at s now d)
unfolding invalidate
invalidate-answer d now copied s v = ground (arith, find_entry-expire s now d v)

session_at-expire :
    (s : Store) (now later : ℕ) (d : Bytes)
    → IsValid s
    → now ≤ later
    → session_at (expire s now) later d ≡ session_at s later d
unfolding expire
session_at-expire s now later d v h =
    rw (find_entry-remove_expired s.policy now s.entries d v.distinct)
      (live-live s.policy now later _ h)

session_at-authenticate :
    (d : Bytes) (now : ℕ) (copied : Bool) (s : Store) (other : Bytes) (later : ℕ)
    → IsValid s
    → now ≤ later
    → session_at (authenticate (ok d) now copied s).0 later other ≡ (
        if bytes_eq d other
        then live s.policy later (refreshed now (session_at s now d))
        else session_at s later other)
unfolding authenticate expire
session_at-authenticate d now copied s other later v h = ground (
  arith,
  bytes_eq_iff d other,
  find_entry-remove_expired s.policy now s.entries d v.distinct,
  find_entry-remove_expired s.policy now s.entries other v.distinct,
  find_entry-touch d now (remove_expired s.policy now s.entries) other,
  live-live s.policy now later (find_entry s.entries other) h,
)

session_at-invalidate :
    (d : Bytes) (now : ℕ) (s : Store) (other : Bytes) (later : ℕ)
    → IsValid s
    → now ≤ later
    → session_at (invalidate (ok d) now true s).0 later other
      ≡ (if bytes_eq d other then none else session_at s later other)
unfolding invalidate expire
session_at-invalidate d now s other later v h = ground (
  arith,
  bytes_eq_iff d other,
  find_entry-remove_expired s.policy now s.entries d v.distinct,
  find_entry-remove_expired s.policy now s.entries other v.distinct,
  find_entry-erase_entry d (remove_expired s.policy now s.entries) other
      (Distinct-remove_expired s.policy now s.entries v.distinct),
  live-live s.policy now later (find_entry s.entries other) h,
)

-- On a valid store `authenticate` answers the principal of the digest's live session, or that
-- there is none, or the allocation failure if the copy fails. At every later time the digest's
-- session is the one found, with its activity at this call, and every other digest names the
-- session that it would have named without the call.
pub authenticate_lem :
    (d : Bytes) (now : ℕ) (copied : Bool) (s : Store)
    → IsValid s
    → ((authenticate (ok d) now copied s).1 ≡ answer copied (session_at s now d))
      × ((other : Bytes) (later : ℕ)
          → now ≤ later
          → session_at (authenticate (ok d) now copied s).0 later other ≡ (
              if bytes_eq d other
              then live s.policy later (refreshed now (session_at s now d))
              else session_at s later other))
authenticate_lem d now copied s v = (
  authenticate-answer d now copied s v,
  λ other later h. session_at-authenticate d now copied s other later v h,
)

-- On a valid store, and if the copy of the principal succeeds, `invalidate` answers the principal
-- of the digest's live session, or that there is none. At every later time the digest names no
-- session, and every other digest names the session that it would have named without the call.
pub invalidate_lem :
    (d : Bytes) (now : ℕ) (s : Store)
    → IsValid s
    → ((invalidate (ok d) now true s).1 ≡ answer true (session_at s now d))
      × ((other : Bytes) (later : ℕ)
          → now ≤ later
          → session_at (invalidate (ok d) now true s).0 later other
            ≡ (if bytes_eq d other then none else session_at s later other))
invalidate_lem d now s v = (
  invalidate-answer d now true s v,
  λ other later h. session_at-invalidate d now s other later v h,
)
