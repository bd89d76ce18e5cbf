-- ===== src/Session/Entries/Search.antt =====
-- What the search by digest finds after each change of the entries.
use spare_node.Base.{
  ℕ, zero, suc, ◌≤◌, true, false, List, [], ◌∷◌, ◌++◌, ◌≡◌, refl, arith, Bytes, bytes_eq, Option,
  none, some, bytes_eq_iff, if◌then◌else◌, get_elem?,
}
use spare_node.Session.Entries.{
  Entry, Policy, expired, contains, remove_expired, erase_at, erase_entry, touch, find_entry,
}
use spare_node.Session.Entries.Distinct.{Distinct}

-- The found entry, unless it has expired.
abbrev pub live : Policy → ℕ → Option Entry → Option Entry
live policy now none = none
live policy now (some e) = if expired policy e now then none else some e

abbrev pub refreshed : ℕ → Option Entry → Option Entry
refreshed now none = none
refreshed now (some e) = some (record e { last_activity = now })

abbrev pub or_else : Option Entry → Option Entry → Option Entry
or_else none o = o
or_else (some e) o = some e

pub find_entry-none : (es : List Entry) (d : Bytes) → contains es d ≡ false → find_entry es d ≡ none
unfolding contains
find_entry-none [] d h = refl
find_entry-none (e ∷ es) d h = ground (arith, find_entry-none es d)

pub find_entry_digest :
    (es : List Entry) (d : Bytes) (e : Entry) → find_entry es d ≡ some e → e.digest ≡ d
find_entry_digest [] d e h = absurd (cc)
find_entry_digest (x ∷ es) d e h = ground (arith, find_entry_digest es d e, bytes_eq_iff x.digest d)

pub find_entry-remove_expired :
    (policy : Policy) (now : ℕ) (es : List Entry) (d : Bytes)
    → Distinct es
    → find_entry (remove_expired policy now es) d ≡ live policy now (find_entry es d)
unfolding remove_expired
find_entry-remove_expired policy now [] d h = refl
find_entry-remove_expired policy now (e ∷ es) d h = ground (
  arith,
  bytes_eq_iff e.digest d,
  find_entry-none es e.digest h.0,
  find_entry-remove_expired policy now es d h.1,
)

pub find_entry-touch :
    (digest : Bytes) (now : ℕ) (es : List Entry) (d : Bytes)
    → find_entry (touch digest now es) d
      ≡ (if bytes_eq digest d then refreshed now (find_entry es d) else find_entry es d)
unfolding touch
find_entry-touch digest now [] d = ground arith
find_entry-touch digest now (e ∷ es) d = ground (
  arith,
  bytes_eq_iff e.digest d,
  bytes_eq_iff e.digest digest,
  bytes_eq_iff digest d,
  find_entry-touch digest now es d,
)

pub find_entry-erase_entry :
    (digest : Bytes) (es : List Entry) (d : Bytes)
    → Distinct es
    → find_entry (erase_entry digest es) d ≡ (if bytes_eq digest d then none else find_entry es d)
unfolding erase_entry
find_entry-erase_entry digest [] d h = ground arith
find_entry-erase_entry digest (e ∷ es) d h = ground (
  arith,
  bytes_eq_iff e.digest d,
  bytes_eq_iff e.digest digest,
  bytes_eq_iff digest d,
  find_entry-none es e.digest h.0,
  find_entry-erase_entry digest es d h.1,
)

get_elem?-contains :
    (i : ℕ) (es : List Entry) (v : Entry) → get_elem? es i ≡ some v → contains es v.digest ≡ true
unfolding contains
get_elem?-contains i [] v h = absurd (cc)
get_elem?-contains zero (e ∷ es) v h = ground (arith, bytes_eq_iff e.digest v.digest)
get_elem?-contains (suc i) (e ∷ es) v h = ground (arith, get_elem?-contains i es v h)

pub find_entry-erase_at :
    (i : ℕ) (es : List Entry) (d : Bytes) (v : Entry)
    → Distinct es
    → get_elem? es i ≡ some v
    → find_entry (erase_at i es) d ≡ (if bytes_eq v.digest d then none else find_entry es d)
unfolding erase_at
find_entry-erase_at i [] d v h k = absurd (cc)
find_entry-erase_at zero (e ∷ es) d v h k =
    ground (arith, bytes_eq_iff e.digest d, find_entry-none es e.digest h.0)
find_entry-erase_at (suc i) (e ∷ es) d v h k = ground (
  arith,
  bytes_eq_iff e.digest d,
  bytes_eq_iff v.digest d,
  find_entry-none es e.digest h.0,
  get_elem?-contains i es v k,
  find_entry-erase_at i es d v h.1 k,
)

pub find_entry-append :
    (es : List Entry) (e : Entry) (d : Bytes)
    → find_entry (es ++ e ∷ []) d
      ≡ or_else (find_entry es d) (if bytes_eq e.digest d then some e else none)
find_entry-append [] e d = ground arith
find_entry-append (x ∷ es) e d = ground (arith, find_entry-append es e d)

-- What has expired stays expired.
pub expired_mono :
    (policy : Policy) (e : Entry) (now later : ℕ)
    → now ≤ later
    → expired policy e now ≡ true
    → expired policy e later ≡ true
unfolding expired
expired_mono policy e now later h k = ground arith
