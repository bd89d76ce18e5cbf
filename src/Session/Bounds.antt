-- ===== src/Session/Bounds.antt =====
-- The capacity and the distinctness of the digests of a session store, over every history of calls.
use spare_node.Base.{
  ℕ, ◌≤◌, ◌<◌, Bool, false, List, [], ◌∷◌, ◌≡◌, ap, arith, inl, inr, Bool-cases, Bytes, Result, ok,
  err, Result-cases, length, length-append,
}
use spare_node.Session.Entries.{Principal, Policy, contains, least_recent}
use spare_node.Session.Entries.Eviction.{least_recent-lt}
use spare_node.Session.Entries.Distinct.{
  Distinct, length-remove_expired, Distinct-remove_expired, Distinct-erase_at, contains-erase_at,
  length-erase_at, length-erase_entry, Distinct-erase_entry, length-touch, Distinct-touch,
  Distinct-append,
}
use spare_node.Session.{
  Store, Draw, CredentialError, Generated, evict_least_recent_if_full, expire, insert_session,
  create_rounds, create_session, rounds, authenticate, invalidate, create,
}

-- At most the configured number of sessions, with distinct digests.
pub record IsValid (s : Store) : Type 0 where
  pub capacity : 0 < s.policy.maximum_sessions
  pub bounded : length s.entries ≤ s.policy.maximum_sessions
  pub distinct : Distinct s.entries

pub expire-IsValid : (s : Store) (now : ℕ) → IsValid s → IsValid (expire s now)
unfolding expire
expire-IsValid s now v = record {
  capacity = v.capacity;
  bounded = omega (arith, length-remove_expired s.policy now s.entries, v.bounded);
  distinct = Distinct-remove_expired s.policy now s.entries v.distinct;
}

-- After the eviction there is room for one more.
pub record HasRoom (s t : Store) : Type 0 where
  pub same_policy : t.policy ≡ s.policy
  pub room : length t.entries < s.policy.maximum_sessions
  pub distinct : Distinct t.entries

evict-HasRoom : (s : Store) → IsValid s → HasRoom s (evict_least_recent_if_full s)
unfolding evict_least_recent_if_full
evict-HasRoom s v = record {
  same_policy = ground arith;
  room = ground (
    arith,
    v.capacity,
    v.bounded,
    least_recent-lt s.entries,
    length-erase_at (least_recent s.entries) s.entries,
  );
  distinct = ground (arith, v.distinct, Distinct-erase_at (least_recent s.entries) s.entries);
}

pub contains-evict :
    (s : Store) (d : Bytes)
    → contains s.entries d ≡ false
    → contains (evict_least_recent_if_full s).entries d ≡ false
unfolding evict_least_recent_if_full
contains-evict s d h = ground (arith, contains-erase_at d (least_recent s.entries) s.entries)

pub insert_session-IsValid :
    (s : Store) (g : Generated) (principal : Principal) (now : ℕ)
    → IsValid s
    → contains s.entries g.digest ≡ false
    → IsValid (insert_session s g principal now)
unfolding insert_session
insert_session-IsValid s g principal now v h =
    let r = evict-HasRoom s v in
    record {
      capacity = rw r.same_policy v.capacity;
      bounded = omega (
        arith,
        length-append (evict_least_recent_if_full s).entries (
            record { digest = g.digest; principal = principal; created = now; last_activity = now }
            ∷ []),
        ap (λ (q : Policy). q.maximum_sessions) r.same_policy,
        r.room,
      );
      distinct = Distinct-append _ _ r.distinct (contains-evict s g.digest h);
    }

pub create_rounds-IsValid :
    (draws : List Draw) (s : Store) (principal : Principal)
    → IsValid s
    → IsValid (create_rounds draws s principal).0
unfolding create_rounds
create_rounds-IsValid [] s principal v = v
create_rounds-IsValid (d ∷ rest) s principal v = elim (Result-cases d.generated) [
  | inr (e, failed) ↦ rw (failed, create_rounds) v
  | inl (g, generated) ↦
      let w = expire-IsValid s d.now v in
      elim (Bool-cases (contains (expire s d.now).entries g.digest)) [
        | inl old ↦
            rw (generated, create_rounds) (rw old (create_rounds-IsValid rest _ principal w))
        | inr new ↦
            rw (generated, create_rounds)
              (rw new (insert_session-IsValid _ g principal d.now w new))
      ]
]

authenticate-IsValid :
    (r : Result Bytes CredentialError) (now : ℕ) (copied : Bool) (s : Store)
    → IsValid s
    → IsValid (authenticate r now copied s).0
unfolding authenticate expire
authenticate-IsValid (err e) now copied s v = v
authenticate-IsValid (ok digest) now copied s v =
    let w = expire-IsValid s now v in
    ground (
      arith,
      w.capacity,
      w.bounded,
      w.distinct,
      length-touch digest now (expire s now).entries,
      Distinct-touch digest now (expire s now).entries,
    )

pub invalidate-IsValid :
    (r : Result Bytes CredentialError) (now : ℕ) (copied : Bool) (s : Store)
    → IsValid s
    → IsValid (invalidate r now copied s).0
unfolding invalidate expire
invalidate-IsValid (err e) now copied s v = v
invalidate-IsValid (ok digest) now copied s v =
    let w = expire-IsValid s now v in
    ground (
      arith,
      w.capacity,
      w.bounded,
      w.distinct,
      length-erase_entry digest (expire s now).entries,
      Distinct-erase_entry digest (expire s now).entries,
    )

-- One call of the store's interface, with all that it receives from its environment.
pub data Call : Type 0 where
  creates : (ℕ → Draw) → Principal → Call
  authenticates : Result Bytes CredentialError → ℕ → Bool → Call
  invalidates : Result Bytes CredentialError → ℕ → Bool → Call

unfoldable pub step : Store → Call → Store
step s (creates draws principal) = (create_session draws s principal).0
step s (authenticates digest now copied) = (authenticate digest now copied s).0
step s (invalidates digest now copied) = (invalidate digest now copied s).0

unfoldable pub run : Store → List Call → Store
run s [] = s
run s (c ∷ cs) = run (step s c) cs

step-IsValid : (s : Store) (c : Call) → IsValid s → IsValid (step s c)
unfolding step create_session
step-IsValid s (creates draws principal) v = create_rounds-IsValid (rounds draws) s principal v
step-IsValid s (authenticates digest now copied) v = authenticate-IsValid digest now copied s v
step-IsValid s (invalidates digest now copied) v = invalidate-IsValid digest now copied s v

pub run-IsValid : (s : Store) (cs : List Call) → IsValid s → IsValid (run s cs)
unfolding run
run-IsValid s [] v = v
run-IsValid s (c ∷ cs) v = run-IsValid (step s c) cs (step-IsValid s c v)

create-IsValid :
    (has_codec reserved : Bool) (policy : Policy) {s : Store}
    → create has_codec reserved policy ≡ ok s
    → IsValid s
unfolding create
create-IsValid has_codec reserved policy h = ground arith

-- In every history of calls after `create`, the store holds at most the policy's number of
-- sessions, and no two of them have the same digest.
pub run-create-IsValid :
    (has_codec reserved : Bool) (policy : Policy) (cs : List Call) {s : Store}
    → create has_codec reserved policy ≡ ok s
    → IsValid (run s cs)
run-create-IsValid has_codec reserved policy cs h =
    run-IsValid _ cs (create-IsValid has_codec reserved policy h)
