-- ===== src/Session/Lifetime.antt =====
-- Facts of the entries that every history of calls keeps: an invalidated session stays dead, and
-- no activity carries a session past its absolute lifetime.
use spare_node.Base.{
  ℕ, Option, ap, subst, Option-cases, zero, suc, ◌-◌, ◌≤◌, Bool, true, false, List, [], ◌∷◌, ◌≡◌,
  refl, ◌∙◌, inl, inr, Bool-cases, Result-cases, none, arith, Bytes, ok, err, bytes_eq,
  bytes_eq_iff, All, All-append,
}
use spare_node.Session.Entries.{
  Entry, Principal, Policy, contains, expired, remove_expired, find_entry, least_recent, erase_at,
  erase_entry, touch,
}
use spare_node.Session.Bounds.{
  IsValid, Call, creates, authenticates, invalidates, run, step, run-IsValid, invalidate-IsValid,
}
use spare_node.Session.Lookup.{authenticate_lem}
use spare_node.Session.Creation.{fresh_entry, policy-insert_session}
use spare_node.Session.Entries.Distinct.{Distinct-remove_expired}
use spare_node.Session.Entries.Search.{live, find_entry-erase_entry}
use spare_node.Session.{
  Store, Draw, Generated, expire, evict_least_recent_if_full, insert_session, create_rounds,
  create_session, rounds, authenticate, invalidate,
}

-- The entries that a round of `create_session` could add have the property.
abbrev Admits : (Entry → Type 0) → Principal → Draw → Type 0
Admits P principal d = (g : Generated) → d.generated ≡ ok g → P (fresh_entry g principal d.now)

abbrev pub AdmitsCall : (Entry → Type 0) → Call → Type 0
AdmitsCall P (creates draws principal) = (i : ℕ) → Admits P principal (draws i)
AdmitsCall P (authenticates _ _ _) = Unit
AdmitsCall P (invalidates _ _ _) = Unit

module _ (P : Entry → Type 0) where
  All-remove_expired :
      (policy : Policy) (now : ℕ) (es : List Entry)
      → All P es
      → All P (remove_expired policy now es)
  unfolding remove_expired
  All-remove_expired policy now [] h = tt
  All-remove_expired policy now (e ∷ es) h = ground (arith, All-remove_expired policy now es h.1)

  All-erase_at : (i : ℕ) (es : List Entry) → All P es → All P (erase_at i es)
  unfolding erase_at
  All-erase_at i [] h = tt
  All-erase_at zero (e ∷ es) h = h.1
  All-erase_at (suc i) (e ∷ es) h = (h.0, All-erase_at i es h.1)

  All-erase_entry : (digest : Bytes) (es : List Entry) → All P es → All P (erase_entry digest es)
  unfolding erase_entry
  All-erase_entry digest [] h = tt
  All-erase_entry digest (e ∷ es) h = ground (arith, All-erase_entry digest es h.1)

  All-insert_session :
      (s : Store) (g : Generated) (principal : Principal) (now : ℕ)
      → All P s.entries
      → P (fresh_entry g principal now)
      → All P (insert_session s g principal now).entries
  unfolding insert_session evict_least_recent_if_full
  All-insert_session s g principal now h k =
      All-append P (evict_least_recent_if_full s).entries (fresh_entry g principal now ∷ [])
        (ground (arith, h, All-erase_at (least_recent s.entries) s.entries h)) (k, tt)

  All-create_rounds :
      (ds : List Draw) (s : Store) (principal : Principal)
      → All P s.entries
      → All (Admits P principal) ds
      → All P (create_rounds ds s principal).0.entries
  unfolding create_rounds expire
  All-create_rounds [] s principal h admits = h
  All-create_rounds (d ∷ ds) s principal h admits = elim (Result-cases d.generated) [
    | inr (e, failed) ↦ rw (failed, create_rounds) h
    | inl (g, generated) ↦
        let kept = All-remove_expired s.policy d.now s.entries h in
        elim (Bool-cases (contains (expire s d.now).entries g.digest)) [
          | inl old ↦
              rw (generated, create_rounds)
                (rw old (All-create_rounds ds (expire s d.now) principal kept admits.1))
          | inr new ↦
              rw (generated, create_rounds)
                (rw new (
                  All-insert_session (expire s d.now) g principal d.now kept
                    (admits.0 g generated)))
        ]
  ]

  module _ (stable : (e : Entry) (now : ℕ) → P e → P (record e { last_activity = now })) where
    All-touch :
        (digest : Bytes) (now : ℕ) (es : List Entry) → All P es → All P (touch digest now es)
    unfolding touch
    All-touch digest now [] h = tt
    All-touch digest now (e ∷ es) h = ground (arith, stable e now h.0, All-touch digest now es h.1)

    All-step : (s : Store) (c : Call) → All P s.entries → AdmitsCall P c → All P (step s c).entries
    unfolding step create_session authenticate invalidate expire
    All-step s (creates draws principal) h admits =
        All-create_rounds (rounds draws) s principal h
          (admits 0, (admits 1, (admits 2, (admits 3, tt))))
    All-step s (authenticates (err e) now copied) h admits = h
    All-step s (authenticates (ok digest) now copied) h admits =
        let kept = All-remove_expired s.policy now s.entries h in
        ground (arith, kept, All-touch digest now (remove_expired s.policy now s.entries) kept)
    All-step s (invalidates (err e) now copied) h admits = h
    All-step s (invalidates (ok digest) now copied) h admits =
        let kept = All-remove_expired s.policy now s.entries h in
        ground (arith, kept, All-erase_entry digest (remove_expired s.policy now s.entries) kept)

    All-run :
        (s : Store) (cs : List Call)
        → All P s.entries
        → All (AdmitsCall P) cs
        → All P (run s cs).entries
    unfolding run
    All-run s [] h admits = h
    All-run s (c ∷ cs) h admits = All-run (step s c) cs (All-step s c h admits.0) admits.1

-- No entry of a digest.
contains-All :
    (d : Bytes) (es : List Entry)
    → All (λ e. bytes_eq e.digest d ≡ false) es
    → find_entry es d ≡ none
contains-All d [] h = refl
contains-All d (e ∷ es) h = ground (arith, contains-All d es h.1, h.0)

All-none :
    (d : Bytes) (es : List Entry)
    → find_entry es d ≡ none
    → All (λ e. bytes_eq e.digest d ≡ false) es
All-none d [] h = tt
All-none d (e ∷ es) h = ground (arith, All-none d es)

-- The calls generate no credential with this digest.
abbrev pub Avoids : Bytes → Call → Type 0
Avoids d = AdmitsCall (λ e. bytes_eq e.digest d ≡ false)

find_entry-invalidate :
    (d : Bytes) (now : ℕ) (s : Store)
    → IsValid s
    → find_entry (invalidate (ok d) now true s).0.entries d ≡ none
unfolding invalidate expire
find_entry-invalidate d now s v =
    let distinct = Distinct-remove_expired s.policy now s.entries v.distinct in
    ground (
      arith,
      bytes_eq_iff d d,
      find_entry-erase_entry d (remove_expired s.policy now s.entries) d distinct,
    )

-- A call that succeeds leaves no entry of the digest, whether it found one or not.
find_entry-invalidated :
    (d : Bytes) (now : ℕ) (copied : Bool) (s s' : Store) (invalidated : Option Principal)
    → IsValid s
    → invalidate (ok d) now copied s ≡ (s', ok invalidated)
    → find_entry s'.entries d ≡ none
unfolding invalidate
find_entry-invalidated d now true s s' invalidated v h =
    let e : (invalidate (ok d) now true s).0 ≡ s' = ap (λ r. r.0) h in
    subst (λ (t : Store). find_entry t.entries d ≡ none) e (find_entry-invalidate d now s v)
find_entry-invalidated d now false s s' invalidated v h =
    elim (Option-cases (find_entry (expire s now).entries d)) [
      | inr (entry, found) ↦ absurd (ground (arith, h, found))
      | inl out ↦
          let e : expire s now ≡ s' = ground (arith, h, out) in
          subst (λ (t : Store). find_entry t.entries d ≡ none) e out
    ]

-- Once a call of `invalidate` for a digest on a valid store has succeeded, whether it found a session
-- or not, the digest authenticates nobody, after any later calls that generate no credential with it
-- and at any time.
pub invalidate_is_final :
    (d : Bytes) (now : ℕ) (copied : Bool) (s s' : Store) (invalidated : Option Principal)
    (cs : List Call) (later : ℕ) (again : Bool)
    → IsValid s
    → invalidate (ok d) now copied s ≡ (s', ok invalidated)
    → All (Avoids d) cs
    → (authenticate (ok d) later again (run s' cs)).1 ≡ ok none
invalidate_is_final d now copied s s' invalidated cs later again v h avoids =
    let dead =
      All-run (λ e. bytes_eq e.digest d ≡ false) (λ e now h. h) s' cs
        (All-none d s'.entries (find_entry-invalidated d now copied s s' invalidated v h)) avoids in
    let v' : IsValid s' = subst (λ r. IsValid r.0) h (invalidate-IsValid (ok d) now copied s v) in
    rw ((authenticate_lem d later again (run s' cs) (run-IsValid s' cs v')).0)
      (rw (contains-All d (run s' cs).entries dead))

-- Every entry of the digest was created at this time.
abbrev pub CreatedAt : Bytes → ℕ → Entry → Type 0
CreatedAt d time e = bytes_eq e.digest d ≡ true → e.created ≡ time

live-CreatedAt :
    (policy : Policy) (d : Bytes) (time later : ℕ) (es : List Entry)
    → All (CreatedAt d time) es
    → policy.absolute_lifetime ≤ later - time
    → live policy later (find_entry es d) ≡ none
unfolding expired
live-CreatedAt policy d time later [] h late = refl
live-CreatedAt policy d time later (e ∷ es) h late = elim (Bool-cases (bytes_eq e.digest d)) [
  | inl hit ↦ rw hit (ground (arith, h.0 hit))
  | inr miss ↦ rw miss (live-CreatedAt policy d time later es h.1 late)
]

policy-create_rounds :
    (ds : List Draw) (s : Store) (principal : Principal)
    → (create_rounds ds s principal).0.policy ≡ s.policy
unfolding create_rounds expire
policy-create_rounds [] s principal = refl
policy-create_rounds (d ∷ ds) s principal = elim (Result-cases d.generated) [
  | inr (e, failed) ↦ rw (failed, create_rounds)
  | inl (g, generated) ↦
      rw (generated, create_rounds)
        (ground (
          arith,
          policy-create_rounds ds (expire s d.now) principal,
          policy-insert_session (expire s d.now) g principal d.now,
        ))
]

policy-step : (s : Store) (c : Call) → (step s c).policy ≡ s.policy
unfolding step create_session authenticate invalidate expire
policy-step s (creates draws principal) = policy-create_rounds (rounds draws) s principal
policy-step s (authenticates (err e) now copied) = refl
policy-step s (authenticates (ok digest) now copied) = ground arith
policy-step s (invalidates (err e) now copied) = refl
policy-step s (invalidates (ok digest) now copied) = ground arith

policy-run : (s : Store) (cs : List Call) → (run s cs).policy ≡ s.policy
unfolding run
policy-run s [] = refl
policy-run s (c ∷ cs) = policy-run (step s c) cs ∙ policy-step s c

Avoids-CreatedAt :
    (d : Bytes) (time : ℕ) (cs : List Call)
    → All (Avoids d) cs
    → All (AdmitsCall (CreatedAt d time)) cs
Avoids-CreatedAt d time [] h = tt
Avoids-CreatedAt d time (creates draws principal ∷ cs) h =
    (λ i g e hit. absurd (ground (arith, h.0 i g e)), Avoids-CreatedAt d time cs h.1)
Avoids-CreatedAt d time (authenticates _ _ _ ∷ cs) h = (tt, Avoids-CreatedAt d time cs h.1)
Avoids-CreatedAt d time (invalidates _ _ _ ∷ cs) h = (tt, Avoids-CreatedAt d time cs h.1)

-- Whatever calls are made in between, a credential of a valid store authenticates nobody once the
-- absolute lifetime has passed since its session was created, as long as no call generates a
-- credential with its digest.
pub absolute_lifetime_is_final :
    (d : Bytes) (time : ℕ) (s : Store) (cs : List Call) (later : ℕ) (copied : Bool)
    → IsValid s
    → All (CreatedAt d time) s.entries
    → All (Avoids d) cs
    → s.policy.absolute_lifetime ≤ later - time
    → (authenticate (ok d) later copied (run s cs)).1 ≡ ok none
absolute_lifetime_is_final d time s cs later copied v created avoids late =
    let t = run s cs in
    let kept =
      All-run (CreatedAt d time) (λ e now h. h) s cs created (Avoids-CreatedAt d time cs avoids) in
    rw ((authenticate_lem d later copied t (run-IsValid s cs v)).0)
      (rw (live-CreatedAt t.policy d time later t.entries kept (rw (policy-run s cs) late)))
