-- ===== src/Session/Entries/Distinct.antt =====
-- How the searches and erasures on entries act on their number and on their digests.
use spare_node.Base.{
  ℕ, zero, suc, ◌≤◌, ◌<◌, false, List, [], ◌∷◌, ◌++◌, ◌≡◌, refl, arith, Bytes, length, bytes_eq,
  bytes_eq_iff,
}
use spare_node.Session.Entries.{
  Entry, Policy, contains, remove_expired, erase_at, erase_entry, touch,
}

-- No two entries share a digest.
abbrev pub Distinct : List Entry → Type 0
Distinct [] = Unit
Distinct (e ∷ es) = (contains es e.digest ≡ false) × Distinct es

module _ (policy : Policy) (now : ℕ) where
  pub length-remove_expired : (es : List Entry) → length (remove_expired policy now es) ≤ length es
  unfolding remove_expired
  length-remove_expired [] = omega arith
  length-remove_expired (e ∷ es) = ground (arith, length-remove_expired es)

  pub contains-remove_expired :
      (d : Bytes) (es : List Entry)
      → contains es d ≡ false
      → contains (remove_expired policy now es) d ≡ false
  unfolding remove_expired contains
  contains-remove_expired d [] h = refl
  contains-remove_expired d (e ∷ es) h = ground (arith, contains-remove_expired d es)

  pub Distinct-remove_expired :
      (es : List Entry) → Distinct es → Distinct (remove_expired policy now es)
  unfolding remove_expired
  Distinct-remove_expired [] h = tt
  Distinct-remove_expired (e ∷ es) h =
      ground (arith, contains-remove_expired e.digest es h.0, Distinct-remove_expired es h.1)

pub contains-erase_at :
    (d : Bytes) (i : ℕ) (es : List Entry)
    → contains es d ≡ false
    → contains (erase_at i es) d ≡ false
unfolding erase_at contains
contains-erase_at d i [] h = refl
contains-erase_at d zero (e ∷ es) h = ground arith
contains-erase_at d (suc i) (e ∷ es) h = ground (arith, contains-erase_at d i es)

pub Distinct-erase_at : (i : ℕ) (es : List Entry) → Distinct es → Distinct (erase_at i es)
unfolding erase_at
Distinct-erase_at i [] h = tt
Distinct-erase_at zero (e ∷ es) h = h.1
Distinct-erase_at (suc i) (e ∷ es) h =
    (contains-erase_at e.digest i es h.0, Distinct-erase_at i es h.1)

pub length-erase_at :
    (i : ℕ) (es : List Entry) → i < length es → suc (length (erase_at i es)) ≡ length es
unfolding erase_at
length-erase_at i [] h = absurd (omega arith)
length-erase_at zero (e ∷ es) h = refl
length-erase_at (suc i) (e ∷ es) h = omega (arith, length-erase_at i es (omega arith))

pub contains-erase_entry :
    (d digest : Bytes) (es : List Entry)
    → contains es d ≡ false
    → contains (erase_entry digest es) d ≡ false
unfolding erase_entry contains
contains-erase_entry d digest [] h = refl
contains-erase_entry d digest (e ∷ es) h = ground (arith, contains-erase_entry d digest es)

pub Distinct-erase_entry :
    (digest : Bytes) (es : List Entry) → Distinct es → Distinct (erase_entry digest es)
unfolding erase_entry
Distinct-erase_entry digest [] h = tt
Distinct-erase_entry digest (e ∷ es) h =
    ground (arith, contains-erase_entry e.digest digest es h.0, Distinct-erase_entry digest es h.1)

pub length-erase_entry :
    (digest : Bytes) (es : List Entry) → length (erase_entry digest es) ≤ length es
unfolding erase_entry
length-erase_entry digest [] = omega arith
length-erase_entry digest (e ∷ es) = ground (arith, length-erase_entry digest es)

-- Under distinct digests, an erased digest is gone.
pub contains-erase_entry_self :
    (digest : Bytes) (es : List Entry)
    → Distinct es
    → contains (erase_entry digest es) digest ≡ false
unfolding erase_entry contains
contains-erase_entry_self digest [] h = refl
contains-erase_entry_self digest (e ∷ es) h =
    ground (arith, bytes_eq_iff e.digest digest, contains-erase_entry_self digest es h.1)

pub contains-touch :
    (d digest : Bytes) (now : ℕ) (es : List Entry)
    → contains (touch digest now es) d ≡ contains es d
unfolding touch contains
contains-touch d digest now [] = refl
contains-touch d digest now (e ∷ es) = ground (arith, contains-touch d digest now es)

pub Distinct-touch :
    (digest : Bytes) (now : ℕ) (es : List Entry) → Distinct es → Distinct (touch digest now es)
unfolding touch
Distinct-touch digest now [] h = tt
Distinct-touch digest now (e ∷ es) h =
    ground (arith, contains-touch e.digest digest now es, Distinct-touch digest now es h.1)

pub length-touch :
    (digest : Bytes) (now : ℕ) (es : List Entry) → length (touch digest now es) ≡ length es
unfolding touch
length-touch digest now [] = refl
length-touch digest now (e ∷ es) = ground (arith, length-touch digest now es)

pub contains-append :
    (d : Bytes) (es : List Entry) (e : Entry)
    → contains es d ≡ false
    → bytes_eq e.digest d ≡ false
    → contains (es ++ e ∷ []) d ≡ false
unfolding contains
contains-append d [] e h k = ground arith
contains-append d (x ∷ es) e h k = ground (arith, contains-append d es e)

pub Distinct-append :
    (es : List Entry) (e : Entry)
    → Distinct es
    → contains es e.digest ≡ false
    → Distinct (es ++ e ∷ [])
unfolding contains
Distinct-append [] e h k = (refl, tt)
Distinct-append (x ∷ es) e h k = ground (
  arith,
  bytes_eq_iff x.digest e.digest,
  bytes_eq_iff e.digest x.digest,
  contains-append x.digest es e h.0,
  Distinct-append es e h.1,
)
