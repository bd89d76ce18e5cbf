-- ===== src/Session/Entries/Eviction.antt =====
-- The entry that an eviction picks: `std::ranges::min_element` by last activity.
use mathlib.Core.List.{append_assoc}
use spare_node.Base.{
  ℕ, ◌+◌, ◌≤◌, ◌<◌, List, [], ◌∷◌, ◌++◌, ◌≡◌, refl, arith, length, get_elem?, some, inl, inr,
  Bool-cases, All, All-append, length-append, get_elem?-append_left, get_elem?-append_length, ltb,
}
use spare_node.Session.Entries.{Entry, least_from, least_recent}

-- The position of the least activity lies in the vector.
least_from-lt :
    (best activity position : ℕ) (es : List Entry)
    → best < position
    → least_from best activity position es < position + length es
unfolding least_from
least_from-lt best activity position [] h = omega arith
least_from-lt best activity position (e ∷ es) h = ground (
  arith,
  least_from-lt position e.last_activity (position + 1) es,
  least_from-lt best activity (position + 1) es,
)

pub least_recent-lt : (es : List Entry) → 0 < length es → least_recent es < length es
unfolding least_recent
least_recent-lt [] h = absurd (omega arith)
least_recent-lt (e ∷ es) h = omega (arith, least_from-lt 0 e.last_activity 1 es (omega arith))

-- The entry at a position, and that no entry was active before it.
abbrev pub IsLeast : List Entry → ℕ → Type 0
IsLeast es i =
    (v : Entry) × (get_elem? es i ≡ some v) × All (λ e. v.last_activity ≤ e.last_activity) es

All-mono :
    (a b : ℕ) (es : List Entry)
    → a ≤ b
    → All (λ e. b ≤ e.last_activity) es
    → All (λ e. a ≤ e.last_activity) es
All-mono a b [] h k = tt
All-mono a b (e ∷ es) h k = (omega arith, All-mono a b es h k.1)

least_from-IsLeast :
    (seen es : List Entry) (best position : ℕ) (v : Entry)
    → position ≡ length seen
    → get_elem? seen best ≡ some v
    → All (λ e. v.last_activity ≤ e.last_activity) seen
    → IsLeast (seen ++ es) (least_from best v.last_activity position es)
unfolding least_from
least_from-IsLeast seen [] best position v p h k =
    (v, get_elem?-append_left best seen [] h, All-append _ seen [] k tt)
least_from-IsLeast seen (e ∷ es) best position v p h k =
    let here : get_elem? (seen ++ e ∷ []) position ≡ some e =
      rw p (get_elem?-append_length seen e []) in
    let next : position + 1 ≡ length (seen ++ e ∷ []) =
      omega (arith, length-append seen (e ∷ []), p) in
    elim (Bool-cases (ltb e.last_activity v.last_activity)) [
      | inl sooner ↦ rw sooner (
          rw (append_assoc seen (e ∷ []) es) at (
            least_from-IsLeast (seen ++ e ∷ []) es position (position + 1) e next here
              (All-append _ seen (e ∷ []) (All-mono _ _ seen (ground arith) k) (omega arith))))
      | inr later ↦ rw later (
          rw (append_assoc seen (e ∷ []) es) at (
            least_from-IsLeast (seen ++ e ∷ []) es best (position + 1) v next
              (get_elem?-append_left best seen (e ∷ []) h)
              (All-append _ seen (e ∷ []) k (ground arith))))
    ]

pub least_recent-IsLeast : (es : List Entry) → 0 < length es → IsLeast es (least_recent es)
unfolding least_recent
least_recent-IsLeast [] h = absurd (omega arith)
least_recent-IsLeast (e ∷ es) h = least_from-IsLeast (e ∷ []) es 0 1 e refl refl (omega arith)
