-- ===== src/Network/Ring.antt =====
-- The ring buffers of src/network/connection_dispatcher.cpp, `ready_queue_` and `accepted_queue_`
-- with their head and count, and that they hold a queue.
use native.Mathlib.Nat.{mod-eq_of_lt, mod-eq-sub-mod, mod-add-mod}
use native.Mathlib.Decide.{dec_lt}
use spare_node.Base.{
  ℕ, zero, suc, ◌+◌, ◌-◌, ◌%◌, ◌≤◌, ◌<◌, List, [], ◌∷◌, ◌++◌, Option, none, some, ◌≡◌, ◌≢◌, refl,
  sym, ap, ◌∙◌, ◌⊎◌, inl, inr, arith, length, get_elem?, length-append,
}

-- `slots` has the queue's size; a slot that is empty holds none.
pub record Ring {ℓ} (A : Type ℓ) : Type ℓ where
  pub slots : List (Option A)
  pub head : ℕ
  pub count : ℕ

module _ {ℓ} {A : Type ℓ} where
  abbrev pub set : List A → ℕ → A → List A
  set [] i a = []
  set (x ∷ xs) zero a = a ∷ xs
  set (x ∷ xs) (suc i) a = x ∷ set xs i a

module _ {ℓ} {A : Type ℓ} where
  abbrev pub tail : Ring A → ℕ
  tail r = (r.head + r.count) % length r.slots

  -- `emplace` at the tail.
  unfoldable pub enqueue : A → Ring A → Ring A
  enqueue a r = record r { slots = set r.slots (tail r) (some a); count = r.count + 1 }

  -- What is read at the head, and the ring behind it; none where the head slot is empty.
  unfoldable pub dequeue : Ring A → Option (A × Ring A)
  dequeue r = elim (get_elem? r.slots r.head) [
    | none ↦ none
    | some none ↦ none
    | some (some a) ↦ some (
      a,
      record {
        slots = set r.slots r.head none;
        head = (r.head + 1) % length r.slots;
        count = r.count - 1;
      },
    )
  ]

  -- The ring holds the items, the oldest first.
  pub record Holds (r : Ring A) (items : List A) : Type ℓ where
    pub head_in : r.head < length r.slots
    pub fits : length items ≤ length r.slots
    pub counted : r.count ≡ length items
    pub at :
        (i : ℕ) (a : A)
        → get_elem? items i ≡ some a
        → get_elem? r.slots ((r.head + i) % length r.slots) ≡ some (some a)

-- Going round once at most.
pub wrap :
    (n h i : ℕ)
    → h < n
    → i ≤ n
    → ((h + i < n) × ((h + i) % n ≡ h + i)) ⊎ ((n ≤ h + i) × ((h + i) % n ≡ h + i - n))
wrap n h i p q = elim (dec_lt (h + i) n) [
  | yes low ↦ inl (low, mod-eq_of_lt low)
  | no high ↦ inr (
    omega (arith, high),
    mod-eq-sub-mod {n = h + i} {m = n} (omega (arith, high))
        ∙ mod-eq_of_lt {n = h + i - n} {m = n} (omega (arith, p, q)),
  )
]

module _ {ℓ} {A : Type ℓ} where
  pub length-set : (xs : List A) (i : ℕ) (a : A) → length (set xs i a) ≡ length xs
  length-set [] i a = refl
  length-set (x ∷ xs) zero a = refl
  length-set (x ∷ xs) (suc i) a = ap suc (length-set xs i a)

  pub set-set : (xs : List A) (i : ℕ) (a b : A) → set (set xs i a) i b ≡ set xs i b
  set-set [] i a b = refl
  set-set (x ∷ xs) zero a b = refl
  set-set (x ∷ xs) (suc i) a b = ap (◌∷◌ x) (set-set xs i a b)

  pub get_elem?-set_same :
      (xs : List A) (i : ℕ) (a : A) → i < length xs → get_elem? (set xs i a) i ≡ some a
  get_elem?-set_same [] i a h = absurd (omega (arith, h))
  get_elem?-set_same (x ∷ xs) zero a h = refl
  get_elem?-set_same (x ∷ xs) (suc i) a h = get_elem?-set_same xs i a (omega (arith, h))

  pub get_elem?-set_other :
      (xs : List A) (i j : ℕ) (a : A) → i ≢ j → get_elem? (set xs i a) j ≡ get_elem? xs j
  get_elem?-set_other [] i j a h = refl
  get_elem?-set_other (x ∷ xs) zero zero a h = absurd (h refl)
  get_elem?-set_other (x ∷ xs) zero (suc j) a h = refl
  get_elem?-set_other (x ∷ xs) (suc i) zero a h = refl
  get_elem?-set_other (x ∷ xs) (suc i) (suc j) a h =
      get_elem?-set_other xs i j a (λ e. h (ap suc e))

  pub get_elem?-length : (xs : List A) (i : ℕ) (a : A) → get_elem? xs i ≡ some a → i < length xs
  get_elem?-length [] i a h = absurd (cc)
  get_elem?-length (x ∷ xs) zero a h = omega arith
  get_elem?-length (x ∷ xs) (suc i) a h = omega (arith, get_elem?-length xs i a h)

  -- The last item of a list, and the others.
  get_elem?-snoc :
      (xs : List A) (a b : A) (i : ℕ)
      → get_elem? (xs ++ a ∷ []) i ≡ some b
      → ((i < length xs) × (get_elem? xs i ≡ some b)) ⊎ ((i ≡ length xs) × (a ≡ b))
  get_elem?-snoc [] a b zero h = inr (refl, ground (arith, h))
  get_elem?-snoc [] a b (suc i) h = absurd (cc)
  get_elem?-snoc (x ∷ xs) a b zero h = inl (omega arith, h)
  get_elem?-snoc (x ∷ xs) a b (suc i) h = elim (get_elem?-snoc xs a b i h) [
    | inl (low, e) ↦ inl (omega (arith, low), e)
    | inr (last, e) ↦ inr (ap suc last, e)
  ]

-- Different places of a ring are different slots.
places : (n h i j : ℕ) → h < n → i < n → j < n → i ≢ j → (h + i) % n ≢ (h + j) % n
places n h i j p q s different same = elim (wrap n h i p (omega (arith, q))) [
  | inl (low, e) ↦ elim (wrap n h j p (omega (arith, s))) [
    | inl (low', e') ↦ different (omega (arith, e, e', same))
    | inr (high', e') ↦ absurd (omega (arith, e, e', same, s, high'))
  ]
  | inr (high, e) ↦ elim (wrap n h j p (omega (arith, s))) [
    | inl (low', e') ↦ absurd (omega (arith, e, e', same, q, high))
    | inr (high', e') ↦ different (omega (arith, e, e', same, high, high'))
  ]
]

place_in : (n h i : ℕ) → h < n → i ≤ n → (h + i) % n < n
place_in n h i p q = elim (wrap n h i p q) [
  | inl (low, e) ↦ omega (arith, e, low)
  | inr (high, e) ↦ omega (arith, e, high, p, q)
]

next_place : (n h i : ℕ) → h < n → suc i ≤ n → ((h + 1) % n + i) % n ≡ (h + suc i) % n
next_place n h i p q = mod-add-mod (h + 1) n i ∙ ap (λ k. k % n) (omega arith)

module _ {ℓ} {A : Type ℓ} where
  enqueue-at :
      (r : Ring A) (items : List A) (a : A)
      → Holds r items
      → length items < length r.slots
      → (i : ℕ) (b : A) → get_elem? (items ++ a ∷ []) i ≡ some b
      → get_elem? (set r.slots (tail r) (some a)) ((r.head + i) % length r.slots) ≡ some (some b)
  enqueue-at r items a v room i b h = elim (get_elem?-snoc items a b i h) [
    | inl (low, e) ↦
        get_elem?-set_other r.slots (tail r) ((r.head + i) % length r.slots) (some a) (
          places (length r.slots) r.head r.count i v.head_in (omega (arith, v.counted, room))
            (omega (arith, low, room)) (omega (arith, v.counted, low)))
        ∙ v.at i b e
    | inr (last, e) ↦
        ap (λ k. get_elem? (set r.slots (tail r) (some a)) ((r.head + k) % length r.slots))
          (last ∙ sym v.counted)
        ∙ get_elem?-set_same r.slots (tail r) (some a)
            (place_in (length r.slots) r.head r.count v.head_in (omega (arith, v.counted, room)))
        ∙ ap (λ c. some (some c)) e
  ]

  -- Writing behind the last item adds it to the queue.
  pub enqueue-Holds :
      (r : Ring A) (items : List A) (a : A)
      → Holds r items
      → length items < length r.slots
      → Holds (enqueue a r) (items ++ a ∷ [])
  unfolding enqueue
  enqueue-Holds r items a v room =
      let same = length-set r.slots (tail r) (some a) in
      record {
        head_in = omega (arith, v.head_in, same);
        fits = omega (arith, room, same, length-append items (a ∷ []));
        counted = omega (arith, v.counted, length-append items (a ∷ []));
        at = λ i b h.
            ap (λ n. get_elem? (set r.slots (tail r) (some a)) ((r.head + i) % n)) same
            ∙ enqueue-at r items a v room i b h;
      }

  -- The ring behind the head.
  abbrev behind : Ring A → Ring A
  behind r = record {
    slots = set r.slots r.head none;
    head = (r.head + 1) % length r.slots;
    count = r.count - 1;
  }

  behind-Holds :
      (r : Ring A) (x : A) (items : List A) → Holds r (x ∷ items) → Holds (behind r) items
  behind-Holds r x items v =
      let same = length-set r.slots r.head none in
      record {
        head_in =
            omega (
              arith,
              same,
              place_in (length r.slots) r.head 1 v.head_in (omega (arith, v.head_in)),
            );
        fits = omega (arith, v.fits, same);
        counted = omega (arith, v.counted);
        at = λ i b h.
            let inside = get_elem?-length items i b h in
            let first : (r.head + 0) % length r.slots ≡ r.head =
              ap (λ k. k % length r.slots) (omega arith) ∙ mod-eq_of_lt v.head_in in
            ap (λ n. get_elem? (set r.slots r.head none) (((r.head + 1) % length r.slots + i) % n))
              same
            ∙ ap (get_elem? (set r.slots r.head none))
                (next_place (length r.slots) r.head i v.head_in (omega (arith, v.fits, inside)))
            ∙ get_elem?-set_other r.slots r.head ((r.head + suc i) % length r.slots) none (λ e.
              places (length r.slots) r.head 0 (suc i) v.head_in (omega (arith, v.head_in))
                (omega (arith, v.fits, inside)) (omega arith) (first ∙ e))
            ∙ v.at (suc i) b h;
      }

  -- Reading at the head takes the oldest item.
  pub dequeue-Holds :
      (r : Ring A) (x : A) (items : List A)
      → Holds r (x ∷ items)
      → (r' : Ring A) × (dequeue r ≡ some (x, r'))
        × Holds r' items
        × (length r'.slots ≡ length r.slots)
  unfolding dequeue
  dequeue-Holds r x items v =
      let first : (r.head + 0) % length r.slots ≡ r.head =
        ap (λ k. k % length r.slots) (omega arith) ∙ mod-eq_of_lt v.head_in in
      let here : get_elem? r.slots r.head ≡ some (some x) =
        ap (get_elem? r.slots) (sym first) ∙ v.at 0 x refl in
      (behind r, rw (dequeue, here) refl, behind-Holds r x items v, length-set r.slots r.head none)

  pub length-enqueue : (r : Ring A) (a : A) → length (enqueue a r).slots ≡ length r.slots
  unfolding enqueue
  length-enqueue r a = length-set r.slots (tail r) (some a)
