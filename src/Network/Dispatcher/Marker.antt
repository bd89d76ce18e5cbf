-- ===== src/Network/Dispatcher/Marker.antt =====
-- The completion marker: that the search behind the last receive misses nothing, and the deadline
-- for which the admission thread waits.
use spare_node.Base.{
  ℕ, zero, suc, ◌+◌, ◌-◌, ◌≤◌, ◌<◌, Bool, true, false, ◌||◌, List, [], ◌∷◌, ◌++◌, Option, none,
  some, Bytes, ltb, leb, ◌≡◌, refl, sym, ap, ◌∙◌, inl, inr, arith, length, take, drop, any, min,
  if_true, if_false, take-append_length, Bool-cases,
}
use spare_node.Base.Views.{starts_with, find_text}
use spare_node.Network.Dispatcher.{AdmissionEntry, AdmissionOptions, State}
use spare_node.Network.Dispatcher.Admission.{
  is_found, search_from, prefix_complete, deadline_of, deadline_from, next_admission_deadline,
  expired,
}

-- The text has the needle somewhere.
abbrev pub has_text : Bytes → Bytes → Bool
has_text needle text = is_found (find_text needle text)

has_text-cons :
    (needle : Bytes) (x : ℕ) (text : Bytes)
    → has_text needle (x ∷ text) ≡ (starts_with needle (x ∷ text) || has_text needle text)
unfolding find_text
has_text-cons needle x text = ground arith

starts_with-take :
    (needle text : Bytes) (n : ℕ)
    → starts_with needle text ≡ true
    → length needle ≤ n
    → starts_with needle (take n text) ≡ true
unfolding starts_with
starts_with-take [] text n h k = refl
starts_with-take (p ∷ needle) text zero h k = absurd (omega (arith, k))
starts_with-take (p ∷ needle) [] (suc n) h k = absurd (ground (arith, h))
starts_with-take (p ∷ needle) (x ∷ text) (suc n) h k =
    ground (arith, h, starts_with-take needle text n, k)

-- What is behind a place is in the text.
has_text-drop :
    (needle text : Bytes) (n : ℕ)
    → has_text needle (drop n text) ≡ true
    → has_text needle text ≡ true
has_text-drop needle text zero h = h
has_text-drop needle [] (suc n) h = h
has_text-drop needle (x ∷ text) (suc n) h =
    ground (arith, has_text-cons needle x text, has_text-drop needle text n h)

-- A needle that does not end within the first `n` bytes ends behind them.
has_text-behind :
    (needle text : Bytes) (n k : ℕ)
    → k + (length needle - 1) ≤ n
    → has_text needle text ≡ true
    → has_text needle (take n text) ≡ false
    → has_text needle (drop k text) ≡ true
has_text-behind needle text n zero low h none_yet = h
has_text-behind needle [] n (suc k) low h none_yet = h
has_text-behind needle (x ∷ text) zero (suc k) low h none_yet = absurd (omega (arith, low))
has_text-behind needle (x ∷ text) (suc n) (suc k) low h none_yet =
    elim (Bool-cases (starts_with needle (x ∷ text))) [
      | inl starts ↦ absurd (
          ground (
            arith,
            none_yet,
            has_text-cons needle x (take n text),
            starts_with-take needle (x ∷ text) (suc n) starts (omega (arith, low)),
          ))
      | inr later ↦
          has_text-behind needle text n k (omega (arith, low))
            (ground (arith, h, later, has_text-cons needle x text))
            (ground (arith, none_yet, has_text-cons needle x (take n text)))
    ]

-- If the bytes gathered before hold no completion marker, `prefix_complete`, which searches from
-- the last place where one that ends in the new bytes can begin, tells whether all the bytes
-- gathered so far hold one.
pub prefix_complete_lem :
    (options : AdmissionOptions) (old new : Bytes)
    → 0 < length options.completion_marker
    → has_text options.completion_marker old ≡ false
    → prefix_complete options (old ++ new) (length old)
      ≡ has_text options.completion_marker (old ++ new)
unfolding prefix_complete
prefix_complete_lem options old new pos none_yet =
    let marker = options.completion_marker in
    let from = search_from options (length old) in
    let before : has_text marker (take (length old) (old ++ new)) ≡ false =
      ap (has_text marker) (take-append_length old new) ∙ none_yet in
    elim (Bool-cases (has_text marker (old ++ new))) [
      | inr absent ↦ elim (Bool-cases (has_text marker (drop from (old ++ new)))) [
        | inr neither ↦ neither ∙ sym absent
        | inl found ↦ found ∙ sym (has_text-drop marker (old ++ new) from found)
      ]
      | inl present ↦ elim (Bool-cases (ltb (length marker - 1) (length old))) [
        | inl long ↦
            ap (λ k. has_text marker (drop k (old ++ new))) (if_true _ _ _ long)
            ∙ has_text-behind marker (old ++ new) (length old) (length old - (length marker - 1))
                (ground (arith, long)) present before
            ∙ sym present
        | inr short ↦ ap (λ k. has_text marker (drop k (old ++ new))) (if_false _ _ _ short)
      ]
    ]

-- Whether a deadline, if there is one, has come.
abbrev pub is_due : ℕ → Option ℕ → Bool
is_due now none = false
is_due now (some deadline) = leb deadline now

deadline_from_lem :
    (options : AdmissionOptions) (now : ℕ) (result : Option ℕ)
    (slots : List (Option AdmissionEntry))
    → is_due now (deadline_from options result slots)
      ≡ (is_due now result || any (expired options now) slots)
unfolding deadline_from expired
deadline_from_lem options now none [] = refl
deadline_from_lem options now (some d) [] = ground arith
deadline_from_lem options now none (none ∷ slots) = deadline_from_lem options now none slots
deadline_from_lem options now (some d) (none ∷ slots) = deadline_from_lem options now (some d) slots
deadline_from_lem options now none (some entry ∷ slots) =
    ground (arith, deadline_from_lem options now (some (deadline_of options entry)) slots)
deadline_from_lem options now (some d) (some entry ∷ slots) =
    ground (arith, deadline_from_lem options now (some (min d (deadline_of options entry))) slots)

-- The admission thread waits exactly as long as it may: at any time, the deadline that
-- `next_admission_deadline` gives has come exactly if `promote_expired` would promote the
-- connection of some slot at that time.
next_admission_deadline_lem :
    (options : AdmissionOptions) (now : ℕ) (s : State)
    → is_due now (next_admission_deadline options s) ≡ any (expired options now) s.admissions
unfolding next_admission_deadline
next_admission_deadline_lem options now s = deadline_from_lem options now none s.admissions
