-- ===== src/Network/Dispatcher/Transfers.antt =====
-- Connections on their way from the listener to the workers, through the admission thread.
use spare_node.Base.{
  ℕ, zero, suc, ◌+◌, ◌<◌, Bool, true, false, not, List, [], ◌∷◌, ◌++◌, Option, none, some, ◌≡◌,
  refl, sym, ap, subst, if_true, if_false, ◌∙◌, inl, inr, if◌then◌else◌, arith, length, get_elem?,
  length-append, map, Bool-cases, Option-cases,
}
use spare_node.Network.Ring.{
  Ring, Holds, set, length-set, enqueue-Holds, dequeue-Holds, length-enqueue,
}
use spare_node.Network.Dispatcher.{
  Connection, AdmissionEntry, State, request_stop, fresh_entry, drain_one, drain_rounds,
  drain_accepted, release_admission, enqueue_promoted, emptied, start, replicate,
}
use spare_node.Network.Dispatcher.Ownership.{IsOwned, occupied, one_if_some, place_free_lem}

-- The newcomers all move on to admission, the oldest first.
drain_one-IsOwned :
    (limit : ℕ) (s : State) (connection : Connection) (ws ns : List Connection)
    → IsOwned limit s ws (connection ∷ ns)
    → s.stopping ≡ false
    → (next : State) × (drain_one s ≡ some next)
      × IsOwned limit next ws ns
      × (next.stopping ≡ false)
unfolding drain_one
drain_one-IsOwned limit s connection ws ns v going = elim (Bool-cases s.admission_enabled) [
  | inr plain ↦ absurd (omega (arith, (v.direct plain).0))
  | inl enabled ↦
      let count = v.counted going in
      let all : length s.admissions ≡ length s.ready.slots = v.admission_size ∙ rw enabled refl in
      let (ring, taken, holds, same) = dequeue-Holds s.accepted connection ns v.accepted in
      let (placed, found, more, size) =
        place_free_lem (fresh_entry connection) s.admissions
          (omega (arith, count, all, v.bounded)) in
      (
        record s { accepted = ring; admissions = placed },
        rw (drain_one, taken, found) refl,
        record {
          size = v.size;
          ready = v.ready;
          accepted = holds;
          same_size = same ∙ v.same_size;
          admission_size = size ∙ v.admission_size;
          bounded = v.bounded;
          counted = λ _. omega (arith, count, more);
          direct = λ plain. absurd (cc);
        },
        going,
      )
]

drain_rounds-IsOwned :
    (limit : ℕ) (s : State) (ws ns : List Connection)
    → IsOwned limit s ws ns
    → s.stopping ≡ false
    → (next : State) × (drain_rounds (length ns) s ≡ some next) × IsOwned limit next ws []
unfolding drain_rounds
drain_rounds-IsOwned limit s ws [] v going = (s, refl, v)
drain_rounds-IsOwned limit s ws (connection ∷ ns) v going =
    let (first, drained, w, still) = drain_one-IsOwned limit s connection ws ns v going in
    let (next, others, u) = drain_rounds-IsOwned limit first ws ns w still in
    (next, rw (drain_rounds, drained) others, u)

abbrev drained_result : Option State → Option (Bool × State)
drained_result o = elim o [ none ↦ none | some next ↦ some (true, next) ]

-- `drain_accepted` never terminates the program, and leaves no newcomer behind unless it is stopped.
pub drain_accepted-IsOwned :
    (limit : ℕ) (s : State) (ws ns : List Connection)
    → IsOwned limit s ws ns
    → (next : State) × (drain_accepted s ≡ some (not s.stopping, next))
      × IsOwned limit next ws (if s.stopping then ns else [])
unfolding drain_accepted
drain_accepted-IsOwned limit s ws ns v = elim (Bool-cases s.stopping) [
  | inl stopped ↦ (
    s,
    rw (drain_accepted, stopped) refl,
    subst (λ l. IsOwned limit s ws l) (sym (if_true ns [] s.stopping stopped)) v,
  )
  | inr going ↦
      let (next, drained, w) = drain_rounds-IsOwned limit s ws ns v going in
      (
        next,
        if_false _ _ s.stopping going
            ∙ ap drained_result (ap (λ n. drain_rounds n s) v.accepted.counted ∙ drained)
            ∙ ap (λ b. some (not b, next)) (sym going),
        subst (λ l. IsOwned limit next ws l) (sym (if_false ns [] s.stopping going)) w,
      )
]

occupied-set :
    {A : Type 0} (slots : List (Option A)) (i : ℕ) (a : A)
    → get_elem? slots i ≡ some (some a)
    → occupied (set slots i none) + 1 ≡ occupied slots
occupied-set [] i a h = absurd (cc)
occupied-set (slot ∷ slots) zero a h = ground (arith, h)
occupied-set (slot ∷ slots) (suc i) a h = omega (arith, occupied-set slots i a h)

get_elem?-nonempty :
    {A : Type 0} (slots : List A) (i : ℕ) (a : A) → get_elem? slots i ≡ some a → 0 < length slots
get_elem?-nonempty [] i a h = absurd (cc)
get_elem?-nonempty (slot ∷ slots) i a h = omega arith

-- An admitted connection leaves its slot.
pub release_admission-IsOwned :
    (limit : ℕ) (index : ℕ) (s : State) (ws ns : List Connection)
    → IsOwned limit s ws ns
    → s.moving ≡ none
    → IsOwned limit (release_admission index s) ws ns
unfolding release_admission
release_admission-IsOwned limit index s ws ns v still =
    elim (Option-cases (get_elem? s.admissions index)) [
      | inl out ↦ rw (release_admission, out) v
      | inr (none, empty) ↦ rw (release_admission, empty) v
      | inr (some entry, taken) ↦
          rw (release_admission, taken)
            (record {
              size = v.size;
              ready = v.ready;
              accepted = v.accepted;
              same_size = v.same_size;
              admission_size = length-set s.admissions index none ∙ v.admission_size;
              bounded = v.bounded;
              counted = λ going. omega (
                arith,
                v.counted going,
                occupied-set s.admissions index entry taken,
                ap one_if_some still,
              );
              direct = λ plain.
                  let unused : length s.admissions ≡ 0 = v.admission_size ∙ rw plain refl in
                  absurd (
                    omega
                      (arith, unused, get_elem?-nonempty s.admissions index (some entry) taken));
            })
    ]

-- The moving connection joins the workers' queue, as its last.
pub enqueue_promoted-IsOwned :
    (limit : ℕ) (s : State) (connection : Connection) (ws ns : List Connection)
    → IsOwned limit s ws ns
    → s.moving ≡ some connection
    → IsOwned limit (enqueue_promoted s) (if s.stopping then ws else ws ++ connection ∷ []) ns
unfolding enqueue_promoted
enqueue_promoted-IsOwned limit s connection ws ns v moves = elim (Bool-cases s.stopping) [
  | inl stopped ↦
      rw (enqueue_promoted, moves, stopped)
        (record {
          size = v.size;
          ready = v.ready;
          accepted = v.accepted;
          same_size = v.same_size;
          admission_size = v.admission_size;
          bounded = v.bounded;
          counted = λ going. absurd (cc);
          direct = λ plain. ((v.direct plain).0, refl);
        })
  | inr going ↦
      let count = v.counted going in
      let one = ap one_if_some moves in
      let joined = length-append ws (connection ∷ []) in
      let same = length-enqueue s.ready connection in
      rw (enqueue_promoted, moves, going)
        (record {
          size = same ∙ v.size;
          ready =
              enqueue-Holds s.ready ws connection v.ready (omega (arith, count, one, v.bounded));
          accepted = v.accepted;
          same_size = v.same_size ∙ sym same;
          admission_size =
              v.admission_size ∙ ap (λ n. if s.admission_enabled then n else 0) (sym same);
          bounded = omega (arith, v.bounded, same);
          counted = λ _. omega (arith, count, one, joined);
          direct = λ plain. ((v.direct plain).0, refl);
        })
]

pub length-emptied :
    {A : Type 0} (slots : List (Option A))
    → length {A = Option A} (map (λ slot. none) slots) ≡ length slots
length-emptied [] = refl
length-emptied (slot ∷ slots) = ap suc (length-emptied slots)

emptied-Holds :
    (r : Ring Connection) (items : List Connection) → Holds r items → Holds (emptied r) []
emptied-Holds r items v = record {
  head_in = omega (arith, v.head_in, length-emptied r.slots);
  fits = omega arith;
  counted = refl;
  at = λ i a h. absurd (cc);
}

-- A stop leaves nothing queued.
pub request_stop-IsOwned :
    (limit : ℕ) (s : State) (ws ns : List Connection)
    → IsOwned limit s ws ns
    → IsOwned limit (request_stop s) (if s.stopping then ws else []) (if s.stopping then ns else [])
unfolding request_stop
request_stop-IsOwned limit s ws ns v = elim (Bool-cases s.stopping) [
  | inl stopped ↦
      let same : request_stop s ≡ s = ap (λ t. t) (if_true _ _ s.stopping stopped) in
      subst (λ t. IsOwned limit t (if s.stopping then ws else []) (if s.stopping then ns else []))
        (sym same)
        (subst (λ l. IsOwned limit s l (if s.stopping then ns else []))
          (sym (if_true ws [] s.stopping stopped))
          (subst (λ l. IsOwned limit s ws l) (sym (if_true ns [] s.stopping stopped)) v))
  | inr going ↦
      let same = length-emptied s.ready.slots in
      rw (request_stop, going)
        (record {
          size = same ∙ v.size;
          ready = emptied-Holds s.ready ws v.ready;
          accepted = emptied-Holds s.accepted ns v.accepted;
          same_size = length-emptied s.accepted.slots ∙ v.same_size ∙ sym same;
          admission_size =
              v.admission_size ∙ ap (λ n. if s.admission_enabled then n else 0) (sym same);
          bounded = omega arith;
          counted = λ going. absurd (cc);
          direct = λ plain. (refl, (v.direct plain).1);
        })
]

length-replicate : {A : Type 0} (n : ℕ) (a : A) → length (replicate n a) ≡ n
length-replicate zero a = refl
length-replicate (suc n) a = ap suc (length-replicate n a)

-- Slots that nothing has taken.
abbrev vacant : (A : Type 0) → ℕ → List (Option A)
vacant A n = replicate n none

occupied-vacant : (A : Type 0) (n : ℕ) → occupied (vacant A n) ≡ 0
occupied-vacant A zero = refl
occupied-vacant A (suc n) = omega (arith, occupied-vacant A n)

empty-Holds :
    (limit : ℕ)
    → 0 < limit
    → Holds (record { slots = vacant Connection limit; head = 0; count = 0 }) []
empty-Holds limit pos = record {
  head_in = omega (arith, pos, length-replicate {A = Option Connection} limit none);
  fits = omega arith;
  counted = refl;
  at = λ i a h. absurd (cc);
}

-- A new dispatcher owns nothing.
pub start-IsOwned :
    (limit : ℕ) (enabled : Bool) → 0 < limit → IsOwned limit (start limit enabled) [] []
unfolding start
start-IsOwned limit enabled pos = record {
  size = length-replicate limit none;
  ready = empty-Holds limit pos;
  accepted = empty-Holds limit pos;
  same_size = refl;
  admission_size = slots enabled;
  bounded = omega arith;
  counted = λ _. free enabled;
  direct = λ plain. (refl, refl);
}
  where
    slots :
        (b : Bool)
        → length (if b then vacant AdmissionEntry limit else [])
          ≡ (if b then length (vacant Connection limit) else 0)
    slots true = length-replicate limit none ∙ sym (length-replicate limit none)
    slots false = refl

    free : (b : Bool) → 0 ≡ 0 + 0 + occupied (if b then vacant AdmissionEntry limit else []) + 0
    free true = omega (arith, occupied-vacant AdmissionEntry limit)
    free false = omega arith
