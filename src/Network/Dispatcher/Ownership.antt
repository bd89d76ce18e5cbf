-- ===== src/Network/Dispatcher/Ownership.antt =====
-- The dispatcher counts each connection that it owns, and never more than its capacity.
use spare_node.Base.{
  ℕ, suc, ◌+◌, ◌-◌, ◌≤◌, ◌<◌, true, false, List, [], ◌∷◌, ◌++◌, Option, none, some, ◌≡◌, refl, sym,
  ap, ◌∙◌, if◌then◌else◌, arith, length, length-append,
}
use spare_node.Network.Ring.{Holds, enqueue-Holds, dequeue-Holds, length-enqueue}
use spare_node.Network.Dispatcher.{
  Connection, AdmissionEntry, State, capacity, accept_connection, dequeue_ready, place_free,
}

abbrev pub one_if_some {ℓ} : {A : Type ℓ} → Option A → ℕ
one_if_some none = 0
one_if_some (some a) = 1

-- How many slots are taken.
abbrev pub occupied {ℓ} : {A : Type ℓ} → List (Option A) → ℕ
occupied [] = 0
occupied (slot ∷ slots) = one_if_some slot + occupied slots

-- The connections of the two queues, and that every owned connection is counted.
pub record IsOwned (limit : ℕ) (s : State) (ready_items accepted_items : List Connection)
    : Type 0 where
  pub size : length s.ready.slots ≡ limit
  pub ready : Holds s.ready ready_items
  pub accepted : Holds s.accepted accepted_items
  pub same_size : length s.accepted.slots ≡ length s.ready.slots
  pub admission_size :
      length s.admissions ≡ (if s.admission_enabled then length s.ready.slots else 0)
  pub bounded : s.owned_count ≤ capacity s
  pub counted :
      s.stopping ≡ false
      → s.owned_count
        ≡ length ready_items + length accepted_items + occupied s.admissions + one_if_some s.moving
  pub direct :
      s.admission_enabled ≡ false → (length accepted_items ≡ 0) × (one_if_some s.moving ≡ 0)

-- A connection joins the newcomers.
pub accept-admitted :
    (limit : ℕ) (connection : Connection) (s : State) (ws ns : List Connection)
    → IsOwned limit s ws ns
    → s.stopping ≡ false
    → s.owned_count < capacity s
    → s.admission_enabled ≡ true
    → IsOwned limit (accept_connection connection s) ws (ns ++ connection ∷ [])
unfolding accept_connection
accept-admitted limit connection s ws ns v going room enabled =
    let joined = length-append ns (connection ∷ []) in
    let count = v.counted going in
    rw (accept_connection, enabled)
      (record {
        size = v.size;
        ready = v.ready;
        accepted =
            enqueue-Holds s.accepted ns connection v.accepted
              (omega (arith, count, room, v.same_size));
        same_size = length-enqueue s.accepted connection ∙ v.same_size;
        admission_size = v.admission_size ∙ rw enabled refl;
        bounded = omega (arith, room);
        counted = λ _. omega (arith, joined, count);
        direct = λ d. absurd (cc);
      })

-- A connection goes straight to the workers.
pub accept-direct :
    (limit : ℕ) (connection : Connection) (s : State) (ws ns : List Connection)
    → IsOwned limit s ws ns
    → s.stopping ≡ false
    → s.owned_count < capacity s
    → s.admission_enabled ≡ false
    → IsOwned limit (accept_connection connection s) (ws ++ connection ∷ []) ns
unfolding accept_connection
accept-direct limit connection s ws ns v going room plain =
    let joined = length-append ws (connection ∷ []) in
    let count = v.counted going in
    let same = length-enqueue s.ready connection in
    rw (accept_connection, plain)
      (record {
        size = same ∙ v.size;
        ready = enqueue-Holds s.ready ws connection v.ready (omega (arith, count, room));
        accepted = v.accepted;
        same_size = v.same_size ∙ sym same;
        admission_size = v.admission_size ∙ rw plain refl;
        bounded = omega (arith, room, same);
        counted = λ _. omega (arith, joined, count);
        direct = λ _. v.direct plain;
      })

-- The oldest connection of the queue goes to a worker.
pub dequeue_ready-IsOwned :
    (limit : ℕ) (s : State) (connection : Connection) (ws ns : List Connection)
    → IsOwned limit s (connection ∷ ws) ns
    → s.stopping ≡ false
    → (next : State) × (dequeue_ready s ≡ some (connection, next)) × IsOwned limit next ws ns
unfolding dequeue_ready
dequeue_ready-IsOwned limit s connection ws ns v going =
    let (ring, taken, holds, same) = dequeue-Holds s.ready connection ws v.ready in
    let count = v.counted going in
    (
      record s { ready = ring; owned_count = s.owned_count - 1 },
      rw (dequeue_ready, taken) refl,
      record {
        size = same ∙ v.size;
        ready = holds;
        accepted = v.accepted;
        same_size = v.same_size ∙ sym same;
        admission_size =
            v.admission_size ∙ ap (λ n. if s.admission_enabled then n else 0) (sym same);
        bounded = omega (arith, v.bounded, same);
        counted = λ _. omega (arith, count);
        direct = v.direct;
      },
    )

-- A free slot is found where one is free.
pub place_free_lem :
    (entry : AdmissionEntry) (slots : List (Option AdmissionEntry))
    → occupied slots < length slots
    → (placed : List (Option AdmissionEntry)) × (place_free entry slots ≡ some placed)
      × (occupied placed ≡ occupied slots + 1)
      × (length placed ≡ length slots)
unfolding place_free
place_free_lem entry [] h = absurd (omega (arith, h))
place_free_lem entry (none ∷ slots) h = (some entry ∷ slots, refl, omega arith, refl)
place_free_lem entry (some other ∷ slots) h =
    let (placed, found, more, same) = place_free_lem entry slots (omega (arith, h)) in
    (some other ∷ placed, rw found refl, omega (arith, more), ap suc same)
