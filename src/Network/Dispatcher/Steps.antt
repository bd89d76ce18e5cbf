-- ===== src/Network/Dispatcher/Steps.antt =====
-- Every interleaving of the dispatcher's threads: the submitting threads, the workers, the
-- admission thread and whoever requests a stop.
use spare_node.Base.{
  ℕ, ◌<◌, Bool, true, false, List, [], ◌∷◌, ◌++◌, none, some, Result, ok, ◌≡◌, ◌≢◌, sym, subst, ◌⊎◌,
  inl, inr, if◌then◌else◌, arith, Bool-cases, Option-cases,
}
use spare_node.Network.Dispatcher.{
  Connection, DispatchError, State, start, capacity, accept_connection, submit, request_stop,
  dequeue_ready, takes, terminates, worker_step, drain_accepted, release_admission,
  enqueue_promoted, end_admission, AdmissionOptions,
}
use spare_node.Network.Dispatcher.Admission.{
  Received, inspect_admission, Config, create, is_enabled,
}
use spare_node.Network.Dispatcher.Ownership.{
  IsOwned, accept-admitted, accept-direct, dequeue_ready-IsOwned,
}
use spare_node.Network.Dispatcher.Inspection.{inspect_admission-IsOwned, end_admission-IsOwned}
use spare_node.Network.Dispatcher.Transfers.{
  drain_accepted-IsOwned, release_admission-IsOwned, enqueue_promoted-IsOwned, request_stop-IsOwned,
  start-IsOwned,
}

-- A critical section of one of the threads, or a receive of the admission thread on one of its
-- slots. That thread does nothing else while it moves a connection, and closes what it still has when
-- it ends, after a stop.
pub data Step : State → State → Type 0 where
  submits :
      {s next : State} (before waiting : Bool) (connection : Connection)
      (result : Result (Unit {0}) DispatchError)
      → submit before waiting connection s ≡ some (next, result)
      → Step s next
  works :
      {s next : State} (stop : Bool) (connection : Connection)
      → worker_step stop s ≡ takes connection next
      → Step s next
  drains :
      {s next : State} (goes : Bool)
      → s.moving ≡ none
      → drain_accepted s ≡ some (goes, next)
      → Step s next
  releases : {s : State} (index : ℕ) → s.moving ≡ none → Step s (release_admission index s)
  inspects :
      {s : State} (options : AdmissionOptions) (now : ℕ) (answer : Received) (index : ℕ)
      → s.moving ≡ none
      → Step s (inspect_admission options now answer index s)
  promotes : {s : State} → Step s (enqueue_promoted s)
  stops : {s : State} → Step s (request_stop s)
  ends : {s : State} → s.stopping ≡ true → Step s (end_admission s)

pub data Reaches (from : State) : State → Type 0 where
  here : Reaches from from
  onward : {s next : State} → Reaches from s → Step s next → Reaches from next

-- The queues hold something, and the counts are right.
abbrev pub Owned : ℕ → State → Type 0
Owned limit s = (ws : List Connection) × (ns : List Connection) × IsOwned limit s ws ns

-- What a call of `submit` does to the state.
submit_next :
    (before waiting : Bool) (connection : Connection) (s next : State)
    (result : Result (Unit {0}) DispatchError)
    → submit before waiting connection s ≡ some (next, result)
    → (s ≡ next)
      ⊎ ((s.stopping ≡ false)
          × (s.owned_count < capacity s)
          × (accept_connection connection s ≡ next)
          × (result ≡ ok tt))
unfolding submit
submit_next before waiting connection s next result h = ground (arith, h)

enqueue_promoted_still : (s : State) → s.moving ≡ none → s ≡ enqueue_promoted s
unfolding enqueue_promoted
enqueue_promoted_still s still = ground (arith, still)

accept_connection-Owned :
    (limit : ℕ) (connection : Connection) (s : State)
    → Owned limit s
    → s.stopping ≡ false
    → s.owned_count < capacity s
    → Owned limit (accept_connection connection s)
accept_connection-Owned limit connection s (ws, ns, v) going room =
    elim (Bool-cases s.admission_enabled) [
      | inl enabled ↦
          (ws, ns ++ connection ∷ [], accept-admitted limit connection s ws ns v going room enabled)
      | inr plain ↦
          (ws ++ connection ∷ [], ns, accept-direct limit connection s ws ns v going room plain)
    ]

submit-Owned :
    (limit : ℕ) (before waiting : Bool) (connection : Connection) (s next : State)
    (result : Result (Unit {0}) DispatchError)
    → Owned limit s
    → submit before waiting connection s ≡ some (next, result)
    → Owned limit next
submit-Owned limit before waiting connection s next result v h =
    elim (submit_next before waiting connection s next result h) [
      | inl same ↦ subst (Owned limit) same v
      | inr (going, room, same, passed) ↦
          subst (Owned limit) same (accept_connection-Owned limit connection s v going room)
    ]

-- What a worker takes is at the head of the queue.
pub worker_step_next :
    (stop : Bool) (connection : Connection) (s next : State)
    → worker_step stop s ≡ takes connection next
    → (s.stopping ≡ false) × (0 < s.ready.count) × (dequeue_ready s ≡ some (connection, next))
unfolding worker_step
worker_step_next stop connection s next h = ground (arith, h)

worker_step-Owned :
    (limit : ℕ) (stop : Bool) (connection : Connection) (s next : State)
    → Owned limit s
    → worker_step stop s ≡ takes connection next
    → Owned limit next
worker_step-Owned limit stop connection s next ([], ns, v) h =
    let (going, some_ready, taken) = worker_step_next stop connection s next h in
    absurd (omega (arith, some_ready, v.ready.counted))
worker_step-Owned limit stop connection s next (first ∷ ws, ns, v) h =
    let (going, some_ready, taken) = worker_step_next stop connection s next h in
    let (next', taken', w) = dequeue_ready-IsOwned limit s first ws ns v going in
    let same : next' ≡ next = ground (arith, taken, taken') in
    (ws, ns, subst (λ t. IsOwned limit t ws ns) same w)

drain_accepted-Owned :
    (limit : ℕ) (s next : State) (goes : Bool)
    → Owned limit s
    → drain_accepted s ≡ some (goes, next)
    → Owned limit next
drain_accepted-Owned limit s next goes (ws, ns, v) h =
    let (next', drained, w) = drain_accepted-IsOwned limit s ws ns v in
    let same : next' ≡ next = ground (arith, h, drained) in
    (
      ws,
      (if s.stopping then ns else []),
      subst (λ t. IsOwned limit t ws (if s.stopping then ns else [])) same w,
    )

enqueue_promoted-Owned : (limit : ℕ) (s : State) → Owned limit s → Owned limit (enqueue_promoted s)
enqueue_promoted-Owned limit s (ws, ns, v) = elim (Option-cases s.moving) [
  | inl still ↦ (ws, ns, subst (λ t. IsOwned limit t ws ns) (enqueue_promoted_still s still) v)
  | inr (connection, moves) ↦ (
    (if s.stopping then ws else ws ++ connection ∷ []),
    ns,
    enqueue_promoted-IsOwned limit s connection ws ns v moves,
  )
]

Step-Owned : (limit : ℕ) {s next : State} → Owned limit s → Step s next → Owned limit next
Step-Owned limit {s} {next} v (submits before waiting connection result h) =
    submit-Owned limit before waiting connection s next result v h
Step-Owned limit {s} {next} v (works stop connection h) =
    worker_step-Owned limit stop connection s next v h
Step-Owned limit {s} {next} v (drains goes still h) = drain_accepted-Owned limit s next goes v h
Step-Owned limit {s} (ws, ns, v) (releases index still) =
    (ws, ns, release_admission-IsOwned limit index s ws ns v still)
Step-Owned limit {s} (ws, ns, v) (inspects options now answer index still) =
    (ws, ns, inspect_admission-IsOwned limit options now answer index s ws ns v still)
Step-Owned limit {s} (ws, ns, v) (ends stopped) =
    (ws, ns, end_admission-IsOwned limit s ws ns v stopped)
Step-Owned limit {s} v promotes = enqueue_promoted-Owned limit s v
Step-Owned limit {s} (ws, ns, v) stops = (
  (if s.stopping then ws else []),
  (if s.stopping then ns else []),
  request_stop-IsOwned limit s ws ns v,
)

-- Whatever the threads do, and in whatever order: the queues of a dispatcher are rings that hold
-- lists of connections, and until it is stopped it counts each connection that is queued, in
-- admission or moving between the two exactly once, and never more of them than its capacity.
pub Reaches-Owned :
    (limit : ℕ) (enabled : Bool) {s : State}
    → 0 < limit
    → Reaches (start limit enabled) s
    → Owned limit s
Reaches-Owned limit enabled pos here = ([], [], start-IsOwned limit enabled pos)
Reaches-Owned limit enabled pos (onward r step) =
    Step-Owned limit (Reaches-Owned limit enabled pos r) step

worker_step-IsOwned :
    (limit : ℕ) (stop : Bool) (s : State) (ws ns : List Connection)
    → IsOwned limit s ws ns
    → worker_step stop s ≢ terminates
unfolding worker_step
worker_step-IsOwned limit stop s [] ns v h = ground (arith, h, v.ready.counted)
worker_step-IsOwned limit stop s (first ∷ ws) ns v h = elim (Bool-cases s.stopping) [
  | inl stopped ↦ ground (arith, h, stopped)
  | inr going ↦
      let (next, taken, w) = dequeue_ready-IsOwned limit s first ws ns v going in
      ground (arith, h, going, taken)
]

never_terminates :
    (limit : ℕ) (enabled stop : Bool) {s : State}
    → 0 < limit
    → Reaches (start limit enabled) s
    → (worker_step stop s ≢ terminates) × (drain_accepted s ≢ none)
never_terminates limit enabled stop {s} pos r =
    let (ws, ns, v) = Reaches-Owned limit enabled pos r in
    let (next, drained, w) = drain_accepted-IsOwned limit s ws ns v in
    (worker_step-IsOwned limit stop s ws ns v, λ h. ground (arith, h, drained))

create-start :
    (config : Config) (s : State)
    → create config ≡ ok s
    → (0 < config.pending_connection_limit)
      × (start config.pending_connection_limit (is_enabled config.admission) ≡ s)
unfolding create
create-start config s h = ground (arith, h)

-- No worker and no round of the admission thread runs into a `std::terminate` of the dispatcher:
-- whatever the threads of a dispatcher that `create` has made have done, a worker that takes a
-- connection finds one, and the admission thread finds a free slot for each newcomer.
pub create-never_terminates :
    (config : Config) (stop : Bool) {first s : State}
    → create config ≡ ok first
    → Reaches first s
    → (worker_step stop s ≢ terminates) × (drain_accepted s ≢ none)
create-never_terminates config stop {first} {s} h r =
    let (pos, same) = create-start config first h in
    never_terminates config.pending_connection_limit (is_enabled config.admission) stop pos
      (subst (λ t. Reaches t s) (sym same) r)
