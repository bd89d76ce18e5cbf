-- ===== src/Network/Dispatcher/Fifo.antt =====
-- Without an admission gate the dispatcher is a first-in, first-out queue between the submitting
-- threads and the workers.
use mathlib.Core.List.{append_assoc}
use spare_node.Base.{
  ℕ, ◌≤◌, ◌<◌, Bool, false, List, [], ◌∷◌, ◌++◌, some, ok, err, ◌≡◌, refl, sym, ap, subst, ◌∙◌,
  arith, length,
}
use spare_node.Network.Ring.{Holds}
use spare_node.Network.Dispatcher.{
  Connection, DispatchError, State, start, capacity, accept_connection, submit, dequeue_ready,
  takes, worker_step,
}
use spare_node.Network.Dispatcher.Ownership.{IsOwned, accept-direct, dequeue_ready-IsOwned}
use spare_node.Network.Dispatcher.Transfers.{start-IsOwned}
use spare_node.Network.Dispatcher.Steps.{worker_step_next}

-- Calls of `submit` and workers in any order, with the connections that were accepted and those
-- that were taken.
pub data Log (limit : ℕ) : State → List Connection → List Connection → Type 0 where
  started : Log limit (start limit false) [] []
  submitted :
      {s next : State} {ins outs : List Connection} (before waiting : Bool)
      (connection : Connection)
      → Log limit s ins outs
      → submit before waiting connection s ≡ some (next, ok tt)
      → Log limit next (ins ++ connection ∷ []) outs
  refused :
      {s next : State} {ins outs : List Connection} (before waiting : Bool)
      (connection : Connection) (e : DispatchError)
      → Log limit s ins outs
      → submit before waiting connection s ≡ some (next, err e)
      → Log limit next ins outs
  taken :
      {s next : State} {ins outs : List Connection} (stop : Bool) (connection : Connection)
      → Log limit s ins outs
      → worker_step stop s ≡ takes connection next
      → Log limit next ins (outs ++ connection ∷ [])

submit_ok :
    (before waiting : Bool) (connection : Connection) (s next : State)
    → submit before waiting connection s ≡ some (next, ok tt)
    → (s.stopping ≡ false) × (s.owned_count < capacity s) × (accept_connection connection s ≡ next)
unfolding submit
submit_ok before waiting connection s next h = ground (arith, h)

submit_refused :
    (before waiting : Bool) (connection : Connection) (s next : State) (e : DispatchError)
    → submit before waiting connection s ≡ some (next, err e)
    → s ≡ next
unfolding submit
submit_refused before waiting connection s next e h = ground (arith, h)

-- What is queued, and what is known of a dispatcher without an admission gate.
abbrev Queued : ℕ → State → List Connection → List Connection → Type 0
Queued limit s ins outs =
    (ws : List Connection) × IsOwned limit s ws []
    × (ins ≡ outs ++ ws)
    × (s.admission_enabled ≡ false)

-- Neither operation touches the switch.
admission_enabled-accept_connection :
    (connection : Connection) (s : State)
    → (accept_connection connection s).admission_enabled ≡ s.admission_enabled
unfolding accept_connection
admission_enabled-accept_connection connection s = ground arith

admission_enabled-dequeue_ready :
    (connection : Connection) (s next : State)
    → dequeue_ready s ≡ some (connection, next)
    → next.admission_enabled ≡ s.admission_enabled
unfolding dequeue_ready
admission_enabled-dequeue_ready connection s next h = ground (arith, h)

module _ (limit : ℕ) (s next : State) (ins outs : List Connection) (connection : Connection) where
  submitted-Queued :
      (before waiting : Bool)
      → Queued limit s ins outs
      → submit before waiting connection s ≡ some (next, ok tt)
      → Queued limit next (ins ++ connection ∷ []) outs
  submitted-Queued before waiting (ws, v, all, plain) h =
      let (going, room, same) = submit_ok before waiting connection s next h in
      (
        ws ++ connection ∷ [],
        subst (λ t. IsOwned limit t (ws ++ connection ∷ []) []) same
            (accept-direct limit connection s ws [] v going room plain),
        ap (λ l. l ++ connection ∷ []) all ∙ append_assoc outs ws (connection ∷ []),
        ap (λ (t : State). t.admission_enabled) (sym same)
            ∙ admission_enabled-accept_connection connection s
            ∙ plain,
      )

  taken-Queued :
      (stop : Bool)
      → Queued limit s ins outs
      → worker_step stop s ≡ takes connection next
      → Queued limit next ins (outs ++ connection ∷ [])
  taken-Queued stop ([], v, all, plain) h =
      let (going, some_ready, took) = worker_step_next stop connection s next h in
      absurd (omega (arith, some_ready, v.ready.counted))
  taken-Queued stop (first ∷ ws, v, all, plain) h =
      let (going, some_ready, took) = worker_step_next stop connection s next h in
      let (next', took', w) = dequeue_ready-IsOwned limit s first ws [] v going in
      let same : next' ≡ next = ground (arith, took, took') in
      let oldest : first ≡ connection = ground (arith, took, took') in
      (
        ws,
        subst (λ t. IsOwned limit t ws []) same w,
        all ∙ ap (λ c. outs ++ c ∷ ws) oldest ∙ sym (append_assoc outs (connection ∷ []) ws),
        admission_enabled-dequeue_ready connection s next took ∙ plain,
      )

started_plain : (limit : ℕ) → (start limit false).admission_enabled ≡ false
unfolding start
started_plain limit = refl

Log-Queued :
    (limit : ℕ) {s : State} {ins outs : List Connection}
    → 0 < limit
    → Log limit s ins outs
    → Queued limit s ins outs
Log-Queued limit pos started = ([], start-IsOwned limit false pos, refl, started_plain limit)
Log-Queued limit {s = next} pos (submitted {s} {ins} {outs} before waiting connection log h) =
    submitted-Queued limit s next ins outs connection before waiting (Log-Queued limit pos log) h
Log-Queued limit pos (refused {ins} {outs} before waiting connection e log h) =
    subst (λ t. Queued limit t ins outs) (submit_refused before waiting connection _ _ e h)
      (Log-Queued limit pos log)
Log-Queued limit {s = next} pos (taken {s} {ins} {outs} stop connection log h) =
    taken-Queued limit s next ins outs connection stop (Log-Queued limit pos log) h

-- Without an admission gate and before a stop, the connections that the workers have taken,
-- followed by those in the queue, of which there are no more than the capacity, are the accepted
-- ones in the order of their submission: none is lost, repeated or overtaken.
pub Log-first_in_first_out :
    (limit : ℕ) {s : State} {ins outs : List Connection}
    → 0 < limit
    → Log limit s ins outs
    → (ws : List Connection) × (ins ≡ outs ++ ws) × (length ws ≤ limit) × Holds s.ready ws
Log-first_in_first_out limit pos log =
    let (ws, v, all, plain) = Log-Queued limit pos log in
    (ws, all, omega (arith, v.ready.fits, v.size), v.ready)
