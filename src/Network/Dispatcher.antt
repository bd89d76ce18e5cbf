-- ===== src/Network/Dispatcher.antt =====
-- src/network/connection_dispatcher.cpp: the state that the submitting threads, the workers and the
-- admission thread share, and what each of them does to it in one critical section. Sockets, wake
-- channels and handlers are left out: what the system answers is an argument.
pub mod Ownership
pub mod Transfers
pub mod Inspection
pub mod Steps
pub mod Fifo
pub mod Admission
pub mod Marker
pub mod Replay
use spare_node.Base.{
  ℕ, zero, suc, ◌+◌, ◌-◌, Bool, true, false, not, ◌&&◌, ◌||◌, List, [], ◌∷◌, ◌++◌, Option, none,
  some, Bytes, Result, ok, err, ltb, leb, ◌==◌, if◌then◌else◌, length, take, drop, get_elem?, map,
  min,
}
use spare_node.Base.Views.{find_text}
use spare_node.Network.Ring.{Ring, set, enqueue, dequeue}

-- `TcpConnection`; `socket` names it, and none stands for a connection that is not open.
pub record Connection : Type 0 where
  pub socket : Option ℕ
  pub accepted_at : ℕ
  pub last_receive_progress : ℕ
  pub prefetched : Bytes
  pub prefetched_offset : ℕ

pub record AdmissionEntry : Type 0 where
  pub connection : Connection
  pub prefix : Bytes
  pub last_progress : ℕ
  pub accepted : ℕ

-- `ConnectionAdmissionOptions`, durations in milliseconds.
pub record AdmissionOptions : Type 0 where
  pub max_prefix_bytes : ℕ
  pub completion_marker : Bytes
  pub inactivity_timeout : ℕ
  pub total_timeout : ℕ

pub data DispatchErrorCode : Type 0 where
  invalid_worker_count invalid_pending_connection_limit missing_connection_handler :
      DispatchErrorCode
  invalid_connection stopped cancelled worker_start_failed : DispatchErrorCode
  resource_allocation_failed invalid_admission_config admission_start_failed : DispatchErrorCode

pub record DispatchError : Type 0 where
  pub code : DispatchErrorCode
  pub native_code : ℕ

-- `moving` is the local connection of `promote`, between its two parts.
pub record State : Type 0 where
  pub admission_enabled : Bool
  pub ready : Ring Connection
  pub accepted : Ring Connection
  pub admissions : List (Option AdmissionEntry)
  pub owned_count : ℕ
  pub stopping : Bool
  pub moving : Option Connection

abbrev pub replicate {ℓ} : {A : Type ℓ} → ℕ → A → List A
replicate zero a = []
replicate (suc n) a = a ∷ replicate n a

-- The constructor of `Impl`.
unfoldable pub start : ℕ → Bool → State
start limit enabled = record {
  admission_enabled = enabled;
  ready = record { slots = replicate limit none; head = 0; count = 0 };
  accepted = record { slots = replicate limit none; head = 0; count = 0 };
  admissions = if enabled then replicate limit none else [];
  owned_count = 0;
  stopping = false;
  moving = none;
}

abbrev pub capacity : State → ℕ
capacity s = length s.ready.slots

abbrev pub failing : DispatchErrorCode → State → Option (State × Result (Unit {0}) DispatchError)
failing code s = some (s, err (record { code = code; native_code = 0 }))

abbrev pub enqueue_ready : Connection → State → State
enqueue_ready connection s = record s { ready = enqueue connection s.ready }

-- Behind the wait of `submit`, with the lock held.
unfoldable pub accept_connection : Connection → State → State
accept_connection connection s =
    if s.admission_enabled
    then record s { owned_count = s.owned_count + 1; accepted = enqueue connection s.accepted }
    else enqueue_ready connection (record s { owned_count = s.owned_count + 1 })

-- `submit`: whether a stop was requested before the call and by the end of the wait. None where the
-- wait goes on.
unfoldable pub submit :
    Bool → Bool → Connection → State → Option (State × Result (Unit {0}) DispatchError)
unfolding accept_connection
submit stop_before stop_waiting connection s = elim connection.socket [
  | none ↦ failing invalid_connection s
  | some _ ↦
      if stop_before
      then failing cancelled s
      else if not (s.stopping || ltb s.owned_count (capacity s))
      then (if stop_waiting then failing cancelled s else none)
      else if s.stopping
      then failing stopped s
      else some (accept_connection connection s, ok tt)
]

abbrev pub emptied : Ring Connection → Ring Connection
emptied r = record { slots = map (λ slot. none) r.slots; head = 0; count = 0 }

-- The critical section of `request_stop`.
unfoldable pub request_stop : State → State
request_stop s = if s.stopping then s else record s {
  stopping = true;
  ready = emptied s.ready;
  accepted = emptied s.accepted;
  owned_count = 0;
}

-- `dequeue`; none where the program terminates.
unfoldable pub dequeue_ready : State → Option (Connection × State)
dequeue_ready s = elim (dequeue s.ready) [
  | none ↦ none
  | some (connection, ready) ↦
      some (connection, record s { ready = ready; owned_count = s.owned_count - 1 })
]

-- A round of `worker_loop` up to the handler.
pub data WorkerStep : Type 0 where
  waits returns terminates : WorkerStep
  takes : Connection → State → WorkerStep

unfoldable pub worker_step : Bool → State → WorkerStep
unfolding dequeue_ready
worker_step stop_requested s =
    if not (s.stopping || ltb 0 s.ready.count)
    then (if stop_requested then returns else waits)
    else if s.stopping
    then returns
    else elim (dequeue_ready s) [
      | none ↦ terminates
      | some (connection, next) ↦ takes connection next
    ]

-- `find_if` of a free slot and `emplace` there; none where there is none.
unfoldable pub place_free :
    AdmissionEntry → List (Option AdmissionEntry) → Option (List (Option AdmissionEntry))
place_free entry [] = none
place_free entry (none ∷ slots) = some (some entry ∷ slots)
place_free entry (some other ∷ slots) = elim (place_free entry slots) [
  | none ↦ none
  | some placed ↦ some (some other ∷ placed)
]

abbrev pub fresh_entry : Connection → AdmissionEntry
fresh_entry connection = record {
  connection = connection;
  prefix = [];
  last_progress = connection.accepted_at;
  accepted = connection.accepted_at;
}

-- A round of `drain_accepted`; none where the program terminates.
unfoldable pub drain_one : State → Option State
unfolding place_free
drain_one s = elim (dequeue s.accepted) [
  | none ↦ none
  | some (connection, accepted) ↦ elim (place_free (fresh_entry connection) s.admissions) [
    | none ↦ none
    | some placed ↦ some (record s { accepted = accepted; admissions = placed })
  ]
]

-- The loop, which runs as often as there are accepted connections.
unfoldable pub drain_rounds : ℕ → State → Option State
unfolding drain_one
drain_rounds zero s = some s
drain_rounds (suc n) s = elim (drain_one s) [ none ↦ none | some next ↦ drain_rounds n next ]

-- `drain_accepted`.
unfoldable pub drain_accepted : State → Option (Bool × State)
unfolding drain_rounds
drain_accepted s =
    if s.stopping
    then some (false, s)
    else elim (drain_rounds s.accepted.count s) [ none ↦ none | some next ↦ some (true, next) ]

abbrev pub replayed : AdmissionEntry → Connection
replayed entry = record entry.connection { prefetched = entry.prefix; prefetched_offset = 0 }

-- `promote` up to its lock.
unfoldable pub release_admission : ℕ → State → State
release_admission index s = elim (get_elem? s.admissions index) [
  | some (some entry) ↦ record s {
    admissions = set s.admissions index none;
    moving = some (replayed entry);
  }
  | some none ↦ s
  | none ↦ s
]

-- `promote` under its lock.
unfoldable pub enqueue_promoted : State → State
enqueue_promoted s = elim s.moving [
  | none ↦ s
  | some connection ↦
      if s.stopping
      then record s { moving = none }
      else record (enqueue_ready connection s) { moving = none }
]

-- The end of `admission_loop`.
unfoldable pub end_admission : State → State
end_admission s = record s { admissions = map (λ slot. none) s.admissions }
