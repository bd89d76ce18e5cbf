-- ===== src/Network/Dispatcher/Admission.antt =====
-- The admission gate of src/network/connection_dispatcher.cpp: how a connection's first bytes are
-- gathered, when it is passed on, and the dispatcher's configuration.
use spare_node.Base.{
  ℕ, ◌+◌, ◌-◌, Bool, true, false, not, ◌||◌, List, [], ◌∷◌, ◌++◌, Option, none, some, Bytes, Result,
  ok, err, ltb, leb, ◌==◌, if◌then◌else◌, length, drop, get_elem?, min,
}
use spare_node.Base.Views.{find_text}
use spare_node.Network.Ring.{set}
use spare_node.Network.Dispatcher.{
  AdmissionEntry, AdmissionOptions, DispatchError, DispatchErrorCode, invalid_worker_count,
  invalid_pending_connection_limit, missing_connection_handler, invalid_admission_config, State,
  start, release_admission,
}

abbrev pub is_found : Option ℕ → Bool
is_found none = false
is_found (some i) = true

-- `search_from`; a marker is not empty.
abbrev pub search_from : AdmissionOptions → ℕ → ℕ
search_from options previous_size =
    let overlap = length options.completion_marker - 1 in
    if ltb overlap previous_size then previous_size - overlap else 0

-- `prefix_complete`.
unfoldable pub prefix_complete : AdmissionOptions → Bytes → ℕ → Bool
unfolding find_text
prefix_complete options prefix previous_size =
    is_found (find_text options.completion_marker (drop (search_from options previous_size) prefix))

-- What `receive_socket` answers, once it is not interrupted.
pub data Received : Type 0 where
  received : Bytes → Received
  would_block failed : Received

-- The entry behind a receive of some bytes, at a time.
unfoldable pub grown : ℕ → Bytes → AdmissionEntry → AdmissionEntry
grown now [] entry = entry
grown now (byte ∷ bytes) entry = record {
  connection = record entry.connection { last_receive_progress = now };
  prefix = entry.prefix ++ byte ∷ bytes;
  last_progress = now;
  accepted = entry.accepted;
}

abbrev pub put_entry : ℕ → AdmissionEntry → State → State
put_entry index entry s = record s { admissions = set s.admissions index (some entry) }

-- `inspect_admission` on an entry and the bytes received; `promote` stands for its first part.
unfoldable pub receive_bytes : AdmissionOptions → ℕ → Bytes → ℕ → AdmissionEntry → State → State
unfolding grown prefix_complete
receive_bytes options now bytes index entry s =
    let next = grown now bytes entry in
    if length bytes == 0
      || length next.prefix == options.max_prefix_bytes
      || prefix_complete options next.prefix (length entry.prefix)
    then release_admission index (put_entry index next s)
    else put_entry index next s

unfoldable pub inspect_admission : AdmissionOptions → ℕ → Received → ℕ → State → State
unfolding receive_bytes
inspect_admission options now answer index s = elim (get_elem? s.admissions index) [
  | none ↦ s
  | some none ↦ s
  | some (some entry) ↦ elim answer [
    | received bytes ↦ receive_bytes options now bytes index entry s
    | would_block ↦ s
    | failed ↦ release_admission index s
  ]
]

abbrev pub deadline_of : AdmissionOptions → AdmissionEntry → ℕ
deadline_of options entry =
    min (entry.last_progress + options.inactivity_timeout) (entry.accepted + options.total_timeout)

abbrev pub sooner : Option ℕ → ℕ → ℕ
sooner none deadline = deadline
sooner (some result) deadline = min result deadline

-- The loop of `next_admission_deadline`, from the result so far.
unfoldable pub deadline_from : AdmissionOptions → Option ℕ → List (Option AdmissionEntry) → Option ℕ
deadline_from options result [] = result
deadline_from options result (none ∷ slots) = deadline_from options result slots
deadline_from options result (some entry ∷ slots) =
    deadline_from options (some (sooner result (deadline_of options entry))) slots

unfoldable pub next_admission_deadline : AdmissionOptions → State → Option ℕ
unfolding deadline_from
next_admission_deadline options s = deadline_from options none s.admissions

-- The test of `promote_expired` on a slot.
unfoldable pub expired : AdmissionOptions → ℕ → Option AdmissionEntry → Bool
expired options now none = false
expired options now (some entry) =
    leb (entry.last_progress + options.inactivity_timeout) now
    || leb (entry.accepted + options.total_timeout) now

-- The part of `ConnectionDispatcherConfig` that `create` checks.
pub record Config : Type 0 where
  pub worker_count : ℕ
  pub pending_connection_limit : ℕ
  pub has_handler : Bool
  pub admission : Option AdmissionOptions

-- `admission_enabled_`.
abbrev pub is_enabled : Option AdmissionOptions → Bool
is_enabled none = false
is_enabled (some options) = true

abbrev pub invalid_admission : AdmissionOptions → Bool
invalid_admission options =
    options.max_prefix_bytes == 0
    || length options.completion_marker == 0
    || ltb options.max_prefix_bytes (length options.completion_marker)
    || options.inactivity_timeout == 0
    || options.total_timeout == 0

abbrev pub refuse : DispatchErrorCode → Result State DispatchError
refuse code = err (record { code = code; native_code = 0 })

-- `create`, where the system starts the threads; durations are not negative.
unfoldable pub create : Config → Result State DispatchError
create config =
    if config.worker_count == 0
    then refuse invalid_worker_count
    else if config.pending_connection_limit == 0
    then refuse invalid_pending_connection_limit
    else if not config.has_handler
    then refuse missing_connection_handler
    else elim config.admission [
      | none ↦ ok (start config.pending_connection_limit false)
      | some options ↦
          if invalid_admission options
          then refuse invalid_admission_config
          else ok (start config.pending_connection_limit true)
    ]
