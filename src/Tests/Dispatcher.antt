-- ===== src/Tests/Dispatcher.antt =====
-- The connection dispatcher with room for two connections.
use spare_node.Base.{
  ◌≤◌, true, false, List, [], ◌∷◌, ◌++◌, none, some, ◌≡◌, ◌≢◌, ◌||◌, refl, arith, ok, length, codes,
  ◌==◌, if◌then◌else◌,
}
use spare_node.Base.Views.{find_text, starts_with}
use spare_node.Network.Ring.{Holds, set, enqueue, dequeue}
use spare_node.Network.Dispatcher.{
  Connection, AdmissionEntry, AdmissionOptions, State, start, submit, worker_step, terminates,
  drain_accepted, replayed, fresh_entry,
}
use spare_node.Network.Dispatcher.Admission.{
  Config, create, received, grown, inspect_admission, prefix_complete,
}
use spare_node.Network.Dispatcher.Steps.{
  Reaches, here, onward, submits, drains, inspects, Owned, Reaches-Owned, create-never_terminates,
}
use spare_node.Network.Dispatcher.Fifo.{Log, started, submitted, taken, Log-first_in_first_out}
use spare_node.Network.Dispatcher.Marker.{has_text, prefix_complete_lem}
use spare_node.Network.Dispatcher.Replay.{inspect_admission-received}

abbrev client : Connection
client = record {
  socket = some 5;
  accepted_at = 100;
  last_receive_progress = 100;
  prefetched = [];
  prefetched_offset = 0;
}

abbrev options : AdmissionOptions
options = record {
  max_prefix_bytes = 16;
  completion_marker = codes "\r\n\r\n";
  inactivity_timeout = 10;
  total_timeout = 30;
}

abbrev config : Config
config = record {
  worker_count = 1;
  pending_connection_limit = 2;
  has_handler = true;
  admission = some options;
}

-- Behind a call of `submit` with the gate, and the round of the admission thread that follows.
abbrev accepted_one : State
accepted_one = record (start 2 true) {
  accepted = record { slots = some client ∷ (none ∷ []); head = 0; count = 1 };
  owned_count = 1;
}

abbrev admitted_entry : AdmissionEntry
admitted_entry = record {
  connection = client;
  prefix = codes "GET\r";
  last_progress = 105;
  accepted = 100;
}

abbrev admitted_one : State
admitted_one = record (start 2 true) {
  admissions = none ∷ (some admitted_entry ∷ []);
  owned_count = 1;
}

submitted_one : Reaches (start 2 true) accepted_one
unfolding start submit enqueue
submitted_one = onward here (submits false false client (ok tt) refl)

-- The newcomer moves to admission, and some bytes of it are received there.
abbrev drained_one : State
drained_one = record (start 2 true) {
  accepted = record { slots = none ∷ (none ∷ []); head = 1; count = 0 };
  admissions = some (fresh_entry client) ∷ (none ∷ []);
  owned_count = 1;
}

abbrev inspected_one : State
inspected_one = inspect_admission options 108 (received (codes "GET\r")) 0 drained_one

drained : drain_accepted accepted_one ≡ some (true, drained_one)
unfolding start drain_accepted dequeue
drained = refl

inspected : Reaches (start 2 true) inspected_one
unfolding start
inspected =
    onward (onward submitted_one (drains true refl drained))
      (inspects options 108 (received (codes "GET\r")) 0 refl)

gathered : inspected_one ≡ record drained_one {
  admissions =
      some (record (fresh_entry client) {
        connection = record client { last_receive_progress = 108 };
        prefix = codes "GET\r";
        last_progress = 108;
      })
      ∷ (none ∷ []);
}
unfolding start inspect_admission find_text starts_with
gathered = refl

Reaches-Owned_example : Owned 2 inspected_one
Reaches-Owned_example = Reaches-Owned 2 true (omega arith) inspected

created : create config ≡ ok (start 2 true)
unfolding create
created = refl

create-never_terminates_example :
    (worker_step false inspected_one ≢ terminates) × (drain_accepted inspected_one ≢ none)
create-never_terminates_example = create-never_terminates config false created inspected

-- Without the gate: one connection comes in and goes out.
abbrev queued_one : State
queued_one = record (start 2 false) {
  ready = record { slots = some client ∷ (none ∷ []); head = 0; count = 1 };
  owned_count = 1;
}

abbrev served_one : State
served_one = record (start 2 false) {
  ready = record { slots = none ∷ (none ∷ []); head = 1; count = 0 };
}

served : Log 2 served_one (client ∷ []) (client ∷ [])
unfolding start submit worker_step enqueue dequeue
served = taken false client (submitted false false client started refl) refl

Log-first_in_first_out_example :
    (ws : List Connection) × (client ∷ [] ≡ client ∷ [] ++ ws)
    × (length ws ≤ 2)
    × Holds served_one.ready ws
Log-first_in_first_out_example = Log-first_in_first_out 2 (omega arith) served

nothing_yet : has_text options.completion_marker (codes "GET\r") ≡ false
unfolding find_text starts_with
nothing_yet = refl

prefix_complete_lem_example :
    prefix_complete options (codes "GET\r" ++ codes "\n\r\n") (length (codes "GET\r"))
    ≡ has_text options.completion_marker (codes "GET\r" ++ codes "\n\r\n")
prefix_complete_lem_example =
    prefix_complete_lem options (codes "GET\r") (codes "\n\r\n") (omega arith) nothing_yet

inspect_admission-received_example :
    let whole = admitted_entry.prefix ++ codes "\n\r\n" in
    let next = grown 108 (codes "\n\r\n") admitted_entry in
    (next.prefix ≡ whole)
    × (inspect_admission options 108 (received (codes "\n\r\n")) 1 admitted_one ≡ (
        if length (codes "\n\r\n") == 0
          || length whole == options.max_prefix_bytes
          || has_text options.completion_marker whole
        then record admitted_one {
          admissions = set admitted_one.admissions 1 none;
          moving = some (replayed next);
        }
        else record admitted_one { admissions = set admitted_one.admissions 1 (some next) }))
inspect_admission-received_example =
    inspect_admission-received options 108 (codes "\n\r\n") 1 admitted_entry admitted_one
      (omega arith) refl nothing_yet
