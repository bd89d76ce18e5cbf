-- ===== src/Network/Dispatcher/Replay.antt =====
-- What a receive does to a connection in admission.
use mathlib.Core.List.{append-nil}
use spare_node.Base.{
  ℕ, ◌<◌, false, ◌||◌, [], ◌∷◌, ◌++◌, none, some, Bytes, ◌==◌, ◌≡◌, refl, sym, ap, if◌then◌else◌,
  length, get_elem?,
}
use spare_node.Network.Ring.{set, set-set, get_elem?-length, get_elem?-set_same}
use spare_node.Network.Dispatcher.{
  AdmissionEntry, AdmissionOptions, State, replayed, release_admission,
}
use spare_node.Network.Dispatcher.Admission.{
  received, grown, put_entry, receive_bytes, inspect_admission,
}
use spare_node.Network.Dispatcher.Marker.{has_text, prefix_complete_lem}

prefix-grown :
    (now : ℕ) (bytes : Bytes) (entry : AdmissionEntry)
    → (grown now bytes entry).prefix ≡ entry.prefix ++ bytes
unfolding grown
prefix-grown now [] entry = sym (append-nil entry.prefix)
prefix-grown now (byte ∷ bytes) entry = refl

-- An entry that has just been written is released.
release_admission-put_entry :
    (index : ℕ) (entry next : AdmissionEntry) (s : State)
    → get_elem? s.admissions index ≡ some (some entry)
    → release_admission index (put_entry index next s)
      ≡ record s { admissions = set s.admissions index none; moving = some (replayed next) }
unfolding release_admission
release_admission-put_entry index entry next s taken =
    let inside = get_elem?-length s.admissions index (some entry) taken in
    rw (release_admission, get_elem?-set_same s.admissions index (some next) inside)
      (ap (λ slots. record s { admissions = slots; moving = some (replayed next) })
        (set-set s.admissions index (some next) none))

-- A connection in admission whose bytes so far hold no completion marker, after it has received
-- some more: if it received none, has reached the limit, or has a marker anywhere in its bytes now,
-- it leaves its slot, with all its bytes in their order to be read again from the first; otherwise
-- it stays in its slot, with all its bytes.
pub inspect_admission-received :
    (options : AdmissionOptions) (now : ℕ) (bytes : Bytes) (index : ℕ) (entry : AdmissionEntry)
    (s : State)
    → 0 < length options.completion_marker
    → get_elem? s.admissions index ≡ some (some entry)
    → has_text options.completion_marker entry.prefix ≡ false
    → let whole = entry.prefix ++ bytes in
      let next = grown now bytes entry in
      (next.prefix ≡ whole)
      × (inspect_admission options now (received bytes) index s ≡ (
          if length bytes == 0
            || length whole == options.max_prefix_bytes
            || has_text options.completion_marker whole
          then record s { admissions = set s.admissions index none; moving = some (replayed next) }
          else record s { admissions = set s.admissions index (some next) }))
unfolding inspect_admission receive_bytes
inspect_admission-received options now bytes index entry s pos taken none_yet =
    let joined = prefix-grown now bytes entry in
    (
      joined,
      rw
          (
            inspect_admission,
            taken,
            release_admission-put_entry index entry (grown now bytes entry) s taken,
            joined,
            prefix_complete_lem options entry.prefix bytes pos none_yet,
          )
          refl,
    )
