-- ===== src/Network/Dispatcher/Inspection.antt =====
-- src/network/connection_dispatcher.cpp: a receive of the admission thread, and its end, keep the
-- counts of the dispatcher.
use spare_node.Base.{
  ℕ, zero, suc, true, List, [], ◌∷◌, Option, none, some, ◌≡◌, ◌∙◌, inl, inr, if_both, arith, Bytes,
  get_elem?, Option-cases,
}
use spare_node.Network.Ring.{set, length-set}
use spare_node.Network.Dispatcher.{
  Connection, AdmissionEntry, AdmissionOptions, State, release_admission, end_admission,
}
use spare_node.Network.Dispatcher.Admission.{
  Received, received, would_block, failed, grown, put_entry, receive_bytes, inspect_admission,
}
use spare_node.Network.Dispatcher.Ownership.{IsOwned, occupied}
use spare_node.Network.Dispatcher.Transfers.{length-emptied, release_admission-IsOwned}

occupied-replaced :
    {A : Type 0} (slots : List (Option A)) (i : ℕ) (a b : A)
    → get_elem? slots i ≡ some (some a)
    → occupied (set slots i (some b)) ≡ occupied slots
occupied-replaced [] i a b h = absurd (cc)
occupied-replaced (slot ∷ slots) zero a b h = ground (arith, h)
occupied-replaced (slot ∷ slots) (suc i) a b h = omega (arith, occupied-replaced slots i a b h)

-- A connection in admission stays in its slot.
put_entry-IsOwned :
    (limit index : ℕ) (entry next : AdmissionEntry) (s : State) (ws ns : List Connection)
    → IsOwned limit s ws ns
    → get_elem? s.admissions index ≡ some (some entry)
    → IsOwned limit (put_entry index next s) ws ns
put_entry-IsOwned limit index entry next s ws ns v taken = record {
  size = v.size;
  ready = v.ready;
  accepted = v.accepted;
  same_size = v.same_size;
  admission_size = length-set s.admissions index (some next) ∙ v.admission_size;
  bounded = v.bounded;
  counted = λ going.
      omega (arith, v.counted going, occupied-replaced s.admissions index entry next taken);
  direct = v.direct;
}

receive_bytes-IsOwned :
    (limit : ℕ) (options : AdmissionOptions) (now : ℕ) (bytes : Bytes) (index : ℕ)
    (entry : AdmissionEntry) (s : State) (ws ns : List Connection)
    → IsOwned limit s ws ns
    → s.moving ≡ none
    → get_elem? s.admissions index ≡ some (some entry)
    → IsOwned limit (receive_bytes options now bytes index entry s) ws ns
unfolding receive_bytes
receive_bytes-IsOwned limit options now bytes index entry s ws ns v still taken =
    let next = grown now bytes entry in
    let put = put_entry-IsOwned limit index entry next s ws ns v taken in
    if_both (λ (t : State). IsOwned limit t ws ns) _
      (release_admission index (put_entry index next s)) (put_entry index next s)
      (release_admission-IsOwned limit index (put_entry index next s) ws ns put still) put

taken-IsOwned :
    (limit : ℕ) (options : AdmissionOptions) (now : ℕ) (answer : Received) (index : ℕ)
    (entry : AdmissionEntry) (s : State) (ws ns : List Connection)
    → IsOwned limit s ws ns
    → s.moving ≡ none
    → get_elem? s.admissions index ≡ some (some entry)
    → IsOwned limit (inspect_admission options now answer index s) ws ns
unfolding inspect_admission
taken-IsOwned limit options now would_block index entry s ws ns v still taken =
    rw (inspect_admission, taken) v
taken-IsOwned limit options now failed index entry s ws ns v still taken =
    rw (inspect_admission, taken) (release_admission-IsOwned limit index s ws ns v still)
taken-IsOwned limit options now (received bytes) index entry s ws ns v still taken =
    rw (inspect_admission, taken)
      (receive_bytes-IsOwned limit options now bytes index entry s ws ns v still taken)

-- Whatever a receive answers, the connection is still counted once.
pub inspect_admission-IsOwned :
    (limit : ℕ) (options : AdmissionOptions) (now : ℕ) (answer : Received) (index : ℕ) (s : State)
    (ws ns : List Connection)
    → IsOwned limit s ws ns
    → s.moving ≡ none
    → IsOwned limit (inspect_admission options now answer index s) ws ns
unfolding inspect_admission
inspect_admission-IsOwned limit options now answer index s ws ns v still =
    elim (Option-cases (get_elem? s.admissions index)) [
      | inl out ↦ rw (inspect_admission, out) v
      | inr (none, empty) ↦ rw (inspect_admission, empty) v
      | inr (some entry, taken) ↦
          taken-IsOwned limit options now answer index entry s ws ns v still taken
    ]

-- After a stop the admission thread closes what it still has.
pub end_admission-IsOwned :
    (limit : ℕ) (s : State) (ws ns : List Connection)
    → IsOwned limit s ws ns
    → s.stopping ≡ true
    → IsOwned limit (end_admission s) ws ns
unfolding end_admission
end_admission-IsOwned limit s ws ns v stopped = record {
  size = v.size;
  ready = v.ready;
  accepted = v.accepted;
  same_size = v.same_size;
  admission_size = length-emptied s.admissions ∙ v.admission_size;
  bounded = v.bounded;
  counted = λ going. absurd (cc);
  direct = v.direct;
}
