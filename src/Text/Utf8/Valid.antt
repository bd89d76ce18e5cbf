-- ===== src/Text/Utf8/Valid.antt =====
-- A valid input is a sequence of encoded scalar values.
use mathlib.Core.List.{append-nil, append_assoc}
use spare_node.Base.{
  drop-append_length, ℕ, zero, suc, ◌≤◌, ◌<◌, true, false, List, [], ◌∷◌, ◌++◌, ◌≡◌, refl, sym, ◌∙◌,
  arith, Bytes, inl, inr, some, length, All, All-append, drop, ◌↔◌, Option-cases, length-append, ap,
  subst,
}
use spare_node.Text.Utf8.{
  DecodedScalar, decode_one, is_scalar_value, encode, valid_from, is_valid, append_code_point,
}
use spare_node.Text.Utf8.RoundTrip.{IsByte, decode_one-encode}
use spare_node.Text.Utf8.Sound.{decode_one_sound}

abbrev pub IsScalar : ℕ → Type 0
IsScalar v = is_scalar_value v ≡ true

-- The text that `append_code_point` builds from these code points, from an empty string.
abbrev pub append_all : List ℕ → Bytes
append_all [] = []
append_all (v ∷ vs) = encode v ++ append_all vs

All-append_right {ℓ κ} :
    {A : Type ℓ} (P : A → Type κ) (xs ys : List A) → All P (xs ++ ys) → All P ys
All-append_right P [] ys h = h
All-append_right P (x ∷ xs) ys h = All-append_right P xs ys h.1

length-encode_pos : (v : ℕ) → 0 < length (encode v)
unfolding encode
length-encode_pos v = ground arith

-- One round of the loop, at an input that decodes.
valid_from-decoded :
    (fuel : ℕ) (input : Bytes) (s : DecodedScalar)
    → decode_one input ≡ some s
    → valid_from (suc fuel) input ≡ valid_from fuel (drop s.byte_count input)
unfolding valid_from decode_one
valid_from-decoded fuel [] s e = absurd (cc)
valid_from-decoded fuel (b ∷ input) s e = rw (e, valid_from)

valid_from-append_all :
    (fuel : ℕ) (vs : List ℕ)
    → All IsScalar vs
    → length (append_all vs) ≤ fuel
    → valid_from fuel (append_all vs) ≡ true
unfolding valid_from
valid_from-append_all zero [] k h = refl
valid_from-append_all (suc fuel) [] k h = refl
valid_from-append_all zero (v ∷ vs) k h =
    absurd (omega (arith, length-append (encode v) (append_all vs), length-encode_pos v, h))
valid_from-append_all (suc fuel) (v ∷ vs) k h =
    valid_from-decoded fuel _ _ (decode_one-encode v (append_all vs) k.0)
    ∙ rw (drop-append_length (encode v) (append_all vs)) (
        valid_from-append_all fuel vs k.1
          (omega (arith, length-append (encode v) (append_all vs), length-encode_pos v, h)))

-- The bytes are the encodings of some scalar values, one after the other.
abbrev pub IsScalars : Bytes → Type 0
IsScalars input = (vs : List ℕ) × All IsScalar vs × (input ≡ append_all vs)

valid_from-IsScalars :
    (fuel : ℕ) (input : Bytes) → All IsByte input → valid_from fuel input ≡ true → IsScalars input
unfolding valid_from
valid_from-IsScalars zero [] k h = ([], tt, refl)
valid_from-IsScalars zero (b ∷ input) k h = absurd (cc)
valid_from-IsScalars (suc fuel) [] k h = ([], tt, refl)
valid_from-IsScalars (suc fuel) (b ∷ input) k h = elim (Option-cases (decode_one (b ∷ input))) [
  | inl refused ↦ absurd (ground (arith, refused))
  | inr (s, decoded) ↦
      let (tail, (scalar, counted, splits)) = decode_one_sound (b ∷ input) s k decoded in
      let dropped : drop s.byte_count (b ∷ input) ≡ tail =
        rw (counted, splits) (drop-append_length (encode s.value) tail) in
      let rest : valid_from fuel tail ≡ true = rw (← dropped) (ground (arith, decoded)) in
      let (vs, scalars, e) =
        valid_from-IsScalars fuel tail
          (All-append_right IsByte (encode s.value) tail (subst (All IsByte) splits k)) rest in
      (s.value ∷ vs, (scalar, scalars), rw splits (ap (λ t. encode s.value ++ t) e))
]

-- `is_valid` accepts a string of bytes exactly if `append_code_point` could have built it from
-- some sequence of scalar values.
pub is_valid_iff : (input : Bytes) → All IsByte input → (is_valid input ≡ true) ↔ IsScalars input
unfolding is_valid
is_valid_iff input k = (
  valid_from-IsScalars (length input) input k,
  λ (vs, scalars, e).
      subst (λ t. valid_from (length t) t ≡ true) (sym e)
        (valid_from-append_all (length (append_all vs)) vs scalars (omega arith)),
)

append_all-concat : (vs : List ℕ) (v : ℕ) → append_all (vs ++ v ∷ []) ≡ append_all vs ++ encode v
append_all-concat [] v = append-nil (encode v)
append_all-concat (w ∷ vs) v =
    rw (append_all-concat vs v) (sym (append_assoc (encode w) (append_all vs) (encode v)))

append_code_point-IsScalars :
    (output : Bytes) (v : ℕ)
    → is_scalar_value v ≡ true
    → IsScalars output
    → ((append_code_point output v).1 ≡ true) × IsScalars (append_code_point output v).0
unfolding append_code_point
append_code_point-IsScalars output v good (vs, scalars, e) = (
  ground arith,
  (
    vs ++ v ∷ [],
    All-append IsScalar vs (v ∷ []) scalars (good, tt),
    rw good (rw e (sym (append_all-concat vs v))),
  ),
)

-- `append_code_point` refuses exactly what is no scalar value and then leaves the output as it
-- was; otherwise it succeeds on valid UTF-8 and leaves valid UTF-8.
append_code_point_lem :
    (output : Bytes) (v : ℕ)
    → (is_scalar_value v ≡ false → append_code_point output v ≡ (output, false))
      × (is_scalar_value v ≡ true
          → IsScalars output
          → ((append_code_point output v).1 ≡ true) × IsScalars (append_code_point output v).0)
unfolding append_code_point
append_code_point_lem output v =
    (λ bad. ground arith, λ good scalars. append_code_point-IsScalars output v good scalars)
