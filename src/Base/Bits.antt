-- ===== src/Base/Bits.antt =====
-- Facts about `bit_and` and `bit_or` by a mask: over a byte from a table of all values, and the law
-- for joining a shifted number with a short one.
use Prim.Native.Nat.{
  ℕ, zero, suc, ◌+◌, ◌*◌, ◌/◌, ◌%◌, ◌≤◌, ◌<◌, min, max, bit_and, bit_or, digits, bitwise,
  bit_or-bitwise, bit_and-bitwise,
}
use mathlib.Core.Path.{◌≡◌, refl}
use mathlib.Core.Bool.{Bool, true, false, ◌&&◌}
use native.Mathlib.Omega.{arith}
use spare_node.Base.Tests.{◌==◌, ==_iff}

-- The test holds at every number below the bound.
unfoldable pub holds_below : (ℕ → Bool) → ℕ → Bool
holds_below test zero = true
holds_below test (suc bound) = holds_below test bound && test bound

pub holds_below-at :
    (test : ℕ → Bool) (bound i : ℕ) → i < bound → holds_below test bound ≡ true → test i ≡ true
unfolding holds_below
holds_below-at test zero i below all = absurd (omega (arith, below))
holds_below-at test (suc bound) i below all =
    ground (arith, below, all, holds_below-at test bound i)

-- Two functions that agree at every number below the bound.
pub agree_below :
    (n : ℕ) (f g : ℕ → ℕ) (x : ℕ) → holds_below (λ y. f y == g y) n ≡ true → x < n → f x ≡ g x
agree_below n f g x h lt = (==_iff (f x) (g x)).0 (holds_below-at (λ y. f y == g y) n x lt h)

abbrev same : Bool → Bool → Bool
same true b = b
same false true = false
same false false = true

same-eq : (a b : Bool) → same a b ≡ true → a ≡ b
same-eq a b h = ground arith

pub tests_agree_below :
    (n : ℕ) (f g : ℕ → Bool) (x : ℕ)
    → holds_below (λ y. same (f y) (g y)) n ≡ true
    → x < n
    → f x ≡ g x
tests_agree_below n f g x h lt =
    same-eq (f x) (g x) (holds_below-at (λ y. same (f y) (g y)) n x lt h)

-- Any count of digits from the first number on gives the same result.
module _ (z : ℕ → ℕ) (f : ℕ → ℕ → ℕ) where
  digits_count :
      (x y fewer more : ℕ) → x ≤ fewer → fewer ≤ more → digits z f fewer x y ≡ digits z f more x y
  digits_count zero y zero zero h k = refl
  digits_count zero y zero (suc more) h k = refl
  digits_count zero y (suc fewer) zero h k = refl
  digits_count zero y (suc fewer) (suc more) h k = refl
  digits_count (suc x) y zero more h k = absurd (omega arith)
  digits_count (suc x) y (suc fewer) zero h k = absurd (omega arith)
  digits_count (suc x) y (suc fewer) (suc more) h k =
      omega (arith, digits_count (suc x / 2) (y / 2) fewer more (omega arith) (omega arith))

  -- The lowest digit of the result is that of the lowest digits.
  bitwise-suc :
      (x y : ℕ)
      → bitwise z f (suc x) y ≡ bitwise z f (suc x / 2) (y / 2) * 2 + f (suc x % 2) (y % 2)
  bitwise-suc x y =
      omega (arith, digits_count (suc x / 2) (y / 2) (suc x / 2) x (omega arith) (omega arith))

or_step : (x y : ℕ) → bit_or x y ≡ bit_or (x / 2) (y / 2) * 2 + max (x % 2) (y % 2)
or_step zero y = omega (arith, bit_or-bitwise 0 y, bit_or-bitwise 0 (y / 2))
or_step (suc x) y = omega (
  arith,
  bit_or-bitwise (suc x) y,
  bit_or-bitwise (suc x / 2) (y / 2),
  bitwise-suc (λ t. t) max x y,
)

and_step : (x y : ℕ) → bit_and x y ≡ bit_and (x / 2) (y / 2) * 2 + min (x % 2) (y % 2)
and_step zero y = omega (arith, bit_and-bitwise 0 y, bit_and-bitwise 0 (y / 2))
and_step (suc x) y = omega (
  arith,
  bit_and-bitwise (suc x) y,
  bit_and-bitwise (suc x / 2) (y / 2),
  bitwise-suc (λ t. 0) min x y,
)

bit_or-zero_below : (bound x : ℕ) → x ≤ bound → bit_or x 0 ≡ x
bit_or-zero_below bound zero h = refl
bit_or-zero_below zero (suc x) h = absurd (omega arith)
bit_or-zero_below (suc bound) (suc x) h =
    omega (arith, or_step (suc x) 0, bit_or-zero_below bound (suc x / 2) (omega arith))

bit_and-zero_below : (bound x : ℕ) → x ≤ bound → bit_and x 0 ≡ 0
bit_and-zero_below bound zero h = refl
bit_and-zero_below zero (suc x) h = absurd (omega arith)
bit_and-zero_below (suc bound) (suc x) h =
    omega (arith, and_step (suc x) 0, bit_and-zero_below bound (suc x / 2) (omega arith))

shift_or : (q p r : ℕ) → q ≡ p * 2 → bit_or q r ≡ bit_or p (r / 2) * 2 + r % 2
shift_or q p r h = ground (arith, or_step q r)

-- `(q << 6) | r` for six low bits `r`.
pub bit_or_six : (q r : ℕ) → r < 64 → bit_or (q * 64) r ≡ q * 64 + r
bit_or_six q r h = ground (
  arith,
  shift_or (q * 64) (q * 32) r (omega arith),
  shift_or (q * 32) (q * 16) (r / 2) (omega arith),
  shift_or (q * 16) (q * 8) (r / 2 / 2) (omega arith),
  shift_or (q * 8) (q * 4) (r / 2 / 2 / 2) (omega arith),
  shift_or (q * 4) (q * 2) (r / 2 / 2 / 2 / 2) (omega arith),
  shift_or (q * 2) q (r / 2 / 2 / 2 / 2 / 2) (omega arith),
  bit_or-zero_below q q (omega arith),
)

-- The mask of the six low bits.
pub bit_and_six : (x : ℕ) → bit_and x 0x3F ≡ x % 64
bit_and_six x = omega (
  arith,
  and_step x 63,
  and_step (x / 2) 31,
  and_step (x / 2 / 2) 15,
  and_step (x / 2 / 2 / 2) 7,
  and_step (x / 2 / 2 / 2 / 2) 3,
  and_step (x / 2 / 2 / 2 / 2 / 2) 1,
  bit_and-zero_below (x / 2 / 2 / 2 / 2 / 2 / 2) (x / 2 / 2 / 2 / 2 / 2 / 2) (omega arith),
)
