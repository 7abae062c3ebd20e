-- ===== src/Base/Bits.antt =====
-- Single bits of a word: `w & (1 << i)`, `w | (1 << i)` and `w &^ (1 << i)`, for every width.
-- Go's `w &^ m` is written `w ^ (w & m)`.
use Prim.Native.Nat.{
  ℕ, zero, suc, ◌+◌, ◌-◌, ◌*◌, ◌/◌, ◌%◌, ◌^◌, ◌≤◌, min, max, bit_and, bit_or, bit_xor, digits,
  differ, bit_and-bitwise, bit_or-bitwise, bit_xor-bitwise,
}
use mathlib.Core.Path.{◌≡◌, refl, ap, ◌∙◌}
use mathlib.Core.Bool.{Bool, true, false, not}
use native.Mathlib.Nat.{pow-suc}
use native.Mathlib.Omega.{arith}
use gdns_server.Base.Tests.{◌==◌, if◌then◌else◌}

abbrev pub bit_clear : ℕ → ℕ → ℕ
bit_clear w m = bit_xor w (bit_and w m)

abbrev pub test_bit : ℕ → ℕ → Bool
test_bit w i = not (bit_and w (2 ^ i) == 0)

-- With enough fuel the digit recursion does not depend on it.
module _ (z : ℕ → ℕ) (f : ℕ → ℕ → ℕ) where
  digits_enough : (k l w m : ℕ) → w ≤ k → w ≤ l → digits z f k w m ≡ digits z f l w m
  digits_enough zero zero w m p q = refl
  digits_enough zero (suc l) zero m p q = refl
  digits_enough (suc k) zero zero m p q = refl
  digits_enough (suc k) (suc l) zero m p q = refl
  digits_enough zero l (suc w) m p q = absurd (omega arith)
  digits_enough (suc k) zero (suc w) m p q = absurd (omega arith)
  digits_enough (suc k) (suc l) (suc w) m p q =
      rw (digits_enough k l (suc w / 2) (m / 2) (omega arith) (omega arith))

and_low : (w m : ℕ) → bit_and w m ≡ bit_and (w / 2) (m / 2) * 2 + min (w % 2) (m % 2)
and_low zero m = omega (arith, bit_and-bitwise 0 m, bit_and-bitwise 0 (m / 2))
and_low (suc w) m = omega (
  arith,
  bit_and-bitwise (suc w) m,
  bit_and-bitwise (suc w / 2) (m / 2),
  digits_enough (λ b. zero) min w (suc w / 2) (suc w / 2) (m / 2) (omega arith) (omega arith),
)

or_low : (w m : ℕ) → bit_or w m ≡ bit_or (w / 2) (m / 2) * 2 + max (w % 2) (m % 2)
or_low zero m = omega (arith, bit_or-bitwise 0 m, bit_or-bitwise 0 (m / 2))
or_low (suc w) m = omega (
  arith,
  bit_or-bitwise (suc w) m,
  bit_or-bitwise (suc w / 2) (m / 2),
  digits_enough (λ b. b) max w (suc w / 2) (suc w / 2) (m / 2) (omega arith) (omega arith),
)

differ-eq : (x y : ℕ) → differ x y ≡ (x - y) + (y - x)
differ-eq zero y = omega arith
differ-eq (suc x) zero = omega arith
differ-eq (suc x) (suc y) = omega (arith, differ-eq x y)

xor_low :
    (w m : ℕ) → bit_xor w m ≡ bit_xor (w / 2) (m / 2) * 2 + ((w % 2 - m % 2) + (m % 2 - w % 2))
xor_low zero m = omega (arith, bit_xor-bitwise 0 m, bit_xor-bitwise 0 (m / 2))
xor_low (suc w) m = omega (
  arith,
  bit_xor-bitwise (suc w) m,
  bit_xor-bitwise (suc w / 2) (m / 2),
  differ-eq (suc w % 2) (m % 2),
  digits_enough (λ b. b) differ w (suc w / 2) (suc w / 2) (m / 2) (omega arith) (omega arith),
)

zero_mask : (k w : ℕ) → w ≤ k → (bit_and w 0 ≡ 0) × (bit_or w 0 ≡ w) × (bit_xor w 0 ≡ w)
zero_mask k zero h = (refl, refl, refl)
zero_mask zero (suc w) h = absurd (omega arith)
zero_mask (suc k) (suc w) h =
    let (a, o, x) = zero_mask k (suc w / 2) (omega arith) in
    (
      omega (arith, and_low (suc w) 0, a),
      omega (arith, or_low (suc w) 0, o),
      omega (arith, xor_low (suc w) 0, x),
    )

clear_low :
    (w m : ℕ) → bit_clear w m ≡ bit_clear (w / 2) (m / 2) * 2 + (w % 2 - min (w % 2) (m % 2))
clear_low w m =
    let below : bit_and w m / 2 ≡ bit_and (w / 2) (m / 2) = omega (arith, and_low w m) in
    let half : bit_xor (w / 2) (bit_and w m / 2) ≡ bit_clear (w / 2) (m / 2) =
      ap (bit_xor (w / 2)) below in
    omega (arith, xor_low w (bit_and w m), and_low w m, half)

-- The lowest bit, and the bits above it.
test_bit-zero : (w : ℕ) → test_bit w 0 ≡ (w % 2 == 1)
test_bit-zero w = ground (arith, and_low w 1, zero_mask (w / 2) (w / 2))

test_bit-suc : (w i : ℕ) → test_bit w (suc i) ≡ test_bit (w / 2) i
test_bit-suc w i =
    let e : 2 ^ suc i / 2 ≡ 2 ^ i = omega (arith, pow-suc 2 i) in
    ground (arith, and_low w (2 ^ suc i), pow-suc 2 i, ap (bit_and (w / 2)) e)

or_zero_half : (w : ℕ) → (bit_or w 1 / 2 ≡ w / 2) × (bit_or w 1 % 2 ≡ 1)
or_zero_half w = omega (arith, or_low w 1, zero_mask (w / 2) (w / 2))

or_suc_half :
    (w i : ℕ)
    → (bit_or w (2 ^ suc i) / 2 ≡ bit_or (w / 2) (2 ^ i)) × (bit_or w (2 ^ suc i) % 2 ≡ w % 2)
or_suc_half w i =
    let e : 2 ^ suc i / 2 ≡ 2 ^ i = omega (arith, pow-suc 2 i) in
    omega (arith, or_low w (2 ^ suc i), pow-suc 2 i, ap (bit_or (w / 2)) e)

clear_zero_half : (w : ℕ) → (bit_clear w 1 / 2 ≡ w / 2) × (bit_clear w 1 % 2 ≡ 0)
clear_zero_half w =
    let z : bit_clear (w / 2) 0 ≡ w / 2 =
      ap (bit_xor (w / 2)) (zero_mask (w / 2) (w / 2) (omega arith)).0
      ∙ (zero_mask (w / 2) (w / 2) (omega arith)).2 in
    omega (arith, clear_low w 1, z)

clear_suc_half :
    (w i : ℕ)
    → (bit_clear w (2 ^ suc i) / 2 ≡ bit_clear (w / 2) (2 ^ i))
      × (bit_clear w (2 ^ suc i) % 2 ≡ w % 2)
clear_suc_half w i =
    let e : 2 ^ suc i / 2 ≡ 2 ^ i = omega (arith, pow-suc 2 i) in
    omega (arith, clear_low w (2 ^ suc i), pow-suc 2 i, ap (bit_clear (w / 2)) e)

-- Setting bit `i` sets it and changes no other bit.
pub test_bit-or :
    (w i j : ℕ) → test_bit (bit_or w (2 ^ i)) j ≡ (if i == j then true else test_bit w j)
test_bit-or w zero zero = rw test_bit-zero (ground (arith, or_zero_half w))
test_bit-or w zero (suc j) =
    rw (test_bit-suc, (or_zero_half w).0, ← test_bit-suc w j) (ground arith)
test_bit-or w (suc i) zero =
    rw (test_bit-zero, (or_suc_half w i).1, ← test_bit-zero w) (ground arith)
test_bit-or w (suc i) (suc j) =
    rw (test_bit-suc, (or_suc_half w i).0, test_bit-or (w / 2) i j, ← test_bit-suc w j)
      (ground arith)

-- Clearing bit `i` clears it and changes no other bit.
pub test_bit-clear :
    (w i j : ℕ) → test_bit (bit_clear w (2 ^ i)) j ≡ (if i == j then false else test_bit w j)
test_bit-clear w zero zero = rw test_bit-zero (ground (arith, clear_zero_half w))
test_bit-clear w zero (suc j) =
    rw (test_bit-suc, (clear_zero_half w).0, ← test_bit-suc w j) (ground arith)
test_bit-clear w (suc i) zero =
    rw (test_bit-zero, (clear_suc_half w i).1, ← test_bit-zero w) (ground arith)
test_bit-clear w (suc i) (suc j) =
    rw (test_bit-suc, (clear_suc_half w i).0, test_bit-clear (w / 2) i j, ← test_bit-suc w j)
      (ground arith)

pub test_bit-none : (j : ℕ) → test_bit 0 j ≡ false
test_bit-none j = ground (arith, bit_and-bitwise 0 (2 ^ j))
