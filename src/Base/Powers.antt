-- ===== src/Base/Powers.antt =====
-- The bit trick `n & (n - 1)`, and powers of two.
use Prim.Native.Nat.{ℕ, zero, suc, ◌+◌, ◌-◌, ◌*◌, ◌/◌, ◌%◌, ◌^◌, ◌≤◌, ◌<◌, min, bit_and}
use Prim.Native.Nat.{digits, bit_and-bitwise}
use mathlib.Core.Path.{◌≡◌, refl, ap}
use mathlib.Core.Logic.{◌≢◌}
use native.Mathlib.Nat.{pow-suc}
use native.Mathlib.Decide.{ℕ_discrete}
use native.Mathlib.Omega.{arith}

abbrev digitwise : ℕ → ℕ → ℕ → ℕ
digitwise n a b = digits (λ b. zero) min n a b

-- the digit recursion gives the same with any fuel that reaches its end
digitwise_enough : (n m a b : ℕ) → a ≤ n → a ≤ m → digitwise n a b ≡ digitwise m a b
digitwise_enough zero zero a b p q = refl
digitwise_enough zero (suc m) zero b p q = refl
digitwise_enough zero (suc m) (suc a) b p q = absurd (omega arith)
digitwise_enough (suc n) zero zero b p q = refl
digitwise_enough (suc n) zero (suc a) b p q = absurd (omega arith)
digitwise_enough (suc n) (suc m) zero b p q = refl
digitwise_enough (suc n) (suc m) (suc a) b p q =
    omega (arith, digitwise_enough n m (suc a / 2) (b / 2) (omega arith) (omega arith))

zero-bit_and : (b : ℕ) → bit_and 0 b ≡ 0
zero-bit_and b = bit_and-bitwise 0 b

pub bit_and-halves : (a b : ℕ) → bit_and a b ≡ bit_and (a / 2) (b / 2) * 2 + min (a % 2) (b % 2)
bit_and-halves zero b = omega (arith, zero-bit_and b, zero-bit_and (b / 2))
bit_and-halves (suc a) b = omega (
  arith,
  bit_and-bitwise (suc a) b,
  bit_and-bitwise (suc a / 2) (b / 2),
  digitwise_enough a (suc a / 2) (suc a / 2) (b / 2) (omega arith) (omega arith),
)

bit_and_self : (k n : ℕ) → n ≤ k → bit_and n n ≡ n
bit_and_self k zero h = zero-bit_and 0
bit_and_self zero (suc n) h = absurd (omega arith)
bit_and_self (suc k) (suc n) h =
    omega (arith, bit_and-halves (suc n) (suc n), bit_and_self k (suc n / 2) (omega arith))

-- An even number and its predecessor share the bits of their halves.
bit_and-pred_even :
    (n : ℕ) → n % 2 ≡ 0 → 0 < n → bit_and n (n - 1) ≡ bit_and (n / 2) (n / 2 - 1) * 2
bit_and-pred_even n even p = omega (arith, bit_and-halves n (n - 1), ap (bit_and (n / 2)) pred_half)
  where
    pred_half : (n - 1) / 2 ≡ n / 2 - 1
    pred_half = omega arith

-- An odd number and its predecessor share all bits but the lowest.
bit_and-pred_odd : (n : ℕ) → n % 2 ≢ 0 → bit_and n (n - 1) ≡ n - 1
bit_and-pred_odd n odd = omega (
  arith,
  bit_and-halves n (n - 1),
  ap (bit_and (n / 2)) pred_half,
  bit_and_self (n / 2) (n / 2) (omega arith),
)
  where
    pred_half : (n - 1) / 2 ≡ n / 2
    pred_half = omega arith

-- A number that shares no bit with its predecessor is a power of two.
pub pow_of_bit_and-pred : (k n : ℕ) → n ≤ k → 0 < n → bit_and n (n - 1) ≡ 0 → (j : ℕ) × (n ≡ 2 ^ j)
pow_of_bit_and-pred zero n h p e = absurd (omega arith)
pow_of_bit_and-pred (suc k) n h p e = elim (ℕ_discrete (n % 2) 0) [
  | yes even ↦
      let (j, q) =
        pow_of_bit_and-pred k (n / 2) (omega arith) (omega arith)
          (omega (arith, bit_and-pred_even n even p)) in
      (suc j, omega (arith, pow-suc 2 j))
  | no odd ↦ (0, omega (arith, bit_and-pred_odd n odd))
]

pub pow-pos : (j : ℕ) → 0 < 2 ^ j
pow-pos zero = omega arith
pow-pos (suc j) = omega (arith, pow-suc 2 j, pow-pos j)

pub bit_and-pred_pow : (j : ℕ) → bit_and (2 ^ j) (2 ^ j - 1) ≡ 0
bit_and-pred_pow zero = refl
bit_and-pred_pow (suc j) = omega (
  arith,
  bit_and-pred_even (2 ^ suc j) (omega (arith, pow-suc 2 j)) (pow-pos (suc j)),
  ap (λ (t : ℕ). bit_and t (t - 1)) half,
  bit_and-pred_pow j,
)
  where
    half : 2 ^ suc j / 2 ≡ 2 ^ j
    half = omega (arith, pow-suc 2 j)
