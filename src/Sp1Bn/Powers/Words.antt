-- ===== src/Sp1Bn/Powers/Words.antt =====
-- `next_power_of_two` and `trailing_zeros`, as crates/sp1-bn-verifier/src/helpers.rs uses them.
use native.Mathlib.Nat.{pow-suc, le_of_eq}
use native.Mathlib.Decide.{ℕ_discrete, dec_lt}
use hokulea.Base.{
  ℕ, zero, suc, ◌+◌, ◌*◌, ◌/◌, ◌%◌, ◌^◌, ◌≤◌, ◌<◌, ◌≡◌, refl, ap, ltb, ◌==◌, Bool-cases, inl, inr,
  arith, tests, true,
}
use hokulea.Base.Powers.{pow-pos}
use hokulea.Sp1Bn.Powers.{grow, next_power_of_two, halve, trailing_zeros}

-- The least power of two that reaches `n` has the exponent `k`.
abbrev pub IsLeastPower : ℕ → ℕ → Type 0
IsLeastPower n k = (n ≤ 2 ^ k) × ((i : ℕ) → i < k → 2 ^ i < n)

below_suc : (n j : ℕ) → ((i : ℕ) → i < j → 2 ^ i < n) → 2 ^ j < n → (i : ℕ) → i < suc j → 2 ^ i < n
below_suc n j below here i h = elim (ℕ_discrete i j) [
  | yes e ↦ rw e here
  | no ne ↦ below i (omega arith)
]

grow-least :
    (f j n : ℕ)
    → n ≤ f + 2 ^ j
    → ((i : ℕ) → i < j → 2 ^ i < n)
    → (k : ℕ) × (grow f (2 ^ j) n ≡ 2 ^ k) × IsLeastPower n k
unfolding grow
grow-least zero j n h below = (j, refl, (omega arith, below))
grow-least (suc f) j n h below = elim (Bool-cases (ltb (2 ^ j) n)) [
  | inl more ↦
      let here : 2 ^ j < n = omega tests in
      let doubled : 2 * 2 ^ j ≡ 2 ^ suc j = omega (arith, pow-suc 2 j) in
      let (k, e, least) =
        grow-least f (suc j) n (omega (arith, pow-suc 2 j, pow-pos j)) (below_suc n j below here) in
      (k, rw (grow, more, doubled) e, least)
  | inr enough ↦ (j, rw (grow, enough), (omega tests, below))
]

pub next_power_of_two-least : (n : ℕ) → (k : ℕ) × (next_power_of_two n ≡ 2 ^ k) × IsLeastPower n k
unfolding next_power_of_two
next_power_of_two-least n = grow-least n 0 n (omega arith) (λ i h. absurd (omega arith))

halve-pow : (f k : ℕ) → k ≤ f → halve f (2 ^ k) ≡ k
unfolding halve
halve-pow zero zero h = refl
halve-pow zero (suc k) h = absurd (omega arith)
halve-pow (suc f) zero h = refl
halve-pow (suc f) (suc k) h =
    let even : (2 ^ suc k % 2 == 0) ≡ true = ground (arith, pow-suc 2 k) in
    let half : 2 ^ suc k / 2 ≡ 2 ^ k = omega (arith, pow-suc 2 k) in
    rw (halve, even, half) (ap suc (halve-pow f k (omega arith)))

le-pow : (k : ℕ) → k ≤ 2 ^ k
le-pow zero = omega arith
le-pow (suc k) = omega (arith, le-pow k, pow-suc 2 k, pow-pos k)

pub trailing_zeros-pow : (k : ℕ) → trailing_zeros (2 ^ k) ≡ k
unfolding trailing_zeros
trailing_zeros-pow k = halve-pow (2 ^ k) k (le-pow k)

pub pow_mono : (j k : ℕ) → j ≤ k → 2 ^ j ≤ 2 ^ k
pow_mono j zero h = ap-le j (omega arith)
  where
    ap-le : (j : ℕ) → j ≡ 0 → 2 ^ j ≤ 2 ^ 0
    ap-le zero e = omega arith
    ap-le (suc j) e = absurd (omega arith)
pow_mono j (suc k) h = elim (ℕ_discrete j (suc k)) [
  | yes e ↦ le_of_eq (ap (λ (i : ℕ). 2 ^ i) e)
  | no ne ↦ omega (arith, pow_mono j k (omega arith), pow-suc 2 k)
]

pub IsLeastPower-unique : (n j k : ℕ) → IsLeastPower n j → IsLeastPower n k → j ≡ k
IsLeastPower-unique n j k (reach_j, below_j) (reach_k, below_k) = elim (dec_lt j k) [
  | yes h ↦ absurd (omega (arith, below_k j h))
  | no h ↦ elim (dec_lt k j) [ yes h' ↦ absurd (omega (arith, below_j k h')) | no h' ↦ omega arith ]
]

-- Up to the size `2 ^ 28` the power is no larger.
pub IsLeastPower-bound : (n k : ℕ) → IsLeastPower n k → n ≤ 2 ^ 28 → 2 ^ k ≤ 2 ^ 28
IsLeastPower-bound n k (reach, below) h = elim (dec_lt 28 k) [
  | yes above ↦ absurd (omega (arith, below 28 above))
  | no within ↦ pow_mono k 28 (omega arith)
]
