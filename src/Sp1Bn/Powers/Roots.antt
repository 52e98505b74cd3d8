-- ===== src/Sp1Bn/Powers/Roots.antt =====
-- `compute_powers` and `calculate_roots_of_unity` of crates/sp1-bn-verifier/src/helpers.rs.
use native.Mathlib.Decide.{ℕ_discrete}
use hokulea.Base.{
  ℕ, zero, suc, ◌+◌, ◌-◌, ◌/◌, ◌^◌, ◌≤◌, ◌<◌, ◌≡◌, ◌≢◌, ◌↔◌, refl, ap, sym, ◌∙◌, true, false, some,
  List, [], ◌∷◌, ◌++◌, ok, length, length-append, take-append, get_elem?, get_elem?-append,
  get_elem?-append_last, arith, ltb, ◌==◌, Bool-cases, inl, inr,
}
use hokulea.Base.Powers.{pow-pos}
use hokulea.Sp1Bn.{Substrate}
use hokulea.Sp1Bn.Consts.{mainnet_srs_g1_size, get_primitive_root_of_unity}
use hokulea.Sp1Bn.Powers.{
  push_powers, compute_powers, expand_loop, expand_root_of_unity, calculate_roots_of_unity,
}
use hokulea.Sp1Bn.Powers.Words.{
  IsLeastPower, next_power_of_two-least, IsLeastPower-unique, IsLeastPower-bound,
  trailing_zeros-pow,
}

module _ (s : Substrate) where
  open s use {Fr, fr_one, fr_mul, fr_eq}

  unfoldable pub power : Fr → ℕ → Fr
  power base zero = fr_one
  power base (suc i) = fr_mul (power base i) base

  -- `[base^0, .., base^(count - 1)]`
  unfoldable pub powers : Fr → ℕ → List Fr
  powers base zero = []
  powers base (suc count) = powers base count ++ power base count ∷ []

  pub length-powers : (base : Fr) (count : ℕ) → length (powers base count) ≡ count
  unfolding powers
  length-powers base zero = refl
  length-powers base (suc count) =
      omega
        (arith, length-append (powers base count) (power base count ∷ []), length-powers base count)

  push_powers_lem :
      (base : Fr) (count i : ℕ)
      → push_powers s base count (power base i) (powers base i) ≡ powers base (i + count)
  unfolding push_powers power powers
  push_powers_lem base zero i = ap (λ (k : ℕ). powers base k) i_plus_zero
    where
      i_plus_zero : i ≡ i + 0
      i_plus_zero = omega arith
  push_powers_lem base (suc count) i =
      let shift : suc i + count ≡ i + suc count = omega arith in
      push_powers_lem base count (suc i) ∙ ap (λ (k : ℕ). powers base k) shift

  -- `compute_powers` gives the powers of the base, from the power 0.
  pub compute_powers_lem : (base : Fr) (count : ℕ) → compute_powers s base count ≡ powers base count
  unfolding compute_powers power powers
  compute_powers_lem base count =
      let from_zero : 0 + count ≡ count = omega arith in
      push_powers_lem base count 0 ∙ ap (λ (k : ℕ). powers base k) from_zero

  get_elem?-powers :
      (base : Fr) (count i : ℕ) → i < count → get_elem? (powers base count) i ≡ some (power base i)
  unfolding powers
  get_elem?-powers base zero i h = absurd (omega arith)
  get_elem?-powers base (suc count) i h = elim (ℕ_discrete i count) [
    | yes e ↦ rw e (
        get_elem?-append_last count (powers base count) (power base count)
          (length-powers base count))
    | no ne ↦
        get_elem?-append (powers base count) (power base count ∷ []) i
          (omega (arith, length-powers base count))
        ∙ get_elem?-powers base count i (omega arith)
  ]

  -- The powers of the root return to one at `order`, and not before.
  abbrev pub HasOrder : Fr → ℕ → Type 0
  HasOrder root order =
      (power root order ≡ fr_one) × ((i : ℕ) → 0 < i → i < order → power root i ≢ fr_one)

  module _ (fr_eq_iff : (a b : Fr) → (fr_eq a b ≡ true) ↔ (a ≡ b)) where
    fr_eq-false : (a b : Fr) → a ≢ b → fr_eq a b ≡ false
    fr_eq-false a b ne = elim (Bool-cases (fr_eq a b)) [
      | inl same ↦ absurd (ne ((fr_eq_iff a b).0 same))
      | inr differ ↦ differ
    ]

    expand_loop_lem :
        (root : Fr) (order rounds i : ℕ)
        → HasOrder root order
        → 0 < i
        → i ≤ order
        → order < i + rounds
        → expand_loop s root rounds i (powers root (suc i)) ≡ ok (powers root (suc order))
    unfolding expand_loop powers power
    expand_loop_lem root order zero i has pos le enough = absurd (omega arith)
    expand_loop_lem root order (suc rounds) i has pos le enough = elim (ℕ_discrete i order) [
      | yes e ↦
          let back = ap (power root) e ∙ has.0 in
          rw (
            get_elem?-powers root (suc i) i (omega arith),
            (fr_eq_iff (power root i) fr_one).1 back,
            e,
          )
      | no ne ↦
          let onwards = fr_eq-false (power root i) fr_one (has.1 i pos (omega arith)) in
          rw (expand_loop, get_elem?-powers root (suc i) i (omega arith), onwards)
            (ap (λ (k : ℕ). expand_loop s root rounds k (powers root (suc (suc i)))) next
              ∙ expand_loop_lem root order rounds (suc i) has (omega arith) (omega arith)
                  (omega arith))
    ]
      where
        next : i + 1 ≡ suc i
        next = omega arith

    expand_root_of_unity_lem :
        (root : Fr) (order : ℕ)
        → fr_mul fr_one root ≡ root
        → HasOrder root order
        → 0 < order
        → order ≤ mainnet_srs_g1_size
        → expand_root_of_unity s root ≡ ok (powers root (suc order))
    unfolding expand_root_of_unity powers power
    expand_root_of_unity_lem root order one_mul has pos small =
        ap (λ x. expand_loop s root mainnet_srs_g1_size 1 (fr_one ∷ x ∷ [])) (sym one_mul)
        ∙ expand_loop_lem root order mainnet_srs_g1_size 1 has (omega arith) pos (omega arith)

    -- For data of up to `2 ^ 28` elements, and at least one, where the root that is found has as
    -- its order the least power of two that reaches the number of elements, and 1 times it is
    -- itself: the loop ends, and the roots of unity are the powers of that root, each once.
    pub calculate_roots_of_unity_lem :
        (size k : ℕ) (root : Fr)
        → 0 < size
        → (size + 31) / 32 ≤ mainnet_srs_g1_size
        → IsLeastPower ((size + 31) / 32) k
        → get_primitive_root_of_unity s k ≡ ok (some root)
        → fr_mul fr_one root ≡ root
        → HasOrder root (2 ^ k)
        → calculate_roots_of_unity s size ≡ ok (powers root (2 ^ k))
    unfolding calculate_roots_of_unity powers
    calculate_roots_of_unity_lem size k root pos small least found one_mul has =
        let (j, e, least') = next_power_of_two-least ((size + 31) / 32) in
        let same = IsLeastPower-unique _ j k least' least in
        let target = e ∙ ap (λ (i : ℕ). 2 ^ i) same in
        let nonempty : (size == 0) ≡ false = ground arith in
        let fits : ltb mainnet_srs_g1_size ((size + 31) / 32) ≡ false = ground arith in
        let expanded =
          expand_root_of_unity_lem root (2 ^ k) one_mul has (pow-pos k)
            (IsLeastPower-bound _ k least small) in
        let roots = length-powers root (suc (2 ^ k)) in
        let dropped : suc (2 ^ k) - 1 ≡ 2 ^ k = omega arith in
        rw (nonempty, fits, target, trailing_zeros-pow k, found, expanded, roots, dropped)
          (ap ok (take-append (2 ^ k) (powers root (2 ^ k)) _ (length-powers root (2 ^ k))))
