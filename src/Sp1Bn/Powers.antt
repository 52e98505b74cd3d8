-- ===== src/Sp1Bn/Powers.antt =====
-- crates/sp1-bn-verifier/src/helpers.rs: powers of a field element, roots of unity, and the standard
-- library's `next_power_of_two` and `trailing_zeros` of a `usize`.
pub mod Words
pub mod Roots
use hokulea.Base.{
  ℕ, zero, suc, ◌+◌, ◌-◌, ◌*◌, ◌/◌, ◌%◌, Bool, true, false, not, Option, none, some, List, [], ◌∷◌,
  ◌++◌, Outcome, ok, err, panic, ◌>>=◌, or_panic, ltb, ◌==◌, if◌then◌else◌, length, take, get_elem?,
}
use hokulea.Sp1Bn.{KzgError, generic_error, Substrate, ok_or}
use hokulea.Sp1Bn.Consts.{bytes_per_field_element, mainnet_srs_g1_size, get_primitive_root_of_unity}

-- The power of two is doubled until it reaches `n`; `n` rounds are enough.
unfoldable pub grow : ℕ → ℕ → ℕ → ℕ
grow zero p n = p
grow (suc f) p n = elim (ltb p n) [ true ↦ grow f (2 * p) n | false ↦ p ]

unfoldable pub next_power_of_two : ℕ → ℕ
unfolding grow
next_power_of_two n = grow n 1 n

-- The trailing zeros of a positive number, with as many rounds.
unfoldable pub halve : ℕ → ℕ → ℕ
halve zero n = 0
halve (suc f) n = elim (n % 2 == 0) [ true ↦ suc (halve f (n / 2)) | false ↦ 0 ]

unfoldable pub trailing_zeros : ℕ → ℕ
unfolding halve
trailing_zeros n = halve n n

module _ (s : Substrate) where
  open s use {Fr, fr_one, fr_mul, fr_eq}

  -- the loop, from the power `current`
  unfoldable pub push_powers : Fr → ℕ → Fr → List Fr → List Fr
  push_powers base zero current powers = powers
  push_powers base (suc count) current powers =
      push_powers base count (fr_mul current base) (powers ++ current ∷ [])

  unfoldable pub compute_powers : Fr → ℕ → List Fr
  unfolding push_powers
  compute_powers base count = push_powers base count fr_one []

  -- the `while` loop, with the rounds that its bound on `i` leaves
  unfoldable pub expand_loop : Fr → ℕ → ℕ → List Fr → Outcome KzgError (List Fr)
  expand_loop root zero i roots = ok roots
  expand_loop root (suc rounds) i roots = do
    cur ← or_panic (get_elem? roots i)
    elim (fr_eq cur fr_one) [
      | true ↦ ok roots
      | false ↦ expand_loop root rounds (i + 1) (roots ++ fr_mul cur root ∷ [])
    ]

  unfoldable pub expand_root_of_unity : Fr → Outcome KzgError (List Fr)
  unfolding expand_loop
  expand_root_of_unity root =
      let max_iter = mainnet_srs_g1_size + 1 in
      expand_loop root (max_iter - 1) 1 (fr_one ∷ root ∷ [])

  unfoldable pub calculate_roots_of_unity : ℕ → Outcome KzgError (List Fr)
  unfolding expand_root_of_unity next_power_of_two trailing_zeros
  calculate_roots_of_unity length_of_data_after_padding =
      let n_field_elements =
        (length_of_data_after_padding + (bytes_per_field_element - 1)) / bytes_per_field_element in
      let target = next_power_of_two n_field_elements in
      let log2 = trailing_zeros target in
      let expanded = do
        found ← get_primitive_root_of_unity s log2
        root ← ok_or (generic_error "power must be <= 28") found
        roots ← expand_root_of_unity root
        ok (take (length roots - 1) roots)
      in if length_of_data_after_padding == 0
        then err (generic_error "Length of data after padding is 0")
        else if ltb mainnet_srs_g1_size n_field_elements
        then err (generic_error "Length exceeds SRS")
        else expanded
