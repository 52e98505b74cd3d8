-- ===== src/Sp1Bn/Polynomial.antt =====
-- crates/sp1-bn-verifier/src/helpers.rs: a polynomial in evaluation form, and its value at a point.
pub mod Padding
pub mod Total
use mathlib.Core.List.{zip}
use hokulea.Base.{
  ℕ, zero, suc, ◌+◌, ◌-◌, ◌*◌, String, Bool, true, false, not, Option, none, some, List, [], ◌∷◌,
  ◌++◌, Outcome, ok, err, panic, ◌>>=◌, ltb, ◌==◌, if◌then◌else◌, length, take, get_elem?,
  replicate,
}
use hokulea.Sp1Bn.{
  KzgError, generic_error, invalid_denominator, invalid_input_length, Substrate, ok_or,
}
use hokulea.Sp1Bn.Bytes.{fr_from_usize}
use hokulea.Sp1Bn.Consts.{bytes_per_field_element, mainnet_srs_g1_size}
use hokulea.Sp1Bn.Powers.{next_power_of_two, calculate_roots_of_unity}

pub record PolynomialEvalForm (Fr : Type 0) : Type 0 where
  pub evaluations : List Fr
  pub len_underlying_blob_bytes : ℕ

-- `Vec::resize`
unfoldable pub resize : {A : Type 0} → List A → ℕ → A → List A
resize items n a = take n items ++ replicate (n - length items) a

-- `iter().position(test)`, from the index `i`
unfoldable pub position : {A : Type 0} → (A → Bool) → ℕ → List A → Option ℕ
position test i [] = none
position test i (item ∷ items) = if test item then some i else position test (i + 1) items

module _ (s : Substrate) where
  open s use {Fr, fr_zero, fr_one, fr_add, fr_sub, fr_mul, fr_pow, fr_eq, fr_is_zero, fr_inverse}

  -- `PolynomialEvalForm::new`
  unfoldable pub new : List Fr → Outcome KzgError (PolynomialEvalForm Fr)
  unfolding resize
  new evals =
      if ltb mainnet_srs_g1_size (length evals)
      then err (generic_error "Input size exceeds maximum polynomial size")
      else ok (record {
        evaluations = resize evals (next_power_of_two (length evals)) fr_zero;
        len_underlying_blob_bytes = length evals * bytes_per_field_element;
      })

  unfoldable pub len : PolynomialEvalForm Fr → ℕ
  len polynomial = length polynomial.evaluations

  -- the loop that adds up the terms
  unfoldable pub barycentric_sum : Fr → List (Fr × Fr) → Fr → Outcome KzgError Fr
  barycentric_sum z [] sum = ok sum
  barycentric_sum z ((f_i, domain_i) ∷ terms) sum =
      let a = fr_mul f_i domain_i in
      let b = fr_sub z domain_i in
      let rest = do
        inverse ← ok_or invalid_denominator (fr_inverse b)
        barycentric_sum z terms (fr_add sum (fr_mul a inverse))
      in if fr_is_zero b
        then err (generic_error "Division by zero in barycentric evaluation")
        else rest

  -- the value behind the test on lengths, outside the roots or at the root of index `idx`
  unfoldable pub evaluate_at :
      PolynomialEvalForm Fr → Fr → List Fr → Fr → Option ℕ → Outcome KzgError Fr
  unfolding barycentric_sum len
  evaluate_at polynomial z roots_of_unity inverse_width (some idx) =
      ok_or (generic_error "polynomial element missing") (get_elem? polynomial.evaluations idx)
  evaluate_at polynomial z roots_of_unity inverse_width none = do
    sum ← barycentric_sum z (zip polynomial.evaluations roots_of_unity) fr_zero
    exponent ← fr_from_usize s (len polynomial)
    let r = fr_sub (fr_pow z exponent) fr_one
    ok (fr_mul (fr_mul sum r) inverse_width)

  unfoldable pub evaluate_polynomial_in_evaluation_form :
      PolynomialEvalForm Fr → Fr → Outcome KzgError Fr
  unfolding evaluate_at position
  evaluate_polynomial_in_evaluation_form polynomial z = do
    roots_of_unity ← calculate_roots_of_unity s polynomial.len_underlying_blob_bytes
    if not (len polynomial == length roots_of_unity) then err invalid_input_length else (do
      width ← fr_from_usize s (len polynomial)
      inverse_width ← ok_or invalid_denominator (fr_inverse width)
      evaluate_at polynomial z roots_of_unity inverse_width
          (position (λ d. fr_eq d z) 0 roots_of_unity))
