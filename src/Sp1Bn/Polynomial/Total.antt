-- ===== src/Sp1Bn/Polynomial/Total.antt =====
-- The evaluation of a polynomial in crates/sp1-bn-verifier/src/helpers.rs does not panic, nor do the
-- constants of consts.rs that it reads.
use mathlib.Core.List.{zip}
use hokulea.Base.{
  ℕ, zero, suc, ◌+◌, ◌-◌, ◌/◌, ◌≡◌, ◌≢◌, refl, Bool, true, false, not, ◌&&◌, Option, none, some,
  List, [], ◌∷◌, ◌++◌, Outcome, ok, panic, >>=-ne-panic, if-ne-panic, ok-ne-panic, err-ne-panic,
  ne-panic_of-ok, or_panic, traverse, leb, ltb, ◌==◌, take, length, length-append, get_elem?,
  get_elem?_total, All, arith,
}
use hokulea.Sp1Bn.{KzgError, Substrate, ok_or, generic_error, invalid_denominator}
use hokulea.Sp1Bn.Bytes.{fr_from_usize}
use hokulea.Sp1Bn.Bytes.Sizes.{fr_from_usize_total}
use hokulea.Sp1Bn.Consts.{
  mainnet_srs_g1_size, codes, primitive_roots_of_unity_dec, get_primitive_root_of_unity, g2_tau,
}
use hokulea.Sp1Bn.Laws.{IsSubstrate, IsDigit}
use hokulea.Sp1Bn.Polynomial.{
  PolynomialEvalForm, len, position, barycentric_sum, evaluate_at,
  evaluate_polynomial_in_evaluation_form,
}
use hokulea.Sp1Bn.Powers.{
  expand_loop, expand_root_of_unity, calculate_roots_of_unity, next_power_of_two, trailing_zeros,
}

abbrev all_digits : List ℕ → Bool
all_digits [] = true
all_digits (c ∷ cs) = leb b'0' c && (leb c b'9' && all_digits cs)

-- a nonempty list of digits
abbrev is_decimal : List ℕ → Bool
is_decimal [] = false
is_decimal (c ∷ cs) = all_digits (c ∷ cs)

pub ok_or-ne-panic {ℓ} : {A : Type ℓ} (e : KzgError) (m : Option A) → ok_or e m ≢ panic
ok_or-ne-panic e none = λ q. cc
ok_or-ne-panic e (some a) = λ q. cc

all_digits-IsDigit : (cs : List ℕ) → all_digits cs ≡ true → All IsDigit cs
all_digits-IsDigit [] h = tt
all_digits-IsDigit (c ∷ cs) h = ground (arith, all_digits-IsDigit cs)

all_decimals : List (List ℕ) → Bool
all_decimals [] = true
all_decimals (dec ∷ decs) = is_decimal dec && all_decimals decs

module _ (s : Substrate) (laws : IsSubstrate s) where
  open s use {
    Fr, Fq, fr_from_str, fq_from_str, fr_zero, fr_one, fr_eq, fr_add, fr_sub, fr_mul, fr_is_zero,
    fr_inverse,
  }

  decimal_total : (dec : List ℕ) → is_decimal dec ≡ true → (x : Fr) × (fr_from_str dec ≡ some x)
  decimal_total [] h = absurd (ground arith)
  decimal_total (c ∷ cs) h =
      laws.fr_from_str_total (c ∷ cs) (λ e. cc) (all_digits-IsDigit (c ∷ cs) h)

  fq_decimal_total : (dec : List ℕ) → is_decimal dec ≡ true → (x : Fq) × (fq_from_str dec ≡ some x)
  fq_decimal_total [] h = absurd (ground arith)
  fq_decimal_total (c ∷ cs) h =
      laws.fq_from_str_total (c ∷ cs) (λ e. cc) (all_digits-IsDigit (c ∷ cs) h)

  pub g2_tau_total : (tau : s.G2) × (g2_tau s ≡ ok tau)
  unfolding g2_tau
  g2_tau_total =
      let (x0, e0) =
        fq_decimal_total
          (codes "19394299006376106554626551996044114846855237028623244664226757033024550999552")
          refl in
      let (x1, e1) =
        fq_decimal_total
          (codes "10478571113809844268398751534081669357808742555529167819607714577862447855483")
          refl in
      let (y0, e2) =
        fq_decimal_total
          (codes "9205262336805673656533560220225620941045451042642528799409071118332922267006")
          refl in
      let (y1, e3) =
        fq_decimal_total
          (codes "10552783866161062341197740743287753408530108186218052255509661543860392060676")
          refl in
      (
        s.affine_g2_into (s.affine_g2_new_unchecked (s.fq2_new x0 x1) (s.fq2_new y0 y1)),
        rw (e0, e1, e2, e3),
      )

  traverse_decimals :
      (decs : List (List ℕ))
      → all_decimals decs ≡ true
      → (xs : List Fr) × (traverse {E = KzgError} (λ dec. or_panic (fr_from_str dec)) decs ≡ ok xs)
  unfolding all_decimals
  traverse_decimals [] h = ([], refl)
  traverse_decimals (dec ∷ decs) h =
      let (x, e) = decimal_total dec (ground arith) in
      let (xs, e') = traverse_decimals decs (ground arith) in (x ∷ xs, rw (e, e'))

  get_primitive_root_of_unity_total :
      (power : ℕ) → (found : Option Fr) × (get_primitive_root_of_unity s power ≡ ok found)
  unfolding get_primitive_root_of_unity primitive_roots_of_unity_dec all_decimals
  get_primitive_root_of_unity_total power =
      let (roots, e) = traverse_decimals primitive_roots_of_unity_dec refl in
      (get_elem? roots power, rw e)

  -- The index of the loop is the last one of what is pushed.
  expand_loop-ne-panic :
      (root : Fr) (rounds i : ℕ) (roots : List Fr)
      → length roots ≡ suc i
      → expand_loop s root rounds i roots ≢ panic
  unfolding expand_loop
  expand_loop-ne-panic root zero i roots h = ok-ne-panic roots
  expand_loop-ne-panic root (suc rounds) i roots h =
      let (cur, e) = get_elem?_total roots i (omega arith) in
      rw (expand_loop, e)
        (next (fr_eq cur fr_one) roots
          (expand_loop s root rounds (i + 1) (roots ++ fr_mul cur root ∷ []))
          (expand_loop-ne-panic root rounds (i + 1) (roots ++ fr_mul cur root ∷ [])
            (omega (arith, length-append roots (fr_mul cur root ∷ [])))))
    where
      next :
          (b : Bool) (roots : List Fr) (rest : Outcome KzgError (List Fr))
          → rest ≢ panic
          → elim b as (λ b. Outcome KzgError (List Fr)) [ true ↦ ok roots | false ↦ rest ] ≢ panic
      next true roots rest h = ok-ne-panic roots
      next false roots rest h = h

  calculate_roots_of_unity-ne-panic : (size : ℕ) → calculate_roots_of_unity s size ≢ panic
  unfolding calculate_roots_of_unity expand_root_of_unity
  calculate_roots_of_unity-ne-panic size =
      let n = (size + 31) / 32 in
      let log2 = trailing_zeros (next_power_of_two n) in
      if-ne-panic (size == 0) _ _ (err-ne-panic _) (
        if-ne-panic (ltb mainnet_srs_g1_size n) _ _ (err-ne-panic _) (
          >>=-ne-panic (get_primitive_root_of_unity s log2) _
            (ne-panic_of-ok (get_primitive_root_of_unity_total log2).1)
            λ found q.
              >>=-ne-panic (ok_or (generic_error "power must be <= 28") found) _
                (ok_or-ne-panic _ found)
                λ root q'.
                  >>=-ne-panic (expand_loop s root mainnet_srs_g1_size 1 (fr_one ∷ root ∷ [])) _
                    (expand_loop-ne-panic root mainnet_srs_g1_size 1 (fr_one ∷ root ∷ []) refl)
                    λ roots q''. ok-ne-panic (take (length roots - 1) roots)))

  barycentric_sum-ne-panic :
      (z : Fr) (terms : List (Fr × Fr)) (sum : Fr) → barycentric_sum s z terms sum ≢ panic
  unfolding barycentric_sum
  barycentric_sum-ne-panic z [] sum = ok-ne-panic sum
  barycentric_sum-ne-panic z ((f_i, domain_i) ∷ terms) sum =
      let b = fr_sub z domain_i in
      if-ne-panic (fr_is_zero b) _ _ (err-ne-panic _) (
        >>=-ne-panic (ok_or invalid_denominator (fr_inverse b)) _ (ok_or-ne-panic _ _) λ inverse q.
          barycentric_sum-ne-panic z terms (fr_add sum (fr_mul (fr_mul f_i domain_i) inverse)))

  evaluate_at-ne-panic :
      (p : PolynomialEvalForm Fr) (z : Fr) (roots : List Fr) (inverse_width : Fr) (at : Option ℕ)
      → evaluate_at s p z roots inverse_width at ≢ panic
  unfolding evaluate_at
  evaluate_at-ne-panic p z roots inverse_width none =
      let terms = zip p.evaluations roots in
      >>=-ne-panic (barycentric_sum s z terms fr_zero) _ (barycentric_sum-ne-panic z terms fr_zero)
        λ sum q.
          >>=-ne-panic (fr_from_usize s (len s p)) _
            (ne-panic_of-ok (fr_from_usize_total s laws (len s p)).1) λ exponent q'. ok-ne-panic _
  evaluate_at-ne-panic p z roots inverse_width (some idx) = ok_or-ne-panic _ _

  pub evaluate_polynomial_in_evaluation_form-ne-panic :
      (p : PolynomialEvalForm Fr) (z : Fr) → evaluate_polynomial_in_evaluation_form s p z ≢ panic
  unfolding evaluate_polynomial_in_evaluation_form
  evaluate_polynomial_in_evaluation_form-ne-panic p z =
      let n = len s p in
      >>=-ne-panic (calculate_roots_of_unity s p.len_underlying_blob_bytes) _
        (calculate_roots_of_unity-ne-panic p.len_underlying_blob_bytes)
        λ roots q. if-ne-panic (not (n == length roots)) _ _ (err-ne-panic _) (
          >>=-ne-panic (fr_from_usize s n) _ (ne-panic_of-ok (fr_from_usize_total s laws n).1)
            λ width q'.
              >>=-ne-panic (ok_or invalid_denominator (fr_inverse width)) _ (ok_or-ne-panic _ _)
                λ inverse_width q''.
                  evaluate_at-ne-panic p z roots inverse_width (position (λ d. fr_eq d z) 0 roots))
