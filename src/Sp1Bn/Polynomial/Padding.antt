-- ===== src/Sp1Bn/Polynomial/Padding.antt =====
-- `PolynomialEvalForm::new` of crates/sp1-bn-verifier/src/helpers.rs.
use hokulea.Base.{
  ℕ, ◌-◌, ◌*◌, ◌^◌, ◌≤◌, ◌<◌, ◌≡◌, refl, ap, ◌∙◌, true, false, List, ◌++◌, ok, err, length,
  length-append, length-replicate, replicate, take_of_length-le, ltb, arith,
}
use hokulea.Sp1Bn.{generic_error, Substrate}
use hokulea.Sp1Bn.Consts.{mainnet_srs_g1_size}
use hokulea.Sp1Bn.Polynomial.{PolynomialEvalForm, new, len, resize}
use hokulea.Sp1Bn.Powers.{next_power_of_two}
use hokulea.Sp1Bn.Powers.Words.{IsLeastPower, next_power_of_two-least, IsLeastPower-bound}

module _ (s : Substrate) where
  open s use {Fr, fr_zero}

  -- A padded polynomial has the elements that it was made from and zeros behind them, up to the least
  -- power of two, which is at most `2 ^ 28`, and the size in bytes of the elements alone.
  pub record IsPadded (evals : List Fr) (p : PolynomialEvalForm Fr) : Type 0 where
    pub exponent : ℕ
    pub least : IsLeastPower (length evals) exponent
    pub padded : p.evaluations ≡ evals ++ replicate (2 ^ exponent - length evals) fr_zero
    pub length_padded : len s p ≡ 2 ^ exponent
    pub within : len s p ≤ mainnet_srs_g1_size
    pub underlying : p.len_underlying_blob_bytes ≡ length evals * 32

  padded : (evals : List Fr) → PolynomialEvalForm Fr
  unfolding resize
  padded evals = record {
    evaluations = resize evals (next_power_of_two (length evals)) fr_zero;
    len_underlying_blob_bytes = length evals * 32;
  }

  padded-IsPadded :
      (evals : List Fr) → length evals ≤ mainnet_srs_g1_size → IsPadded evals (padded evals)
  unfolding padded resize len
  padded-IsPadded evals h =
      let (k, e, least) = next_power_of_two-least (length evals) in
      let kept = take_of_length-le (2 ^ k) evals least.0 in
      let filled =
        ap (λ (p : ℕ). resize evals p fr_zero) e
        ∙ ap (λ t. t ++ replicate (2 ^ k - length evals) fr_zero) kept in
      let size =
        ap length filled ∙ length-append evals (replicate (2 ^ k - length evals) fr_zero) in
      let zeros = length-replicate (2 ^ k - length evals) fr_zero in
      record {
        exponent = k;
        least = least;
        padded = filled;
        length_padded = omega (arith, size, zeros, least.0);
        within = omega (arith, size, zeros, least.0, IsLeastPower-bound (length evals) k least h);
        underlying = refl;
      }

  -- A polynomial is made of at most `2 ^ 28` field elements: they are padded with zeros to the
  -- least power of two, which is at most `2 ^ 28` too, and their own size in bytes is kept. More
  -- elements are refused.
  pub new_lem :
      (evals : List Fr)
      → (length evals ≤ mainnet_srs_g1_size
          → (p : PolynomialEvalForm Fr) × (new s evals ≡ ok p) × IsPadded evals p)
        × (mainnet_srs_g1_size < length evals
            → new s evals ≡ err (generic_error "Input size exceeds maximum polynomial size"))
  unfolding new padded
  new_lem evals = (
    λ h.
        let small : ltb mainnet_srs_g1_size (length evals) ≡ false = ground arith in
        (padded evals, rw small, padded-IsPadded evals h),
    λ h. let large : ltb mainnet_srs_g1_size (length evals) ≡ true = ground arith in rw large,
  )
