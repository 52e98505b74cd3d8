-- ===== src/Sp1Bn/Batch/Complete.antt =====
-- `verify_kzg_proof_batch` of crates/sp1-bn-verifier/src/batch.rs decides the equation of the batch,
-- and accepts honest proofs.
use hokulea.Base.{
  ℕ, ◌<◌, ◌≡◌, ◌↔◌, refl, ap, sym, ◌∙◌, Bool, true, List, [], ◌∷◌, ◌++◌, ◌&&◌, ok, ◌>>=◌, ◌==◌,
  Bool-cases, inl, inr, length, All, arith,
}
use hokulea.Sp1Bn.{Substrate}
use hokulea.Sp1Bn.Batch.{validate_all, verify_kzg_proof_batch}
use hokulea.Sp1Bn.Batch.Equation.{
  shifted, proof_sum, shifted_sum, proof_z_sum, Balanced, Balanced-add, Balanced-mul,
  pairings_verify-Balanced, verdict, verdict_iff, BatchEquation, check_equation_lem,
}
use hokulea.Sp1Bn.Bytes.{hash_to_field_element}
use hokulea.Sp1Bn.Bytes.Sizes.{hash_to_field_element_total}
use hokulea.Sp1Bn.Challenge.{r_input, compute_r_powers}
use hokulea.Sp1Bn.Challenge.Lengths.{length_bytes, gap}
use hokulea.Sp1Bn.Challenge.Entries.{
  Entry, commitments_of, zs_of, ys_of, proofs_of, length-commitments_of, length-proofs_of,
  length-zs_of, length-ys_of, entry_bytes_total,
}
use hokulea.Sp1Bn.Challenge.Layout.{r_input_layout}
use hokulea.Sp1Bn.Consts.{g2_tau, random_challenge_kzg_batch_domain}
use hokulea.Sp1Bn.Laws.{IsSubstrate, IsPairing, IsTarget}
use hokulea.Sp1Bn.Points.{validate_g1_point}
use hokulea.Sp1Bn.Powers.Roots.{powers, length-powers, compute_powers_lem}

module _ (s : Substrate) (laws : IsSubstrate s) where
  open s use {Fr, AffineG1, affine_into, g1_is_zero, G2}

  pub validate_g1_point_total : (p : s.G1) → validate_g1_point s p ≡ ok tt
  unfolding validate_g1_point
  validate_g1_point_total p = elim (Bool-cases (g1_is_zero p)) [
    | inl vanishes ↦ rw vanishes
    | inr finite ↦ let (a, e) = laws.affine_from_jacobian_total p finite in rw (finite, e)
  ]

  pub validate_all_total : (points : List AffineG1) → validate_all s points ≡ ok tt
  unfolding validate_all
  validate_all_total [] = refl
  validate_all_total (p ∷ points) =
      rw (validate_g1_point_total (affine_into p), validate_all_total points)

  -- The challenge is the hash of the transcript, and its powers are one for each entry.
  pub compute_r_powers_total :
      (entries : List (Entry Fr AffineG1)) (blob_lengths : List ℕ)
      → length blob_lengths ≡ length entries
      → (r : Fr) × ((r_input s
              (commitments_of s entries)
              (zs_of s entries)
              (ys_of s entries)
              (proofs_of s entries)
              blob_lengths
            >>= hash_to_field_element s)
          ≡ ok r)
        × (compute_r_powers s
              (commitments_of s entries)
              (zs_of s entries)
              (ys_of s entries)
              (proofs_of s entries)
              blob_lengths
            ≡ ok (powers s r (length entries)))
  unfolding compute_r_powers
  compute_r_powers_total entries blob_lengths h =
      let (bytes, bytes_eq, bytes_len) = entry_bytes_total s laws entries in
      let transcript =
        random_challenge_kzg_batch_domain
        ++ (length_bytes blob_lengths ++ (gap (length entries) ++ bytes)) in
      let (r, hashed) = hash_to_field_element_total s laws transcript in
      let input = r_input_layout s laws entries blob_lengths h in
      (
        r,
        rw (input, bytes_eq) hashed,
        rw (input, bytes_eq, hashed, length-commitments_of s entries)
            (ap ok (compute_powers_lem s r (length entries))),
      )

  lengths_agree :
      (entries : List (Entry Fr AffineG1))
      → ((length (commitments_of s entries) == length (zs_of s entries))
          && ((length (zs_of s entries) == length (ys_of s entries))
              && (length (ys_of s entries) == length (proofs_of s entries))))
        ≡ true
  lengths_agree entries = ground (
    arith,
    length-commitments_of s entries,
    length-zs_of s entries,
    length-ys_of s entries,
    length-proofs_of s entries,
  )

  module _ (pairing : IsPairing s) where
    open s use {fr_mul, g1_add, g1_mul, g1_zero}

    -- For a batch of at least one entry, with a length for each, the verifier does not fail, and comes
    -- to its verdict with the powers of the challenge.
    pub verify_kzg_proof_batch_lem :
        (entries : List (Entry Fr AffineG1)) (blob_lengths : List ℕ) (tau : G2)
        → 0 < length entries
        → length blob_lengths ≡ length entries
        → g2_tau s ≡ ok tau
        → (r : Fr) × ((r_input s
                (commitments_of s entries)
                (zs_of s entries)
                (ys_of s entries)
                (proofs_of s entries)
                blob_lengths
              >>= hash_to_field_element s)
            ≡ ok r)
          × (verify_kzg_proof_batch s
                (commitments_of s entries)
                (zs_of s entries)
                (ys_of s entries)
                (proofs_of s entries)
                blob_lengths
              ≡ ok (verdict s laws pairing entries (powers s r (length entries)) tau))
    unfolding verify_kzg_proof_batch
    verify_kzg_proof_batch_lem entries blob_lengths tau nonempty h ht =
        let (r, challenge, r_powers) = compute_r_powers_total entries blob_lengths h in
        let n = length entries in
        (
          r,
          challenge,
          rw
              (
                lengths_agree entries,
                validate_all_total (commitments_of s entries),
                validate_all_total (proofs_of s entries),
                r_powers,
              )
              (check_equation_lem s laws pairing entries (powers s r n) tau nonempty
                (length-powers s r n) ht),
        )

    -- Over a curve library with the laws of a pairing into a group with an exact equality test:
    -- for a batch of at least one entry, with a length for each, the verifier does not fail. It
    -- accepts exactly when the two pairings of the batch's equation are equal, with the powers of
    -- the challenge that is the hash of the transcript.
    pub verify_kzg_proof_batch_iff :
        IsTarget s pairing
        → (entries : List (Entry Fr AffineG1)) (blob_lengths : List ℕ) (tau : G2)
        → 0 < length entries
        → length blob_lengths ≡ length entries
        → g2_tau s ≡ ok tau
        → (r : Fr) × ((r_input s
                (commitments_of s entries)
                (zs_of s entries)
                (ys_of s entries)
                (proofs_of s entries)
                blob_lengths
              >>= hash_to_field_element s)
            ≡ ok r)
          × (accepted : Bool) × (verify_kzg_proof_batch s
                (commitments_of s entries)
                (zs_of s entries)
                (ys_of s entries)
                (proofs_of s entries)
                blob_lengths
              ≡ ok accepted)
          × ((accepted ≡ true)
              ↔ BatchEquation s laws pairing entries (powers s r (length entries)) tau)
    verify_kzg_proof_batch_iff target entries blob_lengths tau nonempty h ht =
        let (r, challenge, verified) =
          verify_kzg_proof_batch_lem entries blob_lengths tau nonempty h ht in
        let rs = powers s r (length entries) in
        (
          r,
          challenge,
          verdict s laws pairing entries rs tau,
          verified,
          verdict_iff s laws pairing target entries rs tau,
        )

    -- The proof opens the commitment to `y` at `z`.
    abbrev pub Opens : G2 → Entry Fr AffineG1 → Type 0
    Opens tau e =
        Balanced s laws pairing tau (s.affine_g2_into s.affine_g2_one) (affine_into e.proof)
          (g1_add (shifted s e) (g1_mul (affine_into e.proof) e.z))

    interchange :
        (a b c d : s.G1) → g1_add (g1_add a b) (g1_add c d) ≡ g1_add (g1_add a c) (g1_add b d)
    interchange a b c d =
        pairing.g1_add_assoc a b (g1_add c d)
        ∙ ap (g1_add a) (
            sym (pairing.g1_add_assoc b c d)
            ∙ ap (λ x. g1_add x d) (pairing.g1_add_comm b c)
            ∙ pairing.g1_add_assoc c b d)
        ∙ sym (pairing.g1_add_assoc a c (g1_add b d))

    sums-Balanced :
        (entries : List (Entry Fr AffineG1)) (rs : List Fr) (tau : G2)
        → length rs ≡ length entries
        → All (Opens tau) entries
        → Balanced s laws pairing tau
            (s.affine_g2_into s.affine_g2_one)
            (proof_sum s entries rs)
            (g1_add (shifted_sum s entries rs) (proof_z_sum s entries rs))
    unfolding proof_sum shifted_sum proof_z_sum
    sums-Balanced [] rs tau hr opens =
        pairing.pair_zero tau
        ∙ sym (pairing.pair_zero (s.affine_g2_into s.affine_g2_one))
        ∙ ap (λ x. pairing.pair x (s.affine_g2_into s.affine_g2_one))
            (sym (pairing.g1_zero_add g1_zero))
    sums-Balanced (e ∷ entries) [] tau hr opens = absurd (omega arith)
    sums-Balanced (e ∷ entries) (r ∷ rs) tau hr opens =
        let q = s.affine_g2_into s.affine_g2_one in
        let p = affine_into e.proof in
        let term =
          pairing.g1_mul-add (shifted s e) (g1_mul p e.z) r
          ∙ ap (g1_add (g1_mul (shifted s e) r)) (pairing.g1_mul-mul p r e.z) in
        let regroup =
          ap (λ x. g1_add x (g1_add (shifted_sum s entries rs) (proof_z_sum s entries rs))) term
          ∙ interchange (g1_mul (shifted s e) r) (g1_mul p (fr_mul r e.z))
              (shifted_sum s entries rs) (proof_z_sum s entries rs) in
        Balanced-add s laws pairing tau q (g1_mul p r)
          (g1_mul (g1_add (shifted s e) (g1_mul p e.z)) r) (proof_sum s entries rs)
          (g1_add (shifted_sum s entries rs) (proof_z_sum s entries rs))
          (Balanced-mul s laws pairing tau q p (g1_add (shifted s e) (g1_mul p e.z)) r opens.0)
          (sums-Balanced entries rs tau (omega arith) opens.1)
        ∙ ap (λ x. pairing.pair x q) regroup

    -- Over a curve library with the laws of a pairing, a batch of at least one entry, with a
    -- length for each, whose proofs all open their commitments is accepted.
    pub verify_kzg_proof_batch_complete :
        (entries : List (Entry Fr AffineG1)) (blob_lengths : List ℕ) (tau : G2)
        → 0 < length entries
        → length blob_lengths ≡ length entries
        → g2_tau s ≡ ok tau
        → All (Opens tau) entries
        → verify_kzg_proof_batch s
            (commitments_of s entries)
            (zs_of s entries)
            (ys_of s entries)
            (proofs_of s entries)
            blob_lengths
          ≡ ok true
    verify_kzg_proof_batch_complete entries blob_lengths tau nonempty h ht opens =
        let (r, challenge, verified) =
          verify_kzg_proof_batch_lem entries blob_lengths tau nonempty h ht in
        let rs = powers s r (length entries) in
        verified
        ∙ ap ok (
            pairings_verify-Balanced s laws pairing tau _ (proof_sum s entries rs)
              (g1_add (shifted_sum s entries rs) (proof_z_sum s entries rs))
              (sums-Balanced entries rs tau (length-powers s r (length entries)) opens))
