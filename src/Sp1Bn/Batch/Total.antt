-- ===== src/Sp1Bn/Batch/Total.antt =====
-- The verifier of crates/sp1-bn-verifier/src/batch.rs returns a verdict on any input.
use mathlib.Core.List.{zip}
use hokulea.Base.{
  ℕ, ◌+◌, ◌<◌, ◌≡◌, ◌≢◌, ap, sym, ◌∙◌, true, false, not, ◌&&◌, ◌||◌, Bool-cases, inl, inr, List, [],
  ◌∷◌, ◌++◌, map, ok, panic, ◌>>=◌, >>=-ne-panic, if-ne-panic, ok-ne-panic, err-ne-panic,
  ne-panic_of-ok, >>=-eq-ok, traverse, traverse-ne-panic, ◌==◌, length, length-append, length-map,
  ok-injective, arith,
}
use hokulea.Base.Bytes.{to_be_bytes}
use hokulea.Cert.{ByteList, G1Point}
use hokulea.Sp1Bn.{Substrate}
use hokulea.Sp1Bn.Batch.{
  polynomial_of, verify_parsed, verify_kzg_proof_batch, verify_blob_kzg_proof_batch,
}
use hokulea.Sp1Bn.Batch.Complete.{verify_kzg_proof_batch_lem, validate_g1_point_total}
use hokulea.Sp1Bn.Batch.Inputs.{
  polynomial_of-ne-panic, g1_point_to_affine-ne-panic, proof_bytes_to_affine-ne-panic, entries_of,
  length-zip,
}
use hokulea.Sp1Bn.Bytes.{serialize_g1_compressed}
use hokulea.Sp1Bn.Bytes.Arrays.{element_bytes}
use hokulea.Sp1Bn.Bytes.Sizes.{hash_to_field_element_total, serialize_g1_compressed_total}
use hokulea.Sp1Bn.Challenge.{
  challenge_input, compute_challenge, evaluate_all, compute_challenges_and_evaluate_polynomial,
}
use hokulea.Sp1Bn.Challenge.Entries.{commitments_of, zs_of, ys_of, proofs_of}
use hokulea.Sp1Bn.Challenge.Layout.{challenge_input_layout}
use hokulea.Sp1Bn.Consts.{fiat_shamir_protocol_domain}
use hokulea.Sp1Bn.Laws.{IsSubstrate, IsPairing}
use hokulea.Sp1Bn.Points.{g1_point_to_affine, proof_bytes_to_affine}
use hokulea.Sp1Bn.Polynomial.{PolynomialEvalForm, len, evaluate_polynomial_in_evaluation_form}
use hokulea.Sp1Bn.Polynomial.Total.{g2_tau_total, evaluate_polynomial_in_evaluation_form-ne-panic}

module _ (s : Substrate) (laws : IsSubstrate s) where
  open s use {Fr, AffineG1, affine_into}

  compute_challenge_total :
      (p : PolynomialEvalForm Fr) (c : AffineG1) → (z : Fr) × (compute_challenge s p c ≡ ok z)
  unfolding compute_challenge
  compute_challenge_total p c =
      let (bytes, e, size) = serialize_g1_compressed_total s laws c in
      let (buf, made) = input_total e in
      let (z, hashed) = hash_to_field_element_total s laws buf in
      (z, rw (validate_g1_point_total s laws (affine_into c), made) hashed)
    where
      input_total :
          {bytes : ByteList}
          → serialize_g1_compressed s c ≡ ok bytes
          → (buf : ByteList) × (challenge_input s p c ≡ ok buf)
      input_total {bytes} e = (
        _,
        challenge_input_layout s laws p c
            ∙ ap
                (λ m. m >>= λ commit_bytes. ok (
                  fiat_shamir_protocol_domain
                  ++ (to_be_bytes 8 (len s p) ++ (element_bytes s p.evaluations ++ commit_bytes))))
                e,
      )

  evaluate_all-ne-panic :
      (pairs : List (PolynomialEvalForm Fr × AffineG1)) (zs ys : List Fr)
      → evaluate_all s pairs zs ys ≢ panic
  unfolding evaluate_all
  evaluate_all-ne-panic [] zs ys = ok-ne-panic _
  evaluate_all-ne-panic ((poly, commit) ∷ pairs) zs ys =
      >>=-ne-panic (compute_challenge s poly commit) _
        (ne-panic_of-ok (compute_challenge_total poly commit).1)
        λ z q.
          >>=-ne-panic (evaluate_polynomial_in_evaluation_form s poly z) _
            (evaluate_polynomial_in_evaluation_form-ne-panic s laws poly z)
            λ y q'. evaluate_all-ne-panic pairs (zs ++ z ∷ []) (ys ++ y ∷ [])

  length-evaluate_all :
      (pairs : List (PolynomialEvalForm Fr × AffineG1)) (zs ys : List Fr) (out : List Fr × List Fr)
      → evaluate_all s pairs zs ys ≡ ok out
      → (length out.0 ≡ length zs + length pairs) × (length out.1 ≡ length ys + length pairs)
  unfolding evaluate_all
  length-evaluate_all [] zs ys out h =
      let e = ok-injective h in
      (
        omega (arith, ap (λ (o : List Fr × List Fr). length o.0) e),
        omega (arith, ap (λ (o : List Fr × List Fr). length o.1) e),
      )
  length-evaluate_all ((poly, commit) ∷ pairs) zs ys out h =
      let (z, e, h1) = >>=-eq-ok (compute_challenge s poly commit) _ h in
      let (y, e', h2) = >>=-eq-ok (evaluate_polynomial_in_evaluation_form s poly z) _ h1 in
      let (a, b) = length-evaluate_all pairs (zs ++ z ∷ []) (ys ++ y ∷ []) out h2 in
      (omega (arith, length-append zs (z ∷ [])), omega (arith, length-append ys (y ∷ [])))

  compute_challenges-ne-panic :
      (polys : List (PolynomialEvalForm Fr)) (commitments : List AffineG1)
      → compute_challenges_and_evaluate_polynomial s polys commitments ≢ panic
  unfolding compute_challenges_and_evaluate_polynomial
  compute_challenges-ne-panic polys commitments =
      if-ne-panic (not (length polys == length commitments) && not (length polys == 0)) _ _
        (err-ne-panic _) (evaluate_all-ne-panic (zip polys commitments) [] [])

  length-compute_challenges :
      (polys : List (PolynomialEvalForm Fr)) (commitments : List AffineG1) (out : List Fr × List Fr)
      → length commitments ≡ length polys
      → compute_challenges_and_evaluate_polynomial s polys commitments ≡ ok out
      → (length out.0 ≡ length commitments) × (length out.1 ≡ length commitments)
  unfolding compute_challenges_and_evaluate_polynomial
  length-compute_challenges polys commitments out h q =
      let same : (not (length polys == length commitments) && not (length polys == 0)) ≡ false =
        ground arith in
      let (a, b) = length-evaluate_all (zip polys commitments) [] [] out (rw same at q) in
      let pairs = length-zip polys commitments (sym h) in (omega arith, omega arith)

  module _ (pairing : IsPairing s) where
    verify_kzg_proof_batch-ne-panic :
        (commitments : List AffineG1) (zs ys : List Fr) (proofs : List AffineG1) (lengths : List ℕ)
        → 0 < length commitments
        → length zs ≡ length commitments
        → length ys ≡ length commitments
        → length proofs ≡ length commitments
        → length lengths ≡ length commitments
        → verify_kzg_proof_batch s commitments zs ys proofs lengths ≢ panic
    verify_kzg_proof_batch-ne-panic commitments zs ys proofs lengths pos hz hy hp hl =
        let (entries, size, e1, e2, e3, e4) = entries_of s commitments zs ys proofs hz hy hp in
        let (tau, ht) = g2_tau_total s laws in
        let (r, challenge, verdict) =
          verify_kzg_proof_batch_lem s laws pairing entries lengths tau (omega arith) (omega arith)
            ht in
        let same : verify_kzg_proof_batch s (commitments_of s entries) (zs_of s entries)
              (ys_of s entries) (proofs_of s entries) lengths
            ≡ verify_kzg_proof_batch s commitments zs ys proofs lengths =
          λ i. verify_kzg_proof_batch s (e1 i) (e2 i) (e3 i) (e4 i) lengths in
        ne-panic_of-ok (sym same ∙ verdict)

    verify_parsed-ne-panic :
        (polys : List (PolynomialEvalForm Fr)) (commitments proofs : List AffineG1)
        → verify_parsed s polys commitments proofs ≢ panic
    unfolding verify_parsed
    verify_parsed-ne-panic polys commitments proofs =
        elim (Bool-cases
          (not (length commitments == length polys) || not (length proofs == length polys))) [
            | inl differ ↦ rw (verify_parsed, differ) (err-ne-panic _)
            | inr same ↦
                rw (verify_parsed, same)
                  (elim (Bool-cases (length polys == 0)) [
                    | inl empty ↦ rw empty (ok-ne-panic true)
                    | inr filled ↦
                        let hc : length commitments ≡ length polys = ground arith in
                        let hp : length proofs ≡ length polys = ground arith in
                        let pos : 0 < length commitments = ground arith in
                        rw filled (
                          >>=-ne-panic
                            (compute_challenges_and_evaluate_polynomial s polys commitments) _
                            (compute_challenges-ne-panic polys commitments)
                            λ out q.
                              let (hz, hy) = length-compute_challenges polys commitments out hc q in
                              verify_kzg_proof_batch-ne-panic commitments out.0 out.1 proofs
                                (map (len s) polys) pos hz hy (omega arith)
                                (omega (arith, length-map (len s) polys)))
                  ])
          ]

    -- Over a curve library with its laws, the batch verifier does not panic, whatever the blobs,
    -- the commitments and the proofs: no index or slice is out of range, and no conversion that it
    -- expects to succeed fails.
    pub verify_blob_kzg_proof_batch-ne-panic :
        (blobs : List ByteList) (commitments : List G1Point) (proofs : List ByteList)
        → verify_blob_kzg_proof_batch s blobs commitments proofs ≢ panic
    unfolding verify_blob_kzg_proof_batch
    verify_blob_kzg_proof_batch-ne-panic blobs commitments proofs =
        >>=-ne-panic (traverse (polynomial_of s) blobs) _
          (traverse-ne-panic (polynomial_of s) (polynomial_of-ne-panic s) blobs)
          λ polys q.
            >>=-ne-panic (traverse (g1_point_to_affine s) commitments) _
              (traverse-ne-panic (g1_point_to_affine s) (g1_point_to_affine-ne-panic s) commitments)
              λ cs q'.
                >>=-ne-panic (traverse (proof_bytes_to_affine s) proofs) _
                  (traverse-ne-panic (proof_bytes_to_affine s) (proof_bytes_to_affine-ne-panic s)
                    proofs)
                  λ ps q''. verify_parsed-ne-panic polys cs ps
