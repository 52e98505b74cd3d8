-- ===== src/Sp1Bn/Batch.antt =====
-- crates/sp1-bn-verifier/src/batch.rs: the verification of a batch.
pub mod Equation
pub mod Complete
pub mod Inputs
pub mod Total
use hokulea.Base.{
  ℕ, zero, suc, ◌+◌, Bool, true, false, not, ◌&&◌, ◌||◌, List, [], ◌∷◌, ◌++◌, map, Outcome, ok, err,
  panic, ◌>>=◌, ◌>>◌, or_panic, traverse, ◌==◌, if◌then◌else◌, length, get_elem?,
}
use hokulea.Cert.{ByteList, G1Point}
use hokulea.Preloaded.{BatchVerify}
use hokulea.Sp1Bn.{KzgError, generic_error, Substrate}
use hokulea.Sp1Bn.Bytes.{to_fr_array_canonical}
use hokulea.Sp1Bn.Challenge.{compute_challenges_and_evaluate_polynomial, compute_r_powers}
use hokulea.Sp1Bn.Consts.{g2_tau}
use hokulea.Sp1Bn.Points.{
  validate_g1_point, g1_lincomb, pairings_verify, g1_point_to_affine, proof_bytes_to_affine,
}
use hokulea.Sp1Bn.Polynomial.{PolynomialEvalForm, new, len}

-- `unwrap_or(false)`
unfoldable pub unwrap_or_false : {E : Type 0} → Outcome KzgError Bool → Outcome E Bool
unwrap_or_false (ok b) = ok b
unwrap_or_false (err e) = ok false
unwrap_or_false panic = panic

module _ (s : Substrate) where
  open s use {
    Fr, fr_mul, G1, g1_one, g1_sub, g1_mul, g1_add, g1_is_zero, AffineG1, affine_default,
    affine_from_jacobian, affine_into, affine_g2_one, affine_g2_into,
  }

  unfoldable pub validate_all : List AffineG1 → Outcome KzgError (Unit {0})
  validate_all [] = ok tt
  validate_all (point ∷ points) = do validate_g1_point s (affine_into point); validate_all points

  -- `[Cᵢ - yᵢ·G]` in affine form
  unfoldable pub difference : AffineG1 → Fr → Outcome KzgError AffineG1
  difference commitment y =
      let diff = g1_sub (affine_into commitment) (g1_mul g1_one y) in
      if g1_is_zero diff then ok affine_default else or_panic (affine_from_jacobian diff)

  module _ (commitments : List AffineG1) (zs ys : List Fr) (r_powers : List Fr) where
    -- the loop on indices, from `i`
    unfoldable pub push_terms :
        ℕ → ℕ → List AffineG1 → List Fr → Outcome KzgError (List AffineG1 × List Fr)
    unfolding difference
    push_terms zero i c_minus_y r_times_z = ok (c_minus_y, r_times_z)
    push_terms (suc rounds) i c_minus_y r_times_z = do
      y ← or_panic (get_elem? ys i)
      commitment ← or_panic (get_elem? commitments i)
      diff_aff ← difference commitment y
      r ← or_panic (get_elem? r_powers i)
      z ← or_panic (get_elem? zs i)
      push_terms rounds (i + 1) (c_minus_y ++ diff_aff ∷ []) (r_times_z ++ fr_mul r z ∷ [])

  -- the sums and the pairing check, for the powers of the challenge
  unfoldable pub check_equation :
      List AffineG1 → List Fr → List Fr → List AffineG1 → List Fr → Outcome KzgError Bool
  unfolding push_terms
  check_equation commitments zs ys proofs r_powers = do
    proof_lincomb ← g1_lincomb s proofs r_powers
    (c_minus_y, r_times_z) ← push_terms commitments zs ys r_powers (length commitments) 0 [] []
    proof_z_lincomb ← g1_lincomb s proofs r_times_z
    c_minus_y_lincomb ← g1_lincomb s c_minus_y r_powers
    let rhs_g1 = g1_add c_minus_y_lincomb proof_z_lincomb
    tau ← g2_tau s
    ok (pairings_verify s proof_lincomb tau rhs_g1 (affine_g2_into affine_g2_one))

  unfoldable pub verify_kzg_proof_batch :
      List AffineG1 → List Fr → List Fr → List AffineG1 → List ℕ → Outcome KzgError Bool
  unfolding check_equation validate_all
  verify_kzg_proof_batch commitments zs ys proofs blob_lengths =
      if not (
        (length commitments == length zs)
        && ((length zs == length ys) && (length ys == length proofs)))
      then err (generic_error "length's of the input are not the same")
      else (do
        validate_all commitments
        validate_all proofs
        r_powers ← compute_r_powers s commitments zs ys proofs blob_lengths
        check_equation commitments zs ys proofs r_powers)

  -- the closure that makes a polynomial of a blob
  unfoldable pub polynomial_of : ByteList → Outcome KzgError (PolynomialEvalForm Fr)
  polynomial_of blob = to_fr_array_canonical s blob >>= new s

  -- the batch, parsed
  unfoldable pub verify_parsed :
      List (PolynomialEvalForm Fr) → List AffineG1 → List AffineG1 → Outcome KzgError Bool
  unfolding verify_kzg_proof_batch
  verify_parsed polys commitments_aff proofs_aff =
      let verified = do
        (zs, ys) ← compute_challenges_and_evaluate_polynomial s polys commitments_aff
        verify_kzg_proof_batch commitments_aff zs ys proofs_aff (map (len s) polys)
      in if not (length commitments_aff == length polys) || not (length proofs_aff == length polys)
        then err (generic_error "length's of the input are not the same")
        else if length polys == 0
        then ok true
        else verified

  unfoldable pub verify_blob_kzg_proof_batch :
      List ByteList → List G1Point → List ByteList → Outcome KzgError Bool
  unfolding polynomial_of verify_parsed
  verify_blob_kzg_proof_batch blobs commitments proofs = do
    polys ← traverse polynomial_of blobs
    commitments_aff ← traverse (g1_point_to_affine s) commitments
    proofs_aff ← traverse (proof_bytes_to_affine s) proofs
    verify_parsed polys commitments_aff proofs_aff

  unfoldable pub batch_verify : {E : Type 0} → BatchVerify E
  unfolding unwrap_or_false
  batch_verify blobs commitments proofs =
      unwrap_or_false (verify_blob_kzg_proof_batch blobs commitments proofs)
