-- ===== src/Sp1Bn/Points.antt =====
-- crates/sp1-bn-verifier/src/helpers.rs and batch.rs: points of the curve, and the pairing check.
use hokulea.Base.{
  Bool, not, List, [], ◌∷◌, Outcome, ok, err, ◌>>=◌, or_panic, ◌==◌, if◌then◌else◌, length, take,
  drop,
}
use hokulea.Base.Bytes.{to_be_bytes}
use hokulea.Cert.{ByteList, G1Point}
use hokulea.Sp1Bn.{
  KzgError, not_on_curve_error, serialization_error, generic_error, Substrate, ok_or,
}

module _ (s : Substrate) where
  open s use {
    Fr, Fq, fq_from_be_bytes_mod_order, G1, g1_is_zero, g1_neg, AffineG1, affine_new,
    affine_from_jacobian, affine_into, msm, G2, Gt, gt_one, gt_eq, pairing_batch,
  }

  unfoldable pub validate_g1_point : G1 → Outcome KzgError (Unit {0})
  validate_g1_point point = if g1_is_zero point then ok tt else (do
    affine ← ok_or (not_on_curve_error "g1 point not on curve") (affine_from_jacobian point)
    ok tt)

  unfoldable pub g1_lincomb : List AffineG1 → List Fr → Outcome KzgError G1
  g1_lincomb points scalars =
      if not (length points == length scalars)
      then err (generic_error "g1_lincomb: points and scalars have mismatched lengths")
      else or_panic (msm points scalars) >>= λ sum. ok (affine_into sum)

  unfoldable pub pairings_verify : G1 → G2 → G1 → G2 → Bool
  pairings_verify a1 a2 b1 b2 =
      let result = pairing_batch ((a1, a2) ∷ (g1_neg b1, b2) ∷ []) in gt_eq result gt_one

  unfoldable pub g1_point_to_affine : G1Point → Outcome KzgError AffineG1
  g1_point_to_affine commitment = do
    x ← ok_or serialization_error (fq_from_be_bytes_mod_order (to_be_bytes 32 commitment.x))
    y ← ok_or serialization_error (fq_from_be_bytes_mod_order (to_be_bytes 32 commitment.y))
    ok_or (not_on_curve_error "commitment not on curve") (affine_new x y)

  -- a proof is 64 bytes
  unfoldable pub proof_bytes_to_affine : ByteList → Outcome KzgError AffineG1
  proof_bytes_to_affine proof = do
    x ← ok_or serialization_error (fq_from_be_bytes_mod_order (take 32 proof))
    y ← ok_or serialization_error (fq_from_be_bytes_mod_order (drop 32 proof))
    ok_or (not_on_curve_error "proof not on curve") (affine_new x y)
