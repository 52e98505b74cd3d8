-- ===== src/Sp1Bn/Batch/Inputs.antt =====
-- The parsing of the inputs in crates/sp1-bn-verifier/src/batch.rs does not panic; and lists of entries.
use mathlib.Core.List.{zip}
use hokulea.Base.{
  suc, ◌≡◌, ◌≢◌, refl, ap, not, List, [], ◌∷◌, panic, >>=-ne-panic, if-ne-panic, ok-ne-panic,
  err-ne-panic, traverse-ne-panic, ltb, ◌==◌, ◌%◌, ◌/◌, length, take, drop, arith,
}
use hokulea.Base.Bytes.{to_be_bytes}
use hokulea.Cert.{ByteList, G1Point}
use hokulea.Sp1Bn.{Substrate, ok_or, invalid_field_element, serialization_error}
use hokulea.Sp1Bn.Batch.{polynomial_of}
use hokulea.Sp1Bn.Bytes.{canonical_element, chunks_exact, to_fr_array_canonical}
use hokulea.Sp1Bn.Challenge.Entries.{Entry, commitments_of, zs_of, ys_of, proofs_of}
use hokulea.Sp1Bn.Consts.{mainnet_srs_g1_size}
use hokulea.Sp1Bn.Points.{g1_point_to_affine, proof_bytes_to_affine}
use hokulea.Sp1Bn.Polynomial.{new}
use hokulea.Sp1Bn.Polynomial.Total.{ok_or-ne-panic}

pub length-zip :
    {A B : Type 0} (xs : List A) (ys : List B)
    → length xs ≡ length ys
    → length (zip xs ys) ≡ length xs
unfolding zip
length-zip [] ys h = refl
length-zip (x ∷ xs) [] h = absurd (omega arith)
length-zip (x ∷ xs) (y ∷ ys) h = ap suc (length-zip xs ys (omega arith))

module _ (s : Substrate) where
  open s use {
    Fr, fr_eq, fr_from_slice, fr_from_bytes_be_mod_order, AffineG1, affine_new,
    fq_from_be_bytes_mod_order,
  }

  canonical_element-ne-panic : (chunk : ByteList) → canonical_element s chunk ≢ panic
  unfolding canonical_element
  canonical_element-ne-panic chunk =
      >>=-ne-panic (ok_or invalid_field_element (fr_from_bytes_be_mod_order chunk)) _
        (ok_or-ne-panic _ _)
        λ reduced q.
          >>=-ne-panic (ok_or invalid_field_element (fr_from_slice chunk)) _ (ok_or-ne-panic _ _)
            λ direct q'.
              if-ne-panic (not (fr_eq reduced direct)) _ _ (err-ne-panic _) (ok-ne-panic _)

  to_fr_array_canonical-ne-panic : (blob : ByteList) → to_fr_array_canonical s blob ≢ panic
  unfolding to_fr_array_canonical
  to_fr_array_canonical-ne-panic blob =
      if-ne-panic (not (length blob % 32 == 0)) _ _ (err-ne-panic _) (
        traverse-ne-panic (canonical_element s) canonical_element-ne-panic
          (chunks_exact (length blob / 32) blob))

  pub polynomial_of-ne-panic : (blob : ByteList) → polynomial_of s blob ≢ panic
  unfolding polynomial_of new
  polynomial_of-ne-panic blob =
      >>=-ne-panic (to_fr_array_canonical s blob) _ (to_fr_array_canonical-ne-panic blob) λ evals q.
        if-ne-panic (ltb mainnet_srs_g1_size (length evals)) _ _ (err-ne-panic _) (ok-ne-panic _)

  pub g1_point_to_affine-ne-panic : (c : G1Point) → g1_point_to_affine s c ≢ panic
  unfolding g1_point_to_affine
  g1_point_to_affine-ne-panic c =
      >>=-ne-panic (ok_or serialization_error (fq_from_be_bytes_mod_order (to_be_bytes 32 c.x))) _
        (ok_or-ne-panic _ _)
        λ x q.
          >>=-ne-panic (ok_or serialization_error (fq_from_be_bytes_mod_order (to_be_bytes 32 c.y)))
            _ (ok_or-ne-panic _ _) (λ y q'. ok_or-ne-panic _ _)

  pub proof_bytes_to_affine-ne-panic : (proof : ByteList) → proof_bytes_to_affine s proof ≢ panic
  unfolding proof_bytes_to_affine
  proof_bytes_to_affine-ne-panic proof =
      >>=-ne-panic (ok_or serialization_error (fq_from_be_bytes_mod_order (take 32 proof))) _
        (ok_or-ne-panic _ _)
        λ x q.
          >>=-ne-panic (ok_or serialization_error (fq_from_be_bytes_mod_order (drop 32 proof))) _
            (ok_or-ne-panic _ _) (λ y q'. ok_or-ne-panic _ _)

  -- four lists of one length are those of a list of entries
  pub entries_of :
      (commitments : List AffineG1) (zs ys : List Fr) (proofs : List AffineG1)
      → length zs ≡ length commitments
      → length ys ≡ length commitments
      → length proofs ≡ length commitments
      → (entries : List (Entry Fr AffineG1)) × (length entries ≡ length commitments)
        × (commitments_of s entries ≡ commitments)
        × (zs_of s entries ≡ zs)
        × (ys_of s entries ≡ ys)
        × (proofs_of s entries ≡ proofs)
  unfolding commitments_of zs_of ys_of proofs_of
  entries_of [] [] [] [] hz hy hp = ([], refl, refl, refl, refl, refl)
  entries_of (c ∷ cs) (z ∷ zs) (y ∷ ys) (p ∷ ps) hz hy hp =
      let (entries, size, e1, e2, e3, e4) =
        entries_of cs zs ys ps (omega arith) (omega arith) (omega arith) in
      (
        record { commitment = c; z = z; y = y; proof = p } ∷ entries,
        ap suc size,
        ap (◌∷◌ c) e1,
        ap (◌∷◌ z) e2,
        ap (◌∷◌ y) e3,
        ap (◌∷◌ p) e4,
      )
  entries_of [] (z ∷ zs) ys ps hz hy hp = absurd (omega arith)
  entries_of [] [] (y ∷ ys) ps hz hy hp = absurd (omega arith)
  entries_of [] [] [] (p ∷ ps) hz hy hp = absurd (omega arith)
  entries_of (c ∷ cs) [] ys ps hz hy hp = absurd (omega arith)
  entries_of (c ∷ cs) (z ∷ zs) [] ps hz hy hp = absurd (omega arith)
  entries_of (c ∷ cs) (z ∷ zs) (y ∷ ys) [] hz hy hp = absurd (omega arith)
