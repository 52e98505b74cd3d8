-- ===== src/Sp1Bn/Challenge.antt =====
-- crates/sp1-bn-verifier/src/helpers.rs and batch.rs: the transcripts, which the challenges are hashes
-- of.
pub mod Lengths
pub mod Entries
pub mod Layout
use mathlib.Core.List.{zip}
use hokulea.Base.{
  ℕ, zero, suc, ◌+◌, ◌*◌, ◌&&◌, not, List, [], ◌∷◌, ◌++◌, Outcome, ok, err, panic, ◌>>=◌, ◌>>◌,
  or_panic, assert, leb, ◌==◌, if◌then◌else◌, length, get_elem?, replicate,
}
use hokulea.Base.Buffers.{copy_from_slice}
use hokulea.Base.Bytes.{to_be_bytes}
use hokulea.Cert.{ByteList}
use hokulea.Sp1Bn.{KzgError, generic_error, invalid_input_length, Substrate}
use hokulea.Sp1Bn.Bytes.{
  usize_to_be_bytes, to_byte_array, serialize_g1_compressed, serialize_fr_le, hash_to_field_element,
}
use hokulea.Sp1Bn.Consts.{
  bytes_per_field_element, size_of_g1_affine_compressed, fiat_shamir_protocol_domain,
  random_challenge_kzg_batch_domain,
}
use hokulea.Sp1Bn.Points.{validate_g1_point}
use hokulea.Sp1Bn.Polynomial.{PolynomialEvalForm, len, evaluate_polynomial_in_evaluation_form}
use hokulea.Sp1Bn.Powers.{compute_powers}

-- `target_slice.chunks_mut(8).zip(blob_lengths)`, with the chunks left and the place of the next one
unfoldable pub write_lengths : ℕ → ℕ → List ℕ → ByteList → Outcome KzgError ByteList
write_lengths zero place lengths buf = ok buf
write_lengths (suc chunks) place [] buf = ok buf
write_lengths (suc chunks) place (length_i ∷ lengths) buf =
    copy_from_slice buf place (place + 8) (to_be_bytes 8 length_i)
    >>= write_lengths chunks (place + 8) lengths

-- 32 bytes at the offset, which moves on
unfoldable pub write_element : ByteList × ℕ → ByteList → Outcome KzgError (ByteList × ℕ)
write_element (buf, offset) v = do
  buf' ← copy_from_slice buf offset (offset + bytes_per_field_element) v
  ok (buf', offset + bytes_per_field_element)

module _ (s : Substrate) where
  open s use {Fr, AffineG1, affine_into}

  -- what `compute_challenge` hashes
  unfoldable pub challenge_input : PolynomialEvalForm Fr → AffineG1 → Outcome KzgError ByteList
  challenge_input blob_poly commitment =
      let domain_size = length fiat_shamir_protocol_domain in
      let blob_size = len s blob_poly * bytes_per_field_element in
      let challenge_input_size = domain_size + 8 + blob_size + size_of_g1_affine_compressed in
      do
        buf1 ←
            copy_from_slice (replicate challenge_input_size 0) 0 domain_size
              fiat_shamir_protocol_domain
        buf2 ←
            copy_from_slice buf1 domain_size (domain_size + 8) (usize_to_be_bytes (len s blob_poly))
        blob_bytes ← to_byte_array s blob_poly.evaluations blob_size
        let offset = domain_size + 8
        buf3 ← copy_from_slice buf2 offset (offset + length blob_bytes) blob_bytes
        let end = offset + length blob_bytes
        commit_bytes ← serialize_g1_compressed s commitment
        copy_from_slice buf3 end (end + size_of_g1_affine_compressed) commit_bytes

  unfoldable pub compute_challenge : PolynomialEvalForm Fr → AffineG1 → Outcome KzgError Fr
  unfolding challenge_input
  compute_challenge blob_poly commitment = do
    validate_g1_point s (affine_into commitment)
    buf ← challenge_input blob_poly commitment
    hash_to_field_element s buf

  -- the loop over pairs of a polynomial and a commitment
  unfoldable pub evaluate_all :
      List (PolynomialEvalForm Fr × AffineG1)
      → List Fr
      → List Fr
      → Outcome KzgError (List Fr × List Fr)
  unfolding compute_challenge
  evaluate_all [] zs ys = ok (zs, ys)
  evaluate_all ((poly, commit) ∷ pairs) zs ys = do
    z ← compute_challenge poly commit
    y ← evaluate_polynomial_in_evaluation_form s poly z
    evaluate_all pairs (zs ++ z ∷ []) (ys ++ y ∷ [])

  unfoldable pub compute_challenges_and_evaluate_polynomial :
      List (PolynomialEvalForm Fr) → List AffineG1 → Outcome KzgError (List Fr × List Fr)
  unfolding evaluate_all
  compute_challenges_and_evaluate_polynomial blobs_data commitments =
      if not (length blobs_data == length commitments) && not (length blobs_data == 0)
      then err (generic_error "length's of the input are not the same or is empty")
      else evaluate_all (zip blobs_data commitments) [] []

  module _ (commitments : List AffineG1) (zs ys : List Fr) (proofs : List AffineG1) where
    -- the loop on indices, from `i`
    unfoldable pub write_entries : ℕ → ℕ → ByteList × ℕ → Outcome KzgError (ByteList × ℕ)
    unfolding write_element
    write_entries zero i at = ok at
    write_entries (suc rounds) i at = do
      commitment ← or_panic (get_elem? commitments i)
      commitment_bytes ← serialize_g1_compressed s commitment
      at1 ← write_element at commitment_bytes
      z ← or_panic (get_elem? zs i)
      at2 ← write_element at1 (serialize_fr_le s z)
      y ← or_panic (get_elem? ys i)
      at3 ← write_element at2 (serialize_fr_le s y)
      proof ← or_panic (get_elem? proofs i)
      proof_bytes ← serialize_g1_compressed s proof
      at4 ← write_element at3 proof_bytes
      write_entries rounds (i + 1) at4

    -- what `compute_r_powers` hashes
    unfoldable pub r_input : List ℕ → Outcome KzgError ByteList
    unfolding write_lengths write_entries
    r_input blob_lengths =
        let n = length commitments in
        let input_size =
          40
          + n
            * (bytes_per_field_element
                + 2 * bytes_per_field_element
                + bytes_per_field_element
                + 8) in
        do
          buf1 ← copy_from_slice (replicate input_size 0) 0 24 random_challenge_kzg_batch_domain
          buf2 ← copy_from_slice buf1 32 40 (usize_to_be_bytes n)
          assert (leb (24 + n * 8) (length buf2))
          buf3 ← write_lengths n 24 blob_lengths buf2
          (buf4, offset) ← write_entries n 0 (buf3, 40 + n * 8)
          if not (offset == input_size) then err invalid_input_length else ok buf4

    unfoldable pub compute_r_powers : List ℕ → Outcome KzgError (List Fr)
    unfolding r_input
    compute_r_powers blob_lengths = do
      buf ← r_input blob_lengths
      r ← hash_to_field_element s buf
      ok (compute_powers s r (length commitments))
