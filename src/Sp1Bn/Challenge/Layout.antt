-- ===== src/Sp1Bn/Challenge/Layout.antt =====
-- The layout of the transcripts of crates/sp1-bn-verifier/src: of one blob and its commitment
-- (helpers.rs), and of a batch (batch.rs).
use mathlib.Core.List.{append_assoc, append-nil}
use hokulea.Base.{
  ℕ, ◌+◌, ◌-◌, ◌*◌, ◌≡◌, refl, true, List, [], ◌++◌, ok, ◌>>=◌, ◌==◌, leb, length, length-append,
  length-replicate, replicate, take_of_length-le, arith,
}
use hokulea.Base.Buffers.{copy_from_slice-replicate}
use hokulea.Base.Bytes.{to_be_bytes, length-to_be_bytes}
use hokulea.Sp1Bn.{KzgError, Substrate}
use hokulea.Sp1Bn.Bytes.{usize_to_be_bytes, serialize_g1_compressed}
use hokulea.Sp1Bn.Bytes.Arrays.{element_bytes, length-element_bytes, to_byte_array_lem}
use hokulea.Sp1Bn.Bytes.Sizes.{serialize_g1_compressed_total}
use hokulea.Sp1Bn.Challenge.{challenge_input, r_input}
use hokulea.Sp1Bn.Consts.{fiat_shamir_protocol_domain, random_challenge_kzg_batch_domain}
use hokulea.Sp1Bn.Laws.{IsSubstrate}
use hokulea.Sp1Bn.Polynomial.{PolynomialEvalForm, len}
use hokulea.Sp1Bn.Challenge.Lengths.{
  length_bytes, length-length_bytes, write_lengths_lem, gap, length-gap, gap_lem, write_domain,
  write_count,
}
use hokulea.Sp1Bn.Challenge.Entries.{
  Entry, entry_bytes, commitments_of, zs_of, ys_of, proofs_of, length-commitments_of,
  entry_bytes_total, write_entries_lem,
}

module _ (s : Substrate) (laws : IsSubstrate s) where
  open s use {Fr, AffineG1}

  -- Over a curve library with its laws, the transcript of a batch, with a length for each entry,
  -- is the domain, the lengths, sixteen bytes, and the entries. No write of it is out of range.
  -- The count of the entries stands in the sixteen bytes only if it is 1; otherwise they are
  -- zeros.
  pub r_input_layout :
      (entries : List (Entry Fr AffineG1)) (blob_lengths : List ℕ)
      → length blob_lengths ≡ length entries
      → r_input s
          (commitments_of s entries)
          (zs_of s entries)
          (ys_of s entries)
          (proofs_of s entries)
          blob_lengths
        ≡ entry_bytes s entries >>= λ bytes. ok (
            random_challenge_kzg_batch_domain
            ++ (length_bytes blob_lengths ++ (gap (length entries) ++ bytes)))
  unfolding r_input usize_to_be_bytes
  r_input_layout entries blob_lengths h =
      let n = length entries in
      let count = length-commitments_of s entries in
      let (bytes, bytes_eq, bytes_len) = entry_bytes_total s laws entries in
      let domain = random_challenge_kzg_batch_domain in
      let be = to_be_bytes 8 n in
      let be_len = length-to_be_bytes 8 n in
      let behind = be ++ replicate (n * 136) 0 in
      let behind_len = length-append be (replicate (n * 136) 0) in
      let zeros = length-replicate {A = ℕ} (n * 136) 0 in
      let lengths = length_bytes blob_lengths in
      let front = domain ++ (lengths ++ gap n) in
      let front_len = length-append lengths (gap n) in
      let room : leb (24 + n * 8) (length (domain ++ (replicate 8 0 ++ behind))) ≡ true =
        ground (arith, behind_len, be_len, zeros) in
      let regroup : domain ++ (lengths ++ (gap n ++ replicate (n * 128) 0))
          ≡ front ++ replicate (n * 128) 0 =
        simp append_assoc in
      let full : (40 + n * 8 + n * 128 == 40 + n * 136) ≡ true = ground arith in
      rw
        (
          count,
          bytes_eq,
          write_domain n,
          write_count n be be_len,
          room,
          write_lengths_lem blob_lengths domain (replicate 8 0 ++ behind) n 24 h refl
              (omega (arith, behind_len, be_len, zeros)),
          gap_lem n,
          regroup,
          write_entries_lem s laws entries [] entries 0 (40 + n * 8) (n * 128) front bytes refl refl
              (omega (arith, front_len, length-gap n, length-length_bytes blob_lengths)) refl
              bytes_eq,
          full,
        )
        (simp append_assoc)

  -- The transcript of one blob: the domain, the number of its field elements when padded, their bytes
  -- and the commitment, compressed. No write of it is out of range.
  pub challenge_input_layout :
      (blob_poly : PolynomialEvalForm Fr) (commitment : AffineG1)
      → challenge_input s blob_poly commitment
        ≡ serialize_g1_compressed s commitment >>= λ commit_bytes. ok (
            fiat_shamir_protocol_domain
            ++ (to_be_bytes 8 (len s blob_poly)
                ++ (element_bytes s blob_poly.evaluations ++ commit_bytes)))
  unfolding challenge_input usize_to_be_bytes len
  challenge_input_layout blob_poly commitment =
      let (c, c_eq, c_len) = serialize_g1_compressed_total s laws commitment in
      let n = length blob_poly.evaluations in
      let size = 24 + 8 + n * 32 + 32 in
      let elements = element_bytes s blob_poly.evaluations in
      let e_len = length-element_bytes s laws blob_poly.evaluations in
      let domain = fiat_shamir_protocol_domain in
      let be = to_be_bytes 8 n in
      let b2 = domain ++ be in
      let b3 = b2 ++ elements in
      let l2 = length-append domain be in
      let l3 = length-append b2 elements in
      let be_len = length-to_be_bytes 8 n in
      let left : size - 24 - 8 - n * 32 - 32 ≡ 0 = omega arith in
      let whole = take_of_length-le (n * 32) elements (omega arith) in
      rw
        (
          copy_from_slice-replicate {E = KzgError} [] domain 0 0 24 size 24 refl refl refl
              (omega arith),
          copy_from_slice-replicate {E = KzgError} domain be 0 24 32 (size - 24) 8 refl be_len refl
              (omega arith),
          to_byte_array_lem s laws blob_poly.evaluations (n * 32),
          whole,
          e_len,
          copy_from_slice-replicate {E = KzgError} b2 elements 0 32 (32 + n * 32) (size - 24 - 8)
              (n * 32) (omega arith) e_len refl (omega arith),
          c_eq,
          copy_from_slice-replicate {E = KzgError} b3 c 0 (32 + n * 32) (32 + n * 32 + 32)
              (size - 24 - 8 - n * 32) 32 (omega arith) c_len refl (omega arith),
          left,
          append-nil (b3 ++ c),
        )
        (simp append_assoc)
