-- ===== src/Tests/Kzg.antt =====
-- The theorems on the sp1-bn verifier, for the laws over the field of two elements, and for the roots
-- of unity over the scalars of BN254.
use hokulea.Base.{
  ℕ, zero, suc, ◌*◌, ◌%◌, ◌^◌, ◌≤◌, ◌<◌, ◌≡◌, ◌↔◌, ◌≢◌, refl, Bool, true, false, some, List, [],
  ◌∷◌, ◌++◌, ok, err, panic, ◌>>=◌, replicate, arith,
}
use hokulea.Cert.{G1Point}
use hokulea.Sp1Bn.{generic_error}
use hokulea.Sp1Bn.Batch.{verify_kzg_proof_batch, verify_blob_kzg_proof_batch}
use hokulea.Sp1Bn.Batch.Complete.{verify_kzg_proof_batch_iff, verify_kzg_proof_batch_complete}
use hokulea.Sp1Bn.Batch.Equation.{BatchEquation, shifted}
use hokulea.Sp1Bn.Batch.Total.{verify_blob_kzg_proof_batch-ne-panic}
use hokulea.Sp1Bn.Bytes.{to_byte_array, to_fr_array_canonical, hash_to_field_element}
use hokulea.Sp1Bn.Bytes.Arrays.{to_fr_array_canonical-to_byte_array}
use hokulea.Sp1Bn.Challenge.{r_input}
use hokulea.Sp1Bn.Challenge.Lengths.{length_bytes, gap}
use hokulea.Sp1Bn.Challenge.Entries.{Entry, commitments_of, zs_of, ys_of, proofs_of, entry_bytes}
use hokulea.Sp1Bn.Challenge.Layout.{r_input_layout}
use hokulea.Sp1Bn.Consts.{
  g2_tau, primitive_roots_of_unity_dec, get_primitive_root_of_unity, mainnet_srs_g1_size,
  random_challenge_kzg_batch_domain,
}
use hokulea.Sp1Bn.Polynomial.{PolynomialEvalForm, new}
use hokulea.Sp1Bn.Polynomial.Padding.{IsPadded, new_lem}
use hokulea.Sp1Bn.Powers.{calculate_roots_of_unity}
use hokulea.Sp1Bn.Powers.Roots.{power, powers, HasOrder, calculate_roots_of_unity_lem}
use hokulea.Tests.Curves.{
  bits, bits-IsSubstrate, bits-IsEncoding, bits-IsPairing, bits-IsTarget, order, numbers,
  numbers_eq_iff,
}

-- two entries whose proofs open their commitments
abbrev entries : List (Entry Bool Bool)
entries =
    record { commitment = true; z = false; y = false; proof = true }
    ∷ record { commitment = true; z = true; y = true; proof = true }
    ∷ []

r_input_layout_example :
    r_input bits
      (commitments_of bits entries)
      (zs_of bits entries)
      (ys_of bits entries)
      (proofs_of bits entries)
      (4 ∷ 8 ∷ [])
    ≡ entry_bytes bits entries >>= λ bytes.
        ok (random_challenge_kzg_batch_domain ++ (length_bytes (4 ∷ 8 ∷ []) ++ (gap 2 ++ bytes)))
r_input_layout_example = r_input_layout bits bits-IsSubstrate entries (4 ∷ 8 ∷ []) refl

tau : g2_tau bits ≡ ok true
unfolding g2_tau
tau = refl

verify_kzg_proof_batch_iff_example :
    (r : Bool) × ((r_input bits
          (commitments_of bits entries)
          (zs_of bits entries)
          (ys_of bits entries)
          (proofs_of bits entries)
          (4 ∷ 8 ∷ [])
        >>= hash_to_field_element bits)
      ≡ ok r)
    × (accepted : Bool) × (verify_kzg_proof_batch bits
          (commitments_of bits entries)
          (zs_of bits entries)
          (ys_of bits entries)
          (proofs_of bits entries)
          (4 ∷ 8 ∷ [])
        ≡ ok accepted)
    × ((accepted ≡ true)
        ↔ BatchEquation bits bits-IsSubstrate bits-IsPairing entries (powers bits r 2) true)
verify_kzg_proof_batch_iff_example =
    verify_kzg_proof_batch_iff bits bits-IsSubstrate bits-IsPairing bits-IsTarget entries
      (4 ∷ 8 ∷ []) true (omega arith) refl tau

verify_kzg_proof_batch_complete_example :
    verify_kzg_proof_batch bits
      (commitments_of bits entries)
      (zs_of bits entries)
      (ys_of bits entries)
      (proofs_of bits entries)
      (4 ∷ 8 ∷ [])
    ≡ ok true
unfolding shifted
verify_kzg_proof_batch_complete_example =
    verify_kzg_proof_batch_complete bits bits-IsSubstrate bits-IsPairing entries (4 ∷ 8 ∷ []) true
      (omega arith) refl tau (refl, (refl, tt))

abbrev point : G1Point
point = record { x = 1; y = 2 }

verify_blob_kzg_proof_batch-ne-panic_example :
    verify_blob_kzg_proof_batch bits (replicate 32 1 ∷ []) (point ∷ []) (replicate 64 1 ∷ [])
    ≢ panic
verify_blob_kzg_proof_batch-ne-panic_example =
    verify_blob_kzg_proof_batch-ne-panic bits bits-IsSubstrate bits-IsPairing (replicate 32 1 ∷ [])
      (point ∷ []) (replicate 64 1 ∷ [])

to_fr_array_canonical-to_byte_array_example :
    (to_byte_array bits (true ∷ false ∷ []) 64 >>= to_fr_array_canonical bits)
    ≡ ok (true ∷ false ∷ [])
to_fr_array_canonical-to_byte_array_example =
    to_fr_array_canonical-to_byte_array bits bits-IsSubstrate bits-IsEncoding (true ∷ false ∷ [])

new_lem_example :
    (3 ≤ mainnet_srs_g1_size
      → (p : PolynomialEvalForm Bool) × (new bits (true ∷ true ∷ true ∷ []) ≡ ok p)
        × IsPadded bits (true ∷ true ∷ true ∷ []) p)
    × (mainnet_srs_g1_size < 3
        → new bits (true ∷ true ∷ true ∷ [])
          ≡ err (generic_error "Input size exceeds maximum polynomial size"))
new_lem_example = new_lem bits (true ∷ true ∷ true ∷ [])

-- the root of order 4
abbrev root : ℕ
root = 21888242871839275217838484774961031246007050428528088939761107053157389710902

found : get_primitive_root_of_unity numbers 2 ≡ ok (some root)
unfolding get_primitive_root_of_unity primitive_roots_of_unity_dec
found = refl

root-HasOrder : HasOrder numbers root 4
unfolding power
root-HasOrder = (refl, not_before)
  where
    not_before : (i : ℕ) → 0 < i → i < 4 → power numbers root i ≢ 1
    not_before zero h k e = absurd (omega arith)
    not_before (suc zero) h k e = absurd (omega arith)
    not_before (suc (suc zero)) h k e = absurd (omega arith)
    not_before (suc (suc (suc zero))) h k e = absurd (omega arith)
    not_before (suc (suc (suc (suc i)))) h k e = absurd (omega arith)

below_four : (i : ℕ) → i < 2 → 2 ^ i < 3
below_four zero h = omega arith
below_four (suc zero) h = omega arith
below_four (suc (suc i)) h = absurd (omega arith)

calculate_roots_of_unity_lem_example :
    calculate_roots_of_unity numbers 96 ≡ ok (powers numbers root 4)
calculate_roots_of_unity_lem_example =
    calculate_roots_of_unity_lem numbers numbers_eq_iff 96 2 root (omega arith) (omega arith)
      (omega arith, below_four) found refl root-HasOrder

-- The theorem's result in numbers.
roots_of_three_elements :
    powers numbers root 4
    ≡ 1 ∷ root ∷ (root * root % order) ∷ (root * root % order * root % order) ∷ []
unfolding powers power
roots_of_three_elements = refl
