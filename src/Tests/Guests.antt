-- ===== src/Tests/Guests.antt =====
-- The theorem on the proof program's provider, at one certificate that the contract holds for valid and
-- its payload of two field elements.
use hokulea.Sp1Bn.Bytes.{
  to_fr_array_canonical, fr_from_usize, hash_to_field_element, serialize_fr_le,
  serialize_g1_compressed, to_byte_array, usize_to_be_bytes, usize_to_decimal,
}
use hokulea.Sp1Bn.Polynomial.{new, len, evaluate_polynomial_in_evaluation_form}
use hokulea.Sp1Bn.Points.{
  g1_point_to_affine, proof_bytes_to_affine, validate_g1_point, g1_lincomb, pairings_verify,
}
use hokulea.Sp1Bn.Challenge.{compute_challenges_and_evaluate_polynomial, compute_r_powers}
use mathlib.Core.List.{zip, zip_with}
use hokulea.Base.Buffers.{copy_from_slice}
use hokulea.Sp1Bn.Powers.{
  next_power_of_two, calculate_roots_of_unity, compute_powers, trailing_zeros,
}
use hokulea.Sp1Bn.Consts.{g2_tau, get_primitive_root_of_unity, primitive_roots_of_unity_dec}
use hokulea.Base.{
  ℕ, ◌≡◌, ◌≢◌, refl, sym, String, Bool, true, false, none, List, [], ◌∷◌, map, Outcome, ok, panic,
  if◌then◌else◌, Bool-cases, inl, inr, All, replicate, arith,
}
use hokulea.Base.Bytes.{bytes_eq, bytes_eq-eq, from_be_bytes, to_be_bytes}
use hokulea.Canoe.{CanoeInput}
use hokulea.Canoe.Call.{Abi, build}
use hokulea.Canoe.ChainSpec.{derive_chain_spec_id}
use hokulea.Canoe.Client.{Executor, main, contract_input, bool_eq}
use hokulea.Canoe.Journal.{
  Sp1, v_key, canoe_sp1_cc_verifier, journal, derive_chain_config_hash, rsp_genesis_hash,
  hash_chain_config, to_journals_bytes, validate_cert_receipt,
}
use hokulea.Canoe.Solidity.{success}
use hokulea.Cert.{ByteList}
use hokulea.Cert.Commitment.{
  to_rlp_bytes, get_num_field_element, get_kzg_commitment, blob_commitment,
}
use hokulea.Errors.{HokuleaErrorKind}
use hokulea.Payload.{num_field_element, serialize}
use hokulea.Preloaded.{cert_validity, blob_of, commitment_of}
use hokulea.Preloaded.Checks.{Checked, FieldElementsAgree, from_witness_complete}
use hokulea.Preloaded.Queue.{loaded}
use hokulea.Sp1Bn.Batch.{batch_verify, verify_blob_kzg_proof_batch, verify_kzg_proof_batch}
use hokulea.Tests.Alloy.{toy, toy-IsAlloy}
use hokulea.Tests.Curves.{numbers}
use hokulea.Tests.Journals.{journals, reth, sp1, serialize-injective}
use hokulea.Tests.Proofs.{input, fetcher, l1_head}
use hokulea.Tests.World.{commitment, encoded}
use hokulea.Witness.{EigenDaWitness, without_proof, proof_of}
use hokulea.Zkvm.{BootInfo, Header, l1_head_of, eigenda_witness_to_preloaded_provider}
use hokulea.Zkvm.Sound.{EntryHolds, eigenda_witness_to_preloaded_provider_sound}

-- what a run on the input commits to
abbrev pub committed : ByteList
committed = journals.put (
    record {
      block_number = 9;
      blockhash = 3 ∷ [];
      cert_verifier_address = 4 ∷ [];
      input = to_rlp_bytes toy commitment;
      output = true;
      l1_chain_id = 1;
      chain_config_hash = toy.keccak256 (1 ∷ []);
      chain_spec_hash = toy.keccak256 (1 ∷ []);
    }
    ∷ [])

-- a proof is accepted for the bytes of that run
abbrev pub proving : Sp1 reth
proving = record sp1 {
  verify_sp1_proof = λ key digest. if bytes_eq digest committed then ok tt else panic;
}

abbrev pub abi : Abi
abi = record { abi_encode_v3 = λ c. 1 ∷ []; abi_encode_v4 = λ c. 2 ∷ [] }

-- a state in which the contract answers with success
abbrev pub executor : Executor proving
executor = record {
  Sketch = ℕ;
  deserialize_sketch = λ bytes. ok 1;
  genesis = λ sketch. sketch;
  Client = ℕ;
  eth = λ sketch. ok sketch;
  header_number = λ client. 9;
  chain_id = λ client. 1;
  AnchorType = Bool;
  is_block_hash = λ anchor. anchor;
  execute = λ client call. ok (record {
    contract_output = call.contract_address;
    anchor_hash = 3 ∷ [];
    anchor_type = true;
    chain_config_hash = toy.keccak256 (1 ∷ []);
  });
  abi_decode_status = λ output. ok success;
}

ran : main toy abi proving executor [] (input ∷ []) ≡ ok committed
unfolding main contract_input build to_rlp_bytes bytes_eq bool_eq
ran = refl

accepted_digest :
    (digest : ByteList) → proving.verify_sp1_proof v_key digest ≡ ok tt → committed ≡ digest
accepted_digest digest h = elim (Bool-cases (bytes_eq digest committed)) [
  | inl same ↦ sym (bytes_eq-eq digest committed same)
  | inr differ ↦ absurd (rejected differ)
]
  where
    rejected : bytes_eq digest committed ≡ false → ⊥
    rejected differ = ground arith

proved :
    (digest : ByteList)
    → proving.verify_sp1_proof v_key digest ≡ ok tt
    → (sketch_bytes : ByteList) × (inputs : List CanoeInput) × (bytes : ByteList) × (main toy abi
          proving executor sketch_bytes inputs
        ≡ ok bytes)
      × (proving.sha256 bytes ≡ digest)
proved digest h = ([], input ∷ [], committed, ran, accepted_digest digest h)

-- a witness without a canoe proof: in the zkVM the proof is an input of the program
abbrev in_zkvm : EigenDaWitness
in_zkvm = record {
  validities = (commitment, true) ∷ [];
  encoded_payloads = (commitment, encoded, replicate 64 7) ∷ [];
  canoe_proof_bytes = none;
}

abbrev boot_info : BootInfo
boot_info = record { l1_head = 3 ∷ []; l1_chain_id = 1 }

abbrev header_by_hash : ByteList → Outcome String Header
header_by_hash hash = ok (record { number = 9; timestamp = 10 })

accepted :
    validate_cert_receipt toy reth proving true
      ((
        commitment,
        record {
          claimed_validity = true;
          l1_head_block_hash = 3 ∷ [];
          l1_head_block_number = 9;
          l1_head_block_timestamp = 10;
          l1_chain_id = 1;
          verifier_address = 4 ∷ [];
        },
      )
        ∷ [])
      none
    ≡ ok tt
unfolding validate_cert_receipt to_journals_bytes journal derive_chain_config_hash rsp_genesis_hash
    hash_chain_config derive_chain_spec_id to_rlp_bytes bytes_eq
accepted = refl

verified :
    batch_verify numbers {E = HokuleaErrorKind}
      (map blob_of in_zkvm.encoded_payloads)
      (map commitment_of in_zkvm.encoded_payloads)
      (map proof_of in_zkvm.encoded_payloads)
    ≡ ok true
unfolding verify_blob_kzg_proof_batch batch_verify blob_of commitment_of to_fr_array_canonical
    serialize from_be_bytes new g1_point_to_affine proof_bytes_to_affine
    compute_challenges_and_evaluate_polynomial zip validate_g1_point to_be_bytes get_kzg_commitment
    copy_from_slice len next_power_of_two blob_commitment verify_kzg_proof_batch fr_from_usize
    hash_to_field_element serialize_fr_le serialize_g1_compressed to_byte_array usize_to_be_bytes
    usize_to_decimal compute_r_powers g2_tau get_primitive_root_of_unity
    primitive_roots_of_unity_dec g1_lincomb pairings_verify evaluate_polynomial_in_evaluation_form
    calculate_roots_of_unity compute_powers trailing_zeros zip_with
verified = refl

checked :
    Checked {E = HokuleaErrorKind}
      (batch_verify numbers)
      (canoe_sp1_cc_verifier toy reth proving true)
      fetcher
      l1_head
      in_zkvm
unfolding get_num_field_element num_field_element cert_validity
checked = (omega arith, (refl, tt), λ ne. (_, refl, accepted), verified)

eigenda_witness_to_preloaded_provider_sound_example :
    (header : Header) × (header_by_hash boot_info.l1_head ≡ ok header)
    × (in_zkvm.validities ≢ []
        → (client : ℕ) × All
            (EntryHolds toy abi proving executor fetcher client (l1_head_of boot_info header))
            in_zkvm.validities)
    × All FieldElementsAgree in_zkvm.encoded_payloads
    × (verify_blob_kzg_proof_batch numbers
          (map blob_of in_zkvm.encoded_payloads)
          (map commitment_of in_zkvm.encoded_payloads)
          (map proof_of in_zkvm.encoded_payloads)
        ≡ ok true)
    × (loaded in_zkvm.validities (map without_proof in_zkvm.encoded_payloads)
        ≡ loaded in_zkvm.validities (map without_proof in_zkvm.encoded_payloads))
unfolding eigenda_witness_to_preloaded_provider l1_head_of
eigenda_witness_to_preloaded_provider_sound_example =
    eigenda_witness_to_preloaded_provider_sound toy abi proving executor fetcher toy-IsAlloy proved
      (λ a b h. h) serialize-injective {E = HokuleaErrorKind} numbers header_by_hash boot_info
      in_zkvm (loaded in_zkvm.validities (map without_proof in_zkvm.encoded_payloads))
      (from_witness_complete {E = HokuleaErrorKind} (batch_verify numbers)
        (canoe_sp1_cc_verifier toy reth proving true) fetcher l1_head in_zkvm checked)
