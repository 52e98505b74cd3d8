-- ===== src/Canoe/Prover/Sketch.antt =====
-- canoe/sp1-cc/host/src/lib.rs: the host of the canoe proof, which makes the input of the guest program
-- and has it proved.
use hokulea.Base.{
  ℕ, String, not, Option, none, some, List, [], ◌∷◌, Outcome, ok, err, panic, ◌>>=◌, ◌>>◌, expect,
  or_panic, assert, map_err, ◌==◌, if◌then◌else◌,
}
use hokulea.Base.Bytes.{bytes_eq}
use hokulea.Canoe.{CanoeInput}
use hokulea.Canoe.Call.{Abi}
use hokulea.Canoe.ChainSpec.{Reth}
use hokulea.Canoe.Client.{
  ContractInput, Executor, is_success, bool_eq, contract_input, check_common,
}
use hokulea.Canoe.Journal.{Sp1}
use hokulea.Canoe.Prover.{CanoeProvider, Report, message, prover_failed}
use hokulea.Cert.{ByteList}

-- What the host takes from its libraries: rsp's genesis of a JSON text, read from a file; sp1-cc's
-- sketch of the L1 state at a block, which a call extends by the state that it has touched; bincode;
-- and SP1's prover.
pub record Prover {reth : Reth} {sp1 : Sp1 reth} (executor : Executor sp1) : Type 1 where
  pub holesky_genesis : Outcome String sp1.Genesis
  pub kurtosis_devnet_genesis : Outcome String sp1.Genesis
  pub EvmSketch : Type 0
  pub build_sketch : ℕ → sp1.Genesis → Outcome String EvmSketch
  pub header_hash : EvmSketch → ByteList
  pub call_raw : ContractInput → EvmSketch → Outcome String (ByteList × EvmSketch)
  pub finalize : EvmSketch → Outcome String executor.Sketch
  pub serialize_sketch : executor.Sketch → Outcome String ByteList
  pub Proof : Type 0
  pub Compressed : Type 0
  pub compressed : Proof → Option Compressed
  pub generate_canoe_proof : ByteList × List CanoeInput → Outcome Report Proof

module _ (abi : Abi) {reth : Reth} {sp1 : Sp1 reth} {executor : Executor sp1}
    (prover : Prover executor) where
  open prover use {EvmSketch}

  -- a genesis that rsp does not know is read from a file
  unfoldable pub custom_genesis : ℕ → Outcome Report sp1.Genesis
  custom_genesis l1_chain_id =
      if l1_chain_id == 17000
      then expect prover.holesky_genesis
      else if l1_chain_id == 3151908
      then expect prover.kurtosis_devnet_genesis
      else panic

  unfoldable pub genesis_or_custom : ℕ → Outcome String sp1.Genesis → Outcome Report sp1.Genesis
  unfolding custom_genesis
  genesis_or_custom l1_chain_id (ok genesis) = ok genesis
  genesis_or_custom l1_chain_id (err e) = custom_genesis l1_chain_id
  genesis_or_custom l1_chain_id panic = panic

  -- the call of one certificate, whose answer must be the claim
  unfoldable pub populate : CanoeInput → EvmSketch → Outcome Report EvmSketch
  populate canoe_input sketch = do
    (returns_bytes, sketch') ← map_err message (
        prover.call_raw
          (contract_input abi canoe_input.verifier_address canoe_input.altda_commitment) sketch)
    returns ← expect (executor.abi_decode_status returns_bytes)
    if not (bool_eq (is_success returns) canoe_input.claimed_validity) then panic else ok sketch'

  unfoldable pub populate_all : List CanoeInput → EvmSketch → Outcome Report EvmSketch
  unfolding populate
  populate_all [] sketch = ok sketch
  populate_all (canoe_input ∷ canoe_inputs) sketch =
      populate canoe_input sketch >>= populate_all canoe_inputs

  -- `canoe_proof_stdin`, with the first of the inputs
  unfoldable pub make_stdin :
      CanoeInput → List CanoeInput → Outcome Report (ByteList × List CanoeInput)
  unfolding genesis_or_custom populate_all
  make_stdin first canoe_inputs = do
    expect (
        check_common first.l1_chain_id first.l1_head_block_number first.l1_head_block_hash
          canoe_inputs)
    genesis ← genesis_or_custom first.l1_chain_id (sp1.genesis_try_from first.l1_chain_id)
    sketch ← map_err prover_failed (prover.build_sketch first.l1_head_block_number genesis)
    assert (bytes_eq first.l1_head_block_hash (prover.header_hash sketch))
    populated ← populate_all canoe_inputs sketch
    evm_state_sketch ← map_err prover_failed (prover.finalize populated)
    input_bytes ← expect (prover.serialize_sketch evm_state_sketch)
    ok (input_bytes, canoe_inputs)

  unfoldable pub canoe_proof_stdin : List CanoeInput → Outcome Report (ByteList × List CanoeInput)
  unfolding make_stdin
  canoe_proof_stdin [] = panic
  canoe_proof_stdin (canoe_input ∷ canoe_inputs) =
      make_stdin canoe_input (canoe_input ∷ canoe_inputs)

  unfoldable pub get_sp1_cc_proof : List CanoeInput → Outcome Report prover.Proof
  unfolding canoe_proof_stdin
  get_sp1_cc_proof canoe_inputs = canoe_proof_stdin canoe_inputs >>= prover.generate_canoe_proof

  -- `CanoeSp1CCProvider`
  unfoldable pub full_proof : List CanoeInput → Outcome Report (Option prover.Proof)
  unfolding get_sp1_cc_proof
  full_proof [] = ok none
  full_proof (canoe_input ∷ canoe_inputs) = do
    proof ← get_sp1_cc_proof (canoe_input ∷ canoe_inputs)
    ok (some proof)

  -- `CanoeSp1CCReducedProofProvider`
  unfoldable pub reduced_proof : List CanoeInput → Outcome Report (Option prover.Compressed)
  unfolding get_sp1_cc_proof
  reduced_proof [] = ok none
  reduced_proof (canoe_input ∷ canoe_inputs) = do
    proof ← get_sp1_cc_proof (canoe_input ∷ canoe_inputs)
    compressed ← or_panic (prover.compressed proof)
    ok (some compressed)

  abbrev pub canoe_sp1_cc_provider : CanoeProvider
  canoe_sp1_cc_provider = record {
    Receipt = prover.Proof;
    create_certs_validity_proof = full_proof;
  }

  abbrev pub canoe_sp1_cc_reduced_proof_provider : CanoeProvider
  canoe_sp1_cc_reduced_proof_provider = record {
    Receipt = prover.Compressed;
    create_certs_validity_proof = reduced_proof;
  }
