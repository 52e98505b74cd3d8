-- ===== src/Canoe/Journal.antt =====
-- canoe/sp1-cc/verifier/src/lib.rs: the verifier for proofs made by sp1-cc, and the journal that it
-- compares with the one the proof has committed to.
use hokulea.Base.{
  ℕ, String, Bool, not, Option, List, [], ◌∷◌, Outcome, ok, panic, ◌>>=◌, ◌>>◌, expect, assert,
  traverse, if◌then◌else◌,
}
use hokulea.Cert.{ByteList}
use hokulea.Cert.Codec.{Alloy}
use hokulea.Cert.Commitment.{AltDaCommitment, to_rlp_bytes}
use hokulea.Canoe.{CertValidity, Claims, CanoeVerifier, HokuleaCanoeVerificationError}
use hokulea.Canoe.ChainSpec.{Reth, derive_chain_spec_id}
use hokulea.Witness.{is_empty}

-- the Solidity struct `Journal` (canoe/bindings/src/lib.rs)
pub record Journal : Type 0 where
  pub block_number : ℕ
  pub blockhash : ByteList
  pub cert_verifier_address : ByteList
  pub input : ByteList
  pub output : Bool
  pub l1_chain_id : ℕ
  pub chain_config_hash : ByteList
  pub chain_spec_hash : ByteList

-- What the verifier takes from its libraries: bincode, the ABI encoding of sp1-cc's `ChainConfig`,
-- rsp's `Genesis`, SHA-256, and the verification of an SP1 proof with the key of the sp1-cc client,
-- which panics on a wrong proof.
pub record Sp1 (reth : Reth) : Type 1 where
  pub Genesis : Type 0
  pub spec_id_to_string : reth.SpecId → String
  pub abi_encode_packed : ℕ → String → ByteList
  pub genesis_try_from : ℕ → Outcome String Genesis
  pub serialize_genesis : Genesis → Outcome String ByteList
  pub serialize_journals : List Journal → Outcome String ByteList
  pub sha256 : ByteList → ByteList
  pub verify_sp1_proof : List ℕ → ByteList → Outcome HokuleaCanoeVerificationError (Unit {0})

abbrev pub v_key : List ℕ
v_key =
    645065344 ∷ 790782758 ∷ 208923010 ∷ 697337507 ∷ 818842597 ∷ 1276513316 ∷ 2097862760 ∷ 1282309798
    ∷ []

module _ (alloy : Alloy) (reth : Reth) (sp1 : Sp1 reth) where
  unfoldable pub hash_chain_config : ℕ → String → ByteList
  hash_chain_config chain_id active_fork_name =
      alloy.keccak256 (sp1.abi_encode_packed chain_id active_fork_name)

  unfoldable pub derive_chain_config_hash :
      ℕ → ℕ → ℕ → Outcome HokuleaCanoeVerificationError ByteList
  unfolding hash_chain_config
  derive_chain_config_hash l1_chain_id timestamp number = do
    spec_id ← derive_chain_spec_id reth l1_chain_id timestamp number
    ok (hash_chain_config l1_chain_id (sp1.spec_id_to_string spec_id))

  unfoldable pub rsp_genesis_hash : ℕ → Outcome HokuleaCanoeVerificationError ByteList
  rsp_genesis_hash chain_id = do
    genesis ← expect (sp1.genesis_try_from chain_id)
    bytes ← expect (sp1.serialize_genesis genesis)
    ok (alloy.keccak256 bytes)

  -- the body of the loop of `to_journals_bytes`
  unfoldable pub journal :
      AltDaCommitment × CertValidity → Outcome HokuleaCanoeVerificationError Journal
  unfolding derive_chain_config_hash rsp_genesis_hash
  journal (altda_commitment, claim) = do
    config_hash ←
        derive_chain_config_hash claim.l1_chain_id claim.l1_head_block_timestamp
          claim.l1_head_block_number
    genesis_hash ← rsp_genesis_hash claim.l1_chain_id
    ok (record {
      block_number = claim.l1_head_block_number;
      blockhash = claim.l1_head_block_hash;
      cert_verifier_address = claim.verifier_address;
      input = to_rlp_bytes alloy altda_commitment;
      output = claim.claimed_validity;
      l1_chain_id = claim.l1_chain_id;
      chain_config_hash = config_hash;
      chain_spec_hash = genesis_hash;
    })

  unfoldable pub to_journals_bytes : Claims → Outcome HokuleaCanoeVerificationError ByteList
  unfolding journal
  to_journals_bytes claims = do
    journals ← traverse journal claims
    expect (sp1.serialize_journals journals)

  -- `zkvm` says whether the target is the zkVM
  unfoldable pub validate_cert_receipt :
      Bool → Claims → Option ByteList → Outcome HokuleaCanoeVerificationError (Unit {0})
  unfolding to_journals_bytes
  validate_cert_receipt zkvm claims canoe_proof_bytes = do
    assert (not (is_empty claims))
    if not zkvm then panic else do
      journals_bytes ← to_journals_bytes claims
      sp1.verify_sp1_proof v_key (sp1.sha256 journals_bytes)
      ok tt

  -- `CanoeSp1CCVerifier`
  abbrev pub canoe_sp1_cc_verifier : Bool → CanoeVerifier
  canoe_sp1_cc_verifier zkvm = record {
    validate_cert_receipt = validate_cert_receipt zkvm;
    to_journals_bytes = to_journals_bytes;
  }
