-- ===== src/Canoe.antt =====
-- canoe/verifier/src/verifier.rs and cert_validity.rs, canoe/provider/src/canoe_provider.rs: the
-- claim that a certificate is valid at an L1 block, the interface of the verifiers of such claims,
-- and the input from which a proof of one is made.
pub mod Addresses
pub mod ChainSpec
pub mod Journal
pub mod Binding
pub mod Inputs
pub mod Solidity
pub mod Call
pub mod Client
pub mod Prover
use hokulea.Base.{ℕ, String, Bool, Option, List, [], Outcome, ok}
use hokulea.Cert.{ByteList}
use hokulea.Cert.Commitment.{AltDaCommitment}

pub record CertValidity : Type 0 where
  pub claimed_validity : Bool
  pub l1_head_block_hash : ByteList
  pub l1_head_block_number : ℕ
  pub l1_head_block_timestamp : ℕ
  pub l1_chain_id : ℕ
  pub verifier_address : ByteList

pub record CanoeInput : Type 0 where
  pub altda_commitment : AltDaCommitment
  pub claimed_validity : Bool
  pub l1_head_block_hash : ByteList
  pub l1_head_block_number : ℕ
  pub l1_chain_id : ℕ
  pub verifier_address : ByteList

pub data HokuleaCanoeVerificationError : Type 0 where
  inconsistent_public_journal missing_proof : HokuleaCanoeVerificationError
  invalid_proof_and_journal unable_to_deserialize_receipt : String → HokuleaCanoeVerificationError

abbrev pub Claims : Type 0
Claims = List (AltDaCommitment × CertValidity)

-- `CanoeVerifier`. `to_journals_bytes` has no error of its own, but may panic.
pub record CanoeVerifier : Type 0 where
  pub validate_cert_receipt :
      Claims → Option ByteList → Outcome HokuleaCanoeVerificationError (Unit {0})
  pub to_journals_bytes : Claims → Outcome HokuleaCanoeVerificationError ByteList

-- `CanoeNoOpVerifier`, for tests
abbrev pub canoe_no_op_verifier : CanoeVerifier
canoe_no_op_verifier = record {
  validate_cert_receipt = λ claims proof. ok tt;
  to_journals_bytes = λ claims. ok [];
}
