-- ===== src/Canoe/Call.antt =====
-- canoe/provider/src/verifier_caller.rs: the call of the verifier contract for a certificate. The ABI
-- encoding is a parameter.
use hokulea.Canoe.Solidity
use hokulea.Canoe.Solidity.{v3_to_sol, v4_to_sol}
use hokulea.Cert.{ByteList, EigenDaCertV2, EigenDaCertV3}
use hokulea.Cert.Commitment.{AltDaCommitment, EigenDaVersionedCert, v2, v3, v4}

-- `abi_encode` of the two structs
pub record Abi : Type 0 where
  pub abi_encode_v3 : Solidity.EigenDaCertV3 → ByteList
  pub abi_encode_v4 : Solidity.EigenDaCertV4 → ByteList

-- `checkDACertCall`
pub record CheckDaCertCall : Type 0 where
  pub abi_encoded_cert : ByteList

pub data CertVerifierCall : Type 0 where
  abi_encode_interface : CheckDaCertCall → CertVerifierCall

-- the fields of a V2 certificate, as those of a V3 certificate
unfoldable pub v3_of_v2 : EigenDaCertV2 → EigenDaCertV3
v3_of_v2 v2_cert = record {
  batch_header_v2 = v2_cert.batch_header_v2;
  blob_inclusion_info = v2_cert.blob_inclusion_info;
  nonsigner_stake_and_signature = v2_cert.nonsigner_stake_and_signature;
  signed_quorum_numbers = v2_cert.signed_quorum_numbers;
}

module _ (abi : Abi) where
  unfoldable pub build_cert : EigenDaVersionedCert → CertVerifierCall
  unfolding v3_of_v2
  build_cert (v2 v2_cert) =
      abi_encode_interface
        (record { abi_encoded_cert = abi.abi_encode_v3 (v3_to_sol (v3_of_v2 v2_cert)) })
  build_cert (v3 cert) =
      abi_encode_interface (record { abi_encoded_cert = abi.abi_encode_v3 (v3_to_sol cert) })
  build_cert (v4 cert) =
      abi_encode_interface (record { abi_encoded_cert = abi.abi_encode_v4 (v4_to_sol cert) })

  -- `CertVerifierCall::build`
  unfoldable pub build : AltDaCommitment → CertVerifierCall
  unfolding build_cert
  build altda_commitment = build_cert altda_commitment.versioned_cert
