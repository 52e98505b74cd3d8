-- ===== src/Canoe/Solidity.antt =====
-- canoe/bindings/src/lib.rs: the Solidity structs of a certificate, and `to_sol` of
-- crates/eigenda-cert/src/lib.rs, v3_cert.rs and v4_cert.rs, which makes them.
use hokulea.Base.{ℕ, List, map}
use hokulea.Cert
use hokulea.Cert.{ByteList}

pub record G1Point : Type 0 where
  pub x : ℕ
  pub y : ℕ

-- a `uint256[2]` is a pair
pub record G2Point : Type 0 where
  pub x : ℕ × ℕ
  pub y : ℕ × ℕ

pub record BlobCommitment : Type 0 where
  pub commitment : G1Point
  pub length_commitment : G2Point
  pub length_proof : G2Point
  pub length : ℕ

pub record BlobHeaderV2 : Type 0 where
  pub version : ℕ
  pub quorum_numbers : ByteList
  pub commitment : BlobCommitment
  pub payment_header_hash : ByteList

pub record BlobCertificate : Type 0 where
  pub blob_header : BlobHeaderV2
  pub signature : ByteList
  pub relay_keys : List ℕ

pub record BlobInclusionInfo : Type 0 where
  pub blob_certificate : BlobCertificate
  pub blob_index : ℕ
  pub inclusion_proof : ByteList

pub record BatchHeaderV2 : Type 0 where
  pub batch_root : ByteList
  pub reference_block_number : ℕ

pub record NonSignerStakesAndSignature : Type 0 where
  pub non_signer_quorum_bitmap_indices : List ℕ
  pub non_signer_pubkeys : List G1Point
  pub quorum_apks : List G1Point
  pub apk_g2 : G2Point
  pub sigma : G1Point
  pub quorum_apk_indices : List ℕ
  pub total_stake_indices : List ℕ
  pub non_signer_stake_indices : List (List ℕ)

pub record EigenDaCertV3 : Type 0 where
  pub batch_header_v2 : BatchHeaderV2
  pub blob_inclusion_info : BlobInclusionInfo
  pub non_signer_stakes_and_signature : NonSignerStakesAndSignature
  pub signed_quorum_numbers : ByteList

pub record EigenDaCertV4 : Type 0 where
  pub batch_header_v2 : BatchHeaderV2
  pub blob_inclusion_info : BlobInclusionInfo
  pub non_signer_stakes_and_signature : NonSignerStakesAndSignature
  pub signed_quorum_numbers : ByteList
  pub offchain_derivation_version : ℕ

-- the status codes of the contract
pub data StatusCode : Type 0 where
  null_error success unused_historical_invalid_inclusion_proof : StatusCode
  unused_historical_security_assumptions_not_met : StatusCode
  unused_historical_blob_quorums_not_subset : StatusCode
  unused_historical_required_quorums_not_subset : StatusCode
  invalid_cert internal_error : StatusCode

unfoldable pub g1_point_to_sol : Cert.G1Point → G1Point
g1_point_to_sol p = record { x = p.x; y = p.y }

unfoldable pub g2_point_to_sol : Cert.G2Point → G2Point
g2_point_to_sol p = record { x = (p.x.first, p.x.second); y = (p.y.first, p.y.second) }

unfoldable pub blob_commitment_to_sol : Cert.BlobCommitment → BlobCommitment
unfolding g1_point_to_sol g2_point_to_sol
blob_commitment_to_sol c = record {
  commitment = g1_point_to_sol c.commitment;
  length_commitment = g2_point_to_sol c.length_commitment;
  length_proof = g2_point_to_sol c.length_proof;
  length = c.length;
}

unfoldable pub blob_header_to_sol : Cert.BlobHeaderV2 → BlobHeaderV2
unfolding blob_commitment_to_sol
blob_header_to_sol h = record {
  version = h.version;
  quorum_numbers = h.quorum_numbers;
  payment_header_hash = h.payment_header_hash;
  commitment = blob_commitment_to_sol h.commitment;
}

unfoldable pub blob_certificate_to_sol : Cert.BlobCertificate → BlobCertificate
unfolding blob_header_to_sol
blob_certificate_to_sol c = record {
  signature = c.signature;
  relay_keys = c.relay_keys;
  blob_header = blob_header_to_sol c.blob_header;
}

unfoldable pub blob_inclusion_info_to_sol : Cert.BlobInclusionInfo → BlobInclusionInfo
unfolding blob_certificate_to_sol
blob_inclusion_info_to_sol i = record {
  blob_index = i.blob_index;
  inclusion_proof = i.inclusion_proof;
  blob_certificate = blob_certificate_to_sol i.blob_certificate;
}

unfoldable pub batch_header_to_sol : Cert.BatchHeaderV2 → BatchHeaderV2
batch_header_to_sol h = record {
  batch_root = h.batch_root;
  reference_block_number = h.reference_block_number;
}

unfoldable pub non_signer_to_sol : Cert.NonSignerStakesAndSignature → NonSignerStakesAndSignature
unfolding g1_point_to_sol g2_point_to_sol
non_signer_to_sol n = record {
  non_signer_quorum_bitmap_indices = n.non_signer_quorum_bitmap_indices;
  non_signer_pubkeys = map g1_point_to_sol n.non_signer_pubkeys;
  quorum_apks = map g1_point_to_sol n.quorum_apks;
  apk_g2 = g2_point_to_sol n.apk_g2;
  sigma = g1_point_to_sol n.sigma;
  quorum_apk_indices = n.quorum_apk_indices;
  total_stake_indices = n.total_stake_indices;
  non_signer_stake_indices = n.non_signer_stake_indices;
}

unfoldable pub v3_to_sol : Cert.EigenDaCertV3 → EigenDaCertV3
unfolding batch_header_to_sol blob_inclusion_info_to_sol non_signer_to_sol
v3_to_sol c = record {
  batch_header_v2 = batch_header_to_sol c.batch_header_v2;
  blob_inclusion_info = blob_inclusion_info_to_sol c.blob_inclusion_info;
  non_signer_stakes_and_signature = non_signer_to_sol c.nonsigner_stake_and_signature;
  signed_quorum_numbers = c.signed_quorum_numbers;
}

unfoldable pub v4_to_sol : Cert.EigenDaCertV4 → EigenDaCertV4
unfolding batch_header_to_sol blob_inclusion_info_to_sol non_signer_to_sol
v4_to_sol c = record {
  batch_header_v2 = batch_header_to_sol c.batch_header_v2;
  blob_inclusion_info = blob_inclusion_info_to_sol c.blob_inclusion_info;
  non_signer_stakes_and_signature = non_signer_to_sol c.nonsigner_stake_and_signature;
  signed_quorum_numbers = c.signed_quorum_numbers;
  offchain_derivation_version = c.offchain_derivation_version;
}
