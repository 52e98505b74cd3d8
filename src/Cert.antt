-- ===== src/Cert.antt =====
-- crates/eigenda-cert/src/lib.rs, v2_cert.rs, v3_cert.rs, v4_cert.rs: the structs of a DA
-- certificate. A field of type `U256`, `u32`, `u16` or of bytes holds its numbers as they are.
pub mod Codec
pub mod Commitment
pub mod RoundTrip
use hokulea.Base.{ℕ, List}

abbrev pub ByteList : Type 0
ByteList = List ℕ

-- `G1Point`, a point on the BN254 G1 curve
pub record G1Point : Type 0 where
  pub x : ℕ
  pub y : ℕ

pub record Fp2 : Type 0 where
  pub first : ℕ
  pub second : ℕ

pub record G2Point : Type 0 where
  pub x : Fp2
  pub y : Fp2

pub record BlobCommitment : Type 0 where
  pub commitment : G1Point
  pub length_commitment : G2Point
  pub length_proof : G2Point
  pub length : ℕ

pub record BlobHeaderV2 : Type 0 where
  pub version : ℕ
  pub quorum_numbers : ByteList
  pub commitment : BlobCommitment
  pub payment_header_hash : ByteList

pub record BlobCertificate : Type 0 where
  pub blob_header : BlobHeaderV2
  pub signature : ByteList
  pub relay_keys : List ℕ

pub record BlobInclusionInfo : Type 0 where
  pub blob_certificate : BlobCertificate
  pub blob_index : ℕ
  pub inclusion_proof : ByteList

pub record BatchHeaderV2 : Type 0 where
  pub batch_root : ByteList
  pub reference_block_number : ℕ

pub record NonSignerStakesAndSignature : Type 0 where
  pub non_signer_quorum_bitmap_indices : List ℕ
  pub non_signer_pubkeys : List G1Point
  pub quorum_apks : List G1Point
  pub apk_g2 : G2Point
  pub sigma : G1Point
  pub quorum_apk_indices : List ℕ
  pub total_stake_indices : List ℕ
  pub non_signer_stake_indices : List (List ℕ)

pub record EigenDaCertV2 : Type 0 where
  pub blob_inclusion_info : BlobInclusionInfo
  pub batch_header_v2 : BatchHeaderV2
  pub nonsigner_stake_and_signature : NonSignerStakesAndSignature
  pub signed_quorum_numbers : ByteList

pub record EigenDaCertV3 : Type 0 where
  pub batch_header_v2 : BatchHeaderV2
  pub blob_inclusion_info : BlobInclusionInfo
  pub nonsigner_stake_and_signature : NonSignerStakesAndSignature
  pub signed_quorum_numbers : ByteList

pub record EigenDaCertV4 : Type 0 where
  pub batch_header_v2 : BatchHeaderV2
  pub blob_inclusion_info : BlobInclusionInfo
  pub nonsigner_stake_and_signature : NonSignerStakesAndSignature
  pub signed_quorum_numbers : ByteList
  pub offchain_derivation_version : ℕ
