-- ===== src/Cert/Commitment.antt =====
-- crates/eigenda-cert/src/altda_commitment.rs: `AltDACommitment`, how it is read from the bytes of
-- a transaction and written back, its digest, and what it says of its blob.
use hokulea.Base.{
  ℕ, String, ◌++◌, ◌∷◌, Outcome, ok, err, ◌>>=◌, or_panic, map_err, ltb, ◌==◌, if◌then◌else◌, not,
  length, get_elem?, drop, replicate,
}
use hokulea.Cert.{ByteList, EigenDaCertV2, EigenDaCertV3, EigenDaCertV4, G1Point, BlobCommitment}
use hokulea.Cert.Codec.{Alloy}

pub data EigenDaVersionedCert : Type 0 where
  v2 : EigenDaCertV2 → EigenDaVersionedCert
  v3 : EigenDaCertV3 → EigenDaVersionedCert
  v4 : EigenDaCertV4 → EigenDaVersionedCert

pub data AltDaCommitmentParseError : Type 0 where
  insufficient_data : AltDaCommitmentParseError
  unsupported_commitment_type : AltDaCommitmentParseError
  unsupported_da_layer_type : AltDaCommitmentParseError
  unsupported_cert_version_type : ℕ → AltDaCommitmentParseError
  invalid_rlp_cert : String → AltDaCommitmentParseError

pub record AltDaCommitment : Type 0 where
  pub commitment_type : ℕ
  pub da_layer_byte : ℕ
  pub versioned_cert : EigenDaVersionedCert

module _ (alloy : Alloy) where
  -- the `match value[2]` of `try_from`, at the bytes `value[3..]`
  unfoldable pub decode_cert : ℕ → ByteList → Outcome AltDaCommitmentParseError EigenDaVersionedCert
  decode_cert version bytes =
      if version == 1
      then (do v2_cert ← map_err invalid_rlp_cert (alloy.rlp_v2.decode bytes); ok (v2 v2_cert))
      else if version == 2
      then (do v3_cert ← map_err invalid_rlp_cert (alloy.rlp_v3.decode bytes); ok (v3 v3_cert))
      else if version == 3
      then (do v4_cert ← map_err invalid_rlp_cert (alloy.rlp_v4.decode bytes); ok (v4 v4_cert))
      else err (unsupported_cert_version_type version)

  -- `TryFrom<&[u8]> for AltDACommitment`
  unfoldable pub try_from : ByteList → Outcome AltDaCommitmentParseError AltDaCommitment
  unfolding decode_cert
  try_from value = if ltb (length value) 4 then err insufficient_data else do
    commitment_type ← or_panic (get_elem? value 0)
    if not (commitment_type == 1) then err unsupported_commitment_type else do
      da_layer_byte ← or_panic (get_elem? value 1)
      if not (da_layer_byte == 0) then err unsupported_da_layer_type else do
        version ← or_panic (get_elem? value 2)
        versioned_cert ← decode_cert version (drop 3 value)
        ok (record {
          commitment_type = commitment_type;
          da_layer_byte = da_layer_byte;
          versioned_cert = versioned_cert;
        })

  -- the version byte and the RLP bytes of the certificate
  unfoldable pub cert_rlp_bytes : EigenDaVersionedCert → ByteList
  cert_rlp_bytes (v2 c) = 1 ∷ alloy.rlp_v2.encode c
  cert_rlp_bytes (v3 c) = 2 ∷ alloy.rlp_v3.encode c
  cert_rlp_bytes (v4 c) = 3 ∷ alloy.rlp_v4.encode c

  -- `to_rlp_bytes`; `to_be` leaves a byte as it is
  unfoldable pub to_rlp_bytes : AltDaCommitment → ByteList
  unfolding cert_rlp_bytes
  to_rlp_bytes c = c.commitment_type ∷ c.da_layer_byte ∷ cert_rlp_bytes c.versioned_cert

  unfoldable pub to_digest : AltDaCommitment → ByteList
  to_digest c = alloy.keccak256 (to_rlp_bytes c)

  -- `digest_template`: the digest in the first 32 of 80 bytes, the others zero
  unfoldable pub digest_template : AltDaCommitment → ByteList
  unfolding to_digest
  digest_template c = to_digest c ++ replicate 48 0

  -- `EigenDACertV2::to_digest`, `EigenDACertV3::to_digest` and `EigenDACertV4::to_digest`
  unfoldable pub cert_digest : EigenDaVersionedCert → ByteList
  cert_digest (v2 c) = alloy.keccak256 (alloy.rlp_v2.encode c)
  cert_digest (v3 c) = alloy.keccak256 (alloy.rlp_v3.encode c)
  cert_digest (v4 c) = alloy.keccak256 (alloy.rlp_v4.encode c)

-- the commitment of the blob that a certificate is about
unfoldable pub blob_commitment : EigenDaVersionedCert → BlobCommitment
blob_commitment (v2 c) = c.blob_inclusion_info.blob_certificate.blob_header.commitment
blob_commitment (v3 c) = c.blob_inclusion_info.blob_certificate.blob_header.commitment
blob_commitment (v4 c) = c.blob_inclusion_info.blob_certificate.blob_header.commitment

unfoldable pub get_num_field_element : AltDaCommitment → ℕ
unfolding blob_commitment
get_num_field_element a = (blob_commitment a.versioned_cert).length

unfoldable pub get_rbn : AltDaCommitment → ℕ
get_rbn a = elim a.versioned_cert [
  | v2 c ↦ c.batch_header_v2.reference_block_number
  | v3 c ↦ c.batch_header_v2.reference_block_number
  | v4 c ↦ c.batch_header_v2.reference_block_number
]

unfoldable pub get_kzg_commitment : AltDaCommitment → G1Point
unfolding blob_commitment
get_kzg_commitment a =
    let c = (blob_commitment a.versioned_cert).commitment in record { x = c.x; y = c.y }

unfoldable pub cert_version_str : AltDaCommitment → String
cert_version_str a = elim a.versioned_cert [ v2 c ↦ "V2" | v3 c ↦ "V3" | v4 c ↦ "V4" ]
