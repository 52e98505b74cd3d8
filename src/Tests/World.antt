-- ===== src/Tests/World.antt =====
-- Concrete data: commitments, an encoded payload, an Ethereum source over a list, a provider that
-- counts its queries, and a block.
use hokulea.Base.{ℕ, suc, refl, true, List, [], ◌∷◌, ◌++◌, Outcome, ok, err, replicate}
use hokulea.Cert.{
  ByteList, G1Point, G2Point, BlobInclusionInfo, BatchHeaderV2, NonSignerStakesAndSignature,
}
use hokulea.Cert.Commitment.{AltDaCommitment, v3, v4}
use hokulea.Cert.RoundTrip.{IsEigenDa}
use hokulea.DataSource.Derivation.{Answers}
use hokulea.DataSource.Ethereum.{PipelineErrorKind, temporary, eof, Block, EthereumSource}
use hokulea.Errors.{HokuleaErrorKind}
use hokulea.Payload.{EncodedPayload}
use hokulea.Provider.{EigenDaPreimageProvider}
use hokulea.Replay.{NeverFails}

abbrev origin : G1Point
origin = record { x = 1; y = 2 }

abbrev origin_g2 : G2Point
origin_g2 = record { x = record { first = 1; second = 2 }; y = record { first = 3; second = 4 } }

-- a certificate for a blob of so many field elements
abbrev inclusion : ℕ → BlobInclusionInfo
inclusion n = record {
  blob_certificate = record {
    blob_header = record {
      version = 0;
      quorum_numbers = 0 ∷ 1 ∷ [];
      commitment = record {
        commitment = origin;
        length_commitment = origin_g2;
        length_proof = origin_g2;
        length = n;
      };
      payment_header_hash = 7 ∷ [];
    };
    signature = 8 ∷ [];
    relay_keys = 5 ∷ [];
  };
  blob_index = 0;
  inclusion_proof = 9 ∷ [];
}

abbrev batch_header : BatchHeaderV2
batch_header = record { batch_root = 6 ∷ []; reference_block_number = 100 }

abbrev signers : NonSignerStakesAndSignature
signers = record {
  non_signer_quorum_bitmap_indices = [];
  non_signer_pubkeys = origin ∷ [];
  quorum_apks = origin ∷ [];
  apk_g2 = origin_g2;
  sigma = origin;
  quorum_apk_indices = 1 ∷ [];
  total_stake_indices = 2 ∷ [];
  non_signer_stake_indices = (3 ∷ []) ∷ [];
}

-- a commitment to a blob of two field elements, by a V3 certificate
abbrev pub commitment : AltDaCommitment
commitment = record {
  commitment_type = 1;
  da_layer_byte = 0;
  versioned_cert = v3 (record {
    batch_header_v2 = batch_header;
    blob_inclusion_info = inclusion 2;
    nonsigner_stake_and_signature = signers;
    signed_quorum_numbers = 0 ∷ 1 ∷ [];
  });
}

-- one to a blob of one field element, by a V4 certificate of derivation version 0
abbrev pub commitment_v4 : AltDaCommitment
commitment_v4 = record {
  commitment_type = 1;
  da_layer_byte = 0;
  versioned_cert = v4 (record {
    batch_header_v2 = batch_header;
    blob_inclusion_info = inclusion 1;
    nonsigner_stake_and_signature = signers;
    signed_quorum_numbers = 0 ∷ 1 ∷ [];
    offchain_derivation_version = 0;
  });
}

pub commitment-IsEigenDa : IsEigenDa commitment
commitment-IsEigenDa = record { da_service = refl; eigenda_layer = refl }

pub commitment_v4-IsEigenDa : IsEigenDa commitment_v4
commitment_v4-IsEigenDa = record { da_service = refl; eigenda_layer = refl }

-- the bytes 1, 2, 3, 4 in two field elements
abbrev pub four_bytes : ByteList
four_bytes = (0 ∷ 0 ∷ 0 ∷ 0 ∷ 0 ∷ 4 ∷ replicate 26 0) ++ (0 ∷ 1 ∷ 2 ∷ 3 ∷ 4 ∷ replicate 27 0)

abbrev pub encoded : EncodedPayload
encoded = record { encoded_payload = four_bytes }

abbrev pub block : Block
block = record { number = 200; batcher_addr = [] }

abbrev pub next_item : Block → List ByteList → Outcome PipelineErrorKind ByteList × List ByteList
next_item b [] = (err (temporary eof), [])
next_item b (item ∷ items) = (ok item, items)

abbrev pub ethereum : EthereumSource (List ByteList)
ethereum = record { next = next_item; clear = λ t. t }

-- every certificate is valid and has the payload above
abbrev pub provider : EigenDaPreimageProvider ℕ HokuleaErrorKind
provider = record {
  get_validity = λ c n. (ok true, suc n);
  get_encoded_payload = λ c n. (ok encoded, suc n);
  into = λ e. e;
}

abbrev pub provider_answers : Answers provider
provider_answers = record {
  valid = λ c. true;
  payload = λ c. encoded;
  answers_validity = λ c n. (suc n, refl);
  answers_payload = λ c n. (suc n, refl);
}

pub provider-NeverFails : NeverFails provider
provider-NeverFails = record {
  some_validity = λ c n. (true, suc n, refl);
  some_payload = λ c n. (encoded, suc n, refl);
}
