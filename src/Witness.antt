-- ===== src/Witness.antt =====
-- crates/proof/src/eigenda_witness.rs: the preimages of a derivation, and the witness that joins
-- them to their proofs.
pub mod RoundTrip
use mathlib.Core.List.{zip}
use hokulea.Base.{
  ℕ, Bool, true, false, not, ◌&&◌, Option, none, some, List, [], ◌∷◌, map, Outcome, ok, err,
  if◌then◌else◌, ◌==◌, length,
}
use hokulea.Cert.{ByteList}
use hokulea.Cert.Commitment.{AltDaCommitment}
use hokulea.Payload.{EncodedPayload}

pub data EigenDaWitnessError : Type 0 where
  missing_canoe_proof mismatch_kzg_proof : EigenDaWitnessError

pub record EigenDaPreimage : Type 0 where
  pub validities : List (AltDaCommitment × Bool)
  pub encoded_payloads : List (AltDaCommitment × EncodedPayload)

-- a KZG proof is 64 bytes
pub record EigenDaWitness : Type 0 where
  pub validities : List (AltDaCommitment × Bool)
  pub encoded_payloads : List (AltDaCommitment × EncodedPayload × ByteList)
  pub canoe_proof_bytes : Option ByteList

abbrev pub is_empty {ℓ} : {A : Type ℓ} → List A → Bool
is_empty [] = true
is_empty (x ∷ xs) = false

abbrev pub is_none {ℓ} : {A : Type ℓ} → Option A → Bool
is_none none = true
is_none (some a) = false

-- the closure of `from_preimage_unchecked`
abbrev pub with_proof :
    (AltDaCommitment × EncodedPayload) × ByteList → AltDaCommitment × EncodedPayload × ByteList
with_proof ((commitment, payload), proof) = (commitment, payload, proof)

-- the closure of `into_preimage`, in its two halves
abbrev pub without_proof :
    AltDaCommitment × EncodedPayload × ByteList → AltDaCommitment × EncodedPayload
without_proof (commitment, payload, proof) = (commitment, payload)

abbrev pub proof_of : AltDaCommitment × EncodedPayload × ByteList → ByteList
proof_of (commitment, payload, proof) = proof

unfoldable pub from_preimage_unchecked :
    EigenDaPreimage → List ByteList → Option ByteList → EigenDaWitness
from_preimage_unchecked preimage kzg_proofs canoe_proof_bytes = record {
  validities = preimage.validities;
  encoded_payloads = map with_proof (zip preimage.encoded_payloads kzg_proofs);
  canoe_proof_bytes = canoe_proof_bytes;
}

unfoldable pub from_preimage :
    EigenDaPreimage → List ByteList → Option ByteList → Outcome EigenDaWitnessError EigenDaWitness
from_preimage preimage kzg_proofs canoe_proof =
    if not (is_empty preimage.validities) && is_none canoe_proof
    then err missing_canoe_proof
    else if not (length kzg_proofs == length preimage.encoded_payloads)
    then err mismatch_kzg_proof
    else ok (from_preimage_unchecked preimage kzg_proofs canoe_proof)

unfoldable pub into_preimage : EigenDaWitness → EigenDaPreimage × List ByteList × Option ByteList
into_preimage w = (
  record { validities = w.validities; encoded_payloads = map without_proof w.encoded_payloads },
  map proof_of w.encoded_payloads,
  w.canoe_proof_bytes,
)
