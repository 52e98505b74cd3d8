-- ===== src/Preloaded.antt =====
-- crates/proof/src/preloaded_eigenda_provider.rs: `PreloadedEigenDAPreimageProvider`, which the proof
-- program builds from a witness, after checking it, and which answers the derivation from it.
pub mod Discrete
pub mod Kzg
pub mod Checks
pub mod Queue
pub mod Claims
use mathlib.Core.List.{reverse}
use hokulea.Base.{
  ℕ, Bool, true, false, not, Option, none, some, List, [], ◌∷◌, map, Outcome, ok, err, panic, ◌>>=◌,
  ◌>>◌, expect, assert, traverse, leb, ◌==◌, if◌then◌else◌, length,
}
use hokulea.Canoe.{CertValidity, CanoeVerifier}
use hokulea.Canoe.Addresses.{AddressFetcher}
use hokulea.Cert.{ByteList, G1Point}
use hokulea.Cert.Commitment.{AltDaCommitment, get_num_field_element, get_kzg_commitment}
use hokulea.Payload.{EncodedPayload, serialize, num_field_element}
use hokulea.Preloaded.Discrete.{same}
use hokulea.Provider.{Method, EigenDaPreimageProvider}
use hokulea.Witness.{EigenDaWitness, is_empty, without_proof, proof_of}
use hokulea.Errors.{HokuleaErrorKind}

pub record Preloaded : Type 0 where
  pub validity_entries : List (AltDaCommitment × Bool)
  pub encoded_payload_entries : List (AltDaCommitment × EncodedPayload)

-- the L1 block that the claims are anchored at
pub record L1Head : Type 0 where
  pub block_hash : ByteList
  pub block_number : ℕ
  pub block_timestamp : ℕ
  pub chain_id : ℕ

-- `batch_verify`, whose backend is chosen when the crate is built
abbrev pub BatchVerify : Type 0 → Type 0
BatchVerify E = List ByteList → List G1Point → List ByteList → Outcome E Bool

-- `Vec::pop`, from the end
unfoldable pub pop {ℓ} : {A : Type ℓ} → List A → Option (A × List A)
pop [] = none
pop (x ∷ xs) = elim (pop xs) [ none ↦ some (x, []) | some (y, ys) ↦ some (y, x ∷ ys) ]

-- the closures that give `batch_verify` its iterators
unfoldable pub commitment_of : AltDaCommitment × EncodedPayload × ByteList → G1Point
commitment_of (altda_commitment, encoded_payload, proof) = get_kzg_commitment altda_commitment

unfoldable pub blob_of : AltDaCommitment × EncodedPayload × ByteList → ByteList
blob_of (altda_commitment, encoded_payload, proof) = serialize encoded_payload

module _ {E : Type 0} where
  -- the closure that makes a claim of an entry
  unfoldable pub cert_validity :
      AddressFetcher → L1Head → AltDaCommitment × Bool → Outcome E (AltDaCommitment × CertValidity)
  cert_validity fetcher head (altda_commitment, claimed_validity) = do
    verifier_address ← expect (fetcher.fetch_address head.chain_id altda_commitment.versioned_cert)
    ok (
      altda_commitment,
      record {
        claimed_validity = claimed_validity;
        l1_head_block_hash = head.block_hash;
        l1_head_block_number = head.block_number;
        l1_head_block_timestamp = head.block_timestamp;
        l1_chain_id = head.chain_id;
        verifier_address = verifier_address;
      },
    )

  -- the `assert_eq!` on the number of field elements
  unfoldable pub check_field_elements :
      List (AltDaCommitment × EncodedPayload × ByteList) → Outcome E (Unit {0})
  check_field_elements [] = ok tt
  check_field_elements ((altda_commitment, encoded_payload, proof) ∷ entries) = do
    assert (num_field_element encoded_payload == get_num_field_element altda_commitment)
    check_field_elements entries

  unfoldable pub check_validities :
      CanoeVerifier → AddressFetcher → L1Head → EigenDaWitness → Outcome E (Unit {0})
  unfolding cert_validity
  check_validities verifier fetcher head w = if is_empty w.validities then ok tt else do
    cert_validities ← traverse (cert_validity fetcher head) w.validities
    expect (verifier.validate_cert_receipt cert_validities w.canoe_proof_bytes)

  -- `from_witness`, which panics where a check fails
  unfoldable pub from_witness :
      BatchVerify E → CanoeVerifier → AddressFetcher → L1Head → EigenDaWitness → Outcome E Preloaded
  unfolding check_field_elements check_validities
  from_witness batch_verify verifier fetcher head w = do
    assert (leb (length w.encoded_payloads) (length w.validities))
    check_field_elements w.encoded_payloads
    check_validities verifier fetcher head w
    verified ←
        batch_verify (map blob_of w.encoded_payloads) (map commitment_of w.encoded_payloads)
          (map proof_of w.encoded_payloads)
    assert verified
    assert (leb (length (map without_proof w.encoded_payloads)) (length w.validities))
    ok (record {
      validity_entries = reverse w.validities;
      encoded_payload_entries = reverse (map without_proof w.encoded_payloads);
    })

  -- `get_validity`: the entry on top, which has to be of the commitment asked for
  unfoldable pub get_validity : AltDaCommitment → Method Preloaded E Bool
  get_validity altda_commitment p = elim (pop p.validity_entries) [
    | none ↦ (panic, p)
    | some ((stored, validity), entries) ↦ (
      if same stored altda_commitment then ok validity else panic,
      record p { validity_entries = entries },
    )
  ]

  unfoldable pub get_encoded_payload : AltDaCommitment → Method Preloaded E EncodedPayload
  get_encoded_payload altda_commitment p = elim (pop p.encoded_payload_entries) [
    | none ↦ (panic, p)
    | some ((stored, encoded_payload), entries) ↦ (
      if same stored altda_commitment then ok encoded_payload else panic,
      record p { encoded_payload_entries = entries },
    )
  ]

  -- `into` is the conversion of the provider's error
  abbrev pub preloaded : (E → HokuleaErrorKind) → EigenDaPreimageProvider Preloaded E
  preloaded into = record {
    get_validity = get_validity;
    get_encoded_payload = get_encoded_payload;
    into = into;
  }
