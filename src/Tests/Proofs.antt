-- ===== src/Tests/Proofs.antt =====
-- The theorems on witnesses and on the provider that is made from one.
use mathlib.Core.List.{zip}
use hokulea.Base.{ℕ, ◌≡◌, refl, Bool, true, none, some, List, [], ◌∷◌, map, ok, traverse, arith}
use hokulea.Canoe.{CanoeInput, canoe_no_op_verifier}
use hokulea.Canoe.Addresses.{AddressFetcher, static_address}
use hokulea.Canoe.Inputs.{from_eigenda_preimage_to_canoe_inputs, canoe_input}
use hokulea.Cert.{ByteList}
use hokulea.Cert.Commitment.{AltDaCommitment, get_num_field_element}
use hokulea.DataSource
use hokulea.DataSource.{DataSource}
use hokulea.Errors.{HokuleaErrorKind}
use hokulea.Payload.{EncodedPayload, num_field_element}
use hokulea.Preloaded.{L1Head, BatchVerify, cert_validity, from_witness, preloaded}
use hokulea.Preloaded.Checks.{Checked, from_witness_inversion, from_witness_complete}
use hokulea.Preloaded.Claims.{claim, cert_validity-canoe_inputs}
use hokulea.Preloaded.Queue.{
  loaded, get_validity_inversion, get_encoded_payload_inversion, get_validity-loaded,
  get_encoded_payload-loaded,
}
use hokulea.Recorder
use hokulea.Recorder.{Recorder, recording}
use hokulea.Replay.{run, put}
use hokulea.Replay.Runs.{replay_from_witness}
use hokulea.Source
use hokulea.Tests.Payloads.{decoded_four}
use hokulea.Tests.Alloy.{toy}
use hokulea.Tests.World.{commitment, encoded, block, ethereum, provider, provider-NeverFails}
use hokulea.Witness.{
  EigenDaPreimage, EigenDaWitness, without_proof, from_preimage, from_preimage_unchecked,
  into_preimage,
}
use hokulea.Witness.RoundTrip.{into_preimage-from_preimage, from_preimage-into_preimage}

abbrev preimage : EigenDaPreimage
preimage = record {
  validities = (commitment, true) ∷ [];
  encoded_payloads = (commitment, encoded) ∷ [];
}

abbrev pub witness : EigenDaWitness
witness = record {
  validities = (commitment, true) ∷ [];
  encoded_payloads = (commitment, encoded, 7 ∷ []) ∷ [];
  canoe_proof_bytes = some [];
}

abbrev pub l1_head : L1Head
l1_head = record { block_hash = 3 ∷ []; block_number = 9; block_timestamp = 10; chain_id = 1 }

abbrev accept : BatchVerify HokuleaErrorKind
accept blobs commitments proofs = ok true

abbrev pub fetcher : AddressFetcher
fetcher = static_address (4 ∷ [])

into_preimage-from_preimage_example : into_preimage witness ≡ (preimage, (7 ∷ []) ∷ [], some [])
unfolding from_preimage from_preimage_unchecked zip
into_preimage-from_preimage_example =
    into_preimage-from_preimage preimage ((7 ∷ []) ∷ []) (some []) witness refl

from_preimage-into_preimage_example :
    (let (p, proofs, canoe) = into_preimage witness in from_preimage p proofs canoe) ≡ ok witness
from_preimage-into_preimage_example = from_preimage-into_preimage witness (λ h e. ground arith)

checked : Checked accept canoe_no_op_verifier fetcher l1_head witness
unfolding get_num_field_element num_field_element cert_validity
checked = (omega arith, (refl, tt), λ ne. (_, refl, refl), refl)

from_witness_complete_example :
    from_witness accept canoe_no_op_verifier fetcher l1_head witness
    ≡ ok (loaded witness.validities (map without_proof witness.encoded_payloads))
from_witness_complete_example =
    from_witness_complete accept canoe_no_op_verifier fetcher l1_head witness checked

from_witness_inversion_example :
    Checked accept canoe_no_op_verifier fetcher l1_head witness
    × (loaded witness.validities (map without_proof witness.encoded_payloads)
        ≡ loaded witness.validities (map without_proof witness.encoded_payloads))
from_witness_inversion_example =
    from_witness_inversion accept canoe_no_op_verifier fetcher l1_head witness
      (loaded witness.validities (map without_proof witness.encoded_payloads))
      (from_witness_complete accept canoe_no_op_verifier fetcher l1_head witness checked)

get_validity_inversion_example :
    (rest : List (AltDaCommitment × Bool)) × (preimage.validities ≡ (commitment, true) ∷ rest)
    × (loaded [] [] ≡ loaded rest [])
get_validity_inversion_example =
    get_validity_inversion {E = HokuleaErrorKind} commitment true preimage.validities []
      (loaded [] []) (get_validity-loaded commitment true [] [])

get_encoded_payload_inversion_example :
    (rest : List (AltDaCommitment × EncodedPayload)) × (preimage.encoded_payloads
      ≡ (commitment, encoded) ∷ rest)
    × (loaded [] [] ≡ loaded [] rest)
get_encoded_payload_inversion_example =
    get_encoded_payload_inversion {E = HokuleaErrorKind} commitment encoded []
      preimage.encoded_payloads (loaded [] []) (get_encoded_payload-loaded commitment encoded [] [])

abbrev pub input : CanoeInput
input = record {
  altda_commitment = commitment;
  claimed_validity = true;
  l1_head_block_hash = 3 ∷ [];
  l1_head_block_number = 9;
  l1_chain_id = 1;
  verifier_address = 4 ∷ [];
}

cert_validity-canoe_inputs_example :
    traverse (cert_validity {E = HokuleaErrorKind} fetcher l1_head) preimage.validities
    ≡ ok (map (claim 10) (input ∷ []))
unfolding from_eigenda_preimage_to_canoe_inputs canoe_input
cert_validity-canoe_inputs_example =
    cert_validity-canoe_inputs {E = HokuleaErrorKind} fetcher l1_head preimage.validities
      (input ∷ []) refl

-- a data source that holds the commitment, with a recorder
abbrev recording_source : DataSource (List ByteList) (Recorder ℕ)
recording_source = record {
  ethereum_source = [];
  eigenda_source = record {
    provider = 0;
    preimage = record { validities = []; encoded_payloads = [] };
  };
  altda_commitment = some commitment;
}

abbrev recorded_source : DataSource (List ByteList) (Recorder ℕ)
recorded_source = record {
  ethereum_source = [];
  eigenda_source = record { provider = 2; preimage = preimage };
  altda_commitment = none;
}

recorded :
    run toy ethereum (recording provider) 1 (block ∷ []) recording_source
    ≡ some (ok (1 ∷ 2 ∷ 3 ∷ 4 ∷ []) ∷ [], recorded_source)
unfolding run DataSource.next DataSource.round DataSource.resolve DataSource.on_payload Source.next
    Recorder.get_validity Recorder.record_validity Recorder.get_encoded_payload
    Recorder.record_payload Source.check_recency
recorded = rw (
  run, DataSource.next, DataSource.round, DataSource.resolve, DataSource.on_payload, decoded_four,
)

replay_from_witness_example :
    run toy ethereum (preloaded {E = HokuleaErrorKind} (λ e. e)) 1 (block ∷ []) (
      put (loaded witness.validities (map without_proof witness.encoded_payloads)) recording_source)
    ≡ some (
      ok (1 ∷ 2 ∷ 3 ∷ 4 ∷ []) ∷ [],
      put (record { validity_entries = []; encoded_payload_entries = [] }) recorded_source,
    )
unfolding from_preimage from_preimage_unchecked zip
replay_from_witness_example =
    replay_from_witness toy ethereum provider provider-NeverFails (λ e. e) accept
      canoe_no_op_verifier fetcher l1_head 1 (block ∷ []) recording_source recorded_source
      (ok (1 ∷ 2 ∷ 3 ∷ 4 ∷ []) ∷ []) ((7 ∷ []) ∷ []) (some []) witness
      (loaded witness.validities (map without_proof witness.encoded_payloads)) refl recorded refl
      (from_witness_complete accept canoe_no_op_verifier fetcher l1_head witness checked)
