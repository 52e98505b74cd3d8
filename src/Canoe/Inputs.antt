-- ===== src/Canoe/Inputs.antt =====
-- crates/witgen/src/canoe_witness_provider.rs: the inputs for the canoe proof of a recorded run.
use hokulea.Base.{ℕ, Bool, List, Outcome, ok, ◌>>=◌, traverse}
use hokulea.Cert.{ByteList}
use hokulea.Cert.Commitment.{AltDaCommitment}
use hokulea.Canoe.{CanoeInput}
use hokulea.Canoe.Addresses.{AddressFetcher, CanoeVerifierAddressFetcherError}

module _ (fetcher : AddressFetcher) (l1_chain_id : ℕ) (l1_head_block_hash : ByteList)
    (l1_head_block_number : ℕ) where
  -- the body of the loop
  unfoldable pub canoe_input :
      AltDaCommitment × Bool → Outcome CanoeVerifierAddressFetcherError CanoeInput
  canoe_input (altda_commitment, claimed_validity) = do
    verifier_address ← fetcher.fetch_address l1_chain_id altda_commitment.versioned_cert
    ok (record {
      altda_commitment = altda_commitment;
      claimed_validity = claimed_validity;
      l1_head_block_hash = l1_head_block_hash;
      l1_head_block_number = l1_head_block_number;
      l1_chain_id = l1_chain_id;
      verifier_address = verifier_address;
    })

  -- `from_eigenda_preimage_to_canoe_inputs`
  unfoldable pub from_eigenda_preimage_to_canoe_inputs :
      List (AltDaCommitment × Bool) → Outcome CanoeVerifierAddressFetcherError (List CanoeInput)
  unfolding canoe_input
  from_eigenda_preimage_to_canoe_inputs validities = traverse canoe_input validities
