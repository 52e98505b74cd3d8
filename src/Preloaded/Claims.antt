-- ===== src/Preloaded/Claims.antt =====
-- The claims of the witness generator (crates/witgen/src/canoe_witness_provider.rs) and those of the
-- proof program (crates/proof/src/preloaded_eigenda_provider.rs).
use hokulea.Base.{
  ℕ, ◌≡◌, sym, ap, Bool, List, [], ◌∷◌, map, ok, >>=-eq-ok, ok-injective, traverse, traverse_cons,
}
use hokulea.Canoe.{CertValidity, CanoeInput}
use hokulea.Canoe.Addresses.{AddressFetcher}
use hokulea.Canoe.Inputs.{from_eigenda_preimage_to_canoe_inputs, canoe_input}
use hokulea.Cert.Commitment.{AltDaCommitment}
use hokulea.Preloaded.{L1Head, cert_validity}

-- the claim that a verifier checks for an input, at the timestamp of its block
abbrev pub claim : ℕ → CanoeInput → AltDaCommitment × CertValidity
claim timestamp i = (
  i.altda_commitment,
  record {
    claimed_validity = i.claimed_validity;
    l1_head_block_hash = i.l1_head_block_hash;
    l1_head_block_number = i.l1_head_block_number;
    l1_head_block_timestamp = timestamp;
    l1_chain_id = i.l1_chain_id;
    verifier_address = i.verifier_address;
  },
)

module _ {E : Type 0} where
  -- When the inputs of the canoe proof can be made for a list of validities, the claims that
  -- `from_witness` checks for the same list, with the same address fetcher and at the same block,
  -- can be made as well, and they say the same.
  pub cert_validity-canoe_inputs :
      (fetcher : AddressFetcher) (head : L1Head) (validities : List (AltDaCommitment × Bool))
      (inputs : List CanoeInput)
      → from_eigenda_preimage_to_canoe_inputs fetcher head.chain_id head.block_hash
          head.block_number validities
        ≡ ok inputs
      → traverse (cert_validity {E = E} fetcher head) validities
        ≡ ok (map (claim head.block_timestamp) inputs)
  unfolding from_eigenda_preimage_to_canoe_inputs canoe_input cert_validity
  cert_validity-canoe_inputs fetcher head [] inputs h =
      ap (λ t. ok (map (claim head.block_timestamp) t)) (ok-injective h)
  cert_validity-canoe_inputs fetcher head ((c, v) ∷ validities) inputs h =
      let (i, is, made, rest, out) =
        traverse_cons (canoe_input fetcher head.chain_id head.block_hash head.block_number) (c, v)
          validities inputs h in
      let (a, fetched, is_i) =
        >>=-eq-ok (fetcher.fetch_address head.chain_id c.versioned_cert) _ made in
      let later = cert_validity-canoe_inputs fetcher head validities is rest in
      let input : i ≡ _ = sym (ok-injective is_i) in rw (fetched, later, out, input)
