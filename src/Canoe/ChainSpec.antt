-- ===== src/Canoe/ChainSpec.antt =====
-- canoe/verifier/src/chain_spec.rs: the fork that is active at a block. reth's chain specifications
-- and its search for the active fork are parameters.
use hokulea.Base.{ℕ, Outcome, ok, panic, ◌==◌, if◌then◌else◌}
use hokulea.Cert.{ByteList}

-- what the code takes from reth
pub record Reth : Type 1 where
  pub ChainSpec : Type 0
  pub SpecId : Type 0
  pub mainnet : ChainSpec
  pub sepolia : ChainSpec
  pub holesky : ChainSpec
  pub kurtosis : ChainSpec
  pub spec_by_timestamp_and_block_number : ChainSpec → ℕ → ℕ → SpecId
  pub genesis_hash : ChainSpec → ByteList

module _ {E : Type 0} (reth : Reth) where
  unfoldable pub derive_chain_spec_id : ℕ → ℕ → ℕ → Outcome E reth.SpecId
  derive_chain_spec_id l1_chain_id timestamp number =
      if l1_chain_id == 1
      then ok (reth.spec_by_timestamp_and_block_number reth.mainnet timestamp number)
      else if l1_chain_id == 11155111
      then ok (reth.spec_by_timestamp_and_block_number reth.sepolia timestamp number)
      else if l1_chain_id == 17000
      then ok (reth.spec_by_timestamp_and_block_number reth.holesky timestamp number)
      else if l1_chain_id == 3151908
      then ok (reth.spec_by_timestamp_and_block_number reth.kurtosis timestamp number)
      else panic

  unfoldable pub derive_chain_spec_genesis_hash : ℕ → Outcome E ByteList
  derive_chain_spec_genesis_hash l1_chain_id =
      if l1_chain_id == 1
      then ok (reth.genesis_hash reth.mainnet)
      else if l1_chain_id == 11155111
      then ok (reth.genesis_hash reth.sepolia)
      else if l1_chain_id == 17000
      then ok (reth.genesis_hash reth.holesky)
      else if l1_chain_id == 3151908
      then ok (reth.genesis_hash reth.kurtosis)
      else panic
