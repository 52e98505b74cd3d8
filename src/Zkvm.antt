-- ===== src/Zkvm.antt =====
-- crates/zkvm-verification/src/lib.rs: how the proof program makes its provider from the witness, with
-- the L1 parameters that it trusts.
pub mod Sound
use hokulea.Base.{ℕ, String, Outcome, ok, ◌>>=◌, expect}
use hokulea.Canoe.{CanoeVerifier}
use hokulea.Canoe.Addresses.{AddressFetcher}
use hokulea.Cert.{ByteList}
use hokulea.Preloaded.{Preloaded, L1Head, BatchVerify, from_witness}
use hokulea.Witness.{EigenDaWitness}

-- what is read of kona's `BootInfo` and of an L1 header
pub record BootInfo : Type 0 where
  pub l1_head : ByteList
  pub l1_chain_id : ℕ

pub record Header : Type 0 where
  pub number : ℕ
  pub timestamp : ℕ

-- the L1 parameters that `from_witness` is called with
unfoldable pub l1_head_of : BootInfo → Header → L1Head
l1_head_of boot_info header = record {
  block_hash = boot_info.l1_head;
  block_number = header.number;
  block_timestamp = header.timestamp;
  chain_id = boot_info.l1_chain_id;
}

-- `eigenda_witness_to_preloaded_provider`; `header_by_hash` is that of kona's L1 provider on the oracle
unfoldable pub eigenda_witness_to_preloaded_provider :
    {E : Type 0}
    → BatchVerify E
    → (ByteList → Outcome String Header)
    → BootInfo
    → CanoeVerifier
    → AddressFetcher
    → EigenDaWitness
    → Outcome E Preloaded
eigenda_witness_to_preloaded_provider batch_verify header_by_hash boot_info verifier fetcher
      witness =
    do
      header ← expect (header_by_hash boot_info.l1_head)
      from_witness batch_verify verifier fetcher (l1_head_of boot_info header) witness
