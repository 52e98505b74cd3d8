-- ===== src/Canoe/Prover.antt =====
-- The making of a canoe proof: the interface of its provers (canoe/provider/src/canoe_provider.rs), and
-- how it is asked for (crates/witgen/src/canoe_witness_provider.rs).
pub mod Sketch
pub mod Calls
pub mod Complete
use hokulea.Base.{String, Option, some, List, Outcome, ok, ◌>>=◌, map_err}
use hokulea.Cert.{ByteList}
use hokulea.Canoe.{CanoeInput}
use hokulea.Canoe.Addresses.{AddressFetcher, CanoeVerifierAddressFetcherError}
use hokulea.Canoe.Inputs.{from_eigenda_preimage_to_canoe_inputs}
use hokulea.Witness.{EigenDaPreimage}
use hokulea.Zkvm.{BootInfo, Header}

-- `anyhow::Error`: a message, or the error of a library, of the address fetcher or of the prover
pub data Report : Type 0 where
  message : String → Report
  oracle_failed : String → Report
  address_failed : CanoeVerifierAddressFetcherError → Report
  prover_failed : String → Report

-- `CanoeProvider`. Its method returns an optional result; here the option is inside, and `ok none`
-- says that there is nothing to prove.
pub record CanoeProvider : Type 1 where
  pub Receipt : Type 0
  pub create_certs_validity_proof : List CanoeInput → Outcome Report (Option Receipt)

-- `CanoeNoOpProvider`
abbrev pub canoe_no_op_provider : CanoeProvider
canoe_no_op_provider = record {
  Receipt = Unit;
  create_certs_validity_proof = λ canoe_inputs. ok (some tt);
}

-- `from_boot_info_to_canoe_proof`; `get` reads kona's oracle at a hash, `decode_header` is the RLP
-- decoder of an L1 header
unfoldable pub from_boot_info_to_canoe_proof :
    (ByteList → Outcome String ByteList)
    → (ByteList → Outcome String Header)
    → BootInfo
    → EigenDaPreimage
    → (provider : CanoeProvider) → AddressFetcher
    → Outcome Report (Option provider.Receipt)
from_boot_info_to_canoe_proof get decode_header boot_info eigenda_preimage provider fetcher = do
  header_rlp ← map_err oracle_failed (get boot_info.l1_head)
  l1_head_header ←
      map_err (λ e. message "cannot rlp decode header in canoe proof generation")
        (decode_header header_rlp)
  canoe_inputs ← map_err address_failed (
      from_eigenda_preimage_to_canoe_inputs fetcher boot_info.l1_chain_id boot_info.l1_head
        l1_head_header.number eigenda_preimage.validities)
  provider.create_certs_validity_proof canoe_inputs
