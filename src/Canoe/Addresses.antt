-- ===== src/Canoe/Addresses.antt =====
-- canoe/verifier-address-fetcher/src/lib.rs and crates/registry/src/lib.rs: which verifier contract a
-- claim is checked against. An address is its 20 bytes, written here as a number.
use hokulea.Base.{ℕ, Outcome, ok, err, ◌==◌, if◌then◌else◌}
use hokulea.Base.Bytes.{to_be_bytes}
use hokulea.Cert.{ByteList}
use hokulea.Cert.Commitment.{EigenDaVersionedCert, v2, v3, v4}

pub data CanoeVerifierAddressFetcherError : Type 0 where
  unknown_l1_chain_id : ℕ → CanoeVerifierAddressFetcherError
  missing_l2_chain_id : CanoeVerifierAddressFetcherError
  unknown_l2_chain_id : (l2_chain_id l1_chain_id : ℕ) → CanoeVerifierAddressFetcherError

abbrev pub Fetched : Type 0
Fetched = Outcome CanoeVerifierAddressFetcherError ByteList

-- `CanoeVerifierAddressFetcher`
pub record AddressFetcher : Type 0 where
  pub fetch_address : ℕ → EigenDaVersionedCert → Fetched

-- `L2SpecificCanoeVerifierAddressFetcher`, which extends it
pub record L2AddressFetcher : Type 0 where
  pub base : AddressFetcher
  pub fetch_address_for_l2 : ℕ → EigenDaVersionedCert → ℕ → Fetched

abbrev address : ℕ → ByteList
address n = to_be_bytes 20 n

unfoldable pub cert_verifier_address_abi_encode_interface : ℕ → Fetched
cert_verifier_address_abi_encode_interface chain_id =
    if chain_id == 1
    then ok (address 159297490408386713577097148744279075653981137938)
    else if chain_id == 11155111
    then ok (address 136575432280973677092104748743991580985812021005)
    else if chain_id == 17000
    then ok (address 1264259473235324030498591561082254980398416723901)
    else if chain_id == 3151908
    then ok (address 1031641868303767856821359019604726740382967468113)
    else err (unknown_l1_chain_id chain_id)

unfoldable pub cert_verifier_address : ℕ → EigenDaVersionedCert → Fetched
unfolding cert_verifier_address_abi_encode_interface
cert_verifier_address chain_id (v2 c) = cert_verifier_address_abi_encode_interface chain_id
cert_verifier_address chain_id (v3 c) = cert_verifier_address_abi_encode_interface chain_id
cert_verifier_address chain_id (v4 c) = cert_verifier_address_abi_encode_interface chain_id

-- `CanoeVerifierAddressFetcherDeployedByEigenLabs`
abbrev pub deployed_by_eigen_labs : AddressFetcher
deployed_by_eigen_labs = record { fetch_address = cert_verifier_address }

-- `impl CanoeVerifierAddressFetcher for Address`
abbrev pub static_address : ByteList → AddressFetcher
static_address a = record { fetch_address = λ chain_id cert. ok a }

unfoldable pub fetch_mainnet_address : EigenDaVersionedCert → ℕ → Fetched
fetch_mainnet_address cert l2_chain_id = err (unknown_l2_chain_id l2_chain_id 1)

unfoldable pub fetch_sepolia_address : EigenDaVersionedCert → ℕ → Fetched
fetch_sepolia_address cert l2_chain_id = err (unknown_l2_chain_id l2_chain_id 11155111)

unfoldable pub fetch_address_for_l2 : ℕ → EigenDaVersionedCert → ℕ → Fetched
unfolding fetch_mainnet_address fetch_sepolia_address
fetch_address_for_l2 l1_chain_id cert l2_chain_id =
    if l1_chain_id == 1
    then fetch_mainnet_address cert l2_chain_id
    else if l1_chain_id == 11155111
    then fetch_sepolia_address cert l2_chain_id
    else err (unknown_l1_chain_id l1_chain_id)

-- `HokuleaRegistry`
abbrev pub hokulea_registry : L2AddressFetcher
hokulea_registry = record {
  base = record { fetch_address = λ chain_id cert. err missing_l2_chain_id };
  fetch_address_for_l2 = fetch_address_for_l2;
}
