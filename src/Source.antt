-- ===== src/Source.antt =====
-- crates/eigenda/src/eigenda_preimage.rs: `EigenDAPreimageSource`, which reads a commitment from
-- calldata and fetches its encoded payload if the certificate is valid and recent.
pub mod Recency
pub mod Next
use hokulea.Base.{
  ℕ, ◌+◌, ◌%◌, ◌^◌, Bool, true, false, Outcome, ok, err, panic, ◌>>=◌, ◌>>◌, map_err, ltb, leb,
  ◌==◌, if◌then◌else◌, length, drop,
}
use hokulea.Cert.{ByteList}
use hokulea.Cert.Codec.{Alloy}
use hokulea.Cert.Commitment.{AltDaCommitment, EigenDaVersionedCert, v2, v3, v4, try_from, get_rbn}
use hokulea.Errors.{
  HokuleaErrorKind, HokuleaStatelessError, insufficient_length_altda_commitment, parse_error,
  recency_check_error, not_recent_cert, unsupported_offchain_derivation_version, invalid_cert,
  from_stateless, from_preimage_error,
}
use hokulea.Payload.{EncodedPayload, Checked, slice}
use hokulea.Provider.{Method, EigenDaPreimageProvider}

-- 48 hours of L1 blocks, for version 0
unfoldable pub get_recency_window : ℕ → Checked ℕ
get_recency_window offchain_derivation_version =
    if offchain_derivation_version == 0
    then ok 14400
    else err (unsupported_offchain_derivation_version offchain_derivation_version)

-- the `match` on the certificate in `next`
unfoldable pub recency_window_of : EigenDaVersionedCert → Checked ℕ
unfolding get_recency_window
recency_window_of (v2 c) = ok 0
recency_window_of (v3 c) = ok 0
recency_window_of (v4 c) = get_recency_window c.offchain_derivation_version

-- `rbn + recency_window` is an addition of `u64`.
unfoldable pub recency_check : ℕ → ℕ → ℕ → Checked (Unit {0})
recency_check l1_inclusion_bn rbn recency_window =
    if recency_window == 0
    then ok tt
    else if ltb ((rbn + recency_window) % 2 ^ 64) l1_inclusion_bn
    then err (recency_check_error not_recent_cert)
    else ok tt

-- the checks between the two queries
unfoldable pub check_recency : AltDaCommitment → ℕ → Outcome HokuleaErrorKind (Unit {0})
unfolding recency_window_of recency_check
check_recency altda_commitment l1_inclusion_bn = do
  recency_window ← map_err from_stateless (recency_window_of altda_commitment.versioned_cert)
  map_err from_stateless (recency_check l1_inclusion_bn (get_rbn altda_commitment) recency_window)

-- `parse`; the slice `data[1..]` is in range behind the length test
unfoldable pub parse : Alloy → ByteList → Checked AltDaCommitment
parse alloy bytes =
    if leb (length bytes) 2
    then err insufficient_length_altda_commitment
    else do body ← slice bytes 1 (length bytes); map_err parse_error (try_from alloy body)

module _ {S E : Type 0} (fetcher : EigenDaPreimageProvider S E) where
  -- the end of `next`, when the recency checks have come to `checked`
  fetch_checked :
      AltDaCommitment
      → Outcome HokuleaErrorKind (Unit {0})
      → Method S HokuleaErrorKind EncodedPayload
  fetch_checked altda_commitment (ok _) s =
      let (r, s') = fetcher.get_encoded_payload altda_commitment s in (map_err fetcher.into r, s')
  fetch_checked altda_commitment (err e) s = (err e, s)
  fetch_checked altda_commitment panic s = (panic, s)

  -- the `match` on the answer to `get_validity`
  after_validity : AltDaCommitment → ℕ → Outcome E Bool → Method S HokuleaErrorKind EncodedPayload
  after_validity altda_commitment l1_inclusion_bn (ok true) s =
      fetch_checked altda_commitment (check_recency altda_commitment l1_inclusion_bn) s
  after_validity altda_commitment l1_inclusion_bn (ok false) s =
      (err (from_preimage_error invalid_cert), s)
  after_validity altda_commitment l1_inclusion_bn (err e) s = (err (fetcher.into e), s)
  after_validity altda_commitment l1_inclusion_bn panic s = (panic, s)

  -- `EigenDAPreimageSource::next`
  unfoldable pub next : AltDaCommitment → ℕ → Method S HokuleaErrorKind EncodedPayload
  unfolding fetch_checked after_validity
  next altda_commitment l1_inclusion_bn s =
      let (validity, s') = fetcher.get_validity altda_commitment s in
      after_validity altda_commitment l1_inclusion_bn validity s'
