-- ===== src/Source/Recency.antt =====
-- The recency rule of blob derivation, described on its own, and the checks of
-- crates/eigenda/src/eigenda_preimage.rs.
use Prim.Native.String.{◌++◌ as str_append}
use hokulea.Base.{
  ℕ, ◌+◌, ◌^◌, ◌≤◌, ◌<◌, ◌≡◌, ◌↔◌, refl, Outcome, ok, err, arith, leb, ◌==◌, ◌%◌, if◌then◌else◌,
}
use hokulea.Base.Text.{decimal}
use hokulea.Cert.Commitment.{AltDaCommitment, EigenDaVersionedCert, v2, v3, v4, get_rbn}
use hokulea.Errors.{
  HokuleaErrorKind, discard, critical, recency_check_error_text, recency_check_error,
  not_recent_cert, from_stateless,
}
use hokulea.Source.{recency_window_of, recency_check, check_recency}

-- A V2 or V3 certificate is always recent. A V4 certificate is, if its derivation version is 0 and
-- it is included at most 14400 L1 blocks after its reference block.
abbrev pub IsRecent : EigenDaVersionedCert → ℕ → Type 0
IsRecent (v2 c) l1_inclusion_bn = Unit {0}
IsRecent (v3 c) l1_inclusion_bn = Unit {0}
IsRecent (v4 c) l1_inclusion_bn =
    (c.offchain_derivation_version ≡ 0)
    × (l1_inclusion_bn ≤ c.batch_header_v2.reference_block_number + 14400)

-- The verdict of the check on a certificate of each kind, with its message.
abbrev pub recency_verdict : EigenDaVersionedCert → ℕ → Outcome HokuleaErrorKind (Unit {0})
recency_verdict (v2 c) l1_inclusion_bn = ok tt
recency_verdict (v3 c) l1_inclusion_bn = ok tt
recency_verdict (v4 c) l1_inclusion_bn =
    if c.offchain_derivation_version == 0
    then if leb l1_inclusion_bn (c.batch_header_v2.reference_block_number + 14400)
      then ok tt
      else err (discard "da cert is not recent enough")
    else err (
        critical (
          str_append "cannot support offchain derivation version"
            (decimal c.offchain_derivation_version)))

-- The sum of a reference block number, a `u32`, and the window does not wrap in a `u64`.
no_wrap : (rbn : ℕ) → rbn < 2 ^ 32 → (rbn + 14400) % 2 ^ 64 ≡ rbn + 14400
no_wrap rbn h = omega arith

recency_check_windowed :
    (l1_inclusion_bn rbn : ℕ)
    → rbn < 2 ^ 32
    → recency_check l1_inclusion_bn rbn 14400 ≡ (
        if leb l1_inclusion_bn (rbn + 14400)
        then ok tt
        else err (recency_check_error not_recent_cert))
unfolding recency_check
recency_check_windowed l1_inclusion_bn rbn h = ground (arith, no_wrap rbn h)

module _ (commitment_type da_layer_byte : ℕ) where
  verdict_of_cert :
      (cert : EigenDaVersionedCert) (l1_inclusion_bn : ℕ)
      → let c : AltDaCommitment = record {
        commitment_type = commitment_type;
        da_layer_byte = da_layer_byte;
        versioned_cert = cert;
      } in
        get_rbn c < 2 ^ 32 → check_recency c l1_inclusion_bn ≡ recency_verdict cert l1_inclusion_bn
  unfolding check_recency get_rbn recency_window_of from_stateless recency_check_error_text
  verdict_of_cert (v2 c) l1_inclusion_bn h = refl
  verdict_of_cert (v3 c) l1_inclusion_bn h = refl
  verdict_of_cert (v4 c) l1_inclusion_bn h =
      ground
        (arith, recency_check_windowed l1_inclusion_bn c.batch_header_v2.reference_block_number h)

-- At a reference block number of 32 bits the check comes to its verdict: it passes V2, V3 and
-- recent V4 certificates, discards a stale V4 certificate, and is critical at an unknown
-- derivation version, each with its message.
pub check_recency-eq-verdict :
    (c : AltDaCommitment) (l1_inclusion_bn : ℕ)
    → get_rbn c < 2 ^ 32
    → check_recency c l1_inclusion_bn ≡ recency_verdict c.versioned_cert l1_inclusion_bn
check_recency-eq-verdict c = verdict_of_cert c.commitment_type c.da_layer_byte c.versioned_cert

verdict_iff :
    (cert : EigenDaVersionedCert) (l1_inclusion_bn : ℕ)
    → (recency_verdict cert l1_inclusion_bn ≡ ok tt) ↔ IsRecent cert l1_inclusion_bn
verdict_iff (v2 c) l1_inclusion_bn = (λ _. tt, λ _. refl)
verdict_iff (v3 c) l1_inclusion_bn = (λ _. tt, λ _. refl)
verdict_iff (v4 c) l1_inclusion_bn = (λ h. ground arith, λ h. ground arith)

-- At a reference block number of 32 bits, the check passes exactly for the certificates that the
-- rule calls recent: all of V2 and V3, and those of V4 with derivation version 0 that are included
-- at most 14400 L1 blocks after their reference block.
pub check_recency_iff :
    (c : AltDaCommitment) (l1_inclusion_bn : ℕ)
    → get_rbn c < 2 ^ 32
    → (check_recency c l1_inclusion_bn ≡ ok tt) ↔ IsRecent c.versioned_cert l1_inclusion_bn
check_recency_iff c l1_inclusion_bn h =
    rw (check_recency-eq-verdict c l1_inclusion_bn h) (verdict_iff c.versioned_cert l1_inclusion_bn)
