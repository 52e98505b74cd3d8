-- ===== src/Source/Next.antt =====
-- `EigenDAPreimageSource::next` and `parse` (crates/eigenda/src/eigenda_preimage.rs).
use hokulea.Base.{
  ℕ, suc, ◌≡◌, ◌≢◌, ◌↔◌, refl, sym, ◌∙◌, ap, leb, Bool, true, false, [], ◌∷◌, append-nil, Outcome,
  ok, err, panic, arith, length, take_of_length-le, map_err-ne-panic,
}
use hokulea.Cert.{ByteList}
use hokulea.Cert.Codec.{Alloy, IsAlloy}
use hokulea.Cert.Commitment.{AltDaCommitment, AltDaCommitmentParseError, try_from, to_rlp_bytes}
use hokulea.Cert.RoundTrip.{
  IsEigenDa, try_from-to_rlp_bytes, length-to_rlp_bytes, try_from-ne-panic,
}
use hokulea.Errors.{HokuleaErrorKind, parse_error, from_preimage_error, invalid_cert}
use hokulea.Payload.{EncodedPayload, slice}
use hokulea.Provider.{EigenDaPreimageProvider}
use hokulea.Source.{check_recency, parse, next, after_validity, fetch_checked}

module _ {S E : Type 0} (fetcher : EigenDaPreimageProvider S E) where
  fetched_inversion :
      (c : AltDaCommitment) (checked : Outcome HokuleaErrorKind (Unit {0})) (s1 s2 : S)
      (payload : EncodedPayload)
      → fetch_checked fetcher c checked s1 ≡ (ok payload, s2)
      → (checked ≡ ok tt) × (fetcher.get_encoded_payload c s1 ≡ (ok payload, s2))
  unfolding fetch_checked
  fetched_inversion c (ok u) s1 s2 payload h = (refl, ground arith)
  fetched_inversion c (err e) s1 s2 payload h = ground arith
  fetched_inversion c panic s1 s2 payload h = ground arith

  validity_inversion :
      (c : AltDaCommitment) (l1_inclusion_bn : ℕ) (answer : Outcome E Bool × S) (s2 : S)
      (payload : EncodedPayload)
      → after_validity fetcher c l1_inclusion_bn answer.0 answer.1 ≡ (ok payload, s2)
      → (s1 : S) × (answer ≡ (ok true, s1))
        × (check_recency c l1_inclusion_bn ≡ ok tt)
        × (fetcher.get_encoded_payload c s1 ≡ (ok payload, s2))
  unfolding after_validity
  validity_inversion c l1_inclusion_bn (ok true, s1) s2 payload h =
      let (recent, fetched) =
        fetched_inversion c (check_recency c l1_inclusion_bn) s1 s2 payload h in
      (s1, refl, recent, fetched)
  validity_inversion c l1_inclusion_bn (ok false, s1) s2 payload h = ground arith
  validity_inversion c l1_inclusion_bn (err e, s1) s2 payload h = ground arith
  validity_inversion c l1_inclusion_bn (panic, s1) s2 payload h = ground arith

  -- `next` returns a payload exactly when the provider calls the certificate valid, the recency
  -- check passes, and the provider then returns that payload. The two queries are made in this order.
  pub next-ok_iff :
      (c : AltDaCommitment) (l1_inclusion_bn : ℕ) (s s2 : S) (payload : EncodedPayload)
      → (next fetcher c l1_inclusion_bn s ≡ (ok payload, s2)) ↔ (
          (s1 : S) × (fetcher.get_validity c s ≡ (ok true, s1))
          × (check_recency c l1_inclusion_bn ≡ ok tt)
          × (fetcher.get_encoded_payload c s1 ≡ (ok payload, s2)))
  unfolding next
  next-ok_iff c l1_inclusion_bn s s2 payload = (
    validity_inversion c l1_inclusion_bn (fetcher.get_validity c s) s2 payload,
    λ h. let (s1, valid, recent, fetched) = h in rw (valid, recent, fetched),
  )

  -- A certificate that the provider calls invalid is discarded, and no payload is asked for.
  pub next_invalid :
      (c : AltDaCommitment) (l1_inclusion_bn : ℕ) (s s1 : S)
      → fetcher.get_validity c s ≡ (ok false, s1)
      → next fetcher c l1_inclusion_bn s ≡ (err (from_preimage_error invalid_cert), s1)
  unfolding next
  next_invalid c l1_inclusion_bn s s1 h = rw h

  -- A certificate that fails the recency check fails with the error of the check, and no payload
  -- is asked for.
  pub next_stale :
      (c : AltDaCommitment) (l1_inclusion_bn : ℕ) (s s1 : S) (e : HokuleaErrorKind)
      → fetcher.get_validity c s ≡ (ok true, s1)
      → check_recency c l1_inclusion_bn ≡ err e
      → next fetcher c l1_inclusion_bn s ≡ (err e, s1)
  unfolding next
  next_stale c l1_inclusion_bn s s1 e h r = rw (h, r)

slice_tail : (b : ℕ) (bytes : ByteList) → slice (b ∷ bytes) 1 (suc (length bytes)) ≡ ok bytes
unfolding slice
slice_tail b bytes = ground (arith, take_of_length-le (length bytes) bytes)

-- With the laws of the RLP codec, `parse` reads back a commitment of the EigenDA layer behind any
-- first byte, since it skips that byte.
pub parse-to_rlp_bytes :
    (alloy : Alloy) (laws : IsAlloy alloy) (first : ℕ) (c : AltDaCommitment)
    → IsEigenDa c
    → parse alloy (first ∷ to_rlp_bytes alloy c) ≡ ok c
unfolding parse
parse-to_rlp_bytes alloy laws first c h =
    let long = length-to_rlp_bytes alloy laws c in
    let read : try_from alloy (to_rlp_bytes alloy c) ≡ ok c =
      ap (try_from alloy) (sym (append-nil (to_rlp_bytes alloy c)))
      ∙ try_from-to_rlp_bytes alloy laws c [] h in
    let test : leb (suc (length (to_rlp_bytes alloy c))) 2 ≡ false = ground arith in
    rw (test, slice_tail first (to_rlp_bytes alloy c), read)

-- With an RLP codec that does not panic, parsing calldata ends in a commitment or an error value,
-- whatever the bytes.
pub parse-ne-panic :
    (alloy : Alloy) → IsAlloy alloy → (bytes : ByteList) → parse alloy bytes ≢ panic
unfolding parse
parse-ne-panic alloy laws [] = ground arith
parse-ne-panic alloy laws (b ∷ bytes) = ground (
  arith,
  slice_tail b bytes,
  map_err-ne-panic {E = AltDaCommitmentParseError} parse_error (try_from alloy bytes)
      (try_from-ne-panic alloy laws bytes),
)
