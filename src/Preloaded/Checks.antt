-- ===== src/Preloaded/Checks.antt =====
-- The checks of `from_witness` (crates/proof/src/preloaded_eigenda_provider.rs).
use hokulea.Base.{
  ℕ, ◌≤◌, ◌≡◌, ◌↔◌, ◌≢◌, refl, ap, Bool, true, Option, List, [], ◌∷◌, map, Outcome, ok, err, panic,
  ◌>>=◌, >>=-eq-ok, expect, expect-eq-ok, assert, assert-eq-ok, traverse, leb, length, length-map,
  All, arith, if◌then◌else◌, sym, ◌∙◌, ok-injective,
}
use hokulea.Canoe.{Claims, CanoeVerifier}
use hokulea.Canoe.Addresses.{AddressFetcher}
use hokulea.Cert.{ByteList}
use hokulea.Cert.Commitment.{AltDaCommitment, get_num_field_element}
use hokulea.Payload.{EncodedPayload, num_field_element}
use hokulea.Preloaded.{
  Preloaded, L1Head, BatchVerify, cert_validity, check_field_elements, check_validities, blob_of,
  commitment_of, from_witness,
}
use hokulea.Preloaded.Queue.{loaded}
use hokulea.Witness.{EigenDaWitness, is_empty, without_proof, proof_of}

le→leb : (a b : ℕ) → a ≤ b → leb a b ≡ true
le→leb a b h = ground arith

assert_le {κ} : {E : Type κ} (a b : ℕ) {u : Unit {0}} → assert {E = E} (leb a b) ≡ ok u → a ≤ b
assert_le a b h = let e = assert-eq-ok (leb a b) h in ground arith

-- A payload has as many field elements as its certificate says.
abbrev pub FieldElementsAgree : AltDaCommitment × EncodedPayload × ByteList → Type 0
FieldElementsAgree (altda_commitment, encoded_payload, proof) =
    num_field_element encoded_payload ≡ get_num_field_element altda_commitment

module _ {E : Type 0} where
  check_field_elements_iff :
      (entries : List (AltDaCommitment × EncodedPayload × ByteList))
      → check_field_elements {E = E} entries ≡ ok tt ↔ All FieldElementsAgree entries
  unfolding check_field_elements
  check_field_elements_iff [] = (λ h. tt, λ h. refl)
  check_field_elements_iff ((c, p, proof) ∷ entries) =
      ground (arith, check_field_elements_iff entries)

module _ {E : Type 0} (batch_verify : BatchVerify E) (verifier : CanoeVerifier)
    (fetcher : AddressFetcher) (head : L1Head) where
  -- What the checks establish: enough claims, payloads of the right length, claims that the verifier
  -- has accepted together with the canoe proof, and a batch of KZG proofs that verifies.
  abbrev pub Checked : EigenDaWitness → Type 0
  Checked w =
      (length w.encoded_payloads ≤ length w.validities)
      × All FieldElementsAgree w.encoded_payloads
      × (w.validities ≢ []
          → (claims : Claims) × (traverse (cert_validity {E = E} fetcher head) w.validities
              ≡ ok claims)
            × (verifier.validate_cert_receipt claims w.canoe_proof_bytes ≡ ok tt))
      × (batch_verify (map blob_of w.encoded_payloads) (map commitment_of w.encoded_payloads)
            (map proof_of w.encoded_payloads)
          ≡ ok true)

  claims_iff :
      (vs : List (AltDaCommitment × Bool)) (t : Outcome E Claims) (proof : Option ByteList)
      → (if is_empty vs
            then ok tt
            else t >>= λ claims. expect (verifier.validate_cert_receipt claims proof))
          ≡ ok tt
        ↔ (vs ≢ []
            → (claims : Claims) × (t ≡ ok claims)
              × (verifier.validate_cert_receipt claims proof ≡ ok tt))
  claims_iff [] t proof = (λ h ne. absurd (ne refl), λ h. refl)
  claims_iff (v ∷ vs) (ok claims) proof = (
    λ h ne. (claims, refl, expect-eq-ok (verifier.validate_cert_receipt claims proof) h),
    λ h.
        let (claims', e, valid) = h (λ q. cc) in
        let same_claims = ok-injective e in rw (same_claims, valid),
  )
  claims_iff (v ∷ vs) (err e) proof = (
    λ h. absurd (ground arith),
    λ h. let (claims, e, valid) = h (λ q. cc) in absurd (ground arith),
  )
  claims_iff (v ∷ vs) panic proof = (
    λ h. absurd (ground arith),
    λ h. let (claims, e, valid) = h (λ q. cc) in absurd (ground arith),
  )

  check_validities_iff :
      (w : EigenDaWitness)
      → check_validities {E = E} verifier fetcher head w ≡ ok tt ↔ (
          w.validities ≢ []
          → (claims : Claims) × (traverse (cert_validity {E = E} fetcher head) w.validities
              ≡ ok claims)
            × (verifier.validate_cert_receipt claims w.canoe_proof_bytes ≡ ok tt))
  unfolding check_validities
  check_validities_iff w =
      claims_iff w.validities (traverse (cert_validity {E = E} fetcher head) w.validities)
        w.canoe_proof_bytes

  -- When `from_witness` returns a provider, all its checks have held: there are enough claims,
  -- each payload has the length that its certificate says, the verifier has accepted the claims
  -- (if there are any) with the canoe proof, and the batch of KZG proofs has verified. The
  -- provider has the validities and the payloads of the witness to answer with.
  pub from_witness_inversion :
      (w : EigenDaWitness) (p : Preloaded)
      → from_witness batch_verify verifier fetcher head w ≡ ok p
      → Checked w × (p ≡ loaded w.validities (map without_proof w.encoded_payloads))
  unfolding from_witness
  from_witness_inversion w p h =
      let (u, a, h1) =
        >>=-eq-ok (assert (leb (length w.encoded_payloads) (length w.validities))) _ h in
      let (u2, b, h2) = >>=-eq-ok (check_field_elements w.encoded_payloads) _ h1 in
      let (u3, c, h3) = >>=-eq-ok (check_validities verifier fetcher head w) _ h2 in
      let (verified, d, h4) = >>=-eq-ok (batch_verify _ _ _) _ h3 in
      let (u5, e, h5) = >>=-eq-ok (assert verified) _ h4 in
      let (u6, f, h6) =
        >>=-eq-ok
          (assert (leb (length (map without_proof w.encoded_payloads)) (length w.validities))) _
          h5 in
      (
        (
          assert_le _ _ a,
          (check_field_elements_iff {E = E} w.encoded_payloads).0 b,
          (check_validities_iff w).0 c,
          d ∙ ap ok (assert-eq-ok verified e),
        ),
        sym (ok-injective h6),
      )

  -- When all the checks hold, `from_witness` returns the provider with the validities and the
  -- payloads of the witness.
  pub from_witness_complete :
      (w : EigenDaWitness)
      → Checked w
      → from_witness batch_verify verifier fetcher head w
        ≡ ok (loaded w.validities (map without_proof w.encoded_payloads))
  unfolding from_witness
  from_witness_complete w (enough, agree, valid, verified) =
      let a = le→leb _ _ enough in
      let b = (check_field_elements_iff {E = E} w.encoded_payloads).1 agree in
      let c = (check_validities_iff w).1 valid in
      rw (a, b, c, verified, length-map without_proof w.encoded_payloads, a)
