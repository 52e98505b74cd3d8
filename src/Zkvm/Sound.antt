-- ===== src/Zkvm/Sound.antt =====
-- What the proof program (crates/zkvm-verification/src/lib.rs) knows of the data that it derives from,
-- with the sp1-cc verifier of claims and the sp1-bn verifier of KZG proofs.
use mathlib.Core.Path.{subst}
use hokulea.Base.{
  ◌≡◌, ◌≢◌, sym, ap, String, Bool, true, List, [], ◌∷◌, map, Outcome, ok, err, panic, >>=-eq-ok,
  ok-injective, expect, expect-eq-ok, traverse, traverse_cons, All, arith,
}
use hokulea.Canoe.{CanoeInput, Claims}
use hokulea.Canoe.Addresses.{AddressFetcher}
use hokulea.Canoe.Binding.{statement}
use hokulea.Canoe.Call.{Abi}
use hokulea.Canoe.ChainSpec.{Reth}
use hokulea.Canoe.Client.{Executor, main}
use hokulea.Canoe.Client.Run.{Holds}
use hokulea.Canoe.Client.Sound.{validate_cert_receipt_sound}
use hokulea.Canoe.Journal.{Journal, Sp1, v_key, canoe_sp1_cc_verifier}
use hokulea.Cert.{ByteList}
use hokulea.Cert.Codec.{Alloy, IsAlloy}
use hokulea.Cert.Commitment.{AltDaCommitment}
use hokulea.Preloaded.{Preloaded, L1Head, cert_validity, blob_of, commitment_of}
use hokulea.Preloaded.Checks.{FieldElementsAgree, from_witness_inversion}
use hokulea.Preloaded.Queue.{loaded}
use hokulea.Sp1Bn.{KzgError, Substrate}
use hokulea.Sp1Bn.Batch.{batch_verify, verify_blob_kzg_proof_batch, unwrap_or_false}
use hokulea.Witness.{EigenDaWitness, without_proof, proof_of}
use hokulea.Zkvm.{BootInfo, Header, l1_head_of, eigenda_witness_to_preloaded_provider}

unwrap_or_false-eq-ok :
    {E : Type 0} (m : Outcome KzgError Bool) → unwrap_or_false {E = E} m ≡ ok true → m ≡ ok true
unfolding unwrap_or_false
unwrap_or_false-eq-ok (ok b) h = ap ok (ok-injective h)
unwrap_or_false-eq-ok (err e) h = absurd (ground arith)
unwrap_or_false-eq-ok panic h = absurd (ground arith)

module _ (alloy : Alloy) (abi : Abi) {reth : Reth} (sp1 : Sp1 reth) (executor : Executor sp1)
    (fetcher : AddressFetcher) where
  -- The validity of an entry is what the contract answers at the L1 head, at the address that the
  -- fetcher gives for the certificate.
  abbrev pub EntryHolds : executor.Client → L1Head → AltDaCommitment × Bool → Type 0
  EntryHolds client head (c, validity) =
      (address : ByteList) × (fetcher.fetch_address head.chain_id c.versioned_cert ≡ ok address)
      × Holds alloy abi sp1 executor client
          (c, validity, head.block_hash, head.block_number, head.chain_id, address)

  claims-EntryHolds :
      {E : Type 0} (client : executor.Client) (head : L1Head)
      (entries : List (AltDaCommitment × Bool)) (claims : Claims)
      → traverse (cert_validity {E = E} fetcher head) entries ≡ ok claims
      → All (Holds alloy abi sp1 executor client) (map statement claims)
      → All (EntryHolds client head) entries
  unfolding cert_validity
  claims-EntryHolds {E} client head [] claims h holds = tt
  claims-EntryHolds {E} client head ((c, validity) ∷ entries) claims h holds =
      let (claim, claims', e, e', out) =
        traverse_cons (cert_validity {E = E} fetcher head) (c, validity) entries claims h in
      let (address, fetched, made) =
        >>=-eq-ok (expect (fetcher.fetch_address head.chain_id c.versioned_cert)) _ e in
      let all_hold =
        subst (λ cs. All (Holds alloy abi sp1 executor client) (map statement cs)) out holds in
      let stated = ap statement (sym (ok-injective made)) in
      (
        (
          address,
          expect-eq-ok (fetcher.fetch_address head.chain_id c.versioned_cert) fetched,
          subst (Holds alloy abi sp1 executor client) stated all_hold.0,
        ),
        claims-EntryHolds {E = E} client head entries claims' e' all_hold.1,
      )

  -- Suppose that accepted canoe proofs show runs of the sp1-cc client, that SHA-256 and bincode do
  -- not give one value to different inputs, and that `alloy` has its laws. When the proof program
  -- makes its provider with the sp1-bn backend, in the mode that verifies proofs, the provider
  -- answers with the validities and the payloads of the witness. There is a state of the L1 head
  -- where every validity, if there is any, is what the verifier contract answers; each payload has
  -- the length that its certificate says, and the KZG proofs of the payloads have been verified.
  pub eigenda_witness_to_preloaded_provider_sound :
      IsAlloy alloy
      → ((digest : ByteList)
          → sp1.verify_sp1_proof v_key digest ≡ ok tt
          → (sketch_bytes : ByteList) × (inputs : List CanoeInput) × (committed : ByteList) × (main
                alloy abi sp1 executor sketch_bytes inputs
              ≡ ok committed)
            × (sp1.sha256 committed ≡ digest))
      → ((a b : ByteList) → sp1.sha256 a ≡ sp1.sha256 b → a ≡ b)
      → ((js js' : List Journal) (bytes : ByteList)
          → sp1.serialize_journals js ≡ ok bytes
          → sp1.serialize_journals js' ≡ ok bytes
          → js ≡ js')
      → {E : Type 0} (s : Substrate) (header_by_hash : ByteList → Outcome String Header)
        (boot_info : BootInfo) (w : EigenDaWitness) (p : Preloaded)
      → eigenda_witness_to_preloaded_provider {E = E}
          (batch_verify s)
          header_by_hash
          boot_info
          (canoe_sp1_cc_verifier alloy reth sp1 true)
          fetcher
          w
        ≡ ok p
      → (header : Header) × (header_by_hash boot_info.l1_head ≡ ok header)
        × (w.validities ≢ []
            → (client : executor.Client) × All
                (EntryHolds client (l1_head_of boot_info header))
                w.validities)
        × All FieldElementsAgree w.encoded_payloads
        × (verify_blob_kzg_proof_batch s
              (map blob_of w.encoded_payloads)
              (map commitment_of w.encoded_payloads)
              (map proof_of w.encoded_payloads)
            ≡ ok true)
        × (p ≡ loaded w.validities (map without_proof w.encoded_payloads))
  unfolding eigenda_witness_to_preloaded_provider batch_verify
  eigenda_witness_to_preloaded_provider_sound is_alloy proved collision_free injective {E} s
        header_by_hash boot_info w p h =
      let (header, found, h1) = >>=-eq-ok (expect (header_by_hash boot_info.l1_head)) _ h in
      let head = l1_head_of boot_info header in
      let verifier = canoe_sp1_cc_verifier alloy reth sp1 true in
      let ((enough, agree, valid, verified), provider) =
        from_witness_inversion {E = E} (batch_verify s) verifier fetcher head w p h1 in
      (
        header,
        expect-eq-ok (header_by_hash boot_info.l1_head) found,
        λ ne.
            let (claims, claimed, accepted) = valid ne in
            let (client, holds) =
              validate_cert_receipt_sound alloy abi sp1 executor is_alloy proved collision_free
                injective claims w.canoe_proof_bytes accepted in
            (client, claims-EntryHolds {E = E} client head w.validities claims claimed holds),
        agree,
        unwrap_or_false-eq-ok _ verified,
        provider,
      )
