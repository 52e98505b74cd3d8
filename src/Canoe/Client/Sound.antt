-- ===== src/Canoe/Client/Sound.antt =====
-- What the sp1-cc verifier (canoe/sp1-cc/verifier/src/lib.rs) knows of the claims that it accepts, by
-- the run of the client (canoe/sp1-cc/client/src/main.rs) that the proof shows.
use mathlib.Core.Path.{subst}
use hokulea.Base.{
  ℕ, ◌≡◌, sym, ap, ap₂, ◌∙◌, Bool, true, not, Option, List, [], ◌∷◌, map, ok, >>=-eq-ok,
  ok-injective, expect-eq-ok, assert, traverse, traverse_cons, All, arith,
}
use hokulea.Canoe.{CanoeInput, Claims}
use hokulea.Canoe.Binding.{statement, seen, journal-seen}
use hokulea.Canoe.Call.{Abi}
use hokulea.Canoe.ChainSpec.{Reth}
use hokulea.Canoe.Client.{Executor, main}
use hokulea.Canoe.Journal.{Journal, Sp1, v_key, journal, to_journals_bytes, validate_cert_receipt}
use hokulea.Cert.{ByteList}
use hokulea.Cert.Codec.{Alloy, IsAlloy}
use hokulea.Cert.Commitment.{AltDaCommitment}
use hokulea.Cert.RoundTrip.{eq_of_to_rlp_bytes}
use hokulea.Witness.{is_empty}
use hokulea.Canoe.Client.Run.{input_statement, Holds, expected, main_inversion}

module _ (alloy : Alloy) (abi : Abi) {reth : Reth} (sp1 : Sp1 reth) (executor : Executor sp1) where
  -- The journals of claims show what the claims state.
  journals-seen :
      (claims : Claims) (js : List Journal)
      → traverse (journal alloy reth sp1) claims ≡ ok js
      → map seen js ≡ map (λ c. expected alloy abi sp1 executor (statement c)) claims
  journals-seen [] js h = ap (map seen) (sym (ok-injective h))
  journals-seen ((c, v) ∷ claims) js h =
      let (j, js', e, e', out) = traverse_cons (journal alloy reth sp1) (c, v) claims js h in
      ap (map seen) out
      ∙ ap₂ (λ a b. a ∷ b) (journal-seen alloy reth sp1 c v j e) (journals-seen claims js' e')

  module _ (is_alloy : IsAlloy alloy) where
    expected-injective :
        (t u : AltDaCommitment × Bool × ByteList × ℕ × ℕ × ByteList)
        → expected alloy abi sp1 executor t ≡ expected alloy abi sp1 executor u
        → t ≡ u
    expected-injective t u h =
        let same = eq_of_to_rlp_bytes alloy is_alloy t.0 u.0 (ap (λ x. x.0) h) in
        λ i. (same i, (h i).1, (h i).2, (h i).3, (h i).4, (h i).5)

    transfer :
        (client : executor.Client) (claims : Claims) (inputs : List CanoeInput)
        → map (λ c. expected alloy abi sp1 executor (statement c)) claims
          ≡ map (λ i. expected alloy abi sp1 executor (input_statement i)) inputs
        → All (Holds alloy abi sp1 executor client) (map input_statement inputs)
        → All (Holds alloy abi sp1 executor client) (map statement claims)
    transfer client [] inputs h holds = tt
    transfer client (c ∷ claims) [] h holds = absurd (ground arith)
    transfer client (c ∷ claims) (i ∷ inputs) h holds =
        let first : expected alloy abi sp1 executor (statement c)
            ≡ expected alloy abi sp1 executor (input_statement i) =
          cc in
        let rest : map (λ c. expected alloy abi sp1 executor (statement c)) claims
            ≡ map (λ i. expected alloy abi sp1 executor (input_statement i)) inputs =
          cc in
        (
          subst (Holds alloy abi sp1 executor client)
              (sym (expected-injective (statement c) (input_statement i) first)) holds.0,
          transfer client claims inputs rest holds.1,
        )

    -- Suppose that an accepted proof shows a run of the client that committed to bytes of the digest
    -- proved, and that SHA-256 and bincode do not give one value to different inputs. When the
    -- verifier accepts claims, there is a state of one L1 block where all of them hold: the call of
    -- the contract at the claimed address and block, on the claimed chain, answers with success for
    -- just the certificates that are claimed valid.
    pub validate_cert_receipt_sound :
        ((digest : ByteList)
          → sp1.verify_sp1_proof v_key digest ≡ ok tt
          → (sketch_bytes : ByteList) × (inputs : List CanoeInput) × (committed : ByteList) × (main
                alloy abi sp1 executor sketch_bytes inputs
              ≡ ok committed)
            × (sp1.sha256 committed ≡ digest))
        → ((a b : ByteList) → sp1.sha256 a ≡ sp1.sha256 b → a ≡ b)
        → ((js js' : List Journal) (bytes : ByteList)
            → sp1.serialize_journals js ≡ ok bytes
            → sp1.serialize_journals js' ≡ ok bytes
            → js ≡ js')
        → (claims : Claims) (proof : Option ByteList)
        → validate_cert_receipt alloy reth sp1 true claims proof ≡ ok tt
        → (client : executor.Client) × All
            (Holds alloy abi sp1 executor client)
            (map statement claims)
    unfolding validate_cert_receipt to_journals_bytes
    validate_cert_receipt_sound proved collision_free injective claims proof h =
        let (u1, e1, h1) = >>=-eq-ok (assert (not (is_empty claims))) _ h in
        let (bytes, e2, h2) = >>=-eq-ok (to_journals_bytes alloy reth sp1 claims) _ h1 in
        let (u3, e3, h3) = >>=-eq-ok (sp1.verify_sp1_proof v_key (sp1.sha256 bytes)) _ h2 in
        let (js, e4, h4) = >>=-eq-ok (traverse (journal alloy reth sp1) claims) _ e2 in
        let (sketch_bytes, inputs, committed, ran, digest) = proved (sp1.sha256 bytes) e3 in
        let same_bytes = collision_free committed bytes digest in
        let (client, holds, js', e5, shown) =
          main_inversion alloy abi sp1 executor sketch_bytes inputs committed ran in
        let same_journals =
          injective js js' bytes (expect-eq-ok (sp1.serialize_journals js) h4)
            (e5 ∙ ap ok same_bytes) in
        (
          client,
          transfer client claims inputs
              (sym (journals-seen claims js e4) ∙ ap (map seen) same_journals ∙ shown) holds,
        )
