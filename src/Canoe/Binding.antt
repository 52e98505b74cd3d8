-- ===== src/Canoe/Binding.antt =====
-- The journal of sp1-cc (canoe/sp1-cc/verifier/src/lib.rs) and the claims that it is made of.
use hokulea.Base.{
  ℕ, ◌≡◌, refl, sym, ap, ap₂, ◌∙◌, Bool, List, [], ◌∷◌, map, ok, >>=-eq-ok, ok-injective,
  expect-eq-ok, traverse, traverse_cons, All, arith,
}
use hokulea.Canoe.{CertValidity, Claims}
use hokulea.Canoe.ChainSpec.{Reth}
use hokulea.Canoe.Journal.{
  Journal, Sp1, journal, derive_chain_config_hash, rsp_genesis_hash, to_journals_bytes,
}
use hokulea.Cert.{ByteList}
use hokulea.Cert.Codec.{Alloy, IsAlloy}
use hokulea.Cert.Commitment.{AltDaCommitment, to_rlp_bytes}
use hokulea.Cert.RoundTrip.{IsEigenDa, to_rlp_bytes-injective}

-- what a claim says: all of it but the timestamp, which is in the journal as the active fork alone
abbrev pub statement :
    AltDaCommitment × CertValidity → AltDaCommitment × Bool × ByteList × ℕ × ℕ × ByteList
statement (c, v) = (
  c, v.claimed_validity, v.l1_head_block_hash, v.l1_head_block_number, v.l1_chain_id,
  v.verifier_address,
)

-- what a journal shows of a claim
abbrev pub seen : Journal → ByteList × Bool × ByteList × ℕ × ℕ × ByteList
seen j = (j.input, j.output, j.blockhash, j.block_number, j.l1_chain_id, j.cert_verifier_address)

module _ (alloy : Alloy) (reth : Reth) (sp1 : Sp1 reth) where
  pub journal-seen :
      (c : AltDaCommitment) (v : CertValidity) (j : Journal)
      → journal alloy reth sp1 (c, v) ≡ ok j
      → seen j ≡ (
        to_rlp_bytes alloy c,
        v.claimed_validity,
        v.l1_head_block_hash,
        v.l1_head_block_number,
        v.l1_chain_id,
        v.verifier_address,
      )
  unfolding journal
  journal-seen c v j h =
      let (a, e, h1) =
        >>=-eq-ok
          (derive_chain_config_hash alloy reth sp1 v.l1_chain_id v.l1_head_block_timestamp
            v.l1_head_block_number)
          _ h in
      let (b, e', h2) = >>=-eq-ok (rsp_genesis_hash alloy reth sp1 v.l1_chain_id) _ h1 in
      ap seen (sym (ok-injective h2))

module _ (alloy : Alloy) (is_alloy : IsAlloy alloy) (reth : Reth) (sp1 : Sp1 reth) where
  journal_binds :
      (x y : AltDaCommitment × CertValidity) (j : Journal)
      → IsEigenDa x.0
      → IsEigenDa y.0
      → journal alloy reth sp1 x ≡ ok j
      → journal alloy reth sp1 y ≡ ok j
      → statement x ≡ statement y
  journal_binds (c, v) (d, w) j hx hy h k =
      let e = sym (journal-seen alloy reth sp1 c v j h) ∙ journal-seen alloy reth sp1 d w j k in
      let same_cert = to_rlp_bytes-injective alloy is_alloy c d hx hy (ap (λ t. t.0) e) in
      let rest : Bool × ByteList × ℕ × ℕ × ByteList
          → AltDaCommitment × Bool × ByteList × ℕ × ℕ × ByteList =
        λ t. (c, t.0, t.1, t.2, t.3, t.4) in
      ap (λ t. rest (t.1, t.2, t.3, t.4, t.5)) e
      ∙ ap
          (λ a. (
            a, w.claimed_validity, w.l1_head_block_hash, w.l1_head_block_number, w.l1_chain_id,
            w.verifier_address,
          ))
          same_cert

  journals_bind :
      (xs ys : Claims) (js : List Journal)
      → All (λ x. IsEigenDa x.0) xs
      → All (λ x. IsEigenDa x.0) ys
      → traverse (journal alloy reth sp1) xs ≡ ok js
      → traverse (journal alloy reth sp1) ys ≡ ok js
      → map statement xs ≡ map statement ys
  journals_bind [] [] js hx hy h k = refl
  journals_bind [] (y ∷ ys) js hx hy h k =
      let (j, js', e, e', out) = traverse_cons (journal alloy reth sp1) y ys js k in
      absurd (ground (arith, ok-injective h))
  journals_bind (x ∷ xs) [] js hx hy h k =
      let (j, js', e, e', out) = traverse_cons (journal alloy reth sp1) x xs js h in
      absurd (ground (arith, ok-injective k))
  journals_bind (x ∷ xs) (y ∷ ys) js hx hy h k =
      let (j, js', e, e', out) = traverse_cons (journal alloy reth sp1) x xs js h in
      let (i, is', d, d', out') = traverse_cons (journal alloy reth sp1) y ys js k in
      let ji : i ≡ j = cc in
      let jis : is' ≡ js' = cc in
      ap₂ (λ a b. a ∷ b) (journal_binds x y j hx.0 hy.0 e (rw ji at d))
        (journals_bind xs ys js' hx.1 hy.1 e' (rw jis at d'))

  -- If bincode does not give the same bytes to different journals, two lists of claims about
  -- commitments of the EigenDA layer whose journals have the same bytes agree in everything but
  -- timestamps.
  pub to_journals_bytes-binding :
      ((js js' : List Journal) (bytes : ByteList)
        → sp1.serialize_journals js ≡ ok bytes
        → sp1.serialize_journals js' ≡ ok bytes
        → js ≡ js')
      → (xs ys : Claims) (bytes : ByteList) → All (λ x. IsEigenDa x.0) xs
      → All (λ x. IsEigenDa x.0) ys
      → to_journals_bytes alloy reth sp1 xs ≡ ok bytes
      → to_journals_bytes alloy reth sp1 ys ≡ ok bytes
      → map statement xs ≡ map statement ys
  unfolding to_journals_bytes
  to_journals_bytes-binding injective xs ys bytes hx hy h k =
      let (js, e, h1) = >>=-eq-ok (traverse (journal alloy reth sp1) xs) _ h in
      let (js', e', k1) = >>=-eq-ok (traverse (journal alloy reth sp1) ys) _ k in
      let same : js' ≡ js = injective js' js bytes (expect-eq-ok _ k1) (expect-eq-ok _ h1) in
      journals_bind xs ys js hx hy e (rw same at e')
