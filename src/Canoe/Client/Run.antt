-- ===== src/Canoe/Client/Run.antt =====
-- What a run of the sp1-cc client (canoe/sp1-cc/client/src/main.rs) establishes.
use hokulea.Base.{
  ℕ, ◌≡◌, ◌↔◌, refl, sym, ap, ap₂, ◌∙◌, String, Bool, true, false, List, [], ◌∷◌, map, Outcome, ok,
  err, panic, >>=-eq-ok, ok-injective, expect, expect-eq-ok, assert, assert-eq-ok, traverse,
  traverse_cons, All, ◌==◌, ==→eq, arith,
}
use hokulea.Base.Bytes.{bytes_eq, bytes_eq-eq}
use hokulea.Canoe.{CanoeInput}
use hokulea.Canoe.Binding.{seen}
use hokulea.Canoe.Call.{Abi}
use hokulea.Canoe.ChainSpec.{Reth}
use hokulea.Canoe.Client.{
  PublicValues, Executor, is_success, validity_of, bool_eq, contract_input, check_common, evaluate,
  run, main,
}
use hokulea.Canoe.Journal.{Journal, Sp1}
use hokulea.Canoe.Solidity.{StatusCode, success}
use hokulea.Cert.{ByteList}
use hokulea.Cert.Codec.{Alloy}
use hokulea.Cert.Commitment.{AltDaCommitment, to_rlp_bytes}

bool_eq-eq : (a b : Bool) → bool_eq a b ≡ true → a ≡ b
unfolding bool_eq
bool_eq-eq true b h = sym h
bool_eq-eq false true h = absurd (ground arith)
bool_eq-eq false false h = refl

is_success_iff : (c : StatusCode) → is_success c ≡ true ↔ c ≡ success
unfolding is_success
is_success_iff success = (λ h. refl, λ h. refl)
is_success_iff c = (λ h. absurd (ground arith), λ h. ap is_success h)

-- An answer stands for validity just if it is the status of success.
validity_of_iff :
    {E : Type 0} (answer : Outcome String StatusCode) (b : Bool)
    → validity_of {E = E} answer ≡ ok b
    → b ≡ true ↔ answer ≡ ok success
unfolding validity_of
validity_of_iff (ok c) b h =
    let e = ok-injective h in
    (λ t. ap ok ((is_success_iff c).0 (e ∙ t)), λ t. sym e ∙ (is_success_iff c).1 (ok-injective t))
validity_of_iff (err x) b h =
    let e = ok-injective h in (λ t. absurd (ground arith), λ t. absurd (ground arith))
validity_of_iff panic b h = absurd (ground arith)

-- what an input says, in the order of `statement`
abbrev pub input_statement : CanoeInput → AltDaCommitment × Bool × ByteList × ℕ × ℕ × ByteList
input_statement i = (
  i.altda_commitment, i.claimed_validity, i.l1_head_block_hash, i.l1_head_block_number,
  i.l1_chain_id, i.verifier_address,
)

module _ (alloy : Alloy) (abi : Abi) {reth : Reth} (sp1 : Sp1 reth) (executor : Executor sp1) where
  -- A statement holds on the state of a client: the call of the contract at the address, for the
  -- commitment, is executed at the block of the given hash, number and chain, and answers with the
  -- status of success just if the statement says that the certificate is valid.
  pub record Holds (client : executor.Client)
      (t : AltDaCommitment × Bool × ByteList × ℕ × ℕ × ByteList) : Type 0 where
    pub public_vals : PublicValues executor.AnchorType
    pub executed : executor.execute client (contract_input abi t.5 t.0) ≡ ok public_vals
    pub at_block : executor.is_block_hash public_vals.anchor_type ≡ true
    pub block_hash : public_vals.anchor_hash ≡ t.2
    pub block_number : executor.header_number client ≡ t.3
    pub chain : executor.chain_id client ≡ t.4
    pub validity : t.1 ≡ true ↔ executor.abi_decode_status public_vals.contract_output ≡ ok success

  abbrev pub expected :
      AltDaCommitment × Bool × ByteList × ℕ × ℕ × ByteList
      → ByteList × Bool × ByteList × ℕ × ℕ × ByteList
  expected t = (to_rlp_bytes alloy t.0, t.1, t.2, t.3, t.4, t.5)

  -- one evaluation, for an input with the L1 parameters of the run
  evaluate-Holds :
      (client : executor.Client) (hash genesis_hash : ByteList) (input : CanoeInput) (j : Journal)
      → input.l1_head_block_hash ≡ hash
      → input.l1_head_block_number ≡ executor.header_number client
      → input.l1_chain_id ≡ executor.chain_id client
      → evaluate alloy abi sp1 executor client
          (executor.chain_id client)
          (executor.header_number client)
          hash
          genesis_hash
          input
        ≡ ok j
      → Holds client (input_statement input) × (seen j ≡ expected (input_statement input))
  unfolding evaluate
  evaluate-Holds client hash genesis_hash input j same_hash same_number same_chain h =
      let (vals, executed, h1) = >>=-eq-ok (expect (executor.execute client _)) _ h in
      let (returns, decoded, h2) =
        >>=-eq-ok (validity_of (executor.abi_decode_status vals.contract_output)) _ h1 in
      let (u, anchored, h3) = >>=-eq-ok (assert (executor.is_block_hash vals.anchor_type)) _ h2 in
      let (u2, claimed, h4) = >>=-eq-ok (assert (bool_eq input.claimed_validity returns)) _ h3 in
      let (u3, hashed, h5) = >>=-eq-ok (assert (bytes_eq vals.anchor_hash hash)) _ h4 in
      let at = bytes_eq-eq vals.anchor_hash hash (assert-eq-ok _ hashed) in
      let agreed = bool_eq-eq input.claimed_validity returns (assert-eq-ok _ claimed) in
      let answer =
        validity_of_iff (executor.abi_decode_status vals.contract_output) returns decoded in
      let made = ok-injective h5 in
      let placed = at ∙ sym same_hash in
      let returned = sym agreed in
      let numbered = sym same_number in
      let chained = sym same_chain in
      (
        record {
          public_vals = vals;
          executed = expect-eq-ok (executor.execute client _) executed;
          at_block = assert-eq-ok _ anchored;
          block_hash = placed;
          block_number = sym same_number;
          chain = sym same_chain;
          validity = (λ t. answer.0 (sym agreed ∙ t), λ t. agreed ∙ answer.1 t);
        },
        ap seen (sym made) ∙ (λ i. (
          to_rlp_bytes alloy input.altda_commitment,
          returned i,
          placed i,
          numbered i,
          chained i,
          input.verifier_address,
        )),
      )

  -- what the loop on common parameters requires of the inputs
  pub check_common_lem :
      (chain_id number : ℕ) (hash : ByteList) (inputs : List CanoeInput)
      → check_common chain_id number hash inputs ≡ ok tt
      → All
          (λ i.
            (i.l1_chain_id ≡ chain_id)
            × (i.l1_head_block_number ≡ number)
            × (i.l1_head_block_hash ≡ hash))
          inputs
  unfolding check_common
  check_common_lem chain_id number hash [] h = tt
  check_common_lem chain_id number hash (i ∷ inputs) h =
      let (u1, e1, h1) = >>=-eq-ok (assert (i.l1_chain_id == chain_id)) _ h in
      let (u2, e2, h2) = >>=-eq-ok (assert (i.l1_head_block_number == number)) _ h1 in
      let (u3, e3, h3) = >>=-eq-ok (assert (bytes_eq i.l1_head_block_hash hash)) _ h2 in
      (
        (
          ==→eq _ _ (assert-eq-ok _ e1),
          ==→eq _ _ (assert-eq-ok _ e2),
          bytes_eq-eq i.l1_head_block_hash hash (assert-eq-ok _ e3),
        ),
        check_common_lem chain_id number hash inputs h3,
      )

  evaluate_all :
      (client : executor.Client) (hash genesis_hash : ByteList) (inputs : List CanoeInput)
      (js : List Journal)
      → All
          (λ i.
            (i.l1_chain_id ≡ executor.chain_id client)
            × (i.l1_head_block_number ≡ executor.header_number client)
            × (i.l1_head_block_hash ≡ hash))
          inputs
      → traverse
          (evaluate alloy abi sp1 executor client
            (executor.chain_id client)
            (executor.header_number client)
            hash
            genesis_hash)
          inputs
        ≡ ok js
      → All (Holds client) (map input_statement inputs)
        × (map seen js ≡ map (λ i. expected (input_statement i)) inputs)
  evaluate_all client hash genesis_hash [] js common h = (tt, ap (map seen) (sym (ok-injective h)))
  evaluate_all client hash genesis_hash (i ∷ inputs) js (same, common) h =
      let (j, js', e, e', out) = traverse_cons _ i inputs js h in
      let (holds, shown) = evaluate-Holds client hash genesis_hash i j same.2 same.1 same.0 e in
      let (all_hold, all_shown) = evaluate_all client hash genesis_hash inputs js' common e' in
      ((holds, all_hold), ap (map seen) out ∙ ap₂ (λ a b. a ∷ b) shown all_shown)

  -- A run that commits has evaluated every input on the state of one client: all that the inputs say
  -- holds there, and the committed bytes are the journals of just these statements.
  pub main_inversion :
      (state_sketch_bytes : ByteList) (inputs : List CanoeInput) (committed : ByteList)
      → main alloy abi sp1 executor state_sketch_bytes inputs ≡ ok committed
      → (client : executor.Client) × All (Holds client) (map input_statement inputs)
        × (js : List Journal) × (sp1.serialize_journals js ≡ ok committed)
        × (map seen js ≡ map (λ i. expected (input_statement i)) inputs)
  unfolding main run
  main_inversion sketch_bytes [] committed h = absurd (ground arith)
  main_inversion sketch_bytes (first ∷ inputs) committed h =
      let (sketch, e1, h1) = >>=-eq-ok (expect (executor.deserialize_sketch sketch_bytes)) _ h in
      let (u2, e2, h2) = >>=-eq-ok (check_common _ _ _ (first ∷ inputs)) _ h1 in
      let (genesis_bytes, e3, h3) =
        >>=-eq-ok (expect (sp1.serialize_genesis (executor.genesis sketch))) _ h2 in
      let (client, e4, h4) = >>=-eq-ok (expect (executor.eth sketch)) _ h3 in
      let (u5, e5, h5) =
        >>=-eq-ok (assert (first.l1_head_block_number == executor.header_number client)) _ h4 in
      let (u6, e6, h6) = >>=-eq-ok (assert (first.l1_chain_id == executor.chain_id client)) _ h5 in
      let evaluations = λ (number : ℕ).
        traverse
          (evaluate alloy abi sp1 executor client (executor.chain_id client) number
            first.l1_head_block_hash (alloy.keccak256 genesis_bytes))
          (first ∷ inputs) in
      let (js, e7, h7) = >>=-eq-ok (evaluations first.l1_head_block_number) _ h6 in
      let number = ==→eq _ _ (assert-eq-ok _ e5) in
      let chain = ==→eq _ _ (assert-eq-ok _ e6) in
      let common = check_common_lem _ _ _ (first ∷ inputs) e2 in
      let (all_hold, shown) =
        evaluate_all client first.l1_head_block_hash (alloy.keccak256 genesis_bytes)
          (first ∷ inputs) js (on_client client (first ∷ inputs) chain number common)
          (ap evaluations (sym number) ∙ e7) in
      (client, all_hold, js, expect-eq-ok (sp1.serialize_journals js) h7, shown)
    where
      on_client :
          (client : executor.Client) (inputs : List CanoeInput)
          → first.l1_chain_id ≡ executor.chain_id client
          → first.l1_head_block_number ≡ executor.header_number client
          → All
              (λ i.
                (i.l1_chain_id ≡ first.l1_chain_id)
                × (i.l1_head_block_number ≡ first.l1_head_block_number)
                × (i.l1_head_block_hash ≡ first.l1_head_block_hash))
              inputs
          → All
              (λ i.
                (i.l1_chain_id ≡ executor.chain_id client)
                × (i.l1_head_block_number ≡ executor.header_number client)
                × (i.l1_head_block_hash ≡ first.l1_head_block_hash))
              inputs
      on_client client [] chain number common = tt
      on_client client (i ∷ inputs) chain number (same, common) =
          ((same.0 ∙ chain, same.1 ∙ number, same.2), on_client client inputs chain number common)
