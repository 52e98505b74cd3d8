-- ===== src/Canoe/Prover/Complete.antt =====
-- The host of the sp1-cc proof (canoe/sp1-cc/host/src/lib.rs) against its guest program
-- (canoe/sp1-cc/client/src/main.rs).
use mathlib.Core.Path.{subst}
use hokulea.Base.{
  ℕ, ◌≡◌, refl, sym, ap, ◌∙◌, true, List, [], ◌∷◌, ok, >>=-eq-ok, ok-injective, expect,
  expect-eq-ok, assert, assert-eq-ok, map_err, traverse, All, ◌==◌, arith,
}
use hokulea.Base.Bytes.{bytes_eq, bytes_eq-eq, bytes_eq_refl}
use hokulea.Canoe.{CanoeInput}
use hokulea.Canoe.Call.{Abi}
use hokulea.Canoe.ChainSpec.{Reth}
use hokulea.Canoe.Client.{
  ContractInput, Executor, is_success, validity_of, check_common, evaluate, run, main,
}
use hokulea.Canoe.Journal.{Journal, Sp1}
use hokulea.Canoe.Prover.{prover_failed}
use hokulea.Canoe.Prover.Sketch.{
  Prover, genesis_or_custom, populate_all, make_stdin, canoe_proof_stdin,
}
use hokulea.Cert.{ByteList}
use hokulea.Cert.Codec.{Alloy}
use hokulea.Cert.Commitment.{to_rlp_bytes}
use hokulea.Canoe.Prover.Calls.{
  map_err-eq-ok, Answers, Reads, IsFaithful, Agrees, AllAgree, populate_all_inversion,
}

==-refl : (n : ℕ) → (n == n) ≡ true
==-refl n = ground arith

module _ (alloy : Alloy) (abi : Abi) {reth : Reth} {sp1 : Sp1 reth} {executor : Executor sp1}
    (prover : Prover executor) where
  -- the guest's evaluation of an input whose call is answered as the claim says
  evaluate_total :
      (client : executor.Client) (chain number : ℕ) (hash genesis_hash : ByteList)
      (input : CanoeInput) (p : ContractInput × ByteList)
      → Agrees abi prover input p
      → Answers abi prover client hash p
      → (j : Journal) × (evaluate alloy abi sp1 executor client chain number hash genesis_hash input
          ≡ ok j)
  unfolding evaluate validity_of
  evaluate_total client chain number hash genesis_hash input p agrees answers =
      let vals = answers.public_vals in
      let executed = ap (executor.execute client) (sym agrees.called) ∙ answers.executed in
      let decoded = ap executor.abi_decode_status answers.same_answer ∙ agrees.decoded in
      let hashed = ap (λ h. bytes_eq h hash) answers.block_hash ∙ bytes_eq_refl hash in
      let j : Journal = record {
        block_number = number;
        cert_verifier_address = input.verifier_address;
        input = to_rlp_bytes alloy input.altda_commitment;
        blockhash = vals.anchor_hash;
        output = is_success agrees.status;
        l1_chain_id = chain;
        chain_spec_hash = genesis_hash;
        chain_config_hash = vals.chain_config_hash;
      } in
      (j, rw (executed, decoded, answers.at_block, agrees.claimed, hashed))

  evaluate_all_total :
      (client : executor.Client) (chain number : ℕ) (hash genesis_hash : ByteList)
      (inputs : List CanoeInput) (calls : List (ContractInput × ByteList))
      → AllAgree abi prover inputs calls
      → All (Answers abi prover client hash) calls
      → (js : List Journal) × (traverse
            (evaluate alloy abi sp1 executor client chain number hash genesis_hash)
            inputs
          ≡ ok js)
  evaluate_all_total client chain number hash genesis_hash [] calls agree answers = ([], refl)
  evaluate_all_total client chain number hash genesis_hash (i ∷ inputs) [] agree answers =
      absurd agree
  evaluate_all_total client chain number hash genesis_hash (i ∷ inputs) (p ∷ calls) agree answers =
      let (j, e) = evaluate_total client chain number hash genesis_hash i p agree.0 answers.0 in
      let (js, e') =
        evaluate_all_total client chain number hash genesis_hash inputs calls agree.1 answers.1 in
      (j ∷ js, rw (e, e'))

  -- A run ends on inputs with common parameters, whose calls are answered as they claim.
  run_total :
      ((genesis : sp1.Genesis) → (bytes : ByteList) × (sp1.serialize_genesis genesis ≡ ok bytes))
      → ((js : List Journal) → (bytes : ByteList) × (sp1.serialize_journals js ≡ ok bytes))
      → (first : CanoeInput) (inputs : List CanoeInput) (bytes : ByteList)
        (calls : List (ContractInput × ByteList))
      → check_common first.l1_chain_id first.l1_head_block_number first.l1_head_block_hash inputs
        ≡ ok tt
      → AllAgree abi prover inputs calls
      → Reads abi prover first.l1_chain_id first.l1_head_block_number first.l1_head_block_hash calls
          bytes
      → (committed : ByteList) × (run alloy abi sp1 executor bytes first inputs ≡ ok committed)
  unfolding run
  run_total genesis_total journals_total first inputs bytes calls common agree reads =
      let number = first.l1_head_block_number in
      let chain = first.l1_chain_id in
      let client = reads.client in
      let numbered : (number == executor.header_number client) ≡ true =
        ap (λ (n : ℕ). number == n) reads.same_number ∙ ==-refl number in
      let chained : (chain == executor.chain_id client) ≡ true =
        ap (λ (n : ℕ). chain == n) reads.same_chain ∙ ==-refl chain in
      let (genesis_bytes, written) = genesis_total (executor.genesis reads.state) in
      let (js, evaluated) =
        evaluate_all_total client (executor.chain_id client) number first.l1_head_block_hash
          (alloy.keccak256 genesis_bytes) inputs calls agree reads.answers in
      let (committed, serialized) = journals_total js in
      (
        committed,
        rw (reads.read, common, written, reads.made, numbered, chained, evaluated, serialized),
      )

  -- Suppose that the guest reads the host's sketch as sp1-cc promises, and that bincode can write
  -- every genesis and every list of journals. When the host makes the guest's input for a list of
  -- claims, the guest runs to its end on it and commits: none of its checks fails.
  pub main-canoe_proof_stdin :
      IsFaithful abi prover
      → ((genesis : sp1.Genesis) → (bytes : ByteList) × (sp1.serialize_genesis genesis ≡ ok bytes))
      → ((js : List Journal) → (bytes : ByteList) × (sp1.serialize_journals js ≡ ok bytes))
      → (inputs : List CanoeInput) (stdin : ByteList × List CanoeInput)
      → canoe_proof_stdin abi prover inputs ≡ ok stdin
      → (committed : ByteList) × (main alloy abi sp1 executor stdin.0 stdin.1 ≡ ok committed)
  unfolding main canoe_proof_stdin make_stdin
  main-canoe_proof_stdin faithful genesis_total journals_total [] stdin h = absurd (ground arith)
  main-canoe_proof_stdin faithful genesis_total journals_total (first ∷ inputs) stdin h =
      let all = first ∷ inputs in
      let chain = first.l1_chain_id in
      let number = first.l1_head_block_number in
      let hash = first.l1_head_block_hash in
      let (u1, e1, h1) = >>=-eq-ok (expect (check_common chain number hash all)) _ h in
      let (genesis, e2, h2) =
        >>=-eq-ok (genesis_or_custom abi prover chain (sp1.genesis_try_from chain)) _ h1 in
      let (sketch, e3, h3) =
        >>=-eq-ok (map_err prover_failed (prover.build_sketch number genesis)) _ h2 in
      let (u4, e4, h4) = >>=-eq-ok (assert (bytes_eq hash (prover.header_hash sketch))) _ h3 in
      let (populated, e5, h5) = >>=-eq-ok (populate_all abi prover all sketch) _ h4 in
      let (final, e6, h6) = >>=-eq-ok (map_err prover_failed (prover.finalize populated)) _ h5 in
      let (bytes, e7, h7) = >>=-eq-ok (expect (prover.serialize_sketch final)) _ h6 in
      let (calls, agree, called) = populate_all_inversion abi prover all sketch populated e5 in
      let reads =
        faithful chain number genesis sketch populated calls final bytes e2
          (map_err-eq-ok prover_failed (prover.build_sketch number genesis) e3) called
          (map_err-eq-ok prover_failed (prover.finalize populated) e6)
          (expect-eq-ok (prover.serialize_sketch final) e7) in
      let same = bytes_eq-eq hash (prover.header_hash sketch) (assert-eq-ok _ e4) in
      subst (λ t. (committed : ByteList) × (main alloy abi sp1 executor t.0 t.1 ≡ ok committed))
        (ok-injective h7)
        (run_total genesis_total journals_total first all bytes calls
          (expect-eq-ok (check_common chain number hash all) e1) agree
          (subst (λ x. Reads abi prover chain number x calls bytes) (sym same) reads))
