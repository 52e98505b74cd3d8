-- ===== src/Tests/Provers.antt =====
-- The theorem on the host and the guest of the canoe proof, at the two claims of one certificate that
-- the contract holds for valid.
use hokulea.Base.{
  ℕ, ◌≡◌, refl, sym, ap, ◌∙◌, true, some, List, [], ◌∷◌, ok, err, ok-injective, ◌==◌, ◌&&◌,
  if◌then◌else◌, All, arith,
}
use hokulea.Base.Bytes.{bytes_eq}
use hokulea.Canoe.Client.{ContractInput, main, bool_eq, is_success, check_common}
use hokulea.Canoe.Prover.Sketch.{Prover, canoe_proof_stdin, genesis_or_custom}
use hokulea.Canoe.Prover.Calls.{Called, Answers, IsFaithful}
use hokulea.Canoe.Prover.Complete.{main-canoe_proof_stdin}
use hokulea.Cert.{ByteList}
use hokulea.Tests.Alloy.{toy}
use hokulea.Tests.Guests.{abi, executor, proving}
use hokulea.Tests.Journals.{journals}
use hokulea.Tests.Proofs.{input}

-- sketches of block 9 of chain 1 only; a call changes nothing
abbrev prover : Prover executor
prover = record {
  holesky_genesis = ok 2;
  kurtosis_devnet_genesis = ok 2;
  EvmSketch = ℕ;
  build_sketch =
      λ number genesis. if (number == 9) && (genesis == 1) then ok number else err "unknown block";
  header_hash = λ sketch. 3 ∷ [];
  call_raw = λ call sketch. ok (call.contract_address, sketch);
  finalize = λ sketch. ok sketch;
  serialize_sketch = λ sketch. ok (sketch ∷ []);
  Proof = ByteList;
  Compressed = ByteList;
  compressed = λ proof. some proof;
  generate_canoe_proof = λ stdin. ok stdin.0;
}

answered :
    (calls : List (ContractInput × ByteList)) (sketch sketch' : ℕ)
    → Called abi prover calls sketch sketch'
    → All (Answers abi prover 1 (3 ∷ [])) calls
answered [] sketch sketch' h = tt
answered ((call, answer) ∷ calls) sketch sketch' (next, called, h) = (
  record {
    public_vals = record {
      contract_output = call.contract_address;
      anchor_hash = 3 ∷ [];
      anchor_type = true;
      chain_config_hash = toy.keccak256 (1 ∷ []);
    };
    executed = refl;
    same_answer = ap (λ t. t.0) (ok-injective called);
    at_block = refl;
    block_hash = refl;
  },
  answered calls next sketch' h,
)

block_of :
    (number genesis sketch : ℕ)
    → (prover.build_sketch number genesis) ≡ ok sketch
    → (number ≡ 9) × (genesis ≡ 1)
block_of number genesis sketch h = ground arith

prover-IsFaithful : IsFaithful abi prover
unfolding genesis_or_custom
prover-IsFaithful chain number genesis sketch sketch' calls state bytes known built called final
      written =
    let (ninth, first) = block_of number genesis sketch built in
    record {
      state = 1;
      client = 1;
      read = refl;
      made = refl;
      same_number = sym ninth;
      same_chain = sym (ok-injective known ∙ first);
      answers = answered calls sketch sketch' called;
    }

stdin_of_input : canoe_proof_stdin abi prover (input ∷ input ∷ []) ≡ ok (9 ∷ [], input ∷ input ∷ [])
unfolding canoe_proof_stdin check_common bytes_eq bool_eq is_success
stdin_of_input = refl

main-canoe_proof_stdin_example :
    (committed : ByteList) × (main toy abi proving executor (9 ∷ []) (input ∷ input ∷ [])
      ≡ ok committed)
main-canoe_proof_stdin_example =
    main-canoe_proof_stdin toy abi prover prover-IsFaithful (λ genesis. (genesis ∷ [], refl))
      (λ js. (journals.put js, refl)) (input ∷ input ∷ []) (9 ∷ [], input ∷ input ∷ [])
      stdin_of_input
