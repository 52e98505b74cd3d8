-- ===== src/Canoe/Client.antt =====
-- canoe/sp1-cc/client/src/main.rs: the program that runs in the zkVM. It evaluates the certificates by
-- calls of the verifier contract on the state of one L1 block, and commits to a journal of each.
pub mod Run
pub mod Sound
use hokulea.Base.{
  ℕ, String, Bool, true, false, not, List, [], ◌∷◌, Outcome, ok, err, panic, ◌>>=◌, ◌>>◌, expect,
  assert, traverse, ◌==◌, replicate,
}
use hokulea.Base.Bytes.{bytes_eq}
use hokulea.Canoe.{CanoeInput}
use hokulea.Canoe.Call.{Abi, CertVerifierCall, abi_encode_interface, CheckDaCertCall, build}
use hokulea.Canoe.ChainSpec.{Reth}
use hokulea.Canoe.Journal.{Journal, Sp1}
use hokulea.Canoe.Solidity.{StatusCode, success}
use hokulea.Cert.{ByteList}
use hokulea.Cert.Codec.{Alloy}
use hokulea.Cert.Commitment.{AltDaCommitment, to_rlp_bytes}
use hokulea.Witness.{is_empty}

pub record ContractInput : Type 0 where
  pub contract_address : ByteList
  pub caller_address : ByteList
  pub calldata : CheckDaCertCall

pub record PublicValues (AnchorType : Type 0) : Type 0 where
  pub contract_output : ByteList
  pub anchor_hash : ByteList
  pub anchor_type : AnchorType
  pub chain_config_hash : ByteList

-- What the program takes from sp1-cc and alloy: the sketch of the state, read from bytes, with its
-- genesis; the executor, which checks the sketch when it is made; the execution of a call; and the ABI
-- decoder of a status code.
pub record Executor {reth : Reth} (sp1 : Sp1 reth) : Type 1 where
  pub Sketch : Type 0
  pub deserialize_sketch : ByteList → Outcome String Sketch
  pub genesis : Sketch → sp1.Genesis
  pub Client : Type 0
  pub eth : Sketch → Outcome String Client
  pub header_number : Client → ℕ
  pub chain_id : Client → ℕ
  pub AnchorType : Type 0
  pub is_block_hash : AnchorType → Bool
  pub execute : Client → ContractInput → Outcome String (PublicValues AnchorType)
  pub abi_decode_status : ByteList → Outcome String StatusCode

-- `returns == StatusCode::SUCCESS`
unfoldable pub is_success : StatusCode → Bool
is_success success = true
is_success other = false

-- the validity that an answer stands for: a status that cannot be decoded is no success
unfoldable pub validity_of : {E : Type 0} → Outcome String StatusCode → Outcome E Bool
unfolding is_success
validity_of (ok returns) = ok (is_success returns)
validity_of (err e) = ok false
validity_of panic = panic

unfoldable pub bool_eq : Bool → Bool → Bool
bool_eq true b = b
bool_eq false b = not b

-- the call of the verifier at an address, from the default address
unfoldable pub contract_input : Abi → ByteList → AltDaCommitment → ContractInput
contract_input abi verifier_address altda_commitment = elim (build abi altda_commitment) [
  | abi_encode_interface call ↦ record {
    contract_address = verifier_address;
    caller_address = replicate 20 0;
    calldata = call;
  }
]

-- the `for` loop that requires common L1 parameters
unfoldable pub check_common : ℕ → ℕ → ByteList → List CanoeInput → Outcome String (Unit {0})
check_common l1_chain_id l1_head_block_number l1_head_block_hash [] = ok tt
check_common l1_chain_id l1_head_block_number l1_head_block_hash (canoe_input ∷ canoe_inputs) = do
  assert (canoe_input.l1_chain_id == l1_chain_id)
  assert (canoe_input.l1_head_block_number == l1_head_block_number)
  assert (bytes_eq canoe_input.l1_head_block_hash l1_head_block_hash)
  check_common l1_chain_id l1_head_block_number l1_head_block_hash canoe_inputs

module _ (alloy : Alloy) (abi : Abi) {reth : Reth} (sp1 : Sp1 reth) (executor : Executor sp1) where
  -- the body of the loop that executes the calls
  unfoldable pub evaluate :
      executor.Client → ℕ → ℕ → ByteList → ByteList → CanoeInput → Outcome String Journal
  unfolding validity_of contract_input
  evaluate client l1_chain_id l1_head_block_number l1_head_block_hash rsp_genesis_hash canoe_input =
      do
        public_vals ← expect (
            executor.execute client
              (contract_input abi canoe_input.verifier_address canoe_input.altda_commitment))
        returns ← validity_of (executor.abi_decode_status public_vals.contract_output)
        assert (executor.is_block_hash public_vals.anchor_type)
        assert (bool_eq canoe_input.claimed_validity returns)
        assert (bytes_eq public_vals.anchor_hash l1_head_block_hash)
        ok (record {
          block_number = l1_head_block_number;
          cert_verifier_address = canoe_input.verifier_address;
          input = to_rlp_bytes alloy canoe_input.altda_commitment;
          blockhash = public_vals.anchor_hash;
          output = returns;
          l1_chain_id = l1_chain_id;
          chain_spec_hash = rsp_genesis_hash;
          chain_config_hash = public_vals.chain_config_hash;
        })

  -- `main`, with the first of the inputs; the bytes that it commits
  unfoldable pub run : ByteList → CanoeInput → List CanoeInput → Outcome String ByteList
  unfolding check_common evaluate
  run state_sketch_bytes first canoe_inputs = do
    state_sketch ← expect (executor.deserialize_sketch state_sketch_bytes)
    check_common first.l1_chain_id first.l1_head_block_number first.l1_head_block_hash canoe_inputs
    rsp_genesis_bytes ← expect (sp1.serialize_genesis (executor.genesis state_sketch))
    let rsp_genesis_hash = alloy.keccak256 rsp_genesis_bytes
    client ← expect (executor.eth state_sketch)
    assert (first.l1_head_block_number == executor.header_number client)
    let l1_chain_id = executor.chain_id client
    assert (first.l1_chain_id == l1_chain_id)
    journals ←
        traverse
          (evaluate client l1_chain_id first.l1_head_block_number first.l1_head_block_hash
            rsp_genesis_hash)
          canoe_inputs
    expect (sp1.serialize_journals journals)

  unfoldable pub main : ByteList → List CanoeInput → Outcome String ByteList
  unfolding run
  main state_sketch_bytes [] = panic
  main state_sketch_bytes (canoe_input ∷ canoe_inputs) =
      run state_sketch_bytes canoe_input (canoe_input ∷ canoe_inputs)
