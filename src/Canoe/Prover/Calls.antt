-- ===== src/Canoe/Prover/Calls.antt =====
-- The calls that the host of the sp1-cc proof makes (canoe/sp1-cc/host/src/lib.rs), and what it is
-- supposed that sp1-cc keeps of them for the guest.
use hokulea.Base.{
  ℕ, ◌≡◌, refl, ap, ◌∙◌, String, Bool, true, false, not, List, [], ◌∷◌, Outcome, ok, err, panic,
  >>=-eq-ok, ok-injective, expect, expect-eq-ok, map_err, All, if◌then◌else◌, Bool-cases, inl, inr,
  arith,
}
use hokulea.Canoe.{CanoeInput}
use hokulea.Canoe.Call.{Abi}
use hokulea.Canoe.ChainSpec.{Reth}
use hokulea.Canoe.Client.{
  ContractInput, PublicValues, Executor, is_success, bool_eq, contract_input,
}
use hokulea.Canoe.Journal.{Sp1}
use hokulea.Canoe.Prover.{Report, message}
use hokulea.Canoe.Prover.Sketch.{Prover, genesis_or_custom, populate, populate_all}
use hokulea.Canoe.Solidity.{StatusCode}
use hokulea.Cert.{ByteList}

bool_eq_swap : (a b : Bool) → bool_eq a b ≡ true → bool_eq b a ≡ true
unfolding bool_eq
bool_eq_swap true true h = refl
bool_eq_swap true false h = absurd (ground arith)
bool_eq_swap false true h = absurd (ground arith)
bool_eq_swap false false h = refl

pub map_err-eq-ok :
    {E F A : Type 0} (f : E → F) (m : Outcome E A) {a : A} → map_err f m ≡ ok a → m ≡ ok a
map_err-eq-ok f (ok b) h = ap ok (ok-injective h)
map_err-eq-ok f (err e) h = absurd (ground arith)
map_err-eq-ok f panic h = absurd (ground arith)

module _ (abi : Abi) {reth : Reth} {sp1 : Sp1 reth} {executor : Executor sp1}
    (prover : Prover executor) where
  open prover use {EvmSketch}

  -- the calls that have led from one sketch to another, with their answers
  abbrev pub Called : List (ContractInput × ByteList) → EvmSketch → EvmSketch → Type 0
  Called [] sketch sketch' = sketch ≡ sketch'
  Called ((call, answer) ∷ calls) sketch sketch' =
      (next : EvmSketch) × (prover.call_raw call sketch ≡ ok (answer, next))
      × Called calls next sketch'

  -- a client answers a call as the sketch has, at the block of the hash
  pub record Answers (client : executor.Client) (hash : ByteList) (p : ContractInput × ByteList)
      : Type 0 where
    pub public_vals : PublicValues executor.AnchorType
    pub executed : executor.execute client p.0 ≡ ok public_vals
    pub same_answer : public_vals.contract_output ≡ p.1
    pub at_block : executor.is_block_hash public_vals.anchor_type ≡ true
    pub block_hash : public_vals.anchor_hash ≡ hash

  -- bytes from which the guest makes a client for a chain and a block, which answers the calls
  pub record Reads (chain number : ℕ) (hash : ByteList) (calls : List (ContractInput × ByteList))
      (bytes : ByteList) : Type 0 where
    pub state : executor.Sketch
    pub client : executor.Client
    pub read : executor.deserialize_sketch bytes ≡ ok state
    pub made : executor.eth state ≡ ok client
    pub same_number : executor.header_number client ≡ number
    pub same_chain : executor.chain_id client ≡ chain
    pub answers : All (Answers client hash) calls

  -- sp1-cc: the bytes of a sketch that has been built for a chain and a block, and extended by calls,
  -- are read as a client for that chain and block, which answers these calls as the sketch has
  abbrev pub IsFaithful : Type 0
  IsFaithful =
      (chain number : ℕ) (genesis : sp1.Genesis) (sketch sketch' : EvmSketch)
      (calls : List (ContractInput × ByteList)) (state : executor.Sketch) (bytes : ByteList)
      → genesis_or_custom abi prover chain (sp1.genesis_try_from chain) ≡ ok genesis
      → prover.build_sketch number genesis ≡ ok sketch
      → Called calls sketch sketch'
      → prover.finalize sketch' ≡ ok state
      → prover.serialize_sketch state ≡ ok bytes
      → Reads chain number (prover.header_hash sketch) calls bytes

  -- the call of an input is answered with a status that agrees with the claim
  pub record Agrees (input : CanoeInput) (p : ContractInput × ByteList) : Type 0 where
    pub status : StatusCode
    pub called : p.0 ≡ contract_input abi input.verifier_address input.altda_commitment
    pub decoded : executor.abi_decode_status p.1 ≡ ok status
    pub claimed : bool_eq input.claimed_validity (is_success status) ≡ true

  abbrev pub AllAgree : List CanoeInput → List (ContractInput × ByteList) → Type 0
  AllAgree [] [] = Unit {0}
  AllAgree [] (p ∷ calls) = ⊥
  AllAgree (i ∷ inputs) [] = ⊥
  AllAgree (i ∷ inputs) (p ∷ calls) = Agrees i p × AllAgree inputs calls

  abbrev answered : ByteList × EvmSketch → Outcome String (ByteList × EvmSketch)
  answered out = ok out

  -- the end of `populate`
  abbrev settled : Bool → EvmSketch → Outcome Report EvmSketch
  settled b sketch = if not b then panic else ok sketch

  populate_inversion :
      (input : CanoeInput) (sketch next : EvmSketch)
      → populate abi prover input sketch ≡ ok next
      → (p : ContractInput × ByteList) × Agrees input p
        × (prover.call_raw p.0 sketch ≡ ok (p.1, next))
  unfolding populate
  populate_inversion input sketch next h =
      let call = contract_input abi input.verifier_address input.altda_commitment in
      let (out, e1, h1) = >>=-eq-ok (map_err message (prover.call_raw call sketch)) _ h in
      let (status, e2, h2) = >>=-eq-ok (expect (executor.abi_decode_status out.0)) _ h1 in
      let decoded = expect-eq-ok (executor.abi_decode_status out.0) e2 in
      elim (Bool-cases (bool_eq (is_success status) input.claimed_validity)) [
        | inl agree ↦ (
          (call, out.0),
          record {
            status = status;
            called = refl;
            decoded = decoded;
            claimed = bool_eq_swap (is_success status) input.claimed_validity agree;
          },
          map_err-eq-ok message (prover.call_raw call sketch) e1
              ∙ ap (λ (s : EvmSketch). answered (out.0, s)) (kept _ out.1 agree h2),
        )
        | inr differ ↦ absurd (refused _ out.1 differ h2)
      ]
    where
      kept : (b : Bool) (s : EvmSketch) → b ≡ true → settled b s ≡ ok next → s ≡ next
      kept true s e h = ok-injective h
      kept false s e h = absurd (ground arith)

      refused : (b : Bool) (s : EvmSketch) → b ≡ false → settled b s ≡ ok next → ⊥
      refused true s e h = absurd (ground arith)
      refused false s e h = ground arith

  pub populate_all_inversion :
      (inputs : List CanoeInput) (sketch sketch' : EvmSketch)
      → populate_all abi prover inputs sketch ≡ ok sketch'
      → (calls : List (ContractInput × ByteList)) × AllAgree inputs calls
        × Called calls sketch sketch'
  unfolding populate_all
  populate_all_inversion [] sketch sketch' h = ([], tt, ok-injective h)
  populate_all_inversion (i ∷ inputs) sketch sketch' h =
      let (next, e, h1) = >>=-eq-ok (populate abi prover i sketch) _ h in
      let (p, agrees, called) = populate_inversion i sketch next e in
      let (calls, all_agree, all_called) = populate_all_inversion inputs next sketch' h1 in
      (p ∷ calls, (agrees, all_agree), (next, called, all_called))
