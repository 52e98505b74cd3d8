-- ===== src/Lib.antt =====
-- Hokulea: EigenDA blob derivation for the OP stack, and its proof in a zkVM.
--
-- A rollup's batcher posts to Ethereum either its data or an AltDA commitment, which holds an EigenDA
-- certificate. Blob derivation draws the data of an L1 block, replaces each commitment by the payload
-- that it stands for, and skips commitments that are malformed, invalid, stale, or whose payload does
-- not decode. It asks a preimage provider for the validity of a certificate and for its encoded
-- payload. There are several providers: the client's, which asks the host through kona's oracle; the
-- host's own, which asks an EigenDA proxy; one that records the answers of another; and one that is
-- loaded with such a record, the witness, after checking its proofs, and answers inside the zkVM.
--
-- The files, by the part of the program:
--   Base: shared names and lemmas. Base/Fallible: `Outcome`, the result of a Rust function: `ok`,
--     `err`, or `panic` (a failed assertion, an index or a slice out of range, an `expect`). Base/Text:
--     display texts. Base/Bytes: big-endian words. Base/Powers: bit tests on powers of two.
--   Cert (crates/eigenda-cert/src): the structs of a certificate. Cert/Codec: the RLP codec and
--     keccak256, which are parameters. Cert/Commitment: `AltDACommitment`; `try_from`, `to_rlp_bytes`
--     and the accessors keep their names.
--   Errors (crates/eigenda/src/errors.rs): the errors of blob derivation and their conversions.
--   Payload (crates/eigenda/src/eigenda_data.rs): `EncodedPayload` and `decode`. Payload/Layout: the
--     encoding of a payload, described on its own.
--   Provider (crates/eigenda/src/traits.rs): the interface of a preimage provider, a record of methods
--     on a state, which other modules take as a parameter.
--   Source (crates/eigenda/src/eigenda_preimage.rs): `EigenDAPreimageSource`; Source/Recency: its
--     recency rule.
--   DataSource (crates/eigenda/src/eigenda.rs): `EigenDADataSource`. `round` is the body of `next` up to
--     its call of itself, `next` repeats it. DataSource/Ethereum: kona's Ethereum source, a parameter.
--     DataSource/Derivation: blob derivation described on its own, item by item. DataSource/Retries: a
--     caller that tries again after temporary errors. DataSource/Reopened: the end of a block.
--   Witness (crates/proof/src/eigenda_witness.rs): the preimages and the witness.
--   Recorder (crates/witgen/src/witness_provider.rs): the provider that records.
--   Preloaded (crates/proof/src/preloaded_eigenda_provider.rs): `from_witness` and the provider that it
--     returns. Preloaded/Kzg: `batch_verify` with the ark backend.
--   Sp1Bn (crates/sp1-bn-verifier/src): `batch_verify` with the sp1-bn backend. Sp1Bn/Consts (consts.rs);
--     Sp1Bn/Bytes, Powers, Points, Polynomial and Challenge (helpers.rs): encodings, roots of unity,
--     the checks on points, polynomials, and the two transcripts; Sp1Bn/Batch (batch.rs) and, for its
--     transcript, Sp1Bn/Challenge. Sp1Bn/Laws: what is supposed of the curve library.
--   Replay: runs of the data source with the recorder, and with the preloaded provider.
--   Canoe (canoe/verifier/src, canoe/provider/src/canoe_provider.rs): claims of validity and their
--     verifiers. Canoe/Addresses (canoe/verifier-address-fetcher, crates/registry): the contract that a
--     claim is about. Canoe/ChainSpec (canoe/verifier/src/chain_spec.rs): the active fork.
--     Canoe/Journal (canoe/sp1-cc/verifier/src/lib.rs): the sp1-cc verifier. Canoe/Inputs
--     (crates/witgen/src/canoe_witness_provider.rs): the inputs of the canoe proof. Canoe/Solidity
--     (canoe/bindings/src/lib.rs, and `to_sol` of crates/eigenda-cert/src) and Canoe/Call
--     (canoe/provider/src/verifier_caller.rs): the call of the verifier contract. Canoe/Client
--     (canoe/sp1-cc/client/src/main.rs): the guest program that makes the calls in the zkVM.
--     Canoe/Prover (crates/witgen/src/canoe_witness_provider.rs, canoe/provider/src/canoe_provider.rs)
--     and Canoe/Prover/Sketch (canoe/sp1-cc/host/src/lib.rs): how a canoe proof is asked for, and the
--     host that makes the guest's input.
--   Zkvm (crates/zkvm-verification/src/lib.rs): how the proof program makes its provider. Zkvm/Sound
--     joins it with the sp1-cc verifier and the guest program.
--   Oracle (crates/proof/src/eigenda_provider.rs, hint.rs, errors.rs): the client's provider. Oracle/Hints:
--     the parser of a hint's name.
--   Host (bin/host/src/handler.rs): the handler of hints. Host/Status
--     (bin/host/src/status_code.rs), Host/Proxy and Host/Cache (bin/host/src/eigenda_preimage.rs): the
--     proxy's answers, and the provider that asks the proxy itself.
--   Tests: the theorems at concrete inputs, with a toy codec that has the laws of the RLP codec.
--
-- An object that the source mutates is a state passed along: a method takes the state and returns its
-- outcome with the state after it. Machine integers are natural numbers; the addition of `u64` in the
-- recency check is written with its wrap-around. Futures are run to their end at once.
--
-- Fuel: `DataSource.next` takes fuel for the calls that it makes of itself when it discards a
-- commitment. Each such call has consumed an item of the block or the held commitment, so more fuel
-- than these are is enough. The loop of `expand_root_of_unity` has the source's own bound of `2 ^ 28`
-- rounds. The loops that print a number, find the next power of two or count trailing zeros have as
-- many rounds as the number is large, which is more than their digits are. The sizes of buffers are
-- not bounded by `usize`.
--
-- Parameters, for code that is not in the repository: the RLP codec and keccak256, kona's Ethereum
-- source, L1 provider, oracle and key-value store, the HTTP client, the KZG library, reth's chain specifications,
-- substrate-bn's field and curve, the libraries of SP1 and sp1-cc, the ABI encoding, and the canoe
-- verifier and address fetcher where the choice is open.
--
-- Not modelled: logging; serialisation that is derived; the computation of KZG proofs
-- (crates/compute-proof), the steel backend (canoe/steel), the set-up of SP1's network prover
-- (`generate_canoe_proof` of canoe/sp1-cc/host, a parameter); programs, examples, contracts and build
-- scripts, which are I/O and wiring.
pub mod Base
pub mod Cert
pub mod Errors
pub mod Payload
pub mod Provider
pub mod Source
pub mod DataSource
pub mod Witness
pub mod Recorder
pub mod Canoe
pub mod Preloaded
pub mod Replay
pub mod Oracle
pub mod Host
pub mod Sp1Bn
pub mod Zkvm
pub mod Tests
