-- ===== src/Replay.antt =====
-- A run with a recorder (crates/witgen/src/witness_provider.rs) and the run that a preloaded provider
-- (crates/proof/src/preloaded_eigenda_provider.rs) makes from the record: what it means that the
-- second repeats the first, and calls of `EigenDADataSource::next` one after another.
pub mod Queries
pub mod Rounds
pub mod Runs
use hokulea.Base.{
  ℕ, zero, suc, ◌≡◌, Bool, Option, none, some, List, [], ◌∷◌, ◌++◌, Outcome, ok, err, panic,
}
use hokulea.Cert.{ByteList}
use hokulea.Cert.Codec.{Alloy}
use hokulea.Cert.Commitment.{AltDaCommitment}
use hokulea.DataSource
use hokulea.DataSource.{DataSource, Round, done, again}
use hokulea.DataSource.Ethereum.{PipelineErrorKind, Block, EthereumSource}
use hokulea.Errors.{HokuleaErrorKind}
use hokulea.Payload.{EncodedPayload}
use hokulea.Preloaded.{Preloaded}
use hokulea.Preloaded.Queue.{loaded}
use hokulea.Provider.{EigenDaPreimageProvider}
use hokulea.Recorder.{Recorder}
use hokulea.Witness.{EigenDaPreimage}

-- The provider answers every query; each answer may depend on its state.
pub record NeverFails {S E : Type 0} (fetcher : EigenDaPreimageProvider S E) : Type 0 where
  pub some_validity :
      (c : AltDaCommitment) (s : S)
      → (v : Bool) × (s' : S) × (fetcher.get_validity c s ≡ (ok v, s'))
  pub some_payload :
      (c : AltDaCommitment) (s : S)
      → (p : EncodedPayload) × (s' : S) × (fetcher.get_encoded_payload c s ≡ (ok p, s'))

abbrev pub Validities : Type 0
Validities = List (AltDaCommitment × Bool)

abbrev pub Payloads : Type 0
Payloads = List (AltDaCommitment × EncodedPayload)

-- the record with more entries at its end
abbrev pub extend : EigenDaPreimage → Validities → Payloads → EigenDaPreimage
extend preimage vs ps = record {
  validities = preimage.validities ++ vs;
  encoded_payloads = preimage.encoded_payloads ++ ps;
}

-- a data source with another provider
abbrev pub put : {T S R : Type 0} → R → DataSource T S → DataSource T R
put s ds = record {
  ethereum_source = ds.ethereum_source;
  eigenda_source = s;
  altda_commitment = ds.altda_commitment;
}

abbrev pub put_round : {T S R : Type 0} → R → Round T S → Round T R
put_round s (done result ds) = done result (put s ds)
put_round s (again ds) = again (put s ds)

abbrev pub source_after : {T S : Type 0} → Round T S → S
source_after (done result ds) = ds.eigenda_source
source_after (again ds) = ds.eigenda_source

abbrev pub prepend : {A : Type 0} {D : Type 0} → A → Option (List A × D) → Option (List A × D)
prepend a none = none
prepend a (some (results, ds)) = some (a ∷ results, ds)

module _ {T S E : Type 0} (alloy : Alloy) (ethereum : EthereumSource T)
    (fetcher : EigenDaPreimageProvider S E) (fuel : ℕ) where
  -- One call of `next` for each block of the list: what they return, and the data source at the end;
  -- `none` if the fuel ran out in one.
  unfoldable pub run :
      List Block
      → DataSource T S
      → Option (List (Outcome PipelineErrorKind ByteList) × DataSource T S)
  run [] ds = some ([], ds)
  run (block ∷ blocks) ds = elim (DataSource.next alloy ethereum fetcher block fuel ds) [
    | none ↦ none
    | some (result, ds') ↦ let rest = run blocks ds' in prepend result rest
  ]
