-- ===== src/DataSource.antt =====
-- crates/eigenda/src/eigenda.rs: `EigenDADataSource`, which draws data from Ethereum and replaces
-- each DA commitment by its payload. `next` calls itself when it discards a commitment; the model
-- takes fuel, and `none` means that the fuel ran out.
pub mod Ethereum
pub mod Rounds
pub mod Held
pub mod Derivation
pub mod Refines
pub mod Reopened
pub mod Late
pub mod Retries
use hokulea.Base.{
  ℕ, zero, suc, Bool, true, false, not, Option, none, some, List, [], ◌∷◌, Outcome, ok, err, panic,
  ◌==◌, if◌then◌else◌, or_panic, get_elem?,
}
use hokulea.Cert.{ByteList}
use hokulea.Cert.Codec.{Alloy}
use hokulea.Cert.Commitment.{AltDaCommitment}
use hokulea.Errors.{HokuleaErrorKind, discard, HokuleaStatelessError}
use hokulea.Errors
use hokulea.Payload.{EncodedPayload, Checked, decode}
use hokulea.Provider.{EigenDaPreimageProvider}
use hokulea.Source
use hokulea.Source.{parse}
use hokulea.DataSource.Ethereum.{
  PipelineError, eof, not_enough_data, provider, PipelineErrorKind, temporary, critical, Block,
  EthereumSource,
}

abbrev pub altda_derivation_version : ℕ
altda_derivation_version = 1

-- `EigenDADataSource`, with the states of its two sources
pub record DataSource (T S : Type 0) : Type 0 where
  pub ethereum_source : T
  pub eigenda_source : S
  pub altda_commitment : Option AltDaCommitment

-- what a round of `next` comes to: a result, or another round
pub data Round (T S : Type 0) : Type 0 where
  done : Outcome PipelineErrorKind ByteList → DataSource T S → Round T S
  again : DataSource T S → Round T S

-- `EigenDADataSource::new`
unfoldable pub new : {T S : Type 0} → T → S → DataSource T S
new ethereum_source eigenda_source = record {
  ethereum_source = ethereum_source;
  eigenda_source = eigenda_source;
  altda_commitment = none;
}

module _ {T S E : Type 0} (alloy : Alloy) (ethereum : EthereumSource T)
    (fetcher : EigenDaPreimageProvider S E) (block : Block) where
  -- `clear`
  unfoldable pub clear : DataSource T S → DataSource T S
  clear ds = record ds {
    ethereum_source = ethereum.clear ds.ethereum_source;
    altda_commitment = none;
  }

  -- the `match` on the error of the Ethereum source
  unfoldable pub on_ethereum_error : PipelineErrorKind → DataSource T S → Round T S
  unfolding clear
  on_ethereum_error (temporary eof) ds = done (err (temporary eof)) (clear ds)
  on_ethereum_error e ds = done (err e) ds

  -- the `match` on the result of the eigenda source; a discard sets the commitment to `None`
  unfoldable pub on_payload : Outcome HokuleaErrorKind EncodedPayload → DataSource T S → Round T S
  on_payload (err (Errors.temporary e)) ds = done (err (temporary (provider e))) ds
  on_payload (err (discard e)) ds = again (record ds { altda_commitment = none })
  on_payload (err (Errors.critical e)) ds = done (err (critical (provider e))) ds
  on_payload panic ds = done panic ds
  on_payload (ok encoded_payload) ds = elim (decode encoded_payload) [
    | ok c ↦ done (ok c) (record ds { altda_commitment = none })
    | err e ↦ again (record ds { altda_commitment = none })
    | panic ↦ done panic ds
  ]

  -- the second half of `next`, at the commitment that is held
  unfoldable pub resolve : AltDaCommitment → DataSource T S → Round T S
  unfolding on_payload
  resolve altda_commitment ds =
      let (payload, s) = Source.next fetcher altda_commitment block.number ds.eigenda_source in
      on_payload payload (record ds { eigenda_source = s })

  -- the `match` on the result of `parse`; a parsed commitment is held before it is resolved
  unfoldable pub on_parsed : Checked AltDaCommitment → DataSource T S → Round T S
  unfolding resolve
  on_parsed (ok c) ds = resolve c (record ds { altda_commitment = some c })
  on_parsed (err e) ds = done (err (temporary not_enough_data)) ds
  on_parsed panic ds = done panic ds

  -- the data that the Ethereum source has yielded
  unfoldable pub on_local_data : ByteList → DataSource T S → Round T S
  unfolding on_parsed
  on_local_data [] ds = done (err (temporary not_enough_data)) ds
  on_local_data (first ∷ rest) ds =
      if not (first == altda_derivation_version)
      then done (ok (first ∷ rest)) ds
      else on_parsed (parse alloy (first ∷ rest)) ds

  unfoldable pub on_local : Outcome PipelineErrorKind ByteList → DataSource T S → Round T S
  unfolding on_local_data on_ethereum_error
  on_local (ok local_data) ds = on_local_data local_data ds
  on_local (err e) ds = on_ethereum_error e ds
  on_local panic ds = done panic ds

  -- the body of `next`, up to its call of itself
  unfoldable pub round : DataSource T S → Round T S
  unfolding on_local resolve
  round ds = elim ds.altda_commitment [
    | some c ↦ resolve c ds
    | none ↦
        let (local_data, t) = ethereum.next block ds.ethereum_source in
        on_local local_data (record ds { ethereum_source = t })
  ]

  -- `next`
  unfoldable pub next :
      ℕ → DataSource T S → Option (Outcome PipelineErrorKind ByteList × DataSource T S)
  next zero ds = none
  next (suc fuel) ds = elim (round ds) [
    | done result ds' ↦ some (result, ds')
    | again ds' ↦ next fuel ds'
  ]
