-- ===== src/DataSource/Held.antt =====
-- The commitment that `EigenDADataSource` (crates/eigenda/src/eigenda.rs) holds between calls of `next`.
use mathlib.Core.Path.{subst}
use hokulea.Base.{
  ℕ, zero, suc, ◌≡◌, refl, ◌∙◌, Bool-cases, inl, inr, Option, none, some, [], ◌∷◌, Outcome, ok, err,
  panic, ◌==◌,
}
use hokulea.Cert.{ByteList}
use hokulea.Cert.Codec.{Alloy}
use hokulea.Cert.Commitment.{AltDaCommitment}
use hokulea.Errors.{HokuleaErrorKind, discard}
use hokulea.Errors
use hokulea.Payload.{EncodedPayload, Checked, decode}
use hokulea.Provider.{EigenDaPreimageProvider}
use hokulea.Source
use hokulea.Source.{parse}
use hokulea.DataSource.{
  DataSource, Round, done, again, on_payload, resolve, on_parsed, on_ethereum_error, on_local,
  round, next, altda_derivation_version,
}
use hokulea.DataSource.Rounds.{Round-cases, same_done}
use hokulea.DataSource.Ethereum.{PipelineErrorKind, temporary, eof, Block, EthereumSource}

module _ {T S E : Type 0} (alloy : Alloy) (ethereum : EthereumSource T)
    (fetcher : EigenDaPreimageProvider S E) (block : Block) where
  -- data is returned with no commitment held
  abbrev FreeAfterData : Round T S → Type 0
  FreeAfterData (done (ok item) ds) = ds.altda_commitment ≡ none
  FreeAfterData _ = Unit {0}

  on_payload-FreeAfterData :
      (p : Outcome HokuleaErrorKind EncodedPayload) (ds : DataSource T S)
      → FreeAfterData (on_payload alloy ethereum fetcher block p ds)
  unfolding on_payload
  on_payload-FreeAfterData (err (Errors.temporary e)) ds = tt
  on_payload-FreeAfterData (err (discard e)) ds = tt
  on_payload-FreeAfterData (err (Errors.critical e)) ds = tt
  on_payload-FreeAfterData panic ds = tt
  on_payload-FreeAfterData (ok encoded_payload) ds =
      elim (decode encoded_payload)
        as (λ r. FreeAfterData (elim r [
          | ok c ↦ done (ok c) (record ds { altda_commitment = none })
          | err e ↦ again (record ds { altda_commitment = none })
          | panic ↦ done panic ds
        ])) [ ok c ↦ refl | err e ↦ tt | panic ↦ tt ]

  resolve-FreeAfterData :
      (c : AltDaCommitment) (ds : DataSource T S)
      → FreeAfterData (resolve alloy ethereum fetcher block c ds)
  unfolding resolve
  resolve-FreeAfterData c ds =
      let (payload, s) = Source.next fetcher c block.number ds.eigenda_source in
      on_payload-FreeAfterData payload (record ds { eigenda_source = s })

  on_parsed-FreeAfterData :
      (p : Checked AltDaCommitment) (ds : DataSource T S)
      → FreeAfterData (on_parsed alloy ethereum fetcher block p ds)
  unfolding on_parsed
  on_parsed-FreeAfterData (ok c) ds =
      resolve-FreeAfterData c (record ds { altda_commitment = some c })
  on_parsed-FreeAfterData (err e) ds = tt
  on_parsed-FreeAfterData panic ds = tt

  on_ethereum_error-FreeAfterData :
      (e : PipelineErrorKind) (ds : DataSource T S)
      → FreeAfterData (on_ethereum_error alloy ethereum fetcher block e ds)
  unfolding on_ethereum_error
  on_ethereum_error-FreeAfterData (temporary eof) ds = tt
  on_ethereum_error-FreeAfterData _ ds = tt

  on_local-FreeAfterData :
      (local_data : Outcome PipelineErrorKind ByteList) (t : T) (s : S)
      → FreeAfterData (
          on_local alloy ethereum fetcher block local_data
            (record { ethereum_source = t; eigenda_source = s; altda_commitment = none }))
  unfolding on_local
  on_local-FreeAfterData (ok []) t s = tt
  on_local-FreeAfterData (ok (first ∷ rest)) t s =
      elim (Bool-cases (first == altda_derivation_version)) [
        | inl altda ↦ rw altda (on_parsed-FreeAfterData (parse alloy (first ∷ rest)) _)
        | inr plain ↦ rw plain refl
      ]
  on_local-FreeAfterData (err e) t s = on_ethereum_error-FreeAfterData e _
  on_local-FreeAfterData panic t s = tt

  round-FreeAfterData :
      (t : T) (s : S) (held : Option AltDaCommitment)
      → FreeAfterData (
          round alloy ethereum fetcher block
            (record { ethereum_source = t; eigenda_source = s; altda_commitment = held }))
  unfolding round
  round-FreeAfterData t s (some c) = resolve-FreeAfterData c _
  round-FreeAfterData t s none =
      let (local_data, t') = ethereum.next block t in on_local-FreeAfterData local_data t' s

  -- When `next` returns data it holds no commitment any more, whatever it held before.
  pub next_frees :
      (fuel : ℕ) (ds ds' : DataSource T S) (item : ByteList)
      → next alloy ethereum fetcher block fuel ds ≡ some (ok item, ds')
      → ds'.altda_commitment ≡ none
  unfolding next
  next_frees zero ds ds' item h = cc
  next_frees (suc fuel) ds ds' item h = elim (Round-cases (round alloy ethereum fetcher block ds)) [
    | inl (result, ds'', e) ↦
        let ended : done result ds'' ≡ done (ok item) ds' = same_done (rw (e, next) at h) in
        subst FreeAfterData (e ∙ ended)
          (round-FreeAfterData ds.ethereum_source ds.eigenda_source ds.altda_commitment)
    | inr (ds'', e) ↦ next_frees fuel ds'' ds' item (rw (e, next) at h)
  ]
