-- ===== src/DataSource/Reopened.antt =====
-- `EigenDADataSource` (crates/eigenda/src/eigenda.rs) at the end of a block: it is cleared, and derives
-- the block once more.
use mathlib.Core.Path.{subst}
use hokulea.Base.{
  ℕ, zero, suc, ◌<◌, ◌≡◌, refl, ◌∙◌, Bool-cases, inl, inr, Option, none, some, [], ◌∷◌, Outcome, ok,
  err, panic, ◌==◌, length,
}
use hokulea.Cert.{ByteList}
use hokulea.Cert.Codec.{Alloy}
use hokulea.Cert.Commitment.{AltDaCommitment}
use hokulea.Errors.{HokuleaErrorKind, discard}
use hokulea.Errors
use hokulea.Payload.{EncodedPayload, Checked, decode}
use hokulea.Provider.{EigenDaPreimageProvider}
use hokulea.Source
use hokulea.Source.{parse}
use hokulea.DataSource.{
  DataSource, Round, done, again, clear, on_payload, resolve, on_parsed, on_ethereum_error,
  on_local, round, next, altda_derivation_version,
}
use hokulea.DataSource.Derivation.{Answers, derivation, drain}
use hokulea.DataSource.Ethereum.{
  PipelineErrorKind, temporary, eof, Block, EthereumSource, IsQueue, Reopens,
}
use hokulea.DataSource.Refines.{collect_all}
use hokulea.DataSource.Rounds.{Round-cases, same_done}

module _ {T S E : Type 0} (alloy : Alloy) (ethereum : EthereumSource T)
    (fetcher : EigenDaPreimageProvider S E) (block : Block) where
  -- a round that ends the block leaves a data source that has been cleared
  abbrev ClearedAtEof : Round T S → Type 0
  ClearedAtEof (done (err (temporary eof)) ds) =
      (before : DataSource T S) × (ds ≡ clear alloy ethereum fetcher block before)
  ClearedAtEof _ = Unit {0}

  on_payload-ClearedAtEof :
      (p : Outcome HokuleaErrorKind EncodedPayload) (ds : DataSource T S)
      → ClearedAtEof (on_payload alloy ethereum fetcher block p ds)
  unfolding on_payload
  on_payload-ClearedAtEof (err (Errors.temporary e)) ds = tt
  on_payload-ClearedAtEof (err (discard e)) ds = tt
  on_payload-ClearedAtEof (err (Errors.critical e)) ds = tt
  on_payload-ClearedAtEof panic ds = tt
  on_payload-ClearedAtEof (ok encoded_payload) ds =
      elim (decode encoded_payload)
        as (λ r. ClearedAtEof (elim r [
          | ok c ↦ done (ok c) (record ds { altda_commitment = none })
          | err e ↦ again (record ds { altda_commitment = none })
          | panic ↦ done panic ds
        ])) [ ok c ↦ tt | err e ↦ tt | panic ↦ tt ]

  resolve-ClearedAtEof :
      (c : AltDaCommitment) (ds : DataSource T S)
      → ClearedAtEof (resolve alloy ethereum fetcher block c ds)
  unfolding resolve
  resolve-ClearedAtEof c ds =
      let (payload, s) = Source.next fetcher c block.number ds.eigenda_source in
      on_payload-ClearedAtEof payload (record ds { eigenda_source = s })

  on_parsed-ClearedAtEof :
      (p : Checked AltDaCommitment) (ds : DataSource T S)
      → ClearedAtEof (on_parsed alloy ethereum fetcher block p ds)
  unfolding on_parsed
  on_parsed-ClearedAtEof (ok c) ds =
      resolve-ClearedAtEof c (record ds { altda_commitment = some c })
  on_parsed-ClearedAtEof (err e) ds = tt
  on_parsed-ClearedAtEof panic ds = tt

  on_ethereum_error-ClearedAtEof :
      (e : PipelineErrorKind) (ds : DataSource T S)
      → ClearedAtEof (on_ethereum_error alloy ethereum fetcher block e ds)
  unfolding on_ethereum_error
  on_ethereum_error-ClearedAtEof (temporary eof) ds = (ds, refl)
  on_ethereum_error-ClearedAtEof _ ds = tt

  on_local-ClearedAtEof :
      (local_data : Outcome PipelineErrorKind ByteList) (ds : DataSource T S)
      → ClearedAtEof (on_local alloy ethereum fetcher block local_data ds)
  unfolding on_local
  on_local-ClearedAtEof (ok []) ds = tt
  on_local-ClearedAtEof (ok (first ∷ rest)) ds =
      elim (Bool-cases (first == altda_derivation_version)) [
        | inl altda ↦ rw altda (on_parsed-ClearedAtEof (parse alloy (first ∷ rest)) ds)
        | inr plain ↦ rw plain tt
      ]
  on_local-ClearedAtEof (err e) ds = on_ethereum_error-ClearedAtEof e ds
  on_local-ClearedAtEof panic ds = tt

  round-ClearedAtEof :
      (t : T) (s : S) (held : Option AltDaCommitment)
      → ClearedAtEof (
          round alloy ethereum fetcher block
            (record { ethereum_source = t; eigenda_source = s; altda_commitment = held }))
  unfolding round
  round-ClearedAtEof t s (some c) = resolve-ClearedAtEof c _
  round-ClearedAtEof t s none =
      let (local_data, t') = ethereum.next block t in on_local-ClearedAtEof local_data _

  next_eof_clears :
      (fuel : ℕ) (ds ds' : DataSource T S)
      → next alloy ethereum fetcher block fuel ds ≡ some (err (temporary eof), ds')
      → (before : DataSource T S) × (ds' ≡ clear alloy ethereum fetcher block before)
  unfolding next
  next_eof_clears zero ds ds' h = cc
  next_eof_clears (suc fuel) ds ds' h = elim (Round-cases (round alloy ethereum fetcher block ds)) [
    | inl (result, ds'', e) ↦
        let ended : done result ds'' ≡ done (err (temporary eof)) ds' =
          same_done (rw (e, next) at h) in
        subst ClearedAtEof (e ∙ ended)
          (round-ClearedAtEof ds.ethereum_source ds.eigenda_source ds.altda_commitment)
    | inr (ds'', e) ↦ next_eof_clears fuel ds'' ds' (rw (e, next) at h)
  ]

  module _ (answers : Answers fetcher) (queue : IsQueue ethereum block)
      (reopens : Reopens ethereum block queue) (fuel : ℕ) where
    -- A data source that is cleared, in whatever state, derives the whole block from its beginning.
    drain-clear :
        (ds : DataSource T S) (calls : ℕ)
        → length reopens.whole < fuel
        → length reopens.whole < calls
        → drain alloy ethereum fetcher block fuel calls (clear alloy ethereum fetcher block ds)
          ≡ derivation alloy block.number answers.valid answers.payload reopens.whole
    unfolding drain clear
    drain-clear ds calls hf hc =
        collect_all alloy ethereum fetcher block answers queue fuel reopens.whole hf
          (ethereum.clear ds.ethereum_source) ds.eigenda_source
          (reopens.contents_clear ds.ethereum_source) fuel calls hf hc

    -- Over an Ethereum source that is a queue and that `clear` reopens, with a provider that
    -- answers every query: when a call of `next` has ended the block with `Eof`, from whatever
    -- state, the same block can be derived again. With more fuel and more calls than there are
    -- data in the block, that gives exactly the data of the specification for the whole block.
    pub drain_after_eof :
        (f : ℕ) (ds ds' : DataSource T S) (calls : ℕ)
        → next alloy ethereum fetcher block f ds ≡ some (err (temporary eof), ds')
        → length reopens.whole < fuel
        → length reopens.whole < calls
        → drain alloy ethereum fetcher block fuel calls ds'
          ≡ derivation alloy block.number answers.valid answers.payload reopens.whole
    drain_after_eof f ds ds' calls h hf hc =
        let (before, e) = next_eof_clears f ds ds' h in rw e (drain-clear before calls hf hc)
