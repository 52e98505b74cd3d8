-- ===== src/Replay/Rounds.antt =====
-- A round of `EigenDADataSource::next` (crates/eigenda/src/eigenda.rs) with a recorder, and with a
-- provider that is loaded with the record.
use hokulea.Base.{
  ◌≡◌, refl, Bool-cases, inl, inr, Option, none, some, [], ◌∷◌, ◌++◌, append-nil, Outcome, ok, err,
  panic, ◌==◌, arith,
}
use hokulea.Cert.{ByteList}
use hokulea.Cert.Codec.{Alloy}
use hokulea.Cert.Commitment.{AltDaCommitment}
use hokulea.DataSource.{
  DataSource, Round, on_payload, resolve, on_parsed, on_local_data, on_ethereum_error, on_local,
  clear, round, altda_derivation_version,
}
use hokulea.DataSource.Ethereum.{
  PipelineErrorKind, temporary, critical, PipelineError, eof, not_enough_data, provider, Block,
  EthereumSource,
}
use hokulea.Errors
use hokulea.Errors.{HokuleaErrorKind, discard}
use hokulea.Payload.{EncodedPayload, Checked}
use hokulea.Preloaded.{Preloaded, preloaded}
use hokulea.Preloaded.Queue.{loaded}
use hokulea.Provider.{EigenDaPreimageProvider}
use hokulea.Recorder.{Recorder, recording}
use hokulea.Replay.{NeverFails, Validities, Payloads, extend, put, put_round, source_after}
use hokulea.Replay.Queries.{next-Repeats}
use hokulea.Source.{parse}
use hokulea.Witness.{EigenDaPreimage}

abbrev pub RoundRepeats :
    {T S : Type 0}
    → DataSource T (Recorder S)
    → Round T (Recorder S)
    → (DataSource T Preloaded → Round T Preloaded)
    → Type 0
RoundRepeats ds recorded replayed =
    (vs : Validities) × (ps : Payloads) × ((source_after recorded).preimage
      ≡ extend ds.eigenda_source.preimage vs ps)
    × ((more_vs : Validities) (more_ps : Payloads)
        → replayed (put (loaded (vs ++ more_vs) (ps ++ more_ps)) ds)
          ≡ put_round (loaded more_vs more_ps) recorded)

pub extend-nil : (p : EigenDaPreimage) → p ≡ extend p [] []
extend-nil p = rw (append-nil, append-nil)

module _ {T S E F : Type 0} (alloy : Alloy) (ethereum : EthereumSource T)
    (inner : EigenDaPreimageProvider S E) (total : NeverFails inner) (into : F → HokuleaErrorKind)
    (block : Block) where
  on_payload-put :
      (r : Outcome HokuleaErrorKind EncodedPayload) (ds : DataSource T (Recorder S)) (p : Preloaded)
      → on_payload alloy ethereum (preloaded into) block r (put p ds)
        ≡ put_round p (on_payload alloy ethereum (recording inner) block r ds)
  unfolding on_payload
  on_payload-put (err (Errors.temporary e)) ds p = refl
  on_payload-put (err (discard e)) ds p = refl
  on_payload-put (err (Errors.critical e)) ds p = refl
  on_payload-put panic ds p = refl
  on_payload-put (ok encoded_payload) ds p = ground arith

  on_payload-source :
      (r : Outcome HokuleaErrorKind EncodedPayload) (ds : DataSource T (Recorder S))
      → source_after (on_payload alloy ethereum (recording inner) block r ds) ≡ ds.eigenda_source
  unfolding on_payload
  on_payload-source (err (Errors.temporary e)) ds = refl
  on_payload-source (err (discard e)) ds = refl
  on_payload-source (err (Errors.critical e)) ds = refl
  on_payload-source panic ds = refl
  on_payload-source (ok encoded_payload) ds = ground arith

  resolve-RoundRepeats :
      (c : AltDaCommitment) (ds : DataSource T (Recorder S))
      → RoundRepeats ds
          (resolve alloy ethereum (recording inner) block c ds)
          (resolve alloy ethereum (preloaded into) block c)
  unfolding resolve
  resolve-RoundRepeats c ds =
      let (vs, ps, grown, replays) =
        next-Repeats inner total into c block.number ds.eigenda_source in
      (
        vs,
        ps,
        rw (on_payload-source, grown),
        λ more_vs more_ps.
            rw (replays more_vs more_ps) (on_payload-put _ _ (loaded more_vs more_ps)),
      )

  on_parsed-RoundRepeats :
      (c : Checked AltDaCommitment) (ds : DataSource T (Recorder S))
      → RoundRepeats ds
          (on_parsed alloy ethereum (recording inner) block c ds)
          (on_parsed alloy ethereum (preloaded into) block c)
  unfolding on_parsed
  on_parsed-RoundRepeats (ok c) ds =
      resolve-RoundRepeats c (record ds { altda_commitment = some c })
  on_parsed-RoundRepeats (err e) ds = ([], [], extend-nil _, λ more_vs more_ps. refl)
  on_parsed-RoundRepeats panic ds = ([], [], extend-nil _, λ more_vs more_ps. refl)

  on_local-RoundRepeats :
      (local_data : Outcome PipelineErrorKind ByteList) (ds : DataSource T (Recorder S))
      → RoundRepeats ds
          (on_local alloy ethereum (recording inner) block local_data ds)
          (on_local alloy ethereum (preloaded into) block local_data)
  unfolding on_local on_local_data on_ethereum_error clear
  on_local-RoundRepeats panic ds = ([], [], extend-nil _, λ more_vs more_ps. refl)
  on_local-RoundRepeats (err (temporary eof)) ds = ([], [], extend-nil _, λ more_vs more_ps. refl)
  on_local-RoundRepeats (err (temporary not_enough_data)) ds =
      ([], [], extend-nil _, λ more_vs more_ps. refl)
  on_local-RoundRepeats (err (temporary (provider e))) ds =
      ([], [], extend-nil _, λ more_vs more_ps. refl)
  on_local-RoundRepeats (err (temporary (PipelineError.other e))) ds =
      ([], [], extend-nil _, λ more_vs more_ps. refl)
  on_local-RoundRepeats (err (critical e)) ds = ([], [], extend-nil _, λ more_vs more_ps. refl)
  on_local-RoundRepeats (err (PipelineErrorKind.other e)) ds =
      ([], [], extend-nil _, λ more_vs more_ps. refl)
  on_local-RoundRepeats (ok []) ds = ([], [], extend-nil _, λ more_vs more_ps. refl)
  on_local-RoundRepeats (ok (first ∷ rest)) ds =
      elim (Bool-cases (first == altda_derivation_version)) [
        | inl altda ↦ rw altda (on_parsed-RoundRepeats (parse alloy (first ∷ rest)) ds)
        | inr plain ↦ rw plain ([], [], extend-nil _, λ more_vs more_ps. refl)
      ]

  round_at-RoundRepeats :
      (held : Option AltDaCommitment) (t : T) (r : Recorder S)
      → (let ds : DataSource T (Recorder S) = record {
        ethereum_source = t;
        eigenda_source = r;
        altda_commitment = held;
      } in
          RoundRepeats ds
            (round alloy ethereum (recording inner) block ds)
            (round alloy ethereum (preloaded into) block))
  unfolding round
  round_at-RoundRepeats (some c) t r =
      resolve-RoundRepeats c
        (record { ethereum_source = t; eigenda_source = r; altda_commitment = some c })
  round_at-RoundRepeats none t r =
      let (local_data, t') = ethereum.next block t in
      on_local-RoundRepeats local_data
        (record { ethereum_source = t'; eigenda_source = r; altda_commitment = none })

  pub round-RoundRepeats :
      (ds : DataSource T (Recorder S))
      → RoundRepeats ds
          (round alloy ethereum (recording inner) block ds)
          (round alloy ethereum (preloaded into) block)
  round-RoundRepeats ds =
      round_at-RoundRepeats ds.altda_commitment ds.ethereum_source ds.eigenda_source
