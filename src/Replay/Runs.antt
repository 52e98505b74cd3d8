-- ===== src/Replay/Runs.antt =====
-- Calls of `EigenDADataSource::next` (crates/eigenda/src/eigenda.rs) with a recorder, and with the
-- provider that `from_witness` makes of the record.
use hokulea.Base.{
  ℕ, zero, suc, ◌≡◌, refl, sym, ap, ap₂, ◌∙◌, inl, inr, Option, none, some, List, [], ◌∷◌, ◌++◌,
  map, append-nil, append_assoc, Outcome, ok, arith,
}
use hokulea.Canoe.{CanoeVerifier}
use hokulea.Canoe.Addresses.{AddressFetcher}
use hokulea.Cert.{ByteList}
use hokulea.Cert.Codec.{Alloy}
use hokulea.DataSource.{DataSource, done, again, round, next}
use hokulea.DataSource.Rounds.{Round-cases}
use hokulea.DataSource.Ethereum.{PipelineErrorKind, Block, EthereumSource}
use hokulea.Errors.{HokuleaErrorKind}
use hokulea.Preloaded.{Preloaded, preloaded, L1Head, BatchVerify, from_witness}
use hokulea.Preloaded.Checks.{from_witness_inversion}
use hokulea.Preloaded.Queue.{loaded}
use hokulea.Provider.{EigenDaPreimageProvider}
use hokulea.Recorder.{Recorder, recording}
use hokulea.Replay.{NeverFails, Validities, Payloads, extend, put, run, prepend}
use hokulea.Replay.Rounds.{RoundRepeats, round-RoundRepeats, extend-nil}
use hokulea.Witness.{EigenDaPreimage, EigenDaWitness, without_proof, from_preimage, into_preimage}
use hokulea.Witness.RoundTrip.{into_preimage-from_preimage}

prepend-eq-some :
    {A : Type 0} {D : Type 0} (a : A) (o : Option (List A × D)) (results : List A) (d : D)
    → prepend a o ≡ some (results, d)
    → (rest : List A) × (o ≡ some (rest, d)) × (results ≡ a ∷ rest)
prepend-eq-some a none results d h = absurd (ground arith)
prepend-eq-some a (some (rest, d')) results d h = (rest, cc, cc)

extend-extend :
    (p : EigenDaPreimage) (vs vs' : Validities) (ps ps' : Payloads)
    → extend (extend p vs ps) vs' ps' ≡ extend p (vs ++ vs') (ps ++ ps')
extend-extend p vs vs' ps ps' = rw (append_assoc, append_assoc)

module _ {T S E F : Type 0} (alloy : Alloy) (ethereum : EthereumSource T)
    (inner : EigenDaPreimageProvider S E) (total : NeverFails inner)
    (into : F → HokuleaErrorKind) where
  -- One call: with fuel for the recorded call to answer, the repeated one gives the same answer.
  abbrev NextRepeats : Block → ℕ → DataSource T (Recorder S) → Type 0
  NextRepeats block fuel ds =
      (result : Outcome PipelineErrorKind ByteList) (ds' : DataSource T (Recorder S))
      → next alloy ethereum (recording inner) block fuel ds ≡ some (result, ds')
      → (vs : Validities) × (ps : Payloads) × (ds'.eigenda_source.preimage
          ≡ extend ds.eigenda_source.preimage vs ps)
        × ((more_vs : Validities) (more_ps : Payloads)
            → next alloy ethereum (preloaded into) block fuel
                (put (loaded (vs ++ more_vs) (ps ++ more_ps)) ds)
              ≡ some (result, put (loaded more_vs more_ps) ds'))

  done-NextRepeats :
      (block : Block) (fuel : ℕ) (ds : DataSource T (Recorder S))
      (a : Outcome PipelineErrorKind ByteList) (d : DataSource T (Recorder S))
      → RoundRepeats ds (done a d) (round alloy ethereum (preloaded into) block)
      → round alloy ethereum (recording inner) block ds ≡ done a d
      → NextRepeats block (suc fuel) ds
  unfolding next
  done-NextRepeats block fuel ds a d (vs, ps, grown, replays) e result ds' h =
      let e' = rw (next, e) at h in
      let ea : a ≡ result = cc in
      let ed : d ≡ ds' = cc in
      (vs, ps, rw (← ed) grown, λ more_vs more_ps. rw (next, replays more_vs more_ps, ea, ed))

  again-NextRepeats :
      (block : Block) (fuel : ℕ) (ds : DataSource T (Recorder S)) (d : DataSource T (Recorder S))
      → RoundRepeats ds (again d) (round alloy ethereum (preloaded into) block)
      → round alloy ethereum (recording inner) block ds ≡ again d
      → NextRepeats block fuel d
      → NextRepeats block (suc fuel) ds
  unfolding next
  again-NextRepeats block fuel ds d (vs, ps, grown, replays) e ih result ds' h =
      let e' = rw (next, e) at h in
      let (vs', ps', grown', replays') = ih result ds' e' in
      (
        vs ++ vs',
        ps ++ ps',
        grown' ∙ ap (λ p. extend p vs' ps') grown ∙ extend-extend _ vs vs' ps ps',
        λ more_vs more_ps.
            rw (next, append_assoc, append_assoc, replays (vs' ++ more_vs) (ps' ++ more_ps))
              (replays' more_vs more_ps),
      )

  next-NextRepeats :
      (block : Block) (fuel : ℕ) (ds : DataSource T (Recorder S)) → NextRepeats block fuel ds
  unfolding next
  next-NextRepeats block zero ds = λ result ds' h. absurd (ground arith)
  next-NextRepeats block (suc fuel) ds =
      let repeats = round-RoundRepeats alloy ethereum inner total into block ds in
      elim (Round-cases (round alloy ethereum (recording inner) block ds)) [
        | inl (a, d, e) ↦ done-NextRepeats block fuel ds a d (rw e at repeats) e
        | inr (d, e) ↦
            again-NextRepeats block fuel ds d (rw e at repeats) e (next-NextRepeats block fuel d)
      ]

  -- Calls one after another.
  abbrev RunRepeats : ℕ → List Block → DataSource T (Recorder S) → Type 0
  RunRepeats fuel blocks ds =
      (results : List (Outcome PipelineErrorKind ByteList)) (ds' : DataSource T (Recorder S))
      → run alloy ethereum (recording inner) fuel blocks ds ≡ some (results, ds')
      → (vs : Validities) × (ps : Payloads) × (ds'.eigenda_source.preimage
          ≡ extend ds.eigenda_source.preimage vs ps)
        × ((more_vs : Validities) (more_ps : Payloads)
            → run alloy ethereum (preloaded into) fuel blocks
                (put (loaded (vs ++ more_vs) (ps ++ more_ps)) ds)
              ≡ some (results, put (loaded more_vs more_ps) ds'))

  run_cons-RunRepeats :
      (fuel : ℕ) (block : Block) (blocks : List Block) (ds : DataSource T (Recorder S))
      (answer : Option (Outcome PipelineErrorKind ByteList × DataSource T (Recorder S)))
      → next alloy ethereum (recording inner) block fuel ds ≡ answer
      → ((d : DataSource T (Recorder S)) → RunRepeats fuel blocks d)
      → RunRepeats fuel (block ∷ blocks) ds
  unfolding run
  run_cons-RunRepeats fuel block blocks ds none e ih results ds' h = absurd (ground (arith))
  run_cons-RunRepeats fuel block blocks ds (some (a, d)) e ih results ds' h =
      let (vs, ps, grown, replays) = next-NextRepeats block fuel ds a d e in
      let (rest, e_rest, e_results) = prepend-eq-some a _ results ds' (rw (run, e) at h) in
      let (vs', ps', grown', replays') = ih d rest ds' e_rest in
      (
        vs ++ vs',
        ps ++ ps',
        grown' ∙ ap (λ p. extend p vs' ps') grown ∙ extend-extend _ vs vs' ps ps',
        λ more_vs more_ps. rw (
          run,
          append_assoc,
          append_assoc,
          replays (vs' ++ more_vs) (ps' ++ more_ps),
          replays' more_vs more_ps,
          e_results,
        ),
      )

  run-RunRepeats :
      (fuel : ℕ) (blocks : List Block) (ds : DataSource T (Recorder S)) → RunRepeats fuel blocks ds
  unfolding run
  run-RunRepeats fuel [] ds = λ results ds' h.
      let e1 : results ≡ [] = cc in
      let e2 : ds' ≡ ds = cc in ([], [], rw e2 (extend-nil _), λ more_vs more_ps. rw (e1, e2))
  run-RunRepeats fuel (block ∷ blocks) ds =
      run_cons-RunRepeats fuel block blocks ds (next alloy ethereum (recording inner) block fuel ds)
        refl (run-RunRepeats fuel blocks)

  -- Calls of `next` with a recorder, from an empty record and over a provider that answers every
  -- query, each with fuel to return: if the record, joined with proofs, passes `from_witness`,
  -- then the same calls with the provider that it returns give the same results, leave the
  -- Ethereum source and the held commitment the same, and use the witness up.
  pub replay_from_witness :
      (batch_verify : BatchVerify F) (verifier : CanoeVerifier) (fetcher : AddressFetcher)
      (head : L1Head) (fuel : ℕ) (blocks : List Block) (ds ds' : DataSource T (Recorder S))
      (results : List (Outcome PipelineErrorKind ByteList)) (proofs : List ByteList)
      (canoe_proof : Option ByteList) (w : EigenDaWitness) (p : Preloaded)
      → ds.eigenda_source.preimage ≡ record { validities = []; encoded_payloads = [] }
      → run alloy ethereum (recording inner) fuel blocks ds ≡ some (results, ds')
      → from_preimage ds'.eigenda_source.preimage proofs canoe_proof ≡ ok w
      → from_witness batch_verify verifier fetcher head w ≡ ok p
      → run alloy ethereum (preloaded into) fuel blocks (put p ds)
        ≡ some (results, put (record { validity_entries = []; encoded_payload_entries = [] }) ds')
  unfolding into_preimage
  replay_from_witness batch_verify verifier fetcher head fuel blocks ds ds' results proofs
        canoe_proof w p empty recorded made checked =
      let (vs, ps, grown, replays) = run-RunRepeats fuel blocks ds results ds' recorded in
      let parts =
        into_preimage-from_preimage ds'.eigenda_source.preimage proofs canoe_proof w made in
      let log = grown ∙ ap (λ q. extend q vs ps) empty in
      let ev : w.validities ≡ vs = ap (λ t. t.0.validities) parts ∙ ap (λ q. q.validities) log in
      let ep : map without_proof w.encoded_payloads ≡ ps =
        ap (λ t. t.0.encoded_payloads) parts ∙ ap (λ q. q.encoded_payloads) log in
      let (checks, is_loaded) =
        from_witness_inversion batch_verify verifier fetcher head w p checked in
      let first : p ≡ loaded (vs ++ []) (ps ++ []) =
        is_loaded ∙ ap₂ loaded (ev ∙ sym (append-nil vs)) (ep ∙ sym (append-nil ps)) in
      ap (λ q. run alloy ethereum (preloaded into) fuel blocks (put q ds)) first ∙ replays [] []
