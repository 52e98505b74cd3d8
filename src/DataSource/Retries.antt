-- ===== src/DataSource/Retries.antt =====
-- `EigenDADataSource` (crates/eigenda/src/eigenda.rs) with a provider that fails for a while: the caller
-- tries again, and no data of the block is lost or repeated.
use hokulea.Base.{
  ℕ, zero, suc, ◌+◌, ◌<◌, ◌≡◌, inl, inr, refl, Option, none, some, List, [], ◌∷◌, Outcome, ok, err,
  panic, length, arith,
}
use hokulea.Cert.{ByteList}
use hokulea.Cert.Codec.{Alloy}
use hokulea.Cert.Commitment.{AltDaCommitment}
use hokulea.Provider.{EigenDaPreimageProvider}
use hokulea.DataSource
use hokulea.DataSource.{
  DataSource, Round, done, again, on_payload, resolve, on_parsed, on_local_data, on_ethereum_error,
  on_local, clear, round, next, altda_derivation_version,
}
use hokulea.DataSource.Derivation.{
  Fate, yields, skips, halts, stalls, crashes, Ending, finished, failed, crashed, unfinished,
  cert_fate, add_fate, derivation,
}
use hokulea.DataSource.Ethereum.{
  PipelineErrorKind, temporary, not_enough_data, eof, provider, Block, EthereumSource, IsQueue,
}
use hokulea.DataSource.Late.{
  AnswersLate, state, Settles, Stalls, resolve-Progress, on_local_data-Fated,
}

module _ {T S E : Type 0} (alloy : Alloy) (ethereum : EthereumSource T)
    (fetcher : EigenDaPreimageProvider S E) (block : Block) where
  module _ (fuel : ℕ) where
    -- `calls` more calls of `next`, as `collect` makes them; an error of the provider that is temporary
    -- is tried again
    unfoldable pub retry :
        ℕ → Option (Outcome PipelineErrorKind ByteList × DataSource T S) → List ByteList × Ending
    retry zero r = ([], unfinished)
    retry (suc calls) none = ([], unfinished)
    retry (suc calls) (some (ok item, ds)) =
        let (out, ending) = retry calls (next alloy ethereum fetcher block fuel ds) in
        (item ∷ out, ending)
    retry (suc calls) (some (err (temporary not_enough_data), ds)) =
        retry calls (next alloy ethereum fetcher block fuel ds)
    retry (suc calls) (some (err (temporary (provider e)), ds)) =
        retry calls (next alloy ethereum fetcher block fuel ds)
    retry (suc calls) (some (err (temporary eof), ds)) = ([], finished)
    retry (suc calls) (some (err e, ds)) = ([], failed e)
    retry (suc calls) (some (panic, ds)) = ([], crashed)

  module _ (answers : AnswersLate fetcher) where
    open answers use {valid, payload, failures}

    module _ (queue : IsQueue ethereum block) (fuel : ℕ) where
      abbrev spec : List ByteList → List ByteList × Ending
      spec = derivation alloy block.number valid payload

      -- what is left to derive, with the commitment that is held first
      abbrev spec_from : Option AltDaCommitment → List ByteList → List ByteList × Ending
      spec_from none items = spec items
      spec_from (some c) items =
          add_fate alloy block.number valid payload (cert_fate alloy block.number valid payload c)
            (spec items)

      abbrev size : Option AltDaCommitment → List ByteList → ℕ
      size none items = length items
      size (some c) items = suc (length items)

      abbrev calls_from : ℕ → ℕ → T → S → Option AltDaCommitment → List ByteList × Ending
      calls_from f calls t s held =
          retry fuel calls
            (next alloy ethereum fetcher block f (state alloy ethereum fetcher block t s held))

      -- the claim for what is left of a block, with fewer than `n` data and failures
      abbrev Retries : ℕ → Type 0
      Retries n =
          (t : T) (s : S) (held : Option AltDaCommitment) (items : List ByteList)
          → queue.contents t ≡ items
          → size held items + failures s < n
          → size held items < fuel
          → (f calls : ℕ) → size held items < f
          → size held items + failures s < calls
          → calls_from f calls t s held ≡ spec_from held items

      abbrev repeated : ℕ → Round T S → Option (Outcome PipelineErrorKind ByteList × DataSource T S)
      repeated f r = elim r [
        | done result ds ↦ some (result, ds)
        | again ds ↦ next alloy ethereum fetcher block f ds
      ]

      settled_step :
          (n : ℕ)
          → Retries n
          → (t : T) (s : S) (items : List ByteList) (fate : Fate) (r : Round T S)
          → queue.contents t ≡ items
          → length items + failures s < n
          → length items < fuel
          → Settles alloy ethereum fetcher block answers t s fate r
          → (f calls : ℕ) → length items < f
          → length items + failures s < calls
          → retry fuel (suc calls) (repeated f r)
            ≡ add_fate alloy block.number valid payload fate (spec items)
      unfolding retry
      settled_step n ih t s items (yields p) r q hn enough (s', less, e) f calls hf hc =
          rw (e, ih t s' none items q (omega arith) enough fuel calls enough (omega arith))
      settled_step n ih t s items skips r q hn enough (s', less, inl e) f calls hf hc =
          rw e (ih t s' none items q (omega arith) enough f (suc calls) hf (omega arith))
      settled_step n ih t s items skips r q hn enough (s', less, inr e) f calls hf hc =
          rw e (ih t s' none items q (omega arith) enough fuel calls enough (omega arith))
      settled_step n ih t s items (halts m) r q hn enough (ds, e) f calls hf hc = rw e
      settled_step n ih t s items (stalls m) r q hn enough never f calls hf hc = absurd never
      settled_step n ih t s items crashes r q hn enough (ds, e) f calls hf hc = rw e

      stalled_step :
          (n : ℕ)
          → Retries n
          → (t : T) (s : S) (items : List ByteList) (c : AltDaCommitment) (r : Round T S)
          → queue.contents t ≡ items
          → length items + failures s < n
          → suc (length items) < fuel
          → Stalls alloy ethereum fetcher block answers t s c r
          → (f calls : ℕ) → length items + failures s < calls
          → retry fuel (suc calls) (repeated f r) ≡ spec_from (some c) items
      unfolding retry
      stalled_step n ih t s items c r q hn enough (s', m, fewer, e) f calls hc =
          rw e (ih t s' (some c) items q (omega arith) enough fuel calls enough (omega arith))

      retry_step : (n : ℕ) → Retries n → Retries (suc n)
      unfolding next round on_local retry
      retry_step n ih t s held items q hn enough zero calls hf hc = absurd (omega arith)
      retry_step n ih t s held items q hn enough (suc f) zero hf hc = absurd (omega arith)
      retry_step n ih t s none [] q hn enough (suc f) (suc calls) hf hc =
          let (t', h, q') = queue.next_nil t q in rw (next, h)
      retry_step n ih t s none (item ∷ items) q hn enough (suc f) (suc calls) hf hc =
          let (t', h, q') = queue.next_cons t item items q in
          elim (on_local_data-Fated alloy ethereum fetcher block answers item t' s) [
            | inl settled ↦
                rw (next, h)
                  (settled_step n ih t' s items _ _ q' (omega arith) (omega arith) settled f calls
                    (omega arith) (omega arith))
            | inr (c, same, stalled) ↦
                rw (next, h, same)
                  (stalled_step n ih t' s items c _ q' (omega arith) enough stalled f calls
                    (omega arith))
          ]
      retry_step n ih t s (some c) items q hn enough (suc f) (suc calls) hf hc =
          elim (resolve-Progress alloy ethereum fetcher block answers c t s) [
            | inl settled ↦
                (settled_step n ih t s items _ _ q (omega arith) (omega arith) settled f calls
                  (omega arith) (omega arith))
            | inr stalled ↦
                (stalled_step n ih t s items c _ q (omega arith) enough stalled f calls
                  (omega arith))
          ]

      retry_all : (n : ℕ) → Retries n
      retry_all zero t s held items q hn enough f calls hf hc = absurd (omega arith)
      retry_all (suc n) t s held items q hn enough f calls hf hc =
          retry_step n (retry_all n) t s held items q hn enough f calls hf hc

      -- Over an Ethereum source that is a queue, with a provider that answers every query after at
      -- most so many temporary failures, and with more fuel than there are data in the block and
      -- more calls than there are data and failures: calling `next` until the block is exhausted,
      -- and again after each temporary error of the provider, gives exactly the data of the
      -- specification, in order. No commitment is lost or yields its data twice, wherever the
      -- failures fall.
      pub retry_refines :
          (t : T) (s : S) (calls : ℕ)
          → length (queue.contents t) < fuel
          → length (queue.contents t) + failures s < calls
          → retry fuel calls (next alloy ethereum fetcher block fuel (DataSource.new t s))
            ≡ derivation alloy block.number valid payload (queue.contents t)
      unfolding DataSource.new
      retry_refines t s calls hf hc =
          retry_all (suc (length (queue.contents t) + failures s)) t s none (queue.contents t) refl
            (omega arith) hf fuel calls hf hc
