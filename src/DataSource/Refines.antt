-- ===== src/DataSource/Refines.antt =====
-- `EigenDADataSource` (crates/eigenda/src/eigenda.rs) against blob derivation described on its own.
use hokulea.Base.{
  ℕ, zero, suc, ◌<◌, ◌≡◌, ◌⊎◌, inl, inr, refl, true, Bool-cases, Option, none, some, List, [], ◌∷◌,
  Outcome, ok, err, panic, ◌==◌, length, arith,
}
use hokulea.Cert.{ByteList}
use hokulea.Cert.Codec.{Alloy}
use hokulea.Cert.Commitment.{AltDaCommitment}
use hokulea.Errors.{HokuleaErrorKind, discard, HokuleaStatelessError}
use hokulea.Errors
use hokulea.Payload.{EncodedPayload, Checked, decode}
use hokulea.Provider.{EigenDaPreimageProvider}
use hokulea.Source
use hokulea.Source.{parse, check_recency}
use hokulea.DataSource
use hokulea.DataSource.{
  DataSource, Round, done, again, on_payload, resolve, on_parsed, on_local_data, on_ethereum_error,
  on_local, clear, round, next, altda_derivation_version,
}
use hokulea.DataSource.Ethereum.{
  PipelineErrorKind, temporary, critical, not_enough_data, provider, Block, EthereumSource, IsQueue,
}
use hokulea.DataSource.Derivation.{
  Answers, Fate, yields, skips, halts, stalls, crashes, payload_fate, Ending, checked_fate,
  cert_fate, parsed_fate, item_fate, add_fate, derivation, collect, drain,
}

module _ {T S E : Type 0} (alloy : Alloy) (ethereum : EthereumSource T)
    (fetcher : EigenDaPreimageProvider S E) (block : Block) (answers : Answers fetcher) where
  -- a data source that holds no commitment
  abbrev pub free : T → S → DataSource T S
  free t s = record { ethereum_source = t; eigenda_source = s; altda_commitment = none }

  -- A round does what the fate of a datum says, and leaves the Ethereum source at `t`.
  abbrev Realises : T → Fate → Round T S → Type 0
  Realises t (yields p) r = (s : S) × (r ≡ done (ok p) (free t s))
  Realises t skips r =
      (s : S) × ((r ≡ again (free t s)) ⊎ (r ≡ done (err (temporary not_enough_data)) (free t s)))
  Realises t (halts e) r = (ds : DataSource T S) × (r ≡ done (err (critical (provider e))) ds)
  Realises t (stalls e) r = (ds : DataSource T S) × (r ≡ done (err (temporary (provider e))) ds)
  Realises t crashes r = (ds : DataSource T S) × (r ≡ done panic ds)

  on_payload-Realises :
      (encoded_payload : EncodedPayload) (t : T) (s : S) (held : Option AltDaCommitment)
      → Realises t (payload_fate (decode encoded_payload)) (
          on_payload alloy ethereum fetcher block
            (ok encoded_payload)
            (record { ethereum_source = t; eigenda_source = s; altda_commitment = held }))
  unfolding on_payload
  on_payload-Realises encoded_payload t s held =
      let ds : DataSource T S = record {
        ethereum_source = t;
        eigenda_source = s;
        altda_commitment = held;
      } in
      elim (decode encoded_payload)
        as (λ r. Realises t (payload_fate r) (elim r [
          | ok c ↦ done (ok c) (record ds { altda_commitment = none })
          | err e ↦ again (record ds { altda_commitment = none })
          | panic ↦ done panic ds
        ])) [ ok c ↦ (s, refl) | err e ↦ (s, inl refl) | panic ↦ (ds, refl) ]

  module _ (c : AltDaCommitment) (t : T) (s s1 : S) (held : Option AltDaCommitment) where
    abbrev at_cert : DataSource T S
    at_cert = record { ethereum_source = t; eigenda_source = s; altda_commitment = held }

    -- the same, after the first query
    abbrev at_cert_after : DataSource T S
    at_cert_after = record at_cert { eigenda_source = s1 }

    -- a valid certificate, by the outcome of its recency check
    checked-Realises :
        (checked : Outcome HokuleaErrorKind (Unit {0}))
        → fetcher.get_validity c s ≡ (ok true, s1)
        → check_recency c block.number ≡ checked
        → Realises t
            (checked_fate alloy block.number answers.valid answers.payload c checked)
            (resolve alloy ethereum fetcher block c at_cert)
    unfolding resolve Source.next
    checked-Realises (ok u) v r =
        let (s2, p) = answers.answers_payload c s1 in
        rw (v, r, p) (on_payload-Realises (answers.payload c) t s2 held)
    checked-Realises (err (discard e)) v r = (s1, inl (rw (v, r)))
    checked-Realises (err (Errors.temporary e)) v r = (at_cert_after, rw (v, r))
    checked-Realises (err (Errors.critical e)) v r = (at_cert_after, rw (v, r))
    checked-Realises panic v r = (at_cert_after, rw (v, r))

  resolve-Realises :
      (c : AltDaCommitment) (t : T) (s : S) (held : Option AltDaCommitment)
      → Realises t (cert_fate alloy block.number answers.valid answers.payload c) (
          resolve alloy ethereum fetcher block c
            (record { ethereum_source = t; eigenda_source = s; altda_commitment = held }))
  unfolding resolve Source.next Errors.from_preimage_error
  resolve-Realises c t s held =
      let (s1, v) = answers.answers_validity c s in
      elim (Bool-cases (answers.valid c)) [
        | inl valid ↦
            rw valid
              (checked-Realises c t s s1 held (check_recency c block.number) (rw valid at v) refl)
        | inr invalid ↦ rw invalid (s1, inl (rw (v, invalid)))
      ]

  on_parsed-Realises :
      (p : Checked AltDaCommitment) (t : T) (s : S)
      → Realises t
          (parsed_fate alloy block.number answers.valid answers.payload p)
          (on_parsed alloy ethereum fetcher block p (free t s))
  unfolding on_parsed
  on_parsed-Realises (ok c) t s = resolve-Realises c t s (some c)
  on_parsed-Realises (err e) t s = (s, inr refl)
  on_parsed-Realises panic t s = (free t s, refl)

  pub on_local_data-Realises :
      (item : ByteList) (t : T) (s : S)
      → Realises t
          (item_fate alloy block.number answers.valid answers.payload item)
          (on_local_data alloy ethereum fetcher block item (free t s))
  unfolding on_local_data
  on_local_data-Realises [] t s = (s, inr refl)
  on_local_data-Realises (first ∷ rest) t s =
      elim (Bool-cases (first == altda_derivation_version)) [
        | inl altda ↦ rw altda (on_parsed-Realises (parse alloy (first ∷ rest)) t s)
        | inr plain ↦ rw plain (s, refl)
      ]

  module _ (queue : IsQueue ethereum block) (fuel : ℕ) where
    abbrev pub spec : List ByteList → List ByteList × Ending
    spec = derivation alloy block.number answers.valid answers.payload

    abbrev pub next_from : ℕ → T → S → Option (Outcome PipelineErrorKind ByteList × DataSource T S)
    next_from f t s = next alloy ethereum fetcher block f (free t s)

    -- the claim for the rest of a block: whatever call of `next` comes first, with enough fuel
    abbrev pub Drains : List ByteList → Type 0
    Drains items =
        (t : T) (s : S)
        → queue.contents t ≡ items
        → (f calls : ℕ) → length items < f
        → length items < calls
        → collect alloy ethereum fetcher block fuel calls (next_from f t s) ≡ spec items

    collect_nil : Drains []
    unfolding next round on_local collect
    collect_nil t s q zero calls hf hc = absurd (omega arith)
    collect_nil t s q (suc f) zero hf hc = absurd (omega arith)
    collect_nil t s q (suc f) (suc calls) hf hc =
        let (t', h, q') = queue.next_nil t q in rw (next, h)

    -- the step of the induction, by the fate of the first datum
    collect_fate :
        (items : List ByteList)
        → length items < fuel
        → Drains items
        → (fate : Fate) (r : Round T S) (t' : T) → queue.contents t' ≡ items
        → Realises t' fate r
        → (f calls : ℕ) → length items < f
        → length items < calls
        → collect alloy ethereum fetcher block fuel (suc calls) (elim r [
          | done result ds ↦ some (result, ds)
          | again ds ↦ next alloy ethereum fetcher block f ds
        ])
          ≡ add_fate alloy block.number answers.valid answers.payload fate (spec items)
    unfolding collect
    collect_fate items enough ih (yields p) r t' q (s, e) f calls hf hc =
        rw (e, ih t' s q fuel calls enough hc)
    collect_fate items enough ih skips r t' q (s, inl e) f calls hf hc =
        rw e (ih t' s q f (suc calls) hf (omega arith))
    collect_fate items enough ih skips r t' q (s, inr e) f calls hf hc =
        rw e (ih t' s q fuel calls enough hc)
    collect_fate items enough ih (halts m) r t' q (ds, e) f calls hf hc = rw e
    collect_fate items enough ih (stalls m) r t' q (ds, e) f calls hf hc = rw e
    collect_fate items enough ih crashes r t' q (ds, e) f calls hf hc = rw e

    collect_cons :
        (item : ByteList) (items : List ByteList)
        → length items < fuel
        → Drains items
        → Drains (item ∷ items)
    unfolding next round on_local
    collect_cons item items enough ih t s q zero calls hf hc = absurd (omega arith)
    collect_cons item items enough ih t s q (suc f) zero hf hc = absurd (omega arith)
    collect_cons item items enough ih t s q (suc f) (suc calls) hf hc =
        let (t', h, q') = queue.next_cons t item items q in
        let fated =
          collect_fate items enough ih
            (item_fate alloy block.number answers.valid answers.payload item)
            (on_local_data alloy ethereum fetcher block item (free t' s)) t' q'
            (on_local_data-Realises item t' s) f calls (omega arith) (omega arith) in
        rw (next, h) fated

    pub collect_all : (items : List ByteList) → length items < fuel → Drains items
    collect_all [] h = collect_nil
    collect_all (item ∷ items) h =
        collect_cons item items (omega arith) (collect_all items (omega arith))

    -- Over an Ethereum source that is a queue, with a provider that answers every query, and with
    -- more fuel and more calls than there are data in the block: calling `next` until the block is
    -- exhausted gives exactly the data of the specification, in order, and ends as it says.
    pub drain_refines :
        (t : T) (s : S) (calls : ℕ)
        → length (queue.contents t) < fuel
        → length (queue.contents t) < calls
        → drain alloy ethereum fetcher block fuel calls (DataSource.new t s)
          ≡ derivation alloy block.number answers.valid answers.payload (queue.contents t)
    unfolding drain DataSource.new
    drain_refines t s calls hf hc = collect_all (queue.contents t) hf t s refl fuel calls hf hc
