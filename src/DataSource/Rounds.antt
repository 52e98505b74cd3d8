-- ===== src/DataSource/Rounds.antt =====
-- Rounds of `EigenDADataSource::next` (crates/eigenda/src/eigenda.rs), and how many there can be.
use mathlib.Core.Path.{subst}
use hokulea.Base.{
  ℕ, zero, suc, ◌+◌, ◌<◌, ◌≡◌, refl, ap, Option, none, some, List, [], ◌∷◌, Outcome, ok, err, panic,
  arith, length, ◌==◌, Bool-cases, ◌⊎◌, inl, inr,
}
use hokulea.Cert.{ByteList}
use hokulea.Cert.Codec.{Alloy}
use hokulea.Cert.Commitment.{AltDaCommitment}
use hokulea.Errors.{HokuleaErrorKind, discard, HokuleaStatelessError}
use hokulea.Errors
use hokulea.Payload.{EncodedPayload, Checked, decode}
use hokulea.Provider.{EigenDaPreimageProvider}
use hokulea.Source
use hokulea.Source.{parse}
use hokulea.DataSource.{
  DataSource, Round, done, again, on_payload, resolve, on_parsed, on_local_data, on_local, round,
  next, altda_derivation_version,
}
use hokulea.DataSource.Ethereum.{PipelineErrorKind, Block, EthereumSource, IsQueue}

pub Round-cases :
    {T S : Type 0} (r : Round T S)
    → ((result : Outcome PipelineErrorKind ByteList) × (ds : DataSource T S) × (r ≡ done result ds))
      ⊎ ((ds : DataSource T S) × (r ≡ again ds))
Round-cases (done result ds) = inl (result, ds, refl)
Round-cases (again ds) = inr (ds, refl)

pub same_done :
    {T S : Type 0} {r r' : Outcome PipelineErrorKind ByteList} {ds ds' : DataSource T S}
    → ◌≡◌ {A = Option (Outcome PipelineErrorKind ByteList × DataSource T S)}
        (some (r, ds))
        (some (r', ds'))
    → done r ds ≡ done r' ds'
same_done h = cc

module _ {T S E : Type 0} (alloy : Alloy) (ethereum : EthereumSource T)
    (fetcher : EigenDaPreimageProvider S E) (block : Block) where
  -- what a further round starts from: no commitment, and the Ethereum source as it was
  abbrev pub AgainFrom : T → Round T S → Type 0
  AgainFrom t (done result ds) = Unit {0}
  AgainFrom t (again ds) = (ds.altda_commitment ≡ none) × (ds.ethereum_source ≡ t)

  on_payload-AgainFrom :
      (p : Outcome HokuleaErrorKind EncodedPayload) (ds : DataSource T S)
      → AgainFrom ds.ethereum_source (on_payload alloy ethereum fetcher block p ds)
  unfolding on_payload
  on_payload-AgainFrom (err (Errors.temporary e)) ds = tt
  on_payload-AgainFrom (err (discard e)) ds = (refl, refl)
  on_payload-AgainFrom (err (Errors.critical e)) ds = tt
  on_payload-AgainFrom panic ds = tt
  on_payload-AgainFrom (ok encoded_payload) ds =
      elim (decode encoded_payload)
        as (λ r. AgainFrom ds.ethereum_source (elim r [
          | ok c ↦ done (ok c) (record ds { altda_commitment = none })
          | err e ↦ again (record ds { altda_commitment = none })
          | panic ↦ done panic ds
        ])) [ ok c ↦ tt | err e ↦ (refl, refl) | panic ↦ tt ]

  pub resolve-AgainFrom :
      (c : AltDaCommitment) (ds : DataSource T S)
      → AgainFrom ds.ethereum_source (resolve alloy ethereum fetcher block c ds)
  unfolding resolve
  resolve-AgainFrom c ds =
      let (payload, s) = Source.next fetcher c block.number ds.eigenda_source in
      on_payload-AgainFrom payload (record ds { eigenda_source = s })

  on_parsed-AgainFrom :
      (p : Checked AltDaCommitment) (ds : DataSource T S)
      → AgainFrom ds.ethereum_source (on_parsed alloy ethereum fetcher block p ds)
  unfolding on_parsed
  on_parsed-AgainFrom (ok c) ds = resolve-AgainFrom c (record ds { altda_commitment = some c })
  on_parsed-AgainFrom (err e) ds = tt
  on_parsed-AgainFrom panic ds = tt

  on_local_data-AgainFrom :
      (item : ByteList) (ds : DataSource T S)
      → AgainFrom ds.ethereum_source (on_local_data alloy ethereum fetcher block item ds)
  unfolding on_local_data
  on_local_data-AgainFrom [] ds = tt
  on_local_data-AgainFrom (first ∷ rest) ds =
      elim (Bool-cases (first == altda_derivation_version)) [
        | inl altda ↦ rw altda (on_parsed-AgainFrom (parse alloy (first ∷ rest)) ds)
        | inr plain ↦ rw plain tt
      ]

  module _ (queue : IsQueue ethereum block) where
    -- the rounds that may still be made: the items left, and the commitment held
    abbrev pub rounds_left : DataSource T S → ℕ
    rounds_left ds =
        length (queue.contents ds.ethereum_source)
        + elim ds.altda_commitment [ none ↦ 0 | some c ↦ 1 ]

    -- a round that repeats from a state over the Ethereum source `t'`
    repeat_falls :
        (t' : T) (n : ℕ) (r : Round T S) (ds' : DataSource T S)
        → AgainFrom t' r
        → r ≡ again ds'
        → length (queue.contents t') < n
        → rounds_left ds' < n
    repeat_falls t' n r ds' a e h =
        let (free, same) = subst (AgainFrom t') e a in rw (free, same) (omega arith)

    round_falls_from :
        (t : T) (s : S) (held : Option AltDaCommitment) (items : List ByteList)
        (ds' : DataSource T S)
        → queue.contents t ≡ items
        → round alloy ethereum fetcher block
            (record { ethereum_source = t; eigenda_source = s; altda_commitment = held })
          ≡ again ds'
        → rounds_left ds'
          < rounds_left
              (record { ethereum_source = t; eigenda_source = s; altda_commitment = held })
    unfolding round on_local
    round_falls_from t s (some c) items ds' q e =
        repeat_falls t _ _ ds'
          (resolve-AgainFrom c
            (record { ethereum_source = t; eigenda_source = s; altda_commitment = some c }))
          e (omega arith)
    round_falls_from t s none [] ds' q e = let (t', h, q') = queue.next_nil t q in ground (arith, h)
    round_falls_from t s none (item ∷ items) ds' q e =
        let (t', h, q') = queue.next_cons t item items q in
        repeat_falls t' _ _ ds'
          (on_local_data-AgainFrom item
            (record { ethereum_source = t'; eigenda_source = s; altda_commitment = none }))
          (rw h at e) (omega (arith, ap length q, ap length q'))

    -- A round that repeats leaves fewer rounds to make.
    pub round_falls :
        (ds ds' : DataSource T S)
        → round alloy ethereum fetcher block ds ≡ again ds'
        → rounds_left ds' < rounds_left ds
    round_falls ds ds' =
        round_falls_from ds.ethereum_source ds.eigenda_source ds.altda_commitment
          (queue.contents ds.ethereum_source) ds' refl

    -- Over an Ethereum source that is a queue, `next` ends: with more fuel than data left in the
    -- block, and one more if a commitment is held, it returns a result.
    pub next_total :
        (fuel : ℕ) (ds : DataSource T S)
        → rounds_left ds < fuel
        → (result : Outcome PipelineErrorKind ByteList × DataSource T S) × (next alloy ethereum
              fetcher block fuel ds
            ≡ some result)
    unfolding next
    next_total zero ds h = absurd (omega arith)
    next_total (suc fuel) ds h = elim (Round-cases (round alloy ethereum fetcher block ds)) [
      | inl (result, ds', e) ↦ ((result, ds'), rw (e, next))
      | inr (ds', e) ↦ rw (e, next) (next_total fuel ds' (omega (arith, round_falls ds ds' e)))
    ]
