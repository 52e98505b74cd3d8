-- ===== src/DataSource/Late.antt =====
-- Rounds of `EigenDADataSource::next` (crates/eigenda/src/eigenda.rs) with a provider that fails for a
-- while.
use hokulea.Base.{
  ℕ, ◌≤◌, ◌<◌, ◌≡◌, ◌⊎◌, inl, inr, refl, Bool, true, Bool-cases, Option, none, some, [], ◌∷◌,
  String, Outcome, ok, err, panic, ◌==◌, arith,
}
use hokulea.Cert.{ByteList}
use hokulea.Cert.Codec.{Alloy}
use hokulea.Cert.Commitment.{AltDaCommitment, EigenDaVersionedCert, v2, v3, v4}
use hokulea.Errors.{HokuleaErrorKind, discard, HokuleaStatelessError, from_stateless}
use hokulea.Errors
use hokulea.Payload.{EncodedPayload, Checked, decode}
use hokulea.Provider.{EigenDaPreimageProvider}
use hokulea.Source
use hokulea.Source.{parse, check_recency, recency_window_of, recency_check, get_recency_window}
use hokulea.DataSource.{
  DataSource, Round, done, again, on_payload, resolve, on_parsed, on_local_data,
  altda_derivation_version,
}
use hokulea.DataSource.Derivation.{
  Fate, yields, skips, halts, stalls, crashes, payload_fate, cert_fate, parsed_fate, item_fate,
}
use hokulea.DataSource.Ethereum.{
  temporary, critical, not_enough_data, provider, Block, EthereumSource,
}

-- The provider answers a query, always in the same way, or fails with a temporary error; it has only so
-- many failures left.
pub record AnswersLate {S E : Type 0} (fetcher : EigenDaPreimageProvider S E) : Type 0 where
  pub valid : AltDaCommitment → Bool
  pub payload : AltDaCommitment → EncodedPayload
  pub failures : S → ℕ
  pub asks_validity :
      (c : AltDaCommitment) (s : S)
      → (s' : S) × (((fetcher.get_validity c s ≡ (ok (valid c), s')) × (failures s' ≤ failures s))
          ⊎ ((e : E) × (m : String) × (fetcher.get_validity c s ≡ (err e, s'))
              × (fetcher.into e ≡ Errors.temporary m)
              × (failures s' < failures s)))
  pub asks_payload :
      (c : AltDaCommitment) (s : S)
      → (s' : S) × (((fetcher.get_encoded_payload c s ≡ (ok (payload c), s'))
            × (failures s' ≤ failures s))
          ⊎ ((e : E) × (m : String) × (fetcher.get_encoded_payload c s ≡ (err e, s'))
              × (fetcher.into e ≡ Errors.temporary m)
              × (failures s' < failures s)))

from_stateless-ne-temporary :
    (e : HokuleaStatelessError) (m : String) → from_stateless e ≡ Errors.temporary m → ⊥
unfolding from_stateless
from_stateless-ne-temporary e m h = ground arith

module _ (commitment_type da_layer_byte : ℕ) where
  cert-ne-temporary :
      (cert : EigenDaVersionedCert) (l1_inclusion_bn : ℕ) (m : String)
      → let c : AltDaCommitment = record {
        commitment_type = commitment_type;
        da_layer_byte = da_layer_byte;
        versioned_cert = cert;
      } in
        check_recency c l1_inclusion_bn ≡ err (Errors.temporary m) → ⊥
  unfolding check_recency recency_window_of get_recency_window recency_check from_stateless
  cert-ne-temporary (v2 c) l1_inclusion_bn m h = ground arith
  cert-ne-temporary (v3 c) l1_inclusion_bn m h = ground arith
  cert-ne-temporary (v4 c) l1_inclusion_bn m h = ground arith

-- The recency checks fail with no temporary error.
check_recency-ne-temporary :
    (c : AltDaCommitment) (l1_inclusion_bn : ℕ) (m : String)
    → check_recency c l1_inclusion_bn ≡ err (Errors.temporary m)
    → ⊥
check_recency-ne-temporary c = cert-ne-temporary c.commitment_type c.da_layer_byte c.versioned_cert

module _ {T S E : Type 0} (alloy : Alloy) (ethereum : EthereumSource T)
    (fetcher : EigenDaPreimageProvider S E) (block : Block) where
  -- a data source with a commitment held, or none
  abbrev pub state : T → S → Option AltDaCommitment → DataSource T S
  state t s held = record { ethereum_source = t; eigenda_source = s; altda_commitment = held }

  module _ (answers : AnswersLate fetcher) where
    open answers use {valid, payload, failures}

    -- A round does what the fate of a datum says, without failures of the provider.
    abbrev pub Settles : T → S → Fate → Round T S → Type 0
    Settles t s (yields p) r =
        (s' : S) × (failures s' ≤ failures s) × (r ≡ done (ok p) (state t s' none))
    Settles t s skips r =
        (s' : S) × (failures s' ≤ failures s)
        × ((r ≡ again (state t s' none))
            ⊎ (r ≡ done (err (temporary not_enough_data)) (state t s' none)))
    Settles t s (halts e) r = (ds : DataSource T S) × (r ≡ done (err (critical (provider e))) ds)
    Settles t s (stalls e) r = ⊥
    Settles t s crashes r = (ds : DataSource T S) × (r ≡ done panic ds)

    -- A round fails with a temporary error of the provider, and the commitment is held.
    abbrev pub Stalls : T → S → AltDaCommitment → Round T S → Type 0
    Stalls t s c r =
        (s' : S) × (m : String) × (failures s' < failures s)
        × (r ≡ done (err (temporary (provider m))) (state t s' (some c)))

    abbrev pub Progress : T → S → AltDaCommitment → Round T S → Type 0
    Progress t s c r = Settles t s (cert_fate alloy block.number valid payload c) r ⊎ Stalls t s c r

    decoded-Settles :
        (encoded_payload : EncodedPayload) (t : T) (s s' : S) (held : Option AltDaCommitment)
        → failures s' ≤ failures s
        → Settles t s
            (payload_fate (decode encoded_payload))
            (on_payload alloy ethereum fetcher block (ok encoded_payload) (state t s' held))
    unfolding on_payload
    decoded-Settles encoded_payload t s s' held less =
        elim (decode encoded_payload)
          as (λ r. Settles t s (payload_fate r) (elim r [
            | ok c ↦ done (ok c) (state t s' none)
            | err e ↦ again (state t s' none)
            | panic ↦ done panic (state t s' held)
          ])) [
            | ok c ↦ (s', less, refl)
            | err e ↦ (s', less, inl refl)
            | panic ↦ (state t s' held, refl)
          ]

    -- a valid certificate, by the outcome of its recency check
    checked-Progress :
        (c : AltDaCommitment) (t : T) (s s1 : S) (checked : Outcome HokuleaErrorKind (Unit {0}))
        → valid c ≡ true
        → fetcher.get_validity c s ≡ (ok true, s1)
        → failures s1 ≤ failures s
        → check_recency c block.number ≡ checked
        → Progress t s c (resolve alloy ethereum fetcher block c (state t s (some c)))
    unfolding resolve Source.next on_payload
    checked-Progress c t s s1 (ok u) is_valid v less r =
        let (s2, asked) = answers.asks_payload c s1 in
        elim asked [
          | inl (p, less') ↦
              inl
                (rw (is_valid, v, r, p) (decoded-Settles (payload c) t s s2 (some c) (omega arith)))
          | inr (e, m, p, i, fewer) ↦ inr (s2, m, omega arith, rw (v, r, p, i))
        ]
    checked-Progress c t s s1 (err (discard e)) is_valid v less r =
        inl (rw (is_valid, r) (s1, less, inl (rw (v, r))))
    checked-Progress c t s s1 (err (Errors.temporary e)) is_valid v less r =
        absurd (check_recency-ne-temporary c block.number e r)
    checked-Progress c t s s1 (err (Errors.critical e)) is_valid v less r =
        inl (rw (is_valid, r) (state t s1 (some c), rw (v, r)))
    checked-Progress c t s s1 panic is_valid v less r =
        inl (rw (is_valid, r) (state t s1 (some c), rw (v, r)))

    pub resolve-Progress :
        (c : AltDaCommitment) (t : T) (s : S)
        → Progress t s c (resolve alloy ethereum fetcher block c (state t s (some c)))
    unfolding resolve Source.next Errors.from_preimage_error on_payload
    resolve-Progress c t s =
        let (s1, asked) = answers.asks_validity c s in
        elim asked [
          | inl (v, less) ↦ elim (Bool-cases (valid c)) [
            | inl is_valid ↦
                checked-Progress c t s s1 (check_recency c block.number) is_valid (rw is_valid at v)
                  less refl
            | inr invalid ↦ inl (rw invalid (s1, less, inl (rw (v, invalid))))
          ]
          | inr (e, m, v, i, fewer) ↦ inr (s1, m, fewer, rw (v, i))
        ]

    -- a datum of Ethereum, which may be a commitment that stalls
    abbrev pub Fated : T → S → Fate → Round T S → Type 0
    Fated t s fate r =
        Settles t s fate r
        ⊎ ((c : AltDaCommitment) × (fate ≡ cert_fate alloy block.number valid payload c)
            × Stalls t s c r)

    on_parsed-Fated :
        (p : Checked AltDaCommitment) (t : T) (s : S)
        → Fated t s
            (parsed_fate alloy block.number valid payload p)
            (on_parsed alloy ethereum fetcher block p (state t s none))
    unfolding on_parsed
    on_parsed-Fated (ok c) t s = elim (resolve-Progress c t s) [
      | inl settled ↦ inl settled
      | inr stalled ↦ inr (c, refl, stalled)
    ]
    on_parsed-Fated (err e) t s = inl (s, omega arith, inr refl)
    on_parsed-Fated panic t s = inl (state t s none, refl)

    pub on_local_data-Fated :
        (item : ByteList) (t : T) (s : S)
        → Fated t s
            (item_fate alloy block.number valid payload item)
            (on_local_data alloy ethereum fetcher block item (state t s none))
    unfolding on_local_data
    on_local_data-Fated [] t s = inl (s, omega arith, inr refl)
    on_local_data-Fated (first ∷ rest) t s = elim (Bool-cases (first == altda_derivation_version)) [
      | inl altda ↦ rw altda (on_parsed-Fated (parse alloy (first ∷ rest)) t s)
      | inr plain ↦ rw plain (inl (s, omega arith, refl))
    ]
