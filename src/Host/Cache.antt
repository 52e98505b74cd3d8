-- ===== src/Host/Cache.antt =====
-- bin/host/src/eigenda_preimage.rs: `OnlineEigenDAPreimageProvider`, a provider that asks the proxy
-- and keeps the last answer.
use hokulea.Base.{
  String, ◌≡◌, sym, ap, ap₂, ◌∙◌, Bool, Bool-cases, inl, inr, Option, none, some, Outcome, ok, err,
  panic, ◌>>=◌, >>=-eq-ok, ok-injective, if◌then◌else◌, arith,
}
use hokulea.Cert.Codec.{Alloy}
use hokulea.Cert.Commitment.{AltDaCommitment, to_rlp_bytes}
use hokulea.Errors.{HokuleaErrorKind, temporary}
use hokulea.Host.Proxy.{Http, fetch_data_from_proxy}
use hokulea.Host.Status.{HostError, ProxyDerivationStage}
use hokulea.Payload.{EncodedPayload}
use hokulea.Preloaded.Discrete.{same, same_refl, same-eq}
use hokulea.Provider.{Method, EigenDaPreimageProvider}

-- `OnlineEigenDAPreimageProvider`, with the state of its HTTP client
pub record Online (N : Type 0) : Type 0 where
  pub inner : N
  pub last_entry : Option (AltDaCommitment × ProxyDerivationStage)

-- `new_http`
unfoldable pub new_http : {N : Type 0} → N → Online N
new_http inner = record { inner = inner; last_entry = none }

module _ {N : Type 0} (alloy : Alloy) (http : Http N) (error_text : HostError → String) where
  -- the answer of the proxy, kept if there is one
  unfoldable pub remember :
      AltDaCommitment
      → Outcome HostError ProxyDerivationStage × N
      → Option (AltDaCommitment × ProxyDerivationStage)
      → Outcome HokuleaErrorKind ProxyDerivationStage × Online N
  remember c (ok stage, n) last_entry =
      (ok stage, record { inner = n; last_entry = some (c, stage) })
  remember c (err e, n) last_entry =
      (err (temporary (error_text e)), record { inner = n; last_entry = last_entry })
  remember c (panic, n) last_entry = (panic, record { inner = n; last_entry = last_entry })

  unfoldable pub fetch_uncached :
      AltDaCommitment → Method (Online N) HokuleaErrorKind ProxyDerivationStage
  unfolding remember
  fetch_uncached c o =
      remember c (fetch_data_from_proxy http (to_rlp_bytes alloy c) o.inner) o.last_entry

  -- `get_or_fetch_payload`
  unfoldable pub get_or_fetch_payload :
      AltDaCommitment → Method (Online N) HokuleaErrorKind ProxyDerivationStage
  unfolding fetch_uncached
  get_or_fetch_payload c o = elim o.last_entry [
    | none ↦ fetch_uncached c o
    | some (cached_commitment, cached_stage) ↦
        if same cached_commitment c then (ok cached_stage, o) else fetch_uncached c o
  ]

  unfoldable pub get_validity : AltDaCommitment → Method (Online N) HokuleaErrorKind Bool
  get_validity c o =
      let (stage, o') = get_or_fetch_payload c o in (stage >>= (λ s. ok s.is_valid_cert), o')

  unfoldable pub get_encoded_payload :
      AltDaCommitment → Method (Online N) HokuleaErrorKind EncodedPayload
  get_encoded_payload c o =
      let (stage, o') = get_or_fetch_payload c o in
      (stage >>= (λ s. ok (record { encoded_payload = s.encoded_payload })), o')

  abbrev pub online : EigenDaPreimageProvider (Online N) HokuleaErrorKind
  online = record {
    get_validity = get_validity;
    get_encoded_payload = get_encoded_payload;
    into = λ e. e;
  }

  get_or_fetch_payload-hit :
      (c : AltDaCommitment) (stage : ProxyDerivationStage) (o : Online N)
      → o.last_entry ≡ some (c, stage)
      → get_or_fetch_payload c o ≡ (ok stage, o)
  unfolding get_or_fetch_payload
  get_or_fetch_payload-hit c stage o h = simp (get_or_fetch_payload, h, same_refl c)

  remember_inversion :
      (c : AltDaCommitment) (fetched : Outcome HostError ProxyDerivationStage × N)
      (last_entry : Option (AltDaCommitment × ProxyDerivationStage)) (stage : ProxyDerivationStage)
      (o : Online N)
      → remember c fetched last_entry ≡ (ok stage, o)
      → o.last_entry ≡ some (c, stage)
  unfolding remember
  remember_inversion c (ok s, n) last_entry stage o h =
      let es : s ≡ stage = ok-injective (ap (λ t. t.0) h) in
      ap (λ t. t.1.last_entry) (sym h) ∙ ap (λ t. some (c, t)) es
  remember_inversion c (err e, n) last_entry stage o h = absurd (ground arith)
  remember_inversion c (panic, n) last_entry stage o h = absurd (ground arith)

  held_inversion :
      (c : AltDaCommitment) (n : N) (held : Option (AltDaCommitment × ProxyDerivationStage))
      (o' : Online N) (stage : ProxyDerivationStage)
      → get_or_fetch_payload c (record { inner = n; last_entry = held }) ≡ (ok stage, o')
      → o'.last_entry ≡ some (c, stage)
  unfolding get_or_fetch_payload fetch_uncached
  held_inversion c n none o' stage h = remember_inversion c _ none stage o' h
  held_inversion c n (some (cached, s)) o' stage h = elim (Bool-cases (same cached c)) [
    | inl hit ↦
        let h' = rw (get_or_fetch_payload, hit) at h in
        let es : s ≡ stage = ok-injective (ap (λ t. t.0) h') in
        let ec : cached ≡ c = same-eq cached c hit in
        ap (λ t. t.1.last_entry) (sym h') ∙ ap₂ (λ a b. some (a, b)) ec es
    | inr miss ↦
        let h' = rw (get_or_fetch_payload, miss) at h in
        remember_inversion c _ (some (cached, s)) stage o' h'
  ]

  -- an answer is always that of the entry it leaves behind
  get_or_fetch_payload_inversion :
      (c : AltDaCommitment) (o o' : Online N) (stage : ProxyDerivationStage)
      → get_or_fetch_payload c o ≡ (ok stage, o')
      → o'.last_entry ≡ some (c, stage)
  get_or_fetch_payload_inversion c o o' stage h = held_inversion c o.inner o.last_entry o' stage h

  -- Once the provider has answered `get_validity` for a commitment, whatever it held before,
  -- asking for the payload of the same commitment changes nothing: no request is sent, and the
  -- answer is from the same entry as the validity.
  pub get_encoded_payload-get_validity :
      (c : AltDaCommitment) (o o' : Online N) (v : Bool)
      → get_validity c o ≡ (ok v, o')
      → (stage : ProxyDerivationStage) × (o'.last_entry ≡ some (c, stage))
        × (stage.is_valid_cert ≡ v)
        × (get_encoded_payload c o' ≡ (ok (record { encoded_payload = stage.encoded_payload }), o'))
  unfolding get_validity get_encoded_payload
  get_encoded_payload-get_validity c o o' v h =
      let (stage, e, valid) = >>=-eq-ok (get_or_fetch_payload c o).0 _ (ap (λ t. t.0) h) in
      let answered : get_or_fetch_payload c o ≡ (ok stage, o') =
        ap₂ (λ a b. (a, b)) e (ap (λ t. t.1) h) in
      let held = get_or_fetch_payload_inversion c o o' stage answered in
      (stage, held, ok-injective valid, rw (get_or_fetch_payload-hit c stage o' held))
