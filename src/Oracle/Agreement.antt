-- ===== src/Oracle/Agreement.antt =====
-- The handler of a certificate hint (bin/host/src/handler.rs) and the provider of the client
-- (crates/proof/src/eigenda_provider.rs), over the same store.
use hokulea.Base.{
  ℕ, ◌+◌, ◌*◌, ◌^◌, ◌<◌, ◌≡◌, ◌⊎◌, inl, inr, some, true, Bool-cases, not, [], Outcome, ok,
  ok-injective, length, drop, replicate, length-replicate, length-take, length-drop, arith,
  if◌then◌else◌,
}
use hokulea.Cert.{ByteList}
use hokulea.Cert.Codec.{Alloy, IsAlloy}
use hokulea.Cert.Commitment.{AltDaCommitment, to_rlp_bytes, digest_template, get_num_field_element}
use hokulea.Cert.RoundTrip.{IsEigenDa}
use hokulea.Host.{KeyValueStore, store_encoded_payload, fetch_eigenda_hint}
use hokulea.Host.Status.{HostError, ProxyDerivationStage}
use hokulea.Host.Stored.{IsStore}
use hokulea.Oracle.{Kona, eigenda_cert, encode_with, with_index, get_validity, get_encoded_payload}
use hokulea.Oracle.Fetch.{element, fetch_encoded_payload-reads}
use hokulea.Oracle.Keys.{length-digest_template}
use hokulea.Oracle.Stored.{
  NoCollision, Serves, parse-byte_of_bool, stored_validity, stored_element, handled,
}

module _ {T V K H : Type 0} (alloy : Alloy) (is_alloy : IsAlloy alloy) (kona : Kona T K H)
    (store : KeyValueStore V K) (is_store : IsStore store) (serves : Serves kona store is_store)
    (proxy : ByteList → Outcome HostError ProxyDerivationStage) (c : AltDaCommitment)
    (is_eigenda : IsEigenDa c) (bounded : get_num_field_element c < 2 ^ 32)
    (no_collision : NoCollision alloy kona.global_generic c) (stage : ProxyDerivationStage)
    (fetched : proxy (to_rlp_bytes alloy c) ≡ ok stage) (t t' : T)
    (hinted : kona.write (encode_with alloy kona eigenda_cert (to_rlp_bytes alloy c)) t
      ≡ (ok tt, t'))
    (ran : fetch_eigenda_hint alloy kona.global_generic store
        (to_rlp_bytes alloy c)
        proxy
        (serves.view t)
      ≡ ok (serves.view t')) where
  either_stored :
      (kv1 kv' : V)
      → (if not stage.is_valid_cert
          then ok kv1
          else if not stage.pass_recency_check
          then ok kv1
          else store_encoded_payload alloy kona.global_generic store kv1 c stage.encoded_payload)
        ≡ ok kv'
      → (kv1 ≡ kv')
        ⊎ (store_encoded_payload alloy kona.global_generic store kv1 c stage.encoded_payload
            ≡ ok kv')
  either_stored kv1 kv' h = elim (Bool-cases stage.is_valid_cert) [
    | inl valid ↦ elim (Bool-cases stage.pass_recency_check) [
      | inl recent ↦ inr (rw (valid, recent) at h)
      | inr stale ↦ inl (ok-injective (rw (valid, stale) at h))
    ]
    | inr invalid ↦ inl (ok-injective (rw invalid at h))
  ]

  -- For a commitment of the EigenDA layer, with at most `2 ^ 32` field elements and no two
  -- addresses with the same key, over an oracle that reads the host's store: when the hint of the
  -- client has made the handler run on the proxy's answer, and the handler has succeeded, the
  -- client is told the validity that the proxy has given.
  pub get_validity-fetch_eigenda_hint : get_validity alloy kona c t ≡ (ok stage.is_valid_cert, t')
  unfolding get_validity
  get_validity-fetch_eigenda_hint =
      let (kv1, stored, rest) =
        handled alloy is_alloy kona.global_generic store is_store c bounded no_collision proxy stage
          (serves.view t) (serves.view t') is_eigenda fetched ran in
      let found =
        stored_validity alloy is_alloy kona.global_generic store is_store c bounded no_collision
          (serves.view t) kv1 (serves.view t') stage.is_valid_cert stage.encoded_payload stored
          (either_stored kv1 (serves.view t') rest) in
      rw (hinted, serves.reads _ t' _ found, parse-byte_of_bool alloy kona stage.is_valid_cert)

  -- Under the same conditions, when the proxy has called the certificate valid and recent and its
  -- payload has as many bytes as the certificate's field elements, the client gets the payload
  -- that the proxy has given.
  pub get_encoded_payload-fetch_eigenda_hint :
      stage.is_valid_cert ≡ true
      → stage.pass_recency_check ≡ true
      → length stage.encoded_payload ≡ get_num_field_element c * 32
      → get_encoded_payload alloy kona c t
        ≡ (ok (record { encoded_payload = stage.encoded_payload }), t')
  unfolding get_encoded_payload
  get_encoded_payload-fetch_eigenda_hint valid recent full =
      let (kv1, stored, rest) =
        handled alloy is_alloy kona.global_generic store is_store c bounded no_collision proxy stage
          (serves.view t) (serves.view t') is_eigenda fetched ran in
      let loop = rw (valid, recent) at rest in
      let fetched_all =
        fetch_encoded_payload-reads alloy kona t' (get_num_field_element c) 0
          (digest_template alloy c) [] (replicate (get_num_field_element c * 32) 0)
          stage.encoded_payload (omega (arith, length-digest_template alloy is_alloy c))
          (omega arith) full (length-replicate (get_num_field_element c * 32) 0)
          (λ j hj.
            exact j
              (stored_element alloy is_alloy kona.global_generic store is_store c bounded
                no_collision kv1 (serves.view t') stage.encoded_payload j full loop hj)
              hj) in
      rw (hinted, fetched_all)
    where
      exact :
          (j : ℕ)
          → is_store.find
              (serves.view t')
              (kona.global_generic (alloy.keccak256 (with_index (digest_template alloy c) j)))
            ≡ some (element stage.encoded_payload j)
          → j < get_num_field_element c
          → kona.get_exact
              (kona.global_generic (alloy.keccak256 (with_index (digest_template alloy c) (0 + j))))
              32
              t'
            ≡ (ok (element stage.encoded_payload j), t')
      exact j found hj =
          let l : length (element stage.encoded_payload j) ≡ 32 = omega (
            arith,
            length-take 32 (drop (j * 32) stage.encoded_payload),
            length-drop (j * 32) stage.encoded_payload,
          ) in
          let e : 0 + j ≡ j = omega arith in rw e (serves.reads_exact _ t' 32 _ found l)
