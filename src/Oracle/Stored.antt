-- ===== src/Oracle/Stored.antt =====
-- The store when the handler of a certificate hint (bin/host/src/handler.rs) has run, as the client
-- sees it.
use hokulea.Base.{
  ℕ, ◌*◌, ◌/◌, ◌%◌, ◌^◌, ◌<◌, ◌≡◌, ◌≢◌, ◌⊎◌, inl, inr, refl, sym, ap, ◌∙◌, some, Bool, true, false,
  not, ◌&&◌, [], ◌∷◌, append-nil, Outcome, ok, >>=-eq-ok, length, arith, if◌then◌else◌, assert,
  ◌==◌,
}
use hokulea.Cert.{ByteList}
use hokulea.Cert.Codec.{Alloy, IsAlloy}
use hokulea.Cert.Commitment.{
  AltDaCommitment, try_from, to_rlp_bytes, digest_template, get_num_field_element,
}
use hokulea.Cert.RoundTrip.{IsEigenDa, try_from-to_rlp_bytes}
use hokulea.Host.{
  KeyValueStore, store_cert_validity, store_field_elements, store_encoded_payload, check_chunks,
  fetch_eigenda_hint, byte_of_bool,
}
use hokulea.Host.Status.{HostError, ProxyDerivationStage}
use hokulea.Host.Stored.{IsStore, store_field_elements_other, store_field_elements_at}
use hokulea.Oracle.{Kona, validity_address, with_index, parse_validity}
use hokulea.Oracle.Fetch.{element}
use hokulea.Oracle.Keys.{with_index-injective, length-digest_template, validity_address-with_index}
use hokulea.Witness.{is_empty}

-- the addresses of the preimages of a certificate
abbrev pub IsAddress : Alloy → AltDaCommitment → ByteList → Type 0
IsAddress alloy c a =
    (a ≡ validity_address alloy c)
    ⊎ ((i : ℕ) × (i < get_num_field_element c) × (a ≡ with_index (digest_template alloy c) i))

-- No two addresses of the certificate have the same key.
abbrev pub NoCollision : {K : Type 0} → Alloy → (ByteList → K) → AltDaCommitment → Type 0
NoCollision alloy global_generic c =
    (a b : ByteList)
    → IsAddress alloy c a
    → IsAddress alloy c b
    → global_generic (alloy.keccak256 a) ≡ global_generic (alloy.keccak256 b)
    → a ≡ b

-- The oracle reads the store that the host writes, without changing it.
pub record Serves {T K H V : Type 0} (kona : Kona T K H) (store : KeyValueStore V K)
    (is_store : IsStore store) : Type 0 where
  pub view : T → V
  pub reads :
      (k : K) (t : T) (bytes : ByteList)
      → is_store.find (view t) k ≡ some bytes
      → kona.get k t ≡ (ok bytes, t)
  pub reads_exact :
      (k : K) (t : T) (n : ℕ) (bytes : ByteList)
      → is_store.find (view t) k ≡ some bytes
      → length bytes ≡ n
      → kona.get_exact k n t ≡ (ok bytes, t)

pub parse-byte_of_bool :
    {T K H : Type 0} (alloy : Alloy) (kona : Kona T K H) (b : Bool)
    → parse_validity alloy kona (byte_of_bool b ∷ []) ≡ ok b
unfolding parse_validity
parse-byte_of_bool alloy kona true = refl
parse-byte_of_bool alloy kona false = refl

module _ {V K : Type 0} (alloy : Alloy) (is_alloy : IsAlloy alloy) (global_generic : ByteList → K)
    (store : KeyValueStore V K) (is_store : IsStore store) (c : AltDaCommitment)
    (bounded : get_num_field_element c < 2 ^ 32)
    (no_collision : NoCollision alloy global_generic c) where
  abbrev key_of : ByteList → K
  key_of a = global_generic (alloy.keccak256 a)

  abbrev element_key : ℕ → K
  element_key i = key_of (with_index (digest_template alloy c) i)

  element_key-injective :
      (i j : ℕ)
      → i < get_num_field_element c
      → j < get_num_field_element c
      → element_key i ≡ element_key j
      → i ≡ j
  element_key-injective i j hi hj e =
      with_index-injective (digest_template alloy c) i j
        (omega (arith, length-digest_template alloy is_alloy c)) (omega arith) (omega arith)
        (no_collision _ _ (inr (i, hi, refl)) (inr (j, hj, refl)) e)

  validity_key-ne :
      (i : ℕ) → i < get_num_field_element c → key_of (validity_address alloy c) ≢ element_key i
  validity_key-ne i hi e =
      validity_address-with_index alloy is_alloy c i
        (no_collision _ _ (inl refl) (inr (i, hi, refl)) e)

  -- what `store_encoded_payload` comes to
  stored_loop :
      (kv kv' : V) (bytes : ByteList)
      → store_encoded_payload alloy global_generic store kv c bytes ≡ ok kv'
      → store_field_elements alloy global_generic store
          (get_num_field_element c)
          0
          (digest_template alloy c)
          bytes
          kv
        ≡ ok kv'
  unfolding store_encoded_payload
  stored_loop kv kv' bytes h =
      let (u, a, h1) = >>=-eq-ok (assert ((length bytes % 32 == 0) && not (is_empty bytes))) _ h in
      let (u2, b, h2) =
        >>=-eq-ok (check_chunks alloy global_generic store (length bytes / 32) bytes) _ h1 in
      h2

  -- the validity is found, whatever is stored after it
  pub stored_validity :
      (kv kv1 kv' : V) (b : Bool) (bytes : ByteList)
      → store_cert_validity alloy global_generic store kv c b ≡ ok kv1
      → (kv1 ≡ kv') ⊎ (store_encoded_payload alloy global_generic store kv1 c bytes ≡ ok kv')
      → is_store.find kv' (key_of (validity_address alloy c)) ≡ some (byte_of_bool b ∷ [])
  unfolding store_cert_validity
  stored_validity kv kv1 kv' b bytes h (inl e) = rw (← e) (is_store.find_set _ _ kv kv1 h)
  stored_validity kv kv1 kv' b bytes h (inr e) =
      store_field_elements_other alloy global_generic store is_store (get_num_field_element c) 0
        (digest_template alloy c) bytes kv1 kv' (key_of (validity_address alloy c))
        (omega (arith, length-digest_template alloy is_alloy c)) (stored_loop kv1 kv' bytes e)
        (λ j hi hj. validity_key-ne j (omega arith))
      ∙ is_store.find_set _ _ kv kv1 h

  -- so is each field element of a payload that is long enough
  pub stored_element :
      (kv1 kv' : V) (bytes : ByteList) (i : ℕ)
      → length bytes ≡ get_num_field_element c * 32
      → store_encoded_payload alloy global_generic store kv1 c bytes ≡ ok kv'
      → i < get_num_field_element c
      → is_store.find kv' (element_key i) ≡ some (element bytes i)
  stored_element kv1 kv' bytes i hl e hi =
      store_field_elements_at alloy global_generic store is_store (get_num_field_element c) 0
        (digest_template alloy c) bytes kv1 kv' i
        (omega (arith, length-digest_template alloy is_alloy c)) (omega arith)
        (stored_loop kv1 kv' bytes e)
        (λ a b ha hb. element_key-injective a b (omega arith) (omega arith)) (omega arith)
        (omega arith)

  -- what the handler has done when it has succeeded
  pub handled :
      (proxy : ByteList → Outcome HostError ProxyDerivationStage) (stage : ProxyDerivationStage)
      (kv kv' : V)
      → IsEigenDa c
      → proxy (to_rlp_bytes alloy c) ≡ ok stage
      → fetch_eigenda_hint alloy global_generic store (to_rlp_bytes alloy c) proxy kv ≡ ok kv'
      → (kv1 : V) × (store_cert_validity alloy global_generic store kv c stage.is_valid_cert
          ≡ ok kv1)
        × ((if not stage.is_valid_cert
              then ok kv1
              else if not stage.pass_recency_check
              then ok kv1
              else store_encoded_payload alloy global_generic store kv1 c stage.encoded_payload)
            ≡ ok kv')
  unfolding fetch_eigenda_hint
  handled proxy stage kv kv' is_eigenda fetched h =
      let parsed : try_from alloy (to_rlp_bytes alloy c) ≡ ok c =
        ap (try_from alloy) (sym (append-nil (to_rlp_bytes alloy c)))
        ∙ try_from-to_rlp_bytes alloy is_alloy c [] is_eigenda in
      let h' = rw (fetch_eigenda_hint, parsed, fetched) at h in
      >>=-eq-ok (store_cert_validity alloy global_generic store kv c stage.is_valid_cert) _ h'
