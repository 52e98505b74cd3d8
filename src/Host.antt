-- ===== src/Host.antt =====
-- bin/host/src/handler.rs: the host's handler of a certificate hint, which fetches the certificate's
-- preimages and stores them under the keys that the client asks for.
pub mod Status
pub mod Proxy
pub mod Cache
pub mod Stored
use hokulea.Base.{
  ℕ, zero, suc, ◌+◌, ◌*◌, ◌/◌, ◌%◌, bit_and, String, Bool, true, false, not, ◌&&◌, List, [], ◌∷◌,
  Outcome, ok, err, panic, ◌>>=◌, ◌>>◌, assert, map_err, ltb, ◌==◌, if◌then◌else◌, length, take,
  drop, replicate,
}
use hokulea.Cert.{ByteList}
use hokulea.Cert.Codec.{Alloy}
use hokulea.Cert.Commitment.{
  AltDaCommitment, AltDaCommitmentParseError, try_from, digest_template, get_num_field_element,
}
use hokulea.Oracle.{ExtendedHintType, original, eigenda_cert, validity_address, with_index}
use hokulea.Host.Status.{HostError, failed_to_parse, invalid_field_element, ProxyDerivationStage}
use hokulea.Witness.{is_empty}

-- kona's key-value store, an object with state `V`; `global_generic` makes a key of that kind
pub record KeyValueStore (V K : Type 0) : Type 0 where
  pub set : K → ByteList → V → Outcome HostError V

-- `is_valid as u8`
abbrev pub byte_of_bool : Bool → ℕ
byte_of_bool true = 1
byte_of_bool false = 0

module _ {V K : Type 0} (alloy : Alloy) (global_generic : ByteList → K)
    (store : KeyValueStore V K) where
  unfoldable pub store_cert_validity : V → AltDaCommitment → Bool → Outcome HostError V
  store_cert_validity kv c is_valid =
      store.set (global_generic (alloy.keccak256 (validity_address alloy c)))
        (byte_of_bool is_valid ∷ []) kv

  -- the loop over `chunks_exact(32)`, with the number of chunks left
  unfoldable pub check_chunks : ℕ → ByteList → Outcome HostError (Unit {0})
  check_chunks zero bytes = ok tt
  check_chunks (suc left) [] = panic
  check_chunks (suc left) (b ∷ bytes) =
      if not (bit_and b 224 == 0)
      then err invalid_field_element
      else check_chunks left (drop 31 bytes)

  -- the loop that stores the field elements, with the rounds left, the index, and the key as the last
  -- round has left it
  unfoldable pub store_field_elements : ℕ → ℕ → ByteList → ByteList → V → Outcome HostError V
  unfolding with_index
  store_field_elements zero i key encoded_payload kv = ok kv
  store_field_elements (suc left) i key encoded_payload kv = do
    kv' ←
        store.set (global_generic (alloy.keccak256 (with_index key i)))
          (if ltb i (length encoded_payload / 32)
            then take 32 (drop (i * 32) encoded_payload)
            else replicate 32 0)
          kv
    store_field_elements left (suc i) (with_index key i) encoded_payload kv'

  unfoldable pub store_encoded_payload : V → AltDaCommitment → ByteList → Outcome HostError V
  unfolding check_chunks store_field_elements
  store_encoded_payload kv c encoded_payload = do
    assert ((length encoded_payload % 32 == 0) && not (is_empty encoded_payload))
    check_chunks (length encoded_payload / 32) encoded_payload
    store_field_elements (get_num_field_element c) 0 (digest_template alloy c) encoded_payload kv

  -- `fetch_eigenda_hint`
  unfoldable pub fetch_eigenda_hint :
      ByteList → (ByteList → Outcome HostError ProxyDerivationStage) → V → Outcome HostError V
  unfolding store_cert_validity store_encoded_payload
  fetch_eigenda_hint bytes fetch_data_from_proxy kv = do
    altda_commitment ← map_err failed_to_parse (try_from alloy bytes)
    stage ← fetch_data_from_proxy bytes
    kv' ← store_cert_validity kv altda_commitment stage.is_valid_cert
    if not stage.is_valid_cert
        then ok kv'
        else if not stage.pass_recency_check
        then ok kv'
        else store_encoded_payload kv' altda_commitment stage.encoded_payload

  -- `fetch_hint`: a hint of kona goes to kona's handler
  unfoldable pub fetch_hint :
      {H : Type 0}
      → (H → ByteList → V → Outcome HostError V)
      → (ByteList → Outcome HostError ProxyDerivationStage)
      → ExtendedHintType H
      → ByteList
      → V
      → Outcome HostError V
  unfolding fetch_eigenda_hint
  fetch_hint fetch_original_hint fetch_data_from_proxy eigenda_cert bytes kv =
      fetch_eigenda_hint bytes fetch_data_from_proxy kv
  fetch_hint fetch_original_hint fetch_data_from_proxy (original ty) bytes kv =
      fetch_original_hint ty bytes kv
