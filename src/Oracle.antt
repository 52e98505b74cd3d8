-- ===== src/Oracle.antt =====
-- crates/proof/src/eigenda_provider.rs, hint.rs and errors.rs: `OracleEigenDAPreimageProvider`, which
-- asks the host for a certificate's preimages through kona's oracle.
pub mod Hints
pub mod Keys
pub mod Fetch
pub mod Stored
pub mod Agreement
use Prim.Native.String.{◌++◌ as str_append}
use hokulea.Base.{
  ℕ, zero, suc, ◌+◌, ◌*◌, String, Bool, true, false, not, ◌||◌, List, [], ◌∷◌, ◌++◌, Outcome, ok,
  err, panic, ◌>>=◌, map_err, ◌==◌, if◌then◌else◌, leb, ◌&&◌, length, take, drop, set, replicate,
  get_elem?, or_panic,
}
use hokulea.Base.Bytes.{to_be_bytes}
use hokulea.Cert.{ByteList}
use hokulea.Cert.Codec.{Alloy}
use hokulea.Cert.Commitment.{AltDaCommitment, to_rlp_bytes, digest_template, get_num_field_element}
use hokulea.Errors.{HokuleaErrorKind, temporary, critical}
use hokulea.Payload.{EncodedPayload, bytes_per_field_element}
use hokulea.Provider.{
  Method, EigenDaPreimageProvider, reserved_eigenda_api_byte_index,
  reserved_eigenda_api_byte_for_validity,
}

-- `PreimageOracleError`: an I/O error, or another, with its display text
pub data PreimageOracleError : Type 0 where
  io_error other : String → PreimageOracleError

-- `HokuleaOracleProviderError`
pub data HokuleaOracleProviderError : Type 0 where
  preimage : PreimageOracleError → HokuleaOracleProviderError

-- `From<HokuleaOracleProviderError> for HokuleaErrorKind`
unfoldable pub from_oracle_error : HokuleaOracleProviderError → HokuleaErrorKind
from_oracle_error (preimage (io_error e)) =
    critical (str_append "HokuleaOracleProviderError::PreimageOracleError::IOError " e)
from_oracle_error (preimage (other e)) =
    temporary (str_append "HokuleaOracleProviderError::Preimage: " e)

-- What the client takes from kona and hex: the keys of kind `GlobalGeneric`, the names of kona's own
-- hints, `hex::encode`, and the oracle, an object with state `T`. `get_exact` reads into a buffer of the
-- given length.
pub record Kona (T K H : Type 0) : Type 0 where
  pub global_generic : ByteList → K
  pub hint_name : H → String
  pub hex_encode : ByteList → String
  pub write : String → Method T PreimageOracleError (Unit {0})
  pub get : K → Method T PreimageOracleError ByteList
  pub get_exact : K → ℕ → Method T PreimageOracleError ByteList

-- `ExtendedHintType`, over kona's `HintType`
pub data ExtendedHintType (H : Type 0) : Type 0 where
  original : H → ExtendedHintType H
  eigenda_cert : ExtendedHintType H

-- the 80 bytes whose hash is the key of the validity
unfoldable pub validity_address : Alloy → AltDaCommitment → ByteList
validity_address alloy c =
    set (digest_template alloy c) reserved_eigenda_api_byte_index
      reserved_eigenda_api_byte_for_validity

-- the template with the index of a field element in its last 8 bytes, `template[72..]`
unfoldable pub with_index : ByteList → ℕ → ByteList
with_index template i = take 72 template ++ to_be_bytes 8 i

-- `copy_from_slice` into the slice from `from` to `to`
unfoldable pub copy_into : ByteList → ℕ → ℕ → ByteList → ByteList
copy_into buffer from to bytes = take from buffer ++ (bytes ++ drop to buffer)

-- the rest of a round, at the field element that the oracle has returned
abbrev pub with_field_element :
    {T : Type 0}
    → (ByteList → Method T HokuleaOracleProviderError ByteList)
    → Outcome PreimageOracleError ByteList × T
    → Outcome HokuleaOracleProviderError ByteList × T
with_field_element next (ok field_element, t) = next field_element t
with_field_element next (err e, t) = (err (preimage e), t)
with_field_element next (panic, t) = (panic, t)

module _ {T K H : Type 0} (alloy : Alloy) (kona : Kona T K H) where
  -- `Display for ExtendedHintType`
  unfoldable pub hint_text : ExtendedHintType H → String
  hint_text eigenda_cert = "eigenda-certificate"
  hint_text (original h) = kona.hint_name h

  -- `encode_with`, at one piece of data
  unfoldable pub encode_with : ExtendedHintType H → ByteList → String
  unfolding hint_text
  encode_with h bytes = str_append (hint_text h) (str_append " " (kona.hex_encode bytes))

  -- the value of the validity that the oracle has returned
  unfoldable pub parse_validity : ByteList → Outcome HokuleaOracleProviderError Bool
  parse_validity [] = panic
  parse_validity (b ∷ []) = if b == 0 then ok false else if b == 1 then ok true else panic
  parse_validity (b ∷ c ∷ rest) = panic

  -- `get_validity`, behind the hint
  after_hint :
      AltDaCommitment
      → Outcome PreimageOracleError (Unit {0})
      → Method T HokuleaOracleProviderError Bool
  unfolding parse_validity
  after_hint c (ok u) t =
      let (answer, t') =
        kona.get (kona.global_generic (alloy.keccak256 (validity_address alloy c))) t in
      (map_err preimage answer >>= parse_validity, t')
  after_hint c (err e) t = (err (preimage e), t)
  after_hint c panic t = (panic, t)

  unfoldable pub get_validity : AltDaCommitment → Method T HokuleaOracleProviderError Bool
  unfolding after_hint encode_with
  get_validity c t =
      let (hinted, t') = kona.write (encode_with eigenda_cert (to_rlp_bytes alloy c)) t in
      after_hint c hinted t'

  -- `fetch_encoded_payload`: the loop, with the number of rounds left, the index, and the key as the
  -- last round has left it
  unfoldable pub fetch_encoded_payload :
      ℕ → ℕ → ByteList → ByteList → Method T HokuleaOracleProviderError ByteList
  unfolding with_index copy_into
  fetch_encoded_payload zero i key buffer t = (ok buffer, t)
  fetch_encoded_payload (suc left) i key buffer t =
      with_field_element
        (λ field_element t'.
          fetch_encoded_payload left (suc i) (with_index key i)
            (copy_into buffer (i * 32) (suc i * 32) field_element) t')
        (kona.get_exact (kona.global_generic (alloy.keccak256 (with_index key i))) 32 t)

  -- `get_encoded_payload`, behind the hint
  after_payload_hint :
      AltDaCommitment
      → Outcome PreimageOracleError (Unit {0})
      → Method T HokuleaOracleProviderError EncodedPayload
  unfolding fetch_encoded_payload
  after_payload_hint c (ok u) t =
      let blob_length_fe = get_num_field_element c in
      let (fetched, t') =
        fetch_encoded_payload blob_length_fe 0 (digest_template alloy c)
          (replicate (blob_length_fe * bytes_per_field_element) 0) t in
      (fetched >>= (λ bytes. ok (record { encoded_payload = bytes })), t')
  after_payload_hint c (err e) t = (err (preimage e), t)
  after_payload_hint c panic t = (panic, t)

  unfoldable pub get_encoded_payload :
      AltDaCommitment → Method T HokuleaOracleProviderError EncodedPayload
  unfolding after_payload_hint encode_with
  get_encoded_payload c t =
      let (hinted, t') = kona.write (encode_with eigenda_cert (to_rlp_bytes alloy c)) t in
      after_payload_hint c hinted t'

  -- `OracleEigenDAPreimageProvider`
  abbrev pub oracle : EigenDaPreimageProvider T HokuleaOracleProviderError
  oracle = record {
    get_validity = get_validity;
    get_encoded_payload = get_encoded_payload;
    into = from_oracle_error;
  }
