-- ===== src/Errors.antt =====
-- crates/eigenda/src/errors.rs: the errors of blob derivation, their display texts, and how each
-- becomes an error that the derivation acts on. Also the `Display` of `AltDACommitmentParseError`
-- (crates/eigenda-cert/src/altda_commitment.rs).
use Prim.Native.String.{◌++◌}
use hokulea.Base.{ℕ, String}
use hokulea.Base.Text.{decimal, hex_byte}
use hokulea.Cert.Commitment.{
  AltDaCommitmentParseError, insufficient_data, unsupported_commitment_type,
  unsupported_da_layer_type, unsupported_cert_version_type, invalid_rlp_cert,
}

-- `HokuleaErrorKind`
pub data HokuleaErrorKind : Type 0 where
  discard : String → HokuleaErrorKind
  temporary : String → HokuleaErrorKind
  critical : String → HokuleaErrorKind

pub data EncodedPayloadDecodingError : Type 0 where
  invalid_length_encoded_payload : ℕ → EncodedPayloadDecodingError
  invalid_power_of_two_length : ℕ → EncodedPayloadDecodingError
  invalid_header_first_byte : ℕ → EncodedPayloadDecodingError
  payload_too_short_for_header : (expected actual : ℕ) → EncodedPayloadDecodingError
  unknown_encoding_version : ℕ → EncodedPayloadDecodingError
  decoded_payload_body_too_short : (actual claimed : ℕ) → EncodedPayloadDecodingError
  invalid_first_byte_field_element_padding : ℕ → EncodedPayloadDecodingError
  invalid_encoded_payload_body_padding : ℕ → EncodedPayloadDecodingError
  invalid_encoded_payload_header_padding : ℕ → EncodedPayloadDecodingError

pub data HokuleaRecencyCheckError : Type 0 where
  not_recent_cert : HokuleaRecencyCheckError

pub data HokuleaStatelessError : Type 0 where
  insufficient_length_altda_commitment : HokuleaStatelessError
  parse_error : AltDaCommitmentParseError → HokuleaStatelessError
  decoding_error : EncodedPayloadDecodingError → HokuleaStatelessError
  recency_check_error : HokuleaRecencyCheckError → HokuleaStatelessError
  unsupported_offchain_derivation_version : ℕ → HokuleaStatelessError

pub data HokuleaPreimageError : Type 0 where
  invalid_cert : HokuleaPreimageError

-- `Display for AltDACommitmentParseError`
unfoldable pub parse_error_text : AltDaCommitmentParseError → String
unfolding decimal
parse_error_text insufficient_data = "Insufficient altda commitment data"
parse_error_text unsupported_commitment_type = "Unsupported commitment type"
parse_error_text unsupported_da_layer_type = "Unsupported da layer type"
parse_error_text (unsupported_cert_version_type v) = "Unsupported cert version type " ++ decimal v
parse_error_text (invalid_rlp_cert e) = "Unable to decode rlp cert: " ++ e

-- `Display for EncodedPayloadDecodingError`
unfoldable pub decoding_error_text : EncodedPayloadDecodingError → String
unfolding decimal hex_byte
decoding_error_text (invalid_length_encoded_payload n) =
    "invalid number of bytes in the encoded payload "
    ++ (decimal n ++ ", that is not multiple of bytes per field element")
decoding_error_text (invalid_power_of_two_length n) =
    "encoded payload must be a power of 2 field elements (32 bytes chunks), but got "
    ++ (decimal n ++ " field elements")
decoding_error_text (invalid_header_first_byte b) =
    "encoded payload header first byte must be 0x00, but got " ++ hex_byte b
decoding_error_text (payload_too_short_for_header expected actual) =
    "encoded payload must be at least "
    ++ (decimal expected
        ++ (" bytes long to contain a header, but got " ++ (decimal actual ++ " bytes")))
decoding_error_text (unknown_encoding_version v) =
    "unknown encoded payload header version: " ++ decimal v
decoding_error_text (decoded_payload_body_too_short actual claimed) =
    "length of unpadded data "
    ++ (decimal actual
        ++ (" is less than length claimed in encoded payload header " ++ decimal claimed))
decoding_error_text (invalid_first_byte_field_element_padding b) =
    "non-zero byte encountered in the first byte of multiples of 32 bytes: " ++ decimal b
decoding_error_text (invalid_encoded_payload_body_padding b) =
    "non-zero padding byte encountered in the encoded payload body: " ++ decimal b
decoding_error_text (invalid_encoded_payload_header_padding b) =
    "non-zero padding byte encountered in the encoded payload header: " ++ decimal b

-- `Display for HokuleaRecencyCheckError`
unfoldable pub recency_check_error_text : HokuleaRecencyCheckError → String
recency_check_error_text not_recent_cert = "da cert is not recent enough"

-- `From<HokuleaStatelessError> for HokuleaErrorKind`
unfoldable pub from_stateless : HokuleaStatelessError → HokuleaErrorKind
from_stateless insufficient_length_altda_commitment = discard "Insufficient EigenDA Cert Length"
from_stateless (parse_error e) = discard (parse_error_text e)
from_stateless (decoding_error e) = discard (decoding_error_text e)
from_stateless (recency_check_error e) = discard (recency_check_error_text e)
from_stateless (unsupported_offchain_derivation_version e) =
    critical ("cannot support offchain derivation version" ++ decimal e)

-- `From<HokuleaPreimageError> for HokuleaErrorKind`
unfoldable pub from_preimage_error : HokuleaPreimageError → HokuleaErrorKind
from_preimage_error invalid_cert =
    discard "da cert is invalid or inconsistent offchain code version"
