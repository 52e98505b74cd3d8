-- ===== src/Host/Status.antt =====
-- bin/host/src/status_code.rs, and the types of bin/host/src/eigenda_preimage.rs: what the proxy
-- says of a certificate.
use hokulea.Base.{ℕ, String, Bool, ◌==◌, if◌then◌else◌}
use hokulea.Cert.{ByteList}
use hokulea.Cert.Commitment.{AltDaCommitmentParseError}
use hokulea.Errors.{HokuleaPreimageError, invalid_cert}

abbrev pub http_response_status_code_teapot : ℕ
http_response_status_code_teapot = 418

abbrev pub status_code_cert_parse_error : ℕ
status_code_cert_parse_error = 1

abbrev pub status_code_recency_error : ℕ
status_code_recency_error = 2

abbrev pub status_code_invalid_cert : ℕ
status_code_invalid_cert = 3

abbrev pub status_code_blob_decoding_error : ℕ
status_code_blob_decoding_error = 4

pub record DerivationError : Type 0 where
  pub status_code : ℕ
  pub msg : String

pub data HostHandlerError : Type 0 where
  hokulea_preimage_error : HokuleaPreimageError → HostHandlerError
  hokulea_recency_check_error : HostHandlerError
  hokulea_encoded_payload_decoding_error : ℕ → HostHandlerError
  undefined_status_code_error : ℕ → HostHandlerError
  illogical_status_code_error : ℕ → HostHandlerError

-- `From<DerivationError> for HostHandlerError`
unfoldable pub from_derivation_error : DerivationError → HostHandlerError
from_derivation_error status =
    if status.status_code == status_code_invalid_cert
    then hokulea_preimage_error invalid_cert
    else if status.status_code == status_code_recency_error
    then hokulea_recency_check_error
    else if status.status_code == status_code_cert_parse_error
    then illogical_status_code_error status.status_code
    else if status.status_code == status_code_blob_decoding_error
    then hokulea_encoded_payload_decoding_error status.status_code
    else undefined_status_code_error status.status_code

pub record ProxyDerivationStage : Type 0 where
  pub is_valid_cert : Bool
  pub pass_recency_check : Bool
  pub encoded_payload : ByteList

-- the host's `anyhow` errors, by the place that makes them
pub data HostError : Type 0 where
  failed_to_parse : AltDaCommitmentParseError → HostError
  invalid_field_element : HostError
  failed_url failed_fetch failed_json failed_body : String → HostError
  failed_status failed_response : ℕ → HostError
  failed_store : String → HostError
