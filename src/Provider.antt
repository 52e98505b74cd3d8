-- ===== src/Provider.antt =====
-- crates/eigenda/src/traits.rs: `EigenDAPreimageProvider`. A provider has a state, which its methods
-- may change, and an error type that converts into `HokuleaErrorKind`.
use hokulea.Base.{ℕ, Bool, Outcome}
use hokulea.Cert.Commitment.{AltDaCommitment}
use hokulea.Errors.{HokuleaErrorKind}
use hokulea.Payload.{EncodedPayload}

-- a method of an object with state `S` that may fail with an `E`
abbrev pub Method : Type 0 → Type 0 → Type 0 → Type 0
Method S E A = S → Outcome E A × S

pub record EigenDaPreimageProvider (S E : Type 0) : Type 0 where
  pub get_validity : AltDaCommitment → Method S E Bool
  pub get_encoded_payload : AltDaCommitment → Method S E EncodedPayload
  pub into : E → HokuleaErrorKind

abbrev pub reserved_eigenda_api_byte_index : ℕ
reserved_eigenda_api_byte_index = 32

abbrev pub reserved_eigenda_api_byte_for_validity : ℕ
reserved_eigenda_api_byte_for_validity = 1
