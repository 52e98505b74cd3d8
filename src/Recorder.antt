-- ===== src/Recorder.antt =====
-- crates/witgen/src/witness_provider.rs: a provider that wraps another and records each answer.
use hokulea.Base.{Bool, [], ◌∷◌, ◌++◌, Outcome, ok}
use hokulea.Cert.Commitment.{AltDaCommitment}
use hokulea.Payload.{EncodedPayload}
use hokulea.Provider.{Method, EigenDaPreimageProvider}
use hokulea.Witness.{EigenDaPreimage}

-- `OracleEigenDAPreimageProviderWithPreimage`, with the state of the provider inside
pub record Recorder (S : Type 0) : Type 0 where
  pub provider : S
  pub preimage : EigenDaPreimage

module _ {S E : Type 0} where
  -- what is pushed when the inner provider has answered
  unfoldable pub record_validity :
      AltDaCommitment → Outcome E Bool → S → EigenDaPreimage → Recorder S
  record_validity c (ok validity) s preimage = record {
    provider = s;
    preimage = record preimage { validities = preimage.validities ++ ((c, validity) ∷ []) };
  }
  record_validity c _ s preimage = record { provider = s; preimage = preimage }

  unfoldable pub record_payload :
      AltDaCommitment → Outcome E EncodedPayload → S → EigenDaPreimage → Recorder S
  record_payload c (ok payload) s preimage = record {
    provider = s;
    preimage = record preimage {
      encoded_payloads = preimage.encoded_payloads ++ ((c, payload) ∷ []);
    };
  }
  record_payload c _ s preimage = record { provider = s; preimage = preimage }

module _ {S E : Type 0} (inner : EigenDaPreimageProvider S E) where
  unfoldable pub get_validity : AltDaCommitment → Method (Recorder S) E Bool
  unfolding record_validity
  get_validity c r =
      let (answer, s) = inner.get_validity c r.provider in
      (answer, record_validity c answer s r.preimage)

  unfoldable pub get_encoded_payload : AltDaCommitment → Method (Recorder S) E EncodedPayload
  unfolding record_payload
  get_encoded_payload c r =
      let (answer, s) = inner.get_encoded_payload c r.provider in
      (answer, record_payload c answer s r.preimage)

  abbrev pub recording : EigenDaPreimageProvider (Recorder S) E
  recording = record {
    get_validity = get_validity;
    get_encoded_payload = get_encoded_payload;
    into = inner.into;
  }
