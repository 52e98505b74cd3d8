-- ===== src/Host/Proxy.antt =====
-- bin/host/src/eigenda_preimage.rs: `fetch_data_from_proxy`, which asks the proxy for a certificate's
-- preimages. The HTTP client and the texts of its errors are parameters.
use hokulea.Base.{
  ℕ, String, Bool, true, false, not, [], Outcome, ok, err, panic, ◌>>=◌, map_err, ◌==◌,
  if◌then◌else◌,
}
use hokulea.Cert.{ByteList}
use hokulea.Errors.{invalid_cert}
use hokulea.Host.Status.{
  HostHandlerError, hokulea_preimage_error, hokulea_recency_check_error,
  hokulea_encoded_payload_decoding_error, undefined_status_code_error, illogical_status_code_error,
  DerivationError, from_derivation_error, ProxyDerivationStage, HostError, failed_url, failed_fetch,
  failed_json, failed_body, failed_status, failed_response, http_response_status_code_teapot,
}

-- a response: its status, whether that is a success, and its body, as bytes and as JSON
pub record Response : Type 0 where
  pub status : ℕ
  pub is_success : Bool
  pub bytes : Outcome String ByteList
  pub json : Outcome String DerivationError

-- The HTTP client, with state `N`; `join` makes the URL `get/<hex>` with the query parameters that
-- ask for the encoded payload.
pub record Http (N : Type 0) : Type 1 where
  pub Url : Type 0
  pub join : ByteList → Outcome String Url
  pub send : Url → N → Outcome String Response × N

-- the `match` on the derivation error
unfoldable pub stage_of_error : HostHandlerError → Outcome HostError ProxyDerivationStage
stage_of_error (hokulea_preimage_error invalid_cert) =
    ok (record { is_valid_cert = false; pass_recency_check = true; encoded_payload = [] })
stage_of_error hokulea_recency_check_error =
    ok (record { is_valid_cert = true; pass_recency_check = false; encoded_payload = [] })
stage_of_error (hokulea_encoded_payload_decoding_error e) = err (failed_response e)
stage_of_error (illogical_status_code_error e) = err (failed_response e)
stage_of_error (undefined_status_code_error e) = err (failed_response e)

-- what a response comes to
unfoldable pub stage_of_response : Response → Outcome HostError ProxyDerivationStage
unfolding stage_of_error from_derivation_error
stage_of_response r =
    if not r.is_success
    then (if not (r.status == http_response_status_code_teapot)
        then err (failed_status r.status)
        else map_err failed_json r.json >>= (λ e. stage_of_error (from_derivation_error e)))
    else map_err failed_body r.bytes >>= (λ bytes.
      ok (record { is_valid_cert = true; pass_recency_check = true; encoded_payload = bytes }))

module _ {N : Type 0} (http : Http N) where
  -- `fetch_data_from_proxy`
  unfoldable pub fetch_data_from_proxy : ByteList → N → Outcome HostError ProxyDerivationStage × N
  unfolding stage_of_response
  fetch_data_from_proxy bytes n = elim (http.join bytes) [
    | err e ↦ (err (failed_url e), n)
    | panic ↦ (panic, n)
    | ok url ↦
        let (response, n') = http.send url n in
        (map_err failed_fetch response >>= stage_of_response, n')
  ]
