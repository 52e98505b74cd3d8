-- ===== src/Payload/Header.antt =====
-- What `check_zero`, `check_len_invariant` and `decode_header` accept
-- (crates/eigenda/src/eigenda_data.rs).
use hokulea.Base.{
  ℕ, zero, suc, ◌*◌, ◌/◌, ◌%◌, ◌^◌, ◌≤◌, ◌<◌, ◌≡◌, ◌↔◌, refl, sym, ap, ◌∙◌, true, [], ◌∷◌, ◌++◌, ok,
  length, take, drop, replicate, arith, length-take, take-append-drop, All,
}
use hokulea.Base.Bytes.{
  IsByte, to_be_bytes, from_be_bytes, from_be_bytes-to_be_bytes, word32_bytes, word32-lt,
}
use hokulea.Base.Powers.{pow_of_bit_and-pred, bit_and-pred_pow, pow-pos}
use hokulea.Cert.{ByteList}
use hokulea.Errors.{EncodedPayloadDecodingError, invalid_encoded_payload_header_padding}
use hokulea.Payload.{
  EncodedPayload, check_zero, check_len_invariant, decode_header, is_power_of_two, slice,
}
use hokulea.Payload.Layout.{header}

module _ (error : ℕ → EncodedPayloadDecodingError) where
  pub check_zero-replicate : (n : ℕ) → check_zero error (replicate n 0) ≡ ok tt
  unfolding check_zero
  check_zero-replicate zero = refl
  check_zero-replicate (suc n) = check_zero-replicate n

  -- The bytes that pass are all zero.
  pub check_zero_inversion :
      (bytes : ByteList) → check_zero error bytes ≡ ok tt → bytes ≡ replicate (length bytes) 0
  unfolding check_zero
  check_zero_inversion [] e = refl
  check_zero_inversion (b ∷ bytes) e = ground (arith, check_zero_inversion bytes)

-- The bit test accepts the powers of two.
pub is_power_of_two-pow : (j : ℕ) → is_power_of_two (2 ^ j) ≡ true
unfolding is_power_of_two
is_power_of_two-pow j = ground (arith, bit_and-pred_pow j, pow-pos j)

-- A number that passes the bit test is a power of two.
pub is_power_of_two_inversion : (n : ℕ) → is_power_of_two n ≡ true → (j : ℕ) × (n ≡ 2 ^ j)
unfolding is_power_of_two
is_power_of_two_inversion n e = pow_of_bit_and-pred n n (omega arith) (ground arith) (ground arith)

-- The length check accepts a payload exactly when its length is 32 times a power of two.
pub check_len_invariant_iff :
    (e : EncodedPayload)
    → (check_len_invariant e ≡ ok tt) ↔ ((j : ℕ) × (length e.encoded_payload ≡ 2 ^ j * 32))
unfolding check_len_invariant
check_len_invariant_iff e = (
  λ h.
      let whole : length e.encoded_payload % 32 ≡ 0 = ground arith in
      let (j, q) = is_power_of_two_inversion (length e.encoded_payload / 32) (ground arith) in
      (j, omega (arith, pow-pos j)),
  λ h.
      let q : length e.encoded_payload / 32 ≡ 2 ^ h.0 = omega (arith, h.1) in
      let p : is_power_of_two (length e.encoded_payload / 32) ≡ true =
        rw q (is_power_of_two-pow h.0) in
      ground (arith, h.1, pow-pos h.0),
)

pub decode_header-header :
    (len : ℕ) (body : ByteList)
    → len < 2 ^ 32
    → decode_header (record { encoded_payload = header len ++ body }) ≡ ok len
unfolding decode_header slice header to_be_bytes check_zero
decode_header-header len body h = ground (arith, from_be_bytes-to_be_bytes 4 len h)

-- the padding of the header, once it passed
zeros_then_rest :
    (rest : ByteList)
    → 26 ≤ length rest
    → check_zero invalid_encoded_payload_header_padding (take 26 rest) ≡ ok tt
    → rest ≡ replicate 26 0 ++ drop 26 rest
zeros_then_rest rest h e =
    let long : length (take 26 rest) ≡ 26 = omega (arith, length-take 26 rest) in
    sym (take-append-drop 26 rest)
    ∙ ap (λ t. t ++ drop 26 rest)
        (check_zero_inversion invalid_encoded_payload_header_padding (take 26 rest) e
          ∙ ap (λ n. replicate n 0) long)

-- What passes the header check begins with the header of the length that it returns.
pub decode_header_inversion :
    (bytes : ByteList) (len : ℕ)
    → All IsByte bytes
    → decode_header (record { encoded_payload = bytes }) ≡ ok len
    → (bytes ≡ header len ++ drop 32 bytes) × (len < 2 ^ 32)
unfolding decode_header slice header
decode_header_inversion (b0 ∷ b1 ∷ b2 ∷ b3 ∷ b4 ∷ b5 ∷ rest) len h e =
    let word : All IsByte (b2 ∷ b3 ∷ b4 ∷ b5 ∷ []) = omega arith in
    let padding : check_zero invalid_encoded_payload_header_padding (take 26 rest) ≡ ok tt =
      ground arith in
    let split : rest ≡ replicate 26 0 ++ drop 26 rest =
      zeros_then_rest rest (ground arith) padding in
    let read : len ≡ from_be_bytes (b2 ∷ b3 ∷ b4 ∷ b5 ∷ []) = ground arith in
    let first : b0 ≡ 0 = ground arith in
    let version : b1 ≡ 0 = ground arith in
    let written : to_be_bytes 4 len ≡ b2 ∷ b3 ∷ b4 ∷ b5 ∷ [] =
      ap (to_be_bytes 4) read ∙ word32_bytes b2 b3 b4 b5 word in
    (
      rw (first, version, written) (ap (λ t. 0 ∷ 0 ∷ b2 ∷ b3 ∷ b4 ∷ b5 ∷ t) split),
      rw read (word32-lt b2 b3 b4 b5 word),
    )
decode_header_inversion _ len h e = ground arith
