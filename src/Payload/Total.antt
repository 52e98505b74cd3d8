-- ===== src/Payload/Total.antt =====
-- The outcomes of `decode` (crates/eigenda/src/eigenda_data.rs) on arbitrary bytes.
use hokulea.Base.{
  ℕ, zero, suc, ◌*◌, ◌/◌, ◌%◌, ◌^◌, ◌≤◌, ◌≡◌, ◌≢◌, sym, ap, ◌∙◌, [], ◌∷◌, ◌++◌, ok, panic, length,
  take, drop, arith, length-take, length-drop, All, >>=-ne-panic, Bool-cases, inl, inr, ◌==◌, ltb,
  ltb→le,
}
use hokulea.Base.Bytes.{IsByte}
use hokulea.Base.Powers.{pow-pos}
use hokulea.Cert.{ByteList}
use hokulea.Errors.{
  EncodedPayloadDecodingError, invalid_encoded_payload_body_padding,
  invalid_encoded_payload_header_padding,
}
use hokulea.Payload.{
  EncodedPayload, slice, check_zero, check_len_invariant, decode_header, strip_chunks,
  check_and_remove_zero_padding_for_field_elements, decode,
}
use hokulea.Payload.Layout.{layout, length-layout}
use hokulea.Payload.Header.{check_len_invariant_iff}
use hokulea.Payload.Decode.{decode_inversion, unpad, decode_payload-eq-unpad, slice_from, slice_to}

check_zero-ne-panic :
    (error : ℕ → EncodedPayloadDecodingError) (bytes : ByteList) → check_zero error bytes ≢ panic
unfolding check_zero
check_zero-ne-panic error [] = λ h. cc
check_zero-ne-panic error (b ∷ bytes) = ground (arith, check_zero-ne-panic error bytes)

check_len_invariant-ne-panic : (e : EncodedPayload) → check_len_invariant e ≢ panic
unfolding check_len_invariant
check_len_invariant-ne-panic e = ground arith

decode_header-ne-panic :
    (bytes : ByteList) → decode_header (record { encoded_payload = bytes }) ≢ panic
unfolding decode_header slice
decode_header-ne-panic (b0 ∷ b1 ∷ b2 ∷ b3 ∷ b4 ∷ b5 ∷ rest) =
    ground (arith, check_zero-ne-panic invalid_encoded_payload_header_padding (take 26 rest))
decode_header-ne-panic bytes = ground arith

strip_chunks-ne-panic :
    (w count : ℕ) (body acc : ByteList)
    → length body ≡ count * suc w
    → strip_chunks (suc w) count body acc ≢ panic
unfolding strip_chunks slice
strip_chunks-ne-panic w zero body acc h = λ e. cc
strip_chunks-ne-panic w (suc count) [] acc h = absurd (omega arith)
strip_chunks-ne-panic w (suc count) (b ∷ body) acc h = ground (
  arith,
  length-take w body,
  strip_chunks-ne-panic w count (drop w body) (acc ++ take w (take w body))
      (omega (arith, length-drop w body)),
)

remove_zero_padding-ne-panic :
    (body : ByteList) → check_and_remove_zero_padding_for_field_elements body ≢ panic
unfolding check_and_remove_zero_padding_for_field_elements
remove_zero_padding-ne-panic body = elim (Bool-cases (length body % 32 == 0)) [
  | inl whole ↦ rw whole (strip_chunks-ne-panic 31 (length body / 32) body [] (ground arith))
  | inr part ↦ ground arith
]

unpad-ne-panic : (body : ByteList) (len : ℕ) → unpad body len ≢ panic
unfolding unpad
unpad-ne-panic body len = elim (Bool-cases (ltb (length body) len)) [
  | inl short ↦ ground arith
  | inr long ↦
      let fits : len ≤ length body = ltb→le (length body) len long in
      rw (long, slice_from len body fits, slice_to len body fits)
        (>>=-ne-panic (check_zero invalid_encoded_payload_body_padding (drop len body)) _
          (check_zero-ne-panic _ (drop len body)) (λ a h. ground arith))
]

-- Decoding ends in a payload or in an error value, whatever the bytes.
pub decode-ne-panic : (bytes : ByteList) → decode (record { encoded_payload = bytes }) ≢ panic
unfolding decode
decode-ne-panic bytes =
    let e : EncodedPayload = record { encoded_payload = bytes } in
    >>=-ne-panic (check_len_invariant e) _ (check_len_invariant-ne-panic e) λ u checked.
      >>=-ne-panic (decode_header e) _ (decode_header-ne-panic bytes) λ len h.
        let (log, long) = (check_len_invariant_iff e).0 checked in
        rw (decode_payload-eq-unpad bytes len (omega (arith, pow-pos log))) (
          >>=-ne-panic (check_and_remove_zero_padding_for_field_elements (drop 32 bytes)) _
            (remove_zero_padding-ne-panic (drop 32 bytes)) (λ body _. unpad-ne-panic body len))

-- Two encoded payloads of bytes, of the same length, that decode to the same payload are the same
-- bytes.
pub decode_canonical :
    (a b payload : ByteList)
    → All IsByte a
    → All IsByte b
    → length a ≡ length b
    → decode (record { encoded_payload = a }) ≡ ok payload
    → decode (record { encoded_payload = b }) ≡ ok payload
    → a ≡ b
decode_canonical a b payload ba bb l ea eb =
    let (m, la) = decode_inversion a payload ba ea in
    let (n, lb) = decode_inversion b payload bb eb in
    let same : 2 ^ m ≡ 2 ^ n = omega (arith, length-layout la, length-layout lb) in
    la.laid_out ∙ ap (λ k. layout k payload) same ∙ sym lb.laid_out
