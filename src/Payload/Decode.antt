-- ===== src/Payload/Decode.antt =====
-- `decode` (crates/eigenda/src/eigenda_data.rs) against the layout of encoding version 0.
use hokulea.Base.{
  ℕ, ◌-◌, ◌*◌, ◌^◌, ◌≤◌, ◌<◌, ◌≡◌, refl, sym, ap, ap₂, ◌∙◌, ◌++◌, ok, err, ◌>>=◌, ◌>>◌, length,
  take, drop, replicate, arith, length-append, length-take, length-drop, take-append, drop-append,
  take-append-drop, take_of_length-le, All, >>=-eq-ok, ok-injective, ltb, ltb→le, le→ltb,
  Bool-cases, inl, inr, if◌then◌else◌,
}
use hokulea.Base.Bytes.{IsByte}
use hokulea.Base.Powers.{pow-pos}
use hokulea.Cert.{ByteList}
use hokulea.Errors.{
  decoding_error, decoded_payload_body_too_short, invalid_encoded_payload_body_padding,
}
use hokulea.Payload.{
  EncodedPayload, Checked, slice, check_zero, check_len_invariant, decode_header,
  check_and_remove_zero_padding_for_field_elements, decode_payload, decode,
}
use hokulea.Payload.Layout.{
  pad_chunks, header, layout, IsLayout, length-header, length-padded, length-layout,
}
use hokulea.Payload.Chunks.{remove_zero_padding-pad_chunks, remove_zero_padding_inversion}
use hokulea.Payload.Header.{
  check_zero-replicate, check_zero_inversion, check_len_invariant_iff, decode_header-header,
  decode_header_inversion,
}

pub slice_from :
    (k : ℕ) (bytes : ByteList) → k ≤ length bytes → slice bytes k (length bytes) ≡ ok (drop k bytes)
unfolding slice
slice_from k bytes h =
    ground (arith, take_of_length-le (length bytes - k) (drop k bytes), length-drop k bytes)

pub slice_to : (k : ℕ) (bytes : ByteList) → k ≤ length bytes → slice bytes 0 k ≡ ok (take k bytes)
unfolding slice
slice_to k bytes h = ground arith

-- The end of `decode_payload`: the length and the padding of a decoded body are checked.
unfoldable pub unpad : ByteList → ℕ → Checked ByteList
unpad decoded_body payload_len =
    if ltb (length decoded_body) payload_len
    then err (decoding_error (decoded_payload_body_too_short (length decoded_body) payload_len))
    else do
      padding ← slice decoded_body payload_len (length decoded_body)
      check_zero invalid_encoded_payload_body_padding padding
      slice decoded_body 0 payload_len

pub decode_payload-eq-unpad :
    (bytes : ByteList) (len : ℕ)
    → 32 ≤ length bytes
    → decode_payload (record { encoded_payload = bytes }) len ≡ (
        check_and_remove_zero_padding_for_field_elements (drop 32 bytes) >>= λ body. unpad body len)
unfolding decode_payload unpad
decode_payload-eq-unpad bytes len h = rw (slice_from 32 bytes h)

unpad_padded :
    (payload : ByteList) (n : ℕ) → unpad (payload ++ replicate n 0) (length payload) ≡ ok payload
unfolding unpad
unpad_padded payload n =
    let body = payload ++ replicate n 0 in
    let fits : length payload ≤ length body =
      omega (arith, length-append payload (replicate n 0)) in
    rw (
      le→ltb (length body) (length payload) fits,
      slice_from (length payload) body fits,
      drop-append (length payload) payload (replicate n 0) refl,
      check_zero-replicate invalid_encoded_payload_body_padding n,
      slice_to (length payload) body fits,
      take-append (length payload) payload (replicate n 0) refl,
    )

unpad_inversion :
    (body payload : ByteList) (len : ℕ)
    → unpad body len ≡ ok payload
    → (body ≡ payload ++ replicate (length body - len) 0)
      × (length payload ≡ len)
      × (len ≤ length body)
unfolding unpad
unpad_inversion body payload len e = elim (Bool-cases (ltb (length body) len)) [
  | inl short ↦ ground arith
  | inr long ↦
      let fits : len ≤ length body = ltb→le (length body) len long in
      let (unit, padding, rest) =
        >>=-eq-ok (check_zero invalid_encoded_payload_body_padding (drop len body)) _
          (rw (long, slice_from len body fits, slice_to len body fits) at e) in
      let whole : take len body ≡ payload = ok-injective rest in
      let zeros : drop len body ≡ replicate (length body - len) 0 =
        check_zero_inversion invalid_encoded_payload_body_padding (drop len body) padding
        ∙ ap (λ n. replicate n 0) (length-drop len body) in
      (
        sym (take-append-drop len body) ∙ cc,
        omega (arith, length-take len body, ap length whole),
        fits,
      )
]

-- Completeness: `decode` returns the payload of every layout in a power of two of field elements.
pub decode-layout :
    (log : ℕ) (bytes payload : ByteList)
    → IsLayout log bytes payload
    → decode (record { encoded_payload = bytes }) ≡ ok payload
unfolding decode layout
decode-layout log bytes payload h =
    let elements : ℕ = 2 ^ log - 1 in
    let padded = payload ++ replicate (elements * 31 - length payload) 0 in
    let body = pad_chunks 31 elements padded in
    let long_padded = length-padded elements payload h.fits in
    let long : length (header (length payload) ++ body) ≡ 2 ^ log * 32 =
      ap length (sym h.laid_out) ∙ length-layout h in
    rw (
      h.laid_out,
      (check_len_invariant_iff (record { encoded_payload = header (length payload) ++ body })).1
          (log, long),
      decode_header-header (length payload) body h.fits_u32,
      decode_payload-eq-unpad (header (length payload) ++ body) (length payload)
          (omega (arith, pow-pos log)),
      drop-append 32 (header (length payload)) body (length-header (length payload)),
      remove_zero_padding-pad_chunks elements padded long_padded,
      unpad_padded payload (elements * 31 - length payload),
    )

-- the parts that `decode` has found, put together
IsLayout-of_parts :
    (log len count : ℕ) (bytes payload body : ByteList)
    → length payload ≡ len
    → len < 2 ^ 32
    → bytes ≡ header len ++ drop 32 bytes
    → drop 32 bytes ≡ pad_chunks 31 count body
    → length body ≡ count * 31
    → body ≡ payload ++ replicate (length body - len) 0
    → len ≤ length body
    → count ≡ 2 ^ log - 1
    → IsLayout log bytes payload
unfolding layout
IsLayout-of_parts log len count bytes payload body l small starts padded long whole le c =
    let rest : length body - len ≡ (2 ^ log - 1) * 31 - length payload =
      omega (arith, ap (λ (t : ℕ). t * 31) c) in
    record {
      fits = omega (arith, ap (λ (t : ℕ). t * 31) c);
      fits_u32 = rw l small;
      laid_out =
          starts
          ∙ ap₂ ◌++◌ (ap header (sym l))
              (padded ∙ ap₂ (pad_chunks 31) c (whole ∙ ap (λ n. payload ++ replicate n 0) rest));
    }

-- Soundness: a list of bytes that `decode` accepts is the layout of the payload that it returns,
-- in a power of two of field elements.
pub decode_inversion :
    (bytes payload : ByteList)
    → All IsByte bytes
    → decode (record { encoded_payload = bytes }) ≡ ok payload
    → (log : ℕ) × IsLayout log bytes payload
unfolding decode
decode_inversion bytes payload small e =
    let e0 : EncodedPayload = record { encoded_payload = bytes } in
    let (unit, checked, e1) = >>=-eq-ok (check_len_invariant e0) _ e in
    let (len, head, e2) = >>=-eq-ok (decode_header e0) _ e1 in
    let (log, long) = (check_len_invariant_iff e0).0 checked in
    let (starts, len_fits) = decode_header_inversion bytes len small head in
    let at_least : 32 ≤ length bytes = omega (arith, long, pow-pos log) in
    let (body, stripped, e3) =
      >>=-eq-ok (check_and_remove_zero_padding_for_field_elements (drop 32 bytes)) _
        (sym (decode_payload-eq-unpad bytes len at_least) ∙ e2) in
    let (count, padded, body_long, out_long) =
      remove_zero_padding_inversion (drop 32 bytes) body stripped in
    let (whole, payload_len, len_le) = unpad_inversion body payload len e3 in
    let elements : count ≡ 2 ^ log - 1 = omega (arith, length-drop 32 bytes) in
    (
      log,
      IsLayout-of_parts log len count bytes payload body payload_len len_fits starts padded out_long
          whole len_le elements,
    )
