-- ===== src/Payload.antt =====
-- crates/eigenda/src/eigenda_data.rs and constant.rs: `EncodedPayload` and its decoding. An index or
-- a slice out of range is `panic`.
pub mod Layout
pub mod Chunks
pub mod Header
pub mod Decode
pub mod Total
use hokulea.Base.{
  ℕ, zero, suc, ◌+◌, ◌-◌, ◌*◌, ◌/◌, ◌%◌, bit_and, Bool, not, ◌&&◌, Option, none, some, List, [],
  ◌∷◌, ◌++◌, Outcome, ok, err, panic, ◌>>=◌, ◌>>◌, or_panic, ltb, leb, ◌==◌, if◌then◌else◌, length,
  get_elem?, take, drop,
}
use hokulea.Base.Bytes.{from_be_bytes}
use hokulea.Cert.{ByteList}
use hokulea.Errors.{
  HokuleaStatelessError, decoding_error, EncodedPayloadDecodingError,
  invalid_length_encoded_payload, invalid_power_of_two_length, invalid_header_first_byte,
  payload_too_short_for_header, unknown_encoding_version, decoded_payload_body_too_short,
  invalid_first_byte_field_element_padding, invalid_encoded_payload_body_padding,
  invalid_encoded_payload_header_padding,
}

abbrev pub payload_encoding_version_0 : ℕ
payload_encoding_version_0 = 0

abbrev pub bytes_per_field_element : ℕ
bytes_per_field_element = 32

abbrev pub encoded_payload_header_len_bytes : ℕ
encoded_payload_header_len_bytes = 32

pub record EncodedPayload : Type 0 where
  pub encoded_payload : ByteList

abbrev pub Checked {ℓ} : Type ℓ → Type ℓ
Checked A = Outcome HokuleaStatelessError A

-- `Err(e.into())`
abbrev reject {ℓ} : {A : Type ℓ} → EncodedPayloadDecodingError → Checked A
reject e = err (decoding_error e)

-- `bytes[from..to]`
unfoldable pub slice : ByteList → ℕ → ℕ → Checked ByteList
slice bytes from to =
    if leb from to && leb to (length bytes) then ok (take (to - from) (drop from bytes)) else panic

unfoldable pub deserialize : ByteList → EncodedPayload
deserialize bytes = record { encoded_payload = bytes }

unfoldable pub serialize : EncodedPayload → ByteList
serialize e = e.encoded_payload

unfoldable pub num_field_element : EncodedPayload → ℕ
num_field_element e = length e.encoded_payload / bytes_per_field_element

unfoldable pub is_power_of_two : ℕ → Bool
is_power_of_two n = not (n == 0) && (bit_and n (n - 1) == 0)

unfoldable pub check_len_invariant : EncodedPayload → Checked (Unit {0})
check_len_invariant e =
    let len = length e.encoded_payload in
    if ltb len encoded_payload_header_len_bytes
    then reject (payload_too_short_for_header encoded_payload_header_len_bytes len)
    else if not (len % bytes_per_field_element == 0)
    then reject (invalid_length_encoded_payload len)
    else if not (is_power_of_two (len / bytes_per_field_element))
    then reject (invalid_power_of_two_length (len / bytes_per_field_element))
    else ok tt

-- `for b in bytes { if *b != 0x00 { return Err(error(*b)) } }`
unfoldable pub check_zero : (ℕ → EncodedPayloadDecodingError) → ByteList → Checked (Unit {0})
check_zero error [] = ok tt
check_zero error (b ∷ bytes) = if not (b == 0) then reject (error b) else check_zero error bytes

unfoldable pub decode_header : EncodedPayload → Checked ℕ
decode_header e =
    let bytes = e.encoded_payload in
    if ltb (length bytes) encoded_payload_header_len_bytes
    then reject (payload_too_short_for_header encoded_payload_header_len_bytes (length bytes))
    else do
      first ← or_panic (get_elem? bytes 0)
      if not (first == 0) then reject (invalid_header_first_byte first) else do
        version ← or_panic (get_elem? bytes 1)
        if not (version == payload_encoding_version_0)
            then reject (unknown_encoding_version version)
            else do
              b2 ← or_panic (get_elem? bytes 2)
              b3 ← or_panic (get_elem? bytes 3)
              b4 ← or_panic (get_elem? bytes 4)
              b5 ← or_panic (get_elem? bytes 5)
              padding ← slice bytes 6 encoded_payload_header_len_bytes
              check_zero invalid_encoded_payload_header_padding padding
              ok (from_be_bytes (b2 ∷ b3 ∷ b4 ∷ b5 ∷ []))

-- the loop over `chunks_exact(width)`, with the number of chunks left
unfoldable pub strip_chunks : ℕ → ℕ → ByteList → ByteList → Checked ByteList
strip_chunks width zero body decoded_body = ok decoded_body
strip_chunks width (suc left) body decoded_body =
    let chunk = take width body in
    do
      first ← or_panic (get_elem? chunk 0)
      if not (first == 0) then reject (invalid_first_byte_field_element_padding first) else do
        bytes ← slice chunk 1 width
        strip_chunks width left (drop width body) (decoded_body ++ bytes)

unfoldable pub check_and_remove_zero_padding_for_field_elements : ByteList → Checked ByteList
check_and_remove_zero_padding_for_field_elements encoded_body =
    if not (length encoded_body % bytes_per_field_element == 0)
    then reject (invalid_length_encoded_payload (length encoded_body))
    else strip_chunks bytes_per_field_element (length encoded_body / bytes_per_field_element)
        encoded_body []

unfoldable pub decode_payload : EncodedPayload → ℕ → Checked ByteList
decode_payload e payload_len = do
  body ← slice e.encoded_payload encoded_payload_header_len_bytes (length e.encoded_payload)
  decoded_body ← check_and_remove_zero_padding_for_field_elements body
  if ltb (length decoded_body) payload_len
      then reject (decoded_payload_body_too_short (length decoded_body) payload_len)
      else do
        padding ← slice decoded_body payload_len (length decoded_body)
        check_zero invalid_encoded_payload_body_padding padding
        slice decoded_body 0 payload_len

unfoldable pub decode : EncodedPayload → Checked ByteList
decode e = do
  check_len_invariant e
  payload_len_in_header ← decode_header e
  decode_payload e payload_len_in_header
