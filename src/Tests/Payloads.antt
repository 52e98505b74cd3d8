-- ===== src/Tests/Payloads.antt =====
-- The theorems on encoded payloads, at the bytes 1, 2, 3, 4 in two field elements.
use hokulea.Base.{ℕ, ◌*◌, ◌^◌, ◌≡◌, ◌≢◌, ◌↔◌, refl, [], ◌∷◌, ok, panic, length, All, arith}
use hokulea.Base.Bytes.{IsByte}
use hokulea.Payload.{check_len_invariant, decode}
use hokulea.Payload.Decode.{decode-layout, decode_inversion}
use hokulea.Payload.Header.{check_len_invariant_iff}
use hokulea.Payload.Layout.{IsLayout, layout, header, pad_chunks}
use hokulea.Payload.Total.{decode-ne-panic, decode_canonical}
use hokulea.Tests.World.{four_bytes, encoded}
use hokulea.Base.Bytes.{to_be_bytes}

pub four_bytes-IsLayout : IsLayout 1 four_bytes (1 ∷ 2 ∷ 3 ∷ 4 ∷ [])
unfolding layout header pad_chunks to_be_bytes
four_bytes-IsLayout = record { fits = omega arith; fits_u32 = omega arith; laid_out = refl }

pub four_bytes-IsByte : All IsByte four_bytes
four_bytes-IsByte = ground arith

pub decoded_four : decode encoded ≡ ok (1 ∷ 2 ∷ 3 ∷ 4 ∷ [])
decoded_four = decode-layout 1 four_bytes (1 ∷ 2 ∷ 3 ∷ 4 ∷ []) four_bytes-IsLayout

decode-layout_example : decode encoded ≡ ok (1 ∷ 2 ∷ 3 ∷ 4 ∷ [])
decode-layout_example = decode-layout 1 four_bytes (1 ∷ 2 ∷ 3 ∷ 4 ∷ []) four_bytes-IsLayout

decode_inversion_example : (log : ℕ) × IsLayout log four_bytes (1 ∷ 2 ∷ 3 ∷ 4 ∷ [])
decode_inversion_example =
    decode_inversion four_bytes (1 ∷ 2 ∷ 3 ∷ 4 ∷ []) four_bytes-IsByte decoded_four

decode-ne-panic_example : decode (record { encoded_payload = 0 ∷ 1 ∷ [] }) ≢ panic
decode-ne-panic_example = decode-ne-panic (0 ∷ 1 ∷ [])

decode_canonical_example : four_bytes ≡ four_bytes
decode_canonical_example =
    decode_canonical four_bytes four_bytes (1 ∷ 2 ∷ 3 ∷ 4 ∷ []) four_bytes-IsByte four_bytes-IsByte
      refl decoded_four decoded_four

check_len_invariant_iff_example :
    (check_len_invariant encoded ≡ ok tt)
    ↔ ((j : ℕ) × (length encoded.encoded_payload ≡ 2 ^ j * 32))
check_len_invariant_iff_example = check_len_invariant_iff encoded
