-- ===== src/Payload/Layout.antt =====
-- The layout of payload encoding version 0, described on its own: a header of one field element
-- and a body of field elements that each carry 31 bytes behind a zero byte.
use hokulea.Base.{
  ℕ, zero, suc, ◌+◌, ◌-◌, ◌*◌, ◌^◌, ◌≤◌, ◌<◌, ◌≡◌, [], ◌∷◌, ◌++◌, length, take, drop, replicate,
  arith, length-append, length-take, length-drop, length-replicate, ap,
}
use hokulea.Base.Powers.{pow-pos}
use hokulea.Base.Bytes.{to_be_bytes, length-to_be_bytes}
use hokulea.Cert.{ByteList}

-- `count` elements of `width` bytes from `bytes`, a zero byte before each
unfoldable pub pad_chunks : ℕ → ℕ → ByteList → ByteList
pad_chunks width zero bytes = []
pad_chunks width (suc count) bytes =
    (0 ∷ take width bytes) ++ pad_chunks width count (drop width bytes)

-- the header: a zero byte, version 0, the length as a `u32`, 26 zero bytes
unfoldable pub header : ℕ → ByteList
header len = 0 ∷ 0 ∷ (to_be_bytes 4 len ++ replicate 26 0)

-- the encoding of a payload in `elements` field elements, the header included
unfoldable pub layout : ℕ → ByteList → ByteList
layout elements payload =
    header (length payload)
    ++ pad_chunks 31 (elements - 1) (payload ++ replicate ((elements - 1) * 31 - length payload) 0)

-- `bytes` is the encoding of `payload` in `2 ^ log` field elements
pub record IsLayout (log : ℕ) (bytes payload : ByteList) : Type 0 where
  pub fits : length payload ≤ (2 ^ log - 1) * 31
  pub fits_u32 : length payload < 2 ^ 32
  pub laid_out : bytes ≡ layout (2 ^ log) payload

pub length-pad_chunks :
    (width count : ℕ) (bytes : ByteList)
    → length bytes ≡ count * width
    → length (pad_chunks width count bytes) ≡ count * (width + 1)
unfolding pad_chunks
length-pad_chunks width zero bytes h = omega arith
length-pad_chunks width (suc count) bytes h = omega (
  arith,
  length-append (0 ∷ take width bytes) (pad_chunks width count (drop width bytes)),
  length-take width bytes,
  length-drop width bytes,
  length-pad_chunks width count (drop width bytes) (omega (arith, length-drop width bytes)),
)

pub length-header : (len : ℕ) → length (header len) ≡ 32
unfolding header
length-header len =
    omega (arith, length-append (to_be_bytes 4 len) (replicate 26 0), length-to_be_bytes 4 len)

-- the body before its padding: whole elements of 31 bytes
pub length-padded :
    (elements : ℕ) (payload : ByteList)
    → length payload ≤ elements * 31
    → length (payload ++ replicate (elements * 31 - length payload) 0) ≡ elements * 31
length-padded elements payload h = omega (
  arith,
  length-append payload (replicate (elements * 31 - length payload) 0),
  length-replicate {A = ℕ} (elements * 31 - length payload) 0,
)

-- A layout in `2 ^ log` field elements has that many times 32 bytes.
pub length-layout :
    {log : ℕ} {bytes payload : ByteList} → IsLayout log bytes payload → length bytes ≡ 2 ^ log * 32
unfolding layout
length-layout {log} {bytes} {payload} h =
    let padded = payload ++ replicate ((2 ^ log - 1) * 31 - length payload) 0 in
    omega (
      arith,
      pow-pos log,
      ap length h.laid_out,
      length-append (header (length payload)) (pad_chunks 31 (2 ^ log - 1) padded),
      length-header (length payload),
      length-pad_chunks 31 (2 ^ log - 1) padded (length-padded (2 ^ log - 1) payload h.fits),
    )
