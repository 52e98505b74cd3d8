-- ===== src/Sp1Bn/Bytes.antt =====
-- crates/sp1-bn-verifier/src/helpers.rs: bytes of numbers, of field elements and of points.
pub mod Arrays
pub mod Sizes
use Prim.Native.Nat.{bit_or}
use mathlib.Core.List.{reverse}
use hokulea.Base.{
  ℕ, zero, suc, ◌+◌, ◌-◌, ◌*◌, ◌/◌, ◌%◌, min, Bool, true, false, not, Option, none, some, List, [],
  ◌∷◌, ◌++◌, Outcome, ok, err, panic, ◌>>=◌, or_panic, traverse, ltb, leb, ◌==◌, if◌then◌else◌,
  length, take, drop, set, get_elem?, replicate,
}
use hokulea.Base.Buffers.{copy_from_slice}
use hokulea.Base.Bytes.{to_be_bytes}
use hokulea.Cert.{ByteList}
use hokulea.Sp1Bn.{KzgError, invalid_input_length, invalid_field_element, Substrate, ok_or}
use hokulea.Sp1Bn.Consts.{bytes_per_field_element}

unfoldable pub usize_to_be_bytes : ℕ → ByteList
usize_to_be_bytes number = to_be_bytes 8 number

-- the digits, the least first; `n` rounds are enough to reach 0
unfoldable pub push_digits : ℕ → ℕ → List ℕ → List ℕ
push_digits zero x digits = digits
push_digits (suc f) x digits = elim (ltb 0 x) [
  | true ↦ push_digits f (x / 10) (digits ++ (x % 10 + b'0') ∷ [])
  | false ↦ digits
]

unfoldable pub usize_to_decimal : ℕ → List ℕ
unfolding push_digits
usize_to_decimal n = if n == 0 then b'0' ∷ [] else reverse (push_digits n n [])

-- `chunks_exact(32)`, of as many bytes as there are rounds of 32
unfoldable pub chunks_exact : ℕ → ByteList → List ByteList
chunks_exact zero bytes = []
chunks_exact (suc n) bytes =
    take bytes_per_field_element bytes ∷ chunks_exact n (drop bytes_per_field_element bytes)

module _ (s : Substrate) where
  open s use {
    Fr, fr_eq, fr_from_str, fr_from_slice, fr_from_bytes_be_mod_order, into_u256, to_bytes_be, Fq,
    fq_to_big_endian, fq_neg, fq_greater, g1_is_zero, AffineG1, affine_x, affine_y, affine_into,
    sha256,
  }

  unfoldable pub hash_to_field_element : ByteList → Outcome KzgError Fr
  hash_to_field_element msg = or_panic (fr_from_bytes_be_mod_order (sha256 msg))

  unfoldable pub fr_from_usize : ℕ → Outcome KzgError Fr
  fr_from_usize n = or_panic (fr_from_str (usize_to_decimal n))

  unfoldable pub fq_to_le_bytes : Fq → Outcome KzgError ByteList
  fq_to_le_bytes value = do be ← or_panic (fq_to_big_endian value); ok (reverse be)

  unfoldable pub fq_is_negative : Fq → Bool
  fq_is_negative y = fq_greater y (fq_neg y)

  unfoldable pub serialize_g1_compressed : AffineG1 → Outcome KzgError ByteList
  unfolding fq_to_le_bytes fq_is_negative
  serialize_g1_compressed point =
      if g1_is_zero (affine_into point) then ok (set (replicate 32 0) 31 64) else do
        bytes ← fq_to_le_bytes (affine_x point)
        if fq_is_negative (affine_y point)
            then (do last ← or_panic (get_elem? bytes 31); ok (set bytes 31 (bit_or last 128)))
            else ok bytes

  unfoldable pub serialize_fr_le : Fr → ByteList
  serialize_fr_le value = reverse (to_bytes_be (into_u256 value))

  -- the body of the loop on chunks
  unfoldable pub canonical_element : ByteList → Outcome KzgError Fr
  canonical_element chunk = do
    reduced ← ok_or invalid_field_element (fr_from_bytes_be_mod_order chunk)
    direct ← ok_or invalid_field_element (fr_from_slice chunk)
    if not (fr_eq reduced direct) then err invalid_field_element else ok direct

  unfoldable pub to_fr_array_canonical : ByteList → Outcome KzgError (List Fr)
  unfolding canonical_element chunks_exact
  to_fr_array_canonical blob =
      if not (length blob % bytes_per_field_element == 0)
      then err invalid_input_length
      else traverse canonical_element (chunks_exact (length blob / bytes_per_field_element) blob)

  -- the loop from the element of index `i`
  unfoldable pub write_elements : ℕ → ℕ → ℕ → List Fr → ByteList → Outcome KzgError ByteList
  write_elements max_output_size data_size i [] out = ok out
  write_elements max_output_size data_size i (element ∷ elements) out =
      let v = to_bytes_be (into_u256 element) in
      let start = i * bytes_per_field_element in
      let end = (i + 1) * bytes_per_field_element in
      let slice_end = min (length v) (max_output_size - start) in
      let actual_end = min end data_size in
      let go_on =
        copy_from_slice out start actual_end (take (actual_end - start) v)
        >>= write_elements max_output_size data_size (i + 1) elements in
      if ltb max_output_size end
      then copy_from_slice out start (start + slice_end) (take slice_end v)
      else go_on

  unfoldable pub to_byte_array : List Fr → ℕ → Outcome KzgError ByteList
  unfolding write_elements
  to_byte_array data_fr max_output_size =
      let data_size = min (length data_fr * bytes_per_field_element) max_output_size in
      write_elements max_output_size data_size 0 data_fr (replicate data_size 0)
