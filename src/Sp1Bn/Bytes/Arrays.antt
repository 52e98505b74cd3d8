-- ===== src/Sp1Bn/Bytes/Arrays.antt =====
-- `to_byte_array` and `to_fr_array_canonical` of crates/sp1-bn-verifier/src/helpers.rs: the bytes of
-- field elements.
use mathlib.Core.List.{append-nil, append_assoc}
use hokulea.Base.{
  ℕ, ◌+◌, ◌-◌, ◌*◌, ◌/◌, ◌%◌, ◌≤◌, ◌<◌, ◌≡◌, refl, min, List, [], ◌∷◌, ◌++◌, ok, ◌>>=◌, traverse,
  length, length-append, length-take, take, replicate, take-append, drop-append, take-append_less,
  take-append_more, take_of_length-le, ltb, Bool-cases, inl, inr, arith, tests,
}
use hokulea.Base.Buffers.{copy_from_slice, copy_from_slice-replicate}
use hokulea.Cert.{ByteList}
use hokulea.Sp1Bn.{KzgError, Substrate}
use hokulea.Sp1Bn.Bytes.{
  write_elements, to_byte_array, to_fr_array_canonical, canonical_element, chunks_exact,
}
use hokulea.Sp1Bn.Laws.{IsSubstrate, IsEncoding}

module _ (s : Substrate) where
  open s use {Fr, into_u256, to_bytes_be}

  -- the elements' encodings, one behind the other
  unfoldable pub element_bytes : List Fr → ByteList
  element_bytes [] = []
  element_bytes (x ∷ xs) = to_bytes_be (into_u256 x) ++ element_bytes xs

module _ (s : Substrate) (laws : IsSubstrate s) where
  open s use {Fr, into_u256, to_bytes_be}

  pub length-element_bytes : (xs : List Fr) → length (element_bytes s xs) ≡ length xs * 32
  unfolding element_bytes
  length-element_bytes [] = omega arith
  length-element_bytes (x ∷ xs) = omega (
    arith,
    length-append (to_bytes_be (into_u256 x)) (element_bytes s xs),
    laws.length-to_bytes_be (into_u256 x),
    length-element_bytes xs,
  )

  write_last :
      (max_output_size i n : ℕ) (v rest done : ByteList)
      → length v ≡ 32
      → length done ≡ i * 32
      → i * 32 ≤ max_output_size
      → max_output_size < (i + 1) * 32
      → n ≡ max_output_size - i * 32
      → copy_from_slice {E = KzgError}
          (done ++ replicate n 0)
          (i * 32)
          (i * 32 + min (length v) (max_output_size - i * 32))
          (take (min (length v) (max_output_size - i * 32)) v)
        ≡ ok (take max_output_size (done ++ (v ++ rest)))
  write_last max_output_size i n v rest done hv hd lo hi hn =
      let cut : min (length v) (max_output_size - i * 32) ≡ n = omega arith in
      let left : n - n ≡ 0 = omega arith in
      let room : max_output_size - length done ≡ n = omega arith in
      rw (
        cut,
        copy_from_slice-replicate done (take n v) 0 (i * 32) (i * 32 + n) n n hd
            (omega (arith, length-take n v)) refl (omega arith),
        left,
        append-nil (done ++ take n v),
        take-append_more max_output_size done (v ++ rest) (omega arith),
        room,
        take-append_less n v rest (omega arith),
      )

  -- The loop fills the buffer behind what it has written.
  pub write_elements_lem :
      (max_output_size data_size i : ℕ) (xs : List Fr) (done : ByteList) (n : ℕ)
      → length done ≡ i * 32
      → i * 32 ≤ max_output_size
      → data_size ≡ min ((i + length xs) * 32) max_output_size
      → n ≡ data_size - i * 32
      → write_elements s max_output_size data_size i xs (done ++ replicate n 0)
        ≡ ok (take max_output_size (done ++ element_bytes s xs))
  unfolding write_elements element_bytes
  write_elements_lem max_output_size data_size i [] done n hd lo hs hn =
      let none_left : n ≡ 0 = omega arith in
      rw (none_left, append-nil done, take_of_length-le max_output_size done (omega arith))
  write_elements_lem max_output_size data_size i (x ∷ xs) done n hd lo hs hn =
      elim (Bool-cases (ltb max_output_size ((i + 1) * 32))) [
        | inl over ↦ rw over (
            write_last max_output_size i n v (element_bytes s xs) done hv hd lo (omega tests)
              (omega tests))
        | inr under ↦
            let within : (i + 1) * 32 ≤ max_output_size = omega tests in
            let end : min ((i + 1) * 32) data_size ≡ (i + 1) * 32 = omega arith in
            let width : (i + 1) * 32 - i * 32 ≡ 32 = omega arith in
            rw
              (
                under,
                end,
                width,
                take_of_length-le 32 v (omega (arith, hv)),
                copy_from_slice-replicate done v 0 (i * 32) ((i + 1) * 32) n 32 hd hv (omega arith)
                    (omega arith),
                ← append_assoc done v (element_bytes s xs),
              )
              (write_elements_lem max_output_size data_size (i + 1) xs (done ++ v) (n - 32)
                (omega (arith, length-append done v, hv)) within (omega arith) (omega arith))
      ]
    where
      v : ByteList
      v = to_bytes_be (into_u256 x)

      hv : length v ≡ 32
      hv = laws.length-to_bytes_be (into_u256 x)

  -- The bytes of field elements, cut at the size asked for: no index is out of range, and the size is
  -- what the elements have, or the size asked for where that is less.
  pub to_byte_array_lem :
      (data_fr : List Fr) (max_output_size : ℕ)
      → to_byte_array s data_fr max_output_size
        ≡ ok (take max_output_size (element_bytes s data_fr))
  unfolding to_byte_array
  to_byte_array_lem data_fr max_output_size =
      write_elements_lem max_output_size (min (length data_fr * 32) max_output_size) 0 data_fr []
        (min (length data_fr * 32) max_output_size) (omega arith) (omega arith) (omega arith)
        (omega arith)

  module _ (encoding : IsEncoding s) where
    canonical_element-to_bytes_be :
        (x : Fr) → canonical_element s (to_bytes_be (into_u256 x)) ≡ ok x
    unfolding canonical_element
    canonical_element-to_bytes_be x = rw (
      encoding.fr_from_bytes-to_bytes_be x,
      encoding.fr_from_slice-to_bytes_be x,
      (encoding.fr_eq_iff x x).1 refl,
    )

    traverse_chunks :
        (xs : List Fr)
        → traverse (canonical_element s) (chunks_exact (length xs) (element_bytes s xs)) ≡ ok xs
    unfolding chunks_exact element_bytes
    traverse_chunks [] = refl
    traverse_chunks (x ∷ xs) =
        let size = laws.length-to_bytes_be (into_u256 x) in
        rw (
          take-append 32 (to_bytes_be (into_u256 x)) (element_bytes s xs) size,
          drop-append 32 (to_bytes_be (into_u256 x)) (element_bytes s xs) size,
          canonical_element-to_bytes_be x,
          traverse_chunks xs,
        )

    -- Over a curve library whose encoding of field elements is canonical, field elements that are
    -- written as bytes, 32 for each, are read back.
    pub to_fr_array_canonical-to_byte_array :
        (xs : List Fr) → (to_byte_array s xs (length xs * 32) >>= to_fr_array_canonical s) ≡ ok xs
    unfolding to_fr_array_canonical
    to_fr_array_canonical-to_byte_array xs =
        let size = length-element_bytes xs in
        let whole = take_of_length-le (length xs * 32) (element_bytes s xs) (omega arith) in
        let aligned : length xs * 32 % 32 ≡ 0 = omega arith in
        let chunks : length xs * 32 / 32 ≡ length xs = omega arith in
        rw (to_byte_array_lem xs (length xs * 32), whole, size, aligned, chunks, traverse_chunks xs)
