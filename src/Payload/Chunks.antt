-- ===== src/Payload/Chunks.antt =====
-- The loop that strips the zero byte of each chunk (crates/eigenda/src/eigenda_data.rs), and padding.
use hokulea.Base.{
  ℕ, zero, suc, ◌*◌, ◌/◌, ◌%◌, ◌≤◌, ◌≡◌, refl, sym, ap, ◌∙◌, [], ◌∷◌, ◌++◌, append-nil,
  append_assoc, ok, length, take, drop, arith, length-append, length-take, length-drop, take-append,
  drop-append, take-append-drop, nil_of_length, take_of_length-le, ok-injective, Bool-cases, ◌==◌,
  inl, inr, ==→eq,
}
use hokulea.Cert.{ByteList}
use hokulea.Payload.{strip_chunks, slice, check_and_remove_zero_padding_for_field_elements}
use hokulea.Payload.Layout.{pad_chunks, length-pad_chunks}

slice_from_one :
    (w b : ℕ) (bytes : ByteList) → length bytes ≡ w → slice (b ∷ bytes) 1 (suc w) ≡ ok bytes
unfolding slice
slice_from_one w b bytes h = ground (arith, take_of_length-le w bytes)

module _ (w : ℕ) where
  -- one round of the loop
  strip_chunk :
      (left b : ℕ) (bytes rest acc : ByteList)
      → length bytes ≡ w
      → b ≡ 0
      → strip_chunks (suc w) (suc left) ((b ∷ bytes) ++ rest) acc
        ≡ strip_chunks (suc w) left rest (acc ++ bytes)
  unfolding strip_chunks
  strip_chunk left b bytes rest acc h e =
      rw (e, take-append w bytes rest h, drop-append w bytes rest h)
        (rw (slice_from_one w 0 bytes h))

  pub strip_chunks-pad_chunks :
      (count : ℕ) (bytes acc : ByteList)
      → length bytes ≡ count * w
      → strip_chunks (suc w) count (pad_chunks w count bytes) acc ≡ ok (acc ++ bytes)
  unfolding pad_chunks strip_chunks
  strip_chunks-pad_chunks zero bytes acc h =
      let e : bytes ≡ [] = nil_of_length bytes (omega arith) in rw (e, append-nil acc)
  strip_chunks-pad_chunks (suc count) bytes acc h =
      strip_chunk count 0 (take w bytes) (pad_chunks w count (drop w bytes)) acc
        (omega (arith, length-take w bytes)) refl
      ∙ strip_chunks-pad_chunks count (drop w bytes) (acc ++ take w bytes)
          (omega (arith, length-drop w bytes))
      ∙ rw (append_assoc acc (take w bytes) (drop w bytes), take-append-drop w bytes)

  -- the rest of the loop, after a round that passed
  strip_chunk_rest :
      (left b : ℕ) (body acc : ByteList)
      → w ≤ length body
      → b ≡ 0
      → strip_chunks (suc w) (suc left) (b ∷ body) acc
        ≡ strip_chunks (suc w) left (drop w body) (acc ++ take w body)
  strip_chunk_rest left b body acc h e =
      ap (λ t. strip_chunks (suc w) (suc left) (b ∷ t) acc) (sym (take-append-drop w body))
      ∙ strip_chunk left b (take w body) (drop w body) acc (omega (arith, length-take w body)) e

  -- What the loop accepts is the padding of what it returns.
  pub strip_chunks_inversion :
      (count : ℕ) (body acc out : ByteList)
      → length body ≡ count * suc w
      → strip_chunks (suc w) count body acc ≡ ok out
      → (bytes : ByteList) × (out ≡ acc ++ bytes)
        × (body ≡ pad_chunks w count bytes)
        × (length bytes ≡ count * w)
  unfolding pad_chunks strip_chunks
  strip_chunks_inversion zero body acc out h e = (
    [],
    sym (ok-injective e) ∙ sym (append-nil acc),
    nil_of_length body (omega arith),
    omega arith,
  )
  strip_chunks_inversion (suc count) [] acc out h e = absurd (omega arith)
  strip_chunks_inversion (suc count) (b ∷ body) acc out h e = elim (Bool-cases (b == 0)) [
    | inl zero_first ↦
        let (rest, e1, e2, e3) =
          strip_chunks_inversion count (drop w body) (acc ++ take w body) out
            (omega (arith, length-drop w body))
            (sym (strip_chunk_rest count b body acc (omega arith) (==→eq b 0 zero_first)) ∙ e) in
        let long : length (take w body) ≡ w = omega (arith, length-take w body) in
        (
          take w body ++ rest,
          e1 ∙ append_assoc acc (take w body) rest,
          rw (
            take-append w (take w body) rest long,
            drop-append w (take w body) rest long,
            ← e2,
            take-append-drop w body,
            ==→eq b 0 zero_first,
          ),
          omega (arith, length-append (take w body) rest),
        )
    | inr bad_first ↦ ground arith
  ]

-- `check_and_remove_zero_padding_for_field_elements` undoes the padding of whole field elements.
pub remove_zero_padding-pad_chunks :
    (count : ℕ) (bytes : ByteList)
    → length bytes ≡ count * 31
    → check_and_remove_zero_padding_for_field_elements (pad_chunks 31 count bytes) ≡ ok bytes
unfolding check_and_remove_zero_padding_for_field_elements
remove_zero_padding-pad_chunks count bytes h =
    let long : length (pad_chunks 31 count bytes) ≡ count * 32 =
      length-pad_chunks 31 count bytes h in
    let whole : length (pad_chunks 31 count bytes) % 32 ≡ 0 = omega arith in
    let chunks : length (pad_chunks 31 count bytes) / 32 ≡ count = omega arith in
    rw (whole, chunks) (strip_chunks-pad_chunks 31 count bytes [] h)

-- What it accepts is the padding of what it returns.
pub remove_zero_padding_inversion :
    (body out : ByteList)
    → check_and_remove_zero_padding_for_field_elements body ≡ ok out
    → (count : ℕ) × (body ≡ pad_chunks 31 count out)
      × (length body ≡ count * 32)
      × (length out ≡ count * 31)
unfolding check_and_remove_zero_padding_for_field_elements
remove_zero_padding_inversion body out e =
    let whole : length body % 32 ≡ 0 = ground arith in
    let long : length body ≡ length body / 32 * 32 = omega arith in
    let (bytes, e1, e2, e3) =
      strip_chunks_inversion 31 (length body / 32) body [] out long (ground arith) in
    (length body / 32, cc, long, cc)
