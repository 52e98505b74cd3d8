-- ===== src/Oracle/Fetch.antt =====
-- The client's loop over field elements (crates/proof/src/eigenda_provider.rs).
use hokulea.Base.{
  ℕ, zero, suc, ◌+◌, ◌*◌, ◌≤◌, ◌<◌, ◌≡◌, sym, ap, ◌∙◌, [], ◌++◌, append_assoc, length, take, drop,
  length-append, length-take, length-drop, take-append, drop-append, take-append-drop, drop-drop,
  ok, arith, nil_of_length,
}
use hokulea.Cert.{ByteList}
use hokulea.Cert.Codec.{Alloy}
use hokulea.Oracle.{Kona, fetch_encoded_payload, with_index, copy_into, with_field_element}
use hokulea.Oracle.Keys.{with_index-with_index, length-with_index}

-- the field element at an index
abbrev pub element : ByteList → ℕ → ByteList
element bytes i = take 32 (drop (i * 32) bytes)

-- an element of the bytes behind the first one
pub element-drop : (bytes : ByteList) (j : ℕ) → element (drop 32 bytes) j ≡ element bytes (suc j)
element-drop bytes j = ap (take 32) (sym (drop-drop (suc j * 32) (j * 32) 32 bytes (omega arith)))

-- a round writes its field element over the next 32 bytes
copy_into-append :
    (written zeros bytes : ByteList) (i : ℕ)
    → length written ≡ i * 32
    → copy_into (written ++ zeros) (i * 32) (suc i * 32) bytes ≡ (written ++ bytes) ++ drop 32 zeros
unfolding copy_into
copy_into-append written zeros bytes i h =
    let e : drop (suc i * 32) (written ++ zeros) ≡ drop 32 zeros =
      drop-drop (suc i * 32) 32 (i * 32) (written ++ zeros) (omega arith)
      ∙ ap (drop 32) (drop-append (i * 32) written zeros h) in
    rw (take-append (i * 32) written zeros h, e, append_assoc)

add_shift : (i j : ℕ) → suc i + j ≡ i + suc j
add_shift i j = omega arith

add_none : (i : ℕ) → i + 0 ≡ i
add_none i = omega arith

module _ {T K H : Type 0} (alloy : Alloy) (kona : Kona T K H) (t : T) where
  abbrev element_key : ByteList → ℕ → K
  element_key key i = kona.global_generic (alloy.keccak256 (with_index key i))

  -- one round
  fetch_round :
      (left i : ℕ) (key written zeros bytes : ByteList)
      → length written ≡ i * 32
      → kona.get_exact (element_key key i) 32 t ≡ (ok bytes, t)
      → fetch_encoded_payload alloy kona (suc left) i key (written ++ zeros) t
        ≡ fetch_encoded_payload alloy kona left
            (suc i)
            (with_index key i)
            ((written ++ bytes) ++ drop 32 zeros)
            t
  unfolding fetch_encoded_payload
  fetch_round left i key written zeros bytes hw e =
      ap
        (with_field_element (λ fe t'.
          fetch_encoded_payload alloy kona left (suc i) (with_index key i)
            (copy_into (written ++ zeros) (i * 32) (suc i * 32) fe) t'))
        e
      ∙ ap (λ b. fetch_encoded_payload alloy kona left (suc i) (with_index key i) b t)
          (copy_into-append written zeros bytes i hw)

  pub fetch_encoded_payload-reads :
      (left i : ℕ) (key written zeros rest : ByteList)
      → 72 ≤ length key
      → length written ≡ i * 32
      → length rest ≡ left * 32
      → length zeros ≡ left * 32
      → ((j : ℕ)
          → j < left
          → kona.get_exact (element_key key (i + j)) 32 t ≡ (ok (element rest j), t))
      → fetch_encoded_payload alloy kona left i key (written ++ zeros) t ≡ (ok (written ++ rest), t)
  unfolding fetch_encoded_payload
  fetch_encoded_payload-reads zero i key written zeros rest hk hw hr hz reads =
      let er : rest ≡ [] = nil_of_length rest (omega arith) in
      let ez : zeros ≡ [] = nil_of_length zeros (omega arith) in rw (er, ez)
  fetch_encoded_payload-reads (suc left) i key written zeros rest hk hw hr hz reads =
      let first = rw (add_none i) at (reads 0 (omega arith)) in
      let ih =
        fetch_encoded_payload-reads left (suc i) (with_index key i) (written ++ take 32 rest)
          (drop 32 zeros) (drop 32 rest) (length-with_index key i hk)
          (omega (arith, length-append written (take 32 rest), length-take 32 rest))
          (omega (arith, length-drop 32 rest)) (omega (arith, length-drop 32 zeros))
          (λ j hj.
            ap (λ a. kona.get_exact (kona.global_generic (alloy.keccak256 a)) 32 t)
              (with_index-with_index key i (suc i + j) hk)
            ∙ shifted j hj
            ∙ ap (λ e. (ok e, t)) (sym (element-drop rest j))) in
      fetch_round left i key written zeros (take 32 rest) hw first
      ∙ ih
      ∙ rw (append_assoc written (take 32 rest) (drop 32 rest), take-append-drop 32 rest)
    where
      shifted :
          (j : ℕ)
          → j < left
          → kona.get_exact (element_key key (suc i + j)) 32 t ≡ (ok (element rest (suc j)), t)
      shifted j hj = rw (add_shift i j) (reads (suc j) (omega arith))
