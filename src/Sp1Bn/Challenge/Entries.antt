-- ===== src/Sp1Bn/Challenge/Entries.antt =====
-- crates/sp1-bn-verifier/src/batch.rs: the entries of a batch, and what `compute_r_powers` writes of
-- them.
use mathlib.Core.List.{append_assoc}
use hokulea.Base.{
  ℕ, ◌+◌, ◌-◌, ◌*◌, ◌≤◌, ◌≡◌, refl, ap, sym, ◌∙◌, ok-injective, some, List, [], ◌∷◌, ◌++◌, map,
  Outcome, ok, ◌>>=◌, length, length-append, length-map, replicate, get_elem?, get_elem?-map_middle,
  arith,
}
use hokulea.Base.Buffers.{copy_from_slice-replicate}
use hokulea.Cert.{ByteList}
use hokulea.Sp1Bn.{KzgError, Substrate}
use hokulea.Sp1Bn.Bytes.{serialize_g1_compressed, serialize_fr_le}
use hokulea.Sp1Bn.Bytes.Sizes.{serialize_g1_compressed_total, length-serialize_fr_le}
use hokulea.Sp1Bn.Challenge.{write_element, write_entries}
use hokulea.Sp1Bn.Laws.{IsSubstrate}

-- one entry of a batch
pub record Entry (F P : Type 0) : Type 0 where
  pub commitment : P
  pub z : F
  pub y : F
  pub proof : P

module _ (s : Substrate) where
  open s use {Fr, AffineG1}

  -- the entries' bytes: a commitment, its challenge, the value there and the proof, 32 bytes each
  unfoldable pub entry_bytes : List (Entry Fr AffineG1) → Outcome KzgError ByteList
  entry_bytes [] = ok []
  entry_bytes (e ∷ entries) = do
    commitment_bytes ← serialize_g1_compressed s e.commitment
    proof_bytes ← serialize_g1_compressed s e.proof
    rest ← entry_bytes entries
    ok (
        commitment_bytes
        ++ (serialize_fr_le s e.z ++ (serialize_fr_le s e.y ++ (proof_bytes ++ rest))))

  unfoldable pub commitments_of : List (Entry Fr AffineG1) → List AffineG1
  commitments_of entries = map (λ (e : Entry Fr AffineG1). e.commitment) entries

  unfoldable pub zs_of : List (Entry Fr AffineG1) → List Fr
  zs_of entries = map (λ (e : Entry Fr AffineG1). e.z) entries

  unfoldable pub ys_of : List (Entry Fr AffineG1) → List Fr
  ys_of entries = map (λ (e : Entry Fr AffineG1). e.y) entries

  unfoldable pub proofs_of : List (Entry Fr AffineG1) → List AffineG1
  proofs_of entries = map (λ (e : Entry Fr AffineG1). e.proof) entries

  pub length-commitments_of :
      (entries : List (Entry Fr AffineG1)) → length (commitments_of entries) ≡ length entries
  unfolding commitments_of
  length-commitments_of entries = length-map _ entries

  pub length-zs_of : (entries : List (Entry Fr AffineG1)) → length (zs_of entries) ≡ length entries
  unfolding zs_of
  length-zs_of entries = length-map _ entries

  pub length-ys_of : (entries : List (Entry Fr AffineG1)) → length (ys_of entries) ≡ length entries
  unfolding ys_of
  length-ys_of entries = length-map _ entries

  pub length-proofs_of :
      (entries : List (Entry Fr AffineG1)) → length (proofs_of entries) ≡ length entries
  unfolding proofs_of
  length-proofs_of entries = length-map _ entries

module _ (s : Substrate) (laws : IsSubstrate s) where
  open s use {Fr, AffineG1}

  -- 32 bytes over the first zeros
  pub write_element_lem :
      (before v : ByteList) (n offset : ℕ)
      → length v ≡ 32
      → length before ≡ offset
      → 32 ≤ n
      → write_element (before ++ replicate n 0, offset) v
        ≡ ok ((before ++ v) ++ replicate (n - 32) 0, offset + 32)
  unfolding write_element
  write_element_lem before v n offset hv hb hn =
      rw (
        copy_from_slice-replicate {E = KzgError} before v 0 offset (offset + 32) n 32 hb hv refl hn)

  pub entry_bytes_total :
      (entries : List (Entry Fr AffineG1))
      → (bytes : ByteList) × (entry_bytes s entries ≡ ok bytes)
        × (length bytes ≡ length entries * 128)
  unfolding entry_bytes
  entry_bytes_total [] = ([], refl, omega arith)
  entry_bytes_total (e ∷ entries) =
      let (c, c_eq, c_len) = serialize_g1_compressed_total s laws e.commitment in
      let (p, p_eq, p_len) = serialize_g1_compressed_total s laws e.proof in
      let (rest, rest_eq, rest_len) = entry_bytes_total entries in
      let z = serialize_fr_le s e.z in
      let y = serialize_fr_le s e.y in
      (
        c ++ (z ++ (y ++ (p ++ rest))),
        rw (c_eq, p_eq, rest_eq),
        omega (
          arith,
          length-append c (z ++ (y ++ (p ++ rest))),
          length-append z (y ++ (p ++ rest)),
          length-append y (p ++ rest),
          length-append p rest,
          length-serialize_fr_le s laws e.z,
          length-serialize_fr_le s laws e.y,
        ),
      )

  -- The loop writes the entries behind what is written.
  pub write_entries_lem :
      (entries done all : List (Entry Fr AffineG1)) (i offset n : ℕ) (before bytes : ByteList)
      → all ≡ done ++ entries
      → length done ≡ i
      → length before ≡ offset
      → n ≡ length entries * 128
      → entry_bytes s entries ≡ ok bytes
      → write_entries s
          (commitments_of s all)
          (zs_of s all)
          (ys_of s all)
          (proofs_of s all)
          (length entries)
          i
          (before ++ replicate n 0, offset)
        ≡ ok (before ++ bytes, offset + n)
  unfolding write_entries entry_bytes commitments_of zs_of ys_of proofs_of
  write_entries_lem [] done all i offset n before bytes ha hi hb hn h =
      let none_left : n ≡ 0 = omega arith in
      let here : offset + 0 ≡ offset = omega arith in
      let nothing = ok-injective h in rw (none_left, ← nothing, here)
  write_entries_lem (e ∷ entries) done all i offset n before bytes ha hi hb hn h =
      let (c, c_eq, c_len) = serialize_g1_compressed_total s laws e.commitment in
      let (p, p_eq, p_len) = serialize_g1_compressed_total s laws e.proof in
      let (rest, rest_eq, rest_len) = entry_bytes_total entries in
      let z = serialize_fr_le s e.z in
      let y = serialize_fr_le s e.y in
      let z_len = length-serialize_fr_le s laws e.z in
      let y_len = length-serialize_fr_le s laws e.y in
      let b1 = before ++ c in
      let b2 = b1 ++ z in
      let b3 = b2 ++ y in
      let b4 = b3 ++ p in
      let l1 = length-append before c in
      let l2 = length-append b1 z in
      let l3 = length-append b2 y in
      let l4 = length-append b3 p in
      let left : n - 32 - 32 - 32 - 32 ≡ n - 128 = omega arith in
      let place : offset + 32 + 32 + 32 + 32 ≡ offset + 128 = omega arith in
      let end : offset + 128 + (n - 128) ≡ offset + n = omega arith in
      let later =
        write_entries_lem entries (done ++ e ∷ []) all (i + 1) (offset + 128) (n - 128) b4 rest
          (ha ∙ sym (append_assoc done (e ∷ []) entries))
          (omega (arith, length-append done (e ∷ []))) (omega arith) (omega arith) rest_eq in
      let whole : ok (c ++ (z ++ (y ++ (p ++ rest)))) ≡ ok bytes = rw (c_eq, p_eq, rest_eq) at h in
      rw
        (
          at_entry ha hi (λ (x : Entry Fr AffineG1). x.commitment),
          at_entry ha hi (λ (x : Entry Fr AffineG1). x.z),
          at_entry ha hi (λ (x : Entry Fr AffineG1). x.y),
          at_entry ha hi (λ (x : Entry Fr AffineG1). x.proof),
          c_eq,
          p_eq,
          write_element_lem before c n offset c_len hb (omega arith),
          write_element_lem b1 z (n - 32) (offset + 32) z_len (omega arith) (omega arith),
          write_element_lem b2 y (n - 32 - 32) (offset + 32 + 32) y_len (omega arith) (omega arith),
          write_element_lem b3 p (n - 32 - 32 - 32) (offset + 32 + 32 + 32) p_len (omega arith)
              (omega arith),
          left,
          place,
          later,
          end,
          ← ok-injective whole,
        )
        (simp append_assoc)
    where
      at_entry :
          all ≡ done ++ e ∷ entries
          → length done ≡ i
          → {B : Type 0} (f : Entry Fr AffineG1 → B) → get_elem? (map f all) i ≡ some (f e)
      at_entry ha hi f =
          ap (λ t. get_elem? (map f t) i) ha ∙ get_elem?-map_middle f done e entries i hi
