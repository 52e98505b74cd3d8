-- ===== src/Oracle/Keys.antt =====
-- The addresses under which the preimages of a certificate are stored (bin/host/src/handler.rs) and
-- asked for (crates/proof/src/eigenda_provider.rs).
use hokulea.Base.{
  ℕ, zero, suc, ◌+◌, ◌^◌, ◌≤◌, ◌<◌, ◌≡◌, ◌≢◌, refl, sym, ap, ◌∙◌, [], ◌∷◌, ◌++◌, append_assoc,
  length, take, drop, set, replicate, length-append, length-replicate, length-take, take-append,
  drop-append, arith,
}
use hokulea.Base.Bytes.{to_be_bytes, to_be_bytes-injective}
use hokulea.Cert.{ByteList}
use hokulea.Cert.Codec.{Alloy, IsAlloy}
use hokulea.Cert.Commitment.{AltDaCommitment, to_digest, to_rlp_bytes, digest_template}
use hokulea.Oracle.{validity_address, with_index}

set-append : (xs ys : ByteList) (i v : ℕ) → length xs ≡ i → set (xs ++ ys) i v ≡ xs ++ set ys 0 v
set-append [] ys zero v h = refl
set-append [] ys (suc i) v h = absurd (omega arith)
set-append (x ∷ xs) ys zero v h = absurd (omega arith)
set-append (x ∷ xs) ys (suc i) v h = ap (◌∷◌ x) (set-append xs ys i v (omega arith))

take-append_more :
    (k m : ℕ) (xs ys : ByteList) → k ≡ length xs + m → take k (xs ++ ys) ≡ xs ++ take m ys
take-append_more k m [] ys h = ap (λ t. take t ys) (omega arith)
take-append_more zero m (x ∷ xs) ys h = absurd (omega arith)
take-append_more (suc k) m (x ∷ xs) ys h = ap (◌∷◌ x) (take-append_more k m xs ys (omega arith))

-- the index of a round overwrites that of the round before
pub with_index-with_index :
    (key : ByteList) (i j : ℕ)
    → 72 ≤ length key
    → with_index (with_index key i) j ≡ with_index key j
unfolding with_index
with_index-with_index key i j h =
    rw (take-append 72 (take 72 key) (to_be_bytes 8 i) (omega (arith, length-take 72 key)))

pub length-with_index : (key : ByteList) (i : ℕ) → 72 ≤ length key → 72 ≤ length (with_index key i)
unfolding with_index
length-with_index key i h =
    omega (arith, length-append (take 72 key) (to_be_bytes 8 i), length-take 72 key)

-- different indices make different addresses
pub with_index-injective :
    (key : ByteList) (i j : ℕ)
    → 72 ≤ length key
    → i < 256 ^ 8
    → j < 256 ^ 8
    → with_index key i ≡ with_index key j
    → i ≡ j
unfolding with_index
with_index-injective key i j h hi hj e =
    let l : length (take 72 key) ≡ 72 = omega (arith, length-take 72 key) in
    to_be_bytes-injective 8 i j hi hj (
      sym (drop-append 72 (take 72 key) (to_be_bytes 8 i) l)
      ∙ ap (drop 72) e
      ∙ drop-append 72 (take 72 key) (to_be_bytes 8 j) l)

module _ (alloy : Alloy) (is_alloy : IsAlloy alloy) (c : AltDaCommitment) where
  digest_length : length (to_digest alloy c) ≡ 32
  unfolding to_digest
  digest_length = is_alloy.length-keccak256 (to_rlp_bytes alloy c)

  pub length-digest_template : length (digest_template alloy c) ≡ 80
  unfolding digest_template
  length-digest_template = omega (
    arith,
    length-append (to_digest alloy c) (replicate 48 0),
    digest_length,
    length-replicate {A = ℕ} 48 0,
  )

  -- the address of the validity is not that of a field element: they differ in the byte at index 32
  pub validity_address-with_index :
      (i : ℕ) → validity_address alloy c ≢ with_index (digest_template alloy c) i
  unfolding validity_address with_index digest_template
  validity_address-with_index i e =
      let left : drop 32 (validity_address alloy c) ≡ 1 ∷ replicate 47 0 =
        ap (drop 32) (set-append (to_digest alloy c) (replicate 48 0) 32 1 digest_length)
        ∙ drop-append 32 (to_digest alloy c) (1 ∷ replicate 47 0) digest_length in
      let right : drop 32 (with_index (digest_template alloy c) i)
          ≡ replicate 40 0 ++ to_be_bytes 8 i =
        ap (λ t. drop 32 (t ++ to_be_bytes 8 i))
          (take-append_more 72 40 (to_digest alloy c) (replicate 48 0)
            (omega (arith, digest_length)))
        ∙ ap (drop 32) (append_assoc (to_digest alloy c) (replicate 40 0) (to_be_bytes 8 i))
        ∙ drop-append 32 (to_digest alloy c) (replicate 40 0 ++ to_be_bytes 8 i) digest_length in
      let clash : 1 ∷ replicate 47 0 ≡ replicate 40 0 ++ to_be_bytes 8 i =
        sym left ∙ ap (drop 32) e ∙ right in
      absurd (ground arith)
