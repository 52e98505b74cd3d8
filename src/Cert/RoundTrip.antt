-- ===== src/Cert/RoundTrip.antt =====
-- `to_rlp_bytes` and `try_from` (crates/eigenda-cert/src/altda_commitment.rs).
use hokulea.Base.{
  ℕ, ◌≤◌, ◌≡◌, refl, ◌≢◌, ◌++◌, [], ◌∷◌, ok, panic, length, length-append, arith, ap, ap₂, sym, ◌∙◌,
  ok-injective,
}
use hokulea.Cert.{ByteList}
use hokulea.Cert.Codec.{Alloy, IsAlloy}
use hokulea.Cert.Commitment.{
  EigenDaVersionedCert, v2, v3, v4, AltDaCommitment, decode_cert, try_from, cert_rlp_bytes,
  to_rlp_bytes,
}

-- The header bytes that `try_from` accepts.
pub record IsEigenDa (c : AltDaCommitment) : Type 0 where
  pub da_service : c.commitment_type ≡ 1
  pub eigenda_layer : c.da_layer_byte ≡ 0

-- the version byte of a certificate
abbrev pub version_byte : EigenDaVersionedCert → ℕ
version_byte (v2 c) = 1
version_byte (v3 c) = 2
version_byte (v4 c) = 3

module _ (alloy : Alloy) (laws : IsAlloy alloy) where
  pub length-cert_rlp_bytes : (c : EigenDaVersionedCert) → 2 ≤ length (cert_rlp_bytes alloy c)
  unfolding cert_rlp_bytes
  length-cert_rlp_bytes (v2 c) = omega (arith, laws.is_rlp_v2.length-encode c)
  length-cert_rlp_bytes (v3 c) = omega (arith, laws.is_rlp_v3.length-encode c)
  length-cert_rlp_bytes (v4 c) = omega (arith, laws.is_rlp_v4.length-encode c)

  -- the bytes of a certificate: its version byte, then what its codec reads back
  decode_cert_of_bytes :
      (c : EigenDaVersionedCert) (rest : ByteList)
      → (body : ByteList) × (cert_rlp_bytes alloy c ++ rest ≡ version_byte c ∷ body)
        × (decode_cert alloy (version_byte c) body ≡ ok c)
        × (1 ≤ length body)
  unfolding cert_rlp_bytes decode_cert
  decode_cert_of_bytes (v2 c) rest =
      let l = laws.is_rlp_v2 in
      (
        alloy.rlp_v2.encode c ++ rest,
        refl,
        rw (l.decode-encode c rest),
        omega (arith, length-append (alloy.rlp_v2.encode c) rest, l.length-encode c),
      )
  decode_cert_of_bytes (v3 c) rest =
      let l = laws.is_rlp_v3 in
      (
        alloy.rlp_v3.encode c ++ rest,
        refl,
        rw (l.decode-encode c rest),
        omega (arith, length-append (alloy.rlp_v3.encode c) rest, l.length-encode c),
      )
  decode_cert_of_bytes (v4 c) rest =
      let l = laws.is_rlp_v4 in
      (
        alloy.rlp_v4.encode c ++ rest,
        refl,
        rw (l.decode-encode c rest),
        omega (arith, length-append (alloy.rlp_v4.encode c) rest, l.length-encode c),
      )

  -- With the laws of the RLP codec, a commitment of the EigenDA layer is read back from its bytes,
  -- whatever follows them.
  pub try_from-to_rlp_bytes :
      (c : AltDaCommitment) (rest : ByteList)
      → IsEigenDa c
      → try_from alloy (to_rlp_bytes alloy c ++ rest) ≡ ok c
  unfolding try_from to_rlp_bytes
  try_from-to_rlp_bytes c rest h =
      let (body, split, parsed, long) = decode_cert_of_bytes c.versioned_cert rest in
      rw (split, h.da_service, h.eigenda_layer) (ground (arith, parsed))

  -- With the laws of the RLP codec, two commitments of the EigenDA layer with the same bytes are
  -- the same commitment.
  pub to_rlp_bytes-injective :
      (a b : AltDaCommitment)
      → IsEigenDa a
      → IsEigenDa b
      → to_rlp_bytes alloy a ≡ to_rlp_bytes alloy b
      → a ≡ b
  to_rlp_bytes-injective a b ha hb e =
      cc (try_from-to_rlp_bytes a [] ha, try_from-to_rlp_bytes b [] hb, ap (λ t. t ++ []) e)

  -- The bytes determine the commitment, also where its header is not one that `try_from` accepts.
  pub eq_of_to_rlp_bytes :
      (a b : AltDaCommitment) → to_rlp_bytes alloy a ≡ to_rlp_bytes alloy b → a ≡ b
  unfolding to_rlp_bytes
  eq_of_to_rlp_bytes a b e =
      let (body, split, parsed, long) = decode_cert_of_bytes a.versioned_cert [] in
      let (body', split', parsed', long') = decode_cert_of_bytes b.versioned_cert [] in
      let first : a.commitment_type ≡ b.commitment_type = cc in
      let second : a.da_layer_byte ≡ b.da_layer_byte = cc in
      let certs : cert_rlp_bytes alloy a.versioned_cert ≡ cert_rlp_bytes alloy b.versioned_cert =
        cc in
      let same = sym split ∙ ap (λ t. t ++ []) certs ∙ split' in
      let version : version_byte a.versioned_cert ≡ version_byte b.versioned_cert = cc in
      let bodies : body ≡ body' = cc in
      let third : a.versioned_cert ≡ b.versioned_cert =
        ok-injective (sym parsed ∙ ap₂ (decode_cert alloy) version bodies ∙ parsed') in
      λ i. record { commitment_type = first i; da_layer_byte = second i; versioned_cert = third i }

pub length-to_rlp_bytes :
    (alloy : Alloy) (laws : IsAlloy alloy) (c : AltDaCommitment) → 4 ≤ length (to_rlp_bytes alloy c)
unfolding to_rlp_bytes
length-to_rlp_bytes alloy laws c = omega (arith, length-cert_rlp_bytes alloy laws c.versioned_cert)

-- With an RLP codec that does not panic, parsing ends in a commitment or an error value on every
-- input.
pub try_from-ne-panic :
    (alloy : Alloy) → IsAlloy alloy → (value : ByteList) → try_from alloy value ≢ panic
unfolding try_from
try_from-ne-panic alloy laws (x ∷ y ∷ z ∷ w ∷ value) = ground (
  arith,
  laws.is_rlp_v2.decode-ne-panic (w ∷ value),
  laws.is_rlp_v3.decode-ne-panic (w ∷ value),
  laws.is_rlp_v4.decode-ne-panic (w ∷ value),
)
try_from-ne-panic alloy laws value = ground arith

-- What `try_from` accepts: the bytes 1, 0 and a version, then a certificate that the version's
-- codec decodes; the commitment holds just these.
pub try_from_inversion :
    (alloy : Alloy) (value : ByteList) (c : AltDaCommitment)
    → try_from alloy value ≡ ok c
    → (body : ByteList) × (value ≡ 1 ∷ 0 ∷ version_byte c.versioned_cert ∷ body)
      × (decode_cert alloy (version_byte c.versioned_cert) body ≡ ok c.versioned_cert)
      × IsEigenDa c
unfolding try_from
try_from_inversion alloy (x ∷ y ∷ z ∷ w ∷ value) c h =
    (w ∷ value, ground arith, ground arith, ground arith)
try_from_inversion alloy _ c h = ground arith
