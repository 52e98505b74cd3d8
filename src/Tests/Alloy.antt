-- ===== src/Tests/Alloy.antt =====
-- The toy codec for certificates, and a toy hash: an instance of what the certificate code takes from
-- alloy, with its laws.
use hokulea.Base.{
  ℕ, ◌≡◌, ◌≢◌, refl, String, none, some, List, [], ◌∷◌, ◌++◌, Outcome, ok, err, panic, length,
  length-append, length-take, length-replicate, take, drop, replicate, arith,
}
use hokulea.Cert.{
  ByteList, G1Point, Fp2, G2Point, BlobCommitment, BlobHeaderV2, BlobCertificate, BlobInclusionInfo,
  BatchHeaderV2, NonSignerStakesAndSignature, EigenDaCertV2, EigenDaCertV3, EigenDaCertV4,
}
use hokulea.Cert.Codec.{Rlp, IsRlp, Alloy, IsAlloy}
use hokulea.Tests.Codec.{Codec, Pair, number, pair, list, bytes, iso}

abbrev g1_to : G1Point → Pair ℕ (ℕ)
g1_to v = record { left = v.x; right = v.y }

abbrev g1_from : Pair ℕ (ℕ) → G1Point
g1_from p = record { x = p.left; y = p.right }

abbrev g1 : Codec G1Point
g1 = iso g1_to g1_from (λ v. refl) (pair number number)

abbrev fp2_to : Fp2 → Pair ℕ (ℕ)
fp2_to v = record { left = v.first; right = v.second }

abbrev fp2_from : Pair ℕ (ℕ) → Fp2
fp2_from p = record { first = p.left; second = p.right }

abbrev fp2 : Codec Fp2
fp2 = iso fp2_to fp2_from (λ v. refl) (pair number number)

abbrev g2_to : G2Point → Pair Fp2 (Fp2)
g2_to v = record { left = v.x; right = v.y }

abbrev g2_from : Pair Fp2 (Fp2) → G2Point
g2_from p = record { x = p.left; y = p.right }

abbrev g2 : Codec G2Point
g2 = iso g2_to g2_from (λ v. refl) (pair fp2 fp2)

abbrev blob_commitment_to : BlobCommitment → Pair G1Point (Pair G2Point (Pair G2Point (ℕ)))
blob_commitment_to v = record {
  left = v.commitment;
  right = record {
    left = v.length_commitment;
    right = record { left = v.length_proof; right = v.length };
  };
}

abbrev blob_commitment_from : Pair G1Point (Pair G2Point (Pair G2Point (ℕ))) → BlobCommitment
blob_commitment_from p = record {
  commitment = p.left;
  length_commitment = p.right.left;
  length_proof = p.right.right.left;
  length = p.right.right.right;
}

abbrev blob_commitment : Codec BlobCommitment
blob_commitment =
    iso blob_commitment_to blob_commitment_from (λ v. refl) (pair g1 (pair g2 (pair g2 number)))

abbrev blob_header_to : BlobHeaderV2 → Pair ℕ (Pair ByteList (Pair BlobCommitment (ByteList)))
blob_header_to v = record {
  left = v.version;
  right = record {
    left = v.quorum_numbers;
    right = record { left = v.commitment; right = v.payment_header_hash };
  };
}

abbrev blob_header_from : Pair ℕ (Pair ByteList (Pair BlobCommitment (ByteList))) → BlobHeaderV2
blob_header_from p = record {
  version = p.left;
  quorum_numbers = p.right.left;
  commitment = p.right.right.left;
  payment_header_hash = p.right.right.right;
}

abbrev blob_header : Codec BlobHeaderV2
blob_header =
    iso blob_header_to blob_header_from (λ v. refl)
      (pair number (pair bytes (pair blob_commitment bytes)))

abbrev blob_certificate_to : BlobCertificate → Pair BlobHeaderV2 (Pair ByteList (ByteList))
blob_certificate_to v = record {
  left = v.blob_header;
  right = record { left = v.signature; right = v.relay_keys };
}

abbrev blob_certificate_from : Pair BlobHeaderV2 (Pair ByteList (ByteList)) → BlobCertificate
blob_certificate_from p = record {
  blob_header = p.left;
  signature = p.right.left;
  relay_keys = p.right.right;
}

abbrev blob_certificate : Codec BlobCertificate
blob_certificate =
    iso blob_certificate_to blob_certificate_from (λ v. refl) (pair blob_header (pair bytes bytes))

abbrev blob_inclusion_info_to : BlobInclusionInfo → Pair BlobCertificate (Pair ℕ (ByteList))
blob_inclusion_info_to v = record {
  left = v.blob_certificate;
  right = record { left = v.blob_index; right = v.inclusion_proof };
}

abbrev blob_inclusion_info_from : Pair BlobCertificate (Pair ℕ (ByteList)) → BlobInclusionInfo
blob_inclusion_info_from p = record {
  blob_certificate = p.left;
  blob_index = p.right.left;
  inclusion_proof = p.right.right;
}

abbrev blob_inclusion_info : Codec BlobInclusionInfo
blob_inclusion_info =
    iso blob_inclusion_info_to blob_inclusion_info_from (λ v. refl)
      (pair blob_certificate (pair number bytes))

abbrev batch_header_to : BatchHeaderV2 → Pair ByteList (ℕ)
batch_header_to v = record { left = v.batch_root; right = v.reference_block_number }

abbrev batch_header_from : Pair ByteList (ℕ) → BatchHeaderV2
batch_header_from p = record { batch_root = p.left; reference_block_number = p.right }

abbrev batch_header : Codec BatchHeaderV2
batch_header = iso batch_header_to batch_header_from (λ v. refl) (pair bytes number)

abbrev nonsigner_to :
    NonSignerStakesAndSignature
    → Pair ByteList (
        Pair (List G1Point) (
          Pair
            (List G1Point)
            (Pair G2Point (Pair G1Point (Pair ByteList (Pair ByteList (List ByteList)))))))
nonsigner_to v = record {
  left = v.non_signer_quorum_bitmap_indices;
  right = record {
    left = v.non_signer_pubkeys;
    right = record {
      left = v.quorum_apks;
      right = record {
        left = v.apk_g2;
        right = record {
          left = v.sigma;
          right = record {
            left = v.quorum_apk_indices;
            right = record { left = v.total_stake_indices; right = v.non_signer_stake_indices };
          };
        };
      };
    };
  };
}

abbrev nonsigner_from :
    Pair ByteList (
      Pair (List G1Point) (
        Pair
          (List G1Point)
          (Pair G2Point (Pair G1Point (Pair ByteList (Pair ByteList (List ByteList)))))))
    → NonSignerStakesAndSignature
nonsigner_from p = record {
  non_signer_quorum_bitmap_indices = p.left;
  non_signer_pubkeys = p.right.left;
  quorum_apks = p.right.right.left;
  apk_g2 = p.right.right.right.left;
  sigma = p.right.right.right.right.left;
  quorum_apk_indices = p.right.right.right.right.right.left;
  total_stake_indices = p.right.right.right.right.right.right.left;
  non_signer_stake_indices = p.right.right.right.right.right.right.right;
}

abbrev nonsigner : Codec NonSignerStakesAndSignature
nonsigner =
    iso nonsigner_to nonsigner_from (λ v. refl)
      (pair bytes (
        pair (list g1) (pair (list g1) (pair g2 (pair g1 (pair bytes (pair bytes (list bytes))))))))

abbrev cert_v2_to :
    EigenDaCertV2
    → Pair BlobInclusionInfo (Pair BatchHeaderV2 (Pair NonSignerStakesAndSignature (ByteList)))
cert_v2_to v = record {
  left = v.blob_inclusion_info;
  right = record {
    left = v.batch_header_v2;
    right = record { left = v.nonsigner_stake_and_signature; right = v.signed_quorum_numbers };
  };
}

abbrev cert_v2_from :
    Pair BlobInclusionInfo (Pair BatchHeaderV2 (Pair NonSignerStakesAndSignature (ByteList)))
    → EigenDaCertV2
cert_v2_from p = record {
  blob_inclusion_info = p.left;
  batch_header_v2 = p.right.left;
  nonsigner_stake_and_signature = p.right.right.left;
  signed_quorum_numbers = p.right.right.right;
}

abbrev cert_v2 : Codec EigenDaCertV2
cert_v2 =
    iso cert_v2_to cert_v2_from (λ v. refl)
      (pair blob_inclusion_info (pair batch_header (pair nonsigner bytes)))

abbrev cert_v3_to :
    EigenDaCertV3
    → Pair BatchHeaderV2 (Pair BlobInclusionInfo (Pair NonSignerStakesAndSignature (ByteList)))
cert_v3_to v = record {
  left = v.batch_header_v2;
  right = record {
    left = v.blob_inclusion_info;
    right = record { left = v.nonsigner_stake_and_signature; right = v.signed_quorum_numbers };
  };
}

abbrev cert_v3_from :
    Pair BatchHeaderV2 (Pair BlobInclusionInfo (Pair NonSignerStakesAndSignature (ByteList)))
    → EigenDaCertV3
cert_v3_from p = record {
  batch_header_v2 = p.left;
  blob_inclusion_info = p.right.left;
  nonsigner_stake_and_signature = p.right.right.left;
  signed_quorum_numbers = p.right.right.right;
}

abbrev cert_v3 : Codec EigenDaCertV3
cert_v3 =
    iso cert_v3_to cert_v3_from (λ v. refl)
      (pair batch_header (pair blob_inclusion_info (pair nonsigner bytes)))

abbrev cert_v4_to :
    EigenDaCertV4
    → Pair BatchHeaderV2
        (Pair BlobInclusionInfo (Pair NonSignerStakesAndSignature (Pair ByteList (ℕ))))
cert_v4_to v = record {
  left = v.batch_header_v2;
  right = record {
    left = v.blob_inclusion_info;
    right = record {
      left = v.nonsigner_stake_and_signature;
      right = record { left = v.signed_quorum_numbers; right = v.offchain_derivation_version };
    };
  };
}

abbrev cert_v4_from :
    Pair BatchHeaderV2
      (Pair BlobInclusionInfo (Pair NonSignerStakesAndSignature (Pair ByteList (ℕ))))
    → EigenDaCertV4
cert_v4_from p = record {
  batch_header_v2 = p.left;
  blob_inclusion_info = p.right.left;
  nonsigner_stake_and_signature = p.right.right.left;
  signed_quorum_numbers = p.right.right.right.left;
  offchain_derivation_version = p.right.right.right.right;
}

abbrev cert_v4 : Codec EigenDaCertV4
cert_v4 =
    iso cert_v4_to cert_v4_from (λ v. refl)
      (pair batch_header (pair blob_inclusion_info (pair nonsigner (pair bytes number))))

-- an item begins with a zero byte
abbrev rlp_read : {A : Type 0} → Codec A → ByteList → Outcome String A
rlp_read c [] = err "too short"
rlp_read c (b ∷ bs) = elim (c.read bs) [ none ↦ err "too short" | some (a, rest) ↦ ok a ]

abbrev rlp : {A : Type 0} → Codec A → Rlp A
rlp c = record { encode = λ a. 0 ∷ c.put a; decode = rlp_read c }

rlp_read-put :
    {A : Type 0} (c : Codec A) (a : A) (rest : ByteList) → rlp_read c ((0 ∷ c.put a) ++ rest) ≡ ok a
rlp_read-put c a rest = rw (c.read-put a rest)

rlp_read-ne-panic : {A : Type 0} (c : Codec A) (bs : ByteList) → rlp_read c bs ≢ panic
rlp_read-ne-panic c [] = λ e. cc
rlp_read-ne-panic c (b ∷ bs) = λ e. ground arith

is_rlp : {A : Type 0} (c : Codec A) → IsRlp (rlp c)
is_rlp c = record {
  decode-encode = rlp_read-put c;
  decode-ne-panic = rlp_read-ne-panic c;
  length-encode = λ a. omega arith;
}

-- 32 bytes that tell the addresses of a certificate apart: byte 32, and the last 31 of 80
abbrev toy_hash : ByteList → ByteList
toy_hash bs = take 32 (take 1 (drop 32 bs) ++ (drop 49 bs ++ replicate 32 0))

length-toy_hash : (bs : ByteList) → length (toy_hash bs) ≡ 32
length-toy_hash bs = omega (
  arith,
  length-take 32 (take 1 (drop 32 bs) ++ (drop 49 bs ++ replicate 32 0)),
  length-append (take 1 (drop 32 bs)) (drop 49 bs ++ replicate 32 0),
  length-append (drop 49 bs) (replicate 32 0),
  length-replicate {A = ℕ} 32 0,
)

abbrev pub toy : Alloy
toy = record {
  rlp_v2 = rlp cert_v2;
  rlp_v3 = rlp cert_v3;
  rlp_v4 = rlp cert_v4;
  keccak256 = toy_hash;
}

pub toy-IsAlloy : IsAlloy toy
toy-IsAlloy = record {
  is_rlp_v2 = is_rlp cert_v2;
  is_rlp_v3 = is_rlp cert_v3;
  is_rlp_v4 = is_rlp cert_v4;
  length-keccak256 = length-toy_hash;
}
