-- ===== src/Preloaded/Kzg.antt =====
-- The `ark` backend of `batch_verify` (crates/proof/src/preloaded_eigenda_provider.rs). The curve and
-- the verifier of KZG proofs are parameters; they return an error or panic where the library does.
use hokulea.Base.{
  String, Bool, false, List, Outcome, ok, err, panic, ◌>>=◌, expect, traverse, take, drop,
}
use hokulea.Base.Bytes.{to_be_bytes}
use hokulea.Cert.{ByteList, G1Point}

pub record KzgLibrary : Type 1 where
  pub Blob : Type 0
  pub Fq : Type 0
  pub G1Affine : Type 0
  pub blob_new : ByteList → Outcome String Blob
  pub from_be_bytes_mod_order : ByteList → Fq
  pub g1_affine_new : Fq → Fq → Outcome String G1Affine
  pub verify_blob_kzg_proof_batch : List Blob → List G1Affine → List G1Affine → Outcome String Bool

-- `unwrap_or(false)`
unfoldable pub unwrap_or_false : {E : Type 0} → Outcome String Bool → Outcome E Bool
unwrap_or_false (ok b) = ok b
unwrap_or_false (err e) = ok false
unwrap_or_false panic = panic

module _ {E : Type 0} (kzg : KzgLibrary) where
  unfoldable pub lib_commitment : G1Point → Outcome E kzg.G1Affine
  lib_commitment c = expect (
      kzg.g1_affine_new (kzg.from_be_bytes_mod_order (to_be_bytes 32 c.x))
        (kzg.from_be_bytes_mod_order (to_be_bytes 32 c.y)))

  -- a proof is 64 bytes
  unfoldable pub lib_proof : ByteList → Outcome E kzg.G1Affine
  lib_proof p = expect (
      kzg.g1_affine_new (kzg.from_be_bytes_mod_order (take 32 p))
        (kzg.from_be_bytes_mod_order (take 32 (drop 32 p))))

  unfoldable pub batch_verify : List ByteList → List G1Point → List ByteList → Outcome E Bool
  unfolding lib_commitment lib_proof unwrap_or_false
  batch_verify blobs commitments proofs = do
    lib_blobs ← traverse (λ b. expect (kzg.blob_new b)) blobs
    lib_commitments ← traverse lib_commitment commitments
    lib_proofs ← traverse lib_proof proofs
    unwrap_or_false (kzg.verify_blob_kzg_proof_batch lib_blobs lib_commitments lib_proofs)
