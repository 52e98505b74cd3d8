-- ===== src/Sp1Bn.antt =====
-- crates/sp1-bn-verifier/src (errors.rs here): the verifier of batches of KZG proofs for the sp1 zkVM.
-- The fields, the groups and the pairing of `substrate-bn`, and SHA-256, are parameters.
pub mod Consts
pub mod Laws
pub mod Bytes
pub mod Powers
pub mod Points
pub mod Polynomial
pub mod Challenge
pub mod Batch
use hokulea.Base.{ℕ, String, Bool, Option, List, Outcome, ok, err, none, some}
use hokulea.Cert.{ByteList}

pub data KzgError : Type 0 where
  invalid_input_length invalid_field_element : KzgError
  not_on_curve_error : String → KzgError
  serialization_error domain_error invalid_denominator : KzgError
  generic_error : String → KzgError

-- What the code calls of `substrate-bn` and `sha2`. A `Result` of theirs is an `Option`, as the code
-- never looks at the error; `msm` has none where it panics. A text is the list of its characters.
pub record Substrate : Type 1 where
  pub Fr : Type 0
  pub fr_zero : Fr
  pub fr_one : Fr
  pub fr_add : Fr → Fr → Fr
  pub fr_sub : Fr → Fr → Fr
  pub fr_mul : Fr → Fr → Fr
  pub fr_pow : Fr → Fr → Fr
  pub fr_eq : Fr → Fr → Bool
  pub fr_is_zero : Fr → Bool
  pub fr_inverse : Fr → Option Fr
  pub fr_from_str : List ℕ → Option Fr
  pub fr_from_slice : ByteList → Option Fr
  pub fr_from_bytes_be_mod_order : ByteList → Option Fr
  pub U256 : Type 0
  pub into_u256 : Fr → U256
  pub to_bytes_be : U256 → ByteList
  pub Fq : Type 0
  pub fq_from_str : List ℕ → Option Fq
  pub fq_from_be_bytes_mod_order : ByteList → Option Fq
  pub fq_to_big_endian : Fq → Option ByteList
  pub fq_neg : Fq → Fq
  pub fq_greater : Fq → Fq → Bool
  pub G1 : Type 0
  pub g1_zero : G1
  pub g1_one : G1
  pub g1_is_zero : G1 → Bool
  pub g1_add : G1 → G1 → G1
  pub g1_sub : G1 → G1 → G1
  pub g1_neg : G1 → G1
  pub g1_mul : G1 → Fr → G1
  pub AffineG1 : Type 0
  pub affine_default : AffineG1
  pub affine_new : Fq → Fq → Option AffineG1
  pub affine_x : AffineG1 → Fq
  pub affine_y : AffineG1 → Fq
  pub affine_from_jacobian : G1 → Option AffineG1
  pub affine_into : AffineG1 → G1
  pub msm : List AffineG1 → List Fr → Option AffineG1
  pub Fq2 : Type 0
  pub fq2_new : Fq → Fq → Fq2
  pub AffineG2 : Type 0
  pub affine_g2_one : AffineG2
  pub affine_g2_new_unchecked : Fq2 → Fq2 → AffineG2
  pub G2 : Type 0
  pub affine_g2_into : AffineG2 → G2
  pub Gt : Type 0
  pub gt_one : Gt
  pub gt_eq : Gt → Gt → Bool
  pub pairing_batch : List (G1 × G2) → Gt
  pub sha256 : ByteList → ByteList

-- `ok_or(error)`
abbrev pub ok_or {ℓ} : {A : Type ℓ} → KzgError → Option A → Outcome KzgError A
ok_or e none = err e
ok_or e (some a) = ok a
