-- ===== src/Sp1Bn/Laws.antt =====
-- What crates/sp1-bn-verifier relies on of `substrate-bn` and `sha2`, as the comments and the messages
-- of its `expect` calls say.
use hokulea.Base.{ℕ, ◌≤◌, ◌≡◌, ◌≢◌, ◌↔◌, true, false, some, List, [], ◌∷◌, length, All}
use hokulea.Cert.{ByteList}
use hokulea.Sp1Bn.{Substrate}

abbrev pub IsDigit : ℕ → Type 0
IsDigit c = (b'0' ≤ c) × (c ≤ b'9')

-- Sizes of encodings, and the calls that do not fail: a decimal is parsed, a digest is read as a field
-- element, a coordinate is written, the sum of a nonempty list of terms exists, and a point other than
-- the identity has affine coordinates.
pub record IsSubstrate (s : Substrate) : Type 0 where
  pub length-to_bytes_be : (u : s.U256) → length (s.to_bytes_be u) ≡ 32
  pub length-sha256 : (msg : ByteList) → length (s.sha256 msg) ≡ 32
  pub fr_from_bytes_total :
      (bytes : ByteList)
      → length bytes ≡ 32
      → (x : s.Fr) × (s.fr_from_bytes_be_mod_order bytes ≡ some x)
  pub fr_from_str_total :
      (dec : List ℕ) → dec ≢ [] → All IsDigit dec → (x : s.Fr) × (s.fr_from_str dec ≡ some x)
  pub fq_from_str_total :
      (dec : List ℕ) → dec ≢ [] → All IsDigit dec → (x : s.Fq) × (s.fq_from_str dec ≡ some x)
  pub fq_to_big_endian_total :
      (q : s.Fq) → (be : ByteList) × (s.fq_to_big_endian q ≡ some be) × (length be ≡ 32)
  pub msm_total :
      (points : List s.AffineG1) (scalars : List s.Fr)
      → points ≢ []
      → length points ≡ length scalars
      → (sum : s.AffineG1) × (s.msm points scalars ≡ some sum)
  pub affine_from_jacobian_total :
      (p : s.G1) → s.g1_is_zero p ≡ false → (a : s.AffineG1) × (s.affine_from_jacobian p ≡ some a)

-- `Σ scalarsᵢ · pointsᵢ`
unfoldable pub lincomb : (s : Substrate) → List s.AffineG1 → List s.Fr → s.G1
lincomb s [] scalars = s.g1_zero
lincomb s (p ∷ points) [] = s.g1_zero
lincomb s (p ∷ points) (r ∷ scalars) =
    s.g1_add (s.g1_mul (s.affine_into p) r) (lincomb s points scalars)

-- Equality and the canonical encoding of scalars: both decoders read back what `to_bytes_be` writes.
pub record IsEncoding (s : Substrate) : Type 0 where
  pub fr_eq_iff : (a b : s.Fr) → (s.fr_eq a b ≡ true) ↔ (a ≡ b)
  pub fr_from_slice-to_bytes_be :
      (x : s.Fr) → s.fr_from_slice (s.to_bytes_be (s.into_u256 x)) ≡ some x
  pub fr_from_bytes-to_bytes_be :
      (x : s.Fr) → s.fr_from_bytes_be_mod_order (s.to_bytes_be (s.into_u256 x)) ≡ some x

-- The group of the curve's points with its scalars, sums of terms, and the pairing: it is bilinear, and
-- a batch of two pairings is their product. The default point stands for the identity.
pub record IsPairing (s : Substrate) : Type 0 where
  pub g1_add_assoc : (a b c : s.G1) → s.g1_add (s.g1_add a b) c ≡ s.g1_add a (s.g1_add b c)
  pub g1_add_comm : (a b : s.G1) → s.g1_add a b ≡ s.g1_add b a
  pub g1_zero_add : (a : s.G1) → s.g1_add s.g1_zero a ≡ a
  pub g1_mul-add :
      (a b : s.G1) (r : s.Fr) → s.g1_mul (s.g1_add a b) r ≡ s.g1_add (s.g1_mul a r) (s.g1_mul b r)
  pub g1_mul-mul : (a : s.G1) (r z : s.Fr) → s.g1_mul (s.g1_mul a z) r ≡ s.g1_mul a (s.fr_mul r z)
  pub zero_of_is_zero : (a : s.G1) → s.g1_is_zero a ≡ true → a ≡ s.g1_zero
  pub into_default : s.affine_into s.affine_default ≡ s.g1_zero
  pub into-from_jacobian :
      (p : s.G1) (a : s.AffineG1) → s.affine_from_jacobian p ≡ some a → s.affine_into a ≡ p
  pub into-msm :
      (points : List s.AffineG1) (scalars : List s.Fr) (sum : s.AffineG1)
      → length points ≡ length scalars
      → s.msm points scalars ≡ some sum
      → s.affine_into sum ≡ lincomb s points scalars
  pub pair : s.G1 → s.G2 → s.Gt
  pub gt_mul : s.Gt → s.Gt → s.Gt
  pub gt_pow : s.Gt → s.Fr → s.Gt
  pub pair_zero : (q : s.G2) → pair s.g1_zero q ≡ s.gt_one
  pub pair-add : (a b : s.G1) (q : s.G2) → pair (s.g1_add a b) q ≡ gt_mul (pair a q) (pair b q)
  pub pair-mul : (a : s.G1) (r : s.Fr) (q : s.G2) → pair (s.g1_mul a r) q ≡ gt_pow (pair a q) r
  pub pair-neg : (a : s.G1) (q : s.G2) → gt_mul (pair a q) (pair (s.g1_neg a) q) ≡ s.gt_one
  pub pairing_batch_two :
      (a b : s.G1) (q t : s.G2)
      → s.pairing_batch ((a, q) ∷ (b, t) ∷ []) ≡ gt_mul (pair a q) (pair b t)
  pub gt_eq_refl : (x : s.Gt) → s.gt_eq x x ≡ true

-- The target of the pairing is an abelian group, with `gt_one`, and its equality test is exact.
pub record IsTarget (s : Substrate) (pairing : IsPairing s) : Type 0 where
  pub gt_mul_assoc :
      (x y z : s.Gt) → pairing.gt_mul (pairing.gt_mul x y) z ≡ pairing.gt_mul x (pairing.gt_mul y z)
  pub gt_mul_comm : (x y : s.Gt) → pairing.gt_mul x y ≡ pairing.gt_mul y x
  pub gt_one_mul : (x : s.Gt) → pairing.gt_mul s.gt_one x ≡ x
  pub eq_of_gt_eq : (x y : s.Gt) → s.gt_eq x y ≡ true → x ≡ y
