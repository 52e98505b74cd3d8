-- ===== src/Tests/Curves.antt =====
-- Two instances of the curve library. `bits` has the field of two elements, as every group, and all the
-- laws. `numbers` has the scalars modulo the order of BN254, as far as roots of unity need them, and a
-- pairing that holds always.
use hokulea.Base.{
  ℕ, ◌+◌, ◌-◌, ◌*◌, ◌%◌, ◌≡◌, ◌↔◌, refl, ap, sym, ◌∙◌, Bool, true, false, not, ◌&&◌, some, List, [],
  ◌∷◌, ◌++◌, ◌==◌, ==→eq, eq→==, length, length-take, length-append, length-replicate, take,
  replicate, arith,
}
use hokulea.Base.Bytes.{to_be_bytes, from_be_bytes}
use hokulea.Cert.{ByteList}
use hokulea.Sp1Bn.{Substrate}
use hokulea.Sp1Bn.Laws.{IsSubstrate, IsEncoding, IsPairing, IsTarget, lincomb}

abbrev pub number_of : Bool → ℕ
number_of true = 1
number_of false = 0

abbrev pub xor : Bool → Bool → Bool
xor true b = not b
xor false b = b

abbrev pub xnor : Bool → Bool → Bool
xnor true b = b
xnor false b = not b

-- whether the last number of a list is odd
abbrev pub parity : List ℕ → Bool
parity [] = false
parity (n ∷ []) = n % 2 == 1
parity (n ∷ m ∷ ns) = parity (m ∷ ns)

abbrev pub dot : List Bool → List Bool → Bool
dot [] rs = false
dot (p ∷ ps) [] = false
dot (p ∷ ps) (r ∷ rs) = xor (p && r) (dot ps rs)

abbrev pub pairings : List (Bool × Bool) → Bool
pairings [] = false
pairings ((a, q) ∷ rest) = xor (a && q) (pairings rest)

-- the first 32 bytes, or as many as there are and ones
abbrev pub first_32 : ByteList → ByteList
first_32 msg = take 32 (msg ++ replicate 32 1)

abbrev pub bits : Substrate
bits = record {
  Fr = Bool;
  fr_zero = false;
  fr_one = true;
  fr_add = xor;
  fr_sub = xor;
  fr_mul = λ a b. a && b;
  fr_pow = λ a e. a;
  fr_eq = xnor;
  fr_is_zero = not;
  fr_inverse = λ a. some a;
  fr_from_str = λ dec. some true;
  fr_from_slice = λ bytes. some (parity bytes);
  fr_from_bytes_be_mod_order = λ bytes. some (parity bytes);
  U256 = Bool;
  into_u256 = λ a. a;
  to_bytes_be = λ a. replicate 31 0 ++ (number_of a ∷ []);
  Fq = Bool;
  fq_from_str = λ dec. some true;
  fq_from_be_bytes_mod_order = λ bytes. some (parity bytes);
  fq_to_big_endian = λ a. some (replicate 31 0 ++ (number_of a ∷ []));
  fq_neg = λ a. a;
  fq_greater = λ a b. a && not b;
  G1 = Bool;
  g1_zero = false;
  g1_one = true;
  g1_is_zero = not;
  g1_add = xor;
  g1_sub = xor;
  g1_neg = λ a. a;
  g1_mul = λ a r. a && r;
  AffineG1 = Bool;
  affine_default = false;
  affine_new = λ x y. some x;
  affine_x = λ a. a;
  affine_y = λ a. a;
  affine_from_jacobian = λ a. some a;
  affine_into = λ a. a;
  msm = λ points scalars. some (dot points scalars);
  Fq2 = Bool;
  fq2_new = λ a b. a;
  AffineG2 = Bool;
  affine_g2_one = true;
  affine_g2_new_unchecked = λ x y. x;
  G2 = Bool;
  affine_g2_into = λ a. a;
  Gt = Bool;
  gt_one = false;
  gt_eq = xnor;
  pairing_batch = pairings;
  sha256 = first_32;
}

length-first_32 : (msg : ByteList) → length (first_32 msg) ≡ 32
length-first_32 msg = omega (
  arith,
  length-take 32 (msg ++ replicate 32 1),
  length-append msg (replicate 32 1),
  length-replicate {A = ℕ} 32 1,
)

length-bit_bytes : (a : Bool) → length (replicate 31 0 ++ (number_of a ∷ [])) ≡ 32
length-bit_bytes true = refl
length-bit_bytes false = refl

pub bits-IsSubstrate : IsSubstrate bits
bits-IsSubstrate = record {
  length-to_bytes_be = length-bit_bytes;
  length-sha256 = length-first_32;
  fr_from_bytes_total = λ bytes h. (parity bytes, refl);
  fr_from_str_total = λ dec ne h. (true, refl);
  fq_from_str_total = λ dec ne h. (true, refl);
  fq_to_big_endian_total = λ q. (replicate 31 0 ++ (number_of q ∷ []), refl, length-bit_bytes q);
  msm_total = λ points scalars ne h. (dot points scalars, refl);
  affine_from_jacobian_total = λ p h. (p, refl);
}

xnor_iff : (a b : Bool) → (xnor a b ≡ true) ↔ (a ≡ b)
xnor_iff true true = (λ h. refl, λ h. refl)
xnor_iff true false = (λ h. cc, λ h. cc)
xnor_iff false true = (λ h. cc, λ h. cc)
xnor_iff false false = (λ h. refl, λ h. refl)

parity-bit_bytes : (a : Bool) → parity (replicate 31 0 ++ (number_of a ∷ [])) ≡ a
parity-bit_bytes true = refl
parity-bit_bytes false = refl

pub bits-IsEncoding : IsEncoding bits
bits-IsEncoding = record {
  fr_eq_iff = xnor_iff;
  fr_from_slice-to_bytes_be = λ a. ap some (parity-bit_bytes a);
  fr_from_bytes-to_bytes_be = λ a. ap some (parity-bit_bytes a);
}

xor_assoc : (a b c : Bool) → xor (xor a b) c ≡ xor a (xor b c)
xor_assoc true true true = refl
xor_assoc true true false = refl
xor_assoc true false c = refl
xor_assoc false b c = refl

xor_comm : (a b : Bool) → xor a b ≡ xor b a
xor_comm true true = refl
xor_comm true false = refl
xor_comm false true = refl
xor_comm false false = refl

and-xor : (a b r : Bool) → xor a b && r ≡ xor (a && r) (b && r)
and-xor true true true = refl
and-xor true true false = refl
and-xor true false true = refl
and-xor true false false = refl
and-xor false true true = refl
and-xor false true false = refl
and-xor false false true = refl
and-xor false false false = refl

and_regroup : (a r z : Bool) → (a && z) && r ≡ a && (r && z)
and_regroup true true true = refl
and_regroup true true false = refl
and_regroup true false true = refl
and_regroup true false false = refl
and_regroup false r z = refl

and_swap : (a r q : Bool) → (a && r) && q ≡ (a && q) && r
and_swap true true q = ground arith
and_swap true false true = refl
and_swap true false false = refl
and_swap false r q = refl

xor_none : (a : Bool) → xor a false ≡ a
xor_none true = refl
xor_none false = refl

xor_self : (a : Bool) → xor a a ≡ false
xor_self true = refl
xor_self false = refl

dot-lincomb : (ps rs : List Bool) → dot ps rs ≡ lincomb bits ps rs
unfolding lincomb
dot-lincomb [] rs = refl
dot-lincomb (p ∷ ps) [] = refl
dot-lincomb (p ∷ ps) (r ∷ rs) = ap (xor (p && r)) (dot-lincomb ps rs)

zero_of_not : (a : Bool) → not a ≡ true → a ≡ false
zero_of_not true h = cc
zero_of_not false h = refl

xnor_refl : (x : Bool) → xnor x x ≡ true
xnor_refl true = refl
xnor_refl false = refl

some-injective {ℓ} : {A : Type ℓ} {a b : A} → some a ≡ some b → a ≡ b
some-injective h = cc

pub bits-IsPairing : IsPairing bits
bits-IsPairing = record {
  g1_add_assoc = xor_assoc;
  g1_add_comm = xor_comm;
  g1_zero_add = λ a. refl;
  g1_mul-add = and-xor;
  g1_mul-mul = and_regroup;
  zero_of_is_zero = zero_of_not;
  into_default = refl;
  into-from_jacobian = λ p a h. some-injective (sym h);
  into-msm = λ points scalars sum h e. sym (some-injective e) ∙ dot-lincomb points scalars;
  pair = λ a q. a && q;
  gt_mul = xor;
  gt_pow = λ x r. x && r;
  pair_zero = λ q. refl;
  pair-add = and-xor;
  pair-mul = and_swap;
  pair-neg = λ a q. xor_self (a && q);
  pairing_batch_two = λ a b q t. ap (xor (a && q)) (xor_none (b && t));
  gt_eq_refl = xnor_refl;
}

eq_of_xnor : (a b : Bool) → xnor a b ≡ true → a ≡ b
eq_of_xnor true b h = sym h
eq_of_xnor false true h = absurd (ground arith)
eq_of_xnor false false h = refl

pub bits-IsTarget : IsTarget bits bits-IsPairing
unfolding bits-IsPairing
bits-IsTarget = record {
  gt_mul_assoc = xor_assoc;
  gt_mul_comm = xor_comm;
  gt_one_mul = λ x. refl;
  eq_of_gt_eq = eq_of_xnor;
}

abbrev pub order : ℕ
order = 21888242871839275222246405745257275088548364400416034343698204186575808495617

abbrev decimal_value : ℕ → List ℕ → ℕ
decimal_value value [] = value
decimal_value value (c ∷ cs) = decimal_value (value * 10 + (c - b'0')) cs

-- the scalars are the residues modulo the order; an inverse is any scalar, a point any number
abbrev pub numbers : Substrate
numbers = record {
  Fr = ℕ;
  fr_zero = 0;
  fr_one = 1;
  fr_add = λ a b. (a + b) % order;
  fr_sub = λ a b. (a + order - b) % order;
  fr_mul = λ a b. (a * b) % order;
  fr_pow = λ a e. (a * e) % order;
  fr_eq = λ a b. a == b;
  fr_is_zero = λ a. a == 0;
  fr_inverse = λ a. some a;
  fr_from_str = λ dec. some (decimal_value 0 dec % order);
  fr_from_slice = λ bytes. some (from_be_bytes bytes);
  fr_from_bytes_be_mod_order = λ bytes. some (from_be_bytes bytes % order);
  U256 = ℕ;
  into_u256 = λ a. a;
  to_bytes_be = λ a. to_be_bytes 32 a;
  Fq = ℕ;
  fq_from_str = λ dec. some (decimal_value 0 dec);
  fq_from_be_bytes_mod_order = λ bytes. some (from_be_bytes bytes);
  fq_to_big_endian = λ a. some (to_be_bytes 32 a);
  fq_neg = λ a. a;
  fq_greater = λ a b. false;
  G1 = ℕ;
  g1_zero = 0;
  g1_one = 1;
  g1_is_zero = λ a. a == 0;
  g1_add = λ a b. (a + b) % order;
  g1_sub = λ a b. (a + order - b) % order;
  g1_neg = λ a. order - a;
  g1_mul = λ a r. (a * r) % order;
  AffineG1 = ℕ;
  affine_default = 0;
  affine_new = λ x y. some x;
  affine_x = λ a. a;
  affine_y = λ a. a;
  affine_from_jacobian = λ a. some a;
  affine_into = λ a. a;
  msm = λ points scalars. some 1;
  Fq2 = ℕ;
  fq2_new = λ a b. a;
  AffineG2 = ℕ;
  affine_g2_one = 1;
  affine_g2_new_unchecked = λ x y. x;
  G2 = ℕ;
  affine_g2_into = λ a. a;
  Gt = ℕ;
  gt_one = 0;
  gt_eq = λ a b. a == b;
  pairing_batch = λ pairs. 0;
  sha256 = first_32;
}

pub numbers_eq_iff : (a b : ℕ) → ((a == b) ≡ true) ↔ (a ≡ b)
numbers_eq_iff a b = (==→eq a b, eq→== a b)
