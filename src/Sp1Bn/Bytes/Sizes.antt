-- ===== src/Sp1Bn/Bytes/Sizes.antt =====
-- Sizes of what crates/sp1-bn-verifier/src/helpers.rs writes, and decimals that can be read.
use Prim.Native.Nat.{bit_or}
use mathlib.Core.List.{reverse, reverse-append}
use hokulea.Base.{
  ℕ, zero, suc, ◌+◌, ◌/◌, ◌%◌, ◌≤◌, ◌<◌, ◌≡◌, ◌≢◌, refl, ap, ◌∙◌, Bool, true, false, List, [], ◌∷◌,
  ◌++◌, ok, ◌>>=◌, or_panic, length, length-append, length-reverse, length-set, set, replicate,
  get_elem?_total, get_elem?, All, All-append, arith, ltb, ◌==◌, Bool-cases, inl, inr,
  if◌then◌else◌,
}
use hokulea.Cert.{ByteList}
use hokulea.Sp1Bn.{KzgError, Substrate}
use hokulea.Sp1Bn.Bytes.{
  push_digits, usize_to_decimal, hash_to_field_element, fr_from_usize, serialize_g1_compressed,
  serialize_fr_le, fq_is_negative, fq_to_le_bytes,
}
use hokulea.Sp1Bn.Laws.{IsSubstrate, IsDigit}

push_digits-IsDigit :
    (f x : ℕ) (digits : List ℕ) → All IsDigit digits → All IsDigit (push_digits f x digits)
unfolding push_digits
push_digits-IsDigit zero x digits h = h
push_digits-IsDigit (suc f) x digits h = elim (Bool-cases (ltb 0 x)) [
  | inl more ↦
      rw (push_digits, more)
        (push_digits-IsDigit f (x / 10) (digits ++ (x % 10 + b'0') ∷ [])
          (All-append IsDigit digits _ h (omega arith)))
  | inr done ↦ rw (push_digits, done) h
]

All-reverse : (xs : List ℕ) → All IsDigit xs → All IsDigit (reverse xs)
All-reverse [] h = tt
All-reverse (x ∷ xs) h =
    rw (reverse-append (x ∷ []) xs)
      (All-append IsDigit (reverse xs) (x ∷ []) (All-reverse xs h.1) (h.0, tt))

-- a decimal consists of digits
pub usize_to_decimal-IsDigit : (n : ℕ) → All IsDigit (usize_to_decimal n)
unfolding usize_to_decimal
usize_to_decimal-IsDigit n = elim (Bool-cases (n == 0)) [
  | inl none ↦ rw none (omega arith)
  | inr some_left ↦ rw some_left (All-reverse (push_digits n n []) (push_digits-IsDigit n n [] tt))
]

length-push_digits : (f x : ℕ) (digits : List ℕ) → length digits ≤ length (push_digits f x digits)
unfolding push_digits
length-push_digits zero x digits = omega arith
length-push_digits (suc f) x digits = elim (Bool-cases (ltb 0 x)) [
  | inl more ↦
      rw (push_digits, more)
        (omega (
          arith,
          length-append digits ((x % 10 + b'0') ∷ []),
          length-push_digits f (x / 10) (digits ++ (x % 10 + b'0') ∷ []),
        ))
  | inr done ↦ rw (push_digits, done) (omega arith)
]

length-usize_to_decimal : (n : ℕ) → 0 < length (usize_to_decimal (suc n))
unfolding usize_to_decimal push_digits
length-usize_to_decimal n =
    let positive : (suc n == 0) ≡ false = ground arith in
    let started : ltb 0 (suc n) ≡ true = ground arith in
    let digit : ℕ = suc n % 10 + b'0' in
    let decimal : usize_to_decimal (suc n) ≡ reverse (push_digits n (suc n / 10) (digit ∷ [])) =
      rw (positive, push_digits, started) in
    omega (
      arith,
      ap length decimal,
      length-reverse (push_digits n (suc n / 10) (digit ∷ [])),
      length-push_digits n (suc n / 10) (digit ∷ []),
    )

pub usize_to_decimal-ne-nil : (n : ℕ) → usize_to_decimal n ≢ []
unfolding usize_to_decimal
usize_to_decimal-ne-nil zero e = cc
usize_to_decimal-ne-nil (suc n) e = omega (arith, ap length e, length-usize_to_decimal n)

-- the flag is set in the last of 32 bytes
set_flag :
    (negative : Bool) (bytes : ByteList)
    → length bytes ≡ 32
    → (out : ByteList) × ((if negative
          then (or_panic {E = KzgError} (get_elem? bytes 31) >>= λ last.
              ok (set bytes 31 (bit_or last 128)))
          else ok bytes)
        ≡ ok out)
      × (length out ≡ 32)
set_flag false bytes h = (bytes, refl, h)
set_flag true bytes h =
    let (last, e) = get_elem?_total bytes 31 (omega arith) in
    (set bytes 31 (bit_or last 128), rw e, length-set bytes 31 (bit_or last 128) ∙ h)

module _ (s : Substrate) (laws : IsSubstrate s) where
  open s use {Fr, AffineG1, affine_x, affine_y, affine_into, g1_is_zero, into_u256, to_bytes_be}

  pub hash_to_field_element_total :
      (msg : ByteList) → (x : Fr) × (hash_to_field_element s msg ≡ ok x)
  unfolding hash_to_field_element
  hash_to_field_element_total msg =
      let (x, e) = laws.fr_from_bytes_total (s.sha256 msg) (laws.length-sha256 msg) in (x, rw e)

  pub fr_from_usize_total : (n : ℕ) → (x : Fr) × (fr_from_usize s n ≡ ok x)
  unfolding fr_from_usize
  fr_from_usize_total n =
      let (x, e) =
        laws.fr_from_str_total (usize_to_decimal n) (usize_to_decimal-ne-nil n)
          (usize_to_decimal-IsDigit n) in
      (x, rw e)

  pub length-serialize_fr_le : (x : Fr) → length (serialize_fr_le s x) ≡ 32
  unfolding serialize_fr_le
  length-serialize_fr_le x =
      length-reverse (to_bytes_be (into_u256 x)) ∙ laws.length-to_bytes_be (into_u256 x)

  -- a compressed point has 32 bytes
  pub serialize_g1_compressed_total :
      (point : AffineG1)
      → (bytes : ByteList) × (serialize_g1_compressed s point ≡ ok bytes) × (length bytes ≡ 32)
  unfolding serialize_g1_compressed fq_to_le_bytes
  serialize_g1_compressed_total point = elim (Bool-cases (g1_is_zero (affine_into point))) [
    | inl zero_point ↦ (set (replicate 32 0) 31 64, rw zero_point, refl)
    | inr finite ↦
        let (be, e, size) = laws.fq_to_big_endian_total (affine_x point) in
        let (out, q, size') =
          set_flag (fq_is_negative s (affine_y point)) (reverse be) (length-reverse be ∙ size) in
        (out, rw (finite, e) q, size')
  ]
