-- ===== src/Sp1Bn/Challenge/Lengths.antt =====
-- crates/sp1-bn-verifier/src/batch.rs: the front of the transcript of a batch, with the lengths of the
-- blobs, which `compute_r_powers` writes.
use mathlib.Core.List.{append_assoc}
use hokulea.Base.{
  ℕ, zero, suc, ◌+◌, ◌-◌, ◌*◌, ◌≤◌, ◌≡◌, refl, ap, sym, ◌∙◌, false, List, [], ◌∷◌, ◌++◌, ok, ◌==◌,
  if◌then◌else◌, length, length-append, length-drop, take, drop, drop-drop, drop-replicate,
  take-append-drop, length-take, replicate, replicate-add, arith,
}
use hokulea.Base.Buffers.{copy_from_slice, copy_from_slice_parts, copy_from_slice-replicate}
use hokulea.Base.Bytes.{to_be_bytes, length-to_be_bytes}
use hokulea.Cert.{ByteList}
use hokulea.Sp1Bn.{KzgError}
use hokulea.Sp1Bn.Challenge.{write_lengths}
use hokulea.Sp1Bn.Consts.{random_challenge_kzg_batch_domain}

-- the lengths, each as 8 bytes
unfoldable pub length_bytes : List ℕ → ByteList
length_bytes [] = []
length_bytes (n ∷ lengths) = to_be_bytes 8 n ++ length_bytes lengths

pub length-length_bytes : (lengths : List ℕ) → length (length_bytes lengths) ≡ length lengths * 8
unfolding length_bytes
length-length_bytes [] = omega arith
length-length_bytes (n ∷ lengths) = omega (
  arith,
  length-append (to_be_bytes 8 n) (length_bytes lengths),
  length-to_be_bytes 8 n,
  length-length_bytes lengths,
)

-- The lengths are written over what stands there.
pub write_lengths_lem :
    (lengths : List ℕ) (before rest : ByteList) (chunks place : ℕ)
    → length lengths ≡ chunks
    → length before ≡ place
    → chunks * 8 ≤ length rest
    → write_lengths chunks place lengths (before ++ rest)
      ≡ ok (before ++ (length_bytes lengths ++ drop (chunks * 8) rest))
unfolding write_lengths length_bytes
write_lengths_lem [] before rest zero place hl hb hr = refl
write_lengths_lem [] before rest (suc chunks) place hl hb hr = absurd (omega arith)
write_lengths_lem (n ∷ lengths) before rest zero place hl hb hr = absurd (omega arith)
write_lengths_lem (n ∷ lengths) before rest (suc chunks) place hl hb hr =
    let written =
      copy_from_slice_parts {E = KzgError} before (take 8 rest) (drop 8 rest) (to_be_bytes 8 n)
        place (place + 8) hb (omega (arith, length-take 8 rest))
        (omega (arith, length-take 8 rest, length-to_be_bytes 8 n)) in
    let split = take-append-drop 8 rest in
    let one =
      ap (λ t. copy_from_slice {E = KzgError} (before ++ t) place (place + 8) (to_be_bytes 8 n))
        (sym split)
      ∙ written in
    rw (
      one,
      ← append_assoc before (to_be_bytes 8 n) (drop 8 rest),
      write_lengths_lem lengths (before ++ to_be_bytes 8 n) (drop 8 rest) chunks (place + 8)
          (omega arith)
          (omega (arith, length-append before (to_be_bytes 8 n), length-to_be_bytes 8 n))
          (omega (arith, length-drop 8 rest)),
      append_assoc before (to_be_bytes 8 n)
          (length_bytes lengths ++ drop (chunks * 8) (drop 8 rest)),
      append_assoc (to_be_bytes 8 n) (length_bytes lengths) (drop (suc chunks * 8) rest),
      drop-drop (suc chunks * 8) (chunks * 8) 8 rest (omega arith),
    )

-- What a batch transcript of `n` entries has behind the lengths: the lengths cover the count of the
-- entries, unless there is one entry, and push it behind no more than one.
unfoldable pub gap : ℕ → ByteList
gap n = if n == 1 then to_be_bytes 8 1 ++ replicate 8 0 else replicate 16 0

pub length-gap : (n : ℕ) → length (gap n) ≡ 16
unfolding gap to_be_bytes
length-gap n = ground arith

pub gap_lem :
    (n : ℕ)
    → drop (n * 8) (replicate 8 0 ++ (to_be_bytes 8 n ++ replicate (n * 136) 0))
      ≡ gap n ++ replicate (n * 128) 0
unfolding gap to_be_bytes
gap_lem zero = refl
gap_lem (suc zero) = refl
gap_lem (suc (suc n)) =
    let other : (suc (suc n) == 1) ≡ false = ground arith in
    let two = suc (suc n) in
    let left = 16 + two * 128 in
    drop-drop (two * 8) (n * 8) 16 _ (omega arith)
    ∙ drop-replicate {A = ℕ} (n * 8) (two * 136) left 0 (omega arith)
    ∙ replicate-add 16 (two * 128) left 0 refl
    ∙ rw other

-- the domain over zeros
pub write_domain :
    (n : ℕ)
    → copy_from_slice {E = KzgError}
        (replicate (40 + n * 136) 0)
        0
        24
        random_challenge_kzg_batch_domain
      ≡ ok (random_challenge_kzg_batch_domain ++ replicate (16 + n * 136) 0)
write_domain n =
    let left : 40 + n * 136 - 24 ≡ 16 + n * 136 = omega arith in
    rw (
      copy_from_slice-replicate {E = KzgError} [] random_challenge_kzg_batch_domain 0 0 24
          (40 + n * 136) 24 refl refl refl (omega arith),
      left,
    )

-- the count over zeros
pub write_count :
    (n : ℕ) (be : ByteList)
    → length be ≡ 8
    → copy_from_slice {E = KzgError}
        (random_challenge_kzg_batch_domain ++ replicate (16 + n * 136) 0)
        32
        40
        be
      ≡ ok (random_challenge_kzg_batch_domain ++ (replicate 8 0 ++ (be ++ replicate (n * 136) 0)))
write_count n be h =
    let domain = random_challenge_kzg_batch_domain in
    let behind = replicate-add {A = ℕ} 16 (n * 136) (16 + n * 136) 0 refl in
    rw behind (
      copy_from_slice_parts {E = KzgError} (domain ++ replicate 8 0) (replicate 8 0)
        (replicate (n * 136) 0) be 32 40 refl refl h)
