-- ===== src/Witness/RoundTrip.antt =====
-- `from_preimage` and `into_preimage` (crates/proof/src/eigenda_witness.rs).
use mathlib.Core.List.{zip}
use hokulea.Base.{
  ◌≡◌, ◌≢◌, refl, ap, true, false, Option, none, some, List, [], ◌∷◌, map, ok, length, length-map,
  arith,
}
use hokulea.Cert.{ByteList}
use hokulea.Cert.Commitment.{AltDaCommitment}
use hokulea.Payload.{EncodedPayload}
use hokulea.Witness.{
  EigenDaPreimage, EigenDaWitness, with_proof, without_proof, proof_of, is_empty, is_none,
  from_preimage, from_preimage_unchecked, into_preimage,
}

pub without_proof-zip :
    (xs : List (AltDaCommitment × EncodedPayload)) (proofs : List ByteList)
    → length proofs ≡ length xs
    → map without_proof (map with_proof (zip xs proofs)) ≡ xs
unfolding zip
without_proof-zip [] proofs h = refl
without_proof-zip (x ∷ xs) [] h = absurd (omega arith)
without_proof-zip (x ∷ xs) (p ∷ proofs) h = ap (◌∷◌ x) (without_proof-zip xs proofs (omega arith))

proof_of-zip :
    (xs : List (AltDaCommitment × EncodedPayload)) (proofs : List ByteList)
    → length proofs ≡ length xs
    → map proof_of (map with_proof (zip xs proofs)) ≡ proofs
unfolding zip
proof_of-zip [] [] h = refl
proof_of-zip [] (p ∷ proofs) h = absurd (omega arith)
proof_of-zip (x ∷ xs) [] h = absurd (omega arith)
proof_of-zip (x ∷ xs) (p ∷ proofs) h = ap (◌∷◌ p) (proof_of-zip xs proofs (omega arith))

zip_of_parts :
    (es : List (AltDaCommitment × EncodedPayload × ByteList))
    → map with_proof (zip (map without_proof es) (map proof_of es)) ≡ es
unfolding zip
zip_of_parts [] = refl
zip_of_parts (e ∷ es) = ap (◌∷◌ e) (zip_of_parts es)

is_empty-false {ℓ} : {A : Type ℓ} (xs : List A) → is_empty xs ≡ false → xs ≢ []
is_empty-false xs h e = ground (arith)

is_none-true {ℓ} : {A : Type ℓ} (o : Option A) → is_none o ≡ true → o ≡ none
is_none-true none h = refl
is_none-true (some a) h = absurd (ground (arith))

-- What `from_preimage` accepts is taken apart again into what it was made from; nothing is dropped.
pub into_preimage-from_preimage :
    (preimage : EigenDaPreimage) (proofs : List ByteList) (canoe : Option ByteList)
    (w : EigenDaWitness)
    → from_preimage preimage proofs canoe ≡ ok w
    → into_preimage w ≡ (preimage, proofs, canoe)
unfolding from_preimage from_preimage_unchecked into_preimage
into_preimage-from_preimage preimage proofs canoe w h = ground (
  arith,
  without_proof-zip preimage.encoded_payloads proofs,
  proof_of-zip preimage.encoded_payloads proofs,
)

-- A witness that has a canoe proof wherever it has validities is rebuilt from its parts.
pub from_preimage-into_preimage :
    (w : EigenDaWitness)
    → (w.validities ≢ [] → w.canoe_proof_bytes ≢ none)
    → (let (preimage, proofs, canoe) = into_preimage w in from_preimage preimage proofs canoe)
      ≡ ok w
unfolding from_preimage from_preimage_unchecked into_preimage
from_preimage-into_preimage w h = ground (
  arith,
  is_empty-false w.validities,
  is_none-true w.canoe_proof_bytes,
  length-map proof_of w.encoded_payloads,
  length-map without_proof w.encoded_payloads,
  zip_of_parts w.encoded_payloads,
)
