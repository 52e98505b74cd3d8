-- ===== src/Preloaded/Discrete.antt =====
-- Equality of commitments: the derived `PartialEq` of the structs of crates/eigenda-cert/src.
use native.Mathlib.Decide.{ℕ_discrete}
use hokulea.Base.{◌≡◌, refl, Bool, true, false, arith}
use hokulea.Cert.Commitment.{AltDaCommitment}

unfoldable pub AltDaCommitment-discrete : Discrete AltDaCommitment
AltDaCommitment-discrete = hlevel ℕ_discrete

abbrev test {ℓ} : {A : Type ℓ} → Dec A → Bool
test (yes a) = true
test (no na) = false

test-holds {ℓ} : {A : Type ℓ} (d : Dec A) → A → test d ≡ true
test-holds (yes a) b = refl
test-holds (no na) b = absurd (na b)

holds_of-test {ℓ} : {A : Type ℓ} (d : Dec A) → test d ≡ true → A
holds_of-test (yes a) h = a
holds_of-test (no na) h = absurd (ground arith)

-- `a == b`
unfoldable pub same : AltDaCommitment → AltDaCommitment → Bool
same a b = test (AltDaCommitment-discrete a b)

pub same_refl : (c : AltDaCommitment) → same c c ≡ true
unfolding same
same_refl c = test-holds (AltDaCommitment-discrete c c) refl

pub same-eq : (a b : AltDaCommitment) → same a b ≡ true → a ≡ b
unfolding same
same-eq a b h = holds_of-test (AltDaCommitment-discrete a b) h
