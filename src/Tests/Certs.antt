-- ===== src/Tests/Certs.antt =====
-- The theorems on commitments, at the concrete ones.
use hokulea.Base.{ℕ, ◌≡◌, ◌≢◌, ◌↔◌, [], ◌∷◌, ◌++◌, ok, panic, arith, true, ap, sym, ◌∙◌, append-nil}
use hokulea.Cert.{ByteList}
use hokulea.Cert.Commitment.{try_from, to_rlp_bytes, decode_cert, get_rbn}
use hokulea.Cert.RoundTrip.{
  IsEigenDa, version_byte, try_from-to_rlp_bytes, try_from-ne-panic, try_from_inversion,
}
use hokulea.Source.{parse, check_recency}
use hokulea.Source
use hokulea.Source.Next.{next-ok_iff, parse-to_rlp_bytes, parse-ne-panic}
use hokulea.Source.Recency.{IsRecent, recency_verdict, check_recency_iff, check_recency-eq-verdict}
use hokulea.Tests.Alloy.{toy, toy-IsAlloy}
use hokulea.Tests.World.{commitment, commitment_v4, commitment-IsEigenDa, provider, encoded}

try_from-to_rlp_bytes_example :
    try_from toy (to_rlp_bytes toy commitment ++ (9 ∷ [])) ≡ ok commitment
try_from-to_rlp_bytes_example =
    try_from-to_rlp_bytes toy toy-IsAlloy commitment (9 ∷ []) commitment-IsEigenDa

pub parsed_commitment : try_from toy (to_rlp_bytes toy commitment) ≡ ok commitment
parsed_commitment =
    ap (try_from toy) (sym (append-nil (to_rlp_bytes toy commitment)))
    ∙ try_from-to_rlp_bytes toy toy-IsAlloy commitment [] commitment-IsEigenDa

try_from-ne-panic_example : try_from toy (1 ∷ 0 ∷ 2 ∷ 0 ∷ 1 ∷ []) ≢ panic
try_from-ne-panic_example = try_from-ne-panic toy toy-IsAlloy (1 ∷ 0 ∷ 2 ∷ 0 ∷ 1 ∷ [])

try_from_inversion_example :
    (body : ByteList) × (to_rlp_bytes toy commitment ++ []
      ≡ 1 ∷ 0 ∷ version_byte commitment.versioned_cert ∷ body)
    × (decode_cert toy (version_byte commitment.versioned_cert) body ≡ ok commitment.versioned_cert)
    × IsEigenDa commitment
try_from_inversion_example =
    try_from_inversion toy (to_rlp_bytes toy commitment ++ []) commitment
      (try_from-to_rlp_bytes toy toy-IsAlloy commitment [] commitment-IsEigenDa)

parse-to_rlp_bytes_example : parse toy (1 ∷ to_rlp_bytes toy commitment) ≡ ok commitment
parse-to_rlp_bytes_example = parse-to_rlp_bytes toy toy-IsAlloy 1 commitment commitment-IsEigenDa

parse-ne-panic_example : parse toy (1 ∷ 1 ∷ 0 ∷ []) ≢ panic
parse-ne-panic_example = parse-ne-panic toy toy-IsAlloy (1 ∷ 1 ∷ 0 ∷ [])

check_recency_iff_example :
    (check_recency commitment_v4 200 ≡ ok tt) ↔ IsRecent commitment_v4.versioned_cert 200
unfolding get_rbn
check_recency_iff_example = check_recency_iff commitment_v4 200 (omega arith)

check_recency-eq-verdict_example :
    check_recency commitment_v4 20000 ≡ recency_verdict commitment_v4.versioned_cert 20000
unfolding get_rbn
check_recency-eq-verdict_example = check_recency-eq-verdict commitment_v4 20000 (omega arith)

next-ok_iff_example : (Source.next provider commitment_v4 200 0 ≡ (ok encoded, 2)) ↔ (
    (s1 : ℕ) × (provider.get_validity commitment_v4 0 ≡ (ok true, s1))
    × (check_recency commitment_v4 200 ≡ ok tt)
    × (provider.get_encoded_payload commitment_v4 s1 ≡ (ok encoded, 2)))
next-ok_iff_example = next-ok_iff provider commitment_v4 200 0 2 encoded
