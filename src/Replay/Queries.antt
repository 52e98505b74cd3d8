-- ===== src/Replay/Queries.antt =====
-- `EigenDAPreimageSource::next` (crates/eigenda/src/eigenda_preimage.rs) with a recorder, and with a
-- provider that is loaded with the record.
use hokulea.Base.{
  ℕ, ◌≡◌, refl, Bool, true, false, [], ◌∷◌, ◌++◌, append-nil, Outcome, ok, err, panic,
}
use hokulea.Cert.Commitment.{AltDaCommitment}
use hokulea.Errors.{HokuleaErrorKind}
use hokulea.Preloaded.{Preloaded, preloaded}
use hokulea.Preloaded.Queue.{loaded, get_validity-loaded, get_encoded_payload-loaded}
use hokulea.Provider.{EigenDaPreimageProvider}
use hokulea.Recorder
use hokulea.Recorder.{Recorder, recording}
use hokulea.Replay.{NeverFails, Validities, Payloads, extend}
use hokulea.Source
use hokulea.Source.{check_recency}

-- What `recorded` has added to the record makes a loaded provider repeat it under `replayed`,
-- whatever else the provider holds for later.
abbrev pub Repeats :
    {S A : Type 0} → (Recorder S) → A × Recorder S → (Preloaded → A × Preloaded) → Type 0
Repeats r (a, r') replayed =
    (vs : Validities) × (ps : Payloads) × (r'.preimage ≡ extend r.preimage vs ps)
    × ((more_vs : Validities) (more_ps : Payloads)
        → replayed (loaded (vs ++ more_vs) (ps ++ more_ps)) ≡ (a, loaded more_vs more_ps))

module _ {S E F : Type 0} (inner : EigenDaPreimageProvider S E) (total : NeverFails inner)
    (into : F → HokuleaErrorKind) where
  -- a valid certificate, by the outcome of the recency checks
  checked-Repeats :
      (c : AltDaCommitment) (n : ℕ) (r : Recorder S) (s1 : S)
      (checked : Outcome HokuleaErrorKind (Unit {0}))
      → inner.get_validity c r.provider ≡ (ok true, s1)
      → check_recency c n ≡ checked
      → Repeats r (Source.next (recording inner) c n r) (Source.next (preloaded into) c n)
  unfolding Source.next Recorder.get_validity Recorder.record_validity Recorder.get_encoded_payload
      Recorder.record_payload
  checked-Repeats c n r s1 (ok u) e1 e2 =
      let (p, s2, e3) = total.some_payload c s1 in
      (
        (c, true) ∷ [],
        (c, p) ∷ [],
        rw (e1, e2, e3),
        λ more_vs more_ps. rw (e1, e2, e3, get_validity-loaded, e2, get_encoded_payload-loaded),
      )
  checked-Repeats c n r s1 (err e) e1 e2 = (
    (c, true) ∷ [],
    [],
    rw (e1, e2, append-nil),
    λ more_vs more_ps. rw (e1, e2, get_validity-loaded, e2),
  )
  checked-Repeats c n r s1 panic e1 e2 = (
    (c, true) ∷ [],
    [],
    rw (e1, e2, append-nil),
    λ more_vs more_ps. rw (e1, e2, get_validity-loaded, e2),
  )

  -- by the answer to the first query
  answered-Repeats :
      (c : AltDaCommitment) (n : ℕ) (r : Recorder S) (v : Bool) (s1 : S)
      → inner.get_validity c r.provider ≡ (ok v, s1)
      → Repeats r (Source.next (recording inner) c n r) (Source.next (preloaded into) c n)
  unfolding Source.next Recorder.get_validity Recorder.record_validity
  answered-Repeats c n r true s1 e1 = checked-Repeats c n r s1 (check_recency c n) e1 refl
  answered-Repeats c n r false s1 e1 =
      ((c, false) ∷ [], [], rw (e1, append-nil), λ more_vs more_ps. rw (e1, get_validity-loaded))

  pub next-Repeats :
      (c : AltDaCommitment) (n : ℕ) (r : Recorder S)
      → Repeats r (Source.next (recording inner) c n r) (Source.next (preloaded into) c n)
  next-Repeats c n r =
      let (v, s1, e1) = total.some_validity c r.provider in answered-Repeats c n r v s1 e1
