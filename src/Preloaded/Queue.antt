-- ===== src/Preloaded/Queue.antt =====
-- The order in which a preloaded provider answers (crates/proof/src/preloaded_eigenda_provider.rs).
use mathlib.Core.List.{reverse, reverse-cons}
use hokulea.Base.{
  ◌≡◌, refl, ap, Bool, some, List, [], ◌∷◌, ◌++◌, ok, panic, arith, sym, ◌∙◌, ap₂, Bool-cases, inl,
  inr, ok-injective, if◌then◌else◌,
}
use hokulea.Cert.Commitment.{AltDaCommitment}
use hokulea.Payload.{EncodedPayload}
use hokulea.Preloaded.{Preloaded, pop, get_validity, get_encoded_payload}
use hokulea.Preloaded.Discrete.{same, same_refl, same-eq}

pub pop-append {ℓ} : {A : Type ℓ} (xs : List A) (x : A) → pop (xs ++ (x ∷ [])) ≡ some (x, xs)
unfolding pop
pop-append [] x = refl
pop-append (y ∷ xs) x = rw (pop-append xs x)

-- a provider that has still to answer with `vs` and `ps`
abbrev pub loaded :
    List (AltDaCommitment × Bool) → List (AltDaCommitment × EncodedPayload) → Preloaded
loaded vs ps = record { validity_entries = reverse vs; encoded_payload_entries = reverse ps }

pop-reverse {ℓ} : {A : Type ℓ} (x : A) (xs : List A) → pop (reverse (x ∷ xs)) ≡ some (x, reverse xs)
pop-reverse x xs = rw (reverse-cons, pop-append)

module _ {E : Type 0} where
  get_validity_top :
      (c : AltDaCommitment) (stored : AltDaCommitment) (v : Bool)
      (vs : List (AltDaCommitment × Bool)) (ps : List (AltDaCommitment × EncodedPayload))
      → get_validity {E = E} c (loaded ((stored, v) ∷ vs) ps)
        ≡ (if same stored c then ok v else panic, loaded vs ps)
  unfolding get_validity
  get_validity_top c stored v vs ps = rw (get_validity, pop-reverse)

  get_encoded_payload_top :
      (c : AltDaCommitment) (stored : AltDaCommitment) (p : EncodedPayload)
      (vs : List (AltDaCommitment × Bool)) (ps : List (AltDaCommitment × EncodedPayload))
      → get_encoded_payload {E = E} c (loaded vs ((stored, p) ∷ ps))
        ≡ (if same stored c then ok p else panic, loaded vs ps)
  unfolding get_encoded_payload
  get_encoded_payload_top c stored p vs ps = rw (get_encoded_payload, pop-reverse)

  pub get_validity-loaded :
      (c : AltDaCommitment) (v : Bool) (vs : List (AltDaCommitment × Bool))
      (ps : List (AltDaCommitment × EncodedPayload))
      → get_validity {E = E} c (loaded ((c, v) ∷ vs) ps) ≡ (ok v, loaded vs ps)
  get_validity-loaded c v vs ps = rw (get_validity_top, same_refl c)

  pub get_encoded_payload-loaded :
      (c : AltDaCommitment) (p : EncodedPayload) (vs : List (AltDaCommitment × Bool))
      (ps : List (AltDaCommitment × EncodedPayload))
      → get_encoded_payload {E = E} c (loaded vs ((c, p) ∷ ps)) ≡ (ok p, loaded vs ps)
  get_encoded_payload-loaded c p vs ps = rw (get_encoded_payload_top, same_refl c)

  -- An answer about validity is that of the first claim not yet used, and that claim is about the
  -- commitment that was asked for; if there is no claim left, or it is about another commitment,
  -- there is no answer.
  pub get_validity_inversion :
      (c : AltDaCommitment) (v : Bool) (vs : List (AltDaCommitment × Bool))
      (ps : List (AltDaCommitment × EncodedPayload)) (p : Preloaded)
      → get_validity {E = E} c (loaded vs ps) ≡ (ok v, p)
      → (rest : List (AltDaCommitment × Bool)) × (vs ≡ (c, v) ∷ rest) × (p ≡ loaded rest ps)
  unfolding get_validity pop
  get_validity_inversion c v [] ps p h = absurd (ground (arith))
  get_validity_inversion c v ((stored, u) ∷ vs) ps p h =
      let top = sym (get_validity_top c stored u vs ps) ∙ h in
      elim (Bool-cases (same stored c)) [
        | inl yes_same ↦
            let e = rw yes_same at top in
            (
              vs,
              ap (λ t. t ∷ vs)
                  (ap₂ (λ a b. (a, b)) (same-eq stored c yes_same)
                    (ok-injective (ap (λ t. t.0) e))),
              sym (ap (λ t. t.1) e),
            )
        | inr other ↦ let e = rw other at top in absurd (ground (arith))
      ]

  -- A payload that is answered is the first one not yet used, and that one is about the commitment
  -- that was asked for; if there is none left, or it is about another commitment, there is no
  -- answer.
  pub get_encoded_payload_inversion :
      (c : AltDaCommitment) (e : EncodedPayload) (vs : List (AltDaCommitment × Bool))
      (ps : List (AltDaCommitment × EncodedPayload)) (p : Preloaded)
      → get_encoded_payload {E = E} c (loaded vs ps) ≡ (ok e, p)
      → (rest : List (AltDaCommitment × EncodedPayload)) × (ps ≡ (c, e) ∷ rest)
        × (p ≡ loaded vs rest)
  unfolding get_encoded_payload pop
  get_encoded_payload_inversion c v vs [] p h = absurd (ground (arith))
  get_encoded_payload_inversion c v vs ((stored, u) ∷ ps) p h =
      let top = sym (get_encoded_payload_top c stored u vs ps) ∙ h in
      elim (Bool-cases (same stored c)) [
        | inl yes_same ↦
            let e = rw yes_same at top in
            (
              ps,
              ap (λ t. t ∷ ps)
                  (ap₂ (λ a b. (a, b)) (same-eq stored c yes_same)
                    (ok-injective (ap (λ t. t.0) e))),
              sym (ap (λ t. t.1) e),
            )
        | inr other ↦ let e = rw other at top in absurd (ground (arith))
      ]
