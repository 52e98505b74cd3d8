-- ===== src/Sp1Bn/Batch/Equation.antt =====
-- The equation that crates/sp1-bn-verifier/src/batch.rs checks, and why honest proofs meet it.
use mathlib.Core.List.{append_assoc, append-nil}
use hokulea.Base.{
  ℕ, ◌+◌, ◌≡◌, ◌≢◌, ◌↔◌, refl, ap, ap₂, sym, ◌∙◌, Bool, true, some, List, [], ◌∷◌, ◌++◌, map, ok,
  ◌==◌, Bool-cases, inl, inr, length, length-append, get_elem?, get_elem?-map_middle,
  get_elem?-middle, ◌<◌, arith,
}
use hokulea.Sp1Bn.{Substrate}
use hokulea.Sp1Bn.Batch.{difference, push_terms, check_equation}
use hokulea.Sp1Bn.Challenge.Entries.{
  Entry, commitments_of, zs_of, ys_of, proofs_of, length-commitments_of, length-proofs_of,
}
use hokulea.Sp1Bn.Consts.{g2_tau}
use hokulea.Sp1Bn.Laws.{IsSubstrate, IsPairing, IsTarget, lincomb}
use hokulea.Sp1Bn.Points.{g1_lincomb, pairings_verify}

module _ (s : Substrate) where
  open s use {
    Fr, fr_mul, G1, g1_zero, g1_one, g1_add, g1_sub, g1_neg, g1_mul, AffineG1, affine_into, G2, Gt,
  }

  -- `Cᵢ - [yᵢ]` of an entry
  unfoldable pub shifted : Entry Fr AffineG1 → G1
  shifted e = g1_sub (affine_into e.commitment) (g1_mul g1_one e.y)

  -- `Σ rᵢ · proofᵢ`
  unfoldable pub proof_sum : List (Entry Fr AffineG1) → List Fr → G1
  proof_sum [] rs = g1_zero
  proof_sum (e ∷ entries) [] = g1_zero
  proof_sum (e ∷ entries) (r ∷ rs) = g1_add (g1_mul (affine_into e.proof) r) (proof_sum entries rs)

  -- `Σ rᵢ · (Cᵢ - [yᵢ])`
  unfoldable pub shifted_sum : List (Entry Fr AffineG1) → List Fr → G1
  shifted_sum [] rs = g1_zero
  shifted_sum (e ∷ entries) [] = g1_zero
  shifted_sum (e ∷ entries) (r ∷ rs) = g1_add (g1_mul (shifted e) r) (shifted_sum entries rs)

  -- `Σ rᵢ · zᵢ · proofᵢ`
  unfoldable pub proof_z_sum : List (Entry Fr AffineG1) → List Fr → G1
  proof_z_sum [] rs = g1_zero
  proof_z_sum (e ∷ entries) [] = g1_zero
  proof_z_sum (e ∷ entries) (r ∷ rs) =
      g1_add (g1_mul (affine_into e.proof) (fr_mul r e.z)) (proof_z_sum entries rs)

module _ (s : Substrate) (laws : IsSubstrate s) (pairing : IsPairing s) where
  open s use {
    Fr, fr_mul, G1, g1_zero, g1_one, g1_add, g1_sub, g1_neg, g1_mul, g1_is_zero, AffineG1,
    affine_into, affine_default, affine_from_jacobian, G2, Gt,
  }

  pub difference_total :
      (e : Entry Fr AffineG1)
      → (d : AffineG1) × (difference s e.commitment e.y ≡ ok d) × (affine_into d ≡ shifted s e)
  unfolding difference shifted
  difference_total e = elim (Bool-cases (g1_is_zero (shifted s e))) [
    | inl vanishes ↦ (
      affine_default,
      rw vanishes,
      pairing.into_default ∙ sym (pairing.zero_of_is_zero (shifted s e) vanishes),
    )
    | inr finite ↦
        let (d, q) = laws.affine_from_jacobian_total (shifted s e) finite in
        (d, rw (finite, q), pairing.into-from_jacobian (shifted s e) d q)
  ]

  -- a sum that the library makes
  pub g1_lincomb_lem :
      (points : List AffineG1) (scalars : List Fr)
      → points ≢ []
      → length points ≡ length scalars
      → g1_lincomb s points scalars ≡ ok (lincomb s points scalars)
  unfolding g1_lincomb
  g1_lincomb_lem points scalars ne h =
      let (sum, e) = laws.msm_total points scalars ne h in
      let same : (length points == length scalars) ≡ true = ground arith in
      rw (same, e) (ap ok (pairing.into-msm points scalars sum h e))

  lincomb-proofs :
      (entries : List (Entry Fr AffineG1)) (rs : List Fr)
      → lincomb s (proofs_of s entries) rs ≡ proof_sum s entries rs
  unfolding lincomb proofs_of proof_sum
  lincomb-proofs [] rs = refl
  lincomb-proofs (e ∷ entries) [] = refl
  lincomb-proofs (e ∷ entries) (r ∷ rs) = ap (g1_add _) (lincomb-proofs entries rs)

  -- The equation holds for a point and its shift with the pairing's other sides.
  abbrev pub Balanced : G2 → G2 → G1 → G1 → Type 0
  Balanced tau q a b = pairing.pair a tau ≡ pairing.pair b q

  pub Balanced-add :
      (tau q : G2) (a b c d : G1)
      → Balanced tau q a b
      → Balanced tau q c d
      → Balanced tau q (g1_add a c) (g1_add b d)
  Balanced-add tau q a b c d h k =
      pairing.pair-add a c tau ∙ ap₂ pairing.gt_mul h k ∙ sym (pairing.pair-add b d q)

  pub Balanced-mul :
      (tau q : G2) (a b : G1) (r : Fr)
      → Balanced tau q a b
      → Balanced tau q (g1_mul a r) (g1_mul b r)
  Balanced-mul tau q a b r h =
      pairing.pair-mul a r tau ∙ ap (λ x. pairing.gt_pow x r) h ∙ sym (pairing.pair-mul b r q)

  pub pairings_verify-Balanced :
      (tau q : G2) (a b : G1) → Balanced tau q a b → pairings_verify s a tau b q ≡ true
  unfolding pairings_verify
  pairings_verify-Balanced tau q a b h =
      rw (pairings_verify, pairing.pairing_batch_two a (g1_neg b) tau q, h, pairing.pair-neg b q)
        (pairing.gt_eq_refl s.gt_one)

  -- A pairing that is cancelled by the pairing of the opposite point is the pairing of that point.
  pair_of_cancels :
      IsTarget s pairing
      → (x : Gt) (b : G1) (q : G2) → pairing.gt_mul x (pairing.pair (g1_neg b) q) ≡ s.gt_one
      → x ≡ pairing.pair b q
  pair_of_cancels target x b q h =
      let y = pairing.pair b q in
      let y' = pairing.pair (g1_neg b) q in
      sym (target.gt_one_mul x)
      ∙ target.gt_mul_comm s.gt_one x
      ∙ ap (pairing.gt_mul x) (sym (pairing.pair-neg b q) ∙ target.gt_mul_comm y y')
      ∙ sym (target.gt_mul_assoc x y' y)
      ∙ ap (λ z. pairing.gt_mul z y) h
      ∙ target.gt_one_mul y

  Balanced-pairings_verify :
      IsTarget s pairing
      → (tau q : G2) (a b : G1) → pairings_verify s a tau b q ≡ true
      → Balanced tau q a b
  unfolding pairings_verify
  Balanced-pairings_verify target tau q a b h =
      pair_of_cancels target (pairing.pair a tau) b q
        (sym (pairing.pairing_batch_two a (g1_neg b) tau q) ∙ target.eq_of_gt_eq _ s.gt_one h)

  -- The equation of a batch with the weights `rs`, of two pairings: the weighted proofs with `tau`, and
  -- the weighted shifts, with the proofs weighted by `rᵢ · zᵢ` too, with the generator.
  abbrev pub BatchEquation : List (Entry Fr AffineG1) → List Fr → G2 → Type 0
  BatchEquation entries rs tau =
      pairing.pair (proof_sum s entries rs) tau
      ≡ pairing.pair (g1_add (shifted_sum s entries rs) (proof_z_sum s entries rs))
          (s.affine_g2_into s.affine_g2_one)

  -- What the loop pushes: the shifted commitments, and the scalars of the proofs.
  record Terms (entries : List (Entry Fr AffineG1)) (rs : List Fr) : Type 0 where
    pub c_minus_y : List AffineG1
    pub r_times_z : List Fr
    pub length_c_minus_y : length c_minus_y ≡ length entries
    pub length_r_times_z : length r_times_z ≡ length entries
    pub c_minus_y_sum : lincomb s c_minus_y rs ≡ shifted_sum s entries rs
    pub r_times_z_sum : lincomb s (proofs_of s entries) r_times_z ≡ proof_z_sum s entries rs

  push_terms_lem :
      (entries done all : List (Entry Fr AffineG1)) (rs rs_done rs_all : List Fr) (i : ℕ)
      (cs : List AffineG1) (ts : List Fr)
      → all ≡ done ++ entries
      → rs_all ≡ rs_done ++ rs
      → length done ≡ i
      → length rs_done ≡ i
      → length rs ≡ length entries
      → (t : Terms entries rs) × (push_terms s
            (commitments_of s all)
            (zs_of s all)
            (ys_of s all)
            rs_all
            (length entries)
            i
            cs
            ts
          ≡ ok (cs ++ t.c_minus_y, ts ++ t.r_times_z))
  unfolding push_terms commitments_of zs_of ys_of proofs_of lincomb shifted_sum proof_z_sum
  push_terms_lem [] done all rs rs_done rs_all i cs ts ha hr hi hri hl = (
    record {
      c_minus_y = [];
      r_times_z = [];
      length_c_minus_y = refl;
      length_r_times_z = refl;
      c_minus_y_sum = refl;
      r_times_z_sum = refl;
    },
    rw (append-nil cs, append-nil ts),
  )
  push_terms_lem (e ∷ entries) done all [] rs_done rs_all i cs ts ha hr hi hri hl =
      absurd (omega arith)
  push_terms_lem (e ∷ entries) done all (r ∷ rs) rs_done rs_all i cs ts ha hr hi hri hl =
      let (d, d_eq, d_into) = difference_total e in
      let m = fr_mul r e.z in
      let (t, later) =
        push_terms_lem entries (done ++ e ∷ []) all rs (rs_done ++ r ∷ []) rs_all (i + 1)
          (cs ++ d ∷ []) (ts ++ m ∷ []) (ha ∙ sym (append_assoc done (e ∷ []) entries))
          (hr ∙ sym (append_assoc rs_done (r ∷ []) rs)) (omega (arith, length-append done (e ∷ [])))
          (omega (arith, length-append rs_done (r ∷ []))) (omega arith) in
      (
        record {
          c_minus_y = d ∷ t.c_minus_y;
          r_times_z = m ∷ t.r_times_z;
          length_c_minus_y = omega (arith, t.length_c_minus_y);
          length_r_times_z = omega (arith, t.length_r_times_z);
          c_minus_y_sum = ap₂ g1_add (ap (λ x. g1_mul x r) d_into) t.c_minus_y_sum;
          r_times_z_sum = ap (g1_add (g1_mul (affine_into e.proof) m)) t.r_times_z_sum;
        },
        rw
            (
              at_entry ha hi (λ (x : Entry Fr AffineG1). x.y),
              at_entry ha hi (λ (x : Entry Fr AffineG1). x.commitment),
              d_eq,
              at_power hr hri,
              at_entry ha hi (λ (x : Entry Fr AffineG1). x.z),
              later,
            )
            (simp append_assoc),
      )
    where
      at_entry :
          all ≡ done ++ e ∷ entries
          → length done ≡ i
          → {B : Type 0} (f : Entry Fr AffineG1 → B) → get_elem? (map f all) i ≡ some (f e)
      at_entry ha hi f =
          ap (λ t. get_elem? (map f t) i) ha ∙ get_elem?-map_middle f done e entries i hi

      at_power : rs_all ≡ rs_done ++ r ∷ rs → length rs_done ≡ i → get_elem? rs_all i ≡ some r
      at_power hr hri = ap (λ t. get_elem? t i) hr ∙ get_elem?-middle rs_done r rs i hri

  -- what the verifier's last call comes to, on the sums of a batch
  abbrev pub verdict : List (Entry Fr AffineG1) → List Fr → G2 → Bool
  verdict entries rs tau =
      pairings_verify s (proof_sum s entries rs) tau
        (g1_add (shifted_sum s entries rs) (proof_z_sum s entries rs))
        (s.affine_g2_into s.affine_g2_one)

  pub verdict_iff :
      IsTarget s pairing
      → (entries : List (Entry Fr AffineG1)) (rs : List Fr) (tau : G2)
      → (verdict entries rs tau ≡ true) ↔ BatchEquation entries rs tau
  verdict_iff target entries rs tau =
      let q = s.affine_g2_into s.affine_g2_one in
      let left = proof_sum s entries rs in
      let right = g1_add (shifted_sum s entries rs) (proof_z_sum s entries rs) in
      (Balanced-pairings_verify target tau q left right, pairings_verify-Balanced tau q left right)

  pub check_equation_lem :
      (entries : List (Entry Fr AffineG1)) (rs : List Fr) (tau : G2)
      → 0 < length entries
      → length rs ≡ length entries
      → g2_tau s ≡ ok tau
      → check_equation s
          (commitments_of s entries)
          (zs_of s entries)
          (ys_of s entries)
          (proofs_of s entries)
          rs
        ≡ ok (verdict entries rs tau)
  unfolding check_equation
  check_equation_lem entries rs tau nonempty hr ht =
      let (t, pushed) = push_terms_lem entries [] entries rs [] rs 0 [] [] refl refl refl refl hr in
      let count = length-commitments_of s entries in
      let proofs = length-proofs_of s entries in
      rw (
        g1_lincomb_lem (proofs_of s entries) rs (λ e. omega (arith, ap length e)) (omega arith),
        count,
        pushed,
        g1_lincomb_lem (proofs_of s entries) t.r_times_z (λ e. omega (arith, ap length e))
            (omega (arith, t.length_r_times_z)),
        g1_lincomb_lem t.c_minus_y rs (λ e. omega (arith, ap length e, t.length_c_minus_y))
            (omega (arith, t.length_c_minus_y)),
        ht,
        lincomb-proofs entries rs,
        t.c_minus_y_sum,
        t.r_times_z_sum,
      )
