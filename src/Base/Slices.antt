-- ===== src/Base/Slices.antt =====
-- Predicates on every element, and lists cut at a length.
use Prim.Native.Nat.{ℕ, zero, suc}
use mathlib.Core.List.{List, [], ◌∷◌, ◌++◌}
use hokulea.Base.Lists.{take}

abbrev pub All {ℓ κ} : {A : Type ℓ} → (A → Type κ) → List A → Type κ
All P [] = Unit
All P (x ∷ xs) = P x × All P xs

module _ {ℓ κ} {A : Type ℓ} (P : A → Type κ) where
  pub All-append : (xs ys : List A) → All P xs → All P ys → All P (xs ++ ys)
  All-append [] ys h k = k
  All-append (x ∷ xs) ys h k = (h.0, All-append xs ys h.1 k)

  pub All-take : (n : ℕ) (xs : List A) → All P xs → All P (take n xs)
  All-take zero xs h = tt
  All-take (suc n) [] h = tt
  All-take (suc n) (x ∷ xs) h = (h.0, All-take n xs h.1)
