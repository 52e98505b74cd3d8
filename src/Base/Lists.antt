-- ===== src/Base/Lists.antt =====
-- Lists measured and indexed by the native numbers, under the library's names.
use Prim.Native.Nat.{ℕ, zero, suc, ◌+◌, ◌-◌, ◌≤◌, ◌<◌, min}
use mathlib.Core.Path.{◌≡◌, refl, ap, sym, ◌∙◌}
use mathlib.Core.List.{List, [], ◌∷◌, ◌++◌, map, reverse, reverse-append}
use mathlib.Core.Option.{Option, none, some}
use native.Mathlib.Omega.{arith}

module _ {ℓ} {A : Type ℓ} where
  abbrev pub drop : ℕ → List A → List A
  drop zero items = items
  drop (suc n) [] = []
  drop (suc n) (item ∷ items) = drop n items

  abbrev pub replicate : ℕ → A → List A
  replicate zero a = []
  replicate (suc n) a = a ∷ replicate n a

  abbrev pub length : List A → ℕ
  length [] = 0
  length (item ∷ items) = suc (length items)

  -- A write out of bounds changes nothing.
  abbrev pub set : List A → ℕ → A → List A
  set [] i v = []
  set (item ∷ items) zero v = v ∷ items
  set (item ∷ items) (suc i) v = item ∷ set items i v

  abbrev pub take : ℕ → List A → List A
  take zero items = []
  take (suc n) [] = []
  take (suc n) (item ∷ items) = item ∷ take n items

  abbrev pub get_elem? : List A → ℕ → Option A
  get_elem? [] i = none
  get_elem? (item ∷ items) zero = some item
  get_elem? (item ∷ items) (suc i) = get_elem? items i

  pub length-append : (xs ys : List A) → length (xs ++ ys) ≡ length xs + length ys
  length-append [] ys = omega arith
  length-append (x ∷ xs) ys = omega (arith, length-append xs ys)

  pub length-take : (n : ℕ) (xs : List A) → length (take n xs) ≡ min n (length xs)
  length-take zero xs = omega arith
  length-take (suc n) [] = omega arith
  length-take (suc n) (x ∷ xs) = omega (arith, length-take n xs)

  pub length-drop : (n : ℕ) (xs : List A) → length (drop n xs) ≡ length xs - n
  length-drop zero xs = omega arith
  length-drop (suc n) [] = omega arith
  length-drop (suc n) (x ∷ xs) = omega (arith, length-drop n xs)

  pub length-replicate : (n : ℕ) (a : A) → length (replicate n a) ≡ n
  length-replicate zero a = refl
  length-replicate (suc n) a = ap suc (length-replicate n a)

  pub length-set : (xs : List A) (i : ℕ) (v : A) → length (set xs i v) ≡ length xs
  length-set [] i v = refl
  length-set (x ∷ xs) zero v = refl
  length-set (x ∷ xs) (suc i) v = ap suc (length-set xs i v)

  pub take-append-drop : (n : ℕ) (xs : List A) → take n xs ++ drop n xs ≡ xs
  take-append-drop zero xs = refl
  take-append-drop (suc n) [] = refl
  take-append-drop (suc n) (x ∷ xs) = ap (◌∷◌ x) (take-append-drop n xs)

  pub take-append : (n : ℕ) (xs ys : List A) → length xs ≡ n → take n (xs ++ ys) ≡ xs
  take-append zero [] ys h = refl
  take-append zero (x ∷ xs) ys h = absurd (omega arith)
  take-append (suc n) [] ys h = absurd (omega arith)
  take-append (suc n) (x ∷ xs) ys h = ap (◌∷◌ x) (take-append n xs ys (omega arith))

  pub drop-append : (n : ℕ) (xs ys : List A) → length xs ≡ n → drop n (xs ++ ys) ≡ ys
  drop-append zero [] ys h = refl
  drop-append zero (x ∷ xs) ys h = absurd (omega arith)
  drop-append (suc n) [] ys h = absurd (omega arith)
  drop-append (suc n) (x ∷ xs) ys h = drop-append n xs ys (omega arith)

  pub take-append_less : (n : ℕ) (xs ys : List A) → n ≤ length xs → take n (xs ++ ys) ≡ take n xs
  take-append_less zero xs ys h = refl
  take-append_less (suc n) [] ys h = absurd (omega arith)
  take-append_less (suc n) (x ∷ xs) ys h = ap (◌∷◌ x) (take-append_less n xs ys (omega arith))

  pub take-append_more :
      (n : ℕ) (xs ys : List A) → length xs ≤ n → take n (xs ++ ys) ≡ xs ++ take (n - length xs) ys
  take-append_more n [] ys h = ap (λ (k : ℕ). take k ys) n_less_zero
    where
      n_less_zero : n ≡ n - 0
      n_less_zero = omega arith
  take-append_more zero (x ∷ xs) ys h = absurd (omega arith)
  take-append_more (suc n) (x ∷ xs) ys h =
      ap (◌∷◌ x) (take-append_more n xs ys (omega arith) ∙ ap (λ (k : ℕ). xs ++ take k ys) less)
    where
      less : n - length xs ≡ suc n - suc (length xs)
      less = omega arith

  pub get_elem?-append :
      (xs ys : List A) (i : ℕ) → i < length xs → get_elem? (xs ++ ys) i ≡ get_elem? xs i
  get_elem?-append [] ys i h = absurd (omega arith)
  get_elem?-append (x ∷ xs) ys zero h = refl
  get_elem?-append (x ∷ xs) ys (suc i) h = get_elem?-append xs ys i (omega arith)

  pub get_elem?-append_last :
      (n : ℕ) (xs : List A) (a : A) → length xs ≡ n → get_elem? (xs ++ a ∷ []) n ≡ some a
  get_elem?-append_last zero [] a h = refl
  get_elem?-append_last zero (x ∷ xs) a h = absurd (omega arith)
  get_elem?-append_last (suc n) [] a h = absurd (omega arith)
  get_elem?-append_last (suc n) (x ∷ xs) a h = get_elem?-append_last n xs a (omega arith)

  drop-nil : (k : ℕ) → drop k [] ≡ []
  drop-nil zero = refl
  drop-nil (suc k) = refl

  pub drop-drop : (k m n : ℕ) (xs : List A) → k ≡ n + m → drop k xs ≡ drop m (drop n xs)
  drop-drop k m zero xs h = let e : k ≡ m = omega arith in ap (λ (t : ℕ). drop t xs) e
  drop-drop k m (suc n) [] h = drop-nil k ∙ sym (drop-nil m)
  drop-drop zero m (suc n) (x ∷ xs) h = absurd (omega arith)
  drop-drop (suc k) m (suc n) (x ∷ xs) h = drop-drop k m n xs (omega arith)

  pub drop-replicate : (m n k : ℕ) (a : A) → n ≡ m + k → drop m (replicate n a) ≡ replicate k a
  drop-replicate zero n k a h = let e : n ≡ k = omega arith in ap (λ (t : ℕ). replicate t a) e
  drop-replicate (suc m) zero k a h = absurd (omega arith)
  drop-replicate (suc m) (suc n) k a h = drop-replicate m n k a (omega arith)

  pub replicate-add :
      (m n k : ℕ) (a : A) → k ≡ m + n → replicate k a ≡ replicate m a ++ replicate n a
  replicate-add zero n k a h = let e : k ≡ n = omega arith in ap (λ (t : ℕ). replicate t a) e
  replicate-add (suc m) n zero a h = absurd (omega arith)
  replicate-add (suc m) n (suc k) a h = ap (◌∷◌ a) (replicate-add m n k a (omega arith))

  pub length-reverse : (xs : List A) → length (reverse xs) ≡ length xs
  length-reverse [] = refl
  length-reverse (x ∷ xs) =
      ap length (reverse-append (x ∷ []) xs)
      ∙ omega (arith, length-append (reverse xs) (x ∷ []), length-reverse xs)

  pub get_elem?_total : (xs : List A) (i : ℕ) → i < length xs → (a : A) × (get_elem? xs i ≡ some a)
  get_elem?_total [] i h = absurd (omega arith)
  get_elem?_total (x ∷ xs) zero h = (x, refl)
  get_elem?_total (x ∷ xs) (suc i) h = get_elem?_total xs i (omega arith)

  pub take_of_length-le : (n : ℕ) (items : List A) → length items ≤ n → take n items ≡ items
  take_of_length-le zero [] h = refl
  take_of_length-le zero (item ∷ items) h = absurd (omega arith)
  take_of_length-le (suc n) [] h = refl
  take_of_length-le (suc n) (item ∷ items) h =
      ap (◌∷◌ item) (take_of_length-le n items (omega arith))

  pub nil_of_length : (xs : List A) → length xs ≡ 0 → xs ≡ []
  nil_of_length [] h = refl
  nil_of_length (x ∷ xs) h = absurd (omega arith)

pub length-map {ℓ κ} :
    {A : Type ℓ} {B : Type κ} (f : A → B) (xs : List A) → length (map f xs) ≡ length xs
length-map f [] = refl
length-map f (x ∷ xs) = ap suc (length-map f xs)

pub map-map {ℓ κ μ} :
    {A : Type ℓ} {B : Type κ} {C : Type μ} (g : B → C) (f : A → B) (xs : List A)
    → map g (map f xs) ≡ map (λ x. g (f x)) xs
map-map g f [] = refl
map-map g f (x ∷ xs) = ap (◌∷◌ (g (f x))) (map-map g f xs)

-- an element behind as many as its index
pub get_elem?-middle {ℓ} :
    {A : Type ℓ} (xs : List A) (x : A) (ys : List A) (i : ℕ)
    → length xs ≡ i
    → get_elem? (xs ++ x ∷ ys) i ≡ some x
get_elem?-middle [] x ys zero h = refl
get_elem?-middle [] x ys (suc i) h = absurd (omega arith)
get_elem?-middle (z ∷ xs) x ys zero h = absurd (omega arith)
get_elem?-middle (z ∷ xs) x ys (suc i) h = get_elem?-middle xs x ys i (omega arith)

-- an element of a mapped list, behind as many as its index
pub get_elem?-map_middle {ℓ κ} :
    {A : Type ℓ} {B : Type κ} (f : A → B) (xs : List A) (x : A) (ys : List A) (i : ℕ)
    → length xs ≡ i
    → get_elem? (map f (xs ++ x ∷ ys)) i ≡ some (f x)
get_elem?-map_middle f [] x ys zero h = refl
get_elem?-map_middle f [] x ys (suc i) h = absurd (omega arith)
get_elem?-map_middle f (z ∷ xs) x ys zero h = absurd (omega arith)
get_elem?-map_middle f (z ∷ xs) x ys (suc i) h = get_elem?-map_middle f xs x ys i (omega arith)
