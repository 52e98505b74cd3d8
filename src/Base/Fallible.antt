-- ===== src/Base/Fallible.antt =====
-- What a call of a fallible function comes to: a value, an error value, or a panic (an index or a
-- slice out of range, a failed assertion, an `expect` on an error).
use mathlib.Core.Path.{◌≡◌, refl, sym, ap}
use mathlib.Core.Logic.{◌≢◌}
use mathlib.Core.Bool.{Bool, true, false}
use mathlib.Core.Option.{Option, none, some}
use hokulea.Base.Tests.{if◌then◌else◌}
use mathlib.Core.List.{List, [], ◌∷◌}

pub data Outcome {ℓ κ} (E : Type κ) (A : Type ℓ) : Type (ℓ ⊔ κ) where
  ok : A → Outcome E A
  err : E → Outcome E A
  panic : Outcome E A

infixl 5 ◌>>=◌ ◌>>◌
abbrev pub ◌>>=◌ {ℓ κ μ} :
    {E : Type κ} {A : Type ℓ} {B : Type μ} → Outcome E A → (A → Outcome E B) → Outcome E B
ok a >>= f = f a
err e >>= f = err e
panic >>= f = panic

abbrev pub ◌>>◌ {ℓ κ μ} :
    {E : Type κ} {A : Type ℓ} {B : Type μ} → Outcome E A → Outcome E B → Outcome E B
m >> k = m >>= λ _. k

-- `map_err(f)`, and the conversion that `?` makes
abbrev pub map_err {ℓ κ μ} :
    {E : Type κ} {F : Type μ} {A : Type ℓ} → (E → F) → Outcome E A → Outcome F A
map_err f (ok a) = ok a
map_err f (err e) = err (f e)
map_err f panic = panic

-- `.expect(..)` and `.unwrap()`
abbrev pub expect {ℓ κ μ} : {E : Type κ} {F : Type μ} {A : Type ℓ} → Outcome E A → Outcome F A
expect (ok a) = ok a
expect (err e) = panic
expect panic = panic

-- an index, or a slice, that may be out of range
abbrev pub or_panic {ℓ κ} : {E : Type κ} {A : Type ℓ} → Option A → Outcome E A
or_panic none = panic
or_panic (some a) = ok a

-- `assert!(b)`
abbrev pub assert {κ} : {E : Type κ} → Bool → Outcome E (Unit {0})
assert true = ok tt
assert false = panic

-- an iterator mapped by a fallible function and collected
abbrev pub traverse {ℓ κ μ} :
    {E : Type κ} {A : Type ℓ} {B : Type μ} → (A → Outcome E B) → List A → Outcome E (List B)
traverse f [] = ok []
traverse f (x ∷ xs) = do y ← f x; ys ← traverse f xs; ok (y ∷ ys)

-- Inversion of a successful bind.
pub >>=-eq-ok {ℓ κ μ} :
    {E : Type κ} {A : Type ℓ} {B : Type μ} (call : Outcome E A) (rest : A → Outcome E B) {out : B}
    → (call >>= rest) ≡ ok out
    → (value : A) × (call ≡ ok value) × (rest value ≡ ok out)
>>=-eq-ok panic rest h = cc
>>=-eq-ok (err e) rest h = cc
>>=-eq-ok (ok value) rest h = (value, refl, h)

pub ok-injective {ℓ κ} :
    {E : Type κ} {A : Type ℓ} {a b : A} → ◌≡◌ {A = Outcome E A} (ok a) (ok b) → a ≡ b
ok-injective e = cc

pub expect-eq-ok {ℓ κ μ} :
    {E : Type κ} {F : Type μ} {A : Type ℓ} (m : Outcome E A) {a : A}
    → expect {F = F} m ≡ ok a
    → m ≡ ok a
expect-eq-ok (ok b) h = ap ok (ok-injective h)
expect-eq-ok (err e) h = cc
expect-eq-ok panic h = cc

pub assert-eq-ok {κ} : {E : Type κ} (b : Bool) {u : Unit {0}} → assert {E = E} b ≡ ok u → b ≡ true
assert-eq-ok true h = refl
assert-eq-ok false h = cc

-- a call that returns does not panic
pub ne-panic_of-ok {ℓ κ} :
    {E : Type κ} {A : Type ℓ} {m : Outcome E A} {a : A} → m ≡ ok a → m ≢ panic
ne-panic_of-ok h = λ q. cc

pub ok-ne-panic {ℓ κ} : {E : Type κ} {A : Type ℓ} (a : A) → ◌≢◌ {A = Outcome E A} (ok a) panic
ok-ne-panic a = λ q. cc

pub err-ne-panic {ℓ κ} : {E : Type κ} {A : Type ℓ} (e : E) → ◌≢◌ {A = Outcome E A} (err e) panic
err-ne-panic e = λ q. cc

pub if-ne-panic {ℓ κ} :
    {E : Type κ} {A : Type ℓ} (b : Bool) (m n : Outcome E A)
    → m ≢ panic
    → n ≢ panic
    → (if b then m else n) ≢ panic
if-ne-panic true m n hm hn = hm
if-ne-panic false m n hm hn = hn

-- A chain does not panic if no part of it does, each at the values that the parts before it return.
pub >>=-ne-panic {ℓ κ μ} :
    {E : Type κ} {A : Type ℓ} {B : Type μ} (m : Outcome E A) (f : A → Outcome E B)
    → m ≢ panic
    → ((a : A) → m ≡ ok a → f a ≢ panic)
    → (m >>= f) ≢ panic
>>=-ne-panic (ok a) f hm hf = hf a refl
>>=-ne-panic (err e) f hm hf = λ h. cc
>>=-ne-panic panic f hm hf = λ h. hm refl

pub map_err-ne-panic {ℓ κ μ} :
    {E : Type κ} {F : Type μ} {A : Type ℓ} (f : E → F) (m : Outcome E A)
    → m ≢ panic
    → map_err f m ≢ panic
map_err-ne-panic f (ok a) h = λ e. cc
map_err-ne-panic f (err e) h = λ e. cc
map_err-ne-panic f panic h = λ e. h refl

pub traverse-ne-panic {ℓ κ μ} :
    {E : Type κ} {A : Type ℓ} {B : Type μ} (f : A → Outcome E B)
    → ((a : A) → f a ≢ panic)
    → (xs : List A) → traverse f xs ≢ panic
traverse-ne-panic f h [] = λ e. cc
traverse-ne-panic f h (x ∷ xs) =
    >>=-ne-panic (f x) _ (h x)
      λ y q. >>=-ne-panic (traverse f xs) _ (traverse-ne-panic f h xs) (λ ys q' e. cc)

-- Inversion of a successful traversal.
pub traverse_cons {ℓ κ μ} :
    {E : Type κ} {A : Type ℓ} {B : Type μ} (f : A → Outcome E B) (x : A) (xs : List A)
    (out : List B)
    → traverse f (x ∷ xs) ≡ ok out
    → (y : B) × (ys : List B) × (f x ≡ ok y) × (traverse f xs ≡ ok ys) × (out ≡ y ∷ ys)
traverse_cons f x xs out h =
    let (y, e, h1) = >>=-eq-ok (f x) _ h in
    let (ys, e', h2) = >>=-eq-ok (traverse f xs) _ h1 in (y, ys, e, e', sym (ok-injective h2))
