-- ===== src/Base/Bytes.antt =====
-- Fixed-width big-endian words as byte lists: `to_be_bytes` and `from_be_bytes` of the language.
use Prim.Native.Nat.{ℕ, zero, suc, ◌+◌, ◌*◌, ◌/◌, ◌%◌, ◌^◌, ◌<◌}
use mathlib.Core.Path.{◌≡◌, refl, ap}
use mathlib.Core.List.{List, [], ◌∷◌, ◌++◌}
use mathlib.Core.Bool.{Bool, true, false, ◌&&◌}
use native.Mathlib.Nat.{pow-suc}
use native.Mathlib.Omega.{arith}
use hokulea.Base.Tests.{◌==◌}
use hokulea.Base.Lists.{length, length-append}
use hokulea.Base.Slices.{All, All-append}

abbrev pub IsByte : ℕ → Type 0
IsByte b = b < 256

-- the `w` bytes of `n`, the most significant first
unfoldable pub to_be_bytes : ℕ → ℕ → List ℕ
to_be_bytes zero n = []
to_be_bytes (suc w) n = to_be_bytes w (n / 256) ++ (n % 256 ∷ [])

unfoldable pub be_acc : ℕ → List ℕ → ℕ
be_acc acc [] = acc
be_acc acc (b ∷ bs) = be_acc (acc * 256 + b) bs

unfoldable pub from_be_bytes : List ℕ → ℕ
unfolding be_acc
from_be_bytes bs = be_acc 0 bs

be_acc-append :
    (acc : ℕ) (xs : List ℕ) (b : ℕ) → be_acc acc (xs ++ (b ∷ [])) ≡ be_acc acc xs * 256 + b
unfolding be_acc
be_acc-append acc [] b = refl
be_acc-append acc (x ∷ xs) b = be_acc-append (acc * 256 + x) xs b

pub length-to_be_bytes : (w n : ℕ) → length (to_be_bytes w n) ≡ w
unfolding to_be_bytes
length-to_be_bytes zero n = refl
length-to_be_bytes (suc w) n =
    omega (
      arith,
      length-append (to_be_bytes w (n / 256)) (n % 256 ∷ []),
      length-to_be_bytes w (n / 256),
    )

pub to_be_bytes-IsByte : (w n : ℕ) → All IsByte (to_be_bytes w n)
unfolding to_be_bytes
to_be_bytes-IsByte zero n = tt
to_be_bytes-IsByte (suc w) n =
    All-append IsByte (to_be_bytes w (n / 256)) _ (to_be_bytes-IsByte w (n / 256)) (omega arith)

pub from_be_bytes-to_be_bytes : (w n : ℕ) → n < 256 ^ w → from_be_bytes (to_be_bytes w n) ≡ n
unfolding from_be_bytes to_be_bytes
from_be_bytes-to_be_bytes zero n h = omega arith
from_be_bytes-to_be_bytes (suc w) n h = omega (
  arith,
  be_acc-append 0 (to_be_bytes w (n / 256)) (n % 256),
  from_be_bytes-to_be_bytes w (n / 256) (omega (arith, pow-suc 256 w)),
)

pub to_be_bytes-injective :
    (w m n : ℕ) → m < 256 ^ w → n < 256 ^ w → to_be_bytes w m ≡ to_be_bytes w n → m ≡ n
to_be_bytes-injective w m n hm hn e =
    omega (
      arith,
      from_be_bytes-to_be_bytes w m hm,
      from_be_bytes-to_be_bytes w n hn,
      ap from_be_bytes e,
    )

-- Four bytes are read back from the word that they make.
pub word32_bytes :
    (a b c d : ℕ)
    → All IsByte (a ∷ b ∷ c ∷ d ∷ [])
    → to_be_bytes 4 (from_be_bytes (a ∷ b ∷ c ∷ d ∷ [])) ≡ a ∷ b ∷ c ∷ d ∷ []
unfolding from_be_bytes to_be_bytes
word32_bytes a b c d h = ground arith

pub word32-lt :
    (a b c d : ℕ) → All IsByte (a ∷ b ∷ c ∷ d ∷ []) → from_be_bytes (a ∷ b ∷ c ∷ d ∷ []) < 2 ^ 32
unfolding from_be_bytes
word32-lt a b c d h = omega arith

-- `==` on bytes
unfoldable pub bytes_eq : List ℕ → List ℕ → Bool
bytes_eq [] [] = true
bytes_eq [] (b ∷ bs) = false
bytes_eq (a ∷ xs) [] = false
bytes_eq (a ∷ xs) (b ∷ bs) = (a == b) && bytes_eq xs bs

pub bytes_eq-eq : (xs bs : List ℕ) → bytes_eq xs bs ≡ true → xs ≡ bs
unfolding bytes_eq
bytes_eq-eq [] [] h = refl
bytes_eq-eq [] (b ∷ bs) h = absurd (ground arith)
bytes_eq-eq (a ∷ xs) [] h = absurd (ground arith)
bytes_eq-eq (a ∷ xs) (b ∷ bs) h = ground (arith, bytes_eq-eq xs bs)

pub bytes_eq_refl : (xs : List ℕ) → bytes_eq xs xs ≡ true
unfolding bytes_eq
bytes_eq_refl [] = refl
bytes_eq_refl (a ∷ xs) = ground (arith, bytes_eq_refl xs)
