-- ===== src/Tests/Codec.antt =====
-- A codec for lists of numbers, by combinators.
use hokulea.Base.{
  ℕ, zero, suc, ◌≡◌, refl, Option, none, some, List, [], ◌∷◌, ◌++◌, append_assoc, length,
}
use hokulea.Cert.{ByteList}

pub record Codec (A : Type 0) : Type 0 where
  pub put : A → ByteList
  pub read : ByteList → Option (A × ByteList)
  pub read-put : (a : A) (rest : ByteList) → read (put a ++ rest) ≡ some (a, rest)

pub record Pair (A B : Type 0) : Type 0 where
  pub left : A
  pub right : B

abbrev pub read_number : ByteList → Option (ℕ × ByteList)
read_number [] = none
read_number (n ∷ rest) = some (n, rest)

abbrev pub number : Codec ℕ
number = record { put = λ n. n ∷ []; read = read_number; read-put = λ n rest. refl }

module _ {A B : Type 0} (a : Codec A) (b : Codec B) where
  abbrev pub with_left : A → Option (B × ByteList) → Option (Pair A B × ByteList)
  with_left x none = none
  with_left x (some (y, rest)) = some (record { left = x; right = y }, rest)

  abbrev pub read_right : Option (A × ByteList) → Option (Pair A B × ByteList)
  read_right none = none
  read_right (some (x, rest)) = with_left x (b.read rest)

  pub read-put_pair :
      (p : Pair A B) (rest : ByteList)
      → read_right (a.read ((a.put p.left ++ b.put p.right) ++ rest)) ≡ some (p, rest)
  read-put_pair p rest =
      rw (append_assoc (a.put p.left) (b.put p.right) rest, a.read-put p.left, b.read-put p.right)

  abbrev pub pair : Codec (Pair A B)
  pair = record {
    put = λ p. a.put p.left ++ b.put p.right;
    read = λ bytes. read_right (a.read bytes);
    read-put = read-put_pair;
  }

module _ {A : Type 0} (a : Codec A) where
  abbrev pub put_all : List A → ByteList
  put_all [] = []
  put_all (x ∷ xs) = a.put x ++ put_all xs

  abbrev pub read_cons : A → Option (List A × ByteList) → Option (List A × ByteList)
  read_cons x none = none
  read_cons x (some (xs, rest)) = some (x ∷ xs, rest)

  abbrev pub read_all : ℕ → ByteList → Option (List A × ByteList)
  read_all zero bytes = some ([], bytes)
  read_all (suc n) bytes = elim (a.read bytes) [
    | none ↦ none
    | some (x, rest) ↦ read_cons x (read_all n rest)
  ]

  abbrev pub read_list : ByteList → Option (List A × ByteList)
  read_list [] = none
  read_list (n ∷ bytes) = read_all n bytes

  pub read_all-put_all :
      (xs : List A) (rest : ByteList) → read_all (length xs) (put_all xs ++ rest) ≡ some (xs, rest)
  read_all-put_all [] rest = refl
  read_all-put_all (x ∷ xs) rest =
      rw (append_assoc (a.put x) (put_all xs) rest, a.read-put x, read_all-put_all xs rest)

  abbrev pub list : Codec (List A)
  list = record {
    put = λ xs. length xs ∷ put_all xs;
    read = read_list;
    read-put = read_all-put_all;
  }

abbrev pub bytes : Codec ByteList
bytes = list number

module _ {A B : Type 0} (to : A → B) (from : B → A) (from-to : (a : A) → from (to a) ≡ a)
    (b : Codec B) where
  abbrev pub read_from : Option (B × ByteList) → Option (A × ByteList)
  read_from none = none
  read_from (some (y, rest)) = some (from y, rest)

  pub read-put_from :
      (x : A) (rest : ByteList) → read_from (b.read (b.put (to x) ++ rest)) ≡ some (x, rest)
  read-put_from x rest = rw (b.read-put (to x), from-to x)

  abbrev pub iso : Codec A
  iso = record {
    put = λ x. b.put (to x);
    read = λ bs. read_from (b.read bs);
    read-put = read-put_from;
  }
