-- ===== src/Tests/Codec.antt =====
-- Codecs over numbers, by their parts: the stand-in for cbor-x is made of them.
use teekit.Common.{
  ℕ, zero, suc, ◌≡◌, refl, ◌⊎◌, inl, inr, Option, none, some, List, [], ◌∷◌, ◌++◌, length,
}
use mathlib.Core.List.{append_assoc}

pub record Codec (A : Type 0) : Type 0 where
  pub write : A → List ℕ
  pub read : List ℕ → Option (A × List ℕ)
  pub read_write : (a : A) (rest : List ℕ) → read (write a ++ rest) ≡ some (a, rest)

abbrev read_number : List ℕ → Option (ℕ × List ℕ)
read_number [] = none
read_number (n ∷ rest) = some (n, rest)

abbrev pub number : Codec ℕ
number = record { write = λ n. n ∷ []; read = read_number; read_write = λ n rest. refl }

abbrev pub unit : Codec (Unit {0})
unit = record { write = λ u. []; read = λ rest. some (tt, rest); read_write = λ u rest. refl }

module _ {A B : Type 0} (a : Codec A) (b : Codec B) where
  abbrev read_second : A → Option (B × List ℕ) → Option ((A × B) × List ℕ)
  read_second x none = none
  read_second x (some (y, rest)) = some ((x, y), rest)

  abbrev read_pair : Option (A × List ℕ) → Option ((A × B) × List ℕ)
  read_pair none = none
  read_pair (some (x, rest)) = read_second x (b.read rest)

  pub read_write-pair :
      (p : A × B) (rest : List ℕ)
      → read_pair (a.read ((a.write p.0 ++ b.write p.1) ++ rest)) ≡ some (p, rest)
  read_write-pair (x, y) rest =
      rw
        (
          append_assoc (a.write x) (b.write y) rest,
          a.read_write x (b.write y ++ rest),
          b.read_write y rest,
        )
        refl

  abbrev pub pair : Codec (A × B)
  pair = record {
    write = λ p. a.write p.0 ++ b.write p.1;
    read = λ l. read_pair (a.read l);
    read_write = read_write-pair;
  }

  abbrev write_sum : A ⊎ B → List ℕ
  write_sum (inl x) = 0 ∷ a.write x
  write_sum (inr y) = 1 ∷ b.write y

  abbrev left : Option (A × List ℕ) → Option ((A ⊎ B) × List ℕ)
  left none = none
  left (some (x, rest)) = some (inl x, rest)

  abbrev right : Option (B × List ℕ) → Option ((A ⊎ B) × List ℕ)
  right none = none
  right (some (y, rest)) = some (inr y, rest)

  abbrev read_sum : List ℕ → Option ((A ⊎ B) × List ℕ)
  read_sum [] = none
  read_sum (zero ∷ rest) = left (a.read rest)
  read_sum (suc n ∷ rest) = right (b.read rest)

  pub read_write-sum : (s : A ⊎ B) (rest : List ℕ) → read_sum (write_sum s ++ rest) ≡ some (s, rest)
  read_write-sum (inl x) rest = rw (a.read_write x rest) refl
  read_write-sum (inr y) rest = rw (b.read_write y rest) refl

  abbrev pub sum : Codec (A ⊎ B)
  sum = record { write = write_sum; read = read_sum; read_write = read_write-sum }

module _ {A B : Type 0} (a : Codec A) (to : B → A) (from : A → B)
    (law : (b : B) → from (to b) ≡ b) where
  abbrev read_as : Option (A × List ℕ) → Option (B × List ℕ)
  read_as none = none
  read_as (some (x, rest)) = some (from x, rest)

  pub read_write-as :
      (b : B) (rest : List ℕ) → read_as (a.read (a.write (to b) ++ rest)) ≡ some (b, rest)
  read_write-as b rest = rw (a.read_write (to b) rest, law b) refl

  abbrev pub mapped : Codec B
  mapped = record {
    write = λ b. a.write (to b);
    read = λ l. read_as (a.read l);
    read_write = read_write-as;
  }

module _ {A : Type 0} (a : Codec A) where
  abbrev write_all : List A → List ℕ
  write_all [] = []
  write_all (x ∷ xs) = a.write x ++ write_all xs

  abbrev cons_all : A → Option (List A × List ℕ) → Option (List A × List ℕ)
  cons_all x none = none
  cons_all x (some (xs, rest)) = some (x ∷ xs, rest)

  abbrev read_all : ℕ → List ℕ → Option (List A × List ℕ)
  read_all zero l = some ([], l)
  read_all (suc n) l = elim (a.read l) [
    | none ↦ none
    | some (x, rest) ↦ cons_all x (read_all n rest)
  ]

  pub read_all-write_all :
      (xs : List A) (rest : List ℕ) → read_all (length xs) (write_all xs ++ rest) ≡ some (xs, rest)
  read_all-write_all [] rest = refl
  read_all-write_all (x ∷ xs) rest =
      rw
        (
          append_assoc (a.write x) (write_all xs) rest,
          a.read_write x (write_all xs ++ rest),
          read_all-write_all xs rest,
        )
        refl

  abbrev read_list : List ℕ → Option (List A × List ℕ)
  read_list [] = none
  read_list (n ∷ rest) = read_all n rest

  abbrev pub list : Codec (List A)
  list = record {
    write = λ xs. length xs ∷ write_all xs;
    read = read_list;
    read_write = read_all-write_all;
  }

  abbrev to_sum : Option A → Unit {0} ⊎ A
  to_sum none = inl tt
  to_sum (some x) = inr x

  abbrev from_sum : Unit {0} ⊎ A → Option A
  from_sum (inl u) = none
  from_sum (inr x) = some x

  pub from_sum-to_sum : (o : Option A) → from_sum (to_sum o) ≡ o
  from_sum-to_sum none = refl
  from_sum-to_sum (some x) = refl

  abbrev pub option : Codec (Option A)
  option = mapped (sum unit a) to_sum from_sum from_sum-to_sum
