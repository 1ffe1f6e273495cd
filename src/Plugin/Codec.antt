-- ===== src/Plugin/Codec.antt =====
-- Codecs that read back what they write, at which the theorems on the actions are tried: functions in
-- the place of encoding/json and encoding/base64.
use Prim.Native.Char.{Char, char, code, IsScalar, IsLt}
use Prim.Native.Nat.{compare, Ordering}
use text.Mathlib.TextBridge.{to_list, of_list, of_list-to_list}
use text.Mathlib.TextEquality.{IsScalar-prop}
use bzero.Shared.{
  ℕ, zero, suc, ◌≡◌, refl, ap, ◌∙◌, Bool, true, false, Option, none, some, String, List, [], ◌∷◌,
  length, ◌>>=◌,
}
use bzero.Mrtap.Types.{Bytes}

pub record Codec (A : Type 0) : Type 0 where
  pub put : A → Bytes → Bytes
  pub get : Bytes → Option (A × Bytes)
  pub back : (a : A) (rest : Bytes) → get (put a rest) ≡ some (a, rest)

abbrev get_nat : Bytes → Option (ℕ × Bytes)
get_nat [] = none
get_nat (n ∷ rest) = some (n, rest)

abbrev pub nat : Codec ℕ
nat = record { put = λ n rest. n ∷ rest; get = get_nat; back = λ n rest. refl }

-- A codec of what another type stands for.
module _ {A B : Type 0} (c : Codec B) (f : A → B) (g : B → A)
    (inverse : (a : A) → g (f a) ≡ a) where
  abbrev pub through : Codec A
  through = record {
    put = λ a rest. c.put (f a) rest;
    get = λ bytes. c.get bytes >>= λ x. some (g x.0, x.1);
    back = λ a rest. rw (c.back (f a) rest) (ap (λ x. some (x, rest)) (inverse a));
  }

module _ {A B : Type 0} (c : Codec A) (d : Codec B) where
  abbrev pub both : Codec (A × B)
  both = record {
    put = λ x rest. c.put x.0 (d.put x.1 rest);
    get = λ bytes. c.get bytes >>= λ x. d.get x.1 >>= λ y. some ((x.0, y.0), y.1);
    back = λ x rest. rw (c.back x.0 (d.put x.1 rest)) (rw (d.back x.1 rest) refl);
  }

module _ {A : Type 0} (c : Codec A) where
  abbrev put_each : List A → Bytes → Bytes
  put_each [] rest = rest
  put_each (x ∷ xs) rest = c.put x (put_each xs rest)

  abbrev get_each : ℕ → Bytes → Option (List A × Bytes)
  get_each zero bytes = some ([], bytes)
  get_each (suc n) bytes = c.get bytes >>= λ x. get_each n x.1 >>= λ y. some (x.0 ∷ y.0, y.1)

  pub each_back :
      (xs : List A) (rest : Bytes) → get_each (length xs) (put_each xs rest) ≡ some (xs, rest)
  each_back [] rest = refl
  each_back (x ∷ xs) rest = rw (c.back x (put_each xs rest)) (rw (each_back xs rest) refl)

  abbrev get_list : Bytes → Option (List A × Bytes)
  get_list [] = none
  get_list (n ∷ bytes) = get_each n bytes

  abbrev pub list : Codec (List A)
  list = record { put = λ xs rest. length xs ∷ put_each xs rest; get = get_list; back = each_back }

-- Whether a number is a character's, by the clauses of `IsScalar`.
abbrev BothLt : Ordering → Ordering → Type 0
BothLt Ordering.lt o = IsLt o
BothLt Ordering.eq o = ⊥
BothLt Ordering.gt o = ⊥

abbrev Scalar : Ordering → Ordering → Ordering → Type 0
Scalar Ordering.lt p q = Unit
Scalar Ordering.eq p q = BothLt p q
Scalar Ordering.gt p q = BothLt p q

abbrev find_lt : (o : Ordering) → Option (IsLt o)
find_lt Ordering.lt = some tt
find_lt Ordering.eq = none
find_lt Ordering.gt = none

abbrev find_both : (p q : Ordering) → Option (BothLt p q)
find_both Ordering.lt q = find_lt q
find_both Ordering.eq q = none
find_both Ordering.gt q = none

abbrev find_scalar : (o p q : Ordering) → Option (Scalar o p q)
find_scalar Ordering.lt p q = some tt
find_scalar Ordering.eq p q = find_both p q
find_scalar Ordering.gt p q = find_both p q

both_found : (p q : Ordering) (h : BothLt p q) → (k : BothLt p q) × (find_both p q ≡ some k)
both_found Ordering.lt Ordering.lt h = (tt, refl)
both_found Ordering.lt Ordering.eq h = elim h [ ]
both_found Ordering.lt Ordering.gt h = elim h [ ]
both_found Ordering.eq q h = elim h [ ]
both_found Ordering.gt q h = elim h [ ]

scalar_found :
    (o p q : Ordering) (h : Scalar o p q) → (k : Scalar o p q) × (find_scalar o p q ≡ some k)
scalar_found Ordering.lt p q h = (tt, refl)
scalar_found Ordering.eq p q h = both_found p q h
scalar_found Ordering.gt p q h = both_found p q h

abbrev scalar_at : (n : ℕ) → Option (IsScalar n)
scalar_at n = find_scalar (compare n 55296) (compare 57343 n) (compare n 1114112)

abbrev get_char : Bytes → Option (Char × Bytes)
get_char [] = none
get_char (n ∷ rest) = scalar_at n >>= λ p. some (char n p, rest)

char_back : (c : Char) (rest : Bytes) → get_char (code c ∷ rest) ≡ some (c, rest)
char_back (char n h) rest =
    let (k, e) = scalar_found (compare n 55296) (compare 57343 n) (compare n 1114112) h in
    ap (λ o. o >>= λ p. some (char n p, rest)) e
    ∙ ap (λ p. some (char n p, rest)) (IsScalar-prop n k h)

pub char_codec : Codec Char
char_codec = record { put = λ c rest. code c ∷ rest; get = get_char; back = char_back }

pub text_codec : Codec String
text_codec = through (list char_codec) to_list of_list of_list-to_list

abbrev bit : Bool → ℕ
bit true = 1
bit false = 0

abbrev is_one : ℕ → Bool
is_one (suc n) = true
is_one zero = false

is_one-bit : (b : Bool) → is_one (bit b) ≡ b
is_one-bit true = refl
is_one-bit false = refl

pub flag : Codec Bool
flag = through nat bit is_one is_one-bit

-- Bytes alone, and what is left of a codec without more bytes.
module _ {A : Type 0} (c : Codec A) where
  abbrev pub write : A → Bytes
  write a = c.put a []

  abbrev pub read : Bytes → Option A
  read bytes = c.get bytes >>= λ x. some x.0

  pub read-write : (a : A) → read (write a) ≡ some a
  read-write a = rw (c.back a []) refl
