-- ===== src/Examples/Wire.antt =====
-- Ways to write values as lists of numbers and to read them back, for the codec of the examples.

use Prim.Native.Char.{Char, char, IsLt, IsScalar}
use Prim.Native.Nat.{Ordering, compare}
use ssh_idlefarmer.Prelude.{
  negsuc, refl, refl, zero, suc, none, some, [], ◌∷◌, true, false, pos, negsuc, Option, String, ℤ,
  ◌≡◌, List, Bool, ℕ, ap, length, ◌∙◌,
}

-- A way to put a value in front of a list of numbers, and to take it off again.
pub record Wire (A : Type 0) : Type 0 where
  pub put : A → List ℕ → List ℕ
  pub get : List ℕ → Option (A × List ℕ)
  pub law : (a : A) (rest : List ℕ) → get (put a rest) ≡ some (a, rest)

abbrev pub head_tail : List ℕ → Option (ℕ × List ℕ)
head_tail [] = none
head_tail (n ∷ ns) = some (n, ns)

abbrev pub nat_wire : Wire ℕ
nat_wire = record { put = λ n rest. n ∷ rest; get = head_tail; law = λ n rest. refl }

module _ {A B : Type 0} (wire : Wire A) (to : B → A) (from : A → Option B) where
  abbrev pub with_rest : List ℕ → Option B → Option (B × List ℕ)
  with_rest rest none = none
  with_rest rest (some b) = some (b, rest)

  abbrev pub from_next : Option (A × List ℕ) → Option (B × List ℕ)
  from_next none = none
  from_next (some (a, rest)) = with_rest rest (from a)

  abbrev pub via : ((b : B) → from (to b) ≡ some b) → Wire B
  via back = record {
    put = λ b. wire.put (to b);
    get = λ ns. from_next (wire.get ns);
    law = λ b rest. ap from_next (wire.law (to b) rest) ∙ ap (with_rest rest) (back b);
  }

module _ {A B : Type 0} (left : Wire A) (right : Wire B) where
  abbrev pub second_next : A → Option (B × List ℕ) → Option ((A × B) × List ℕ)
  second_next a none = none
  second_next a (some (b, rest)) = some ((a, b), rest)

  abbrev pub first_next : Option (A × List ℕ) → Option ((A × B) × List ℕ)
  first_next none = none
  first_next (some (a, rest)) = second_next a (right.get rest)

  abbrev pub both : Wire (A × B)
  both = record {
    put = λ (a, b) rest. left.put a (right.put b rest);
    get = λ ns. first_next (left.get ns);
    law = λ (a, b) rest. rw (left.law a (right.put b rest), right.law b rest) refl;
  }

module _ {A : Type 0} (wire : Wire A) where
  abbrev pub put_all : List A → List ℕ → List ℕ
  put_all [] rest = rest
  put_all (a ∷ items) rest = wire.put a (put_all items rest)

  abbrev pub cons_next : A → Option (List A × List ℕ) → Option (List A × List ℕ)
  cons_next a none = none
  cons_next a (some (items, rest)) = some (a ∷ items, rest)

  abbrev pub take_items : ℕ → List ℕ → Option (List A × List ℕ)
  take_items zero ns = some ([], ns)
  take_items (suc n) ns = elim (wire.get ns) [
    | none ↦ none
    | some (a, rest) ↦ cons_next a (take_items n rest)
  ]

  pub take_items-put_all :
      (items : List A) (rest : List ℕ)
      → take_items (length items) (put_all items rest) ≡ some (items, rest)
  take_items-put_all [] rest = refl
  take_items-put_all (a ∷ items) rest =
      rw (wire.law a (put_all items rest), take_items-put_all items rest) refl

  abbrev pub take_counted : List ℕ → Option (List A × List ℕ)
  take_counted [] = none
  take_counted (n ∷ ns) = take_items n ns

  abbrev pub many : Wire (List A)
  many = record {
    put = λ items rest. length items ∷ put_all items rest;
    get = take_counted;
    law = take_items-put_all;
  }

abbrev pub of_bool : Bool → ℕ
of_bool true = 1
of_bool false = 0

abbrev pub to_bool : ℕ → Option Bool
to_bool zero = some false
to_bool (suc n) = some true

pub bool_back : (b : Bool) → to_bool (of_bool b) ≡ some b
bool_back true = refl
bool_back false = refl

abbrev pub bool_wire : Wire Bool
bool_wire = via nat_wire of_bool to_bool bool_back

abbrev pub of_int : ℤ → Bool × ℕ
of_int (pos n) = (true, n)
of_int (negsuc n) = (false, n)

abbrev pub to_int : Bool × ℕ → Option ℤ
to_int (true, n) = some (pos n)
to_int (false, n) = some (negsuc n)

pub int_back : (x : ℤ) → to_int (of_int x) ≡ some x
int_back (pos n) = refl
int_back (negsuc n) = refl

abbrev pub int_wire : Wire ℤ
int_wire = via (both bool_wire nat_wire) of_int to_int int_back

-- The clauses of IsScalar, decided.
abbrev pub BothLess : Ordering → Ordering → Type 0
BothLess Ordering.lt o = IsLt o
BothLess Ordering.eq o = ⊥
BothLess Ordering.gt o = ⊥

abbrev pub Scalar : Ordering → Ordering → Ordering → Type 0
Scalar Ordering.lt o p = Unit
Scalar Ordering.eq o p = BothLess o p
Scalar Ordering.gt o p = BothLess o p

abbrev pub if_less : (o : Ordering) → Option (IsLt o)
if_less Ordering.lt = some tt
if_less Ordering.eq = none
if_less Ordering.gt = none

abbrev pub if_both_less : (o p : Ordering) → Option (BothLess o p)
if_both_less Ordering.lt p = if_less p
if_both_less Ordering.eq p = none
if_both_less Ordering.gt p = none

abbrev pub if_scalar : (o p q : Ordering) → Option (Scalar o p q)
if_scalar Ordering.lt p q = some tt
if_scalar Ordering.eq p q = if_both_less p q
if_scalar Ordering.gt p q = if_both_less p q

pub less_found : (o : Ordering) (h : IsLt o) → if_less o ≡ some h
less_found Ordering.lt h = refl
less_found Ordering.eq h = elim h [ ]
less_found Ordering.gt h = elim h [ ]

pub both_less_found : (o p : Ordering) (h : BothLess o p) → if_both_less o p ≡ some h
both_less_found Ordering.lt p h = less_found p h
both_less_found Ordering.eq p h = elim h [ ]
both_less_found Ordering.gt p h = elim h [ ]

pub scalar_found : (o p q : Ordering) (h : Scalar o p q) → if_scalar o p q ≡ some h
scalar_found Ordering.lt p q h = refl
scalar_found Ordering.eq p q h = both_less_found p q h
scalar_found Ordering.gt p q h = both_less_found p q h

abbrev pub of_char : Char → ℕ
of_char (char n h) = n

abbrev pub char_if : (n : ℕ) → Option (IsScalar n) → Option Char
char_if n none = none
char_if n (some h) = some (char n h)

abbrev pub to_char : ℕ → Option Char
to_char n = char_if n (if_scalar (compare n 55296) (compare 57343 n) (compare n 1114112))

pub char_back : (c : Char) → to_char (of_char c) ≡ some c
char_back (char n h) =
    rw (scalar_found (compare n 55296) (compare 57343 n) (compare n 1114112) h) refl

abbrev pub chars_of : String → List Char
chars_of String.[] = []
chars_of (String.◌∷◌ c s) = c ∷ chars_of s

abbrev pub text_of : List Char → String
text_of [] = String.[]
text_of (c ∷ chars) = String.◌∷◌ c (text_of chars)

pub text_back : (s : String) → text_of (chars_of s) ≡ s
text_back String.[] = refl
text_back (String.◌∷◌ c s) = ap (λ t. String.◌∷◌ c t) (text_back s)

abbrev pub text_wire : Wire String
text_wire =
    via (many (via nat_wire of_char to_char char_back)) chars_of (λ chars. some (text_of chars))
      (λ s. ap some (text_back s))
