-- ===== src/Prelude/Lists.antt =====
-- Lists measured and indexed by native numbers, under the library's names.
use mathlib.Core.List.{reverse, reverse-cons, map}
use Prim.Native.Nat.{ℕ, suc, ◌+◌}
use mathlib.Core.Path.{◌≡◌, refl}
use mathlib.Core.Bool.{Bool}
use mathlib.Core.List.{List, [], ◌∷◌, ◌++◌}
use mathlib.Core.Option
use mathlib.Core.Option.{Option, none, some}
use native.Mathlib.Omega.{arith}
use panda_gen.Prelude.Tests.{if◌then◌else◌}

module _ {ℓ} {A : Type ℓ} where
  abbrev pub length : List A → ℕ
  length [] = 0
  length (x ∷ xs) = suc (length xs)

  pub length-append : (xs ys : List A) → length (xs ++ ys) ≡ length xs + length ys
  length-append [] ys = omega arith
  length-append (x ∷ xs) ys = omega (arith, length-append xs ys)

  -- The last element, as `slice::last`.
  abbrev pub last : List A → Option A
  last [] = none
  last (x ∷ []) = some x
  last (x ∷ y ∷ xs) = last (y ∷ xs)

  pub last-append_one : (xs : List A) (a : A) → last (xs ++ a ∷ []) ≡ some a
  last-append_one [] a = refl
  last-append_one (x ∷ []) a = refl
  last-append_one (x ∷ y ∷ xs) a = last-append_one (y ∷ xs) a

  -- `Iterator::find`: the first element that passes the test.
  abbrev pub find : (A → Bool) → List A → Option A
  find p [] = none
  find p (x ∷ xs) = if p x then some x else find p xs

  -- `Iterator::filter` and `Vec::retain`.
  abbrev pub select : (A → Bool) → List A → List A
  select p [] = []
  select p (x ∷ xs) = if p x then x ∷ select p xs else select p xs

  -- `Option::or`
  abbrev pub or_else : Option A → Option A → Option A
  or_else none d = d
  or_else (some a) d = some a

  pub last-cons : (x : A) (xs : List A) → last (x ∷ xs) ≡ or_else (last xs) (some x)
  last-cons x [] = refl
  last-cons x (y ∷ []) = refl
  last-cons x (y ∷ z ∷ xs) = ground (arith, last-cons y (z ∷ xs))

  pub last-append : (xs ys : List A) → last (xs ++ ys) ≡ or_else (last ys) (last xs)
  last-append [] ys = or_else-none (last ys)
    where
      or_else-none : (o : Option A) → o ≡ or_else o none
      or_else-none none = refl
      or_else-none (some a) = refl
  last-append (x ∷ xs) ys =
      ground (arith, last-cons x (xs ++ ys), last-cons x xs, last-append xs ys)

  pub find-append :
      (p : A → Bool) (xs ys : List A) → find p (xs ++ ys) ≡ or_else (find p xs) (find p ys)
  find-append p [] ys = refl
  find-append p (x ∷ xs) ys = ground (arith, find-append p xs ys)

  -- Searching from the back finds the last element that passes.
  pub find-reverse : (p : A → Bool) (xs : List A) → find p (reverse xs) ≡ last (select p xs)
  find-reverse p [] = refl
  find-reverse p (x ∷ xs) =
      rw (reverse-cons x xs, find-append p (reverse xs) (x ∷ []), find-reverse p xs)
        (ground (arith, last-cons x (select p xs)))

pub last-map {ℓ κ} :
    {A : Type ℓ} {B : Type κ} (f : A → B) (xs : List A) → last (map f xs) ≡ Option.map f (last xs)
last-map f [] = refl
last-map f (x ∷ []) = refl
last-map f (x ∷ y ∷ xs) = last-map f (y ∷ xs)
