-- ===== src/Prelude/Lists.antt =====
-- Lists measured and indexed by native numbers, and the parts of Go's `slices` that the code uses.
use Prim.Native.Nat.{ℕ, zero, suc, ◌+◌, ◌≤◌}
use Prim.Native.String.{String}
use mathlib.Core.Path.{◌≡◌, refl}
use mathlib.Core.Bool.{Bool, false, ◌||◌}
use mathlib.Core.List.{List, [], ◌∷◌, ◌++◌}
use mathlib.Core.Option.{Option, none, some}
use native.Mathlib.Omega.{arith}
use text.Mathlib.TextEquality.{eq_iff}
use claudie.Prelude.Tests.{if◌then◌else◌, str_eq}

module _ {ℓ} {A : Type ℓ} where
  abbrev pub length : List A → ℕ
  length [] = 0
  length (x ∷ xs) = suc (length xs)

  abbrev pub get_elem? : List A → ℕ → Option A
  get_elem? [] i = none
  get_elem? (x ∷ xs) zero = some x
  get_elem? (x ∷ xs) (suc i) = get_elem? xs i

  pub length-append : (xs ys : List A) → length (xs ++ ys) ≡ length xs + length ys
  length-append [] ys = omega arith
  length-append (x ∷ xs) ys = omega (arith, length-append xs ys)

  -- `slices.DeleteFunc`: the elements that fail the test stay, in order.
  unfoldable pub delete_func : (A → Bool) → List A → List A
  delete_func p [] = []
  delete_func p (x ∷ xs) = let rest = delete_func p xs in if p x then rest else x ∷ rest

  -- The loops that keep the elements that pass a test, in order.
  unfoldable pub keep_func : (A → Bool) → List A → List A
  keep_func p [] = []
  keep_func p (x ∷ xs) = let rest = keep_func p xs in if p x then x ∷ rest else rest

  -- The element at `slices.IndexFunc`, if that is not negative.
  unfoldable pub find_func : (A → Bool) → List A → Option A
  find_func p [] = none
  find_func p (x ∷ xs) = let rest = find_func p xs in if p x then some x else rest

  -- `slices.ContainsFunc`
  unfoldable pub contains_func : (A → Bool) → List A → Bool
  contains_func p [] = false
  contains_func p (x ∷ xs) = p x || contains_func p xs

  -- Every element satisfies `P`.
  abbrev pub All {κ} : (A → Type κ) → List A → Type κ
  All P [] = Unit
  All P (x ∷ xs) = P x × All P xs

  pub length-delete_func-le : (p : A → Bool) (xs : List A) → length (delete_func p xs) ≤ length xs
  unfolding delete_func
  length-delete_func-le p [] = omega arith
  length-delete_func-le p (x ∷ xs) = ground (arith, length-delete_func-le p xs)

  -- What a deletion drops and what a selection by the same test keeps add up.
  pub length-delete_func-keep_func :
      (p : A → Bool) (xs : List A) → length (delete_func p xs) + length (keep_func p xs) ≡ length xs
  unfolding delete_func keep_func
  length-delete_func-keep_func p [] = omega arith
  length-delete_func-keep_func p (x ∷ xs) = ground (arith, length-delete_func-keep_func p xs)

  pub delete_func-append :
      (p : A → Bool) (xs ys : List A)
      → delete_func p (xs ++ ys) ≡ delete_func p xs ++ delete_func p ys
  unfolding delete_func
  delete_func-append p [] ys = refl
  delete_func-append p (x ∷ xs) ys = ground (arith, delete_func-append p xs ys)

  -- After a deletion no element passes the test.
  pub contains_func-delete_func_self :
      (p : A → Bool) (xs : List A) → contains_func p (delete_func p xs) ≡ false
  unfolding contains_func delete_func
  contains_func-delete_func_self p [] = refl
  contains_func-delete_func_self p (x ∷ xs) = ground (arith, contains_func-delete_func_self p xs)

-- `slices.Contains` on strings.
unfoldable pub contains : String → List String → Bool
contains s [] = false
contains s (x ∷ xs) = str_eq x s || contains s xs

-- No string stands twice.
abbrev pub Distinct : List String → Type 0
Distinct [] = Unit
Distinct (x ∷ xs) = (contains x xs ≡ false) × Distinct xs

pub contains-append :
    (s : String) (xs ys : List String) → contains s (xs ++ ys) ≡ (contains s xs || contains s ys)
unfolding contains
contains-append s [] ys = refl
contains-append s (x ∷ xs) ys = ground (arith, contains-append s xs ys)

pub contains-delete_func :
    (s : String) (p : String → Bool) (xs : List String)
    → contains s (delete_func p xs) ≡ (if p s then false else contains s xs)
unfolding contains delete_func
contains-delete_func s p [] = ground arith
contains-delete_func s p (x ∷ xs) = ground (arith, eq_iff x s, contains-delete_func s p xs)
