-- ===== src/Prelude/Maps.antt =====
-- Go's maps with string keys, as association lists. The order of the entries is the order in
-- which a `range` loop meets them.
use Prim.Native.String.{String}
use mathlib.Core.Path.{◌≡◌, refl}
use mathlib.Core.Bool.{Bool}
use mathlib.Core.List.{List, [], ◌∷◌, map}
use mathlib.Core.Option.{Option, none, some}
use native.Mathlib.Omega.{arith}
use text.Mathlib.TextEquality.{eq_iff}
use claudie.Prelude.Tests.{if◌then◌else◌, str_eq, is_some}
use claudie.Prelude.Lists.{contains}

abbrev pub Dict {ℓ} : Type ℓ → Type ℓ
Dict V = List (String × V)

module _ {ℓ} {V : Type ℓ} where
  -- `m[k]`, with `none` where the key is absent.
  unfoldable pub lookup : String → Dict V → Option V
  lookup key [] = none
  lookup key ((here, value) ∷ rest) =
      let later = lookup key rest in if str_eq here key then some value else later

  -- `m[k] = v`
  unfoldable pub insert : String → V → Dict V → Dict V
  insert key value [] = (key, value) ∷ []
  insert key value ((here, old) ∷ rest) =
      let later = insert key value rest in
      if str_eq here key then (here, value) ∷ rest else (here, old) ∷ later

  -- `delete(m, k)`
  unfoldable pub erase : String → Dict V → Dict V
  erase k [] = []
  erase k ((j, w) ∷ m) = let rest = erase k m in if str_eq j k then rest else (j, w) ∷ rest

  abbrev pub has : String → Dict V → Bool
  has k m = is_some (lookup k m)

  abbrev pub keys : Dict V → List String
  keys = map (λ e. e.0)

  -- A read after a write sees the written value at its key, and elsewhere what was there.
  pub lookup-insert :
      (at other : String) (value : V) (entries : Dict V)
      → lookup other (insert at value entries)
        ≡ (if str_eq at other then some value else lookup other entries)
  unfolding lookup insert
  lookup-insert at other value [] = refl
  lookup-insert at other value ((here, old) ∷ rest) =
      ground (
        arith,
        lookup-insert at other value rest,
        eq_iff here at,
        eq_iff at other,
        eq_iff here other,
      )

  -- A deleted key is not found, and the others are found as before.
  pub lookup-erase :
      (gone other : String) (entries : Dict V)
      → lookup other (erase gone entries)
        ≡ (if str_eq gone other then none else lookup other entries)
  unfolding lookup erase
  lookup-erase gone other [] = ground arith
  lookup-erase gone other ((here, old) ∷ rest) =
      ground (
        arith,
        lookup-erase gone other rest,
        eq_iff here gone,
        eq_iff gone other,
        eq_iff here other,
      )

  pub contains-keys : (k : String) (m : Dict V) → contains k (keys m) ≡ has k m
  unfolding contains lookup
  contains-keys k [] = refl
  contains-keys k ((j, v) ∷ m) = ground (arith, contains-keys k m)
