-- ===== src/Base/Dict.antt =====
-- Go's map[string]V as an association list with one entry for each key; map[string]struct{} as the
-- list of its members. A range over a map visits the entries in no fixed order: here in list order.
use Prim.Native.String.{String}
use mathlib.Core.Path.{◌≡◌, refl}
use mathlib.Core.Bool.{Bool, false, not, ◌&&◌, ◌||◌}
use mathlib.Core.Option.{Option, none, some}
use mathlib.Core.List.{List, [], ◌∷◌, ◌++◌}
use native.Mathlib.Omega.{arith}
use text.Mathlib.Text.{◌==◌}
use text.Mathlib.TextEquality.{eq_iff}
use cpa_auto_refresh_quota.Base.Tests.{if◌then◌else◌}

abbrev pub Dict {ℓ} : Type ℓ → Type ℓ
Dict V = List (String × V)

module _ {ℓ} {V : Type ℓ} where
  -- `m[k]` with its comma-ok
  unfoldable pub lookup : String → Dict V → Option V
  lookup key [] = none
  lookup key ((other, value) ∷ entries) = if other == key then some value else lookup key entries

  -- `m[k] = v`
  unfoldable pub insert : String → V → Dict V → Dict V
  insert key value [] = (key, value) ∷ []
  insert key value ((other, old) ∷ entries) =
      if other == key then (key, value) ∷ entries else (other, old) ∷ insert key value entries

  -- `delete(m, k)`
  unfoldable pub remove : String → Dict V → Dict V
  remove key [] = []
  remove key ((other, value) ∷ entries) =
      let rest = remove key entries in if other == key then rest else (other, value) ∷ rest

  pub lookup-insert :
      (key other : String) (value : V) (entries : Dict V)
      → lookup other (insert key value entries)
        ≡ (if key == other then some value else lookup other entries)
  unfolding lookup insert
  lookup-insert key other value [] = refl
  lookup-insert key other value ((head, old) ∷ entries) = ground (
    arith,
    eq_iff key other,
    eq_iff head key,
    eq_iff head other,
    lookup-insert key other value entries,
  )

  pub lookup-remove :
      (key other : String) (entries : Dict V)
      → lookup other (remove key entries) ≡ (if key == other then none else lookup other entries)
  unfolding lookup remove
  lookup-remove key other [] = ground arith
  lookup-remove key other ((head, value) ∷ entries) =
      ground (
        arith,
        lookup-remove key other entries,
        eq_iff head key,
        eq_iff head other,
        eq_iff key other,
      )

-- Membership in a list of texts, by `==`.
unfoldable pub contains : String → List String → Bool
contains k [] = false
contains k (x ∷ xs) = x == k || contains k xs

-- `set[k] = struct{}{}`
unfoldable pub set_add : String → List String → List String
set_add k xs = if contains k xs then xs else xs ++ k ∷ []

pub contains-append :
    (k : String) (xs ys : List String) → contains k (xs ++ ys) ≡ (contains k xs || contains k ys)
unfolding contains
contains-append k [] ys = refl
contains-append k (x ∷ xs) ys = ground (arith, contains-append k xs ys)

pub contains-set_add :
    (k j : String) (xs : List String) → contains j (set_add k xs) ≡ (k == j || contains j xs)
unfolding contains set_add
contains-set_add k j xs = ground (arith, contains-append j xs (k ∷ []), eq_iff k j)

pub ruleset dict_laws = (lookup-insert, lookup-remove)

-- `delete(set, k)`
unfoldable pub set_remove : String → List String → List String
set_remove k [] = []
set_remove k (x ∷ xs) = let rest = set_remove k xs in if x == k then rest else x ∷ rest

pub contains-set_remove :
    (k j : String) (xs : List String)
    → contains j (set_remove k xs) ≡ (not (k == j) && contains j xs)
unfolding contains set_remove
contains-set_remove k j [] = ground arith
contains-set_remove k j (x ∷ xs) =
    ground (arith, contains-set_remove k j xs, eq_iff x k, eq_iff x j, eq_iff k j)

-- The texts are pairwise different.
abbrev pub AllDistinct : List String → Type 0
AllDistinct [] = Unit {0}
AllDistinct (k ∷ ks) = (contains k ks ≡ false) × AllDistinct ks

pub AllDistinct-append :
    (k : String) (xs : List String)
    → contains k xs ≡ false
    → AllDistinct xs
    → AllDistinct (xs ++ k ∷ [])
unfolding contains
AllDistinct-append k [] new h = (refl, tt)
AllDistinct-append k (x ∷ xs) new h = (
  ground (arith, contains-append x xs (k ∷ []), h.0, new, eq_iff x k, eq_iff k x),
  AllDistinct-append k xs (ground (arith, new)) h.1,
)
