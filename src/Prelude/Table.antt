-- ===== src/Prelude/Table.antt =====
-- A Python dict with text keys, as an association list: `lookup`, `d[k] = v` and `del d[k]`.
use Prim.Native.String.{String}
use mathlib.Core.Path.{◌≡◌, refl, subst}
use mathlib.Core.Logic.{inl, inr}
use mathlib.Core.Option.{Option, none, some, none-ne-some, some-injective}
use mathlib.Core.List.{List, [], ◌∷◌}
use mathlib.Core.Bool.{Bool, false, ◌||◌}
use native.Mathlib.Omega.{arith}
use text.Mathlib.Text.{◌==◌}
use text.Mathlib.TextEquality.{eq_iff}
use hermes_sdlc_agents.Prelude.Tests.{if◌then◌else◌, Bool-cases}
use hermes_sdlc_agents.Prelude.Lists.{All}

module _ {ℓ} {V : Type ℓ} where
  unfoldable pub lookup : String → List (String × V) → Option V
  lookup key [] = none
  lookup key (entry ∷ rest) =
      let found = lookup key rest in if entry.0 == key then some (entry.1) else found

  unfoldable pub insert : String → V → List (String × V) → List (String × V)
  insert key value [] = (key, value) ∷ []
  insert key value (entry ∷ rest) =
      let others = insert key value rest in
      if entry.0 == key then (key, value) ∷ rest else entry ∷ others

  unfoldable pub remove : String → List (String × V) → List (String × V)
  remove key [] = []
  remove key (entry ∷ rest) =
      let others = remove key rest in if entry.0 == key then others else entry ∷ others

-- What stands under a key after a write.
pub lookup-insert {ℓ} :
    {V : Type ℓ} (table : List (String × V)) (key : String) (value : V) (wanted : String)
    → lookup wanted (insert key value table)
      ≡ (if key == wanted then some value else lookup wanted table)
unfolding lookup insert
lookup-insert [] key value wanted = refl
lookup-insert (entry ∷ rest) key value wanted = ground (
  arith,
  lookup-insert rest key value wanted,
  eq_iff (entry.0) wanted,
  eq_iff (entry.0) key,
  eq_iff key wanted,
)

-- What holds of every entry of a table holds of the one that is found.
pub lookup-All {ℓ κ} :
    {V : Type ℓ} (P : String → V → Type κ) (k : String) (m : List (String × V)) {v : V}
    → All (λ e. P e.0 e.1) m
    → lookup k m ≡ some v
    → P k v
unfolding lookup
lookup-All P k [] h e = absurd (none-ne-some _ e)
lookup-All P k ((j, w) ∷ m) {v} h e = elim (Bool-cases (j == k)) [
  | inl same ↦
      subst (λ i. P i v) ((eq_iff j k).0 same) (subst (P j) (some-injective _ _ (rw same at e)) h.0)
  | inr other ↦ lookup-All P k m h.1 (rw other at e)
]

-- `x in xs`, for a set of texts.
unfoldable pub elem : String → List String → Bool
elem k [] = false
elem k (x ∷ xs) = x == k || elem k xs

-- `tuple(dict.fromkeys(xs))`: each text once, at its first place.
unfoldable pub unique : List String → List String → List String
unfolding elem
unique seen [] = []
unique seen (x ∷ xs) =
    let fresh = x ∷ unique (x ∷ seen) xs in
    let rest = unique seen xs in if elem x seen then rest else fresh

-- Adding to a set of texts.
unfoldable pub add : String → List String → List String
unfolding elem
add k xs = if elem k xs then xs else k ∷ xs

unfoldable pub discard : String → List String → List String
discard k [] = []
discard k (x ∷ xs) = let rest = discard k xs in if x == k then rest else x ∷ rest

pub elem-discard :
    (k j : String) (xs : List String)
    → elem j (discard k xs) ≡ (if k == j then false else elem j xs)
unfolding elem discard
elem-discard k j [] = ground arith
elem-discard k j (x ∷ xs) = ground (arith, eq_iff k j, eq_iff x k, eq_iff x j, elem-discard k j xs)

-- No text stands twice in the list.
abbrev pub IsUnique : List String → Type 0
IsUnique [] = Unit
IsUnique (x ∷ xs) = All (λ y. (x == y) ≡ false) xs × IsUnique xs
