-- ===== src/Prelude/Sets.antt =====
-- A set and a dict keep their keys apart.
use hermes_sdlc_agents.Prelude.{
  String, false, List, [], ◌∷◌, ◌≡◌, ◌==◌, map, All, Bool-cases, inl, inr, subst, arith, eq_iff,
}
use hermes_sdlc_agents.Prelude.Table.{IsUnique, elem, add, discard, insert, remove}

absent-All : (k : String) (xs : List String) → elem k xs ≡ false → All (λ y. (k == y) ≡ false) xs
unfolding elem
absent-All k [] h = tt
absent-All k (x ∷ xs) h = (ground (arith, eq_iff x k, eq_iff k x), absent-All k xs (ground arith))

pub add-IsUnique : (k : String) (xs : List String) → IsUnique xs → IsUnique (add k xs)
unfolding add
add-IsUnique k xs u = elim (Bool-cases (elem k xs)) [
  | inl e ↦ rw (e) u
  | inr e ↦ rw (e) (absent-All k xs e, u)
]

discard-All :
    (P : String → Type 0) (k : String) (xs : List String) → All P xs → All P (discard k xs)
unfolding discard
discard-All P k [] h = tt
discard-All P k (x ∷ xs) h = elim (Bool-cases (x == k)) [
  | inl e ↦ rw (e) (discard-All P k xs h.1)
  | inr e ↦ rw (e) (h.0, discard-All P k xs h.1)
]

pub discard-IsUnique : (k : String) (xs : List String) → IsUnique xs → IsUnique (discard k xs)
unfolding discard
discard-IsUnique k [] u = tt
discard-IsUnique k (x ∷ xs) u = elim (Bool-cases (x == k)) [
  | inl e ↦ rw (e) (discard-IsUnique k xs u.1)
  | inr e ↦ rw (e) (discard-All _ k xs u.0, discard-IsUnique k xs u.1)
]

module _ {ℓ} {V : Type ℓ} where
  insert-All :
      (P : String → Type 0) (k : String) (v : V) (m : List (String × V))
      → P k
      → All P (map (λ e. e.0) m)
      → All P (map (λ e. e.0) (insert k v m))
  unfolding insert
  insert-All P k v [] p h = (p, tt)
  insert-All P k v (entry ∷ m) p h = elim (Bool-cases (entry.0 == k)) [
    | inl e ↦ rw (e) (p, h.1)
    | inr e ↦ rw (e) (h.0, insert-All P k v m p h.1)
  ]

  pub insert-IsUnique :
      (k : String) (v : V) (m : List (String × V))
      → IsUnique (map (λ e. e.0) m)
      → IsUnique (map (λ e. e.0) (insert k v m))
  unfolding insert
  insert-IsUnique k v [] u = (tt, tt)
  insert-IsUnique k v (entry ∷ m) u = elim (Bool-cases (entry.0 == k)) [
    | inl e ↦ rw (e) (
      subst (λ j. All (λ y. (j == y) ≡ false) (map (λ e. e.0) m)) ((eq_iff (entry.0) k).0 e) u.0,
      u.1,
    )
    | inr e ↦ rw (e) (insert-All _ k v m e u.0, insert-IsUnique k v m u.1)
  ]

  remove-All :
      (P : String → Type 0) (k : String) (m : List (String × V))
      → All P (map (λ e. e.0) m)
      → All P (map (λ e. e.0) (remove k m))
  unfolding remove
  remove-All P k [] h = tt
  remove-All P k (entry ∷ m) h = elim (Bool-cases (entry.0 == k)) [
    | inl e ↦ rw (e) (remove-All P k m h.1)
    | inr e ↦ rw (e) (h.0, remove-All P k m h.1)
  ]

  pub remove-IsUnique :
      (k : String) (m : List (String × V))
      → IsUnique (map (λ e. e.0) m)
      → IsUnique (map (λ e. e.0) (remove k m))
  unfolding remove
  remove-IsUnique k [] u = tt
  remove-IsUnique k (entry ∷ m) u = elim (Bool-cases (entry.0 == k)) [
    | inl e ↦ rw (e) (remove-IsUnique k m u.1)
    | inr e ↦ rw (e) (remove-All _ k m u.0, remove-IsUnique k m u.1)
  ]
