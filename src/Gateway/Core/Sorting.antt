-- ===== src/Gateway/Core/Sorting.antt =====
-- The sort of the eligible tools: it rearranges the list, and its head is one that none beats.
use hermes_sdlc_agents.Prelude.{
  All-imp, ◌≡◌, Bool, true, false, inl, inr, List, [], ◌∷◌, Perm, All, Bool-cases, ◌≢◌, none, first,
}
use hermes_sdlc_agents.Gateway.Core.{insert_sorted, sort_by}
use mathlib.Core.List.Perm

module _ {ℓ} {A : Type ℓ} (less : A → A → Bool) where
  insert_sorted-perm : (x : A) (ys : List A) → Perm (insert_sorted less x ys) (x ∷ ys)
  unfolding insert_sorted
  insert_sorted-perm x [] = Perm.refl (x ∷ [])
  insert_sorted-perm x (y ∷ ys) = elim (Bool-cases (less y x)) [
    | inl e ↦ rw (e) (Perm.trans (Perm.cons y (insert_sorted-perm x ys)) (Perm.swap x y ys))
    | inr e ↦ rw (e) (Perm.refl (x ∷ y ∷ ys))
  ]

  -- Sorting only rearranges.
  pub sort_by-perm : (xs : List A) → Perm (sort_by less xs) xs
  unfolding sort_by
  sort_by-perm [] = Perm.refl []
  sort_by-perm (x ∷ xs) =
      Perm.trans (insert_sorted-perm x (sort_by less xs)) (Perm.cons x (sort_by-perm xs))

  insert_sorted_nonempty : (x : A) (ys : List A) → first (insert_sorted less x ys) ≢ none
  unfolding insert_sorted
  insert_sorted_nonempty x [] e = cc
  insert_sorted_nonempty x (y ∷ ys) e = elim (Bool-cases (less y x)) [
    | inl t ↦ cc (rw t at e)
    | inr f ↦ cc (rw f at e)
  ]

  pub sort_by_nonempty : (x : A) (xs : List A) → first (sort_by less (x ∷ xs)) ≢ none
  unfolding sort_by
  sort_by_nonempty x xs = insert_sorted_nonempty x (sort_by less xs)

  module _ {κ} (P : A → Type κ) where
    insert_sorted-All : (x : A) (ys : List A) → P x → All P ys → All P (insert_sorted less x ys)
    unfolding insert_sorted
    insert_sorted-All x [] p h = (p, tt)
    insert_sorted-All x (y ∷ ys) p h = elim (Bool-cases (less y x)) [
      | inl e ↦ rw (e) (h.0, insert_sorted-All x ys p h.1)
      | inr e ↦ rw (e) (p, h)
    ]

    pub sort_by-All : (xs : List A) → All P xs → All P (sort_by less xs)
    unfolding sort_by
    sort_by-All [] h = tt
    sort_by-All (x ∷ xs) h = insert_sorted-All x (sort_by less xs) h.0 (sort_by-All xs h.1)

  -- A strict order `better` that `less` refines, and that is negatively transitive.
  module _ (better : A → A → Bool) (refines : (a b : A) → less a b ≡ true → better b a ≡ false)
      (covers : (a b : A) → less a b ≡ false → better a b ≡ false)
      (chain : (a b c : A) → better a b ≡ false → better b c ≡ false → better a c ≡ false)
      (irrefl : (a : A) → better a a ≡ false) where
    -- Nothing in the list is better than its head.
    abbrev pub HeadIsBest : List A → Type 0
    HeadIsBest [] = Unit
    HeadIsBest (x ∷ xs) = All (λ y. better y x ≡ false) xs

    insert_sorted-HeadIsBest :
        (x : A) (ys : List A) → HeadIsBest ys → HeadIsBest (insert_sorted less x ys)
    unfolding insert_sorted
    insert_sorted-HeadIsBest x [] h = tt
    insert_sorted-HeadIsBest x (y ∷ ys) h = elim (Bool-cases (less y x)) [
      | inl e ↦ rw (e) (insert_sorted-All (λ z. better z y ≡ false) x ys (refines y x e) h)
      | inr e ↦ rw (e) (covers y x e, All-imp _ _ ys (λ z b. chain z y x b (covers y x e)) h)
    ]

    pub sort_by-HeadIsBest : (xs : List A) → HeadIsBest (sort_by less xs)
    unfolding sort_by
    sort_by-HeadIsBest [] = tt
    sort_by-HeadIsBest (x ∷ xs) =
        insert_sorted-HeadIsBest x (sort_by less xs) (sort_by-HeadIsBest xs)
