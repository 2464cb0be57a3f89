-- ===== src/Prelude/Lists.antt =====
-- Lists measured by native numbers, Boolean searches, and predicates over lists.
use Prim.Native.Nat.{ℕ, zero, suc, ◌+◌, ◌≤◌}
use mathlib.Core.Path.{sym, ◌≡◌, refl, subst}
use mathlib.Core.Logic.{inr, inl, ◌⊎◌}
use mathlib.Core.Option.{some-injective, Option, none, some}
use mathlib.Core.Bool.{Bool, true, false, ◌&&◌, ◌||◌}
use mathlib.Core.List.{List, [], ◌∷◌, ◌++◌, Memᴰ}
use native.Mathlib.Omega.{arith}
use hermes_sdlc_agents.Prelude.Tests.{Bool-cases, if◌then◌else◌}

module _ {ℓ} {A : Type ℓ} where
  abbrev pub length : List A → ℕ
  length [] = 0
  length (x ∷ xs) = suc (length xs)

  abbrev pub take : ℕ → List A → List A
  take zero xs = []
  take (suc n) [] = []
  take (suc n) (x ∷ xs) = x ∷ take n xs

  -- `next(iter(xs), None)`
  abbrev pub first : List A → Option A
  first [] = none
  first (x ∷ xs) = some x

  -- `any(p(x) for x in xs)`
  unfoldable pub any_of : (A → Bool) → List A → Bool
  any_of p [] = false
  any_of p (x ∷ xs) = p x || any_of p xs

  -- `all(p(x) for x in xs)`
  unfoldable pub all_of : (A → Bool) → List A → Bool
  all_of p [] = true
  all_of p (x ∷ xs) = p x && all_of p xs

  -- `next((x for x in xs if p(x)), None)`
  unfoldable pub find_first : (A → Bool) → List A → Option A
  find_first p [] = none
  find_first p (x ∷ xs) = if p x then some x else find_first p xs

  -- `[x for x in xs if p(x)]`
  unfoldable pub keep : (A → Bool) → List A → List A
  keep p [] = []
  keep p (x ∷ xs) = let rest = keep p xs in if p x then x ∷ rest else rest

  pub length-append : (xs ys : List A) → length (xs ++ ys) ≡ length xs + length ys
  length-append [] ys = omega arith
  length-append (x ∷ xs) ys = omega (arith, length-append xs ys)

  pub length-take : (n : ℕ) (xs : List A) → length (take n xs) ≤ n
  length-take zero xs = omega arith
  length-take (suc n) [] = omega arith
  length-take (suc n) (x ∷ xs) = omega (arith, length-take n xs)

  -- What is found is in the list and passes the test.
  abbrev pub Any : (A → Type 0) → List A → Type 0
  Any P [] = ⊥
  Any P (x ∷ xs) = P x ⊎ Any P xs

  abbrev pub All {κ} : (A → Type κ) → List A → Type κ
  All P [] = Unit
  All P (x ∷ xs) = P x × All P xs

module _ {ℓ} {A : Type ℓ} where
  -- What `next(...)` finds is in the list and passes the test.
  pub find_first-eq-some :
      (p : A → Bool) (xs : List A) {x : A} → find_first p xs ≡ some x → Memᴰ x xs × (p x ≡ true)
  unfolding find_first
  find_first-eq-some p [] h = cc
  find_first-eq-some p (y ∷ xs) h = elim (Bool-cases (p y)) [
    | inl e ↦ let same = some-injective _ _ (rw e at h) in (Memᴰ.head (sym same), rw (← same) e)
    | inr e ↦ let (m, t) = find_first-eq-some p xs (rw e at h) in (Memᴰ.tail m, t)
  ]

  pub find_first-none :
      (p : A → Bool) (xs : List A) → All (λ x. p x ≡ false) xs → find_first p xs ≡ none
  unfolding find_first
  find_first-none p [] h = refl
  find_first-none p (y ∷ xs) h = rw (h.0) (find_first-none p xs h.1)

  pub find_first-eq-none :
      (p : A → Bool) (xs : List A) → find_first p xs ≡ none → All (λ x. p x ≡ false) xs
  unfolding find_first
  find_first-eq-none p [] h = tt
  find_first-eq-none p (y ∷ xs) h = elim (Bool-cases (p y)) [
    | inl e ↦ absurd (cc (rw e at h))
    | inr e ↦ (e, find_first-eq-none p xs (rw e at h))
  ]

  pub All-mem {κ} : (P : A → Type κ) (xs : List A) {x : A} → All P xs → Memᴰ x xs → P x
  All-mem P [] h m = elim m [ ]
  All-mem P (y ∷ xs) h (Memᴰ.head e) = subst P (sym e) h.0
  All-mem P (y ∷ xs) h (Memᴰ.tail m) = All-mem P xs h.1 m

  pub All-imp {κ μ} :
      (P : A → Type κ) (Q : A → Type μ) (xs : List A) → ((x : A) → P x → Q x) → All P xs → All Q xs
  All-imp P Q [] f h = tt
  All-imp P Q (x ∷ xs) f h = (f x h.0, All-imp P Q xs f h.1)

  pub All-both {κ μ} :
      (P : A → Type κ) (Q : A → Type μ) (xs : List A)
      → All P xs
      → All Q xs
      → All (λ x. P x × Q x) xs
  All-both P Q [] h k = tt
  All-both P Q (x ∷ xs) h k = ((h.0, k.0), All-both P Q xs h.1 k.1)

  -- Every element of a list is in the list.
  pub All-self : (xs : List A) → All (λ x. Memᴰ x xs) xs
  All-self [] = tt
  All-self (x ∷ xs) = (Memᴰ.head refl, All-imp _ _ xs (λ y m. Memᴰ.tail m) (All-self xs))
