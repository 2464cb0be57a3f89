-- ===== src/Prelude/Rows.antt =====
-- Tables as lists of rows: the statements that change rows, and which keys they keep apart.
use hermes_sdlc_agents.Prelude.{
  subst, map-append, ◌≡◌, refl, sym, ap, String, Bool, true, false, ◌||◌, List, [], ◌∷◌, ◌++◌, ◌==◌,
  eq_iff, map, if◌then◌else◌, any_of, keep, length, suc, All, All-imp, Memᴰ, Bool-cases, inl, inr,
  arith,
}
use hermes_sdlc_agents.Prelude.Table.{IsUnique}

-- `UPDATE ... SET ... WHERE`
unfoldable pub update_where {ℓ} : {A : Type ℓ} → (A → Bool) → (A → A) → List A → List A
update_where p f [] = []
update_where p f (x ∷ xs) = (if p x then f x else x) ∷ update_where p f xs

-- `INSERT ... ON CONFLICT(key) DO UPDATE SET ...`
unfoldable pub upsert {ℓ} : {A : Type ℓ} → (A → Bool) → (A → A) → A → List A → List A
unfolding update_where
upsert same change row rows =
    if any_of same rows then update_where same change rows else rows ++ row ∷ []

module _ {ℓ} {A : Type ℓ} where
  -- An update keeps what it does not set.
  pub map-update_where {κ} :
      {B : Type κ} (key : A → B) (p : A → Bool) (f : A → A) (xs : List A)
      → ((x : A) → p x ≡ true → key (f x) ≡ key x)
      → map key (update_where p f xs) ≡ map key xs
  unfolding update_where
  map-update_where key p f [] h = refl
  map-update_where key p f (x ∷ xs) h = elim (Bool-cases (p x)) [
    | inl e ↦ rw (e) (rw (h x e, map-update_where key p f xs h))
    | inr e ↦ rw (e) (rw (map-update_where key p f xs h))
  ]

  pub update_where-All {κ} :
      (P : A → Type κ) (p : A → Bool) (f : A → A) (xs : List A)
      → ((x : A) → p x ≡ true → P x → P (f x))
      → All P xs
      → All P (update_where p f xs)
  unfolding update_where
  update_where-All P p f [] k h = tt
  update_where-All P p f (x ∷ xs) k h = elim (Bool-cases (p x)) [
    | inl e ↦ rw (e) (k x e h.0, update_where-All P p f xs k h.1)
    | inr e ↦ rw (e) (h.0, update_where-All P p f xs k h.1)
  ]

  pub any_of-append :
      (p : A → Bool) (xs ys : List A) → any_of p (xs ++ ys) ≡ (any_of p xs || any_of p ys)
  unfolding any_of
  any_of-append p [] ys = refl
  any_of-append p (x ∷ xs) ys = ground (arith, any_of-append p xs ys)

  pub any_of-update_where :
      (q p : A → Bool) (f : A → A) (xs : List A)
      → ((x : A) → q (f x) ≡ q x)
      → any_of q (update_where p f xs) ≡ any_of q xs
  unfolding any_of update_where
  any_of-update_where q p f [] h = refl
  any_of-update_where q p f (x ∷ xs) h = elim (Bool-cases (p x)) [
    | inl e ↦ rw (e) (rw (h x, any_of-update_where q p f xs h))
    | inr e ↦ rw (e) (rw (any_of-update_where q p f xs h))
  ]

pub All-append_one {ℓ κ} :
    {A : Type ℓ} (P : A → Type κ) (xs : List A) (y : A) → All P xs → P y → All P (xs ++ y ∷ [])
All-append_one P [] y h k = (k, tt)
All-append_one P (x ∷ xs) y h k = (h.0, All-append_one P xs y h.1 k)

IsUnique-append_one :
    (xs : List String) (k : String)
    → IsUnique xs
    → All (λ y. (y == k) ≡ false) xs
    → IsUnique (xs ++ k ∷ [])
IsUnique-append_one [] k u f = (tt, tt)
IsUnique-append_one (x ∷ xs) k u f =
    (All-append_one _ xs k u.0 f.0, IsUnique-append_one xs k u.1 f.1)

module _ {ℓ} {A : Type ℓ} (key : A → String) where
  absent :
      (k : String) (xs : List A)
      → any_of (λ x. key x == k) xs ≡ false
      → All (λ y. (y == k) ≡ false) (map key xs)
  unfolding any_of
  absent k [] h = tt
  absent k (x ∷ xs) h = (ground arith, absent k xs (ground arith))

  pub append-IsUnique :
      (xs : List A) (y : A)
      → any_of (λ x. key x == key y) xs ≡ false
      → IsUnique (map key xs)
      → IsUnique (map key (xs ++ y ∷ []))
  append-IsUnique xs y fresh u =
      rw (map-append key xs (y ∷ []))
        (IsUnique-append_one (map key xs) (key y) u (absent (key y) xs fresh))

  pub upsert-IsUnique :
      (f : A → A) (row : A) (xs : List A)
      → ((x : A) → (key x == key row) ≡ true → key (f x) ≡ key x)
      → IsUnique (map key xs)
      → IsUnique (map key (upsert (λ x. key x == key row) f row xs))
  unfolding upsert
  upsert-IsUnique f row xs keeps u = elim (Bool-cases (any_of (λ x. key x == key row) xs)) [
    | inl e ↦ rw (e) (rw (map-update_where key (λ x. key x == key row) f xs keeps) u)
    | inr e ↦ rw (e) (append-IsUnique xs row e u)
  ]

  none_other :
      (p : A → Bool) (k : String) (xs : List A)
      → ((x : A) → p x ≡ true → key x ≡ k)
      → All (λ y. (k == y) ≡ false) (map key xs)
      → keep p xs ≡ []
  unfolding keep
  none_other p k [] h f = refl
  none_other p k (x ∷ xs) h f = elim (Bool-cases (p x)) [
    | inl e ↦ absurd (cc (f.0, (eq_iff k (key x)).1 (sym (h x e))))
    | inr e ↦ rw (e) (none_other p k xs h f.1)
  ]

  -- At most one row has a given key.
  pub rowcount :
      (p : A → Bool) (k : String) (xs : List A)
      → ((x : A) → p x ≡ true → key x ≡ k)
      → IsUnique (map key xs)
      → any_of p xs ≡ true
      → length (keep p xs) ≡ 1
  unfolding any_of keep
  rowcount p k [] h u e = cc
  rowcount p k (x ∷ xs) h u e = elim (Bool-cases (p x)) [
    | inl hit ↦ rw (hit) (
        ap (λ (l : List A). suc (length l))
          (none_other p k xs h
            (subst (λ i. All (λ y. (i == y) ≡ false) (map key xs)) (h x hit) u.0)))
    | inr miss ↦ rw (miss) (rowcount p k xs h u.1 (ground arith))
  ]

module _ {ℓ} {A : Type ℓ} (key : A → String) where
  pub update_where-IsUnique :
      (p : A → Bool) (f : A → A) (xs : List A)
      → ((x : A) → p x ≡ true → key (f x) ≡ key x)
      → IsUnique (map key xs)
      → IsUnique (map key (update_where p f xs))
  update_where-IsUnique p f xs h u = rw (map-update_where key p f xs h) u

module _ {ℓ} {A : Type ℓ} where
  -- An update that makes no row pass a test leaves a table without one.
  pub any_of-update_where-false :
      (q p : A → Bool) (f : A → A) (xs : List A)
      → ((x : A) → p x ≡ true → q (f x) ≡ true → q x ≡ true)
      → any_of q xs ≡ false
      → any_of q (update_where p f xs) ≡ false
  unfolding any_of update_where
  any_of-update_where-false q p f [] h e = refl
  any_of-update_where-false q p f (x ∷ xs) h e = elim (Bool-cases (p x)) [
    | inl hit ↦ rw (hit) (ground (arith, h x hit, any_of-update_where-false q p f xs h))
    | inr miss ↦ rw (miss) (ground (arith, any_of-update_where-false q p f xs h))
  ]

  -- An update of the rows that pass a test, to rows that do not.
  pub any_of-update_where_self :
      (p : A → Bool) (f : A → A) (xs : List A)
      → ((x : A) → p (f x) ≡ false)
      → any_of p (update_where p f xs) ≡ false
  unfolding any_of update_where
  any_of-update_where_self p f [] h = refl
  any_of-update_where_self p f (x ∷ xs) h = elim (Bool-cases (p x)) [
    | inl hit ↦ rw (hit) (ground (arith, h x, any_of-update_where_self p f xs h))
    | inr miss ↦ rw (miss) (ground (arith, miss, any_of-update_where_self p f xs h))
  ]

  pub keep_none : (p : A → Bool) (xs : List A) → any_of p xs ≡ false → keep p xs ≡ []
  unfolding any_of keep
  keep_none p [] e = refl
  keep_none p (x ∷ xs) e = ground (arith, keep_none p xs)

  pub keep_some :
      (p : A → Bool) (xs : List A)
      → any_of p xs ≡ true
      → (y : A) × (ys : List A) × (keep p xs ≡ y ∷ ys)
  unfolding any_of keep
  keep_some p [] e = cc
  keep_some p (x ∷ xs) e = elim (Bool-cases (p x)) [
    | inl hit ↦ rw (hit) (x, keep p xs, refl)
    | inr miss ↦ rw (miss) (keep_some p xs (ground arith))
  ]

  pub keep-All : (p : A → Bool) (xs : List A) → All (λ x. Memᴰ x xs × (p x ≡ true)) (keep p xs)
  unfolding keep
  keep-All p [] = tt
  keep-All p (x ∷ xs) =
      let rest =
        All-imp _ (λ y. Memᴰ y (x ∷ xs) × (p y ≡ true)) (keep p xs) (λ y m. (Memᴰ.tail m.0, m.1))
          (keep-All p xs) in
      elim (Bool-cases (p x)) [
        | inl hit ↦ rw (hit) ((Memᴰ.head refl, hit), rest)
        | inr miss ↦ rw (miss) rest
      ]

  pub any_of-mem :
      (p : A → Bool) (xs : List A) {x : A} → Memᴰ x xs → p x ≡ true → any_of p xs ≡ true
  unfolding any_of
  any_of-mem p [] m e = elim m [ ]
  any_of-mem p (y ∷ xs) (Memᴰ.head same) e = ground (arith, subst (λ z. p z ≡ true) same e)
  any_of-mem p (y ∷ xs) (Memᴰ.tail m) e = ground (arith, any_of-mem p xs m e)

  pub any_of-append_one :
      (p : A → Bool) (xs : List A) (y : A) → any_of p (xs ++ y ∷ []) ≡ (any_of p xs || p y)
  unfolding any_of
  any_of-append_one p [] y = ground arith
  any_of-append_one p (x ∷ xs) y = ground (arith, any_of-append_one p xs y)

  pub any_of-imp :
      (p q : A → Bool) (xs : List A)
      → ((x : A) → p x ≡ true → q x ≡ true)
      → any_of p xs ≡ true
      → any_of q xs ≡ true
  unfolding any_of
  any_of-imp p q [] h e = cc
  any_of-imp p q (x ∷ xs) h e = ground (arith, h x, any_of-imp p q xs h)
