-- ===== src/Gate/Scan/Blind.antt =====
-- What is logged and searched of a value does not depend on what stands under its sensitive keys.
use hermes_sdlc_agents.Prelude.{
  ℕ, zero, suc, ◌+◌, String, true, false, ◌≡◌, refl, ap, if◌then◌else◌, join,
}
use hermes_sdlc_agents.Prelude.Json.{Json, Items, Fields, arr, obj, nil, cons, end, field}
use hermes_sdlc_agents.Gate.{Runtime, is_sensitive, stable_hash}
use hermes_sdlc_agents.Gate.Scan.{
  bounded, bounded_items, bounded_fields, hidden, visit, visit_items, visit_fields, flatten_text,
}

module _ (py : Runtime) where
  -- The values differ at most in what stands under sensitive keys; that has the same hash in both.
  mutual
    pub data Agree : Json → Json → Type 0 where
      same : (v : Json) → Agree v v
      arrays : {vs ws : Items} → AgreeItems vs ws → Agree (arr vs) (arr ws)
      objects : {fs gs : Fields} → AgreeFields fs gs → Agree (obj fs) (obj gs)

    pub data AgreeItems : Items → Items → Type 0 where
      no_items : AgreeItems nil nil
      next :
          {v w : Json} {vs ws : Items}
          → Agree v w
          → AgreeItems vs ws
          → AgreeItems (cons v vs) (cons w ws)

    pub data AgreeFields : Fields → Fields → Type 0 where
      no_fields : AgreeFields end end
      shown :
          (k : String) {v w : Json} {fs gs : Fields}
          → is_sensitive py k ≡ false
          → Agree v w
          → AgreeFields fs gs
          → AgreeFields (field k v fs) (field k w gs)
      secret :
          (k : String) {v w : Json} {fs gs : Fields}
          → is_sensitive py k ≡ true
          → stable_hash py v ≡ stable_hash py w
          → AgreeFields fs gs
          → AgreeFields (field k v fs) (field k w gs)

  hidden_same :
      (k : String) (depth : ℕ) (v w : Json)
      → is_sensitive py k ≡ true
      → stable_hash py v ≡ stable_hash py w
      → (if is_sensitive py k then hidden py v else bounded py depth v)
        ≡ (if is_sensitive py k then hidden py w else bounded py depth w)
  unfolding hidden
  hidden_same k depth v w s e = rw (s, e) refl

  mutual
    unfolding bounded

    bounded_same : (depth : ℕ) {v w : Json} → Agree v w → bounded py depth v ≡ bounded py depth w
    bounded_same depth (same v) = refl
    bounded_same depth (arrays h) = rw (bounded_items_same (depth + 1) 25 h) refl
    bounded_same depth (objects h) = rw (bounded_fields_same (depth + 1) 50 h) refl

    bounded_items_same :
        (depth n : ℕ) {vs ws : Items}
        → AgreeItems vs ws
        → bounded_items py depth n vs ≡ bounded_items py depth n ws
    bounded_items_same depth n no_items = refl
    bounded_items_same depth zero (next h hs) = refl
    bounded_items_same depth (suc n) (next h hs) =
        rw (bounded_same depth h, bounded_items_same depth n hs) refl

    bounded_fields_same :
        (depth n : ℕ) {fs gs : Fields}
        → AgreeFields fs gs
        → bounded_fields py depth n fs ≡ bounded_fields py depth n gs
    bounded_fields_same depth n no_fields = refl
    bounded_fields_same depth zero (shown k s h hs) = refl
    bounded_fields_same depth zero (secret k s e hs) = refl
    bounded_fields_same depth (suc n) (shown k s h hs) =
        rw (s, bounded_same depth h, bounded_fields_same depth n hs) refl
    bounded_fields_same depth (suc n) (secret k {v} {w} s e hs) =
        λ i. field k (hidden_same k depth v w s e i) (bounded_fields_same depth n hs i)

  mutual
    unfolding visit

    visit_same : (depth : ℕ) {v w : Json} → Agree v w → visit py depth v ≡ visit py depth w
    visit_same depth (same v) = refl
    visit_same depth (arrays h) = rw (visit_items_same (depth + 1) 50 h) refl
    visit_same depth (objects h) = rw (visit_fields_same (depth + 1) 50 h) refl

    visit_items_same :
        (depth n : ℕ) {vs ws : Items}
        → AgreeItems vs ws
        → visit_items py depth n vs ≡ visit_items py depth n ws
    visit_items_same depth n no_items = refl
    visit_items_same depth zero (next h hs) = refl
    visit_items_same depth (suc n) (next h hs) =
        rw (visit_same depth h, visit_items_same depth n hs) refl

    visit_fields_same :
        (depth n : ℕ) {fs gs : Fields}
        → AgreeFields fs gs
        → visit_fields py depth n fs ≡ visit_fields py depth n gs
    visit_fields_same depth n no_fields = refl
    visit_fields_same depth zero (shown k s h hs) = refl
    visit_fields_same depth zero (secret k s e hs) = refl
    visit_fields_same depth (suc n) (shown k s h hs) =
        rw (s, visit_same depth h, visit_fields_same depth n hs) refl
    visit_fields_same depth (suc n) (secret k s e hs) = rw (s, visit_fields_same depth n hs) refl

  -- Two values that differ only in what stands under sensitive keys, with the same hashes there, are
  -- logged alike and searched alike.
  pub bounded-Agree :
      {v w : Json}
      → Agree v w
      → (bounded py 0 v ≡ bounded py 0 w) × (flatten_text py v ≡ flatten_text py w)
  unfolding flatten_text
  bounded-Agree h = (bounded_same 0 h, ap (join " ") (visit_same 0 h))
