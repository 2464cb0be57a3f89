-- ===== src/Orchestrator/Repair/Kept.antt =====
-- What a repair leaves as the agent wrote it.
use hermes_sdlc_agents.Prelude.{
  ◌++◌, All-self, eq_refl, String, Bool, false, Option, none, some, List, [], ◌∷◌, refl, ◌≡◌, inl,
  inr, Bool-cases, ◌==◌, ℕ, eq_iff, All, Memᴰ, ◌⊎◌, ◌∙◌, sym, arith,
}
use hermes_sdlc_agents.Prelude.Table.{elem}
use hermes_sdlc_agents.Prelude.Json.{Json, Fields, obj, get, end, field}
use hermes_sdlc_agents.Orchestrator.Repair.{
  Attempt, normalize_payload, attempt, changed, text_fields, normalize_lists, normalize,
  deterministic_repair_payload, final_response_keys, repair_from, put, Normal, found, skipped,
}

get-put_other :
    (j k : String) (v : Json) (fs : Fields) → (j == k) ≡ false → get (put j v fs) k ≡ get fs k
unfolding get put
get-put_other j k v end h = rw (h) refl
get-put_other j k v (field i w fs) h = elim (Bool-cases (i == j)) [
  | inl e ↦ elim (Bool-cases (i == k)) [
    | inl f ↦ absurd (cc (h, (eq_iff j k).1 (sym ((eq_iff i j).0 e) ∙ (eq_iff i k).0 f)))
    | inr f ↦ rw (e, f) refl
  ]
  | inr e ↦ elim (Bool-cases (i == k)) [
    | inl f ↦ rw (e, f) refl
    | inr f ↦ rw (e, f) (get-put_other j k v fs h)
  ]
]

get-put_same : (k : String) (v : Json) (fs : Fields) → get (put k v fs) k ≡ some v
unfolding get put
get-put_same k v end = rw (eq_refl k) refl
get-put_same k v (field i w fs) = elim (Bool-cases (i == k)) [
  | inl e ↦ rw (e, e) refl
  | inr e ↦ rw (e, e) (get-put_same k v fs)
]

changed_other :
    (name k : String) (o : Option (Json × String)) (n : Normal)
    → (name == k) ≡ false
    → get (changed name o n).fields k ≡ get n.fields k
changed_other name k none n h = refl
changed_other name k (some (v, message)) n h = get-put_other name k v n.fields h

normalize_lists_other :
    (names : List String) (k : String) (n : Normal)
    → elem k names ≡ false
    → get (normalize_lists names n).fields k ≡ get n.fields k
unfolding normalize_lists elem
normalize_lists_other [] k n h = refl
normalize_lists_other (name ∷ names) k n h =
    normalize_lists_other names k _ (ground (arith, h))
    ∙ changed_other name k _ n (ground (arith, h))

-- The fields that a repair may set.
abbrev pub repaired_fields : List String
repaired_fields = "evidence" ∷ text_fields

normalize_other :
    (k : String) (given : Fields) (diagnostics : List String)
    → elem k repaired_fields ≡ false
    → get (normalize given diagnostics).fields k ≡ get given k
unfolding normalize elem
normalize_other k given diagnostics h =
    normalize_lists_other text_fields k _ (ground (arith, h))
    ∙ changed_other "evidence" k _ _ (ground (arith, h))

module _ (loads : String → Option Json) (equal : Option Json → Option Json → Bool) (max_chars : ℕ)
    (payload : Fields) where
  -- The payload is left as it is, or one of its response fields becomes the object that was found in
  -- it, with no other key set than the evidence and the three lists.
  abbrev pub IsKept : Fields → Type 0
  IsKept repaired =
      (repaired ≡ payload)
      ⊎ ((key : String) × (given result : Fields) × Memᴰ key final_response_keys
          × (attempt loads equal max_chars key (get payload key) ≡ found given)
          × (get repaired key ≡ some (obj result))
          × ((k : String) → elem k repaired_fields ≡ false → get result k ≡ get given k)
          × ((k : String) → (key == k) ≡ false → get repaired k ≡ get payload k))

  by_attempt :
      (key : String) (keys diagnostics : List String)
      → Memᴰ key final_response_keys
      → (a : Attempt) → attempt loads equal max_chars key (get payload key) ≡ a
      → ((ds : List String) → IsKept (repair_from loads equal max_chars payload keys ds).payload)
      → IsKept (repair_from loads equal max_chars payload (key ∷ keys) diagnostics).payload
  unfolding repair_from normalize_payload
  by_attempt key keys diagnostics m (found given) e h =
      rw (IsKept, repair_from, e)
        (inr (
          key,
          given,
          (normalize given diagnostics).fields,
          m,
          e,
          get-put_same key (obj (normalize given diagnostics).fields) payload,
          (λ k other. normalize_other k given diagnostics other),
          (λ k other. get-put_other key k (obj (normalize given diagnostics).fields) payload other),
        ))
  by_attempt key keys diagnostics m (skipped ds) e h =
      rw (IsKept, repair_from, e) (h (diagnostics ++ ds))

  repair_from-IsKept :
      (keys : List String) (diagnostics : List String)
      → All (λ k. Memᴰ k final_response_keys) keys
      → IsKept (repair_from loads equal max_chars payload keys diagnostics).payload
  unfolding repair_from normalize_payload
  repair_from-IsKept [] diagnostics m = inl refl
  repair_from-IsKept (key ∷ keys) diagnostics m =
      by_attempt key keys diagnostics m.0 _ refl (λ ds. repair_from-IsKept keys ds m.1)

  -- A repair never changes what the agent answered but for the evidence and the lists: the assignment,
  -- the role, the final status and the summary of the object that is found are kept, and so are the
  -- other fields of the payload.
  pub deterministic_repair-IsKept :
      IsKept (deterministic_repair_payload loads equal max_chars payload).payload
  unfolding deterministic_repair_payload
  deterministic_repair-IsKept =
      repair_from-IsKept final_response_keys [] (All-self final_response_keys)
