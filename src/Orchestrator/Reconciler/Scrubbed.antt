-- ===== src/Orchestrator/Reconciler/Scrubbed.antt =====
-- What is left of a value that was scrubbed.
use hermes_sdlc_agents.Prelude.{
  String, Bool, true, false, not, ◌&&◌, ◌≡◌, refl, ap, arith, inl, inr, Bool-cases, ◌==◌,
}
use hermes_sdlc_agents.Prelude.Table.{elem}
use hermes_sdlc_agents.Prelude.Json.{
  Json, Items, Fields, null, bool, number, str, arr, obj, nil, cons, end, field,
}
use hermes_sdlc_agents.Orchestrator.Reconciler.Scrub.{
  forbidden_reasoning_keys, scrub, scrub_items, scrub_fields,
}
use hermes_sdlc_agents.Orchestrator.Repair.{put}

abbrev pub is_forbidden : String → Bool
is_forbidden k = elem k forbidden_reasoning_keys

-- No dict of the value, at any depth, has a forbidden key.
unfoldable mutual
  pub is_clean : Json → Bool
  is_clean (obj fs) = is_clean_fields fs
  is_clean (arr vs) = is_clean_items vs
  is_clean null = true
  is_clean (bool b) = true
  is_clean (number n) = true
  is_clean (str s) = true

  pub is_clean_items : Items → Bool
  is_clean_items nil = true
  is_clean_items (cons v vs) = is_clean v && is_clean_items vs

  pub is_clean_fields : Fields → Bool
  is_clean_fields end = true
  is_clean_fields (field k v fs) = not (is_forbidden k) && is_clean v && is_clean_fields fs

mutual
  unfolding scrub is_clean

  pub scrub_clean : (v : Json) → is_clean (scrub v) ≡ true
  scrub_clean (obj fs) = scrub_fields_clean fs
  scrub_clean (arr vs) = scrub_items_clean vs
  scrub_clean null = refl
  scrub_clean (bool b) = refl
  scrub_clean (number n) = refl
  scrub_clean (str s) = refl

  scrub_items_clean : (vs : Items) → is_clean_items (scrub_items vs) ≡ true
  scrub_items_clean nil = refl
  scrub_items_clean (cons v vs) = rw (scrub_clean v, scrub_items_clean vs) refl

  pub scrub_fields_clean : (fs : Fields) → is_clean_fields (scrub_fields fs) ≡ true
  scrub_fields_clean end = refl
  scrub_fields_clean (field k v fs) = elim (Bool-cases (is_forbidden k)) [
    | inl e ↦ rw (e) (scrub_fields_clean fs)
    | inr e ↦ rw (e, e, scrub_clean v, scrub_fields_clean fs) refl
  ]

mutual
  unfolding scrub is_clean

  -- A value without a forbidden key is left as it is.
  pub scrub_same : (v : Json) → is_clean v ≡ true → scrub v ≡ v
  scrub_same (obj fs) h = ap obj (scrub_fields_same fs h)
  scrub_same (arr vs) h = ap arr (scrub_items_same vs h)
  scrub_same null h = refl
  scrub_same (bool b) h = refl
  scrub_same (number n) h = refl
  scrub_same (str s) h = refl

  scrub_items_same : (vs : Items) → is_clean_items vs ≡ true → scrub_items vs ≡ vs
  scrub_items_same nil h = refl
  scrub_items_same (cons v vs) h =
      rw (scrub_same v (ground (arith, h)), scrub_items_same vs (ground (arith, h))) refl

  scrub_fields_same : (fs : Fields) → is_clean_fields fs ≡ true → scrub_fields fs ≡ fs
  scrub_fields_same end h = refl
  scrub_fields_same (field k v fs) h =
      let allowed : is_forbidden k ≡ false = ground (arith, h) in
      rw (allowed, scrub_same v (ground (arith, h)), scrub_fields_same fs (ground (arith, h))) refl

pub put_clean :
    (k : String) (v : Json) (fs : Fields)
    → is_forbidden k ≡ false
    → is_clean v ≡ true
    → is_clean_fields fs ≡ true
    → is_clean_fields (put k v fs) ≡ true
unfolding is_clean put
put_clean k v end a c h = rw (a, c) refl
put_clean k v (field j w fs) a c h = elim (Bool-cases (j == k)) [
  | inl e ↦ rw (e) (ground (arith, h, c))
  | inr e ↦ rw (e) (ground (arith, h, put_clean k v fs a c (ground (arith, h))))
]

-- Scrubbing leaves no forbidden key at any depth, and leaves a value without one as it is.
pub scrub_exact : (v : Json) → (is_clean (scrub v) ≡ true) × (is_clean v ≡ true → scrub v ≡ v)
scrub_exact v = (scrub_clean v, scrub_same v)
