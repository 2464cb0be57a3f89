-- ===== src/Orchestrator/Reconciler/Scrub.antt =====
-- reconciler.py: `_scrub_forbidden_reasoning_fields`.
use hermes_sdlc_agents.Prelude.{String, List, [], ◌∷◌, if◌then◌else◌}
use hermes_sdlc_agents.Prelude.Table.{elem}
use hermes_sdlc_agents.Prelude.Json.{
  Json, Items, Fields, null, bool, number, str, arr, obj, nil, cons, end, field,
}

abbrev pub forbidden_reasoning_keys : List String
forbidden_reasoning_keys =
    "chain_of_thought" ∷ "chainOfThought" ∷ "cot" ∷ "reasoning_trace" ∷ "reasoning_steps"
    ∷ "private_reasoning" ∷ "internal_monologue" ∷ []

unfoldable mutual
  pub scrub : Json → Json
  scrub (obj fs) = obj (scrub_fields fs)
  scrub (arr vs) = arr (scrub_items vs)
  scrub null = null
  scrub (bool b) = bool b
  scrub (number n) = number n
  scrub (str s) = str s

  pub scrub_items : Items → Items
  scrub_items nil = nil
  scrub_items (cons v vs) = cons (scrub v) (scrub_items vs)

  pub scrub_fields : Fields → Fields
  scrub_fields end = end
  scrub_fields (field k v fs) =
      let rest = scrub_fields fs in
      if elem k forbidden_reasoning_keys then rest else field k (scrub v) rest
