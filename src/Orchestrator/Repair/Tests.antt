-- ===== src/Orchestrator/Repair/Tests.antt =====
-- The theorems about the repair at concrete inputs.
use hermes_sdlc_agents.Prelude.{String, Bool, true, Option, none, [], ◌∷◌, refl}
use hermes_sdlc_agents.Prelude.Json.{Json, Fields, str, obj, end, field}
use hermes_sdlc_agents.Orchestrator.Repair.{balanced_object_spans, deterministic_repair_payload}
use hermes_sdlc_agents.Orchestrator.Repair.Kept.{deterministic_repair-IsKept, IsKept}
use hermes_sdlc_agents.Orchestrator.Repair.Spans.{balanced_object_spans-IsChain, IsChain}

abbrev unread : String → Option Json
unread s = none

abbrev same : Option Json → Option Json → Bool
same a b = true

abbrev response : Fields
response = field "final_response" (obj (field "role" (str "builder") end)) end

deterministic_repair-IsKept_example :
    IsKept unread same 100 response (deterministic_repair_payload unread same 100 response).payload
deterministic_repair-IsKept_example = deterministic_repair-IsKept unread same 100 response

balanced_object_spans-IsChain_example : IsChain 0 ((1, 6) ∷ (7, 9) ∷ []) 9
unfolding balanced_object_spans
balanced_object_spans-IsChain_example =
    balanced_object_spans-IsChain "a{\"b\"}c{}" ((1, 6) ∷ (7, 9) ∷ []) refl
