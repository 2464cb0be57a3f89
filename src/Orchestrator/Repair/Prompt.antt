-- ===== src/Orchestrator/Repair/Prompt.antt =====
-- final_response_repair.py: the prompt of the model that repairs an answer.
use Prim.Native.String.{count}
use hermes_sdlc_agents.Prelude.{String, ℕ, concat, take_chars, ltb, if◌then◌else◌, [], ◌∷◌}
use hermes_sdlc_agents.Prelude.Json.{Json}

abbrev pub truncated : ℕ → String → String
truncated max_chars candidate =
    if ltb max_chars (count candidate)
    then concat (take_chars max_chars candidate ∷ "\n[truncated by orchestrator]" ∷ [])
    else candidate

unfoldable pub build_model_repair_prompt : (Json → String) → Json → String → ℕ → String
build_model_repair_prompt dumps payload parse_error max_chars = concat (
    "You are a JSON repair function.\n"
    ∷ "Transform the candidate agent output into exactly one JSON object matching the required schema.\n"
    ∷ "Do not add new facts.\n"
    ∷ "Do not summarize differently.\n"
    ∷ "Do not change assignment_key, role, or final_status.\n"
    ∷ "Convert evidence strings into objects with source/detail.\n"
    ∷ "Preserve existing decision_log, risks, and assumptions only if they are explicitly present and safe.\n"
    ∷ "Normalize missing decision_log, risks, and assumptions to empty arrays.\n"
    ∷ "Do not create hidden chain-of-thought or invent new rationale.\n"
    ∷ "Remove forbidden reasoning fields if present.\n"
    ∷ "If the candidate cannot be safely repaired, return {\"repair_status\":\"UNREPAIRABLE\",\"reason\":\"...\"}.\n"
    ∷ "Return only JSON.\n\n"
    ∷ "Required schema:\n"
    ∷ "{\"assignment_key\":\"<exact assignment key>\",\"role\":\"<exact role>\",\"final_status\":\"<one allowed status>\","
    ∷ "\"summary\":\"<same result>\",\"evidence\":[{\"source\":\"<url/path/id>\",\"detail\":\"<what this proves>\"}],"
    ∷ "\"decision_log\":[\"<short observable decision or check performed>\"],\"risks\":[\"<known risk>\"],\"assumptions\":[\"<explicit assumption>\"],"
    ∷ "\"next_handoff\":null,\"block_reason\":null}\n\n"
    ∷ "Strict parser error:\n"
    ∷ parse_error
    ∷ "\n\n"
    ∷ "Candidate agent output:\n"
    ∷ truncated max_chars (dumps payload)
    ∷ [])
