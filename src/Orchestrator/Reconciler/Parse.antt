-- ===== src/Orchestrator/Reconciler/Parse.antt =====
-- reconciler.py: `_parse_or_repair_final_response`, and the payload that a completed run stores.
use mathlib.Core.Option
use hermes_sdlc_agents.Prelude.{
  not, concat, ◌++◌, Result, map, or_else, is_some, String, Bool, true, false, Option, none, some,
  List, [], ◌∷◌, if◌then◌else◌, ◌==◌, ok, raise,
}
use hermes_sdlc_agents.Prelude.Json.{
  Json, Fields, Items, nil, cons, str, obj, arr, null, field, end, get,
}
use hermes_sdlc_agents.Orchestrator.Reconciler.{
  uncaught_parse, ReconcileError, RepairRequest, Settings, Agent, Runtime,
}
use hermes_sdlc_agents.Orchestrator.Repair.{
  deterministic_repair_payload, RepairResult, final_response_keys, put,
}
use hermes_sdlc_agents.Orchestrator.Response.{
  parse_final_response, FinalResponse, ResponseError, final_response_error, uncaught,
}
use hermes_sdlc_agents.Orchestrator.Database.{WorkRow, Assignment, AgentRun}
use hermes_sdlc_agents.Orchestrator.Reconciler.Scrub.{scrub_fields, scrub}
use hermes_sdlc_agents.Orchestrator.Statuses.{value}
use hermes_sdlc_agents.Orchestrator.Repair.Prompt.{build_model_repair_prompt}

-- A row of `active_runs`.
abbrev pub ActiveRun : Type 0
ActiveRun = AgentRun × Assignment × WorkRow

abbrev pub key_of : ActiveRun → String
key_of run = (run.0).assignment_key

abbrev pub role_of : ActiveRun → String
role_of run = (run.1).role

-- What `_parse_or_repair_final_response` returns, with `repair_info` apart, and what it counts.
pub record Parsed : Type 0 where
  pub response : Option FinalResponse
  pub payload : Fields
  pub method : Option String
  pub diagnostics : List String
  pub parse_error : Option String
  pub repaired_output : Bool
  pub model_repair_attempted : Bool

abbrev pub accepted : FinalResponse → Fields → Option String → List String → Bool → Parsed
accepted r payload method diagnostics asked = record {
  response = some r;
  payload = payload;
  method = method;
  diagnostics = diagnostics;
  parse_error = none;
  repaired_output = is_some method;
  model_repair_attempted = asked;
}

abbrev pub refused : Fields → List String → String → Bool → Parsed
refused payload diagnostics message asked = record {
  response = none;
  payload = payload;
  method = none;
  diagnostics = diagnostics;
  parse_error = some message;
  repaired_output = false;
  model_repair_attempted = asked;
}

abbrev pub session_of : ActiveRun → String
session_of run =
    let session = or_else (run.0).session_id "" in if session == "" then key_of run else session

unfoldable pub items_of : List Json → Items
items_of [] = nil
items_of (v ∷ vs) = cons v (items_of vs)

abbrev pub or_null : Option Json → Json
or_null none = null
or_null (some v) = v

module _ (py : Runtime) where
  -- `str` of the exceptions of the parser.
  abbrev pub error_message : String → ResponseError → String
  error_message role (final_response_error message) = message
  error_message role uncaught = py.key_error role

  module _ (agent : Agent) (settings : Settings) (run : ActiveRun) where
    abbrev pub parse : Fields → Result ResponseError FinalResponse
    parse payload = parse_final_response py.loads payload (role_of run) (key_of run)

    abbrev pub repair_of : Fields → RepairResult
    repair_of payload =
        deterministic_repair_payload py.loads py.equal settings.final_response_repair_max_chars
          payload

    abbrev pub repair_request : Fields → String → RepairRequest
    repair_request payload message = record {
      model = settings.final_response_repair_model;
      session_id = concat ("repair:" ∷ session_of run ∷ []);
      prompt =
          build_model_repair_prompt py.dumps (scrub (obj payload)) message
            settings.final_response_repair_max_chars;
      idempotency_key = concat ("repair:" ∷ key_of run ∷ ":" ∷ (run.0).hermes_run_id ∷ []);
      timeout_seconds = settings.final_response_repair_timeout_seconds;
    }

    -- The parse of what the model answered.
    abbrev pub model_parsed :
        Fields → String → RepairResult → List String → Result ResponseError FinalResponse → Parsed
    model_parsed payload message repair diagnostics (ok r) =
        accepted r repair.payload (some "model") diagnostics true
    model_parsed payload message repair diagnostics (raise e) =
        refused payload
          (diagnostics
            ++ concat ("model repair failed: " ∷ error_message (role_of run) e ∷ []) ∷ [])
          message true

    abbrev pub model_answered : Fields → String → List String → Result String Fields → Parsed
    model_answered payload message diagnostics (raise e) =
        refused payload (diagnostics ++ concat ("model repair failed: " ∷ e ∷ []) ∷ []) message true
    model_answered payload message diagnostics (ok answer) =
        let repair = repair_of answer in
        model_parsed payload message repair
          (diagnostics ++ map (λ d. concat ("model: " ∷ d ∷ [])) repair.diagnostics)
          (parse repair.payload)

    unfoldable pub model_repair : Fields → String → List String → Parsed
    unfolding parse_final_response deterministic_repair_payload build_model_repair_prompt scrub
    model_repair payload message diagnostics =
        if settings.final_response_model_repair_enabled
        then model_answered payload message diagnostics
            (agent.repair (repair_request payload message))
        else refused payload diagnostics message false

    -- The parse after the deterministic repair.
    abbrev pub repair_parsed :
        Fields
        → String
        → RepairResult
        → Result ResponseError FinalResponse
        → Result ReconcileError Parsed
    repair_parsed payload message repair (ok r) =
        ok (accepted r repair.payload (some repair.method) repair.diagnostics false)
    repair_parsed payload message repair (raise uncaught) = raise uncaught_parse
    repair_parsed payload message repair (raise (final_response_error e)) = ok (
        model_repair payload message
          (repair.diagnostics ++ concat ("deterministic parse failed: " ∷ e ∷ []) ∷ []))

    unfoldable pub repair_response : Fields → String → Result ReconcileError Parsed
    unfolding model_repair parse_final_response deterministic_repair_payload
    repair_response payload message =
        let repair = repair_of payload in
        if not settings.final_response_repair_enabled
        then ok (refused payload [] message false)
        else if repair.repaired
        then repair_parsed payload message repair (parse repair.payload)
        else ok (model_repair payload message repair.diagnostics)

    abbrev pub first_parsed :
        Fields → Result ResponseError FinalResponse → Result ReconcileError Parsed
    first_parsed payload (ok r) = ok (accepted r payload none [] false)
    first_parsed payload (raise uncaught) = raise uncaught_parse
    first_parsed payload (raise (final_response_error message)) = repair_response payload message

    unfoldable pub parse_or_repair_final_response : Fields → Result ReconcileError Parsed
    unfolding parse_final_response repair_response
    parse_or_repair_final_response payload = first_parsed payload (parse payload)

  -- `FinalResponse.to_json`.
  unfoldable pub to_json : FinalResponse → String
  unfolding items_of value
  to_json r = py.dumps (
      obj (
        field "assignment_key" (str r.assignment_key) (
          field "role" (str r.role) (
            field "final_status" (str (value r.final_status)) (
              field "summary" (str r.summary) (
                field "evidence" (arr (items_of (map (λ f. obj f) r.evidence))) (
                  field "decision_log" (arr (items_of (map (λ s. str s) r.decision_log))) (
                    field "risks" (arr (items_of (map (λ s. str s) r.risks))) (
                      field "assumptions" (arr (items_of (map (λ s. str s) r.assumptions))) (
                        field "next_handoff" (or_null (Option.map (λ f. obj f) r.next_handoff)) (
                          field "block_reason" (or_null (Option.map (λ s. str s) r.block_reason))
                            end)))))))))))

  -- The key that takes the canonical response.
  unfoldable pub completion_key : List String → Fields → String
  completion_key [] payload = "final_response"
  completion_key (key ∷ keys) payload =
      if is_some (get payload key) then key else completion_key keys payload

  unfoldable pub canonical_completion_payload : Fields → Json → Fields
  unfolding completion_key put scrub
  canonical_completion_payload payload canonical =
      let safe = scrub_fields payload in
      put (completion_key final_response_keys safe) canonical safe

  abbrev pub with_repair_info : Option String → List String → Fields → Fields
  with_repair_info none diagnostics payload = payload
  with_repair_info (some method) diagnostics payload =
      put "final_response_repair"
        (obj (
          field "method" (str method)
            (field "diagnostics" (arr (items_of (map (λ s. str s) diagnostics))) end)))
        payload

  unfoldable pub raw_with_repair_info : Fields → Option String → List String → String
  unfolding scrub put items_of
  raw_with_repair_info payload method diagnostics =
      py.dumps (obj (with_repair_info method diagnostics (scrub_fields payload)))
