-- ===== src/Gate/Hooks.antt =====
-- The plugin's hooks. A hook gives the events that it emits, in order; that they are printed and
-- appended to a file is left out. `now` is the time, as a text, of each event of the hook.
pub mod Blocked
pub mod Remembered
pub mod Known
pub mod Matched
mod Tests
use hermes_sdlc_agents.Prelude.{
  ℕ, ◌+◌, String, Bool, true, false, not, ◌&&◌, ◌||◌, Option, none, some, List, [], ◌∷◌, ◌++◌, ◌==◌,
  leb, is_some, join, concat, Result, ok, raise, if◌then◌else◌,
}
use hermes_sdlc_agents.Prelude.Table.{unique}
use hermes_sdlc_agents.Prelude.Json.{
  Json, Items, Fields, null, bool, number, str, arr, obj, nil, cons, end, field,
}
use hermes_sdlc_agents.Gate.{
  Runtime, Risk, risk_rank, risk_name, at_least_high, Mode, enforce, mode_name, mode, block_level,
  value_at, or_value, text_or_empty, stable_hash, env,
}
use hermes_sdlc_agents.Gate.Scan.{bounded}
use hermes_sdlc_agents.Gate.Classify.{Classified, classify_action}
use hermes_sdlc_agents.Gate.Calls.{Call, HookError, extract_tool_calls}
use hermes_sdlc_agents.Gate.Proposals.{Proposal, Proposals, remember, match_proposal}

abbrev pub Event : Type 0
Event = Fields

abbrev pub texts : List String → Items
texts [] = nil
texts (s ∷ ss) = cons (str s) (texts ss)

-- What `on_post_api_request` leaves: it may raise after its first event.
pub record Posted : Type 0 where
  pub proposals : Proposals
  pub events : List Event
  pub raised : Option HookError

-- The local variables of `on_pre_tool_call` that its answer and its event are made of.
pub record Verdict : Type 0 where
  pub risk : Risk
  pub category : String
  pub reasons : List String
  pub mismatch : Bool
  pub blocked : Bool

abbrev pub mismatch_reason : Option Proposal → String
mismatch_reason none = "no_matching_model_proposal"
mismatch_reason (some p) = "intent_action_mismatch"

-- `proposal is None or proposal["args_hash"] != args_hash`
abbrev pub is_mismatch : Option Proposal → String → Bool
is_mismatch none args_hash = true
is_mismatch (some p) args_hash = not (p.args_hash == args_hash)

abbrev pub is_enforce : Mode → Bool
is_enforce enforce = true
is_enforce _ = false

-- `",".join(reasons) or "threshold"`
abbrev pub reason_text : List String → String
reason_text reasons = if join "," reasons == "" then "threshold" else join "," reasons

module _ (py : Runtime) (now : ℕ → String) where
  abbrev pub env_text : String → Json
  env_text name = str (env py name "")

  abbrev pub event : ℕ → String → Fields → Event
  event i event_type fields = field "schema" (str "hermeteam.intent-action.v1") (
      field "plugin_version" (str "0.1.0") (
        field "timestamp" (str (now i)) (
          field "event_type" (str event_type) (
            field "role" (env_text "ORCHESTRATOR_ROLE") (
              field "repository"
                (or_value py (env_text "GITHUB_REPOSITORY_FULL_NAME") (env_text "REPOSITORY_ID"))
                fields)))))

  abbrev pub text_at : Fields → String → String
  text_at kwargs k = text_or_empty py (value_at kwargs k)

  abbrev pub with_mode : Fields → Fields
  with_mode fields = field "mode" (str (mode_name (mode py))) fields

  -- The fields of the session that each event of a hook starts with.
  abbrev pub with_session : Fields → Fields → Fields
  with_session kwargs fields = with_mode (
      field "session_id" (str (text_at kwargs "session_id")) (
        field "turn_id" (str (text_at kwargs "turn_id"))
          (field "api_request_id" (str (text_at kwargs "api_request_id")) fields)))

  unfoldable pub on_pre_api_request : Fields → List Event
  unfolding mode env stable_hash bounded
  on_pre_api_request kwargs =
      let request = value_at kwargs "request" in
      event 0 "llm.request" (
        with_session kwargs (
          field "provider" (str (text_at kwargs "provider")) (
            field "model" (str (text_at kwargs "model")) (
              field "api_mode" (str (text_at kwargs "api_mode")) (
                field "message_count" (value_at kwargs "message_count") (
                  field "tool_count" (value_at kwargs "tool_count") (
                    field "approx_input_tokens" (value_at kwargs "approx_input_tokens") (
                      field "request_hash" (str (stable_hash py request))
                        (field "request" (bounded py 0 request) end)))))))))
      ∷ []

  unfoldable pub proposal_of : Call → Proposal
  unfolding classify_action stable_hash
  proposal_of call =
      let c = classify_action py call.tool_name call.args in
      record {
        tool_call_id = call.tool_call_id;
        tool_name = call.tool_name;
        args_hash = stable_hash py call.args;
        risk = c.risk;
        category = c.category;
        reasons = c.reasons;
      }

  abbrev pub proposed_event : ℕ → Fields → Call → Proposal → Event
  proposed_event i kwargs call p = event i "intent.proposed_action" (
      with_session kwargs (
        field "tool_call_id" (str p.tool_call_id) (
          field "tool_name" (str p.tool_name) (
            field "args_hash" (str p.args_hash) (
              field "args" (bounded py 0 call.args) (
                field "risk" (str (risk_name p.risk)) (
                  field "category" (str p.category)
                    (field "reasons" (arr (texts p.reasons)) end))))))))

  -- The loop over the calls of a response; its `i`-th event is the next one.
  unfoldable pub propose : Fields → ℕ → List Call → Proposals → List Event → Posted
  unfolding proposal_of remember mode env bounded
  propose kwargs i [] s events = record { proposals = s; events = events; raised = none }
  propose kwargs i (call ∷ calls) s events =
      let p = proposal_of call in
      propose kwargs (i + 1) calls (remember (text_at kwargs "session_id") p s)
        (events ++ proposed_event i kwargs call p ∷ [])

  abbrev pub response_event : Fields → Json → Event
  response_event kwargs response = event 0 "llm.response" (
      with_session kwargs (
        field "provider" (str (text_at kwargs "provider")) (
          field "model"
            (str (
              text_or_empty py
                (or_value py (value_at kwargs "response_model") (value_at kwargs "model"))))
            (field "finish_reason" (str (text_at kwargs "finish_reason")) (
              field "usage" (bounded py 0 (value_at kwargs "usage")) (
                field "response_hash" (str (stable_hash py response))
                  (field "response" (bounded py 0 response) end)))))))

  abbrev pub proposed : Fields → Proposals → List Event → Result HookError (List Call) → Posted
  proposed kwargs s events (raise e) = record { proposals = s; events = events; raised = some e }
  proposed kwargs s events (ok calls) = propose kwargs 1 calls s events

  unfoldable pub on_post_api_request : Fields → Proposals → Posted
  unfolding mode env stable_hash bounded extract_tool_calls propose
  on_post_api_request kwargs s =
      let response = value_at kwargs "response" in
      proposed kwargs s (response_event kwargs response ∷ []) (extract_tool_calls py response)

  abbrev pub judged : Classified → Option Proposal → String → Verdict
  judged c p args_hash =
      let mismatch = is_mismatch p args_hash in
      let risk = if mismatch then at_least_high c.risk else c.risk in
      record {
        risk = risk;
        category = c.category;
        reasons = if mismatch then unique [] (c.reasons ++ mismatch_reason p ∷ []) else c.reasons;
        mismatch = mismatch;
        blocked = is_enforce (mode py) && leb (risk_rank (block_level py)) (risk_rank risk);
      }

  abbrev pub found : Fields → Proposals → Option Proposal
  found kwargs s =
      match_proposal s (text_at kwargs "session_id") (text_at kwargs "tool_call_id")
        (text_at kwargs "tool_name") (stable_hash py (value_at kwargs "args"))

  unfoldable pub verdict : Fields → Proposals → Verdict
  unfolding classify_action stable_hash match_proposal mode block_level env unique
  verdict kwargs s =
      judged (classify_action py (text_at kwargs "tool_name") (value_at kwargs "args"))
        (found kwargs s) (stable_hash py (value_at kwargs "args"))

  abbrev pub decision : Bool → Mode → String
  decision blocked m = if blocked then "DENY" else if is_enforce m then "ALLOW" else "ALLOW_SHADOW"

  abbrev pub requested_event : Fields → Proposals → Verdict → Event
  requested_event kwargs s v = event 0 "action.requested" (
      with_session kwargs (
        field "tool_call_id" (str (text_at kwargs "tool_call_id")) (
          field "tool_name" (str (text_at kwargs "tool_name")) (
            field "args_hash" (str (stable_hash py (value_at kwargs "args"))) (
              field "args" (bounded py 0 (value_at kwargs "args")) (
                field "risk" (str (risk_name v.risk)) (
                  field "category" (str v.category) (
                    field "reasons" (arr (texts v.reasons)) (
                      field "matched_model_proposal" (bool (is_some (found kwargs s))) (
                        field "proposal_mismatch" (bool v.mismatch)
                          (field "decision" (str (decision v.blocked (mode py))) end)))))))))))

  abbrev pub block_message : String → Verdict → String
  block_message tool_name v = concat (
      "HermeTeam blocked "
      ∷ py.representation tool_name
      ∷ ": risk="
      ∷ risk_name v.risk
      ∷ "; reasons="
      ∷ reason_text v.reasons
      ∷ "."
      ∷ [])

  -- `none` lets the call run.
  abbrev pub block_answer : Fields → Verdict → Option Fields
  block_answer kwargs v =
      if v.blocked
      then some (
          field "action" (str "block")
            (field "message" (str (block_message (text_at kwargs "tool_name") v)) end))
      else none

  unfoldable pub on_pre_tool_call : Fields → Proposals → Option Fields × List Event
  unfolding verdict stable_hash bounded mode env join concat match_proposal
  on_pre_tool_call kwargs s =
      let v = verdict kwargs s in (block_answer kwargs v, requested_event kwargs s v ∷ [])

  unfoldable pub on_post_tool_call : Fields → List Event
  unfolding mode env stable_hash bounded
  on_post_tool_call kwargs =
      let result = value_at kwargs "result" in
      event 0 "action.completed" (
        with_session kwargs (
          field "tool_call_id" (str (text_at kwargs "tool_call_id")) (
            field "tool_name" (str (text_at kwargs "tool_name")) (
              field "status" (str (text_at kwargs "status")) (
                field "duration_ms" (value_at kwargs "duration_ms") (
                  field "error_type" (str (text_at kwargs "error_type")) (
                    field "result" (bounded py 0 result)
                      (field "result_hash" (str (stable_hash py result)) end))))))))
      ∷ []
