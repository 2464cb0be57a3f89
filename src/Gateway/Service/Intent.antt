-- ===== src/Gateway/Service/Intent.antt =====
-- service.py: `resolve_intent`, with `_parse_tools`. The catalogs are a parameter: `discover` is
-- `discover_tools`, with the text of what it raises.
pub mod Judged
use hermes_sdlc_agents.Prelude.{
  ℕ, String, Bool, true, false, Option, none, some, List, [], ◌∷◌, ◌==◌, if◌then◌else◌, or_else,
  take, Result, ok, raise, ◌>>=◌,
}
use hermes_sdlc_agents.Prelude.Json.{
  Json, Items, Fields, null, bool, number, str, arr, obj, nil, cons, end, get,
}
use hermes_sdlc_agents.Gateway.Judge.{
  unavailable, malformed, overflow, no_get, Reader, JudgeError, classify,
}
use hermes_sdlc_agents.Gateway.Service.{value_error, text}
use hermes_sdlc_agents.Gateway.Service.Resolve.{
  store_failed, resolved, Resolved, already_consumed, no_item, resolve_ranked,
}
use hermes_sdlc_agents.Gateway.Core.{Floats, assess_risk}
use hermes_sdlc_agents.Gateway.Models.{RiskCategory, ToolDescriptor, ToolSemantics, RankedTool}
use hermes_sdlc_agents.Gateway.Store.{Store}
use hermes_sdlc_agents.Gateway.Store.Calls.{Call}

pub data IntentError : Type 0 where
  invalid : (message : String) → IntentError
  catalog_unavailable : (message : String) → IntentError
  judge_failed : JudgeError → IntentError

-- `no_tools` is the answer without candidates.
pub data IntentReply (F : Type 0) : Type 0 where
  no_tools : IntentReply F
  settled : Resolved F → IntentReply F

unfoldable pub optional_text : ℕ → Option Json → Result String (Option String)
unfolding text
optional_text limit none = ok none
optional_text limit (some null) = ok none
optional_text limit (some v) = do given ← text "value" limit false (some v); ok (some given)

-- `item.get(key) if isinstance(item.get(key), dict) else {}`
abbrev pub dict_or_empty : Option Json → Fields
dict_or_empty (some (obj fs)) = fs
dict_or_empty _ = end

-- `value or default`, for a text.
abbrev pub text_or : Option String → String → String
text_or none default = default
text_or (some s) default = if s == "" then default else s

unfoldable pub parse_tool : Json → Result String ToolDescriptor
unfolding text optional_text
parse_tool (obj item) = do
  server_id ← text "server_id" 200 false (get item "server_id")
  tool_name ← text "tool_name" 200 false (get item "tool_name")
  description ← text "description" 4000 true (some (or_else (get item "description") (str "")))
  source ← optional_text 100 (get item "source")
  version ← optional_text 100 (get item "version")
  ok (record {
    server_id = server_id;
    tool_name = tool_name;
    description = description;
    input_schema = dict_or_empty (get item "input_schema");
    annotations = dict_or_empty (get item "annotations");
    source = text_or source "request";
    version = version;
  })
parse_tool v = raise "each tool must be an object"

unfoldable pub parse_items : Items → Result String (List ToolDescriptor)
unfolding parse_tool
parse_items nil = ok []
parse_items (cons v vs) = parse_tool v >>= (λ tool. parse_items vs >>= (λ rest. ok (tool ∷ rest)))

unfoldable pub parse_tools : Option Json → Result String (List ToolDescriptor)
unfolding parse_items
parse_tools none = ok []
parse_tools (some null) = ok []
parse_tools (some (arr vs)) = parse_items vs
parse_tools (some v) = raise "tools must be an array"

abbrev pub checked {ℓ} : {A : Type ℓ} → Result String A → Result IntentError A
checked (ok a) = ok a
checked (raise message) = raise (invalid message)

abbrev pub from_catalog {ℓ} : {A : Type ℓ} → Result String A → Result IntentError A
from_catalog (ok a) = ok a
from_catalog (raise message) = raise (catalog_unavailable message)

abbrev pub from_judge {ℓ} : {A : Type ℓ} → Result JudgeError A → Result IntentError A
from_judge (ok a) = ok a
from_judge (raise e) = raise (judge_failed e)

abbrev pub max_tools : ℕ
max_tools = 80

-- The tools of the request, or else those of the catalogs.
unfoldable pub or_discover :
    (String → Result String (List ToolDescriptor))
    → String
    → Fields
    → List ToolDescriptor
    → Result IntentError (List ToolDescriptor)
unfolding optional_text
or_discover discover intent body (tool ∷ tools) = ok (tool ∷ tools)
or_discover discover intent body [] = do
  query ← checked (optional_text 300 (get body "catalog_query"))
  from_catalog (discover (text_or query intent))

module _ {F : Type 0} (rd : Reader F) (ask : String → ToolDescriptor → Result String String) where
  unfoldable pub rank_tool : String → ToolDescriptor → Result IntentError (RankedTool F)
  unfolding classify assess_risk
  rank_tool intent tool = do
    (semantics, fit) ← from_judge (classify rd ask intent tool)
    ok (record {
      tool = tool;
      assessment = assess_risk tool semantics;
      intent_fit = fit;
      dominated = false;
      dominance_reason = none;
    })

  unfoldable pub rank_tools :
      String → List ToolDescriptor → Result IntentError (List (RankedTool F))
  unfolding rank_tool
  rank_tools intent [] = ok []
  rank_tools intent (tool ∷ tools) =
      rank_tool intent tool >>= (λ item. rank_tools intent tools >>= (λ rest. ok (item ∷ rest)))

  module _ (discover : String → Result String (List ToolDescriptor)) (fl : Floats F)
      (sha256 : String → String) (now : ℕ) (before_look before_consume : List Call)
      (ceiling : RiskCategory) where
    abbrev pub intent_answer :
        String
        → Option String
        → List ToolDescriptor
        → Store
        → Result IntentError (IntentReply F × Store)
    intent_answer intent requested [] s = ok (no_tools, s)
    intent_answer intent requested (tool ∷ tools) s = do
      ranked ← rank_tools intent (take max_tools (tool ∷ tools))
      let out =
          resolve_ranked fl sha256 now before_look before_consume ceiling intent requested ranked s
      ok (settled (out.0), out.1)

    -- An error leaves the store as it is.
    unfoldable pub resolve_intent : Fields → Store → Result IntentError (IntentReply F × Store)
    unfolding text optional_text parse_tools or_discover rank_tools resolve_ranked
    resolve_intent body s = do
      intent ← checked (text "intent" 2000 false (get body "intent"))
      requested ← checked (optional_text 300 (get body "requested_tool_id"))
      given ← checked (parse_tools (get body "tools"))
      tools ← or_discover discover intent body given
      intent_answer intent requested tools s

-- The status that `do_POST` answers a resolution with; `none` where it answers nothing, since it
-- catches neither the error of the judge nor that of the store.
unfoldable pub resolve_status : {F : Type 0} → Result IntentError (IntentReply F × Store) → Option ℕ
resolve_status (ok (no_tools, s)) = some 200
resolve_status (ok (settled (resolved r), s)) = some (if r.emergency_stop then 423 else 200)
resolve_status (ok (settled already_consumed, s)) = some 200
resolve_status (ok (settled (store_failed (value_error message)), s)) = some 400
resolve_status (ok (settled (store_failed _), s)) = none
resolve_status (ok (settled no_item, s)) = none
resolve_status (raise (invalid message)) = some 400
resolve_status (raise (catalog_unavailable message)) = some 503
resolve_status (raise (judge_failed (unavailable reason))) = some 503
resolve_status (raise (judge_failed malformed)) = some 503
resolve_status (raise (judge_failed overflow)) = none
resolve_status (raise (judge_failed no_get)) = none
