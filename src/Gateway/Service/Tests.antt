-- ===== src/Gateway/Service/Tests.antt =====
-- The theorems about the service at concrete inputs.
use hermes_sdlc_agents.Prelude.{
  strip, Result, keep, take_chars, any_of, find_first, concat, ℕ, String, Bool, true, false, Option,
  none, some, List, [], ◌∷◌, refl, if◌then◌else◌, ◌==◌,
}
use hermes_sdlc_agents.Prelude.Json.{nil, obj, cons, arr, get, Json, Fields, bool, field, end}
use hermes_sdlc_agents.Prelude.Table.{elem, lookup}
use hermes_sdlc_agents.Gateway.Service.Intent.{resolve_intent}
use hermes_sdlc_agents.Gateway.Service.Intent.Judged.{resolve_intent-IsAnswered, IsAnswered}
use hermes_sdlc_agents.Gateway.Service.{str, ok, post}
use hermes_sdlc_agents.Gateway.Judge.Tests.{read_only, ask, reader, reading}
use hermes_sdlc_agents.Gateway.Models.{
  ToolDescriptor, tool_id, Resolution, ApprovalRequest, low, high, RankedTool,
}
use hermes_sdlc_agents.Gateway.Core.{assess_risk, sort_by, mark_dominated}
use hermes_sdlc_agents.Gateway.Resolver.{request_id, partition_by, approval, resolve, Question}
use hermes_sdlc_agents.Gateway.Service.Stop.{post_stops, IsRefused, IsEmpty}
use hermes_sdlc_agents.Gateway.Service.Once.{resolve_ranked_once, IsUsed}
use hermes_sdlc_agents.Gateway.Store.{initial, snapshot, Store}
use hermes_sdlc_agents.Gateway.Service.Resolve.{resolve_ranked, question}
use hermes_sdlc_agents.Gateway.Proxy.{Proxy, Headers}
use hermes_sdlc_agents.Gateway.Tests.{naturals, shell, tool}
use hermes_sdlc_agents.Gateway.Proxy.Approved.{quiet}

abbrev digest : String → String
digest s = "digest"

abbrev minted : String → List (String × String) → Option String
minted repository permissions = some "token"

abbrev printed : Json → String
printed j = ""

abbrev never : String → String → Bool
never path pattern = false

abbrev unread : List ℕ → Option Json
unread bytes = none

abbrev proxy : Proxy
proxy = record {
  max_auto_category = low;
  builder_key = "key";
  configured_repository = "o/p";
  default_branch = "main";
  protected_patterns = [];
}

abbrev headers : Headers
headers name =
    if name == "X-Hermes-Role"
    then some "builder"
    else if name == "Authorization"
    then some "Bearer key"
    else none

abbrev on : Fields
on = field "enabled" (bool true) end

abbrev item : RankedTool ℕ
item = record {
  tool = tool "run";
  assessment = record {
    tool_id = "github:run";
    canonical_capability = "shell.run";
    score = 90;
    category = high;
    properties = shell;
    reasons = [];
    judge_confidence = 9;
  };
  intent_fit = 9;
  dominated = false;
  dominance_reason = none;
}

abbrev asked : Question
asked = question low "go" (some "github:run") [] (snapshot initial)

abbrev request : ApprovalRequest
request = approval asked digest item none

abbrev once : Store
once = record initial {
  allow_once =
      record {
        request_id = "digest";
        tool_id = "github:run";
        consumed = false;
        created_at = 1;
        consumed_at = none;
      }
      ∷ [];
}

abbrev allowed : Resolution ℕ
allowed =
    resolve naturals digest
      (question low "go" (some "github:run") ("github:run" ∷ []) (snapshot once)) (item ∷ [])

resolve_ranked_once_example :
    IsUsed request once
      (resolve_ranked naturals digest 5 [] [] low "go" (some "github:run") (item ∷ []) once).1
unfolding resolve snapshot find_first mark_dominated tool_id lookup elem sort_by partition_by
    resolve_ranked any_of request_id take_chars keep
resolve_ranked_once_example =
    resolve_ranked_once naturals digest 5 [] [] low "go" (some "github:run") (item ∷ []) once
      request allowed refl refl refl

abbrev stopped : Store
stopped =
    (post "admin" 5 "t" 60 (some "Bearer admin") "/v1/governance/emergency-stop" (ok on) initial).1

post_stops_example :
    IsRefused digest minted printed never unread proxy (quiet 7 8 "u") headers none stopped
    × IsEmpty digest minted printed never unread proxy
        (quiet 7 8 "u")
        headers
        none
        naturals
        9
        []
        []
        low
        "go"
        (some "github:run")
        (item ∷ [])
        stopped
unfolding concat get
post_stops_example =
    post_stops digest minted printed never unread proxy (quiet 7 8 "u") headers none naturals 9 []
      [] low "go" (some "github:run") (item ∷ []) "admin" "Bearer admin" 5 "t" 60 on initial refl
      refl

abbrev inquiry : Fields
inquiry = field "intent" (str "i") (
    field "tools"
      (arr (cons (obj (field "server_id" (str "files") (field "tool_name" (str "read") end))) nil))
      end)

abbrev read_item : RankedTool ℕ
read_item = record {
  tool = reading;
  assessment = assess_risk reading read_only;
  intent_fit = 1;
  dominated = false;
  dominance_reason = none;
}

abbrev answer_to : Resolution ℕ
answer_to = resolve naturals digest (question low "i" none [] (snapshot initial)) (read_item ∷ [])

abbrev nothing_found : String → Result String (List ToolDescriptor)
nothing_found query = ok []

resolve_intent-IsAnswered_example :
    IsAnswered reader ask nothing_found naturals digest 5 [] [] low inquiry initial answer_to
unfolding resolve_intent get strip find_first mark_dominated
resolve_intent-IsAnswered_example =
    resolve_intent-IsAnswered reader ask nothing_found naturals digest 5 [] [] low inquiry initial
      initial answer_to refl
