-- ===== src/Gateway/Tests.antt =====
-- The gateway's theorems at concrete inputs.
use hermes_sdlc_agents.Prelude.{
  take_chars, has_control, keep, find_first, strip, any_of, ends_with, strip_slashes, ◌≢◌, arith,
  Bool, Memᴰ, ◌+◌, All, is_some, List, Option, ◌≤◌, ◌≡◌, String, ℕ, refl, none, some, true, false,
  [], ◌∷◌, ltb, nat_eq,
}
use hermes_sdlc_agents.Prelude.Table.{lookup, elem}
use hermes_sdlc_agents.Prelude.Json.{Json, Fields, get, str, end, field}
use hermes_sdlc_agents.Gateway.Store.Writes.{
  validate_identifier, record_execution_approval, execution_row,
}
use hermes_sdlc_agents.Gateway.Authority.{
  context_request_id, canonical_args_hash, InvocationContext,
}
use hermes_sdlc_agents.Gateway.Store.Approval.{grant_once-has_execution_grant}
use hermes_sdlc_agents.Gateway.Store.Grants.{grant_once, human_grant, consume_execution_grant}
use hermes_sdlc_agents.Gateway.Store.{
  approved_once, human, Grant, initial, has_execution_grant, Store, ExecutionApproval,
}
use hermes_sdlc_agents.Gateway.Resolver.Safety.{resolve_shown, IsPreferred, IsAllowed}
use hermes_sdlc_agents.Gateway.Resolver.{partition_by, Question, resolve}
use hermes_sdlc_agents.Gateway.Core.Risk.{assess_risk_mono}
use hermes_sdlc_agents.Gateway.Builder.{
  paths, optional_string, branch_of, is_protected, builder_invocation_context,
}
use hermes_sdlc_agents.Gateway.Core.{
  sort_by, privilege_vector, all_le, Floats, assess_risk, mark_dominated, mark,
}
use hermes_sdlc_agents.Gateway.Models.{
  tool_id, rank, low, medium, ToolDescriptor, ToolSemantics, RankedTool,
}
use hermes_sdlc_agents.Gateway.Store.Spending.{
  IsLiveFor, consume_execution_grant_sound, consume_execution_grant_complete,
}
use hermes_sdlc_agents.Gateway.Store.OneShot.{consume_execution_grant_once}
use hermes_sdlc_agents.Gateway.Builder.Laws.{builder_invocation_context-IsAdmitted, IsAdmitted}
use hermes_sdlc_agents.Gateway.Store.Kept.{run-IsWellFormed}
use hermes_sdlc_agents.Gateway.Resolver.Best.{resolve_best, better, FloatLaws}
use hermes_sdlc_agents.Gateway.Store.Calls.{run, IsWellFormed, consume, grant, stop}

abbrev sha : String → String
sha s = s

abbrev pub naturals : Floats ℕ
naturals = record { lt = ltb; eq = nat_eq; plus = λ a b. a + b; tolerance = 8 }

naturals-FloatLaws : FloatLaws naturals
naturals-FloatLaws = record {
  irrefl = λ a. ground arith;
  asym = λ a b h. ground arith;
  chain = λ a b c h k. ground arith;
  same = λ a b. ground arith;
}

abbrev pub tool : String → ToolDescriptor
tool name = record {
  server_id = "github";
  tool_name = name;
  description = "";
  input_schema = end;
  annotations = end;
  source = "mcp";
  version = none;
}

abbrev reader : ToolSemantics ℕ
reader = record {
  canonical_capability = "repo.read";
  read = true;
  write = false;
  destructive = false;
  egress = false;
  credential_access = false;
  arbitrary_execution = false;
  open_world = false;
  rationale = "";
  confidence = 90;
}

abbrev pub shell : ToolSemantics ℕ
shell = record reader { write = true; destructive = true; arbitrary_execution = true }

abbrev ranked : String → ToolSemantics ℕ → ℕ → RankedTool ℕ
ranked name s fit = record {
  tool = tool name;
  assessment = assess_risk (tool name) s;
  intent_fit = fit;
  dominated = false;
  dominance_reason = none;
}

abbrev candidates : List (RankedTool ℕ)
candidates = ranked "run" shell 90 ∷ ranked "read" reader 88 ∷ []

abbrev query : Option String → Question
query requested = record {
  intent = "read a file";
  max_auto_category = low;
  requested_tool_id = requested;
  allowed_once = [];
  exception_tools = [];
  capability_overrides = [];
  emergency_stop = false;
}

abbrev context : InvocationContext
context = record {
  agent_id = "a";
  role = "builder";
  run_id = "r";
  tool_id = "github:push_files";
  capability = "repo.write";
  category = medium;
  repository = "o/p";
  branch = some "agent/x";
  paths = [];
  args_hash = "h";
  github_permissions = [];
}

abbrev approval_row : ExecutionApproval
approval_row = execution_row sha 1 context low "over the ceiling" none

abbrev granted : Store
granted = record initial { execution_grants = human_grant 1 "t1" 60 approval_row ∷ [] }

granted-IsWellFormed : IsWellFormed granted
granted-IsWellFormed = record {
  grants = (tt, tt);
  executions = tt;
  legacies = tt;
  once = tt;
  exceptions = tt;
  overrides = tt;
  human_only = ((λ e. refl), tt);
}

consume_execution_grant_once_example :
    (consume_execution_grant 9 context (
      run sha
        (grant 6 "t1" "q" "github:push_files" 60 ∷ consume 7 context ∷ [])
        (consume_execution_grant 5 context granted).1)).0
    ≢ some "t1"
unfolding consume_execution_grant keep
consume_execution_grant_once_example =
    consume_execution_grant_once sha 5 9 context context "t1"
      (grant 6 "t1" "q" "github:push_files" 60 ∷ consume 7 context ∷ []) granted refl

consume_execution_grant_sound_example :
    (g : Grant) × Memᴰ g granted.execution_grants
    × IsLiveFor 5 context g
    × (g.grant_id ≡ "t1")
    × (g.authority_source ≡ human)
unfolding consume_execution_grant keep
consume_execution_grant_sound_example =
    consume_execution_grant_sound 5 context granted "t1" granted-IsWellFormed refl

consume_execution_grant_complete_example :
    is_some (consume_execution_grant 5 context granted).0 ≡ has_execution_grant 5 context granted
consume_execution_grant_complete_example =
    consume_execution_grant_complete 5 context granted granted-IsWellFormed

run-IsWellFormed_example : IsWellFormed (run sha (stop true ∷ consume 5 context ∷ []) granted)
run-IsWellFormed_example =
    run-IsWellFormed sha granted (stop true ∷ consume 5 context ∷ []) granted-IsWellFormed

resolve_shown_example :
    All
      (λ t.
        Memᴰ t (mark_dominated naturals candidates)
        × (IsAllowed (query none) t × IsPreferred (query none) t))
      (resolve naturals sha (query none) candidates).visible_tools
resolve_shown_example = resolve_shown naturals sha (query none) candidates

abbrev chosen : RankedTool ℕ
chosen = ranked "read" reader 88

abbrev asked : Question
asked = query (some "github:run")

abbrev refused : RankedTool ℕ
refused = mark naturals candidates (ranked "run" shell 90)

resolve_best_example :
    All
      (λ u. better naturals u chosen ≡ false)
      (resolve naturals sha (query none) candidates).visible_tools
unfolding resolve assess_risk find_first mark_dominated sort_by partition_by tool_id get lookup
resolve_best_example =
    resolve_best naturals naturals-FloatLaws sha (query none) candidates chosen refl refl

assess_risk_mono_example :
    ((assess_risk (tool "t") reader).score ≤ (assess_risk (tool "t") shell).score)
    × (rank (assess_risk (tool "t") reader).category ≤ rank (assess_risk (tool "t") shell).category)
    × ((assess_risk (tool "t") shell).score ≤ 100)
unfolding all_le privilege_vector
assess_risk_mono_example = assess_risk_mono (tool "t") reader shell refl

abbrev arguments : Fields
arguments =
    field "owner" (str "o")
      (field "repo" (str "p") (field "branch" (str "agent/x") (field "path" (str "/src/a.py") end)))

abbrev never : String → String → Bool
never path pattern = false

abbrev printed : Json → String
printed j = ""

abbrev admitted : InvocationContext
admitted = record {
  agent_id = "a";
  role = "builder";
  run_id = "r";
  tool_id = "github:create_branch";
  capability = "repository.branch.create";
  category = medium;
  repository = "o/p";
  branch = some "agent/x";
  paths = "src/a.py" ∷ [];
  args_hash = "";
  github_permissions = ("contents", "write") ∷ [];
}

builder_invocation_context-IsAdmitted_example :
    IsAdmitted sha printed never "a" "r" "create_branch" arguments "o/p" "main"
      ("policies/*" ∷ [])
      admitted
unfolding builder_invocation_context canonical_args_hash lookup optional_string get strip branch_of
    any_of paths elem is_protected ends_with strip_slashes
builder_invocation_context-IsAdmitted_example =
    builder_invocation_context-IsAdmitted sha printed never "a" "r" "create_branch" arguments "o/p"
      "main" ("policies/*" ∷ []) admitted refl

abbrev digest : String → String
digest s = "digest"

abbrev requested_row : ExecutionApproval
requested_row = execution_row digest 1 context low "over the ceiling" none

abbrev recorded : Store
recorded = record initial { pending_execution_approvals = requested_row ∷ [] }

abbrev approved : Store
approved = record recorded {
  pending_execution_approvals =
      record requested_row { status = approved_once; decided_at = some 2 } ∷ [];
  execution_grants = human_grant 2 "t2" 60 requested_row ∷ [];
}

grant_once-has_execution_grant_example : has_execution_grant 30 context approved ≡ true
unfolding record_execution_approval grant_once any_of validate_identifier strip context_request_id
    take_chars has_control find_first
grant_once-has_execution_grant_example =
    grant_once-has_execution_grant digest context 30 2 60 "t2" (omega arith) 1 low
      "over the ceiling" none "t2" initial recorded approved refl refl
