-- ===== src/Gateway/Proxy/Tests.antt =====
-- The theorems about `permit` at concrete inputs.
use hermes_sdlc_agents.Prelude.{
  take_chars, find_first, keep, concat, has_control, strip, any_of, arith, ◌≢◌, ◌≡◌, ◌==◌, Bool,
  Option, ℕ, String, List, if◌then◌else◌, none, some, ok, raise, false, refl, [], ◌∷◌,
}
use hermes_sdlc_agents.Prelude.Rows.{update_where, upsert}
use hermes_sdlc_agents.Prelude.Table.{elem, lookup}
use hermes_sdlc_agents.Prelude.Json.{get, Json, obj, str, field, end}
use hermes_sdlc_agents.Gateway.Proxy.Request.{read_request}
use hermes_sdlc_agents.Gateway.Store.{
  snapshot, has_execution_grant, initial, Store, ExecutionApproval, approved_once,
}
use hermes_sdlc_agents.Gateway.Proxy.Permit.{requires_human, approval_required, permit}
use hermes_sdlc_agents.Gateway.Store.Grants.{grant_once, human_grant}
use hermes_sdlc_agents.Gateway.Store.Writes.{
  validate_identifier, record_execution_approval, set_emergency_stop, execution_row,
}
use hermes_sdlc_agents.Gateway.Authority.{
  context_request_id, join_nul, canonical_args_hash, InvocationContext,
}
use hermes_sdlc_agents.Gateway.Builder.{
  paths, branch_of, optional_string, builder_invocation_context,
}
use hermes_sdlc_agents.Gateway.Proxy.Approved.{permit_approved, quiet, human_permit}
use hermes_sdlc_agents.Gateway.Proxy.OneShot.{permit_once}
use hermes_sdlc_agents.Gateway.Proxy.Flow.{permit-outage, permit-IsUnspent, IsUnspent}
use hermes_sdlc_agents.Gateway.Proxy.{Moment, ProxyError, Proxy, ExecutionPermit, Headers, Body}
use hermes_sdlc_agents.Gateway.Proxy.Safety.{permit-IsPermitted, IsPermitted}
use hermes_sdlc_agents.Gateway.Store.Calls.{IsWellFormed, consume, stop, initial-IsWellFormed}
use hermes_sdlc_agents.Gateway.Models.{low, medium}

abbrev digest : String → String
digest s = "digest"

abbrev printed : Json → String
printed j = ""

abbrev never : String → String → Bool
never path pattern = false

abbrev minted : String → List (String × String) → Option String
minted repository permissions = some "token"

abbrev unminted : String → List (String × String) → Option String
unminted repository permissions = none

abbrev request : List ℕ → Option Json
request bytes = some (
    obj (
      field "method" (str "tools/call") (
        field "params"
          (obj (
            field "name" (str "create_branch") (
              field "arguments"
                (obj (
                  field "owner" (str "o")
                    (field "repo" (str "p") (field "branch" (str "agent/x") end))))
                end)))
          end)))

abbrev body : Body
body = some (123 ∷ [])

abbrev headers : String → Headers
headers key name =
    if name == "X-Hermes-Role"
    then some "builder"
    else if name == "Authorization"
    then some key
    else none

abbrev right : Headers
right = headers "Bearer key"

abbrev proxy : Proxy
proxy = record {
  max_auto_category = low;
  builder_key = "key";
  configured_repository = "o/p";
  default_branch = "main";
  protected_patterns = [];
}

abbrev call : InvocationContext
call = record {
  agent_id = "hermes-builder";
  role = "builder";
  run_id = "sessionless";
  tool_id = "github:create_branch";
  capability = "repository.branch.create";
  category = medium;
  repository = "o/p";
  branch = some "agent/x";
  paths = [];
  args_hash = "digest";
  github_permissions = ("contents", "write") ∷ [];
}

abbrev row : ExecutionApproval
row =
    execution_row digest 5 call low "actual invocation exceeds configured automatic risk ceiling"
      none

abbrev approved : Store
approved = record initial {
  pending_execution_approvals = record row { status = approved_once; decided_at = some 6 } ∷ [];
  execution_grants = human_grant 6 "t" 60 row ∷ [];
}

approved-IsWellFormed : IsWellFormed approved
approved-IsWellFormed = record {
  grants = (tt, tt);
  executions = (tt, tt);
  legacies = tt;
  once = tt;
  exceptions = tt;
  overrides = tt;
  human_only = ((λ e. refl), tt);
}

abbrev permitted : ExecutionPermit
permitted = human_permit digest minted proxy call none "token" "t"

permit-IsPermitted_example :
    IsPermitted digest minted printed never request proxy right body
      (quiet 7 8 "u")
      approved
      permitted
unfolding permit strip has_control concat get builder_invocation_context lookup optional_string
    branch_of any_of paths elem canonical_args_hash keep
permit-IsPermitted_example =
    permit-IsPermitted digest minted printed never request proxy right body (quiet 7 8 "u") approved
      approved-IsWellFormed refl

permit-IsUnspent_example :
    IsUnspent digest minted printed never request proxy
      (quiet 7 8 "u")
      right
      body
      initial
      (permit digest minted printed never request proxy (quiet 7 8 "u") right body initial).1
unfolding permit strip has_control concat get builder_invocation_context lookup optional_string
    branch_of any_of paths elem
permit-IsUnspent_example =
    permit-IsUnspent digest minted printed never request proxy (quiet 7 8 "u") right body initial
      initial-IsWellFormed refl

permit-outage_example :
    (e : ProxyError) × ((permit digest unminted printed never request proxy
        (quiet 7 8 "u")
        right
        body
        approved).0
      ≡ raise e)
    × IsUnspent digest unminted printed never request proxy
        (quiet 7 8 "u")
        right
        body
        approved
        (permit digest unminted printed never request proxy (quiet 7 8 "u") right body approved).1
permit-outage_example =
    permit-outage digest unminted printed never request proxy (quiet 7 8 "u") right body approved
      approved-IsWellFormed (λ r ps. refl)

abbrev granted : Store
granted = record initial {
  execution_grants = human_grant 1 "t" 60 row ∷ human_grant 2 "t2" 60 row ∷ [];
}

abbrev second : ExecutionPermit
second = human_permit digest minted proxy call none "token" "t2"

-- A request in the middle of which the first one is released.
abbrev overlapping : Moment
overlapping = record {
  checked_at = 9;
  released_at = 9;
  token = "w";
  before_check = consume 8 call ∷ [];
  before_release = stop false ∷ [];
}

permit_once_example : permitted.grant_id ≢ second.grant_id
unfolding permit strip has_control concat get builder_invocation_context lookup optional_string
    branch_of any_of paths elem canonical_args_hash keep set_emergency_stop
permit_once_example =
    permit_once digest minted printed never request proxy (quiet 7 8 "u") overlapping right right
      body body (stop false ∷ []) granted granted permitted second refl refl refl refl refl

permit_approved_example :
    ((permit digest minted printed never request proxy (quiet 5 5 "u") right body initial).0
      ≡ raise (approval_required digest minted proxy call medium))
    × ((permit digest minted printed never request proxy (quiet 7 8 "w") right body approved).0
        ≡ ok (human_permit digest minted proxy call none "token" "t"))
unfolding read_request strip has_control concat snapshot get builder_invocation_context lookup
    optional_string branch_of any_of paths canonical_args_hash requires_human elem
    has_execution_grant grant_once validate_identifier context_request_id take_chars find_first
    permit record_execution_approval join_nul keep update_where upsert
permit_approved_example =
    permit_approved digest minted printed never request proxy right body call none initial approved
      "t" "t" "token" 5 6 7 8 60 "u" "w" initial-IsWellFormed refl refl refl refl refl (omega arith)
      (omega arith) (omega arith)
