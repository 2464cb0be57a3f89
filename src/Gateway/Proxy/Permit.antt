-- ===== src/Gateway/Proxy/Permit.antt =====
-- mcp_proxy.py: `permit`, and what `_mcp` of service.py answers.
use Prim.Native.Char.{code}
use hermes_sdlc_agents.Prelude.{
  ℕ, String, Bool, true, false, not, ◌&&◌, Option, none, some, List, [], ◌∷◌, ◌==◌, ltb,
  if◌then◌else◌, or_else, is_some, Result, ok, raise,
}
use hermes_sdlc_agents.Prelude.Json.{Json}
use hermes_sdlc_agents.Prelude.Table.{lookup, elem}
use hermes_sdlc_agents.Gateway.Models.{RiskCategory, rank}
use hermes_sdlc_agents.Gateway.Authority.{
  InvocationContext, context_request_id, builder_discovery_permissions,
}
use hermes_sdlc_agents.Gateway.Store.{
  AuthoritySource, auto, human, exception, capability_override, Store, GovernanceSnapshot, snapshot,
  has_execution_grant,
}
use hermes_sdlc_agents.Gateway.Store.Writes.{StoreError, record_execution_approval}
use hermes_sdlc_agents.Gateway.Store.Grants.{consume_execution_grant, record_auto_execution}
use hermes_sdlc_agents.Gateway.Store.Calls.{run}
use hermes_sdlc_agents.Gateway.Proxy.{
  ProxyError, blocked, unavailable, store_error, type_error, discovery, authority, ExecutionPermit,
  Proxy, Headers, Body, Moment, category_name,
}
use hermes_sdlc_agents.Gateway.Proxy.Request.{read_request}

abbrev pub is_override : InvocationContext → GovernanceSnapshot → Bool
is_override c snap = is_some (lookup c.capability snap.capability_overrides)

-- The source of a call that needs no human.
abbrev pub source_of : InvocationContext → GovernanceSnapshot → AuthoritySource
source_of c snap =
    if elem c.tool_id snap.tool_exceptions
    then exception
    else if is_override c snap
    then capability_override
    else auto

unfoldable pub effective : InvocationContext → GovernanceSnapshot → RiskCategory
effective c snap = or_else (lookup c.capability snap.capability_overrides) c.category

unfoldable pub requires_human : Proxy → InvocationContext → GovernanceSnapshot → Bool
unfolding effective
requires_human proxy c snap =
    ltb (rank proxy.max_auto_category) (rank (effective c snap))
    && not (elem c.tool_id snap.tool_exceptions)

-- What a request comes to: the result, and the store that it leaves.
abbrev pub Outcome : Type 0
Outcome = Result ProxyError ExecutionPermit × Store

abbrev pub granted : String → InvocationContext → ProxyError → Option String × Store → Outcome
granted token c gone (none, s) = (raise gone, s)
granted token c gone (some id, s) = (
  ok (record {
    provider_token = token;
    grant_id = some id;
    authority_source = authority human;
    context = some c;
  }),
  s,
)

-- A call of the store that raises leaves it as it was.
abbrev pub recorded :
    String
    → InvocationContext
    → AuthoritySource
    → Store
    → Result StoreError (String × Store)
    → Outcome
recorded token c source s (raise e) = (raise (store_error e), s)
recorded token c source s (ok (id, t)) = (
  ok (record {
    provider_token = token;
    grant_id = some id;
    authority_source = authority source;
    context = some c;
  }),
  t,
)

abbrev pub asked : ProxyError → Store → Result StoreError Store → Outcome
asked e s (raise x) = (raise (store_error x), s)
asked e s (ok t) = (raise e, t)

module _ (sha256 : String → String) (mint : String → List (String × String) → Option String) where
  abbrev pub already_consumed : InvocationContext → ProxyError
  already_consumed c =
      blocked "approval_already_consumed" "the exact one-shot grant is no longer available"
        (("request_id", some (context_request_id sha256 c)) ∷ [])

  abbrev pub approval_required : Proxy → InvocationContext → RiskCategory → ProxyError
  approval_required proxy c category =
      blocked "approval_required" "explicit human authority is required for this exact invocation" (
        ("request_id", some (context_request_id sha256 c))
        ∷ ("tool_id", some c.tool_id)
        ∷ ("capability", some c.capability)
        ∷ ("requested_category", some (category_name category))
        ∷ ("allowed_category", some (category_name proxy.max_auto_category))
        ∷ ("repository", some c.repository)
        ∷ ("branch", c.branch)
        ∷ ("args_hash", some c.args_hash)
        ∷ [])

  -- The call may not run yet: its approval is asked for.
  unfoldable pub ask_approval :
      Proxy → ℕ → InvocationContext → GovernanceSnapshot → Option String → Store → Outcome
  unfolding record_execution_approval effective
  ask_approval proxy now c snap intent s = asked (approval_required proxy c (effective c snap)) s (
      record_execution_approval sha256 now c proxy.max_auto_category
        "actual invocation exceeds configured automatic risk ceiling" intent s)

  -- After the token is there: a human's grant is spent, or the execution is recorded.
  unfoldable pub release :
      Moment → Bool → InvocationContext → GovernanceSnapshot → Option String → Store → Outcome
  unfolding consume_execution_grant record_auto_execution
  release m needs_human c snap none s = (raise unavailable, s)
  release m true c snap (some token) s =
      granted token c (already_consumed c) (consume_execution_grant m.released_at c s)
  release m false c snap (some token) s =
      recorded token c (source_of c snap) s
        (record_auto_execution sha256 m.released_at m.token c (source_of c snap) s)

  -- The rest of `permit` for a tool call, from the snapshot taken before.
  unfoldable pub permit_call :
      Proxy → Moment → InvocationContext → GovernanceSnapshot → Option String → Store → Outcome
  unfolding requires_human has_execution_grant ask_approval release run
  permit_call proxy m c snap intent s =
      let checked = run sha256 m.before_check s in
      let released = run sha256 m.before_release checked in
      if requires_human proxy c snap && not (has_execution_grant m.checked_at c checked)
      then ask_approval proxy m.released_at c snap intent released
      else release m (requires_human proxy c snap) c snap (mint c.repository c.github_permissions)
          released

  abbrev pub discovered : Option String → Store → Outcome
  discovered none s = (raise unavailable, s)
  discovered (some token) s = (
    ok (record {
      provider_token = token;
      grant_id = none;
      authority_source = discovery;
      context = none;
    }),
    s,
  )

  unfoldable pub permit_read :
      Proxy
      → Moment
      → GovernanceSnapshot
      → Result ProxyError (Option (InvocationContext × Option String))
      → Store
      → Outcome
  unfolding permit_call
  permit_read proxy m snap (raise e) s = (raise e, s)
  permit_read proxy m snap (ok none) s =
      discovered (mint proxy.configured_repository builder_discovery_permissions) s
  permit_read proxy m snap (ok (some (c, intent))) s = permit_call proxy m c snap intent s

  module _ (dumps : Json → String) (fnmatch : String → String → Bool)
      (loads : List ℕ → Option Json) where
    unfoldable pub permit : Proxy → Moment → Headers → Body → Store → Outcome
    unfolding snapshot read_request permit_read
    permit proxy m headers body s =
        let snap = snapshot s in
        permit_read proxy m snap (read_request sha256 dumps fnmatch loads proxy headers body snap) s

-- What `_mcp` answers: the request goes upstream, or an error with a status of HTTP and a code. An
-- error that no handler catches answers nothing.
pub data Answer : Type 0 where
  forward : ExecutionPermit → Answer
  error : (status : ℕ) (code : String) → Answer
  no_answer : Answer

unfoldable pub answer : Result ProxyError ExecutionPermit → Answer
answer (ok p) = forward p
answer (raise (blocked code message context)) =
    if code == "unauthorized_agent" then error 401 code else error 200 code
answer (raise unavailable) = error 503 "provider_authority_unavailable"
answer (raise (store_error e)) = no_answer
answer (raise type_error) = no_answer
