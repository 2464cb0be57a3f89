-- ===== src/Gateway/Proxy.antt =====
-- capability_gateway/mcp_proxy.py: `permit`, which decides whether an MCP request of the builder may go
-- upstream, and the answer of `_mcp` of service.py to it. Requests are served in threads: `Moment` has
-- what other requests do to the store between the snapshot and the test for a grant, and between that
-- test and the next statement on the store. Headers are their `get`, a body is its bytes, `loads` is
-- `json.loads` of bytes (`none` where it raises), and `mint` is the token broker (`none` where it is
-- unavailable).
pub mod Request
pub mod Permit
pub mod Called
pub mod Released
pub mod Safety
pub mod Flow
pub mod OneShot
mod Tests
pub mod Rules
pub mod Approved
use Prim.Native.Char.{code}
use Prim.Native.String.{count}
use hermes_sdlc_agents.Prelude.{
  ℕ, String, Bool, true, false, not, ◌&&◌, ◌||◌, Option, none, some, List, [], ◌∷◌, ◌==◌, ltb, leb,
  if◌then◌else◌, or_else, any_of, is_some, Result, ok, raise, require, ◌>>=◌, ◌>>◌, strip,
  has_control, concat,
}
use hermes_sdlc_agents.Prelude.Json.{Json, Fields, Items, obj, arr, str, end, get, items}
use hermes_sdlc_agents.Prelude.Table.{lookup, elem}
use hermes_sdlc_agents.Gateway.Models.{RiskCategory, rank}
use hermes_sdlc_agents.Gateway.Authority.{
  InvocationContext, context_request_id, builder_discovery_permissions,
}
use hermes_sdlc_agents.Gateway.Builder.{builder_invocation_context}
use hermes_sdlc_agents.Gateway.Store.{
  AuthoritySource, auto, human, exception, capability_override, Store, GovernanceSnapshot, snapshot,
  has_execution_grant,
}
use hermes_sdlc_agents.Gateway.Store.Writes.{StoreError, record_execution_approval}
use hermes_sdlc_agents.Gateway.Store.Grants.{consume_execution_grant, record_auto_execution}
use hermes_sdlc_agents.Gateway.Store.Calls.{Call, run}
use Prim.Native.String

pub data ProxyError : Type 0 where
  blocked : (code message : String) (context : List (String × Option String)) → ProxyError
  unavailable : ProxyError
  store_error : StoreError → ProxyError
  type_error : ProxyError

pub data PermitSource : Type 0 where
  discovery : PermitSource
  authority : AuthoritySource → PermitSource

pub record ExecutionPermit : Type 0 where
  pub provider_token : String
  pub grant_id : Option String
  pub authority_source : PermitSource
  pub context : Option InvocationContext

-- What `__init__` keeps of its arguments and `permit` reads.
pub record Proxy : Type 0 where
  pub max_auto_category : RiskCategory
  pub builder_key : String
  pub configured_repository : String
  pub default_branch : String
  pub protected_patterns : List String

abbrev pub Headers : Type 0
Headers = String → Option String

abbrev pub Body : Type 0
Body = Option (List ℕ)

-- The times of the two statements, the new token, and the calls of other requests at the two gaps.
pub record Moment : Type 0 where
  pub checked_at : ℕ
  pub released_at : ℕ
  pub token : String
  pub before_check : List Call
  pub before_release : List Call

abbrev pub category_name : RiskCategory → String
category_name RiskCategory.safe = "SAFE"
category_name RiskCategory.low = "LOW"
category_name RiskCategory.medium = "MEDIUM"
category_name RiskCategory.high = "HIGH"
category_name RiskCategory.critical = "CRITICAL"
