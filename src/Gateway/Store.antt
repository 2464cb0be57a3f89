-- ===== src/Gateway/Store.antt =====
-- capability_gateway/governance.py: the tables of the governance database and the operations that
-- read them. A time is a number of seconds; `_sqlite_time` prints it so that texts compare as the
-- seconds do. Each operation holds the lock and one transaction, so it is one step. Rows stand in
-- the order of insertion, which is the order taken among rows of one `created_at`.
pub mod Writes
pub mod Grants
pub mod Calls
pub mod Kept
pub mod Spending
pub mod OneShot
pub mod Approval
use Prim.Native.String.{count}
use hermes_sdlc_agents.Prelude.{
  ℕ, ◌+◌, ◌≡◌, refl, min, String, Bool, true, false, not, ◌&&◌, ◌||◌, Option, none, some, List, [],
  ◌∷◌, ◌++◌, ◌==◌, map, ltb, leb, nat_eq, if◌then◌else◌, or_else, any_of, keep, find_first, is_some,
  take, Result, ok, raise, require, ◌>>=◌, ◌>>◌, strip, has_control,
}
use hermes_sdlc_agents.Gateway.Models.{RiskCategory}
use hermes_sdlc_agents.Gateway.Core.{sort_by}
use hermes_sdlc_agents.Gateway.Authority.{InvocationContext}

pub data Status : Type 0 where
  pending approved_once exception capability_override superseded : Status

abbrev pub is_pending : Status → Bool
is_pending pending = true
is_pending _ = false

pub data AuthoritySource : Type 0 where
  auto human exception capability_override : AuthoritySource

-- A row of `pending_approvals`.
pub record LegacyApproval : Type 0 where
  pub request_id : String
  pub intent : String
  pub tool_id : String
  pub capability : String
  pub requested_category : RiskCategory
  pub allowed_category : RiskCategory
  pub recommended_tool_id : Option String
  pub reason : String
  pub status : Status
  pub created_at : ℕ
  pub decided_at : Option ℕ

-- A row of `pending_execution_approvals`.
pub record ExecutionApproval : Type 0 where
  pub request_id : String
  pub intent : String
  pub agent_id : String
  pub run_id : String
  pub tool_id : String
  pub capability : String
  pub repository : String
  pub branch : Option String
  pub args_hash : String
  pub requested_category : RiskCategory
  pub allowed_category : RiskCategory
  pub reason : String
  pub status : Status
  pub created_at : ℕ
  pub decided_at : Option ℕ

-- A row of `execution_grants`.
pub record Grant : Type 0 where
  pub grant_id : String
  pub request_id : String
  pub authority_source : AuthoritySource
  pub agent_id : String
  pub run_id : String
  pub tool_id : String
  pub capability : String
  pub repository : String
  pub branch : Option String
  pub args_hash : String
  pub expires_at : ℕ
  pub consumed : Bool
  pub created_at : ℕ
  pub consumed_at : Option ℕ

-- A row of `allow_once`.
pub record AllowOnce : Type 0 where
  pub request_id : String
  pub tool_id : String
  pub consumed : Bool
  pub created_at : ℕ
  pub consumed_at : Option ℕ

pub record Store : Type 0 where
  pub emergency_stop : Bool
  pub tool_exceptions : List String
  pub capability_overrides : List (String × RiskCategory)
  pub allow_once : List AllowOnce
  pub pending_approvals : List LegacyApproval
  pub pending_execution_approvals : List ExecutionApproval
  pub execution_grants : List Grant

-- What `_initialize` makes of an empty file.
abbrev pub initial : Store
initial = record {
  emergency_stop = false;
  tool_exceptions = [];
  capability_overrides = [];
  allow_once = [];
  pending_approvals = [];
  pending_execution_approvals = [];
  execution_grants = [];
}

-- `PendingApproval`, as a snapshot lists it.
pub record PendingApproval : Type 0 where
  pub request_id : String
  pub intent : String
  pub tool_id : String
  pub capability : String
  pub requested_category : RiskCategory
  pub allowed_category : RiskCategory
  pub recommended_tool_id : Option String
  pub reason : String
  pub created_at : ℕ
  pub agent_id : Option String
  pub run_id : Option String
  pub repository : Option String
  pub branch : Option String
  pub args_hash : Option String

pub record GovernanceSnapshot : Type 0 where
  pub emergency_stop : Bool
  pub tool_exceptions : List String
  pub capability_overrides : List (String × RiskCategory)
  pub pending_approvals : List PendingApproval

abbrev pub of_legacy : LegacyApproval → PendingApproval
of_legacy r = record {
  request_id = r.request_id;
  intent = r.intent;
  tool_id = r.tool_id;
  capability = r.capability;
  requested_category = r.requested_category;
  allowed_category = r.allowed_category;
  recommended_tool_id = r.recommended_tool_id;
  reason = r.reason;
  created_at = r.created_at;
  agent_id = none;
  run_id = none;
  repository = none;
  branch = none;
  args_hash = none;
}

abbrev pub of_execution : ExecutionApproval → PendingApproval
of_execution r = record {
  request_id = r.request_id;
  intent = r.intent;
  tool_id = r.tool_id;
  capability = r.capability;
  requested_category = r.requested_category;
  allowed_category = r.allowed_category;
  recommended_tool_id = none;
  reason = r.reason;
  created_at = r.created_at;
  agent_id = some r.agent_id;
  run_id = some r.run_id;
  repository = some r.repository;
  branch = r.branch;
  args_hash = some r.args_hash;
}

-- `ORDER BY created_at DESC LIMIT 100`, and the sort of the two lists together.
unfoldable pub newest : List PendingApproval → List PendingApproval
newest rows = take 100 (sort_by (λ a b. ltb b.created_at a.created_at) rows)

unfoldable pub snapshot : Store → GovernanceSnapshot
unfolding newest
snapshot s =
    let legacy = newest (map of_legacy (keep (λ r. is_pending r.status) s.pending_approvals)) in
    let execution =
      newest (map of_execution (keep (λ r. is_pending r.status) s.pending_execution_approvals)) in
    record {
      emergency_stop = s.emergency_stop;
      tool_exceptions = s.tool_exceptions;
      capability_overrides = s.capability_overrides;
      pending_approvals = newest (legacy ++ execution);
    }

-- The `WHERE` of `has_execution_grant` and `consume_execution_grant`.
unfoldable pub grant_matches : ℕ → InvocationContext → Grant → Bool
grant_matches now c g =
    g.agent_id == c.agent_id
    && g.run_id == c.run_id
    && g.tool_id == c.tool_id
    && g.capability == c.capability
    && g.repository == c.repository
    && or_else g.branch "" == or_else c.branch ""
    && g.args_hash == c.args_hash
    && not g.consumed
    && ltb now g.expires_at

unfoldable pub has_execution_grant : ℕ → InvocationContext → Store → Bool
unfolding grant_matches
has_execution_grant now c s = any_of (grant_matches now c) s.execution_grants

unfoldable pub has_unconsumed_once : String → String → Store → Bool
has_unconsumed_once request tool s =
    any_of (λ r. r.request_id == request && r.tool_id == tool && not r.consumed) s.allow_once
