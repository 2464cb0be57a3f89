-- ===== src/Gateway/Store/Kept.antt =====
-- Every call keeps the database well formed.
pub mod Operations
use hermes_sdlc_agents.Prelude.Rows.{
  update_where-IsUnique, update_where, update_where-All, All-append_one, append-IsUnique,
  upsert-IsUnique,
}
use hermes_sdlc_agents.Prelude.{
  require, ◌&&◌, guard_cases, ℕ, ◌≡◌, refl, String, Bool, true, false, Option, none, some, List, [],
  ◌∷◌, ◌==◌, eq_iff, map, sym, any_of, find_first, ok, Returns, Returns-guard, Returns-bind,
  Bool-cases, inl, inr,
}
use hermes_sdlc_agents.Prelude.Table.{IsUnique}
use hermes_sdlc_agents.Prelude.Sets.{discard-IsUnique, remove-IsUnique}
use hermes_sdlc_agents.Gateway.Store.Grants.{
  is_legacy_request, insert_grant, human_grant, auto_grant, may_record, grant_execution,
  grant_legacy, grant_found, grant_once, oldest_match, spend, spend_found, consume_execution_grant,
  record_auto_execution, consume_once, is_live, is_execution_request,
}
use hermes_sdlc_agents.Gateway.Authority.{context_request_id, InvocationContext}
use hermes_sdlc_agents.Gateway.Store.Writes.{
  fits, validate_identifier, record_pending_approval, record_execution_approval, set_emergency_stop,
  add_tool_exception, remove_tool_exception, set_capability_override, remove_capability_override,
}
use hermes_sdlc_agents.Gateway.Store.{
  count, leb, AuthoritySource, human, LegacyApproval, ExecutionApproval, Grant, Store,
}
use hermes_sdlc_agents.Gateway.Models.{RiskCategory}
use hermes_sdlc_agents.Gateway.Store.Calls.{
  Call, record_pending, record_execution, stop, add_exception, drop_exception, override,
  drop_override, grant, consume, record_auto, consume_legacy, after, run, IsWellFormed,
  state_or-keeps, pair_state_or-keeps,
}
use hermes_sdlc_agents.Gateway.Store.Kept.Operations.{
  record_pending-keeps, record_execution-keeps, add_exception-keeps, override-keeps, consume-keeps,
  record_auto-keeps, consume_once-keeps, grant_once-keeps,
}

module _ (sha256 : String → String) where
  -- Every call, whether it succeeds or raises, keeps the database well formed.
  pub after-IsWellFormed : {s : Store} (c : Call) → IsWellFormed s → IsWellFormed (after sha256 c s)
  unfolding after set_emergency_stop remove_tool_exception remove_capability_override
  after-IsWellFormed {s}
        (record_pending now request intent tool capability requested allowed rec reason) v =
      state_or-keeps s _ v
        (record_pending-keeps v now request intent tool capability requested allowed rec reason)
  after-IsWellFormed {s} (record_execution now c allowed reason intent) v =
      state_or-keeps s _ v (record_execution-keeps v sha256 now c allowed reason intent)
  after-IsWellFormed (stop enabled) v = record {
    grants = v.grants;
    executions = v.executions;
    legacies = v.legacies;
    once = v.once;
    exceptions = v.exceptions;
    overrides = v.overrides;
    human_only = v.human_only;
  }
  after-IsWellFormed {s} (add_exception now tool) v =
      state_or-keeps s _ v (add_exception-keeps v now tool)
  after-IsWellFormed {s} (drop_exception tool) v = record {
    grants = v.grants;
    executions = v.executions;
    legacies = v.legacies;
    once = v.once;
    exceptions = discard-IsUnique tool s.tool_exceptions v.exceptions;
    overrides = v.overrides;
    human_only = v.human_only;
  }
  after-IsWellFormed {s} (override now capability category) v =
      state_or-keeps s _ v (override-keeps v now capability category)
  after-IsWellFormed {s} (drop_override capability) v = record {
    grants = v.grants;
    executions = v.executions;
    legacies = v.legacies;
    once = v.once;
    exceptions = v.exceptions;
    overrides = remove-IsUnique capability s.capability_overrides v.overrides;
    human_only = v.human_only;
  }
  after-IsWellFormed {s} (grant now token request tool ttl) v =
      pair_state_or-keeps s _ v (grant_once-keeps v now token request tool ttl)
  after-IsWellFormed (consume now c) v = consume-keeps v now c
  after-IsWellFormed {s} (record_auto now token c source) v =
      pair_state_or-keeps s _ v (record_auto-keeps v sha256 now token c source)
  after-IsWellFormed (consume_legacy now request tool) v = consume_once-keeps v now request tool

  -- Every sequence of writes, whether they succeed or raise, keeps the database well formed: each table,
  -- the exceptions and the overrides too, has each key once, and an unconsumed grant is a human's.
  pub run-IsWellFormed :
      (s : Store) (cs : List Call) → IsWellFormed s → IsWellFormed (run sha256 cs s)
  unfolding run
  run-IsWellFormed s [] v = v
  run-IsWellFormed s (c ∷ cs) v = run-IsWellFormed (after sha256 c s) cs (after-IsWellFormed c v)
