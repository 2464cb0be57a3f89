-- ===== src/Gateway/Store/Grants.antt =====
-- capability_gateway/governance.py: granting, recording and consuming executions.
use hermes_sdlc_agents.Prelude.{
  ℕ, ◌+◌, min, max, String, Bool, true, false, not, ◌&&◌, Option, none, some, List, [], ◌∷◌, ◌++◌,
  ◌==◌, ltb, nat_eq, if◌then◌else◌, any_of, keep, find_first, length, Result, ok, raise, require,
  ◌>>=◌, ◌>>◌, first,
}
use hermes_sdlc_agents.Prelude.Rows.{update_where, upsert}
use hermes_sdlc_agents.Gateway.Core.{sort_by}
use hermes_sdlc_agents.Gateway.Authority.{InvocationContext, context_request_id}
use hermes_sdlc_agents.Gateway.Store.{
  approved_once, is_pending, AuthoritySource, human, LegacyApproval, ExecutionApproval, Grant,
  AllowOnce, Store, grant_matches,
}
use hermes_sdlc_agents.Gateway.Store.Writes.{
  StoreError, value_error, integrity_error, validate_identifier,
}

-- The insert into `execution_grants`.
unfoldable pub insert_grant : Grant → Store → Result StoreError Store
insert_grant g s =
    if any_of (λ h. h.grant_id == g.grant_id) s.execution_grants
    then raise integrity_error
    else ok (record s { execution_grants = s.execution_grants ++ g ∷ [] })

-- `max(10, min(ttl, 900))`
abbrev pub clamp_ttl : ℕ → ℕ
clamp_ttl ttl = max 10 (min ttl 900)

abbrev pub human_grant : ℕ → String → ℕ → ExecutionApproval → Grant
human_grant now token ttl r = record {
  grant_id = token;
  request_id = r.request_id;
  authority_source = human;
  agent_id = r.agent_id;
  run_id = r.run_id;
  tool_id = r.tool_id;
  capability = r.capability;
  repository = r.repository;
  branch = r.branch;
  args_hash = r.args_hash;
  expires_at = now + clamp_ttl ttl;
  consumed = false;
  created_at = now;
  consumed_at = none;
}

abbrev pub is_execution_request : String → String → ExecutionApproval → Bool
is_execution_request request tool r =
    r.request_id == request && r.tool_id == tool && is_pending r.status

abbrev pub is_legacy_request : String → String → LegacyApproval → Bool
is_legacy_request request tool r =
    r.request_id == request && r.tool_id == tool && is_pending r.status

-- The branch of `grant_once` for an execution request.
unfoldable pub grant_execution :
    ℕ → String → ℕ → ExecutionApproval → Store → Result StoreError (Option String × Store)
unfolding insert_grant update_where
grant_execution now token ttl r s = do
  s' ← insert_grant (human_grant now token ttl r) s
  ok (
    some token,
    record s' {
      pending_execution_approvals =
          update_where (λ q. q.request_id == r.request_id)
            (λ q. record q { status = approved_once; decided_at = some now })
            s'.pending_execution_approvals;
    },
  )

-- The branch for a request of the resolver.
unfoldable pub grant_legacy :
    ℕ → String → String → Store → Result StoreError (Option String × Store)
unfolding update_where upsert
grant_legacy now request tool s =
    if any_of (is_legacy_request request tool) s.pending_approvals
    then ok (
      none,
      record s {
        allow_once =
            upsert (λ r. r.request_id == request)
              (λ r. record r { tool_id = tool; consumed = false; consumed_at = none })
              (record {
                request_id = request;
                tool_id = tool;
                consumed = false;
                created_at = now;
                consumed_at = none;
              })
              s.allow_once;
        pending_approvals =
            update_where (λ q. q.request_id == request)
              (λ q. record q { status = approved_once; decided_at = some now }) s.pending_approvals;
      },
    )
    else raise (value_error "approval request is not pending")

unfoldable pub grant_found :
    ℕ
    → String
    → String
    → String
    → ℕ
    → Option ExecutionApproval
    → Store
    → Result StoreError (Option String × Store)
unfolding grant_execution grant_legacy
grant_found now token request tool ttl none s = grant_legacy now request tool s
grant_found now token request tool ttl (some r) s = grant_execution now token ttl r s

unfoldable pub grant_once :
    ℕ → String → String → String → ℕ → Store → Result StoreError (Option String × Store)
unfolding grant_found
grant_once now token request tool ttl s = do
  validate_identifier request 100
  validate_identifier tool 300
  grant_found now token request tool ttl
      (find_first (is_execution_request request tool) s.pending_execution_approvals) s

-- `ORDER BY created_at ASC LIMIT 1`
unfoldable pub oldest_match : ℕ → InvocationContext → List Grant → Option Grant
unfolding grant_matches sort_by
oldest_match now c grants =
    first (sort_by (λ a b. ltb a.created_at b.created_at) (keep (grant_matches now c) grants))

abbrev pub is_live : String → Grant → Bool
is_live token g = g.grant_id == token && not g.consumed

-- The update of `consume_execution_grant`; `rowcount` is the number of rows that it changed.
unfoldable pub spend : ℕ → String → Store → Option String × Store
unfolding update_where
spend now token s =
    let rowcount = length (keep (is_live token) s.execution_grants) in
    (
      if nat_eq rowcount 1 then some token else none,
      record s {
        execution_grants =
            update_where (is_live token) (λ g. record g { consumed = true; consumed_at = some now })
              s.execution_grants;
      },
    )

unfoldable pub spend_found : ℕ → Option Grant → Store → Option String × Store
unfolding spend
spend_found now none s = (none, s)
spend_found now (some g) s = spend now g.grant_id s

unfoldable pub consume_execution_grant : ℕ → InvocationContext → Store → Option String × Store
unfolding oldest_match spend_found
consume_execution_grant now c s = spend_found now (oldest_match now c s.execution_grants) s

abbrev pub may_record : AuthoritySource → Bool
may_record human = false
may_record _ = true

module _ (sha256 : String → String) where
  abbrev pub auto_grant : ℕ → String → InvocationContext → AuthoritySource → Grant
  auto_grant now token c source = record {
    grant_id = token;
    request_id = context_request_id sha256 c;
    authority_source = source;
    agent_id = c.agent_id;
    run_id = c.run_id;
    tool_id = c.tool_id;
    capability = c.capability;
    repository = c.repository;
    branch = c.branch;
    args_hash = c.args_hash;
    expires_at = now + 60;
    consumed = true;
    created_at = now;
    consumed_at = some now;
  }

  unfoldable pub record_auto_execution :
      ℕ → String → InvocationContext → AuthoritySource → Store → Result StoreError (String × Store)
  unfolding insert_grant
  record_auto_execution now token c source s = do
    require (may_record source) (value_error "invalid authority source")
    s' ← insert_grant (auto_grant now token c source) s
    ok (token, s')

unfoldable pub consume_once : ℕ → String → String → Store → Bool × Store
unfolding update_where
consume_once now request tool s =
    let hit = λ (r : AllowOnce). r.request_id == request && r.tool_id == tool && not r.consumed in
    (
      nat_eq (length (keep hit s.allow_once)) 1,
      record s {
        allow_once =
            update_where hit (λ r. record r { consumed = true; consumed_at = some now })
              s.allow_once;
      },
    )
