-- ===== src/Gateway/Store/Writes.antt =====
-- capability_gateway/governance.py: the operations that change the database. A transaction that
-- raises is rolled back. `token` is what `secrets.token_urlsafe(24)` returns; an insert of a
-- `grant_id` that is there already raises `sqlite3.IntegrityError`.
use Prim.Native.String.{count}
use hermes_sdlc_agents.Prelude.Rows.{update_where, upsert}
use hermes_sdlc_agents.Prelude.{
  ℕ, String, Bool, not, ◌&&◌, ◌||◌, Option, none, some, List, ◌==◌, ltb, leb, if◌then◌else◌,
  or_else, Result, ok, require, ◌>>◌, strip, has_control, take_chars,
}
use hermes_sdlc_agents.Gateway.Models.{RiskCategory}
use hermes_sdlc_agents.Gateway.Authority.{InvocationContext, context_request_id}
use hermes_sdlc_agents.Gateway.Store.{
  Status, pending, is_pending, LegacyApproval, ExecutionApproval, Store,
}
use Prim.Native.String
use hermes_sdlc_agents.Prelude.Table

pub data StoreError : Type 0 where
  value_error : String → StoreError
  integrity_error : StoreError

unfoldable pub validate_identifier : String → ℕ → Result StoreError (Unit {0})
validate_identifier value limit = do
  require (not (strip value == "" || ltb limit (count value))) (value_error "invalid identifier")
  require (not (has_control value)) (value_error "control characters are not allowed")

abbrev pub fits : String → ℕ → Bool
fits text limit = not (text == "") && leb (count text) limit

unfoldable pub record_pending_approval :
    ℕ
    → String
    → String
    → String
    → String
    → RiskCategory
    → RiskCategory
    → Option String
    → String
    → Store
    → Result StoreError Store
unfolding upsert
record_pending_approval now request intent tool capability requested allowed recommended reason s =
    do
      validate_identifier request 100
      validate_identifier tool 300
      validate_identifier capability 160
      require (fits intent 2000 && fits reason 1000) (value_error "invalid approval text")
      let row : LegacyApproval = record {
        request_id = request;
        intent = intent;
        tool_id = tool;
        capability = capability;
        requested_category = requested;
        allowed_category = allowed;
        recommended_tool_id = recommended;
        reason = reason;
        status = pending;
        created_at = now;
        decided_at = none;
      }
      ok (record s {
        pending_approvals =
            upsert (λ r. r.request_id == request) (λ r. record row { created_at = r.created_at })
              row s.pending_approvals;
      })

-- `intent or f"execute {tool_id}"`, cut at 2000 characters.
abbrev pub intent_text : Option String → String → String
intent_text intent tool =
    let given = or_else intent "" in
    let text = if given == "" then String.◌++◌ "execute " tool else given in
    if ltb 2000 (count text) then take_chars 2000 text else text

module _ (sha256 : String → String) where
  abbrev pub execution_row :
      ℕ → InvocationContext → RiskCategory → String → Option String → ExecutionApproval
  execution_row now c allowed reason intent = record {
    request_id = context_request_id sha256 c;
    intent = intent_text intent c.tool_id;
    agent_id = c.agent_id;
    run_id = c.run_id;
    tool_id = c.tool_id;
    capability = c.capability;
    repository = c.repository;
    branch = c.branch;
    args_hash = c.args_hash;
    requested_category = c.category;
    allowed_category = allowed;
    reason = reason;
    status = pending;
    created_at = now;
    decided_at = none;
  }

  unfoldable pub record_execution_approval :
      ℕ
      → InvocationContext
      → RiskCategory
      → String
      → Option String
      → Store
      → Result StoreError Store
  unfolding upsert
  record_execution_approval now c allowed reason intent s = do
    require (leb (count reason) 1000) (value_error "invalid approval reason")
    let row = execution_row now c allowed reason intent
    ok (record s {
      pending_execution_approvals =
          upsert (λ r. r.request_id == row.request_id)
            (λ r. record row { created_at = r.created_at }) row s.pending_execution_approvals;
    })

unfoldable pub set_emergency_stop : Bool → Store → Store
set_emergency_stop enabled s = record s { emergency_stop = enabled }

-- The rows of the two tables of approvals that a decision settles.
abbrev pub settle_legacy :
    (LegacyApproval → Bool) → Status → ℕ → List LegacyApproval → List LegacyApproval
settle_legacy p status now =
    update_where (λ r. p r && is_pending r.status)
      (λ r. record r { status = status; decided_at = some now })

abbrev pub settle_execution :
    (ExecutionApproval → Bool) → Status → ℕ → List ExecutionApproval → List ExecutionApproval
settle_execution p status now =
    update_where (λ r. p r && is_pending r.status)
      (λ r. record r { status = status; decided_at = some now })

unfoldable pub add_tool_exception : ℕ → String → Store → Result StoreError Store
unfolding update_where
add_tool_exception now tool s = do
  validate_identifier tool 300
  ok (record s {
    tool_exceptions = Table.add tool s.tool_exceptions;
    pending_approvals =
        settle_legacy (λ r. r.tool_id == tool) Status.exception now s.pending_approvals;
    pending_execution_approvals =
        settle_execution (λ r. r.tool_id == tool) Status.exception now
          s.pending_execution_approvals;
  })

unfoldable pub remove_tool_exception : String → Store → Store
remove_tool_exception tool s = record s { tool_exceptions = Table.discard tool s.tool_exceptions }

unfoldable pub set_capability_override : ℕ → String → RiskCategory → Store → Result StoreError Store
unfolding update_where
set_capability_override now capability category s = do
  validate_identifier capability 160
  ok (record s {
    capability_overrides = Table.insert capability category s.capability_overrides;
    pending_approvals =
        settle_legacy (λ r. r.capability == capability) Status.capability_override now
          s.pending_approvals;
    pending_execution_approvals =
        settle_execution (λ r. r.capability == capability) Status.capability_override now
          s.pending_execution_approvals;
  })

unfoldable pub remove_capability_override : String → Store → Store
remove_capability_override capability s = record s {
  capability_overrides = Table.remove capability s.capability_overrides;
}
