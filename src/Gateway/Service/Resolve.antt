-- ===== src/Gateway/Service/Resolve.antt =====
-- service.py: what `resolve_intent` does with the ranked tools. The tools, with the judge's semantics,
-- come from outside. Requests are served in threads: `before_look` and `before_consume` are what other
-- requests do to the store after the snapshot and after the look for an approval.
use hermes_sdlc_agents.Prelude.{
  ℕ, String, Bool, true, false, Option, none, some, List, [], ◌∷◌, ◌==◌, if◌then◌else◌, Result, ok,
  raise, find_first,
}
use hermes_sdlc_agents.Gateway.Core.{Floats}
use hermes_sdlc_agents.Gateway.Models.{
  RiskCategory, RankedTool, ApprovalRequest, Resolution, tool_id,
}
use hermes_sdlc_agents.Gateway.Resolver.{Question, resolve}
use hermes_sdlc_agents.Gateway.Store.{Store, GovernanceSnapshot, snapshot, has_unconsumed_once}
use hermes_sdlc_agents.Gateway.Store.Calls.{Call, run}
use hermes_sdlc_agents.Gateway.Store.Writes.{StoreError, record_pending_approval}
use hermes_sdlc_agents.Gateway.Store.Grants.{consume_once}

-- What is answered; `store_failed` is an error of the store, and `no_item` that of `next`.
pub data Resolved (F : Type 0) : Type 0 where
  resolved : Resolution F → Resolved F
  already_consumed : Resolved F
  store_failed : StoreError → Resolved F
  no_item : Resolved F

abbrev pub is_selected : {F : Type 0} → Option (RankedTool F) → String → Bool
is_selected none tool = false
is_selected (some item) tool = tool_id item.tool == tool

abbrev pub question :
    RiskCategory → String → Option String → List String → GovernanceSnapshot → Question
question ceiling intent requested once snap = record {
  intent = intent;
  max_auto_category = ceiling;
  requested_tool_id = requested;
  allowed_once = once;
  exception_tools = snap.tool_exceptions;
  capability_overrides = snap.capability_overrides;
  emergency_stop = snap.emergency_stop;
}

module _ {F : Type 0} where
  abbrev pub consumed : Resolution F → Bool × Store → Resolved F × Store
  consumed r (true, s) = (resolved r, s)
  consumed r (false, s) = (already_consumed, s)

  abbrev pub pended : Resolution F → Store → Result StoreError Store → Resolved F × Store
  pended r s (ok t) = (resolved r, t)
  pended r s (raise e) = (store_failed e, s)

  module _ (fl : Floats F) (sha256 : String → String) (now : ℕ)
      (before_look before_consume : List Call) (ceiling : RiskCategory) (intent : String)
      (requested : Option String) (ranked : List (RankedTool F)) where
    -- With the approval at hand.
    unfoldable pub use_once : GovernanceSnapshot → ApprovalRequest → Store → Resolved F × Store
    unfolding resolve consume_once run
    use_once snap request s =
        let r =
          resolve fl sha256
            (question ceiling intent requested (request.requested_tool_id ∷ []) snap) ranked in
        if is_selected r.selected request.requested_tool_id
        then consumed r (
            consume_once now request.request_id request.requested_tool_id
              (run sha256 before_consume s))
        else (resolved r, s)

    unfoldable pub ask_or_use :
        GovernanceSnapshot
        → ApprovalRequest
        → Resolution F
        → Option (RankedTool F)
        → Store
        → Resolved F × Store
    unfolding use_once has_unconsumed_once record_pending_approval
    ask_or_use snap request r none s = (no_item, s)
    ask_or_use snap request r (some item) s =
        if has_unconsumed_once request.request_id request.requested_tool_id s
        then use_once snap request s
        else pended r s (
            record_pending_approval now request.request_id request.intent request.requested_tool_id
              item.assessment.canonical_capability request.requested_category
              request.allowed_category request.recommended_tool_id request.reason s)

    unfoldable pub settle_approval :
        GovernanceSnapshot → Resolution F → Option ApprovalRequest → Store → Resolved F × Store
    unfolding ask_or_use
    settle_approval snap r none s = (resolved r, s)
    settle_approval snap r (some request) s =
        ask_or_use snap request r
          (find_first (λ item. tool_id item.tool == request.requested_tool_id) ranked)
          (run sha256 before_look s)

    -- `resolve_intent`, from the snapshot on.
    unfoldable pub resolve_ranked : Store → Resolved F × Store
    unfolding settle_approval resolve snapshot
    resolve_ranked s =
        let snap = snapshot s in
        let r = resolve fl sha256 (question ceiling intent requested [] snap) ranked in
        settle_approval snap r r.approval_required s
