-- ===== src/Gateway/Store/Calls.antt =====
-- The governance database under any sequence of calls: one constructor for each operation that
-- writes, and the invariant that all of them keep.
use hermes_sdlc_agents.Prelude.{
  ℕ, ◌≡◌, String, Bool, false, Option, List, [], ◌∷◌, map, All, Result, ok, raise, Returns,
}
use hermes_sdlc_agents.Prelude.Table.{IsUnique}
use hermes_sdlc_agents.Gateway.Models.{RiskCategory}
use hermes_sdlc_agents.Gateway.Authority.{InvocationContext}
use hermes_sdlc_agents.Gateway.Store.{AuthoritySource, human, Store, initial}
use hermes_sdlc_agents.Gateway.Store.Writes.{
  StoreError, record_pending_approval, record_execution_approval, set_emergency_stop,
  add_tool_exception, remove_tool_exception, set_capability_override, remove_capability_override,
}
use hermes_sdlc_agents.Gateway.Store.Grants.{
  grant_once, consume_execution_grant, record_auto_execution, consume_once,
}

pub data Call : Type 0 where
  record_pending :
      (now : ℕ) (request intent tool capability : String) (requested allowed : RiskCategory)
      (recommended : Option String) (reason : String)
      → Call
  record_execution :
      (now : ℕ) (c : InvocationContext) (allowed : RiskCategory) (reason : String)
      (intent : Option String)
      → Call
  stop : Bool → Call
  add_exception : (now : ℕ) (tool : String) → Call
  drop_exception : (tool : String) → Call
  override : (now : ℕ) (capability : String) (category : RiskCategory) → Call
  drop_override : (capability : String) → Call
  grant : (now : ℕ) (token request tool : String) (ttl : ℕ) → Call
  consume : (now : ℕ) (c : InvocationContext) → Call
  record_auto : (now : ℕ) (token : String) (c : InvocationContext) (source : AuthoritySource) → Call
  consume_legacy : (now : ℕ) (request tool : String) → Call

-- A call that raises leaves the database as it was.
abbrev pub state_or : Store → Result StoreError Store → Store
state_or s (ok t) = t
state_or s (raise e) = s

abbrev pub pair_state_or {ℓ} : {A : Type ℓ} → Store → Result StoreError (A × Store) → Store
pair_state_or s (ok (a, t)) = t
pair_state_or s (raise e) = s

module _ (sha256 : String → String) where
  unfoldable pub after : Call → Store → Store
  after (record_pending now request intent tool capability requested allowed recommended reason) s =
      state_or s (
        record_pending_approval now request intent tool capability requested allowed recommended
          reason s)
  after (record_execution now c allowed reason intent) s =
      state_or s (record_execution_approval sha256 now c allowed reason intent s)
  after (stop enabled) s = set_emergency_stop enabled s
  after (add_exception now tool) s = state_or s (add_tool_exception now tool s)
  after (drop_exception tool) s = remove_tool_exception tool s
  after (override now capability category) s =
      state_or s (set_capability_override now capability category s)
  after (drop_override capability) s = remove_capability_override capability s
  after (grant now token request tool ttl) s =
      pair_state_or s (grant_once now token request tool ttl s)
  after (consume now c) s = (consume_execution_grant now c s).1
  after (record_auto now token c source) s =
      pair_state_or s (record_auto_execution sha256 now token c source s)
  after (consume_legacy now request tool) s = (consume_once now request tool s).1

  unfoldable pub run : List Call → Store → Store
  unfolding after
  run [] s = s
  run (c ∷ cs) s = run cs (after c s)

-- Each table has its key once in each row, and a grant that can still be spent is a human's.
pub record IsWellFormed (s : Store) : Type 0 where
  pub grants : IsUnique (map (λ g. g.grant_id) s.execution_grants)
  pub executions : IsUnique (map (λ r. r.request_id) s.pending_execution_approvals)
  pub legacies : IsUnique (map (λ r. r.request_id) s.pending_approvals)
  pub once : IsUnique (map (λ r. r.request_id) s.allow_once)
  pub exceptions : IsUnique s.tool_exceptions
  pub overrides : IsUnique (map (λ e. e.0) s.capability_overrides)
  pub human_only : All (λ g. g.consumed ≡ false → g.authority_source ≡ human) s.execution_grants

pub initial-IsWellFormed : IsWellFormed initial
initial-IsWellFormed = record {
  grants = tt;
  executions = tt;
  legacies = tt;
  once = tt;
  exceptions = tt;
  overrides = tt;
  human_only = tt;
}

pub state_or-keeps :
    (s : Store) (r : Result StoreError Store)
    → IsWellFormed s
    → Returns IsWellFormed r
    → IsWellFormed (state_or s r)
state_or-keeps s (ok t) v h = h
state_or-keeps s (raise e) v h = v

pub pair_state_or-keeps {ℓ} :
    {A : Type ℓ} (s : Store) (r : Result StoreError (A × Store))
    → IsWellFormed s
    → Returns (λ p. IsWellFormed p.1) r
    → IsWellFormed (pair_state_or s r)
pair_state_or-keeps s (ok (a, t)) v h = h
pair_state_or-keeps s (raise e) v h = v
