-- ===== src/Gateway/Store/Kept/Operations.antt =====
-- Each operation of the governance database, and its invariant.
use hermes_sdlc_agents.Prelude.Rows.{
  update_where-IsUnique, update_where, update_where-All, All-append_one, append-IsUnique,
  upsert-IsUnique,
}
use hermes_sdlc_agents.Prelude.{
  require, ◌&&◌, guard_cases, ℕ, ◌≡◌, refl, String, Bool, true, false, Option, none, some, List,
  ◌==◌, eq_iff, map, sym, any_of, find_first, ok, Returns, Returns-guard, Returns-bind, Bool-cases,
  inl, inr,
}
use hermes_sdlc_agents.Prelude.Table.{IsUnique}
use hermes_sdlc_agents.Prelude.Sets.{add-IsUnique, insert-IsUnique}
use hermes_sdlc_agents.Gateway.Store.Grants.{
  is_legacy_request, insert_grant, human_grant, auto_grant, may_record, grant_execution,
  grant_legacy, grant_found, grant_once, oldest_match, spend, spend_found, consume_execution_grant,
  record_auto_execution, consume_once, is_live, is_execution_request,
}
use hermes_sdlc_agents.Gateway.Authority.{context_request_id, InvocationContext}
use hermes_sdlc_agents.Gateway.Store.Writes.{
  fits, validate_identifier, record_pending_approval, record_execution_approval, add_tool_exception,
  set_capability_override,
}
use hermes_sdlc_agents.Gateway.Store.{
  count, leb, AuthoritySource, human, LegacyApproval, ExecutionApproval, Grant, Store,
}
use hermes_sdlc_agents.Gateway.Models.{RiskCategory}
use hermes_sdlc_agents.Gateway.Store.Calls.{IsWellFormed}

module _ {s : Store} (v : IsWellFormed s) where
  insert_grant-keeps :
      (g : Grant)
      → (g.consumed ≡ false → g.authority_source ≡ human)
      → Returns IsWellFormed (insert_grant g s)
  unfolding insert_grant
  insert_grant-keeps g h =
      elim (Bool-cases (any_of (λ h. h.grant_id == g.grant_id) s.execution_grants)) [
        | inl e ↦ rw (e) tt
        | inr e ↦ rw (e) (record {
          grants = append-IsUnique (λ h. h.grant_id) s.execution_grants g e v.grants;
          executions = v.executions;
          legacies = v.legacies;
          once = v.once;
          exceptions = v.exceptions;
          overrides = v.overrides;
          human_only = All-append_one _ s.execution_grants g v.human_only h;
        })
      ]

  -- Other approvals, with their keys apart.
  with_approvals :
      (legacies : List LegacyApproval) (executions : List ExecutionApproval)
      → IsUnique (map (λ r. r.request_id) legacies)
      → IsUnique (map (λ r. r.request_id) executions)
      → IsWellFormed
          (record s { pending_approvals = legacies; pending_execution_approvals = executions })
  with_approvals legacies executions l e = record {
    grants = v.grants;
    executions = e;
    legacies = l;
    once = v.once;
    exceptions = v.exceptions;
    overrides = v.overrides;
    human_only = v.human_only;
  }

  pub record_pending-keeps :
      (now : ℕ) (request intent tool capability : String) (requested allowed : RiskCategory)
      (recommended : Option String) (reason : String)
      → Returns IsWellFormed (
          record_pending_approval now request intent tool capability requested allowed recommended
            reason s)
  unfolding record_pending_approval
  record_pending-keeps now request intent tool capability requested allowed recommended reason =
      elim (guard_cases (validate_identifier request 100)) [
        | inr (_, e) ↦ rw (e) tt
        | inl e ↦ rw (e) (elim (guard_cases (validate_identifier tool 300)) [
          | inr (_, e) ↦ rw (e) tt
          | inl e ↦ rw (e) (elim (guard_cases (validate_identifier capability 160)) [
            | inr (_, e) ↦ rw (e) tt
            | inl e ↦ rw (e) (elim (Bool-cases (fits intent 2000 && fits reason 1000)) [
              | inr e ↦ rw (e) tt
              | inl e ↦ rw (e) (
                  with_approvals _ s.pending_execution_approvals
                    (upsert-IsUnique (λ r. r.request_id) _ _ s.pending_approvals
                      (λ x h. sym ((eq_iff x.request_id request).0 h)) v.legacies)
                    v.executions)
            ])
          ])
        ])
      ]

  pub record_execution-keeps :
      (sha256 : String → String) (now : ℕ) (c : InvocationContext) (allowed : RiskCategory)
      (reason : String) (intent : Option String)
      → Returns IsWellFormed (record_execution_approval sha256 now c allowed reason intent s)
  unfolding record_execution_approval
  record_execution-keeps sha256 now c allowed reason intent =
      elim (Bool-cases (leb (count reason) 1000)) [
        | inr e ↦ rw (e) tt
        | inl e ↦ rw (e) (
            with_approvals s.pending_approvals _ v.legacies (
              upsert-IsUnique (λ r. r.request_id) _ _ s.pending_execution_approvals
                (λ x h. sym ((eq_iff x.request_id (context_request_id sha256 c)).0 h))
                v.executions))
      ]

  -- A decision settles rows without changing their keys.
  settled :
      (p : LegacyApproval → Bool) (f : LegacyApproval → LegacyApproval)
      (q : ExecutionApproval → Bool) (g : ExecutionApproval → ExecutionApproval)
      → ((r : LegacyApproval) → p r ≡ true → (f r).request_id ≡ r.request_id)
      → ((r : ExecutionApproval) → q r ≡ true → (g r).request_id ≡ r.request_id)
      → IsWellFormed (record s {
        pending_approvals = update_where p f s.pending_approvals;
        pending_execution_approvals = update_where q g s.pending_execution_approvals;
      })
  settled p f q g hf hg =
      with_approvals (update_where p f s.pending_approvals)
        (update_where q g s.pending_execution_approvals)
        (update_where-IsUnique (λ r. r.request_id) p f s.pending_approvals hf v.legacies)
        (update_where-IsUnique (λ r. r.request_id) q g s.pending_execution_approvals hg
          v.executions)

  pub add_exception-keeps :
      (now : ℕ) (tool : String) → Returns IsWellFormed (add_tool_exception now tool s)
  unfolding add_tool_exception
  add_exception-keeps now tool = elim (guard_cases (validate_identifier tool 300)) [
    | inr (_, e) ↦ rw (e) tt
    | inl e ↦
        let w = settled _ _ _ _ (λ r h. refl) (λ r h. refl) in
        rw (e) (record {
          grants = w.grants;
          executions = w.executions;
          legacies = w.legacies;
          once = w.once;
          exceptions = add-IsUnique tool s.tool_exceptions v.exceptions;
          overrides = w.overrides;
          human_only = w.human_only;
        })
  ]

  pub override-keeps :
      (now : ℕ) (capability : String) (category : RiskCategory)
      → Returns IsWellFormed (set_capability_override now capability category s)
  unfolding set_capability_override
  override-keeps now capability category = elim (guard_cases (validate_identifier capability 160)) [
    | inr (_, e) ↦ rw (e) tt
    | inl e ↦
        let w = settled _ _ _ _ (λ r h. refl) (λ r h. refl) in
        rw (e) (record {
          grants = w.grants;
          executions = w.executions;
          legacies = w.legacies;
          once = w.once;
          exceptions = w.exceptions;
          overrides = insert-IsUnique capability category s.capability_overrides v.overrides;
          human_only = w.human_only;
        })
  ]

  grant_legacy-keeps :
      (now : ℕ) (request tool : String)
      → Returns (λ p. IsWellFormed p.1) (grant_legacy now request tool s)
  unfolding grant_legacy
  grant_legacy-keeps now request tool =
      elim (Bool-cases (any_of (is_legacy_request request tool) s.pending_approvals)) [
        | inr e ↦ rw (e) tt
        | inl e ↦ rw (e) (record {
          grants = v.grants;
          executions = v.executions;
          legacies =
              update_where-IsUnique (λ r. r.request_id) _ _ s.pending_approvals (λ x h. refl)
                v.legacies;
          once = upsert-IsUnique (λ r. r.request_id) _ _ s.allow_once (λ x h. refl) v.once;
          exceptions = v.exceptions;
          overrides = v.overrides;
          human_only = v.human_only;
        })
      ]

  spend-keeps : (now : ℕ) (token : String) → IsWellFormed (spend now token s).1
  unfolding spend
  spend-keeps now token = record {
    grants =
        update_where-IsUnique (λ g. g.grant_id) (is_live token) _ s.execution_grants (λ x h. refl)
          v.grants;
    executions = v.executions;
    legacies = v.legacies;
    once = v.once;
    exceptions = v.exceptions;
    overrides = v.overrides;
    human_only =
        update_where-All _ (is_live token) _ s.execution_grants (λ x h k e. cc) v.human_only;
  }

  pub consume-keeps :
      (now : ℕ) (c : InvocationContext) → IsWellFormed (consume_execution_grant now c s).1
  unfolding consume_execution_grant
  consume-keeps now c = found (oldest_match now c s.execution_grants)
    where
      found : (o : Option Grant) → IsWellFormed (spend_found now o s).1
      found none = v
      found (some g) = spend-keeps now g.grant_id

  pub record_auto-keeps :
      (sha256 : String → String) (now : ℕ) (token : String) (c : InvocationContext)
      (source : AuthoritySource)
      → Returns (λ p. IsWellFormed p.1) (record_auto_execution sha256 now token c source s)
  unfolding record_auto_execution
  record_auto-keeps sha256 now token c source =
      Returns-guard (λ p. IsWellFormed p.1) (require (may_record source) _) _
        (Returns-bind IsWellFormed (λ p. IsWellFormed p.1)
          (insert_grant (auto_grant sha256 now token c source) s) (λ s'. ok (token, s'))
          (insert_grant-keeps (auto_grant sha256 now token c source) (λ e. cc)) (λ t w. w))

  pub consume_once-keeps :
      (now : ℕ) (request tool : String) → IsWellFormed (consume_once now request tool s).1
  unfolding consume_once
  consume_once-keeps now request tool = record {
    grants = v.grants;
    executions = v.executions;
    legacies = v.legacies;
    once = update_where-IsUnique (λ r. r.request_id) _ _ s.allow_once (λ x h. refl) v.once;
    exceptions = v.exceptions;
    overrides = v.overrides;
    human_only = v.human_only;
  }

module _ {s : Store} (v : IsWellFormed s) where
  approved_keys :
      {t : Store} (request : String) (f : ExecutionApproval → ExecutionApproval)
      → ((r : ExecutionApproval) → (f r).request_id ≡ r.request_id)
      → IsWellFormed t
      → IsWellFormed (record t {
        pending_execution_approvals =
            update_where (λ q. q.request_id == request) f t.pending_execution_approvals;
      })
  approved_keys {t} request f keeps w = record {
    grants = w.grants;
    executions =
        update_where-IsUnique (λ r. r.request_id) _ f t.pending_execution_approvals (λ x h. keeps x)
          w.executions;
    legacies = w.legacies;
    once = w.once;
    exceptions = w.exceptions;
    overrides = w.overrides;
    human_only = w.human_only;
  }

  grant_execution-keeps :
      (now : ℕ) (token : String) (ttl : ℕ) (r : ExecutionApproval)
      → Returns (λ p. IsWellFormed p.1) (grant_execution now token ttl r s)
  unfolding grant_execution
  grant_execution-keeps now token ttl r =
      Returns-bind IsWellFormed (λ p. IsWellFormed p.1)
        (insert_grant (human_grant now token ttl r) s) _
        (insert_grant-keeps v (human_grant now token ttl r) (λ e. refl))
        (λ t w. approved_keys r.request_id _ (λ q. refl) w)

  pub grant_once-keeps :
      (now : ℕ) (token request tool : String) (ttl : ℕ)
      → Returns (λ p. IsWellFormed p.1) (grant_once now token request tool ttl s)
  unfolding grant_once
  grant_once-keeps now token request tool ttl =
      Returns-guard (λ p. IsWellFormed p.1) (validate_identifier request 100) _
        (Returns-guard (λ p. IsWellFormed p.1) (validate_identifier tool 300) _
          (found (find_first (is_execution_request request tool) s.pending_execution_approvals)))
    where
      found :
          (o : Option ExecutionApproval)
          → Returns (λ p. IsWellFormed p.1) (grant_found now token request tool ttl o s)
      found none = grant_legacy-keeps v now request tool
      found (some r) = grant_execution-keeps now token ttl r
