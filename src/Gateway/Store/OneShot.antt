-- ===== src/Gateway/Store/OneShot.antt =====
-- A grant is spent once.
use hermes_sdlc_agents.Prelude.{
  ◌&&◌, leb, Returns-bind, require, Returns-guard, subst, none, refl, true, false, ◌||◌, ◌≢◌, [],
  Option, eq_iff, ◌∷◌, ap, arith, ◌∙◌, some, inr, inl, ◌==◌, Bool-cases, ◌≡◌, Returns, any_of,
  Result, List, String, ℕ,
}
use hermes_sdlc_agents.Prelude.Rows.{
  any_of-update_where_self, any_of-imp, keep_none, any_of-append_one, any_of-update_where,
  update_where, any_of-update_where-false,
}
use hermes_sdlc_agents.Gateway.Store.Calls.{
  record_execution, stop, add_exception, drop_exception, override, drop_override, grant, consume,
  record_auto, consume_legacy, record_pending, Call, after, run, state_or, pair_state_or,
}
use hermes_sdlc_agents.Gateway.Store.Grants.{
  consume_once, auto_grant, may_record, human_grant, oldest_match, is_legacy_request,
  consume_execution_grant, record_auto_execution, grant_execution, grant_found, grant_once,
  grant_legacy, spend, spend_found, is_live, insert_grant,
}
use hermes_sdlc_agents.Gateway.Store.Writes.{
  remove_capability_override, set_capability_override, remove_tool_exception, fits,
  validate_identifier, add_tool_exception, set_emergency_stop, record_execution_approval,
  record_pending_approval, StoreError,
}
use hermes_sdlc_agents.Gateway.Store.{
  count, AuthoritySource, ExecutionApproval, raise, ok, Store, Grant,
}
use hermes_sdlc_agents.Gateway.Models.{RiskCategory}
use hermes_sdlc_agents.Gateway.Authority.{InvocationContext}
use hermes_sdlc_agents.Gateway.Store.Spending.{spend_token}

-- The grant is in the table, and no row of it can still be spent.
abbrev pub IsSpent : String → List Grant → Type 0
IsSpent token grants =
    (any_of (λ g. g.grant_id == token) grants ≡ true) × (any_of (is_live token) grants ≡ false)

module _ (token : String) where
  state_or-IsSpent :
      (s : Store) (r : Result StoreError Store)
      → IsSpent token s.execution_grants
      → Returns (λ t. t.execution_grants ≡ s.execution_grants) r
      → IsSpent token (state_or s r).execution_grants
  state_or-IsSpent s (ok t) v h = rw (h) v
  state_or-IsSpent s (raise e) v h = v

  pair_state_or-IsSpent {ℓ} :
      {A : Type ℓ} (s : Store) (r : Result StoreError (A × Store))
      → IsSpent token s.execution_grants
      → Returns (λ p. IsSpent token p.1.execution_grants) r
      → IsSpent token (pair_state_or s r).execution_grants
  pair_state_or-IsSpent s (ok (a, t)) v h = h
  pair_state_or-IsSpent s (raise e) v h = v

  -- A grant that an insert accepts has another id.
  other :
      (g : Grant) (s : Store)
      → any_of (λ h. h.grant_id == token) s.execution_grants ≡ true
      → any_of (λ h. h.grant_id == g.grant_id) s.execution_grants ≡ false
      → (g.grant_id == token) ≡ false
  other g s v e = elim (Bool-cases (g.grant_id == token)) [
    | inr differs ↦ differs
    | inl same ↦ absurd (
        cc (
          v,
          e,
          ap (λ i. any_of (λ h. h.grant_id == i) s.execution_grants)
              ((eq_iff g.grant_id token).0 same),
        ))
  ]

  insert_grant-IsSpent :
      (g : Grant) (s : Store)
      → IsSpent token s.execution_grants
      → Returns (λ t. IsSpent token t.execution_grants) (insert_grant g s)
  unfolding insert_grant
  insert_grant-IsSpent g s v =
      elim (Bool-cases (any_of (λ h. h.grant_id == g.grant_id) s.execution_grants)) [
        | inl e ↦ rw (e) tt
        | inr e ↦ rw (e) (
          any_of-append_one (λ h. h.grant_id == token) s.execution_grants g
              ∙ ap (λ b. b || (g.grant_id == token)) v.0,
          any_of-append_one (is_live token) s.execution_grants g
              ∙ ground (arith, v.1, other g s v.0 e),
        )
      ]

  update-IsSpent :
      (now : ℕ) (id : String) (grants : List Grant)
      → IsSpent token grants
      → IsSpent token (
          update_where
            (is_live id)
            (λ g. record g { consumed = true; consumed_at = some now })
            grants)
  update-IsSpent now id grants v = (
    any_of-update_where (λ g. g.grant_id == token) (is_live id) _ grants (λ g. refl) ∙ v.0,
    any_of-update_where-false (is_live token) (is_live id) _ grants (λ g h k. ground arith) v.1,
  )

  spend_found-IsSpent :
      (now : ℕ) (o : Option Grant) (s : Store)
      → IsSpent token s.execution_grants
      → IsSpent token (spend_found now o s).1.execution_grants
  unfolding spend_found spend
  spend_found-IsSpent now none s v = v
  spend_found-IsSpent now (some g) s v = update-IsSpent now g.grant_id s.execution_grants v

  spend_found_other :
      (now : ℕ) (o : Option Grant) (s : Store)
      → IsSpent token s.execution_grants
      → (spend_found now o s).0 ≢ some token
  unfolding spend_found spend
  spend_found_other now none s v h = cc
  spend_found_other now (some g) s v h =
      absurd (ground (arith, v.1, keep_none (is_live g.grant_id) s.execution_grants))

  grant_execution-IsSpent :
      (now : ℕ) (id : String) (ttl : ℕ) (r : ExecutionApproval) (s : Store)
      → IsSpent token s.execution_grants
      → Returns (λ p. IsSpent token p.1.execution_grants) (grant_execution now id ttl r s)
  unfolding grant_execution
  grant_execution-IsSpent now id ttl r s v =
      Returns-bind (λ t. IsSpent token t.execution_grants) (λ p. IsSpent token p.1.execution_grants)
        (insert_grant (human_grant now id ttl r) s) _
        (insert_grant-IsSpent (human_grant now id ttl r) s v) (λ t w. w)

  grant_legacy-IsSpent :
      (now : ℕ) (request tool : String) (s : Store)
      → IsSpent token s.execution_grants
      → Returns (λ p. IsSpent token p.1.execution_grants) (grant_legacy now request tool s)
  unfolding grant_legacy
  grant_legacy-IsSpent now request tool s v =
      elim (Bool-cases (any_of (is_legacy_request request tool) s.pending_approvals)) [
        | inl e ↦ rw (e) v
        | inr e ↦ rw (e) tt
      ]

  grant_found-IsSpent :
      (now : ℕ) (id request tool : String) (ttl : ℕ) (o : Option ExecutionApproval) (s : Store)
      → IsSpent token s.execution_grants
      → Returns (λ p. IsSpent token p.1.execution_grants) (grant_found now id request tool ttl o s)
  unfolding grant_found
  grant_found-IsSpent now id request tool ttl none s v = grant_legacy-IsSpent now request tool s v
  grant_found-IsSpent now id request tool ttl (some r) s v =
      grant_execution-IsSpent now id ttl r s v

  grant_once-IsSpent :
      (now : ℕ) (id request tool : String) (ttl : ℕ) (s : Store)
      → IsSpent token s.execution_grants
      → Returns (λ p. IsSpent token p.1.execution_grants) (grant_once now id request tool ttl s)
  unfolding grant_once
  grant_once-IsSpent now id request tool ttl s v =
      Returns-guard (λ p. IsSpent token p.1.execution_grants) (validate_identifier request 100) _
        (Returns-guard (λ p. IsSpent token p.1.execution_grants) (validate_identifier tool 300) _
          (grant_found-IsSpent now id request tool ttl _ s v))

  -- The operations that leave the grants alone.
  record_pending_grants :
      (now : ℕ) (request intent tool capability : String) (requested allowed : RiskCategory)
      (recommended : Option String) (reason : String) (s : Store)
      → Returns
          (λ t. t.execution_grants ≡ s.execution_grants)
          (record_pending_approval now request intent tool capability requested allowed recommended
            reason s)
  unfolding record_pending_approval
  record_pending_grants now request intent tool capability requested allowed recommended reason s =
      let P = λ (t : Store). t.execution_grants ≡ s.execution_grants in
      Returns-guard P (validate_identifier request 100) _ (
        Returns-guard P (validate_identifier tool 300) _ (
          Returns-guard P (validate_identifier capability 160) _
            (Returns-guard P (require (fits intent 2000 && fits reason 1000) _) _ refl)))

  module _ (sha256 : String → String) where
    pub record_execution_grants :
        (now : ℕ) (c : InvocationContext) (allowed : RiskCategory) (reason : String)
        (intent : Option String) (s : Store)
        → Returns
            (λ t. t.execution_grants ≡ s.execution_grants)
            (record_execution_approval sha256 now c allowed reason intent s)
    unfolding record_execution_approval
    record_execution_grants now c allowed reason intent s =
        Returns-guard (λ t. t.execution_grants ≡ s.execution_grants)
          (require (leb (count reason) 1000) _) _ refl

    record_auto-IsSpent :
        (now : ℕ) (id : String) (c : InvocationContext) (source : AuthoritySource) (s : Store)
        → IsSpent token s.execution_grants
        → Returns
            (λ p. IsSpent token p.1.execution_grants)
            (record_auto_execution sha256 now id c source s)
    unfolding record_auto_execution
    record_auto-IsSpent now id c source s v =
        Returns-guard (λ p. IsSpent token p.1.execution_grants) (require (may_record source) _) _
          (Returns-bind (λ t. IsSpent token t.execution_grants)
            (λ p. IsSpent token p.1.execution_grants)
            (insert_grant (auto_grant sha256 now id c source) s) (λ s'. ok (id, s'))
            (insert_grant-IsSpent (auto_grant sha256 now id c source) s v) (λ t w. w))

    after-IsSpent :
        (call : Call) (s : Store)
        → IsSpent token s.execution_grants
        → IsSpent token (after sha256 call s).execution_grants
    unfolding after set_emergency_stop add_tool_exception remove_tool_exception
        set_capability_override remove_capability_override consume_execution_grant consume_once
    after-IsSpent (record_pending now request intent tool capability requested allowed rec reason) s
          v =
        state_or-IsSpent s _ v
          (record_pending_grants now request intent tool capability requested allowed rec reason s)
    after-IsSpent (record_execution now c allowed reason intent) s v =
        state_or-IsSpent s _ v (record_execution_grants now c allowed reason intent s)
    after-IsSpent (stop enabled) s v = v
    after-IsSpent (add_exception now tool) s v = state_or-IsSpent s _ v (
        Returns-guard (λ t. t.execution_grants ≡ s.execution_grants) (validate_identifier tool 300)
          _ refl)
    after-IsSpent (drop_exception tool) s v = v
    after-IsSpent (override now capability category) s v = state_or-IsSpent s _ v (
        Returns-guard (λ t. t.execution_grants ≡ s.execution_grants)
          (validate_identifier capability 160) _ refl)
    after-IsSpent (drop_override capability) s v = v
    after-IsSpent (grant now id request tool ttl) s v =
        pair_state_or-IsSpent s _ v (grant_once-IsSpent now id request tool ttl s v)
    after-IsSpent (consume now c) s v = spend_found-IsSpent now _ s v
    after-IsSpent (record_auto now id c source) s v =
        pair_state_or-IsSpent s _ v (record_auto-IsSpent now id c source s v)
    after-IsSpent (consume_legacy now request tool) s v = v

    run-IsSpent :
        (calls : List Call) (s : Store)
        → IsSpent token s.execution_grants
        → IsSpent token (run sha256 calls s).execution_grants
    unfolding run
    run-IsSpent [] s v = v
    run-IsSpent (call ∷ calls) s v =
        run-IsSpent calls (after sha256 call s) (after-IsSpent call s v)

  IsSpent-by :
      (now : ℕ) (id : String) (s : Store)
      → (spend now id s).0 ≡ some token
      → IsSpent token (spend now id s).1.execution_grants
  unfolding spend
  IsSpent-by now id s h = elim (Bool-cases (any_of (is_live id) s.execution_grants)) [
    | inr e ↦ absurd (ground (arith, h, keep_none (is_live id) s.execution_grants e))
    | inl e ↦
        subst (λ t. IsSpent t (spend now id s).1.execution_grants) (spend_token now id token s h)
          (
            any_of-update_where (λ g. g.grant_id == id) (is_live id) _ s.execution_grants
                  (λ g. refl)
                ∙ any_of-imp (is_live id) (λ g. g.grant_id == id) s.execution_grants
                    (λ g l. ground arith) e,
            any_of-update_where_self (is_live id) _ s.execution_grants (λ g. ground arith),
          )
  ]

-- The token that a call returned is returned by no later call, whatever calls stand between.
pub consume_execution_grant_once :
    (sha256 : String → String) (now later : ℕ) (c d : InvocationContext) (token : String)
    (calls : List Call) (s : Store)
    → (consume_execution_grant now c s).0 ≡ some token
    → (consume_execution_grant later d (run sha256 calls (consume_execution_grant now c s).1)).0
      ≢ some token
unfolding consume_execution_grant spend_found
consume_execution_grant_once sha256 now later c d token calls s h =
    spend_found_other token later _ _
      (run-IsSpent token sha256 calls _ (first_spent (oldest_match now c s.execution_grants) h))
  where
    first_spent :
        (o : Option Grant)
        → (spend_found now o s).0 ≡ some token
        → IsSpent token (spend_found now o s).1.execution_grants
    first_spent none e = cc
    first_spent (some g) e = IsSpent-by token now g.grant_id s e
