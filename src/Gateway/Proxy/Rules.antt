-- ===== src/Gateway/Proxy/Rules.antt =====
-- The writes of an approval leave alone what a request is judged by.
use hermes_sdlc_agents.Prelude.Rows.{All-append_one}
use hermes_sdlc_agents.Prelude.{
  ◌⊎◌, All, All-imp, All-self, Memᴰ, ◌==◌, any_of, subst, Option, Bool-cases, ◌≡◌, Result, ℕ,
  String, none, some, ok, inl, inr, refl, Returns-bind, Returns-guard, Returns,
}
use hermes_sdlc_agents.Gateway.Store.Grants.{
  human_grant, is_legacy_request, grant_execution, grant_legacy, grant_found, insert_grant,
  grant_once,
}
use hermes_sdlc_agents.Gateway.Store.{ExecutionApproval, Grant, Store}
use hermes_sdlc_agents.Gateway.Store.Writes.{validate_identifier}

-- What a request is judged by is the same in the two stores.
abbrev pub IsSameRules : Store → Store → Type 0
IsSameRules s t =
    (t.emergency_stop ≡ s.emergency_stop)
    × (t.tool_exceptions ≡ s.tool_exceptions)
    × (t.capability_overrides ≡ s.capability_overrides)

insert_grant-IsSameRules : (g : Grant) (s : Store) → Returns (IsSameRules s) (insert_grant g s)
unfolding insert_grant
insert_grant-IsSameRules g s =
    elim (Bool-cases (any_of (λ h. h.grant_id == g.grant_id) s.execution_grants)) [
      | inl e ↦ rw (e) tt
      | inr e ↦ rw (e) (refl, refl, refl)
    ]

grant_found-IsSameRules :
    (now : ℕ) (id request tool : String) (ttl : ℕ) (o : Option ExecutionApproval) (s : Store)
    → Returns (λ p. IsSameRules s p.1) (grant_found now id request tool ttl o s)
unfolding grant_found grant_legacy grant_execution
grant_found-IsSameRules now id request tool ttl none s =
    elim (Bool-cases (any_of (is_legacy_request request tool) s.pending_approvals)) [
      | inl e ↦ rw (e) (refl, refl, refl)
      | inr e ↦ rw (e) tt
    ]
grant_found-IsSameRules now id request tool ttl (some r) s =
    Returns-bind (IsSameRules s) (λ p. IsSameRules s p.1)
      (insert_grant (human_grant now id ttl r) s) _
      (insert_grant-IsSameRules (human_grant now id ttl r) s) (λ t w. w)

pub grant_once-IsSameRules :
    (now : ℕ) (id request tool : String) (ttl : ℕ) (s : Store)
    → Returns (λ p. IsSameRules s p.1) (grant_once now id request tool ttl s)
unfolding grant_once
grant_once-IsSameRules now id request tool ttl s =
    Returns-guard (λ p. IsSameRules s p.1) (validate_identifier request 100) _
      (Returns-guard (λ p. IsSameRules s p.1) (validate_identifier tool 300) _
        (grant_found-IsSameRules now id request tool ttl _ s))

-- Each grant of the second database is one of the first, or has the id that was returned.
abbrev pub AreKnown : Store → Option String → Store → Type 0
AreKnown s o t = All (λ g. Memᴰ g s.execution_grants ⊎ (o ≡ some g.grant_id)) t.execution_grants

same-AreKnown : (o : Option String) (s : Store) → AreKnown s o s
same-AreKnown o s = All-imp _ _ _ (λ g m. inl m) (All-self s.execution_grants)

insert_grant-AreKnown :
    (g : Grant) (s : Store) → Returns (AreKnown s (some g.grant_id)) (insert_grant g s)
unfolding insert_grant
insert_grant-AreKnown g s =
    elim (Bool-cases (any_of (λ h. h.grant_id == g.grant_id) s.execution_grants)) [
      | inl e ↦ rw (e) tt
      | inr e ↦ rw (e) (
          All-append_one (λ h. Memᴰ h s.execution_grants ⊎ (some g.grant_id ≡ some h.grant_id))
            s.execution_grants g (same-AreKnown (some g.grant_id) s) (inr refl))
    ]

grant_found-AreKnown :
    (now : ℕ) (id request tool : String) (ttl : ℕ) (o : Option ExecutionApproval) (s : Store)
    → Returns (λ p. AreKnown s p.0 p.1) (grant_found now id request tool ttl o s)
unfolding grant_found grant_legacy grant_execution
grant_found-AreKnown now id request tool ttl none s =
    elim (Bool-cases (any_of (is_legacy_request request tool) s.pending_approvals)) [
      | inl e ↦ rw (e) (same-AreKnown none s)
      | inr e ↦ rw (e) tt
    ]
grant_found-AreKnown now id request tool ttl (some r) s =
    Returns-bind (AreKnown s (some id)) (λ p. AreKnown s p.0 p.1)
      (insert_grant (human_grant now id ttl r) s) _
      (insert_grant-AreKnown (human_grant now id ttl r) s) (λ t w. w)

pub grant_once-AreKnown :
    (now : ℕ) (id request tool : String) (ttl : ℕ) (s : Store)
    → Returns (λ p. AreKnown s p.0 p.1) (grant_once now id request tool ttl s)
unfolding grant_once
grant_once-AreKnown now id request tool ttl s =
    Returns-guard (λ p. AreKnown s p.0 p.1) (validate_identifier request 100) _
      (Returns-guard (λ p. AreKnown s p.0 p.1) (validate_identifier tool 300) _
        (grant_found-AreKnown now id request tool ttl _ s))

pub Returns-ok {ℓ κ μ} :
    {E : Type μ} {A : Type ℓ} (P : A → Type κ) {r : Result E A} {a : A}
    → Returns P r
    → r ≡ ok a
    → P a
Returns-ok P {r} h e = subst (Returns P) e h
