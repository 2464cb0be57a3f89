-- ===== src/Gateway/Store/Approval.antt =====
-- From a recorded request over a human's grant to a call that may run.
use hermes_sdlc_agents.Prelude.{
  All-mem, or_else, find_first-eq-some, eq_refl, ok-injective, leb, require-eq-ok, subst, >>=-eq-ok,
  ◌==◌, Option, List, Bool, any_of, String, ℕ, ◌<◌, ◌+◌, ◌≡◌, refl, true, false, ok, none, some, [],
  ◌∷◌, All, inl, inr, Bool-cases, arith, ◌∙◌,
}
use hermes_sdlc_agents.Prelude.Rows.{any_of-append_one, All-append_one, upsert, update_where}
use hermes_sdlc_agents.Gateway.Store.Grants.{
  is_execution_request, is_legacy_request, human_grant, grant_legacy, grant_execution, grant_found,
  insert_grant, grant_once, clamp_ttl,
}
use hermes_sdlc_agents.Gateway.Store.{
  count, Store, Grant, ExecutionApproval, grant_matches, has_execution_grant,
}
use hermes_sdlc_agents.Gateway.Store.Writes.{
  execution_row, validate_identifier, record_execution_approval,
}
use hermes_sdlc_agents.Gateway.Models.{RiskCategory}
use hermes_sdlc_agents.Gateway.Authority.{InvocationContext, context_request_id}

module _ {ℓ κ} {A : Type ℓ} (P : A → Type κ) where
  update_where-makes :
      (p : A → Bool) (f : A → A) (xs : List A)
      → ((x : A) → P (f x))
      → ((x : A) → p x ≡ false → P x)
      → All P (update_where p f xs)
  unfolding update_where
  update_where-makes p f [] h k = tt
  update_where-makes p f (x ∷ xs) h k = elim (Bool-cases (p x)) [
    | inl hit ↦ rw (hit) (h x, update_where-makes p f xs h k)
    | inr miss ↦ rw (miss) (k x miss, update_where-makes p f xs h k)
  ]

  keeps_missing :
      (p : A → Bool) (xs : List A) → ((x : A) → p x ≡ false → P x) → any_of p xs ≡ false → All P xs
  unfolding any_of
  keeps_missing p [] k e = tt
  keeps_missing p (x ∷ xs) k e = (k x (ground arith), keeps_missing p xs k (ground arith))

  upsert-makes :
      (p : A → Bool) (f : A → A) (row : A) (xs : List A)
      → ((x : A) → P (f x))
      → P row
      → ((x : A) → p x ≡ false → P x)
      → All P (upsert p f row xs)
  unfolding upsert
  upsert-makes p f row xs h r k = elim (Bool-cases (any_of p xs)) [
    | inl e ↦ rw (e) (update_where-makes p f xs h k)
    | inr e ↦ rw (e) (All-append_one P xs row (keeps_missing p xs k e) r)
  ]

module _ (sha256 : String → String) (c : InvocationContext) (later granted_at ttl : ℕ)
    (token : String) (soon : later < granted_at + clamp_ttl ttl) where
  -- A row of the call's request gives a grant that the call matches.
  abbrev IsFor : ExecutionApproval → Type 0
  IsFor r =
      (r.request_id == context_request_id sha256 c) ≡ true
      → grant_matches later c (human_grant granted_at token ttl r) ≡ true

  row-matches :
      (now at : ℕ) (allowed : RiskCategory) (reason : String) (intent : Option String)
      → grant_matches later c (
          human_grant granted_at token ttl
            (record (execution_row sha256 now c allowed reason intent) { created_at = at }))
        ≡ true
  unfolding grant_matches
  row-matches now at allowed reason intent = ground (
    arith,
    soon,
    eq_refl c.agent_id,
    eq_refl c.run_id,
    eq_refl c.tool_id,
    eq_refl c.capability,
    eq_refl c.repository,
    eq_refl (or_else c.branch ""),
    eq_refl c.args_hash,
  )

  record-IsFor :
      (now : ℕ) (allowed : RiskCategory) (reason : String) (intent : Option String) (s s1 : Store)
      → record_execution_approval sha256 now c allowed reason intent s ≡ ok s1
      → All IsFor s1.pending_execution_approvals
  unfolding record_execution_approval
  record-IsFor now allowed reason intent s s1 h =
      let (_, e) = require-eq-ok (leb (count reason) 1000) _ _ h in
      subst (λ (t : Store). All IsFor t.pending_execution_approvals) (ok-injective e)
        (upsert-makes IsFor _ _ _ s.pending_execution_approvals
          (λ r same. row-matches now r.created_at allowed reason intent)
          (λ same. row-matches now now allowed reason intent) (λ r other same. cc (other, same)))

  insert_grant-has :
      (g : Grant) (s s' : Store)
      → insert_grant g s ≡ ok s'
      → grant_matches later c g ≡ true
      → any_of (grant_matches later c) s'.execution_grants ≡ true
  unfolding insert_grant
  insert_grant-has g s s' h m =
      elim (Bool-cases (any_of (λ h. h.grant_id == g.grant_id) s.execution_grants)) [
        | inl e ↦ cc (rw e at h)
        | inr e ↦
            subst (λ (t : Store). any_of (grant_matches later c) t.execution_grants ≡ true)
              (ok-injective (rw e at h))
              (any_of-append_one (grant_matches later c) s.execution_grants g ∙ ground (arith, m))
      ]

  grant_execution-has :
      (r : ExecutionApproval) (s s2 : Store) (out : Option String)
      → grant_matches later c (human_grant granted_at token ttl r) ≡ true
      → grant_execution granted_at token ttl r s ≡ ok (out, s2)
      → any_of (grant_matches later c) s2.execution_grants ≡ true
  unfolding grant_execution
  grant_execution-has r s s2 out m h =
      let (s', inserted, done) =
        >>=-eq-ok (insert_grant (human_grant granted_at token ttl r) s) _ h in
      subst
        (λ (p : Option String × Store). any_of (grant_matches later c) p.1.execution_grants ≡ true)
        (ok-injective done) (insert_grant-has (human_grant granted_at token ttl r) s s' inserted m)

  grant_found-has :
      (request tool given : String) (s s2 : Store)
      → (o : Option ExecutionApproval)
      → ((r : ExecutionApproval)
          → o ≡ some r
          → grant_matches later c (human_grant granted_at token ttl r) ≡ true)
      → grant_found granted_at token request tool ttl o s ≡ ok (some given, s2)
      → any_of (grant_matches later c) s2.execution_grants ≡ true
  unfolding grant_found grant_legacy
  grant_found-has request tool given s s2 none f h =
      elim (Bool-cases (any_of (is_legacy_request request tool) s.pending_approvals)) [
        | inl e ↦ cc (rw e at h)
        | inr e ↦ cc (rw e at h)
      ]
  grant_found-has request tool given s s2 (some r) f h =
      grant_execution-has r s s2 (some given) (f r refl) h

  -- After a call's request has been recorded and a human's grant for it has returned a token, the call
  -- may run until the grant expires.
  pub grant_once-has_execution_grant :
      (now : ℕ) (allowed : RiskCategory) (reason : String) (intent : Option String) (given : String)
      (s s1 s2 : Store)
      → record_execution_approval sha256 now c allowed reason intent s ≡ ok s1
      → grant_once granted_at token (context_request_id sha256 c) c.tool_id ttl s1
        ≡ ok (some given, s2)
      → has_execution_grant later c s2 ≡ true
  unfolding grant_once has_execution_grant
  grant_once-has_execution_grant now allowed reason intent given s s1 s2 recorded granted =
      let request = context_request_id sha256 c in
      let (_, _, h) = >>=-eq-ok (validate_identifier request 100) _ granted in
      let (_, _, h) = >>=-eq-ok (validate_identifier c.tool_id 300) _ h in
      grant_found-has request c.tool_id given s1 s2 _
        (λ r e.
          let (m, t) =
            find_first-eq-some (is_execution_request request c.tool_id)
              s1.pending_execution_approvals e in
          All-mem IsFor s1.pending_execution_approvals
            (record-IsFor now allowed reason intent s s1 recorded) m (ground (arith, t)))
        h
