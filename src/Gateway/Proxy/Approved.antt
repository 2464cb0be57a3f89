-- ===== src/Gateway/Proxy/Approved.antt =====
-- From a request that needs a human, over the human's approval, to its permit.
use hermes_sdlc_agents.Prelude.{
  subst, ◌≤◌, ◌⊎◌, Memᴰ, All-mem, sym, inl, inr, ap, ◌+◌, leb, require, ◌<◌, some-injective, Bool,
  ◌∙◌, is_some, Option, List, ◌≡◌, ℕ, String, none, some, ok, raise, true, false, refl, [],
  Returns-guard, Returns,
}
use hermes_sdlc_agents.Prelude.Json.{Json}
use hermes_sdlc_agents.Gateway.Proxy.Rules.{
  AreKnown, grant_once-AreKnown, IsSameRules, grant_once-IsSameRules, Returns-ok,
}
use hermes_sdlc_agents.Gateway.Store.Grants.{consume_execution_grant, clamp_ttl, grant_once}
use hermes_sdlc_agents.Gateway.Proxy.Permit.{
  Outcome, permit_read, granted, already_consumed, effective, approval_required, requires_human,
  ask_approval, release, permit_call, permit,
}
use hermes_sdlc_agents.Gateway.Store.Approval.{grant_once-has_execution_grant}
use hermes_sdlc_agents.Gateway.Store.Kept.Operations.{grant_once-keeps, record_execution-keeps}
use hermes_sdlc_agents.Gateway.Proxy.{
  count, Body, Headers, ProxyError, ExecutionPermit, Proxy, Moment, authority,
}
use hermes_sdlc_agents.Gateway.Authority.{context_request_id, InvocationContext}
use hermes_sdlc_agents.Gateway.Models.{RiskCategory}
use hermes_sdlc_agents.Gateway.Proxy.Request.{read_request}
use hermes_sdlc_agents.Gateway.Store.{
  snapshot, has_execution_grant, GovernanceSnapshot, Store, human,
}
use hermes_sdlc_agents.Gateway.Store.Spending.{
  consume_execution_grant_sound, earlier-has, consume_execution_grant_complete,
}
use hermes_sdlc_agents.Gateway.Store.Calls.{IsWellFormed, run}
use hermes_sdlc_agents.Gateway.Store.Writes.{record_execution_approval}

some_of : (o : Option String) → is_some o ≡ true → (id : String) × (o ≡ some id)
some_of none e = cc
some_of (some id) e = (id, refl)

-- A request at which no other request comes in between.
abbrev pub quiet : ℕ → ℕ → String → Moment
quiet checked_at released_at token = record {
  checked_at = checked_at;
  released_at = released_at;
  token = token;
  before_check = [];
  before_release = [];
}

module _ (sha256 : String → String) (mint : String → List (String × String) → Option String)
    (proxy : Proxy) (c : InvocationContext) (intent : Option String) where
  abbrev pub reason : String
  reason = "actual invocation exceeds configured automatic risk ceiling"

  abbrev pub human_permit : String → String → ExecutionPermit
  human_permit provider id = record {
    provider_token = provider;
    grant_id = some id;
    authority_source = authority human;
    context = some c;
  }

  granted_human :
      (provider id : String) (gone : ProxyError) (r : Option String × Store)
      → r.0 ≡ some id
      → (granted provider c gone r).0 ≡ ok (human_permit provider id)
  granted_human provider id gone (none, t) h = cc
  granted_human provider id gone (some j, t) h = rw (some-injective _ _ h) refl

  permit_call_asks :
      (checked_at released_at : ℕ) (token : String) (snap : GovernanceSnapshot) (s : Store)
      → requires_human proxy c snap ≡ true
      → has_execution_grant checked_at c s ≡ false
      → let out =
          permit_call sha256 mint proxy (quiet checked_at released_at token) c snap intent s in
        (out.0 ≡ raise (approval_required sha256 mint proxy c (effective c snap)))
        × (record_execution_approval sha256 released_at c proxy.max_auto_category reason intent s
            ≡ ok out.1)
  unfolding permit_call ask_approval run record_execution_approval
  permit_call_asks checked_at released_at token snap s needs fresh = rw (needs, fresh) (refl, refl)

  permit_call_permits :
      (checked_at released_at : ℕ) (token provider : String) (snap : GovernanceSnapshot) (s : Store)
      → IsWellFormed s
      → requires_human proxy c snap ≡ true
      → has_execution_grant checked_at c s ≡ true
      → has_execution_grant released_at c s ≡ true
      → mint c.repository c.github_permissions ≡ some provider
      → (id : String) × ((consume_execution_grant released_at c s).0 ≡ some id)
        × ((permit_call sha256 mint proxy (quiet checked_at released_at token) c snap intent s).0
            ≡ ok (human_permit provider id))
  unfolding permit_call release run
  permit_call_permits checked_at released_at token provider snap s v needs has has' minted =
      let (id, given) =
        some_of (consume_execution_grant released_at c s).0
          (consume_execution_grant_complete released_at c s v ∙ has') in
      (
        id,
        given,
        rw (needs, has, minted)
            (granted_human provider id (already_consumed sha256 mint c) _ given),
      )

read_request_rules :
    (sha256 : String → String) (dumps : Json → String) (fnmatch : String → String → Bool)
    (loads : List ℕ → Option Json) (proxy : Proxy) (headers : Headers) (body : Body) (s t : Store)
    → IsSameRules s t
    → read_request sha256 dumps fnmatch loads proxy headers body (snapshot t)
      ≡ read_request sha256 dumps fnmatch loads proxy headers body (snapshot s)
unfolding read_request snapshot
read_request_rules sha256 dumps fnmatch loads proxy headers body s t same = rw (same.0) refl

requires_human_rules :
    (proxy : Proxy) (c : InvocationContext) (s t : Store)
    → IsSameRules s t
    → requires_human proxy c (snapshot t) ≡ requires_human proxy c (snapshot s)
unfolding requires_human effective snapshot
requires_human_rules proxy c s t same = rw (same.1, same.2) refl

module _ (sha256 : String → String) (mint : String → List (String × String) → Option String)
    (dumps : Json → String) (fnmatch : String → String → Bool) (loads : List ℕ → Option Json)
    (proxy : Proxy) (headers : Headers) (body : Body) where
  permit_by :
      (m : Moment) (c : InvocationContext) (intent : Option String) (s : Store)
      → read_request sha256 dumps fnmatch loads proxy headers body (snapshot s)
        ≡ ok (some (c, intent))
      → permit sha256 mint dumps fnmatch loads proxy m headers body s
        ≡ permit_call sha256 mint proxy m c (snapshot s) intent s
  unfolding permit permit_read
  permit_by m c intent s read = rw (read) refl

  record_execution-IsSameRules :
      (now : ℕ) (c : InvocationContext) (allowed : RiskCategory) (why : String)
      (intent : Option String) (s : Store)
      → Returns (IsSameRules s) (record_execution_approval sha256 now c allowed why intent s)
  unfolding record_execution_approval
  record_execution-IsSameRules now c allowed why intent s =
      Returns-guard (IsSameRules s) (require (leb (count why) 1000) _) _ (refl, refl, refl)

  record_execution-grants :
      (now : ℕ) (c : InvocationContext) (allowed : RiskCategory) (why : String)
      (intent : Option String) (s : Store)
      → Returns
          (λ t. t.execution_grants ≡ s.execution_grants)
          (record_execution_approval sha256 now c allowed why intent s)
  unfolding record_execution_approval
  record_execution-grants now c allowed why intent s =
      Returns-guard (λ (t : Store). t.execution_grants ≡ s.execution_grants)
        (require (leb (count why) 1000) _) _ refl

  -- Where no old grant would do, what is spent is the new one.
  spent_given :
      (c : InvocationContext) (asked_at released_at : ℕ) (given id : String) (s s1 s' : Store)
      → IsWellFormed s'
      → asked_at ≤ released_at
      → has_execution_grant asked_at c s ≡ false
      → s1.execution_grants ≡ s.execution_grants
      → AreKnown s1 (some given) s'
      → (consume_execution_grant released_at c s').0 ≡ some id
      → id ≡ given
  spent_given c asked_at released_at given id s s1 s' v soon fresh kept known spent =
      let (g, m, live, same, _) = consume_execution_grant_sound released_at c s' id v spent in
      elim (All-mem (λ g. Memᴰ g s1.execution_grants ⊎ (some given ≡ some g.grant_id))
        s'.execution_grants known m) [
          | inl old ↦ absurd (
              cc (
                fresh,
                earlier-has asked_at released_at c s g soon (subst (λ gs. Memᴰ g gs) kept old) live,
              ))
          | inr new ↦ sym same ∙ sym (some-injective _ _ new)
        ]

  -- On a well-formed store, a call that is admitted, needs a human and has no grant is refused with
  -- the code and the data of an approval that is required. When a human then grants that request, the
  -- same request, until the grant expires and with a token to be had, gets a permit with the id that
  -- the grant returned, if no other request comes in between.
  pub permit_approved :
      (c : InvocationContext) (intent : Option String) (s s' : Store)
      (token given provider : String) (asked_at granted_at checked_at released_at ttl : ℕ)
      (token' token'' : String)
      → IsWellFormed s
      → read_request sha256 dumps fnmatch loads proxy headers body (snapshot s)
        ≡ ok (some (c, intent))
      → requires_human proxy c (snapshot s) ≡ true
      → has_execution_grant asked_at c s ≡ false
      → grant_once granted_at token
          (context_request_id sha256 c)
          c.tool_id
          ttl
          (permit sha256 mint dumps fnmatch loads proxy
            (quiet asked_at asked_at token')
            headers
            body
            s).1
        ≡ ok (some given, s')
      → mint c.repository c.github_permissions ≡ some provider
      → checked_at < granted_at + clamp_ttl ttl
      → released_at < granted_at + clamp_ttl ttl
      → asked_at ≤ released_at
      → ((permit sha256 mint dumps fnmatch loads proxy
            (quiet asked_at asked_at token')
            headers
            body
            s).0
          ≡ raise (approval_required sha256 mint proxy c (effective c (snapshot s))))
        × ((permit sha256 mint dumps fnmatch loads proxy
              (quiet checked_at released_at token'')
              headers
              body
              s').0
            ≡ ok (human_permit sha256 mint proxy c intent provider given))
  permit_approved c intent s s' token given provider asked_at granted_at checked_at released_at ttl
        token' token'' v read needs fresh approve minted soon soon' order =
      let first = permit_by (quiet asked_at asked_at token') c intent s read in
      let s1 =
        (permit_call sha256 mint proxy (quiet asked_at asked_at token') c (snapshot s) intent
          s).1 in
      let (raised, recorded) =
        permit_call_asks sha256 mint proxy c intent asked_at asked_at token' (snapshot s) s needs
          fresh in
      let approve = rw first at approve in
      let rules' =
        Returns-ok (IsSameRules s) (record_execution-IsSameRules _ c _ _ intent s) recorded in
      let rules'' =
        Returns-ok (λ (p : Option String × Store). IsSameRules s1 (p.1))
          (grant_once-IsSameRules granted_at token (context_request_id sha256 c) c.tool_id ttl _)
          approve in
      let rules : IsSameRules s s' =
        (rules''.0 ∙ rules'.0, rules''.1 ∙ rules'.1, rules''.2 ∙ rules'.2) in
      let v' = Returns-ok IsWellFormed (record_execution-keeps v sha256 _ c _ _ intent) recorded in
      let v'' =
        Returns-ok (λ (p : Option String × Store). IsWellFormed (p.1))
          (grant_once-keeps v' granted_at token (context_request_id sha256 c) c.tool_id ttl)
          approve in
      let has : (at : ℕ) → at < granted_at + clamp_ttl ttl → has_execution_grant at c s' ≡ true =
        λ at soon.
          grant_once-has_execution_grant sha256 c at granted_at ttl token soon asked_at
            proxy.max_auto_category (reason sha256 mint proxy c intent) intent given s _ s' recorded
            approve in
      let (id, spent, permitted) =
        permit_call_permits sha256 mint proxy c intent checked_at released_at token'' provider
          (snapshot s') s' v'' (requires_human_rules proxy c s s' rules ∙ needs)
          (has checked_at soon) (has released_at soon') minted in
      (
        ap (λ (x : Outcome). x.0) first ∙ raised,
        ap (λ (x : Outcome). x.0)
              (permit_by (quiet checked_at released_at token'') c intent s' (
                read_request_rules sha256 dumps fnmatch loads proxy headers body s s' rules ∙ read))
            ∙ permitted
            ∙ ap (λ id. ok (human_permit sha256 mint proxy c intent provider id))
                (spent_given c asked_at released_at given id s s1 s' v'' order fresh
                  (Returns-ok (λ (t : Store). t.execution_grants ≡ s.execution_grants)
                    (record_execution-grants _ c _ _ intent s) recorded)
                  (Returns-ok (λ (p : Option String × Store). AreKnown s1 (p.0) (p.1))
                    (grant_once-AreKnown granted_at token (context_request_id sha256 c) c.tool_id
                      ttl s1)
                    approve)
                  spent),
      )
