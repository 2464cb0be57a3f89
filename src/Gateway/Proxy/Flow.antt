-- ===== src/Gateway/Proxy/Flow.antt =====
-- What a permit that is refused leaves, and which permits a human's grant gives.
use hermes_sdlc_agents.Prelude.{
  ◌⊎◌, not, ◌&&◌, ◌∙◌, Bool-cases, Bool, sym, ap, ◌≡◌, Returns, Result, Option, ℕ, List, String,
  none, some, ok, raise, true, false, inl, inr, refl,
}
use hermes_sdlc_agents.Prelude.Json.{Json}
use hermes_sdlc_agents.Gateway.Authority.{builder_discovery_permissions, InvocationContext}
use hermes_sdlc_agents.Gateway.Proxy.Safety.{permit-IsPermitted}
use hermes_sdlc_agents.Gateway.Proxy.Permit.{
  permit_read, discovered, source_of, approval_required, already_consumed, effective,
  requires_human, asked, permit_call, release, ask_approval, recorded, granted, Outcome, permit,
}
use hermes_sdlc_agents.Gateway.Proxy.{ExecutionPermit, Body, Headers, Moment, Proxy, ProxyError}
use hermes_sdlc_agents.Gateway.Store.{
  snapshot, has_execution_grant, GovernanceSnapshot, Grant, AuthoritySource, Store,
}
use hermes_sdlc_agents.Gateway.Store.Writes.{record_execution_approval, StoreError}
use hermes_sdlc_agents.Gateway.Store.Grants.{record_auto_execution, consume_execution_grant}
use hermes_sdlc_agents.Gateway.Store.Spending.{consume_execution_grant-none}
use hermes_sdlc_agents.Gateway.Store.OneShot.{record_execution_grants}
use hermes_sdlc_agents.Gateway.Store.Kept.{run-IsWellFormed}
use hermes_sdlc_agents.Gateway.Store.Calls.{run, IsWellFormed}

abbrev outcome_grants : Outcome → List Grant
outcome_grants r = r.1.execution_grants

granted-raise :
    (token : String) (now : ℕ) (c : InvocationContext) (gone : ProxyError) (s : Store)
    {e : ProxyError}
    → IsWellFormed s
    → (granted token c gone (consume_execution_grant now c s)).0 ≡ raise e
    → outcome_grants (granted token c gone (consume_execution_grant now c s)) ≡ s.execution_grants
granted-raise token now c gone s v h = found (consume_execution_grant now c s) refl h
  where
    found :
        (r : Option String × Store) {e : ProxyError}
        → consume_execution_grant now c s ≡ r
        → (granted token c gone r).0 ≡ raise e
        → outcome_grants (granted token c gone r) ≡ s.execution_grants
    found (none, t) same h =
        ap (λ (q : Store). q.execution_grants)
          (sym (ap (λ (x : Option String × Store). x.1) same)
            ∙ consume_execution_grant-none now c s v (ap (λ (x : Option String × Store). x.0) same))
    found (some id, t) same h = cc

recorded-raise :
    (token : String) (c : InvocationContext) (source : AuthoritySource) (s : Store)
    (r : Result StoreError (String × Store)) {e : ProxyError}
    → (recorded token c source s r).0 ≡ raise e
    → outcome_grants (recorded token c source s r) ≡ s.execution_grants
recorded-raise token c source s (raise x) h = refl
recorded-raise token c source s (ok (id, t)) h = cc

asked-grants :
    (e : ProxyError) (s : Store) (r : Result StoreError Store)
    → Returns (λ t. t.execution_grants ≡ s.execution_grants) r
    → outcome_grants (asked e s r) ≡ s.execution_grants
asked-grants e s (raise x) h = refl
asked-grants e s (ok t) h = h

module _ (sha256 : String → String) (mint : String → List (String × String) → Option String)
    (proxy : Proxy) (m : Moment) where
  -- The store when the permit's own statement runs: what other requests did before it is in it.
  abbrev pub others : Store → Store
  others s = run sha256 m.before_release (run sha256 m.before_check s)

  others-IsWellFormed : (s : Store) → IsWellFormed s → IsWellFormed (others s)
  others-IsWellFormed s v =
      run-IsWellFormed sha256 _ m.before_release (run-IsWellFormed sha256 s m.before_check v)

  module _ (c : InvocationContext) (snap : GovernanceSnapshot) (intent : Option String) where
    release-raise :
        (needs : Bool) (o : Option String) (t : Store) {e : ProxyError}
        → IsWellFormed t
        → (release sha256 mint m needs c snap o t).0 ≡ raise e
        → outcome_grants (release sha256 mint m needs c snap o t) ≡ t.execution_grants
    unfolding release
    release-raise needs none t v h = refl
    release-raise true (some token) t v h =
        granted-raise token m.released_at c (already_consumed sha256 mint c) t v h
    release-raise false (some token) t v h =
        recorded-raise token c (source_of c snap) t
          (record_auto_execution sha256 m.released_at m.token c (source_of c snap) t) h

    ask_approval-grants :
        (t : Store)
        → outcome_grants (ask_approval sha256 mint proxy m.released_at c snap intent t)
          ≡ t.execution_grants
    unfolding ask_approval
    ask_approval-grants t =
        asked-grants (approval_required sha256 mint proxy c (effective c snap)) t
          (record_execution_approval sha256 m.released_at c proxy.max_auto_category
            "actual invocation exceeds configured automatic risk ceiling" intent t)
          (record_execution_grants "" sha256 m.released_at c proxy.max_auto_category
            "actual invocation exceeds configured automatic risk ceiling" intent t)

    permit_call-raise :
        (s : Store) {e : ProxyError}
        → IsWellFormed s
        → (permit_call sha256 mint proxy m c snap intent s).0 ≡ raise e
        → outcome_grants (permit_call sha256 mint proxy m c snap intent s)
          ≡ (others s).execution_grants
    unfolding permit_call
    permit_call-raise s v h =
        let checked = run sha256 m.before_check s in
        elim (Bool-cases
          (requires_human proxy c snap && not (has_execution_grant m.checked_at c checked))) [
            | inl e ↦ rw (e) (ask_approval-grants (others s))
            | inr e ↦ rw (e) (
                release-raise (requires_human proxy c snap) (mint c.repository c.github_permissions)
                  (others s) (others-IsWellFormed s v) (rw e at h))
          ]

module _ (sha256 : String → String) (mint : String → List (String × String) → Option String)
    (dumps : Json → String) (fnmatch : String → String → Bool) (loads : List ℕ → Option Json)
    (proxy : Proxy) (m : Moment) (headers : Headers) (body : Body) where
  -- The grants are those of the store that `permit` got, or of the one that other requests made of it.
  abbrev pub IsUnspent : Store → Store → Type 0
  IsUnspent s t =
      (t.execution_grants ≡ s.execution_grants)
      ⊎ (t.execution_grants ≡ (others sha256 mint proxy m s).execution_grants)

  discovered-IsUnspent :
      (o : Option String) (s : Store) → IsUnspent s (discovered sha256 mint o s).1
  discovered-IsUnspent none s = inl refl
  discovered-IsUnspent (some token) s = inl refl

  permit_read-IsUnspent :
      (r : Result ProxyError (Option (InvocationContext × Option String)))
      (snap : GovernanceSnapshot) (s : Store) {e : ProxyError}
      → IsWellFormed s
      → (permit_read sha256 mint proxy m snap r s).0 ≡ raise e
      → IsUnspent s (permit_read sha256 mint proxy m snap r s).1
  unfolding permit_read
  permit_read-IsUnspent (raise x) snap s v h = inl refl
  permit_read-IsUnspent (ok none) snap s v h = discovered-IsUnspent _ s
  permit_read-IsUnspent (ok (some (c, intent))) snap s v h =
      inr (permit_call-raise sha256 mint proxy m c snap intent s v h)

  -- On a well-formed store, a `permit` that raises has spent no grant and recorded no execution:
  -- the grants are as it got them, or as the other requests left them.
  pub permit-IsUnspent :
      (s : Store) {e : ProxyError}
      → IsWellFormed s
      → (permit sha256 mint dumps fnmatch loads proxy m headers body s).0 ≡ raise e
      → IsUnspent s (permit sha256 mint dumps fnmatch loads proxy m headers body s).1
  unfolding permit
  permit-IsUnspent s v h = permit_read-IsUnspent _ (snapshot s) s v h

  -- On a well-formed store, with no token to be had, `permit` raises and spends no grant.
  pub permit-outage :
      (s : Store)
      → IsWellFormed s
      → ((repository : String) (permissions : List (String × String))
          → mint repository permissions ≡ none)
      → (e : ProxyError) × ((permit sha256 mint dumps fnmatch loads proxy m headers body s).0
          ≡ raise e)
        × IsUnspent s (permit sha256 mint dumps fnmatch loads proxy m headers body s).1
  permit-outage s v out =
      found (permit sha256 mint dumps fnmatch loads proxy m headers body s).0 refl
    where
      found :
          (r : Result ProxyError ExecutionPermit)
          → (permit sha256 mint dumps fnmatch loads proxy m headers body s).0 ≡ r
          → (e : ProxyError) × ((permit sha256 mint dumps fnmatch loads proxy m headers body s).0
              ≡ raise e)
            × IsUnspent s (permit sha256 mint dumps fnmatch loads proxy m headers body s).1
      found (raise e) h = (e, h, permit-IsUnspent s v h)
      found (ok p) h =
          let (_, _, source) =
            permit-IsPermitted sha256 mint dumps fnmatch loads proxy headers body m s v h in
          elim source [
            | inl d ↦
                absurd (cc (d.3, out proxy.configured_repository builder_discovery_permissions))
            | inr a ↦ absurd (cc (a.2.3, out a.0.repository a.0.github_permissions))
          ]
