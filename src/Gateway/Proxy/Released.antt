-- ===== src/Gateway/Proxy/Released.antt =====
-- What a permit for a call was released on: the rules alone, or a grant of a human.
use hermes_sdlc_agents.Prelude.{
  require-eq-tt, ◌∙◌, ◌≢◌, String, Bool, true, false, not, ◌&&◌, Option, none, some, List, ◌≡◌, ◌≤◌,
  ◌⊎◌, inl, inr, refl, sym, Memᴰ, Bool-cases, ok, raise, Result, >>=-eq-ok, require-eq-ok,
  ok-injective, or_else, concat, arith, eq_iff, subst, [], ◌∷◌,
}
use hermes_sdlc_agents.Prelude.Table.{elem}
use hermes_sdlc_agents.Gateway.Authority.{InvocationContext}
use hermes_sdlc_agents.Gateway.Models.{rank}
use hermes_sdlc_agents.Gateway.Proxy.Permit.{
  approval_required, already_consumed, effective, requires_human, source_of, granted, recorded,
  asked, ask_approval, release, permit_call,
}
use hermes_sdlc_agents.Gateway.Store.{
  Store, Grant, GovernanceSnapshot, AuthoritySource, human, has_execution_grant,
}
use hermes_sdlc_agents.Gateway.Store.Grants.{consume_execution_grant, record_auto_execution}
use hermes_sdlc_agents.Gateway.Store.Calls.{run, IsWellFormed}
use hermes_sdlc_agents.Gateway.Store.Kept.{run-IsWellFormed}
use hermes_sdlc_agents.Gateway.Store.Spending.{IsLiveFor, consume_execution_grant_sound}
use hermes_sdlc_agents.Gateway.Store.Writes.{StoreError, record_execution_approval}
use hermes_sdlc_agents.Gateway.Proxy.{
  ProxyError, authority, ExecutionPermit, Proxy, Headers, Moment,
}
use hermes_sdlc_agents.Gateway.Proxy.Request.{
  is_builder, bounded_header, compare_digest, is_ascii, authenticate,
}

-- The headers name a builder role and carry the builder's key.
abbrev pub IsBuilder : Proxy → Headers → Type 0
IsBuilder proxy headers =
    (role : Option String) × (bounded_header headers "X-Hermes-Role" 100 ≡ ok role)
    × (is_builder role ≡ true)
    × (or_else (headers "Authorization") "" ≡ concat ("Bearer " ∷ proxy.builder_key ∷ []))

pub authenticate-IsBuilder :
    (proxy : Proxy) (headers : Headers)
    → authenticate proxy headers ≡ ok tt
    → IsBuilder proxy headers
unfolding authenticate compare_digest
authenticate-IsBuilder proxy headers h =
    let supplied = or_else (headers "Authorization") "" in
    let expected = concat ("Bearer " ∷ proxy.builder_key ∷ []) in
    let (role, e, h) = >>=-eq-ok (bounded_header headers "X-Hermes-Role" 100) _ h in
    let (builder, h) = require-eq-ok (is_builder role) _ _ h in
    let (same, compared, h) = >>=-eq-ok (compare_digest supplied expected) _ h in
    let (ascii, compared) = require-eq-ok (is_ascii supplied && is_ascii expected) _ _ compared in
    (
      role,
      e,
      builder,
      (eq_iff supplied expected).0 (ok-injective compared ∙ require-eq-tt same _ h),
    )

pub granted-eq-ok :
    (token : String) (c : InvocationContext) (gone : ProxyError) (r : Option String × Store)
    {p : ExecutionPermit}
    → (granted token c gone r).0 ≡ ok p
    → (id : String) × (r.0 ≡ some id)
      × (p ≡ record {
        provider_token = token;
        grant_id = some id;
        authority_source = authority human;
        context = some c;
      })
granted-eq-ok token c gone (none, s) h = cc
granted-eq-ok token c gone (some id, s) h = (id, refl, sym (ok-injective h))

pub recorded-eq-ok :
    (token : String) (c : InvocationContext) (source : AuthoritySource) (s : Store)
    (r : Result StoreError (String × Store)) {p : ExecutionPermit}
    → (recorded token c source s r).0 ≡ ok p
    → (id : String) × (p ≡ record {
      provider_token = token;
      grant_id = some id;
      authority_source = authority source;
      context = some c;
    })
recorded-eq-ok token c source s (raise e) h = cc
recorded-eq-ok token c source s (ok (id, t)) h = (id, sym (ok-injective h))

pub asked-raises :
    (e : ProxyError) (s : Store) (r : Result StoreError Store) {p : ExecutionPermit}
    → (asked e s r).0 ≢ ok p
asked-raises e s (raise x) h = cc
asked-raises e s (ok t) h = cc

module _ (sha256 : String → String) (mint : String → List (String × String) → Option String)
    (proxy : Proxy) (m : Moment) (snap : GovernanceSnapshot) (s : Store) where
  -- A permit without a human: the snapshot has no ceiling above the call, or lists its tool.
  abbrev pub IsAutomatic : InvocationContext → Type 0
  IsAutomatic c =
      (rank (effective c snap) ≤ rank proxy.max_auto_category)
      ⊎ (elem c.tool_id snap.tool_exceptions ≡ true)

  -- A stored grant of a human has exactly this call and this id, unconsumed and unexpired.
  abbrev pub IsGranted : InvocationContext → String → Type 0
  IsGranted c id =
      (g : Grant) × Memᴰ g
        (run sha256 m.before_release (run sha256 m.before_check s)).execution_grants
      × IsLiveFor m.released_at c g
      × (g.grant_id ≡ id)
      × (g.authority_source ≡ human)

  -- What a permit for a call was released on.
  abbrev pub IsReleased : InvocationContext → ExecutionPermit → Type 0
  IsReleased c p =
      (id : String) × (p.grant_id ≡ some id)
      × (p.context ≡ some c)
      × (mint c.repository c.github_permissions ≡ some p.provider_token)
      × (((p.authority_source ≡ authority human) × IsGranted c id)
          ⊎ ((p.authority_source ≡ authority (source_of c snap)) × IsAutomatic c))

  automatic : (c : InvocationContext) → requires_human proxy c snap ≡ false → IsAutomatic c
  unfolding requires_human
  automatic c n = elim (Bool-cases (elem c.tool_id snap.tool_exceptions)) [
    | inl e ↦ inr e
    | inr e ↦ inl (ground (arith, n, e))
  ]

  release-IsReleased :
      (needs : Bool) (c : InvocationContext) (intent : Option String) (o : Option String)
      {p : ExecutionPermit}
      → IsWellFormed s
      → (mint c.repository c.github_permissions ≡ o)
      → requires_human proxy c snap ≡ needs
      → (release sha256 mint m needs c snap o
          (run sha256 m.before_release (run sha256 m.before_check s))).0
        ≡ ok p
      → IsReleased c p
  unfolding release
  release-IsReleased needs c intent none v minted n h = cc
  release-IsReleased true c intent (some token) v minted n h =
      let (id, given, same) =
        granted-eq-ok token c (already_consumed sha256 mint c)
          (consume_execution_grant m.released_at c _) h in
      subst (IsReleased c) (sym same) (
        id,
        refl,
        refl,
        minted,
        inl (
          refl,
          consume_execution_grant_sound m.released_at c _ id
              (run-IsWellFormed sha256 _ m.before_release
                (run-IsWellFormed sha256 s m.before_check v))
              given,
        ),
      )
  release-IsReleased false c intent (some token) v minted n h =
      let (id, same) =
        recorded-eq-ok token c (source_of c snap) _
          (record_auto_execution sha256 m.released_at m.token c (source_of c snap) _) h in
      subst (IsReleased c) (sym same) (id, refl, refl, minted, inr (refl, automatic c n))

  pub ask_approval-raises :
      (c : InvocationContext) (intent : Option String) (t : Store) {p : ExecutionPermit}
      → (ask_approval sha256 mint proxy m.released_at c snap intent t).0 ≢ ok p
  unfolding ask_approval
  ask_approval-raises c intent t h =
      asked-raises (approval_required sha256 mint proxy c (effective c snap)) t
        (record_execution_approval sha256 m.released_at c proxy.max_auto_category
          "actual invocation exceeds configured automatic risk ceiling" intent t)
        h

  pub permit_call-IsReleased :
      (c : InvocationContext) (intent : Option String) {p : ExecutionPermit}
      → IsWellFormed s
      → (permit_call sha256 mint proxy m c snap intent s).0 ≡ ok p
      → IsReleased c p
  unfolding permit_call
  permit_call-IsReleased c intent v h =
      let checked = run sha256 m.before_check s in
      elim (Bool-cases
        (requires_human proxy c snap && not (has_execution_grant m.checked_at c checked))) [
          | inl e ↦
              absurd
                (ask_approval-raises c intent (run sha256 m.before_release checked) (rw e at h))
          | inr e ↦
              release-IsReleased (requires_human proxy c snap) c intent
                (mint c.repository c.github_permissions) v refl refl (rw e at h)
        ]
