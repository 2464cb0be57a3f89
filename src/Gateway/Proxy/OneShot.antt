-- ===== src/Gateway/Proxy/OneShot.antt =====
-- A human's approval lets one request through.
use hermes_sdlc_agents.Prelude.{
  sym, ◌∙◌, not, ◌&&◌, ok-injective, Result, ℕ, ap, Bool, ◌≡◌, Bool-cases, ◌≢◌, Option, List,
  String, none, some, ok, raise, true, false, inl, inr, refl,
}
use hermes_sdlc_agents.Prelude.Json.{Json}
use hermes_sdlc_agents.Prelude.Table.{elem}
use hermes_sdlc_agents.Gateway.Store.Calls.{Call, run}
use hermes_sdlc_agents.Gateway.Proxy.Released.{ask_approval-raises, recorded-eq-ok, granted-eq-ok}
use hermes_sdlc_agents.Gateway.Store.OneShot.{consume_execution_grant_once}
use hermes_sdlc_agents.Gateway.Store.{
  snapshot, has_execution_grant, Store, GovernanceSnapshot, human,
}
use hermes_sdlc_agents.Gateway.Proxy.{
  Body, Headers, ExecutionPermit, Moment, Proxy, ProxyError, authority,
}
use hermes_sdlc_agents.Gateway.Proxy.Permit.{
  requires_human, discovered, permit_call, permit_read, already_consumed, is_override, Outcome,
  release, granted, source_of, permit,
}
use hermes_sdlc_agents.Gateway.Store.Grants.{record_auto_execution, consume_execution_grant}
use hermes_sdlc_agents.Gateway.Proxy.Flow.{others}
use hermes_sdlc_agents.Gateway.Authority.{InvocationContext}

granted_store :
    (token : String) (c : InvocationContext) (gone : ProxyError) (r : Option String × Store)
    → (granted token c gone r).1 ≡ r.1
granted_store token c gone (none, t) = refl
granted_store token c gone (some id, t) = refl

source_of_human : (c : InvocationContext) (snap : GovernanceSnapshot) → source_of c snap ≢ human
source_of_human c snap h = elim (Bool-cases (elem c.tool_id snap.tool_exceptions)) [
  | inl e ↦ cc (rw e at h)
  | inr e ↦ elim (Bool-cases (is_override c snap)) [
    | inl o ↦ cc (rw (e, o) at h)
    | inr o ↦ cc (rw (e, o) at h)
  ]
]

module _ (sha256 : String → String) (mint : String → List (String × String) → Option String)
    (proxy : Proxy) (m : Moment) where
  -- The permit's grant is what `consume_execution_grant` returned, and nothing was done after it.
  abbrev pub IsSpending : Store → Outcome → ExecutionPermit → Type 0
  IsSpending s out p =
      (c : InvocationContext) × (id : String) × (p.grant_id ≡ some id)
      × ((consume_execution_grant m.released_at c (others sha256 mint proxy m s)).0 ≡ some id)
      × (out.1 ≡ (consume_execution_grant m.released_at c (others sha256 mint proxy m s)).1)

  release-IsSpending :
      (needs : Bool) (c : InvocationContext) (snap : GovernanceSnapshot) (o : Option String)
      (s : Store) {p : ExecutionPermit}
      → p.authority_source ≡ authority human
      → (release sha256 mint m needs c snap o (others sha256 mint proxy m s)).0 ≡ ok p
      → IsSpending s (release sha256 mint m needs c snap o (others sha256 mint proxy m s)) p
  unfolding release
  release-IsSpending needs c snap none s a h = cc
  release-IsSpending true c snap (some token) s a h =
      let (id, given, same) = granted-eq-ok token c (already_consumed sha256 mint c) _ h in
      (
        c,
        id,
        ap (λ (p : ExecutionPermit). p.grant_id) same,
        given,
        granted_store token c (already_consumed sha256 mint c) _,
      )
  release-IsSpending false c snap (some token) s a h =
      let (id, same) =
        recorded-eq-ok token c (source_of c snap) _
          (record_auto_execution sha256 m.released_at m.token c (source_of c snap) _) h in
      absurd
        (source_of_human c snap (cc (a, ap (λ (q : ExecutionPermit). q.authority_source) same)))

  permit_call-IsSpending :
      (c : InvocationContext) (snap : GovernanceSnapshot) (intent : Option String) (s : Store)
      {p : ExecutionPermit}
      → p.authority_source ≡ authority human
      → (permit_call sha256 mint proxy m c snap intent s).0 ≡ ok p
      → IsSpending s (permit_call sha256 mint proxy m c snap intent s) p
  unfolding permit_call
  permit_call-IsSpending c snap intent s a h =
      let checked = run sha256 m.before_check s in
      elim (Bool-cases
        (requires_human proxy c snap && not (has_execution_grant m.checked_at c checked))) [
          | inl e ↦ absurd (
              ask_approval-raises sha256 mint proxy m snap s c intent
                (run sha256 m.before_release checked) (rw e at h))
          | inr e ↦ rw (e) (
              release-IsSpending (requires_human proxy c snap) c snap
                (mint c.repository c.github_permissions) s a (rw e at h))
        ]

  discovered_human :
      (o : Option String) (s : Store) {p : ExecutionPermit}
      → p.authority_source ≡ authority human
      → (discovered sha256 mint o s).0 ≢ ok p
  discovered_human none s a h = cc
  discovered_human (some token) s a h =
      cc (a, ap (λ (q : ExecutionPermit). q.authority_source) (ok-injective h))

  permit_read-IsSpending :
      (r : Result ProxyError (Option (InvocationContext × Option String)))
      (snap : GovernanceSnapshot) (s : Store) {p : ExecutionPermit}
      → p.authority_source ≡ authority human
      → (permit_read sha256 mint proxy m snap r s).0 ≡ ok p
      → IsSpending s (permit_read sha256 mint proxy m snap r s) p
  unfolding permit_read
  permit_read-IsSpending (raise e) snap s a h = cc
  permit_read-IsSpending (ok none) snap s a h = absurd (discovered_human _ s a h)
  permit_read-IsSpending (ok (some (c, intent))) snap s a h =
      permit_call-IsSpending c snap intent s a h

module _ (sha256 : String → String) (mint : String → List (String × String) → Option String)
    (dumps : Json → String) (fnmatch : String → String → Bool) (loads : List ℕ → Option Json)
    (proxy : Proxy) where
  -- Two permits that were released on a human's grant never have the same grant, whatever the two
  -- requests are, and also where they overlap: the second may take its snapshot and make its checks
  -- before the first is released, on any database, if only the database that it is released on is one
  -- that calls lead to from the one that the first left.
  pub permit_once :
      (m m' : Moment) (headers headers' : Headers) (body body' : Body) (calls : List Call)
      (s t : Store) (p q : ExecutionPermit)
      → (permit sha256 mint dumps fnmatch loads proxy m headers body s).0 ≡ ok p
      → (permit sha256 mint dumps fnmatch loads proxy m' headers' body' t).0 ≡ ok q
      → run sha256 m'.before_release (run sha256 m'.before_check t)
        ≡ run sha256 calls (permit sha256 mint dumps fnmatch loads proxy m headers body s).1
      → p.authority_source ≡ authority human
      → q.authority_source ≡ authority human
      → p.grant_id ≢ q.grant_id
  unfolding permit
  permit_once m m' headers headers' body body' calls s t p q h k later a b same =
      let (c, id, e, given, left) =
        permit_read-IsSpending sha256 mint proxy m _ (snapshot s) s a h in
      let (d, id', e', given', _) =
        permit_read-IsSpending sha256 mint proxy m' _ (snapshot t) t b k in
      consume_execution_grant_once sha256 m.released_at m'.released_at c d id calls
        (others sha256 mint proxy m s) given
        (ap (λ x. (consume_execution_grant m'.released_at d (run sha256 calls x)).0) (sym left)
          ∙ ap (λ x. (consume_execution_grant m'.released_at d x).0) (sym later)
          ∙ given'
          ∙ sym e'
          ∙ sym same
          ∙ e)
