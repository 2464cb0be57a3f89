-- ===== src/Gateway/Proxy/Safety.antt =====
-- What a permit stands for: who asked, and what allowed the call.
use hermes_sdlc_agents.Prelude.{
  ap, ℕ, String, Bool, true, false, not, Option, none, some, List, ◌≡◌, ◌⊎◌, inl, inr, refl,
  Bool-cases, ok, raise, Result, ◌>>=◌, >>=-eq-ok, require-eq-ok, ok-injective, arith, subst,
}
use hermes_sdlc_agents.Prelude.Json.{Json, Fields, get}
use hermes_sdlc_agents.Gateway.Proxy.Called.{
  IsBody, AreRead, IsCallOf, parse_rpc-AreRead, is_call-eq, object_or-eq, arguments_of-eq,
  tool_name_of-eq,
}
use hermes_sdlc_agents.Gateway.Proxy.Released.{
  IsBuilder, authenticate-IsBuilder, IsReleased, permit_call-IsReleased,
}
use hermes_sdlc_agents.Gateway.Authority.{builder_discovery_permissions, InvocationContext}
use hermes_sdlc_agents.Gateway.Proxy.Permit.{discovered, permit_read, permit}
use hermes_sdlc_agents.Gateway.Builder.{builder_invocation_context}
use hermes_sdlc_agents.Gateway.Builder.Laws.{IsAdmitted, builder_invocation_context-IsAdmitted}
use hermes_sdlc_agents.Gateway.Store.{Store, GovernanceSnapshot, snapshot}
use hermes_sdlc_agents.Gateway.Store.Calls.{IsWellFormed}
use hermes_sdlc_agents.Gateway.Proxy.{
  ProxyError, discovery, ExecutionPermit, Proxy, Headers, Body, Moment,
}
use hermes_sdlc_agents.Gateway.Proxy.Request.{
  bounded_header, object_or, arguments_of, tool_name_of, authenticate, parse_rpc, is_call,
  tool_call, run_id_of, call_context, call_or_none, read_request, or_denied,
}

tool_call-IsCallOf :
    (rpc : Fields) {call : String × Fields}
    → is_call (get rpc "method") ≡ true
    → tool_call rpc ≡ ok call
    → IsCallOf rpc (call.0) (call.1)
unfolding tool_call
tool_call-IsCallOf rpc called h =
    let (params, e, h) = >>=-eq-ok (object_or _ (get rpc "params")) _ h in
    let (name, f, h) = >>=-eq-ok (tool_name_of (get params "name")) _ h in
    let (args, g, h) = >>=-eq-ok (arguments_of (get params "arguments")) _ h in
    subst (λ (call : String × Fields). IsCallOf rpc (call.0) (call.1)) (ok-injective h)
      (is_call-eq _ called, params, object_or-eq _ _ e, tool_name_of-eq _ f, arguments_of-eq _ g)

module _ (sha256 : String → String) (mint : String → List (String × String) → Option String)
    (dumps : Json → String) (fnmatch : String → String → Bool) (loads : List ℕ → Option Json)
    (proxy : Proxy) (headers : Headers) (body : Body) where
  -- The context of a call is the one that the builder's rules admitted for the tool and the arguments
  -- of the request's body, in the run that the headers name.
  abbrev pub IsFromCall : InvocationContext → Type 0
  IsFromCall c =
      (rpc : Fields) × IsBody loads body rpc
      × (run_id tool : String) × (args : Fields) × IsCallOf rpc tool args
      × (run_id_of headers ≡ ok run_id)
      × IsAdmitted sha256 dumps fnmatch "hermes-builder" run_id tool args
          proxy.configured_repository proxy.default_branch proxy.protected_patterns c

  admitted-IsFromCall :
      (rpc : Fields) (run_id : String) (call : String × Fields) (given : Option String)
      (r : Result String InvocationContext)
      → IsBody loads body rpc
      → IsCallOf rpc (call.0) (call.1)
      → run_id_of headers ≡ ok run_id
      → builder_invocation_context sha256 dumps fnmatch "hermes-builder" run_id
          (call.0)
          (call.1)
          proxy.configured_repository
          proxy.default_branch
          proxy.protected_patterns
        ≡ r
      → {c : InvocationContext} {intent : Option String}
      → ◌>>=◌ {B = InvocationContext × Option String} (or_denied (call.0) r) (λ d. ok (d, given))
        ≡ ok (c, intent)
      → IsFromCall c
  admitted-IsFromCall rpc run_id call given (raise message) b i n e h = cc
  admitted-IsFromCall rpc run_id call given (ok d) b i n e h =
      subst IsFromCall (ap (λ x. x.0) (ok-injective h)) (
        rpc,
        b,
        run_id,
        call.0,
        call.1,
        i,
        n,
        builder_invocation_context-IsAdmitted sha256 dumps fnmatch "hermes-builder" run_id (call.0)
            (call.1) proxy.configured_repository proxy.default_branch proxy.protected_patterns d e,
      )

  call_context-IsFromCall :
      (rpc : Fields) {c : InvocationContext} {intent : Option String}
      → IsBody loads body rpc
      → is_call (get rpc "method") ≡ true
      → call_context sha256 dumps fnmatch loads proxy headers rpc ≡ ok (c, intent)
      → IsFromCall c
  unfolding call_context
  call_context-IsFromCall rpc b called h =
      let (call, i, h) = >>=-eq-ok (tool_call rpc) _ h in
      let (run_id, n, h) = >>=-eq-ok (run_id_of headers) _ h in
      let (given, _, h) = >>=-eq-ok (bounded_header headers "X-HermeTeam-Intent" 1000) _ h in
      admitted-IsFromCall rpc run_id call given _ b (tool_call-IsCallOf rpc called i) n refl h

  -- What reading a request has established when it returns.
  abbrev pub IsRead : GovernanceSnapshot → Option (InvocationContext × Option String) → Type 0
  IsRead snap none = IsBuilder proxy headers × (snap.emergency_stop ≡ false)
  IsRead snap (some (c, intent)) =
      IsBuilder proxy headers × (snap.emergency_stop ≡ false) × IsFromCall c

  call_or_none-IsRead :
      (snap : GovernanceSnapshot) (rpc : Option Fields)
      {r : Option (InvocationContext × Option String)}
      → AreRead loads body rpc
      → IsBuilder proxy headers
      → snap.emergency_stop ≡ false
      → call_or_none sha256 dumps fnmatch loads proxy headers rpc ≡ ok r
      → IsRead snap r
  call_or_none-IsRead snap none p b e h = subst (IsRead snap) (ok-injective h) (b, e)
  call_or_none-IsRead snap (some rpc) p b e h = elim (Bool-cases (is_call (get rpc "method"))) [
    | inr other ↦ subst (IsRead snap) (ok-injective (rw other at h)) (b, e)
    | inl call ↦
        let ((c, intent), read, h) =
          >>=-eq-ok (call_context sha256 dumps fnmatch loads proxy headers rpc) _ (rw call at h) in
        subst (IsRead snap) (ok-injective h) (b, e, call_context-IsFromCall rpc p call read)
  ]

  read_request-IsRead :
      (snap : GovernanceSnapshot) {r : Option (InvocationContext × Option String)}
      → read_request sha256 dumps fnmatch loads proxy headers body snap ≡ ok r
      → IsRead snap r
  unfolding read_request
  read_request-IsRead snap h =
      let (_, authentic, h) = >>=-eq-ok (authenticate proxy headers) _ h in
      let (running, h) = require-eq-ok (not snap.emergency_stop) _ _ h in
      let (rpc, parsed, h) = >>=-eq-ok (parse_rpc loads body) _ h in
      call_or_none-IsRead snap rpc (parse_rpc-AreRead loads body rpc parsed)
        (authenticate-IsBuilder proxy headers authentic) (ground arith) h

  module _ (m : Moment) (s : Store) where
    -- What a permit stands for. Without a context it only lists tools; with one, the context is that
    -- of the call in the request's body, and it was released on a human's grant or needs none.
    abbrev pub IsPermitted : ExecutionPermit → Type 0
    IsPermitted p =
        IsBuilder proxy headers
        × (s.emergency_stop ≡ false)
        × (((p.authority_source ≡ discovery)
              × (p.context ≡ none)
              × (p.grant_id ≡ none)
              × (mint proxy.configured_repository builder_discovery_permissions
                  ≡ some p.provider_token))
            ⊎ ((c : InvocationContext) × IsFromCall c
                × IsReleased sha256 mint proxy m (snapshot s) s c p))

    discovered-IsPermitted :
        (o : Option String) {p : ExecutionPermit}
        → mint proxy.configured_repository builder_discovery_permissions ≡ o
        → IsRead (snapshot s) none
        → (discovered sha256 mint o s).0 ≡ ok p
        → IsPermitted p
    unfolding snapshot
    discovered-IsPermitted none e r h = cc
    discovered-IsPermitted (some token) e r h =
        subst IsPermitted (ok-injective h) (r.0, r.1, inl (refl, refl, refl, e))

    permit_read-IsPermitted :
        (r : Result ProxyError (Option (InvocationContext × Option String))) {p : ExecutionPermit}
        → read_request sha256 dumps fnmatch loads proxy headers body (snapshot s) ≡ r
        → IsWellFormed s
        → (permit_read sha256 mint proxy m (snapshot s) r s).0 ≡ ok p
        → IsPermitted p
    unfolding permit_read snapshot
    permit_read-IsPermitted (raise e) q v h = cc
    permit_read-IsPermitted (ok none) q v h =
        discovered-IsPermitted _ refl (read_request-IsRead (snapshot s) q) h
    permit_read-IsPermitted (ok (some (c, intent))) q v h =
        let read = read_request-IsRead (snapshot s) q in
        (
          read.0,
          read.1,
          inr (c, read.2, permit_call-IsReleased sha256 mint proxy m (snapshot s) s c intent v h),
        )

    -- On a well-formed store, `permit` returns a permit only to a builder with the right key and only
    -- with the emergency stop off, whatever other requests do meanwhile. A permit with a context is
    -- for the tool and the arguments of the request's body, which the builder's rules admit, and carries a token minted with the call's repository
    -- and permissions; either it has the id of a live human grant with exactly this context, or the
    -- category in force is within the ceiling or the tool is excepted. A permit without a context
    -- carries a token with the discovery permissions and no grant.
    pub permit-IsPermitted :
        {p : ExecutionPermit}
        → IsWellFormed s
        → (permit sha256 mint dumps fnmatch loads proxy m headers body s).0 ≡ ok p
        → IsPermitted p
    unfolding permit
    permit-IsPermitted v h = permit_read-IsPermitted _ refl v h
