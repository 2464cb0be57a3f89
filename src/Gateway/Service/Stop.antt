-- ===== src/Gateway/Service/Stop.antt =====
-- The emergency stop, from the administrator's request to the requests of the agents.
use hermes_sdlc_agents.Prelude.{
  ℕ, String, Bool, true, Option, none, some, List, [], ok, raise, Result, refl, ◌≡◌,
}
use hermes_sdlc_agents.Prelude.Json.{Json, Fields, bool, get}
use hermes_sdlc_agents.Gateway.Proxy.Request.{authenticate, read_request}
use hermes_sdlc_agents.Gateway.Store.{snapshot, Store}
use hermes_sdlc_agents.Gateway.Core.{Floats}
use hermes_sdlc_agents.Gateway.Models.{RiskCategory, RankedTool, Resolution}
use hermes_sdlc_agents.Gateway.Resolver.{resolve}
use hermes_sdlc_agents.Gateway.Store.Calls.{Call}
use hermes_sdlc_agents.Gateway.Service.Resolve.{resolved, settle_approval, resolve_ranked}
use hermes_sdlc_agents.Gateway.Service.{is_admin, admin_post, post}
use hermes_sdlc_agents.Gateway.Store.Writes.{set_emergency_stop}
use hermes_sdlc_agents.Gateway.Proxy.Permit.{permit_read, permit}
use hermes_sdlc_agents.Gateway.Proxy.{ProxyError, Body, Headers, Moment, Proxy, blocked}

module _ (sha256 : String → String) (mint : String → List (String × String) → Option String)
    (dumps : Json → String) (fnmatch : String → String → Bool) (loads : List ℕ → Option Json)
    (proxy : Proxy) (m : Moment) (headers : Headers) (request : Body) where
  -- The request is refused, and the store is as it was.
  abbrev pub IsRefused : Store → Type 0
  IsRefused s =
      (e : ProxyError) × (permit sha256 mint dumps fnmatch loads proxy m headers request s
        ≡ (raise e, s))

  stopped-IsRefused : (s : Store) → s.emergency_stop ≡ true → IsRefused s
  unfolding permit read_request permit_read snapshot
  stopped-IsRefused s stopped = by_credential (authenticate proxy headers) refl
    where
      by_credential :
          (r : Result ProxyError (Unit {0})) → authenticate proxy headers ≡ r → IsRefused s
      by_credential (raise e) h = (e, rw (h) refl)
      by_credential (ok u) h =
          (blocked "emergency_stop" "all capability execution is disabled" [], rw (h, stopped) refl)

  module _ {F : Type 0} (fl : Floats F) (at : ℕ) (before_look before_consume : List Call)
      (ceiling : RiskCategory) (intent : String) (requested : Option String)
      (ranked : List (RankedTool F)) where
    -- The resolution shows and selects no tool and asks for no approval, and the store is as it was.
    abbrev pub IsEmpty : Store → Type 0
    IsEmpty s =
        (r : Resolution F) × (resolve_ranked fl sha256 at before_look before_consume ceiling intent
            requested ranked s
          ≡ (resolved r, s))
        × (r.selected ≡ none)
        × (r.visible_tools ≡ [])
        × (r.approval_required ≡ none)

    stopped-IsEmpty : (s : Store) → s.emergency_stop ≡ true → IsEmpty s
    unfolding resolve_ranked settle_approval resolve snapshot
    stopped-IsEmpty s stopped = rw (stopped) (_, refl, refl, refl, refl)

    -- After an administrator has turned the emergency stop on, every request of an agent to the tools
    -- is refused and every resolution of ranked tools shows and selects none and asks for no approval,
    -- whatever is asked for and whatever grants there are; both change nothing.
    pub post_stops :
        (admin_key given : String) (now : ℕ) (token : String) (ttl : ℕ) (body : Fields) (s : Store)
        → is_admin admin_key (some given) ≡ true
        → get body "enabled" ≡ some (bool true)
        → IsRefused
            (post admin_key now token ttl
              (some given)
              "/v1/governance/emergency-stop"
              (ok body)
              s).1
          × IsEmpty
              (post admin_key now token ttl
                (some given)
                "/v1/governance/emergency-stop"
                (ok body)
                s).1
    unfolding post admin_post set_emergency_stop
    post_stops admin_key given now token ttl body s admin enabled = (
      stopped-IsRefused _ (rw (admin, enabled) refl),
      stopped-IsEmpty _ (rw (admin, enabled) refl),
    )
