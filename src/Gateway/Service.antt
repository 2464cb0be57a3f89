-- ===== src/Gateway/Service.antt =====
-- service.py: what the administrator's requests do to the store, and what a resolution does to it.
-- The answer of `_mcp` is in Proxy.Permit. A `ValueError` is its message.
pub mod Stop
pub mod Resolve
pub mod Once
pub mod Intent
mod Tests
use Prim.Native.Char.{code}
use Prim.Native.String.{count}
use hermes_sdlc_agents.Prelude.{
  ℕ, String, Bool, true, false, not, ◌&&◌, ◌||◌, Option, none, some, List, [], ◌∷◌, ◌==◌, ltb,
  nat_eq, if◌then◌else◌, Result, ok, raise, require, ◌>>=◌, ◌>>◌, strip, concat,
}
use hermes_sdlc_agents.Prelude.Json.{Json, Fields, null, bool, str, get}
use hermes_sdlc_agents.Gateway.Models.{RiskCategory, parse_category}
use hermes_sdlc_agents.Gateway.Store.Grants.{grant_once}
use hermes_sdlc_agents.Gateway.Store.Writes.{
  set_emergency_stop, add_tool_exception, set_capability_override, StoreError, value_error,
}
use hermes_sdlc_agents.Gateway.Store.{Store, GovernanceSnapshot, snapshot}
use Prim.Native.String

-- `any(ord(char) < 32 and char not in "\t\n\r" for char in value)`
unfoldable pub has_hidden : String → Bool
has_hidden String.[] = false
has_hidden (String.◌∷◌ c s) =
    (ltb (code c) 32 && not (nat_eq (code c) 9 || nat_eq (code c) 10 || nat_eq (code c) 13))
    || has_hidden s

unfoldable pub text : String → ℕ → Bool → Option Json → Result String String
unfolding has_hidden
text name limit allow_empty (some (str s)) = do
  require (not (ltb limit (count s) || (not allow_empty && strip s == "")))
      (concat (name ∷ " must be a bounded string" ∷ []))
  require (not (has_hidden s)) (concat (name ∷ " contains control characters" ∷ []))
  ok (strip s)
text name limit allow_empty _ = raise (concat (name ∷ " must be a bounded string" ∷ []))

-- What a request is answered. A reply with the state is `governance_state`, which is the snapshot with
-- two values of the configuration.
pub data Reply : Type 0 where
  state : GovernanceSnapshot → Reply
  error : (status : ℕ) (code : String) → Reply
  no_reply : Reply

abbrev pub replied : Store → Reply × Store
replied s = (state (snapshot s), s)

-- The handlers around `do_POST`: a `ValueError` is answered, an error of sqlite3 is not.
abbrev pub invalid_request : Store → Reply × Store
invalid_request s = (error 400 "invalid_request", s)

abbrev pub written : Store → Result StoreError Store → Reply × Store
written s (ok t) = replied t
written s (raise (value_error message)) = invalid_request s
written s (raise _) = (no_reply, s)

abbrev pub granted_once : Store → Result StoreError (Option String × Store) → Reply × Store
granted_once s (ok (id, t)) = replied t
granted_once s (raise (value_error message)) = invalid_request s
granted_once s (raise _) = (no_reply, s)

abbrev pub parsed {ℓ} : {A : Type ℓ} → Store → Result String A → (A → Reply × Store) → Reply × Store
parsed s (raise message) next = invalid_request s
parsed s (ok a) next = next a

abbrev pub stop_post : Option Json → Store → Reply × Store
stop_post (some (bool enabled)) s = replied (set_emergency_stop enabled s)
stop_post _ s = (error 400 "enabled_must_be_boolean", s)

unfoldable pub allow_once_post : ℕ → String → ℕ → Fields → Store → Reply × Store
unfolding text grant_once
allow_once_post now token ttl body s =
    parsed {A = String × String} s
      (do
        request_id ← text "request_id" 100 false (get body "request_id")
        tool_id ← text "tool_id" 300 false (get body "tool_id")
        ok (request_id, tool_id))
      (λ p. granted_once s (grant_once now token (p.0) (p.1) ttl s))

unfoldable pub tool_exception_post : ℕ → Fields → Store → Reply × Store
unfolding text add_tool_exception
tool_exception_post now body s =
    parsed s (text "tool_id" 300 false (get body "tool_id"))
      (λ tool_id. written s (add_tool_exception now tool_id s))

unfoldable pub capability_risk_post : ℕ → Fields → Store → Reply × Store
unfolding text set_capability_override parse_category
capability_risk_post now body s =
    parsed {A = String × RiskCategory} s
      (do
        capability ← text "capability" 160 false (get body "capability")
        category ← text "category" 20 false (get body "category")
        category ← parse_category category
        ok (capability, category))
      (λ p. written s (set_capability_override now (p.0) (p.1) s))

-- `do_POST` after the administrator's credential was accepted.
unfoldable pub admin_post : ℕ → String → ℕ → String → Fields → Store → Reply × Store
unfolding set_emergency_stop allow_once_post tool_exception_post capability_risk_post
admin_post now token ttl path body s =
    if path == "/v1/governance/emergency-stop"
    then stop_post (get body "enabled") s
    else if path == "/v1/governance/allow-once"
    then allow_once_post now token ttl body s
    else if path == "/v1/governance/tool-exception"
    then tool_exception_post now body s
    else if path == "/v1/governance/capability-risk"
    then capability_risk_post now body s
    else (error 404 "not_found", s)

-- `_admin`, for the header as it stands.
abbrev pub is_admin : String → Option String → Bool
is_admin admin_key none = false
is_admin admin_key (some given) = given == concat ("Bearer " ∷ admin_key ∷ [])

-- `do_POST` for the paths of the administrator: the body, read first, may be refused.
unfoldable pub post :
    String → ℕ → String → ℕ → Option String → String → Result String Fields → Store → Reply × Store
unfolding admin_post
post admin_key now token ttl authorization path body s = parsed s body (λ f.
    if is_admin admin_key authorization
    then admin_post now token ttl path f s
    else (error 401 "unauthorized", s))
