-- ===== src/Gateway/Proxy/Request.antt =====
-- mcp_proxy.py: what `permit` reads of a request, before the store is asked for a grant.
use Prim.Native.Char.{code}
use Prim.Native.String.{count}
use hermes_sdlc_agents.Prelude.{
  ℕ, String, Bool, true, false, not, ◌&&◌, ◌||◌, Option, none, some, List, [], ◌∷◌, ◌==◌, ltb,
  if◌then◌else◌, or_else, any_of, Result, ok, raise, require, ◌>>=◌, ◌>>◌, strip, has_control,
  concat,
}
use hermes_sdlc_agents.Prelude.Json.{Json, Fields, obj, arr, str, end, get, items}
use hermes_sdlc_agents.Gateway.Authority.{InvocationContext}
use hermes_sdlc_agents.Gateway.Builder.{builder_invocation_context}
use hermes_sdlc_agents.Gateway.Store.{GovernanceSnapshot}
use hermes_sdlc_agents.Gateway.Proxy.{ProxyError, blocked, type_error, Proxy, Headers, Body}

unfoldable pub read_header : String → ℕ → Option String → Result ProxyError (Option String)
read_header message limit none = ok none
read_header message limit (some value) = do
  require (not (strip value == "" || ltb limit (count value)))
      (blocked "invalid_request" message [])
  require (not (has_control value)) (blocked "invalid_request" message [])
  ok (some (strip value))

unfoldable pub bounded_header : Headers → String → ℕ → Result ProxyError (Option String)
unfolding read_header
bounded_header headers name limit =
    read_header (concat ("invalid " ∷ name ∷ " header" ∷ [])) limit (headers name)

unfoldable pub is_ascii : String → Bool
is_ascii String.[] = true
is_ascii (String.◌∷◌ c s) = ltb (code c) 128 && is_ascii s

-- `hmac.compare_digest` of two texts raises `TypeError` unless both are ASCII.
unfoldable pub compare_digest : String → String → Result ProxyError Bool
unfolding is_ascii
compare_digest a b = do require (is_ascii a && is_ascii b) type_error; ok (a == b)

abbrev pub is_builder : Option String → Bool
is_builder none = false
is_builder (some role) = role == "builder" || role == "hermes-builder"

unfoldable pub authenticate : Proxy → Headers → Result ProxyError (Unit {0})
unfolding bounded_header compare_digest
authenticate proxy headers = do
  role ← bounded_header headers "X-Hermes-Role" 100
  require (is_builder role)
      (blocked "unauthorized_agent" "only hermes-builder is enabled in this canary" [])
  same ←
      compare_digest (or_else (headers "Authorization") "")
        (concat ("Bearer " ∷ proxy.builder_key ∷ []))
  require same (blocked "unauthorized_agent" "invalid gateway agent credential" [])

abbrev pub is_call : Option Json → Bool
is_call (some (str s)) = s == "tools/call"
is_call _ = false

-- An item of a batch that calls a tool.
unfoldable pub is_tool_call : Json → Bool
is_tool_call (obj f) = is_call (get f "method")
is_tool_call _ = false

unfoldable pub rpc_of : Option Json → Result ProxyError (Option Fields)
unfolding is_tool_call items
rpc_of none = raise (blocked "invalid_jsonrpc" "request body is not valid JSON" [])
rpc_of (some (obj f)) = ok (some f)
rpc_of (some (arr vs)) =
    if any_of is_tool_call (items vs)
    then raise (blocked "batch_tool_calls_not_supported" "batch tools/call is disabled" [])
    else ok none
rpc_of (some _) = raise (blocked "invalid_jsonrpc" "JSON-RPC request must be an object" [])

module _ (loads : List ℕ → Option Json) where
  unfoldable pub parse_rpc : Body → Result ProxyError (Option Fields)
  unfolding rpc_of
  parse_rpc none = ok none
  parse_rpc (some []) = ok none
  parse_rpc (some (b ∷ bs)) = rpc_of (loads (b ∷ bs))

  abbrev pub id_of : Result ProxyError (Option Fields) → Option Json
  id_of (ok (some f)) = get f "id"
  id_of _ = none

  unfoldable pub rpc_request_id : Body → Option Json
  unfolding parse_rpc
  rpc_request_id body = id_of (parse_rpc body)

abbrev pub object_or : String → Option Json → Result ProxyError Fields
object_or message (some (obj f)) = ok f
object_or message _ = raise (blocked "invalid_tool_call" message [])

-- A missing `arguments` is `{}`.
abbrev pub arguments_of : Option Json → Result ProxyError Fields
arguments_of none = ok end
arguments_of (some v) = object_or "tools/call arguments must be an object" (some v)

abbrev pub tool_name_of : Option Json → Result ProxyError String
tool_name_of (some (str s)) =
    if s == "" then raise (blocked "invalid_tool_call" "tools/call name is required" []) else ok s
tool_name_of _ = raise (blocked "invalid_tool_call" "tools/call name is required" [])

-- `params.get("name")` is tested before `arguments`.
unfoldable pub tool_call : Fields → Result ProxyError (String × Fields)
tool_call rpc = do
  params ← object_or "tools/call params must be an object" (get rpc "params")
  name ← tool_name_of (get params "name")
  arguments ← arguments_of (get params "arguments")
  ok (name, arguments)

abbrev pub or_session : Headers → Option String → Result ProxyError String
or_session headers (some run_id) = ok run_id
or_session headers none = do
  session ← bounded_header headers "Mcp-Session-Id" 200
  ok (or_else session "sessionless")

unfoldable pub run_id_of : Headers → Result ProxyError String
unfolding bounded_header
run_id_of headers = do
  run_id ← bounded_header headers "X-HermeTeam-Run-Id" 200
  or_session headers run_id

-- An `AuthorityDenied` is raised again as blocked.
abbrev pub or_denied :
    String → Result String InvocationContext → Result ProxyError InvocationContext
or_denied tool (ok c) = ok c
or_denied tool (raise message) =
    raise
      (blocked "authority_denied" message (("tool_id", some (concat ("github:" ∷ tool ∷ []))) ∷ []))

-- The tests that come before the store is asked for a grant: `none` is a request that calls no tool.
module _ (sha256 : String → String) (dumps : Json → String) (fnmatch : String → String → Bool)
    (loads : List ℕ → Option Json) where
  unfoldable pub call_context :
      Proxy → Headers → Fields → Result ProxyError (InvocationContext × Option String)
  unfolding tool_call run_id_of bounded_header
  call_context proxy headers rpc = do
    call ← tool_call rpc
    run_id ← run_id_of headers
    intent ← bounded_header headers "X-HermeTeam-Intent" 1000
    c ← or_denied (call.0) (
        builder_invocation_context sha256 dumps fnmatch "hermes-builder" run_id (call.0) (call.1)
          proxy.configured_repository proxy.default_branch proxy.protected_patterns)
    ok (c, intent)

  abbrev pub call_or_none :
      Proxy
      → Headers
      → Option Fields
      → Result ProxyError (Option (InvocationContext × Option String))
  call_or_none proxy headers none = ok none
  call_or_none proxy headers (some rpc) =
      if is_call (get rpc "method")
      then (call_context proxy headers rpc >>= λ call. ok (some call))
      else ok none

  unfoldable pub read_request :
      Proxy
      → Headers
      → Body
      → GovernanceSnapshot
      → Result ProxyError (Option (InvocationContext × Option String))
  unfolding authenticate parse_rpc call_context
  read_request proxy headers body snap = do
    authenticate proxy headers
    require (not snap.emergency_stop)
        (blocked "emergency_stop" "all capability execution is disabled" [])
    rpc ← parse_rpc loads body
    call_or_none proxy headers rpc
