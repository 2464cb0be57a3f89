-- ===== src/Gateway/Proxy/Called.antt =====
-- The call that the body of a request asks for.
use hermes_sdlc_agents.Prelude.{
  ℕ, String, true, Option, none, some, List, [], ◌∷◌, ◌≡◌, ◌⊎◌, ◌==◌, inl, inr, refl, ap, sym,
  eq_iff, any_of, Bool-cases, ok, ok-injective,
}
use hermes_sdlc_agents.Prelude.Json.{
  Json, Fields, null, bool, number, str, arr, obj, end, get, items,
}
use hermes_sdlc_agents.Gateway.Proxy.{Body}
use hermes_sdlc_agents.Gateway.Proxy.Request.{
  is_call, is_tool_call, rpc_of, parse_rpc, object_or, arguments_of, tool_name_of,
}

-- The object of JSON-RPC calls this tool with these arguments, `{}` where it has none.
abbrev pub IsCallOf : Fields → String → Fields → Type 0
IsCallOf rpc tool args =
    (get rpc "method" ≡ some (str "tools/call"))
    × (params : Fields) × (get rpc "params" ≡ some (obj params))
    × (get params "name" ≡ some (str tool))
    × ((get params "arguments" ≡ some (obj args))
        ⊎ ((get params "arguments" ≡ none) × (args ≡ end)))

pub is_call-eq : (o : Option Json) → is_call o ≡ true → o ≡ some (str "tools/call")
is_call-eq (some (str s)) h = ap (λ t. some (str t)) ((eq_iff s "tools/call").0 h)
is_call-eq (some (obj f)) h = cc
is_call-eq (some null) h = cc
is_call-eq (some (bool b)) h = cc
is_call-eq (some (number n)) h = cc
is_call-eq (some (arr vs)) h = cc
is_call-eq none h = cc

pub object_or-eq :
    (message : String) (o : Option Json) {f : Fields}
    → object_or message o ≡ ok f
    → o ≡ some (obj f)
object_or-eq message (some (obj f)) h = ap (λ g. some (obj g)) (ok-injective h)
object_or-eq message (some null) h = cc
object_or-eq message (some (bool b)) h = cc
object_or-eq message (some (number n)) h = cc
object_or-eq message (some (str s)) h = cc
object_or-eq message (some (arr vs)) h = cc
object_or-eq message none h = cc

pub arguments_of-eq :
    (o : Option Json) {f : Fields}
    → arguments_of o ≡ ok f
    → (o ≡ some (obj f)) ⊎ ((o ≡ none) × (f ≡ end))
arguments_of-eq none h = inr (refl, sym (ok-injective h))
arguments_of-eq (some v) h = inl (object_or-eq _ (some v) h)

pub tool_name_of-eq : (o : Option Json) {s : String} → tool_name_of o ≡ ok s → o ≡ some (str s)
tool_name_of-eq (some (str s)) h = elim (Bool-cases (s == "")) [
  | inl e ↦ cc (rw e at h)
  | inr e ↦ ap (λ t. some (str t)) (ok-injective (rw e at h))
]
tool_name_of-eq (some (obj f)) h = cc
tool_name_of-eq (some null) h = cc
tool_name_of-eq (some (bool b)) h = cc
tool_name_of-eq (some (number n)) h = cc
tool_name_of-eq (some (arr vs)) h = cc
tool_name_of-eq none h = cc

module _ (loads : List ℕ → Option Json) (body : Body) where
  -- The bytes of the body are those of this object.
  abbrev pub IsBody : Fields → Type 0
  IsBody rpc = (bytes : List ℕ) × (body ≡ some bytes) × (loads bytes ≡ some (obj rpc))

  -- What the body comes to, where it is read as an object.
  abbrev pub AreRead : Option Fields → Type 0
  AreRead none = Unit
  AreRead (some rpc) = IsBody rpc

rpc_of-eq : (o : Option Json) {r : Fields} → rpc_of o ≡ ok (some r) → o ≡ some (obj r)
unfolding rpc_of
rpc_of-eq (some (obj f)) h = cc
rpc_of-eq (some (arr vs)) h = elim (Bool-cases (any_of is_tool_call (items vs))) [
  | inl e ↦ cc (rw e at h)
  | inr e ↦ cc (rw e at h)
]
rpc_of-eq (some null) h = cc
rpc_of-eq (some (bool b)) h = cc
rpc_of-eq (some (number n)) h = cc
rpc_of-eq (some (str s)) h = cc
rpc_of-eq none h = cc

pub parse_rpc-AreRead :
    (loads : List ℕ → Option Json) (body : Body) (r : Option Fields)
    → parse_rpc loads body ≡ ok r
    → AreRead loads body r
unfolding parse_rpc
parse_rpc-AreRead loads body none h = tt
parse_rpc-AreRead loads none (some r) h = cc
parse_rpc-AreRead loads (some []) (some r) h = cc
parse_rpc-AreRead loads (some (b ∷ bs)) (some r) h = (b ∷ bs, refl, rpc_of-eq (loads (b ∷ bs)) h)
