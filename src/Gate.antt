-- ===== src/Gate.antt =====
-- hermes-plugins/hermeteam-intent-action-gate/__init__.py: the plugin that compares the tool calls of
-- an agent with those that its model proposed. Its tables, its environment and the texts it makes of
-- values are here; the children are its functions on values (Scan), the risk of a call (Classify), the
-- calls of a response (Calls), the proposals of a session (Proposals) and the hooks (Hooks).
pub mod Scan
pub mod Classify
pub mod Calls
pub mod Proposals
pub mod Hooks
use hermes_sdlc_agents.Prelude.{
  ℕ, String, Bool, not, true, false, Option, none, some, List, [], ◌∷◌, ◌==◌, ltb, or_else, strip,
  if◌then◌else◌,
}
use hermes_sdlc_agents.Prelude.Table.{elem}
use hermes_sdlc_agents.Prelude.Json.{
  Json, Items, Fields, null, bool, number, str, arr, obj, nil, cons, end, field, get,
}

-- What the plugin uses of Python: `lower` is `str.lower`, `sha256` the hexadecimal digest of a text,
-- `dumps` is `json.dumps` as `stable_hash` calls it, `loads` is `json.loads` (`none` where it raises),
-- `text_of` is `str` of a value that is no text, `number_type` is the name of the type of a literal,
-- `truthy_number` tells whether a literal is not 0, `print` is the decimal print of a number,
-- `representation` is `repr` of a text, `search` tells whether a pattern compiled with `re.I` is found
-- in a text, and `environ` is `os.environ.get`.
pub record Runtime : Type 0 where
  pub lower : String → String
  pub sha256 : String → String
  pub dumps : Json → String
  pub loads : String → Option Json
  pub text_of : Json → String
  pub number_type : String → String
  pub truthy_number : String → Bool
  pub print : ℕ → String
  pub representation : String → String
  pub search : String → String → Bool
  pub environ : String → Option String

pub data Risk : Type 0 where
  low medium high critical : Risk

-- `RISK[risk]`
abbrev pub risk_rank : Risk → ℕ
risk_rank low = 0
risk_rank medium = 1
risk_rank high = 2
risk_rank critical = 3

abbrev pub risk_name : Risk → String
risk_name low = "low"
risk_name medium = "medium"
risk_name high = "high"
risk_name critical = "critical"

-- `max((risk, "high"), key=RISK.get)`
abbrev pub at_least_high : Risk → Risk
at_least_high risk = if ltb (risk_rank risk) (risk_rank high) then high else risk

abbrev pub sensitive_keys : List String
sensitive_keys =
    "authorization" ∷ "api_key" ∷ "apikey" ∷ "token" ∷ "secret" ∷ "password" ∷ "content"
    ∷ "contents" ∷ "file_content" ∷ "private_key" ∷ []

pub data Mode : Type 0 where
  recording shadow enforce : Mode

abbrev pub mode_name : Mode → String
mode_name recording = "record"
mode_name shadow = "shadow"
mode_name enforce = "enforce"

-- `value.get(key)`, where a key that is not there gives `None`.
abbrev pub value_at : Fields → String → Json
value_at fs k = or_else (get fs k) null

module _ (py : Runtime) where
  abbrev pub truthy : Json → Bool
  truthy null = false
  truthy (bool b) = b
  truthy (number n) = py.truthy_number n
  truthy (str s) = not (s == "")
  truthy (arr nil) = false
  truthy (arr (cons v vs)) = true
  truthy (obj end) = false
  truthy (obj (field k v fs)) = true

  -- `a or b`
  abbrev pub or_value : Json → Json → Json
  or_value v w = if truthy v then v else w

  -- `str(value)`
  abbrev pub text : Json → String
  text (str s) = s
  text v = py.text_of v

  -- `str(value or "")`
  abbrev pub text_or_empty : Json → String
  text_or_empty v = text (or_value v (str ""))

  -- `type(value).__name__`
  abbrev pub type_name : Json → String
  type_name null = "NoneType"
  type_name (bool b) = "bool"
  type_name (number n) = py.number_type n
  type_name (str s) = "str"
  type_name (arr vs) = "list"
  type_name (obj fs) = "dict"

  abbrev pub is_sensitive : String → Bool
  is_sensitive key = elem (py.lower key) sensitive_keys

  unfoldable pub stable_hash : Json → String
  stable_hash value = py.sha256 (py.dumps value)

  unfoldable pub env : String → String → String
  unfolding strip
  env name default = strip (or_else (py.environ name) default)

  abbrev pub mode_of : String → Mode
  mode_of value =
      if value == "record" then recording else if value == "enforce" then enforce else shadow

  unfoldable pub mode : Mode
  unfolding env
  mode = mode_of (py.lower (env "HERMETEAM_GATE_MODE" "shadow"))

  abbrev pub level_of : String → Risk
  level_of value =
      if value == "low"
      then low
      else if value == "medium"
      then medium
      else if value == "high"
      then high
      else critical

  unfoldable pub block_level : Risk
  unfolding env
  block_level = level_of (py.lower (env "HERMETEAM_GATE_BLOCK_LEVEL" "critical"))
