-- ===== src/Gate/Calls.antt =====
-- The plugin's `normalize_tool_call` and `extract_tool_calls`: the tool calls that a response proposes,
-- wherever they stand in it.
use Prim.Native.String.{count}
use hermes_sdlc_agents.Prelude.{
  ℕ, ◌+◌, String, Bool, false, ◌&&◌, ◌||◌, Option, none, some, List, [], ◌∷◌, ◌++◌, ◌==◌, leb,
  Result, ok, raise, ◌>>=◌, if◌then◌else◌,
}
use hermes_sdlc_agents.Prelude.Json.{
  Json, Items, Fields, null, bool, number, str, arr, obj, nil, cons, end, field, get,
}
use hermes_sdlc_agents.Gate.{Runtime, value_at, text_or_empty, or_value, truthy, stable_hash}

pub record Call : Type 0 where
  pub tool_call_id : String
  pub tool_name : String
  pub args : Json

-- `{...} in item` of a list or a dict: the value cannot be hashed.
pub data HookError : Type 0 where
  unhashable : HookError

abbrev pub name_of : Fields → Json
name_of call = value_at call "name"

-- `args if isinstance(args, (dict, list)) else {"value": args}`
abbrev pub as_args : Json → Json
as_args (obj fs) = obj fs
as_args (arr vs) = arr vs
as_args v = obj (field "value" v end)

-- `value.get(key, default)`
abbrev pub get_or : Option Json → Json → Json
get_or none default = default
get_or (some v) default = v

abbrev pub inner_args : Json → Json → Json
inner_args (obj fn) args = get_or (get fn "arguments") args
inner_args v args = args

module _ (py : Runtime) where
  abbrev pub inner_name : Json → Json → Json
  inner_name (obj fn) name = or_value py (value_at fn "name") name
  inner_name v name = name

  abbrev pub undecoded : String → Json
  undecoded s = obj (
      field "raw_arguments_hash" (str (py.sha256 s))
        (field "chars" (number (py.print (count s))) end))

  abbrev pub loaded : String → Option Json → Json
  loaded s none = undecoded s
  loaded s (some v) = v

  abbrev pub read_args : Json → Json
  read_args (str s) = loaded s (py.loads s)
  read_args v = v

  unfoldable pub normalize_tool_call : Fields → Call
  unfolding get
  normalize_tool_call call = record {
    tool_call_id = text_or_empty py (or_value py (value_at call "id") (value_at call "call_id"));
    tool_name = text_or_empty py (inner_name (value_at call "function") (name_of call));
    args = as_args (read_args (inner_args (value_at call "function") (value_at call "arguments")));
  }

  abbrev pub dict_call : Json → List Call
  dict_call (obj call) = normalize_tool_call call ∷ []
  dict_call v = []

  unfoldable pub calls_in : Items → List Call
  unfolding normalize_tool_call
  calls_in nil = []
  calls_in (cons v vs) = dict_call v ++ calls_in vs

  -- `found.extend(...)`, if `tool_calls` is a list.
  abbrev pub listed_calls : Json → List Call
  listed_calls (arr vs) = calls_in vs
  listed_calls v = []

  -- `item.get("type") in {"function_call", "tool_call"}`
  abbrev pub is_call_type : Json → Result HookError Bool
  is_call_type (str s) = ok (s == "function_call" || s == "tool_call")
  is_call_type (arr vs) = raise unhashable
  is_call_type (obj fs) = raise unhashable
  is_call_type v = ok false

  abbrev pub own_call : Fields → Bool → List Call
  own_call item is_call =
      if is_call && (truthy py (value_at item "name") || truthy py (value_at item "function"))
      then normalize_tool_call item ∷ []
      else []

  -- The calls of a dict itself, before those of its values.
  unfoldable pub item_calls : Fields → Result HookError (List Call)
  unfolding calls_in normalize_tool_call
  item_calls item = do
    is_call ← is_call_type (value_at item "type")
    ok (listed_calls (value_at item "tool_calls") ++ own_call item is_call)

  unfoldable mutual
    unfolding item_calls

    pub visit : ℕ → Json → Result HookError (List Call)
    visit depth (obj fs) =
        if leb depth 8
        then item_calls fs >>= (λ own. visit_fields (depth + 1) fs >>= (λ rest. ok (own ++ rest)))
        else ok []
    visit depth (arr vs) = if leb depth 8 then visit_items (depth + 1) vs else ok []
    visit depth null = ok []
    visit depth (bool b) = ok []
    visit depth (number n) = ok []
    visit depth (str s) = ok []

    pub visit_items : ℕ → Items → Result HookError (List Call)
    visit_items depth nil = ok []
    visit_items depth (cons v vs) =
        visit depth v >>= (λ found. visit_items depth vs >>= (λ rest. ok (found ++ rest)))

    pub visit_fields : ℕ → Fields → Result HookError (List Call)
    visit_fields depth end = ok []
    visit_fields depth (field k v fs) =
        visit depth v >>= (λ found. visit_fields depth fs >>= (λ rest. ok (found ++ rest)))

  -- The two calls have one key in `unique`.
  unfoldable pub same_call : Call → Call → Bool
  unfolding stable_hash
  same_call c d =
      c.tool_call_id == d.tool_call_id
      && (c.tool_name == d.tool_name && stable_hash py c.args == stable_hash py d.args)

  -- `unique[key] = item`: a key that is there keeps its place.
  unfoldable pub put_call : Call → List Call → List Call
  unfolding same_call
  put_call c [] = c ∷ []
  put_call c (d ∷ ds) = let rest = put_call c ds in if same_call d c then c ∷ ds else d ∷ rest

  unfoldable pub unique_calls : List Call → List Call → List Call
  unfolding put_call
  unique_calls kept [] = kept
  unique_calls kept (c ∷ cs) = unique_calls (put_call c kept) cs

  unfoldable pub extract_tool_calls : Json → Result HookError (List Call)
  unfolding visit unique_calls
  extract_tool_calls value = do found ← visit 0 value; ok (unique_calls [] found)
