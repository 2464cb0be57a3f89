-- ===== src/Gateway/Authority.antt =====
-- capability_gateway/authority.py: what a builder's tool call may do. `sha256` is the hexadecimal
-- digest of the UTF-8 of a text, `dumps` the compact `json.dumps` with sorted keys, and `fnmatch`
-- is that of the standard library. An `AuthorityDenied` is its message.
use hermes_sdlc_agents.Prelude.{
  String, Bool, true, false, Option, List, [], ◌∷◌, text_lt, if◌then◌else◌, or_else, take_chars,
}
use hermes_sdlc_agents.Prelude.Json.{Json, Items, Fields, get, items}
use hermes_sdlc_agents.Gateway.Models.{RiskCategory, low, medium, high}
use Prim.Native.String
use hermes_sdlc_agents.Prelude.Json

pub record ActionSpec : Type 0 where
  pub capability : String
  pub category : RiskCategory
  pub github_permissions : List (String × String)
  pub mutation : Bool

pub record InvocationContext : Type 0 where
  pub agent_id : String
  pub role : String
  pub run_id : String
  pub tool_id : String
  pub capability : String
  pub category : RiskCategory
  pub repository : String
  pub branch : Option String
  pub paths : List String
  pub args_hash : String
  pub github_permissions : List (String × String)

-- `"\0".join(parts)`
unfoldable pub join_nul : List String → String
join_nul [] = ""
join_nul (s ∷ []) = s
join_nul (s ∷ t ∷ rest) = String.◌++◌ s (String.◌++◌ "\0" (join_nul (t ∷ rest)))

-- The property `InvocationContext.request_id`.
unfoldable pub context_request_id : (String → String) → InvocationContext → String
unfolding join_nul
context_request_id sha256 c = take_chars 24 (
    sha256 (
      join_nul (
        c.agent_id
        ∷ c.run_id
        ∷ c.tool_id
        ∷ c.capability
        ∷ c.repository
        ∷ or_else c.branch ""
        ∷ c.args_hash
        ∷ [])))

abbrev pub reads : String → RiskCategory → String → ActionSpec
reads capability category permission = record {
  capability = capability;
  category = category;
  github_permissions = (permission, "read") ∷ [];
  mutation = false;
}

abbrev pub writes : String → RiskCategory → String → ActionSpec
writes capability category permission = record {
  capability = capability;
  category = category;
  github_permissions = (permission, "write") ∷ [];
  mutation = true;
}

-- `BUILDER_ACTIONS`
abbrev pub builder_actions : List (String × ActionSpec)
builder_actions =
    ("get_file_contents", reads "repository.file.read" low "contents")
    ∷ ("get_repository_tree", reads "repository.tree.read" low "contents")
    ∷ ("search_code", reads "repository.code.search" low "contents")
    ∷ ("create_branch", writes "repository.branch.create" medium "contents")
    ∷ ("push_files", writes "repository.files.modify" medium "contents")
    ∷ ("create_pull_request", writes "repository.pull_request.create" medium "pull_requests")
    ∷ ("actions_run_trigger", writes "ci.workflow.trigger" high "actions")
    ∷ ("actions_get", reads "ci.workflow.read" low "actions")
    ∷ ("actions_list", reads "ci.workflow.read" low "actions")
    ∷ ("get_job_logs", reads "ci.logs.read" low "actions")
    ∷ []

abbrev pub builder_discovery_permissions : List (String × String)
builder_discovery_permissions =
    ("contents", "write") ∷ ("pull_requests", "write") ∷ ("actions", "write") ∷ []

-- `_normalize` on what `json.loads` gives: the keys are put in order at each level.
insert_field : String → Json → Fields → Fields
insert_field k v Json.end = Json.field k v Json.end
insert_field k v (Json.field j w fs) =
    if text_lt j k then Json.field j w (insert_field k v fs) else Json.field k v (Json.field j w fs)

unfoldable mutual
  unfolding insert_field

  pub normalize : Json → Json
  normalize (Json.arr vs) = Json.arr (normalize_items vs)
  normalize (Json.obj fs) = Json.obj (normalize_fields fs)
  normalize v = v

  pub normalize_items : Items → Items
  normalize_items Json.nil = Json.nil
  normalize_items (Json.cons v vs) = Json.cons (normalize v) (normalize_items vs)

  pub normalize_fields : Fields → Fields
  normalize_fields Json.end = Json.end
  normalize_fields (Json.field k v fs) = insert_field k (normalize v) (normalize_fields fs)

unfoldable pub canonical_args_hash : (String → String) → (Json → String) → String → Fields → String
unfolding normalize
canonical_args_hash sha256 dumps tool_name arguments = sha256 (
    dumps (
      Json.obj (
        Json.field "tool" (Json.str tool_name)
          (Json.field "arguments" (normalize (Json.obj arguments)) Json.end))))
