-- ===== src/Gateway/Builder.antt =====
-- capability_gateway/authority.py: the readers of a call's arguments, the protected paths, and
-- `builder_invocation_context`.
pub mod Laws
use hermes_sdlc_agents.Prelude.Table.{unique, lookup, elem}
use hermes_sdlc_agents.Prelude.{
  ℕ, ◌≡◌, refl, String, Bool, true, false, not, ◌&&◌, ◌||◌, Option, none, some, List, [], ◌∷◌, ◌++◌,
  ◌==◌, starts_with, nat_eq, if◌then◌else◌, any_of, Result, ok, raise, require, ◌>>=◌, ◌>>◌, strip,
  strip_slashes, strip_right, ends_with, drop_end,
}
use hermes_sdlc_agents.Prelude.Json.{Json, Items, Fields, get, items}
use hermes_sdlc_agents.Gateway.Authority.{
  ActionSpec, InvocationContext, builder_actions, canonical_args_hash,
}
use Prim.Native.String
use hermes_sdlc_agents.Prelude.Json

-- `_optional_string(value)`, where `none` is a missing key, which reads as `None`.
unfoldable pub optional_string : Option Json → Option String
optional_string (some (Json.str s)) = let t = strip s in if t == "" then none else some t
optional_string _ = none

pair_of : Option String → Option String → Result String String
pair_of (some owner) (some repo) = ok (String.◌++◌ owner (String.◌++◌ "/" repo))
pair_of _ _ = raise "owner_and_repo_are_required"

unfoldable pub repository : Fields → Result String String
unfolding pair_of
repository args = pair_of (optional_string (get args "owner")) (optional_string (get args "repo"))

or_next : Option String → Option String → Option String
or_next none o = o
or_next (some s) o = some s

-- The loop of `_branch`; its last lines read "branch" again, which the loop has found empty.
unfoldable pub branch_of : String → Fields → Option String
unfolding or_next
branch_of tool_name args = or_next (optional_string (get args "branch")) (
    or_next (optional_string (get args "ref")) (
      or_next (optional_string (get args "head"))
        (if tool_name == "create_branch" then optional_string (get args "branch") else none)))

path_of : Option Json → List String
path_of (some (Json.str s)) = let t = strip s in if t == "" then [] else strip_slashes t ∷ []
path_of _ = []

file_paths : List Json → List String
unfolding path_of
file_paths [] = []
file_paths (Json.obj fs ∷ rest) = path_of (get fs "path") ++ file_paths rest
file_paths (_ ∷ rest) = file_paths rest

listed_paths : Option Json → List String
unfolding file_paths
listed_paths (some (Json.arr vs)) = file_paths (items vs)
listed_paths _ = []

unfoldable pub paths : Fields → List String
unfolding listed_paths unique path_of
paths args = unique [] (path_of (get args "path") ++ listed_paths (get args "files"))

abbrev pub is_agent_ref : Option String → Bool
is_agent_ref none = false
is_agent_ref (some b) = starts_with b "agent/"

abbrev pub text_is : Option String → String → Bool
text_is none s = false
text_is (some t) s = t == s

module _ (fnmatch : String → String → Bool) where
  -- One round of the loop of `_is_protected`.
  unfoldable pub matches : String → String → Bool
  matches normalized pattern =
      let candidate = strip_slashes pattern in
      fnmatch normalized candidate
      || (ends_with candidate "/**"
          && starts_with normalized
              (String.◌++◌ (strip_right (λ c. nat_eq c b'/') (drop_end 3 candidate)) "/"))
      || normalized == candidate

  unfoldable pub is_protected : String → List String → Bool
  unfolding matches
  is_protected path patterns = any_of (matches (strip_slashes path)) patterns

-- The tests on the branch, one for each `if tool_name ...`; each gives the branch that goes on.
require_branch : String → Option String → Result String (Option String)
require_branch tool_name branch =
    if tool_name == "create_branch" || tool_name == "push_files"
    then (do require (is_agent_ref branch) "builder_branch_must_use_agent_prefix"; ok branch)
    else ok branch

require_pull_request : String → String → Fields → Option String → Result String (Option String)
require_pull_request tool_name default_branch args branch =
    if tool_name == "create_pull_request"
    then (do
      let head = optional_string (get args "head")
      let base = optional_string (get args "base")
      require (is_agent_ref head) "pull_request_head_must_use_agent_prefix"
      require (text_is base default_branch) "pull_request_base_must_match_default_branch"
      ok head)
    else ok branch

require_dispatch : String → Fields → Option String → Result String (Option String)
require_dispatch tool_name args branch =
    if tool_name == "actions_run_trigger"
    then (do
      let ref = optional_string (get args "ref")
      require (is_agent_ref ref) "workflow_dispatch_ref_must_use_agent_prefix"
      ok ref)
    else ok branch

or_denied : Option ActionSpec → Result String ActionSpec
or_denied none = raise "tool_not_in_builder_authority_map"
or_denied (some spec) = ok spec

module _ (sha256 : String → String) (dumps : Json → String) where
  -- The context that a call is admitted with.
  abbrev pub admitted_context :
      String → String → String → Fields → ActionSpec → String → Option String → InvocationContext
  admitted_context agent_id run_id tool_name arguments spec repo branch = record {
    agent_id = agent_id;
    role = "builder";
    run_id = run_id;
    tool_id = String.◌++◌ "github:" tool_name;
    capability = spec.capability;
    category = spec.category;
    repository = repo;
    branch = branch;
    paths = paths arguments;
    args_hash = canonical_args_hash sha256 dumps tool_name arguments;
    github_permissions = spec.github_permissions;
  }

module _ (sha256 : String → String) (dumps : Json → String) (fnmatch : String → String → Bool) where
  unfoldable pub builder_invocation_context :
      (agent_id run_id tool_name : String)
      → (arguments : Fields) → (configured_repository default_branch : String)
      → (protected_patterns : List String) → Result String InvocationContext
  unfolding or_denied repository require_branch require_pull_request require_dispatch
  builder_invocation_context agent_id run_id tool_name arguments configured default_branch
        patterns =
      do
        spec ← or_denied (lookup tool_name builder_actions)
        repo ← repository arguments
        require (repo == configured) "repository_out_of_scope"
        branch ← require_branch tool_name (branch_of tool_name arguments)
        branch ← require_pull_request tool_name default_branch arguments branch
        branch ← require_dispatch tool_name arguments branch
        require
            (not (
              spec.mutation
              && any_of (λ path. is_protected fnmatch path patterns) (paths arguments)))
            "protected_path"
        ok (admitted_context sha256 dumps agent_id run_id tool_name arguments spec repo branch)
