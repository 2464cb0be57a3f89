-- ===== src/Gate/Classify.antt =====
-- The plugin's `classify_action`.
use hermes_sdlc_agents.Prelude.{
  String, Bool, not, ◌&&◌, List, [], ◌∷◌, ◌++◌, ◌==◌, starts_with, any_of, contains, concat, strip,
  if◌then◌else◌,
}
use hermes_sdlc_agents.Prelude.Table.{unique}
use hermes_sdlc_agents.Prelude.Json.{Json}
use hermes_sdlc_agents.Gate.{Runtime, Risk, low, medium, high, critical, at_least_high}
use hermes_sdlc_agents.Gate.Scan.{flatten_text}

abbrev pub read_prefixes : List String
read_prefixes =
    "get_" ∷ "list_" ∷ "read_" ∷ "search_" ∷ "query_" ∷ "fetch_" ∷ "inspect_" ∷ "view_" ∷ []

abbrev pub write_words : List String
write_words =
    "create" ∷ "update" ∷ "push" ∷ "write" ∷ "edit" ∷ "delete" ∷ "remove" ∷ "merge" ∷ "close"
    ∷ "trigger" ∷ "run" ∷ "execute" ∷ "apply" ∷ "deploy" ∷ "release" ∷ "publish" ∷ "set" ∷ "modify"
    ∷ "upload" ∷ "commit" ∷ []

abbrev pub critical_words : List String
critical_words =
    "merge" ∷ "deploy" ∷ "release" ∷ "destroy" ∷ "delete_repository" ∷ "secret" ∷ "permission"
    ∷ "ruleset" ∷ "branch_protection" ∷ "admin" ∷ []

abbrev pub irreversible_words : List String
irreversible_words = "merge" ∷ "deploy" ∷ "release" ∷ "destroy" ∷ []

abbrev pub protected_re : String
protected_re =
    "(^|[/\\\\])(?:\\.github[/\\\\](?:workflows|actions)|policies|kubernetes|secrets?)(?:[/\\\\]|$)"

abbrev pub prod_re : String
prod_re = "\\b(prod|production|main|master)\\b"

-- The triple that `classify_action` gives.
pub record Classified : Type 0 where
  pub risk : Risk
  pub category : String
  pub reasons : List String

-- `any(word in name for word in words)`
unfoldable pub has_word : List String → String → Bool
unfolding contains
has_word words name = any_of (contains name) words

unfoldable pub is_read : String → Bool
is_read name = any_of (starts_with name) read_prefixes

unfoldable pub by_name : String → Classified
unfolding has_word is_read
by_name name =
    if is_read name
    then record { risk = low; category = "read"; reasons = [] }
    else if has_word critical_words name
    then record { risk = critical; category = "privileged_write"; reasons = "privileged_tool" ∷ [] }
    else if has_word write_words name
    then record { risk = medium; category = "write"; reasons = "state_changing_tool" ∷ [] }
    else record { risk = medium; category = "unknown"; reasons = "unknown_tool_semantics" ∷ [] }

abbrev pub raised : String → Classified → Classified
raised reason c = record c { risk = at_least_high c.risk; reasons = c.reasons ++ reason ∷ [] }

module _ (py : Runtime) where
  unfoldable pub by_protected : String → Classified → Classified
  by_protected text c = if py.search protected_re text then raised "protected_target" c else c

  unfoldable pub by_branch : String → Classified → Classified
  by_branch text c =
      if py.search prod_re text && not (c.category == "read")
      then raised "production_or_default_branch_target" c
      else c

  unfoldable pub by_effect : String → Classified → Classified
  unfolding has_word
  by_effect name c =
      if has_word irreversible_words name
      then record c {
        risk = critical;
        reasons = c.reasons ++ "irreversible_or_privileged_operation" ∷ [];
      }
      else c

  abbrev pub tool_key : String → String
  tool_key tool_name = py.lower (strip tool_name)

  abbrev pub searched : String → Json → String
  searched name args = concat (name ∷ " " ∷ flatten_text py args ∷ [])

  -- What is known of a call with a name, before its reasons are made unique.
  unfoldable pub weighed : String → String → Classified
  unfolding by_name by_protected by_branch by_effect
  weighed name text = by_effect name (by_branch text (by_protected text (by_name name)))

  abbrev pub deduplicated : Classified → Classified
  deduplicated c = record c { reasons = unique [] c.reasons }

  unfoldable pub classify_action : String → Json → Classified
  unfolding weighed flatten_text unique concat strip
  classify_action tool_name args =
      if tool_key tool_name == ""
      then record { risk = high; category = "unknown"; reasons = "missing_tool_name" ∷ [] }
      else deduplicated (weighed (tool_key tool_name) (searched (tool_key tool_name) args))
