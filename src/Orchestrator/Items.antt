-- ===== src/Orchestrator/Items.antt =====
-- provider_base.py and assignment.py: work items, their keys, and which of them are a role's.
use hermes_sdlc_agents.Prelude.{
  ◌||◌, false, [], if◌then◌else◌, ◌==◌, ◌∷◌, map, any_of, take_chars, Bool, concat, Option, List,
  String,
}

pub record WorkItem : Type 0 where
  pub provider : String
  pub repository_id : String
  pub kind : String
  pub external_id : String
  pub title : String
  pub body : String
  pub body_hash : String
  pub url : String
  pub labels : List String
  pub assignees : List String
  pub updated_at : Option String

-- What the modelled code reads of `Config`.
pub record Config : Type 0 where
  pub role_labels : List String
  pub role_assignees : List String
  pub terminal_labels : List String
  pub apply_transitions : Bool
  pub transition_comment_only : Bool

abbrev pub has_text : List String → String → Bool
has_text xs s = any_of (λ x. x == s) xs

-- `bool(a & b)`
unfoldable pub meets : List String → List String → Bool
meets xs ys = any_of (has_text ys) xs

-- `sha256` is the hexadecimal digest of the UTF-8 text, `lower` is `str.lower`.
module _ (sha256 : String → String) where
  unfoldable pub revision_key : WorkItem → String
  revision_key i = take_chars 12 (sha256 (concat (i.title ∷ ":" ∷ i.body_hash ∷ [])))

  unfoldable pub assignment_key : WorkItem → String → String
  unfolding revision_key
  assignment_key i role = concat (
      i.provider
      ∷ ":"
      ∷ i.repository_id
      ∷ ":"
      ∷ i.kind
      ∷ ":"
      ∷ i.external_id
      ∷ ":"
      ∷ role
      ∷ ":v2:"
      ∷ revision_key i
      ∷ [])

module _ (lower : String → String) where
  unfoldable pub matches_role : WorkItem → Config → Bool
  unfolding meets
  matches_role i config =
      let labels = map lower i.labels in
      if meets labels config.terminal_labels
      then false
      else meets labels config.role_labels || meets (map lower i.assignees) config.role_assignees
