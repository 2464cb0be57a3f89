-- ===== src/Orchestrator/Statuses.antt =====
-- statuses.py: the statuses that a role may finish with, and the hand-offs between the roles.
pub mod Laws
use hermes_sdlc_agents.Prelude.{
  join, any_of, map, text_lt, if◌then◌else◌, ◌>>=◌, ◌>>◌, concat, ok, none, [], raise, Result, some,
  find_first, ◌∷◌, ◌==◌, Option, Bool, List, String, ℕ,
}
use hermes_sdlc_agents.Gateway.Core.{sort_by}
use hermes_sdlc_agents.Prelude.Table

pub data FinalStatus : Type 0 where
  charter_ready roadmap_ready ready_for_iteration in_progress review done replan_required paused
        killed ready_for_build pr_ready_for_review approve request_changes blocked blocked_no_action
        no_action monitoring escalated proposed_for_human_review :
      FinalStatus

unfoldable pub value : FinalStatus → String
value charter_ready = "CHARTER_READY"
value roadmap_ready = "ROADMAP_READY"
value ready_for_iteration = "READY_FOR_ITERATION"
value in_progress = "IN_PROGRESS"
value review = "REVIEW"
value done = "DONE"
value replan_required = "REPLAN_REQUIRED"
value paused = "PAUSED"
value killed = "KILLED"
value ready_for_build = "READY_FOR_BUILD"
value pr_ready_for_review = "PR_READY_FOR_REVIEW"
value approve = "APPROVE"
value request_changes = "REQUEST_CHANGES"
value blocked = "BLOCKED"
value blocked_no_action = "BLOCKED_NO_ACTION"
value no_action = "NO_ACTION"
value monitoring = "MONITORING"
value escalated = "ESCALATED"
value proposed_for_human_review = "PROPOSED_FOR_HUMAN_REVIEW"

abbrev pub final_statuses : List FinalStatus
final_statuses =
    charter_ready ∷ roadmap_ready ∷ ready_for_iteration ∷ in_progress ∷ review ∷ done
    ∷ replan_required ∷ paused ∷ killed ∷ ready_for_build ∷ pr_ready_for_review ∷ approve
    ∷ request_changes ∷ blocked ∷ blocked_no_action ∷ no_action ∷ monitoring ∷ escalated
    ∷ proposed_for_human_review ∷ []

-- `FinalStatus(value)`
unfoldable pub parse_status : String → Option FinalStatus
unfolding value
parse_status v = find_first (λ s. value s == v) final_statuses

-- `a == b` of the two members: a member is its text.
unfoldable pub status_eq : FinalStatus → FinalStatus → Bool
unfolding value
status_eq s t = value s == value t

abbrev pub valid_roles : List String
valid_roles =
    "project-manager" ∷ "planner" ∷ "builder" ∷ "reviewer" ∷ "release" ∷ "incident" ∷ "learning"
    ∷ []

abbrev pub terminal_labels : List String
terminal_labels = "state:done" ∷ "state:cancelled" ∷ "hermes:blocked" ∷ "hermes:manual-only" ∷ []

abbrev pub default_role_labels : List (String × List String)
default_role_labels =
    ("project-manager", "hermes:project-manager" ∷ "state:project-management" ∷ [])
    ∷ ("planner", "hermes:planner" ∷ "state:ready-for-planning" ∷ [])
    ∷ ("builder", "hermes:builder" ∷ "state:ready-for-build" ∷ [])
    ∷ ("reviewer", "hermes:reviewer" ∷ "state:review-needed" ∷ [])
    ∷ ("release", "hermes:release" ∷ "state:ready-for-release" ∷ [])
    ∷ ("incident", "hermes:incident" ∷ [])
    ∷ ("learning", "hermes:learning" ∷ [])
    ∷ []

abbrev pub role_final_statuses : List (String × List FinalStatus)
role_final_statuses =
    (
      "project-manager",
      charter_ready ∷ roadmap_ready ∷ ready_for_iteration ∷ in_progress ∷ review ∷ done ∷ blocked
          ∷ replan_required ∷ paused ∷ killed ∷ [],
    )
    ∷ ("planner", ready_for_build ∷ blocked ∷ [])
    ∷ ("builder", pr_ready_for_review ∷ blocked ∷ [])
    ∷ ("reviewer", approve ∷ request_changes ∷ blocked ∷ [])
    ∷ ("release", no_action ∷ blocked_no_action ∷ [])
    ∷ ("incident", monitoring ∷ escalated ∷ no_action ∷ [])
    ∷ ("learning", proposed_for_human_review ∷ no_action ∷ [])
    ∷ []

abbrev pub terminal_final_statuses : List FinalStatus
terminal_final_statuses =
    blocked ∷ blocked_no_action ∷ no_action ∷ monitoring ∷ escalated ∷ proposed_for_human_review
    ∷ done ∷ paused ∷ killed ∷ []

pub record TransitionSpec : Type 0 where
  pub next_role : Option String
  pub add_labels : List String
  pub remove_labels : List String
  pub comment_template : String

abbrev pub spec : Option String → List String → List String → String → TransitionSpec
spec next add remove comment = record {
  next_role = next;
  add_labels = add;
  remove_labels = remove;
  comment_template = comment;
}

abbrev pub transitions : List ((String × FinalStatus) × TransitionSpec)
transitions =
    (
      ("planner", ready_for_build),
      spec (some "builder") ("state:ready-for-build" ∷ "hermes:builder" ∷ [])
          ("state:ready-for-planning" ∷ "hermes:planner" ∷ [])
          "Planner completed the spec/plan. Ready for builder.",
    )
    ∷ (
      ("builder", pr_ready_for_review),
      spec (some "reviewer") ("state:review-needed" ∷ "hermes:reviewer" ∷ [])
          ("state:ready-for-build" ∷ "hermes:builder" ∷ [])
          "Builder opened a change request with evidence. Ready for reviewer.",
    )
    ∷ (
      ("reviewer", approve),
      spec (some "release") ("state:ready-for-release" ∷ "hermes:release" ∷ [])
          ("state:review-needed" ∷ "hermes:reviewer" ∷ [])
          "Reviewer approved the fixed change request. Ready for release evidence check.",
    )
    ∷ (
      ("reviewer", request_changes),
      spec (some "builder") ("state:ready-for-build" ∷ "hermes:builder" ∷ [])
          ("state:review-needed" ∷ "hermes:reviewer" ∷ [])
          "Reviewer requested changes. Returning to builder.",
    )
    ∷ (
      ("release", no_action),
      spec none ("state:done" ∷ []) ("state:ready-for-release" ∷ "hermes:release" ∷ [])
          "Release evidence checked; no action required.",
    )
    ∷ (
      ("release", blocked_no_action),
      spec none ("hermes:manual-only" ∷ []) ("state:ready-for-release" ∷ "hermes:release" ∷ [])
          "Release action requires manual handling or an external release integration.",
    )
    ∷ []

-- A role outside the table is a `KeyError`; the other errors are `ValueError`s.
pub data StatusError : Type 0 where
  key_error : StatusError
  value_error : String → StatusError

abbrev pub or_key_error {ℓ} : {A : Type ℓ} → Option A → Result StatusError A
or_key_error none = raise key_error
or_key_error (some a) = ok a

unfoldable pub allowed_status_values : String → Result StatusError (List String)
unfolding value
allowed_status_values role = do
  statuses ← or_key_error (Table.lookup role role_final_statuses)
  ok (sort_by text_lt (map value statuses))

unfoldable pub require_allowed : String → String → FinalStatus → Result StatusError FinalStatus
unfolding status_eq allowed_status_values
require_allowed role v status = do
  statuses ← or_key_error (Table.lookup role role_final_statuses)
  (if any_of (λ s. status_eq s status) statuses
      then ok status
      else (allowed_status_values role >>= λ allowed. raise (
          value_error (
            concat (
              "final_status "
              ∷ v
              ∷ " is not allowed for "
              ∷ role
              ∷ "; allowed: "
              ∷ join ", " allowed
              ∷ [])))))

unfoldable pub validate_final_status : String → String → Result StatusError FinalStatus
unfolding parse_status require_allowed
validate_final_status role v = found (parse_status v)
  where
    found : Option FinalStatus → Result StatusError FinalStatus
    found none = raise (value_error (concat ("unknown final_status: " ∷ v ∷ [])))
    found (some status) = require_allowed role v status
