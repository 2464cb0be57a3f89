-- ===== src/Orchestrator/Transitions.antt =====
-- transitions.py: what a finished run does to the work item, and the row that records it. `dumps` is
-- `json.dumps(..., ensure_ascii=False, sort_keys=True)`, of the details that the provider returned
-- and of the comment of a disabled transition. `print` is the decimal print of a number.
pub mod Records
pub mod Handoff
use hermes_sdlc_agents.Prelude.{
  keep, true, ltb, any_of, ◌++◌, ◌&&◌, false, length, not, [], ◌==◌, raise, concat, or_else, join,
  Option, ok, if◌then◌else◌, ◌∷◌, String, Result, Bool, List, ℕ, none, some,
}
use hermes_sdlc_agents.Prelude.Json.{Fields}
use hermes_sdlc_agents.Orchestrator.Items.{has_text, WorkItem, Config}
use hermes_sdlc_agents.Orchestrator.Statuses.{
  blocked, spec, terminal_final_statuses, transitions, status_eq, FinalStatus, value,
  TransitionSpec,
}
use hermes_sdlc_agents.Orchestrator.Response.{FinalResponse}
use hermes_sdlc_agents.Orchestrator.Database.{Db, Transition}
use hermes_sdlc_agents.Orchestrator.Database.Writes.{record_transition}

pub record ProviderTransitionResult : Type 0 where
  pub applied : Bool
  pub details : Fields

-- The arguments of `apply_issue_transition`.
pub record IssueTransition : Type 0 where
  pub add_labels : List String
  pub remove_labels : List String
  pub comment : String
  pub idempotency_key : String

-- A provider's answer: what it returns, or the text of what it raises.
abbrev pub Provider : Type 0
Provider = WorkItem → IssueTransition → Result String ProviderTransitionResult

-- provider_github.py: what the requests of `apply_issue_transition` make of the labels of an issue. All
-- labels to add are posted first; then each label to remove is deleted.
unfoldable pub relabelled : IssueTransition → List String → List String
unfolding keep any_of
relabelled call labels = keep (λ l. not (has_text call.remove_labels l)) (labels ++ call.add_labels)

unfoldable pub find_transition :
    String → FinalStatus → List ((String × FinalStatus) × TransitionSpec) → Option TransitionSpec
unfolding status_eq
find_transition role status [] = none
find_transition role status (((r, s), t) ∷ ts) =
    if r == role && status_eq s status then some t else find_transition role status ts

-- What follows the look-up in the table.
unfoldable pub or_terminal : String → FinalStatus → Option TransitionSpec → Option TransitionSpec
unfolding status_eq value
or_terminal role status (some t) = some t
or_terminal role status none =
    if any_of (λ s. status_eq s status) terminal_final_statuses
    then some (
        spec none (if status_eq status blocked then "hermes:blocked" ∷ [] else []) []
          (concat ("Hermes " ∷ role ∷ " finished with " ∷ value status ∷ "." ∷ [])))
    else none

unfoldable pub resolve_transition : String → FinalStatus → Option TransitionSpec
unfolding find_transition or_terminal
resolve_transition role status = or_terminal role status (find_transition role status transitions)

abbrev pub optional_line : Bool → String → List String
optional_line true line = line ∷ []
optional_line false line = []

unfoldable pub render_failure_comment : String → String → String → String
render_failure_comment key status summary = join "\n" (
    concat ("Hermes orchestration failure: " ∷ status ∷ "." ∷ [])
    ∷ ""
    ∷ concat ("Assignment: " ∷ key ∷ [])
    ∷ concat ("Summary: " ∷ summary ∷ [])
    ∷ [])

module _ (print : ℕ → String) where
  unfoldable pub render_comment : TransitionSpec → FinalResponse → String
  unfolding value
  render_comment t r =
      let reason = or_else r.block_reason "" in
      let evidence = length r.evidence in
      join "\n" (
        (t.comment_template
          ∷ ""
          ∷ concat ("Assignment: " ∷ r.assignment_key ∷ [])
          ∷ concat ("Final status: " ∷ value r.final_status ∷ [])
          ∷ concat ("Summary: " ∷ r.summary ∷ [])
          ∷ [])
        ++ optional_line (not (reason == "")) (concat ("Block reason: " ∷ reason ∷ []))
        ++ optional_line (ltb 0 evidence) (concat ("Evidence items: " ∷ print evidence ∷ [])))

-- The columns that all four inserts of a function share.
abbrev pub transition_row : ℕ → String → String → String → Option String → Transition
transition_row now key role status next = record {
  assignment_key = key;
  from_role = role;
  final_status = status;
  next_role = next;
  provider_applied = false;
  provider_result = none;
  error = none;
  created_at = now;
}

module _ (dumps_comment : String → String) (dumps : Fields → String) where
  -- What the `try` and the insert after it record of the provider's answer.
  abbrev pub answered : Transition → Result String ProviderTransitionResult → Transition
  answered row (ok result) = record row {
    provider_applied = result.applied;
    provider_result = some (dumps result.details);
  }
  answered row (raise e) = record row { error = some e }

  -- The branches after the test of `apply_transitions`: no provider, or its call.
  unfoldable pub called : Option Provider → WorkItem → IssueTransition → Transition → Transition
  called none item call row = record row { error = some "provider transition adapter unavailable" }
  called (some apply) item call row = answered row (apply item call)

  -- The row that the four branches insert.
  unfoldable pub transition_of :
      Config → Option Provider → WorkItem → IssueTransition → Transition → Transition
  unfolding called
  transition_of config provider item call row =
      if not config.apply_transitions
      then (record row { provider_result = some (dumps_comment call.comment) })
      else called provider item call row

  module _ (print : ℕ → String) where
    -- The arguments that `apply_transition` passes to the provider.
    unfoldable pub call_of : Config → TransitionSpec → FinalResponse → IssueTransition
    unfolding render_comment value
    call_of config t r = record {
      add_labels = if config.transition_comment_only then [] else t.add_labels;
      remove_labels = if config.transition_comment_only then [] else t.remove_labels;
      comment = render_comment print t r;
      idempotency_key = concat ("transition:" ∷ r.assignment_key ∷ ":" ∷ value r.final_status ∷ []);
    }

    unfoldable pub apply_spec :
        ℕ → WorkItem → FinalResponse → Config → Option Provider → Option TransitionSpec → Db → Db
    unfolding call_of transition_of record_transition value
    apply_spec now item r config provider none s = s
    apply_spec now item r config provider (some t) s =
        record_transition
          (transition_of config provider item (call_of config t r)
            (transition_row now r.assignment_key r.role (value r.final_status) t.next_role))
          s

    unfoldable pub apply_transition :
        ℕ → WorkItem → FinalResponse → Config → Option Provider → Db → Db
    unfolding resolve_transition apply_spec
    apply_transition now item r config provider s =
        apply_spec now item r config provider (resolve_transition r.role r.final_status) s

  unfoldable pub apply_failure_transition :
      ℕ → WorkItem → String → String → String → String → Config → Option Provider → Db → Db
  unfolding render_failure_comment transition_of record_transition
  apply_failure_transition now item key role status summary config provider s =
      let call : IssueTransition = record {
        add_labels = if config.transition_comment_only then [] else "hermes:blocked" ∷ [];
        remove_labels = [];
        comment = render_failure_comment key status summary;
        idempotency_key = concat ("transition:" ∷ key ∷ ":" ∷ status ∷ []);
      } in
      record_transition
        (transition_of config provider item call (transition_row now key role status none)) s
