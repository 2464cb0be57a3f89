-- ===== src/Orchestrator/Tests.antt =====
-- The orchestrator's theorems at concrete inputs.
use hermes_sdlc_agents.Prelude.Json.{get, Json, Fields, str, obj, end, field}
use hermes_sdlc_agents.Prelude.{
  any_of, find_first, ◌⊎◌, arith, Option, ◌≡◌, List, keep, String, ℕ, refl, none, some, true, false,
  [], ◌∷◌, raise,
}
use hermes_sdlc_agents.Prelude.Table.{lookup}
use hermes_sdlc_agents.Orchestrator.Database.{Transition, Db, empty_db}
use hermes_sdlc_agents.Orchestrator.Database.Writes.{new_run, new_assignment, record_transition}
use hermes_sdlc_agents.Orchestrator.Statuses.{
  validate_final_status, terminal_labels, spec, TransitionSpec, value, ready_for_build,
}
use hermes_sdlc_agents.Orchestrator.Transitions.Records.{
  apply_transition-records, IsHonest, SameHandoff,
}
use hermes_sdlc_agents.Orchestrator.Transitions.{
  transition_row, apply_transition, resolve_transition, Provider, relabelled, call_of,
}
use hermes_sdlc_agents.Orchestrator.Transitions.Handoff.{resolve_transition_handoff, labels_of}
use hermes_sdlc_agents.Orchestrator.Response.Contract.{parse_final_response-IsContract, IsContract}
use hermes_sdlc_agents.Orchestrator.Items.{meets, WorkItem, Config}
use hermes_sdlc_agents.Orchestrator.Response.{FinalResponse, parse_final_response}
use hermes_sdlc_agents.Orchestrator.Database.Runs.{
  run_calls-IsSerial, Call, ensure, start, IsSerial, run_calls,
}

abbrev to_builder : TransitionSpec
to_builder =
    spec (some "builder") ("state:ready-for-build" ∷ "hermes:builder" ∷ [])
      ("state:ready-for-planning" ∷ "hermes:planner" ∷ [])
      "Planner completed the spec/plan. Ready for builder."

empty-IsSerial : IsSerial empty_db
unfolding keep
empty-IsSerial key = omega arith

abbrev calls : List Call
calls = ensure 1 "k" 1 "planner" ∷ start 2 "k" "run-1" none ∷ start 3 "k" "run-2" none ∷ []

run_calls-IsSerial_example : IsSerial (run_calls calls empty_db)
run_calls-IsSerial_example = run_calls-IsSerial calls empty_db empty-IsSerial

abbrev queued : Db
queued = record empty_db { role_assignments = new_assignment 1 "k" 1 "planner" ∷ [] }

abbrev response : FinalResponse
response = record {
  assignment_key = "k";
  role = "planner";
  final_status = ready_for_build;
  summary = "done";
  evidence = [];
  decision_log = [];
  risks = [];
  assumptions = [];
  next_handoff = none;
  block_reason = none;
}

abbrev payload : Fields
payload =
    field "output"
      (obj (
        field "assignment_key" (str "k") (
          field "role" (str "planner")
            (field "final_status" (str "READY_FOR_BUILD") (field "summary" (str "done") end)))))
      end

abbrev loads : String → Option Json
loads s = none

parse_final_response-IsContract_example : IsContract "planner" "k" response
unfolding parse_final_response get validate_final_status find_first lookup any_of
parse_final_response-IsContract_example =
    parse_final_response-IsContract loads payload "planner" "k" response refl

abbrev item : WorkItem
item = record {
  provider = "github";
  repository_id = "o/p";
  kind = "issue";
  external_id = "7";
  title = "t";
  body = "";
  body_hash = "";
  url = "";
  labels = "hermes:planner" ∷ [];
  assignees = [];
  updated_at = none;
}

abbrev config : Config
config = record {
  role_labels = [];
  role_assignees = [];
  terminal_labels = [];
  apply_transitions = true;
  transition_comment_only = false;
}

abbrev down : Provider
down i call = raise "timeout"

abbrev print : ℕ → String
print n = ""

abbrev dumps_comment : String → String
dumps_comment s = s

abbrev dumps : Fields → String
dumps f = ""

apply_transition-records_example :
    let after =
      apply_transition dumps_comment dumps print 3 item response config (some down) empty_db in
    ((resolve_transition "planner" ready_for_build ≡ none) × (after ≡ empty_db))
    ⊎ ((row : Transition) × (t : TransitionSpec) × (resolve_transition "planner" ready_for_build
          ≡ some t)
        × (after ≡ record_transition row empty_db)
        × SameHandoff row (transition_row 3 "k" "planner" (value ready_for_build) t.next_role)
        × IsHonest config (some down) item row)
apply_transition-records_example =
    apply_transition-records dumps_comment dumps print 3 item response config (some down) empty_db

abbrev moved : List String
moved =
    relabelled (call_of dumps_comment dumps print config to_builder response)
      ("hermes:planner" ∷ "bug" ∷ [])

resolve_transition_handoff_example :
    (meets moved (labels_of "builder") ≡ true)
    × (meets moved (labels_of "planner") ≡ false)
    × (meets ("hermes:planner" ∷ "bug" ∷ []) terminal_labels ≡ false
        → meets moved terminal_labels ≡ false)
unfolding resolve_transition
resolve_transition_handoff_example =
    resolve_transition_handoff dumps_comment dumps print config response to_builder "builder"
      ("hermes:planner" ∷ "bug" ∷ []) refl refl refl

abbrev started : Db
started = record queued {
  role_assignments =
      record (new_assignment 1 "k" 1 "planner") {
        status = "STARTED";
        attempt_count = 1;
        updated_at = 2;
      }
      ∷ [];
  agent_runs = new_run 2 "k" "run-1" none 1 ∷ [];
}
