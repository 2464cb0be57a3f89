-- ===== src/Orchestrator/Reconciler/Tests.antt =====
-- The theorems about the reconciler at concrete inputs.
use hermes_sdlc_agents.Prelude.{
  length, keep, true, false, none, some, [], ◌∷◌, raise, refl, ◌≡◌, Memᴰ, arith,
}
use hermes_sdlc_agents.Prelude.Json.{Json, str, obj, end, field}
use hermes_sdlc_agents.Gateway.Core.{sort_by}
use hermes_sdlc_agents.Orchestrator.Reconciler.Settle.{reconcile}
use hermes_sdlc_agents.Orchestrator.Reconciler.Outcome.{
  run_outcome, finish_as, Outcome, lost_requeued, requeue,
}
use hermes_sdlc_agents.Orchestrator.Transitions.{transition_row}
use hermes_sdlc_agents.Orchestrator.Reconciler.Balance.{reconcile-IsBalanced, IsBalanced}
use hermes_sdlc_agents.Orchestrator.Reconciler.Scrubbed.{scrub_exact, is_clean}
use hermes_sdlc_agents.Orchestrator.Reconciler.Lifecycle.{reconcile-IsRefined, IsRefined}
use hermes_sdlc_agents.Orchestrator.Database.Writes.{
  finished_run, new_assignment, finished_assignment, new_run,
}
use hermes_sdlc_agents.Orchestrator.Reconciler.{
  empty_summary, Clock, Runtime, Agent, Settings, Summary, not_found,
}
use hermes_sdlc_agents.Orchestrator.Reconciler.Ended.{reconcile-ends, IsIdle}
use hermes_sdlc_agents.Orchestrator.Database.{
  is_active, active_runs, Db, Assignment, AgentRun, WorkRow,
}
use hermes_sdlc_agents.Orchestrator.Reconciler.Scrub.{scrub}
use hermes_sdlc_agents.Orchestrator.Reconciler.Sound.{run_outcome-IsSound, IsSound}
use hermes_sdlc_agents.Orchestrator.Database.Runs.{IsSerial}
use hermes_sdlc_agents.Orchestrator.Reconciler.Parse.{ActiveRun}

abbrev pub py : Runtime
py = record {
  sha256 = λ s. s;
  lower = λ s. s;
  dumps = λ j. "{}";
  dumps_comment = λ s. s;
  loads = λ s. some (obj end);
  equal = λ a b. true;
  text_of = λ j. "";
  truthy_number = λ s. true;
  key_error = λ s. s;
  stamp = λ n. "";
  print = λ n. "";
}

abbrev pub agent : Agent
agent = record { get_run = λ id. not_found "gone"; repair = λ request. raise "" }

abbrev pub settings : Settings
settings = record {
  run_timeout_seconds = 60;
  retry_lost_runs = true;
  retry_transient_failures = true;
  retry_delay_seconds = 300;
  max_attempts_per_assignment = 3;
  final_response_repair_enabled = true;
  final_response_model_repair_enabled = true;
  final_response_repair_max_chars = 1000;
  final_response_repair_model = "";
  final_response_repair_timeout_seconds = 1;
  transitions = record {
    role_labels = [];
    role_assignees = [];
    terminal_labels = [];
    apply_transitions = false;
    transition_comment_only = false;
  };
}

abbrev pub clock : ActiveRun → Clock
clock run = record { checked_at = 3000000; retry_from = 3000000; finished_at = 4; recorded_at = 5 }

abbrev row : WorkRow
row = record {
  id = 1;
  provider = "github";
  repository_id = "o/p";
  kind = "issue";
  external_id = "7";
  title = "t";
  body_text = "";
  body_hash = "h";
  url = "";
  labels_json = "";
  assignees_json = "";
  updated_at = none;
  last_seen_at = 1;
}

abbrev assignment : Assignment
assignment = record (new_assignment 1 "k" 1 "builder") { status = "STARTED"; attempt_count = 1 }

abbrev agent_run : AgentRun
agent_run = new_run 2 "k" "run-1" none 1

abbrev active : ActiveRun
active = (agent_run, assignment, row)

abbrev pub running : Db
running = record {
  work_items = row ∷ [];
  next_work_item_id = 2;
  role_assignments = assignment ∷ [];
  agent_runs = agent_run ∷ [];
  transitions = [];
}

abbrev lost : Outcome
lost = record {
  kind = lost_requeued;
  finish = record (finish_as "LOST" "{}" "PENDING") {
    error = some "Hermes run disappeared from gateway runtime; requeued locally";
    next_retry_at = some 303;
  };
  follow = requeue "LOST_REQUEUED";
  repaired_output = false;
  model_repair_attempted = false;
}

abbrev requeued_db : Db
requeued_db = record running {
  role_assignments = finished_assignment 4 lost.finish assignment ∷ [];
  agent_runs = finished_run 4 lost.finish agent_run ∷ [];
  transitions =
      record (transition_row 5 "k" "builder" "LOST_REQUEUED" none) { provider_result = some "{}" }
      ∷ [];
}

abbrev counted : Summary
counted = record empty_summary { active = 1; lost = 1; requeued = 1 }

pub running-IsSerial : IsSerial running
unfolding keep is_active
running-IsSerial key = ground arith

run_outcome-IsSound_example : IsSound py settings active lost
unfolding run_outcome
run_outcome-IsSound_example = run_outcome-IsSound py settings active (clock active) agent lost refl

reconcile-IsRefined_example :
    IsRefined py agent settings none clock (active_runs running) running requeued_db
unfolding reconcile sort_by keep
reconcile-IsRefined_example =
    reconcile-IsRefined py agent settings none clock running requeued_db counted refl

reconcile-ends_example : IsIdle py agent settings none clock "k" requeued_db
unfolding reconcile sort_by keep
reconcile-ends_example =
    reconcile-ends py agent settings none clock running requeued_db counted active lost refl
      (Memᴰ.head refl) refl

reconcile-IsBalanced_example : IsBalanced counted × (counted.active ≡ length (active_runs running))
unfolding reconcile sort_by keep
reconcile-IsBalanced_example =
    reconcile-IsBalanced py agent settings none clock running requeued_db counted refl

abbrev thought : Json
thought = obj (field "cot" (str "hidden") (field "summary" (str "done") end))

scrub_exact_example :
    (is_clean (scrub thought) ≡ true) × (is_clean thought ≡ true → scrub thought ≡ thought)
scrub_exact_example = scrub_exact thought
