-- ===== src/Orchestrator/Reconciler/Settle.antt =====
-- reconciler.py: the writes and the counts of an outcome, and the loop over the active runs.
use hermes_sdlc_agents.Prelude.{
  ◌>>=◌, Result, ◌+◌, ℕ, Bool, true, false, Option, none, some, List, [], ◌∷◌, if◌then◌else◌, ok,
}
use hermes_sdlc_agents.Prelude.Json.{str, obj, end, field}
use hermes_sdlc_agents.Orchestrator.Transitions.{
  transition_row, apply_transition, apply_failure_transition, Provider,
}
use hermes_sdlc_agents.Orchestrator.Reconciler.Parse.{role_of, key_of, ActiveRun}
use hermes_sdlc_agents.Orchestrator.Reconciler.{
  empty_summary, ReconcileError, Clock, Settings, Agent, Runtime, Summary,
}
use hermes_sdlc_agents.Orchestrator.Database.{row_to_work_item, active_runs, Db}
use hermes_sdlc_agents.Orchestrator.Database.Writes.{record_transition, mark_run_finished}
use hermes_sdlc_agents.Orchestrator.Reconciler.Outcome.{
  run_outcome, Kind, Follow, Outcome, expired, lost_requeued, lost_final, invalid, stale, finished,
  config_blocked, failed_requeued, failed_finally, stopped, nothing, failure, requeue, completion,
}

abbrev pub tally : Kind → Summary → Summary
tally expired n = record n { timeout = n.timeout + 1 }
tally lost_requeued n = record n { lost = n.lost + 1; requeued = n.requeued + 1 }
tally lost_final n = record n { lost = n.lost + 1; failed_final = n.failed_final + 1 }
tally (invalid diagnosed) n = record n {
  invalid_output = n.invalid_output + 1;
  repair_failed = n.repair_failed + (if diagnosed then 1 else 0);
}
tally stale n = record n { invalid_output = n.invalid_output + 1 }
tally finished n = record n { completed = n.completed + 1 }
tally config_blocked n = record n { failed = n.failed + 1; blocked_config = n.blocked_config + 1 }
tally failed_requeued n = record n { failed = n.failed + 1; requeued = n.requeued + 1 }
tally failed_finally n = record n { failed = n.failed + 1; failed_final = n.failed_final + 1 }
tally stopped n = record n { cancelled = n.cancelled + 1 }

abbrev pub one_if : Bool → ℕ
one_if true = 1
one_if false = 0

unfoldable pub count_outcome : Outcome → Summary → Summary
count_outcome o n =
    let m = tally o.kind n in
    record m {
      repaired_output = m.repaired_output + one_if o.repaired_output;
      model_repair_attempted = m.model_repair_attempted + one_if o.model_repair_attempted;
    }

module _ (py : Runtime) (agent : Agent) (settings : Settings) (provider : Option Provider)
    (clock : ActiveRun → Clock) where
  unfoldable pub follow_up : ActiveRun → Follow → Db → Db
  unfolding apply_failure_transition apply_transition record_transition row_to_work_item
  follow_up run nothing s = s
  follow_up run (failure failure_status summary) s =
      apply_failure_transition py.dumps_comment (λ f. py.dumps (obj f)) (clock run).recorded_at
        (row_to_work_item (run.2)) (key_of run) (role_of run) failure_status summary
        settings.transitions provider s
  follow_up run (requeue final_status) s =
      record_transition
        (record (transition_row (clock run).recorded_at (key_of run) (role_of run) final_status
          none) {
            provider_result = some (py.dumps (obj (field "mode" (str "local-requeue") end)));
          })
        s
  follow_up run (completion r) s =
      apply_transition py.dumps_comment (λ f. py.dumps (obj f)) py.print (clock run).recorded_at
        (row_to_work_item (run.2)) r settings.transitions provider s

  unfoldable pub settle : ActiveRun → Outcome → Db → Db
  unfolding follow_up mark_run_finished
  settle run o s =
      follow_up run o.follow (mark_run_finished (clock run).finished_at (key_of run) o.finish s)

  abbrev pub settled : ActiveRun → Option Outcome → Summary × Db → Summary × Db
  settled run none (n, s) = (n, s)
  settled run (some o) (n, s) = (count_outcome o n, settle run o s)

  -- The body of the loop.
  unfoldable pub reconcile_run : ActiveRun → Summary × Db → Result ReconcileError (Summary × Db)
  unfolding run_outcome settle count_outcome
  reconcile_run run (n, s) = do
    o ← run_outcome py settings (clock run) run agent
    ok (settled run o (record n { active = n.active + 1 }, s))

  unfoldable pub reconcile_runs :
      List ActiveRun → Summary × Db → Result ReconcileError (Summary × Db)
  unfolding reconcile_run
  reconcile_runs [] acc = ok acc
  reconcile_runs (run ∷ runs) acc = do next ← reconcile_run run acc; reconcile_runs runs next

  unfoldable pub reconcile : Db → Result ReconcileError (Summary × Db)
  unfolding reconcile_runs active_runs
  reconcile s = reconcile_runs (active_runs s) (empty_summary, s)
