-- ===== src/Orchestrator/Cycle/Tests.antt =====
-- The theorem about a cycle at a concrete input: an item of the role is new, the run of another one is lost.
use hermes_sdlc_agents.Prelude.{String, none, Result, ok, [], ◌∷◌, true}
use hermes_sdlc_agents.Prelude.Json.{Fields, str, field, end}
use hermes_sdlc_agents.Orchestrator.Items.{WorkItem}
use hermes_sdlc_agents.Orchestrator.Database.Runs.{IsSerial}
use hermes_sdlc_agents.Orchestrator.Reconciler.Tests.{
  py, agent, settings, clock, running, running-IsSerial,
}
use hermes_sdlc_agents.Orchestrator.Cycle.{CycleConfig, Times, run_once}
use hermes_sdlc_agents.Orchestrator.Cycle.Serial.{run_once-IsSerial, IsReported}

abbrev item : WorkItem
item = record {
  provider = "github";
  repository_id = "o/p";
  kind = "issue";
  external_id = "8";
  title = "u";
  body = "";
  body_hash = "h";
  url = "";
  labels = "build" ∷ [];
  assignees = [];
  updated_at = none;
}

abbrev config : CycleConfig
config = record {
  enabled = true;
  role = "builder";
  max_starts_per_tick = 1;
  settings = record settings {
    transitions = record settings.transitions { role_labels = "build" ∷ [] };
  };
}

abbrev times : Times
times = record { run_at = clock; item_at = λ i. 6; pending_at = 7; start_at = λ key. 8 }

abbrev submit : WorkItem → String → String → Result String Fields
submit i role key = ok (field "run_id" (str "run-2") end)

abbrev session_id : WorkItem → String → String
session_id i role = "session"

run_once-IsSerial_example :
    IsSerial (run_once py agent submit session_id none config times true (ok (item ∷ [])) running).1
    × IsReported py agent submit session_id none config times
        (run_once py agent submit session_id none config times true (ok (item ∷ [])) running).0
run_once-IsSerial_example =
    run_once-IsSerial py agent submit session_id none config times true (ok (item ∷ [])) running
      running-IsSerial
