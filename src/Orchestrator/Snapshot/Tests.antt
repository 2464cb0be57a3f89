-- ===== src/Orchestrator/Snapshot/Tests.antt =====
-- The theorem about a snapshot at a concrete input: the run of an item is active.
use hermes_sdlc_agents.Prelude.{
  ℕ, String, true, not, ◌&&◌, ◌+◌, none, some, Option, [], ◌∷◌, ◌≡◌, ◌≤◌, ◌==◌, refl, All, length,
  keep,
}
use hermes_sdlc_agents.Gateway.Core.{sort_by}
use hermes_sdlc_agents.Orchestrator.Reconciler.Tests.{running}
use hermes_sdlc_agents.Orchestrator.Snapshot.{Snapshot, Url, read_role_status_snapshot}
use hermes_sdlc_agents.Orchestrator.Snapshot.Public.{IsPublic, read_role_status_snapshot-IsPublic}

abbrev utc : ℕ → String
utc t = "2026"

abbrev iso : ℕ → Option String
iso t = some (utc t)

abbrev parse_url : String → Option Url
parse_url s =
    some (record { scheme = "https"; hostname = some "host"; username = none; password = none })

abbrev shown : Snapshot
shown = record {
  role = "builder";
  orchestrator_enabled = true;
  generated_at = "2026";
  queue = record { pending_due = 0; pending_delayed = 0; active = 1; blocked = 0 };
  items =
      record {
        assignment_key = "k";
        assignment_status = "STARTED";
        provider = "github";
        repository_id = "o/p";
        external_id = "7";
        title = "t";
        url = "";
        run = some (record {
          hermes_run_id = "run-1";
          status = "ACTIVE";
          attempt_number = 1;
          started_at = "2026";
        });
        next_retry_at = none;
        blocked_reason = none;
        last_error_code = none;
      }
      ∷ [];
}

read_role_status_snapshot-IsPublic_example :
    All (IsPublic iso utc parse_url) shown.items
    × (length shown.items ≤ 50)
    × (shown.queue.pending_due + shown.queue.pending_delayed + shown.queue.active
          + shown.queue.blocked
        ≡ length (
            keep
              (λ a. a.role == "builder" && not (a.status == "COMPLETED"))
              running.role_assignments))
unfolding read_role_status_snapshot sort_by keep
read_role_status_snapshot-IsPublic_example =
    read_role_status_snapshot-IsPublic iso utc parse_url true "builder" 50 5 running {snap = shown}
      refl
