-- ===== src/Orchestrator/Cycle.antt =====
-- cli.py: `run_once`, one cycle of the orchestrator, and `_start_pending`. `submit` is `submit_run` of
-- the agents' client with the prompt that prompts.py makes of the work item, the role and the key, or
-- the text of what it raises; `session_id` is that of prompts.py. An error rolls the database back. Of
-- `init_db` the cycle runs the `UPDATE` of the attempt counts; the columns are there.
pub mod Serial
mod Tests
use hermes_sdlc_agents.Prelude.{
  not, ℕ, String, Bool, true, false, Option, none, some, List, [], ◌∷◌, ◌+◌, length, if◌then◌else◌,
  Result, ok, raise, ◌>>=◌,
}
use hermes_sdlc_agents.Prelude.Json.{Json, Fields, get}
use hermes_sdlc_agents.Orchestrator.Database.{
  WorkRow, row_to_work_item, pending_assignments, Assignment, Db,
}
use hermes_sdlc_agents.Orchestrator.Items.{assignment_key, matches_role, WorkItem, Config}
use hermes_sdlc_agents.Orchestrator.Database.Writes.{
  repair_attempts, upsert_work_item, ensure_assignment, mark_assignment_started, DbError,
}
use hermes_sdlc_agents.Orchestrator.Reconciler.Settle.{reconcile, one_if}
use hermes_sdlc_agents.Orchestrator.Transitions.{Provider}
use hermes_sdlc_agents.Orchestrator.Reconciler.Outcome.{text, truthy}
use hermes_sdlc_agents.Orchestrator.Reconciler.{
  Agent, Clock, Runtime, ReconcileError, Summary, Settings,
}
use hermes_sdlc_agents.Orchestrator.Reconciler.Parse.{ActiveRun}

pub data CycleError : Type 0 where
  reconcile_failed : ReconcileError → CycleError
  client_failed : String → CycleError
  database_failed : DbError → CycleError

-- What the cycle reads of `Config` beside the reconciler.
pub record CycleConfig : Type 0 where
  pub enabled : Bool
  pub role : String
  pub max_starts_per_tick : ℕ
  pub settings : Settings

pub record Tally : Type 0 where
  pub matched : ℕ
  pub created : ℕ

pub record Report : Type 0 where
  pub fetched : ℕ
  pub matched : ℕ
  pub created_assignments : ℕ
  pub started_runs : ℕ
  pub reconciliation : Summary

-- A cycle that does nothing says why.
pub data Cycled : Type 0 where
  no_op : (reason : String) → Cycled
  done : Report → Cycled

-- The times of the statements.
pub record Times : Type 0 where
  pub run_at : ActiveRun → Clock
  pub item_at : WorkItem → ℕ
  pub pending_at : ℕ
  pub start_at : String → ℕ

abbrev pub or_client {ℓ} : {A : Type ℓ} → Result String A → Result CycleError A
or_client (ok f) = ok f
or_client (raise message) = raise (client_failed message)

abbrev pub or_database : Result DbError Db → Result CycleError Db
or_database (ok s) = ok s
or_database (raise e) = raise (database_failed e)

abbrev pub or_reconcile : Result ReconcileError (Summary × Db) → Result CycleError (Summary × Db)
or_reconcile (ok p) = ok p
or_reconcile (raise e) = raise (reconcile_failed e)

module _ (py : Runtime) where
  abbrev pub truthy_value : Option Json → Option Json
  truthy_value none = none
  truthy_value (some v) = if truthy py v then some v else none

  abbrev pub id_of : Option Json → Option Json → Result CycleError String
  id_of (some v) other = ok (text py v)
  id_of none (some v) = ok (text py v)
  id_of none none = raise (client_failed "Hermes /v1/runs response did not contain id or run_id")

  unfoldable pub extract_run_id : Fields → Result CycleError String
  extract_run_id response =
      id_of (truthy_value (get response "id")) (truthy_value (get response "run_id"))

  module _ (agent : Agent) (submit : WorkItem → String → String → Result String Fields)
      (session_id : WorkItem → String → String) (provider : Option Provider) (config : CycleConfig)
      (times : Times) where
    abbrev pub ensured : Tally → Bool × Db → Tally × Db
    ensured n (made, s) = (record { matched = n.matched + 1; created = n.created + one_if made }, s)

    abbrev pub enrolled : WorkItem → Tally → ℕ × Db → Tally × Db
    enrolled item n (id, s) = ensured n (
        ensure_assignment (times.item_at item) (assignment_key py.sha256 item config.role) id
          config.role s)

    -- The body of the loop over the items.
    unfoldable pub collect_item : WorkItem → Tally × Db → Tally × Db
    unfolding matches_role upsert_work_item ensure_assignment assignment_key
    collect_item item (n, s) =
        if matches_role py.lower item config.settings.transitions
        then enrolled item n (upsert_work_item (times.item_at item) item s)
        else (n, s)

    unfoldable pub collect : List WorkItem → Tally × Db → Tally × Db
    unfolding collect_item
    collect [] acc = acc
    collect (item ∷ items) acc = collect items (collect_item item acc)

    -- The body of the loop of `_start_pending`.
    unfoldable pub start_row : Assignment × WorkRow → ℕ × Db → Result CycleError (ℕ × Db)
    unfolding extract_run_id mark_assignment_started row_to_work_item
    start_row row (n, s) = do
      let item = row_to_work_item (row.1)
      let key = (row.0).assignment_key
      response ← or_client (submit item config.role key)
      run_id ← extract_run_id response
      t ← or_database (
          mark_assignment_started (times.start_at key) key run_id
            (some (session_id item config.role)) s)
      ok (n + 1, t)

    unfoldable pub start_rows : List (Assignment × WorkRow) → ℕ × Db → Result CycleError (ℕ × Db)
    unfolding start_row
    start_rows [] acc = ok acc
    start_rows (row ∷ rows) acc = do next ← start_row row acc; start_rows rows next

    unfoldable pub start_pending : Db → Result CycleError (ℕ × Db)
    unfolding start_rows pending_assignments
    start_pending s =
        start_rows (pending_assignments times.pending_at config.role config.max_starts_per_tick s)
          (0, s)

    -- What the cycle does with the lock held; `given` is what the provider lists,
    -- or the text of what it raises.
    unfoldable pub run_locked : Result String (List WorkItem) → Db → Result CycleError (Report × Db)
    unfolding reconcile collect start_pending repair_attempts
    run_locked given s = do
      reconciled ←
          or_reconcile
            (reconcile py agent config.settings provider times.run_at (repair_attempts s))
      items ← or_client given
      let (n, collected) = collect items (record { matched = 0; created = 0 }, reconciled.1)
      started ← start_pending collected
      ok (
        record {
          fetched = length items;
          matched = n.matched;
          created_assignments = n.created;
          started_runs = started.0;
          reconciliation = reconciled.0;
        },
        started.1,
      )

    abbrev pub cycled : Db → Result CycleError (Report × Db) → Result CycleError Cycled × Db
    cycled s (ok (report, t)) = (ok (done report), t)
    cycled s (raise e) = (raise e, s)

    -- `acquired` tells whether the lock was free.
    unfoldable pub run_once :
        Bool → Result String (List WorkItem) → Db → Result CycleError Cycled × Db
    unfolding run_locked
    run_once acquired items s =
        if not config.enabled
        then (ok (no_op "orchestrator disabled"), s)
        else if not acquired
        then (ok (no_op "lock held"), s)
        else cycled s (run_locked items s)
