-- ===== src/Orchestrator/Database/Writes.antt =====
-- db.py: the operations that change the database. `connect` commits when the block ends and rolls back
-- when it raises, so a caller goes on from the database that a call returns.
use hermes_sdlc_agents.Prelude.{
  ltb, ok, concat, raise, keep, true, not, require, ◌&&◌, ◌+◌, false, map, any_of, [], length,
  if◌then◌else◌, ◌==◌, ◌∷◌, Result, none, Option, join, ◌++◌, List, String, find_first, Bool, some,
  ℕ, ◌>>◌,
}
use hermes_sdlc_agents.Prelude.Rows.{update_where}
use hermes_sdlc_agents.Orchestrator.Database.{
  assignment_row, ◌∷◌, is_active, matching_requeue_assignments, WorkRow, Assignment, AgentRun,
  Transition, Db,
}
use hermes_sdlc_agents.Orchestrator.Items.{WorkItem}

pub data DbError : Type 0 where
  runtime_error : String → DbError
  integrity_error : DbError

abbrev pub is_item : WorkItem → WorkRow → Bool
is_item i r =
    r.provider == i.provider && r.repository_id == i.repository_id && r.external_id == i.external_id

abbrev pub work_row : ℕ → ℕ → WorkItem → WorkRow
work_row now id i = record {
  id = id;
  provider = i.provider;
  repository_id = i.repository_id;
  kind = i.kind;
  external_id = i.external_id;
  title = i.title;
  body_text = i.body;
  body_hash = i.body_hash;
  url = i.url;
  labels_json = join "\n" i.labels;
  assignees_json = join "\n" i.assignees;
  updated_at = i.updated_at;
  last_seen_at = now;
}

-- The id is that of the row after the statement: a row with the item's key is there.
unfoldable pub upsert_found : ℕ → WorkItem → Option WorkRow → Db → ℕ × Db
unfolding update_where
upsert_found now i (some row) s = (
  row.id,
  record s {
    work_items =
        update_where (is_item i) (λ r. record (work_row now r.id i) { kind = r.kind }) s.work_items;
  },
)
upsert_found now i none s = (
  s.next_work_item_id,
  record s {
    work_items = s.work_items ++ work_row now s.next_work_item_id i ∷ [];
    next_work_item_id = s.next_work_item_id + 1;
  },
)

unfoldable pub upsert_work_item : ℕ → WorkItem → Db → ℕ × Db
unfolding upsert_found
upsert_work_item now i s = upsert_found now i (find_first (is_item i) s.work_items) s

abbrev pub new_assignment : ℕ → String → ℕ → String → Assignment
new_assignment now key id role = record {
  assignment_key = key;
  work_item_id = id;
  role = role;
  status = "PENDING";
  attempt_count = 0;
  next_retry_at = none;
  blocked_reason = none;
  last_error_code = none;
  created_at = now;
  updated_at = now;
}

unfoldable pub ensure_assignment : ℕ → String → ℕ → String → Db → Bool × Db
ensure_assignment now key id role s =
    if any_of (λ a. a.assignment_key == key) s.role_assignments then (false, s) else (
      true,
      record s { role_assignments = s.role_assignments ++ new_assignment now key id role ∷ [] },
    )

abbrev pub new_run : ℕ → String → String → Option String → ℕ → AgentRun
new_run now key run session attempt = record {
  assignment_key = key;
  hermes_run_id = run;
  session_id = session;
  status = "ACTIVE";
  attempt_number = attempt;
  started_at = now;
  completed_at = none;
  raw_status = none;
  final_status = none;
  final_response_json = none;
  timed_out_at = none;
  error = none;
}

-- The update of the assignment, and the insert of the run.
unfoldable pub start_run : ℕ → String → String → Option String → ℕ → Db → Result DbError Db
unfolding update_where
start_run now key run session attempt s =
    if any_of (λ r. r.hermes_run_id == run) s.agent_runs
    then raise integrity_error
    else ok (record s {
      role_assignments =
          update_where (λ a. a.assignment_key == key)
            (λ a. record a {
              status = "STARTED";
              attempt_count = attempt;
              next_retry_at = none;
              blocked_reason = none;
              last_error_code = none;
              updated_at = now;
            })
            s.role_assignments;
      agent_runs = s.agent_runs ++ new_run now key run session attempt ∷ [];
    })

unfoldable pub start_found :
    ℕ → String → String → Option String → Option Assignment → Db → Result DbError Db
unfolding start_run
start_found now key run session none s =
    raise (runtime_error (concat ("assignment " ∷ key ∷ " does not exist" ∷ [])))
start_found now key run session (some a) s = start_run now key run session (a.attempt_count + 1) s

unfoldable pub mark_assignment_started :
    ℕ → String → String → Option String → Db → Result DbError Db
unfolding is_active assignment_row start_found
mark_assignment_started now key run session s = do
  require (not (any_of (is_active key) s.agent_runs))
      (runtime_error (concat ("assignment " ∷ key ∷ " already has an ACTIVE run" ∷ [])))
  start_found now key run session (assignment_row key s) s

-- The arguments of `mark_run_finished`.
pub record Finish : Type 0 where
  pub run_status : String
  pub final_status : Option String
  pub raw_status : String
  pub assignment_status : Option String
  pub error : Option String
  pub final_response_json : Option String
  pub timed_out : Bool
  pub next_retry_at : Option ℕ
  pub blocked_reason : Option String
  pub last_error_code : Option String

-- `assignment_status or run_status`
abbrev pub status_or : Option String → String → String
status_or none run_status = run_status
status_or (some status) run_status = if status == "" then run_status else status

abbrev pub finished_run : ℕ → Finish → AgentRun → AgentRun
finished_run now f r = record r {
  status = f.run_status;
  raw_status = some f.raw_status;
  final_status = f.final_status;
  final_response_json = f.final_response_json;
  error = f.error;
  completed_at = some now;
  timed_out_at = if f.timed_out then some now else r.timed_out_at;
}

abbrev pub finished_assignment : ℕ → Finish → Assignment → Assignment
finished_assignment now f a = record a {
  status = status_or f.assignment_status f.run_status;
  next_retry_at = f.next_retry_at;
  blocked_reason = f.blocked_reason;
  last_error_code = f.last_error_code;
  updated_at = now;
}

unfoldable pub mark_run_finished : ℕ → String → Finish → Db → Db
unfolding update_where is_active
mark_run_finished now key f s = record s {
  agent_runs = update_where (is_active key) (finished_run now f) s.agent_runs;
  role_assignments =
      update_where (λ a. a.assignment_key == key) (finished_assignment now f) s.role_assignments;
}

abbrev pub requeued : ℕ → Option ℕ → Assignment → Assignment
requeued now retry a = record a {
  status = "PENDING";
  next_retry_at = retry;
  blocked_reason = none;
  last_error_code = none;
  updated_at = now;
}

-- The transition that a requeue with a reason inserts for the assignment.
abbrev pub requeue_transition : ℕ → String → Assignment → Transition
requeue_transition now reason a = record {
  assignment_key = a.assignment_key;
  from_role = a.role;
  final_status = reason;
  next_role = none;
  provider_applied = false;
  provider_result = some "{\"mode\":\"local-requeue\"}";
  error = none;
  created_at = now;
}

abbrev pub requeue_transitions : ℕ → String → Option String → List Assignment → List Transition
requeue_transitions now key none table = []
requeue_transitions now key (some reason) table =
    map (requeue_transition now reason) (keep (λ a. a.assignment_key == key) table)

unfoldable pub requeue_assignment : ℕ → String → Option ℕ → Option String → Db → Db
unfolding update_where
requeue_assignment now key retry reason s = record s {
  role_assignments =
      update_where (λ a. a.assignment_key == key) (requeued now retry) s.role_assignments;
  transitions = s.transitions ++ requeue_transitions now key reason s.role_assignments;
}

unfoldable pub block_assignment : ℕ → String → String → String → Option String → Db → Db
unfolding update_where
block_assignment now key status reason code s = record s {
  role_assignments =
      update_where (λ a. a.assignment_key == key)
        (λ a. record a {
          status = status;
          blocked_reason = some reason;
          last_error_code = code;
          next_retry_at = none;
          updated_at = now;
        })
        s.role_assignments;
}

-- The loop of `requeue_assignments` over the rows.
unfoldable pub requeue_rows : ℕ → List Assignment → List Assignment → List Assignment
unfolding update_where
requeue_rows now [] table = table
requeue_rows now (row ∷ rows) table =
    requeue_rows now rows
      (update_where (λ a. a.assignment_key == row.assignment_key) (requeued now none) table)

unfoldable pub requeue_assignments :
    ℕ → String → List String → Option String → Option ℕ → Db → ℕ × Db
unfolding requeue_rows matching_requeue_assignments
requeue_assignments now role statuses key limit s =
    let rows = matching_requeue_assignments role statuses key limit s in
    (length rows, record s { role_assignments = requeue_rows now rows s.role_assignments })

unfoldable pub record_transition : Transition → Db → Db
record_transition t s = record s { transitions = s.transitions ++ t ∷ [] }

-- `COALESCE(MAX(ar.attempt_number), 0)` of the runs of an assignment.
unfoldable pub latest_attempt : String → List AgentRun → ℕ
latest_attempt key [] = 0
latest_attempt key (r ∷ rs) =
    let rest = latest_attempt key rs in
    if r.assignment_key == key && ltb rest r.attempt_number then r.attempt_number else rest

-- The `UPDATE` of `init_db`: no assignment counts fewer attempts than its runs have.
unfoldable pub repair_attempts : Db → Db
unfolding latest_attempt
repair_attempts s = record s {
  role_assignments =
      map
        (λ a.
          if ltb a.attempt_count (latest_attempt a.assignment_key s.agent_runs)
          then record a { attempt_count = latest_attempt a.assignment_key s.agent_runs }
          else a)
        s.role_assignments;
}
