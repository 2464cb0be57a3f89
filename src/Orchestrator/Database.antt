-- ===== src/Orchestrator/Database.antt =====
-- db.py: the tables of the orchestrator's database and the queries. Times are numbers of seconds:
-- `CURRENT_TIMESTAMP` and the retry times are printed alike, so that texts compare as the seconds do.
-- Rows stand in the order of insertion, which is the order taken among rows that `ORDER BY` does not
-- tell apart. Only the ids of `work_items` are fields: no query of db.py reads those of the other
-- tables, which number the rows in the order of insertion. Foreign keys are not enforced: the
-- connection leaves `PRAGMA foreign_keys` off.
pub mod Runs
pub mod Queue
pub mod Attempts
pub mod Writes
use hermes_sdlc_agents.Prelude.{
  none, some, any_of, leb, ◌&&◌, ◌+◌, nat_eq, ◌++◌, ◌||◌, not, keep, or_else, take, true, ◌==◌,
  false, ◌∷◌, find_first, map, ltb, split_on, [], Option, length, List, String, Bool, ℕ,
}
use hermes_sdlc_agents.Gateway.Core.{sort_by}
use hermes_sdlc_agents.Orchestrator.Items.{WorkItem}
use hermes_sdlc_agents.Prelude.Table

pub record WorkRow : Type 0 where
  pub id : ℕ
  pub provider : String
  pub repository_id : String
  pub kind : String
  pub external_id : String
  pub title : String
  pub body_text : String
  pub body_hash : String
  pub url : String
  pub labels_json : String
  pub assignees_json : String
  pub updated_at : Option String
  pub last_seen_at : ℕ

-- A row of `role_assignments`.
pub record Assignment : Type 0 where
  pub assignment_key : String
  pub work_item_id : ℕ
  pub role : String
  pub status : String
  pub attempt_count : ℕ
  pub next_retry_at : Option ℕ
  pub blocked_reason : Option String
  pub last_error_code : Option String
  pub created_at : ℕ
  pub updated_at : ℕ

-- A row of `agent_runs`.
pub record AgentRun : Type 0 where
  pub assignment_key : String
  pub hermes_run_id : String
  pub session_id : Option String
  pub status : String
  pub attempt_number : ℕ
  pub started_at : ℕ
  pub completed_at : Option ℕ
  pub raw_status : Option String
  pub final_status : Option String
  pub final_response_json : Option String
  pub timed_out_at : Option ℕ
  pub error : Option String

-- A row of `transitions`.
pub record Transition : Type 0 where
  pub assignment_key : String
  pub from_role : String
  pub final_status : String
  pub next_role : Option String
  pub provider_applied : Bool
  pub provider_result : Option String
  pub error : Option String
  pub created_at : ℕ

pub record Db : Type 0 where
  pub work_items : List WorkRow
  pub next_work_item_id : ℕ
  pub role_assignments : List Assignment
  pub agent_runs : List AgentRun
  pub transitions : List Transition

abbrev pub empty_db : Db
empty_db = record {
  work_items = [];
  next_work_item_id = 1;
  role_assignments = [];
  agent_runs = [];
  transitions = [];
}

-- `SELECT ... WHERE assignment_key=?`, and `fetchone`.
unfoldable pub assignment_row : String → Db → Option Assignment
assignment_row key s = find_first (λ a. a.assignment_key == key) s.role_assignments

unfoldable pub is_active : String → AgentRun → Bool
is_active key r = r.assignment_key == key && r.status == "ACTIVE"

-- `next_retry_at IS NULL OR next_retry_at <= CURRENT_TIMESTAMP`
unfoldable pub is_due : ℕ → Option ℕ → Bool
is_due now none = true
is_due now (some t) = leb t now

-- `next_retry_at > CURRENT_TIMESTAMP`
unfoldable pub is_delayed : ℕ → Option ℕ → Bool
is_delayed now none = false
is_delayed now (some t) = ltb now t

-- `JOIN work_items wi ON wi.id = ra.work_item_id`
unfoldable pub with_work_item : List WorkRow → List Assignment → List (Assignment × WorkRow)
with_work_item items [] = []
with_work_item items (a ∷ table) =
    map (λ w. (a, w)) (keep (λ w. nat_eq w.id a.work_item_id) items) ++ with_work_item items table

-- `ORDER BY COALESCE(ra.next_retry_at, ra.created_at), ra.updated_at`
abbrev pub queue_before : Assignment × WorkRow → Assignment × WorkRow → Bool
queue_before (a, v) (b, w) =
    let s = or_else a.next_retry_at a.created_at in
    let t = or_else b.next_retry_at b.created_at in
    ltb s t || (nat_eq s t && ltb a.updated_at b.updated_at)

unfoldable pub pending_assignments : ℕ → String → ℕ → Db → List (Assignment × WorkRow)
unfolding is_due with_work_item
pending_assignments now role limit s = take limit (
    sort_by queue_before (
      with_work_item s.work_items (
        keep (λ a. a.status == "PENDING" && a.role == role && is_due now a.next_retry_at)
          s.role_assignments)))

-- The two joins of `active_runs`.
unfoldable pub with_assignment :
    List WorkRow → List Assignment → List AgentRun → List (AgentRun × Assignment × WorkRow)
unfolding with_work_item
with_assignment items table [] = []
with_assignment items table (r ∷ rs) =
    map (λ p. (r, p.0, p.1))
      (with_work_item items (keep (λ a. a.assignment_key == r.assignment_key) table))
    ++ with_assignment items table rs

unfoldable pub active_runs : Db → List (AgentRun × Assignment × WorkRow)
unfolding with_assignment
active_runs s =
    sort_by (λ p q. ltb (p.0).started_at (q.0).started_at)
      (with_assignment s.work_items s.role_assignments
        (keep (λ r. r.status == "ACTIVE") s.agent_runs))

abbrev pub attempts_of : Option Assignment → ℕ
attempts_of none = 0
attempts_of (some a) = a.attempt_count

unfoldable pub assignment_attempt_count : String → Db → ℕ
unfolding assignment_row
assignment_attempt_count key s = attempts_of (assignment_row key s)

-- `COUNT(*) ... GROUP BY`, of the column's values.
unfoldable pub group_counts : List String → List (String × ℕ)
group_counts [] = []
group_counts (v ∷ vs) =
    let rest = group_counts vs in Table.insert v (or_else (Table.lookup v rest) 0 + 1) rest

abbrev pub has_role : Option String → String → Bool
has_role none r = true
has_role (some role) r = r == role

unfoldable pub assignment_status_counts : Option String → Db → List (String × ℕ)
unfolding group_counts
assignment_status_counts role s =
    group_counts (map (λ a. a.status) (keep (λ a. has_role role a.role) s.role_assignments))

-- The runs of a role, once for each assignment that the join finds.
unfoldable pub runs_of : String → List Assignment → List AgentRun → List AgentRun
runs_of role table [] = []
runs_of role table (r ∷ rs) =
    map (λ _. r) (keep (λ a. a.assignment_key == r.assignment_key && a.role == role) table)
    ++ runs_of role table rs

unfoldable pub run_status_counts : Option String → Db → List (String × ℕ)
unfolding group_counts runs_of
run_status_counts none s = group_counts (map (λ r. r.status) s.agent_runs)
run_status_counts (some role) s =
    group_counts (map (λ r. r.status) (runs_of role s.role_assignments s.agent_runs))

pub record QueueCounts : Type 0 where
  pub pending_due : ℕ
  pub pending_delayed : ℕ
  pub active : ℕ

-- `SUM(CASE WHEN ... THEN 1 ELSE 0 END)`, where no row at all counts as 0.
abbrev pub count_where {ℓ} : {A : Type ℓ} → (A → Bool) → List A → ℕ
count_where p xs = length (keep p xs)

unfoldable pub queue_counts : ℕ → String → Db → QueueCounts
unfolding is_due is_delayed
queue_counts now role s =
    let rows = keep (λ a. a.role == role) s.role_assignments in
    record {
      pending_due = count_where (λ a. a.status == "PENDING" && is_due now a.next_retry_at) rows;
      pending_delayed =
          count_where (λ a. a.status == "PENDING" && is_delayed now a.next_retry_at) rows;
      active = count_where (λ a. a.status == "STARTED") rows;
    }

abbrev pub limited {ℓ} : {A : Type ℓ} → Option ℕ → List A → List A
limited none xs = xs
limited (some n) xs = take n xs

abbrev pub is_key : Option String → String → Bool
is_key none k = true
is_key (some key) k = k == key

unfoldable pub matching_requeue_assignments :
    String → List String → Option String → Option ℕ → Db → List Assignment
matching_requeue_assignments role statuses key limit s = limited limit (
    sort_by (λ a b. ltb a.updated_at b.updated_at)
      (keep
        (λ a. a.role == role && any_of (λ t. a.status == t) statuses && is_key key a.assignment_key)
        s.role_assignments))

pub record Counts : Type 0 where
  pub work_items : ℕ
  pub role_assignments : ℕ
  pub agent_runs : ℕ
  pub transitions : ℕ

unfoldable pub counts : Db → Counts
counts s = record {
  work_items = length s.work_items;
  role_assignments = length s.role_assignments;
  agent_runs = length s.agent_runs;
  transitions = length s.transitions;
}

-- `tuple(filter(None, text.split("\n")))`
unfoldable pub split_lines : String → List String
unfolding split_on
split_lines text = keep (λ s. not (s == "")) (split_on b'\n' text)

unfoldable pub row_to_work_item : WorkRow → WorkItem
unfolding split_lines
row_to_work_item r = record {
  provider = r.provider;
  repository_id = r.repository_id;
  kind = r.kind;
  external_id = r.external_id;
  title = r.title;
  body = r.body_text;
  body_hash = r.body_hash;
  url = r.url;
  labels = split_lines r.labels_json;
  assignees = split_lines r.assignees_json;
  updated_at = r.updated_at;
}
