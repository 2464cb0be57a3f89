-- ===== src/Orchestrator/Database/Runs.antt =====
-- The runs of an assignment: at most one is active.
use hermes_sdlc_agents.Prelude.{
  find_first, raise, ap, ok, eq_iff, Result, subst, any_of, inr, inl, if◌then◌else◌, Bool-cases, [],
  ◌∷◌, ◌==◌, ◌++◌, arith, List, Returns, ◌≡◌, ◌≤◌, ◌+◌, length, Option, Bool, keep, String, ℕ, refl,
  none, some, true, false,
}
use hermes_sdlc_agents.Prelude.Rows.{keep_none, update_where}
use hermes_sdlc_agents.Orchestrator.Database.Writes.{
  is_item, upsert_found, record_transition, requeue_assignments, DbError, block_assignment,
  ensure_assignment, upsert_work_item, requeue_assignment, new_run, start_run, finished_run,
  start_found, Finish, mark_run_finished, mark_assignment_started,
}
use hermes_sdlc_agents.Orchestrator.Database.{
  WorkRow, Transition, Assignment, assignment_row, ◌∷◌, Db, AgentRun, is_active,
}
use hermes_sdlc_agents.Orchestrator.Items.{WorkItem}

module _ {ℓ} {A : Type ℓ} where
  length-keep-append_one :
      (p : A → Bool) (xs : List A) (y : A)
      → length (keep p (xs ++ y ∷ [])) ≡ length (keep p xs) + (if p y then 1 else 0)
  unfolding keep
  length-keep-append_one p [] y = ground arith
  length-keep-append_one p (x ∷ xs) y = ground (arith, length-keep-append_one p xs y)

  length-keep-update_where :
      (q p : A → Bool) (f : A → A) (xs : List A)
      → ((x : A) → p x ≡ true → q (f x) ≡ true → q x ≡ true)
      → length (keep q (update_where p f xs)) ≤ length (keep q xs)
  unfolding keep update_where
  length-keep-update_where q p f [] h = omega arith
  length-keep-update_where q p f (x ∷ xs) h = elim (Bool-cases (p x)) [
    | inl hit ↦ rw (hit) (ground (arith, h x hit, length-keep-update_where q p f xs h))
    | inr miss ↦ rw (miss) (ground (arith, length-keep-update_where q p f xs h))
  ]

-- No assignment has two active runs.
abbrev pub IsSerial : Db → Type 0
IsSerial s = (key : String) → length (keep (is_active key) s.agent_runs) ≤ 1

pub still_active :
    (now : ℕ) (key : String) (f : Finish) (k : String) (r : AgentRun)
    → is_active key r ≡ true
    → is_active k (finished_run now f r) ≡ true
    → is_active k r ≡ true
unfolding is_active
still_active now key f k r h e = ground arith

append_run-IsSerial :
    (now : ℕ) (key run : String) (session : Option String) (attempt : ℕ) (s : Db)
    → IsSerial s
    → any_of (is_active key) s.agent_runs ≡ false
    → (k : String)
    → length (keep (is_active k) (s.agent_runs ++ new_run now key run session attempt ∷ [])) ≤ 1
unfolding is_active
append_run-IsSerial now key run session attempt s v e k =
    let count =
      length-keep-append_one (is_active k) s.agent_runs (new_run now key run session attempt) in
    elim (Bool-cases (key == k)) [
      | inl same ↦
          let none_active =
            subst (λ z. any_of (is_active z) s.agent_runs ≡ false) ((eq_iff key k).0 same) e in
          ground (arith, count, ap length (keep_none (is_active k) s.agent_runs none_active))
      | inr differs ↦ ground (arith, count, v k)
    ]

start_found-IsSerial :
    (now : ℕ) (key run : String) (session : Option String) (o : Option Assignment) (s : Db)
    → IsSerial s
    → any_of (is_active key) s.agent_runs ≡ false
    → Returns IsSerial (start_found now key run session o s)
unfolding start_found start_run
start_found-IsSerial now key run session none s v e = tt
start_found-IsSerial now key run session (some a) s v e =
    elim (Bool-cases (any_of (λ r. r.hermes_run_id == run) s.agent_runs)) [
      | inl used ↦ rw (used) tt
      | inr fresh ↦ rw (fresh) (append_run-IsSerial now key run session (a.attempt_count + 1) s v e)
    ]

pub mark_assignment_started-IsSerial :
    (now : ℕ) (key run : String) (session : Option String) (s : Db)
    → IsSerial s
    → Returns IsSerial (mark_assignment_started now key run session s)
unfolding mark_assignment_started
mark_assignment_started-IsSerial now key run session s v =
    elim (Bool-cases (any_of (is_active key) s.agent_runs)) [
      | inl busy ↦ rw (busy) tt
      | inr idle ↦
          rw (idle) (start_found-IsSerial now key run session (assignment_row key s) s v idle)
    ]

pub mark_run_finished-IsSerial :
    (now : ℕ) (key : String) (f : Finish) (s : Db)
    → IsSerial s
    → IsSerial (mark_run_finished now key f s)
unfolding mark_run_finished
mark_run_finished-IsSerial now key f s v k = omega (
  arith,
  v k,
  length-keep-update_where (is_active k) (is_active key) (finished_run now f) s.agent_runs
      (still_active now key f k),
)

-- A call of one of the operations that write.
pub data Call : Type 0 where
  upsert_item : (now : ℕ) (i : WorkItem) → Call
  ensure : (now : ℕ) (key : String) (id : ℕ) (role : String) → Call
  start : (now : ℕ) (key run : String) (session : Option String) → Call
  finish : (now : ℕ) (key : String) (f : Finish) → Call
  requeue : (now : ℕ) (key : String) (retry : Option ℕ) (reason : Option String) → Call
  block : (now : ℕ) (key status reason : String) (code : Option String) → Call
  requeue_many :
      (now : ℕ) (role : String) (statuses : List String) (key : Option String) (limit : Option ℕ)
      → Call
  record_row : (t : Transition) → Call

-- A call that raises leaves the database as it was.
abbrev pub state_or : Db → Result DbError Db → Db
state_or s (ok t) = t
state_or s (raise e) = s

unfoldable pub after : Call → Db → Db
after (upsert_item now i) s = (upsert_work_item now i s).1
after (ensure now key id role) s = (ensure_assignment now key id role s).1
after (start now key run session) s = state_or s (mark_assignment_started now key run session s)
after (finish now key f) s = mark_run_finished now key f s
after (requeue now key retry reason) s = requeue_assignment now key retry reason s
after (block now key status reason code) s = block_assignment now key status reason code s
after (requeue_many now role statuses key limit) s =
    (requeue_assignments now role statuses key limit s).1
after (record_row t) s = record_transition t s

unfoldable pub run_calls : List Call → Db → Db
unfolding after
run_calls [] s = s
run_calls (c ∷ cs) s = run_calls cs (after c s)

state_or-IsSerial :
    (s : Db) (r : Result DbError Db) → IsSerial s → Returns IsSerial r → IsSerial (state_or s r)
state_or-IsSerial s (ok t) v h = h
state_or-IsSerial s (raise e) v h = v

pub upsert_runs :
    (now : ℕ) (i : WorkItem) (s : Db) → (upsert_work_item now i s).1.agent_runs ≡ s.agent_runs
unfolding upsert_work_item upsert_found
upsert_runs now i s = found (find_first (is_item i) s.work_items)
  where
    found : (o : Option WorkRow) → (upsert_found now i o s).1.agent_runs ≡ s.agent_runs
    found none = refl
    found (some row) = refl

pub ensure_runs :
    (now : ℕ) (key : String) (id : ℕ) (role : String) (s : Db)
    → (ensure_assignment now key id role s).1.agent_runs ≡ s.agent_runs
unfolding ensure_assignment
ensure_runs now key id role s =
    elim (Bool-cases (any_of (λ a. a.assignment_key == key) s.role_assignments)) [
      | inl e ↦ rw (e) refl
      | inr e ↦ rw (e) refl
    ]

after-IsSerial : (c : Call) (s : Db) → IsSerial s → IsSerial (after c s)
unfolding after requeue_assignment block_assignment requeue_assignments record_transition
after-IsSerial (upsert_item now i) s v = rw (upsert_runs now i s) v
after-IsSerial (ensure now key id role) s v = rw (ensure_runs now key id role s) v
after-IsSerial (start now key run session) s v =
    state_or-IsSerial s _ v (mark_assignment_started-IsSerial now key run session s v)
after-IsSerial (finish now key f) s v = mark_run_finished-IsSerial now key f s v
after-IsSerial (requeue now key retry reason) s v = v
after-IsSerial (block now key status reason code) s v = v
after-IsSerial (requeue_many now role statuses key limit) s v = v
after-IsSerial (record_row t) s v = v

-- Whatever calls are made on a database in which no assignment has two active runs, none has two
-- afterwards.
pub run_calls-IsSerial : (cs : List Call) (s : Db) → IsSerial s → IsSerial (run_calls cs s)
unfolding run_calls
run_calls-IsSerial [] s v = v
run_calls-IsSerial (c ∷ cs) s v = run_calls-IsSerial cs (after c s) (after-IsSerial c s v)
