-- ===== src/Orchestrator/Reconciler/Lifecycle.antt =====
-- The statuses of the assignments while a reconciliation runs, and the runs that it ends.
use hermes_sdlc_agents.Prelude.{
  Bool, any_of, arith, All-self, >>=-eq-ok, ok-injective, Memᴰ, All, subst, ℕ, eq_iff, find_first,
  String, true, false, Option, none, some, List, [], ◌∷◌, ok, refl, ◌≡◌, inl, inr, Bool-cases,
  if◌then◌else◌, ◌==◌, ap, ◌∙◌, sym,
}
use hermes_sdlc_agents.Prelude.Json.{obj}
use hermes_sdlc_agents.Prelude.Rows.{update_where, any_of-update_where_self}
use hermes_sdlc_agents.Orchestrator.Reconciler.Sound.{
  run_outcome-IsSound, is_requeued, IsSound, status_for,
}
use hermes_sdlc_agents.Orchestrator.Reconciler.Settle.{
  settled, reconcile_run, reconcile_runs, reconcile, follow_up, settle,
}
use hermes_sdlc_agents.Orchestrator.Reconciler.{
  empty_summary, Summary, Clock, Settings, Agent, Runtime,
}
use hermes_sdlc_agents.Orchestrator.Database.{
  is_active, AgentRun, active_runs, row_to_work_item, Db, assignment_row, Assignment,
}
use hermes_sdlc_agents.Orchestrator.Reconciler.Outcome.{
  run_outcome, has_attempts_remaining, Kind, Follow, Outcome, nothing, failure, requeue, completion,
  expired, lost_requeued, lost_final, invalid, stale, finished, config_blocked, failed_requeued,
  failed_finally, stopped,
}
use hermes_sdlc_agents.Orchestrator.Statuses.{TransitionSpec}
use hermes_sdlc_agents.Orchestrator.Items.{Config, WorkItem}
use hermes_sdlc_agents.Orchestrator.Response.{FinalResponse}
use hermes_sdlc_agents.Orchestrator.Transitions.{
  resolve_transition, apply_transition, apply_failure_transition, apply_spec, Provider,
}
use hermes_sdlc_agents.Orchestrator.Reconciler.Parse.{key_of, ActiveRun}
use hermes_sdlc_agents.Orchestrator.Database.Writes.{
  Finish, finished_run, mark_run_finished, record_transition, status_or,
}

-- The abstract view, by the key of an assignment: its status, and whether a run of it is active.
abbrev pub Lifecycle : Type 0
Lifecycle = String → Option String × Bool

abbrev pub status_in : Option Assignment → Option String
status_in none = none
status_in (some a) = some a.status

unfoldable pub view : Db → Lifecycle
unfolding assignment_row is_active
view s key = (status_in (assignment_row key s), any_of (is_active key) s.agent_runs)

abbrev pub set_status : String → Option String → Option String
set_status status none = none
set_status status (some old) = some status

-- An assignment gets a status, and its run ends; the others keep theirs.
abbrev pub becomes : String → String → Lifecycle → Lifecycle
becomes key status m k = if key == k then (set_status status (m k).0, false) else m k

unfoldable pub replay : List (String × String) → Lifecycle → Lifecycle
replay [] m = m
replay (step ∷ steps) m = replay steps (becomes (step.0) (step.1) m)

same_keys : (a key k : String) → (a == key) ≡ true → (a == k) ≡ true → (key == k) ≡ true
same_keys a key k h i = (eq_iff key k).1 (sym ((eq_iff a key).0 h) ∙ (eq_iff a k).0 i)

other_keys : (a key k : String) → (a == key) ≡ false → (a == k) ≡ true → (key == k) ≡ false
other_keys a key k h i = elim (Bool-cases (key == k)) [
  | inr e ↦ e
  | inl e ↦ absurd (cc (h, (eq_iff a key).1 ((eq_iff a k).0 i ∙ sym ((eq_iff key k).0 e))))
]

find_first-update_where :
    (key k status : String) (f : Assignment → Assignment) (xs : List Assignment)
    → ((a : Assignment) → (f a).assignment_key ≡ a.assignment_key)
    → ((a : Assignment) → (f a).status ≡ status)
    → status_in
        (find_first (λ a. a.assignment_key == k) (update_where (λ a. a.assignment_key == key) f xs))
      ≡ (if key == k
          then set_status status (status_in (find_first (λ a. a.assignment_key == k) xs))
          else status_in (find_first (λ a. a.assignment_key == k) xs))
unfolding find_first update_where
find_first-update_where key k status f [] keeps sets = elim (Bool-cases (key == k)) [
  | inl e ↦ rw (e) refl
  | inr e ↦ rw (e) refl
]
find_first-update_where key k status f (a ∷ xs) keeps sets =
    let rest = find_first-update_where key k status f xs keeps sets in
    elim (Bool-cases (a.assignment_key == key)) [
      | inl hit ↦ elim (Bool-cases (a.assignment_key == k)) [
        | inl here ↦
            rw (hit, keeps a, here, sets a) (rw (same_keys a.assignment_key key k hit here) refl)
        | inr there ↦ rw (hit, keeps a, there) rest
      ]
      | inr miss ↦ elim (Bool-cases (a.assignment_key == k)) [
        | inl here ↦ rw (miss, here) (rw (other_keys a.assignment_key key k miss here) refl)
        | inr there ↦ rw (miss, there) rest
      ]
    ]

other_runs :
    (now : ℕ) (finish : Finish) (key k : String) (rs : List AgentRun)
    → (key == k) ≡ false
    → any_of (is_active k) (update_where (is_active key) (finished_run now finish) rs)
      ≡ any_of (is_active k) rs
unfolding any_of update_where is_active
other_runs now finish key k [] h = refl
other_runs now finish key k (r ∷ rs) h = elim (Bool-cases (is_active key r)) [
  | inl e ↦ rw (e) (
      ground (
        arith,
        e,
        other_runs now finish key k rs h,
        eq_iff r.assignment_key key,
        eq_iff r.assignment_key k,
        eq_iff key k,
      ))
  | inr e ↦ rw (e) (ground (arith, other_runs now finish key k rs h))
]

status_or_for :
    (kind : Kind) (run_status : String)
    → status_or (some (status_for kind)) run_status ≡ status_for kind
status_or_for expired r = refl
status_or_for lost_requeued r = refl
status_or_for lost_final r = refl
status_or_for (invalid d) r = refl
status_or_for stale r = refl
status_or_for finished r = refl
status_or_for config_blocked r = refl
status_or_for failed_requeued r = refl
status_or_for failed_finally r = refl
status_or_for stopped r = refl

module _ (py : Runtime) (agent : Agent) (settings : Settings) (provider : Option Provider)
    (clock : ActiveRun → Clock) where
  -- What follows `mark_run_finished` changes no assignment and no run.
  abbrev pub IsSameRows : Db → Db → Type 0
  IsSameRows s t = (t.role_assignments ≡ s.role_assignments) × (t.agent_runs ≡ s.agent_runs)

  apply_spec-IsSameRows :
      (now : ℕ) (item : WorkItem) (r : FinalResponse) (config : Config) (o : Option TransitionSpec)
      (s : Db)
      → IsSameRows s (
          apply_spec py.dumps_comment
            (λ f. py.dumps (obj f))
            py.print
            now
            item
            r
            config
            provider
            o
            s)
  unfolding apply_spec record_transition
  apply_spec-IsSameRows now item r config none s = (refl, refl)
  apply_spec-IsSameRows now item r config (some t) s = (refl, refl)

  pub follow_up-IsSameRows :
      (run : ActiveRun) (follow : Follow) (s : Db)
      → IsSameRows s (follow_up py agent settings provider clock run follow s)
  unfolding follow_up apply_failure_transition apply_transition record_transition
  follow_up-IsSameRows run nothing s = (refl, refl)
  follow_up-IsSameRows run (failure status summary) s = (refl, refl)
  follow_up-IsSameRows run (requeue status) s = (refl, refl)
  follow_up-IsSameRows run (completion r) s =
      apply_spec-IsSameRows (clock run).recorded_at (row_to_work_item (run.2)) r
        settings.transitions (resolve_transition r.role r.final_status) s

  status-settle :
      (run : ActiveRun) (o : Outcome) (s : Db) (k : String)
      → IsSound py settings run o
      → status_in (assignment_row k (settle py agent settings provider clock run o s)) ≡ (
          if key_of run == k
          then set_status (status_for o.kind) (status_in (assignment_row k s))
          else status_in (assignment_row k s))
  unfolding settle mark_run_finished assignment_row
  status-settle run o s k v =
      let marked = mark_run_finished (clock run).finished_at (key_of run) o.finish s in
      ap (λ (table : List Assignment). status_in (find_first (λ a. a.assignment_key == k) table))
        (follow_up-IsSameRows run o.follow marked).0
      ∙ find_first-update_where (key_of run) k (status_for o.kind) _ s.role_assignments (λ a. refl)
          (λ a.
            ap (λ x. status_or x o.finish.run_status) v.status
            ∙ status_or_for o.kind o.finish.run_status)

  runs-settle :
      (run : ActiveRun) (o : Outcome) (s : Db) (k : String)
      → IsSound py settings run o
      → any_of (is_active k) (settle py agent settings provider clock run o s).agent_runs
        ≡ (if key_of run == k then false else any_of (is_active k) s.agent_runs)
  unfolding settle mark_run_finished is_active
  runs-settle run o s k v =
      let marked = mark_run_finished (clock run).finished_at (key_of run) o.finish s in
      ap (λ rs. any_of (is_active k) rs) (follow_up-IsSameRows run o.follow marked).1
      ∙ elim (Bool-cases (key_of run == k)) [
        | inl e ↦ rw (e) (
            subst
              (λ j.
                any_of (is_active j) (
                  update_where (is_active (key_of run))
                    (finished_run (clock run).finished_at o.finish) s.agent_runs)
                ≡ false)
              ((eq_iff (key_of run) k).0 e)
              (any_of-update_where_self (is_active (key_of run))
                (finished_run (clock run).finished_at o.finish) s.agent_runs
                (λ r. ground (arith, v.ended))))
        | inr e ↦ rw (e) (other_runs (clock run).finished_at o.finish (key_of run) k s.agent_runs e)
      ]

  view-settle :
      (run : ActiveRun) (o : Outcome) (s : Db) (k : String)
      → IsSound py settings run o
      → view (settle py agent settings provider clock run o s) k
        ≡ becomes (key_of run) (status_for o.kind) (view s) k
  unfolding view
  view-settle run o s k v =
      both (set_status (status_for o.kind) (view s k).0) (view s k).0 false (view s k).1
        (status-settle run o s k v) (runs-settle run o s k v)
    where
      both :
          {x : Option String} (y z : Option String) {b : Bool} (c d : Bool)
          → x ≡ (if key_of run == k then y else z)
          → b ≡ (if key_of run == k then c else d)
          → Path (Option String × Bool) (x, b) (if key_of run == k then (y, c) else (z, d))
      both y z c d h g = elim (Bool-cases (key_of run == k)) [
        | inl e ↦ rw (e) (cc (rw e at h, rw e at g))
        | inr e ↦ rw (e) (cc (rw e at h, rw e at g))
      ]

  -- A step of the abstract machine is for an active run of the database: its assignment gets the status
  -- of one of the branches, and is put back in the queue only if attempts remain.
  abbrev pub IsStep : List ActiveRun → String × String → Type 0
  IsStep runs step =
      (run : ActiveRun) × Memᴰ run runs
      × (kind : Kind) × (step.0 ≡ key_of run)
      × (step.1 ≡ status_for kind)
      × (is_requeued kind ≡ true → has_attempts_remaining run settings ≡ true)

  -- Steps of the abstract machine lead from the one database to the other.
  abbrev pub IsRefined : List ActiveRun → Db → Db → Type 0
  IsRefined runs s t =
      (steps : List (String × String)) × All (IsStep runs) steps
      × ((k : String) → view t k ≡ replay steps (view s) k)

  replay-ext :
      (steps : List (String × String)) (m l : Lifecycle) (k : String)
      → ((j : String) → m j ≡ l j)
      → replay steps m k ≡ replay steps l k
  unfolding replay
  replay-ext [] m l k h = h k
  replay-ext (step ∷ steps) m l k h =
      replay-ext steps (becomes (step.0) (step.1) m) (becomes (step.0) (step.1) l) k
        (λ j. rw (h j) refl)

  IsRefined-settle :
      (runs : List ActiveRun) (run : ActiveRun) (o : Outcome) (s t : Db)
      → Memᴰ run runs
      → IsSound py settings run o
      → IsRefined runs (settle py agent settings provider clock run o s) t
      → IsRefined runs s t
  unfolding replay
  IsRefined-settle runs run o s t m v (steps, legal, same) = (
    (key_of run, status_for o.kind) ∷ steps,
    ((run, m, o.kind, refl, refl, v.retried), legal),
    λ k. same k ∙ replay-ext steps _ _ k (λ j. view-settle run o s j v),
  )

  settled-IsRefined :
      (runs : List ActiveRun) (run : ActiveRun) (o : Option Outcome) (n : Summary) (s t : Db)
      → Memᴰ run runs
      → run_outcome py settings (clock run) run agent ≡ ok o
      → IsRefined runs (settled py agent settings provider clock run o (n, s)).1 t
      → IsRefined runs s t
  settled-IsRefined runs run none n s t m e r = r
  settled-IsRefined runs run (some o) n s t m e r =
      IsRefined-settle runs run o s t m (run_outcome-IsSound py settings run (clock run) agent o e)
        r

  reconcile_runs-IsRefined :
      (all runs : List ActiveRun) (acc out : Summary × Db)
      → All (λ r. Memᴰ r all) runs
      → reconcile_runs py agent settings provider clock runs acc ≡ ok out
      → IsRefined all acc.1 out.1
  unfolding reconcile_runs reconcile_run replay
  reconcile_runs-IsRefined all [] acc out m h =
      subst (λ (q : Summary × Db). IsRefined all acc.1 q.1) (ok-injective h) ([], tt, λ k. refl)
  reconcile_runs-IsRefined all (run ∷ runs) (n, s) out m h =
      let (next, e, h) =
        >>=-eq-ok (reconcile_run py agent settings provider clock run (n, s)) _ h in
      let (o, found, e) = >>=-eq-ok (run_outcome py settings (clock run) run agent) _ e in
      settled-IsRefined all run o _ s out.1 m.0 found (
        subst (λ (q : Summary × Db). IsRefined all q.1 out.1) (sym (ok-injective e))
          (reconcile_runs-IsRefined all runs next out m.1 h))

  -- A reconciliation that returns refines the abstract machine: the status of each assignment, and
  -- whether a run of it is active, are what its steps lead to. Each step ends the run of one assignment
  -- that had an active one, gives the assignment the status of a branch, and puts it back in the queue
  -- only if the run has attempts left.
  pub reconcile-IsRefined :
      (s t : Db) (n : Summary)
      → reconcile py agent settings provider clock s ≡ ok (n, t)
      → IsRefined (active_runs s) s t
  unfolding reconcile
  reconcile-IsRefined s t n h =
      reconcile_runs-IsRefined (active_runs s) (active_runs s) (empty_summary, s) (n, t)
        (All-self (active_runs s)) h
