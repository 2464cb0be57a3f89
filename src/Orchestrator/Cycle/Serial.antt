-- ===== src/Orchestrator/Cycle/Serial.antt =====
-- What a cycle keeps.
use hermes_sdlc_agents.Prelude.{
  length-take, Returns, ℕ, String, Bool, true, false, Option, some, List, [], ◌∷◌, ◌+◌, ◌≤◌, ◌≡◌,
  refl, length, Result, ok, raise, arith, inl, inr, Bool-cases, >>=-eq-ok, ok-injective, subst,
}
use hermes_sdlc_agents.Prelude.Json.{Fields}
use hermes_sdlc_agents.Orchestrator.Database.Runs.{
  mark_assignment_started-IsSerial, upsert_runs, ensure_runs, IsSerial,
}
use hermes_sdlc_agents.Orchestrator.Database.Writes.{
  mark_assignment_started, upsert_work_item, DbError, ensure_assignment, repair_attempts,
}
use hermes_sdlc_agents.Orchestrator.Cycle.{
  extract_run_id, or_client, or_database, or_reconcile, cycled, ensured, Cycled, start_pending,
  Report, run_once, Tally, start_row, collect_item, start_rows, run_locked, CycleError, collect,
  Times, CycleConfig, no_op, done,
}
use hermes_sdlc_agents.Orchestrator.Database.{
  row_to_work_item, WorkRow, Assignment, Db, pending_assignments,
}
use hermes_sdlc_agents.Orchestrator.Reconciler.Ended.{reconcile-IsSerial}
use hermes_sdlc_agents.Orchestrator.Reconciler.Settle.{reconcile}
use hermes_sdlc_agents.Orchestrator.Items.{assignment_key, matches_role, WorkItem}
use hermes_sdlc_agents.Orchestrator.Reconciler.{Summary, ReconcileError, Agent, Runtime}
use hermes_sdlc_agents.Orchestrator.Transitions.{Provider}

pending_limit :
    (now : ℕ) (role : String) (limit : ℕ) (s : Db)
    → length (pending_assignments now role limit s) ≤ limit
unfolding pending_assignments
pending_limit now role limit s = length-take limit _

module _ (py : Runtime) (agent : Agent) (submit : WorkItem → String → String → Result String Fields)
    (session_id : WorkItem → String → String) (provider : Option Provider) (config : CycleConfig)
    (times : Times) where
  collect_item-IsSerial :
      (item : WorkItem) (n : Tally) (s : Db)
      → IsSerial s
      → IsSerial (collect_item py agent submit session_id provider config times item (n, s)).1
  unfolding collect_item
  collect_item-IsSerial item n s v =
      elim (Bool-cases (matches_role py.lower item config.settings.transitions)) [
        | inr e ↦ rw (e) v
        | inl e ↦ rw (e) (λ key.
            rw
              (
                ensure_runs (times.item_at item) (assignment_key py.sha256 item config.role) _
                    config.role (upsert_work_item (times.item_at item) item s).1,
                upsert_runs (times.item_at item) item s,
              )
              (v key))
      ]

  collect-IsSerial :
      (items : List WorkItem) (acc : Tally × Db)
      → IsSerial acc.1
      → IsSerial (collect py agent submit session_id provider config times items acc).1
  unfolding collect
  collect-IsSerial [] acc v = v
  collect-IsSerial (item ∷ items) (n, s) v =
      collect-IsSerial items _ (collect_item-IsSerial item n s v)

  start_row-IsSerial :
      (row : Assignment × WorkRow) (n : ℕ) (s : Db) (out : ℕ × Db)
      → IsSerial s
      → start_row py agent submit session_id provider config times row (n, s) ≡ ok out
      → IsSerial out.1 × (out.0 ≡ n + 1)
  unfolding start_row
  start_row-IsSerial row n s out v h =
      let item = row_to_work_item (row.1) in
      let key = (row.0).assignment_key in
      let (response, _, h) = >>=-eq-ok (or_client (submit item config.role key)) _ h in
      let (run_id, _, h) = >>=-eq-ok (extract_run_id py response) _ h in
      let marked =
        mark_assignment_started (times.start_at key) key run_id (some (session_id item config.role))
          s in
      let (t, e, h) = >>=-eq-ok (or_database marked) _ h in
      subst (λ (q : ℕ × Db). IsSerial q.1 × (q.0 ≡ n + 1)) (ok-injective h)
        (
          by_result marked t
              (mark_assignment_started-IsSerial (times.start_at key) key run_id
                (some (session_id item config.role)) s v)
              e,
          refl,
        )
    where
      by_result :
          (m : Result DbError Db) (t : Db) → Returns IsSerial m → or_database m ≡ ok t → IsSerial t
      by_result (ok u) t w k = subst IsSerial (ok-injective k) w
      by_result (raise e) t w k = cc

  start_rows-IsSerial :
      (rows : List (Assignment × WorkRow)) (acc out : ℕ × Db)
      → IsSerial acc.1
      → start_rows py agent submit session_id provider config times rows acc ≡ ok out
      → IsSerial out.1 × (out.0 ≡ acc.0 + length rows)
  unfolding start_rows
  start_rows-IsSerial [] acc out v h =
      subst (λ (q : ℕ × Db). IsSerial q.1 × (q.0 ≡ acc.0 + 0)) (ok-injective h) (v, omega arith)
  start_rows-IsSerial (row ∷ rows) (n, s) out v h =
      let (next, e, h) =
        >>=-eq-ok (start_row py agent submit session_id provider config times row (n, s)) _ h in
      let (w, one) = start_row-IsSerial row n s next v e in
      let (u, rest) = start_rows-IsSerial rows next out w h in (u, omega (arith, one, rest))

  -- What the loop over the items counts.
  abbrev IsTallied : ℕ → Tally → Type 0
  IsTallied seen n = (n.created ≤ n.matched) × (n.matched ≤ seen)

  collect_item-IsTallied :
      (item : WorkItem) (seen : ℕ) (n : Tally) (s : Db)
      → IsTallied seen n
      → IsTallied
          (seen + 1)
          (collect_item py agent submit session_id provider config times item (n, s)).0
  unfolding collect_item
  collect_item-IsTallied item seen n s v =
      elim (Bool-cases (matches_role py.lower item config.settings.transitions)) [
        | inr e ↦ rw (e) (v.0, omega (arith, v.1))
        | inl e ↦ rw (e) (
            counted (
              ensure_assignment (times.item_at item) (assignment_key py.sha256 item config.role)
                (upsert_work_item (times.item_at item) item s).0 config.role
                (upsert_work_item (times.item_at item) item s).1))
      ]
    where
      counted :
          (m : Bool × Db)
          → IsTallied (seen + 1) (ensured py agent submit session_id provider config times n m).0
      counted (true, t) = (omega (arith, v.0), omega (arith, v.1))
      counted (false, t) = (omega (arith, v.0), omega (arith, v.1))

  collect-IsTallied :
      (items : List WorkItem) (seen : ℕ) (acc : Tally × Db)
      → IsTallied seen acc.0
      → IsTallied
          (seen + length items)
          (collect py agent submit session_id provider config times items acc).0
  unfolding collect
  collect-IsTallied [] seen acc v = (v.0, omega (arith, v.1))
  collect-IsTallied (item ∷ items) seen (n, s) v =
      let next = collect-IsTallied items (seen + 1) _ (collect_item-IsTallied item seen n s v) in
      (next.0, omega (arith, next.1))

  -- The counts of a cycle that did its work.
  abbrev pub IsWithin : Report → Type 0
  IsWithin r =
      (r.created_assignments ≤ r.matched)
      × (r.matched ≤ r.fetched)
      × (r.started_runs ≤ config.max_starts_per_tick)

  run_locked-IsWithin :
      (given : Result String (List WorkItem)) (s : Db) (out : Report × Db)
      → IsSerial s
      → run_locked py agent submit session_id provider config times given s ≡ ok out
      → IsSerial out.1 × IsWithin out.0
  unfolding run_locked start_pending repair_attempts
  run_locked-IsWithin given s out v h =
      let (reconciled, e, h) =
        >>=-eq-ok
          (or_reconcile
            (reconcile py agent config.settings provider times.run_at (repair_attempts s)))
          _ h in
      let (items, _, h) = >>=-eq-ok (or_client given) _ h in
      let start : Tally × Db = (record { matched = 0; created = 0 }, reconciled.1) in
      let collected = collect py agent submit session_id provider config times items start in
      let rows =
        pending_assignments times.pending_at config.role config.max_starts_per_tick collected.1 in
      let (started, k, h) =
        >>=-eq-ok
          (start_rows py agent submit session_id provider config times rows (0, collected.1)) _ h in
      let tallied = collect-IsTallied items 0 start (omega arith, omega arith) in
      let (serial, count) =
        start_rows-IsSerial rows (0, collected.1) started
          (collect-IsSerial items start (reconciled_serial _ reconciled refl e)) k in
      subst (λ (q : Report × Db). IsSerial q.1 × IsWithin q.0) (ok-injective h)
        (
          serial,
          (
            tallied.0,
            omega (arith, tallied.1),
            omega (
              arith,
              count,
              pending_limit times.pending_at config.role config.max_starts_per_tick collected.1,
            ),
          ),
        )
    where
      reconciled_serial :
          (m : Result ReconcileError (Summary × Db)) (q : Summary × Db)
          → reconcile py agent config.settings provider times.run_at (repair_attempts s) ≡ m
          → or_reconcile m ≡ ok q
          → IsSerial q.1
      reconciled_serial (raise e) q same k = cc
      reconciled_serial (ok (n, t)) q same k =
          subst (λ (x : Summary × Db). IsSerial x.1) (ok-injective k)
            (reconcile-IsSerial py agent config.settings provider times.run_at (repair_attempts s) t
              n v same)

  abbrev pub IsReported : Result CycleError Cycled → Type 0
  IsReported (ok (done report)) = IsWithin report
  IsReported (ok (no_op reason)) = Unit
  IsReported (raise e) = Unit

  -- A cycle, whether it does its work, does nothing or raises, leaves no assignment with two active
  -- runs, if there was none before. When it does its work, it creates no more assignments than items
  -- matched, matches no more items than were fetched, and starts no more runs than the limit.
  pub run_once-IsSerial :
      (acquired : Bool) (given : Result String (List WorkItem)) (s : Db)
      → IsSerial s
      → IsSerial (run_once py agent submit session_id provider config times acquired given s).1
        × IsReported (run_once py agent submit session_id provider config times acquired given s).0
  unfolding run_once
  run_once-IsSerial acquired given s v = elim (Bool-cases config.enabled) [
    | inr e ↦ rw (e) (v, tt)
    | inl e ↦ elim (Bool-cases acquired) [
      | inr f ↦ rw (e, f) (v, tt)
      | inl f ↦
          rw (e, f)
            (by_result (run_locked py agent submit session_id provider config times given s) refl)
    ]
  ]
    where
      by_result :
          (m : Result CycleError (Report × Db))
          → run_locked py agent submit session_id provider config times given s ≡ m
          → IsSerial (cycled py agent submit session_id provider config times s m).1
            × IsReported (cycled py agent submit session_id provider config times s m).0
      by_result (raise e) same = (v, tt)
      by_result (ok (report, t)) same = run_locked-IsWithin given s (report, t) v same
