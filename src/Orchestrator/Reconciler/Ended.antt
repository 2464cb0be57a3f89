-- ===== src/Orchestrator/Reconciler/Ended.antt =====
-- The runs that a reconciliation ends.
use hermes_sdlc_agents.Prelude.Rows.{any_of-update_where_self, any_of-update_where-false}
use hermes_sdlc_agents.Prelude.{
  ◌+◌, String, false, Option, none, some, List, [], ◌∷◌, ok, ◌≡◌, ap, ◌∙◌, sym, Memᴰ, subst,
  >>=-eq-ok, ok-injective, arith, any_of,
}
use hermes_sdlc_agents.Orchestrator.Reconciler.{
  empty_summary, Summary, Clock, Settings, Agent, Runtime,
}
use hermes_sdlc_agents.Orchestrator.Database.{active_runs, is_active, Db}
use hermes_sdlc_agents.Orchestrator.Reconciler.Settle.{
  reconcile, settled, reconcile_runs, settle, reconcile_run,
}
use hermes_sdlc_agents.Orchestrator.Reconciler.Sound.{run_outcome-IsSound, IsSound}
use hermes_sdlc_agents.Orchestrator.Database.Runs.{
  still_active, mark_run_finished-IsSerial, IsSerial,
}
use hermes_sdlc_agents.Orchestrator.Reconciler.Lifecycle.{follow_up-IsSameRows}
use hermes_sdlc_agents.Orchestrator.Database.Writes.{finished_run, mark_run_finished}
use hermes_sdlc_agents.Orchestrator.Reconciler.Parse.{key_of, ActiveRun}
use hermes_sdlc_agents.Orchestrator.Reconciler.Outcome.{run_outcome, Outcome}
use hermes_sdlc_agents.Orchestrator.Transitions.{Provider}

module _ (py : Runtime) (agent : Agent) (settings : Settings) (provider : Option Provider)
    (clock : ActiveRun → Clock) where
  settle_runs :
      (run : ActiveRun) (o : Outcome) (s : Db)
      → (settle py agent settings provider clock run o s).agent_runs
        ≡ (mark_run_finished (clock run).finished_at (key_of run) o.finish s).agent_runs
  unfolding settle
  settle_runs run o s = (follow_up-IsSameRows py agent settings provider clock run o.follow _).1

  settle-IsSerial :
      (run : ActiveRun) (o : Outcome) (s : Db)
      → IsSerial s
      → IsSerial (settle py agent settings provider clock run o s)
  settle-IsSerial run o s v key =
      rw (settle_runs run o s)
        (mark_run_finished-IsSerial (clock run).finished_at (key_of run) o.finish s v key)

  -- No run of the assignment is active.
  abbrev pub IsIdle : String → Db → Type 0
  IsIdle key s = any_of (is_active key) s.agent_runs ≡ false

  settle-ends :
      (run : ActiveRun) (o : Outcome) (s : Db)
      → IsSound py settings run o
      → IsIdle (key_of run) (settle py agent settings provider clock run o s)
  unfolding mark_run_finished is_active
  settle-ends run o s v = rw (settle_runs run o s) (
      any_of-update_where_self (is_active (key_of run))
        (finished_run (clock run).finished_at o.finish) s.agent_runs (λ r. ground (arith, v.ended)))

  settle-IsIdle :
      (run : ActiveRun) (o : Outcome) (s : Db) (key : String)
      → IsIdle key s
      → IsIdle key (settle py agent settings provider clock run o s)
  unfolding mark_run_finished
  settle-IsIdle run o s key h = rw (settle_runs run o s) (
      any_of-update_where-false (is_active key) (is_active (key_of run))
        (finished_run (clock run).finished_at o.finish) s.agent_runs
        (still_active (clock run).finished_at (key_of run) o.finish key) h)

  settled-IsSerial :
      (run : ActiveRun) (o : Option Outcome) (n : Summary) (s : Db)
      → IsSerial s
      → IsSerial (settled py agent settings provider clock run o (n, s)).1
  settled-IsSerial run none n s v = v
  settled-IsSerial run (some o) n s v = settle-IsSerial run o s v

  settled-IsIdle :
      (run : ActiveRun) (o : Option Outcome) (n : Summary) (s : Db) (key : String)
      → IsIdle key s
      → IsIdle key (settled py agent settings provider clock run o (n, s)).1
  settled-IsIdle run none n s key h = h
  settled-IsIdle run (some o) n s key h = settle-IsIdle run o s key h

  -- One round of the loop is the outcome and its settlement.
  reconcile_run-eq-ok :
      (run : ActiveRun) (n : Summary) (s : Db) (next : Summary × Db)
      → reconcile_run py agent settings provider clock run (n, s) ≡ ok next
      → (o : Option Outcome) × (run_outcome py settings (clock run) run agent ≡ ok o)
        × (next.1
            ≡ (settled py agent settings provider clock run o
                (record n { active = n.active + 1 }, s)).1)
  unfolding reconcile_run
  reconcile_run-eq-ok run n s next h =
      let (o, e, h) = >>=-eq-ok (run_outcome py settings (clock run) run agent) _ h in
      (o, e, ap (λ (q : Summary × Db). q.1) (sym (ok-injective h)))

  reconcile_runs-IsSerial :
      (runs : List ActiveRun) (acc out : Summary × Db)
      → IsSerial acc.1
      → reconcile_runs py agent settings provider clock runs acc ≡ ok out
      → IsSerial out.1
  unfolding reconcile_runs
  reconcile_runs-IsSerial [] acc out v h =
      subst (λ (q : Summary × Db). IsSerial q.1) (ok-injective h) v
  reconcile_runs-IsSerial (run ∷ runs) (n, s) out v h =
      let (next, e, h) =
        >>=-eq-ok (reconcile_run py agent settings provider clock run (n, s)) _ h in
      let (o, _, same) = reconcile_run-eq-ok run n s next e in
      reconcile_runs-IsSerial runs next out
        (subst IsSerial (sym same) (settled-IsSerial run o _ s v)) h

  reconcile_runs-IsIdle :
      (runs : List ActiveRun) (acc out : Summary × Db) (key : String)
      → IsIdle key acc.1
      → reconcile_runs py agent settings provider clock runs acc ≡ ok out
      → IsIdle key out.1
  unfolding reconcile_runs
  reconcile_runs-IsIdle [] acc out key v h =
      subst (λ (q : Summary × Db). IsIdle key q.1) (ok-injective h) v
  reconcile_runs-IsIdle (run ∷ runs) (n, s) out key v h =
      let (next, e, h) =
        >>=-eq-ok (reconcile_run py agent settings provider clock run (n, s)) _ h in
      let (o, _, same) = reconcile_run-eq-ok run n s next e in
      reconcile_runs-IsIdle runs next out key
        (subst (IsIdle key) (sym same) (settled-IsIdle run o _ s key v)) h

  settled-ends :
      (run : ActiveRun) (o' : Option Outcome) (o : Outcome) (n : Summary) (s : Db)
      → o' ≡ some o
      → run_outcome py settings (clock run) run agent ≡ ok o'
      → IsIdle (key_of run) (settled py agent settings provider clock run o' (n, s)).1
  settled-ends run none o n s h e = cc
  settled-ends run (some p) o n s h e =
      settle-ends run p s (run_outcome-IsSound py settings run (clock run) agent p e)

  reconcile_runs-ends :
      (runs : List ActiveRun) (acc out : Summary × Db) (run : ActiveRun) (o : Outcome)
      → Memᴰ run runs
      → run_outcome py settings (clock run) run agent ≡ ok (some o)
      → reconcile_runs py agent settings provider clock runs acc ≡ ok out
      → IsIdle (key_of run) out.1
  unfolding reconcile_runs
  reconcile_runs-ends [] acc out run o m found h = elim m [ ]
  reconcile_runs-ends (x ∷ runs) (n, s) out run o (Memᴰ.head here) found h =
      let (next, e, h) = >>=-eq-ok (reconcile_run py agent settings provider clock x (n, s)) _ h in
      let (o', e', same) = reconcile_run-eq-ok x n s next e in
      let same_outcome : o' ≡ some o =
        ok-injective
          (sym e' ∙ ap (λ r. run_outcome py settings (clock r) r agent) (sym here) ∙ found) in
      subst (λ (r : ActiveRun). IsIdle (key_of r) out.1) (sym here)
        (reconcile_runs-IsIdle runs next out (key_of x)
          (subst (IsIdle (key_of x)) (sym same) (settled-ends x o' o _ s same_outcome e')) h)
  reconcile_runs-ends (x ∷ runs) (n, s) out run o (Memᴰ.tail m) found h =
      let (next, e, h) = >>=-eq-ok (reconcile_run py agent settings provider clock x (n, s)) _ h in
      reconcile_runs-ends runs next out run o m found h

  -- A reconciliation that returns has ended every active run that came to an outcome: the assignment of
  -- the run has no active run afterwards, so it can be started again.
  pub reconcile-ends :
      (s t : Db) (n : Summary) (run : ActiveRun) (o : Outcome)
      → reconcile py agent settings provider clock s ≡ ok (n, t)
      → Memᴰ run (active_runs s)
      → run_outcome py settings (clock run) run agent ≡ ok (some o)
      → IsIdle (key_of run) t
  unfolding reconcile
  reconcile-ends s t n run o h m found =
      reconcile_runs-ends (active_runs s) (empty_summary, s) (n, t) run o m found h

  -- A reconciliation that returns leaves no assignment with two active runs, if there was none before.
  pub reconcile-IsSerial :
      (s t : Db) (n : Summary)
      → IsSerial s
      → reconcile py agent settings provider clock s ≡ ok (n, t)
      → IsSerial t
  unfolding reconcile
  reconcile-IsSerial s t n v h =
      reconcile_runs-IsSerial (active_runs s) (empty_summary, s) (n, t) v h
