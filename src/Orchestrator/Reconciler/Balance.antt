-- ===== src/Orchestrator/Reconciler/Balance.antt =====
-- What the summary of a reconciliation adds up to.
use hermes_sdlc_agents.Prelude.{
  subst, Bool, true, false, Option, none, some, List, [], ◌∷◌, ok, refl, ◌≡◌, ◌≤◌, ◌+◌, arith,
  length, >>=-eq-ok, ok-injective,
}
use hermes_sdlc_agents.Orchestrator.Reconciler.{
  empty_summary, Clock, Settings, Agent, Runtime, Summary,
}
use hermes_sdlc_agents.Orchestrator.Reconciler.Outcome.{
  run_outcome, Kind, Outcome, expired, lost_requeued, lost_final, invalid, stale, finished,
  config_blocked, failed_requeued, failed_finally, stopped,
}
use hermes_sdlc_agents.Orchestrator.Database.{active_runs, Db}
use hermes_sdlc_agents.Orchestrator.Reconciler.Settle.{
  settled, reconcile, reconcile_runs, reconcile_run, tally, count_outcome, one_if,
}
use hermes_sdlc_agents.Orchestrator.Reconciler.Parse.{ActiveRun}
use hermes_sdlc_agents.Orchestrator.Transitions.{Provider}

-- Each failed or lost run was requeued, blocked or failed for good; each counted run was active; and
-- repairs fail only for invalid outputs.
pub record IsBalanced (n : Summary) : Type 0 where
  pub decided : n.failed + n.lost ≡ n.requeued + n.blocked_config + n.failed_final
  pub counted :
      n.completed + n.failed + n.cancelled + n.timeout + n.invalid_output + n.lost ≤ n.active
  pub repairs : n.repair_failed ≤ n.invalid_output
  pub repaired : n.repaired_output ≤ n.active
  pub asked : n.model_repair_attempted ≤ n.active

abbrev begun : Summary → Summary
begun n = record n { active = n.active + 1 }

begun-IsBalanced : (n : Summary) → IsBalanced n → IsBalanced (begun n)
begun-IsBalanced n v = record {
  decided = v.decided;
  counted = omega (arith, v.counted);
  repairs = v.repairs;
  repaired = omega (arith, v.repaired);
  asked = omega (arith, v.asked);
}

one_if_le : (a : Bool) → one_if a ≤ 1
one_if_le true = omega arith
one_if_le false = omega arith

-- Each way a run ends keeps the sums.
module _ (n : Summary) (a b : Bool) (one : one_if a ≤ 1) (once : one_if b ≤ 1)
    (decided : n.failed + n.lost ≡ n.requeued + n.blocked_config + n.failed_final)
    (counted : n.completed + n.failed + n.cancelled + n.timeout + n.invalid_output + n.lost
      ≤ n.active)
    (repairs : n.repair_failed ≤ n.invalid_output) (repaired : n.repaired_output ≤ n.active)
    (asked : n.model_repair_attempted ≤ n.active) where
  tally_sums :
      (kind : Kind)
      → let m = tally kind (begun n) in
        (m.failed + m.lost ≡ m.requeued + m.blocked_config + m.failed_final)
        × (m.completed + m.failed + m.cancelled + m.timeout + m.invalid_output + m.lost ≤ m.active)
        × (m.repair_failed ≤ m.invalid_output)
        × (m.repaired_output + one_if a ≤ m.active)
        × (m.model_repair_attempted + one_if b ≤ m.active)
  tally_sums expired = omega arith
  tally_sums lost_requeued = omega arith
  tally_sums lost_final = omega arith
  tally_sums (invalid true) = omega arith
  tally_sums (invalid false) = omega arith
  tally_sums stale = omega arith
  tally_sums finished = omega arith
  tally_sums config_blocked = omega arith
  tally_sums failed_requeued = omega arith
  tally_sums failed_finally = omega arith
  tally_sums stopped = omega arith

tally-IsBalanced :
    (kind : Kind) (a b : Bool) (n : Summary)
    → IsBalanced n
    → let m = tally kind (begun n) in
      IsBalanced (record m {
        repaired_output = m.repaired_output + one_if a;
        model_repair_attempted = m.model_repair_attempted + one_if b;
      })
tally-IsBalanced kind a b n v =
    let (d, c, r, p, q) =
      tally_sums n a b (one_if_le a) (one_if_le b) v.decided v.counted v.repairs v.repaired v.asked
        kind in
    record { decided = d; counted = c; repairs = r; repaired = p; asked = q }

count_outcome-IsBalanced :
    (o : Outcome) (n : Summary) → IsBalanced n → IsBalanced (count_outcome o (begun n))
unfolding count_outcome
count_outcome-IsBalanced o n v =
    tally-IsBalanced o.kind o.repaired_output o.model_repair_attempted n v

count_outcome-active : (o : Outcome) (n : Summary) → (count_outcome o n).active ≡ n.active
unfolding count_outcome
count_outcome-active o n = by_kind o.kind
  where
    by_kind : (kind : Kind) → (tally kind n).active ≡ n.active
    by_kind expired = refl
    by_kind lost_requeued = refl
    by_kind lost_final = refl
    by_kind (invalid d) = refl
    by_kind stale = refl
    by_kind finished = refl
    by_kind config_blocked = refl
    by_kind failed_requeued = refl
    by_kind failed_finally = refl
    by_kind stopped = refl

module _ (py : Runtime) (agent : Agent) (settings : Settings) (provider : Option Provider)
    (clock : ActiveRun → Clock) where
  settled-IsBalanced :
      (run : ActiveRun) (o : Option Outcome) (n : Summary) (s : Db)
      → IsBalanced n
      → IsBalanced (settled py agent settings provider clock run o (begun n, s)).0
        × ((settled py agent settings provider clock run o (begun n, s)).0.active ≡ n.active + 1)
  settled-IsBalanced run none n s v = (begun-IsBalanced n v, refl)
  settled-IsBalanced run (some o) n s v =
      (count_outcome-IsBalanced o n v, count_outcome-active o (begun n))

  reconcile_run-IsBalanced :
      (run : ActiveRun) (acc next : Summary × Db)
      → IsBalanced acc.0
      → reconcile_run py agent settings provider clock run acc ≡ ok next
      → IsBalanced next.0 × (next.0.active ≡ acc.0.active + 1)
  unfolding reconcile_run
  reconcile_run-IsBalanced run (n, s) next v h =
      let (o, _, h) = >>=-eq-ok (run_outcome py settings (clock run) run agent) _ h in
      subst (λ (q : Summary × Db). IsBalanced q.0 × (q.0.active ≡ n.active + 1)) (ok-injective h)
        (settled-IsBalanced run o n s v)

  reconcile_runs-IsBalanced :
      (runs : List ActiveRun) (acc out : Summary × Db)
      → IsBalanced acc.0
      → reconcile_runs py agent settings provider clock runs acc ≡ ok out
      → IsBalanced out.0 × (out.0.active ≡ acc.0.active + length runs)
  unfolding reconcile_runs
  reconcile_runs-IsBalanced [] acc out v h =
      subst (λ (q : Summary × Db). IsBalanced q.0 × (q.0.active ≡ acc.0.active + 0))
        (ok-injective h) (v, omega arith)
  reconcile_runs-IsBalanced (run ∷ runs) acc out v h =
      let (next, e, h) = >>=-eq-ok (reconcile_run py agent settings provider clock run acc) _ h in
      let (w, one) = reconcile_run-IsBalanced run acc next v e in
      let (u, rest) = reconcile_runs-IsBalanced runs next out w h in (u, omega (arith, one, rest))

  -- When `reconcile` returns, it counted each active run once as active; the failed and the lost runs
  -- are together the requeued, the blocked and the finally failed ones; and no more runs are counted
  -- as completed, failed, cancelled, timed out, invalid or lost than were active, no more repairs
  -- failed than outputs were invalid, and no more were made or asked for than runs were active.
  pub reconcile-IsBalanced :
      (s t : Db) (n : Summary)
      → reconcile py agent settings provider clock s ≡ ok (n, t)
      → IsBalanced n × (n.active ≡ length (active_runs s))
  unfolding reconcile
  reconcile-IsBalanced s t n h =
      let start : IsBalanced empty_summary = record {
        decided = refl;
        counted = omega arith;
        repairs = omega arith;
        repaired = omega arith;
        asked = omega arith;
      } in
      let (v, total) =
        reconcile_runs-IsBalanced (active_runs s) (empty_summary, s) (n, t) start h in
      (v, omega (arith, total))
