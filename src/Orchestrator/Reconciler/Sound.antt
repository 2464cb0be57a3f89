-- ===== src/Orchestrator/Reconciler/Sound.antt =====
-- What an outcome of a run stands for.
use hermes_sdlc_agents.Prelude.{
  Returns-bind, map, Returns, subst, arith, ◌&&◌, ◌==◌, String, Bool, true, false, Option, none,
  some, List, [], ◌∷◌, ok, refl, ◌≡◌, inl, inr, Bool-cases,
}
use hermes_sdlc_agents.Prelude.Table.{elem}
use hermes_sdlc_agents.Prelude.Json.{Json, Fields, str, obj}
use hermes_sdlc_agents.Orchestrator.Reconciler.Repaired.{IsParsed, parse_or_repair-IsParsed}
use hermes_sdlc_agents.Orchestrator.Reconciler.Outcome.{
  timed_out, fetched_outcome, status_of, payload_outcome, parsed_outcome, canonical_outcome,
  run_outcome, completed_outcome, response_outcome, assignment_matches_current_revision,
  has_attempts_remaining, failed_outcome, lost_outcome, Kind, Follow, Outcome, expired,
  lost_requeued, lost_final, invalid, stale, finished, config_blocked, failed_requeued,
  failed_finally, stopped, completion,
}
use hermes_sdlc_agents.Orchestrator.Reconciler.{
  Fetched, Agent, Clock, Settings, Runtime, fetched, not_found, client_error,
}
use hermes_sdlc_agents.Orchestrator.Reconciler.Parse.{
  to_json, items_of, with_repair_info, parse_or_repair_final_response, raw_with_repair_info, Parsed,
  key_of, role_of, ActiveRun,
}
use hermes_sdlc_agents.Orchestrator.Reconciler.Scrubbed.{
  put_clean, scrub_fields_clean, is_clean_items, is_clean_fields, scrub_clean, is_clean,
}
use hermes_sdlc_agents.Orchestrator.Response.{FinalResponse}
use hermes_sdlc_agents.Orchestrator.Response.Contract.{IsContract}
use hermes_sdlc_agents.Orchestrator.Reconciler.Scrub.{scrub_fields, scrub}
use hermes_sdlc_agents.Orchestrator.Database.{row_to_work_item}
use hermes_sdlc_agents.Orchestrator.Items.{revision_key}
use hermes_sdlc_agents.Orchestrator.Reconciler.Errors.{is_transient_error, is_config_error}

-- The status that the assignment gets.
abbrev pub status_for : Kind → String
status_for expired = "TIMEOUT"
status_for lost_requeued = "PENDING"
status_for lost_final = "FAILED_FINAL"
status_for (invalid diagnosed) = "FAILED_FINAL"
status_for stale = "FAILED_FINAL"
status_for finished = "COMPLETED"
status_for config_blocked = "BLOCKED_CONFIG"
status_for failed_requeued = "PENDING"
status_for failed_finally = "FAILED_FINAL"
status_for stopped = "CANCELLED"

abbrev pub is_requeued : Kind → Bool
is_requeued lost_requeued = true
is_requeued failed_requeued = true
is_requeued _ = false

abbrev pub is_completion : Kind → Bool
is_completion finished = true
is_completion _ = false

module _ (py : Runtime) (settings : Settings) (run : ActiveRun) where
  -- The response is the run's, and the work item has not changed since its assignment.
  abbrev pub IsCurrent : Follow → Type 0
  IsCurrent follow =
      (r : FinalResponse) × (follow ≡ completion r)
      × IsContract (role_of run) (key_of run) r
      × (assignment_matches_current_revision (key_of run)
            (revision_key py.sha256 (row_to_work_item (run.2)))
          ≡ true)

  abbrev pub IsCleanText : String → Type 0
  IsCleanText raw = (v : Json) × (is_clean v ≡ true) × (raw ≡ py.dumps v)

  pub record IsSound (o : Outcome) : Type 0 where
    pub status : o.finish.assignment_status ≡ some (status_for o.kind)
    pub ended : (o.finish.run_status == "ACTIVE") ≡ false
    pub retried : is_requeued o.kind ≡ true → has_attempts_remaining run settings ≡ true
    pub current : is_completion o.kind ≡ true → IsCurrent o.follow
    pub clean : IsCleanText o.finish.raw_status

  -- An outcome that neither requeues nor completes.
  plain :
      (o : Outcome)
      → o.finish.assignment_status ≡ some (status_for o.kind)
      → (o.finish.run_status == "ACTIVE") ≡ false
      → is_requeued o.kind ≡ false
      → is_completion o.kind ≡ false
      → IsCleanText o.finish.raw_status
      → IsSound o
  plain o s e q c t = record {
    status = s;
    ended = e;
    retried = λ h. cc (q, h);
    current = λ h. cc (c, h);
    clean = t;
  }

  requeued_by :
      (o : Outcome)
      → o.finish.assignment_status ≡ some (status_for o.kind)
      → (o.finish.run_status == "ACTIVE") ≡ false
      → has_attempts_remaining run settings ≡ true
      → is_completion o.kind ≡ false
      → IsCleanText o.finish.raw_status
      → IsSound o
  requeued_by o s e q c t = record {
    status = s;
    ended = e;
    retried = λ h. q;
    current = λ h. cc (c, h);
    clean = t;
  }

  scrubbed_text : (v : Json) → IsCleanText (py.dumps (scrub v))
  scrubbed_text v = (scrub v, scrub_clean v, refl)

  module _ (clock : Clock) where
    lost_outcome-IsSound : (message : String) → IsSound (lost_outcome py settings clock run message)
    unfolding lost_outcome is_clean elem
    lost_outcome-IsSound message =
        elim (Bool-cases (settings.retry_lost_runs && has_attempts_remaining run settings)) [
          | inl e ↦ rw (e) (requeued_by _ refl refl (ground (arith, e)) refl (_, refl, refl))
          | inr e ↦ rw (e) (plain _ refl refl refl refl (_, refl, refl))
        ]

    failed_outcome-IsSound :
        (payload : Fields) (raw : String)
        → IsCleanText raw
        → IsSound (failed_outcome py settings clock run payload raw)
    unfolding failed_outcome
    failed_outcome-IsSound payload raw t = elim (Bool-cases (is_config_error py payload)) [
      | inl e ↦ rw (e) (plain _ refl refl refl refl t)
      | inr e ↦
          elim (Bool-cases (
            settings.retry_transient_failures
            && is_transient_error py payload
            && has_attempts_remaining run settings)) [
              | inl f ↦ rw (e, f) (requeued_by _ refl refl (ground (arith, f)) refl t)
              | inr f ↦ rw (e, f) (plain _ refl refl refl refl t)
            ]
    ]

    with_repair_info_clean :
        (method : Option String) (diagnostics : List String) (fs : Fields)
        → is_clean_fields fs ≡ true
        → is_clean_fields (with_repair_info py method diagnostics fs) ≡ true
    unfolding is_clean elem items_of
    with_repair_info_clean none diagnostics fs h = h
    with_repair_info_clean (some method) diagnostics fs h =
        put_clean "final_response_repair" _ fs refl (rw (texts_clean diagnostics) refl) h
      where
        texts_clean : (ss : List String) → is_clean_items (items_of (map (λ s. str s) ss)) ≡ true
        texts_clean [] = refl
        texts_clean (s ∷ ss) = texts_clean ss

    raw_with_repair_info-IsCleanText :
        (payload : Fields) (method : Option String) (diagnostics : List String)
        → IsCleanText (raw_with_repair_info py payload method diagnostics)
    unfolding raw_with_repair_info is_clean
    raw_with_repair_info-IsCleanText payload method diagnostics = (
      _,
      with_repair_info_clean method diagnostics (scrub_fields payload) (scrub_fields_clean payload),
      refl,
    )

    response_outcome-IsSound :
        (r : FinalResponse) (raw : String)
        → IsContract (role_of run) (key_of run) r
        → IsCleanText raw
        → IsSound (response_outcome py settings clock run r raw)
    response_outcome-IsSound r raw contract t =
        elim (Bool-cases (
          assignment_matches_current_revision (key_of run)
            (revision_key py.sha256 (row_to_work_item (run.2))))) [
              | inr e ↦ rw (e) (plain _ refl refl refl refl t)
              | inl e ↦ rw (e) (record {
                status = refl;
                ended = refl;
                retried = λ h. cc (h);
                current = λ h. (r, refl, contract, e);
                clean = t;
              })
            ]

    module _ (agent : Agent) where
      canonical_outcome-IsSound :
          (r : FinalResponse) (parsed : Parsed) (canonical : Option Json)
          → IsContract (role_of run) (key_of run) r
          → Returns IsSound (canonical_outcome py settings clock run r parsed canonical)
      canonical_outcome-IsSound r parsed none c = tt
      canonical_outcome-IsSound r parsed (some v) c =
          response_outcome-IsSound r _ c (raw_with_repair_info-IsCleanText _ parsed.method _)

      parsed_outcome-IsSound :
          (raw : String) (parsed : Parsed) (o : Option FinalResponse)
          → IsCleanText raw
          → ((r : FinalResponse) → o ≡ some r → IsContract (role_of run) (key_of run) r)
          → Returns IsSound (parsed_outcome py settings clock run raw parsed o)
      parsed_outcome-IsSound raw parsed none t c = plain _ refl refl refl refl t
      parsed_outcome-IsSound raw parsed (some r) t c =
          canonical_outcome-IsSound r parsed (py.loads (to_json py r)) (c r refl)

      -- What the counters of the repair are, a sound outcome stays one.
      counted-IsSound :
          (o : Outcome) (repaired asked : Bool)
          → IsSound o
          → IsSound (record o { repaired_output = repaired; model_repair_attempted = asked })
      counted-IsSound o repaired asked v = record {
        status = v.status;
        ended = v.ended;
        retried = v.retried;
        current = v.current;
        clean = v.clean;
      }

      completed_outcome-IsSound :
          (payload : Fields) (raw : String)
          → IsCleanText raw
          → Returns IsSound (completed_outcome py settings clock run agent payload raw)
      unfolding completed_outcome
      completed_outcome-IsSound payload raw t =
          Returns-bind (IsParsed py settings run agent) IsSound
            (parse_or_repair_final_response py agent settings run payload) _
            (parse_or_repair-IsParsed py settings run agent payload)
            (λ parsed c.
              Returns-bind IsSound IsSound
                (parsed_outcome py settings clock run raw parsed parsed.response) _
                (parsed_outcome-IsSound raw parsed parsed.response t c)
                (λ o v. counted-IsSound o parsed.repaired_output parsed.model_repair_attempted v))

      abbrev Sounds : Option Outcome → Type 0
      Sounds none = Unit
      Sounds (some o) = IsSound o

      payload_outcome-Sounds :
          (payload : Fields) → Returns Sounds (payload_outcome py settings clock run agent payload)
      unfolding payload_outcome
      payload_outcome-Sounds payload =
          let status = status_of py payload in
          let t = scrubbed_text (obj payload) in
          elim (Bool-cases (elem status ("completed" ∷ "succeeded" ∷ "success" ∷ "done" ∷ []))) [
            | inl e ↦ rw (e) (
                Returns-bind IsSound Sounds
                  (completed_outcome py settings clock run agent payload
                    (py.dumps (scrub (obj payload))))
                  _ (completed_outcome-IsSound payload _ t) (λ o v. v))
            | inr e ↦ elim (Bool-cases (elem status ("failed" ∷ "error" ∷ []))) [
              | inl f ↦ rw (e, f) (failed_outcome-IsSound payload _ t)
              | inr f ↦ elim (Bool-cases (elem status ("cancelled" ∷ "canceled" ∷ []))) [
                | inl g ↦ rw (e, f, g) (plain _ refl refl refl refl t)
                | inr g ↦ elim (Bool-cases (elem status ("timeout" ∷ "timed_out" ∷ []))) [
                  | inl h ↦ rw (e, f, g, h) (plain _ refl refl refl refl t)
                  | inr h ↦ rw (e, f, g, h) tt
                ]
              ]
            ]
          ]

      run_outcome-Sounds : Returns Sounds (run_outcome py settings clock run agent)
      unfolding run_outcome is_clean elem
      run_outcome-Sounds =
          elim (Bool-cases
            (timed_out clock.checked_at (run.0).started_at settings.run_timeout_seconds)) [
              | inl e ↦ rw (e) (plain _ refl refl refl refl (_, refl, refl))
              | inr e ↦ rw (e) (answered (agent.get_run (run.0).hermes_run_id))
            ]
        where
          answered : (f : Fetched) → Returns Sounds (fetched_outcome py settings clock run agent f)
          answered (fetched f) = payload_outcome-Sounds f
          answered (not_found message) = lost_outcome-IsSound message
          answered (client_error message) = tt

      -- An outcome of a run gives the assignment the status of its branch and ends the run. It puts the
      -- assignment back in the queue only if attempts remain, and completes it only on a response
      -- that satisfies the run's contract, for the current revision of the work item. The raw
      -- status that is stored has no forbidden reasoning key at any depth.
      pub run_outcome-IsSound :
          (o : Outcome) → run_outcome py settings clock run agent ≡ ok (some o) → IsSound o
      run_outcome-IsSound o h = subst (Returns Sounds) h run_outcome-Sounds
