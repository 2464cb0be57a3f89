-- ===== src/Orchestrator/Reconciler/Outcome.antt =====
-- reconciler.py: what one active run comes to, before anything is written.
use hermes_sdlc_agents.Prelude.{
  ◌>>=◌, ◌+◌, join, ◌-◌, Result, ◌*◌, ◌&&◌, ◌/◌, concat, ltb, nat_eq, not, or_else, after_last, ℕ,
  String, Bool, true, false, Option, none, some, List, [], ◌∷◌, if◌then◌else◌, ◌==◌, ok, raise,
}
use hermes_sdlc_agents.Prelude.Table.{elem}
use hermes_sdlc_agents.Prelude.Json.{
  Json, Fields, null, bool, number, str, arr, obj, nil, cons, end, field, get,
}
use hermes_sdlc_agents.Orchestrator.Reconciler.Parse.{
  canonical_completion_payload, raw_with_repair_info, to_json, Parsed,
  parse_or_repair_final_response, key_of, ActiveRun,
}
use hermes_sdlc_agents.Orchestrator.Reconciler.{
  uncaught_parse, uncaught_client, ReconcileError, Fetched, Agent, Clock, Settings, Runtime,
  fetched, not_found, client_error,
}
use hermes_sdlc_agents.Orchestrator.Reconciler.Errors.{
  concise_error, is_transient_error, is_config_error, error_text,
}
use hermes_sdlc_agents.Orchestrator.Statuses.{value}
use hermes_sdlc_agents.Orchestrator.Database.{row_to_work_item}
use hermes_sdlc_agents.Orchestrator.Items.{revision_key}
use hermes_sdlc_agents.Orchestrator.Reconciler.Scrub.{scrub}
use hermes_sdlc_agents.Orchestrator.Response.{FinalResponse}
use hermes_sdlc_agents.Orchestrator.Database.Writes.{Finish}

-- The branches of the loop's body.
pub data Kind : Type 0 where
  expired : Kind
  lost_requeued : Kind
  lost_final : Kind
  invalid : (diagnosed : Bool) → Kind
  stale : Kind
  finished : Kind
  config_blocked : Kind
  failed_requeued : Kind
  failed_finally : Kind
  stopped : Kind

-- What follows `mark_run_finished`.
pub data Follow : Type 0 where
  nothing : Follow
  failure : (failure_status summary : String) → Follow
  requeue : (final_status : String) → Follow
  completion : FinalResponse → Follow

pub record Outcome : Type 0 where
  pub kind : Kind
  pub finish : Finish
  pub follow : Follow
  pub repaired_output : Bool
  pub model_repair_attempted : Bool

-- The arguments of `mark_run_finished` that are not passed.
abbrev pub finish_as : String → String → String → Finish
finish_as run_status raw assignment_status = record {
  run_status = run_status;
  final_status = none;
  raw_status = raw;
  assignment_status = some assignment_status;
  error = none;
  final_response_json = none;
  timed_out = false;
  next_retry_at = none;
  blocked_reason = none;
  last_error_code = none;
}

abbrev pub outcome : Kind → Finish → Follow → Outcome
outcome kind finish follow = record {
  kind = kind;
  finish = finish;
  follow = follow;
  repaired_output = false;
  model_repair_attempted = false;
}

abbrev pub timeout_outcome : String → String → Outcome
timeout_outcome raw message =
    outcome expired
      (record (finish_as "TIMEOUT" raw "TIMEOUT") {
        final_status = some "BLOCKED";
        error = some message;
        timed_out = true;
      })
      (failure "TIMEOUT" message)

unfoldable pub timed_out : ℕ → ℕ → ℕ → Bool
timed_out now started timeout_seconds = ltb (timeout_seconds * 1000000) (now - started * 1000000)

unfoldable pub retry_timestamp : ℕ → ℕ → Option ℕ
retry_timestamp now delay_seconds =
    if nat_eq delay_seconds 0 then none else some (now / 1000000 + delay_seconds)

unfoldable pub has_attempts_remaining : ActiveRun → Settings → Bool
has_attempts_remaining run settings =
    ltb (run.0).attempt_number settings.max_attempts_per_assignment

unfoldable pub assignment_matches_current_revision : String → String → Bool
unfolding after_last
assignment_matches_current_revision key revision = after_last b':' key key == revision

module _ (py : Runtime) where
  abbrev pub truthy : Json → Bool
  truthy null = false
  truthy (bool b) = b
  truthy (number n) = py.truthy_number n
  truthy (str s) = not (s == "")
  truthy (arr nil) = false
  truthy (arr (cons v vs)) = true
  truthy (obj end) = false
  truthy (obj (field k v fs)) = true

  -- `a or b`
  abbrev pub or_value : Option Json → Option Json → Option Json
  or_value none b = b
  or_value (some v) b = if truthy v then some v else b

  abbrev pub text : Json → String
  text (str s) = s
  text v = py.text_of v

  unfoldable pub status_of : Fields → String
  status_of payload = py.lower (
      text (
        or_else (or_value (get payload "status") (or_value (get payload "state") (some (str ""))))
          (str "")))

  module _ (settings : Settings) (clock : Clock) (run : ActiveRun) where
    unfoldable pub lost_outcome : String → Outcome
    unfolding has_attempts_remaining retry_timestamp
    lost_outcome message =
        let raw = py.dumps (
          obj (
            field "status" (str "lost")
              (field "run_id" (str (run.0).hermes_run_id) (field "error" (str message) end)))) in
        if settings.retry_lost_runs && has_attempts_remaining run settings
        then outcome lost_requeued
            (record (finish_as "LOST" raw "PENDING") {
              error = some "Hermes run disappeared from gateway runtime; requeued locally";
              next_retry_at = retry_timestamp clock.retry_from settings.retry_delay_seconds;
            })
            (requeue "LOST_REQUEUED")
        else outcome lost_final
            (record (finish_as "LOST" raw "FAILED_FINAL") {
              error =
                  some
                    "Hermes run disappeared from gateway runtime; likely container restart/recreate while SQLite persisted ACTIVE run";
            })
            (failure "LOST"
              "Hermes run was not found in the gateway runtime; marked lost locally so reconciliation can continue")

    unfoldable pub failed_outcome : Fields → String → Outcome
    unfolding has_attempts_remaining retry_timestamp error_text is_config_error is_transient_error
        concise_error
    failed_outcome payload raw =
        let error = error_text py payload in
        if is_config_error py payload
        then outcome config_blocked
            (record (finish_as "FAILED" raw "BLOCKED_CONFIG") {
              error = some error;
              blocked_reason = some (concise_error error);
              last_error_code = some "CONFIG_AUTH";
            })
            (failure "BLOCKED_CONFIG" (concise_error error))
        else if settings.retry_transient_failures
            && is_transient_error py payload
            && has_attempts_remaining run settings
        then outcome failed_requeued
            (record (finish_as "FAILED" raw "PENDING") {
              error = some error;
              next_retry_at = retry_timestamp clock.retry_from settings.retry_delay_seconds;
            })
            (requeue "FAILED_REQUEUED")
        else outcome failed_finally
            (record (finish_as "FAILED" raw "FAILED_FINAL") { error = some error })
            (failure "FAILED_FINAL" (concise_error error))

    -- `parse_error or ...`, with the diagnostics.
    abbrev pub diagnosed_error : String → List String → String
    diagnosed_error message [] = message
    diagnosed_error message (d ∷ ds) =
        concat (message ∷ "; repair diagnostics: " ∷ join "; " (d ∷ ds) ∷ [])

    abbrev pub parse_message : Option String → String
    parse_message none = "final response repair failed"
    parse_message (some message) = if message == "" then "final response repair failed" else message

    abbrev pub is_empty : List String → Bool
    is_empty [] = true
    is_empty (d ∷ ds) = false

    -- The branch without a final response.
    abbrev pub invalid_outcome : String → Parsed → Outcome
    invalid_outcome raw parsed =
        let error = diagnosed_error (parse_message parsed.parse_error) parsed.diagnostics in
        outcome (invalid (not (is_empty parsed.diagnostics)))
          (record (finish_as "INVALID_OUTPUT" raw "FAILED_FINAL") { error = some error })
          (failure "INVALID_OUTPUT" error)

    abbrev pub response_outcome : FinalResponse → String → Outcome
    response_outcome r raw =
        if not (
          assignment_matches_current_revision (key_of run)
            (revision_key py.sha256 (row_to_work_item (run.2))))
        then outcome stale
            (record (finish_as "STALE_OUTPUT" raw "FAILED_FINAL") {
              final_status = some (value r.final_status);
              error = some "Work item revision changed while run was active";
              final_response_json = some (to_json py r);
            })
            (failure "STALE_OUTPUT"
              "Work item revision changed while run was active; normal downstream transition was not applied")
        else outcome finished
            (record (finish_as "COMPLETED" raw "COMPLETED") {
              final_status = some (value r.final_status);
              final_response_json = some (to_json py r);
            })
            (completion r)

    -- `json.loads(final_response.to_json())` gives the canonical response.
    abbrev pub canonical_outcome :
        FinalResponse → Parsed → Option Json → Result ReconcileError Outcome
    canonical_outcome r parsed none = raise uncaught_parse
    canonical_outcome r parsed (some canonical) = ok (
        response_outcome r (
          raw_with_repair_info py (canonical_completion_payload py parsed.payload canonical)
            parsed.method parsed.diagnostics))

    abbrev pub parsed_outcome :
        String → Parsed → Option FinalResponse → Result ReconcileError Outcome
    parsed_outcome raw parsed none = ok (invalid_outcome raw parsed)
    parsed_outcome raw parsed (some r) = canonical_outcome r parsed (py.loads (to_json py r))

    unfoldable pub completed_outcome : Agent → Fields → String → Result ReconcileError Outcome
    unfolding parse_or_repair_final_response assignment_matches_current_revision revision_key
        row_to_work_item value to_json raw_with_repair_info canonical_completion_payload
    completed_outcome agent payload raw = do
      parsed ← parse_or_repair_final_response py agent settings run payload
      o ← parsed_outcome raw parsed parsed.response
      ok (record o {
        repaired_output = parsed.repaired_output;
        model_repair_attempted = parsed.model_repair_attempted;
      })

    abbrev pub is_word : String → List String → Bool
    is_word status words = elem status words

    -- A status that is none of the words leaves the run as it is.
    unfoldable pub payload_outcome : Agent → Fields → Result ReconcileError (Option Outcome)
    unfolding status_of completed_outcome failed_outcome scrub
    payload_outcome agent payload =
        let status = status_of payload in
        let raw = py.dumps (scrub (obj payload)) in
        if is_word status ("completed" ∷ "succeeded" ∷ "success" ∷ "done" ∷ [])
        then (completed_outcome agent payload raw >>= λ o. ok (some o))
        else if is_word status ("failed" ∷ "error" ∷ [])
        then ok (some (failed_outcome payload raw))
        else if is_word status ("cancelled" ∷ "canceled" ∷ [])
        then ok (some (outcome stopped (finish_as "CANCELLED" raw "CANCELLED") nothing))
        else if is_word status ("timeout" ∷ "timed_out" ∷ [])
        then ok (some (timeout_outcome raw "Hermes run reported timeout"))
        else ok none

    abbrev pub fetched_outcome : Agent → Fetched → Result ReconcileError (Option Outcome)
    fetched_outcome agent (fetched f) = payload_outcome agent f
    fetched_outcome agent (not_found message) = ok (some (lost_outcome message))
    fetched_outcome agent (client_error message) = raise (uncaught_client message)

    unfoldable pub run_outcome : Agent → Result ReconcileError (Option Outcome)
    unfolding timed_out payload_outcome lost_outcome
    run_outcome agent =
        if timed_out clock.checked_at (run.0).started_at settings.run_timeout_seconds
        then ok (
            some (
              timeout_outcome
                (py.dumps (
                  obj (
                    field "status" (str "timeout")
                      (field "started_at" (str (py.stamp (run.0).started_at)) end))))
                "Run exceeded ORCHESTRATOR_RUN_TIMEOUT_SECONDS"))
        else fetched_outcome agent (agent.get_run (run.0).hermes_run_id)
