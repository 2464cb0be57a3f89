-- ===== src/Orchestrator/Reconciler.antt =====
-- reconciler.py: what each active run comes to. A run is settled in two steps: which outcome the
-- payload of its agent gives (Outcome), and what that does to the database and the summary (Settle).
pub mod Scrub
pub mod Errors
pub mod Parse
pub mod Outcome
pub mod Settle
pub mod Scrubbed
pub mod Repaired
pub mod Sound
pub mod Balance
pub mod Lifecycle
pub mod Ended
pub mod Returning
pub mod Tests
use hermes_sdlc_agents.Prelude.{ℕ, String, Bool, Option, Result, List, [], ◌∷◌}
use hermes_sdlc_agents.Prelude.Json.{Json, Fields}
use hermes_sdlc_agents.Orchestrator.Items.{Config}

-- What the code uses of Python: `sha256` is the hexadecimal digest of a text, `lower` is `str.lower`,
-- `dumps` is `json.dumps(..., ensure_ascii=False, sort_keys=True)`, `dumps_comment` that of the dict
-- that transitions.py makes of a comment, `loads` is `json.loads` (`none` where it raises
-- `JSONDecodeError`), `equal` is the `==` of two values that `json.loads` gave, `text_of` is `str` of
-- one that is no text, `truthy_number` tells whether a literal is not 0, `key_error` is `str` of the
-- `KeyError` of a role, `stamp` is the text of a time, and `print` the decimal print of a number.
pub record Runtime : Type 0 where
  pub sha256 : String → String
  pub lower : String → String
  pub dumps : Json → String
  pub dumps_comment : String → String
  pub loads : String → Option Json
  pub equal : Option Json → Option Json → Bool
  pub text_of : Json → String
  pub truthy_number : String → Bool
  pub key_error : String → String
  pub stamp : ℕ → String
  pub print : ℕ → String

-- What `reconcile` reads of `Config`; `transitions` is what transitions.py reads of it. The numbers are
-- those of `from_env`, which are not negative.
pub record Settings : Type 0 where
  pub run_timeout_seconds : ℕ
  pub retry_lost_runs : Bool
  pub retry_transient_failures : Bool
  pub retry_delay_seconds : ℕ
  pub max_attempts_per_assignment : ℕ
  pub final_response_repair_enabled : Bool
  pub final_response_model_repair_enabled : Bool
  pub final_response_repair_max_chars : ℕ
  pub final_response_repair_model : String
  pub final_response_repair_timeout_seconds : ℕ
  pub transitions : Config

pub record Summary : Type 0 where
  pub active : ℕ
  pub completed : ℕ
  pub failed : ℕ
  pub cancelled : ℕ
  pub timeout : ℕ
  pub invalid_output : ℕ
  pub lost : ℕ
  pub requeued : ℕ
  pub blocked_config : ℕ
  pub failed_final : ℕ
  pub repaired_output : ℕ
  pub repair_failed : ℕ
  pub model_repair_attempted : ℕ

abbrev pub empty_summary : Summary
empty_summary = record {
  active = 0;
  completed = 0;
  failed = 0;
  cancelled = 0;
  timeout = 0;
  invalid_output = 0;
  lost = 0;
  requeued = 0;
  blocked_config = 0;
  failed_final = 0;
  repaired_output = 0;
  repair_failed = 0;
  model_repair_attempted = 0;
}

-- What `client.get_run` does: it returns a dict, or raises `HermesRunNotFound`; any other error, and
-- an answer that is no dict, stops `reconcile`.
pub data Fetched : Type 0 where
  fetched : Fields → Fetched
  not_found : (message : String) → Fetched
  client_error : (message : String) → Fetched

-- The arguments of `client.repair_final_response`.
pub record RepairRequest : Type 0 where
  pub model : String
  pub session_id : String
  pub prompt : String
  pub idempotency_key : String
  pub timeout_seconds : ℕ

-- The client of the agents; `repair` is `repair_final_response`, or the text of what it raises.
pub record Agent : Type 0 where
  pub get_run : String → Fetched
  pub repair : RepairRequest → Result String Fields

-- An error that `reconcile` does not catch.
pub data ReconcileError : Type 0 where
  uncaught_client : (message : String) → ReconcileError
  uncaught_parse : ReconcileError

-- The times of the steps of one run: of the test of its age and of the retry, in microseconds, and of
-- the statements, in seconds.
pub record Clock : Type 0 where
  pub checked_at : ℕ
  pub retry_from : ℕ
  pub finished_at : ℕ
  pub recorded_at : ℕ
