-- ===== src/Orchestrator/Response.antt =====
-- final_response.py: the contract of the answer that a run ends with. `loads` is `json.loads`, `none`
-- where it raises `JSONDecodeError`.
pub mod Contract
pub mod Caught
use hermes_sdlc_agents.Prelude.{
  require, ◌>>=◌, ◌>>◌, ◌==◌, strip, [], if◌then◌else◌, none, concat, some, ok, raise, ◌∷◌, Option,
  Result, List, String, ℕ,
}
use hermes_sdlc_agents.Prelude.Json.{Json, obj, str, arr, null, Fields, get, items}
use hermes_sdlc_agents.Orchestrator.Statuses.{
  validate_final_status, FinalStatus, StatusError, key_error, value_error,
}
use mathlib.Core.Option

-- A `KeyError` of `validate_final_status` is not caught.
pub data ResponseError : Type 0 where
  final_response_error : String → ResponseError
  uncaught : ResponseError

pub record FinalResponse : Type 0 where
  pub assignment_key : String
  pub role : String
  pub final_status : FinalStatus
  pub summary : String
  pub evidence : List Fields
  pub decision_log : List String
  pub risks : List String
  pub assumptions : List String
  pub next_handoff : Option Fields
  pub block_reason : Option String

abbrev pub failed {ℓ} : {A : Type ℓ} → String → Result ResponseError A
failed message = raise (final_response_error message)

unfoldable pub non_empty : String → Option Json → Result ResponseError String
non_empty key (some (str s)) =
    if s == "" then failed (concat (key ∷ " must be a non-empty string" ∷ [])) else ok s
non_empty key _ = failed (concat (key ∷ " must be a non-empty string" ∷ []))

unfoldable pub required_str : Fields → String → Result ResponseError String
unfolding non_empty
required_str answer key = non_empty key (get answer key)

-- `isinstance(value, list) and all(...)`, and the items, where each of them is of the kind.
unfoldable pub all_strings : List Json → Option (List String)
all_strings [] = some []
all_strings (str s ∷ vs) = Option.map (λ ss. s ∷ ss) (all_strings vs)
all_strings (_ ∷ vs) = none

unfoldable pub all_objects : List Json → Option (List Fields)
all_objects [] = some []
all_objects (obj f ∷ vs) = Option.map (λ fs. f ∷ fs) (all_objects vs)
all_objects (_ ∷ vs) = none

abbrev pub or_failed {ℓ} : {A : Type ℓ} → String → Option A → Result ResponseError A
or_failed message none = failed message
or_failed message (some a) = ok a

unfoldable pub optional_str_list : Fields → String → Result ResponseError (List String)
unfolding all_strings items
optional_str_list answer key = found (get answer key)
  where
    message : String
    message = concat (key ∷ " must be a list of strings" ∷ [])

    found : Option Json → Result ResponseError (List String)
    found none = ok []
    found (some null) = ok []
    found (some (arr vs)) = or_failed message (all_strings (items vs))
    found (some _) = failed message

unfoldable pub evidence_of : Option Json → Result ResponseError (List Fields)
unfolding all_objects items
evidence_of none = ok []
evidence_of (some null) = ok []
evidence_of (some (arr vs)) =
    or_failed "evidence must be a list of objects" (all_objects (items vs))
evidence_of (some _) = failed "evidence must be a list of objects"

unfoldable pub handoff_of : Option Json → Result ResponseError (Option Fields)
handoff_of none = ok none
handoff_of (some null) = ok none
handoff_of (some (obj f)) = ok (some f)
handoff_of (some _) = failed "next_handoff must be an object or null"

unfoldable pub block_reason_of : Option Json → Result ResponseError (Option String)
block_reason_of none = ok none
block_reason_of (some null) = ok none
block_reason_of (some (str s)) = ok (some s)
block_reason_of (some _) = failed "block_reason must be a string or null"

abbrev pub reraise {ℓ} : {A : Type ℓ} → Result StatusError A → Result ResponseError A
reraise (ok a) = ok a
reraise (raise key_error) = raise uncaught
reraise (raise (value_error message)) = failed message

-- The checks that follow the reading of the fields.
unfoldable pub check_response :
    Fields
    → String
    → String
    → String
    → String
    → String
    → String
    → List Fields
    → List String
    → List String
    → List String
    → Result ResponseError FinalResponse
unfolding handoff_of block_reason_of
check_response answer expected_role expected_key key role status_value summary evidence decision_log
      risks assumptions =
    do
      require (key == expected_key) (final_response_error "assignment_key mismatch")
      require (role == expected_role) (final_response_error "role mismatch")
      status ← reraise (validate_final_status role status_value)
      handoff ← handoff_of (get answer "next_handoff")
      reason ← block_reason_of (get answer "block_reason")
      ok (record {
        assignment_key = key;
        role = role;
        final_status = status;
        summary = summary;
        evidence = evidence;
        decision_log = decision_log;
        risks = risks;
        assumptions = assumptions;
        next_handoff = handoff;
        block_reason = reason;
      })

module _ (loads : String → Option Json) where
  unfoldable pub object_of : String → Option Json → Result ResponseError Fields
  object_of key none = failed (concat (key ∷ " is not valid JSON" ∷ []))
  object_of key (some (obj f)) = ok f
  object_of key (some _) = failed (concat (key ∷ " JSON must be an object" ∷ []))

  -- The loop over the keys.
  unfoldable pub extract_from : List String → Fields → Result ResponseError Fields
  unfolding object_of
  extract_from [] payload = failed "final response JSON object not found"
  extract_from (key ∷ keys) payload = elim (get payload key) [
    | some (obj f) ↦ ok f
    | some (str s) ↦
        if strip s == "" then extract_from keys payload else object_of key (loads (strip s))
    | _ ↦ extract_from keys payload
  ]

  unfoldable pub extract_json_object : Fields → Result ResponseError Fields
  unfolding extract_from
  extract_json_object =
      extract_from ("final_response" ∷ "output" ∷ "result" ∷ "response" ∷ "text" ∷ [])

  unfoldable pub parse_final_response :
      Fields → String → String → Result ResponseError FinalResponse
  unfolding extract_json_object required_str optional_str_list evidence_of check_response
  parse_final_response payload expected_role expected_key = do
    answer ← extract_json_object payload
    key ← required_str answer "assignment_key"
    role ← required_str answer "role"
    status_value ← required_str answer "final_status"
    summary ← required_str answer "summary"
    evidence ← evidence_of (get answer "evidence")
    decision_log ← optional_str_list answer "decision_log"
    risks ← optional_str_list answer "risks"
    assumptions ← optional_str_list answer "assumptions"
    check_response answer expected_role expected_key key role status_value summary evidence
        decision_log risks assumptions
