-- ===== src/Orchestrator/Response/Caught.antt =====
-- Which errors of the parser the caller catches.
use hermes_sdlc_agents.Prelude.{
  any_of, sym, strip, String, Option, none, some, List, [], ◌∷◌, ok, raise, refl, ◌≡◌, Result,
  Bool-cases, inl, inr, ◌>>=◌, ◌>>◌, require, ◌==◌, eq_iff, subst,
}
use hermes_sdlc_agents.Prelude.Json.{Json, Fields, null, bool, number, str, arr, obj, get, items}
use hermes_sdlc_agents.Orchestrator.Statuses.{
  status_eq, parse_status, allowed_status_values, role_final_statuses, require_allowed, FinalStatus,
  validate_final_status,
}
use hermes_sdlc_agents.Orchestrator.Response.{
  extract_json_object, required_str, reraise, object_of, parse_final_response, extract_from,
  check_response, all_objects, all_strings, evidence_of, or_failed, ResponseError, block_reason_of,
  handoff_of, optional_str_list, non_empty, final_response_error, uncaught,
}
use hermes_sdlc_agents.Prelude.Table

-- The code returns, or raises the parser's own error.
abbrev pub IsCaught {ℓ} : {A : Type ℓ} → Result ResponseError A → Type 0
IsCaught (ok a) = Unit
IsCaught (raise (final_response_error message)) = Unit
IsCaught (raise uncaught) = ⊥

IsCaught-bind {ℓ κ} :
    {A : Type ℓ} {B : Type κ} (m : Result ResponseError A) (f : A → Result ResponseError B)
    → IsCaught m
    → ((a : A) → IsCaught (f a))
    → IsCaught (m >>= f)
IsCaught-bind (ok a) f h k = k a
IsCaught-bind (raise (final_response_error message)) f h k = tt
IsCaught-bind (raise uncaught) f h k = absurd h

non_empty-IsCaught : (key : String) (o : Option Json) → IsCaught (non_empty key o)
unfolding non_empty
non_empty-IsCaught key none = tt
non_empty-IsCaught key (some (str s)) = elim (Bool-cases (s == "")) [
  | inl e ↦ rw (e) tt
  | inr e ↦ rw (e) tt
]
non_empty-IsCaught key (some null) = tt
non_empty-IsCaught key (some (bool b)) = tt
non_empty-IsCaught key (some (number n)) = tt
non_empty-IsCaught key (some (arr vs)) = tt
non_empty-IsCaught key (some (obj f)) = tt

or_failed-IsCaught {ℓ} :
    {A : Type ℓ} (message : String) (o : Option A) → IsCaught (or_failed message o)
or_failed-IsCaught message none = tt
or_failed-IsCaught message (some a) = tt

evidence_of-IsCaught : (o : Option Json) → IsCaught (evidence_of o)
unfolding evidence_of
evidence_of-IsCaught none = tt
evidence_of-IsCaught (some null) = tt
evidence_of-IsCaught (some (arr vs)) = or_failed-IsCaught _ (all_objects (items vs))
evidence_of-IsCaught (some (str s)) = tt
evidence_of-IsCaught (some (bool b)) = tt
evidence_of-IsCaught (some (number n)) = tt
evidence_of-IsCaught (some (obj f)) = tt

handoff_of-IsCaught : (o : Option Json) → IsCaught (handoff_of o)
unfolding handoff_of
handoff_of-IsCaught none = tt
handoff_of-IsCaught (some null) = tt
handoff_of-IsCaught (some (arr vs)) = tt
handoff_of-IsCaught (some (str s)) = tt
handoff_of-IsCaught (some (bool b)) = tt
handoff_of-IsCaught (some (number n)) = tt
handoff_of-IsCaught (some (obj f)) = tt

block_reason_of-IsCaught : (o : Option Json) → IsCaught (block_reason_of o)
unfolding block_reason_of
block_reason_of-IsCaught none = tt
block_reason_of-IsCaught (some null) = tt
block_reason_of-IsCaught (some (arr vs)) = tt
block_reason_of-IsCaught (some (str s)) = tt
block_reason_of-IsCaught (some (bool b)) = tt
block_reason_of-IsCaught (some (number n)) = tt
block_reason_of-IsCaught (some (obj f)) = tt

optional_str_list-IsCaught :
    (answer : Fields) (key : String) → IsCaught (optional_str_list answer key)
unfolding optional_str_list
optional_str_list-IsCaught answer key = found (get answer key) refl
  where
    found : (o : Option Json) → get answer key ≡ o → IsCaught (optional_str_list answer key)
    found none e = rw (e) tt
    found (some null) e = rw (e) tt
    found (some (arr vs)) e = rw (e) (or_failed-IsCaught _ (all_strings (items vs)))
    found (some (str s)) e = rw (e) tt
    found (some (bool b)) e = rw (e) tt
    found (some (number n)) e = rw (e) tt
    found (some (obj f)) e = rw (e) tt

-- The role has a row in the table of final statuses.
abbrev pub IsKnown : String → Type 0
IsKnown role =
    (statuses : List FinalStatus) × (Table.lookup role role_final_statuses ≡ some statuses)

require_allowed-IsCaught :
    (role v : String) (status : FinalStatus)
    → IsKnown role
    → IsCaught (reraise (require_allowed role v status))
unfolding require_allowed allowed_status_values
require_allowed-IsCaught role v status (statuses, known) =
    elim (Bool-cases (any_of (λ s. status_eq s status) statuses)) [
      | inl e ↦ rw (known, e) tt
      | inr e ↦ rw (known, e) tt
    ]

validate-IsCaught :
    (role v : String) → IsKnown role → IsCaught (reraise (validate_final_status role v))
unfolding validate_final_status
validate-IsCaught role v known = by_status (parse_status v) refl
  where
    by_status :
        (o : Option FinalStatus)
        → parse_status v ≡ o
        → IsCaught (reraise (validate_final_status role v))
    by_status none e = rw (e) tt
    by_status (some status) e = rw (e) (require_allowed-IsCaught role v status known)

require_same {κ} :
    {A : Type κ} (a b message : String) (next : Result ResponseError A)
    → (a ≡ b → IsCaught next)
    → IsCaught (require (a == b) (final_response_error message) >> next)
require_same a b message next k = elim (Bool-cases (a == b)) [
  | inl e ↦ rw (e) (k ((eq_iff a b).0 e))
  | inr e ↦ rw (e) tt
]

check_response-IsCaught :
    (answer : Fields) (expected_role expected_key key role status_value summary : String)
    (evidence : List Fields) (log risks assumptions : List String)
    → IsKnown expected_role
    → IsCaught (
        check_response answer expected_role expected_key key role status_value summary evidence log
          risks assumptions)
unfolding check_response
check_response-IsCaught answer expected_role expected_key key role status_value summary evidence log
      risks assumptions known =
    require_same key expected_key _ _ (λ _. require_same role expected_role _ _ (λ same.
      IsCaught-bind (reraise (validate_final_status role status_value)) _
        (validate-IsCaught role status_value (subst IsKnown (sym same) known))
        (λ status.
          IsCaught-bind (handoff_of (get answer "next_handoff")) _
            (handoff_of-IsCaught (get answer "next_handoff"))
            (λ handoff.
              IsCaught-bind (block_reason_of (get answer "block_reason")) _
                (block_reason_of-IsCaught (get answer "block_reason")) (λ reason. tt)))))

module _ (loads : String → Option Json) where
  object_of-IsCaught : (key : String) (o : Option Json) → IsCaught (object_of loads key o)
  unfolding object_of
  object_of-IsCaught key none = tt
  object_of-IsCaught key (some null) = tt
  object_of-IsCaught key (some (arr vs)) = tt
  object_of-IsCaught key (some (str s)) = tt
  object_of-IsCaught key (some (bool b)) = tt
  object_of-IsCaught key (some (number n)) = tt
  object_of-IsCaught key (some (obj f)) = tt

  extract_step-IsCaught :
      (key : String) (keys : List String) (payload : Fields) (o : Option Json)
      → get payload key ≡ o
      → IsCaught (extract_from loads keys payload)
      → IsCaught (extract_from loads (key ∷ keys) payload)
  unfolding extract_from
  extract_step-IsCaught key keys payload none e h = rw (IsCaught, e) h
  extract_step-IsCaught key keys payload (some null) e h = rw (IsCaught, e) h
  extract_step-IsCaught key keys payload (some (arr vs)) e h = rw (IsCaught, e) h
  extract_step-IsCaught key keys payload (some (bool b)) e h = rw (IsCaught, e) h
  extract_step-IsCaught key keys payload (some (number n)) e h = rw (IsCaught, e) h
  extract_step-IsCaught key keys payload (some (obj f)) e h = rw (IsCaught, e) tt
  extract_step-IsCaught key keys payload (some (str s)) e h = elim (Bool-cases (strip s == "")) [
    | inl empty ↦ rw (IsCaught, e, empty) h
    | inr full ↦ rw (IsCaught, e, full) (object_of-IsCaught key (loads (strip s)))
  ]

  extract_from-IsCaught :
      (keys : List String) (payload : Fields) → IsCaught (extract_from loads keys payload)
  unfolding extract_from
  extract_from-IsCaught [] payload = tt
  extract_from-IsCaught (key ∷ keys) payload =
      extract_step-IsCaught key keys payload _ refl (extract_from-IsCaught keys payload)

  -- For a role of the table, the parser returns or raises its own error.
  pub parse_final_response-IsCaught :
      (payload : Fields) (role key : String)
      → IsKnown role
      → IsCaught (parse_final_response loads payload role key)
  unfolding parse_final_response required_str extract_json_object
  parse_final_response-IsCaught payload role key known =
      IsCaught-bind (extract_json_object loads payload) _
        (extract_from-IsCaught ("final_response" ∷ "output" ∷ "result" ∷ "response" ∷ "text" ∷ [])
          payload)
        (λ answer.
          IsCaught-bind (non_empty "assignment_key" (get answer "assignment_key")) _
            (non_empty-IsCaught _ (get answer "assignment_key"))
            (λ k.
              IsCaught-bind (non_empty "role" (get answer "role")) _
                (non_empty-IsCaught _ (get answer "role"))
                (λ ro.
                  IsCaught-bind (non_empty "final_status" (get answer "final_status")) _
                    (non_empty-IsCaught _ (get answer "final_status"))
                    (λ st. rest_IsCaught answer k ro st))))
    where
      rest_IsCaught :
          (answer : Fields) (k ro st : String)
          → IsCaught (do
            summary ← non_empty "summary" (get answer "summary")
            evidence ← evidence_of (get answer "evidence")
            log ← optional_str_list answer "decision_log"
            risks ← optional_str_list answer "risks"
            assumptions ← optional_str_list answer "assumptions"
            check_response answer role key k ro st summary evidence log risks assumptions)
      rest_IsCaught answer k ro st =
          IsCaught-bind (non_empty "summary" (get answer "summary")) _
            (non_empty-IsCaught _ (get answer "summary"))
            (λ summary.
              IsCaught-bind (evidence_of (get answer "evidence")) _
                (evidence_of-IsCaught (get answer "evidence"))
                (λ evidence.
                  IsCaught-bind (optional_str_list answer "decision_log") _
                    (optional_str_list-IsCaught answer "decision_log")
                    (λ log.
                      IsCaught-bind (optional_str_list answer "risks") _
                        (optional_str_list-IsCaught answer "risks")
                        (λ risks.
                          IsCaught-bind (optional_str_list answer "assumptions") _
                            (optional_str_list-IsCaught answer "assumptions")
                            (λ assumptions.
                              check_response-IsCaught answer role key k ro st summary evidence log
                                risks assumptions known)))))
