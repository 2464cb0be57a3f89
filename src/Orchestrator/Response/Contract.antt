-- ===== src/Orchestrator/Response/Contract.antt =====
-- What a parsed final response satisfies.
use hermes_sdlc_agents.Prelude.{
  List, ok-injective, ap, subst, Result, Bool-cases, eq_iff, require-eq-ok, inr, inl, >>=-eq-ok,
  ◌==◌, ◌≡◌, Option, String, none, some, true, false, ok, raise,
}
use hermes_sdlc_agents.Prelude.Json.{Json, Fields, get, str, null, bool, number, arr, obj}
use hermes_sdlc_agents.Orchestrator.Response.{
  check_response, handoff_of, block_reason_of, evidence_of, optional_str_list, non_empty, reraise,
  extract_json_object, parse_final_response, required_str, FinalResponse,
}
use hermes_sdlc_agents.Orchestrator.Statuses.{
  validate_final_status, FinalStatus, StatusError, key_error, value_error,
}
use hermes_sdlc_agents.Orchestrator.Statuses.Laws.{may_finish, validate_final_status_iff}

-- The contract: the response is of the run's assignment and role, with a status that the role may finish
-- with, and with a summary.
pub record IsContract (role key : String) (r : FinalResponse) : Type 0 where
  pub same_key : r.assignment_key ≡ key
  pub same_role : r.role ≡ role
  pub allowed : may_finish r.role r.final_status ≡ true
  pub has_summary : (r.summary == "") ≡ false

non_empty-eq-ok : (key s : String) (o : Option Json) → non_empty key o ≡ ok s → (s == "") ≡ false
unfolding non_empty
non_empty-eq-ok key s none h = cc
non_empty-eq-ok key s (some (str t)) h = elim (Bool-cases (t == "")) [
  | inl empty ↦ cc (rw empty at h)
  | inr full ↦ subst (λ z. (z == "") ≡ false) (ok-injective (rw full at h)) full
]
non_empty-eq-ok key s (some null) h = cc
non_empty-eq-ok key s (some (bool b)) h = cc
non_empty-eq-ok key s (some (number n)) h = cc
non_empty-eq-ok key s (some (arr vs)) h = cc
non_empty-eq-ok key s (some (obj f)) h = cc

reraise-eq-ok : (m : Result StatusError FinalStatus) (s : FinalStatus) → reraise m ≡ ok s → m ≡ ok s
reraise-eq-ok (ok t) s h = ap ok (ok-injective h)
reraise-eq-ok (raise key_error) s h = cc
reraise-eq-ok (raise (value_error message)) s h = cc

check_response-IsContract :
    (answer : Fields) (role key k ro st summary : String) (evidence : List Fields)
    (log risks assumptions : List String) (r : FinalResponse)
    → (summary == "") ≡ false
    → check_response answer role key k ro st summary evidence log risks assumptions ≡ ok r
    → IsContract role key r
unfolding check_response
check_response-IsContract answer role key k ro st summary evidence log risks assumptions r full h =
    let (k_same, h) = require-eq-ok (k == key) _ _ h in
    let (r_same, h) = require-eq-ok (ro == role) _ _ h in
    let (status, hv, h) = >>=-eq-ok (reraise (validate_final_status ro st)) _ h in
    let (_, _, h) = >>=-eq-ok (handoff_of (get answer "next_handoff")) _ h in
    let (_, _, h) = >>=-eq-ok (block_reason_of (get answer "block_reason")) _ h in
    let role_is = (eq_iff ro role).0 r_same in
    subst (IsContract role key) (ok-injective h) (record {
      same_key = (eq_iff k key).0 k_same;
      same_role = role_is;
      allowed = ((validate_final_status_iff ro st status).0 (reraise-eq-ok _ status hv)).1;
      has_summary = full;
    })

module _ (loads : String → Option Json) where
  -- A response that is accepted satisfies the contract that the run was given.
  pub parse_final_response-IsContract :
      (payload : Fields) (role key : String) (r : FinalResponse)
      → parse_final_response loads payload role key ≡ ok r
      → IsContract role key r
  unfolding parse_final_response required_str
  parse_final_response-IsContract payload role key r h =
      let (answer, _, h) = >>=-eq-ok (extract_json_object loads payload) _ h in
      let (k, _, h) = >>=-eq-ok (non_empty "assignment_key" (get answer "assignment_key")) _ h in
      let (ro, _, h) = >>=-eq-ok (non_empty "role" (get answer "role")) _ h in
      let (st, _, h) = >>=-eq-ok (non_empty "final_status" (get answer "final_status")) _ h in
      let (summary, hs, h) = >>=-eq-ok (non_empty "summary" (get answer "summary")) _ h in
      let (evidence, _, h) = >>=-eq-ok (evidence_of (get answer "evidence")) _ h in
      let (log, _, h) = >>=-eq-ok (optional_str_list answer "decision_log") _ h in
      let (risks, _, h) = >>=-eq-ok (optional_str_list answer "risks") _ h in
      let (assumptions, _, h) = >>=-eq-ok (optional_str_list answer "assumptions") _ h in
      check_response-IsContract answer role key k ro st summary evidence log risks assumptions r
        (non_empty-eq-ok "summary" summary (get answer "summary") hs) h
