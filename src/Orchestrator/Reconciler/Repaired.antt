-- ===== src/Orchestrator/Reconciler/Repaired.antt =====
-- What `_parse_or_repair_final_response` returns: a response that satisfies the contract of its run.
use hermes_sdlc_agents.Prelude.{
  concat, ◌++◌, map, some-injective, Result, Returns, subst, String, some, List, [], ◌∷◌, ok, raise,
  refl, ◌≡◌, inl, inr, Bool-cases,
}
use hermes_sdlc_agents.Prelude.Json.{Fields}
use hermes_sdlc_agents.Orchestrator.Reconciler.{Agent, Settings, Runtime}
use hermes_sdlc_agents.Orchestrator.Reconciler.Parse.{
  repair_of, first_parsed, repair_parsed, repair_request, model_parsed, model_answered,
  model_repair, parse, repair_response, parse_or_repair_final_response, Parsed, key_of, role_of,
  ActiveRun,
}
use hermes_sdlc_agents.Orchestrator.Response.{
  uncaught, final_response_error, ResponseError, FinalResponse,
}
use hermes_sdlc_agents.Orchestrator.Response.Contract.{parse_final_response-IsContract, IsContract}
use hermes_sdlc_agents.Orchestrator.Repair.{RepairResult}

module _ (py : Runtime) (settings : Settings) (run : ActiveRun) (agent : Agent) where
  -- Whatever repaired the response, it satisfies the contract.
  abbrev pub IsParsed : Parsed → Type 0
  IsParsed parsed =
      (r : FinalResponse) → parsed.response ≡ some r → IsContract (role_of run) (key_of run) r

  parsed-IsContract :
      (payload : Fields) (r : FinalResponse)
      → parse py agent settings run payload ≡ ok r
      → (q : FinalResponse) → some r ≡ some q
      → IsContract (role_of run) (key_of run) q
  parsed-IsContract payload r h q e =
      subst (IsContract (role_of run) (key_of run)) (some-injective _ _ e)
        (parse_final_response-IsContract py.loads payload (role_of run) (key_of run) r h)

  model_parsed-IsParsed :
      (payload : Fields) (message : String) (repair : RepairResult) (diagnostics : List String)
      (m : Result ResponseError FinalResponse)
      → parse py agent settings run repair.payload ≡ m
      → IsParsed (model_parsed py agent settings run payload message repair diagnostics m)
  model_parsed-IsParsed payload message repair diagnostics (ok r) h =
      parsed-IsContract repair.payload r h
  model_parsed-IsParsed payload message repair diagnostics (raise e) h = λ r q. cc (q)

  model_repair-IsParsed :
      (payload : Fields) (message : String) (diagnostics : List String)
      → IsParsed (model_repair py agent settings run payload message diagnostics)
  unfolding model_repair
  model_repair-IsParsed payload message diagnostics =
      elim (Bool-cases settings.final_response_model_repair_enabled) [
        | inr e ↦ rw (e) (λ r q. cc (q))
        | inl e ↦
            rw (e) (answered (agent.repair (repair_request py agent settings run payload message)))
      ]
    where
      answered :
          (a : Result String Fields)
          → IsParsed (model_answered py agent settings run payload message diagnostics a)
      answered (raise e) = λ r q. cc (q)
      answered (ok answer) =
          let repair = repair_of py agent settings run answer in
          model_parsed-IsParsed payload message repair
            (diagnostics ++ map (λ d. concat ("model: " ∷ d ∷ [])) repair.diagnostics) _ refl

  repair_response-IsParsed :
      (payload : Fields) (message : String)
      → Returns IsParsed (repair_response py agent settings run payload message)
  unfolding repair_response
  repair_response-IsParsed payload message =
      elim (Bool-cases settings.final_response_repair_enabled) [
        | inr e ↦ rw (e) (λ r q. cc (q))
        | inl e ↦ elim (Bool-cases (repair_of py agent settings run payload).repaired) [
          | inr f ↦ rw (e, f) (model_repair-IsParsed payload message _)
          | inl f ↦ rw (e, f) (repaired (repair_of py agent settings run payload) _ refl)
        ]
      ]
    where
      repaired :
          (repair : RepairResult) (m : Result ResponseError FinalResponse)
          → parse py agent settings run repair.payload ≡ m
          → Returns IsParsed (repair_parsed py agent settings run payload message repair m)
      repaired repair (ok r) h = parsed-IsContract repair.payload r h
      repaired repair (raise uncaught) h = tt
      repaired repair (raise (final_response_error e)) h = model_repair-IsParsed payload message _

  pub parse_or_repair-IsParsed :
      (payload : Fields)
      → Returns IsParsed (parse_or_repair_final_response py agent settings run payload)
  unfolding parse_or_repair_final_response
  parse_or_repair-IsParsed payload = first_found (parse py agent settings run payload) refl
    where
      first_found :
          (m : Result ResponseError FinalResponse)
          → parse py agent settings run payload ≡ m
          → Returns IsParsed (first_parsed py agent settings run payload m)
      first_found (ok r) h = parsed-IsContract payload r h
      first_found (raise uncaught) h = tt
      first_found (raise (final_response_error e)) h = repair_response-IsParsed payload e
