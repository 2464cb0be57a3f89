-- ===== src/Orchestrator/Reconciler/Errors.antt =====
-- reconciler.py: what the payload of a failed run says.
use hermes_sdlc_agents.Prelude.{
  join, take_chars, strip, words, any_of, contains, pieces, String, Bool, Option, some, List, [],
  ◌∷◌, if◌then◌else◌, ◌==◌,
}
use hermes_sdlc_agents.Prelude.Json.{Json, Fields, str, obj, get}
use hermes_sdlc_agents.Orchestrator.Reconciler.Scrub.{scrub}
use hermes_sdlc_agents.Orchestrator.Reconciler.{Runtime}

unfoldable pub concise_error : String → String
unfolding pieces words
concise_error text = take_chars 500 (join " " (words (pieces text)))

module _ (py : Runtime) where
  -- The loop over the candidates.
  unfoldable pub error_from : Fields → List (Option Json) → String
  unfolding scrub
  error_from payload [] = py.dumps (scrub (obj payload))
  error_from payload (some (str s) ∷ candidates) =
      if strip s == "" then error_from payload candidates else strip s
  error_from payload (some (obj f) ∷ candidates) = py.dumps (scrub (obj f))
  error_from payload (_ ∷ candidates) = error_from payload candidates

  unfoldable pub error_text : Fields → String
  unfolding error_from
  error_text payload = error_from payload (
      get payload "error"
      ∷ get payload "message"
      ∷ get payload "detail"
      ∷ get payload "output"
      ∷ [])

  abbrev pub has_pattern : Fields → List String → Bool
  has_pattern payload patterns = any_of (contains (py.lower (error_text payload))) patterns

  unfoldable pub is_config_error : Fields → Bool
  unfolding error_text contains
  is_config_error payload = has_pattern payload (
      "invalid_api_key" ∷ "incorrect api key" ∷ "invalid api-key" ∷ "authenticationerror"
      ∷ "unauthorized" ∷ "http 401" ∷ "api key was rejected" ∷ "no nous authentication" ∷ [])

  unfoldable pub is_transient_error : Fields → Bool
  unfolding error_text contains
  is_transient_error payload = has_pattern payload (
      "http 408" ∷ "http 409" ∷ "http 425" ∷ "http 429" ∷ "http 500" ∷ "http 502" ∷ "http 503"
      ∷ "http 504" ∷ "rate limit" ∷ "timeout" ∷ "temporarily unavailable" ∷ "overloaded"
      ∷ "connection reset" ∷ "connection aborted" ∷ [])
