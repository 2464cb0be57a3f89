-- ===== src/Orchestrator/Reconciler/Returning.antt =====
-- When a reconciliation returns.
use hermes_sdlc_agents.Prelude.Json.{Json}
use hermes_sdlc_agents.Prelude.{ok, raise, Result}

-- The code returns.
abbrev pub HasReturned {ℓ μ} : {E : Type μ} {A : Type ℓ} → Result E A → Type 0
HasReturned (ok a) = Unit
HasReturned (raise e) = ⊥
