-- ===== src/Orchestrator/Transitions/Records.antt =====
-- The row that a transition leaves in the database.
use hermes_sdlc_agents.Prelude.{
  ◌⊎◌, subst, ℕ, inr, inl, Result, Bool-cases, ◌≡◌, Option, String, refl, none, some, true, false,
  ok, raise,
}
use hermes_sdlc_agents.Prelude.Json.{Fields}
use hermes_sdlc_agents.Orchestrator.Transitions.{
  call_of, transition_row, resolve_transition, apply_transition, apply_spec, answered, called,
  transition_of, Provider, ProviderTransitionResult, IssueTransition,
}
use hermes_sdlc_agents.Orchestrator.Database.Writes.{record_transition}
use hermes_sdlc_agents.Orchestrator.Response.{FinalResponse}
use hermes_sdlc_agents.Orchestrator.Items.{WorkItem, Config}
use hermes_sdlc_agents.Orchestrator.Statuses.{value, TransitionSpec}
use hermes_sdlc_agents.Orchestrator.Database.{Db, Transition}

-- The row says of the provider what happened: it claims an applied transition only if transitions are
-- enabled, and a provider was called and answered that it applied it.
abbrev pub IsHonest : Config → Option Provider → WorkItem → Transition → Type 0
IsHonest config provider item row =
    row.provider_applied ≡ true
    → (config.apply_transitions ≡ true)
      × ((call : IssueTransition) × (p : Provider) × (result : ProviderTransitionResult) × (provider
            ≡ some p)
          × (p item call ≡ ok result)
          × (result.applied ≡ true))

-- The columns that name the assignment and the hand-off.
abbrev pub SameHandoff : Transition → Transition → Type 0
SameHandoff a b =
    (a.assignment_key ≡ b.assignment_key)
    × (a.from_role ≡ b.from_role)
    × (a.final_status ≡ b.final_status)
    × (a.next_role ≡ b.next_role)

module _ (dumps_comment : String → String) (dumps : Fields → String) where
  answered-IsHonest :
      (config : Config) (p : Provider) (item : WorkItem) (call : IssueTransition) (row : Transition)
      (answer : Result String ProviderTransitionResult)
      → config.apply_transitions ≡ true
      → p item call ≡ answer
      → row.provider_applied ≡ false
      → IsHonest config (some p) item (answered dumps_comment dumps row answer)
  answered-IsHonest config p item call row (ok result) on answer e h =
      (on, (call, p, result, refl, answer, h))
  answered-IsHonest config p item call row (raise m) on answer e h = cc

  called-IsHonest :
      (config : Config) (provider : Option Provider) (item : WorkItem) (call : IssueTransition)
      (row : Transition)
      → config.apply_transitions ≡ true
      → row.provider_applied ≡ false
      → IsHonest config provider item (called dumps_comment dumps provider item call row)
  unfolding called
  called-IsHonest config none item call row on e h = cc
  called-IsHonest config (some p) item call row on e h =
      answered-IsHonest config p item call row (p item call) on refl e h

  enabled :
      (config : Config) (provider : Option Provider) (item : WorkItem) (call : IssueTransition)
      (row : Transition)
      → config.apply_transitions ≡ true
      → called dumps_comment dumps provider item call row
        ≡ transition_of dumps_comment dumps config provider item call row
  unfolding transition_of
  enabled config provider item call row on = rw (on) refl

  transition_of-IsHonest :
      (config : Config) (provider : Option Provider) (item : WorkItem) (call : IssueTransition)
      (row : Transition)
      → row.provider_applied ≡ false
      → IsHonest config provider item
          (transition_of dumps_comment dumps config provider item call row)
  unfolding transition_of
  transition_of-IsHonest config provider item call row e =
      elim (Bool-cases config.apply_transitions) [
        | inl on ↦
            subst (IsHonest config provider item) (enabled config provider item call row on)
              (called-IsHonest config provider item call row on e)
        | inr off ↦ rw (off) (λ h. cc)
      ]

  transition_of-SameHandoff :
      (config : Config) (provider : Option Provider) (item : WorkItem) (call : IssueTransition)
      (row : Transition)
      → SameHandoff (transition_of dumps_comment dumps config provider item call row) row
  unfolding transition_of
  transition_of-SameHandoff config provider item call row =
      elim (Bool-cases config.apply_transitions) [
        | inl on ↦ rw (on) (of_provider provider)
        | inr off ↦ rw (off) (refl, refl, refl, refl)
      ]
    where
      of_answer :
          (a : Result String ProviderTransitionResult)
          → SameHandoff (answered dumps_comment dumps row a) row
      of_answer (ok result) = (refl, refl, refl, refl)
      of_answer (raise m) = (refl, refl, refl, refl)

      of_provider :
          (o : Option Provider) → SameHandoff (called dumps_comment dumps o item call row) row
      of_provider none = (refl, refl, refl, refl)
      of_provider (some p) = of_answer (p item call)

  module _ (print : ℕ → String) where
    applied_spec :
        (now : ℕ) (item : WorkItem) (r : FinalResponse) (config : Config)
        (provider : Option Provider) (o : Option TransitionSpec) (s : Db)
        → ((o ≡ none) × (apply_spec dumps_comment dumps print now item r config provider o s ≡ s))
          ⊎ ((row : Transition) × (t : TransitionSpec) × (o ≡ some t)
              × (apply_spec dumps_comment dumps print now item r config provider o s
                  ≡ record_transition row s)
              × SameHandoff row
                  (transition_row now r.assignment_key r.role (value r.final_status) t.next_role)
              × IsHonest config provider item row)
    unfolding apply_spec
    applied_spec now item r config provider none s = inl (refl, refl)
    applied_spec now item r config provider (some t) s =
        let row = transition_row now r.assignment_key r.role (value r.final_status) t.next_role in
        let call = call_of dumps_comment dumps print config t r in
        inr (
          transition_of dumps_comment dumps config provider item call row,
          t,
          refl,
          refl,
          transition_of-SameHandoff config provider item call row,
          transition_of-IsHonest config provider item call row refl,
        )

    -- A finished run whose status names no transition changes nothing. Any other leaves exactly one
    -- row, of its assignment, role, status and next role, whatever the provider does, also when it
    -- raises, and the row claims an applied transition only if transitions are enabled, and a provider
    -- was called and answered that it applied it.
    pub apply_transition-records :
        (now : ℕ) (item : WorkItem) (r : FinalResponse) (config : Config)
        (provider : Option Provider) (s : Db)
        → let after = apply_transition dumps_comment dumps print now item r config provider s in
          ((resolve_transition r.role r.final_status ≡ none) × (after ≡ s))
          ⊎ ((row : Transition) × (t : TransitionSpec) × (resolve_transition r.role r.final_status
                ≡ some t)
              × (after ≡ record_transition row s)
              × SameHandoff row
                  (transition_row now r.assignment_key r.role (value r.final_status) t.next_role)
              × IsHonest config provider item row)
    unfolding apply_transition
    apply_transition-records now item r config provider s =
        applied_spec now item r config provider (resolve_transition r.role r.final_status) s
