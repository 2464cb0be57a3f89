-- ===== src/Orchestrator/Statuses/Laws.antt =====
-- The statuses that `validate_final_status` lets a role finish with.
use hermes_sdlc_agents.Prelude.{
  some-injective, ◌∙◌, ok-injective, Bool-cases, sym, inr, ap, inl, find_first-eq-some, eq_iff,
  Option-cases, [], or_else, any_of, ◌↔◌, ◌≡◌, find_first, Bool, String, refl, some, true, ok,
}
use hermes_sdlc_agents.Orchestrator.Statuses.{
  final_statuses, charter_ready, roadmap_ready, ready_for_iteration, in_progress, review, done,
  replan_required, paused, killed, ready_for_build, pr_ready_for_review, approve, request_changes,
  blocked, blocked_no_action, no_action, monitoring, escalated, proposed_for_human_review,
  role_final_statuses, status_eq, validate_final_status, parse_status, require_allowed, FinalStatus,
  value,
}
use hermes_sdlc_agents.Prelude.Table

parse_value : (s : FinalStatus) → parse_status (value s) ≡ some s
unfolding parse_status value find_first
parse_value charter_ready = refl
parse_value roadmap_ready = refl
parse_value ready_for_iteration = refl
parse_value in_progress = refl
parse_value review = refl
parse_value done = refl
parse_value replan_required = refl
parse_value paused = refl
parse_value killed = refl
parse_value ready_for_build = refl
parse_value pr_ready_for_review = refl
parse_value approve = refl
parse_value request_changes = refl
parse_value blocked = refl
parse_value blocked_no_action = refl
parse_value no_action = refl
parse_value monitoring = refl
parse_value escalated = refl
parse_value proposed_for_human_review = refl

unfoldable pub may_finish : String → FinalStatus → Bool
unfolding status_eq
may_finish role status =
    any_of (λ s. status_eq s status) (or_else (Table.lookup role role_final_statuses) [])

require_allowed_iff :
    (role v : String) (s t : FinalStatus)
    → (require_allowed role v s ≡ ok t) ↔ (s ≡ t) × (may_finish role s ≡ true)
unfolding require_allowed may_finish any_of
require_allowed_iff role v s t = elim (Option-cases (Table.lookup role role_final_statuses)) [
  | inl none_found ↦ rw (none_found) ((λ h. cc), λ h. cc (h.1))
  | inr (statuses, found) ↦ rw (found) (elim (Bool-cases (any_of (λ r. status_eq r s) statuses)) [
    | inl listed ↦ rw (listed) ((λ h. (ok-injective h, refl)), λ h. ap ok h.0)
    | inr unlisted ↦ rw (unlisted) ((λ h. cc), λ h. cc)
  ])
]

parse_sound : (v : String) (s : FinalStatus) → parse_status v ≡ some s → value s ≡ v
unfolding parse_status
parse_sound v s h = (eq_iff (value s) v).0 (find_first-eq-some _ final_statuses h).1

-- A role may finish with a text exactly if the text is that of a status which the table lists for the
-- role, and then that status is what it gives.
pub validate_final_status_iff :
    (role v : String) (s : FinalStatus)
    → (validate_final_status role v ≡ ok s) ↔ (value s ≡ v) × (may_finish role s ≡ true)
unfolding validate_final_status
validate_final_status_iff role v s = elim (Option-cases (parse_status v)) [
  | inl unknown ↦
      rw (unknown) ((λ h. cc), λ h. absurd (cc (unknown, parse_value s, ap parse_status h.0)))
  | inr (t, known) ↦ rw (known) (
    (λ h.
        let (same, listed) = (require_allowed_iff role v t s).0 h in
        (ap value (sym same) ∙ parse_sound v t known, ap (may_finish role) (sym same) ∙ listed)),
    λ h.
        let same : t ≡ s =
          some-injective _ _ (sym known ∙ ap parse_status (sym h.0) ∙ parse_value s) in
        (require_allowed_iff role v t s).1 (same, ap (may_finish role) same ∙ h.1),
  )
]
