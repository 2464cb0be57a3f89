-- ===== src/Orchestrator/Transitions/Handoff.antt =====
-- The labels that a transition moves a work item by.
use hermes_sdlc_agents.Prelude.{
  ℕ, ap, ◌||◌, ◌∙◌, inr, eq_iff, subst, some-injective, inl, ◌==◌, arith, Bool-cases, ◌++◌, ◌∷◌,
  keep, Option, All, not, [], ◌&&◌, ◌≡◌, all_of, or_else, any_of, Bool, List, String, refl, none,
  some, true, false,
}
use hermes_sdlc_agents.Prelude.Json.{Fields}
use hermes_sdlc_agents.Prelude.Rows.{any_of-append}
use hermes_sdlc_agents.Orchestrator.Response.{FinalResponse}
use hermes_sdlc_agents.Orchestrator.Items.{Config, has_text, meets}
use hermes_sdlc_agents.Orchestrator.Transitions.{
  call_of, relabelled, or_terminal, resolve_transition, find_transition,
}
use hermes_sdlc_agents.Orchestrator.Statuses.{
  terminal_final_statuses, status_eq, transitions, terminal_labels, default_role_labels,
  TransitionSpec, FinalStatus,
}
use hermes_sdlc_agents.Prelude.Table

abbrev pub labels_of : String → List String
labels_of role = or_else (Table.lookup role default_role_labels) []

-- `a <= b` of sets.
unfoldable within : List String → List String → Bool
within xs ys = all_of (has_text ys) xs

within-has_text :
    (xs ys : List String) (l : String)
    → within xs ys ≡ true
    → has_text xs l ≡ true
    → has_text ys l ≡ true
unfolding within any_of all_of
within-has_text [] ys l h k = cc
within-has_text (x ∷ xs) ys l h k = elim (Bool-cases (x == l)) [
  | inl same ↦ subst (λ z. has_text ys z ≡ true) ((eq_iff x l).0 same) (ground arith)
  | inr differs ↦ within-has_text xs ys l (ground arith) (ground arith)
]

abbrev is_handoff : String → TransitionSpec → String → Bool
is_handoff role t next =
    within (labels_of role) t.remove_labels
    && meets (keep (λ l. not (has_text t.remove_labels l)) t.add_labels) (labels_of next)
    && not (meets t.add_labels terminal_labels)

abbrev handoff_check : String → TransitionSpec → Option String → Bool
handoff_check role t none = true
handoff_check role t (some next) = is_handoff role t next

abbrev IsHandoff : (String × FinalStatus) × TransitionSpec → Type 0
IsHandoff ((role, status), t) = handoff_check role t t.next_role ≡ true

table : All IsHandoff transitions
unfolding within meets any_of all_of keep Table.lookup
table = (refl, (refl, (refl, (refl, (refl, (refl, tt))))))

found_handoff :
    (role : String) (status : FinalStatus) (t : TransitionSpec)
    (ts : List ((String × FinalStatus) × TransitionSpec))
    → All IsHandoff ts
    → find_transition role status ts ≡ some t
    → handoff_check role t t.next_role ≡ true
unfolding find_transition
found_handoff role status t [] a h = cc
found_handoff role status t (((r, s), u) ∷ ts) a h =
    elim (Bool-cases (r == role && status_eq s status)) [
      | inl hit ↦
          let same : u ≡ t = some-injective _ _ (rw hit at h) in
          let role_same = (eq_iff r role).0 (ground arith) in
          subst (λ z. handoff_check role z z.next_role ≡ true) same
            (subst (λ z. handoff_check z u u.next_role ≡ true) role_same a.0)
      | inr miss ↦ found_handoff role status t ts a.1 (rw miss at h)
    ]

terminal_handoff :
    (role : String) (status : FinalStatus) (t : TransitionSpec) (o : Option TransitionSpec)
    → ((u : TransitionSpec) → o ≡ some u → handoff_check role u u.next_role ≡ true)
    → or_terminal role status o ≡ some t
    → handoff_check role t t.next_role ≡ true
unfolding or_terminal
terminal_handoff role status t (some u) f h = f t h
terminal_handoff role status t none f h =
    elim (Bool-cases (any_of (λ s. status_eq s status) terminal_final_statuses)) [
      | inl hit ↦
          subst (λ z. handoff_check role z z.next_role ≡ true) (some-injective _ _ (rw hit at h))
            refl
      | inr miss ↦ cc (rw miss at h)
    ]

resolved_handoff :
    (role : String) (status : FinalStatus) (t : TransitionSpec) (next : String)
    → resolve_transition role status ≡ some t
    → t.next_role ≡ some next
    → is_handoff role t next ≡ true
unfolding resolve_transition
resolved_handoff role status t next h n =
    subst (λ o. handoff_check role t o ≡ true) n
      (terminal_handoff role status t (find_transition role status transitions)
        (λ u e. found_handoff role status u transitions table e) h)

kept_meets :
    (p : String → Bool) (labels others : List String)
    → meets labels others ≡ false
    → meets (keep p labels) others ≡ false
unfolding meets any_of keep
kept_meets p [] others h = refl
kept_meets p (l ∷ labels) others h = ground (arith, kept_meets p labels others)

meets-append : (xs ys zs : List String) → meets (xs ++ ys) zs ≡ (meets xs zs || meets ys zs)
unfolding meets
meets-append xs ys zs = any_of-append (has_text zs) xs ys

kept_apart :
    (own remove labels : List String)
    → within own remove ≡ true
    → meets (keep (λ l. not (has_text remove l)) labels) own ≡ false
unfolding meets any_of keep
kept_apart own remove [] h = refl
kept_apart own remove (l ∷ labels) h =
    ground (arith, within-has_text own remove l h, kept_apart own remove labels h)

keep-append : (p : String → Bool) (xs ys : List String) → keep p (xs ++ ys) ≡ keep p xs ++ keep p ys
unfolding keep
keep-append p [] ys = refl
keep-append p (x ∷ xs) ys = elim (Bool-cases (p x)) [
  | inl e ↦ rw (e) (ap (λ zs. x ∷ zs) (keep-append p xs ys))
  | inr e ↦ rw (e) (keep-append p xs ys)
]

module _ (dumps_comment : String → String) (dumps : Fields → String) (print : ℕ → String) where
  -- Where labels are changed at all, a transition that names a next role moves an issue of GitHub from
  -- the labels of its role to those of the next: whatever labels the issue had, afterwards one is the
  -- next role's, none is the old role's, and a terminal label is there only if one was there before.
  pub resolve_transition_handoff :
      (config : Config) (r : FinalResponse) (t : TransitionSpec) (next : String)
      (labels : List String)
      → config.transition_comment_only ≡ false
      → resolve_transition r.role r.final_status ≡ some t
      → t.next_role ≡ some next
      → let after = relabelled (call_of dumps_comment dumps print config t r) labels in
        (meets after (labels_of next) ≡ true)
        × (meets after (labels_of r.role) ≡ false)
        × (meets labels terminal_labels ≡ false → meets after terminal_labels ≡ false)
  unfolding relabelled call_of
  resolve_transition_handoff config r t next labels changes h n =
      let check = resolved_handoff r.role r.final_status t next h n in
      let stays : String → Bool = λ l. not (has_text t.remove_labels l) in
      rw (changes, keep-append stays labels t.add_labels)
        (
          meets-append (keep stays labels) (keep stays t.add_labels) (labels_of next)
              ∙ ground (arith, check),
          meets-append (keep stays labels) (keep stays t.add_labels) (labels_of r.role)
              ∙ ground (
                arith,
                check,
                kept_apart (labels_of r.role) t.remove_labels labels,
                kept_apart (labels_of r.role) t.remove_labels t.add_labels,
              ),
          λ e.
              meets-append (keep stays labels) (keep stays t.add_labels) terminal_labels
              ∙ ground (
                arith,
                check,
                kept_meets stays labels terminal_labels e,
                kept_meets stays t.add_labels terminal_labels,
              ),
        )
