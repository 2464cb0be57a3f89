-- ===== src/Orchestrator/Database/Attempts.antt =====
-- What a started run does to the attempts of its assignment.
use hermes_sdlc_agents.Prelude.{
  eq_refl, ok-injective, some-injective, not, subst, List, ◌==◌, require-eq-ok, any_of, Bool,
  Option, find_first, String, ℕ, ◌+◌, ◌≡◌, refl, true, false, ok, none, some, [], ◌∷◌, inl, inr,
  Bool-cases, arith, ◌∙◌, ap,
}
use hermes_sdlc_agents.Prelude.Rows.{any_of-append_one, update_where}
use hermes_sdlc_agents.Orchestrator.Database.{
  attempts_of, Db, Assignment, is_active, assignment_row, assignment_attempt_count,
}
use hermes_sdlc_agents.Orchestrator.Database.Writes.{
  new_run, mark_assignment_started, start_run, start_found,
}

find_first-update_where {ℓ} :
    {A : Type ℓ} (p : A → Bool) (f : A → A) (xs : List A) (a : A)
    → ((x : A) → p (f x) ≡ p x)
    → find_first p xs ≡ some a
    → find_first p (update_where p f xs) ≡ some (f a)
unfolding find_first update_where
find_first-update_where p f [] a h e = cc
find_first-update_where p f (x ∷ xs) a h e = elim (Bool-cases (p x)) [
  | inl hit ↦ rw (hit, h x, hit) (ap (λ z. some (f z)) (some-injective _ _ (rw hit at e)))
  | inr miss ↦ rw (miss, miss) (find_first-update_where p f xs a h (rw miss at e))
]

new_run-is_active :
    (now : ℕ) (key run : String) (session : Option String) (n : ℕ)
    → is_active key (new_run now key run session n) ≡ true
unfolding is_active
new_run-is_active now key run session n = ground (arith, eq_refl key)

count_of :
    (key : String) (s : Db) (a : Assignment)
    → assignment_row key s ≡ some a
    → assignment_attempt_count key s ≡ a.attempt_count
unfolding assignment_attempt_count
count_of key s a e = ap attempts_of e

start_run-attempts :
    (now : ℕ) (key run : String) (session : Option String) (n : ℕ) (s t : Db) (a : Assignment)
    → assignment_row key s ≡ some a
    → start_run now key run session n s ≡ ok t
    → (assignment_attempt_count key t ≡ n) × (any_of (is_active key) t.agent_runs ≡ true)
unfolding start_run assignment_row
start_run-attempts now key run session n s t a e h =
    elim (Bool-cases (any_of (λ r. r.hermes_run_id == run) s.agent_runs)) [
      | inl used ↦ cc (rw used at h)
      | inr fresh ↦
          subst
            (λ (u : Db).
              (assignment_attempt_count key u ≡ n) × (any_of (is_active key) u.agent_runs ≡ true))
            (ok-injective (rw fresh at h))
            (
              count_of key _ _ (
                  find_first-update_where (λ b. b.assignment_key == key) _ s.role_assignments a
                    (λ b. refl) e),
              any_of-append_one (is_active key) s.agent_runs (new_run now key run session n)
                  ∙ ground (arith, new_run-is_active now key run session n),
            )
    ]

start_found-attempts :
    (now : ℕ) (key run : String) (session : Option String) (s t : Db) (o : Option Assignment)
    → assignment_row key s ≡ o
    → start_found now key run session o s ≡ ok t
    → (assignment_attempt_count key t ≡ assignment_attempt_count key s + 1)
      × (any_of (is_active key) t.agent_runs ≡ true)
unfolding start_found
start_found-attempts now key run session s t none e h = cc
start_found-attempts now key run session s t (some a) e h =
    let (n, active) = start_run-attempts now key run session (a.attempt_count + 1) s t a e h in
    (omega (arith, n, count_of key s a e), active)

-- A start that succeeds found no active run of the assignment, leaves one, and adds one to the
-- assignment's attempts.
mark_assignment_started-attempts :
    (now : ℕ) (key run : String) (session : Option String) (s t : Db)
    → mark_assignment_started now key run session s ≡ ok t
    → (any_of (is_active key) s.agent_runs ≡ false)
      × (any_of (is_active key) t.agent_runs ≡ true)
      × (assignment_attempt_count key t ≡ assignment_attempt_count key s + 1)
unfolding mark_assignment_started
mark_assignment_started-attempts now key run session s t h =
    let (idle, h) = require-eq-ok (not (any_of (is_active key) s.agent_runs)) _ _ h in
    let (count, active) =
      start_found-attempts now key run session s t (assignment_row key s) refl h in
    (ground (arith, idle), active, count)
