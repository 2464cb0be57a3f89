-- ===== src/Orchestrator/Database/Queue.antt =====
-- What `queue_counts` counts.
use hermes_sdlc_agents.Prelude.{
  [], ◌∷◌, inl, inr, Bool-cases, ◌&&◌, arith, ◌==◌, length, not, ◌≡◌, ◌+◌, Option, List, String,
  keep, ℕ, refl, none, some,
}
use hermes_sdlc_agents.Orchestrator.Database.{◌∷◌, Assignment, Db, is_due, queue_counts, is_delayed}

due_or_delayed : (now : ℕ) (t : Option ℕ) → is_delayed now t ≡ not (is_due now t)
unfolding is_delayed is_due
due_or_delayed now none = refl
due_or_delayed now (some t) = ground arith

counted :
    (now : ℕ) (role : String) (rows : List Assignment)
    → let mine = keep (λ a. a.role == role) rows in
      length (keep (λ a. a.status == "PENDING" && is_due now a.next_retry_at) mine)
        + length (keep (λ a. a.status == "PENDING" && is_delayed now a.next_retry_at) mine)
      ≡ length (keep (λ a. a.role == role && a.status == "PENDING") rows)
unfolding keep
counted now role [] = refl
counted now role (a ∷ rows) = elim (Bool-cases (a.role == role)) [
  | inl own ↦ rw (own) (ground (arith, counted now role rows, due_or_delayed now a.next_retry_at))
  | inr other ↦ rw (other) (counted now role rows)
]

-- The due and the delayed assignments of a role are together its pending ones: each of these is counted
-- once.
queue_counts_pending :
    (now : ℕ) (role : String) (s : Db)
    → let c = queue_counts now role s in
      c.pending_due + c.pending_delayed
      ≡ length (keep (λ a. a.role == role && a.status == "PENDING") s.role_assignments)
unfolding queue_counts
queue_counts_pending now role s = counted now role s.role_assignments
