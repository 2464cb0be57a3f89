-- ===== src/Orchestrator/Snapshot/Counters.antt =====
-- The counters of a snapshot count each assignment that is not completed once.
use hermes_sdlc_agents.Prelude.{
  eq_iff, ℕ, String, Bool, true, false, not, ◌&&◌, Option, none, some, List, [], ◌∷◌, ◌==◌, ◌≡◌,
  refl, ap, arith, inl, inr, Bool-cases, length, keep, ◌+◌,
}
use hermes_sdlc_agents.Prelude.Table.{elem}
use hermes_sdlc_agents.Orchestrator.Reconciler.Settle.{one_if}
use hermes_sdlc_agents.Orchestrator.Database.{is_due, is_delayed, Assignment}
use hermes_sdlc_agents.Orchestrator.Snapshot.{queue_of, is_blocked}

due_or_delayed : (now : ℕ) (t : Option ℕ) → is_delayed now t ≡ not (is_due now t)
unfolding is_delayed is_due
due_or_delayed now none = refl
due_or_delayed now (some t) = ground arith

length-keep_cons :
    (t : Assignment → Bool) (a : Assignment) (table : List Assignment)
    → length (keep t (a ∷ table)) ≡ one_if (t a) + length (keep t table)
unfolding keep
length-keep_cons t a table = ground arith

-- A status that is not COMPLETED is of one kind only.
one_kind :
    (due : Bool) (status : String)
    → one_if (status == "PENDING" && due)
        + one_if (status == "PENDING" && not due)
        + one_if (status == "STARTED")
        + one_if (is_blocked status)
      ≡ one_if (not (status == "COMPLETED"))
unfolding elem
one_kind due status = elim (Bool-cases (status == "PENDING")) [
  | inl e ↦ rw ((eq_iff status "PENDING").0 e) (by_due due)
  | inr e ↦ elim (Bool-cases (status == "STARTED")) [
    | inl f ↦ rw ((eq_iff status "STARTED").0 f) refl
    | inr f ↦ elim (Bool-cases (status == "COMPLETED")) [
      | inl g ↦ rw ((eq_iff status "COMPLETED").0 g) refl
      | inr g ↦ ground (
        arith,
        eq_iff status "PENDING",
        eq_iff "PENDING" status,
        eq_iff status "STARTED",
        eq_iff "STARTED" status,
        eq_iff status "COMPLETED",
        eq_iff "COMPLETED" status,
      )
    ]
  ]
]
  where
    by_due : (d : Bool) → one_if d + one_if (not d) + 0 + 0 ≡ 1
    by_due true = refl
    by_due false = refl

one_own_kind :
    (own due : Bool) (status : String)
    → one_if (own && (status == "PENDING" && due))
        + one_if (own && (status == "PENDING" && not due))
        + one_if (own && status == "STARTED")
        + one_if (own && is_blocked status)
      ≡ one_if (own && not (status == "COMPLETED"))
one_own_kind true due status = one_kind due status
one_own_kind false due status = refl

length-keep_own :
    (t : Assignment → Bool) (role : String) (a : Assignment) (table : List Assignment)
    → length (keep t (keep (λ b. b.role == role) (a ∷ table)))
      ≡ one_if (a.role == role && t a) + length (keep t (keep (λ b. b.role == role) table))
unfolding keep
length-keep_own t role a table = ground arith

pub queue_of_total :
    (now : ℕ) (role : String) (table : List Assignment)
    → let q = queue_of now role table in
      q.pending_due + q.pending_delayed + q.active + q.blocked
      ≡ length (keep (λ a. a.role == role && not (a.status == "COMPLETED")) table)
unfolding queue_of
queue_of_total now role [] = unfold keep in refl
queue_of_total now role (a ∷ table) = omega (
  arith,
  queue_of_total now role table,
  length-keep_own (λ b. b.status == "PENDING" && is_due now b.next_retry_at) role a table,
  length-keep_own (λ b. b.status == "PENDING" && is_delayed now b.next_retry_at) role a table,
  length-keep_own (λ b. b.status == "STARTED") role a table,
  length-keep_own (λ b. is_blocked b.status) role a table,
  length-keep_cons (λ b. b.role == role && not (b.status == "COMPLETED")) a table,
  one_own_kind (a.role == role) (is_due now a.next_retry_at) a.status,
  ap (λ d. one_if (a.role == role && (a.status == "PENDING" && d)))
      (due_or_delayed now a.next_retry_at),
)
