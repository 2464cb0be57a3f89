-- ===== src/Gate/Hooks/Remembered.antt =====
-- The proposals that are remembered, and the one that a call matches.
use mathlib.Core.List.{reverse, reverse-cons}
use hermes_sdlc_agents.Prelude.{
  ltb, All, ◌∙◌, ℕ, String, Option, none, some, List, [], ◌∷◌, ◌++◌, ◌==◌, ◌≡◌, ◌⊎◌, inl, inr, refl,
  sym, ap, arith, Bool-cases, eq_iff, Memᴰ, length, find_first, find_first-eq-some, if◌then◌else◌,
  or_else, subst,
}
use hermes_sdlc_agents.Prelude.Rows.{All-append_one}
use hermes_sdlc_agents.Prelude.Table.{lookup, lookup-insert}
use hermes_sdlc_agents.Gate.Proposals.{
  Proposal, Proposals, remember, append_bounded, trimmed, max_proposals, proposals_of, match_among,
  or_found, has_id, is_same, has_name,
}

pub proposals_of-remember :
    (k j : String) (p : Proposal) (s : Proposals)
    → proposals_of (remember k p s) j
      ≡ (if k == j then append_bounded max_proposals (proposals_of s k) p else proposals_of s j)
unfolding proposals_of remember
proposals_of-remember k j p s =
    let e = lookup-insert s k (append_bounded max_proposals (or_else (lookup k s) []) p) j in
    elim (Bool-cases (k == j)) [
      | inl same ↦ rw (same) (ap (λ o. or_else o []) e ∙ rw (same) refl)
      | inr other ↦ rw (other) (ap (λ o. or_else o []) e ∙ rw (other) refl)
    ]

module _ {κ} (P : Proposal → Type κ) where
  trimmed-All : (limit : ℕ) (ps : List Proposal) → All P ps → All P (trimmed limit ps)
  trimmed-All limit [] h = h
  trimmed-All limit (p ∷ ps) h = elim (Bool-cases (ltb limit (length (p ∷ ps)))) [
    | inl e ↦ rw (e) h.1
    | inr e ↦ rw (e) h
  ]

  pub append_bounded-All :
      (limit : ℕ) (ps : List Proposal) (p : Proposal)
      → All P ps
      → P p
      → All P (append_bounded limit ps p)
  unfolding append_bounded
  append_bounded-All limit ps p h k = trimmed-All limit (ps ++ p ∷ []) (All-append_one P ps p h k)

  pub reverse-All : (ps : List Proposal) → All P ps → All P (reverse ps)
  reverse-All [] h = h
  reverse-All (p ∷ ps) h =
      subst (All P) (sym (reverse-cons p ps))
        (All-append_one P (reverse ps) p (reverse-All ps h.1) h.0)

-- What is matched has the id that the call has, or its name.
abbrev pub IsMatch : String → String → Proposal → Type 0
IsMatch tool_call_id tool_name p = (p.tool_call_id ≡ tool_call_id) ⊎ (p.tool_name ≡ tool_name)

by_id :
    (ps : List Proposal) (tool_call_id tool_name : String) {p : Proposal}
    → (if tool_call_id == "" then none else find_first (has_id tool_call_id) ps) ≡ some p
    → Memᴰ p ps × IsMatch tool_call_id tool_name p
by_id ps tool_call_id tool_name h = elim (Bool-cases (tool_call_id == "")) [
  | inl e ↦ absurd (cc (rw e at h))
  | inr e ↦
      let (m, t) = find_first-eq-some (has_id tool_call_id) ps (rw e at h) in
      (m, inl ((eq_iff _ _).0 t))
]

pub match_among-IsMatch :
    (ps : List Proposal) (tool_call_id tool_name args_hash : String) {p : Proposal}
    → match_among ps tool_call_id tool_name args_hash ≡ some p
    → Memᴰ p ps × IsMatch tool_call_id tool_name p
unfolding match_among
match_among-IsMatch ps tool_call_id tool_name args_hash {p} h =
    first_of (if tool_call_id == "" then none else find_first (has_id tool_call_id) ps)
      (find_first (is_same tool_name args_hash) ps) (find_first (has_name tool_name) ps) refl refl
      refl h
  where
    first_of :
        (a b c : Option Proposal)
        → (if tool_call_id == "" then none else find_first (has_id tool_call_id) ps) ≡ a
        → find_first (is_same tool_name args_hash) ps ≡ b
        → find_first (has_name tool_name) ps ≡ c
        → or_found a (or_found b c) ≡ some p
        → Memᴰ p ps × IsMatch tool_call_id tool_name p
    first_of (some q) b c f g k e = by_id ps tool_call_id tool_name (f ∙ e)
    first_of none (some q) c f g k e =
        let (m, t) = find_first-eq-some (is_same tool_name args_hash) ps (g ∙ e) in
        (m, inr ((eq_iff _ _).0 (ground arith)))
    first_of none none c f g k e =
        let (m, t) = find_first-eq-some (has_name tool_name) ps (k ∙ e) in
        (m, inr ((eq_iff _ _).0 t))
