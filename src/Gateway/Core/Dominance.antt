-- ===== src/Gateway/Core/Dominance.antt =====
-- Dominance between tools: it is strict, and marking always leaves a tool that nothing dominates.
use native.Mathlib.Nat.{le_trans}
use hermes_sdlc_agents.Prelude.{
  ◌≤◌, ◌<◌, ◌≡◌, ◌≢◌, ◌↔◌, inl, inr, refl, Bool, true, false, not, ◌&&◌, ◌==◌, eq_iff, List, [],
  ◌∷◌, arith, leb, find_first, All, Bool-cases, Option-cases, find_first-eq-some, find_first-none,
  find_first-eq-none, All-imp, Memᴰ, All-mem, leb→le,
}
use hermes_sdlc_agents.Gateway.Models.{RankedTool, tool_id}
use hermes_sdlc_agents.Gateway.Core.{
  Floats, dominates, dominator, mark, mark_dominated, privilege_vector,
}
use hermes_sdlc_agents.Gateway.Core.Risk.{AllLe, AllLe-of_all_le}
use mathlib.Core.List.Memᴰ as MemD

module _ {F : Type 0} (fl : Floats F) where
  -- A dominating tool has a lower score and no privilege that the other one lacks.
  pub dominates_strict :
      (a b : RankedTool F)
      → dominates fl a b ≡ true
      → (a.assessment.score < b.assessment.score)
        × AllLe
            (privilege_vector a.assessment.properties)
            (privilege_vector b.assessment.properties)
  unfolding dominates
  dominates_strict a b h = (
    ground arith,
    AllLe-of_all_le (privilege_vector a.assessment.properties)
        (privilege_vector b.assessment.properties) (ground arith),
  )

  -- What `a` needs to be the dominator of `b`.
  abbrev pub Dominates : RankedTool F → RankedTool F → Type 0
  Dominates a b = (tool_id a.tool ≢ tool_id b.tool) × (dominates fl a b ≡ true)

  -- The test of `dominator`.
  abbrev test : RankedTool F → RankedTool F → Bool
  test c d = not (tool_id d.tool == tool_id c.tool) && dominates fl d c

  test→Dominates : (c d : RankedTool F) → test c d ≡ true → Dominates d c
  test→Dominates c d h = (ground (arith, eq_iff (tool_id d.tool) (tool_id c.tool)), ground arith)

  Dominates→test : (c d : RankedTool F) → Dominates d c → test c d ≡ true
  Dominates→test c d h = ground (arith, eq_iff (tool_id d.tool) (tool_id c.tool))

  -- The flag is set exactly if some candidate of another name dominates.
  mark_iff :
      (cs : List (RankedTool F)) (c : RankedTool F)
      → ((mark fl cs c).dominated ≡ true) ↔ ((d : RankedTool F) × (Memᴰ d cs) × Dominates d c)
  unfolding mark dominator
  mark_iff cs c = (to, from)
    where
      to : (mark fl cs c).dominated ≡ true → (d : RankedTool F) × Memᴰ d cs × Dominates d c
      to h = elim (Option-cases (find_first (test c) cs)) [
        | inl e ↦ cc (rw (e, mark) at h)
        | inr (d, e) ↦ let (m, t) = find_first-eq-some (test c) cs e in (d, m, test→Dominates c d t)
      ]

      from : ((d : RankedTool F) × Memᴰ d cs × Dominates d c) → (mark fl cs c).dominated ≡ true
      from (d, m, dom) = elim (Option-cases (find_first (test c) cs)) [
        | inl e ↦ cc (All-mem _ cs (find_first-eq-none (test c) cs e) m, Dominates→test c d dom)
        | inr (x, e) ↦ rw e refl
      ]

  -- A candidate of least score among the candidates is not marked.
  least-mark :
      (cs : List (RankedTool F)) (c : RankedTool F)
      → All (λ d. c.assessment.score ≤ d.assessment.score) cs
      → (mark fl cs c).dominated ≡ false
  unfolding mark dominator
  least-mark cs c h =
      rw (find_first-none (test c) cs (All-imp _ _ cs (λ d le. not_test d le) h)) refl
    where
      not_test : (d : RankedTool F) → c.assessment.score ≤ d.assessment.score → test c d ≡ false
      not_test d le = elim (Bool-cases (test c d)) [
        | inl e ↦ absurd (omega (arith, (dominates_strict d c (test→Dominates c d e).1).0))
        | inr e ↦ e
      ]

  least :
      (c : RankedTool F) (cs : List (RankedTool F))
      → (m : RankedTool F) × Memᴰ m (c ∷ cs)
        × All (λ d. m.assessment.score ≤ d.assessment.score) (c ∷ cs)
  least c [] = (c, Memᴰ.head refl, omega arith)
  least c (d ∷ ds) =
      let (m, here, low) = least d ds in
      elim (Bool-cases (leb c.assessment.score m.assessment.score)) [
        | inl e ↦ (
          c,
          Memᴰ.head refl,
          (omega arith, All-imp _ _ (d ∷ ds) (λ x h. le_trans (leb→le _ _ e) h) low),
        )
        | inr e ↦ (m, Memᴰ.tail here, (ground arith, low))
      ]

  -- However the candidates dominate one another, one of them stays undominated.
  mark_dominated_survivor :
      (c : RankedTool F) (cs : List (RankedTool F))
      → (t : RankedTool F) × Memᴰ t (mark_dominated fl (c ∷ cs)) × (t.dominated ≡ false)
  unfolding mark_dominated
  mark_dominated_survivor c cs =
      let (m, here, low) = least c cs in
      (mark fl (c ∷ cs) m, MemD.map (mark fl (c ∷ cs)) here, least-mark (c ∷ cs) m low)
