-- ===== src/Gateway/Resolver/Best.antt =====
-- Without a requested tool, the selection is a best one of the tools shown.
use hermes_sdlc_agents.Prelude.{
  inr, subst, inl, ◌≡◌, String, Bool, true, false, not, ◌&&◌, ◌||◌, none, some, List, [], ◌∷◌, All,
  arith, ltb, Bool-cases, find_first-none, some-injective, first,
}
use hermes_sdlc_agents.Gateway.Models.{RankedTool, tool_id}
use hermes_sdlc_agents.Gateway.Core.{Floats, mark_dominated, before, sort_by}
use hermes_sdlc_agents.Gateway.Core.Sorting.{HeadIsBest, sort_by-HeadIsBest}
use hermes_sdlc_agents.Gateway.Resolver.Safety.{resolve-eq}
use hermes_sdlc_agents.Gateway.Resolver.{
  Question, partition_by, is_text, is_eligible, requested_of, resolve_marked, resolve,
}

-- The order of the floats other than NaN: strict and total, with `==` where neither is less.
pub record FloatLaws {F : Type 0} (fl : Floats F) : Type 0 where
  pub irrefl : (a : F) → fl.lt a a ≡ false
  pub asym : (a b : F) → fl.lt a b ≡ true → fl.lt b a ≡ false
  pub chain : (a b c : F) → fl.lt a b ≡ false → fl.lt b c ≡ false → fl.lt a c ≡ false
  pub same : (a b : F) → fl.eq a b ≡ (not (fl.lt a b) && not (fl.lt b a))

-- `a` fits better than `b`, or as well with a lower score.
abbrev pub better : {F : Type 0} → Floats F → RankedTool F → RankedTool F → Bool
better fl a b =
    fl.lt b.intent_fit a.intent_fit
    || (fl.eq a.intent_fit b.intent_fit && ltb a.assessment.score b.assessment.score)

module _ {F : Type 0} (fl : Floats F) (laws : FloatLaws fl) where
  before_refines : (a b : RankedTool F) → before fl a b ≡ true → better fl b a ≡ false
  unfolding before
  before_refines a b h = ground (
    arith,
    laws.same a.intent_fit b.intent_fit,
    laws.same b.intent_fit a.intent_fit,
    laws.asym b.intent_fit a.intent_fit,
  )

  before_covers : (a b : RankedTool F) → before fl a b ≡ false → better fl a b ≡ false
  unfolding before
  before_covers a b h = ground (arith, laws.same a.intent_fit b.intent_fit)

  better_chain :
      (a b c : RankedTool F) → better fl a b ≡ false → better fl b c ≡ false → better fl a c ≡ false
  better_chain a b c h k = ground (
    arith,
    laws.same a.intent_fit b.intent_fit,
    laws.same b.intent_fit c.intent_fit,
    laws.same a.intent_fit c.intent_fit,
    laws.chain c.intent_fit b.intent_fit a.intent_fit,
    laws.chain a.intent_fit c.intent_fit b.intent_fit,
    laws.chain b.intent_fit a.intent_fit c.intent_fit,
  )

  better_irrefl : (a : RankedTool F) → better fl a a ≡ false
  better_irrefl a = ground (arith, laws.irrefl a.intent_fit)

  first-best :
      (xs : List (RankedTool F)) (t : RankedTool F)
      → HeadIsBest
          (before fl)
          (better fl)
          before_refines
          before_covers
          better_chain
          better_irrefl
          xs
      → first xs ≡ some t
      → All (λ u. better fl u t ≡ false) xs
  first-best [] t h e = tt
  first-best (x ∷ xs) t h e =
      subst (λ y. All (λ u. better fl u y ≡ false) (x ∷ xs)) (some-injective _ _ e)
        (better_irrefl x, h)

  unrequested :
      (q : Question) (marked : List (RankedTool F))
      → q.requested_tool_id ≡ none
      → requested_of q marked ≡ none
  unfolding requested_of
  unrequested q marked h = find_first-none _ marked (all_false marked)
    where
      all_false :
          (xs : List (RankedTool F))
          → All (λ item. is_text q.requested_tool_id (tool_id item.tool) ≡ false) xs
      all_false [] = tt
      all_false (x ∷ xs) = (ground arith, all_false xs)

  selected-first :
      (sha256 : String → String) (q : Question) (marked : List (RankedTool F)) (t : RankedTool F)
      → q.requested_tool_id ≡ none
      → (resolve_marked fl sha256 q marked).selected ≡ some t
      → first (resolve_marked fl sha256 q marked).visible_tools ≡ some t
  unfolding resolve_marked
  selected-first sha256 q marked t none_asked h = ground (arith, unrequested q marked none_asked)

  best_marked :
      (sha256 : String → String) (q : Question) (marked : List (RankedTool F)) (t : RankedTool F)
      → q.requested_tool_id ≡ none
      → (resolve_marked fl sha256 q marked).selected ≡ some t
      → All (λ u. better fl u t ≡ false) (resolve_marked fl sha256 q marked).visible_tools
  unfolding resolve_marked
  best_marked sha256 q marked t none_asked h =
      let eligible = (partition_by (is_eligible q) marked).0 in
      first-best (sort_by (before fl) eligible) t
        (sort_by-HeadIsBest (before fl) (better fl) before_refines before_covers better_chain
          better_irrefl eligible)
        (selected-first sha256 q marked t none_asked h)

  nothing_stopped :
      (sha256 : String → String) (q : Question) (cs : List (RankedTool F)) (t : RankedTool F)
      → q.emergency_stop ≡ true
      → All (λ u. better fl u t ≡ false) (resolve fl sha256 q cs).visible_tools
  unfolding resolve
  nothing_stopped sha256 q cs t on = rw (on) tt

  -- If the floats are totally ordered, which excludes NaN, and no tool is requested, then no tool that
  -- is shown fits better than the selected one, nor as well with a lower score.
  pub resolve_best :
      (sha256 : String → String) (q : Question) (cs : List (RankedTool F)) (t : RankedTool F)
      → q.requested_tool_id ≡ none
      → (resolve fl sha256 q cs).selected ≡ some t
      → All (λ u. better fl u t ≡ false) (resolve fl sha256 q cs).visible_tools
  resolve_best sha256 q cs t none_asked h = elim (Bool-cases q.emergency_stop) [
    | inl on ↦ nothing_stopped sha256 q cs t on
    | inr off ↦
        let e = resolve-eq fl sha256 q cs off in
        rw (e) (best_marked sha256 q (mark_dominated fl cs) t none_asked (rw (e) at h))
  ]
