-- ===== src/Gateway/Core/Risk.antt =====
-- The risk score: its thresholds, its bound, and that more privilege never scores lower.
use hermes_sdlc_agents.Prelude.{
  ℕ, ◌+◌, ◌*◌, ◌≤◌, ◌≡◌, ◌↔◌, ap, min, String, Bool, true, false, not, ◌&&◌, List, [], ◌∷◌, arith,
}
use hermes_sdlc_agents.Gateway.Models.{
  RiskCategory, safe, low, medium, high, critical, rank, ToolDescriptor, ToolSemantics,
}
use hermes_sdlc_agents.Gateway.Core.{
  category_for_score, risk_weights, Tally, add_reason, weigh, to_int, hint_is, tally_risk,
  assess_risk, privilege_vector, all_le,
}

-- The least score of each category.
abbrev pub least_score : RiskCategory → ℕ
least_score safe = 0
least_score low = 15
least_score medium = 35
least_score high = 60
least_score critical = 80

-- A score reaches a category's rank exactly if it reaches the category's floor.
category_for_score_iff :
    (c : RiskCategory) (score : ℕ)
    → (least_score c ≤ score) ↔ (rank c ≤ rank (category_for_score score))
unfolding category_for_score
category_for_score_iff safe score = ground arith
category_for_score_iff low score = ground arith
category_for_score_iff medium score = ground arith
category_for_score_iff high score = ground arith
category_for_score_iff critical score = ground arith

pub category_for_score_mono :
    (a b : ℕ) → a ≤ b → rank (category_for_score a) ≤ rank (category_for_score b)
unfolding category_for_score
category_for_score_mono a b h = ground arith

-- Pointwise order of two lists of numbers.
abbrev pub AllLe : List ℕ → List ℕ → Type 0
AllLe (x ∷ xs) (y ∷ ys) = (x ≤ y) × AllLe xs ys
AllLe _ _ = Unit {0}

pub AllLe-of_all_le : (xs ys : List ℕ) → all_le xs ys ≡ true → AllLe xs ys
unfolding all_le
AllLe-of_all_le [] ys h = tt
AllLe-of_all_le (x ∷ xs) [] h = tt
AllLe-of_all_le (x ∷ xs) (y ∷ ys) h = (ground arith, AllLe-of_all_le xs ys (ground arith))

add_reason-total :
    (b : Bool) (w : ℕ) (r : String) (t : Tally) → (add_reason b w r t).0 ≡ t.0 + w * to_int b
add_reason-total true w r t = omega arith
add_reason-total false w r t = omega arith

hinted_mono :
    (d x y : Bool) (w h : ℕ)
    → h ≤ w
    → to_int x ≤ to_int y
    → w * to_int x + h * to_int (d && not x) ≤ w * to_int y + h * to_int (d && not y)
hinted_mono d x y w h hw hx = grind arith

module _ {F : Type 0} where
  -- What the weights add to the score.
  abbrev total : ToolSemantics F → List (String × (ToolSemantics F → Bool) × ℕ × String) → ℕ
  total s [] = 0
  total s ((name, flag, weight, printed) ∷ rest) = weight * to_int (flag s) + total s rest

  weigh-total :
      (s : ToolSemantics F) (ws : List (String × (ToolSemantics F → Bool) × ℕ × String)) (t : Tally)
      → (weigh s ws t).0 ≡ t.0 + total s ws
  unfolding weigh
  weigh-total s [] t = omega arith
  weigh-total s ((name, flag, weight, printed) ∷ rest) t = omega (
    arith,
    weigh-total s rest (add_reason (flag s) weight _ t),
    add_reason-total (flag s) weight _ t,
  )

  -- The sum that `assess_risk` cuts at 100, as a number.
  abbrev raw_score : ToolDescriptor → ToolSemantics F → ℕ
  raw_score tool s =
      total s risk_weights
      + 20 * to_int (hint_is tool.annotations "destructiveHint" true && not s.destructive)
      + 8 * to_int (hint_is tool.annotations "readOnlyHint" false && not s.write)

  tally_risk-raw_score :
      (tool : ToolDescriptor) (s : ToolSemantics F) → (tally_risk tool s).0 ≡ raw_score tool s
  unfolding tally_risk
  tally_risk-raw_score tool s =
      let weighed = weigh s risk_weights (0, []) in
      let d = hint_is tool.annotations "destructiveHint" true && not s.destructive in
      omega (
        arith,
        weigh-total s risk_weights (0, []),
        add_reason-total d 20 "mcp_destructive_hint:+20" weighed,
        add_reason-total (hint_is tool.annotations "readOnlyHint" false && not s.write) 8
            "mcp_not_readonly_hint:+8" (add_reason d 20 "mcp_destructive_hint:+20" weighed),
      )

  raw_score_mono :
      (tool : ToolDescriptor) (a b : ToolSemantics F)
      → AllLe (privilege_vector a) (privilege_vector b)
      → raw_score tool a ≤ raw_score tool b
  unfolding privilege_vector
  raw_score_mono tool a b h = omega (
    arith,
    hinted_mono (hint_is tool.annotations "destructiveHint" true) a.destructive b.destructive 35 20,
    hinted_mono (hint_is tool.annotations "readOnlyHint" false) a.write b.write 22 8,
  )

  -- With every flag of `a` set in `b` too, the same tool scores `b` at least as high as `a`, in a
  -- category at least as high; both scores are at most 100.
  pub assess_risk_mono :
      (tool : ToolDescriptor) (a b : ToolSemantics F)
      → all_le (privilege_vector a) (privilege_vector b) ≡ true
      → ((assess_risk tool a).score ≤ (assess_risk tool b).score)
        × (rank (assess_risk tool a).category ≤ rank (assess_risk tool b).category)
        × ((assess_risk tool b).score ≤ 100)
  unfolding assess_risk
  assess_risk_mono tool a b h =
      let le = raw_score_mono tool a b (AllLe-of_all_le _ _ h) in
      let scores : min (tally_risk tool a).0 100 ≤ min (tally_risk tool b).0 100 =
        omega (arith, tally_risk-raw_score tool a, tally_risk-raw_score tool b) in
      (scores, category_for_score_mono _ _ scores, omega arith)

  -- The score is the sum of the weights of the flags and of the two hints, cut at 100, and the
  -- category is that of the score.
  pub assess_risk-score :
      (tool : ToolDescriptor) (s : ToolSemantics F)
      → ((assess_risk tool s).score ≡ min (raw_score tool s) 100)
        × ((assess_risk tool s).category ≡ category_for_score (min (raw_score tool s) 100))
  unfolding assess_risk
  assess_risk-score tool s =
      let same = ap (λ (n : ℕ). min n 100) (tally_risk-raw_score tool s) in
      (same, ap category_for_score same)
