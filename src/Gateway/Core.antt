-- ===== src/Gateway/Core.antt =====
-- capability_gateway/core.py: the risk score, dominance between tools, and the resolution of an
-- intent. The proofs are in the modules below.
pub mod Risk
pub mod Dominance
pub mod Sorting
use Prim.Native.Nat.{max}
use hermes_sdlc_agents.Prelude.{
  text_lt, ℕ, ◌+◌, ◌≡◌, refl, min, String, Bool, true, false, not, ◌&&◌, ◌||◌, Option, none, some,
  List, [], ◌∷◌, ◌++◌, ◌==◌, map, ltb, leb, nat_eq, if◌then◌else◌, find_first, is_some, or_else,
  take_chars,
}
use hermes_sdlc_agents.Prelude.Json.{Json, Fields}
use hermes_sdlc_agents.Prelude.Table.{lookup, elem}
use hermes_sdlc_agents.Gateway.Models.{
  RiskCategory, safe, low, medium, high, critical, rank, ToolDescriptor, tool_id, ToolSemantics,
  RiskAssessment, RankedTool, ApprovalRequest, Resolution,
}
use Prim.Native.String
use mathlib.Core.Option
use hermes_sdlc_agents.Prelude.Json

abbrev pub category_floors : List (RiskCategory × ℕ)
category_floors = (critical, 80) ∷ (high, 60) ∷ (medium, 35) ∷ (low, 15) ∷ (safe, 0) ∷ []

first_floor : List (RiskCategory × ℕ) → ℕ → RiskCategory
first_floor [] score = safe
first_floor ((category, floor) ∷ rest) score =
    if leb floor score then category else first_floor rest score

-- The score is a natural number here, so `max(0, …)` changes nothing.
unfoldable pub category_for_score : ℕ → RiskCategory
unfolding first_floor
category_for_score score = first_floor category_floors (max 0 (min 100 score))

module _ {F : Type 0} where
  -- `RISK_WEIGHTS`: the name of a flag, `getattr(semantics, name)`, its weight and the weight's print.
  abbrev pub risk_weights : List (String × (ToolSemantics F → Bool) × ℕ × String)
  risk_weights =
      ("read", (λ s. s.read), 5, "5")
      ∷ ("write", (λ s. s.write), 22, "22")
      ∷ ("destructive", (λ s. s.destructive), 35, "35")
      ∷ ("egress", (λ s. s.egress), 24, "24")
      ∷ ("credential_access", (λ s. s.credential_access), 32, "32")
      ∷ ("arbitrary_execution", (λ s. s.arbitrary_execution), 45, "45")
      ∷ ("open_world", (λ s. s.open_world), 18, "18")
      ∷ []

abbrev pub to_int : Bool → ℕ
to_int true = 1
to_int false = 0

is_bool : Option Json → Bool → Bool
is_bool (some (Json.bool b)) value = if value then b else not b
is_bool _ value = false

-- `annotations.get(key) is value`, for a Boolean value.
pub hint_is : Fields → String → Bool → Bool
unfolding is_bool
hint_is annotations key value = is_bool (Json.get annotations key) value

-- A score and the reasons so far.
abbrev pub Tally : Type 0
Tally = ℕ × List String

abbrev pub add_reason : Bool → ℕ → String → Tally → Tally
add_reason test weight reason (score, reasons) =
    if test then (score + weight, reasons ++ reason ∷ []) else (score, reasons)

module _ {F : Type 0} where
  -- The loop of `assess_risk` over the weights.
  weigh : ToolSemantics F → List (String × (ToolSemantics F → Bool) × ℕ × String) → Tally → Tally
  weigh s [] tally = tally
  weigh s ((name, flag, weight, printed) ∷ rest) tally =
      weigh s rest (add_reason (flag s) weight (String.◌++◌ name (String.◌++◌ ":+" printed)) tally)

  tally_risk : ToolDescriptor → ToolSemantics F → Tally
  unfolding weigh hint_is
  tally_risk tool s =
      let weighed = weigh s risk_weights (0, []) in
      let hinted =
        add_reason (hint_is tool.annotations "destructiveHint" true && not s.destructive) 20
          "mcp_destructive_hint:+20" weighed in
      add_reason (hint_is tool.annotations "readOnlyHint" false && not s.write) 8
        "mcp_not_readonly_hint:+8" hinted

  unfoldable pub assess_risk : ToolDescriptor → ToolSemantics F → RiskAssessment F
  unfolding tally_risk category_for_score
  assess_risk tool s =
      let (total, reasons) = tally_risk tool s in
      let score = min total 100 in
      record {
        tool_id = tool_id tool;
        canonical_capability = s.canonical_capability;
        score = score;
        category = category_for_score score;
        properties = s;
        reasons = reasons;
        judge_confidence = s.confidence;
      }

  unfoldable pub privilege_vector : ToolSemantics F → List ℕ
  privilege_vector s =
      to_int s.arbitrary_execution
      ∷ to_int s.destructive
      ∷ to_int s.credential_access
      ∷ to_int s.egress
      ∷ to_int s.write
      ∷ to_int s.open_world
      ∷ to_int s.read
      ∷ []

-- Tuples of one length, as those of `privilege_vector` are (`zip(..., strict=True)`).
unfoldable pub all_le : List ℕ → List ℕ → Bool
all_le (x ∷ xs) (y ∷ ys) = leb x y && all_le xs ys
all_le _ _ = true

-- What the gateway uses of `float`: the order, equality, the sum, and the literal 0.08.
pub record Floats (F : Type 0) : Type 0 where
  pub lt : F → F → Bool
  pub eq : F → F → Bool
  pub plus : F → F → F
  pub tolerance : F

module _ {F : Type 0} (fl : Floats F) where
  unfoldable pub dominates : RankedTool F → RankedTool F → Bool
  unfolding all_le privilege_vector
  dominates safer other =
      if fl.lt (fl.plus safer.intent_fit fl.tolerance) other.intent_fit
      then false
      else if leb other.assessment.score safer.assessment.score
      then false
      else all_le (privilege_vector safer.assessment.properties)
          (privilege_vector other.assessment.properties)

  -- The `next(...)` of `mark_dominated`.
  unfoldable pub dominator : List (RankedTool F) → RankedTool F → Option (RankedTool F)
  unfolding dominates
  dominator candidates candidate =
      find_first
        (λ other. not (tool_id other.tool == tool_id candidate.tool) && dominates other candidate)
        candidates

  unfoldable pub mark : List (RankedTool F) → RankedTool F → RankedTool F
  unfolding dominator
  mark candidates candidate =
      let found = dominator candidates candidate in
      record candidate {
        dominated = is_some found;
        dominance_reason =
            Option.map
              (λ d. String.◌++◌ (tool_id d.tool) " satisfies the intent with lower privilege/risk")
              found;
      }

  unfoldable pub mark_dominated : List (RankedTool F) → List (RankedTool F)
  unfolding mark
  mark_dominated candidates = map (mark candidates) candidates

  -- The order of the sort keys `(-intent_fit, score, tool_id)`: negation turns the order of floats.
  unfoldable pub before : RankedTool F → RankedTool F → Bool
  before a b =
      if not (fl.eq a.intent_fit b.intent_fit)
      then fl.lt b.intent_fit a.intent_fit
      else if not (nat_eq a.assessment.score b.assessment.score)
      then ltb a.assessment.score b.assessment.score
      else text_lt (tool_id a.tool) (tool_id b.tool)

-- `list.sort` is stable: what it gives is what insertion before the first greater item gives.
module _ {ℓ} {A : Type ℓ} (less : A → A → Bool) where
  pub insert_sorted : A → List A → List A
  insert_sorted x [] = x ∷ []
  insert_sorted x (y ∷ ys) = if less y x then y ∷ insert_sorted x ys else x ∷ y ∷ ys

  unfoldable pub sort_by : List A → List A
  unfolding insert_sorted
  sort_by [] = []
  sort_by (x ∷ xs) = insert_sorted x (sort_by xs)
