-- ===== src/Gateway/Resolver.antt =====
-- capability_gateway/core.py, from `request_id` to `resolve`. `sha256` is the hexadecimal digest of
-- the UTF-8 of a text, from hashlib. The keyword arguments of `resolve` are a record.
pub mod Safety
pub mod Best
use hermes_sdlc_agents.Prelude.{
  first, ℕ, ◌≡◌, refl, String, Bool, true, false, not, ◌&&◌, ◌||◌, Option, none, some, List, [],
  ◌∷◌, ◌==◌, ltb, leb, if◌then◌else◌, find_first, or_else, take_chars,
}
use hermes_sdlc_agents.Prelude.Table.{lookup, elem}
use hermes_sdlc_agents.Gateway.Models.{
  RiskCategory, rank, tool_id, RankedTool, ApprovalRequest, Resolution,
}
use hermes_sdlc_agents.Gateway.Core.{Floats, mark_dominated, before, sort_by}
use Prim.Native.String
use mathlib.Core.Option

pub record Question : Type 0 where
  pub intent : String
  pub max_auto_category : RiskCategory
  pub requested_tool_id : Option String
  pub allowed_once : List String
  pub exception_tools : List String
  pub capability_overrides : List (String × RiskCategory)
  pub emergency_stop : Bool

-- `text == optional`, where the optional text may be `None`.
abbrev pub is_text : Option String → String → Bool
is_text none s = false
is_text (some t) s = s == t

unfoldable pub request_id : (String → String) → String → String → String
request_id sha256 intent tool = take_chars 24 (sha256 (String.◌++◌ intent (String.◌++◌ "\0" tool)))

-- The loop that fills `eligible` and `filtered`.
unfoldable pub partition_by {ℓ} : {A : Type ℓ} → (A → Bool) → List A → List A × List A
partition_by p [] = ([], [])
partition_by p (x ∷ xs) =
    let rest = partition_by p xs in if p x then (x ∷ rest.0, rest.1) else (rest.0, x ∷ rest.1)

module _ {F : Type 0} (q : Question) where
  unfoldable pub effective_category : RankedTool F → RiskCategory
  effective_category candidate =
      or_else (lookup candidate.assessment.canonical_capability q.capability_overrides)
        candidate.assessment.category

  -- `already_allowed`, and the `exempt or one_shot` of the loop.
  unfoldable pub is_authorized : RankedTool F → Bool
  is_authorized candidate =
      elem (tool_id candidate.tool) q.allowed_once
      || elem (tool_id candidate.tool) q.exception_tools

  unfoldable pub is_permitted : RankedTool F → Bool
  unfolding effective_category
  is_permitted candidate = leb (rank (effective_category candidate)) (rank q.max_auto_category)

  -- The test of the loop.
  unfoldable pub is_eligible : RankedTool F → Bool
  unfolding is_permitted is_authorized
  is_eligible candidate =
      (not candidate.dominated
        && (is_permitted candidate || elem (tool_id candidate.tool) q.exception_tools))
      || (is_text q.requested_tool_id (tool_id candidate.tool) && is_authorized candidate)

  abbrev pub approval : (String → String) → RankedTool F → Option (RankedTool F) → ApprovalRequest
  approval sha256 requested selected = record {
    request_id = request_id sha256 q.intent (tool_id requested.tool);
    intent = q.intent;
    requested_tool_id = tool_id requested.tool;
    requested_category = effective_category requested;
    allowed_category = q.max_auto_category;
    recommended_tool_id = Option.map (λ s. tool_id s.tool) selected;
    reason = "requested tool exceeds configured risk ceiling; explicit human authority is required";
  }

  -- The final `selected` and `approval`, from the requested tool and the best eligible one.
  unfoldable pub decide_request :
      (String → String)
      → Option (RankedTool F)
      → Option (RankedTool F)
      → Option (RankedTool F) × Option ApprovalRequest
  unfolding is_authorized effective_category
  decide_request sha256 none selected = (selected, none)
  decide_request sha256 (some requested) selected =
      if ltb (rank q.max_auto_category) (rank (effective_category requested))
        && not (is_authorized requested)
      then (none, some (approval sha256 requested selected))
      else if is_authorized requested
      then (some requested, none)
      else (selected, none)

  -- `marked` as `requested_tool_id` picks from it.
  unfoldable pub requested_of : List (RankedTool F) → Option (RankedTool F)
  requested_of marked = find_first (λ item. is_text q.requested_tool_id (tool_id item.tool)) marked

module _ {F : Type 0} (fl : Floats F) (sha256 : String → String) where
  unfoldable pub resolve_marked : Question → List (RankedTool F) → Resolution F
  unfolding is_eligible requested_of decide_request
  resolve_marked q marked =
      let (eligible, filtered) = partition_by (is_eligible q) marked in
      let visible = sort_by (before fl) eligible in
      let (selected, approval) = decide_request q sha256 (requested_of q marked) (first visible) in
      record {
        intent = q.intent;
        selected = selected;
        visible_tools = visible;
        filtered_tools = filtered;
        approval_required = approval;
        emergency_stop = false;
      }

  unfoldable pub resolve : Question → List (RankedTool F) → Resolution F
  unfolding resolve_marked
  resolve q candidates =
      if q.emergency_stop
      then record {
        intent = q.intent;
        selected = none;
        visible_tools = [];
        filtered_tools = candidates;
        approval_required = none;
        emergency_stop = true;
      }
      else resolve_marked q (mark_dominated fl candidates)
