-- ===== src/Gateway/Models.antt =====
-- capability_gateway/models.py. A `float` (an intent fit, a judge's confidence) is a value of an
-- abstract type `F`: the gateway only compares such values and adds a tolerance.
use hermes_sdlc_agents.Prelude.{
  ℕ, String, Bool, Option, List, Result, ok, raise, if◌then◌else◌, strip, upper_is,
}
use hermes_sdlc_agents.Prelude.Json.{Fields}
use Prim.Native.String

-- `IntEnum`: the categories compare by their ranks.
pub data RiskCategory : Type 0 where
  safe low medium high critical : RiskCategory

abbrev pub rank : RiskCategory → ℕ
rank safe = 0
rank low = 1
rank medium = 2
rank high = 3
rank critical = 4

-- The error is the message of the `ValueError`.
unfoldable pub parse_category : String → Result String RiskCategory
parse_category value =
    let normalized = strip value in
    if upper_is normalized "SAFE"
    then ok safe
    else if upper_is normalized "LOW"
    then ok low
    else if upper_is normalized "MEDIUM"
    then ok medium
    else if upper_is normalized "HIGH"
    then ok high
    else if upper_is normalized "CRITICAL"
    then ok critical
    else raise (String.◌++◌ "unsupported risk category: " value)

pub record ToolDescriptor : Type 0 where
  pub server_id : String
  pub tool_name : String
  pub description : String
  pub input_schema : Fields
  pub annotations : Fields
  pub source : String
  pub version : Option String

-- The property `ToolDescriptor.tool_id`.
unfoldable pub tool_id : ToolDescriptor → String
tool_id t = String.◌++◌ t.server_id (String.◌++◌ ":" t.tool_name)

pub record ToolSemantics (F : Type 0) : Type 0 where
  pub canonical_capability : String
  pub read : Bool
  pub write : Bool
  pub destructive : Bool
  pub egress : Bool
  pub credential_access : Bool
  pub arbitrary_execution : Bool
  pub open_world : Bool
  pub rationale : String
  pub confidence : F

pub record RiskAssessment (F : Type 0) : Type 0 where
  pub tool_id : String
  pub canonical_capability : String
  pub score : ℕ
  pub category : RiskCategory
  pub properties : ToolSemantics F
  pub reasons : List String
  pub judge_confidence : F

pub record RankedTool (F : Type 0) : Type 0 where
  pub tool : ToolDescriptor
  pub assessment : RiskAssessment F
  pub intent_fit : F
  pub dominated : Bool
  pub dominance_reason : Option String

pub record ApprovalRequest : Type 0 where
  pub request_id : String
  pub intent : String
  pub requested_tool_id : String
  pub requested_category : RiskCategory
  pub allowed_category : RiskCategory
  pub recommended_tool_id : Option String
  pub reason : String

pub record Resolution (F : Type 0) : Type 0 where
  pub intent : String
  pub selected : Option (RankedTool F)
  pub visible_tools : List (RankedTool F)
  pub filtered_tools : List (RankedTool F)
  pub approval_required : Option ApprovalRequest
  pub emergency_stop : Bool
