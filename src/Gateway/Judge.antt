-- ===== src/Gateway/Judge.antt =====
-- judge.py: what `classify` makes of the answer of the model, and the checks of its fields. The
-- request to the model is a parameter.
pub mod Bounds
pub mod Tests
use Prim.Native.Char.{code}
use Prim.Native.String.{count}
use hermes_sdlc_agents.Prelude.{
  ℕ, String, Bool, true, false, not, ◌&&◌, ◌||◌, Option, none, some, ◌==◌, leb, ltb, nat_eq, strip,
  contains, if◌then◌else◌, Result, ok, raise, ◌>>=◌, ◌>>◌, require, take_chars,
}
use hermes_sdlc_agents.Prelude.Json.{
  Json, Fields, null, bool, number, str, arr, obj, nil, cons, get,
}
use hermes_sdlc_agents.Gateway.Models.{ToolDescriptor, ToolSemantics}
use Prim.Native.String

-- `malformed` is every error that `classify` turns into `JudgeUnavailable`. Of those that it lets
-- pass, `overflow` is the `OverflowError` of `float` and `no_get` the `AttributeError` of a value that
-- is no dict.
pub data JudgeError : Type 0 where
  unavailable : (reason : String) → JudgeError
  malformed overflow no_get : JudgeError

-- What judge.py uses of Python: `to_float` is `float` of a literal (`none` where it overflows), `lt` is
-- `<`, `zero` and `one` are the bounds, `lower` is `str.lower`, and `loads` is `json.loads` (`none`
-- where it raises a `ValueError`).
pub record Reader (F : Type 0) : Type 0 where
  pub to_float : String → Option F
  pub lt : F → F → Bool
  pub zero : F
  pub one : F
  pub lower : String → String
  pub loads : String → Option Json

-- A `ValueError` is `malformed`, since `classify` catches it.
abbrev pub to_bool : Option Json → Result JudgeError Bool
to_bool (some (bool b)) = ok b
to_bool _ = raise malformed

unfoldable pub bounded_text : Option Json → ℕ → Result JudgeError String
bounded_text (some (str s)) limit =
    if strip s == "" || ltb limit (count s) then raise malformed else ok (strip s)
bounded_text _ limit = raise malformed

-- `allowed` of `_safe_capability`.
abbrev pub is_allowed : ℕ → Bool
is_allowed c =
    (leb b'a' c && leb c b'z')
    || (leb b'0' c && leb c b'9')
    || nat_eq c b'.'
    || nat_eq c b'_'
    || nat_eq c b'-'

unfoldable pub all_allowed : String → Bool
all_allowed String.[] = true
all_allowed (String.◌∷◌ c s) = is_allowed (code c) && all_allowed s

-- `value[key]`
abbrev pub at_key : String → Json → Result JudgeError Json
at_key key (obj fs) = elim (get fs key) [ none ↦ raise malformed | some v ↦ ok v ]
at_key key v = raise malformed

-- `value[0]`
abbrev pub at_first : Json → Result JudgeError Json
at_first (arr (cons v vs)) = ok v
at_first (str s) = if s == "" then raise malformed else ok (str (take_chars 1 s))
at_first v = raise malformed

module _ {F : Type 0} (rd : Reader F) where
  abbrev pub in_bounds : Option F → Result JudgeError F
  in_bounds none = raise overflow
  in_bounds (some x) = if rd.lt x rd.zero || rd.lt rd.one x then raise malformed else ok x

  unfoldable pub bounded_float : Option Json → Result JudgeError F
  bounded_float (some (number n)) = in_bounds (rd.to_float n)
  bounded_float _ = raise malformed

  unfoldable pub safe_capability : Option Json → Result JudgeError String
  unfolding bounded_text all_allowed contains
  safe_capability value = do
    given ← bounded_text value 160
    let name = rd.lower given
    require (all_allowed name && contains name ".") malformed
    ok name

  unfoldable pub parse_semantics : Fields → Result JudgeError (ToolSemantics F)
  unfolding safe_capability bounded_text bounded_float
  parse_semantics value = do
    canonical_capability ← safe_capability (get value "canonical_capability")
    read ← to_bool (get value "read")
    write ← to_bool (get value "write")
    destructive ← to_bool (get value "destructive")
    egress ← to_bool (get value "egress")
    credential_access ← to_bool (get value "credential_access")
    arbitrary_execution ← to_bool (get value "arbitrary_execution")
    open_world ← to_bool (get value "open_world")
    rationale ← bounded_text (get value "rationale") 800
    confidence ← bounded_float (get value "confidence")
    ok (record {
      canonical_capability = canonical_capability;
      read = read;
      write = write;
      destructive = destructive;
      egress = egress;
      credential_access = credential_access;
      arbitrary_execution = arbitrary_execution;
      open_world = open_world;
      rationale = rationale;
      confidence = confidence;
    })

  abbrev pub loaded : Json → Result JudgeError Json
  loaded (str s) = elim (rd.loads s) [ none ↦ raise malformed | some v ↦ ok v ]
  loaded v = raise malformed

  -- `result.get`
  abbrev pub as_dict : Json → Result JudgeError Fields
  as_dict (obj fs) = ok fs
  as_dict v = raise no_get

  -- `result`, from the text of the response.
  unfoldable pub result_of : String → Result JudgeError Fields
  result_of raw = do
    body ← loaded (str raw)
    choices ← at_key "choices" body
    choice ← at_first choices
    message ← at_key "message" choice
    content ← at_key "content" message
    result ← loaded content
    as_dict result

  unfoldable pub read_result : Fields → Result JudgeError (ToolSemantics F × F)
  unfolding parse_semantics bounded_float
  read_result result = do
    semantics ← parse_semantics result
    fit ← bounded_float (get result "intent_fit")
    ok (semantics, fit)

  -- `ask` gives the text of the model's response, or the error that `classify` makes of a failed
  -- request.
  unfoldable pub classify :
      (String → ToolDescriptor → Result String String)
      → String
      → ToolDescriptor
      → Result JudgeError (ToolSemantics F × F)
  unfolding result_of read_result
  classify ask intent tool = elim (ask intent tool) [
    | raise e ↦ raise (unavailable e)
    | ok raw ↦ result_of raw >>= (λ result. read_result result)
  ]
