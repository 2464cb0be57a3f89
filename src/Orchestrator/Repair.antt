-- ===== src/Orchestrator/Repair.antt =====
-- final_response_repair.py: what a final response that the parser refuses is turned into. `loads` is
-- `json.loads` (`none` where it raises `JSONDecodeError`), `dumps` is `json.dumps(...,
-- ensure_ascii=False, sort_keys=True)`, and `equal` is the `==` of two values that `json.loads` gave.
-- A `ValueError` is its message.
pub mod Prompt
pub mod Kept
pub mod Spans
mod Tests
use Prim.Native.Char.{code}
use Prim.Native.String.{count}
use hermes_sdlc_agents.Prelude.{
  zero, suc, drop_chars, ◌-◌, not, ltb, ◌||◌, ◌+◌, Result, concat, ◌==◌, strip, ◌++◌, nat_eq,
  take_chars, Bool, String, Option, ℕ, List, ◌>>=◌, none, some, true, false, ok, raise, [], ◌∷◌,
  if◌then◌else◌,
}
use hermes_sdlc_agents.Prelude.Json.{
  Json, obj, str, arr, null, end, field, nil, cons, Items, Fields, get, items,
}
use hermes_sdlc_agents.Orchestrator.Response.{all_strings}

-- `d[k] = v`
unfoldable pub put : String → Json → Fields → Fields
put k v end = field k v end
put k v (field j w fs) = let rest = put k v fs in if j == k then field j v fs else field j w rest

-- The local variables of `_balanced_object_spans`.
pub record Scan : Type 0 where
  pub spans : List (ℕ × ℕ)
  pub depth : ℕ
  pub start : Option ℕ
  pub in_string : Bool
  pub escaped : Bool

abbrev pub scan_start : Scan
scan_start = record { spans = []; depth = 0; start = none; in_string = false; escaped = false }

-- A closing brace, by the depth after it and the start of the object.
unfoldable pub close_at : ℕ → ℕ → Option ℕ → Scan → Scan
close_at index zero (some first) s = record s {
  spans = s.spans ++ (first, index + 1) ∷ [];
  depth = 0;
  start = none;
}
close_at index depth _ s = record s { depth = depth }

unfoldable pub close : ℕ → ℕ → Scan → Scan
unfolding close_at
close index zero s = s
close index (suc depth) s = close_at index depth s.start s

abbrev pub string_char : ℕ → Scan → Scan
string_char char s =
    if s.escaped
    then (record s { escaped = false })
    else if nat_eq char b'\\'
    then (record s { escaped = true })
    else if nat_eq char b'"'
    then (record s { in_string = false })
    else s

abbrev pub open_at : ℕ → Scan → Scan
open_at index s = record s {
  start = if nat_eq s.depth 0 then some index else s.start;
  depth = s.depth + 1;
}

-- The body of the loop.
unfoldable pub scan_char : ℕ → ℕ → Scan → Scan
unfolding close
scan_char index char s =
    if s.in_string
    then string_char char s
    else if nat_eq char b'"'
    then (record s { in_string = true })
    else if nat_eq char b'{'
    then open_at index s
    else if nat_eq char b'}'
    then close index s.depth s
    else s

unfoldable pub scan : ℕ → String → Scan → Scan
unfolding scan_char
scan index String.[] s = s
scan index (String.◌∷◌ c text) s = scan (index + 1) text (scan_char index (code c) s)

unfoldable pub balanced_object_spans : String → Result String (List (ℕ × ℕ))
unfolding scan
balanced_object_spans text =
    let s = scan 0 text scan_start in
    if nat_eq s.depth 0 then ok s.spans else raise "unbalanced JSON object"

-- `text[start:end]`
unfoldable pub slice : ℕ × ℕ → String → String
slice (first, last) text = take_chars (last - first) (drop_chars first text)

abbrev pub only : List Fields → Result String Fields
only [] = raise "no balanced JSON object found"
only (f ∷ []) = ok f
only (f ∷ g ∷ fs) = raise "multiple top-level JSON objects found"

-- The fields that `_normalize_payload` wants to be lists.
abbrev pub text_fields : List String
text_fields = "decision_log" ∷ "risks" ∷ "assumptions" ∷ []

abbrev pub evidence_of_text : String → Json
evidence_of_text s =
    obj (field "source" (str s) (field "detail" (str "provided by agent as evidence text") end))

unfoldable pub evidence_items : List String → Items
evidence_items [] = nil
evidence_items (s ∷ ss) = cons (evidence_of_text s) (evidence_items ss)

abbrev pub converted : Option (List String) → Option (Json × String)
converted none = none
converted (some ss) = some (arr (evidence_items ss), "converted evidence strings to objects")

-- The new value of `evidence` with its diagnostic, if it is changed.
unfoldable pub new_evidence : Option Json → Option (Json × String)
unfolding all_strings items evidence_items
new_evidence none = some (arr nil, "normalized missing/null evidence to []")
new_evidence (some null) = some (arr nil, "normalized missing/null evidence to []")
new_evidence (some (arr vs)) = converted (all_strings (items vs))
new_evidence (some _) = none

abbrev pub missing : String → (Json × String)
missing name = (arr nil, concat ("normalized missing/null " ∷ name ∷ " to []" ∷ []))

unfoldable pub new_list : String → Option Json → Option (Json × String)
new_list name none = some (missing name)
new_list name (some null) = some (missing name)
new_list name (some _) = none

-- What `_normalize_payload` has so far: `normalized`, `repaired` and the diagnostics.
pub record Normal : Type 0 where
  pub fields : Fields
  pub repaired : Bool
  pub diagnostics : List String

abbrev pub changed : String → Option (Json × String) → Normal → Normal
changed name none n = n
changed name (some (v, message)) n = record {
  fields = put name v n.fields;
  repaired = true;
  diagnostics = n.diagnostics ++ message ∷ [];
}

unfoldable pub normalize_lists : List String → Normal → Normal
unfolding new_list put
normalize_lists [] n = n
normalize_lists (name ∷ names) n =
    normalize_lists names (changed name (new_list name (get n.fields name)) n)

unfoldable pub normalize : Fields → List String → Normal
unfolding normalize_lists new_evidence
normalize data_ diagnostics = normalize_lists text_fields (
    changed "evidence" (new_evidence (get data_ "evidence"))
      (record { fields = data_; repaired = false; diagnostics = diagnostics }))

pub record RepairResult : Type 0 where
  pub payload : Fields
  pub repaired : Bool
  pub method : String
  pub diagnostics : List String

-- What one key gives: an object, or what to note before the next key.
pub data Attempt : Type 0 where
  found : Fields → Attempt
  skipped : List String → Attempt

abbrev pub extracted : String → Result String Fields → Attempt
extracted key (ok f) = found f
extracted key (raise message) = skipped (concat (key ∷ ": " ∷ message ∷ []) ∷ [])

abbrev pub final_response_keys : List String
final_response_keys = "final_response" ∷ "output" ∷ "result" ∷ "response" ∷ "text" ∷ []

module _ (loads : String → Option Json) (equal : Option Json → Option Json → Bool) where
  -- The object of a span, or `none` where the loop goes on.
  abbrev pub object_at : Option Json → Result String (Option Fields)
  object_at none = ok none
  object_at (some (obj f)) = ok (some f)
  object_at (some _) = raise "top-level JSON must be an object"

  abbrev pub consed : Option Fields → List Fields → List Fields
  consed none fs = fs
  consed (some f) fs = f ∷ fs

  unfoldable pub objects_at : String → List (ℕ × ℕ) → Result String (List Fields)
  unfolding slice
  objects_at text [] = ok []
  objects_at text (span ∷ spans) = do
    o ← object_at (loads (slice span text))
    fs ← objects_at text spans
    ok (consed o fs)

  unfoldable pub extract_single_json_object : String → Result String Fields
  unfolding balanced_object_spans objects_at
  extract_single_json_object text = do
    spans ← balanced_object_spans text
    objects ← objects_at text spans
    only objects

  unfoldable pub normalize_payload : Fields → Fields → String → List String → RepairResult
  unfolding normalize put
  normalize_payload payload data_ key diagnostics =
      let n = normalize data_ diagnostics in
      record {
        payload = put key (obj n.fields) payload;
        repaired = n.repaired || not (equal (get payload key) (some (obj n.fields)));
        method = "deterministic";
        diagnostics = n.diagnostics;
      }

  unfoldable pub attempt : ℕ → String → Option Json → Attempt
  unfolding extract_single_json_object
  attempt max_chars key (some (obj f)) = found f
  attempt max_chars key (some (str s)) =
      if strip s == ""
      then skipped []
      else if ltb max_chars (count s)
      then skipped (concat (key ∷ " exceeds repair max chars" ∷ []) ∷ [])
      else extracted key (extract_single_json_object s)
  attempt max_chars key _ = skipped []

  abbrev pub or_nothing : List String → List String
  or_nothing [] = "no repairable final response field found" ∷ []
  or_nothing ds = ds

  -- The loop over the keys.
  unfoldable pub repair_from : ℕ → Fields → List String → List String → RepairResult
  unfolding attempt normalize_payload
  repair_from max_chars payload [] diagnostics = record {
    payload = payload;
    repaired = false;
    method = "deterministic";
    diagnostics = or_nothing diagnostics;
  }
  repair_from max_chars payload (key ∷ keys) diagnostics =
      elim (attempt max_chars key (get payload key)) [
        | found f ↦ normalize_payload payload f key diagnostics
        | skipped ds ↦ repair_from max_chars payload keys (diagnostics ++ ds)
      ]

  unfoldable pub deterministic_repair_payload : ℕ → Fields → RepairResult
  unfolding repair_from
  deterministic_repair_payload max_chars payload =
      repair_from max_chars payload final_response_keys []
