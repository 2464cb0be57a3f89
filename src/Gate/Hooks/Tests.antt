-- ===== src/Gate/Hooks/Tests.antt =====
-- The theorems about the plugin at concrete inputs.
use hermes_sdlc_agents.Prelude.Table.{elem}
use hermes_sdlc_agents.Prelude.{
  concat, strip, ℕ, String, true, false, none, some, List, [], ◌∷◌, ◌≡◌, refl, ◌==◌, Memᴰ, arith,
  ◌↔◌, ◌⊎◌, if◌then◌else◌, any_of,
}
use hermes_sdlc_agents.Prelude.Json.{Json, Fields, str, arr, obj, nil, cons, end, field, get}
use hermes_sdlc_agents.Gate.Classify.{
  critical_words, irreversible_words, searched, protected_re, is_read, has_word, classify_action,
}
use hermes_sdlc_agents.Gate.Scan.Blind.{
  no_fields, secret, shown, bounded-Agree, objects, Agree, same,
}
use hermes_sdlc_agents.Gate.{critical, low, Runtime, mode, block_level, stable_hash}
use hermes_sdlc_agents.Gate.Scan.{flatten_text, bounded}
use hermes_sdlc_agents.Gate.Calls.{Call, extract_tool_calls}
use hermes_sdlc_agents.Gate.Hooks.{on_pre_tool_call, on_post_api_request, verdict}
use hermes_sdlc_agents.Gate.Hooks.Blocked.{classify_action_iff}
use hermes_sdlc_agents.Gate.Hooks.Known.{Proposed, replay, IsProposed, on_pre_tool_call-IsProposed}
use hermes_sdlc_agents.Gate.Hooks.Matched.{on_post_api_request_matched}

abbrev settings : String → String
settings name = if name == "HERMETEAM_GATE_MODE" then "enforce" else "high"

abbrev printed : Json → String
printed (obj end) = "{}"
printed (obj (field k (str v) end)) = concat ("{\"" ∷ k ∷ "\": \"" ∷ v ∷ "\"}" ∷ [])
printed _ = "null"

abbrev py : Runtime
py = record {
  lower = λ s. s;
  sha256 = λ s. s;
  dumps = printed;
  loads = λ s. none;
  text_of = λ v. "";
  number_type = λ n. "int";
  truthy_number = λ n. true;
  print = λ n. "";
  representation = λ s. s;
  search = λ p s. false;
  environ = λ name. some (settings name);
}

abbrev now : ℕ → String
now i = ""

-- A response with one call.
abbrev response : Fields
response =
    field "tool_calls"
      (arr (
        cons
          (obj (
            field "id" (str "1")
              (field "name" (str "read_file") (field "arguments" (obj end) end))))
          nil))
      end

abbrev posted : Fields
posted = field "session_id" (str "s") (field "response" (obj response) end)

abbrev read_call : Call
read_call = record { tool_call_id = "1"; tool_name = "read_file"; args = obj end }

abbrev kwargs : Fields
kwargs = field "session_id" (str "s") (
    field "tool_call_id" (str "1")
      (field "tool_name" (str "read_file") (field "args" (obj end) end)))

abbrev merging : Fields
merging = field "tool_name" (str "merge_pull_request") end

abbrev history : List Proposed
history = record { kwargs = posted; call = read_call } ∷ []

on_pre_tool_call-IsProposed_example : IsProposed py now history kwargs
unfolding mode block_level on_pre_tool_call get replay any_of
on_pre_tool_call-IsProposed_example =
    on_pre_tool_call-IsProposed py now history kwargs refl (omega arith) refl

on_post_api_request_matched_example :
    (verdict py now kwargs (on_post_api_request py now posted []).proposals).mismatch ≡ false
unfolding extract_tool_calls
on_post_api_request_matched_example =
    on_post_api_request_matched py now read_call posted kwargs [] (read_call ∷ []) refl
      (omega arith) (Memᴰ.head refl) ((λ e. refl), tt) refl refl refl refl

classify_action_iff_example :
    (((classify_action py "read_file" (obj end)).risk ≡ low) ↔ (
      (is_read "read_file" ≡ true)
      × (py.search protected_re (searched py "read_file" (obj end)) ≡ false)
      × (has_word irreversible_words "read_file" ≡ false)))
    × (((classify_action py "read_file" (obj end)).risk ≡ critical) ↔ (
        (has_word irreversible_words "read_file" ≡ true)
        ⊎ ((is_read "read_file" ≡ false) × (has_word critical_words "read_file" ≡ true))))
unfolding strip
classify_action_iff_example = classify_action_iff py "read_file" (obj end) refl

-- A dict with a password, or with another one.
abbrev login : String → Json
login password = obj (field "user" (str "u") (field "password" (str password) end))

login-Agree : Agree py (login "a") (login "b")
unfolding elem stable_hash
login-Agree = objects (
    shown "user" refl (same (str "u"))
      (secret "password" {v = str "a"} {w = str "b"} refl refl no_fields))

bounded-Agree_example :
    (bounded py 0 (login "a") ≡ bounded py 0 (login "b"))
    × (flatten_text py (login "a") ≡ flatten_text py (login "b"))
bounded-Agree_example = bounded-Agree py login-Agree
