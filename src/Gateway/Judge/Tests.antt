-- ===== src/Gateway/Judge/Tests.antt =====
-- The theorem about the judge at a concrete input. A float is a number here.
use hermes_sdlc_agents.Prelude.{
  strip, refl, ℕ, String, true, false, none, some, ◌==◌, ◌≡◌, ltb, if◌then◌else◌, Result, ok,
}
use hermes_sdlc_agents.Prelude.Json.{
  Json, Fields, bool, number, str, arr, obj, nil, cons, end, field, get,
}
use hermes_sdlc_agents.Gateway.Models.{ToolDescriptor, ToolSemantics}
use hermes_sdlc_agents.Gateway.Judge.{Reader, classify, result_of}
use hermes_sdlc_agents.Gateway.Judge.Bounds.{classify-IsRead, IsRead, IsBounded}

abbrev flags : Fields
flags = field "read" (bool true) (
    field "write" (bool false) (
      field "destructive" (bool false) (
        field "egress" (bool false) (
          field "credential_access" (bool false) (
            field "arbitrary_execution" (bool false) (
              field "open_world" (bool false) (
                field "rationale" (str "r")
                  (field "confidence" (number "1") (field "intent_fit" (number "1") end)))))))))

abbrev result : Fields
result = field "canonical_capability" (str "repository.file.read") flags

abbrev response : Json
response = obj (
    field "choices"
      (arr (cons (obj (field "message" (obj (field "content" (str "result") end)) end)) nil)) end)

abbrev loaded : String → Json
loaded s = if s == "result" then obj result else response

abbrev pub reader : Reader ℕ
reader = record {
  to_float = λ n. some 1;
  lt = ltb;
  zero = 0;
  one = 1;
  lower = λ s. s;
  loads = λ s. some (loaded s);
}

abbrev pub reading : ToolDescriptor
reading = record {
  server_id = "files";
  tool_name = "read";
  description = "";
  input_schema = end;
  annotations = end;
  source = "request";
  version = none;
}

abbrev pub read_only : ToolSemantics ℕ
read_only = record {
  canonical_capability = "repository.file.read";
  read = true;
  write = false;
  destructive = false;
  egress = false;
  credential_access = false;
  arbitrary_execution = false;
  open_world = false;
  rationale = "r";
  confidence = 1;
}

abbrev pub ask : String → ToolDescriptor → Result String String
ask intent tool = ok "raw"

classify-IsRead_example :
    (raw : String) × (read : Fields) × (ask "i" reading ≡ ok raw)
    × (result_of reader raw ≡ ok read)
    × IsRead reader read read_only
    × IsBounded reader 1
unfolding classify get strip
classify-IsRead_example = classify-IsRead reader ask "i" reading {s = read_only} {fit = 1} refl
