-- ===== src/Gate/Scan.antt =====
-- The plugin's `bounded`, which makes of a value what may be logged, and `flatten_text`, the text in
-- which the patterns are searched. Both stop at a depth, a number of entries and a length of text.
pub mod Blind
use Prim.Native.String.{count}
use hermes_sdlc_agents.Prelude.{
  ℕ, zero, suc, ◌+◌, String, Bool, true, List, [], ◌∷◌, ◌++◌, leb, take_chars, join, if◌then◌else◌,
}
use hermes_sdlc_agents.Prelude.Json.{
  Json, Items, Fields, null, bool, number, str, arr, obj, nil, cons, end, field,
}
use hermes_sdlc_agents.Gate.{Runtime, is_sensitive, stable_hash, type_name}

module _ (py : Runtime) where
  -- What stands for a value that lies too deep.
  abbrev pub omitted : Json → Json
  omitted v = obj (field "omitted" (bool true) (field "type" (str (type_name py v)) end))

  unfoldable pub bounded_text : String → Json
  bounded_text s =
      if leb (count s) 256
      then str s
      else obj (
          field "type" (str "text")
            (field "chars" (number (py.print (count s))) (field "sha256" (str (py.sha256 s)) end)))

  -- What stands for the value of a sensitive key.
  unfoldable pub hidden : Json → Json
  unfolding stable_hash
  hidden v = obj (field "omitted" (bool true) (field "sha256" (str (stable_hash py v)) end))

  unfoldable mutual
    unfolding bounded_text hidden

    pub bounded : ℕ → Json → Json
    bounded depth (obj fs) =
        if leb depth 4 then obj (bounded_fields (depth + 1) 50 fs) else omitted (obj fs)
    bounded depth (arr vs) =
        if leb depth 4 then arr (bounded_items (depth + 1) 25 vs) else omitted (arr vs)
    bounded depth (str s) = if leb depth 4 then bounded_text s else omitted (str s)
    bounded depth null = if leb depth 4 then null else omitted null
    bounded depth (bool b) = if leb depth 4 then bool b else omitted (bool b)
    bounded depth (number n) = if leb depth 4 then number n else omitted (number n)

    pub bounded_items : ℕ → ℕ → Items → Items
    bounded_items depth n nil = nil
    bounded_items depth zero (cons v vs) = nil
    bounded_items depth (suc n) (cons v vs) = cons (bounded depth v) (bounded_items depth n vs)

    pub bounded_fields : ℕ → ℕ → Fields → Fields
    bounded_fields depth n end = end
    bounded_fields depth zero (field k v fs) = end
    bounded_fields depth (suc n) (field k v fs) =
        field k (if is_sensitive py k then hidden v else bounded depth v)
          (bounded_fields depth n fs)

  unfoldable mutual
    unfolding take_chars

    pub visit : ℕ → Json → List String
    visit depth (str s) = if leb depth 4 then take_chars 1000 s ∷ [] else []
    visit depth (obj fs) = if leb depth 4 then visit_fields (depth + 1) 50 fs else []
    visit depth (arr vs) = if leb depth 4 then visit_items (depth + 1) 50 vs else []
    visit depth null = []
    visit depth (bool b) = []
    visit depth (number n) = []

    pub visit_items : ℕ → ℕ → Items → List String
    visit_items depth n nil = []
    visit_items depth zero (cons v vs) = []
    visit_items depth (suc n) (cons v vs) = visit depth v ++ visit_items depth n vs

    pub visit_fields : ℕ → ℕ → Fields → List String
    visit_fields depth n end = []
    visit_fields depth zero (field k v fs) = []
    visit_fields depth (suc n) (field k v fs) =
        let rest = visit_fields depth n fs in
        if is_sensitive py k then rest else visit depth v ++ rest

  unfoldable pub flatten_text : Json → String
  unfolding visit join
  flatten_text value = join " " (visit 0 value)
