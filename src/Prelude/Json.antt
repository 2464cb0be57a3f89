-- ===== src/Prelude/Json.antt =====
-- The values that `json.loads` gives. A number is kept as its literal: the program computes with
-- none of those that it takes from JSON.
use Prim.Native.String.{String}
use mathlib.Core.Option.{Option, none, some}
use mathlib.Core.Bool.{Bool}
use mathlib.Core.List.{List, [], ◌∷◌}
use text.Mathlib.Text.{◌==◌}
use hermes_sdlc_agents.Prelude.Tests.{if◌then◌else◌}

mutual
  pub data Json : Type 0 where
    null : Json
    bool : Bool → Json
    number : String → Json
    str : String → Json
    arr : Items → Json
    obj : Fields → Json

  pub data Items : Type 0 where
    nil : Items
    cons : Json → Items → Items

  pub data Fields : Type 0 where
    end : Fields
    field : String → Json → Fields → Fields

-- `value.get(key)`: keys are unique in a dict, so the first one is the one.
unfoldable pub get : Fields → String → Option Json
get end k = none
get (field j v fs) k = if j == k then some v else get fs k

unfoldable pub items : Items → List Json
items nil = []
items (cons v vs) = v ∷ items vs
