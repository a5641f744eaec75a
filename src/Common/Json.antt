-- ===== src/Common/Json.antt =====
-- JSON values as JavaScript holds them after parsing. A number stands as the text that it prints as.
-- An object is the list of its own enumerable properties, in the order of `Object.keys`.
use mathlib.Core.Bool.{Bool}
use a2a_agent_layer.Common.Strings.{Text}

mutual
  pub data Json : Type 0 where
    null : Json
    bool : Bool → Json
    num : Text → Json
    str : Text → Json
    arr : Items → Json
    obj : Fields → Json

  pub data Items : Type 0 where
    nil : Items
    cons : Json → Items → Items

  pub data Fields : Type 0 where
    end : Fields
    field : Text → Json → Fields → Fields
