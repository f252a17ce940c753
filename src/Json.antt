-- ===== src/Json.antt =====
-- JSON values: the arguments and the results of tools, the bodies of responses. Numbers are the
-- integers that are not negative, which are all that the code computes with.
use credbroker.Common.{ℕ, Text, Bool, Option, none, some, text_eq, if◌then◌else◌}

mutual
  pub data Json : Type 0 where
    null : Json
    bool : Bool → Json
    num : ℕ → Json
    str : Text → Json
    arr : Items → Json
    obj : Fields → Json

  pub data Items : Type 0 where
    nil : Items
    cons : Json → Items → Items

  pub data Fields : Type 0 where
    end : Fields
    field : Text → Json → Fields → Fields

-- `d.get(key)` of a `dict`
unfoldable pub lookup : Text → Fields → Option Json
lookup k end = none
lookup k (field j v fs) = if text_eq j k then some v else lookup k fs
