-- ===== src/Trading/Json.antt =====
-- What json.loads gives; `real` is a float, whose value the code does not read.
use deepx_python_sdk.Prelude.{String, Bool, Text, ℤ, List, [], ◌∷◌}

mutual
  pub data Json : Type 0 where
    null real : Json
    bool : Bool → Json
    int : ℤ → Json
    str : Text → Json
    arr : Items → Json
    obj : Fields → Json

  pub data Items : Type 0 where
    nil : Items
    cons : Json → Items → Items

  pub data Fields : Type 0 where
    end : Fields
    field : String → Json → Fields → Fields

-- a list of ints
abbrev pub ints : List ℤ → Items
ints [] = nil
ints (n ∷ ns) = cons (int n) (ints ns)
