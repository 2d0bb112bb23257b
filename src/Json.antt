-- ===== src/Json.antt =====
-- Python's JSON values as the sources handle them: `dict[str, Any]`, `list[Any]` and scalars. A
-- dictionary is a chain of fields in insertion order; `deepcopy` is the identity on these values.
pub mod Dict
use wheelguard.Base.{ℤ, Bool, true, false, String, List, [], ◌∷◌}

mutual
  pub data Json : Type 0 where
    null : Json
    bool : Bool → Json
    int : ℤ → Json
    float : String → Json
    str : String → Json
    arr : Items → Json
    obj : Fields → Json

  pub data Items : Type 0 where
    nil : Items
    cons : Json → Items → Items

  pub data Fields : Type 0 where
    end : Fields
    field : String → Json → Fields → Fields

-- The elements of a Python list, and a list of given elements.
abbrev pub elements : Items → List Json
elements nil = []
elements (cons x xs) = x ∷ elements xs

abbrev pub items : List Json → Items
items [] = nil
items (x ∷ xs) = cons x (items xs)

-- `isinstance(v, dict)`, `isinstance(v, str)`
abbrev pub is_dict : Json → Bool
is_dict (obj fs) = true
is_dict _ = false

abbrev pub is_str : Json → Bool
is_str (str s) = true
is_str _ = false
