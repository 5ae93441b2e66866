-- ===== src/Json.antt =====
-- The values that `json.loads` returns, Python's floats among them, and the tests that the
-- program makes on them: `isinstance`, comparisons with 0, and `==`.
pub mod Entries
use cadrig.Base.{
  ℕ, zero, suc, String, Bool, true, false, ◌&&◌, ◌||◌, not, Option, none, some, List, [], ◌∷◌, ◌==◌,
  ℤ, pos, negsuc, le_int, eq_int,
}
use cadrig.Base.Dict
use cadrig.Base.Dict.{Dict}

-- A double: a NaN, or its place in the order of the doubles, counted from zero. Both zeros have
-- place 0, and the infinities are the two ends.
pub data Float : Type 0 where
  nan : Float
  place : ℤ → Float

-- What the interpreter does with floats. `of_int n` is `float(n)`, `none` where that raises
-- `OverflowError`; `distance a b` is `abs(a - b)`; `to_int` is the integer that a float is equal to.
pub record FloatOps : Type 0 where
  pub of_int : ℤ → Option Float
  pub distance : Float → Float → Float
  pub to_int : Float → Option ℤ

abbrev pub le_float : Float → Float → Bool
le_float nan b = false
le_float (place a) nan = false
le_float (place a) (place b) = le_int a b

abbrev pub eq_float : Float → Float → Bool
eq_float nan b = false
eq_float (place a) nan = false
eq_float (place a) (place b) = eq_int a b

mutual
  pub data Json : Type 0 where
    null : Json
    bool : Bool → Json
    int : ℤ → Json
    float : Float → Json
    str : String → Json
    arr : Items → Json
    obj : Fields → Json

  pub data Items : Type 0 where
    nil : Items
    cons : Json → Items → Items

  pub data Fields : Type 0 where
    end : Fields
    field : String → Json → Fields → Fields

abbrev pub items : Items → List Json
items nil = []
items (cons x xs) = x ∷ items xs

abbrev pub put_fields : Dict Json → Fields → Dict Json
put_fields d end = d
put_fields d (field k v fs) = put_fields (Dict.put d k v) fs

-- The dict of an object: of a key that is there twice the last value counts.
abbrev pub entries : Fields → Dict Json
entries fs = put_fields [] fs

abbrev pub fields_of : Dict Json → Fields
fields_of [] = end
fields_of ((k, v) ∷ d) = field k v (fields_of d)

abbrev pub items_of : List Json → Items
items_of [] = nil
items_of (x ∷ xs) = cons x (items_of xs)

-- `x <= 0` of an integer and of a float. A NaN is not below anything.
abbrev pub not_positive : ℤ → Bool
not_positive n = le_int n (pos 0)

abbrev pub not_positive_float : Float → Bool
not_positive_float x = le_float x (place (pos 0))
