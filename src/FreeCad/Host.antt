-- ===== src/FreeCad/Host.antt =====
-- What the adapter uses of FreeCAD's Python API, which is no part of this repository: the functions of
-- the modules FreeCAD, Part and Sketcher on a state `W` of the running program, with its documents and
-- objects. A read does not change the state; a call may, also when it raises.
use cadrig.Base.{ℕ, ℤ, String, Bool, Option, List, Result, Error}
use cadrig.Base.Dict.{Dict}
use cadrig.Json.{Json, Float}
use cadrig.Contracts.{FeatureSnapshot}

-- `FreeCAD.Vector(x, y, z)`
pub record Vector : Type 0 where
  pub x : Float
  pub y : Float
  pub z : Float

-- `FreeCAD.Rotation()` and `FreeCAD.Rotation(axis, degrees)`
pub data Rotation : Type 0 where
  identity : Rotation
  turn : Vector → ℕ → Rotation

-- `Part.LineSegment(start, end)` and `Part.Circle(center, normal, radius)`
pub data Geometry : Type 0 where
  line_segment : Vector → Vector → Geometry
  circle : Vector → Vector → Float → Geometry

-- `Sketcher.Constraint(kind, ...)`
pub data Constraint : Type 0 where
  on_one : String → ℤ → Constraint
  with_value : String → ℤ → Float → Constraint
  on_two : String → ℤ → ℤ → Constraint
  on_points : String → ℤ → ℕ → ℤ → ℕ → Constraint

-- A shape: the answers of `isNull` and `isValid` where it has these methods, whether it has `Solids`,
-- and `Volume` and `Area` where they are numbers.
pub record Shape : Type 0 where
  pub is_null : Option Bool
  pub is_valid : Option Bool
  pub has_solids : Bool
  pub volume : Option Float
  pub area : Option Float

-- The values of attributes
pub data Value (Obj : Type 0) : Type 0 where
  text : String → Value Obj
  number : Float → Value Obj
  flag : Bool → Value Obj
  vector : Vector → Value Obj
  placed : Vector → Rotation → Value Obj
  handle : Obj → Value Obj
  many : ℕ → Value Obj
  other : Value Obj

pub record Host (W Doc Obj : Type 0) : Type 0 where
  pub get_document : W → String → Result (Option Doc)
  pub new_document : W → String → Result Doc × W
  pub close_document : W → String → Result (Unit {0}) × W
  -- `document.Name`, `getattr(document, "UndoMode", 1)` and `document.Objects`
  pub document_name : W → Doc → String
  pub undo_mode : W → Doc → Result ℕ
  pub objects : W → Doc → List Obj
  -- by the plan's id, which the name `CADRIG: ...` of the transaction holds
  pub open_transaction : W → Doc → String → Result (Unit {0}) × W
  pub commit_transaction : W → Doc → Result (Unit {0}) × W
  pub abort_transaction : W → Doc → Result (Unit {0}) × W
  -- `document.recompute()` and `document.undo()`: false where these return `False`
  pub recompute : W → Doc → Result Bool × W
  pub undo : W → Doc → Result Bool × W
  pub add_object : W → Doc → String → String → Result Obj × W
  pub remove_object : W → Doc → String → Result (Unit {0}) × W
  -- `obj.Name`, `getattr(obj, name)`, `obj.PropertiesList`, the lower-case `obj.State`, `obj.Shape`
  pub object_name : W → Obj → String
  pub attribute : W → Obj → String → Option (Value Obj)
  pub properties : W → Obj → List String
  pub states : W → Obj → List String
  pub shape : W → Obj → Option Shape
  pub set_attribute : W → Obj → String → Value Obj → Result (Unit {0}) × W
  pub add_property : W → Obj → String → String → Result (Unit {0}) × W
  pub add_geometry : W → Obj → Geometry → Result ℤ × W
  pub add_constraint : W → Obj → Constraint → Result (Unit {0}) × W
  -- `str(value)`, `int(value)` and `float(getattr(value, "Value", value))`
  pub show : Value Obj → String
  pub whole : Value Obj → Result ℤ
  pub real : Value Obj → Result Float
  -- `direction.Length`, or the root of the sum of squares
  pub vector_length : Vector → Float
  -- `"error" in state or "invalid" in state`
  pub is_broken : String → Bool
  -- whether `str(exc)` is not empty, as it is for what the program itself raises
  pub has_message : Error → Bool
  -- `json.loads`, `json.dumps`, `int(value)` of a JSON value, `sorted`
  pub loads : String → Option Json
  pub dumps : Dict ℤ → String
  pub int_of : Json → Result ℤ
  pub sorted : List String → List String
  -- `content_hash` of the features
  pub hash_features : List FeatureSnapshot → String
