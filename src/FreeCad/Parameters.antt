-- ===== src/FreeCad/Parameters.antt =====
-- The static methods of freecad.py that read the parameters of an action, and their tests.
use cadrig.Base.{
  ℕ, ◌+◌, String, Bool, false, not, ◌&&◌, Option, none, some, List, [], ◌∷◌, pos, negsuc,
  type_error, overflow_error, contains, ltb, if◌then◌else◌,
}
use cadrig.Base.Text.{is_blank}
use cadrig.Base.Dict
use cadrig.Base.Dict.{Dict}
use cadrig.Json.{
  Json, int, float, str, arr, obj, Float, nan, place, FloatOps, not_positive, not_positive_float,
  items,
}
use cadrig.Contracts.{Action}
use cadrig.Steps.{Step, done, failure, raised, ◌>>=◌, fail}

-- The place of infinity: the doubles are counted by their bit patterns.
abbrev infinity : ℕ
infinity = 9218868437227405312

-- `math.isfinite(x)` of a float
unfoldable pub is_finite : Float → Bool
is_finite nan = false
is_finite (place (pos n)) = ltb n infinity
is_finite (place (negsuc n)) = ltb (n + 1) infinity

-- `_required_string(action, name)`
unfoldable pub required_string : Action → String → Step String
required_string a name = elim (Dict.get a.parameters name) [
  | some (str s) ↦ if is_blank s then fail "INVALID_PARAMETER" a else done s
  | _ ↦ fail "INVALID_PARAMETER" a
]

-- `value in {...}` of texts: an array or an object cannot be hashed.
unfoldable pub is_member : List String → Option Json → Step Bool
is_member texts (some (str s)) = done (contains s texts)
is_member texts (some (arr xs)) = raised type_error
is_member texts (some (obj fs)) = raised type_error
is_member texts _ = done false

module _ (ops : FloatOps) where
  -- `float(value)` of a value that is no boolean, an integer or a float, and finite; `math.isfinite`
  -- raises `OverflowError` for an integer that is no float. `none` is the other values.
  unfoldable pub finite_number : Option Json → Step (Option Float)
  finite_number (some (int n)) = elim (ops.of_int n) [
    | none ↦ raised overflow_error
    | some x ↦ done (some x)
  ]
  finite_number (some (float x)) = done (if is_finite x then some x else none)
  finite_number _ = done none

  -- The same with `value <= 0` excluded.
  unfoldable pub positive_number : Option Json → Step (Option Float)
  positive_number (some (int n)) = elim (ops.of_int n) [
    | none ↦ raised overflow_error
    | some x ↦ done (if not_positive n then none else some x)
  ]
  positive_number (some (float x)) =
      done (if is_finite x && not (not_positive_float x) then some x else none)
  positive_number _ = done none

  -- The same without the test of `math.isfinite`, as for a radius or the value of a constraint.
  unfoldable pub above_zero : Option Json → Step (Option Float)
  above_zero (some (int n)) =
      if not_positive n
      then done none
      else elim (ops.of_int n) [ none ↦ raised overflow_error | some x ↦ done (some x) ]
  above_zero (some (float x)) = done (if not_positive_float x then none else some x)
  above_zero _ = done none

  -- `raise _ActionFailure("INVALID_PARAMETER", ...)` where a test fails
  abbrev pub or_invalid {ℓ} : {A : Type ℓ} → Action → Step (Option A) → Step A
  or_invalid a (done none) = fail "INVALID_PARAMETER" a
  or_invalid a (done (some x)) = done x
  or_invalid a (failure d) = failure d
  or_invalid a (raised e) = raised e

  -- `_positive_parameters(action, names)`; the names are distinct
  unfoldable pub positive_parameters : Action → List String → Step (Dict Float)
  positive_parameters a [] = done []
  positive_parameters a (name ∷ names) =
      let rest = positive_parameters a names in
      do
        x ← or_invalid a (positive_number (Dict.get a.parameters name))
        r ← rest
        done ((name, x) ∷ r)

  -- `any(...)` of the two numbers of a point, and the point
  abbrev both_numbers : Action → Option Float → Json → Step (Float × Float)
  both_numbers a none y = fail "INVALID_PARAMETER" a
  both_numbers a (some x) y = or_invalid a (finite_number (some y)) >>= λ v. done (x, v)

  abbrev two_numbers : Action → List Json → Step (Float × Float)
  two_numbers a (x ∷ y ∷ []) = finite_number (some x) >>= λ u. both_numbers a u y
  two_numbers a _ = fail "INVALID_PARAMETER" a

  -- `_point(value, name, action_id)`
  unfoldable pub point : Action → Option Json → Step (Float × Float)
  point a (some (arr xs)) = two_numbers a (items xs)
  point a _ = fail "INVALID_PARAMETER" a

-- `_geometry_index(mapping, geometry_id, action_id)`
unfoldable pub geometry_index {ℓ} : {A : Type ℓ} → Dict A → Option Json → Action → Step A
geometry_index mapping (some (str s)) a = elim (Dict.get mapping s) [
  | none ↦ fail "GEOMETRY_NOT_FOUND" a
  | some i ↦ done i
]
geometry_index mapping _ a = fail "GEOMETRY_NOT_FOUND" a

abbrev positions : Dict ℕ
positions = ("start", 1) ∷ ("end", 2) ∷ ("center", 3) ∷ []

-- `_point_position(value, action_id)`
unfoldable pub point_position : Json → Action → Step ℕ
point_position (str s) a = elim (Dict.get positions s) [
  | none ↦ fail "INVALID_PARAMETER" a
  | some n ↦ done n
]
point_position _ a = fail "INVALID_PARAMETER" a
