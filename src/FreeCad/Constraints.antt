-- ===== src/FreeCad/Constraints.antt =====
-- `_add_constraints` of freecad.py.
use cadrig.Base.{ℤ, String, none, some, [], ◌∷◌, ◌==◌, Option, type_error, if◌then◌else◌}
use cadrig.Base.Dict
use cadrig.Base.Dict.{Dict}
use cadrig.Json.{Json, str, arr, obj, FloatOps, entries}
use cadrig.Contracts.{Action, get_or}
use cadrig.Steps
use cadrig.Steps.{Step, done, failure, raised, ◌>>=◌}
use cadrig.FreeCad.Parameters.{above_zero, or_invalid, geometry_index, point_position}
use cadrig.FreeCad.Host.{Constraint, on_one, with_value, on_two, on_points}

-- The native kinds of the constraints on one geometry, of those with a value, and on two geometries
abbrev plain_kinds : Dict String
plain_kinds = ("horizontal", "Horizontal") ∷ ("vertical", "Vertical") ∷ ("block", "Block") ∷ []

abbrev valued_kinds : Dict String
valued_kinds = ("radius", "Radius") ∷ ("diameter", "Diameter") ∷ ("distance", "Distance") ∷ []

abbrev paired_kinds : Dict String
paired_kinds =
    ("parallel", "Parallel") ∷ ("perpendicular", "Perpendicular") ∷ ("equal", "Equal") ∷ []

-- A kind that is in none of the three sets
unfoldable pub coincident_constraint : Action → Dict ℤ → Dict Json → ℤ → String → Step Constraint
coincident_constraint a mapping item first kind =
    if kind == "coincident"
    then (do
      second ← geometry_index mapping (Dict.get item "other_geometry_id") a
      first_point ← point_position (get_or item "point" (str "end")) a
      second_point ← point_position (get_or item "other_point" (str "start")) a
      done (on_points "Coincident" first first_point second second_point))
    else Steps.fail "INVALID_PARAMETER" a

module _ (ops : FloatOps) where
  unfoldable pub constraint_of_kind : Action → Dict ℤ → Dict Json → ℤ → String → Step Constraint
  unfolding coincident_constraint
  constraint_of_kind a mapping item first kind = elim (Dict.get plain_kinds kind) [
    | some native ↦ done (on_one native first)
    | none ↦ elim (Dict.get valued_kinds kind) [
      | some native ↦ (do
        x ← or_invalid ops a (above_zero ops (Dict.get item "value"))
        done (with_value native first x))
      | none ↦ elim (Dict.get paired_kinds kind) [
        | some native ↦ (do
          second ← geometry_index mapping (Dict.get item "other_geometry_id") a
          done (on_two native first second))
        | none ↦ coincident_constraint a mapping item first kind
      ]
    ]
  ]

  -- `kind in {...}`: an array or an object cannot be hashed.
  abbrev constraint_of_value : Action → Dict ℤ → Dict Json → ℤ → Option Json → Step Constraint
  constraint_of_value a mapping item first (some (str kind)) =
      constraint_of_kind a mapping item first kind
  constraint_of_value a mapping item first (some (arr xs)) = raised type_error
  constraint_of_value a mapping item first (some (obj fs)) = raised type_error
  constraint_of_value a mapping item first _ = Steps.fail "INVALID_PARAMETER" a

  -- The native constraint of an item
  unfoldable pub constraint_of : Action → Dict ℤ → Json → Step Constraint
  unfolding constraint_of_kind
  constraint_of a mapping (obj fs) =
      let item = entries fs in
      geometry_index mapping (Dict.get item "geometry_id") a >>= λ first.
      constraint_of_value a mapping item first (Dict.get item "type")
  constraint_of a mapping _ = Steps.fail "INVALID_PARAMETER" a
