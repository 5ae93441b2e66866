-- ===== src/FreeCad/Preflight.antt =====
-- `_preflight` of freecad.py: the checks of one action before anything is changed, against the feature
-- ids that are known by then. A set is a list of its members.
use cadrig.Base.{
  String, Bool, true, false, not, ◌||◌, Option, none, some, List, [], ◌∷◌, ◌==◌, contains,
  if◌then◌else◌,
}
use cadrig.Base.Text.{is_blank}
use cadrig.Base.Dict
use cadrig.Base.Dict.{Dict}
use cadrig.Json.{Json, str, arr, obj, FloatOps, items, entries}
use cadrig.Contracts.{
  Action, ActionKind, create_document, create_sketch, add_sketch_geometry, add_constraint, add_box,
  add_cylinder, extrude, boolean_cut, set_parameter, delete_feature, supports, null_list, get_or,
  same_kind,
}
use cadrig.Steps.{Step, done, ◌>>=◌, fail}
use cadrig.FreeCad.Names.{feature_actions}
use cadrig.FreeCad.Parameters.{
  required_string, is_member, finite_number, or_invalid, positive_parameters,
}

-- The kinds that change a feature that is there.
abbrev pub target_actions : List ActionKind
target_actions =
    add_sketch_geometry ∷ add_constraint ∷ set_parameter ∷ delete_feature ∷ extrude ∷ boolean_cut
    ∷ []

-- `not action.target_id or action.target_id not in known_ids`
abbrev pub unknown_target : Option String → List String → Bool
unknown_target none known = true
unknown_target (some t) known = t == "" || not (contains t known)

-- The check of `feature_id` for the kinds that create a feature
unfoldable pub check_feature : Action → List String → Step (Unit {0})
check_feature a known =
    if supports feature_actions a.kind
    then (do
      i ← required_string a "feature_id"
      if contains i known then fail "DUPLICATE_FEATURE" a else done tt)
    else done tt

unfoldable pub check_target : Action → List String → Step (Unit {0})
check_target a known = elim (supports target_actions a.kind) [
  | true ↦ if unknown_target a.target_id known then fail "FEATURE_NOT_FOUND" a else done tt
  | false ↦ done tt
]

-- `item.get("geometry_id")` of an item, checked against the ids before it, and its type
unfoldable pub check_item : Action → Dict Json → List String → Step String
check_item a item seen = elim (Dict.get item "geometry_id") [
  | some (str s) ↦
      if is_blank s || contains s seen
      then fail "INVALID_PARAMETER" a
      else is_member ("line" ∷ "circle" ∷ []) (Dict.get item "type") >>= λ known_type.
          if known_type then done s else fail "INVALID_PARAMETER" a
  | _ ↦ fail "INVALID_PARAMETER" a
]

-- `for item in geometry`
unfoldable pub check_items : Action → List Json → List String → Step (Unit {0})
check_items a [] seen = done tt
check_items a (obj fs ∷ rest) seen =
    check_item a (entries fs) seen >>= λ s. check_items a rest (s ∷ seen)
check_items a (_ ∷ rest) seen = fail "INVALID_PARAMETER" a

unfoldable pub check_geometry : Action → Option Json → Step (Unit {0})
check_geometry a (some (arr xs)) =
    if null_list (items xs) then fail "INVALID_PARAMETER" a else check_items a (items xs) []
check_geometry a _ = fail "INVALID_PARAMETER" a

unfoldable pub check_constraints : Action → Option Json → Step (Unit {0})
check_constraints a (some (arr xs)) =
    if null_list (items xs) then fail "INVALID_PARAMETER" a else done tt
check_constraints a _ = fail "INVALID_PARAMETER" a

-- `plane not in {"XY", "XZ", "YZ"}`
unfoldable pub check_plane : Action → Step (Unit {0})
check_plane a =
    is_member ("XY" ∷ "XZ" ∷ "YZ" ∷ []) (some (get_or a.parameters "plane" (str "XY"))) >>= λ known.
    if known then done tt else fail "INVALID_PARAMETER" a

-- `tool_id == action.target_id`
abbrev pub same_target : String → Option String → Bool
same_target tool none = false
same_target tool (some t) = tool == t

unfoldable pub check_tool : Action → List String → Step (Unit {0})
check_tool a known = required_string a "tool_id" >>= λ tool.
    if not (contains tool known)
    then fail "FEATURE_NOT_FOUND" a
    else if same_target tool a.target_id
    then fail "INVALID_PARAMETER" a
    else done tt

module _ (ops : FloatOps) where
  abbrev check_positive : Action → List String → Step (Unit {0})
  check_positive a names = positive_parameters ops a names >>= λ r. done tt

  unfoldable pub check_value : Action → Step (Unit {0})
  check_value a = required_string a "name" >>= λ name.
      or_invalid ops a (finite_number ops (Dict.get a.parameters "value")) >>= λ x. done tt

  -- The branches on the kind
  unfoldable pub check_kind : ActionKind → Action → List String → Step (Unit {0})
  check_kind add_box a known = check_positive a ("width" ∷ "depth" ∷ "height" ∷ [])
  check_kind add_cylinder a known = check_positive a ("radius" ∷ "height" ∷ [])
  check_kind create_sketch a known = check_plane a
  check_kind add_sketch_geometry a known = check_geometry a (Dict.get a.parameters "geometry")
  check_kind add_constraint a known = check_constraints a (Dict.get a.parameters "constraints")
  check_kind extrude a known = check_positive a ("length" ∷ [])
  check_kind boolean_cut a known = check_tool a known
  check_kind set_parameter a known = check_value a
  check_kind _ a known = done tt

  -- `_preflight(action, known_ids)`
  unfoldable pub preflight : Action → List String → Step (Unit {0})
  unfolding check_kind
  preflight a known =
      if same_kind a.kind create_document
      then done tt
      else do u ← check_feature a known; v ← check_target a known; check_kind a.kind a known
