-- ===== src/FreeCad/Apply.antt =====
-- `_apply` of freecad.py with the methods that it calls, and `_recompute_and_inspect`.
use cadrig.Base.{
  eq_int, String, Bool, true, false, not, ◌&&◌, Option, none, some, List, [], ◌∷◌, ◌==◌, pos,
  type_error, key_error, overflow_error, contains, any, if◌then◌else◌,
}
use cadrig.Base.Dict
use cadrig.Base.Dict.{Dict}
use cadrig.Json.{
  Json, null, bool, int, float, str, arr, obj, nil, cons, end, field, Float, place, FloatOps,
  eq_float, not_positive_float,
}
use cadrig.Contracts.{
  Action, ActionKind, add_box, add_cylinder, extrude, boolean_cut, set_parameter, delete_feature,
  get_or,
}
use cadrig.Steps.{Step, done, failure, raised}
use cadrig.FreeCad.Parameters.{required_string, positive_parameters}
use cadrig.FreeCad.Host.{Host, Value, number, flag, vector, handle, text, Shape}
use cadrig.FreeCad.Objects.{shown, object_by_id, geometry_map}
use cadrig.FreeCad.Sketches.{
  set, add_tagged, required_object, create_sketch, add_sketch_geometry, target_of, list_at, along_z,
}
use cadrig.FreeCad.Constraints.{constraint_of}
use cadrig.FreeCad.Monad.{Cad, pure, step, fail, read, answer, call, each, ◌>>=◌, ◌>>◌}

-- `bool(value)`
abbrev truthy : Json → Bool
truthy null = false
truthy (bool b) = b
truthy (int n) = not (eq_int n (pos 0))
truthy (float x) = not (eq_float x (place (pos 0)))
truthy (str s) = not (s == "")
truthy (arr nil) = false
truthy (arr (cons x xs)) = true
truthy (obj end) = false
truthy (obj (field k v fs)) = true

-- `values[name]`; the name is there
abbrev value_at : Dict Float → String → Float
value_at d name = elim (Dict.get d name) [ none ↦ place (pos 0) | some x ↦ x ]

-- `property_map.get(type_id, {}).get(name)`
abbrev native_property : Bool → String → String → Option String
native_property has_length type_id name =
    if type_id == "Part::Box"
    then Dict.get (("width", "Length") ∷ ("depth", "Width") ∷ ("height", "Height") ∷ []) name
    else if type_id == "Part::Cylinder"
    then Dict.get (("radius", "Radius") ∷ ("height", "Height") ∷ []) name
    else if type_id == "Part::Extrusion"
    then Dict.get (("length", if has_length then "LengthFwd" else "Dir") ∷ []) name
    else none

-- `shape is not None and ... and not shape.isNull() and ... and not shape.isValid()`
abbrev pub is_invalid : Option Shape → Bool
is_invalid none = false
is_invalid (some s) = elim s.is_null [
  | some false ↦ elim s.is_valid [ some valid ↦ not valid | none ↦ false ]
  | _ ↦ false
]

module _ {W Doc Obj : Type 0} (host : Host W Doc Obj) (ops : FloatOps) where
  unfoldable pub apply_box : Doc → Action → Cad W (Unit {0})
  apply_box d a = do
    i ← step (required_string a "feature_id")
    v ← step (positive_parameters ops a ("width" ∷ "depth" ∷ "height" ∷ []))
    o ← add_tagged host ops d "Part::Box" i "box"
    set host ops o "Length" (number (value_at v "width"))
    set host ops o "Width" (number (value_at v "depth"))
    set host ops o "Height" (number (value_at v "height"))

  unfoldable pub apply_cylinder : Doc → Action → Cad W (Unit {0})
  apply_cylinder d a = do
    i ← step (required_string a "feature_id")
    v ← step (positive_parameters ops a ("radius" ∷ "height" ∷ []))
    o ← add_tagged host ops d "Part::Cylinder" i "cylinder"
    set host ops o "Radius" (number (value_at v "radius"))
    set host ops o "Height" (number (value_at v "height"))

  -- `for item in action.parameters["constraints"]`
  unfoldable pub add_constraints : Doc → Action → Cad W (Unit {0})
  add_constraints d a = do
    sketch ← required_object host ops d (target_of host ops a) a
    mapping ← answer (λ w. geometry_map host w sketch)
    constraints ← list_at host ops a "constraints"
    each
        (λ item. step (constraint_of ops a mapping item) >>= λ c.
          call (λ w. host.add_constraint w sketch c))
        constraints

  -- `if hasattr(obj, name): setattr(obj, name, value)`
  abbrev set_if_there : Obj → String → Value Obj → Cad W (Unit {0})
  set_if_there o name v w = elim (host.attribute w o name) [
    | none ↦ pure tt w
    | some old ↦ set host ops o name v w
  ]

  -- `_extrude(document, action)`
  unfoldable pub apply_extrude : Doc → Action → Cad W (Unit {0})
  apply_extrude d a = do
    base ← required_object host ops d (target_of host ops a) a
    i ← step (required_string a "feature_id")
    v ← step (positive_parameters ops a ("length" ∷ []))
    o ← add_tagged host ops d "Part::Extrusion" i "extrusion"
    set host ops o "Base" (handle base)
    set_if_there o "DirMode" (text "Custom")
    set host ops o "Dir" (vector (along_z (value_at v "length")))
    set_if_there o "LengthFwd" (number (value_at v "length"))
    set host ops o "Solid" (flag (truthy (get_or a.parameters "solid" (bool true))))
    set_if_there o "Symmetric" (flag (truthy (get_or a.parameters "symmetric" (bool false))))

  -- `_boolean_cut(document, action)`
  unfoldable pub apply_cut : Doc → Action → Cad W (Unit {0})
  apply_cut d a = do
    base ← required_object host ops d (target_of host ops a) a
    tool ← required_object host ops d (Dict.get a.parameters "tool_id") a
    i ← step (required_string a "feature_id")
    o ← add_tagged host ops d "Part::Cut" i "boolean_cut"
    set host ops o "Base" (handle base)
    set host ops o "Tool" (handle tool)

  -- `float(action.parameters["value"])`; a number, after the preflight
  abbrev float_of : Option Json → Step Float
  float_of (some (int n)) = elim (ops.of_int n) [ none ↦ raised overflow_error | some x ↦ done x ]
  float_of (some (float x)) = done x
  float_of (some _) = raised type_error
  float_of none = raised (key_error "value")

  abbrev set_native : Obj → String → Float → Cad W (Unit {0})
  set_native o native x =
      if native == "Dir"
      then set host ops o "Dir" (vector (along_z x))
      else set host ops o native (number x)

  -- `hasattr(obj, "LengthFwd")`
  abbrev has_length : W → Obj → Bool
  has_length w o = elim (host.attribute w o "LengthFwd") [ none ↦ false | some v ↦ true ]

  -- `_set_parameter(document, action)`
  unfoldable pub set_feature_parameter : Doc → Action → Cad W (Unit {0})
  set_feature_parameter d a = do
    o ← required_object host ops d (target_of host ops a) a
    name ← step (required_string a "name")
    x ← step (float_of (Dict.get a.parameters "value"))
    native ← read (λ w. native_property (has_length w o) (shown host w o "TypeId" "") name)
    elim native [
      | none ↦ fail "PARAMETER_NOT_FOUND" a
      | some p ↦
          if contains name ("width" ∷ "depth" ∷ "height" ∷ "radius" ∷ "length" ∷ [])
            && not_positive_float x
          then fail "INVALID_PARAMETER" a
          else set_native o p x
    ]

  -- The branch for `delete_feature`
  unfoldable pub apply_delete : Doc → Action → Cad W (Unit {0})
  apply_delete d a w = elim (object_by_id host w d (target_of host ops a)) [
    | none ↦ fail "FEATURE_NOT_FOUND" a w
    | some o ↦ call (λ v. host.remove_object v d (host.object_name v o)) w
  ]

  abbrev apply_kind : ActionKind → Doc → Action → Cad W (Unit {0})
  apply_kind add_box d a = apply_box d a
  apply_kind add_cylinder d a = apply_cylinder d a
  apply_kind ActionKind.create_sketch d a = create_sketch host ops d a
  apply_kind ActionKind.add_sketch_geometry d a = add_sketch_geometry host ops d a
  apply_kind ActionKind.add_constraint d a = add_constraints d a
  apply_kind extrude d a = apply_extrude d a
  apply_kind boolean_cut d a = apply_cut d a
  apply_kind set_parameter d a = set_feature_parameter d a
  apply_kind delete_feature d a = apply_delete d a
  apply_kind _ d a = fail "UNSUPPORTED_ACTION" a

  -- `_apply(document, action)`
  unfoldable pub apply_action : Doc → Action → Cad W (Unit {0})
  unfolding apply_box apply_cylinder add_constraints apply_extrude apply_cut set_feature_parameter
      apply_delete
  apply_action d a = apply_kind a.kind d a

  -- `for obj in document.Objects`
  unfoldable pub inspect : List Obj → W → Step (Unit {0})
  inspect [] w = done tt
  inspect (o ∷ objects) w =
      let rest = inspect objects w in
      if any host.is_broken (host.states w o)
      then failure (record { code = "RECOMPUTE_FAILED"; action_id = none })
      else if is_invalid (host.shape w o)
      then failure (record { code = "INVALID_SHAPE"; action_id = none })
      else rest

  -- `_recompute_and_inspect(document)`
  unfoldable pub recompute_and_inspect : Doc → Cad W (Unit {0})
  unfolding inspect
  recompute_and_inspect d = do
    result ← call (λ w. host.recompute w d)
    elim result [
      | false ↦ step (failure (record { code = "RECOMPUTE_FAILED"; action_id = none }))
      | true ↦ λ w. step (inspect (host.objects w d) w) w
    ]
