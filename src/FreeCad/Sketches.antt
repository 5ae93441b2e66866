-- ===== src/FreeCad/Sketches.antt =====
-- `_tag`, `_create_sketch`, `_add_sketch_geometry` and `_add_constraints` of freecad.py.
use cadrig.Base.{
  ℤ, String, Bool, true, false, Option, none, some, List, [], ◌∷◌, ◌==◌, pos, type_error, key_error,
  contains, if◌then◌else◌,
}
use cadrig.Base.Text.{starts_with}
use cadrig.Base.Dict
use cadrig.Base.Dict.{Dict}
use cadrig.Json.{Json, int, str, arr, obj, Float, place, FloatOps, items, entries}
use cadrig.Contracts.{Action, get_or}
use cadrig.Steps.{raised}
use cadrig.FreeCad.Names.{internal_name}
use cadrig.FreeCad.Parameters.{required_string, finite_number, above_zero, or_invalid, point}
use cadrig.FreeCad.Host.{
  Host, Vector, identity, turn, Geometry, line_segment, circle, Value, text, placed,
}
use cadrig.FreeCad.Objects.{shown, object_by_id, geometry_map}
use cadrig.FreeCad.Monad.{Cad, pure, step, fail, read, answer, call, ◌>>=◌, ◌>>◌}

abbrev zero_float : Float
zero_float = place (pos 0)

-- The place of 1.0
abbrev one_float : Float
one_float = place (pos 4607182418800017408)

abbrev pub along_x : Float → Vector
along_x x = record { x = x; y = zero_float; z = zero_float }

abbrev pub along_y : Float → Vector
along_y y = record { x = zero_float; y = y; z = zero_float }

abbrev pub along_z : Float → Vector
along_z z = record { x = zero_float; y = zero_float; z = z }

abbrev in_plane : Float × Float → Vector
in_plane (x, y) = record { x = x; y = y; z = zero_float }

abbrev is_text : String → Option Json → Bool
is_text s (some (str t)) = t == s
is_text s _ = false

module _ {W Doc Obj : Type 0} (host : Host W Doc Obj) (ops : FloatOps) where
  -- `setattr(obj, name, value)`
  abbrev pub set : Obj → String → Value Obj → Cad W (Unit {0})
  set o name v = call (λ w. host.set_attribute w o name v)

  -- `_ensure_property(obj, "App::PropertyString", name)`
  unfoldable pub ensure_property : Obj → String → Cad W (Unit {0})
  ensure_property o name w =
      if contains name (host.properties w o)
      then pure tt w
      else call (λ v. host.add_property v o "App::PropertyString" name) w

  -- `_tag(obj, feature_id, feature_kind)`
  unfoldable pub tag : Obj → String → String → Cad W (Unit {0})
  unfolding ensure_property
  tag o feature_id feature_kind = do
    ensure_property o "CadrigFeatureId"
    ensure_property o "CadrigFeatureKind"
    set o "CadrigFeatureId" (text feature_id)
    set o "CadrigFeatureKind" (text feature_kind)
    set o "Label" (text feature_id)

  -- `document.addObject(native_type, self._internal_name(feature_id))` and `_tag`
  unfoldable pub add_tagged : Doc → String → String → String → Cad W Obj
  unfolding tag
  add_tagged d native_type feature_id feature_kind = do
    o ← call (λ w. host.add_object w d native_type (internal_name feature_id))
    tag o feature_id feature_kind
    pure o

  -- `_required_object(document, feature_id, action_id)`
  unfoldable pub required_object : Doc → Option Json → Action → Cad W Obj
  required_object d i a w = elim (object_by_id host w d i) [
    | none ↦ fail "FEATURE_NOT_FOUND" a w
    | some o ↦ pure o w
  ]

  -- The placement on a plane
  abbrev placement : Json → Float → Value Obj
  placement plane offset =
      if is_text "XY" (some plane)
      then placed (along_z offset) identity
      else if is_text "XZ" (some plane)
      then placed (along_y offset) (turn (along_x one_float) 90)
      else placed (along_x offset) (turn (along_y one_float) 90)

  -- `_create_sketch(document, action)`
  unfoldable pub create_sketch : Doc → Action → Cad W (Unit {0})
  unfolding add_tagged ensure_property
  create_sketch d a = do
    i ← step (required_string a "feature_id")
    offset ←
        step
          (or_invalid ops a (finite_number ops (some (get_or a.parameters "offset" (int (pos 0))))))
    o ← add_tagged d "Sketcher::SketchObject" i "sketch"
    ensure_property o "CadrigGeometryMap"
    set o "CadrigGeometryMap" (text "{}")
    set o "Placement" (placement (get_or a.parameters "plane" (str "XY")) offset)

  -- The native geometry of an item
  unfoldable pub geometry_of : Action → Dict Json → Cad W Geometry
  geometry_of a item = elim (Dict.get item "type") [
    | none ↦ step (raised (key_error "type"))
    | some t ↦ elim (is_text "line" (some t)) [
      | true ↦ (do
        start ← step (point ops a (Dict.get item "start"))
        finish ← step (point ops a (Dict.get item "end"))
        pure (line_segment (in_plane start) (in_plane finish)))
      | false ↦ (do
        center ← step (point ops a (Dict.get item "center"))
        radius ← step (or_invalid ops a (above_zero ops (Dict.get item "radius")))
        pure (circle (in_plane center) (along_z one_float) radius))
    ]
  ]

  -- One item: the map with its index. An id is a text, after the preflight.
  unfoldable pub add_item : Action → Obj → Dict ℤ → Dict Json → Cad W (Dict ℤ)
  unfolding geometry_of
  add_item a sketch mapping item = elim (Dict.get item "geometry_id") [
    | none ↦ step (raised (key_error "geometry_id"))
    | some (str s) ↦ elim (Dict.has mapping s) [
      | true ↦ fail "DUPLICATE_GEOMETRY" a
      | false ↦ (do
        g ← geometry_of a item
        i ← call (λ w. host.add_geometry w sketch g)
        pure (Dict.put mapping s i))
    ]
    | some _ ↦ step (raised type_error)
  ]

  -- `for item in action.parameters["geometry"]`
  unfoldable pub add_items : Action → Obj → List Json → Dict ℤ → Cad W (Dict ℤ)
  unfolding add_item
  add_items a sketch [] mapping = pure mapping
  add_items a sketch (obj fs ∷ rest) mapping =
      add_item a sketch mapping (entries fs) >>= λ m. add_items a sketch rest m
  add_items a sketch (_ ∷ rest) mapping = step (raised type_error)

  -- `action.parameters[name]`, iterated over
  abbrev pub list_at : Action → String → Cad W (List Json)
  list_at a name = elim (Dict.get a.parameters name) [
    | none ↦ step (raised (key_error name))
    | some (arr xs) ↦ pure (items xs)
    | some _ ↦ step (raised type_error)
  ]

  -- The target of an action, as a value
  abbrev pub target_of : Action → Option Json
  target_of a = elim a.target_id [ none ↦ none | some t ↦ some (str t) ]

  -- `_add_sketch_geometry(document, action)`
  unfoldable pub add_sketch_geometry : Doc → Action → Cad W (Unit {0})
  unfolding required_object add_items
  add_sketch_geometry d a = do
    sketch ← required_object d (target_of a) a
    type_id ← read (λ w. shown host w sketch "TypeId" "")
    elim (starts_with type_id "Sketcher::SketchObject") [
      | false ↦ fail "INVALID_TARGET" a
      | true ↦ (do
        mapping ← answer (λ w. geometry_map host w sketch)
        geometry ← list_at a "geometry"
        m ← add_items a sketch geometry mapping
        set sketch "CadrigGeometryMap" (text (host.dumps m)))
    ]
