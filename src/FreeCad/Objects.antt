-- ===== src/FreeCad/Objects.antt =====
-- The methods of freecad.py that read and tag native objects, and its snapshots. The selection that a
-- snapshot also shows is left out: nothing reads it, and its exceptions are swallowed.
use cadrig.Base.{
  ℕ, ℤ, String, Bool, false, Option, none, some, List, [], ◌∷◌, ◌++◌, ◌==◌, pos, Result, ok, err,
  ◌>>=◌, traverse, type_error, value_error, attribute_error, map, if◌then◌else◌,
}
use cadrig.Base.Text.{starts_with}
use cadrig.Base.Dict
use cadrig.Base.Dict.{Dict}
use cadrig.Json.{
  Json, null, bool, int, float, str, arr, obj, Float, place, entries, items_of, not_positive_float,
}
use cadrig.Contracts.{FeatureSnapshot, DocumentSnapshot, feature_snapshot, document_snapshot}
use cadrig.FreeCad.Parameters.{is_finite}
use cadrig.FreeCad.Host.{Host, Value, text, handle, vector, flag, many, Shape}

module _ {W Doc Obj : Type 0} (host : Host W Doc Obj) where
  -- `value if isinstance(value, str) and value else default`
  abbrev text_or : String → Option (Value Obj) → String
  text_or default (some (text s)) = if s == "" then default else s
  text_or default _ = default

  -- `str(getattr(obj, name, default))`
  abbrev pub shown : W → Obj → String → String → String
  shown w o name default = elim (host.attribute w o name) [ none ↦ default | some v ↦ host.show v ]

  -- `_feature_id(obj)`
  unfoldable pub feature_id : W → Obj → String
  feature_id w o = text_or (host.object_name w o) (host.attribute w o "CadrigFeatureId")

  -- `_feature_kind(obj)`
  unfoldable pub feature_kind : W → Obj → String
  feature_kind w o = text_or (shown w o "TypeId" "unknown") (host.attribute w o "CadrigFeatureKind")

  -- `next((obj for obj in objects if self._feature_id(obj) == feature_id), None)`
  unfoldable pub find_object : W → String → List Obj → Option Obj
  find_object w i [] = none
  find_object w i (o ∷ objects) =
      let rest = find_object w i objects in if feature_id w o == i then some o else rest

  -- `_object_by_id(document, feature_id)`
  unfoldable pub object_by_id : W → Doc → Option Json → Option Obj
  unfolding find_object
  object_by_id w d (some (str i)) = find_object w i (host.objects w d)
  object_by_id w d _ = none

  -- `_optional_number(value)`: `TypeError` and `ValueError` give `None`, and so does what is not finite.
  abbrev optional : Result Float → Result (Option Float)
  optional (ok x) = ok (if is_finite x then some x else none)
  optional (err type_error) = ok none
  optional (err value_error) = ok none
  optional (err e) = err e

  unfoldable pub optional_number : Value Obj → Result (Option Float)
  optional_number v = optional (host.real v)

  -- `_number(getattr(obj, name))`
  abbrev pub number_at : W → Obj → String → Result Json
  number_at w o name = elim (host.attribute w o name) [
    | none ↦ err attribute_error
    | some v ↦ host.real v >>= λ x. ok (float x)
  ]

  abbrev length_of_direction : Option (Value Obj) → Float
  length_of_direction (some (vector v)) = host.vector_length v
  length_of_direction _ = place (pos 0)

  -- `value is not None and value > 0`, else the length of the direction
  abbrev positive_or : Float → Option Float → Float
  positive_or default none = default
  positive_or default (some x) = if not_positive_float x then default else x

  -- `_extrusion_length(obj)`; a direction is a vector
  unfoldable pub extrusion_length : W → Obj → Result Float
  unfolding optional_number
  extrusion_length w o =
      let default = length_of_direction (host.attribute w o "Dir") in
      elim (host.attribute w o "LengthFwd") [
        | none ↦ ok default
        | some v ↦ optional_number v >>= λ x. ok (positive_or default x)
      ]

  -- `{str(key): int(value) for key, value in payload.items()}`
  abbrev int_entry : String × Json → Result (String × ℤ)
  int_entry (k, v) = host.int_of v >>= λ i. ok (k, i)

  abbrev map_of_payload : Option Json → Result (Dict ℤ)
  map_of_payload none = ok []
  map_of_payload (some (obj fs)) = traverse int_entry (entries fs)
  map_of_payload (some _) = err attribute_error

  -- `_geometry_map(sketch)`: what cannot be parsed is an empty map.
  unfoldable pub geometry_map : W → Obj → Result (Dict ℤ)
  geometry_map w o = elim (host.attribute w o "CadrigGeometryMap") [
    | some (text s) ↦ map_of_payload (host.loads (if s == "" then "{}" else s))
    | none ↦ map_of_payload (host.loads "{}")
    | some _ ↦ ok []
  ]

  -- `self._feature_id(obj.Base) if getattr(obj, "Base", None) else None`
  abbrev id_at : W → Obj → String → Json
  id_at w o name = elim (host.attribute w o name) [
    | some (handle p) ↦ str (feature_id w p)
    | _ ↦ null
  ]

  -- `len(getattr(obj, name, ()))`
  abbrev count_at : W → Obj → String → ℕ
  count_at w o name = elim (host.attribute w o name) [ some (many n) ↦ n | _ ↦ 0 ]

  -- `int(getattr(obj, "GeometryCount", len(getattr(obj, "Geometry", ()))))`
  abbrev geometry_count : W → Obj → Result ℤ
  geometry_count w o = elim (host.attribute w o "GeometryCount") [
    | none ↦ ok (pos (count_at w o "Geometry"))
    | some v ↦ host.whole v
  ]

  -- `bool(getattr(obj, "Solid", False))`
  abbrev flag_at : W → Obj → String → Bool
  flag_at w o name = elim (host.attribute w o name) [ some (flag b) ↦ b | _ ↦ false ]

  abbrev sketch_parameters : W → Obj → Result (Dict Json)
  sketch_parameters w o = do
    mapping ← geometry_map w o
    count ← geometry_count w o
    ok (
        ("geometry_ids", arr (items_of (map str (host.sorted (Dict.keys mapping)))))
        ∷ ("geometry_count", int count)
        ∷ ("constraint_count", int (pos (count_at w o "Constraints")))
        ∷ [])

  -- The parameters by the native type
  unfoldable pub native_parameters : W → Obj → String → Result (Dict Json)
  unfolding feature_id extrusion_length geometry_map
  native_parameters w o type_id =
      if type_id == "Part::Box"
      then (do
        width ← number_at w o "Length"
        depth ← number_at w o "Width"
        height ← number_at w o "Height"
        ok (("width", width) ∷ ("depth", depth) ∷ ("height", height) ∷ []))
      else if type_id == "Part::Cylinder"
      then (do
        radius ← number_at w o "Radius"
        height ← number_at w o "Height"
        ok (("radius", radius) ∷ ("height", height) ∷ []))
      else if starts_with type_id "Sketcher::SketchObject"
      then sketch_parameters w o
      else if type_id == "Part::Extrusion"
      then (do
        x ← extrusion_length w o
        ok (
            ("base_id", id_at w o "Base")
            ∷ ("length", float x)
            ∷ ("solid", bool (flag_at w o "Solid"))
            ∷ []))
      else if type_id == "Part::Cut"
      then ok (("base_id", id_at w o "Base") ∷ ("tool_id", id_at w o "Tool") ∷ [])
      else ok []

  abbrev measure : String → Option Float → Dict Json
  measure name none = []
  measure name (some x) = (name, float x) ∷ []

  -- `volume` and `area` of a shape that is there and not null
  unfoldable pub shape_parameters : Option Shape → Dict Json
  shape_parameters none = []
  shape_parameters (some s) = elim s.is_null [
    | some false ↦ measure "volume" s.volume ++ measure "area" s.area
    | _ ↦ []
  ]

  -- `_feature_snapshot(obj)`
  unfoldable pub snapshot_of_object : W → Obj → Result FeatureSnapshot
  unfolding native_parameters shape_parameters feature_kind feature_id
  snapshot_of_object w o =
      let type_id = shown w o "TypeId" "Unknown" in
      do
        native ← native_parameters w o type_id
        feature_snapshot (feature_id w o) (feature_kind w o) (
            ("label", str (shown w o "Label" (host.object_name w o)))
            ∷ ("native_type", str type_id)
            ∷ (native ++ shape_parameters (host.shape w o)))

  -- `_snapshot(document, revision)`
  unfoldable pub snapshot : W → Doc → ℕ → Result DocumentSnapshot
  unfolding snapshot_of_object
  snapshot w d revision = do
    features ← traverse (snapshot_of_object w) (host.objects w d)
    document_snapshot (host.document_name w d) revision features
