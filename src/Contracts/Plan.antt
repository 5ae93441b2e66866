-- ===== src/Contracts/Plan.antt =====
-- `Action` and `ActionPlan` of contracts.py with `__post_init__`, `from_dict` and `to_dict`. A
-- constructor call with `__post_init__` is a function into `Result`.
use cadrig.Base.{
  ℕ, String, Bool, true, false, not, Option, none, some, List, [], ◌∷◌, ◌==◌, map, unique,
  if◌then◌else◌, pos, Result, ok, err, ◌>>=◌, ◌>>◌, require, traverse, contract_error,
  parameters_not_object, unknown_action_fields, missing_action_field, unknown_action_kind,
  unknown_plan_fields, missing_plan_fields, actions_not_array, unsupported_schema,
  bad_base_revision, no_actions, duplicate_action_ids,
}
use cadrig.Base.Dict
use cadrig.Base.Dict.{Dict}
use cadrig.Json.{
  Json, null, bool, int, str, arr, obj, Fields, end, field, items, entries, fields_of, items_of,
}
use cadrig.Contracts.Payload.{null_list, has_extras, has_missing, get_or, foreign_error}
use cadrig.Contracts.Kinds.{ActionKind, kind_of, kind_value}
use cadrig.Contracts.Identifier.{require_identifier}

abbrev pub schema_version_1 : String
schema_version_1 = "1.0.0"

pub record Action : Type 0 where
  pub action_id : String
  pub kind : ActionKind
  pub target_id : Option String
  pub parameters : Dict Json

pub record ActionPlan : Type 0 where
  pub plan_id : String
  pub document_id : String
  pub base_revision : ℕ
  pub actions : List Action
  pub schema_version : String

abbrev pub action_fields : List String
action_fields = "action_id" ∷ "kind" ∷ "target_id" ∷ "parameters" ∷ []

abbrev pub plan_fields : List String
plan_fields = "schema_version" ∷ "plan_id" ∷ "document_id" ∷ "base_revision" ∷ "actions" ∷ []

unfoldable pub optional_identifier : Json → Result (Option String)
optional_identifier null = ok none
optional_identifier j = require_identifier j "target_id" >>= λ s. ok (some s)

unfoldable pub parameters_of : Json → Result (Dict Json)
parameters_of (obj fs) = ok (entries fs)
parameters_of _ = err (contract_error parameters_not_object)

-- `Action(...)` with `__post_init__`
unfoldable pub make_action : Json → ActionKind → Json → Json → Result Action
unfolding optional_identifier parameters_of
make_action action_id kind target_id parameters = do
  a ← require_identifier action_id "action_id"
  t ← optional_identifier target_id
  p ← parameters_of parameters
  ok (record { action_id = a; kind = kind; target_id = t; parameters = p })

-- `payload[k]`, with `KeyError` turned into a `ContractError`
unfoldable pub action_field : Dict Json → String → Result Json
action_field d k = elim (Dict.get d k) [
  | none ↦ err (contract_error (missing_action_field k))
  | some v ↦ ok v
]

-- `ActionKind(value)`, with `ValueError` turned into a `ContractError`
unfoldable pub kind_field : Json → Result ActionKind
kind_field (str s) = elim (kind_of s) [
  | none ↦ err (contract_error unknown_action_kind)
  | some k ↦ ok k
]
kind_field _ = err (contract_error unknown_action_kind)

unfoldable pub action_of_entries : Dict Json → Result Action
unfolding make_action action_field kind_field
action_of_entries d =
    if has_extras action_fields d then err (contract_error unknown_action_fields) else do
      kind_json ← action_field d "kind"
      kind ← kind_field kind_json
      action_id ← action_field d "action_id"
      make_action action_id kind (get_or d "target_id" null) (get_or d "parameters" (obj end))

-- `Action.from_dict(item)`
unfoldable pub action_from_dict : Json → Result Action
unfolding action_of_entries
action_from_dict (obj fs) = action_of_entries (entries fs)
action_from_dict j = err (foreign_error action_fields unknown_action_fields j)

-- `isinstance(value, int)` and `value >= 0`: `True` and `False` are integers.
unfoldable pub revision_of : Json → Result ℕ
revision_of (int (pos n)) = ok n
revision_of (bool true) = ok 1
revision_of (bool false) = ok 0
revision_of _ = err (contract_error bad_base_revision)

unfoldable pub schema_matches : Json → Bool
schema_matches (str s) = s == schema_version_1
schema_matches _ = false

-- `ActionPlan(...)` with `__post_init__`
unfoldable pub make_plan : Json → Json → Json → Json → List Action → Result ActionPlan
unfolding schema_matches revision_of
make_plan schema_version plan_id document_id base_revision actions = do
  p ← require_identifier plan_id "plan_id"
  d ← require_identifier document_id "document_id"
  require (schema_matches schema_version) unsupported_schema
  r ← revision_of base_revision
  require (not (null_list actions)) no_actions
  require (unique (map (λ a. a.action_id) actions)) duplicate_action_ids
  ok (record {
    plan_id = p;
    document_id = d;
    base_revision = r;
    actions = actions;
    schema_version = schema_version_1;
  })

unfoldable pub actions_of : Json → Result (List Action)
unfolding action_from_dict
actions_of (arr xs) = traverse action_from_dict (items xs)
actions_of _ = err (contract_error actions_not_array)

unfoldable pub plan_of_entries : Dict Json → Result ActionPlan
unfolding make_plan actions_of
plan_of_entries d =
    if has_extras plan_fields d
    then err (contract_error unknown_plan_fields)
    else if has_missing plan_fields d
    then err (contract_error missing_plan_fields)
    else do
      actions ← actions_of (get_or d "actions" null)
      make_plan (get_or d "schema_version" null) (get_or d "plan_id" null)
          (get_or d "document_id" null) (get_or d "base_revision" null) actions

-- `ActionPlan.from_dict(payload)` of an object
unfoldable pub plan_from_dict : Fields → Result ActionPlan
unfolding plan_of_entries
plan_from_dict fs = plan_of_entries (entries fs)

unfoldable pub target_field : Option String → Dict Json
target_field none = []
target_field (some t) = ("target_id", str t) ∷ []

-- `Action.to_dict()`
unfoldable pub action_to_dict : Action → Json
unfolding target_field
action_to_dict a = obj (
    field "action_id" (str a.action_id) (
      field "kind" (str (kind_value a.kind))
        (field "parameters" (obj (fields_of a.parameters)) (fields_of (target_field a.target_id)))))

-- `ActionPlan.to_dict()`
unfoldable pub plan_to_dict : ActionPlan → Fields
unfolding action_to_dict
plan_to_dict p = field "schema_version" (str p.schema_version) (
    field "plan_id" (str p.plan_id) (
      field "document_id" (str p.document_id) (
        field "base_revision" (int (pos p.base_revision))
          (field "actions" (arr (items_of (map action_to_dict p.actions))) end))))
